-- ===== src/RoomRoutes/Examples.antt =====
-- The theorems about src/routes/rooms.rs at requests to a new server.
use parrhesia_backend.Common.{
  ℕ, ◌+◌, ◌-◌, ◌*◌, ◌≤◌, arith, ◌≡◌, refl, ap, true, false, Option, none, some, List, [], ◌∷◌,
  String,
}
use parrhesia_backend.Common.Dict.{get}
use parrhesia_backend.Common.Texts.{trim, trim_end, trim_start}
use parrhesia_backend.Common.Int.{pos}
use parrhesia_backend.Net.{IpAddr, v4}
use parrhesia_backend.Float.{fixed, unit}
use parrhesia_backend.Http.{HeaderMap, visible, to_str, get_all}
use parrhesia_backend.Server.{Server}
use parrhesia_backend.Config.{Config}
use parrhesia_backend.Admission.{creation, default, check_at, spend}
use parrhesia_backend.Admission.Level.{level}
use parrhesia_backend.Db.{create_room_with_password}
use parrhesia_backend.Security.{client_ip, contains_ip}
use parrhesia_backend.Passwords.{Crypto, matches, hash, normalize, compute, is_listed}
use parrhesia_backend.RoomRoutes.{
  create_room_response, json, read_request, Moment, store_room, create_with, create_admitted,
  create_room,
}
use parrhesia_backend.RoomRoutes.Laws.{Settled, create_room-Settled}
use parrhesia_backend.RoomRoutes.Quota
use parrhesia_backend.RoomRoutes.Quota.{Arrival, created-le}
use parrhesia_backend.RoomRoutes.Payment.{buckets, IsSteady, IsThrifty, Paid-aged}
use parrhesia_backend.RoomRoutes.Guards.{IsGranted, create_room-IsGranted}

-- The hash of a password is the password.
abbrev plain : Crypto
plain = record {
  nfc = λ s. s;
  Phc = String;
  parse = λ s. some s;
  params = λ h. some (record { m_cost = 65536; t_cost = 3; p_cost = 1 });
  algorithm = λ h. "argon2id";
  version = λ h. some 19;
  salt_len = λ h. some 16;
  hash_len = λ h. some 32;
  hash_password = λ p salt s. some s;
  verify_password = λ a s h. matches;
}

abbrev config : Config
config = record {
  database_url = "sqlite:./parrhesia.db?mode=rwc";
  port = 3000;
  bind_address = v4 2130706433;
  allowed_origins = "https://parrhesia.chat" ∷ [];
  trusted_proxies = [];
  inactivity_expiry_hours = 24;
  cleanup_interval_mins = 5;
}

abbrev server : Server ℕ (Unit {0})
server = record { admission = default ℕ; rest = tt; db = [] }

abbrev moment : Moment ℕ (Unit {0})
moment = record {
  now = 5;
  timestamp = pos 1000;
  permits = 2;
  panicked = false;
  salt = 7;
  uuid = "room";
  failure = none;
  others = λ s. s;
}

abbrev headers : HeaderMap
headers = ("content-type", visible "application/json; charset=utf-8") ∷ []

abbrev nowhere : String → Option IpAddr
nowhere s = none

abbrev phrase : List ℕ → Option (Option String)
phrase bytes = some (some "telescopes drift slowly")

created :
    (create_room fixed plain nowhere phrase [] config moment (v4 1) headers (1 ∷ []) server).0
    ≡ json (create_room_response "room" true)
unfolding create_room create_admitted create_with store_room read_request client_ip contains_ip
    check_at spend hash normalize compute is_listed create_room_with_password get_all to_str default
    get trim trim_end trim_start
created = refl

create_room-Settled_example :
    Settled
      (λ t. t ≡ [])
      moment
      (create_room fixed plain nowhere phrase [] config moment (v4 1) headers (1 ∷ []) server)
create_room-Settled_example =
    create_room-Settled fixed plain nowhere phrase [] config moment (λ t. t ≡ []) (v4 1) headers
      (1 ∷ []) server refl (λ x q. q)

create_room-IsGranted_example :
    IsGranted fixed plain nowhere phrase [] config moment (v4 1) headers (1 ∷ []) server
create_room-IsGranted_example =
    create_room-IsGranted fixed plain nowhere phrase [] config moment (v4 1) headers (1 ∷ []) server
      (ap (λ r. r.status) created)

-- Two rooms without a password.
abbrev ask : ℕ → Arrival (Unit {0})
ask now = record {
  moment = record moment { now = now };
  peer = v4 1;
  headers = [];
  body = [];
  ends = now + 2;
  before = λ s. s;
}

-- Others that do nothing give nothing.
thrifty : (t t' : ℕ) → t ≤ t' → IsThrifty {X = Unit {0}} (v4 1) t t' (λ s. s)
thrifty t t' h s steady = Paid-aged (v4 1) t t' (buckets s) h steady

new_buckets : IsSteady 0 (buckets server)
unfolding default get
new_buckets = (tt, λ k b g. cc)

created-le_example :
    Quota.created plain nowhere phrase [] config (v4 1) (ask 5 ∷ ask 9 ∷ []) server * unit
    ≤ level (creation (v4 1)) 0 (buckets server) + (11 - 0) * 5
created-le_example =
    created-le plain nowhere phrase [] config (v4 1) 0 (ask 5 ∷ ask 9 ∷ []) server new_buckets (
      thrifty 0 5 (omega arith),
      thrifty 5 7 (omega arith),
      omega arith,
      omega arith,
      (thrifty 7 9 (omega arith), thrifty 9 11 (omega arith), omega arith, omega arith, tt),
    )
