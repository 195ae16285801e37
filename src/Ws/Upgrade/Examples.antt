-- ===== src/Ws/Upgrade/Examples.antt =====
-- The theorems about `ws_handler` in src/routes/ws.rs at a server with one room that has a password.
use parrhesia_backend.Common.{ℕ, ◌≡◌, refl, Option, none, some, [], ◌∷◌, String}
use parrhesia_backend.Common.Dict.{get}
use parrhesia_backend.Common.Int.{pos}
use parrhesia_backend.Net.{IpAddr, v4}
use parrhesia_backend.Float.{fixed}
use parrhesia_backend.Http.{HeaderMap, visible, to_str, get_all}
use parrhesia_backend.Server.{Server}
use parrhesia_backend.Config.{Config}
use parrhesia_backend.Admission.{default, check_at, spend, pending_auth}
use parrhesia_backend.Db.{room_password}
use parrhesia_backend.Security.{client_ip, contains_ip}
use parrhesia_backend.Ws.Upgrade.{
  upgraded, Arrival, is_allowed_origin, is_listed_origin, take_slot, find_room, admit, ws_handler,
}
use parrhesia_backend.Ws.Upgrade.Grants.{IsGranted, ws_handler-IsGranted}

abbrev config : Config
config = record {
  database_url = "sqlite:./parrhesia.db?mode=rwc";
  port = 3000;
  bind_address = v4 2130706433;
  allowed_origins = "https://parrhesia.chat" ∷ [];
  trusted_proxies = [];
  inactivity_expiry_hours = 24;
  cleanup_interval_mins = 5;
}

abbrev server : Server ℕ (Unit {0})
server = record {
  admission = default ℕ;
  rest = tt;
  db =
      ("room", record { created_at = pos 1; last_activity = pos 1; password_hash = some "hash" })
      ∷ [];
}

abbrev arrival : Arrival ℕ (Unit {0})
arrival = record { now = 5; failure = none; others = λ s. s }

abbrev headers : HeaderMap
headers = ("origin", visible "https://parrhesia.chat") ∷ []

abbrev nowhere : String → Option IpAddr
nowhere s = none

guarded :
    (ws_handler fixed nowhere config arrival "room" (v4 1) headers server).0
    ≡ upgraded "room" (some (some "hash")) (some (v4 1))
unfolding ws_handler admit find_room take_slot is_allowed_origin is_listed_origin get_all to_str
    client_ip contains_ip check_at spend pending_auth room_password default get
guarded = refl

ws_handler-IsGranted_example :
    IsGranted fixed nowhere config arrival "room"
      (v4 1)
      headers
      server
      (ws_handler fixed nowhere config arrival "room" (v4 1) headers server).0
ws_handler-IsGranted_example =
    ws_handler-IsGranted fixed nowhere config arrival "room" (v4 1) headers server
