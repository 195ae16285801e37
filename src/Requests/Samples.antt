-- ===== src/Requests/Samples.antt =====
-- A server with the default configuration, a request that creates a room with a password, and a visit
-- to that room, as test data.
use parrhesia_backend.Common.{
  ℕ, true, false, Option, none, some, [], ◌∷◌, String, string_eq, ◌==◌, if◌then◌else◌,
}
use parrhesia_backend.Common.Int.{pos}
use parrhesia_backend.Net.{IpAddr, v4}
use parrhesia_backend.Float.{fixed}
use parrhesia_backend.Http.{HeaderMap, visible}
use parrhesia_backend.Broadcast.{Log, log_bus}
use parrhesia_backend.Config.{Config, Uri, Parsers}
use parrhesia_backend.Rooms.Events.{RoomEvent}
use parrhesia_backend.Passwords.{Crypto, matches, password_invalid}
use parrhesia_backend.RoomRoutes.{Moment}
use parrhesia_backend.Ws.Messages.{key_announce, message, joined_room, welcome}
use parrhesia_backend.Ws.Session.{Input, text, close, framed, Codec}
use parrhesia_backend.Ws.Auth.{answered}
use parrhesia_backend.Ws.Upgrade.{Arrival}
use parrhesia_backend.Ws.Connection.{Beat, Visit}
use parrhesia_backend.Requests.{Request, creates, visits, Setting, World, F, X}

abbrev pub home : String
home = "https://parrhesia.chat"

abbrev uri_of : String → Option Uri
uri_of s =
    if s == home
    then some (record {
      scheme_str = some "https";
      authority = some "parrhesia.chat";
      path = "/";
      query = none;
    })
    else none

abbrev ip_of : String → Option IpAddr
ip_of s = if s == "127.0.0.1" then some (v4 2130706433) else none

abbrev pub parsers : Parsers
parsers = record { uri = uri_of; header_value = λ s. some (visible s); ip_addr = ip_of }

abbrev pub defaults : Config
defaults = record {
  database_url = "sqlite:./parrhesia.db?mode=rwc";
  port = 3000;
  bind_address = v4 2130706433;
  allowed_origins = home ∷ [];
  trusted_proxies = [];
  inactivity_expiry_hours = 24;
  cleanup_interval_mins = 5;
}

-- The hash of a password is the password.
abbrev plain : Crypto
plain = record {
  nfc = λ s. s;
  Phc = String;
  parse = λ s. some s;
  params = λ h. some (record { m_cost = 65536; t_cost = 3; p_cost = 1 });
  algorithm = λ h. "argon2id";
  version = λ h. some 19;
  salt_len = λ h. some 16;
  hash_len = λ h. some 32;
  hash_password = λ p salt s. some s;
  verify_password = λ a s h. if s == h then matches else password_invalid;
}

abbrev codec : Codec
codec = record {
  render = λ m. elim m [ welcome _ id _ _ ↦ some id | joined_room ↦ some "joined" | _ ↦ none ];
  parse = λ s.
      if s == "keys"
      then some (key_announce (some "dsa") (some "kem") none)
      else some (message (some s) none none);
}

abbrev sizes : String → Option ℕ
sizes key = if key == "dsa" then some 1952 else if key == "kem" then some 1184 else none

abbrev pub phrase : String
phrase = "telescopes drift slowly"

abbrev pub setting : Setting
setting = record {
  float = fixed;
  bus = log_bus RoomEvent;
  codec = codec;
  key_length = sizes;
  crypto = plain;
  read_password = λ s. some s;
  read_request = λ bytes. some (some phrase);
  read_ip = ip_of;
  common_passwords = [];
  config = defaults;
}

abbrev pub no_channels : Log RoomEvent
no_channels = record { next = 0; events = λ x. []; capacities = λ x. 0 }

abbrev pub idle : World setting → World setting
idle s = s

abbrev moment : String → Moment (F setting) (X setting)
moment uuid = record {
  now = 5;
  timestamp = pos 1000;
  permits = 2;
  panicked = false;
  salt = 7;
  uuid = uuid;
  failure = none;
  others = idle;
}

abbrev json_headers : HeaderMap
json_headers = ("content-type", visible "application/json") ∷ []

abbrev pub creation : String → Request (F setting) (X setting)
creation uuid = creates (moment uuid) (v4 1) json_headers (1 ∷ [])

abbrev beat : Input → Beat (World setting)
beat i = record {
  alive = true;
  input = i;
  timestamp = pos 1009;
  failure = none;
  others = idle;
  recording = idle;
}

-- A connection; other tasks come before it attaches.
abbrev visit : (World setting → World setting) → Visit (F setting) (X setting)
visit arriving = record {
  attempt = record {
    asked = true;
    frames = (true, text phrase) ∷ [];
    now = 15;
    wait = answered 2 false;
    before = idle;
    during = idle;
  };
  uuid = "alice";
  failure = none;
  arriving = arriving;
  welcome_sent = true;
  frames = text "keys" ∷ [];
  joining = idle;
  joined_sent = true;
  peers_sent = [];
  started = 100;
  beats = beat (framed 200 (text "hello")) ∷ beat (framed 300 close) ∷ [];
  leaving = idle;
}

abbrev pub arrival : Arrival (F setting) (X setting)
arrival = record { now = 10; failure = none; others = idle }

abbrev pub meeting : (World setting → World setting) → Request (F setting) (X setting)
meeting arriving =
    visits arrival "room" (v4 2) (("origin", visible home) ∷ []) idle (some (visit arriving))
