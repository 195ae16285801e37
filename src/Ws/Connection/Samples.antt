-- ===== src/Ws/Connection/Samples.antt =====
-- A client of src/routes/ws.rs that joins a room with a password, and the server that it meets.
use parrhesia_backend.Common.{
  ℕ, true, false, Option, none, some, [], ◌∷◌, String, string_eq, ◌==◌, if◌then◌else◌,
}
use parrhesia_backend.Common.Int.{pos}
use parrhesia_backend.Net.{v4}
use parrhesia_backend.Float.{fixed}
use parrhesia_backend.Broadcast.{Broadcast, Log, log_bus}
use parrhesia_backend.Admission.{default, pending_auth}
use parrhesia_backend.Rooms.Events.{RoomEvent}
use parrhesia_backend.Passwords.{Crypto, matches, password_invalid}
use parrhesia_backend.Ws.Messages.{key_announce, message, joined_room, welcome}
use parrhesia_backend.Ws.Session.{Input, text, close, framed, Codec}
use parrhesia_backend.Ws.Auth.{answered}
use parrhesia_backend.Server.{Live, State}
use parrhesia_backend.Ws.Connection.{Beat, Visit}

abbrev pub events : Broadcast RoomEvent
events = log_bus RoomEvent

-- The hash of a password is the password.
abbrev pub plain : Crypto
plain = record {
  nfc = λ s. s;
  Phc = String;
  parse = λ s. some s;
  params = λ h. some (record { m_cost = 65536; t_cost = 3; p_cost = 1 });
  algorithm = λ h. "argon2id";
  version = λ h. some 19;
  salt_len = λ h. some 16;
  hash_len = λ h. some 32;
  hash_password = λ p salt s. some s;
  verify_password = λ a s h. if s == h then matches else password_invalid;
}

abbrev pub codec : Codec
codec = record {
  render = λ m. elim m [ welcome _ id _ _ ↦ some id | joined_room ↦ some "joined" | _ ↦ none ];
  parse = λ s.
      if s == "keys"
      then some (key_announce (some "dsa") (some "kem") none)
      else some (message (some s) none none);
}

abbrev pub sizes : String → Option ℕ
sizes key = if key == "dsa" then some 1952 else if key == "kem" then some 1184 else none

abbrev pub parse : String → Option String
parse s = some s

abbrev pub phrase : String
phrase = "telescopes drift slowly"

abbrev pub idle : State fixed events → State fixed events
idle s = s

abbrev pub beat : Input → Beat (State fixed events)
beat i = record {
  alive = true;
  input = i;
  timestamp = pos 9;
  failure = none;
  others = idle;
  recording = idle;
}

abbrev pub visit : Visit ℕ (Live ℕ (Log RoomEvent))
visit = record {
  attempt = record {
    asked = true;
    frames = (true, text phrase) ∷ [];
    now = 5;
    wait = answered 2 false;
    before = idle;
    during = idle;
  };
  uuid = "alice";
  failure = none;
  arriving = idle;
  welcome_sent = true;
  frames = text "keys" ∷ [];
  joining = idle;
  joined_sent = true;
  peers_sent = [];
  started = 100;
  beats = beat (framed 200 (text "hello")) ∷ beat (framed 300 close) ∷ [];
  leaving = idle;
}

-- The guard of the client's authentication is taken.
unfoldable pub server : State fixed events
unfolding pending_auth default
server = record {
  admission = (pending_auth (v4 1) (default ℕ)).1;
  db =
      ("room", record { created_at = pos 1; last_activity = pos 1; password_hash = some phrase })
      ∷ [];
  rest = record { rooms = []; bus = record { next = 0; events = λ s. []; capacities = λ s. 0 } };
}
