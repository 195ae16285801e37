-- ===== src/Ws/Auth/Examples.antt =====
-- `authenticate` in src/routes/ws.rs with a client that answers a ping and then sends its password.
use parrhesia_backend.Common.{
  ℕ, ◌≡◌, ◌↔◌, refl, false, true, Option, some, [], ◌∷◌, String, string_eq, ◌==◌, if◌then◌else◌,
}
use parrhesia_backend.Common.Dict.{get}
use parrhesia_backend.Server.{Server}
use parrhesia_backend.Float.{fixed}
use parrhesia_backend.Admission.{default, check_at, spend}
use parrhesia_backend.Passwords.{
  Crypto, matches, password_invalid, normalize, compute, is_accepted, verify_job, verify,
}
use parrhesia_backend.Ws.Session.{text, pong, ping}
use parrhesia_backend.Ws.Auth.{
  Attempt, answered, read_text, judge, await_verification, conclude, attempt, read_password, ask,
  authenticate,
}
use parrhesia_backend.Ws.Auth.Laws.{IsProven, authenticate-IsProven}

-- The hash of a password is the password.
abbrev plain : Crypto
plain = record {
  nfc = λ s. s;
  Phc = String;
  parse = λ s. some s;
  params = λ h. some (record { m_cost = 65536; t_cost = 3; p_cost = 1 });
  algorithm = λ h. "argon2id";
  version = λ h. some 19;
  salt_len = λ h. some 16;
  hash_len = λ h. some 32;
  hash_password = λ p salt s. some s;
  verify_password = λ a s h. if s == h then matches else password_invalid;
}

abbrev server : Server ℕ (Unit {0})
server = record { admission = default ℕ; rest = tt; db = [] }

abbrev try : Attempt ℕ (Unit {0})
try = record {
  asked = true;
  frames =
      (true, ping "are you there") ∷ (true, pong) ∷ (true, text "telescopes drift slowly") ∷ [];
  now = 5;
  wait = answered 2 false;
  before = λ s. s;
  during = λ s. s;
}

abbrev parse : String → Option String
parse s = some s

let_in : (authenticate fixed plain parse try "room" "telescopes drift slowly" server).0 ≡ true
unfolding authenticate ask read_text read_password attempt await_verification judge conclude
    check_at spend verify normalize compute is_accepted verify_job default get
let_in = refl

kept_out : (authenticate fixed plain parse try "room" "another long passphrase" server).0 ≡ false
unfolding authenticate ask read_text read_password attempt await_verification judge conclude
    check_at spend verify normalize compute is_accepted verify_job default get
kept_out = refl

authenticate-IsProven_example :
    ((authenticate fixed plain parse try "room" "telescopes drift slowly" server).0 ≡ true)
    ↔ IsProven fixed plain parse try "room" "telescopes drift slowly" server
authenticate-IsProven_example =
    authenticate-IsProven fixed plain parse try "room" "telescopes drift slowly" server
