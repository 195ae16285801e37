-- ===== src/Ws/Handshake/Examples.antt =====
-- The exchange of keys in src/routes/ws.rs with a client that announces after a ping.
use parrhesia_backend.Common.{
  ℕ, ◌≡◌, ◌↔◌, Option, none, some, List, [], ◌∷◌, String, string_eq, ◌==◌, if◌then◌else◌,
}
use parrhesia_backend.Ws.Messages.{key_announce}
use parrhesia_backend.Ws.Session.{Frame, text, ping, Codec}
use parrhesia_backend.Ws.Handshake.{Announces, read_keys, read_keys_lem}

abbrev announcing : Codec
announcing = record {
  render = λ m. none;
  parse = λ s. some (key_announce (some "dsa") (some "kem") none);
}

abbrev sizes : String → Option ℕ
sizes key = if key == "dsa" then some 1952 else if key == "kem" then some 1184 else none

abbrev frames : List Frame
frames = ping "are you there" ∷ text "keys" ∷ []

read_keys_lem_example :
    (read_keys sizes announcing frames ≡ some (some ("dsa", "kem", none)))
    ↔ Announces sizes announcing frames ("dsa", "kem", none)
read_keys_lem_example = read_keys_lem sizes announcing frames ("dsa", "kem", none)
