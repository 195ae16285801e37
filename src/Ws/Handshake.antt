-- ===== src/Ws/Handshake.antt =====
-- The exchange of keys in `handle_socket` of src/routes/ws.rs: what a client must announce to join.
mod Examples
use parrhesia_backend.Common.{
  ℕ, ◌≡◌, refl, ◌↔◌, sym, ◌∙◌, Bool, true, false, Option, none, some, List, [], ◌∷◌, String,
  if◌then◌else◌, arith, Bool-cases, Option-cases, some_inj, inl, inr,
}
use parrhesia_backend.Ws.Keys.{is_valid_mldsa65_public_key, is_valid_mlkem768_public_key}
use parrhesia_backend.Ws.Messages.{
  IncomingMessage, key_announce, message, commit, welcome_to, is_typing, unknown,
}
use parrhesia_backend.Ws.Session.{
  Frame, text, pong, ping, close, transport_error, ended, binary, Codec,
}

-- Public key, post-quantum public key, signature.
abbrev pub Keys : Type 0
Keys = String × String × Option String

module _ (decode : String → Option ℕ) where
  unfoldable pub announced : Option IncomingMessage → Option Keys
  announced (some (key_announce (some key) (some pq_key) sig)) =
      if is_valid_mldsa65_public_key decode key
      then if is_valid_mlkem768_public_key decode pq_key then some (key, pq_key, sig) else none
      else none
  announced _ = none

  -- The outer `none` is the timeout, which comes when no more frames do.
  unfoldable pub read_keys : Codec → List Frame → Option (Option Keys)
  read_keys codec [] = none
  read_keys codec (text json ∷ frames) = some (announced (codec.parse json))
  read_keys codec (ping _ ∷ frames) = read_keys codec frames
  read_keys codec (pong ∷ frames) = read_keys codec frames
  read_keys codec (_ ∷ frames) = some none

  -- The first frame that is neither a ping nor a pong.
  abbrev pub first_other : List Frame → Option Frame
  first_other [] = none
  first_other (ping _ ∷ frames) = first_other frames
  first_other (pong ∷ frames) = first_other frames
  first_other (f ∷ frames) = some f

  -- The first frame, apart from pings and pongs, announces these keys, and each is of its kind.
  pub record Announces (codec : Codec) (frames : List Frame) (keys : Keys) : Type 0 where
    pub json : String
    pub first : first_other frames ≡ some (text json)
    pub parsed : codec.parse json ≡ some (key_announce (some keys.0) (some keys.1) keys.2)
    pub signs : is_valid_mldsa65_public_key decode keys.0 ≡ true
    pub encapsulates : is_valid_mlkem768_public_key decode keys.1 ≡ true

  Announces-same :
      (codec : Codec) (frames others : List Frame) (keys : Keys)
      → first_other others ≡ first_other frames
      → Announces codec frames keys
      → Announces codec others keys
  Announces-same codec frames others keys e v = record {
    json = v.json;
    first = e ∙ v.first;
    parsed = v.parsed;
    signs = v.signs;
    encapsulates = v.encapsulates;
  }

  announced_lem :
      (m : Option IncomingMessage) (keys : Keys)
      → announced m ≡ some keys
      → (m ≡ some (key_announce (some keys.0) (some keys.1) keys.2))
        × (is_valid_mldsa65_public_key decode keys.0 ≡ true)
        × (is_valid_mlkem768_public_key decode keys.1 ≡ true)
  unfolding announced
  announced_lem none keys h = cc
  announced_lem (some (key_announce (some key) (some pq_key) sig)) keys h = ground (arith, h)
  announced_lem (some (key_announce (some key) none sig)) keys h = cc
  announced_lem (some (key_announce none pq_key sig)) keys h = cc
  announced_lem (some (message _ _ _)) keys h = cc
  announced_lem (some (commit _)) keys h = cc
  announced_lem (some (welcome_to _ _)) keys h = cc
  announced_lem (some is_typing) keys h = cc
  announced_lem (some unknown) keys h = cc

  pub read_keys-Announces :
      (codec : Codec) (frames : List Frame) (keys : Keys)
      → read_keys codec frames ≡ some (some keys)
      → Announces codec frames keys
  unfolding read_keys
  read_keys-Announces codec [] keys h = cc
  read_keys-Announces codec (text json ∷ frames) keys h =
      let (p, a, b) = announced_lem (codec.parse json) keys (some_inj h) in
      record { json = json; first = refl; parsed = p; signs = a; encapsulates = b }
  read_keys-Announces codec (ping _ ∷ frames) keys h =
      Announces-same codec frames _ keys refl (read_keys-Announces codec frames keys h)
  read_keys-Announces codec (pong ∷ frames) keys h =
      Announces-same codec frames _ keys refl (read_keys-Announces codec frames keys h)
  read_keys-Announces codec (close ∷ frames) keys h = cc
  read_keys-Announces codec (transport_error ∷ frames) keys h = cc
  read_keys-Announces codec (ended ∷ frames) keys h = cc
  read_keys-Announces codec (binary ∷ frames) keys h = cc

  Announces-read_keys :
      (codec : Codec) (frames : List Frame) (keys : Keys)
      → Announces codec frames keys
      → read_keys codec frames ≡ some (some keys)
  unfolding read_keys announced
  Announces-read_keys codec [] keys v = absurd (ground (arith, v.first))
  Announces-read_keys codec (text json ∷ frames) keys v =
      ground (arith, v.first, v.parsed, v.signs, v.encapsulates)
  Announces-read_keys codec (ping _ ∷ frames) keys v =
      Announces-read_keys codec frames keys (Announces-same codec _ frames keys refl v)
  Announces-read_keys codec (pong ∷ frames) keys v =
      Announces-read_keys codec frames keys (Announces-same codec _ frames keys refl v)
  Announces-read_keys codec (close ∷ frames) keys v = absurd (ground (arith, v.first))
  Announces-read_keys codec (transport_error ∷ frames) keys v = absurd (ground (arith, v.first))
  Announces-read_keys codec (ended ∷ frames) keys v = absurd (ground (arith, v.first))
  Announces-read_keys codec (binary ∷ frames) keys v = absurd (ground (arith, v.first))

  -- A client is let join with some keys exactly if the first frame that it sends in time, apart from
  -- pings and pongs, announces them, and each is a key of its kind.
  pub read_keys_lem :
      (codec : Codec) (frames : List Frame) (keys : Keys)
      → (read_keys codec frames ≡ some (some keys)) ↔ Announces codec frames keys
  read_keys_lem codec frames keys =
      (read_keys-Announces codec frames keys, Announces-read_keys codec frames keys)
