-- ===== src/Ws/Connection/Greeting.antt =====
-- The messages that `handle_socket` of src/routes/ws.rs writes before its loop, as a list.
use parrhesia_backend.Common.{
  ◌≡◌, refl, sym, ap, ◌∙◌, Bool, true, false, Option, none, some, List, [], ◌∷◌, ◌++◌, String,
  if◌then◌else◌,
}
use mathlib.Core.List.{append-nil, append_assoc}
use parrhesia_backend.Rooms.{PeerSnapshot, JoinOutcome, joined, full, room_gone}
use parrhesia_backend.Ws.Messages.{OutgoingMessage, joined_room, peer_key, room_full}
use parrhesia_backend.Ws.Session.{Effect, sent_text, Codec}
use parrhesia_backend.Ws.Connection.{send_json, send_peers, greet}

-- The keys of the peers, in their order.
abbrev pub peer_keys : PeerSnapshot → List OutgoingMessage
peer_keys [] = []
peer_keys ((id, key, pq_key, sig) ∷ peers) = peer_key id key pq_key sig ∷ peer_keys peers

-- What a client is told between its join and the events of the room, and which writes succeed.
abbrev pub greeting_of : Bool → PeerSnapshot → List OutgoingMessage
greeting_of protected peers = if protected then joined_room ∷ peer_keys peers else peer_keys peers

abbrev pub greeting_sent : Bool → Bool → List Bool → List Bool
greeting_sent protected alive more = if protected then alive ∷ more else more

-- What follows the welcome.
abbrev pub after : {Receiver : Type 0} → Bool → JoinOutcome Receiver → List OutgoingMessage
after protected (joined _ peers) = greeting_of protected peers
after protected full = room_full ∷ []
after protected room_gone = []

module _ (codec : Codec) where
  -- A message has no text, or is written, or its write fails.
  abbrev add_text : Option String → Bool → List Effect × Bool → List Effect × Bool
  add_text none alive rest = ([], false)
  add_text (some json) true rest = (sent_text json ∷ rest.0, rest.1)
  add_text (some json) false rest = (sent_text json ∷ [], false)

  -- The messages are written one after the other, up to the first that has no text, or whose write
  -- fails; and whether all were.
  abbrev pub tell : List OutgoingMessage → List Bool → List Effect × Bool
  tell [] sent = ([], true)
  tell (m ∷ ms) [] = ([], false)
  tell (m ∷ ms) (alive ∷ sent) = add_text (codec.render m) alive (tell ms sent)

  -- The messages, and then the loop, if all of them were written.
  abbrev pub then_loop : List Effect × Bool → List Effect → List Effect
  then_loop (told, all) loop = told ++ (if all then loop else [])

  abbrev pub transcript : List OutgoingMessage → List Bool → List Effect → List Effect
  transcript ms sent loop = then_loop (tell ms sent) loop

  abbrev follow : List Effect × Bool → List Effect × Bool → List Effect × Bool
  follow (wrote, sent) rest = if sent then (wrote ++ rest.0, rest.1) else (wrote, false)

  tell-cons :
      (m : OutgoingMessage) (ms : List OutgoingMessage) (alive : Bool) (sent : List Bool)
      → follow (send_json codec alive m) (tell ms sent) ≡ tell (m ∷ ms) (alive ∷ sent)
  unfolding send_json
  tell-cons m ms alive sent = go (codec.render m) alive (tell ms sent)
    where
      go :
          (o : Option String) (alive : Bool) (rest : List Effect × Bool)
          → follow
              (elim o as (λ _. List Effect × Bool) [
                | none ↦ ([], false)
                | some json ↦ (sent_text json ∷ [], alive)
              ])
              rest
            ≡ add_text o alive rest
      go none alive rest = refl
      go (some json) true rest = refl
      go (some json) false rest = refl

  pub transcript-cons :
      (m : OutgoingMessage) (ms : List OutgoingMessage) (alive : Bool) (sent : List Bool)
      (loop : List Effect)
      → let (wrote, ok) = send_json codec alive m in
        (if ok then wrote ++ transcript ms sent loop else wrote)
        ≡ transcript (m ∷ ms) (alive ∷ sent) loop
  transcript-cons m ms alive sent loop =
      go (send_json codec alive m) (tell ms sent)
      ∙ ap (λ r. then_loop r loop) (tell-cons m ms alive sent)
    where
      go :
          (r rest : List Effect × Bool)
          → (if r.1 then r.0 ++ then_loop rest loop else r.0) ≡ then_loop (follow r rest) loop
      go (xs, true) (ys, t) = sym (append_assoc xs ys (if t then loop else []))
      go (xs, false) rest = sym (append-nil xs)

  -- One message and nothing after it.
  pub sole :
      (m : OutgoingMessage) (alive : Bool)
      → (send_json codec alive m).0 ≡ transcript (m ∷ []) (alive ∷ []) []
  sole m alive = go (send_json codec alive m) ∙ transcript-cons m [] alive [] []
    where
      go : (r : List Effect × Bool) → r.0 ≡ (if r.1 then r.0 ++ [] else r.0)
      go (xs, true) = sym (append-nil xs)
      go (xs, false) = refl

  send_peers-tell :
      (more : List Bool) (peers : PeerSnapshot)
      → send_peers codec more peers ≡ tell (peer_keys peers) more
  unfolding send_peers
  send_peers-tell [] [] = refl
  send_peers-tell (_ ∷ _) [] = refl
  send_peers-tell [] (p ∷ peers) = refl
  send_peers-tell (alive ∷ more) ((id, key, pq_key, sig) ∷ peers) =
      rw (send_peers-tell more peers)
        (tell-cons (peer_key id key pq_key sig) (peer_keys peers) alive more)

  pub greet-tell :
      (protected alive : Bool) (more : List Bool) (peers : PeerSnapshot)
      → greet codec protected alive more peers
        ≡ tell (greeting_of protected peers) (greeting_sent protected alive more)
  unfolding greet
  greet-tell true alive more peers =
      rw (send_peers-tell more peers) (tell-cons joined_room (peer_keys peers) alive more)
  greet-tell false alive more peers = send_peers-tell more peers
