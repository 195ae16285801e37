-- ===== src/Ws/Connection/Transcript.antt =====
-- What `handle_socket` of src/routes/ws.rs writes to a client that is attached, in which order.
use parrhesia_backend.Common.{
  ℕ, ◌≡◌, refl, sym, ap, ◌∙◌, ◌⊎◌, ◌≢◌, Bool, true, false, Option, none, some, List, [], ◌∷◌, ◌++◌,
  String, inl, inr, if◌then◌else◌,
}
use mathlib.Core.List.{append-nil}
use parrhesia_backend.Float.{Float}
use parrhesia_backend.Broadcast.{Broadcast}
use parrhesia_backend.Server.{Live, State, app_of, put_app}
use parrhesia_backend.Rooms.Events.{RoomEvent}
use parrhesia_backend.Rooms.{
  Participant, App, PeerSnapshot, JoinOutcome, joined, full, room_gone, join,
}
use parrhesia_backend.Ws.Messages.{OutgoingMessage, welcome, room_full}
use parrhesia_backend.Ws.RateLimiter.{new_limiter, msg_rate_capacity, msg_rate_refill_per_sec}
use parrhesia_backend.Ws.Session.{Session, Effect, Codec}
use parrhesia_backend.Ws.Handshake.{Keys, read_keys, Announces, read_keys_lem}
use parrhesia_backend.Ws.Connection.{
  Visit, send_json, greet, serve, stay, enter, converse, max_participants, protocol_version,
}
use parrhesia_backend.Ws.Connection.Greeting.{
  then_loop, transcript, transcript-cons, sole, greeting_of, greeting_sent, greet-tell, after,
}

module _ (fl : Float) (bc : Broadcast RoomEvent) (codec : Codec) where
  open fl use {F}
  open bc use {Bus, Sender, Receiver}

  -- A loop that starts: a client that was heard now, and a full limiter.
  abbrev pub beginning : ℕ → Session F
  beginning now = record {
    last_pong = now;
    waiting_for_pong = false;
    rate_limiter = new_limiter fl (msg_rate_capacity fl) (msg_rate_refill_per_sec fl) now;
  }

  -- Which writes succeed after a join, and what the loop then does.
  abbrev pub outcomes : Visit F (Live Sender Bus) → Bool → JoinOutcome Receiver → List Bool
  outcomes v protected (joined _ _) = greeting_sent protected v.joined_sent v.peers_sent
  outcomes v protected full = true ∷ []
  outcomes v protected room_gone = []

  abbrev pub loop_of :
      Visit F (Live Sender Bus) → Sender → String → JoinOutcome Receiver → State fl bc → List Effect
  loop_of v tx room_id (joined _ _) s =
      (serve fl bc codec v.uuid tx room_id v.beats (beginning v.started) s).0
  loop_of v tx room_id full s = []
  loop_of v tx room_id room_gone s = []

  abbrev pub participant : Keys → Participant
  participant (key, pq_key, sig) = record { public_key = key; pq_public_key = pq_key; sig = sig }

  stay-transcript :
      (v : Visit F (Live Sender Bus)) (protected : Bool) (tx : Sender) (room_id : String)
      (receiver : Receiver) (peers : PeerSnapshot) (s : State fl bc)
      → (stay fl bc codec v protected tx room_id peers s).0
        ≡ transcript codec
            (greeting_of protected peers)
            (outcomes v protected (joined receiver peers))
            (loop_of v tx room_id (joined receiver peers) s)
  unfolding stay
  stay-transcript v protected tx room_id receiver peers s =
      go (greet codec protected v.joined_sent v.peers_sent peers)
        (serve fl bc codec v.uuid tx room_id v.beats (beginning v.started) s)
      ∙ ap (λ r. then_loop codec r (loop_of v tx room_id (joined receiver peers) s))
          (greet-tell codec protected v.joined_sent v.peers_sent peers)
    where
      go :
          (r : List Effect × Bool) (rest : List Effect × State fl bc)
          → (if◌then◌else◌ {A = List Effect × State fl bc} r.1 (r.0 ++ rest.0, rest.1) (r.0, s)).0
            ≡ then_loop codec r rest.0
      go (xs, true) rest = refl
      go (xs, false) rest = sym (append-nil xs)

  -- The answer of the join with some keys.
  abbrev pub join_with :
      Visit F (Live Sender Bus) → String → Keys → State fl bc → JoinOutcome Receiver × App bc
  join_with v room_id keys s =
      join bc room_id v.uuid (participant keys) max_participants (app_of fl bc s)

  enter-transcript :
      (v : Visit F (Live Sender Bus)) (protected : Bool) (tx : Sender) (room_id : String)
      (keys : Keys) (s : State fl bc)
      → let (outcome, a) = join_with v room_id keys s in
        (enter fl bc codec v protected tx room_id keys s).0
        ≡ transcript codec
            (after protected outcome)
            (outcomes v protected outcome)
            (loop_of v tx room_id outcome (put_app fl bc a s))
  unfolding enter
  enter-transcript v protected tx room_id keys s = go (join_with v room_id keys s)
    where
      go :
          (r : JoinOutcome Receiver × App bc)
          → (elim r.0 as (λ x. List Effect × State fl bc) [
            | joined receiver peers ↦
                stay fl bc codec v protected tx room_id peers (put_app fl bc r.1 s)
            | full ↦ ((send_json codec true room_full).0, put_app fl bc r.1 s)
            | room_gone ↦ ([], put_app fl bc r.1 s)
          ]).0
            ≡ transcript codec
                (after protected r.0)
                (outcomes v protected r.0)
                (loop_of v tx room_id r.0 (put_app fl bc r.1 s))
      go (joined receiver peers, a) =
          stay-transcript v protected tx room_id receiver peers (put_app fl bc a s)
      go (full, a) = sole codec room_full true
      go (room_gone, a) = refl

module _ (fl : Float) (bc : Broadcast RoomEvent) (codec : Codec) (decode : String → Option ℕ) where
  open fl use {F}
  open bc use {Bus, Sender}

  -- What a connection that is attached writes and does: the welcome alone, if its client announced
  -- no keys, or the welcome and what its join with the keys answers, and then its loop.
  abbrev pub IsTranscript :
      Visit F (Live Sender Bus)
      → Bool
      → Sender × Bool × Option String
      → String
      → State fl bc
      → List Effect
      → Type 0
  IsTranscript v protected (tx, is_creator, creator_id) room_id s wrote =
      let version = if protected then 2 else protocol_version in
      let hello = welcome version v.uuid is_creator creator_id in
      (((keys : Keys) → ¬ Announces decode codec v.frames keys)
        × (wrote ≡ transcript codec (hello ∷ []) (v.welcome_sent ∷ []) []))
      ⊎ ((keys : Keys) × Announces decode codec v.frames keys
          × (let (outcome, a) = join_with fl bc codec v room_id keys (v.joining s) in
              wrote
              ≡ transcript codec (hello ∷ after protected outcome)
                  (v.welcome_sent ∷ outcomes fl bc codec v protected outcome)
                  (loop_of fl bc codec v tx room_id outcome (put_app fl bc a (v.joining s)))))

  -- A connection that is attached writes, one after the other and up to the first that has no text or
  -- whose write fails: the welcome, with the version of its room, its id and the creator; and, if
  -- its client announced keys, what its join with these answers: that the room is full, or, in a
  -- room with a password, that it joined, and then the keys of each participant of the room at the
  -- join, in their order. If it joined and all of these were written, the effects of its loop follow,
  -- and otherwise nothing does.
  pub converse-IsTranscript :
      (v : Visit F (Live Sender Bus)) (protected : Bool) (tx : Sender) (is_creator : Bool)
      (creator_id : Option String) (room_id : String) (s : State fl bc)
      → IsTranscript v protected
          (tx, is_creator, creator_id)
          room_id
          s
          (converse fl bc codec decode v protected (tx, is_creator, creator_id) room_id s).0
  unfolding converse
  converse-IsTranscript v protected tx is_creator creator_id room_id s =
      go (read_keys decode codec v.frames) refl
    where
      hello : OutgoingMessage
      hello = welcome (if protected then 2 else protocol_version) v.uuid is_creator creator_id

      hi : List Effect × Bool
      hi = send_json codec v.welcome_sent hello

      silent :
          (o : Option (Option Keys))
          → read_keys decode codec v.frames ≡ o
          → ((keys : Keys) → o ≢ some (some keys))
          → (keys : Keys) → ¬ Announces decode codec v.frames keys
      silent o e n keys h = n keys (sym e ∙ (read_keys_lem decode codec v.frames keys).1 h)

      alone :
          (r : List Effect × Bool)
          → (if◌then◌else◌ {A = List Effect × State fl bc} r.1 (r.0, s) (r.0, s)).0
            ≡ (if r.1 then r.0 ++ [] else r.0)
      alone (xs, true) = sym (append-nil xs)
      alone (xs, false) = refl

      more :
          (r : List Effect × Bool) (rest : List Effect × State fl bc)
          → (if◌then◌else◌ {A = List Effect × State fl bc} r.1 (r.0 ++ rest.0, rest.1) (r.0, s)).0
            ≡ (if r.1 then r.0 ++ rest.0 else r.0)
      more (xs, true) rest = refl
      more (xs, false) rest = refl

      go :
          (o : Option (Option Keys))
          → read_keys decode codec v.frames ≡ o
          → IsTranscript v protected
              (tx, is_creator, creator_id)
              room_id
              s
              (if◌then◌else◌ {A = List Effect × State fl bc} hi.1
                (elim o as (λ _. List Effect × State fl bc) [
                  | none ↦ (hi.0, s)
                  | some none ↦ (hi.0, s)
                  | some (some keys) ↦
                      (let rest = enter fl bc codec v protected tx room_id keys (v.joining s) in
                        (hi.0 ++ rest.0, rest.1))
                ])
                (hi.0, s)).0
      go none e = inl (
        silent none e (λ _ h. cc),
        alone hi ∙ transcript-cons codec hello [] v.welcome_sent [] [],
      )
      go (some none) e = inl (
        silent (some none) e (λ _ h. cc),
        alone hi ∙ transcript-cons codec hello [] v.welcome_sent [] [],
      )
      go (some (some keys)) e =
          let (outcome, a) = join_with fl bc codec v room_id keys (v.joining s) in
          inr (
            keys,
            (read_keys_lem decode codec v.frames keys).0 e,
            more hi (enter fl bc codec v protected tx room_id keys (v.joining s))
                ∙ ap (λ ws. if hi.1 then hi.0 ++ ws else hi.0)
                    (enter-transcript fl bc codec v protected tx room_id keys (v.joining s))
                ∙ transcript-cons codec hello (after protected outcome) v.welcome_sent
                    (outcomes fl bc codec v protected outcome)
                    (loop_of fl bc codec v tx room_id outcome (put_app fl bc a (v.joining s))),
          )
