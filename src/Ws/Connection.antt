-- ===== src/Ws/Connection.antt =====
-- `handle_socket` in src/routes/ws.rs as a whole: the authentication, the arrival in the room, the
-- exchange of keys, the loop, and the departure, over the state that all tasks share. Between any two
-- accesses to that state other tasks may have changed it in any way.
pub mod Keeps
pub mod Slots
pub mod Membership
pub mod Departure
pub mod Locked
mod Greeting
pub mod Transcript
mod Samples
mod Examples
use parrhesia_backend.Common.{
  ℕ, Bool, true, false, Option, none, some, List, [], ◌∷◌, ◌++◌, String, if◌then◌else◌, Result, ok,
  err,
}
use mathlib.Core.Option
use parrhesia_backend.Common.Int.{ℤ}
use parrhesia_backend.Common.Dict.{Dict}
use parrhesia_backend.Net.{IpAddr}
use parrhesia_backend.Float.{Float}
use parrhesia_backend.Broadcast.{Broadcast}
use parrhesia_backend.Server.{Server, Live, State, app_of, put_app}
use parrhesia_backend.Admission.{drop_guard}
use parrhesia_backend.Db.{DbError, update_activity}
use parrhesia_backend.Rooms.Events.{RoomEvent}
use parrhesia_backend.Rooms.{
  Participant, Room, App, PeerSnapshot, joined, full, room_gone, attach, join, detach,
}
use parrhesia_backend.Passwords.{Crypto}
use parrhesia_backend.Ws.Messages.{
  OutgoingMessage, auth_required, auth_unavailable, joined_room, welcome, peer_key, room_full,
}
use parrhesia_backend.Ws.RateLimiter.{new_limiter, msg_rate_capacity, msg_rate_refill_per_sec}
use parrhesia_backend.Ws.Session.{
  Session, Frame, ping, pong, Input, Effect, sent_text, sent_pong, closed, touched, published,
  Codec, round,
}
use parrhesia_backend.Ws.Auth.{Attempt, authenticate}
use parrhesia_backend.Ws.Handshake.{Keys, read_keys}

abbrev pub protocol_version : ℕ
protocol_version = 1

abbrev pub max_participants : ℕ
max_participants = 16

-- One round of the loop: whether a write succeeds, what `select!` picked, what the activity of the
-- room is recorded with, and what other tasks do before the round and while that is recorded.
pub record Beat (S : Type 0) : Type 0 where
  pub alive : Bool
  pub input : Input
  pub timestamp : ℤ
  pub failure : Option DbError
  pub others : S → S
  pub recording : S → S

-- What a connection meets: its authentication, its random id, whether the database and each write
-- fail, the frames up to the keys, the rounds of its loop, and what other tasks do before it attaches,
-- before it joins and before it detaches.
pub record Visit (F X : Type 0) : Type 0 where
  pub attempt : Attempt F X
  pub uuid : String
  pub failure : Option DbError
  pub arriving : Server F X → Server F X
  pub welcome_sent : Bool
  pub frames : List Frame
  pub joining : Server F X → Server F X
  pub joined_sent : Bool
  pub peers_sent : List Bool
  pub started : ℕ
  pub beats : List (Beat (Server F X))
  pub leaving : Server F X → Server F X

-- `drop(pending)`; `none` is the panic of the guard.
unfoldable pub drop_pending : {F X : Type 0} → Option IpAddr → Server F X → Option (Server F X)
drop_pending none s = some s
drop_pending (some ip) s = elim (drop_guard ip s.admission) [
  | none ↦ none
  | some a ↦ some (record s { admission = a })
]

-- What is written, and whether it was.
unfoldable pub send_json : Codec → Bool → OutgoingMessage → List Effect × Bool
send_json codec alive m = elim (codec.render m) [
  | none ↦ ([], false)
  | some json ↦ (sent_text json ∷ [], alive)
]

unfoldable pub send_peers : Codec → List Bool → PeerSnapshot → List Effect × Bool
send_peers codec _ [] = ([], true)
send_peers codec [] (_ ∷ _) = ([], false)
send_peers codec (alive ∷ more) ((id, key, pq_key, sig) ∷ peers) =
    let (wrote, sent) = send_json codec alive (peer_key id key pq_key sig) in
    let rest = send_peers codec more peers in
    if sent then (wrote ++ rest.0, rest.1) else (wrote, false)

-- `Joined`, for a room with a password, and the keys of the peers.
unfoldable pub greet : Codec → Bool → Bool → List Bool → PeerSnapshot → List Effect × Bool
greet codec protected alive more peers =
    let (wrote, sent) = if protected then send_json codec alive joined_room else ([], true) in
    let rest = send_peers codec more peers in
    if sent then (wrote ++ rest.0, rest.1) else (wrote, false)

-- The answers of `authenticate` to the pings that come before the first text.
unfoldable pub answer_pings : List (Bool × Frame) → List Effect
answer_pings [] = []
answer_pings ((alive, ping bytes) ∷ frames) =
    let rest = answer_pings frames in sent_pong bytes ∷ (if alive then rest else [])
answer_pings ((alive, pong) ∷ frames) = answer_pings frames
answer_pings (_ ∷ frames) = []

-- The end of a failed authentication: its reason, and that the socket closes.
unfoldable pub tell_failure : Codec → Option OutgoingMessage → List Effect
tell_failure codec none = []
tell_failure codec (some failure) = (send_json codec true failure).0 ++ closed ∷ []

-- What `authenticate` writes: the question, the answers to pings, and the failure.
unfoldable pub converse_auth :
    {F X : Type 0} → Codec → Attempt F X → Option OutgoingMessage → List Effect
converse_auth codec m failure =
    (send_json codec m.asked (auth_required 2)).0
    ++ (if m.asked then answer_pings m.frames else [])
    ++ tell_failure codec failure

abbrev pub put_first : {S : Type 0} → List Effect → List Effect × S → List Effect × S
put_first wrote r = (wrote ++ r.0, r.1)

module _ (fl : Float) (bc : Broadcast RoomEvent) where
  open fl use {F}
  open bc use {Bus, Sender, send}

  -- What an effect of the loop does to the shared state.
  unfoldable pub perform :
      Sender → String → Beat (State fl bc) → List Effect → State fl bc → State fl bc
  perform tx room_id b [] s = s
  perform tx room_id b (touched ∷ effects) s =
      let recorded = update_activity b.failure b.timestamp room_id s.db in
      perform tx room_id b effects (b.recording (record s { db = recorded.1 }))
  perform tx room_id b (published e ∷ effects) s =
      let sent = record (s.rest) { bus = send tx e s.rest.bus } in
      perform tx room_id b effects (record s { rest = sent })
  perform tx room_id b (_ ∷ effects) s = perform tx room_id b effects s

module _ (fl : Float) (bc : Broadcast RoomEvent) (codec : Codec) where
  open fl use {F}
  open bc use {Bus, Sender}

  -- The loop, over the rounds that come.
  unfoldable pub serve :
      String
      → Sender
      → String
      → List (Beat (State fl bc))
      → Session F
      → State fl bc
      → List Effect × State fl bc
  serve conn_id tx room_id [] session s = ([], s)
  serve conn_id tx room_id (b ∷ beats) session s =
      let (session', effects, go) = round fl codec conn_id b.alive b.input session in
      let s' = perform fl bc tx room_id b effects (b.others s) in
      let rest = serve conn_id tx room_id beats session' s' in
      if go then (effects ++ rest.0, rest.1) else (effects, s')

  -- The session of a connection that joined.
  unfoldable pub stay :
      Visit F (Live Sender Bus)
      → Bool
      → Sender
      → String
      → PeerSnapshot
      → State fl bc
      → List Effect × State fl bc
  stay v protected tx room_id peers s =
      let (wrote, sent) = greet codec protected v.joined_sent v.peers_sent peers in
      let limiter = new_limiter fl (msg_rate_capacity fl) (msg_rate_refill_per_sec fl) v.started in
      let session : Session F = record {
        last_pong = v.started;
        waiting_for_pong = false;
        rate_limiter = limiter;
      } in
      let rest = serve v.uuid tx room_id v.beats session s in
      if sent then (wrote ++ rest.0, rest.1) else (wrote, s)

  -- From the announced keys on.
  unfoldable pub enter :
      Visit F (Live Sender Bus)
      → Bool
      → Sender
      → String
      → Keys
      → State fl bc
      → List Effect × State fl bc
  enter v protected tx room_id (key, pq_key, sig) s =
      let p : Participant = record { public_key = key; pq_public_key = pq_key; sig = sig } in
      let (outcome, a) = join bc room_id v.uuid p max_participants (app_of fl bc s) in
      let s' = put_app fl bc a s in
      elim outcome [
        | joined receiver peers ↦ stay v protected tx room_id peers s'
        | full ↦ ((send_json codec true room_full).0, s')
        | room_gone ↦ ([], s')
      ]

module _ (fl : Float) (bc : Broadcast RoomEvent) (codec : Codec) (decode : String → Option ℕ) where
  open fl use {F}
  open bc use {Bus, Sender}

  -- The block `'session` of a connection that is attached.
  unfoldable pub converse :
      Visit F (Live Sender Bus)
      → Bool
      → Sender × Bool × Option String
      → String
      → State fl bc
      → List Effect × State fl bc
  converse v protected (tx, is_creator, creator_id) room_id s =
      let version = if protected then 2 else protocol_version in
      let (wrote, sent) =
        send_json codec v.welcome_sent (welcome version v.uuid is_creator creator_id) in
      if sent
      then elim (read_keys decode codec v.frames) [
        | none ↦ (wrote, s)
        | some none ↦ (wrote, s)
        | some (some keys) ↦
            (let rest = enter fl bc codec v protected tx room_id keys (v.joining s) in
              (wrote ++ rest.0, rest.1))
      ]
      else (wrote, s)

  -- From the random id on: whoever attaches, detaches.
  unfoldable pub connect :
      Visit F (Live Sender Bus) → Bool → String → State fl bc → List Effect × State fl bc
  connect v protected room_id s =
      let s1 = v.arriving s in
      let (reply, a) = attach bc v.failure room_id v.uuid (app_of fl bc s1) in
      let s2 = put_app fl bc a s1 in
      elim reply [
        | err _ ↦ ((send_json codec true auth_unavailable).0, s2)
        | ok none ↦ ((send_json codec true auth_unavailable).0, s2)
        | ok (some attached) ↦
            (let (wrote, s3) = converse v protected attached room_id s2 in
              let s4 = v.leaving s3 in
              (wrote, put_app fl bc (detach bc room_id v.uuid (app_of fl bc s4)) s4))
      ]

module _ (fl : Float) (bc : Broadcast RoomEvent) (codec : Codec) (decode : String → Option ℕ)
    (c : Crypto) (parse : String → Option String) where
  open fl use {F}
  open bc use {Bus, Sender}

  -- What the connection writes and does, and the state; `none` is a panic.
  unfoldable pub handle_socket :
      Visit F (Live Sender Bus)
      → String
      → Option (Option String)
      → Option IpAddr
      → State fl bc
      → Option (List Effect × State fl bc)
  handle_socket v room_id none pending s = Option.map (λ t. ([], t)) (drop_pending pending s)
  handle_socket v room_id (some none) pending s =
      Option.map (connect fl bc codec decode v false room_id) (drop_pending pending s)
  handle_socket v room_id (some (some stored)) pending s =
      let (is_in, failure, s') = authenticate fl c parse v.attempt room_id stored s in
      let dropped = drop_pending pending s' in
      let wrote = converse_auth codec v.attempt failure in
      if is_in
      then Option.map (λ t. put_first wrote (connect fl bc codec decode v true room_id t)) dropped
      else Option.map (λ t. (wrote, t)) dropped
