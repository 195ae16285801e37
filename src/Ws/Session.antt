-- ===== src/Ws/Session.antt =====
-- The loop of `handle_socket` in src/routes/ws.rs, from the end of the handshake on. Each round
-- takes what `select!` picked; a round does at most one write that the loop looks at, whose outcome
-- is an argument, and says what it did and whether the loop goes on.
pub mod Relay
pub mod Rate
pub mod Heartbeat
mod Examples
use parrhesia_backend.Common.{
  ℕ, ◌-◌, ◌≡◌, Bool, true, false, ◌&&◌, ◌||◌, not, Option, none, some, List, [], ◌∷◌, ◌++◌, String,
  string_eq, ◌==◌, ltb, if◌then◌else◌,
}
use parrhesia_backend.Float.{Float}
use parrhesia_backend.Rooms.Events.{
  RoomEvent, chat, tree_commit, tree_welcome, typing, room_expired, sender, target,
}
use parrhesia_backend.Ws.Messages.{
  IncomingMessage, message, commit, welcome_to, is_typing, OutgoingMessage, from_event,
}
use parrhesia_backend.Ws.RateLimiter.{RateLimiter, check}

-- 10 s.
abbrev pub pong_timeout : ℕ
pong_timeout = 10000000000

pub record Session (F : Type 0) : Type 0 where
  pub last_pong : ℕ
  pub waiting_for_pong : Bool
  pub rate_limiter : RateLimiter F

-- What `ws_receiver.next()` yields.
pub data Frame : Type 0 where
  text : String → Frame
  pong : Frame
  ping : String → Frame
  close : Frame
  transport_error : Frame
  ended : Frame
  binary : Frame

pub data Input : Type 0 where
  -- The ping timer, at a time.
  ticked : ℕ → Input
  -- `rx.recv()`; `none` when the receiver lagged or its channel is closed.
  received : Option RoomEvent → Input
  -- A frame, at a time.
  framed : ℕ → Frame → Input

-- A write is an effect whether it succeeds or not; the loop ends after one that does not.
pub data Effect : Type 0 where
  sent_text : String → Effect
  sent_ping : Effect
  sent_pong : String → Effect
  closed : Effect
  -- `db::update_activity` of the room.
  touched : Effect
  published : RoomEvent → Effect

-- `serde_json`: the text of a message, and the message of a text.
pub record Codec : Type 0 where
  pub render : OutgoingMessage → Option String
  pub parse : String → Option IncomingMessage

-- The tasks of one connection.
unfoldable pub relay : String → IncomingMessage → List Effect
relay conn_id (message (some payload) epoch counter) =
    touched ∷ published (chat conn_id payload epoch counter) ∷ []
relay conn_id (commit (some tree_data)) = published (tree_commit conn_id tree_data) ∷ []
relay conn_id (welcome_to (some tree_data) (some to)) =
    published (tree_welcome conn_id to tree_data) ∷ []
relay conn_id is_typing = published (typing conn_id) ∷ []
relay conn_id _ = []

abbrev pub is_for : String → Option String → Bool
is_for conn_id none = true
is_for conn_id (some to) = to == conn_id

abbrev pub is_own : String → Option String → Bool
is_own conn_id none = false
is_own conn_id (some from) = from == conn_id

abbrev pub is_expiry : RoomEvent → Bool
is_expiry room_expired = true
is_expiry _ = false

-- The text of an event is written if it renders; a write that fails ends the loop.
unfoldable pub forward : Codec → Bool → RoomEvent → List Effect × Bool
forward codec alive e =
    let ending = if is_expiry e then (closed ∷ [], false) else ([], true) in
    elim (codec.render (from_event e)) [
      | none ↦ ending
      | some json ↦
          (let rest = ending in
            if alive then (sent_text json ∷ rest.0, rest.1) else (sent_text json ∷ [], false))
    ]

module _ (fl : Float) (codec : Codec) (conn_id : String) where
  open fl use {F}

  unfoldable pub on_tick : Bool → ℕ → Session F → Session F × List Effect × Bool
  on_tick alive now s =
      if s.waiting_for_pong && ltb pong_timeout (now - s.last_pong)
      then (s, [], false)
      else if alive
      then (record s { waiting_for_pong = true }, sent_ping ∷ [], true)
      else (s, sent_ping ∷ [], false)

  unfoldable pub on_event : Bool → RoomEvent → Session F → Session F × List Effect × Bool
  on_event alive e s =
      if is_own conn_id (sender e) || not (is_for conn_id (target e))
      then (s, [], true)
      else (let (effects, go) = forward codec alive e in (s, effects, go))

  abbrev pub relay_text : String → List Effect
  relay_text json = elim (codec.parse json) [ none ↦ [] | some m ↦ relay conn_id m ]

  unfoldable pub on_frame : Bool → ℕ → Frame → Session F → Session F × List Effect × Bool
  on_frame alive now (text json) s =
      let (allowed, limiter) = check fl now s.rate_limiter in
      (record s { rate_limiter = limiter }, if allowed then relay_text json else [], true)
  on_frame alive now pong s = (record s { last_pong = now; waiting_for_pong = false }, [], true)
  on_frame alive now (ping bytes) s = (s, sent_pong bytes ∷ [], alive)
  on_frame alive now close s = (s, [], false)
  on_frame alive now transport_error s = (s, [], false)
  on_frame alive now ended s = (s, [], false)
  on_frame alive now binary s = (s, [], true)

  unfoldable pub round : Bool → Input → Session F → Session F × List Effect × Bool
  round alive (ticked now) s = on_tick alive now s
  round alive (received none) s = (s, [], false)
  round alive (received (some e)) s = on_event alive e s
  round alive (framed now f) s = on_frame alive now f s

  -- The loop over what `select!` picks: all effects in their order.
  unfoldable pub run : List (Bool × Input) → Session F → List Effect
  run [] s = []
  run ((alive, i) ∷ is) s =
      let (s', effects, go) = round alive i s in
      let rest = run is s' in effects ++ (if go then rest else [])
