-- ===== src/Ws/Turns.antt =====
-- A connection of src/routes/ws.rs as the others see it: `handle_socket` from its `attach` on, cut into
-- the steps between which the other tasks run. What `rx.recv()` yields is the next value of the
-- channel, or that the receiver lags: that more values wait for it than the channel holds. The
-- channel does not close, since the loop holds a sender of it.
pub mod Texts
pub mod Rounds
pub mod Served
pub mod Keeps
pub mod Speech
pub mod Quiet
pub mod Publishing
use parrhesia_backend.Common.{
  drop, length, ltb, ℕ, suc, Bool, true, false, Option, none, some, List, [], ◌∷◌, ◌++◌, String,
  string_eq, if◌then◌else◌,
}
use parrhesia_backend.Common.Int.{ℤ}
use parrhesia_backend.Common.Dict.{get}
use parrhesia_backend.Db.{DbError}
use parrhesia_backend.Float.{Float}
use parrhesia_backend.Broadcast.{Broadcast, BroadcastLaws}
use parrhesia_backend.Server.{State, app_of, put_app}
use parrhesia_backend.Rooms.Events.{RoomEvent}
use parrhesia_backend.Rooms.{Participant, JoinOutcome, joined, full, room_gone, join, detach}
use parrhesia_backend.Ws.RateLimiter.{new_limiter, msg_rate_capacity, msg_rate_refill_per_sec}
use parrhesia_backend.Ws.Session.{
  Session, Frame, Input, ticked, received, framed, Effect, Codec, round,
}
use parrhesia_backend.Ws.Connection.{Beat, perform, max_participants}

-- The loop: its receiver, the position in the channel of the value that it gets next, what it still
-- has to do of the round that it is in, and what it did.
pub record Loop (F Receiver : Type 0) : Type 0 where
  pub receiver : Receiver
  pub next : ℕ
  pub session : Session F
  pub todo : List Effect
  pub done : List Effect

-- Before `join`; in the loop; at the end of `'session`; after `detach`.
pub data Phase : Type 0 where
  attached looping leaving left : Phase

pub record Connection (F Sender Receiver : Type 0) : Type 0 where
  pub room_id : String
  pub tx : Sender
  pub phase : Phase
  pub loop : Option (Loop F Receiver)

pub data Signal : Type 0 where
  ticks : ℕ → Signal
  frames : ℕ → Frame → Signal
  gets : Signal

pub data Action : Type 0 where
  -- `join`, and whether the greeting is written.
  joins : Participant → Bool → ℕ → Action
  -- The session ends before it joins.
  quits : Action
  -- A round, whose write succeeds or not.
  picks : Bool → Signal → Action
  -- The next effect of the round.
  works : Option DbError → ℤ → Action
  detaches : Action

abbrev pub first {ℓ} : {A : Type ℓ} → List A → Option A
first [] = none
first (x ∷ _) = some x

module _ (fl : Float) (bc : Broadcast RoomEvent) (laws : BroadcastLaws bc) (codec : Codec) where
  open fl use {F}
  open bc use {Bus, Sender, Receiver}

  abbrev pub Turn : Type 0
  Turn = Connection F Sender Receiver × State fl bc

  abbrev pub new_loop : Receiver → ℕ → Loop F Receiver
  new_loop receiver now = record {
    receiver = receiver;
    next = laws.from receiver;
    session = record {
      last_pong = now;
      waiting_for_pong = false;
      rate_limiter = new_limiter fl (msg_rate_capacity fl) (msg_rate_refill_per_sec fl) now;
    };
    todo = [];
    done = [];
  }

  abbrev pub seat :
      Bool → ℕ → Connection F Sender Receiver → JoinOutcome Receiver → Connection F Sender Receiver
  seat greeted now c (joined receiver _) = record c {
    phase = if greeted then looping else leaving;
    loop = some (new_loop receiver now);
  }
  seat greeted now c full = record c { phase = leaving }
  seat greeted now c room_gone = record c { phase = leaving }

  unfoldable pub take_seat :
      String → Participant → Bool → ℕ → Connection F Sender Receiver → State fl bc → Turn
  take_seat id p greeted now c s = elim c.phase [
    | attached ↦
        (let (outcome, a) = join bc c.room_id id p max_participants (app_of fl bc s) in
          (seat greeted now c outcome, put_app fl bc a s))
    | _ ↦ (c, s)
  ]

  unfoldable pub quit : Connection F Sender Receiver → Connection F Sender Receiver
  quit c = elim c.phase [ attached ↦ record c { phase = leaving } | _ ↦ c ]

  -- The values that the receiver of a loop did not get yet.
  abbrev pub pending : Loop F Receiver → Bus → List RoomEvent
  pending l b = drop l.next (laws.sent (laws.source l.receiver) b)

  -- The loop after a round, and whether it goes on.
  abbrev pub turn : String → Bool → Input → ℕ → Loop F Receiver → Loop F Receiver × Bool
  turn id alive i next l =
      let (session, effects, go) = round fl codec id alive i l.session in
      (record l { next = next; session = session; todo = effects }, go)

  -- Whether more values wait for the receiver than its channel holds.
  abbrev pub is_overrun : Loop F Receiver → Bus → Bool
  is_overrun l b = ltb (laws.capacity (laws.source l.receiver) b) (length (pending l b))

  -- The receiver lags, or a value is there, or `select!` waits for something else.
  abbrev pub get_next :
      String → Bool → Bool → Option RoomEvent → Loop F Receiver → Loop F Receiver × Bool
  get_next id alive true _ l = turn id alive (received none) l.next l
  get_next id alive false none l = (l, true)
  get_next id alive false (some e) l = turn id alive (received (some e)) (suc l.next) l

  abbrev pub pick : String → Bool → Signal → Loop F Receiver → Bus → Loop F Receiver × Bool
  pick id alive (ticks now) l b = turn id alive (ticked now) l.next l
  pick id alive (frames now f) l b = turn id alive (framed now f) l.next l
  pick id alive gets l b = get_next id alive (is_overrun l b) (first (pending l b)) l

  abbrev pub after_round :
      Connection F Sender Receiver → Loop F Receiver × Bool → Connection F Sender Receiver
  after_round c (l, go) = record c { phase = if go then looping else leaving; loop = some l }

  -- A round starts when nothing is left to do of the one before.
  abbrev pub next_round :
      String
      → Bool
      → Signal
      → Connection F Sender Receiver
      → Option (Loop F Receiver)
      → State fl bc
      → Connection F Sender Receiver
  next_round id alive signal c none s = c
  next_round id alive signal c (some l) s = elim l.todo [
    | [] ↦ after_round c (pick id alive signal l s.rest.bus)
    | _ ∷ _ ↦ c
  ]

  unfoldable pub start_round :
      String
      → Bool
      → Signal
      → Connection F Sender Receiver
      → State fl bc
      → Connection F Sender Receiver
  start_round id alive signal c s = elim c.phase [
    | looping ↦ next_round id alive signal c c.loop s
    | _ ↦ c
  ]

  -- One effect; what other tasks do meanwhile are other moves.
  abbrev pub alone : Option DbError → ℤ → Beat (State fl bc)
  alone failure timestamp = record {
    alive = true;
    input = received none;
    timestamp = timestamp;
    failure = failure;
    others = λ s. s;
    recording = λ s. s;
  }

  abbrev pub do_next :
      Beat (State fl bc)
      → Connection F Sender Receiver
      → Loop F Receiver
      → List Effect
      → State fl bc
      → Turn
  do_next b c l [] s = (c, s)
  do_next b c l (x ∷ xs) s = (
    record c { loop = some (record l { todo = xs; done = l.done ++ x ∷ [] }) },
    perform fl bc c.tx c.room_id b (x ∷ []) s,
  )

  unfoldable pub work : Option DbError → ℤ → Connection F Sender Receiver → State fl bc → Turn
  work f t c s = elim c.loop [ none ↦ (c, s) | some l ↦ do_next (alone f t) c l l.todo s ]

  -- Whether nothing is left to do.
  abbrev pub is_idle : Option (Loop F Receiver) → Bool
  is_idle none = true
  is_idle (some l) = elim l.todo [ [] ↦ true | _ ∷ _ ↦ false ]

  unfoldable pub depart : String → Connection F Sender Receiver → State fl bc → Turn
  depart id c s = elim c.phase [
    | leaving ↦
        if is_idle c.loop
        then (record c { phase = left }, put_app fl bc (detach bc c.room_id id (app_of fl bc s)) s)
        else (c, s)
    | _ ↦ (c, s)
  ]

  unfoldable pub act : String → Action → Connection F Sender Receiver → State fl bc → Turn
  act id (joins p greeted now) c s = take_seat id p greeted now c s
  act id quits c s = (quit c, s)
  act id (picks alive signal) c s = (start_round id alive signal c s, s)
  act id (works f t) c s = work f t c s
  act id detaches c s = depart id c s
