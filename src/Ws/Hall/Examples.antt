-- ===== src/Ws/Hall/Examples.antt =====
-- Two clients of src/routes/ws.rs in a room: one says something, which the other gets.
use parrhesia_backend.Common.{
  ℕ, ◌≡◌, refl, true, false, none, some, List, [], ◌∷◌, ◌++◌, string_eq, ◌*◌, arith,
}
use mathlib.Core.List.{Sublist}
use parrhesia_backend.Common.Dict.{get, insert}
use parrhesia_backend.Common.Int.{pos}
use parrhesia_backend.Float.{fixed, unit}
use parrhesia_backend.Broadcast.{Broadcast, Log, log_bus, log_laws}
use parrhesia_backend.Db.{Table, room_exists, update_activity}
use parrhesia_backend.Rooms.Events.{RoomEvent, sender, target, chat, peer_joined}
use parrhesia_backend.Rooms.{Participant, attach, join, join_room, snapshot}
use parrhesia_backend.Ws.Messages.{message, chat_message, from_event}
use parrhesia_backend.Ws.RateLimiter.{new_limiter, check}
use parrhesia_backend.Ws.Session.{
  Codec, text, relay, forward, on_event, on_frame, round, touched, published, sent_text,
}
use parrhesia_backend.Ws.Connection.{perform}
use parrhesia_backend.Ws.Turns.{
  Loop, Connection, looping, joins, picks, works, frames, new_loop, take_seat, start_round, work,
  act, pending,
}
use parrhesia_backend.Ws.Hall.{Move, attaches, acts, Hall, step, run, start}
use parrhesia_backend.Ws.Turns.Texts.{texts, due}
use parrhesia_backend.Ws.Turns.Speech.{spoken}
use parrhesia_backend.Ws.Hall.Voices.{voice}
use parrhesia_backend.Ws.Hall.Authors.{run-authored}
use parrhesia_backend.Ws.Hall.Conversation.{run-Hears}
use parrhesia_backend.Ws.Hall.Delivery.{got, run-delivered}
use parrhesia_backend.Ws.Hall.CatchUp.{catch_up, run-catch_up}

abbrev events : Broadcast RoomEvent
events = log_bus RoomEvent

abbrev codec : Codec
codec = record {
  render = λ m. elim m [ chat_message _ payload _ _ ↦ some payload | _ ↦ none ];
  parse = λ s. some (message (some s) none none);
}

abbrev table : Table
table = ("room", record { created_at = pos 1; last_activity = pos 1; password_hash = none }) ∷ []

abbrev silence : Log RoomEvent
silence = record { next = 0; events = λ s. []; capacities = λ s. 0 }

abbrev someone : Participant
someone = record { public_key = "dsa"; pq_public_key = "kem"; sig = none }

abbrev said : Move
said = acts "alice" (picks true (frames 5 (text "hello")))

abbrev meeting : List Move
meeting =
    attaches none "room" "alice"
    ∷ acts "alice" (joins someone true 0)
    ∷ attaches none "room" "bob"
    ∷ acts "bob" (joins someone true 0)
    ∷ said
    ∷ acts "alice" (works none (pos 9))
    ∷ acts "alice" (works none (pos 9))
    ∷ []

abbrev entered : Loop ℕ (ℕ × ℕ)
entered = record (new_loop fixed events (log_laws RoomEvent) codec (0, 1) 0) {
  session = record {
    last_pong = 0;
    waiting_for_pong = false;
    rate_limiter = record {
      tokens = 60 * unit;
      capacity = 60 * unit;
      refill_per_sec = 30 * unit;
      last_refill = 0;
    };
  };
}

abbrev bob : Connection ℕ ℕ (ℕ × ℕ)
bob = record { room_id = "room"; tx = 0; phase = looping; loop = some entered }

abbrev met : Hall fixed events (log_laws RoomEvent) codec
met =
    run fixed events (log_laws RoomEvent) codec
      (start fixed events (log_laws RoomEvent) codec table silence) meeting

met-bob : get "bob" met.connections ≡ some bob
unfolding run get step attach room_exists insert act take_seat join new_limiter
met-bob = refl

missing :
    pending fixed events (log_laws RoomEvent) codec entered met.state.rest.bus
    ≡ peer_joined "bob" "dsa" "kem" none ∷ chat "alice" "hello" none none ∷ []
unfolding run log_laws step get attach room_exists insert act take_seat join join_room snapshot work
    start_round round on_frame check new_limiter relay perform update_activity
missing = refl

no_channels : (y : ℕ) → ¬ ((log_laws RoomEvent).IsOpen y silence)
unfolding log_laws
no_channels y h = omega arith

run-catch_up_example :
    (l' : Loop ℕ (ℕ × ℕ)) × (get "bob"
        (run fixed events (log_laws RoomEvent) codec met (catch_up "bob" 2)).connections
      ≡ some (record bob { loop = some l' }))
    × (texts l'.done ≡ "hello" ∷ [])
unfolding run log_laws step get attach room_exists insert act take_seat join join_room snapshot work
    start_round round on_frame check new_limiter relay perform update_activity sender target
    from_event
run-catch_up_example =
    run-catch_up fixed events (log_laws RoomEvent) codec table silence meeting "bob" bob entered
      met-bob refl refl refl no_channels (omega arith) (refl, (refl, tt))

-- Bob got the two events of the channel, and Alice's is written.
abbrev heard : List Move
heard = meeting ++ catch_up "bob" 2

abbrev all_met : Hall fixed events (log_laws RoomEvent) codec
all_met =
    run fixed events (log_laws RoomEvent) codec
      (start fixed events (log_laws RoomEvent) codec table silence) heard

abbrev told : Loop ℕ (ℕ × ℕ)
told = record entered { next = 3; done = sent_text "hello" ∷ [] }

abbrev bob_told : Connection ℕ ℕ (ℕ × ℕ)
bob_told = record bob { loop = some told }

abbrev spoke : Loop ℕ (ℕ × ℕ)
spoke = record entered {
  receiver = (0, 0);
  next = 0;
  session = record {
    last_pong = 0;
    waiting_for_pong = false;
    rate_limiter = record {
      tokens = 59 * unit;
      capacity = 60 * unit;
      refill_per_sec = 30 * unit;
      last_refill = 5;
    };
  };
  done = touched ∷ published (chat "alice" "hello" none none) ∷ [];
}

abbrev alice : Connection ℕ ℕ (ℕ × ℕ)
alice = record bob { loop = some spoke }

all_met-bob : get "bob" all_met.connections ≡ some bob_told
unfolding run log_laws step get attach room_exists insert act take_seat join join_room snapshot work
    start_round round on_frame check new_limiter relay perform update_activity sender target
    from_event on_event forward
all_met-bob = refl

all_met-alice : get "alice" all_met.connections ≡ some alice
unfolding run log_laws step get attach room_exists insert act take_seat join join_room snapshot work
    start_round round on_frame check new_limiter relay perform update_activity sender target
    from_event on_event forward
all_met-alice = refl

run-delivered_example :
    "hello" ∷ []
    ≡ due codec "bob" (got fixed events (log_laws RoomEvent) codec told all_met.state.rest.bus)
run-delivered_example =
    run-delivered fixed events (log_laws RoomEvent) codec table silence heard "bob" bob_told told
      all_met-bob refl

one_channel : (log_laws RoomEvent).IsOpen 0 all_met.state.rest.bus
unfolding run log_laws step get attach room_exists insert act take_seat join join_room snapshot work
    start_round round on_frame check new_limiter relay perform update_activity sender target
    from_event on_event forward
one_channel = omega arith

run-authored_example :
    spoken "alice" ((log_laws RoomEvent).sent 0 all_met.state.rest.bus)
    ≡ voice fixed events (log_laws RoomEvent) codec (get "alice" all_met.connections) 0
run-authored_example =
    run-authored fixed events (log_laws RoomEvent) codec table silence heard "alice" 0 no_channels
      one_channel

met-alice : get "alice" met.connections ≡ some alice
unfolding run log_laws step get attach room_exists insert act take_seat join join_room snapshot work
    start_round round on_frame check new_limiter relay perform update_activity
met-alice = refl

run-Hears_example :
    (l' : Loop ℕ (ℕ × ℕ)) × (get "bob"
        (run fixed events (log_laws RoomEvent) codec met (catch_up "bob" 2)).connections
      ≡ some (record bob { loop = some l' }))
    × Sublist ("hello" ∷ []) (texts l'.done)
unfolding run log_laws step get attach room_exists insert act take_seat join join_room snapshot work
    start_round round on_frame check new_limiter relay perform update_activity sender target
    from_event
run-Hears_example =
    run-Hears fixed events (log_laws RoomEvent) codec table silence meeting "alice" "bob" alice bob
      entered no_channels met-alice met-bob refl refl refl refl (omega arith) (refl, (refl, tt))
