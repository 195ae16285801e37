-- ===== src/Ws/Connection/Examples.antt =====
-- A whole connection of src/routes/ws.rs to a room with a password: the client authenticates,
-- announces its keys, sends a message and closes.
use parrhesia_backend.Common.{
  ℕ, ◌⊎◌, true, false, ℕ, ◌≡◌, refl, Option, none, some, List, [], ◌∷◌, string_eq,
}
use mathlib.Core.Option
use parrhesia_backend.Common.Dict.{get, insert, remove}
use parrhesia_backend.Net.{v4, ip_same}
use parrhesia_backend.Float.{fixed}
use parrhesia_backend.Broadcast.{Log, log_laws}
use parrhesia_backend.Admission.{default, pending_auth, drop_guard, check_at, spend}
use parrhesia_backend.Admission.Pending.{default-Accounts, pending_auth_granted}
use parrhesia_backend.Db.{room_exists, update_activity}
use parrhesia_backend.Rooms.Events.{RoomEvent, sender, chat}
use parrhesia_backend.Rooms.{attach, join, join_room, snapshot, detach, detach_room}
use parrhesia_backend.Passwords.{normalize, compute, is_accepted, verify_job, verify}
use parrhesia_backend.Ws.Keys.{is_valid_mldsa65_public_key, is_valid_mlkem768_public_key}
use parrhesia_backend.Ws.RateLimiter.{new_limiter, check}
use parrhesia_backend.Ws.Session.{
  text, Effect, sent_text, touched, published, relay, on_frame, round,
}
use parrhesia_backend.Ws.Auth.{
  Attempt, read_text, judge, await_verification, conclude, attempt, read_password, ask,
  authenticate,
}
use parrhesia_backend.Ws.Handshake.{announced, read_keys}
use parrhesia_backend.Server.{Live, State}
use parrhesia_backend.Ws.Connection.{
  Visit, drop_pending, send_json, send_peers, greet, perform, serve, stay, enter, converse, connect,
  handle_socket, answer_pings, tell_failure, converse_auth,
}
use parrhesia_backend.Ws.Connection.Keeps.{IsUndisturbed}
use parrhesia_backend.Ws.Connection.Slots.{Holding, IsReturned, handle_socket-IsReturned}
use parrhesia_backend.Ws.Connection.Membership.{IsGone, IsTold}
use parrhesia_backend.Ws.Connection.Departure.{IsLeft, IsCivil, handle_socket-IsLeft}
use parrhesia_backend.Common.Int.{pos}
use parrhesia_backend.Ws.Auth.Laws.{IsProven}
use parrhesia_backend.Ws.Messages.{OutgoingMessage}
use parrhesia_backend.Ws.Auth.Refusals.{is_refusal}
use parrhesia_backend.Ws.Connection.Locked.{handle_socket-IsLocked}
use parrhesia_backend.Ws.Connection.Transcript.{IsTranscript, converse-IsTranscript}
use parrhesia_backend.Ws.Connection.Samples.{
  events, plain, codec, sizes, parse, phrase, visit, server,
}

-- The steps of others keep whatever they have to: they do nothing here.
calm :
    (m : Attempt ℕ (Live ℕ (Log RoomEvent))) (P : State fixed events → Type 0)
    → IsUndisturbed fixed events P (record visit { attempt = m })
calm m P = record {
  arriving = λ s h. h;
  joining = λ s h. h;
  leaving = λ s h. h;
  looping = ((λ s h. h, λ s h. h), ((λ s h. h, λ s h. h), tt));
}

one_slot : Holding (v4 1 ∷ []) (λ gs. gs ≡ []) server.admission
unfolding server pending_auth default get
one_slot = ([], refl, pending_auth_granted (v4 1) [] (default ℕ) default-Accounts refl)

abbrev wrote : List Effect
wrote =
    sent_text "alice"
    ∷ sent_text "joined"
    ∷ touched
    ∷ published (chat "alice" "hello" none none)
    ∷ []

abbrev of_result : Option (List Effect × State fixed events) → Option (List Effect)
of_result = Option.map (λ r. r.0)

whole :
    of_result (
      handle_socket fixed events codec sizes plain parse visit "room"
        (some (some phrase))
        (some (v4 1))
        server)
    ≡ some wrote
unfolding handle_socket converse_auth answer_pings tell_failure connect converse enter stay serve
    perform greet send_peers send_json drop_pending authenticate conclude ask read_text
    read_password attempt check_at get server spend await_verification judge verify normalize
    compute verify_job is_accepted default drop_guard pending_auth insert remove room_exists
    update_activity sender attach detach detach_room join join_room snapshot announced read_keys
    is_valid_mldsa65_public_key is_valid_mlkem768_public_key check new_limiter on_frame relay round
    ip_same
whole = refl

handle_socket-IsReturned_example :
    IsReturned fixed events
      (λ gs. gs ≡ [])
      (handle_socket fixed events codec sizes plain parse visit "room"
        (some (some phrase))
        (some (v4 1))
        server)
handle_socket-IsReturned_example =
    handle_socket-IsReturned fixed events codec sizes plain parse (λ gs. gs ≡ []) visit "room"
      (some (some phrase)) (some (v4 1)) server one_slot (λ x h. h) (λ x h. h)
      (calm visit.attempt (λ x. Holding [] (λ gs. gs ≡ []) x.admission))

-- The same, kept for its result.
ended :
    IsReturned fixed events
      (λ gs. gs ≡ [])
      (handle_socket fixed events codec sizes plain parse visit "room"
        (some (some phrase))
        (some (v4 1))
        server)
ended =
    handle_socket-IsReturned fixed events codec sizes plain parse (λ gs. gs ≡ []) visit "room"
      (some (some phrase)) (some (v4 1)) server one_slot (λ x h. h) (λ x h. h)
      (calm visit.attempt (λ x. Holding [] (λ gs. gs ≡ []) x.admission))

civil : IsCivil fixed events (log_laws RoomEvent) "room" visit
civil = record {
  calm = calm visit.attempt (IsTold fixed events (log_laws RoomEvent));
  before_told = λ s h. h;
  during_told = λ s h. h;
  before_unused = λ s h. h;
  during_unused = λ s h. h;
  arriving_unused = λ s h. h;
}

no_rooms : IsTold fixed events (log_laws RoomEvent) server
unfolding server get
no_rooms = record { opened = λ id r g. cc; apart = λ i j r q g k. cc; tracked = λ id r g. cc }

nobody : IsGone "room" "alice" server.rest.rooms
unfolding server get
nobody r h = cc

handle_socket-IsLeft_example :
    IsLeft fixed events (log_laws RoomEvent) "room" "alice" (ended.0, ended.1)
handle_socket-IsLeft_example =
    handle_socket-IsLeft fixed events (log_laws RoomEvent) codec sizes plain parse "room" visit
      civil (some (some phrase)) (some (v4 1)) server (ended.0, ended.1) no_rooms nobody ended.2

-- A client that guesses.
abbrev guess : Attempt ℕ (Live ℕ (Log RoomEvent))
guess = record (visit.attempt) { frames = (true, text "a guess at the phrase") ∷ [] }

abbrev intruder : Visit ℕ (Live ℕ (Log RoomEvent))
intruder = record visit { attempt = guess }

barred :
    IsReturned fixed events
      (λ gs. gs ≡ [])
      (handle_socket fixed events codec sizes plain parse intruder "room"
        (some (some phrase))
        (some (v4 1))
        server)
barred =
    handle_socket-IsReturned fixed events codec sizes plain parse (λ gs. gs ≡ []) intruder "room"
      (some (some phrase)) (some (v4 1)) server one_slot (λ x h. h) (λ x h. h)
      (calm guess (λ x. Holding [] (λ gs. gs ≡ []) x.admission))

handle_socket-IsLocked_example :
    IsProven fixed plain parse guess "room" phrase server
    ⊎ ((failure : OutgoingMessage) × (is_refusal failure ≡ true)
        × (barred.0 ≡ converse_auth codec guess (some failure))
        × (barred.1.rest ≡ server.rest))
handle_socket-IsLocked_example =
    handle_socket-IsLocked fixed events codec sizes plain parse (λ x. x ≡ server.rest) intruder
      "room" phrase (some (v4 1)) server (barred.0, barred.1) (λ x h. h) (λ x h. h) refl barred.2

-- The room has a peer, whose keys the client is told.
abbrev shared : State fixed events
shared = record {
  admission = default ℕ;
  db =
      ("room", record { created_at = pos 1; last_activity = pos 1; password_hash = some phrase })
      ∷ [];
  rest = record {
    rooms =
        (
          "room",
          record {
            tx = 0;
            creator_id = some "bob";
            participants =
                ("bob", record { public_key = "dsa"; pq_public_key = "kem"; sig = none }) ∷ [];
          },
        )
        ∷ [];
    bus = record { next = 1; events = λ s. []; capacities = λ s. 0 };
  };
}

converse-IsTranscript_example :
    IsTranscript fixed events codec sizes visit true
      (0, false, some "bob")
      "room"
      shared
      (converse fixed events codec sizes visit true (0, false, some "bob") "room" shared).0
converse-IsTranscript_example =
    converse-IsTranscript fixed events codec sizes visit true 0 false (some "bob") "room" shared
