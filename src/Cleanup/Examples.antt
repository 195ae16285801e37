-- ===== src/Cleanup/Examples.antt =====
-- The theorems about src/cleanup.rs and the expiry at a server with a room that is in memory.
use parrhesia_backend.Common.{
  ◌≡◌, refl, true, Option, none, some, List, [], ◌∷◌, string_eq, ◌⊎◌, err,
}
use parrhesia_backend.Common.Int.{pos, negsuc, i64_sub}
use parrhesia_backend.Common.Dict.{get, insert, remove, retain, is_some}
use parrhesia_backend.Net.{v4}
use parrhesia_backend.Float.{fixed}
use parrhesia_backend.Broadcast.{Broadcast, Log, log_bus, log_laws}
use parrhesia_backend.Config.{Config, inactivity_expiry_secs}
use parrhesia_backend.Server.{State, app_of, new_state}
use parrhesia_backend.Db.{
  DbError, room_exists, create_room_with_password, stale_ids, delete_inactive_rooms,
}
use parrhesia_backend.Db.Laws.{stale_row}
use parrhesia_backend.Rooms.Events.{RoomEvent, room_expired, peer_joined}
use parrhesia_backend.Rooms.Expiry.{Expired, expire_inactive_rooms-Expired}
use parrhesia_backend.Rooms.{
  App, Participant, attach, join, join_room, snapshot, expire_all, expire_inactive_rooms,
}
use parrhesia_backend.Cleanup.{maintenance, expiry, period_secs, expire, tick}
use parrhesia_backend.Cleanup.Histories.{
  Call, ticks, creates, attaches, joins, step, run, IsSettled, run-IsSettled, new_state-IsSettled,
}

abbrev events : Broadcast RoomEvent
events = log_bus RoomEvent

abbrev no_channels : Log RoomEvent
no_channels = record { next = 0; events = λ x. []; capacities = λ x. 0 }

abbrev config : Config
config = record {
  database_url = "sqlite::memory:";
  port = 8080;
  bind_address = v4 2130706433;
  allowed_origins = [];
  trusted_proxies = [];
  inactivity_expiry_hours = 24;
  cleanup_interval_mins = 5;
}

abbrev somebody : Participant
somebody = record { public_key = "k"; pq_public_key = "q"; sig = none }

abbrev history : List (Call fixed events)
history =
    creates none (pos 100) "room" none
    ∷ attaches none "room" "alice"
    ∷ joins "room" "alice" somebody 16
    ∷ creates none (pos 5000) "other" none
    ∷ ticks (maintenance 7)
    ∷ ticks (expiry none (pos 86500))
    ∷ []

abbrev before : State fixed events
before = run fixed events config (new_state fixed events [] no_channels) history

abbrev after : State fixed events
after = tick fixed events config (expiry none (pos 86501)) before

kept : is_some (get "room" before.rest.rooms) ≡ true
unfolding run step tick expire period_secs inactivity_expiry_secs expire_inactive_rooms
    delete_inactive_rooms stale_ids expire_all attach join join_room snapshot room_exists
    create_room_with_password get insert remove retain
kept = refl

expired :
    (get "room" after.rest.rooms ≡ none)
    × (is_some (get "other" after.db) ≡ true)
    × (after.rest.bus.events 0 ≡ peer_joined "alice" "k" "q" none ∷ room_expired ∷ [])
unfolding run step tick expire period_secs inactivity_expiry_secs expire_inactive_rooms
    delete_inactive_rooms stale_ids expire_all attach join join_room snapshot room_exists
    create_room_with_password get insert remove retain
expired = (refl, refl, refl)

abbrev app : App events
app = app_of fixed events before

app-IsSettled : IsSettled fixed events (log_laws RoomEvent) config before
app-IsSettled =
    run-IsSettled fixed events (log_laws RoomEvent) config (new_state fixed events [] no_channels)
      history (new_state-IsSettled fixed events (log_laws RoomEvent) config [] no_channels tt)

expire_inactive_rooms-Expired_example :
    let (reply, left) = expire_inactive_rooms events none (pos 86501) (pos 86400) app in
    (◌≡◌ {A = Option DbError} none none
      × Expired events
          (log_laws RoomEvent)
          (stale_row (i64_sub (pos 86501) (pos 86400)) (get "room" app.db))
          "room"
          app
          left)
    ⊎ ((e : DbError) × ◌≡◌ {A = Option DbError} none (some e) × (reply ≡ err e) × (left ≡ app))
expire_inactive_rooms-Expired_example =
    expire_inactive_rooms-Expired events (log_laws RoomEvent) none (pos 86501) (pos 86400) "room"
      app app-IsSettled.0.0 app-IsSettled.1

-- With an interval of zero the second task has ended, and the stale room stays.
stalled :
    is_some (
      get "room"
        (tick fixed events
          (record config { cleanup_interval_mins = 0 })
          (expiry none (pos 86501))
          before).db)
    ≡ true
unfolding run step tick expire period_secs inactivity_expiry_secs expire_inactive_rooms
    delete_inactive_rooms stale_ids expire_all attach join join_room snapshot room_exists
    create_room_with_password get insert remove retain
stalled = refl

-- Too many hours wrap to a negative expiry.
wrapped :
    inactivity_expiry_secs (record config { inactivity_expiry_hours = 4846317798252653 })
    ≡ negsuc 1000000000000000815
unfolding inactivity_expiry_secs
wrapped = refl
