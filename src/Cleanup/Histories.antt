-- ===== src/Cleanup/Histories.antt =====
-- Histories of the shared state: the ticks of src/cleanup.rs among the calls that the handlers make
-- of src/admission.rs, src/db.rs and src/state.rs, in any order.
use parrhesia_backend.Common.{
  ℕ, ◌≡◌, true, Option, List, [], ◌∷◌, String, string_eq, Bool-cases, inl, inr, ltb,
}
use parrhesia_backend.Common.Int.{ℤ}
use parrhesia_backend.Common.Dict.{get, IsMap}
use parrhesia_backend.Config.{Config, inactivity_expiry_secs}
use parrhesia_backend.Float.{Float}
use parrhesia_backend.Broadcast.{Broadcast, BroadcastLaws}
use parrhesia_backend.Admission.{Budget, check_at}
use parrhesia_backend.Db.{DbError, Table, create_room_with_password, update_activity}
use parrhesia_backend.Server.{State, app_of, put_app, new_state}
use parrhesia_backend.Rooms.Events.{RoomEvent}
use parrhesia_backend.Rooms.Replay.{is_relay, relay-Tracked}
use parrhesia_backend.Rooms.Histories.{fresh-Tracked}
use parrhesia_backend.Rooms.Laws.{
  IsTracked, attach-Tracked, join-Tracked, detach-Tracked, expire_inactive_rooms-Tracked,
}
use parrhesia_backend.Rooms.Backing.{
  IsBacked, attach-IsBacked, join-IsBacked, detach-IsBacked, expire_inactive_rooms-IsBacked,
  update_activity-IsBacked, create_room-IsBacked,
}
use parrhesia_backend.Rooms.{Participant, attach, join, detach}
use parrhesia_backend.Cleanup.{Tick, maintenance, expiry, period_secs, expire, tick}

module _ (fl : Float) (bc : Broadcast RoomEvent) where
  open fl use {F}
  open bc use {Bus, Sender, send}

  pub data Call : Type 0 where
    ticks : Tick → Call
    checks : Budget → ℕ → Call
    creates : Option DbError → ℤ → String → Option String → Call
    records : Option DbError → ℤ → String → Call
    attaches : Option DbError → String → String → Call
    joins : String → String → Participant → ℕ → Call
    detaches : String → String → Call
    -- A session relays an event through the sender that it holds.
    relays : Sender → (e : RoomEvent) → is_relay e ≡ true → Call

  unfoldable pub step : Config → State fl bc → Call → State fl bc
  step c s (ticks t) = tick fl bc c t s
  step c s (checks key now) = record s { admission = (check_at fl key now s.admission).1 }
  step c s (creates f now id hash) = record s {
    db = (create_room_with_password f now id hash s.db).1;
  }
  step c s (records f now id) = record s { db = (update_activity f now id s.db).1 }
  step c s (attaches f room_id conn_id) =
      put_app fl bc (attach bc f room_id conn_id (app_of fl bc s)).1 s
  step c s (joins room_id conn_id p n) =
      put_app fl bc (join bc room_id conn_id p n (app_of fl bc s)).1 s
  step c s (detaches room_id conn_id) = put_app fl bc (detach bc room_id conn_id (app_of fl bc s)) s
  step c s (relays tx e _) = record s { rest = record (s.rest) { bus = send tx e s.rest.bus } }

  unfoldable pub run : Config → State fl bc → List Call → State fl bc
  run c s [] = s
  run c s (call ∷ calls) = run c (step c s call) calls

  module _ (laws : BroadcastLaws bc) (c : Config) where
    -- Memory and table agree, and the channels tell who is in each room.
    abbrev pub IsSettled : State fl bc → Type 0
    IsSettled s = IsBacked bc (app_of fl bc s) × IsTracked bc laws (app_of fl bc s)

    pub tick-IsSettled : (t : Tick) (s : State fl bc) → IsSettled s → IsSettled (tick fl bc c t s)
    unfolding tick expire
    tick-IsSettled (maintenance now) s v = v
    tick-IsSettled (expiry f now) s (b, k) = elim (Bool-cases (ltb 0 (period_secs c))) [
      | inr e ↦ rw (e, tick) (b, k)
      | inl e ↦
          rw (e, tick)
            (
              expire_inactive_rooms-IsBacked bc f now (inactivity_expiry_secs c) (app_of fl bc s) b,
              expire_inactive_rooms-Tracked bc laws f now (inactivity_expiry_secs c)
                  (app_of fl bc s) k,
            )
    ]

    step-IsSettled : (s : State fl bc) (call : Call) → IsSettled s → IsSettled (step c s call)
    unfolding step
    step-IsSettled s (ticks t) v = tick-IsSettled t s v
    step-IsSettled s (checks key now) v = v
    step-IsSettled s (creates f now id hash) (b, k) =
        (create_room-IsBacked bc f now id hash (app_of fl bc s) b, k)
    step-IsSettled s (records f now id) (b, k) =
        (update_activity-IsBacked bc f now id (app_of fl bc s) b, k)
    step-IsSettled s (attaches f room_id conn_id) (b, k) =
        let a = app_of fl bc s in
        (attach-IsBacked bc f room_id conn_id a b, attach-Tracked bc laws f room_id conn_id a k)
    step-IsSettled s (joins room_id conn_id p n) (b, k) =
        let a = app_of fl bc s in
        (join-IsBacked bc room_id conn_id p n a b, join-Tracked bc laws room_id conn_id p n a k)
    step-IsSettled s (detaches room_id conn_id) (b, k) =
        let a = app_of fl bc s in
        (detach-IsBacked bc room_id conn_id a b, detach-Tracked bc laws room_id conn_id a k)
    step-IsSettled s (relays tx e h) (b, k) =
        (b, relay-Tracked bc laws tx e s.rest.rooms s.rest.bus h k)

    pub run-IsSettled :
        (s : State fl bc) (calls : List Call) → IsSettled s → IsSettled (run c s calls)
    unfolding run
    run-IsSettled s [] v = v
    run-IsSettled s (call ∷ calls) v = run-IsSettled (step c s call) calls (step-IsSettled s call v)

    pub new_state-IsSettled : (t : Table) (b : Bus) → IsMap t → IsSettled (new_state fl bc t b)
    unfolding get
    new_state-IsSettled t b u = ((u, λ id h. cc), fresh-Tracked bc laws t b)
