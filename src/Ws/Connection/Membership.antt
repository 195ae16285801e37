-- ===== src/Ws/Connection/Membership.antt =====
-- The rooms over a whole connection of src/routes/ws.rs.

use parrhesia_backend.Common.{
  ℕ, ◌≡◌, refl, Bool, true, Option, none, some, List, String, string_eq, ==-refl, Result, ok, err,
  if◌then◌else◌, Option-cases, inl, inr, arith, ◌⊎◌,
}
use parrhesia_backend.Common.Dict.{get, remove, get-insert, get-remove, Dict}
use parrhesia_backend.Float.{Float}
use parrhesia_backend.Broadcast.{Broadcast, BroadcastLaws}
use parrhesia_backend.Db.{DbError, room_exists}
use parrhesia_backend.Rooms.Events.{RoomEvent}
use parrhesia_backend.Rooms.Replay.{relay-Tracked}
use parrhesia_backend.Rooms.Laws.{
  IsTracked, Result-cases, attach-Tracked, join-Tracked, detach-Tracked,
}
use parrhesia_backend.Rooms.{Room, App, Attached, attach, detach, detach_room, is_empty}
use parrhesia_backend.Ws.Messages.{auth_unavailable}
use parrhesia_backend.Ws.Session.{Effect, Codec}
use parrhesia_backend.Server.{Live, State, app_of, put_app}
use parrhesia_backend.Ws.Connection.{Visit, send_json, converse, connect, max_participants}
use parrhesia_backend.Ws.Connection.Keeps.{IsStable}

-- No participant of the room has this id.
abbrev pub IsGone : {Sender : Type 0} → String → String → Dict String (Room Sender) → Type 0
IsGone {Sender} room_id conn_id rooms =
    (r : Room Sender) → get room_id rooms ≡ some r → get conn_id r.participants ≡ none

module _ (bc : Broadcast RoomEvent) where
  open bc use {Sender}

  detach_room-IsGone :
      (q : Room Sender) (room_id conn_id : String) (s : App bc)
      → IsGone room_id conn_id (detach_room bc room_id conn_id q s).rooms
  unfolding detach_room
  detach_room-IsGone q room_id conn_id s r k =
      let left = remove conn_id q.participants in
      let q' : Room Sender =
        if is_empty left
        then record q { creator_id = none; participants = left }
        else record q { participants = left } in
      ground (
        arith,
        get-insert room_id room_id q' s.rooms,
        ==-refl room_id,
        get-remove conn_id conn_id q.participants,
        ==-refl conn_id,
      )

  -- Whoever detaches is gone from the room.
  detach-IsGone :
      (room_id conn_id : String) (s : App bc)
      → IsGone room_id conn_id (detach bc room_id conn_id s).rooms
  unfolding detach
  detach-IsGone room_id conn_id s r h = elim (Option-cases (get room_id s.rooms)) [
    | inl e ↦ absurd (ground (arith, e, h))
    | inr (q, e) ↦ detach_room-IsGone q room_id conn_id s r (rw (e, detach) at h)
  ]

  attach_cases :
      (f : Option DbError) (room_id conn_id : String) (s : App bc)
      → ((a : Attached bc) × ((attach bc f room_id conn_id s).0 ≡ ok (some a)))
        ⊎ ((attach bc f room_id conn_id s).1 ≡ s)
  unfolding attach
  attach_cases f room_id conn_id s = elim (Result-cases (room_exists f room_id s.db)) [
    | inl e ↦ rw (e, attach) (inl (_, refl))
    | inr (inl e) ↦ rw (e, attach) (inr refl)
    | inr (inr (x, e)) ↦ rw (e, attach) (inr refl)
  ]

module _ (fl : Float) (bc : Broadcast RoomEvent) (laws : BroadcastLaws bc) where
  open fl use {F}
  open bc use {Bus, Sender}

  -- Each room's channel tells who is in it.
  abbrev pub IsTold : State fl bc → Type 0
  IsTold s = IsTracked bc laws (app_of fl bc s)

  pub connection-IsStable : (room_id uuid : String) → IsStable fl bc IsTold room_id uuid
  connection-IsStable room_id uuid = record {
    attaches = λ f s h. attach-Tracked bc laws f room_id uuid (app_of fl bc s) h;
    joins = λ p s h. join-Tracked bc laws room_id uuid p max_participants (app_of fl bc s) h;
    detaches = λ s h. detach-Tracked bc laws room_id uuid (app_of fl bc s) h;
    publishes = λ tx e s i r h. relay-Tracked bc laws tx e s.rest.rooms s.rest.bus r h;
    records = λ f now s h. h;
  }

  module _ (codec : Codec) (decode : String → Option ℕ) (v : Visit F (Live Sender Bus))
      (room_id : String) where
    abbrev pub Absent : State fl bc → Type 0
    Absent s = IsGone room_id v.uuid s.rest.rooms

    pub connect-IsGone :
        (protected : Bool) (s : State fl bc)
        → Absent (v.arriving s)
        → Absent (connect fl bc codec decode v protected room_id s).1
    unfolding connect
    connect-IsGone protected s h = go reply.0 refl
      where
        arrived : App bc
        arrived = app_of fl bc (v.arriving s)

        reply : Result (Option (Attached bc)) DbError × App bc
        reply = attach bc v.failure room_id v.uuid arrived

        same : ((a : Attached bc) → reply.0 ≡ ok (some a) → ⊥) → IsGone room_id v.uuid reply.1.rooms
        same no_reply = elim (attach_cases bc v.failure room_id v.uuid arrived) [
          | inl (a, q) ↦ absurd (no_reply a q)
          | inr q ↦ rw q h
        ]

        go :
            (r : Result (Option (Attached bc)) DbError)
            → reply.0 ≡ r
            → Absent
                (elim r as (λ x. List Effect × State fl bc) [
                  | err _ ↦ (
                    (send_json codec true auth_unavailable).0,
                    put_app fl bc reply.1 (v.arriving s),
                  )
                  | ok none ↦ (
                    (send_json codec true auth_unavailable).0,
                    put_app fl bc reply.1 (v.arriving s),
                  )
                  | ok (some attached) ↦
                      (let (wrote, s3) =
                          converse fl bc codec decode v protected attached room_id
                            (put_app fl bc reply.1 (v.arriving s)) in
                        let s4 = v.leaving s3 in
                        (wrote, put_app fl bc (detach bc room_id v.uuid (app_of fl bc s4)) s4))
                ]).1
        go (err x) e = same (λ a q. cc)
        go (ok none) e = same (λ a q. cc)
        go (ok (some attached)) e = detach-IsGone bc room_id v.uuid _
