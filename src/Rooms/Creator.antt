-- ===== src/Rooms/Creator.antt =====
-- The creator and the size of a room of src/state.rs.
use parrhesia_backend.Common.{
  ℕ, ◌≤◌, ◌<◌, ◌≡◌, ◌≢◌, refl, ◌⊎◌, inl, inr, Bool, true, false, Option, none, some, [], arith,
  String, string_eq, ==-refl, Option-cases, Bool-cases, leb, length, ok, err,
}
use parrhesia_backend.Common.Dict.{get, insert, remove, get-insert, length-insert}
use parrhesia_backend.Db.{DbError, room_exists}
use parrhesia_backend.Broadcast.{Broadcast}
use parrhesia_backend.Rooms.Events.{RoomEvent}
use parrhesia_backend.Rooms.Laws.{Result-cases}
use parrhesia_backend.Rooms.{
  Participant, Room, App, joined, full, room_gone, snapshot, attach, elect, room_entry, join,
  join_room, detach, detach_room,
}

module _ (bc : Broadcast RoomEvent) where
  open bc use {Bus, Sender, subscribe}

  -- A join is refused exactly when the room is gone or holds `max_participants` already, and then
  -- changes nothing; otherwise the room gains the participant, stays within the limit, and the
  -- reply lists those who were there.
  pub join_lem :
      (room_id conn_id : String) (p : Participant) (n : ℕ) (s : App bc)
      → let (reply, after) = join bc room_id conn_id p n s in
        ((get room_id s.rooms ≡ none) × (reply ≡ room_gone) × (after ≡ s))
        ⊎ ((r : Room Sender) × (get room_id s.rooms ≡ some r)
            × (((n ≤ length r.participants) × (reply ≡ full) × (after ≡ s))
                ⊎ ((length r.participants < n)
                    × (reply ≡ joined (subscribe r.tx s.bus).0 (snapshot r.participants))
                    × (get room_id after.rooms
                        ≡ some (record r { participants = insert conn_id p r.participants }))
                    × (length (insert conn_id p r.participants) ≤ n)
                    × (after.db ≡ s.db))))
  unfolding join join_room
  join_lem room_id conn_id p n s = elim (Option-cases (get room_id s.rooms)) [
    | inl e ↦ rw (e, join) (inl (refl, refl, refl))
    | inr (r, e) ↦ elim (Bool-cases (leb n (length r.participants))) [
      | inl f ↦ rw (e, f, join) (inr (r, refl, inl (ground arith, refl, refl)))
      | inr f ↦
          rw (e, f, join)
            (inr (
              r,
              refl,
              inr (
                ground arith,
                refl,
                rw (get-insert room_id room_id _ s.rooms, ==-refl room_id),
                ground (arith, length-insert conn_id p r.participants),
                refl,
              ),
            ))
    ]
  ]

  abbrev pub creator_of : Option (Room Sender) → Option String
  creator_of none = none
  creator_of (some r) = r.creator_id

  abbrev pub or_caller : Option String → String → Bool × Option String
  or_caller none conn_id = (true, some conn_id)
  or_caller (some c) conn_id = (false, some c)

  attach_found :
      (room_id conn_id : String) (o : Option (Room Sender)) (s : App bc)
      → let (r, b) = room_entry bc o s.bus in
        let (r', is_creator) = elect bc conn_id r in
        (or_caller (creator_of o) conn_id ≡ (is_creator, r'.creator_id))
        × (get room_id (insert room_id r' s.rooms) ≡ some r')
        × (r'.participants ≡ r.participants)
  attach_found room_id conn_id none s =
      (refl, rw (get-insert room_id room_id _ s.rooms, ==-refl room_id), refl)
  attach_found room_id conn_id (some r) s = elim (Option-cases r.creator_id) [
    | inl e ↦ (
      ground (arith, e),
      rw (get-insert room_id room_id _ s.rooms, ==-refl room_id),
      ground (arith, e),
    )
    | inr (c, e) ↦ (
      ground (arith, e),
      rw (get-insert room_id room_id _ s.rooms, ==-refl room_id),
      ground (arith, e),
    )
  ]

  -- A connection attaches exactly when the table has the room. It is the creator if the room had
  -- none, and is told who is; the room is in memory then, with the participants it had. A room
  -- that the table lacks, or a fault of the database, leaves the state as it is.
  pub attach_lem :
      (f : Option DbError) (room_id conn_id : String) (s : App bc)
      → let (reply, after) = attach bc f room_id conn_id s in
        ((room_exists f room_id s.db ≡ ok true)
          × ((r : Room Sender) × (get room_id after.rooms ≡ some r)
              × (r.participants ≡ (room_entry bc (get room_id s.rooms) s.bus).0.participants)
              × (reply ≡ (
                  let (is_creator, creator) =
                    or_caller (creator_of (get room_id s.rooms)) conn_id in
                  ok (some (r.tx, is_creator, creator)))))
          × (after.db ≡ s.db))
        ⊎ (((room_exists f room_id s.db ≡ ok false) × (reply ≡ ok none) × (after ≡ s))
            ⊎ ((e : DbError) × (room_exists f room_id s.db ≡ err e)
                × (reply ≡ err e)
                × (after ≡ s)))
  unfolding attach
  attach_lem f room_id conn_id s = elim (Result-cases (room_exists f room_id s.db)) [
    | inl e ↦
        let (p, g, q) = attach_found room_id conn_id (get room_id s.rooms) s in
        rw (e, attach) (inl (refl, (_, g, q, rw p), refl))
    | inr (inl e) ↦ rw (e, attach) (inr (inl (refl, refl, refl)))
    | inr (inr (x, e)) ↦ rw (e, attach) (inr (inr (x, refl, refl, refl)))
  ]

  detached :
      (room_id conn_id : String) (r : Room Sender) (s : App bc)
      → get room_id s.rooms ≡ some r
      → r.participants ≡ []
      → (get room_id (detach bc room_id conn_id s).rooms
          ≡ some (record r { creator_id = none; participants = [] }))
        × ((detach bc room_id conn_id s).db ≡ s.db)
  unfolding detach remove
  detached room_id conn_id r s g e =
      rw (g, detach, detach_room, e)
        (rw (get-insert room_id room_id _ s.rooms, ==-refl room_id), refl)

  -- While nobody has completed the handshake, any connection that leaves takes the creator away:
  -- the next one to attach is told that it is the creator, also if the connection that was told so
  -- before is still there.
  pub creator_reelected :
      (room_id leaver next creator : String) (r : Room Sender) (s : App bc)
      → get room_id s.rooms ≡ some r
      → r.participants ≡ []
      → r.creator_id ≡ some creator
      → leaver ≢ creator
      → room_exists none room_id s.db ≡ ok true
      → (attach bc none room_id next (detach bc room_id leaver s)).0
        ≡ ok (some (r.tx, true, some next))
  unfolding attach
  creator_reelected room_id leaver next creator r s g e c d x =
      let (h, k) = detached room_id leaver r s g e in rw (k, x, h, attach)
