-- ===== src/Rooms/Backing.antt =====
-- The rooms in memory of src/state.rs and those of the table of src/db.rs.
use parrhesia_backend.Common.{
  ℕ, ◌≡◌, refl, ap, ◌∙◌, true, not, Option, none, some, List, [], ◌∷◌, arith, String, string_eq,
  if◌then◌else◌, Bool-cases, Option-cases, inl, inr, leb, length,
}
use parrhesia_backend.Common.Int.{ℤ, i64_sub}
use parrhesia_backend.Common.Dict.{
  Dict, get, insert, remove, get-insert, get-remove, is_some, IsMap, insert-IsMap, retain,
  retain-IsMap,
}
use parrhesia_backend.Db.{
  DbError, Table, Row, room_exists, delete_inactive_rooms, update_activity,
  create_room_with_password, touch, is_stale, stale_ids,
}
use parrhesia_backend.Db.Laws.{contains, stale_row, contains-stale_ids, survivors}
use parrhesia_backend.Broadcast.{Broadcast}
use parrhesia_backend.Rooms.Events.{RoomEvent}
use parrhesia_backend.Rooms.{
  Participant, Room, App, attach, join, join_room, detach, detach_room, expire_room, expire_all,
  expire_inactive_rooms,
}

-- Every room in memory is a room of the table.
abbrev pub Backed : {Sender : Type 0} → Dict String (Room Sender) → Table → Type 0
Backed rooms t = (id : String) → is_some (get id rooms) ≡ true → is_some (get id t) ≡ true

insert-Backed :
    {Sender : Type 0} (id : String) (r : Room Sender) (rooms : Dict String (Room Sender))
    (t : Table)
    → is_some (get id t) ≡ true
    → Backed rooms t
    → Backed (insert id r rooms) t
insert-Backed id r rooms t here v other h =
    ground (arith, get-insert id other r rooms, string_eq.same_iff id other, v other)

insert_row-Backed :
    {Sender : Type 0} (id : String) (row : Row) (rooms : Dict String (Room Sender)) (t : Table)
    → Backed rooms t
    → Backed rooms (insert id row t)
insert_row-Backed id row rooms t v other h = ground (arith, get-insert id other row t, v other h)

module _ (bc : Broadcast RoomEvent) where
  -- The table has each room once, and every room in memory.
  abbrev pub IsBacked : App bc → Type 0
  IsBacked s = IsMap s.db × Backed s.rooms s.db

  pub attach-IsBacked :
      (f : Option DbError) (room_id conn_id : String) (s : App bc)
      → IsBacked s
      → IsBacked (attach bc f room_id conn_id s).1
  unfolding attach room_exists
  attach-IsBacked (some e) room_id conn_id s v = v
  attach-IsBacked none room_id conn_id s (u, v) = elim (Bool-cases (is_some (get room_id s.db))) [
    | inr e ↦ rw (e, attach) (u, v)
    | inl e ↦ rw (e, attach) (u, insert-Backed room_id _ s.rooms s.db e v)
  ]

  -- A room of the map is replaced.
  replaced :
      (id : String) (r q : Room bc.Sender) (s : App bc)
      → get id s.rooms ≡ some r
      → IsBacked s
      → Backed (insert id q s.rooms) s.db
  replaced id r q s g (u, v) = insert-Backed id q s.rooms s.db (v id (rw g)) v

  join_room-IsBacked :
      (room_id conn_id : String) (p : Participant) (n : ℕ) (r : Room bc.Sender) (s : App bc)
      → get room_id s.rooms ≡ some r
      → IsBacked s
      → IsBacked (join_room bc room_id conn_id p n r s).1
  unfolding join_room
  join_room-IsBacked room_id conn_id p n r s g v =
      elim (Bool-cases (leb n (length r.participants))) [
        | inl e ↦ rw e v
        | inr e ↦ rw e (v.0, replaced room_id r _ s g v)
      ]

  pub join-IsBacked :
      (room_id conn_id : String) (p : Participant) (n : ℕ) (s : App bc)
      → IsBacked s
      → IsBacked (join bc room_id conn_id p n s).1
  unfolding join
  join-IsBacked room_id conn_id p n s v = elim (Option-cases (get room_id s.rooms)) [
    | inl e ↦ rw (e, join) v
    | inr (r, e) ↦ rw (e, join) (join_room-IsBacked room_id conn_id p n r s e v)
  ]

  pub detach-IsBacked :
      (room_id conn_id : String) (s : App bc) → IsBacked s → IsBacked (detach bc room_id conn_id s)
  unfolding detach detach_room
  detach-IsBacked room_id conn_id s v = elim (Option-cases (get room_id s.rooms)) [
    | inl e ↦ rw (e, detach) v
    | inr (r, e) ↦ rw (e, detach) (v.0, replaced room_id r _ s e v)
  ]

  -- The rooms of the list leave memory, and the table stays.
  pub expire_all_lem :
      (ids : List String) (id : String) (s : App bc)
      → (get id (expire_all bc ids s).rooms ≡ (if contains id ids then none else get id s.rooms))
        × ((expire_all bc ids s).db ≡ s.db)
  unfolding expire_all
  expire_all_lem [] id s = (refl, refl)
  expire_all_lem (x ∷ ids) id s =
      let (e, d) =
        expire_all_lem ids id
          (record s { rooms = remove x s.rooms; bus = expire_room bc (get x s.rooms) s.bus }) in
      (ground (arith, e, get-remove x id s.rooms), d)

  -- What an expiry leaves of a room.
  pub left_over :
      (now threshold : ℤ) (id : String) (s : App bc)
      → IsMap s.db
      → let after = (expire_inactive_rooms bc none now threshold s).1 in
        let gone = stale_row (i64_sub now threshold) (get id s.db) in
        (get id after.db ≡ (if gone then none else get id s.db))
        × (get id after.rooms ≡ (if gone then none else get id s.rooms))
        × IsMap after.db
  unfolding expire_inactive_rooms delete_inactive_rooms
  left_over now threshold id s u =
      let cutoff = i64_sub now threshold in
      let kept = retain (λ r. not (is_stale cutoff r)) s.db in
      let (e, d) = expire_all_lem (stale_ids cutoff s.db) id (record s { db = kept }) in
      (
        ap (get id) d ∙ survivors cutoff id s.db u,
        rw (← contains-stale_ids cutoff id s.db u) e,
        rw d (retain-IsMap _ s.db u),
      )

  pub expire_inactive_rooms-IsBacked :
      (f : Option DbError) (now threshold : ℤ) (s : App bc)
      → IsBacked s
      → IsBacked (expire_inactive_rooms bc f now threshold s).1
  unfolding expire_inactive_rooms delete_inactive_rooms
  expire_inactive_rooms-IsBacked (some e) now threshold s v = v
  expire_inactive_rooms-IsBacked none now threshold s (u, v) = (
    (left_over now threshold "" s u).2,
    λ id h. let (d, r, _) = left_over now threshold id s u in ground (arith, d, r, v id, h),
  )

  pub update_activity-IsBacked :
      (f : Option DbError) (now : ℤ) (id : String) (s : App bc)
      → IsBacked s
      → IsBacked (record s { db = (update_activity f now id s.db).1 })
  unfolding update_activity
  update_activity-IsBacked (some e) now id s v = v
  update_activity-IsBacked none now id s (u, v) = go (get id s.db)
    where
      go : (o : Option Row) → IsBacked (record s { db = touch now id o s.db })
      go none = (u, v)
      go (some r) = (insert-IsMap id _ s.db u, insert_row-Backed id _ s.rooms s.db v)

  pub create_room-IsBacked :
      (f : Option DbError) (now : ℤ) (id : String) (hash : Option String) (s : App bc)
      → IsBacked s
      → IsBacked (record s { db = (create_room_with_password f now id hash s.db).1 })
  unfolding create_room_with_password
  create_room-IsBacked (some e) now id hash s v = v
  create_room-IsBacked none now id hash s (u, v) = elim (Bool-cases (is_some (get id s.db))) [
    | inl e ↦ rw e (u, v)
    | inr e ↦ rw e (insert-IsMap id _ s.db u, insert_row-Backed id _ s.rooms s.db v)
  ]
