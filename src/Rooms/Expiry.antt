-- ===== src/Rooms/Expiry.antt =====
-- What `expire_inactive_rooms` of src/state.rs does to each room, and what its clients are told.
use parrhesia_backend.Common.{
  ◌≡◌, ◌≢◌, refl, sym, ap, ◌∙◌, ◌⊎◌, Bool, Option, none, some, List, [], ◌∷◌, ◌++◌, arith, String,
  string_eq, ◌==◌, ==-eq, if◌then◌else◌, Bool-cases, inl, inr, err,
}
use mathlib.Core.List.{append-nil}
use parrhesia_backend.Common.Int.{ℤ, i64_sub}
use parrhesia_backend.Common.Dict.{Dict, get, remove, get-remove, IsMap}
use parrhesia_backend.Db.{DbError, stale_ids, delete_inactive_rooms}
use parrhesia_backend.Db.Laws.{contains, stale_row, contains-stale_ids}
use parrhesia_backend.Broadcast.{Broadcast, BroadcastLaws}
use parrhesia_backend.Rooms.Events.{RoomEvent, room_expired}
use parrhesia_backend.Rooms.Replay.{remove-Tracked}
use parrhesia_backend.Rooms.Laws.{IsTracked, expire_room-Tracked}
use parrhesia_backend.Rooms.Backing.{left_over}
use parrhesia_backend.Rooms.{Room, App, expire_room, expire_all, expire_inactive_rooms}

abbrev pub notice : Bool → List RoomEvent
notice gone = if gone then room_expired ∷ [] else []

module _ (bc : Broadcast RoomEvent) (laws : BroadcastLaws bc) where
  open bc use {Bus, Sender}
  open laws use {sent}

  -- No room in memory has the channel.
  abbrev Free : Sender → Dict String (Room Sender) → Type 0
  Free x rooms = (id : String) (r : Room Sender) → get id rooms ≡ some r → r.tx ≢ x

  kept :
      (id j : String) (r : Room Sender) (rooms : Dict String (Room Sender))
      → get j (remove id rooms) ≡ some r
      → (id ≢ j) × (get j rooms ≡ some r)
  kept id j r rooms g = (
    λ e. ground (arith, get-remove id j rooms, string_eq.same_iff id j),
    ground (arith, get-remove id j rooms),
  )

  -- The notice for a room goes to its own channel alone.
  unnoticed :
      (x : Sender) (o : Option (Room Sender)) (b : Bus)
      → ((r : Room Sender) → o ≡ some r → r.tx ≢ x)
      → sent x (expire_room bc o b) ≡ sent x b
  unnoticed x none b f = refl
  unnoticed x (some r) b f = laws.sent-send_other r.tx x room_expired b (f r refl)

  quiet :
      (x : Sender) (ids : List String) (s : App bc)
      → Free x s.rooms
      → sent x (expire_all bc ids s).bus ≡ sent x s.bus
  unfolding expire_all
  quiet x [] s f = refl
  quiet x (id ∷ ids) s f =
      quiet x ids _ (λ j r g. f j r (kept id j r s.rooms g).1)
      ∙ unnoticed x (get id s.rooms) s.bus (λ r g. f id r g)

  -- A room in memory is told once, if it is among the rooms that expire, and nothing otherwise.
  noticed :
      (ids : List String) (id : String) (r : Room Sender) (s : App bc)
      → IsTracked bc laws s
      → get id s.rooms ≡ some r
      → sent r.tx (expire_all bc ids s).bus ≡ sent r.tx s.bus ++ notice (contains id ids)
  unfolding expire_all
  noticed [] id r s v g = sym (append-nil _)
  noticed (x ∷ ids) id r s v g = elim (Bool-cases (x == id)) [
    | inl e ↦ rw e (
        quiet r.tx ids _ (λ j q h k.
          let (n, h') = kept x j q s.rooms h in n (==-eq x id e ∙ v.apart id j r q g h' (sym k)))
        ∙ ap (λ o. sent r.tx (expire_room bc o s.bus)) (ap (λ i. get i s.rooms) (==-eq x id e) ∙ g)
        ∙ laws.sent-send r.tx room_expired s.bus)
    | inr e ↦ rw e (
        noticed ids id r _
          (expire_room-Tracked bc laws (get x s.rooms) _ _
            (remove-Tracked bc laws x s.rooms s.bus v))
          (ground (arith, get-remove x id s.rooms))
        ∙ ap (λ es. es ++ notice (contains id ids))
            (unnoticed r.tx (get x s.rooms) s.bus
              (λ q h k. ground (arith, v.apart x id q r h g k, string_eq.same_iff x id))))
  ]

  -- What an expiry makes of a room: deleted from the table and from memory, and its channel told
  -- once, or left alone.
  abbrev pub Expired : Bool → String → App bc → App bc → Type 0
  Expired gone id s after =
      (get id after.db ≡ (if gone then none else get id s.db))
      × (get id after.rooms ≡ (if gone then none else get id s.rooms))
      × ((r : Room Sender)
          → get id s.rooms ≡ some r
          → sent r.tx after.bus ≡ sent r.tx s.bus ++ notice gone)

  -- A run of the expiry that the database fails changes nothing; any other deletes, from the table
  -- and from memory, exactly the rooms whose last activity lies before the cutoff, and tells each
  -- of them that is in memory once that it expired; the rows, rooms and channels of the others stay.
  pub expire_inactive_rooms-Expired :
      (f : Option DbError) (now threshold : ℤ) (id : String) (s : App bc)
      → IsMap s.db
      → IsTracked bc laws s
      → let (reply, after) = expire_inactive_rooms bc f now threshold s in
        ((f ≡ none) × Expired (stale_row (i64_sub now threshold) (get id s.db)) id s after)
        ⊎ ((e : DbError) × (f ≡ some e) × (reply ≡ err e) × (after ≡ s))
  unfolding expire_inactive_rooms delete_inactive_rooms
  expire_inactive_rooms-Expired (some e) now threshold id s u v = inr (e, refl, refl, refl)
  expire_inactive_rooms-Expired none now threshold id s u v =
      let cutoff = i64_sub now threshold in
      let (d, r, _) = left_over bc now threshold id s u in
      inl (
        refl,
        (
          d,
          r,
          λ q g.
              rw (← contains-stale_ids cutoff id s.db u)
                (noticed (stale_ids cutoff s.db) id q _ v g),
        ),
      )
