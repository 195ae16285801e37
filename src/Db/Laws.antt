-- ===== src/Db/Laws.antt =====
-- What the statements of src/db.rs do to a room.
use parrhesia_backend.Common.{
  ℕ, ◌+◌, ◌-◌, ◌<◌, ◌≡◌, refl, ◌⊎◌, inl, inr, Bool, true, false, not, ◌||◌, Option, none, some,
  List, [], ◌∷◌, arith, String, string_eq, ◌==◌, ==-refl, if◌then◌else◌, Result, ok, err, ltb,
  Option-cases, Bool-cases,
}
use parrhesia_backend.Common.Int.{ℤ, pos, i64_sub, i64_half, positive, negative}
use parrhesia_backend.Common.Dict.{
  get, insert, retain, is_some, IsMap, insert-IsMap, get-insert, get-retain, get-retain-none,
}
use parrhesia_backend.Db.{
  DbError, duplicate_id, Row, Table, Schema, no_table, without_password, with_password,
  MigrationFaults, run_migrations, create_room_with_password, room_password, room_exists,
  update_activity, touch, is_stale, stale_ids, delete_inactive_rooms,
}

abbrev pub contains : String → List String → Bool
contains id [] = false
contains id (x ∷ xs) = x == id || contains id xs

abbrev pub stale_row : ℤ → Option Row → Bool
stale_row cutoff none = false
stale_row cutoff (some r) = is_stale cutoff r

abbrev or_else : Option DbError → Option DbError → Option DbError
or_else (some e) rest = some e
or_else none rest = rest

-- `ALTER TABLE` is sent unless the column is there.
abbrev alter_fault : Schema → Option DbError → Option DbError
alter_fault with_password e = none
alter_fault _ e = e

-- The first statement that fails, of those that are sent.
abbrev pub first_fault : MigrationFaults → Schema → Option DbError
first_fault f s =
    or_else f.at_begin
      (or_else f.at_create (or_else f.at_count (or_else (alter_fault s f.at_alter) f.at_commit)))

abbrev pub migrated : Schema → Option DbError → Result (Unit {0}) DbError × Schema
migrated s none = (ok tt, with_password)
migrated s (some e) = (err e, s)

-- The migrations are one step: if no statement that is sent fails, every column is there, from
-- whatever schema they started; otherwise the first error is returned and the schema is as before.
pub run_migrations_lem :
    (f : MigrationFaults) (s : Schema) → run_migrations f s ≡ migrated s (first_fault f s)
unfolding run_migrations
run_migrations_lem f no_table = ground arith
run_migrations_lem f without_password = ground arith
run_migrations_lem f with_password = ground arith

-- A room that was created has the password hash it was created with, and no other room changes;
-- a name that is taken, or a failed statement, changes nothing.
pub create_room_lem :
    (f : Option DbError) (now : ℤ) (id other : String) (hash : Option String) (t : Table)
    → let (reply, after) = create_room_with_password f now id hash t in
      let row : Row = record { created_at = now; last_activity = now; password_hash = hash } in
      ((reply ≡ ok tt)
        × (room_exists none id t ≡ ok false)
        × (room_password none id after ≡ ok (some hash))
        × (get other after ≡ (if id == other then some row else get other t)))
      ⊎ ((e : DbError) × (reply ≡ err e)
          × (after ≡ t)
          × ((f ≡ some e) ⊎ (room_exists none id t ≡ ok true)))
unfolding create_room_with_password room_exists room_password
create_room_lem (some e) now id other hash t = inr (e, refl, refl, inl refl)
create_room_lem none now id other hash t =
    let row : Row = record { created_at = now; last_activity = now; password_hash = hash } in
    elim (Bool-cases (is_some (get id t))) [
      | inl e ↦ rw e (inr (duplicate_id, refl, refl, inr refl))
      | inr e ↦
          rw e
            (inl (refl, refl, rw (get-insert id id row t, ==-refl id), get-insert id other row t))
    ]

pub contains-stale_ids :
    (cutoff : ℤ) (id : String) (t : Table)
    → IsMap t
    → contains id (stale_ids cutoff t) ≡ stale_row cutoff (get id t)
unfolding stale_ids get
contains-stale_ids cutoff id [] u = refl
contains-stale_ids cutoff id ((j, r) ∷ t) u =
    ground (arith, contains-stale_ids cutoff id t u.1, string_eq.same_iff j id)

pub survivors :
    (cutoff : ℤ) (id : String) (t : Table)
    → IsMap t
    → get id (retain (λ r. not (is_stale cutoff r)) t)
      ≡ (if stale_row cutoff (get id t) then none else get id t)
survivors cutoff id t u = elim (Option-cases (get id t)) [
  | inl e ↦ rw (e, get-retain-none (λ r. not (is_stale cutoff r)) id t e)
  | inr (r, e) ↦ ground (arith, get-retain (λ r. not (is_stale cutoff r)) id t u e)
]

touched-IsMap :
    (now : ℤ) (id : String) (o : Option Row) (t : Table) → IsMap t → IsMap (touch now id o t)
touched-IsMap now id none t u = u
touched-IsMap now id (some r) t u = insert-IsMap id _ t u

-- The rooms that a run deletes are those it returns: exactly the ones whose last activity lies
-- before the cutoff; every other room stays as it is, and a failed run deletes nothing.
pub delete_inactive_rooms_lem :
    (f : Option DbError) (now threshold : ℤ) (id : String) (t : Table)
    → IsMap t
    → let (reply, after) = delete_inactive_rooms f now threshold t in
      let gone = stale_row (i64_sub now threshold) (get id t) in
      ((f ≡ none)
        × (get id after ≡ (if gone then none else get id t))
        × ((ids : List String) × (reply ≡ ok ids) × (contains id ids ≡ gone)))
      ⊎ ((e : DbError) × (f ≡ some e) × (reply ≡ err e) × (after ≡ t))
unfolding delete_inactive_rooms
delete_inactive_rooms_lem (some e) now threshold id t u = inr (e, refl, refl, refl)
delete_inactive_rooms_lem none now threshold id t u =
    inl (refl, survivors _ id t u, (_, refl, contains-stale_ids _ id t u))

pub i64_sub_parts :
    (n t : ℕ)
    → n < i64_half
    → t < i64_half
    → (positive (i64_sub (pos n) (pos t)) ≡ n - t) × (negative (i64_sub (pos n) (pos t)) ≡ t - n)
i64_sub_parts n t h k = ground arith

-- With clock readings and a threshold that fit, a room that was active at `last` is deleted by a
-- run at `now` exactly when more than the threshold has passed since.
pub activity_kept :
    (last now threshold : ℕ) (id : String) (t : Table)
    → IsMap t
    → now < i64_half
    → threshold < i64_half
    → is_some (get id t) ≡ true
    → let touched = (update_activity none (pos last) id t).1 in
      let after = (delete_inactive_rooms none (pos now) (pos threshold) touched).1 in
      room_exists none id after ≡ ok (not (ltb (last + threshold) now))
unfolding update_activity delete_inactive_rooms room_exists
activity_kept last now threshold id t u h k there = elim (Option-cases (get id t)) [
  | inl e ↦ absurd (ground (arith, e))
  | inr (r, e) ↦
      let row = record r { last_activity = pos last } in
      rw
        (
          e,
          survivors (i64_sub (pos now) (pos threshold)) id (insert id row t)
              (insert-IsMap id row t u),
          get-insert id id row t,
          ==-refl id,
        )
        (ground (arith, i64_sub_parts now threshold h k))
]
