-- ===== src/Db.antt =====
-- src/db.rs: the statements on the table `rooms`. SQLite executes each statement as one step; the
-- first argument of an operation says whether the database fails the statement, which then has no
-- effect. The clock reading of `now_timestamp` is an argument.
pub mod Laws
mod Examples
use parrhesia_backend.Common.{
  ℕ, ◌≡◌, Bool, true, false, not, Option, none, some, List, [], ◌∷◌, String, string_eq,
  if◌then◌else◌, Result, ok, err,
}
use mathlib.Core.Option
use parrhesia_backend.Common.Int.{ℤ, less, i64_sub}
use parrhesia_backend.Common.Dict.{Dict, get, insert, retain, is_some}

-- `sqlx::Error`: a violation of the primary key, or another fault.
pub data DbError : Type 0 where
  duplicate_id : DbError
  fault : DbError

pub record Row : Type 0 where
  pub created_at : ℤ
  pub last_activity : ℤ
  pub password_hash : Option String

-- The column `id` is the primary key.
abbrev pub Table : Type 0
Table = Dict String Row

-- The table does not exist, or has the columns of the first release, or all of them.
pub data Schema : Type 0 where
  no_table without_password with_password : Schema

abbrev create_table : Schema → Schema
create_table no_table = without_password
create_table without_password = without_password
create_table with_password = with_password

-- `SELECT COUNT(*) … WHERE name = 'password_hash'` is 0.
abbrev lacks_password : Schema → Bool
lacks_password no_table = true
lacks_password without_password = true
lacks_password with_password = false

-- The outcome of each statement: `BEGIN`, `CREATE TABLE`, `SELECT COUNT`, `ALTER TABLE`, `COMMIT`.
pub record MigrationFaults : Type 0 where
  pub at_begin : Option DbError
  pub at_create : Option DbError
  pub at_count : Option DbError
  pub at_alter : Option DbError
  pub at_commit : Option DbError

abbrev attempt {ℓ κ} :
    {A : Type ℓ} {B : Type κ} → Option DbError → B → Result A DbError × B → Result A DbError × B
attempt none before rest = rest
attempt (some e) before rest = (err e, before)

-- A transaction that is dropped before `commit` leaves the schema as it was.
unfoldable pub run_migrations : MigrationFaults → Schema → Result (Unit {0}) DbError × Schema
run_migrations f s =
    let created = create_table s in
    let commit : Schema → Result (Unit {0}) DbError × Schema =
      λ t. attempt f.at_commit s (ok tt, t) in
    attempt f.at_begin s (
      attempt f.at_create s (
        attempt f.at_count s (
          if lacks_password created
          then attempt f.at_alter s (commit with_password)
          else commit created)))

unfoldable pub create_room_with_password :
    Option DbError → ℤ → String → Option String → Table → Result (Unit {0}) DbError × Table
create_room_with_password f now room_id hash t = attempt f t (
    if is_some (get room_id t) then (err duplicate_id, t) else (
      ok tt,
      insert room_id (record { created_at = now; last_activity = now; password_hash = hash }) t,
    ))

-- `create_room`: a room with no password.
unfoldable pub create_open_room :
    Option DbError → ℤ → String → Table → Result (Unit {0}) DbError × Table
unfolding create_room_with_password
create_open_room f now room_id t = create_room_with_password f now room_id none t

-- The outer `Option` distinguishes a missing room from an open one.
unfoldable pub room_password :
    Option DbError → String → Table → Result (Option (Option String)) DbError
room_password none room_id t = ok (Option.map (λ r. r.password_hash) (get room_id t))
room_password (some e) room_id t = err e

unfoldable pub room_exists : Option DbError → String → Table → Result Bool DbError
room_exists none room_id t = ok (is_some (get room_id t))
room_exists (some e) room_id t = err e

abbrev pub touch : ℤ → String → Option Row → Table → Table
touch now room_id none t = t
touch now room_id (some r) t = insert room_id (record r { last_activity = now }) t

unfoldable pub update_activity :
    Option DbError → ℤ → String → Table → Result (Unit {0}) DbError × Table
update_activity f now room_id t = attempt f t (ok tt, touch now room_id (get room_id t) t)

abbrev pub is_stale : ℤ → Row → Bool
is_stale cutoff r = less r.last_activity cutoff

-- `RETURNING id`.
unfoldable pub stale_ids : ℤ → Table → List String
stale_ids cutoff [] = []
stale_ids cutoff ((id, r) ∷ t) =
    let rest = stale_ids cutoff t in if is_stale cutoff r then id ∷ rest else rest

unfoldable pub delete_inactive_rooms :
    Option DbError → ℤ → ℤ → Table → Result (List String) DbError × Table
delete_inactive_rooms f now threshold t =
    let cutoff = i64_sub now threshold in
    attempt f t (ok (stale_ids cutoff t), retain (λ r. not (is_stale cutoff r)) t)
