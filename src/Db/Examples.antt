-- ===== src/Db/Examples.antt =====
-- The theorems about src/db.rs at concrete tables.
use parrhesia_backend.Common.{ℕ, ◌≡◌, refl, true, none, some, [], ◌∷◌, arith, string_eq, ok, err}
use parrhesia_backend.Common.Int.{pos}
use parrhesia_backend.Common.Dict.{get, retain, IsMap}
use parrhesia_backend.Db.{
  fault, Row, Table, without_password, MigrationFaults, run_migrations, room_exists,
  update_activity, delete_inactive_rooms, stale_ids,
}
use parrhesia_backend.Db.Laws.{run_migrations_lem, activity_kept}

abbrev row_at : ℕ → Row
row_at n = record { created_at = pos n; last_activity = pos n; password_hash = none }

abbrev two_rooms : Table
two_rooms = ("stale", row_at 0) ∷ ("fresh", row_at 9000) ∷ []

two_rooms-IsMap : IsMap two_rooms
unfolding get
two_rooms-IsMap = (refl, (refl, tt))

abbrev broken_alter : MigrationFaults
broken_alter = record {
  at_begin = none;
  at_create = none;
  at_count = none;
  at_alter = some fault;
  at_commit = none;
}

stale_deleted :
    delete_inactive_rooms none (pos 10000) (pos 3600) two_rooms
    ≡ (ok ("stale" ∷ []), ("fresh", row_at 9000) ∷ [])
unfolding delete_inactive_rooms stale_ids retain
stale_deleted = refl

run_migrations_lem_example :
    run_migrations broken_alter without_password ≡ (err fault, without_password)
run_migrations_lem_example = run_migrations_lem broken_alter without_password

activity_kept_example :
    let touched = (update_activity none (pos 8000) "stale" two_rooms).1 in
    let after = (delete_inactive_rooms none (pos 10000) (pos 3600) touched).1 in
    room_exists none "stale" after ≡ ok true
activity_kept_example =
    activity_kept 8000 10000 3600 "stale" two_rooms two_rooms-IsMap (omega arith) (omega arith)
      (unfold get in refl)
