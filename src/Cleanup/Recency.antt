-- ===== src/Cleanup/Recency.antt =====
-- What a tick of the second task of src/cleanup.rs leaves, whatever happened before.
use parrhesia_backend.Common.{
  ℕ, ◌*◌, ◌+◌, ◌≤◌, ◌<◌, ◌≡◌, sym, ap, ◌∙◌, subst, true, false, Option, none, some, List, arith,
  String, string_eq, if◌then◌else◌, Bool-cases, inl, inr,
}
use parrhesia_backend.Common.Int.{ℤ, pos, i64_half, i64_sub, less}
use parrhesia_backend.Common.Dict.{get, is_some, IsMap}
use parrhesia_backend.Config.{Config, inactivity_expiry_secs, inactivity_expiry_secs_lem}
use parrhesia_backend.Float.{Float}
use parrhesia_backend.Broadcast.{Broadcast, BroadcastLaws}
use parrhesia_backend.Db.{Table, Row, is_stale}
use parrhesia_backend.Db.Laws.{stale_row, i64_sub_parts}
use parrhesia_backend.Server.{State, app_of, new_state}
use parrhesia_backend.Rooms.Events.{RoomEvent}
use parrhesia_backend.Rooms.Backing.{left_over}
use parrhesia_backend.Rooms.{expire_inactive_rooms}
use parrhesia_backend.Cleanup.{expiry, period_secs, expire, tick}
use parrhesia_backend.Cleanup.Histories.{
  IsSettled, Call, run, tick-IsSettled, run-IsSettled, new_state-IsSettled,
}

-- The room was active within the expiry of the configuration before the time.
abbrev pub IsRecent : Config → ℕ → Row → Type 0
IsRecent c now row =
    (last : ℕ) → row.last_activity ≡ pos last → now ≤ last + c.inactivity_expiry_hours * 3600

-- The numbers of the configuration with which the second task runs as it says: there is an interval,
-- and neither product overflows.
pub record IsPunctual (c : Config) : Type 0 where
  pub some_interval : 1 ≤ c.cleanup_interval_mins
  pub interval_fits : c.cleanup_interval_mins ≤ 307445734561825860
  pub expiry_fits : c.inactivity_expiry_hours ≤ 2562047788015215

-- The period is the interval in seconds.
pub period_secs_lem : (c : Config) → IsPunctual c → period_secs c ≡ c.cleanup_interval_mins * 60
unfolding period_secs
period_secs_lem c p = omega (arith, p.interval_fits)

kept-IsRecent :
    (c : Config) (now : ℕ) (row : Row)
    → IsPunctual c
    → now < i64_half
    → is_stale (i64_sub (pos now) (inactivity_expiry_secs c)) row ≡ false
    → IsRecent c now row
kept-IsRecent c now row p fits h last e =
    let threshold = c.inactivity_expiry_hours * 3600 in
    let h' : is_stale (i64_sub (pos now) (pos threshold)) (record row { last_activity = pos last })
        ≡ false =
      subst (λ l. less l (i64_sub (pos now) (pos threshold)) ≡ false) e
        (rw (inactivity_expiry_secs_lem c p.expiry_fits) at h) in
    ground (arith, i64_sub_parts now threshold fits (omega (arith, p.expiry_fits)))

spared :
    (cutoff : ℤ) (o : Option Row) (row : Row)
    → (if stale_row cutoff o then none else o) ≡ some row
    → (o ≡ some row) × (is_stale cutoff row ≡ false)
spared cutoff none row g = (g, ground arith)
spared cutoff (some r) row g = elim (Bool-cases (is_stale cutoff r)) [
  | inl e ↦ absurd (ground arith)
  | inr e ↦ let same : r ≡ row = ground arith in (ap some same, rw (← same) e)
]

module _ (fl : Float) (bc : Broadcast RoomEvent) (laws : BroadcastLaws bc) (c : Config) where
  open bc use {Bus}

  -- A room of the table was active in time, and a room in memory is one of the table.
  abbrev pub IsFresh : ℕ → String → State fl bc → Type 0
  IsFresh now id s =
      ((row : Row) → get id s.db ≡ some row → IsRecent c now row)
      × (is_some (get id s.rest.rooms) ≡ true → is_some (get id s.db) ≡ true)

  pub tick-IsFresh :
      (s : State fl bc) (now : ℕ) (id : String)
      → IsSettled fl bc laws c s
      → IsPunctual c
      → now < i64_half
      → IsFresh now id (tick fl bc c (expiry none (pos now)) s)
  unfolding tick expire
  tick-IsFresh s now id v p fits =
      (left, (tick-IsSettled fl bc laws c (expiry none (pos now)) s v).0.1 id)
    where
      ticked :
          (expire_inactive_rooms bc none (pos now) (inactivity_expiry_secs c) (app_of fl bc s)).1.db
          ≡ (tick fl bc c (expiry none (pos now)) s).db
      ticked = ground (arith, period_secs_lem c p, p.some_interval)

      left :
          (row : Row)
          → get id (tick fl bc c (expiry none (pos now)) s).db ≡ some row
          → IsRecent c now row
      left row g =
          let (d, _, _) =
            left_over bc (pos now) (inactivity_expiry_secs c) id (app_of fl bc s) v.0.0 in
          let (f, h) = spared _ (get id s.db) row (sym d ∙ ap (get id) ticked ∙ g) in
          kept-IsRecent c now row p fits h

  -- After any history of a new server, a tick of the expiry that the database does not fail leaves
  -- no room that was inactive for longer than the configuration says, and every room in memory is a
  -- room of the table; the numbers of the configuration and the clock fit.
  pub run-tick-IsFresh :
      (t : Table) (b : Bus) (calls : List (Call fl bc)) (now : ℕ) (id : String)
      → IsMap t
      → IsPunctual c
      → now < i64_half
      → let s = run fl bc c (new_state fl bc t b) calls in
        IsFresh now id (tick fl bc c (expiry none (pos now)) s)
  run-tick-IsFresh t b calls now id u p fits =
      tick-IsFresh (run fl bc c (new_state fl bc t b) calls) now id
        (run-IsSettled fl bc laws c _ calls (new_state-IsSettled fl bc laws c t b u)) p fits
