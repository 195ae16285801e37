-- ===== src/Cleanup.antt =====
-- src/cleanup.rs: the two tasks of the cleanup. A task is given by the ticks of its timer, which is of
-- the runtime; what the task does at a tick is one step on the shared state.
pub mod Histories
pub mod Recency
mod Examples
use parrhesia_backend.Common.{ℕ, ◌*◌, ◌%◌, Bool, Option, none, some, if◌then◌else◌, ltb, u64_mod}
use parrhesia_backend.Common.Int.{ℤ}
use parrhesia_backend.Config.{Config, inactivity_expiry_secs}
use parrhesia_backend.Float.{Float}
use parrhesia_backend.Broadcast.{Broadcast}
use parrhesia_backend.Server.{State, app_of, put_app}
use parrhesia_backend.Admission.{maintain}
use parrhesia_backend.Db.{DbError}
use parrhesia_backend.Rooms.Events.{RoomEvent}
use parrhesia_backend.Rooms.{expire_inactive_rooms}

-- The seconds between two ticks of the second task, as a release build computes them.
unfoldable pub period_secs : Config → ℕ
period_secs c = c.cleanup_interval_mins * 60 % u64_mod

-- `tokio::time::interval` of the second task: `none` is its panic at a period of zero, which ends the
-- task before its loop.
abbrev pub expiry_timer : Config → Option ℕ
expiry_timer c = let period = period_secs c in if ltb 0 period then some period else none

-- A tick of the first task, with the time, or of the second, with the outcome of the statement and
-- the time in seconds.
pub data Tick : Type 0 where
  maintenance : ℕ → Tick
  expiry : Option DbError → ℤ → Tick

module _ (fl : Float) (bc : Broadcast RoomEvent) where
  unfoldable pub expire : Config → Option DbError → ℤ → State fl bc → State fl bc
  expire c f now s =
      put_app fl bc (expire_inactive_rooms bc f now (inactivity_expiry_secs c) (app_of fl bc s)).1 s

  -- The second task has no ticks, if its timer panicked.
  unfoldable pub tick : Config → Tick → State fl bc → State fl bc
  tick c (maintenance now) s = record s { admission = (maintain now s.admission).1 }
  tick c (expiry f now) s = elim (expiry_timer c) [ none ↦ s | some _ ↦ expire c f now s ]
