-- ===== src/Passwords/Slots.antt =====
-- The semaphore of src/passwords.rs over time: a job owns its permit until it ends, whether or not
-- the task that waits for it is still there.
use parrhesia_backend.Common.{
  ℕ, ◌+◌, ◌-◌, ◌≤◌, ◌≡◌, refl, ◌↔◌, Bool, false, List, [], ◌∷◌, arith, nat_eq, ◌==◌, if◌then◌else◌,
  Result, ok, err,
}
use parrhesia_backend.Passwords.{Crypto, PasswordError, busy, compute}

pub record Slots : Type 0 where
  pub available : ℕ
  pub running : ℕ

pub data SlotEvent : Type 0 where
  -- `compute` is called; a job ends, or dies; a task that waits for a job is cancelled.
  requested ended cancelled : SlotEvent

-- `PasswordService::default()`.
unfoldable pub two_slots : Slots
two_slots = record { available = 2; running = 0 }

unfoldable pub slot_step : Slots → SlotEvent → Slots
slot_step s requested =
    if s.available == 0 then s else record { available = s.available - 1; running = s.running + 1 }
slot_step s ended =
    if s.running == 0 then s else record { available = s.available + 1; running = s.running - 1 }
slot_step s cancelled = s

unfoldable pub slot_run : Slots → List SlotEvent → Slots
slot_run s [] = s
slot_run s (e ∷ es) = slot_run (slot_step s e) es

step_total :
    (s : Slots) (e : SlotEvent)
    → (slot_step s e).available + (slot_step s e).running ≡ s.available + s.running
unfolding slot_step
step_total s requested = ground arith
step_total s ended = ground arith
step_total s cancelled = refl

run_total :
    (s : Slots) (es : List SlotEvent)
    → (slot_run s es).available + (slot_run s es).running ≡ s.available + s.running
unfolding slot_run
run_total s [] = refl
run_total s (e ∷ es) = omega (arith, run_total (slot_step s e) es, step_total s e)

-- After any history at most two jobs run, a request whose job gives a verdict and does not die is
-- turned away as busy exactly while two do, and gets the verdict exactly while at most one does.
pub slot_run_lem :
    (c : Crypto) (es : List SlotEvent) (job : Result Bool PasswordError) (b : Bool)
    → job ≡ ok b
    → let s = slot_run two_slots es in
      (s.running ≤ 2)
      × ((compute c s.available false job ≡ err busy) ↔ (s.running ≡ 2))
      × ((compute c s.available false job ≡ ok b) ↔ (s.running ≤ 1))
unfolding compute two_slots
slot_run_lem c es job b h =
    let total = run_total two_slots es in
    (omega (arith, total), ground (arith, total), ground (arith, total))
