-- ===== src/Admission/Rate.antt =====
-- How often the buckets of src/admission.rs admit, over any history of checks and maintenance.
use parrhesia_backend.Common.{
  ℕ, ◌+◌, ◌-◌, ◌*◌, ◌≤◌, ◌≡◌, inl, inr, Bool, true, false, Option, none, some, List, [], ◌∷◌, arith,
  ◌==◌, if◌then◌else◌, Result, ok, err, Bool-cases, ==-eq, ◌&&◌, ltb,
}
use parrhesia_backend.Common.Dict.{get, IsMap, retain-IsMap, insert-IsMap}
use parrhesia_backend.Float.{fixed, unit}
use parrhesia_backend.Admission.{
  Admission, Bucket, Budget, budget_eq, is_active, spend, expire_idle, check_at, maintain, capacity,
  bucket_or, refill_bucket,
}
use parrhesia_backend.Admission.Cases.{check_at_cases}
use parrhesia_backend.Admission.Level.{budget_size, level, level-retain, spend_bucket}
use parrhesia_backend.Admission.Metering.{IsPast, level-aged, check_at-level, retain-IsPast}

-- A call at a time: a check of a budget, or a maintenance run.
abbrev pub Visit : Type 0
Visit = ℕ × Option Budget

abbrev pub is_ok {ℓ κ} : {A : Type ℓ} {E : Type κ} → Result A E → Bool
is_ok (ok _) = true
is_ok (err _) = false

abbrev pub visit : Visit → Admission ℕ → Admission ℕ
visit (now, some key) a = (check_at fixed key now a).1
visit (now, none) a = (maintain now a).1

-- 1 if the call is a check of `key` that is admitted.
abbrev pub admits : Budget → Visit → Admission ℕ → ℕ
admits key (now, some k) a = if k == key && is_ok (check_at fixed k now a).0 then 1 else 0
admits key (now, none) a = 0

pub admitted : Budget → Admission ℕ → List Visit → ℕ
admitted key a [] = 0
admitted key a (v ∷ vs) = admits key v a + admitted key (visit v a) vs

abbrev pub InOrder : ℕ → List Visit → Type 0
InOrder t [] = Unit
InOrder t (v ∷ vs) = (t ≤ v.0) × InOrder v.0 vs

abbrev pub last_time : ℕ → List Visit → ℕ
last_time t [] = t
last_time t (v ∷ vs) = last_time v.0 vs

spend-IsMap :
    (key : Budget) (now : ℕ) (a : Admission ℕ)
    → IsMap a.limits.buckets
    → IsMap (spend fixed key now a).1.limits.buckets
unfolding spend
spend-IsMap key now a u =
    let bs = a.limits.buckets in
    let fresh : Bucket ℕ = record { tokens = capacity fixed key; updated = now } in
    let b = refill_bucket fixed (capacity fixed key) now (bucket_or fresh (get key bs)) in
    elim (Bool-cases (ltb b.tokens unit)) [
      | inl e ↦ rw e (insert-IsMap key b bs u)
      | inr e ↦ rw e (insert-IsMap key (record b { tokens = b.tokens - unit }) bs u)
    ]

spend-IsPast :
    (key : Budget) (now : ℕ) (a : Admission ℕ)
    → IsPast now a.limits.buckets
    → IsPast now (spend fixed key now a).1.limits.buckets
spend-IsPast key now a past j b g = ground (arith, spend_bucket key j now a, past j b)

pub visit-IsMap :
    (v : Visit) (a : Admission ℕ) → IsMap a.limits.buckets → IsMap (visit v a).limits.buckets
unfolding expire_idle maintain
visit-IsMap (now, some key) a u =
    let kept = retain-IsMap (is_active now) a.limits.buckets u in
    check_at_cases fixed (λ r. IsMap r.1.limits.buckets) key now a (λ _. spend-IsMap key now a u)
      (λ _ _. kept) (λ _ _. spend-IsMap key now (expire_idle fixed now a) kept)
visit-IsMap (now, none) a u = retain-IsMap (is_active now) a.limits.buckets u

pub visit-IsPast :
    (v : Visit) (a : Admission ℕ)
    → IsMap a.limits.buckets
    → IsPast v.0 a.limits.buckets
    → IsPast v.0 (visit v a).limits.buckets
unfolding expire_idle maintain
visit-IsPast (now, some key) a u past =
    let kept = retain-IsPast now (is_active now) a.limits.buckets u past in
    check_at_cases fixed (λ r. IsPast now r.1.limits.buckets) key now a
      (λ _. spend-IsPast key now a past) (λ _ _. kept)
      (λ _ _. spend-IsPast key now (expire_idle fixed now a) kept)
visit-IsPast (now, none) a u past = retain-IsPast now (is_active now) a.limits.buckets u past

-- What a call admits, it takes from the level.
pub visit_pays :
    (key : Budget) (v : Visit) (a : Admission ℕ)
    → IsMap a.limits.buckets
    → IsPast v.0 a.limits.buckets
    → admits key v a * unit + level key v.0 (visit v a).limits.buckets
      ≤ level key v.0 a.limits.buckets
unfolding maintain
visit_pays key (now, some k) a u past =
    ground (arith, check_at-level k key now now a u past, ==-eq k key)
visit_pays key (now, none) a u past =
    omega (arith, level-retain key now now a.limits.buckets u (omega arith))

last_time-le : (t : ℕ) (vs : List Visit) → InOrder t vs → t ≤ last_time t vs
last_time-le t [] h = omega arith
last_time-le t (v ∷ vs) h = omega (arith, last_time-le v.0 vs h.1)

pub split_time : (s a b c : ℕ) → a ≤ b → b ≤ c → (c - b) * s + (b - a) * s ≡ (c - a) * s
split_time s a b c h k = grind arith

-- In the fixed-point arithmetic, from a table that has each budget once and no bucket updated after
-- the start, and over any history in the order of time, the checks of a budget that are admitted
-- cost no more than its level at the start and what is refilled until the end.
pub admitted-le :
    (key : Budget) (t : ℕ) (a : Admission ℕ) (vs : List Visit)
    → IsMap a.limits.buckets
    → IsPast t a.limits.buckets
    → InOrder t vs
    → admitted key a vs * unit
      ≤ level key t a.limits.buckets + (last_time t vs - t) * budget_size key
unfolding admitted
admitted-le key t a [] u past h = omega arith
admitted-le key t a (v ∷ vs) u past h = omega (
  arith,
  level-aged key t v.0 a.limits.buckets past h.0,
  visit_pays key v a u later,
  admitted-le key v.0 (visit v a) vs (visit-IsMap v a u) (visit-IsPast v a u later) h.1,
  split_time (budget_size key) t v.0 (last_time v.0 vs) h.0 (last_time-le v.0 vs h.1),
)
  where
    later : IsPast v.0 a.limits.buckets
    later k b g = omega (arith, past k b g)
