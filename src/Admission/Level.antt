-- ===== src/Admission/Level.antt =====
-- What the buckets of src/admission.rs stand for: at each moment every budget has a level, and
-- the level alone decides a check. Times are nanoseconds and a token is `unit`, so that the
-- arithmetic of `fixed` is exact.
use parrhesia_backend.Common.{
  ℕ, ◌+◌, ◌-◌, ◌*◌, ◌/◌, ◌≤◌, ◌≡◌, refl, ◌∙◌, inl, inr, false, Option, none, some, arith, ◌==◌,
  if◌then◌else◌, Result, ok, err, Bool-cases, Option-cases, ltb, min,
}
use parrhesia_backend.Common.Dict.{
  Dict, get, retain, IsMap, get-insert, get-retain, get-retain-none,
}
use parrhesia_backend.Float.{fixed, unit}
use parrhesia_backend.Admission.{
  Admission, Bucket, Budget, connection, creation, room, AdmissionError, limited, budget_eq,
  is_active, capacity, refill_bucket, spend, bucket_or,
}

-- The tokens of a full budget, refilled within a minute.
abbrev pub budget_size : Budget → ℕ
budget_size (connection _) = 30
budget_size (creation _) = 5
budget_size (room _) = 20

-- A bucket's content at `now`, in units.
abbrev pub content : ℕ → ℕ → Bucket ℕ → ℕ
content size now b = min (b.tokens + (now - b.updated) * size) (size * unit)

-- A budget that has no bucket is full.
abbrev pub level_of : ℕ → ℕ → Option (Bucket ℕ) → ℕ
level_of size now none = size * unit
level_of size now (some b) = content size now b

unfoldable pub level : Budget → ℕ → Dict Budget (Bucket ℕ) → ℕ
level key now bs = level_of (budget_size key) now (get key bs)

capacity_lem : (key : Budget) → capacity fixed key ≡ budget_size key * unit
unfolding capacity
capacity_lem (connection _) = refl
capacity_lem (creation _) = refl
capacity_lem (room _) = refl

refill_bucket_lem :
    (key : Budget) (now : ℕ) (b : Bucket ℕ)
    → (refill_bucket fixed (capacity fixed key) now b).tokens ≡ content (budget_size key) now b
unfolding refill_bucket capacity
refill_bucket_lem (connection _) now b = omega arith
refill_bucket_lem (creation _) now b = omega arith
refill_bucket_lem (room _) now b = omega arith

-- What `spend` sees is the level.
found_level :
    (key : Budget) (now : ℕ) (bs : Dict Budget (Bucket ℕ))
    → (refill_bucket fixed
        (capacity fixed key)
        now
        (bucket_or (record { tokens = capacity fixed key; updated = now }) (get key bs))).tokens
      ≡ level key now bs
unfolding level
found_level key now bs = elim (Option-cases (get key bs)) [
  | inl e ↦ rw e (
      refill_bucket_lem key now (record { tokens = capacity fixed key; updated = now })
      ∙ omega (arith, capacity_lem key))
  | inr (b, e) ↦ rw e (refill_bucket_lem key now b)
]

-- The whole seconds until a level below one token reaches it.
abbrev pub retry_secs : Budget → ℕ → ℕ
retry_secs key l = ((unit - l) * (60 / budget_size key) + (unit - 1)) / unit

retry_lem :
    (key : Budget) (l : ℕ)
    → fixed.ceil_u64 (
        fixed.div (fixed.sub (fixed.of_nat 1) l) (fixed.div (capacity fixed key) (fixed.of_nat 60)))
      ≡ retry_secs key l
unfolding capacity
retry_lem (connection _) l = omega arith
retry_lem (creation _) l = omega arith
retry_lem (room _) l = omega arith

-- A bucket that has been idle for ten minutes is full again.
idle_full :
    (key : Budget) (now t : ℕ) (b : Bucket ℕ)
    → is_active now b ≡ false
    → now ≤ t
    → content (budget_size key) t b ≡ budget_size key * unit
idle_full (connection _) now t b h k = ground arith
idle_full (creation _) now t b h k = ground arith
idle_full (room _) now t b h k = ground arith

-- So the removal of idle buckets cannot be observed.
pub level-retain :
    (key : Budget) (now t : ℕ) (bs : Dict Budget (Bucket ℕ))
    → IsMap bs
    → now ≤ t
    → level key t (retain (is_active now) bs) ≡ level key t bs
unfolding level
level-retain key now t bs u h = elim (Option-cases (get key bs)) [
  | inl e ↦ rw (e, get-retain-none (is_active now) key bs e)
  | inr (b, e) ↦ elim (Bool-cases (is_active now b)) [
    | inl f ↦ ground (arith, get-retain (is_active now) key bs u e)
    | inr f ↦ ground (arith, get-retain (is_active now) key bs u e, idle_full key now t b f h)
  ]
]

-- One token leaves a level that has one.
abbrev pub drain : ℕ → ℕ
drain l = if ltb l unit then l else l - unit

abbrev pub verdict : Budget → ℕ → Result (Unit {0}) AdmissionError
verdict key l = if ltb l unit then err (limited (retry_secs key l)) else ok tt

pub verdict-spend :
    (key : Budget) (now : ℕ) (a : Admission ℕ)
    → (spend fixed key now a).0 ≡ verdict key (level key now a.limits.buckets)
unfolding spend
verdict-spend key now a =
    ground
      (arith, found_level key now a.limits.buckets, retry_lem key (level key now a.limits.buckets))

pub spend_bucket :
    (key j : Budget) (now : ℕ) (a : Admission ℕ)
    → get j (spend fixed key now a).1.limits.buckets ≡ (
        if key == j
        then some (record { tokens = drain (level key now a.limits.buckets); updated = now })
        else get j a.limits.buckets)
unfolding spend
spend_bucket key j now a =
    let bs = a.limits.buckets in
    let fresh : Bucket ℕ = record { tokens = capacity fixed key; updated = now } in
    let b = refill_bucket fixed (capacity fixed key) now (bucket_or fresh (get key bs)) in
    ground (
      arith,
      found_level key now bs,
      get-insert key j b bs,
      get-insert key j (record b { tokens = b.tokens - unit * 1 }) bs,
    )
