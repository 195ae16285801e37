-- ===== src/Admission/Retry.antt =====
-- The number of seconds that a limited check of src/admission.rs reports.
use parrhesia_backend.Common.{
  ℕ, ◌+◌, ◌-◌, ◌*◌, ◌≤◌, ◌<◌, ◌≡◌, refl, sym, ap, ◌∙◌, inl, inr, true, arith, if◌then◌else◌, ok,
  err, leb, ==-refl,
}
use parrhesia_backend.Common.Dict.{Dict, get, is_some, IsMap}
use parrhesia_backend.Float.{fixed, unit}
use parrhesia_backend.Admission.{
  Admission, Bucket, Budget, connection, creation, room, limited, budget_eq, spend, expire_idle,
  check_at,
}
use parrhesia_backend.Admission.Cases.{check_at_cases}
use parrhesia_backend.Admission.Level.{
  level, verdict, verdict-spend, spend_bucket, retry_secs, budget_size,
}
use parrhesia_backend.Admission.Metering.{IsPast, aged, metered, check_at-level}

abbrev pub second : ℕ
second = 1000000000

verdict_later :
    (key : Budget) (l s : ℕ)
    → l < unit
    → verdict key (aged key (s * second) l)
      ≡ (if leb (retry_secs key l) s then ok tt else err (limited (retry_secs key l - s)))
verdict_later (connection _) l s h = ground arith
verdict_later (creation _) l s h = ground arith
verdict_later (room _) l s h = ground arith

check_at_known :
    (key : Budget) (now : ℕ) (a : Admission ℕ)
    → is_some (get key a.limits.buckets) ≡ true
    → check_at fixed key now a ≡ spend fixed key now a
check_at_known key now a e =
    check_at_cases fixed (λ r. r ≡ spend fixed key now a) key now a (λ _. refl) (λ f _. cc)
      (λ f _. cc)

spend_known :
    (key : Budget) (now : ℕ) (a : Admission ℕ)
    → is_some (get key (spend fixed key now a).1.limits.buckets) ≡ true
spend_known key now a = rw (spend_bucket key key now a, ==-refl key)

-- A check that is limited leaves a bucket of its own.
limited_known :
    (key : Budget) (now n : ℕ) (a : Admission ℕ)
    → (check_at fixed key now a).0 ≡ err (limited n)
    → is_some (get key (check_at fixed key now a).1.limits.buckets) ≡ true
limited_known key now n a =
    check_at_cases fixed (λ r. r.0 ≡ err (limited n) → is_some (get key r.1.limits.buckets) ≡ true)
      key now a (λ _ _. spend_known key now a) (λ _ _ h. cc)
      (λ _ _ _. spend_known key now (expire_idle fixed now a))

limited_level :
    (key : Budget) (l n : ℕ)
    → verdict key l ≡ err (limited n)
    → (l < unit) × (n ≡ retry_secs key l) × (0 < n) × (n * budget_size key ≤ 60)
limited_level (connection _) l n h = ground arith
limited_level (creation _) l n h = ground arith
limited_level (room _) l n h = ground arith

-- In the fixed-point arithmetic, from a table that has each budget once and no bucket updated later
-- than now, the seconds that a limited check reports are exact: at least one and at most those of
-- one token; a check of the same budget that many whole seconds later, with none in between, is
-- admitted, and one before it is limited to the rest.
pub limited-exact :
    (key : Budget) (now n s : ℕ) (a : Admission ℕ)
    → IsMap a.limits.buckets
    → IsPast now a.limits.buckets
    → (check_at fixed key now a).0 ≡ err (limited n)
    → (0 < n)
      × (n * budget_size key ≤ 60)
      × ((check_at fixed key (now + s * second) (check_at fixed key now a).1).0
          ≡ (if leb n s then ok tt else err (limited (n - s))))
limited-exact key now n s a u past h =
    elim (check_at-level key key now (now + s * second) a u past (omega arith)) [
      | inl (e, f) ↦
          let (low, same, pos, most) = limited_level key (level key now bs) n (sym e ∙ h) in
          (
            pos,
            most,
            ap (λ r. r.0) (check_at_known key _ _ (limited_known key now n a h))
                ∙ verdict-spend key _ _
                ∙ ap (verdict key) (f ∙ undrained low)
                ∙ rw same (verdict_later key (level key now bs) s low),
          )
      | inr (e, _, _, _) ↦ cc
    ]
  where
    bs : Dict Budget (Bucket ℕ)
    bs = a.limits.buckets

    undrained :
        level key now bs < unit
        → aged key (now + s * second - now) (metered key key now bs)
          ≡ aged key (s * second) (level key now bs)
    undrained low = ground (arith, ==-refl key)
