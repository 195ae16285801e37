-- ===== src/Admission/Metering.antt =====
-- A check of src/admission.rs meters the level of its budget, whatever the table holds.
use parrhesia_backend.Common.{
  Option, none, some, ltb, ℕ, ◌+◌, ◌-◌, ◌*◌, ◌≤◌, ◌≡◌, refl, ap, ◌∙◌, ◌⊎◌, inl, inr, Bool, none,
  some, arith, ◌==◌, if◌then◌else◌, length, err, Bool-cases, Option-cases, min, ==-eq,
}
use parrhesia_backend.Common.Dict.{
  get-retain, get-retain-none, Dict, get, retain, IsMap, get-retain-some,
}
use parrhesia_backend.Float.{fixed, unit}
use parrhesia_backend.Admission.{
  Admission, Bucket, Budget, connection, creation, room, unavailable_error, budget_eq, max_buckets,
  is_active, idle_ttl, spend, expire_idle, check_at, maintain,
}
use parrhesia_backend.Admission.Cases.{check_at_cases}
use parrhesia_backend.Admission.Level.{
  budget_size, content, level, level-retain, drain, verdict, verdict-spend, spend_bucket,
}

-- No bucket was updated after `now`: the callers' clock readings came in order.
abbrev pub IsPast : ℕ → Dict Budget (Bucket ℕ) → Type 0
IsPast now bs = (key : Budget) (b : Bucket ℕ) → get key bs ≡ some b → b.updated ≤ now

-- A level after `d` nanoseconds with no check.
abbrev pub aged : Budget → ℕ → ℕ → ℕ
aged key d l = min (l + d * budget_size key) (budget_size key * unit)

content-aged :
    (key : Budget) (now t : ℕ) (b : Bucket ℕ)
    → b.updated ≤ now
    → now ≤ t
    → content (budget_size key) t b ≡ aged key (t - now) (content (budget_size key) now b)
content-aged (connection _) now t b h k = omega arith
content-aged (creation _) now t b h k = omega arith
content-aged (room _) now t b h k = omega arith

aged_full : (key : Budget) (d : ℕ) → budget_size key * unit ≡ aged key d (budget_size key * unit)
aged_full key d = omega arith

pub level-aged :
    (key : Budget) (now t : ℕ) (bs : Dict Budget (Bucket ℕ))
    → IsPast now bs
    → now ≤ t
    → level key t bs ≡ aged key (t - now) (level key now bs)
unfolding level
level-aged key now t bs past h = elim (Option-cases (get key bs)) [
  | inl e ↦ rw e (aged_full key (t - now))
  | inr (b, e) ↦ rw e (content-aged key now t b (past key b e) h)
]

-- The level of `j` once a check of `key` was passed to its bucket.
abbrev pub metered : Budget → Budget → ℕ → Dict Budget (Bucket ℕ) → ℕ
metered key j now bs = if key == j then drain (level j now bs) else level j now bs

level-spend :
    (key j : Budget) (now t : ℕ) (a : Admission ℕ)
    → IsPast now a.limits.buckets
    → now ≤ t
    → level j t (spend fixed key now a).1.limits.buckets
      ≡ aged j (t - now) (metered key j now a.limits.buckets)
unfolding level
level-spend key j now t a past h = elim (Bool-cases (key == j)) [
  | inl e ↦ ground (arith, spend_bucket key j now a, ==-eq key j e)
  | inr e ↦ ground (arith, spend_bucket key j now a, level-aged j now t a.limits.buckets past h)
]

pub retain-IsPast :
    (now : ℕ) (p : Bucket ℕ → Bool) (bs : Dict Budget (Bucket ℕ))
    → IsMap bs
    → IsPast now bs
    → IsPast now (retain p bs)
retain-IsPast now p bs u past key b g = past key b (get-retain-some p key bs b u g).0

abbrev pub kept_at : ℕ → Admission ℕ → Dict Budget (Bucket ℕ)
kept_at now a = retain (is_active now) a.limits.buckets

pub check_at-level :
    (key j : Budget) (now t : ℕ) (a : Admission ℕ)
    → IsMap a.limits.buckets
    → IsPast now a.limits.buckets
    → now ≤ t
    → let (reply, after) = check_at fixed key now a in
      ((reply ≡ verdict key (level key now a.limits.buckets))
        × (level j t after.limits.buckets ≡ aged j (t - now) (metered key j now a.limits.buckets)))
      ⊎ ((reply ≡ err unavailable_error)
          × (get key a.limits.buckets ≡ none)
          × (max_buckets ≤ length (kept_at now a))
          × (level j t after.limits.buckets ≡ level j t a.limits.buckets))
unfolding expire_idle
check_at-level key j now t a u past h =
    check_at_cases fixed
      (λ r.
        ((r.0 ≡ verdict key (level key now a.limits.buckets))
          × (level j t r.1.limits.buckets ≡ aged j (t - now) (metered key j now a.limits.buckets)))
        ⊎ ((r.0 ≡ err unavailable_error)
            × (get key a.limits.buckets ≡ none)
            × (max_buckets ≤ length (kept_at now a))
            × (level j t r.1.limits.buckets ≡ level j t a.limits.buckets)))
      key now a (λ _. inl (verdict-spend key now a, level-spend key j now t a past h))
      (λ new full. inr (refl, ground arith, full, level-retain j now t a.limits.buckets u h))
      (λ new free. inl (
        verdict-spend key now (expire_idle fixed now a)
            ∙ ap (verdict key) (level-retain key now now a.limits.buckets u (omega arith)),
        level-spend key j now t (expire_idle fixed now a)
              (retain-IsPast now (is_active now) a.limits.buckets u past) h
            ∙ ap (λ l. aged j (t - now) (if key == j then drain l else l))
                (level-retain j now now a.limits.buckets u (omega arith)),
      ))

abbrev pub active_only : ℕ → Option (Bucket ℕ) → Option (Bucket ℕ)
active_only now none = none
active_only now (some b) = if ltb (now - b.updated) idle_ttl then some b else none

-- A maintenance run removes exactly the buckets that have been idle for ten minutes, sets the
-- counters to 0 and leaves the slots alone; no level changes, at its time or later.
pub maintain_lem :
    (key : Budget) (now t : ℕ) (a : Admission ℕ)
    → IsMap a.limits.buckets
    → now ≤ t
    → let after = (maintain now a).1 in
      (level key t after.limits.buckets ≡ level key t a.limits.buckets)
      × (get key after.limits.buckets ≡ active_only now (get key a.limits.buckets))
      × (after.limits.pending ≡ a.limits.pending)
      × (after.limits.pending_total ≡ a.limits.pending_total)
      × (after.rejected + after.throttled + after.verification_failed + after.unavailable ≡ 0)
unfolding maintain
maintain_lem key now t a u h = (
  level-retain key now t a.limits.buckets u h,
  elim (Option-cases (get key a.limits.buckets)) [
    | inl e ↦ rw (e, get-retain-none (is_active now) key a.limits.buckets e)
    | inr (b, e) ↦ ground (arith, get-retain (is_active now) key a.limits.buckets u e)
  ],
  refl,
  refl,
  refl,
)
