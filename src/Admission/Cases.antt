-- ===== src/Admission/Cases.antt =====
-- The three ways through `check_at` of src/admission.rs, for the proofs about it.
use parrhesia_backend.Common.{
  ℕ, ◌≤◌, ◌<◌, ◌≡◌, ◌⊎◌, inl, inr, true, false, arith, length, Result, err, Bool-cases, leb, leb→le,
  add_one,
}
use parrhesia_backend.Common.Dict.{get, is_some}
use parrhesia_backend.Float.{Float}
use parrhesia_backend.Admission.{
  Admission, Budget, AdmissionError, unavailable_error, budget_eq, max_buckets, spend, expire_idle,
  check_at,
}

module _ (fl : Float) where
  open fl use {F}

  pub check_at_cases {ℓ} :
      (P : Result (Unit {0}) AdmissionError × Admission F → Type ℓ) (key : Budget) (now : ℕ)
      (a : Admission F)
      → ((is_some (get key a.limits.buckets) ≡ true) ⊎ (length a.limits.buckets < max_buckets)
          → P (spend fl key now a))
      → (let kept = expire_idle fl now a in
          is_some (get key a.limits.buckets) ≡ false
          → max_buckets ≤ length kept.limits.buckets
          → P (err unavailable_error, record kept { unavailable = add_one kept.unavailable }))
      → (let kept = expire_idle fl now a in
          is_some (get key a.limits.buckets) ≡ false
          → length kept.limits.buckets < max_buckets
          → P (spend fl key now kept))
      → P (check_at fl key now a)
  unfolding check_at
  check_at_cases P key now a direct full freed =
      let kept = expire_idle fl now a in
      elim (Bool-cases (is_some (get key a.limits.buckets))) [
        | inl e ↦ rw (e, check_at) (direct (inl e))
        | inr e ↦ elim (Bool-cases (leb max_buckets (length a.limits.buckets))) [
          | inr f ↦ rw (e, f, check_at) (direct (inr (ground arith)))
          | inl f ↦ elim (Bool-cases (leb max_buckets (length kept.limits.buckets))) [
            | inl g ↦ rw (e, f, g) (full e (leb→le _ _ g))
            | inr g ↦ rw (e, f, g) (freed e (ground arith))
          ]
        ]
      ]
