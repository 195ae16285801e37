-- ===== src/Admission.antt =====
-- src/admission.rs: the token buckets, the slots for pending authentications, and maintenance.
-- `Instant` is a number of nanoseconds, an argument of each call; the mutex makes each method one
-- step, so a method is a function from the state to its result and the new state. The arithmetic
-- on `f64` is the interface `Float`.
pub mod Pending
pub mod Guards
pub mod Bounds
pub mod Cases
pub mod Level
pub mod Metering
pub mod Rate
pub mod Retry
mod Examples
use parrhesia_backend.Common.{
  ℕ, ◌+◌, ◌-◌, ◌%◌, ◌≡◌, refl, ◌↔◌, Bool, true, false, ◌&&◌, ◌||◌, not, Option, none, some, List,
  [], ◌∷◌, arith, String, Eq, ◌==◌, string_eq, leb, ltb, nat_same, if◌then◌else◌, length, Result,
  ok, err, add_one, sub_one, u64_mod,
}
use parrhesia_backend.Common.Dict.{Dict, get, insert, remove, retain, is_some}
use parrhesia_backend.Net.{IpAddr, ip_eq}
use parrhesia_backend.Float.{Float}

abbrev pub max_buckets : ℕ
max_buckets = 10000

-- 600 s.
abbrev pub idle_ttl : ℕ
idle_ttl = 600000000000

pub data Budget : Type 0 where
  connection : IpAddr → Budget
  creation : IpAddr → Budget
  room : String → Budget

unfoldable pub budget_same : Budget → Budget → Bool
budget_same (connection a) (connection b) = a == b
budget_same (creation a) (creation b) = a == b
budget_same (room a) (room b) = a == b
budget_same _ _ = false

pub budget_same_iff : (a b : Budget) → (budget_same a b ≡ true) ↔ (a ≡ b)
unfolding budget_same
budget_same_iff (connection a) (connection b) = ground (arith, ip_eq.same_iff a b)
budget_same_iff (creation a) (creation b) = ground (arith, ip_eq.same_iff a b)
budget_same_iff (room a) (room b) = ground (arith, string_eq.same_iff a b)
budget_same_iff (connection a) (creation b) = ground arith
budget_same_iff (connection a) (room b) = ground arith
budget_same_iff (creation a) (connection b) = ground arith
budget_same_iff (creation a) (room b) = ground arith
budget_same_iff (room a) (connection b) = ground arith
budget_same_iff (room a) (creation b) = ground arith

instance abbrev pub budget_eq : Eq Budget
budget_eq = record { same = budget_same; same_iff = budget_same_iff }

pub record Bucket (F : Type 0) : Type 0 where
  pub tokens : F
  pub updated : ℕ

pub data AdmissionError : Type 0 where
  limited : ℕ → AdmissionError
  unavailable_error : AdmissionError

pub record Limits (F : Type 0) : Type 0 where
  pub buckets : Dict Budget (Bucket F)
  pub pending : Dict IpAddr ℕ
  pub pending_total : ℕ

pub record Admission (F : Type 0) : Type 0 where
  pub limits : Limits F
  pub rejected : ℕ
  pub throttled : ℕ
  pub verification_failed : ℕ
  pub unavailable : ℕ

-- `Admission::default()`.
unfoldable pub default : (F : Type 0) → Admission F
default F = record {
  limits = record { buckets = []; pending = []; pending_total = 0 };
  rejected = 0;
  throttled = 0;
  verification_failed = 0;
  unavailable = 0;
}

abbrev set_buckets : {F : Type 0} → Dict Budget (Bucket F) → Admission F → Admission F
set_buckets bs a = record a { limits = record (a.limits) { buckets = bs } }

abbrev bucket_or : {F : Type 0} → Bucket F → Option (Bucket F) → Bucket F
bucket_or b none = b
bucket_or b (some c) = c

-- `now.saturating_duration_since(bucket.updated) < IDLE_TTL`.
abbrev pub is_active : {F : Type 0} → ℕ → Bucket F → Bool
is_active now b = ltb (now - b.updated) idle_ttl

module _ (fl : Float) where
  open fl use {F, of_nat, add, sub, mul, div, least, lt, secs, ceil_u64}

  unfoldable pub capacity : Budget → F
  capacity (connection _) = of_nat 30
  capacity (creation _) = of_nat 5
  capacity (room _) = of_nat 20

  -- The bucket after its refill at `now`.
  unfoldable pub refill_bucket : F → ℕ → Bucket F → Bucket F
  refill_bucket cap now b = record {
    tokens = least (add b.tokens (mul (secs (now - b.updated)) (div cap (of_nat 60)))) cap;
    updated = now;
  }

  -- The part of `check_at` below the test for a full table.
  unfoldable pub spend : Budget → ℕ → Admission F → Result (Unit {0}) AdmissionError × Admission F
  unfolding capacity refill_bucket
  spend key now a =
      let cap = capacity key in
      let fresh : Bucket F = record { tokens = cap; updated = now } in
      let b = refill_bucket cap now (bucket_or fresh (get key a.limits.buckets)) in
      if lt b.tokens (of_nat 1)
      then (
        err (limited (ceil_u64 (div (sub (of_nat 1) b.tokens) (div cap (of_nat 60))))),
        record (set_buckets (insert key b a.limits.buckets) a) { throttled = add_one a.throttled },
      )
      else (
        ok tt,
        set_buckets (insert key (record b { tokens = sub b.tokens (of_nat 1) }) a.limits.buckets) a,
      )

  unfoldable pub expire_idle : ℕ → Admission F → Admission F
  expire_idle now a = set_buckets (retain (is_active now) a.limits.buckets) a

  unfoldable pub check_at :
      Budget → ℕ → Admission F → Result (Unit {0}) AdmissionError × Admission F
  unfolding expire_idle
  check_at key now a =
      if not (is_some (get key a.limits.buckets)) && leb max_buckets (length a.limits.buckets)
      then (let kept = expire_idle now a in
          if leb max_buckets (length kept.limits.buckets)
          then (err unavailable_error, record kept { unavailable = add_one kept.unavailable })
          else spend key now kept)
      else spend key now a

abbrev pub count_or_zero : Option ℕ → ℕ
count_or_zero none = 0
count_or_zero (some n) = n

module _ {F : Type 0} where
  -- `ok ip` stands for the guard `PendingAuth` of the address.
  unfoldable pub pending_auth : IpAddr → Admission F → Result IpAddr AdmissionError × Admission F
  pending_auth ip a =
      let limits = a.limits in
      let held = count_or_zero (get ip limits.pending) in
      if leb 100 limits.pending_total || leb 10 held
      then (err unavailable_error, record a { unavailable = add_one a.unavailable })
      else (
        ok ip,
        record a {
          limits = record limits {
            pending = insert ip (add_one held) limits.pending;
            pending_total = add_one limits.pending_total;
          };
        },
      )

  -- `none` is the panic of `expect`.
  unfoldable pub drop_guard : IpAddr → Admission F → Option (Admission F)
  drop_guard ip a = elim (get ip a.limits.pending) [
    | none ↦ none
    | some n ↦
        (let count = sub_one n in
          some (record a {
            limits = record (a.limits) {
              pending =
                  if nat_same count 0
                  then remove ip a.limits.pending
                  else insert ip count a.limits.pending;
              pending_total = sub_one a.limits.pending_total;
            };
          }))
  ]

-- The counters that one maintenance run reports.
pub record Counters : Type 0 where
  pub rejected : ℕ
  pub throttled : ℕ
  pub verification_failed : ℕ
  pub unavailable : ℕ

-- The four counters are swapped with 0; they are logged unless their sum is 0.
unfoldable pub maintain : {F : Type 0} → ℕ → Admission F → Option Counters × Admission F
maintain now a =
    let sum = (a.rejected + a.throttled + a.verification_failed + a.unavailable) % u64_mod in
    (
      if ltb 0 sum
          then some (record {
            rejected = a.rejected;
            throttled = a.throttled;
            verification_failed = a.verification_failed;
            unavailable = a.unavailable;
          })
          else none,
      record {
        limits = record (a.limits) { buckets = retain (is_active now) a.limits.buckets };
        rejected = 0;
        throttled = 0;
        verification_failed = 0;
        unavailable = 0;
      },
    )
