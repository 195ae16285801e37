-- ===== src/Float.antt =====
-- `f64` and `Duration::as_secs_f64`, which both token buckets compute with, as an interface: the
-- operations that the source calls, the facts of IEEE 754 arithmetic that their bounds rest on,
-- and a fixed-point instance in which every value that the two buckets compute is exact.
use parrhesia_backend.Common.{
  ℕ, ◌+◌, ◌-◌, ◌*◌, ◌/◌, ◌<◌, ◌≡◌, Bool, true, false, arith, ltb, min, u64_mod,
}

-- `F` is `f64`; a duration is its number of nanoseconds.
pub record Float : Type 1 where
  pub F : Type 0
  pub of_nat : ℕ → F
  pub add : F → F → F
  pub sub : F → F → F
  pub mul : F → F → F
  pub div : F → F → F
  pub least : F → F → F
  pub lt : F → F → Bool
  pub secs : ℕ → F
  pub ceil_u64 : F → ℕ

-- Each law holds of IEEE 754 numbers with rounding to nearest, also at a NaN, of which `lt` is
-- false; `least` is `f64::min`, which answers its other argument at a NaN.
module _ (fl : Float) where
  open fl use {F, of_nat, add, sub, mul, div, least, lt, secs}

  pub record FloatLaws : Type 0 where
    pub nat_nonneg : (n : ℕ) → lt (of_nat n) (of_nat 0) ≡ false
    pub nat_pos : (n : ℕ) → 0 < n → lt (of_nat 0) (of_nat n) ≡ true
    pub nat_irrefl : (n : ℕ) → lt (of_nat n) (of_nat n) ≡ false
    pub nat_one_le : (n : ℕ) → 0 < n → lt (of_nat n) (of_nat 1) ≡ false
    pub secs_nonneg : (t : ℕ) → lt (secs t) (of_nat 0) ≡ false
    pub add_nonneg :
        (a b : F)
        → lt a (of_nat 0) ≡ false
        → lt b (of_nat 0) ≡ false
        → lt (add a b) (of_nat 0) ≡ false
    pub mul_nonneg :
        (a b : F)
        → lt a (of_nat 0) ≡ false
        → lt b (of_nat 0) ≡ false
        → lt (mul a b) (of_nat 0) ≡ false
    pub div_nonneg :
        (a b : F)
        → lt a (of_nat 0) ≡ false
        → lt (of_nat 0) b ≡ true
        → lt (div a b) (of_nat 0) ≡ false
    pub least_nonneg :
        (a b : F)
        → lt a (of_nat 0) ≡ false
        → lt b (of_nat 0) ≡ false
        → lt (least a b) (of_nat 0) ≡ false
    pub least_le : (a b : F) → lt b (least a b) ≡ false
    pub sub_one_nonneg :
        (a : F) → lt a (of_nat 1) ≡ false → lt (sub a (of_nat 1)) (of_nat 0) ≡ false
    pub sub_one_le : (a b : F) → lt b a ≡ false → lt b (sub a (of_nat 1)) ≡ false

-- One token. A second is 60 * 10^9 units, so that a sixtieth of a token per second, times a
-- number of nanoseconds, is a whole number of units.
abbrev pub unit : ℕ
unit = 60000000000

abbrev pub fixed : Float
fixed = record {
  F = ℕ;
  of_nat = λ n. n * unit;
  add = λ a b. a + b;
  sub = λ a b. a - b;
  mul = λ a b. a * b / unit;
  div = λ a b. a * unit / b;
  least = λ a b. min a b;
  lt = ltb;
  secs = λ ns. ns * 60;
  ceil_u64 = λ a. min ((a + unit - 1) / unit) (u64_mod - 1);
}

not_below_zero : (a : ℕ) → ltb a 0 ≡ false
not_below_zero a = ground arith

pub fixed_laws : FloatLaws fixed
fixed_laws = record {
  nat_nonneg = λ n. not_below_zero (n * unit);
  nat_pos = λ n h. ground arith;
  nat_irrefl = λ n. ground arith;
  nat_one_le = λ n h. ground arith;
  secs_nonneg = λ t. not_below_zero (t * 60);
  add_nonneg = λ a b h k. not_below_zero (a + b);
  mul_nonneg = λ a b h k. not_below_zero (a * b / unit);
  div_nonneg = λ a b h k. not_below_zero (a * unit / b);
  least_nonneg = λ a b h k. not_below_zero (min a b);
  least_le = λ a b. ground arith;
  sub_one_nonneg = λ a h. not_below_zero (a - unit);
  sub_one_le = λ a b h. ground arith;
}
