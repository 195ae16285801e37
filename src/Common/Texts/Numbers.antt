-- ===== src/Common/Texts/Numbers.antt =====
-- Numbers in decimal: what `parse` of Rust's `str` accepts, and that it reads what is written.
use Prim.Native.Nat.{ℕ, zero, suc, ◌+◌, ◌-◌, ◌*◌, ◌/◌, ◌%◌, ◌^◌, ◌≤◌, ◌<◌}
use Prim.Native.Char.{code}
use Prim.Native.String.{String, [], ◌∷◌, ◌++◌, slice}
use mathlib.Core.Option.{some}
use mathlib.Core.Path.{◌≡◌, refl, ap, ◌∙◌, subst}
use mathlib.Core.Logic.{◌≢◌, inl, inr}
use native.Mathlib.Omega.{arith}
use text.Mathlib.TextLemmas.{nil-append, cons-append, append-eq-nil_iff}
use parrhesia_backend.Common.Tests.{leb, Bool-cases, some_inj}
use parrhesia_backend.Common.Texts.{decimal, parse_digits, parse_unsigned}

parse_digits-le :
    (most a : ℕ) (s : String) (n : ℕ) → a ≤ most → parse_digits most a s ≡ some n → n ≤ most
unfolding parse_digits
parse_digits-le most a [] n h e = ground arith
parse_digits-le most a (c ∷ s) n h e =
    ground (arith, parse_digits-le most (a * 10 + (code c - 48)) s n)

-- A number that is read is at most the largest that fits.
pub parse_unsigned-le : (most : ℕ) (s : String) (n : ℕ) → parse_unsigned most s ≡ some n → n ≤ most
unfolding parse_unsigned
parse_unsigned-le most [] n e = ground arith
parse_unsigned-le most (c ∷ []) n e = parse_digits-le most 0 (c ∷ []) n (omega arith) e
parse_unsigned-le most (c ∷ d ∷ s) n e = ground (
  arith,
  parse_digits-le most 0 (d ∷ s) n (omega arith),
  parse_digits-le most 0 (c ∷ d ∷ s) n (omega arith),
)

abbrev digit : ℕ → String
digit d = slice "0123456789" d (d + 1)

digit_read :
    (most a d : ℕ) → d < 10 → a * 10 + d ≤ most → parse_digits most a (digit d) ≡ some (a * 10 + d)
unfolding parse_digits
digit_read most a zero h k = ground arith
digit_read most a (suc zero) h k = ground arith
digit_read most a (suc (suc zero)) h k = ground arith
digit_read most a (suc (suc (suc zero))) h k = ground arith
digit_read most a (suc (suc (suc (suc zero)))) h k = ground arith
digit_read most a (suc (suc (suc (suc (suc zero))))) h k = ground arith
digit_read most a (suc (suc (suc (suc (suc (suc zero)))))) h k = ground arith
digit_read most a (suc (suc (suc (suc (suc (suc (suc zero))))))) h k = ground arith
digit_read most a (suc (suc (suc (suc (suc (suc (suc (suc zero)))))))) h k = ground arith
digit_read most a (suc (suc (suc (suc (suc (suc (suc (suc (suc zero))))))))) h k = ground arith
digit_read most a (suc (suc (suc (suc (suc (suc (suc (suc (suc (suc d)))))))))) h k =
    absurd (omega arith)

parse_digits-append :
    (most a : ℕ) (s t : String) (n : ℕ)
    → parse_digits most a s ≡ some n
    → parse_digits most a (s ++ t) ≡ parse_digits most n t
unfolding parse_digits
parse_digits-append most a [] t n e = rw (nil-append, some_inj e)
parse_digits-append most a (c ∷ s) t n e =
    rw cons-append (ground (arith, parse_digits-append most (a * 10 + (code c - 48)) s t n))

one_digit : (most n : ℕ) → n < 10 → n ≤ most → parse_digits most 0 (digit (n % 10)) ≡ some n
one_digit most n h l =
    digit_read most 0 (n % 10) (omega arith) (omega arith) ∙ ap some (omega arith)

parse_digits-decimal :
    (most k n : ℕ) → n < 10 ^ suc k → n ≤ most → parse_digits most 0 (decimal (suc k) n) ≡ some n
unfolding decimal
parse_digits-decimal most zero n h l = ground (arith, one_digit most n (omega arith) l)
parse_digits-decimal most (suc k) n h l =
    let more : parse_digits most 0 (decimal (suc k) (n / 10) ++ digit (n % 10)) ≡ some n =
      parse_digits-append most 0 (decimal (suc k) (n / 10)) (digit (n % 10)) (n / 10)
        (parse_digits-decimal most k (n / 10) (omega arith) (omega arith))
      ∙ digit_read most (n / 10) (n % 10) (omega arith) (omega arith)
      ∙ ap some (omega arith) in
    elim (Bool-cases (leb 10 n)) [
      | inr e ↦ rw e (one_digit most n (ground arith) l)
      | inl e ↦ rw e more
    ]

-- What was read with digits alone is read as a number, unless the text is empty.
parse_unsigned-parse_digits :
    (most : ℕ) (s : String) (n : ℕ)
    → s ≢ ""
    → parse_digits most 0 s ≡ some n
    → parse_unsigned most s ≡ some n
unfolding parse_unsigned parse_digits
parse_unsigned-parse_digits most [] n h e = absurd (h refl)
parse_unsigned-parse_digits most (c ∷ []) n h e = e
parse_unsigned-parse_digits most (c ∷ d ∷ s) n h e = ground arith

digit_some : (d : ℕ) → d < 10 → digit d ≢ ""
unfolding parse_digits
digit_some d h e =
    let read : some 1 ≡ some (1 * 10 + d) =
      subst (λ s. parse_digits 99 1 s ≡ some (1 * 10 + d)) e (digit_read 99 1 d h (omega arith)) in
    ground arith

decimal_some : (k n : ℕ) → decimal (suc k) n ≢ ""
unfolding decimal
decimal_some k n = elim (Bool-cases (leb 10 n)) [
  | inr e ↦ rw e (digit_some (n % 10) (omega arith))
  | inl e ↦ rw e (λ h. digit_some (n % 10) (omega arith) (append-eq-nil_iff.0 h).1)
]

-- A number written in decimal is read back, if it fits.
pub parse_unsigned-decimal :
    (most k n : ℕ) → n < 10 ^ suc k → n ≤ most → parse_unsigned most (decimal (suc k) n) ≡ some n
parse_unsigned-decimal most k n h l =
    parse_unsigned-parse_digits most (decimal (suc k) n) n (decimal_some k n)
      (parse_digits-decimal most k n h l)
