-- ===== src/Common/Int.antt =====
-- `i64`: the integers, their order, and the casts and the subtraction that wrap around.
use parrhesia_backend.Common.Results.{u64_mod}
use parrhesia_backend.Common.Tests.{ltb, leb, if◌then◌else◌}
use Prim.Native.Nat.{ℕ, suc, ◌+◌, ◌-◌, ◌%◌}
use mathlib.Core.Bool.{Bool}

-- `negsuc n` is -(n + 1).
pub data ℤ : Type 0 where
  pos : ℕ → ℤ
  negsuc : ℕ → ℤ

abbrev pub positive : ℤ → ℕ
positive (pos n) = n
positive (negsuc n) = 0

abbrev pub negative : ℤ → ℕ
negative (pos n) = 0
negative (negsuc n) = suc n

abbrev pub less : ℤ → ℤ → Bool
less a b = ltb (positive a + negative b) (positive b + negative a)

abbrev pub difference : ℤ → ℤ → ℤ
difference a b =
    let up = positive a + negative b in
    let down = negative a + positive b in
    if leb down up then pos (up - down) else negsuc (down - up - 1)

-- 2 ^ 63.
abbrev pub i64_half : ℕ
i64_half = 9223372036854775808

-- `n as i64` of a `u64`.
abbrev pub as_i64 : ℕ → ℤ
as_i64 n = if ltb n i64_half then pos n else negsuc (u64_mod - 1 - n)

abbrev pub wrap_i64 : ℤ → ℤ
wrap_i64 (pos n) = as_i64 (n % u64_mod)
wrap_i64 (negsuc n) = as_i64 (u64_mod - 1 - n % u64_mod)

-- `a - b` on `i64` in a release build.
abbrev pub i64_sub : ℤ → ℤ → ℤ
i64_sub a b = wrap_i64 (difference a b)
