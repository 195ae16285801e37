-- ===== src/Common/Results.antt =====
-- Rust's `Result`, and the wrap-around of the machine integers.
use Prim.Native.Nat.{ℕ, ◌+◌, ◌-◌, ◌%◌}

pub data Result {ℓ κ} (A : Type ℓ) (E : Type κ) : Type (ℓ ⊔ κ) where
  ok : A → Result A E
  err : E → Result A E

-- 2 ^ 64, the modulus of `u64` and of `usize` on the 64-bit targets of the service.
abbrev pub u64_mod : ℕ
u64_mod = 18446744073709551616

-- `fetch_add(1)` of an `AtomicU64`, and `+= 1` and `-= 1` on a `usize`, with the wrap-around.
abbrev pub add_one : ℕ → ℕ
add_one n = (n + 1) % u64_mod

abbrev pub sub_one : ℕ → ℕ
sub_one n = (n + u64_mod - 1) % u64_mod
