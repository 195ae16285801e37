-- ===== src/Common/Equality.antt =====
-- Rust's `Eq` as an interface: a Boolean test that decides the equality of a type. Maps have it of
-- their keys; the primitive instances stand at the end, those of the program's types beside them.
use mathlib.Core.Logic.{◌↔◌, ◌≢◌}
use mathlib.Core.Bool.{Bool, false, true}
use mathlib.Core.Path.{◌≡◌, refl}
use native.Mathlib.Omega.{arith}
use Prim.Native.String.{String}
use text.Mathlib.TextEquality.{eq_iff}
use text.Mathlib.Text.{◌==◌ as text_same}
use Prim.Native.Nat.{ℕ}
use parrhesia_backend.Common.Tests.{nat_same, nat_same_iff}

pub record Eq {ℓ} (A : Type ℓ) : Type ℓ where
  pub same : A → A → Bool
  pub same_iff : (x y : A) → (same x y ≡ true) ↔ (x ≡ y)

module _ {ℓ} {A : Type ℓ} ⦃e : Eq A⦄ where
  infix 50 ◌==◌
  abbrev pub ◌==◌ : A → A → Bool
  x == y = e.same x y

  pub ==-refl : (x : A) → (x == x) ≡ true
  ==-refl x = (e.same_iff x x).1 refl

  pub ==-eq : (x y : A) → (x == y) ≡ true → x ≡ y
  ==-eq x y h = (e.same_iff x y).0 h

  pub ==-ne : (x y : A) → x ≢ y → (x == y) ≡ false
  ==-ne x y h = ground (arith, e.same_iff x y)

-- Identifiers, keys and payloads are texts.
instance abbrev pub string_eq : Eq String
string_eq = record { same_iff = eq_iff; same = text_same }

instance abbrev pub nat_eq : Eq ℕ
nat_eq = record { same_iff = nat_same_iff; same = nat_same }
