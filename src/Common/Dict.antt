-- ===== src/Common/Dict.antt =====
-- `HashMap` as an association list: each operation that the source calls, and its laws. The order
-- in which the source iterates over a map is unspecified; here it is the order of the list.
use mathlib.Core.Path.{◌≡◌, refl}
use mathlib.Core.Bool.{Bool, true, false}
use mathlib.Core.Option.{Option, none, some}
use mathlib.Core.List.{List, [], ◌∷◌}
use native.Mathlib.Omega.{arith}
use Prim.Native.Nat.{suc, ◌≤◌}
use parrhesia_backend.Common.Tests.{if◌then◌else◌, Bool-cases, Option-cases, some_inj}
use mathlib.Core.Logic.{◌⊎◌, inl, inr}
use parrhesia_backend.Common.Equality.{Eq, ◌==◌}
use parrhesia_backend.Common.Lists.{length}

abbrev pub Dict {ℓ κ} : Type ℓ → Type κ → Type (ℓ ⊔ κ)
Dict K V = List (K × V)

abbrev pub is_some {ℓ} : {A : Type ℓ} → Option A → Bool
is_some none = false
is_some (some _) = true

module _ {ℓ κ} {K : Type ℓ} {V : Type κ} ⦃e : Eq K⦄ where
  unfoldable pub get : K → Dict K V → Option V
  get k [] = none
  get k ((j, v) ∷ m) = if j == k then some v else get k m

  -- The old value is replaced.
  unfoldable pub insert : K → V → Dict K V → Dict K V
  insert k v [] = (k, v) ∷ []
  insert k v ((j, w) ∷ m) = if j == k then (k, v) ∷ m else (j, w) ∷ insert k v m

  unfoldable pub remove : K → Dict K V → Dict K V
  remove k [] = []
  remove k ((j, v) ∷ m) = let rest = remove k m in if j == k then rest else (j, v) ∷ rest

  unfoldable pub retain : (V → Bool) → Dict K V → Dict K V
  retain p [] = []
  retain p ((j, v) ∷ m) = let rest = retain p m in if p v then (j, v) ∷ rest else rest

  -- No key stands twice.
  abbrev pub IsMap : Dict K V → Type κ
  IsMap [] = Unit
  IsMap ((j, v) ∷ m) = (get j m ≡ none) × IsMap m

  pub get-insert :
      (k j : K) (v : V) (m : Dict K V) → get j (insert k v m) ≡ (if k == j then some v else get j m)
  unfolding get insert
  get-insert k j v [] = refl
  get-insert k j v ((i, w) ∷ m) =
      ground (arith, e.same_iff k j, e.same_iff i k, e.same_iff i j, get-insert k j v m)

  -- What a key finds after an insertion: the new value, or what it found before.
  pub insert_cases :
      (i j : K) (v w : V) (m : Dict K V)
      → get j (insert i v m) ≡ some w
      → ((i ≡ j) × (v ≡ w)) ⊎ (get j m ≡ some w)
  insert_cases i j v w m g = elim (Bool-cases (i == j)) [
    | inl h ↦ inl ((e.same_iff i j).0 h, some_inj (ground (arith, get-insert i j v m)))
    | inr h ↦ inr (ground (arith, get-insert i j v m))
  ]

  pub get-remove :
      (k j : K) (m : Dict K V) → get j (remove k m) ≡ (if k == j then none else get j m)
  unfolding get remove
  get-remove k j [] = ground arith
  get-remove k j ((i, w) ∷ m) =
      ground (arith, e.same_iff k j, e.same_iff i k, e.same_iff i j, get-remove k j m)

  pub length-insert :
      (k : K) (v : V) (m : Dict K V)
      → length (insert k v m) ≡ (if is_some (get k m) then length m else suc (length m))
  unfolding get insert
  length-insert k v [] = refl
  length-insert k v ((i, w) ∷ m) = ground (arith, length-insert k v m)

  pub length-retain-le : (p : V → Bool) (m : Dict K V) → length (retain p m) ≤ length m
  unfolding retain
  length-retain-le p [] = omega arith
  length-retain-le p ((j, v) ∷ m) = ground (arith, length-retain-le p m)

  pub get-retain-none :
      (p : V → Bool) (k : K) (m : Dict K V) → get k m ≡ none → get k (retain p m) ≡ none
  unfolding get retain
  get-retain-none p k [] h = refl
  get-retain-none p k ((j, v) ∷ m) h = ground (arith, get-retain-none p k m)

  pub insert-IsMap : (k : K) (v : V) (m : Dict K V) → IsMap m → IsMap (insert k v m)
  unfolding insert get
  insert-IsMap k v [] h = (refl, tt)
  insert-IsMap k v ((j, w) ∷ m) h =
      ground (arith, e.same_iff j k, e.same_iff k j, insert-IsMap k v m h.1, get-insert k j v m)

  pub remove-IsMap : (k : K) (m : Dict K V) → IsMap m → IsMap (remove k m)
  unfolding remove get
  remove-IsMap k [] h = tt
  remove-IsMap k ((j, w) ∷ m) h = ground (arith, remove-IsMap k m h.1, get-remove k j m)

  pub retain-IsMap : (p : V → Bool) (m : Dict K V) → IsMap m → IsMap (retain p m)
  unfolding retain get
  retain-IsMap p [] h = tt
  retain-IsMap p ((j, w) ∷ m) h = ground (arith, retain-IsMap p m h.1, get-retain-none p j m)

  -- What survives `retain`.
  pub get-retain :
      (p : V → Bool) (k : K) (m : Dict K V) {v : V}
      → IsMap m
      → get k m ≡ some v
      → get k (retain p m) ≡ (if p v then some v else none)
  unfolding get retain
  get-retain p k [] h g = ground arith
  get-retain p k ((j, w) ∷ m) {v} h g =
      ground (arith, e.same_iff j k, get-retain p k m {v = v} h.1, get-retain-none p j m)

  pub get-retain-some :
      (p : V → Bool) (k : K) (m : Dict K V) (v : V)
      → IsMap m
      → get k (retain p m) ≡ some v
      → (get k m ≡ some v) × (p v ≡ true)
  get-retain-some p k m v h g = elim (Option-cases (get k m)) [
    | inl e ↦ ground (arith, get-retain-none p k m e)
    | inr (w, e) ↦ ground (arith, get-retain p k m h e)
  ]
