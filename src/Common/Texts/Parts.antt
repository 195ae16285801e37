-- ===== src/Common/Texts/Parts.antt =====
-- Lists written with separators, and what `split` of Rust's `str` reads from them.
use Prim.Native.Nat.{ℕ}
use Prim.Native.Char.{Char, code}
use Prim.Native.String.{String, [], ◌∷◌, ◌++◌}
use mathlib.Core.List.{List, map}
use mathlib.Core.Bool.{false}
use mathlib.Core.Path.{◌≡◌, refl, ap, ◌∙◌}
use native.Mathlib.Omega.{arith}
use text.Mathlib.TextLemmas.{nil-append, cons-append}
use parrhesia_backend.Common.Tests.{nat_same_iff}
use parrhesia_backend.Common.Lists.{All}
use parrhesia_backend.Common.Texts.{split, contains_char, trim}

-- The parts, with a separator between any two.
abbrev pub join : Char → List String → String
join sep List.[] = []
join sep (List.◌∷◌ s List.[]) = s
join sep (List.◌∷◌ s (List.◌∷◌ t ts)) = s ++ (sep ∷ join sep (List.◌∷◌ t ts))

-- A part that can be listed: `split` does not cut it, and `trim` leaves it.
abbrev pub IsPart : ℕ → String → Type 0
IsPart sep s = (contains_char sep s ≡ false) × (trim s ≡ s)

split-none : (sep : ℕ) (s : String) → contains_char sep s ≡ false → split sep s ≡ List.◌∷◌ s List.[]
unfolding split contains_char
split-none sep [] h = refl
split-none sep (c ∷ s) h = ground (arith, split-none sep s)

split-join_first :
    (sep : Char) (s t : String)
    → contains_char (code sep) s ≡ false
    → split (code sep) (s ++ (sep ∷ t)) ≡ List.◌∷◌ s (split (code sep) t)
unfolding split contains_char
split-join_first sep [] t h = rw nil-append (ground (arith, nat_same_iff (code sep) (code sep)))
split-join_first sep (c ∷ s) t h = rw cons-append (ground (arith, split-join_first sep s t))

-- What was joined is read back, but for the empty list, which reads as one empty part.
pub split-join :
    (sep : Char) (s : String) (ss : List String)
    → All (IsPart (code sep)) (List.◌∷◌ s ss)
    → split (code sep) (join sep (List.◌∷◌ s ss)) ≡ List.◌∷◌ s ss
split-join sep s List.[] (h, _) = split-none (code sep) s h.0
split-join sep s (List.◌∷◌ t ts) (h, hs) =
    split-join_first sep s (join sep (List.◌∷◌ t ts)) h.0 ∙ ap (List.◌∷◌ s) (split-join sep t ts hs)

pub map-trim : (sep : ℕ) (ss : List String) → All (IsPart sep) ss → map trim ss ≡ ss
map-trim sep List.[] h = refl
map-trim sep (List.◌∷◌ s ss) (h, hs) = rw (h.1, map-trim sep ss hs)
