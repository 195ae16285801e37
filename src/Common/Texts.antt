-- ===== src/Common/Texts.antt =====
-- Operations of Rust's `str` and `char` that the handlers use.
pub mod Parts
pub mod Numbers
use Prim.Native.Nat.{ℕ, zero, suc, ◌+◌, ◌-◌, ◌*◌, ◌/◌, ◌%◌}
use Prim.Native.Char.{Char, code}
use Prim.Native.String.{String, [], ◌∷◌, ◌++◌, slice, find}
use mathlib.Core.List
use mathlib.Core.List.{List}
use mathlib.Core.Option.{Option, none, some}
use mathlib.Core.Bool.{Bool, true, false, ◌&&◌, ◌||◌}
use mathlib.Core.Path.{◌≡◌, refl}
use parrhesia_backend.Common.Tests.{leb, nat_same, if◌then◌else◌}

-- The decimal digits of a number that has at most as many as the first argument says.
unfoldable pub decimal : ℕ → ℕ → String
decimal zero n = []
decimal (suc k) n =
    let rest = decimal k (n / 10) in
    let digit = slice "0123456789" (n % 10) (n % 10 + 1) in
    if leb 10 n then rest ++ digit else digit

-- `s.split(sep).next()`.
abbrev pub before : String → String → String
before sep s = slice s 0 (find s sep)

abbrev pub is_whitespace : Char → Bool
is_whitespace c =
    let n = code c in
    leb 9 n && leb n 13
    || nat_same n 32
    || nat_same n 133
    || nat_same n 160
    || nat_same n 5760
    || leb 8192 n && leb n 8202
    || nat_same n 8232
    || nat_same n 8233
    || nat_same n 8239
    || nat_same n 8287
    || nat_same n 12288

unfoldable pub trim_start : String → String
trim_start [] = []
trim_start (c ∷ s) = let rest = trim_start s in if is_whitespace c then rest else c ∷ s

abbrev pub end_with : Bool → Char → String → String
end_with true c [] = []
end_with false c [] = c ∷ []
end_with _ c (d ∷ s) = c ∷ d ∷ s

-- A character stays if it is no white space or one after it stays.
unfoldable pub trim_end : String → String
trim_end [] = []
trim_end (c ∷ s) = end_with (is_whitespace c) c (trim_end s)

unfoldable pub trim : String → String
trim s = trim_end (trim_start s)

-- `s.split(sep)`, for a separator of one character.
abbrev pub add_char : Char → List String → List String
add_char c List.[] = List.◌∷◌ (c ∷ []) List.[]
add_char c (List.◌∷◌ part parts) = List.◌∷◌ (c ∷ part) parts

unfoldable pub split : ℕ → String → List String
split sep [] = List.◌∷◌ [] List.[]
split sep (c ∷ s) =
    let parts = split sep s in if nat_same (code c) sep then List.◌∷◌ [] parts else add_char c parts

-- `s.contains(c)` and `s.ends_with(c)` for one character.
unfoldable pub contains_char : ℕ → String → Bool
contains_char n [] = false
contains_char n (c ∷ s) = nat_same (code c) n || contains_char n s

unfoldable pub ends_with : ℕ → String → Bool
ends_with n [] = false
ends_with n (c ∷ []) = nat_same (code c) n
ends_with n (c ∷ d ∷ s) = ends_with n (d ∷ s)

-- The digits of an unsigned integer of at most `most`, from what is read of it.
unfoldable pub parse_digits : ℕ → ℕ → String → Option ℕ
parse_digits most n [] = some n
parse_digits most n (c ∷ s) =
    let digit = code c - 48 in
    let rest = parse_digits most (n * 10 + digit) s in
    if leb 48 (code c) && leb (code c) 57 && leb (n * 10 + digit) most then rest else none

-- `s.parse()` to an unsigned integer: digits, at least one, after a plus sign or none.
unfoldable pub parse_unsigned : ℕ → String → Option ℕ
parse_unsigned most [] = none
parse_unsigned most (c ∷ []) = parse_digits most 0 (c ∷ [])
parse_unsigned most (c ∷ d ∷ s) =
    if nat_same (code c) 43 then parse_digits most 0 (d ∷ s) else parse_digits most 0 (c ∷ d ∷ s)

decimal_read : decimal 20 18446744073709551615 ≡ "18446744073709551615"
unfolding decimal
decimal_read = refl

trim_read : trim (before ";" " application/json ; charset=utf-8") ≡ "application/json"
unfolding trim trim_start trim_end
trim_read = refl

trim_all : trim "  " ≡ ""
unfolding trim trim_start trim_end
trim_all = refl

parsed :
    (parse_unsigned 65535 "8080" ≡ some 8080)
    × (parse_unsigned 65535 "+1" ≡ some 1)
    × (parse_unsigned 65535 "65536" ≡ none)
    × (parse_unsigned 65535 "+" ≡ none)
    × (parse_unsigned 65535 "" ≡ none)
unfolding parse_unsigned parse_digits
parsed = (refl, refl, refl, refl, refl)

parts : split 44 "a, b," ≡ List.◌∷◌ "a" (List.◌∷◌ " b" (List.◌∷◌ "" List.[]))
unfolding split
parts = refl
