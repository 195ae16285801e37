-- ===== src/Http.antt =====
-- The parts of the `http` crate that the handlers use: statuses, and header maps in which a name
-- may stand more than once. A value is text, or bytes that `to_str` refuses.
use parrhesia_backend.Common.{
  ◌≡◌, Option, none, some, List, [], ◌∷◌, arith, String, string_eq, ◌==◌, if◌then◌else◌,
}

pub data HeaderValue : Type 0 where
  visible : String → HeaderValue
  opaque : HeaderValue

unfoldable pub to_str : HeaderValue → Option String
to_str (visible s) = some s
to_str opaque = none

abbrev pub HeaderMap : Type 0
HeaderMap = List (String × HeaderValue)

unfoldable pub get_all : String → HeaderMap → List HeaderValue
get_all name [] = []
get_all name ((n, v) ∷ hs) = let rest = get_all name hs in if n == name then v ∷ rest else rest

abbrev pub first {ℓ} : {A : Type ℓ} → List A → Option A
first [] = none
first (x ∷ _) = some x

unfoldable pub remove_all : String → HeaderMap → HeaderMap
remove_all name [] = []
remove_all name ((n, v) ∷ hs) =
    let rest = remove_all name hs in if n == name then rest else (n, v) ∷ rest

-- `HeaderMap::insert` replaces every value of the name.
unfoldable pub set_header : String → HeaderValue → HeaderMap → HeaderMap
set_header name v hs = (name, v) ∷ remove_all name hs

pub get_all-remove_all :
    (name other : String) (hs : HeaderMap)
    → get_all other (remove_all name hs) ≡ (if name == other then [] else get_all other hs)
unfolding get_all remove_all
get_all-remove_all name other [] = ground arith
get_all-remove_all name other ((n, v) ∷ hs) = ground (
  arith,
  string_eq.same_iff n name,
  string_eq.same_iff n other,
  string_eq.same_iff name other,
  get_all-remove_all name other hs,
)

pub get_all-set_header :
    (name other : String) (v : HeaderValue) (hs : HeaderMap)
    → get_all other (set_header name v hs) ≡ (if name == other then v ∷ [] else get_all other hs)
unfolding get_all set_header
get_all-set_header name other v hs = ground (arith, get_all-remove_all name other hs)

pub data StatusCode : Type 0 where
  ok_200 bad_request forbidden not_found unsupported_media_type : StatusCode
  too_many_requests internal_server_error service_unavailable : StatusCode

-- A response whose headers are those that the handler sets itself.
pub record Response (Body : Type 0) : Type 0 where
  pub status : StatusCode
  pub headers : HeaderMap
  pub body : Body
