-- ===== src/Security.antt =====
-- src/security.rs: the middleware that sets the headers of every response, and the address that a
-- request is accounted to.
pub mod Laws
mod Examples
use parrhesia_backend.Common.{
  Bool, true, false, ◌||◌, Option, none, some, List, [], ◌∷◌, String, ◌==◌, if◌then◌else◌, Result,
  ok, err,
}
use text.Mathlib.Text.{starts_with}
use parrhesia_backend.Net.{IpAddr, ip_eq}
use parrhesia_backend.Http.{
  HeaderMap, HeaderValue, visible, StatusCode, bad_request, get_all, set_header, to_str,
}

-- The fixed header lines, in the order of the code.
abbrev pub static_headers : List (String × String)
static_headers =
    (
      "content-security-policy",
      "default-src 'self'; script-src 'self'; style-src 'self' 'unsafe-inline'; connect-src 'self' wss: ws:; img-src 'self' data: blob:; frame-ancestors 'none'; base-uri 'self'; form-action 'self'",
    )
    ∷ ("x-content-type-options", "nosniff")
    ∷ ("x-frame-options", "DENY")
    ∷ ("referrer-policy", "strict-origin-when-cross-origin")
    ∷ ("x-xss-protection", "0")
    ∷ ("permissions-policy", "camera=(self), microphone=()")
    ∷ ("strict-transport-security", "max-age=31536000; includeSubDomains")
    ∷ []

unfoldable pub set_headers : List (String × String) → HeaderMap → HeaderMap
set_headers [] hs = hs
set_headers ((name, v) ∷ rest) hs = set_headers rest (set_header name (visible v) hs)

-- Responses about rooms are not to be stored.
unfoldable pub is_no_store : String → Bool
is_no_store path = starts_with path "/api/rooms" || starts_with path "/ws/"

-- `path` is the request's, and `response` the headers that the inner service answered with.
unfoldable pub security_headers : String → HeaderMap → HeaderMap
security_headers path response = set_headers static_headers (
    if is_no_store path then set_header "cache-control" (visible "no-store") response else response)

unfoldable pub contains_ip : List IpAddr → IpAddr → Bool
contains_ip [] ip = false
contains_ip (x ∷ xs) ip = x == ip || contains_ip xs ip

-- `value.to_str().ok().and_then(|s| s.parse().ok())`; `parse` is that of the standard library.
abbrev pub parse_value : (String → Option IpAddr) → HeaderValue → Result IpAddr StatusCode
parse_value parse v = elim (to_str v) [
  | none ↦ err bad_request
  | some s ↦ elim (parse s) [ none ↦ err bad_request | some ip ↦ ok ip ]
]

-- The iterator over the values: the first, if there is no second.
abbrev pub forwarded : (String → Option IpAddr) → List HeaderValue → Result IpAddr StatusCode
forwarded parse [] = err bad_request
forwarded parse (v ∷ []) = parse_value parse v
forwarded parse (_ ∷ _ ∷ _) = err bad_request

unfoldable pub client_ip :
    (String → Option IpAddr) → IpAddr → HeaderMap → List IpAddr → Result IpAddr StatusCode
client_ip parse peer headers trusted_proxies =
    if contains_ip trusted_proxies peer
    then forwarded parse (get_all "x-parrhesia-client-ip" headers)
    else ok peer
