-- ===== src/Security/Examples.antt =====
-- The theorems about src/security.rs at concrete requests.
use parrhesia_backend.Common.{
  ◌≡◌, refl, ◌↔◌, ◌⊎◌, true, false, Option, none, some, [], ◌∷◌, String, ok, err, ◌==◌, string_eq,
  if◌then◌else◌,
}
use parrhesia_backend.Net.{IpAddr, v4, ip_same}
use parrhesia_backend.Http.{HeaderMap, visible, bad_request, get_all, to_str}
use parrhesia_backend.Security.{security_headers, is_no_store, client_ip, contains_ip}
use parrhesia_backend.Security.Laws.{security_headers_lem, Names, client_ip_lem}

-- A stand-in for the parser of addresses.
abbrev parse : String → Option IpAddr
parse s = if s == "198.51.100.5" then some (v4 5) else none

abbrev headers : HeaderMap
headers = ("x-parrhesia-client-ip", visible "198.51.100.5") ∷ []

proxied : client_ip parse (v4 1) headers (v4 1 ∷ []) ≡ ok (v4 5)
unfolding client_ip contains_ip ip_same get_all to_str
proxied = refl

duplicated :
    client_ip parse (v4 1) (("x-parrhesia-client-ip", visible "198.51.100.6") ∷ headers) (v4 1 ∷ [])
    ≡ err bad_request
unfolding client_ip contains_ip ip_same get_all to_str
duplicated = refl

client_ip_lem_example :
    let reply = client_ip parse (v4 1) headers (v4 1 ∷ []) in
    let lines = get_all "x-parrhesia-client-ip" headers in
    ((reply ≡ ok (v4 5)) ↔ (
      ((contains_ip (v4 1 ∷ []) (v4 1) ≡ false) × (v4 1 ≡ v4 5))
      ⊎ ((contains_ip (v4 1 ∷ []) (v4 1) ≡ true) × Names parse lines (v4 5))))
    × (((a : IpAddr) × (reply ≡ ok a)) ⊎ (reply ≡ err bad_request))
client_ip_lem_example = client_ip_lem parse (v4 1) (v4 5) headers (v4 1 ∷ [])

security_headers_lem_example :
    get_all "x-frame-options"
      (security_headers "/api/rooms" (("x-frame-options", visible "SAMEORIGIN") ∷ []))
    ≡ visible "DENY" ∷ []
unfolding is_no_store
security_headers_lem_example =
    security_headers_lem "/api/rooms" "x-frame-options"
      (("x-frame-options", visible "SAMEORIGIN") ∷ [])
