-- ===== src/Security/Laws.antt =====
-- What src/security.rs guarantees.
use parrhesia_backend.Common.{
  ◌≡◌, refl, ◌↔◌, ◌⊎◌, inl, inr, true, false, Option, none, some, List, [], ◌∷◌, arith, String,
  string_eq, ◌==◌, if◌then◌else◌, ok, err, Bool-cases, Option-cases,
}
use parrhesia_backend.Net.{IpAddr}
use parrhesia_backend.Http.{
  HeaderMap, HeaderValue, visible, opaque, bad_request, get_all, set_header, to_str,
  get_all-set_header,
}
use parrhesia_backend.Security.{
  static_headers, set_headers, is_no_store, security_headers, contains_ip, forwarded, client_ip,
}

-- The value that a response must carry of a name, if the middleware sets it: the last one given.
abbrev pub assigned : String → List (String × String) → Option String → Option String
assigned name [] found = found
assigned name ((n, v) ∷ rest) found =
    let next = assigned name rest (some v) in
    let other = assigned name rest found in if n == name then next else other

abbrev pub values_or : Option String → List HeaderValue → List HeaderValue
values_or none old = old
values_or (some v) old = visible v ∷ []

get_all-set_headers :
    (name : String) (lines : List (String × String)) (found : Option String) (hs base : HeaderMap)
    → get_all name hs ≡ values_or found (get_all name base)
    → get_all name (set_headers lines hs)
      ≡ values_or (assigned name lines found) (get_all name base)
unfolding set_headers
get_all-set_headers name [] found hs base h = h
get_all-set_headers name ((n, v) ∷ rest) found hs base h = elim (Bool-cases (n == name)) [
  | inl e ↦ rw e (
      get_all-set_headers name rest (some v) (set_header n (visible v) hs) base
        (rw (get_all-set_header n name (visible v) hs, e)))
  | inr e ↦ rw e (
      get_all-set_headers name rest found (set_header n (visible v) hs) base
        (rw (get_all-set_header n name (visible v) hs, e) h))
]

abbrev pub no_store : String → String → Option String
no_store path name =
    if is_no_store path then if "cache-control" == name then some "no-store" else none else none

-- Every response carries each fixed header exactly once with its value, and `no-store` if the path
-- is one of rooms, whatever the inner service answered; every other header stays as it was.
pub security_headers_lem :
    (path name : String) (response : HeaderMap)
    → get_all name (security_headers path response)
      ≡ values_or (assigned name static_headers (no_store path name)) (get_all name response)
unfolding security_headers
security_headers_lem path name response =
    get_all-set_headers name static_headers (no_store path name) _ response base
  where
    base :
        get_all name (
          if is_no_store path
          then set_header "cache-control" (visible "no-store") response
          else response)
        ≡ values_or (no_store path name) (get_all name response)
    base = elim (Bool-cases (is_no_store path)) [
      | inl e ↦
          ground (arith, get_all-set_header "cache-control" name (visible "no-store") response)
      | inr e ↦ rw e
    ]

-- The one value, if it is readable and parses.
abbrev pub Names : (String → Option IpAddr) → List HeaderValue → IpAddr → Type 0
Names parse vs ip = (s : String) × (vs ≡ visible s ∷ []) × (parse s ≡ some ip)

forwarded-Names :
    (parse : String → Option IpAddr) (vs : List HeaderValue) (ip : IpAddr)
    → forwarded parse vs ≡ ok ip
    → Names parse vs ip
unfolding to_str
forwarded-Names parse [] ip h = cc
forwarded-Names parse (opaque ∷ []) ip h = cc
forwarded-Names parse (_ ∷ _ ∷ _) ip h = cc
forwarded-Names parse (visible s ∷ []) ip h = (s, refl, ground arith)

Names-forwarded :
    (parse : String → Option IpAddr) (vs : List HeaderValue) (ip : IpAddr)
    → Names parse vs ip
    → forwarded parse vs ≡ ok ip
unfolding to_str
Names-forwarded parse vs ip (s, e, p) = rw e (ground arith)

forwarded_total :
    (parse : String → Option IpAddr) (vs : List HeaderValue)
    → ((a : IpAddr) × (forwarded parse vs ≡ ok a)) ⊎ (forwarded parse vs ≡ err bad_request)
unfolding to_str
forwarded_total parse [] = inr refl
forwarded_total parse (opaque ∷ []) = inr refl
forwarded_total parse (_ ∷ _ ∷ _) = inr refl
forwarded_total parse (visible s ∷ []) = elim (Option-cases (parse s)) [
  | inl e ↦ inr (ground (arith, e))
  | inr (a, e) ↦ inl (a, ground (arith, e))
]

-- The address of a request is that of the peer exactly if the peer is no trusted proxy, whatever
-- headers it sends; of a trusted proxy it is the address that its only header line names. Any other
-- request is refused as malformed.
pub client_ip_lem :
    (parse : String → Option IpAddr) (peer ip : IpAddr) (headers : HeaderMap)
    (trusted : List IpAddr)
    → let reply = client_ip parse peer headers trusted in
      let lines = get_all "x-parrhesia-client-ip" headers in
      ((reply ≡ ok ip) ↔ (
        ((contains_ip trusted peer ≡ false) × (peer ≡ ip))
        ⊎ ((contains_ip trusted peer ≡ true) × Names parse lines ip)))
      × (((a : IpAddr) × (reply ≡ ok a)) ⊎ (reply ≡ err bad_request))
unfolding client_ip
client_ip_lem parse peer ip headers trusted = elim (Bool-cases (contains_ip trusted peer)) [
  | inr e ↦ rw e ((λ h. inl (refl, ground arith), λ h. ground arith), inl (peer, refl))
  | inl e ↦
      let lines = get_all "x-parrhesia-client-ip" headers in
      rw e (
        (
          λ h. inr (refl, forwarded-Names parse lines ip h),
          λ h. elim h [ inl (f, _) ↦ cc | inr (_, n) ↦ Names-forwarded parse lines ip n ],
        ),
        forwarded_total parse lines,
      )
]
