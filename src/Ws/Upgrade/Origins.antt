-- ===== src/Ws/Upgrade/Origins.antt =====
-- Which origins `ws_handler` in src/routes/ws.rs upgrades under a configuration that `from_env` of
-- src/config.rs has read.
use parrhesia_backend.Common.{
  ◌≡◌, subst, ◌⊎◌, inl, inr, true, false, Option, none, some, List, [], ◌∷◌, String, string_eq, ok,
  ◌==◌, Bool-cases, Option-cases, arith, All, ==-eq,
}
use parrhesia_backend.Common.Texts.{contains_char, ends_with}
use parrhesia_backend.Net.{IpAddr}
use parrhesia_backend.Float.{Float}
use parrhesia_backend.Http.{HeaderMap, visible, get_all}
use parrhesia_backend.Server.{Server}
use parrhesia_backend.Config.{Config, Uri, Parsers, Env, is_origin, from_env}
use parrhesia_backend.Config.Accepted.{from_env-IsAccepted}
use parrhesia_backend.Ws.Upgrade.{upgraded, Arrival, is_listed_origin, ws_handler}
use parrhesia_backend.Ws.Upgrade.Grants.{IsGranted, ws_handler-IsGranted}

-- An origin of the web: http or https, an authority without user information, and nothing else.
abbrev pub IsWebOrigin : Parsers → String → Type 0
IsWebOrigin p s =
    (u : Uri) × (p.uri s ≡ some u)
    × ((u.scheme_str ≡ some "https") ⊎ (u.scheme_str ≡ some "http"))
    × ((a : String) × (u.authority ≡ some a) × (contains_char 64 a ≡ false))
    × (u.path ≡ "/")
    × (u.query ≡ none)
    × (ends_with 47 s ≡ false)

is_origin-IsWebOrigin : (p : Parsers) (s : String) → is_origin p s ≡ true → IsWebOrigin p s
unfolding is_origin
is_origin-IsWebOrigin p s h = elim (Option-cases (p.uri s)) [
  | inl e ↦ absurd (ground (arith, e))
  | inr (u, e) ↦ elim (Option-cases u.authority) [
    | inl f ↦ absurd (ground (arith, e, f))
    | inr (a, f) ↦ elim (Option-cases u.scheme_str) [
      | inl k ↦ absurd (ground (arith, e, f, k))
      | inr (scheme, k) ↦ (
        u,
        e,
        ground (arith, string_eq.same_iff scheme "https", string_eq.same_iff scheme "http"),
        (a, f, ground arith),
        ground (arith, string_eq.same_iff u.path "/"),
        elim (Option-cases u.query) [ inl g ↦ g | inr (q, g) ↦ absurd (ground (arith, e, f, g)) ],
        ground arith,
      )
    ]
  ]
]

listed-All :
    (p : Parsers) (origin : String) (allowed : List String)
    → is_listed_origin origin allowed ≡ true
    → All (λ s. is_origin p s ≡ true) allowed
    → is_origin p origin ≡ true
unfolding is_listed_origin
listed-All p origin [] h hs = absurd (ground arith)
listed-All p origin (s ∷ ss) h (k, ks) = elim (Bool-cases (s == origin)) [
  | inl e ↦ subst (λ o. is_origin p o ≡ true) (==-eq s origin e) k
  | inr e ↦ listed-All p origin ss (ground arith) ks
]

-- Under a configuration that was read, a request is upgraded only if it has one origin line, and
-- that names an origin of the web: with the scheme http or https, an authority without user
-- information, and neither a path, a query nor a slash at its end.
pub ws_handler-IsWebOrigin :
    {X : Type 0} (fl : Float) (p : Parsers) (env : Env) (c : Config) (m : Arrival fl.F X)
    (room_id : String) (peer : IpAddr) (headers : HeaderMap) (s : Server fl.F X) (id : String)
    (found : Option (Option String)) (guard : Option IpAddr)
    → from_env p env ≡ ok c
    → (ws_handler fl p.ip_addr c m room_id peer headers s).0 ≡ upgraded id found guard
    → (origin : String) × (get_all "origin" headers ≡ visible origin ∷ []) × IsWebOrigin p origin
ws_handler-IsWebOrigin fl p env c m room_id peer headers s id found guard read e =
    let granted =
      subst (IsGranted fl p.ip_addr c m room_id peer headers s) e
        (ws_handler-IsGranted fl p.ip_addr c m room_id peer headers s) in
    let (origin, line, listed) = granted.0 in
    (
      origin,
      line,
      is_origin-IsWebOrigin p origin
          (listed-All p origin c.allowed_origins listed (from_env-IsAccepted p env c read).origins),
    )
