-- ===== src/Config.antt =====
-- src/config.rs: the configuration and how it is read from the environment. The parsers of URIs,
-- header values and addresses are parameters; an `Err` of `from_env` is the message of its panic.
pub mod Accepted
pub mod RoundTrip
mod Examples
use parrhesia_backend.Common.{
  ℕ, ◌*◌, ◌%◌, ◌≡◌, ◌≤◌, Bool, true, false, ◌&&◌, not, Option, none, some, List, [], ◌∷◌, map,
  String, string_eq, ◌==◌, if◌then◌else◌, Result, ok, err, u64_mod, arith,
}
use parrhesia_backend.Common.Int.{ℤ, pos, as_i64}
use parrhesia_backend.Common.Dict.{is_some}
use parrhesia_backend.Common.Texts.{trim, split, contains_char, ends_with, parse_unsigned}
use parrhesia_backend.Http.{HeaderValue}
use parrhesia_backend.Net.{IpAddr}

pub record Config : Type 0 where
  pub database_url : String
  pub port : ℕ
  pub bind_address : IpAddr
  pub allowed_origins : List String
  pub trusted_proxies : List IpAddr
  pub inactivity_expiry_hours : ℕ
  pub cleanup_interval_mins : ℕ

-- `http::Uri`, as its accessors show it.
pub record Uri : Type 0 where
  pub scheme_str : Option String
  pub authority : Option String
  pub path : String
  pub query : Option String

-- `s.parse()` at the types that other crates define.
pub record Parsers : Type 0 where
  pub uri : String → Option Uri
  pub header_value : String → Option HeaderValue
  pub ip_addr : String → Option IpAddr

-- `std::env::var`, where `none` stands for each of its errors.
abbrev pub Env : Type 0
Env = String → Option String

abbrev pub unwrap_or {ℓ} : {A : Type ℓ} → A → Option A → A
unwrap_or d none = d
unwrap_or d (some a) = a

abbrev pub all {ℓ} : {A : Type ℓ} → (A → Bool) → List A → Bool
all p [] = true
all p (x ∷ xs) = p x && all p xs

abbrev pub is_web_scheme : Option String → Bool
is_web_scheme none = false
is_web_scheme (some s) = if s == "https" then true else s == "http"

-- An authority without user information.
abbrev pub is_plain_authority : Option String → Bool
is_plain_authority none = false
is_plain_authority (some a) = not (contains_char 64 a)

unfoldable pub is_origin : Parsers → String → Bool
is_origin p s = elim (p.uri s) [
  | none ↦ false
  | some u ↦
      is_web_scheme u.scheme_str
      && is_plain_authority u.authority
      && u.path == "/"
      && not (is_some u.query)
      && not (ends_with 47 s)
      && is_some (p.header_value s)
]

unfoldable pub are_origins : Parsers → List String → Bool
are_origins p [] = false
are_origins p (s ∷ ss) = all (is_origin p) (s ∷ ss)

unfoldable pub read_origins : Env → List String
read_origins env = map trim (split 44 (unwrap_or "https://parrhesia.chat" (env "ALLOWED_ORIGINS")))

-- The parts of the list that are not blank, each trimmed and parsed; `none` if one is refused.
unfoldable pub parse_proxies : Parsers → List String → Option (List IpAddr)
parse_proxies p [] = some []
parse_proxies p (s ∷ ss) =
    let rest = parse_proxies p ss in
    if trim s == "" then rest else elim (p.ip_addr (trim s)) [
      | none ↦ none
      | some ip ↦ elim rest [ none ↦ none | some ips ↦ some (ip ∷ ips) ]
    ]

unfoldable pub read_proxies : Parsers → Env → Option (List IpAddr)
read_proxies p env = parse_proxies p (split 44 (unwrap_or "" (env "TRUSTED_PROXY_IPS")))

-- A number that is missing or cannot be read is the default.
unfoldable pub read_number : ℕ → ℕ → Option String → ℕ
read_number most default none = default
read_number most default (some s) = unwrap_or default (parse_unsigned most s)

abbrev pub u16_max : ℕ
u16_max = 65535

abbrev pub u64_max : ℕ
u64_max = 18446744073709551615

-- The fields, once everything that can panic has been read.
unfoldable pub read_fields : Env → List String → IpAddr → List IpAddr → Config
read_fields env origins bind proxies = record {
  bind_address = bind;
  allowed_origins = origins;
  trusted_proxies = proxies;
  database_url = unwrap_or "sqlite:./parrhesia.db?mode=rwc" (env "DATABASE_URL");
  port = read_number u16_max 3000 (env "PORT");
  inactivity_expiry_hours = read_number u64_max 24 (env "INACTIVITY_EXPIRY_HOURS");
  cleanup_interval_mins = read_number u64_max 5 (env "CLEANUP_INTERVAL_MINS");
}

-- The two addresses, in the order in which they are read.
unfoldable pub read_addresses :
    Env → List String → Option IpAddr → Option (List IpAddr) → Result Config String
read_addresses env origins none proxies = err "BIND_ADDRESS must be an IP address"
read_addresses env origins (some bind) none = err "TRUSTED_PROXY_IPS must contain IP addresses"
read_addresses env origins (some bind) (some proxies) = ok (read_fields env origins bind proxies)

unfoldable pub from_env : Parsers → Env → Result Config String
from_env p env =
    let origins = read_origins env in
    let bind = p.ip_addr (unwrap_or "127.0.0.1" (env "BIND_ADDRESS")) in
    if are_origins p origins
    then read_addresses env origins bind (read_proxies p env)
    else err "ALLOWED_ORIGINS must contain exact http(s) origins without trailing slashes"

-- As a release build computes it: the product wraps, and the cast keeps the bits.
unfoldable pub inactivity_expiry_secs : Config → ℤ
inactivity_expiry_secs c = as_i64 (c.inactivity_expiry_hours * 3600 % u64_mod)

-- The expiry is the number of hours in seconds for any number of hours up to 2562047788015215, some
-- 292 billion years.
pub inactivity_expiry_secs_lem :
    (c : Config)
    → c.inactivity_expiry_hours ≤ 2562047788015215
    → inactivity_expiry_secs c ≡ pos (c.inactivity_expiry_hours * 3600)
unfolding inactivity_expiry_secs
inactivity_expiry_secs_lem c h = ground arith
