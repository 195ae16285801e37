-- ===== src/Config/Accepted.antt =====
-- What `from_env` of src/config.rs accepts.
use parrhesia_backend.Common.{
  ℕ, ◌≤◌, ◌≡◌, ◌≢◌, true, inl, inr, Option, none, some, List, [], ◌∷◌, String, ok, arith,
  Bool-cases, Option-cases, All,
}
use parrhesia_backend.Common.Texts.{parse_unsigned}
use parrhesia_backend.Common.Texts.Numbers.{parse_unsigned-le}
use parrhesia_backend.Net.{IpAddr}
use parrhesia_backend.Config.{
  Config, Parsers, Env, all, is_origin, are_origins, read_origins, read_proxies, read_number,
  u16_max, u64_max, read_fields, read_addresses, from_env,
}

-- A configuration that the other parts can rely on.
pub record IsAccepted (p : Parsers) (c : Config) : Type 0 where
  pub some_origin : c.allowed_origins ≢ []
  pub origins : All (λ s. is_origin p s ≡ true) c.allowed_origins
  pub port_fits : c.port ≤ u16_max
  pub hours_fit : c.inactivity_expiry_hours ≤ u64_max
  pub mins_fit : c.cleanup_interval_mins ≤ u64_max

all-All :
    (p : Parsers) (ss : List String)
    → all (is_origin p) ss ≡ true
    → All (λ s. is_origin p s ≡ true) ss
all-All p [] h = tt
all-All p (s ∷ ss) h = (ground arith, all-All p ss (ground arith))

read_number-le : (most d : ℕ) (o : Option String) → d ≤ most → read_number most d o ≤ most
unfolding read_number
read_number-le most d none h = h
read_number-le most d (some s) h = elim (Option-cases (parse_unsigned most s)) [
  | inl e ↦ rw e h
  | inr (n, e) ↦ rw e (parse_unsigned-le most s n e)
]

read_fields-IsAccepted :
    (p : Parsers) (env : Env) (origins : List String) (bind : IpAddr) (proxies : List IpAddr)
    → are_origins p origins ≡ true
    → IsAccepted p (read_fields env origins bind proxies)
unfolding are_origins read_fields
read_fields-IsAccepted p env [] bind proxies h = absurd (ground arith)
read_fields-IsAccepted p env (s ∷ ss) bind proxies h = record {
  some_origin = λ e. cc;
  origins = all-All p (s ∷ ss) h;
  port_fits = read_number-le u16_max 3000 (env "PORT") (omega arith);
  hours_fit = read_number-le u64_max 24 (env "INACTIVITY_EXPIRY_HOURS") (omega arith);
  mins_fit = read_number-le u64_max 5 (env "CLEANUP_INTERVAL_MINS") (omega arith);
}

read_addresses-IsAccepted :
    (p : Parsers) (env : Env) (origins : List String) (bind : Option IpAddr)
    (proxies : Option (List IpAddr)) (c : Config)
    → are_origins p origins ≡ true
    → read_addresses env origins bind proxies ≡ ok c
    → IsAccepted p c
unfolding read_addresses
read_addresses-IsAccepted p env origins none proxies c h e = absurd (ground arith)
read_addresses-IsAccepted p env origins (some b) none c h e = absurd (ground arith)
read_addresses-IsAccepted p env origins (some b) (some ips) c h e =
    let same : read_fields env origins b ips ≡ c = cc in
    rw (← same) (read_fields-IsAccepted p env origins b ips h)

-- A configuration that was read has at least one allowed origin, each passes every test of an
-- origin, and its numbers fit their types.
pub from_env-IsAccepted :
    (p : Parsers) (env : Env) (c : Config) → from_env p env ≡ ok c → IsAccepted p c
unfolding from_env
from_env-IsAccepted p env c e = elim (Bool-cases (are_origins p (read_origins env))) [
  | inl h ↦
      read_addresses-IsAccepted p env (read_origins env) _ (read_proxies p env) c h (rw h at e)
  | inr h ↦ absurd (ground arith)
]
