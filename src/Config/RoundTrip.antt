-- ===== src/Config/RoundTrip.antt =====
-- A configuration written to the environment, as `from_env` of src/config.rs reads it.
use parrhesia_backend.Common.{
  ℕ, ◌≤◌, ◌<◌, ◌^◌, suc, ◌≡◌, ◌≢◌, refl, ap, true, none, some, List, [], ◌∷◌, String, ok, arith,
  All, if◌then◌else◌, string_eq, ◌==◌, map, ==-ne,
}
use parrhesia_backend.Common.Texts.{trim, trim_start, trim_end, split, decimal}
use parrhesia_backend.Common.Texts.Parts.{join, IsPart, split-join, map-trim}
use parrhesia_backend.Common.Texts.Numbers.{parse_unsigned-decimal}
use parrhesia_backend.Net.{IpAddr}
use parrhesia_backend.Config.Accepted.{IsAccepted}
use parrhesia_backend.Config.{
  Config, Parsers, Env, all, is_origin, are_origins, read_origins, parse_proxies, read_proxies,
  read_number, u16_max, u64_max, read_fields, read_addresses, from_env,
}

-- The environment that says what the configuration says.
abbrev pub env_of : (IpAddr → String) → Config → Env
env_of print c name =
    if name == "ALLOWED_ORIGINS"
    then some (join "," c.allowed_origins)
    else if name == "BIND_ADDRESS"
    then some (print c.bind_address)
    else if name == "TRUSTED_PROXY_IPS"
    then some (join "," (map print c.trusted_proxies))
    else if name == "DATABASE_URL"
    then some c.database_url
    else if name == "PORT"
    then some (decimal 5 c.port)
    else if name == "INACTIVITY_EXPIRY_HOURS"
    then some (decimal 20 c.inactivity_expiry_hours)
    else if name == "CLEANUP_INTERVAL_MINS"
    then some (decimal 20 c.cleanup_interval_mins)
    else none

module _ (p : Parsers) (print : IpAddr → String) where
  -- The text of the address can be listed, and is parsed to the address.
  abbrev pub IsWritten : IpAddr → Type 0
  IsWritten ip = IsPart 44 (print ip) × (print ip ≢ "") × (p.ip_addr (print ip) ≡ some ip)

  read_number-decimal :
      (most d k n : ℕ)
      → n < 10 ^ suc k
      → n ≤ most
      → read_number most d (some (decimal (suc k) n)) ≡ n
  unfolding read_number
  read_number-decimal most d k n h l = rw (parse_unsigned-decimal most k n h l)

  parse_proxies-map :
      (ips : List IpAddr) → All IsWritten ips → parse_proxies p (map print ips) ≡ some ips
  unfolding parse_proxies
  parse_proxies-map [] h = refl
  parse_proxies-map (ip ∷ ips) ((part, full, parsed), hs) =
      rw (part.1, ==-ne (print ip) "" full, parsed, parse_proxies-map ips hs)

  parts : (ips : List IpAddr) → All IsWritten ips → All (IsPart 44) (map print ips)
  parts [] h = tt
  parts (ip ∷ ips) (h, hs) = (h.0, parts ips hs)

  proxies_read :
      (ips : List IpAddr)
      → All IsWritten ips
      → parse_proxies p (split 44 (join "," (map print ips))) ≡ some ips
  unfolding parse_proxies split trim trim_end trim_start
  proxies_read [] h = refl
  proxies_read (ip ∷ ips) h =
      rw (split-join "," (print ip) (map print ips) (parts (ip ∷ ips) h))
        (parse_proxies-map (ip ∷ ips) h)

  -- A configuration that can be written to the environment.
  pub record IsWritable (c : Config) : Type 0 where
    pub accepted : IsAccepted p c
    pub origin_parts : All (IsPart 44) c.allowed_origins
    pub bind_written : IsWritten c.bind_address
    pub proxies_written : All IsWritten c.trusted_proxies

  All-are_origins :
      (ss : List String) → ss ≢ [] → All (λ s. is_origin p s ≡ true) ss → are_origins p ss ≡ true
  unfolding are_origins
  All-are_origins [] ne h = absurd (ne refl)
  All-are_origins (s ∷ ss) ne h = go (s ∷ ss) h
    where
      go : (ts : List String) → All (λ t. is_origin p t ≡ true) ts → all (is_origin p) ts ≡ true
      go [] k = refl
      go (t ∷ ts) (k, ks) = ground (arith, go ts ks)

  origins_read :
      (ss : List String) → ss ≢ [] → All (IsPart 44) ss → map trim (split 44 (join "," ss)) ≡ ss
  origins_read [] ne h = absurd (ne refl)
  origins_read (s ∷ ss) ne h = rw (split-join "," s ss h) (map-trim 44 (s ∷ ss) h)

  read_fields-env_of :
      (c : Config)
      → IsWritable c
      → read_fields (env_of print c) c.allowed_origins c.bind_address c.trusted_proxies ≡ c
  unfolding read_fields
  read_fields-env_of c w =
      rw
        (
          read_number-decimal u16_max 3000 4 c.port (omega (arith, w.accepted.port_fits))
              w.accepted.port_fits,
          read_number-decimal u64_max 24 19 c.inactivity_expiry_hours
              (omega (arith, w.accepted.hours_fit)) w.accepted.hours_fit,
          read_number-decimal u64_max 5 19 c.cleanup_interval_mins
              (omega (arith, w.accepted.mins_fit)) w.accepted.mins_fit,
        )
        refl

  -- A configuration that can be accepted is read back from the environment that says what it says,
  -- if its origins contain no comma and have no white space at their ends, and its addresses are
  -- written so that the parser reads them.
  pub from_env-env_of : (c : Config) → IsWritable c → from_env p (env_of print c) ≡ ok c
  unfolding from_env read_origins read_proxies read_addresses
  from_env-env_of c w =
      rw
        (
          origins_read c.allowed_origins w.accepted.some_origin w.origin_parts,
          All-are_origins c.allowed_origins w.accepted.some_origin w.accepted.origins,
          w.bind_written.2,
          proxies_read c.trusted_proxies w.proxies_written,
        )
        (ap ok (read_fields-env_of c w))
