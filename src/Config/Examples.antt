-- ===== src/Config/Examples.antt =====
-- The theorems about src/config.rs at two origins and a proxy.
use parrhesia_backend.Common.{
  ◌≡◌, refl, Option, none, some, [], ◌∷◌, String, ok, err, arith, string_eq, ◌==◌, if◌then◌else◌,
}
use parrhesia_backend.Common.Texts.{
  trim, trim_start, trim_end, split, contains_char, ends_with, parse_digits, parse_unsigned,
}
use parrhesia_backend.Http.{visible}
use parrhesia_backend.Net.{IpAddr, v4, v6}
use parrhesia_backend.Config.{
  Config, Uri, Parsers, Env, is_origin, are_origins, read_origins, parse_proxies, read_proxies,
  read_number, read_fields, read_addresses, from_env,
}
use parrhesia_backend.Config.Accepted.{IsAccepted}
use parrhesia_backend.Config.RoundTrip.{env_of, IsWritable, from_env-env_of}

abbrev home : String
home = "https://parrhesia.chat"

abbrev local : String
local = "http://localhost"

abbrev uri_of : String → Option Uri
uri_of s =
    if s == home
    then some (record {
      scheme_str = some "https";
      authority = some "parrhesia.chat";
      path = "/";
      query = none;
    })
    else if s == local
    then some (record {
      scheme_str = some "http";
      authority = some "localhost";
      path = "/";
      query = none;
    })
    else none

abbrev ip_of : String → Option IpAddr
ip_of s =
    if s == "127.0.0.1" then some (v4 2130706433) else if s == "::1" then some (v6 1) else none

abbrev parsers : Parsers
parsers = record { uri = uri_of; header_value = λ s. some (visible s); ip_addr = ip_of }

abbrev print : IpAddr → String
print (v4 n) = "127.0.0.1"
print (v6 n) = "::1"

abbrev config : Config
config = record {
  database_url = "sqlite::memory:";
  port = 8080;
  bind_address = v4 2130706433;
  allowed_origins = home ∷ local ∷ [];
  trusted_proxies = v6 1 ∷ [];
  inactivity_expiry_hours = 48;
  cleanup_interval_mins = 10;
}

abbrev nothing_set : Env
nothing_set name = none

abbrev defaults : Config
defaults = record {
  database_url = "sqlite:./parrhesia.db?mode=rwc";
  port = 3000;
  bind_address = v4 2130706433;
  allowed_origins = home ∷ [];
  trusted_proxies = [];
  inactivity_expiry_hours = 24;
  cleanup_interval_mins = 5;
}

read_defaults : from_env parsers nothing_set ≡ ok defaults
unfolding from_env read_origins are_origins is_origin read_proxies parse_proxies read_addresses
    read_fields read_number split trim trim_start trim_end contains_char ends_with
read_defaults = refl

abbrev slashed : Env
slashed name = if name == "ALLOWED_ORIGINS" then some "https://parrhesia.chat/" else none

refused_origin :
    from_env parsers slashed
    ≡ err "ALLOWED_ORIGINS must contain exact http(s) origins without trailing slashes"
unfolding from_env read_origins are_origins is_origin split trim trim_start trim_end ends_with
    contains_char
refused_origin = refl

abbrev spaced : Env
spaced name =
    if name == "ALLOWED_ORIGINS"
    then some " https://parrhesia.chat , http://localhost"
    else if name == "TRUSTED_PROXY_IPS"
    then some ", ::1"
    else if name == "PORT"
    then some "70000"
    else none

read_spaced :
    from_env parsers spaced
    ≡ ok (record defaults { allowed_origins = home ∷ local ∷ []; trusted_proxies = v6 1 ∷ [] })
unfolding from_env read_origins are_origins is_origin read_proxies parse_proxies read_addresses
    read_fields read_number split trim trim_start trim_end contains_char ends_with parse_unsigned
    parse_digits
read_spaced = refl

config-IsAccepted : IsAccepted parsers config
unfolding is_origin contains_char ends_with
config-IsAccepted = record {
  some_origin = λ e. cc;
  origins = (refl, (refl, tt));
  port_fits = omega arith;
  hours_fit = omega arith;
  mins_fit = omega arith;
}

config-IsWritable : IsWritable parsers print config
unfolding contains_char trim trim_start trim_end
config-IsWritable = record {
  accepted = config-IsAccepted;
  origin_parts = ((refl, refl), ((refl, refl), tt));
  bind_written = ((refl, refl), ground (arith, string_eq.same_iff (print (v4 0)) ""), refl);
  proxies_written =
      (((refl, refl), ground (arith, string_eq.same_iff (print (v6 0)) ""), refl), tt);
}

from_env-env_of_example : from_env parsers (env_of print config) ≡ ok config
from_env-env_of_example = from_env-env_of parsers print config config-IsWritable
