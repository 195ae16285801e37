-- ===== src/Startup/Examples.antt =====
-- The theorems about src/main.rs at a process that nothing configures, on a new database.
use parrhesia_backend.Common.{
  ◌≡◌, refl, ◌⊎◌, true, none, some, List, [], ◌∷◌, String, ok, err, arith, string_eq,
}
use parrhesia_backend.Common.Texts.{split, trim, trim_start, trim_end, contains_char, ends_with}
use parrhesia_backend.Common.Int.{pos}
use parrhesia_backend.Http.{visible}
use parrhesia_backend.Float.{fixed}
use parrhesia_backend.Broadcast.{Log, log_bus, log_laws}
use parrhesia_backend.Config.{
  Config, is_origin, are_origins, read_origins, parse_proxies, read_proxies, read_number,
  read_fields, read_addresses, from_env,
}
use parrhesia_backend.Db.{no_table, run_migrations}
use parrhesia_backend.Server.{new_state}
use parrhesia_backend.Rooms.Events.{RoomEvent}
use parrhesia_backend.Cleanup.{maintenance, expiry, tick}
use parrhesia_backend.Cleanup.Recency.{IsFresh}
use parrhesia_backend.Requests.{World}
use parrhesia_backend.Requests.Samples.{home, parsers, defaults, setting, no_channels, creation}
use parrhesia_backend.Requests.Friendly.{IsSound}
use parrhesia_backend.Requests.Histories.{Task, serves, ticks, run}
use parrhesia_backend.Startup.{init_pool, cors_origins, Boot, Started, launch, start}
use parrhesia_backend.Startup.Laws.{Launched, start-Launched}
use parrhesia_backend.Startup.Process.{configured, run-IsFresh}

abbrev boot : Boot (Log RoomEvent)
boot = record {
  env = λ name. none;
  connecting = none;
  faults = record {
    at_begin = none;
    at_create = none;
    at_count = none;
    at_alter = none;
    at_commit = none;
  };
  schema = no_table;
  table = [];
  bus = no_channels;
  is_bound = true;
}

abbrev started : Started parsers fixed (log_bus RoomEvent)
started = (defaults, visible home ∷ [], new_state fixed (log_bus RoomEvent) [] no_channels)

starts : start parsers fixed (log_bus RoomEvent) boot ≡ ok started
unfolding start launch init_pool run_migrations cors_origins from_env read_origins are_origins
    is_origin read_proxies parse_proxies read_addresses read_fields read_number split trim
    trim_start trim_end contains_char ends_with
starts = refl

start-Launched_example :
    ((message : String) × (from_env parsers boot.env ≡ err message)
      × (start parsers fixed (log_bus RoomEvent) boot ≡ err message))
    ⊎ ((c : Config) × (from_env parsers boot.env ≡ ok c)
        × Launched parsers fixed
            (log_bus RoomEvent)
            boot
            c
            (start parsers fixed (log_bus RoomEvent) boot))
start-Launched_example = start-Launched parsers fixed (log_bus RoomEvent) boot

abbrev day : List (Task (configured setting defaults))
day = serves (creation "room") ∷ ticks (maintenance 60) ∷ ticks (expiry none (pos 1300)) ∷ []

run-IsFresh_example :
    (s : World (configured setting defaults)) × (run (configured setting defaults) day started.2
      ≡ some s)
    × IsSound (configured setting defaults) (log_laws RoomEvent) (λ gs. gs ≡ []) [] s
    × IsFresh fixed
        (log_bus RoomEvent)
        (log_laws RoomEvent)
        defaults
        90000
        "room"
        (tick fixed (log_bus RoomEvent) defaults (expiry none (pos 90000)) s)
run-IsFresh_example =
    run-IsFresh parsers setting (log_laws RoomEvent) (λ gs. gs ≡ []) boot started day 90000 "room"
      tt refl starts (λ mine s v. v, (tt, (tt, tt)))
      (record {
        some_interval = omega arith;
        interval_fits = omega arith;
        expiry_fits = omega arith;
      })
      (omega arith)
