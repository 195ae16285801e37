-- ===== src/Startup.antt =====
-- src/main.rs, with the part of `app` in src/lib.rs that runs once and `init_pool` of src/db.rs: how the
-- process starts. An `Err` is the message of a panic.
pub mod Laws
pub mod Process
mod Examples
use parrhesia_backend.Common.{
  Bool, Option, none, some, List, [], ◌∷◌, String, Result, ok, err, if◌then◌else◌,
}
use parrhesia_backend.Http.{HeaderValue}
use parrhesia_backend.Float.{Float}
use parrhesia_backend.Broadcast.{Broadcast}
use parrhesia_backend.Config.{Config, Parsers, Env, from_env}
use parrhesia_backend.Db.{DbError, Table, Schema, MigrationFaults, run_migrations}
use parrhesia_backend.Server.{State, new_state}
use parrhesia_backend.Rooms.Events.{RoomEvent}

-- Whether the connection to the database fails, and then the migrations.
unfoldable pub init_pool :
    Option DbError → MigrationFaults → Schema → Result (Unit {0}) DbError × Schema
init_pool (some e) faults schema = (err e, schema)
init_pool none faults schema = run_migrations faults schema

-- The origins that the CORS layer allows; `none` is the panic of `expect`.
unfoldable pub cors_origins : Parsers → List String → Option (List HeaderValue)
cors_origins p [] = some []
cors_origins p (s ∷ ss) =
    let rest = cors_origins p ss in
    elim (p.header_value s) [
      | none ↦ none
      | some v ↦ elim rest [ none ↦ none | some vs ↦ some (v ∷ vs) ]
    ]

-- What the process finds: its environment, the database with its rooms, the state of the channels,
-- and whether the address can be bound.
pub record Boot (Bus : Type 0) : Type 0 where
  pub env : Env
  pub connecting : Option DbError
  pub faults : MigrationFaults
  pub schema : Schema
  pub table : Table
  pub bus : Bus
  pub is_bound : Bool

module _ (p : Parsers) (fl : Float) (bc : Broadcast RoomEvent) where
  -- What serves requests: the configuration, the origins of the CORS layer and the state.
  abbrev pub Started : Type 0
  Started = Config × List HeaderValue × State fl bc

  abbrev pub bind : Bool → Started → Result Started String
  bind is_bound s = if is_bound then ok s else err "Failed to bind to address"

  -- From the database on: `AppState::new`, `app` and the listener.
  unfoldable pub launch : Boot bc.Bus → Config → Result Started String
  launch b c = elim (init_pool b.connecting b.faults b.schema).0 [
    | err e ↦ err "Failed to initialize database"
    | ok _ ↦
        let s = new_state fl bc b.table b.bus in
        elim (cors_origins p c.allowed_origins) [
          | none ↦ err "validated origin"
          | some origins ↦ bind b.is_bound (c, origins, s)
        ]
  ]

  unfoldable pub start : Boot bc.Bus → Result Started String
  start b = elim (from_env p b.env) [ err message ↦ err message | ok c ↦ launch b c ]
