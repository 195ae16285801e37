-- ===== src/Startup/Process.antt =====
-- The process of src/main.rs from its start on: requests of src/lib.rs and ticks of src/cleanup.rs.
use parrhesia_backend.Common.{
  ℕ, ◌<◌, ◌≡◌, sym, inl, inr, none, some, List, [], String, string_eq, Result, ok, All, subst,
}
use parrhesia_backend.Common.Int.{pos, i64_half}
use parrhesia_backend.Common.Dict.{IsMap}
use parrhesia_backend.Net.{IpAddr}
use parrhesia_backend.Broadcast.{BroadcastLaws}
use parrhesia_backend.Config.{Config, Parsers}
use parrhesia_backend.Server.{new_state}
use parrhesia_backend.Cleanup.{expiry, tick}
use parrhesia_backend.Cleanup.Recency.{IsPunctual, IsFresh, tick-IsFresh}
use parrhesia_backend.Requests.{Setting, World}
use parrhesia_backend.Requests.Friendly.{IsSound}
use parrhesia_backend.Requests.Histories.{Task, IsMetTask, run, run-IsSound, new_state-IsSound}
use parrhesia_backend.Startup.{Boot, Started, start}
use parrhesia_backend.Startup.Laws.{Launched, start-Launched}

-- The handlers with the configuration that was read.
abbrev pub configured : Setting → Config → Setting
configured g c = record g { config = c }

module _ (p : Parsers) (g : Setting) (laws : BroadcastLaws g.bus) where
  Launched-new_state :
      (b : Boot g.bus.Bus) (c : Config) (r : Result (Started p g.float g.bus) String)
      (t : Started p g.float g.bus)
      → Launched p g.float g.bus b c r
      → r ≡ ok t
      → t.2 ≡ new_state g.float g.bus b.table b.bus
  Launched-new_state b c r t (inl (e, _, h)) k = cc
  Launched-new_state b c r t (inr (inl (_, _, h))) k = cc
  Launched-new_state b c r t (inr (inr (_, _, (vs, _, h)))) k = cc

  start-new_state :
      (b : Boot g.bus.Bus) (t : Started p g.float g.bus)
      → start p g.float g.bus b ≡ ok t
      → t.2 ≡ new_state g.float g.bus b.table b.bus
  start-new_state b t k = elim (start-Launched p g.float g.bus b) [
    | inl (message, _, h) ↦ cc
    | inr (c, _, l) ↦ Launched-new_state b c _ t l k
  ]

  -- A process that has started, over a table that has each room once, never panics in a request or
  -- a tick, whatever sequence of them comes, each interrupted by others that keep the state sound; its
  -- state stays sound, where Q holds of the guards of others, and of none; and a tick of the expiry that the database does not fail then leaves no room
  -- that was inactive for longer than the configuration says, if its numbers and the clock fit.
  pub run-IsFresh :
      (Q : List IpAddr → Type 0) (b : Boot g.bus.Bus) (t : Started p g.float g.bus)
      (ts : List (Task (configured g t.0))) (now : ℕ) (id : String)
      → IsMap b.table
      → Q []
      → start p g.float g.bus b ≡ ok t
      → All (IsMetTask (configured g t.0) laws Q) ts
      → IsPunctual t.0
      → now < i64_half
      → (s : World (configured g t.0)) × (run (configured g t.0) ts t.2 ≡ some s)
        × IsSound (configured g t.0) laws Q [] s
        × IsFresh g.float g.bus laws t.0 now id (tick g.float g.bus t.0 (expiry none (pos now)) s)
  run-IsFresh Q b t ts now id u q k met c fits =
      let h = configured g t.0 in
      let ready =
        subst (IsSound h laws Q []) (sym (start-new_state b t k))
          (new_state-IsSound h laws Q b.table b.bus u q) in
      let (s, e, v) = run-IsSound h laws Q ts [] t.2 met ready in
      (s, e, v, tick-IsFresh g.float g.bus laws t.0 s now id v.0 c fits)
