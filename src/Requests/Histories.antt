-- ===== src/Requests/Histories.antt =====
-- Histories of the whole server: requests of src/lib.rs and ticks of src/cleanup.rs, one after the
-- other, each interrupted by others where it waits.
use parrhesia_backend.Common.{
  ◌≡◌, refl, ap, Option, none, some, List, [], ◌∷◌, All, string_eq, arith,
}
use parrhesia_backend.Common.Dict.{IsMap}
use parrhesia_backend.Net.{IpAddr}
use parrhesia_backend.Broadcast.{BroadcastLaws}
use parrhesia_backend.Admission.Pending.{default-Accounts}
use parrhesia_backend.Admission.Guards.{maintain_slots}
use parrhesia_backend.Db.{Table}
use parrhesia_backend.Server.{new_state}
use parrhesia_backend.Cleanup.{Tick, maintenance, expiry, expire, tick}
use parrhesia_backend.Cleanup.Histories.{tick-IsSettled, new_state-IsSettled}
use parrhesia_backend.Requests.{Request, Answer, Setting, World, F, X, handle}
use parrhesia_backend.Requests.Friendly.{IsSound, IsFriendly, same_slots}
use parrhesia_backend.Requests.Closure.{IsMet, handle-Served}

module _ (g : Setting) where
  pub data Task : Type 0 where
    serves : Request (F g) (X g) → Task
    ticks : Tick → Task

  abbrev state_of : Option (Answer × World g) → Option (World g)
  state_of none = none
  state_of (some (_, s)) = some s

  -- `none` is a panic.
  unfoldable pub step : Task → World g → Option (World g)
  step (serves r) s = state_of (handle g r s)
  step (ticks t) s = some (tick g.float g.bus g.config t s)

  unfoldable pub run : List Task → World g → Option (World g)
  run [] s = some s
  run (t ∷ ts) s = elim (step t s) [ none ↦ none | some s' ↦ run ts s' ]

  -- What a task does to the state, as others meet it.
  unfoldable pub effect : Task → World g → World g
  effect t s = elim (step t s) [ none ↦ s | some s' ↦ s' ]

  module _ (laws : BroadcastLaws g.bus) (Q : List IpAddr → Type 0) where
    abbrev pub IsMetTask : Task → Type 0
    IsMetTask (serves r) = IsMet g laws Q r
    IsMetTask (ticks t) = Unit

    tick-IsSound :
        (t : Tick) (mine : List IpAddr) (s : World g)
        → IsSound g laws Q mine s
        → IsSound g laws Q mine (tick g.float g.bus g.config t s)
    unfolding tick expire
    tick-IsSound (maintenance now) mine s v =
        let (p, n) = maintain_slots g.float now s.admission in
        same_slots g laws Q mine s _ p n
          (tick-IsSettled g.float g.bus laws g.config (maintenance now) s v.0) v
    tick-IsSound (expiry f now) mine s v =
        same_slots g laws Q mine s (tick g.float g.bus g.config (expiry f now) s) (ground arith)
          (ground arith) (tick-IsSettled g.float g.bus laws g.config (expiry f now) s v.0) v

    step-IsSound :
        (t : Task) (mine : List IpAddr) (s : World g)
        → IsMetTask t
        → IsSound g laws Q mine s
        → (s' : World g) × (step t s ≡ some s') × IsSound g laws Q mine s'
    unfolding step
    step-IsSound (serves r) mine s m v =
        let (a, s', e, w) = handle-Served g laws Q r mine s m v in (s', ap state_of e, w)
    step-IsSound (ticks t) mine s m v = (_, refl, tick-IsSound t mine s v)

    -- A task that others interrupt can interrupt others.
    pub effect-IsFriendly : (t : Task) → IsMetTask t → IsFriendly g laws Q (effect t)
    unfolding effect
    effect-IsFriendly t m mine s v = let (s', e, w) = step-IsSound t mine s m v in rw (e, effect) w

    pub run-IsSound :
        (ts : List Task) (mine : List IpAddr) (s : World g)
        → All IsMetTask ts
        → IsSound g laws Q mine s
        → (s' : World g) × (run ts s ≡ some s') × IsSound g laws Q mine s'
    unfolding run
    run-IsSound [] mine s m v = (s, refl, v)
    run-IsSound (t ∷ ts) mine s (m, ms) v =
        let (s', e, w) = step-IsSound t mine s m v in
        let (z, f, x) = run-IsSound ts mine s' ms w in (z, rw (e, run) f, x)

    pub new_state-IsSound :
        (t : Table) (b : g.bus.Bus)
        → IsMap t
        → Q []
        → IsSound g laws Q [] (new_state g.float g.bus t b)
    new_state-IsSound t b u q =
        (new_state-IsSettled g.float g.bus laws g.config t b u, ([], q, default-Accounts))
