-- ===== src/Requests/Friendly.antt =====
-- What the requests of src/lib.rs rely on while they wait, and the single steps that keep it.

use parrhesia_backend.Common.{
  ℕ, ◌≡◌, refl, ap, Option, none, some, List, ◌∷◌, ◌++◌, String, inl, inr, ==-refl,
}
use parrhesia_backend.Net.{IpAddr, ip_eq}
use parrhesia_backend.Broadcast.{BroadcastLaws}
use parrhesia_backend.Admission.{Budget, check_at, pending_auth}
use parrhesia_backend.Admission.Pending.{
  count, drop_guard_held, pending_auth_lem, pending_auth_granted,
}
use parrhesia_backend.Admission.Guards.{Accounts-same, check_at_slots}
use parrhesia_backend.Server.{app_of}
use parrhesia_backend.Rooms.Replay.{relay-Tracked}
use parrhesia_backend.Rooms.Laws.{attach-Tracked, join-Tracked, detach-Tracked}
use parrhesia_backend.Rooms.Backing.{
  attach-IsBacked, join-IsBacked, detach-IsBacked, update_activity-IsBacked, create_room-IsBacked,
}
use parrhesia_backend.RoomRoutes.Keeps as Creation
use parrhesia_backend.Ws.Auth.Keeps as Authentication
use parrhesia_backend.Ws.Upgrade.Keeps.{granted}
use parrhesia_backend.Ws.Upgrade.Keeps as Upgrade
use parrhesia_backend.Ws.Connection.{max_participants, drop_pending}
use parrhesia_backend.Ws.Connection.Keeps.{IsUndisturbed, connect-keeps}
use parrhesia_backend.Ws.Connection.Keeps as Connection
use parrhesia_backend.Ws.Connection.Slots.{guard_list, Holding}
use parrhesia_backend.Cleanup.Histories.{IsSettled}
use parrhesia_backend.Requests.{Setting, World}

module _ (g : Setting) (laws : BroadcastLaws g.bus) (Q : List IpAddr → Type 0) where
  -- Memory and table agree, the channels tell who is in each room, and the slots account for these
  -- guards and those of others, which `Q` describes.
  abbrev pub IsSound : List IpAddr → World g → Type 0
  IsSound mine s = IsSettled g.float g.bus laws g.config s × Holding mine Q s.admission

  -- What a task does to the state while others hold guards.
  abbrev pub IsFriendly : (World g → World g) → Type 0
  IsFriendly f = (mine : List IpAddr) (s : World g) → IsSound mine s → IsSound mine (f s)

  pub same_slots :
      (mine : List IpAddr) (s t : World g)
      → t.admission.limits.pending ≡ s.admission.limits.pending
      → t.admission.limits.pending_total ≡ s.admission.limits.pending_total
      → IsSettled g.float g.bus laws g.config t
      → IsSound mine s
      → IsSound mine t
  same_slots mine s t p n k (_, (gs, q, v)) =
      (k, (gs, q, Accounts-same g.float (mine ++ gs) s.admission t.admission p n v))

  checked :
      (mine : List IpAddr) (key : Budget) (now : ℕ) (s : World g)
      → IsSound mine s
      → IsSound mine (record s { admission = (check_at g.float key now s.admission).1 })
  checked mine key now s v =
      let (p, n) = check_at_slots g.float key now s.admission in same_slots mine s _ p n v.0 v

  taken :
      (mine : List IpAddr) (ip : IpAddr) (s : World g)
      → IsSound mine s
      → IsSound
          (granted (pending_auth ip s.admission).0 ++ mine)
          (record s { admission = (pending_auth ip s.admission).1 })
  taken mine ip s (k, (gs, q, v)) = elim (pending_auth_lem ip (mine ++ gs) s.admission v) [
    | inl (_, _, e) ↦ rw e (k, (gs, q, pending_auth_granted ip (mine ++ gs) s.admission v e))
    | inr (_, e, l) ↦ rw e (
        same_slots mine s _ (ap (λ x. x.pending) l) (ap (λ x. x.pending_total) l) k (k, (gs, q, v)))
  ]

  pub dropped :
      (mine : List IpAddr) (pending : Option IpAddr) (s : World g)
      → IsSound (guard_list pending ++ mine) s
      → (t : World g) × (drop_pending pending s ≡ some t) × IsSound mine t
  unfolding drop_pending
  dropped mine none s v = (s, refl, v)
  dropped mine (some ip) s (k, (gs, q, v)) =
      let all = mine ++ gs in
      let (a, e, w) =
        drop_guard_held ip (ip ∷ all) (count ip all) s.admission v (rw (==-refl ip)) in
      (record s { admission = a }, rw (e, drop_pending), (k, (gs, q, rw (==-refl ip) at w)))

  pub creation-IsStable : (mine : List IpAddr) → Creation.IsStable g.float (IsSound mine)
  creation-IsStable mine = record {
    spends = λ ip now s v. checked mine _ now s v;
    quiet = record {
      lacks = λ s v. same_slots mine s _ refl refl v.0 v;
      stores = λ f now id hash s ((b, k), a).
          ((create_room-IsBacked g.bus f now id hash (app_of g.float g.bus s) b, k), a);
    };
  }

  pub authentication-IsStable :
      (mine : List IpAddr) (room_id : String)
      → Authentication.IsStable g.float (IsSound mine) room_id
  authentication-IsStable mine room_id = record {
    spends = λ now s v. checked mine _ now s v;
    fails = λ s v. same_slots mine s _ refl refl v.0 v;
    lacks = λ s v. same_slots mine s _ refl refl v.0 v;
    rejects = λ s v. same_slots mine s _ refl refl v.0 v;
  }

  pub upgrade-IsStable : Upgrade.IsStable g.float IsSound
  upgrade-IsStable = record {
    spends = λ mine ip now s v. checked mine _ now s v;
    rejects = λ mine s v. same_slots mine s _ refl refl v.0 v;
    takes = taken;
  }

  pub connection-IsStable :
      (mine : List IpAddr) (room_id uuid : String)
      → Connection.IsStable g.float g.bus (IsSound mine) room_id uuid
  connection-IsStable mine room_id uuid = record {
    attaches = λ f s ((b, k), a).
        let app = app_of g.float g.bus s in
        (
          (
            attach-IsBacked g.bus f room_id uuid app b,
            attach-Tracked g.bus laws f room_id uuid app k,
          ),
          a,
        );
    joins = λ p s ((b, k), a).
        let app = app_of g.float g.bus s in
        (
          (
            join-IsBacked g.bus room_id uuid p max_participants app b,
            join-Tracked g.bus laws room_id uuid p max_participants app k,
          ),
          a,
        );
    detaches = λ s ((b, k), a).
        let app = app_of g.float g.bus s in
        (
          (detach-IsBacked g.bus room_id uuid app b, detach-Tracked g.bus laws room_id uuid app k),
          a,
        );
    publishes = λ tx e s i r ((b, k), a).
        ((b, relay-Tracked g.bus laws tx e s.rest.rooms s.rest.bus r k), a);
    records = λ f now s ((b, k), a).
        ((update_activity-IsBacked g.bus f now room_id (app_of g.float g.bus s) b, k), a);
  }
