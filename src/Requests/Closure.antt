-- ===== src/Requests/Closure.antt =====
-- Requests of src/lib.rs that other requests interrupt.
use mathlib.Core.Option
use parrhesia_backend.Common.{
  ◌≡◌, refl, ap, Bool, true, false, Option, none, some, List, [], ◌++◌, String, All, All-imp, inl,
  inr, Bool-cases,
}
use parrhesia_backend.Net.{IpAddr}
use parrhesia_backend.Broadcast.{BroadcastLaws}
use parrhesia_backend.RoomRoutes.Keeps.{create_room-keeps}
use parrhesia_backend.Ws.Auth.{authenticate}
use parrhesia_backend.Ws.Auth.Keeps.{authenticate-keeps}
use parrhesia_backend.Ws.Upgrade.{Handover, refused, upgraded}
use parrhesia_backend.Ws.Upgrade.Laws.{guard_of}
use parrhesia_backend.Ws.Upgrade.Keeps.{ws_handler-Handed}
use parrhesia_backend.Ws.Connection.{Visit, drop_pending, connect, handle_socket}
use parrhesia_backend.Ws.Connection.Keeps.{connect-keeps}
use parrhesia_backend.Ws.Connection.Slots.{guard_list}
use parrhesia_backend.Requests.{
  Request, creates, looks_up, visits, health, responded, switched, healthy, Setting, World, F, X,
  attend, handle,
}
use parrhesia_backend.Requests.Friendly.{
  IsSound, IsFriendly, dropped, creation-IsStable, authentication-IsStable, upgrade-IsStable,
  connection-IsStable,
}

module _ (g : Setting) (laws : BroadcastLaws g.bus) (Q : List IpAddr → Type 0) where
  -- What others do at every point at which a connection waits.
  pub record IsPolite (v : Visit (F g) (X g)) : Type 0 where
    pub before : IsFriendly g laws Q v.attempt.before
    pub during : IsFriendly g laws Q v.attempt.during
    pub arriving : IsFriendly g laws Q v.arriving
    pub joining : IsFriendly g laws Q v.joining
    pub leaving : IsFriendly g laws Q v.leaving
    pub looping : All (λ b. IsFriendly g laws Q b.others × IsFriendly g laws Q b.recording) v.beats

  abbrev pub IsPoliteVisit : Option (Visit (F g) (X g)) → Type 0
  IsPoliteVisit none = Unit
  IsPoliteVisit (some v) = IsPolite v

  -- What others do at every point at which a request waits.
  abbrev pub IsMet : Request (F g) (X g) → Type 0
  IsMet (creates m _ _ _) = IsFriendly g laws Q m.others
  IsMet (looks_up _ _) = Unit
  IsMet (visits m _ _ _ others visit) =
      IsFriendly g laws Q m.others × IsFriendly g laws Q others × IsPoliteVisit visit
  IsMet health = Unit

  -- There is a result, and it is sound for the guards.
  abbrev pub Served : {A : Type 0} → List IpAddr → Option (A × World g) → Type 0
  Served {A} mine o = (a : A) × (t : World g) × (o ≡ some (a, t)) × IsSound g laws Q mine t

  map-Served :
      {A B : Type 0} (f : A → B) (mine : List IpAddr) (o : Option (A × World g))
      → Served mine o
      → Served mine (Option.map (λ (a, t). (f a, t)) o)
  map-Served f mine o (a, t, e, v) = (f a, t, ap (Option.map (λ (x, y). (f x, y))) e, v)

  -- What follows the drop of the guard.
  drop-Served :
      {A : Type 0} (next : World g → A × World g) (mine : List IpAddr) (pending : Option IpAddr)
      (s : World g)
      → ((t : World g) → IsSound g laws Q mine t → IsSound g laws Q mine (next t).1)
      → IsSound g laws Q (guard_list pending ++ mine) s
      → Served mine (Option.map next (drop_pending pending s))
  drop-Served next mine pending s keeps v =
      let (t, e, w) = dropped g laws Q mine pending s v in
      ((next t).0, (next t).1, ap (Option.map next) e, keeps t w)

  connect-IsSound :
      (mine : List IpAddr) (v : Visit (F g) (X g)) (protected : Bool) (room_id : String)
      (s : World g)
      → IsPolite v
      → IsSound g laws Q mine s
      → IsSound g laws Q mine (connect g.float g.bus g.codec g.key_length v protected room_id s).1
  connect-IsSound mine v protected room_id s p h =
      connect-keeps g.float g.bus (IsSound g laws Q mine) room_id g.codec v
        (connection-IsStable g laws Q mine room_id v.uuid)
        (record {
          arriving = p.arriving mine;
          joining = p.joining mine;
          leaving = p.leaving mine;
          looping = All-imp _ _ v.beats (λ b q. (q.0 mine, q.1 mine)) p.looping;
        })
        g.key_length protected s h

  handle_socket-Served :
      (mine : List IpAddr) (v : Visit (F g) (X g)) (room_id : String)
      (found : Option (Option String)) (pending : Option IpAddr) (s : World g)
      → IsPolite v
      → IsSound g laws Q (guard_list pending ++ mine) s
      → Served mine (
          handle_socket g.float g.bus g.codec g.key_length g.crypto g.read_password v room_id found
            pending s)
  unfolding handle_socket
  handle_socket-Served mine v room_id none pending s p h =
      drop-Served (λ t. ([], t)) mine pending s (λ t k. k) h
  handle_socket-Served mine v room_id (some none) pending s p h =
      drop-Served _ mine pending s (λ t k. connect-IsSound mine v false room_id t p k) h
  handle_socket-Served mine v room_id (some (some stored)) pending s p h =
      elim (Bool-cases
        (authenticate g.float g.crypto g.read_password v.attempt room_id stored s).0) [
          | inl e ↦
              rw e (
                drop-Served _ mine pending _ (λ t k. connect-IsSound mine v true room_id t p k)
                  held)
          | inr e ↦ rw e (drop-Served _ mine pending _ (λ t k. k) held)
        ]
    where
      held :
          IsSound g laws Q
            (guard_list pending ++ mine)
            (authenticate g.float g.crypto g.read_password v.attempt room_id stored s).2
      held =
          let all = guard_list pending ++ mine in
          authenticate-keeps g.float (IsSound g laws Q all) g.crypto g.read_password room_id
            (authentication-IsStable g laws Q all room_id) v.attempt (p.during all) stored s
            (p.before all s h)

  guarded :
      (mine : List IpAddr) (room_id : String) (found : Option (Option String))
      (pending : Option IpAddr)
      → guard_of (upgraded room_id found pending) ++ mine ≡ guard_list pending ++ mine
  guarded mine room_id found none = refl
  guarded mine room_id found (some ip) = refl

  attend-Served :
      (mine : List IpAddr) (others : World g → World g) (visit : Option (Visit (F g) (X g)))
      (h : Handover) (s : World g)
      → IsFriendly g laws Q others
      → IsPoliteVisit visit
      → IsSound g laws Q (guard_of h ++ mine) s
      → Served mine (attend g others visit h s)
  unfolding attend
  attend-Served mine others visit (refused response) s f p v = (responded response, s, refl, v)
  attend-Served mine others none (upgraded room_id found pending) s f p v =
      drop-Served (λ t. (switched [], t)) mine pending (others s) (λ t k. k)
        (f _ s (rw (guarded mine room_id found pending) at v))
  attend-Served mine others (some visit) (upgraded room_id found pending) s f p v =
      map-Served switched mine _ (
        handle_socket-Served mine visit room_id found pending (others s) p
          (f _ s (rw (guarded mine room_id found pending) at v)))

  -- A request that others interrupt wherever it waits, each of them keeping the state sound for
  -- whatever guards are alive, never panics, and keeps the state sound itself: the rooms in memory are
  -- rooms of the table, the channels tell who is in them, and the slots account for the guards alive;
  -- it leaves none behind, where `Q` holds of those of others.
  pub handle-Served :
      (r : Request (F g) (X g)) (mine : List IpAddr) (s : World g)
      → IsMet r
      → IsSound g laws Q mine s
      → Served mine (handle g r s)
  unfolding handle
  handle-Served (creates m peer headers body) mine s f v = (
    responded _,
    _,
    refl,
    create_room-keeps g.float (IsSound g laws Q mine) (creation-IsStable g laws Q mine) m (f mine)
        g.crypto g.read_ip g.read_request g.common_passwords g.config peer headers body s v,
  )
  handle-Served (looks_up f room_id) mine s p v = (responded _, s, refl, v)
  handle-Served (visits m room_id peer headers others visit) mine s (f, o, p) v =
      attend-Served mine others visit _ _ o p (
        ws_handler-Handed g.float (IsSound g laws Q) (upgrade-IsStable g laws Q) mine g.read_ip
          g.config m (f mine) room_id peer headers s v)
  handle-Served health mine s p v = (healthy, s, refl, v)
