-- ===== src/Ws/Connection/Slots.antt =====
-- The slot of a pending authentication over a whole connection of src/routes/ws.rs.
use mathlib.Core.Option
use parrhesia_backend.Common.{
  ℕ, ◌≡◌, refl, ap, Bool, true, false, Option, none, some, List, [], ◌∷◌, ◌++◌, String, Bool-cases,
  inl, inr, ==-refl,
}
use parrhesia_backend.Net.{IpAddr, ip_eq}
use parrhesia_backend.Float.{Float}
use parrhesia_backend.Broadcast.{Broadcast}
use parrhesia_backend.Server.{Server, Live, State}
use parrhesia_backend.Admission.{Admission, room}
use parrhesia_backend.Admission.Pending.{Accounts, count, drop_guard_held}
use parrhesia_backend.Admission.Guards.{Accounts-same, check_at_slots}
use parrhesia_backend.Rooms.Events.{RoomEvent}
use parrhesia_backend.Passwords.{Crypto}
use parrhesia_backend.Ws.Session.{Effect, Codec}
use parrhesia_backend.Ws.Auth.{authenticate}
use parrhesia_backend.Ws.Auth.Keeps.{authenticate-keeps}
use parrhesia_backend.Ws.Auth.Keeps
use parrhesia_backend.Ws.Connection.{put_first, Visit, drop_pending, connect, handle_socket}
use parrhesia_backend.Ws.Connection.Keeps.{IsStable, IsUndisturbed, connect-keeps}

abbrev pub guard_list : Option IpAddr → List IpAddr
guard_list none = []
guard_list (some ip) = ip ∷ []

-- The slots account for these guards, and for others that `Q` describes.
abbrev pub Holding : {F : Type 0} → List IpAddr → (List IpAddr → Type 0) → Admission F → Type 0
Holding mine Q a = (others : List IpAddr) × Q others × Accounts (mine ++ others) a

module _ (fl : Float) (Q : List IpAddr → Type 0) where
  open fl use {F}

  Holding-same :
      (mine : List IpAddr) (a b : Admission F)
      → b.limits.pending ≡ a.limits.pending
      → b.limits.pending_total ≡ a.limits.pending_total
      → Holding mine Q a
      → Holding mine Q b
  Holding-same mine a b p t (gs, q, v) = (gs, q, Accounts-same fl (mine ++ gs) a b p t v)

  drop_pending-Holding :
      {X : Type 0} (pending : Option IpAddr) (s : Server F X)
      → Holding (guard_list pending) Q s.admission
      → (t : Server F X) × (drop_pending pending s ≡ some t) × Holding [] Q t.admission
  unfolding drop_pending
  drop_pending-Holding none s h = (s, refl, h)
  drop_pending-Holding (some ip) s (gs, q, v) =
      let (a, e, w) = drop_guard_held ip (ip ∷ gs) (count ip gs) s.admission v (rw (==-refl ip)) in
      (record s { admission = a }, rw (e, drop_pending), (gs, q, rw (==-refl ip) at w))

  authenticate-IsStable :
      {X : Type 0} (mine : List IpAddr) (room_id : String)
      → Keeps.IsStable {X = X} fl (λ s. Holding mine Q s.admission) room_id
  authenticate-IsStable mine room_id = record {
    spends = λ now s h.
        let (p, t) = check_at_slots fl (room room_id) now s.admission in
        Holding-same mine s.admission _ p t h;
    fails = λ s h. Holding-same mine s.admission _ refl refl h;
    lacks = λ s h. Holding-same mine s.admission _ refl refl h;
    rejects = λ s h. Holding-same mine s.admission _ refl refl h;
  }

  module _ (bc : Broadcast RoomEvent) where
    connection-IsStable :
        (room_id uuid : String) → IsStable fl bc (λ s. Holding [] Q s.admission) room_id uuid
    connection-IsStable room_id uuid = record {
      attaches = λ f s h. h;
      joins = λ p s h. h;
      detaches = λ s h. h;
      publishes = λ tx e s i r h. h;
      records = λ f now s h. h;
    }

module _ (fl : Float) (bc : Broadcast RoomEvent) (Q : List IpAddr → Type 0) where
  -- The connection returns, and leaves the slots to the guards of others.
  abbrev pub IsReturned : Option (List Effect × State fl bc) → Type 0
  IsReturned o =
      (wrote : List Effect) × (t : State fl bc) × (o ≡ some (wrote, t)) × Holding [] Q t.admission

module _ (fl : Float) (bc : Broadcast RoomEvent) (codec : Codec) (decode : String → Option ℕ)
    (c : Crypto) (parse : String → Option String) (Q : List IpAddr → Type 0) where
  open fl use {F}
  open bc use {Bus, Sender}

  connect-IsReturned :
      (v : Visit F (Live Sender Bus)) (protected : Bool) (room_id : String)
      (pending : Option IpAddr) (s : State fl bc)
      → Holding (guard_list pending) Q s.admission
      → IsUndisturbed fl bc (λ x. Holding [] Q x.admission) v
      → (first : List Effect)
      → IsReturned fl bc Q (
          Option.map
            (λ t. put_first first (connect fl bc codec decode v protected room_id t))
            (drop_pending pending s))
  connect-IsReturned v protected room_id pending s h calm first =
      let (t, e, k) = drop_pending-Holding fl Q pending s h in
      let r = connect fl bc codec decode v protected room_id t in
      (
        first ++ r.0,
        r.1,
        ap (Option.map (λ x. put_first first (connect fl bc codec decode v protected room_id x))) e,
        connect-keeps fl bc (λ x. Holding [] Q x.admission) room_id codec v
            (connection-IsStable fl Q bc room_id v.uuid) calm decode protected t k,
      )

  return-IsReturned :
      (pending : Option IpAddr) (s : State fl bc)
      → Holding (guard_list pending) Q s.admission
      → (wrote : List Effect)
      → IsReturned fl bc Q (Option.map (λ t. (wrote, t)) (drop_pending pending s))
  return-IsReturned pending s h wrote =
      let (t, e, k) = drop_pending-Holding fl Q pending s h in
      (wrote, t, ap (Option.map (λ x. (wrote, x))) e, k)

  -- A connection that holds the guard of a pending authentication, or none, always returns: on no
  -- path does the drop of the guard panic, and at its end the slots account for the guards of others
  -- alone. `Q` is what the other tasks keep of their guards; they leave the one of the connection
  -- alone while it lives.
  pub handle_socket-IsReturned :
      (v : Visit F (Live Sender Bus)) (room_id : String) (found : Option (Option String))
      (pending : Option IpAddr) (s : State fl bc)
      → Holding (guard_list pending) Q s.admission
      → ((x : State fl bc)
          → Holding (guard_list pending) Q x.admission
          → Holding (guard_list pending) Q (v.attempt.before x).admission)
      → ((x : State fl bc)
          → Holding (guard_list pending) Q x.admission
          → Holding (guard_list pending) Q (v.attempt.during x).admission)
      → IsUndisturbed fl bc (λ x. Holding [] Q x.admission) v
      → IsReturned fl bc Q (handle_socket fl bc codec decode c parse v room_id found pending s)
  unfolding handle_socket
  handle_socket-IsReturned v room_id none pending s h before during calm =
      return-IsReturned pending s h []
  handle_socket-IsReturned v room_id (some none) pending s h before during calm =
      connect-IsReturned v false room_id pending s h calm []
  handle_socket-IsReturned v room_id (some (some stored)) pending s h before during calm =
      elim (Bool-cases (authenticate fl c parse v.attempt room_id stored s).0) [
        | inl e ↦ rw e (connect-IsReturned v true room_id pending _ held calm _)
        | inr e ↦ rw e (return-IsReturned pending _ held _)
      ]
    where
      held :
          Holding
            (guard_list pending)
            Q
            (authenticate fl c parse v.attempt room_id stored s).2.admission
      held =
          authenticate-keeps fl (λ x. Holding (guard_list pending) Q x.admission) c parse room_id
            (authenticate-IsStable fl Q (guard_list pending) room_id) v.attempt during stored s
            (before s h)
