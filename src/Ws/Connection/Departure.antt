-- ===== src/Ws/Connection/Departure.antt =====
-- How a connection of src/routes/ws.rs leaves its room, on every path.
use mathlib.Core.Option
use parrhesia_backend.Common.{
  ℕ, ◌≡◌, ap, sym, Bool, true, false, Option, none, some, List, [], String, string_eq, Bool-cases,
  Option-cases, inl, inr, arith, some_inj, subst,
}
use parrhesia_backend.Net.{IpAddr}
use parrhesia_backend.Float.{Float}
use parrhesia_backend.Broadcast.{Broadcast, BroadcastLaws}
use parrhesia_backend.Admission.{drop_guard}
use parrhesia_backend.Rooms.Events.{RoomEvent}
use parrhesia_backend.Rooms.Laws.{IsTracked}
use parrhesia_backend.Passwords.{Crypto}
use parrhesia_backend.Ws.Session.{Effect, Codec}
use parrhesia_backend.Ws.Auth.{authenticate}
use parrhesia_backend.Ws.Auth.Keeps.{authenticate-keeps}
use parrhesia_backend.Ws.Auth.Keeps
use parrhesia_backend.Server.{Live, State, app_of}
use parrhesia_backend.Ws.Connection.{
  put_first, converse_auth, Visit, drop_pending, connect, handle_socket,
}
use parrhesia_backend.Ws.Connection.Keeps.{IsUndisturbed, connect-keeps}
use parrhesia_backend.Ws.Connection.Membership.{IsGone, IsTold, connection-IsStable, connect-IsGone}

module _ (fl : Float) (bc : Broadcast RoomEvent) where
  pub drop_pending_app :
      (pending : Option IpAddr) (s t : State fl bc)
      → drop_pending pending s ≡ some t
      → app_of fl bc t ≡ app_of fl bc s
  unfolding drop_pending
  drop_pending_app none s t e = ap (app_of fl bc) (some_inj (sym e))
  drop_pending_app (some ip) s t e = elim (Option-cases (drop_guard ip s.admission)) [
    | inl f ↦ absurd (ground (arith, f, e))
    | inr (a, f) ↦ ap (app_of fl bc) (some_inj (sym (rw (f, drop_pending) at e)))
  ]

module _ (fl : Float) (bc : Broadcast RoomEvent) (laws : BroadcastLaws bc) where
  open fl use {F}
  open bc use {Bus, Sender}

  -- The rooms are told by their channels, and no participant of the room has the id.
  abbrev pub IsLeft : String → String → List Effect × State fl bc → Type 0
  IsLeft room_id conn_id (wrote, s) = IsTold fl bc laws s × IsGone room_id conn_id s.rest.rooms

  -- The id is not in use, and the other tasks keep both: they never join under it, and no other task
  -- of theirs breaks the record of the channels.
  pub record IsCivil (room_id : String) (v : Visit F (Live Sender Bus)) : Type 0 where
    pub calm : IsUndisturbed fl bc (IsTold fl bc laws) v
    pub before_told :
        (s : State fl bc) → IsTold fl bc laws s → IsTold fl bc laws (v.attempt.before s)
    pub during_told :
        (s : State fl bc) → IsTold fl bc laws s → IsTold fl bc laws (v.attempt.during s)
    pub before_unused :
        (s : State fl bc)
        → IsGone room_id v.uuid s.rest.rooms
        → IsGone room_id v.uuid (v.attempt.before s).rest.rooms
    pub during_unused :
        (s : State fl bc)
        → IsGone room_id v.uuid s.rest.rooms
        → IsGone room_id v.uuid (v.attempt.during s).rest.rooms
    pub arriving_unused :
        (s : State fl bc)
        → IsGone room_id v.uuid s.rest.rooms
        → IsGone room_id v.uuid (v.arriving s).rest.rooms

module _ (fl : Float) (bc : Broadcast RoomEvent) (laws : BroadcastLaws bc) (codec : Codec)
    (decode : String → Option ℕ) (c : Crypto) (parse : String → Option String) where
  open fl use {F}
  open bc use {Bus, Sender}

  module _ (room_id : String) (v : Visit F (Live Sender Bus))
      (civil : IsCivil fl bc laws room_id v) where
    abbrev IsReady : State fl bc → Type 0
    IsReady s = IsTold fl bc laws s × IsGone room_id v.uuid s.rest.rooms

    IsReady-IsStable : Keeps.IsStable fl IsReady room_id
    IsReady-IsStable = record {
      spends = λ now s h. h;
      fails = λ s h. h;
      lacks = λ s h. h;
      rejects = λ s h. h;
    }

    connect-IsLeft :
        (protected : Bool) (s : State fl bc)
        → IsReady s
        → IsLeft fl bc laws room_id v.uuid (connect fl bc codec decode v protected room_id s)
    connect-IsLeft protected s h = (
      connect-keeps fl bc (IsTold fl bc laws) room_id codec v
          (connection-IsStable fl bc laws room_id v.uuid) civil.calm decode protected s h.0,
      connect-IsGone fl bc laws codec decode v room_id protected s (civil.arriving_unused s h.1),
    )

    after_drop :
        (next : State fl bc → List Effect × State fl bc) (pending : Option IpAddr) (s : State fl bc)
        (r : List Effect × State fl bc)
        → ((t : State fl bc) → IsReady t → IsLeft fl bc laws room_id v.uuid (next t))
        → IsReady s
        → Option.map next (drop_pending pending s) ≡ some r
        → IsLeft fl bc laws room_id v.uuid r
    after_drop next pending s r leaves h e = elim (Option-cases (drop_pending pending s)) [
      | inl f ↦ absurd (ground (arith, rw f at e))
      | inr (t, f) ↦
          let same = drop_pending_app fl bc pending s t f in
          subst (IsLeft fl bc laws room_id v.uuid) (some_inj (rw f at e)) (
            leaves t
              (subst (λ a. IsTracked bc laws a × IsGone room_id v.uuid a.rooms) (sym same) h))
    ]

    -- However a connection ends, each room's channel still tells who is in the room, and no
    -- participant of the connection's room has its random id, which was not in use before. Other
    -- tasks keep the channels' records, and do not join under the id.
    pub handle_socket-IsLeft :
        (found : Option (Option String)) (pending : Option IpAddr) (s : State fl bc)
        (r : List Effect × State fl bc)
        → IsTold fl bc laws s
        → IsGone room_id v.uuid s.rest.rooms
        → handle_socket fl bc codec decode c parse v room_id found pending s ≡ some r
        → IsLeft fl bc laws room_id v.uuid r
    unfolding handle_socket
    handle_socket-IsLeft none pending s r told unused e =
        after_drop (λ t. ([], t)) pending s r (λ t h. h) (told, unused) e
    handle_socket-IsLeft (some none) pending s r told unused e =
        after_drop (connect fl bc codec decode v false room_id) pending s r (connect-IsLeft false)
          (told, unused) e
    handle_socket-IsLeft (some (some stored)) pending s r told unused e =
        elim (Bool-cases (authenticate fl c parse v.attempt room_id stored s).0) [
          | inl f ↦
              after_drop
                (λ t.
                  put_first (converse_auth codec v.attempt _)
                    (connect fl bc codec decode v true room_id t))
                pending _ r (connect-IsLeft true) ready (rw f at e)
          | inr f ↦
              after_drop (λ t. (converse_auth codec v.attempt _, t)) pending _ r (λ t h. h) ready
                (rw f at e)
        ]
      where
        ready : IsReady (authenticate fl c parse v.attempt room_id stored s).2
        ready =
            authenticate-keeps fl IsReady c parse room_id IsReady-IsStable v.attempt
              (λ x h. (civil.during_told x h.0, civil.during_unused x h.1)) stored s
              (civil.before_told s told, civil.before_unused s unused)
