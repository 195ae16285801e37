-- ===== src/Ws/Connection/Locked.antt =====
-- What `handle_socket` of src/routes/ws.rs does for a client that does not prove the password.
use mathlib.Core.Option
use parrhesia_backend.Common.{
  ℕ, ◌≡◌, true, refl, ap, sym, ◌∙◌, ◌⊎◌, Option, some, List, String, Bool-cases, Option-cases, inl,
  inr, arith, some_inj, subst,
}
use parrhesia_backend.Net.{IpAddr}
use parrhesia_backend.Float.{Float}
use parrhesia_backend.Broadcast.{Broadcast}
use parrhesia_backend.Rooms.Events.{RoomEvent}
use parrhesia_backend.Passwords.{Crypto}
use parrhesia_backend.Ws.Session.{Effect, Codec}
use parrhesia_backend.Ws.Auth.{authenticate}
use parrhesia_backend.Ws.Auth.Laws.{IsProven, authenticate-IsProven}
use parrhesia_backend.Ws.Auth.Keeps.{authenticate-keeps}
use parrhesia_backend.Server.{Live, State}
use parrhesia_backend.Ws.Messages.{OutgoingMessage}
use parrhesia_backend.Ws.Auth.Refusals.{is_refusal, authenticate-IsToldOff}
use parrhesia_backend.Ws.Connection.{converse_auth, Visit, drop_pending, handle_socket}
use parrhesia_backend.Ws.Connection.Departure.{drop_pending_app}

module _ (fl : Float) (bc : Broadcast RoomEvent) (codec : Codec) (decode : String → Option ℕ)
    (c : Crypto) (parse : String → Option String) where
  open fl use {F}
  open bc use {Bus, Sender}

  turned_away :
      (Q : Live Sender Bus → Type 0) (pending : Option IpAddr) (s : State fl bc)
      (wrote : List Effect) (r : List Effect × State fl bc)
      → Option.map (λ t. (wrote, t)) (drop_pending pending s) ≡ some r
      → Q s.rest
      → (r.0 ≡ wrote) × Q r.1.rest
  turned_away Q pending s wrote r e q = elim (Option-cases (drop_pending pending s)) [
    | inl f ↦ absurd (ground (arith, rw f at e))
    | inr (t, f) ↦
        let same = drop_pending_app fl bc pending s t f in
        subst (λ (x : List Effect × State fl bc). (x.0 ≡ wrote) × Q x.1.rest) (some_inj (rw f at e))
          (refl, subst Q (sym (ap (λ a. record { rooms = a.rooms; bus = a.bus }) same)) q)
  ]

  -- In a room with a password, a connection whose client does not prove the password writes only
  -- what the authentication does, the question, the answers to pings and a message of its failure,
  -- and nothing of the room, and has no part in what becomes of the rooms and their channels:
  -- whatever the other tasks keep of these until the authentication has ended holds when the
  -- connection ends.
  pub handle_socket-IsLocked :
      (Q : Live Sender Bus → Type 0) (v : Visit F (Live Sender Bus)) (room_id stored : String)
      (pending : Option IpAddr) (s : State fl bc) (r : List Effect × State fl bc)
      → ((x : State fl bc) → Q x.rest → Q (v.attempt.before x).rest)
      → ((x : State fl bc) → Q x.rest → Q (v.attempt.during x).rest)
      → Q s.rest
      → handle_socket fl bc codec decode c parse v room_id (some (some stored)) pending s ≡ some r
      → IsProven fl c parse v.attempt room_id stored s
        ⊎ ((failure : OutgoingMessage) × (is_refusal failure ≡ true)
            × (r.0 ≡ converse_auth codec v.attempt (some failure))
            × Q r.1.rest)
  unfolding handle_socket
  handle_socket-IsLocked Q v room_id stored pending s r before during q e =
      elim (Bool-cases (authenticate fl c parse v.attempt room_id stored s).0) [
        | inl f ↦ inl ((authenticate-IsProven fl c parse v.attempt room_id stored s).0 f)
        | inr f ↦
            let (failure, told, is) =
              authenticate-IsToldOff fl c parse v.attempt room_id stored s f in
            let (wrote, q) = turned_away Q pending _ _ r (rw f at e) kept in
            inr (failure, is, wrote ∙ ap (converse_auth codec v.attempt) told, q)
      ]
    where
      kept : Q (authenticate fl c parse v.attempt room_id stored s).2.rest
      kept =
          authenticate-keeps fl (λ x. Q x.rest) c parse room_id
            (record {
              spends = λ now x h. h;
              fails = λ x h. h;
              lacks = λ x h. h;
              rejects = λ x h. h;
            })
            v.attempt during stored s (before s q)
