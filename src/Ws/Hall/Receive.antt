-- ===== src/Ws/Hall/Receive.antt =====
-- A round of src/routes/ws.rs in which a connection receives an event, and its client takes it.
use parrhesia_backend.Common.{
  drop, length, ltb, ℕ, suc, ◌≤◌, ◌≡◌, refl, ap, ◌∙◌, true, false, ◌||◌, not, none, some, List, [],
  ◌∷◌, ◌++◌, map, String, string_eq, arith, Bool-cases, Option-cases, inl, inr, ◌⊎◌, ==-refl,
}
use mathlib.Core.List.{append-nil}
use parrhesia_backend.Common.Int.{pos}
use parrhesia_backend.Common.Dict.{get, get-insert}
use parrhesia_backend.Float.{Float}
use parrhesia_backend.Broadcast.{Broadcast, BroadcastLaws}
use parrhesia_backend.Server.{State}
use parrhesia_backend.Rooms.Events.{RoomEvent, sender, target}
use parrhesia_backend.Ws.Messages.{from_event}
use parrhesia_backend.Ws.Session.{
  Session, received, Effect, sent_text, Codec, is_for, is_own, is_expiry, forward, on_event, round,
}
use parrhesia_backend.Ws.Connection.{perform}
use parrhesia_backend.Ws.Turns.{
  Connection, looping, Action, picks, works, gets, start_round, work, act,
}
use parrhesia_backend.Ws.Hall.{Move, acts, Hall, step, run}
use parrhesia_backend.Ws.Turns.Texts.{owed}

abbrev pub IsNoExpiry : RoomEvent → Type 0
IsNoExpiry e = is_expiry e ≡ false

-- The client takes an event, if there is one.
abbrev pub receive : String → List Move
receive id = acts id (picks true gets) ∷ acts id (works none (pos 0)) ∷ []

owed_cases :
    (codec : Codec) (id : String) (e : RoomEvent)
    → (owed codec id e ≡ []) ⊎ ((json : String) × (owed codec id e ≡ json ∷ []))
owed_cases codec id e = elim (Bool-cases (is_own id (sender e) || not (is_for id (target e)))) [
  | inl k ↦ inl (rw k refl)
  | inr k ↦ elim (Option-cases (codec.render (from_event e))) [
    | inl r ↦ inl (rw (k, r) refl)
    | inr (json, r) ↦ inr (json, rw (k, r) refl)
  ]
]

module _ (fl : Float) (codec : Codec) (id : String) where
  open fl use {F}

  abbrev pub written : RoomEvent → List Effect
  written e = map sent_text (owed codec id e)

  forward_lem :
      (e : RoomEvent)
      → IsNoExpiry e
      → forward codec true e ≡ (
        map sent_text (elim (codec.render (from_event e)) [ none ↦ [] | some json ↦ json ∷ [] ]),
        true,
      )
  unfolding forward
  forward_lem e h = elim (Option-cases (codec.render (from_event e))) [
    | inl k ↦ ground (arith, k, h)
    | inr (json, k) ↦ ground (arith, k, h)
  ]

  round_received :
      (e : RoomEvent) (s : Session F)
      → IsNoExpiry e
      → round fl codec id true (received (some e)) s ≡ (s, written e, true)
  unfolding round on_event
  round_received e s h = elim (Bool-cases (is_own id (sender e) || not (is_for id (target e)))) [
    | inl k ↦ rw k refl
    | inr k ↦ rw (k, forward_lem e h) refl
  ]

module _ (fl : Float) (bc : Broadcast RoomEvent) (laws : BroadcastLaws bc) (codec : Codec) where
  open fl use {F}
  open bc use {Bus, Sender, Receiver}
  open laws use {sent, source, from, capacity}

  -- A connection in its loop, between two rounds.
  abbrev pub resting :
      String → Sender → Receiver → ℕ → Session F → List Effect → Connection F Sender Receiver
  resting room_id tx receiver next session done = record {
    room_id = room_id;
    tx = tx;
    phase = looping;
    loop =
        some
          (record { receiver = receiver; next = next; session = session; todo = []; done = done });
  }

  -- What a step of a connection leaves under its id.
  acted :
      (h : Hall fl bc laws codec) (id : String) (a : Action) (c : Connection F Sender Receiver)
      → get id h.connections ≡ some c
      → let t = act fl bc laws codec id a c h.state in
        let h' = step fl bc laws codec h (acts id a) in
        (get id h'.connections ≡ some t.0) × (h'.state ≡ t.1)
  unfolding step
  acted h id a c g =
      let t = act fl bc laws codec id a c h.state in
      rw (g, step) (rw (get-insert id id t.0 h.connections, ==-refl id) refl, refl)

  module _ (id room_id : String) (tx : Sender) (receiver : Receiver) (session : Session F) where
    abbrev pub at : ℕ → List Effect → Connection F Sender Receiver
    at next done = resting room_id tx receiver next session done

    -- In the round for an event.
    abbrev busy : ℕ → List Effect → List Effect → Connection F Sender Receiver
    busy next done todo = record (at next done) {
      loop = some (record {
        receiver = receiver;
        next = next;
        session = session;
        todo = todo;
        done = done;
      });
    }

    picked :
        (next : ℕ) (done : List Effect) (e : RoomEvent) (es : List RoomEvent) (s : State fl bc)
        → drop next (sent (source receiver) s.rest.bus) ≡ e ∷ es
        → length (e ∷ es) ≤ capacity (source receiver) s.rest.bus
        → IsNoExpiry e
        → start_round fl bc laws codec id true gets (at next done) s
          ≡ busy (suc next) done (written fl codec id e)
    unfolding start_round
    picked next done e es s p r n =
        rw
          (
            p,
            fits (length es) (capacity (source receiver) s.rest.bus) r,
            round_received fl codec id e session n,
          )
          refl
      where
        fits : (m k : ℕ) → suc m ≤ k → ltb k (suc m) ≡ false
        fits m k h = ground arith

    worked :
        (next : ℕ) (done : List Effect) (e : RoomEvent) (s : State fl bc)
        → work fl bc laws codec none (pos 0) (busy next done (written fl codec id e)) s
          ≡ (at next (done ++ written fl codec id e), s)
    unfolding work perform
    worked next done e s = elim (owed_cases codec id e) [
      | inl k ↦ rw (k, append-nil done) refl
      | inr (json, k) ↦ rw k refl
    ]

    pub receive_lem :
        (h : Hall fl bc laws codec) (next : ℕ) (done : List Effect) (e : RoomEvent)
        (es : List RoomEvent)
        → get id h.connections ≡ some (at next done)
        → drop next (sent (source receiver) h.state.rest.bus) ≡ e ∷ es
        → length (e ∷ es) ≤ capacity (source receiver) h.state.rest.bus
        → IsNoExpiry e
        → let h' = run fl bc laws codec h (receive id) in
          (get id h'.connections ≡ some (at (suc next) (done ++ written fl codec id e)))
          × (h'.state ≡ h.state)
    unfolding run act
    receive_lem h next done e es g p r n =
        let (k, q) = acted h id (picks true gets) (at next done) g in
        let mid = step fl bc laws codec h (acts id (picks true gets)) in
        let c = busy (suc next) done (written fl codec id e) in
        let (w, u) =
          acted mid id (works none (pos 0)) c (k ∙ ap some (picked next done e es h.state p r n)) in
        let v = worked (suc next) done e mid.state in
        (w ∙ ap (λ t. some t.0) v, u ∙ ap (λ t. t.1) v ∙ q)
