-- ===== src/Ws/Session/Relay.antt =====
-- Who the events of a connection are from and who they reach, in src/routes/ws.rs.
use parrhesia_backend.Common.{
  ◌≡◌, refl, Bool, true, ◌||◌, not, none, some, List, [], ◌∷◌, String, All, All-append,
  if◌then◌else◌, Bool-cases, inl, inr, ℕ, ◌&&◌, ◌-◌, ltb, Option-cases,
}
use parrhesia_backend.Float.{Float}
use parrhesia_backend.Rooms.Events.{RoomEvent, sender, target}
use parrhesia_backend.Rooms.Replay.{is_relay}
use parrhesia_backend.Ws.Messages.{
  IncomingMessage, key_announce, message, commit, welcome_to, is_typing, unknown, from_event,
}
use parrhesia_backend.Ws.RateLimiter.{check}
use parrhesia_backend.Ws.Session.{
  pong_timeout, Session, Frame, text, pong, ping, close, transport_error, ended, binary, Input,
  ticked, received, framed, Effect, published, Codec, relay, is_for, is_own, is_expiry, forward,
  on_tick, on_event, relay_text, on_frame, round, run,
}

-- A published event names the connection as its sender, and tells of no membership.
abbrev pub IsAuthentic : String → Effect → Type 0
IsAuthentic conn_id (published e) = (sender e ≡ some conn_id) × (is_relay e ≡ true)
IsAuthentic conn_id _ = Unit

relay-Authentic :
    (conn_id : String) (m : IncomingMessage) → All (IsAuthentic conn_id) (relay conn_id m)
unfolding relay sender
relay-Authentic conn_id (message (some _) _ _) = (tt, ((refl, refl), tt))
relay-Authentic conn_id (message none _ _) = tt
relay-Authentic conn_id (commit (some _)) = ((refl, refl), tt)
relay-Authentic conn_id (commit none) = tt
relay-Authentic conn_id (welcome_to (some _) (some _)) = ((refl, refl), tt)
relay-Authentic conn_id (welcome_to (some _) none) = tt
relay-Authentic conn_id (welcome_to none _) = tt
relay-Authentic conn_id is_typing = ((refl, refl), tt)
relay-Authentic conn_id (key_announce _ _ _) = tt
relay-Authentic conn_id unknown = tt

module _ (fl : Float) (codec : Codec) (conn_id : String) where
  open fl use {F}

  relay_text-Authentic :
      (json : String) → All (IsAuthentic conn_id) (relay_text fl codec conn_id json)
  relay_text-Authentic json = elim (Option-cases (codec.parse json)) [
    | inl e ↦ rw (e, All) tt
    | inr (m, e) ↦ rw (e, All) (relay-Authentic conn_id m)
  ]

  forward-Authentic :
      (alive : Bool) (e : RoomEvent) → All (IsAuthentic conn_id) (forward codec alive e).0
  unfolding forward
  forward-Authentic alive e = elim (Option-cases (codec.render (from_event e))) [
    | inl h ↦ elim (Bool-cases (is_expiry e)) [
      | inl k ↦ rw (h, k, All) (tt, tt)
      | inr k ↦ rw (h, k, All) tt
    ]
    | inr (json, h) ↦ elim (Bool-cases alive) [
      | inl j ↦ elim (Bool-cases (is_expiry e)) [
        | inl k ↦ rw (h, j, k, All) (tt, (tt, tt))
        | inr k ↦ rw (h, j, k, All) (tt, tt)
      ]
      | inr j ↦ rw (h, j, All) (tt, tt)
    ]
  ]

  on_tick-Authentic :
      (alive : Bool) (now : ℕ) (s : Session F)
      → All (IsAuthentic conn_id) (on_tick fl codec conn_id alive now s).1
  unfolding on_tick
  on_tick-Authentic alive now s =
      elim (Bool-cases (s.waiting_for_pong && ltb pong_timeout (now - s.last_pong))) [
        | inl e ↦ rw e tt
        | inr e ↦ elim (Bool-cases alive) [
          | inl k ↦ rw (e, k) (tt, tt)
          | inr k ↦ rw (e, k) (tt, tt)
        ]
      ]

  on_event-Authentic :
      (alive : Bool) (e : RoomEvent) (s : Session F)
      → All (IsAuthentic conn_id) (on_event fl codec conn_id alive e s).1
  unfolding on_event
  on_event-Authentic alive e s =
      elim (Bool-cases (is_own conn_id (sender e) || not (is_for conn_id (target e)))) [
        | inl h ↦ rw h tt
        | inr h ↦ rw h (forward-Authentic alive e)
      ]

  on_frame-Authentic :
      (alive : Bool) (now : ℕ) (f : Frame) (s : Session F)
      → All (IsAuthentic conn_id) (on_frame fl codec conn_id alive now f s).1
  unfolding on_frame
  on_frame-Authentic alive now (text json) s = elim (Bool-cases (check fl now s.rate_limiter).0) [
    | inl h ↦ rw h (relay_text-Authentic json)
    | inr h ↦ rw h tt
  ]
  on_frame-Authentic alive now pong s = tt
  on_frame-Authentic alive now (ping _) s = (tt, tt)
  on_frame-Authentic alive now close s = tt
  on_frame-Authentic alive now transport_error s = tt
  on_frame-Authentic alive now ended s = tt
  on_frame-Authentic alive now binary s = tt

  pub round-Authentic :
      (alive : Bool) (i : Input) (s : Session F)
      → All (IsAuthentic conn_id) (round fl codec conn_id alive i s).1
  unfolding round
  round-Authentic alive (ticked now) s = on_tick-Authentic alive now s
  round-Authentic alive (received none) s = tt
  round-Authentic alive (received (some e)) s = on_event-Authentic alive e s
  round-Authentic alive (framed now f) s = on_frame-Authentic alive now f s

  -- Whatever a client sends and whatever it is sent, each event that its connection publishes names
  -- that connection as its sender, and none of them tells of a membership.
  pub run-Authentic :
      (is : List (Bool × Input)) (s : Session F)
      → All (IsAuthentic conn_id) (run fl codec conn_id is s)
  unfolding run
  run-Authentic [] s = tt
  run-Authentic ((alive, i) ∷ is) s =
      let r = round fl codec conn_id alive i s in
      All-append (IsAuthentic conn_id) r.1 (if r.2 then run fl codec conn_id is r.0 else [])
        (round-Authentic alive i s)
        (elim (Bool-cases r.2) [ inl e ↦ rw e (run-Authentic is r.0) | inr e ↦ rw e tt ])
