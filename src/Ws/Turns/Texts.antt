-- ===== src/Ws/Turns/Texts.antt =====
-- What a connection of src/routes/ws.rs writes of the events of its room.
use parrhesia_backend.Common.{
  ℕ, ◌-◌, ◌≡◌, refl, sym, ap, ◌∙◌, Bool, ◌||◌, ◌&&◌, not, none, some, List, [], ◌∷◌, ◌++◌, String,
  string_eq, if◌then◌else◌, Bool-cases, Option-cases, inl, inr, ltb,
}
use mathlib.Core.List.{append_assoc}
use parrhesia_backend.Float.{Float}
use parrhesia_backend.Rooms.Events.{RoomEvent, sender, target}
use parrhesia_backend.Ws.Messages.{
  IncomingMessage, key_announce, message, commit, welcome_to, is_typing, unknown, from_event,
}
use parrhesia_backend.Ws.RateLimiter.{check}
use parrhesia_backend.Ws.Session.{
  pong_timeout, Session, Frame, text, pong, ping, close, transport_error, ended, binary, Input,
  ticked, received, framed, Effect, sent_text, sent_ping, sent_pong, closed, touched, published,
  Codec, relay, relay_text, is_for, is_own, is_expiry, forward, on_tick, on_event, on_frame, round,
}

-- The texts among the effects.
abbrev pub texts : List Effect → List String
texts [] = []
texts (sent_text json ∷ xs) = json ∷ texts xs
texts (_ ∷ xs) = texts xs

pub texts-append : (xs ys : List Effect) → texts (xs ++ ys) ≡ texts xs ++ texts ys
texts-append [] ys = refl
texts-append (sent_text json ∷ xs) ys = ap (λ l. json ∷ l) (texts-append xs ys)
texts-append (sent_ping ∷ xs) ys = texts-append xs ys
texts-append (sent_pong _ ∷ xs) ys = texts-append xs ys
texts-append (closed ∷ xs) ys = texts-append xs ys
texts-append (touched ∷ xs) ys = texts-append xs ys
texts-append (published _ ∷ xs) ys = texts-append xs ys

-- The text that a connection owes its client for an event: none for its own, for one that names
-- another target, and for one without a text.
abbrev pub owed : Codec → String → RoomEvent → List String
owed codec id e =
    if is_own id (sender e) || not (is_for id (target e))
    then []
    else elim (codec.render (from_event e)) [ none ↦ [] | some json ↦ json ∷ [] ]

-- The texts for a list of events, in their order.
abbrev pub due : Codec → String → List RoomEvent → List String
due codec id [] = []
due codec id (e ∷ es) = owed codec id e ++ due codec id es

pub due-append :
    (codec : Codec) (id : String) (xs ys : List RoomEvent)
    → due codec id (xs ++ ys) ≡ due codec id xs ++ due codec id ys
due-append codec id [] ys = refl
due-append codec id (e ∷ xs) ys =
    ap (λ l. owed codec id e ++ l) (due-append codec id xs ys)
    ∙ sym (append_assoc (owed codec id e) (due codec id xs) (due codec id ys))

relay-textless : (id : String) (m : IncomingMessage) → texts (relay id m) ≡ []
unfolding relay
relay-textless id (message (some _) _ _) = refl
relay-textless id (message none _ _) = refl
relay-textless id (commit (some _)) = refl
relay-textless id (commit none) = refl
relay-textless id (welcome_to (some _) (some _)) = refl
relay-textless id (welcome_to (some _) none) = refl
relay-textless id (welcome_to none _) = refl
relay-textless id is_typing = refl
relay-textless id (key_announce _ _ _) = refl
relay-textless id unknown = refl

-- What an input owes the client.
abbrev pub of_input : Codec → String → Input → List String
of_input codec id (received (some e)) = owed codec id e
of_input codec id _ = []

module _ (fl : Float) (codec : Codec) (id : String) where
  open fl use {F}

  relay_text-textless : (json : String) → texts (relay_text fl codec id json) ≡ []
  relay_text-textless json = elim (Option-cases (codec.parse json)) [
    | inl e ↦ rw (e, texts) refl
    | inr (m, e) ↦ rw (e, texts) (relay-textless id m)
  ]

  forward-texts :
      (alive : Bool) (e : RoomEvent)
      → texts (forward codec alive e).0
        ≡ elim (codec.render (from_event e)) [ none ↦ [] | some json ↦ json ∷ [] ]
  unfolding forward
  forward-texts alive e = elim (Option-cases (codec.render (from_event e))) [
    | inl h ↦ elim (Bool-cases (is_expiry e)) [
      | inl k ↦ rw (h, k, texts) refl
      | inr k ↦ rw (h, k, texts) refl
    ]
    | inr (json, h) ↦ elim (Bool-cases alive) [
      | inl j ↦ elim (Bool-cases (is_expiry e)) [
        | inl k ↦ rw (h, j, k, texts) refl
        | inr k ↦ rw (h, j, k, texts) refl
      ]
      | inr j ↦ rw (h, j, texts) refl
    ]
  ]

  on_tick-textless :
      (alive : Bool) (now : ℕ) (s : Session F) → texts (on_tick fl codec id alive now s).1 ≡ []
  unfolding on_tick
  on_tick-textless alive now s =
      elim (Bool-cases (s.waiting_for_pong && ltb pong_timeout (now - s.last_pong))) [
        | inl e ↦ rw (e, texts) refl
        | inr e ↦ elim (Bool-cases alive) [ inl k ↦ rw (e, k) refl | inr k ↦ rw (e, k) refl ]
      ]

  on_event-texts :
      (alive : Bool) (e : RoomEvent) (s : Session F)
      → texts (on_event fl codec id alive e s).1 ≡ owed codec id e
  unfolding on_event
  on_event-texts alive e s =
      elim (Bool-cases (is_own id (sender e) || not (is_for id (target e)))) [
        | inl h ↦ rw h refl
        | inr h ↦ rw h (forward-texts alive e)
      ]

  on_frame-textless :
      (alive : Bool) (now : ℕ) (f : Frame) (s : Session F)
      → texts (on_frame fl codec id alive now f s).1 ≡ []
  unfolding on_frame
  on_frame-textless alive now (text json) s = elim (Bool-cases (check fl now s.rate_limiter).0) [
    | inl h ↦ rw h (relay_text-textless json)
    | inr h ↦ rw h refl
  ]
  on_frame-textless alive now pong s = refl
  on_frame-textless alive now (ping _) s = refl
  on_frame-textless alive now close s = refl
  on_frame-textless alive now transport_error s = refl
  on_frame-textless alive now ended s = refl
  on_frame-textless alive now binary s = refl

  -- A round writes the text that its input owes, and no other.
  pub round-texts :
      (alive : Bool) (i : Input) (s : Session F)
      → texts (round fl codec id alive i s).1 ≡ of_input codec id i
  unfolding round
  round-texts alive (ticked now) s = on_tick-textless alive now s
  round-texts alive (received none) s = refl
  round-texts alive (received (some e)) s = on_event-texts alive e s
  round-texts alive (framed now f) s = on_frame-textless alive now f s
