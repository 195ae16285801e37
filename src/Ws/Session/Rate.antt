-- ===== src/Ws/Session/Rate.antt =====
-- How many events a connection of src/routes/ws.rs can publish.
use parrhesia_backend.Common.{
  ℕ, ◌+◌, ◌-◌, ◌*◌, ◌≤◌, ◌≡◌, Bool, none, some, List, [], ◌∷◌, ◌++◌, arith, String, string_eq,
  if◌then◌else◌, Option-cases, inl, inr, ap,
}
use parrhesia_backend.Float.{fixed, unit}
use parrhesia_backend.Rooms.Events.{RoomEvent}
use parrhesia_backend.Ws.Messages.{
  IncomingMessage, key_announce, message, commit, welcome_to, is_typing, unknown, from_event,
}
use parrhesia_backend.Ws.RateLimiter.{RateLimiter, check, IsStandard, available, check_lem}
use parrhesia_backend.Ws.Session.{
  Session, Frame, text, pong, ping, close, transport_error, ended, binary, Input, ticked, received,
  framed, Effect, published, Codec, relay, forward, on_tick, on_event, relay_text, on_frame, round,
  run,
}

abbrev weight : Effect → ℕ
weight (published _) = 1
weight _ = 0

abbrev pub publications : List Effect → ℕ
publications [] = 0
publications (x ∷ xs) = weight x + publications xs

-- The frames come in the order of time, from `t` on.
abbrev pub InTime : ℕ → List (Bool × Input) → Type 0
InTime t [] = Unit
InTime t ((_, framed now _) ∷ is) = (t ≤ now) × InTime now is
InTime t ((_, ticked _) ∷ is) = InTime t is
InTime t ((_, received _) ∷ is) = InTime t is

abbrev pub end_time : ℕ → List (Bool × Input) → ℕ
end_time t [] = t
end_time t ((_, framed now _) ∷ is) = end_time now is
end_time t ((_, ticked _) ∷ is) = end_time t is
end_time t ((_, received _) ∷ is) = end_time t is

publications-append :
    (xs ys : List Effect) → publications (xs ++ ys) ≡ publications xs + publications ys
publications-append [] ys = omega arith
publications-append (x ∷ xs) ys = omega (arith, publications-append xs ys)

publications-relay : (conn_id : String) (m : IncomingMessage) → publications (relay conn_id m) ≤ 1
unfolding relay
publications-relay conn_id (message (some _) _ _) = omega arith
publications-relay conn_id (message none _ _) = omega arith
publications-relay conn_id (commit (some _)) = omega arith
publications-relay conn_id (commit none) = omega arith
publications-relay conn_id (welcome_to (some _) (some _)) = omega arith
publications-relay conn_id (welcome_to (some _) none) = omega arith
publications-relay conn_id (welcome_to none _) = omega arith
publications-relay conn_id is_typing = omega arith
publications-relay conn_id (key_announce _ _ _) = omega arith
publications-relay conn_id unknown = omega arith

end_time-le : (t : ℕ) (is : List (Bool × Input)) → InTime t is → t ≤ end_time t is
end_time-le t [] h = omega arith
end_time-le t ((_, framed now _) ∷ is) h = omega (arith, h.0, end_time-le now is h.1)
end_time-le t ((_, ticked _) ∷ is) h = end_time-le t is h
end_time-le t ((_, received _) ∷ is) h = end_time-le t is h

-- A limiter whose clock is not ahead.
record IsReady (t : ℕ) (r : RateLimiter ℕ) : Type 0 where
  standard : IsStandard r
  past : r.last_refill ≤ t

available-aged :
    (t v : ℕ) (r : RateLimiter ℕ)
    → r.last_refill ≤ t
    → t ≤ v
    → available v r ≤ available t r + (v - t) * 1800
available-aged t v r h k = omega arith

module _ (codec : Codec) (conn_id : String) where
  publications-relay_text : (json : String) → publications (relay_text fixed codec conn_id json) ≤ 1
  publications-relay_text json = elim (Option-cases (codec.parse json)) [
    | inl e ↦ rw (e, publications) (omega arith)
    | inr (m, e) ↦ rw (e, publications) (publications-relay conn_id m)
  ]

  publications-forward : (alive : Bool) (e : RoomEvent) → publications (forward codec alive e).0 ≡ 0
  unfolding forward
  publications-forward alive e = ground (arith, codec.render (from_event e))

  publications-on_tick :
      (alive : Bool) (now : ℕ) (s : Session ℕ)
      → publications (on_tick fixed codec conn_id alive now s).1 ≡ 0
  unfolding on_tick
  publications-on_tick alive now s = ground arith

  publications-on_event :
      (alive : Bool) (e : RoomEvent) (s : Session ℕ)
      → publications (on_event fixed codec conn_id alive e s).1 ≡ 0
  unfolding on_event
  publications-on_event alive e s = ground (arith, publications-forward alive e)

  -- A frame costs what it publishes.
  text_pays :
      (now : ℕ) (json : String) (r : RateLimiter ℕ)
      → IsStandard r
      → publications (if (check fixed now r).0 then relay_text fixed codec conn_id json else [])
            * unit
          + available now (check fixed now r).1
        ≤ available now r
  text_pays now json r v = ground (arith, check_lem now r v, publications-relay_text json)

  frame_pays :
      (alive : Bool) (now : ℕ) (f : Frame) (s : Session ℕ)
      → IsReady now s.rate_limiter
      → (publications (on_frame fixed codec conn_id alive now f s).1 * unit
            + available now (on_frame fixed codec conn_id alive now f s).0.rate_limiter
          ≤ available now s.rate_limiter)
        × IsReady now (on_frame fixed codec conn_id alive now f s).0.rate_limiter
  unfolding on_frame
  frame_pays alive now (text json) s v =
      let c = check_lem now s.rate_limiter v.standard in
      (
        text_pays now json s.rate_limiter v.standard,
        record { standard = c.1; past = omega (arith, c.2) },
      )
  frame_pays alive now pong s v = (omega arith, v)
  frame_pays alive now (ping _) s v = (omega arith, v)
  frame_pays alive now close s v = (omega arith, v)
  frame_pays alive now transport_error s v = (omega arith, v)
  frame_pays alive now ended s v = (omega arith, v)
  frame_pays alive now binary s v = (omega arith, v)

  tick_keeps :
      (alive : Bool) (now : ℕ) (s : Session ℕ)
      → (on_tick fixed codec conn_id alive now s).0.rate_limiter ≡ s.rate_limiter
  unfolding on_tick
  tick_keeps alive now s = ground arith

  event_keeps :
      (alive : Bool) (e : RoomEvent) (s : Session ℕ)
      → (on_event fixed codec conn_id alive e s).0.rate_limiter ≡ s.rate_limiter
  unfolding on_event
  event_keeps alive e s = ground arith

  publications-rest :
      (xs ys : List Effect) (go : Bool)
      → publications (xs ++ (if go then ys else [])) ≤ publications xs + publications ys
  publications-rest xs ys go =
      ground (arith, publications-append xs (if go then ys else []), publications)

  -- In the fixed-point arithmetic, over any run of the loop whose limiter has the standard constants
  -- and whose frames come in the order of time after its last refill, the events that it publishes
  -- cost at most the tokens that the limiter has at the start and those refilled until the last
  -- frame.
  pub publications-run :
      (t : ℕ) (is : List (Bool × Input)) (s : Session ℕ)
      → IsStandard s.rate_limiter
      → s.rate_limiter.last_refill ≤ t
      → InTime t is
      → publications (run fixed codec conn_id is s) * unit
        ≤ available t s.rate_limiter + (end_time t is - t) * 1800
  unfolding run round
  publications-run t [] s v p h = omega arith
  publications-run t ((alive, framed now f) ∷ is) s v p h =
      let r = on_frame fixed codec conn_id alive now f s in
      let w = frame_pays alive now f s (record { standard = v; past = omega (arith, h.0) }) in
      omega (
        arith,
        h.0,
        w.0,
        publications-rest r.1 (run fixed codec conn_id is r.0) r.2,
        publications-run now is r.0 w.1.standard w.1.past h.1,
        available-aged t now s.rate_limiter p h.0,
        end_time-le now is h.1,
      )
  publications-run t ((alive, received none) ∷ is) s v p h = omega arith
  publications-run t ((alive, received (some e)) ∷ is) s v p h =
      let r = on_event fixed codec conn_id alive e s in
      let k = event_keeps alive e s in
      omega (
        arith,
        publications-on_event alive e s,
        publications-rest r.1 (run fixed codec conn_id is r.0) r.2,
        ap (available t) k,
        publications-run t is r.0 (rw k v) (rw k p) h,
      )
  publications-run t ((alive, ticked now) ∷ is) s v p h =
      let r = on_tick fixed codec conn_id alive now s in
      let k = tick_keeps alive now s in
      omega (
        arith,
        publications-on_tick alive now s,
        publications-rest r.1 (run fixed codec conn_id is r.0) r.2,
        ap (available t) k,
        publications-run t is r.0 (rw k v) (rw k p) h,
      )
