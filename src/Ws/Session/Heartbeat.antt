-- ===== src/Ws/Session/Heartbeat.antt =====
-- The ping timer of src/routes/ws.rs: a client that does not answer is dropped.
use parrhesia_backend.Common.{
  ℕ, ◌-◌, ◌<◌, ◌≡◌, refl, ap, Bool, true, false, none, some, List, [], ◌∷◌, ◌++◌, arith, String,
  if◌then◌else◌, All,
}
use parrhesia_backend.Float.{Float}
use parrhesia_backend.Rooms.Events.{RoomEvent}
use parrhesia_backend.Ws.Session.{
  pong_timeout, Session, text, pong, ping, close, transport_error, ended, binary, Input, ticked,
  received, framed, Codec, on_tick, on_event, on_frame, round, run,
}

abbrev pub IsSilent : Bool × Input → Type 0
IsSilent (_, framed _ pong) = ⊥
IsSilent _ = Unit

module _ (fl : Float) (codec : Codec) (conn_id : String) where
  open fl use {F}

  -- Waiting for a pong since before `now`.
  record IsOverdue (now : ℕ) (s : Session F) : Type 0 where
    waits : s.waiting_for_pong ≡ true
    late : pong_timeout < now - s.last_pong

  tick-IsOverdue :
      (now : ℕ) (alive : Bool) (at : ℕ) (s : Session F)
      → IsOverdue now s
      → IsOverdue now (on_tick fl codec conn_id alive at s).0
  unfolding on_tick
  tick-IsOverdue now alive at s v = record {
    waits = ground (arith, v.waits);
    late = ground (arith, v.late);
  }

  event-IsOverdue :
      (now : ℕ) (alive : Bool) (e : RoomEvent) (s : Session F)
      → IsOverdue now s
      → IsOverdue now (on_event fl codec conn_id alive e s).0
  unfolding on_event
  event-IsOverdue now alive e s v = record {
    waits = ground (arith, v.waits);
    late = ground (arith, v.late);
  }

  round-IsOverdue :
      (now : ℕ) (alive : Bool) (i : Input) (s : Session F)
      → IsSilent (alive, i)
      → IsOverdue now s
      → IsOverdue now (round fl codec conn_id alive i s).0
  unfolding round on_frame
  round-IsOverdue now alive (ticked at) s h v = tick-IsOverdue now alive at s v
  round-IsOverdue now alive (received none) s h v = v
  round-IsOverdue now alive (received (some e)) s h v = event-IsOverdue now alive e s v
  round-IsOverdue now alive (framed at (text json)) s h v = record {
    waits = v.waits;
    late = v.late;
  }
  round-IsOverdue now alive (framed at pong) s h v = absurd h
  round-IsOverdue now alive (framed at (ping _)) s h v = v
  round-IsOverdue now alive (framed at close) s h v = v
  round-IsOverdue now alive (framed at transport_error) s h v = v
  round-IsOverdue now alive (framed at ended) s h v = v
  round-IsOverdue now alive (framed at binary) s h v = v

  tick_ends :
      (alive : Bool) (now : ℕ) (s : Session F)
      → IsOverdue now s
      → on_tick fl codec conn_id alive now s ≡ (s, [], false)
  unfolding on_tick
  tick_ends alive now s v = ground (arith, v.waits, v.late)

  -- From a session that waits for a pong, through any rounds without one, a tick more than the
  -- timeout after the last pong ends the loop: nothing is done from there on, whatever comes.
  pub run-silent :
      (is : List (Bool × Input)) (alive : Bool) (now : ℕ) (rest : List (Bool × Input))
      (s : Session F)
      → All IsSilent is
      → s.waiting_for_pong ≡ true
      → pong_timeout < now - s.last_pong
      → run fl codec conn_id (is ++ (alive, ticked now) ∷ rest) s ≡ run fl codec conn_id is s
  unfolding run round
  run-silent [] alive now rest s h w l =
      rw (tick_ends alive now s (record { waits = w; late = l })) refl
  run-silent ((up, i) ∷ is) alive now rest s h w l =
      let v = round-IsOverdue now up i s h.0 (record { waits = w; late = l }) in
      let r = round fl codec conn_id up i s in
      ap (λ z. r.1 ++ (if r.2 then z else [])) (run-silent is alive now rest r.0 h.1 v.waits v.late)
