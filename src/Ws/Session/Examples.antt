-- ===== src/Ws/Session/Examples.antt =====
-- The theorems about the loop of src/routes/ws.rs with a codec that keeps a text as a payload.
use parrhesia_backend.Common.{
  ℕ, ◌+◌, ◌-◌, ◌*◌, ◌≤◌, ◌≡◌, refl, Bool, true, false, none, some, List, [], ◌∷◌, arith, string_eq,
}
use parrhesia_backend.Float.{fixed, unit}
use parrhesia_backend.Rooms.Events.{chat, tree_welcome, sender, target}
use parrhesia_backend.Ws.Messages.{message, chat_message, welcome_data, from_event}
use parrhesia_backend.Ws.RateLimiter.{
  msg_rate_capacity, msg_rate_refill_per_sec, new_limiter, check, IsStandard, available,
}
use parrhesia_backend.Ws.Session.{
  Session, text, close, Input, ticked, received, framed, sent_text, sent_ping, touched, published,
  Codec, relay, forward, on_tick, on_event, on_frame, round, run,
}
use parrhesia_backend.Ws.Session.Rate.{publications, end_time, publications-run}
use parrhesia_backend.Ws.Session.Heartbeat.{run-silent}

abbrev plain : Codec
plain = record {
  render = λ m. elim m [
    | chat_message _ payload _ _ ↦ some payload
    | welcome_data keys ↦ some keys
    | _ ↦ none
  ];
  parse = λ s. some (message (some s) none none);
}

abbrev idle : Session ℕ
idle = record {
  last_pong = 0;
  waiting_for_pong = false;
  rate_limiter = record {
    tokens = 60 * unit;
    capacity = 60 * unit;
    refill_per_sec = 30 * unit;
    last_refill = 0;
  };
}

idle_new :
    idle.rate_limiter
    ≡ new_limiter fixed (msg_rate_capacity fixed) (msg_rate_refill_per_sec fixed) 0
unfolding new_limiter
idle_new = refl

abbrev waiting : Session ℕ
waiting = record idle { waiting_for_pong = true }

idle-IsStandard : IsStandard idle.rate_limiter
idle-IsStandard = record { holds = refl; refills = refl }

abbrev talk : List (Bool × Input)
talk =
    (true, framed 5 (text "hello"))
    ∷ (true, ticked 30000000000)
    ∷ (true, received (some (chat "b" "hi" none none)))
    ∷ (true, received (some (chat "a" "hello" none none)))
    ∷ (true, received (some (tree_welcome "b" "c" "keys")))
    ∷ (true, framed 31000000000 close)
    ∷ (true, framed 32000000000 (text "late"))
    ∷ []

talk-run :
    run fixed plain "a" talk idle
    ≡ touched ∷ published (chat "a" "hello" none none) ∷ sent_ping ∷ sent_text "hi" ∷ []
unfolding run round on_frame on_tick on_event check relay forward from_event sender target
talk-run = refl

publications-run_example :
    publications (run fixed plain "a" talk idle) * unit
    ≤ available 0 idle.rate_limiter + (end_time 0 talk - 0) * 1800
publications-run_example =
    publications-run plain "a" 0 talk idle idle-IsStandard (omega arith)
      (omega arith, (omega arith, (omega arith, tt)))

run-silent_example :
    run fixed plain "a"
      ((true, framed 5 (text "hello")) ∷ (true, ticked 10000000001) ∷ talk)
      waiting
    ≡ run fixed plain "a" ((true, framed 5 (text "hello")) ∷ []) waiting
run-silent_example =
    run-silent fixed plain "a" ((true, framed 5 (text "hello")) ∷ []) true 10000000001 talk waiting
      (tt, tt) refl (omega arith)
