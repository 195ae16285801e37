-- ===== src/Ws/Hall/Authors.antt =====
-- Whose events the channels of src/routes/ws.rs carry.
use parrhesia_backend.Common.{
  ◌≡◌, refl, sym, ap, ◌∙◌, Option, none, some, List, [], ◌∷◌, String, string_eq, Option-cases, inl,
  inr, subst, arith, Result, ok, err,
}
use parrhesia_backend.Common.Dict.{get}
use parrhesia_backend.Db.{DbError, Table}
use parrhesia_backend.Float.{Float}
use parrhesia_backend.Broadcast.{Broadcast, BroadcastLaws}
use parrhesia_backend.Server.{State, app_of, put_app}
use parrhesia_backend.Rooms.Events.{RoomEvent}
use parrhesia_backend.Rooms.Growth.{
  IsNotice, Extends, Extends-refl, attach-Extends, expire_inactive_rooms-Extends,
}
use parrhesia_backend.Rooms.Laws.{IsTracked, elected, Result-cases}
use parrhesia_backend.Db.{room_exists}
use parrhesia_backend.Rooms.{Room, App, room_entry, elect, Attached, attach}
use parrhesia_backend.Ws.Session.{Codec}
use parrhesia_backend.Ws.Turns.{Connection, attached, act}
use parrhesia_backend.Ws.Hall.{
  Move, attaches, acts, expires, stores, Hall, open_connection, step, run, start,
}
use parrhesia_backend.Ws.Turns.Speech.{spoken}
use parrhesia_backend.Ws.Turns.Publishing.{act-Spoke}
use parrhesia_backend.Ws.Hall.Delivery.{IsRunning, start-IsRunning, step-IsRunning}
use parrhesia_backend.Ws.Hall.Voices.{voice, voice-here, voice-elsewhere, notices-voice}
use parrhesia_backend.Ws.Hall.Authored.{
  IsAuthored, insert-IsAuthored, change-IsAuthored, act-IsAuthored,
}

module _ (fl : Float) (bc : Broadcast RoomEvent) (laws : BroadcastLaws bc) (codec : Codec) where
  open fl use {F}
  open bc use {Bus, Sender, Receiver, send}
  open laws use {IsOpen, sent}

  open_connection-IsAuthored :
      (room_id id : String) (r : Result (Option (Attached bc)) DbError) (s : State fl bc)
      (h : Hall fl bc laws codec)
      → get id h.connections ≡ none
      → IsAuthored fl bc laws codec h
      → Extends bc laws IsNotice h.state.rest.bus s.rest.bus
      → ((a : Attached bc) → r ≡ ok (some a) → IsOpen a.0 s.rest.bus)
      → IsAuthored fl bc laws codec (open_connection fl bc laws codec room_id id r s h)
  open_connection-IsAuthored room_id id (ok none) s h g v k o =
      change-IsAuthored fl bc laws codec s h v k
  open_connection-IsAuthored room_id id (err _) s h g v k o =
      change-IsAuthored fl bc laws codec s h v k
  open_connection-IsAuthored room_id id (ok (some (tx, is_creator, creator))) s h g v k o =
      insert-IsAuthored fl bc laws codec id c s h v k.opens (o (tx, is_creator, creator) refl)
        (λ e. refl)
        (λ j x n.
          notices-voice fl bc laws codec j (get j h.connections) h.state.rest.bus s.rest.bus x k
            (v.linked j) (v.heard j x))
        (λ x y.
          notices-voice fl bc laws codec id (get id h.connections) h.state.rest.bus s.rest.bus x k
            (v.linked id) (v.heard id x) y
          ∙ ap (λ p. voice fl bc laws codec p x) g
          ∙ sym (mute x))
    where
      c : Connection F Sender Receiver
      c = record { room_id = room_id; tx = tx; phase = attached; loop = none }

      mute : (x : Sender) → voice fl bc laws codec (some c) x ≡ []
      mute x = elim (laws.same_channel tx x) [
        | yes p ↦ voice-here fl bc laws codec c x p
        | no p ↦ voice-elsewhere fl bc laws codec c x p
      ]

  entry_open :
      (room_id id : String) (a : App bc) (o : Option (Room Sender))
      → IsTracked bc laws a
      → get room_id a.rooms ≡ o
      → let (r, b) = room_entry bc o a.bus in IsOpen (elect bc id r).0.tx b
  entry_open room_id id a (some r) v g = rw (elected bc laws id r).0 (v.opened room_id r g)
  entry_open room_id id a none v g = laws.channel-IsOpen 100 a.bus

  -- Whoever attaches gets the sender of an open channel.
  attach_open :
      (f : Option DbError) (room_id id : String) (a : App bc) (t : Attached bc)
      → IsTracked bc laws a
      → (attach bc f room_id id a).0 ≡ ok (some t)
      → IsOpen t.0 (attach bc f room_id id a).1.bus
  unfolding attach
  attach_open f room_id id a t v e = elim (Result-cases (room_exists f room_id a.db)) [
    | inl k ↦
        rw (k, attach)
          (subst (λ x. IsOpen x (room_entry bc (get room_id a.rooms) a.bus).1)
            (ap (λ x. x.0) (answer (rw (k, attach) at e)))
            (entry_open room_id id a (get room_id a.rooms) v refl))
    | inr (inl k) ↦ absurd (ground (arith, rw (k, attach) at e))
    | inr (inr (x, k)) ↦ absurd (ground (arith, rw (k, attach) at e))
  ]
    where
      answer :
          {x y : Attached bc}
          → ◌≡◌ {A = Result (Option (Attached bc)) DbError} (ok (some x)) (ok (some y))
          → x ≡ y
      answer q = cc

  step-IsAuthored :
      (b : Bus) (h : Hall fl bc laws codec) (m : Move)
      → IsRunning fl bc laws codec b h
      → IsAuthored fl bc laws codec h
      → IsAuthored fl bc laws codec (step fl bc laws codec h m)
  unfolding step
  step-IsAuthored b h (attaches f room_id id) u v = elim (Option-cases (get id h.connections)) [
    | inr (c, e) ↦ rw (e, step) v
    | inl e ↦
        let a = app_of fl bc h.state in
        rw (e, step)
          (open_connection-IsAuthored room_id id (attach bc f room_id id a).0
            (put_app fl bc (attach bc f room_id id a).1 h.state) h e v
            (attach-Extends bc laws IsNotice f room_id id a)
            (λ t. attach_open f room_id id a t u.told))
  ]
  step-IsAuthored b h (acts id a) u v = elim (Option-cases (get id h.connections)) [
    | inl e ↦ rw (e, step) v
    | inr (c, e) ↦
        rw (e, step)
          (act-IsAuthored fl bc laws codec id c (act fl bc laws codec id a c h.state) h e v
            (act-Spoke fl bc laws codec id a c h.state (v.waiting id c e) (u.served id c e)))
  ]
  step-IsAuthored b h (expires f now threshold) u v = change-IsAuthored fl bc laws codec _ h v (
      expire_inactive_rooms-Extends bc laws IsNotice (λ x k. k) f now threshold
        (app_of fl bc h.state))
  step-IsAuthored b h (stores t) u v =
      change-IsAuthored fl bc laws codec _ h v (Extends-refl bc laws IsNotice h.state.rest.bus)

  run-IsAuthored :
      (b : Bus) (h : Hall fl bc laws codec) (ms : List Move)
      → IsRunning fl bc laws codec b h
      → IsAuthored fl bc laws codec h
      → IsAuthored fl bc laws codec (run fl bc laws codec h ms)
  unfolding run
  run-IsAuthored b h [] u v = v
  run-IsAuthored b h (m ∷ ms) u v =
      run-IsAuthored b (step fl bc laws codec h m) ms (step-IsRunning fl bc laws codec b h m u)
        (step-IsAuthored b h m u v)

  start-IsAuthored :
      (t : Table) (b : Bus)
      → ((x : Sender) → ¬ IsOpen x b)
      → IsAuthored fl bc laws codec (start fl bc laws codec t b)
  unfolding get
  start-IsAuthored t b n = record {
    heard = λ j x o. absurd (n x o);
    linked = λ j c g. cc;
    waiting = λ j c g. cc;
  }

  -- After any history of a new server that had no channel, each channel carries under each id, apart
  -- from the notices of the server, exactly what the connection with that id published, in that
  -- order, if the channel is the one of its room, and nothing if it is not or nobody has the id: no
  -- client can speak as another, and nothing that is published is lost or comes twice.
  pub run-authored :
      (t : Table) (b : Bus) (ms : List Move) (id : String) (x : Sender)
      → ((y : Sender) → ¬ IsOpen y b)
      → IsOpen x (run fl bc laws codec (start fl bc laws codec t b) ms).state.rest.bus
      → let h = run fl bc laws codec (start fl bc laws codec t b) ms in
        spoken id (sent x h.state.rest.bus) ≡ voice fl bc laws codec (get id h.connections) x
  run-authored t b ms id x n o =
      let h = start fl bc laws codec t b in
      let v =
        run-IsAuthored b h ms (start-IsRunning fl bc laws codec t b) (start-IsAuthored t b n) in
      v.heard id x o
