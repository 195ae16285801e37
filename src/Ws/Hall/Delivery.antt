-- ===== src/Ws/Hall/Delivery.antt =====
-- What the connections of src/routes/ws.rs write of the events of their rooms, whatever the other
-- tasks do between their steps.
use parrhesia_backend.Common.{
  drop, take, take-append, ◌-◌, ◌≡◌, sym, ap, ◌∙◌, Option, none, some, List, [], ◌∷◌, ◌++◌, String,
  string_eq, arith, length, length-append, Option-cases, inl, inr, subst, Result, ok, err,
}
use parrhesia_backend.Common.Dict.{insert_cases, get, insert}
use parrhesia_backend.Db.{DbError, Table}
use parrhesia_backend.Float.{Float}
use parrhesia_backend.Broadcast.{Broadcast, BroadcastLaws}
use parrhesia_backend.Server.{State, app_of, put_app}
use parrhesia_backend.Rooms.Events.{RoomEvent}
use parrhesia_backend.Rooms.Histories.{fresh-Tracked}
use parrhesia_backend.Rooms.Growth.{
  IsEvent, IsRoomy, Extends, Extends-refl, Extends-trans, attach-Extends,
  expire_inactive_rooms-Extends,
}
use parrhesia_backend.Rooms.Laws.{attach-Tracked, expire_inactive_rooms-Tracked}
use parrhesia_backend.Rooms.{Attached, attach}
use parrhesia_backend.Ws.Session.{Codec}
use parrhesia_backend.Ws.Connection.Membership.{IsTold}
use parrhesia_backend.Ws.Turns.{Loop, Connection, act}
use parrhesia_backend.Ws.Hall.{
  Move, attaches, acts, expires, stores, Hall, open_connection, step, run, start,
}
use parrhesia_backend.Ws.Turns.Texts.{texts, due}
use parrhesia_backend.Ws.Turns.Rounds.{IsServed, since}
use parrhesia_backend.Ws.Turns.Served.{Served, Served-Extends}
use parrhesia_backend.Ws.Turns.Keeps.{act-Keeps}

module _ (fl : Float) (bc : Broadcast RoomEvent) (laws : BroadcastLaws bc) (codec : Codec) where
  open fl use {F}
  open bc use {Bus, Sender, Receiver}
  open laws use {IsOpen, sent, source, from}

  -- Each room's channel tells who is in the room, each loop is served from its channel, and the
  -- channels are those of the start, grown.
  pub record IsRunning (b : Bus) (h : Hall fl bc laws codec) : Type 0 where
    pub told : IsTold fl bc laws h.state
    pub served :
        (id : String) (c : Connection F Sender Receiver)
        → get id h.connections ≡ some c
        → Served fl bc laws codec id c.loop h.state.rest.bus
    pub grown : Extends bc laws IsEvent b h.state.rest.bus

  -- One connection changed, and the channels grew.
  insert-IsRunning :
      (b : Bus) (id : String) (c : Connection F Sender Receiver) (s : State fl bc)
      (h : Hall fl bc laws codec)
      → IsRunning b h
      → IsTold fl bc laws s
      → Extends bc laws IsEvent h.state.rest.bus s.rest.bus
      → Served fl bc laws codec id c.loop s.rest.bus
      → IsRunning b (record { state = s; connections = insert id c h.connections })
  insert-IsRunning b id c s h v told x new = record {
    told = told;
    served = λ j d g. elim (insert_cases id j c d h.connections g) [
      | inl (e, q) ↦
          subst (λ y. Served fl bc laws codec y d.loop s.rest.bus) e
            (subst (λ y. Served fl bc laws codec id y.loop s.rest.bus) q new)
      | inr k ↦
          Served-Extends fl bc laws codec j d.loop h.state.rest.bus s.rest.bus x (v.served j d k)
    ];
    grown = Extends-trans bc laws IsEvent b _ _ v.grown x;
  }

  -- The channels grew.
  change-IsRunning :
      (b : Bus) (s : State fl bc) (h : Hall fl bc laws codec)
      → IsRunning b h
      → IsTold fl bc laws s
      → Extends bc laws IsEvent h.state.rest.bus s.rest.bus
      → IsRunning b (record h { state = s })
  change-IsRunning b s h v told x = record {
    told = told;
    served = λ j d g.
        Served-Extends fl bc laws codec j d.loop h.state.rest.bus s.rest.bus x (v.served j d g);
    grown = Extends-trans bc laws IsEvent b _ _ v.grown x;
  }

  open_connection-IsRunning :
      (b : Bus) (room_id id : String) (r : Result (Option (Attached bc)) DbError) (s : State fl bc)
      (h : Hall fl bc laws codec)
      → IsRunning b h
      → IsTold fl bc laws s
      → Extends bc laws IsEvent h.state.rest.bus s.rest.bus
      → IsRunning b (open_connection fl bc laws codec room_id id r s h)
  open_connection-IsRunning b room_id id (ok (some _)) s h v told x =
      insert-IsRunning b id _ s h v told x tt
  open_connection-IsRunning b room_id id (ok none) s h v told x = change-IsRunning b s h v told x
  open_connection-IsRunning b room_id id (err _) s h v told x = change-IsRunning b s h v told x

  pub step-IsRunning :
      (b : Bus) (h : Hall fl bc laws codec) (m : Move)
      → IsRunning b h
      → IsRunning b (step fl bc laws codec h m)
  unfolding step
  step-IsRunning b h (attaches f room_id id) v = elim (Option-cases (get id h.connections)) [
    | inr (c, e) ↦ rw (e, step) v
    | inl e ↦
        let a = app_of fl bc h.state in
        rw (e, step)
          (open_connection-IsRunning b room_id id (attach bc f room_id id a).0
            (put_app fl bc (attach bc f room_id id a).1 h.state) h v
            (attach-Tracked bc laws f room_id id a v.told)
            (attach-Extends bc laws IsEvent f room_id id a))
  ]
  step-IsRunning b h (acts id a) v = elim (Option-cases (get id h.connections)) [
    | inl e ↦ rw (e, step) v
    | inr (c, e) ↦
        let t = act fl bc laws codec id a c h.state in
        let k = act-Keeps fl bc laws codec id a c h.state v.told (v.served id c e) in
        rw (e, step) (insert-IsRunning b id t.0 t.1 h v k.told k.extends k.served)
  ]
  step-IsRunning b h (expires f now threshold) v =
      let a = app_of fl bc h.state in
      change-IsRunning b _ h v (expire_inactive_rooms-Tracked bc laws f now threshold a v.told)
        (expire_inactive_rooms-Extends bc laws IsEvent (λ e h. tt) f now threshold a)
  step-IsRunning b h (stores t) v =
      change-IsRunning b _ h v v.told (Extends-refl bc laws IsEvent h.state.rest.bus)

  pub run-IsRunning :
      (b : Bus) (h : Hall fl bc laws codec) (ms : List Move)
      → IsRunning b h
      → IsRunning b (run fl bc laws codec h ms)
  unfolding run
  run-IsRunning b h [] v = v
  run-IsRunning b h (m ∷ ms) v =
      run-IsRunning b (step fl bc laws codec h m) ms (step-IsRunning b h m v)

  pub start-IsRunning : (t : Table) (b : Bus) → IsRunning b (start fl bc laws codec t b)
  unfolding get
  start-IsRunning t b = record {
    told = fresh-Tracked bc laws t b;
    served = λ id c g. cc;
    grown = Extends-refl bc laws IsEvent b;
  }

  -- The events that a loop got, from those on its channel.
  abbrev pub got : Loop F Receiver → Bus → List RoomEvent
  got l b = take (l.next - from l.receiver) (drop (from l.receiver) (sent (source l.receiver) b))

  pub got_lem :
      (id : String) (l : Loop F Receiver) (b : Bus) (v : IsServed fl bc laws codec id l b)
      → got l b ≡ v.heard
  got_lem id l b v =
      let steps : l.next - from l.receiver ≡ length v.heard =
        omega (arith, v.reached, v.began, length-append v.before v.heard) in
      rw (steps, since fl bc laws codec id l b v) (take-append v.heard v.later)

  -- The loop of a connection after a history of a new server.
  pub run-IsServed :
      (t : Table) (b : Bus) (ms : List Move) (id : String) (c : Connection F Sender Receiver)
      (l : Loop F Receiver)
      → get id (run fl bc laws codec (start fl bc laws codec t b) ms).connections ≡ some c
      → c.loop ≡ some l
      → IsServed fl bc laws codec id l
          (run fl bc laws codec (start fl bc laws codec t b) ms).state.rest.bus
  run-IsServed t b ms id c l g e =
      let h = run fl bc laws codec (start fl bc laws codec t b) ms in
      let v = run-IsRunning b (start fl bc laws codec t b) ms (start-IsRunning t b) in
      subst (λ o. Served fl bc laws codec id o h.state.rest.bus) e (v.served id c g)

  -- The channels that a server makes have room for a hundred events.
  pub run-IsRoomy :
      (t : Table) (b : Bus) (ms : List Move)
      → ((y : Sender) → ¬ IsOpen y b)
      → IsRoomy bc laws IsEvent
          (run fl bc laws codec (start fl bc laws codec t b) ms).state.rest.bus
  run-IsRoomy t b ms n =
      (run-IsRunning b (start fl bc laws codec t b) ms (start-IsRunning t b)).grown.roomy
        (λ x o. absurd (n x o))

  -- After any history of a new server, in which the steps of all connections, the expiry of rooms
  -- and changes of the database come in any order: what a connection wrote of its room's events, with
  -- what it is about to write, is exactly the texts of the events that its receiver got, each once
  -- and in the order of the channel, from the end of the channel at its join on. Left out are those
  -- that it sent itself, those that name another target and those without a text.
  pub run-delivered :
      (t : Table) (b : Bus) (ms : List Move) (id : String) (c : Connection F Sender Receiver)
      (l : Loop F Receiver)
      → get id (run fl bc laws codec (start fl bc laws codec t b) ms).connections ≡ some c
      → c.loop ≡ some l
      → texts (l.done ++ l.todo)
        ≡ due codec id (got l (run fl bc laws codec (start fl bc laws codec t b) ms).state.rest.bus)
  run-delivered t b ms id c l g e =
      let u = run-IsServed t b ms id c l g e in
      u.written ∙ ap (due codec id) (sym (got_lem id l _ u))
