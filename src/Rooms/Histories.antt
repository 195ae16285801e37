-- ===== src/Rooms/Histories.antt =====
-- Histories of src/state.rs: any interleaving of its methods, of relayed events and of changes of
-- the database, and what a client of a room can tell from its receiver.
use parrhesia_backend.Common.{
  drop, drop-append, ℕ, ◌≡◌, refl, sym, ap, ◌∙◌, true, Option, some, List, [], ◌∷◌, map, arith,
  String, string_eq, Option-cases, Bool-cases, inl, inr, leb, length,
}
use parrhesia_backend.Common.Int.{ℤ}
use parrhesia_backend.Common.Dict.{get}
use parrhesia_backend.Db.{DbError, Table}
use parrhesia_backend.Broadcast.{Broadcast, BroadcastLaws}
use parrhesia_backend.Rooms.Events.{RoomEvent}
use parrhesia_backend.Rooms.Replay.{
  People, Agree, replay, replay-append, replay-Agree, is_relay, relay-Tracked, Tracked,
}
use parrhesia_backend.Rooms.Laws.{
  IsTracked, attach-Tracked, join-Tracked, detach-Tracked, expire_inactive_rooms-Tracked,
}
use parrhesia_backend.Rooms.Growth.{
  IsEvent, Extends, Extends-refl, Extends-trans, Extends-send, attach-Extends, join-Extends,
  detach-Extends, expire_inactive_rooms-Extends,
}
use parrhesia_backend.Rooms.{
  Participant, Room, App, PeerSnapshot, joined, snapshot, attach, join, join_room, detach,
  expire_inactive_rooms,
}

-- The people of a snapshot.
abbrev pub of_snapshot : PeerSnapshot → People
of_snapshot =
    map λ (id, pk, pq, sig). (id, record { public_key = pk; pq_public_key = pq; sig = sig })

of_snapshot_lem : (m : People) → of_snapshot (snapshot m) ≡ m
unfolding snapshot
of_snapshot_lem [] = refl
of_snapshot_lem (x ∷ m) = rw (of_snapshot_lem m)

module _ (bc : Broadcast RoomEvent) where
  open bc use {Bus, Sender, Receiver, send}

  pub data Call : Type 0 where
    attaches : Option DbError → String → String → Call
    joins : String → String → Participant → ℕ → Call
    detaches : String → String → Call
    expires : Option DbError → ℤ → ℤ → Call
    -- A session relays an event through the sender that it holds.
    relays : Sender → (e : RoomEvent) → is_relay e ≡ true → Call
    -- Another part of the server changes the table.
    stores : Table → Call

  unfoldable pub step : App bc → Call → App bc
  step s (attaches f room_id conn_id) = (attach bc f room_id conn_id s).1
  step s (joins room_id conn_id p n) = (join bc room_id conn_id p n s).1
  step s (detaches room_id conn_id) = detach bc room_id conn_id s
  step s (expires f now threshold) = (expire_inactive_rooms bc f now threshold s).1
  step s (relays tx e _) = record s { bus = send tx e s.bus }
  step s (stores t) = record s { db = t }

  unfoldable pub run : App bc → List Call → App bc
  run s [] = s
  run s (c ∷ cs) = run (step s c) cs

  -- `AppState::new`: no room is in memory.
  abbrev pub fresh : Table → Bus → App bc
  fresh t b = record { db = t; rooms = []; bus = b }

  module _ (laws : BroadcastLaws bc) where
    step-Tracked : (s : App bc) (c : Call) → IsTracked bc laws s → IsTracked bc laws (step s c)
    unfolding step
    step-Tracked s (attaches f room_id conn_id) v = attach-Tracked bc laws f room_id conn_id s v
    step-Tracked s (joins room_id conn_id p n) v = join-Tracked bc laws room_id conn_id p n s v
    step-Tracked s (detaches room_id conn_id) v = detach-Tracked bc laws room_id conn_id s v
    step-Tracked s (expires f now threshold) v =
        expire_inactive_rooms-Tracked bc laws f now threshold s v
    step-Tracked s (relays tx e h) v = relay-Tracked bc laws tx e s.rooms s.bus h v
    step-Tracked s (stores t) v = v

    step-Extends : (s : App bc) (c : Call) → Extends bc laws IsEvent s.bus (step s c).bus
    unfolding step
    step-Extends s (attaches f room_id conn_id) = attach-Extends bc laws IsEvent f room_id conn_id s
    step-Extends s (joins room_id conn_id p n) =
        join-Extends bc laws IsEvent (λ e h. tt) room_id conn_id p n s
    step-Extends s (detaches room_id conn_id) =
        detach-Extends bc laws IsEvent (λ e h. tt) room_id conn_id s
    step-Extends s (expires f now threshold) =
        expire_inactive_rooms-Extends bc laws IsEvent (λ e h. tt) f now threshold s
    step-Extends s (relays tx e h) = Extends-send bc laws IsEvent tx e s.bus tt
    step-Extends s (stores t) = Extends-refl bc laws IsEvent s.bus

    run-Tracked : (s : App bc) (cs : List Call) → IsTracked bc laws s → IsTracked bc laws (run s cs)
    unfolding run
    run-Tracked s [] v = v
    run-Tracked s (c ∷ cs) v = run-Tracked (step s c) cs (step-Tracked s c v)

    run-Extends : (s : App bc) (cs : List Call) → Extends bc laws IsEvent s.bus (run s cs).bus
    unfolding run
    run-Extends s [] = Extends-refl bc laws IsEvent s.bus
    run-Extends s (c ∷ cs) =
        Extends-trans bc laws IsEvent s.bus (step s c).bus _ (step-Extends s c)
          (run-Extends (step s c) cs)

    pub fresh-Tracked : (t : Table) (b : Bus) → IsTracked bc laws (fresh t b)
    unfolding get
    fresh-Tracked t b = record {
      opened = λ id r g. cc;
      apart = λ i j r q g h k. cc;
      tracked = λ id r g. cc;
    }

    -- After any history of a new server, every room has a channel of its own, and its participants
    -- are exactly those that the events on the channel tell.
    run-fresh-Tracked :
        (t : Table) (b : Bus) (cs : List Call) → IsTracked bc laws (run (fresh t b) cs)
    run-fresh-Tracked t b cs = run-Tracked (fresh t b) cs (fresh-Tracked t b)

    -- What the events that a receiver gets make of a snapshot.
    abbrev pub seen : Receiver → PeerSnapshot → Bus → People
    seen receiver peers b =
        replay (of_snapshot peers) (drop (laws.from receiver) (laws.sent (laws.source receiver) b))

    -- What a successful `join` hands out.
    pub record Handed (room_id : String) (s : App bc) (receiver : Receiver) (peers : PeerSnapshot)
        : Type 0 where
      pub room : Room Sender
      pub found : get room_id s.rooms ≡ some room
      pub others : peers ≡ snapshot room.participants
      pub channel : laws.source receiver ≡ room.tx
      pub start : laws.from receiver ≡ length (laws.sent room.tx s.bus)

    join_room-Handed :
        (room_id conn_id : String) (p : Participant) (n : ℕ) (r : Room Sender) (s : App bc)
        (receiver : Receiver) (peers : PeerSnapshot)
        → get room_id s.rooms ≡ some r
        → (join_room bc room_id conn_id p n r s).0 ≡ joined receiver peers
        → Handed room_id s receiver peers
    unfolding join_room
    join_room-Handed room_id conn_id p n r s receiver peers g h =
        elim (Bool-cases (leb n (length r.participants))) [
          | inl e ↦ absurd (ground (arith, e))
          | inr e ↦
              let same : joined (bc.subscribe r.tx s.bus).0 (snapshot r.participants)
                  ≡ joined receiver peers =
                rw e at h in
              record {
                room = r;
                found = g;
                others = cc;
                channel = rw (← receivers same) (laws.source-subscribe r.tx s.bus);
                start = rw (← receivers same) (laws.from-subscribe r.tx s.bus);
              }
        ]
      where
        receivers : {a b : Receiver} {x y : PeerSnapshot} → joined a x ≡ joined b y → a ≡ b
        receivers q = cc

    pub join-Handed :
        (room_id conn_id : String) (p : Participant) (n : ℕ) (s : App bc) (receiver : Receiver)
        (peers : PeerSnapshot)
        → (join bc room_id conn_id p n s).0 ≡ joined receiver peers
        → Handed room_id s receiver peers
    unfolding join
    join-Handed room_id conn_id p n s receiver peers h = elim (Option-cases (get room_id s.rooms)) [
      | inl e ↦ absurd (ground (arith, e))
      | inr (r, e) ↦ join_room-Handed room_id conn_id p n r s receiver peers e (rw (e, join) at h)
    ]

    -- The events that a receiver gets, after `s` and up to a state with bus `c`.
    suffix-seen :
        (room_id : String) (s : App bc) (receiver : Receiver) (peers : PeerSnapshot) (c : Bus)
        → (k : Handed room_id s receiver peers) → Tracked bc laws s.rooms s.bus
        → Extends bc laws IsEvent s.bus c
        → Agree (replay [] (laws.sent k.room.tx c)) (seen receiver peers c)
    suffix-seen room_id s receiver peers c k v x q =
        let (es, e, _) = x.more k.room.tx (v.opened room_id k.room k.found) in
        rw
          (
            k.channel,
            e,
            k.start,
            drop-append (laws.sent k.room.tx s.bus) es,
            k.others,
            of_snapshot_lem k.room.participants,
            replay-append [] (laws.sent k.room.tx s.bus) es,
          )
          (sym (
            replay-Agree k.room.participants (replay [] (laws.sent k.room.tx s.bus)) es
              (v.tracked room_id k.room k.found) q))

    -- A client that joined a room knows who is in it: after any history before the join and any
    -- other after it, as long as the room of that channel is there, its participants are those that
    -- the events from its receiver make of the snapshot that the join returned.
    pub join_view :
        (t : Table) (b : Bus) (before later : List Call) (room_id conn_id : String)
        (p : Participant) (n : ℕ) (receiver : Receiver) (peers : PeerSnapshot) (r : Room Sender)
        → (join bc room_id conn_id p n (run (fresh t b) before)).0 ≡ joined receiver peers
        → get room_id (run (join bc room_id conn_id p n (run (fresh t b) before)).1 later).rooms
          ≡ some r
        → r.tx ≡ laws.source receiver
        → Agree r.participants (
            seen receiver peers
              (run (join bc room_id conn_id p n (run (fresh t b) before)).1 later).bus)
    join_view t b before later room_id conn_id p n receiver peers r h g e q =
        let s = run (fresh t b) before in
        let j = (join bc room_id conn_id p n s).1 in
        let u = run j later in
        let v = run-fresh-Tracked t b before in
        let k = join-Handed room_id conn_id p n s receiver peers h in
        let w = run-Tracked j later (join-Tracked bc laws room_id conn_id p n s v) in
        let x =
          Extends-trans bc laws IsEvent s.bus j.bus u.bus
            (join-Extends bc laws IsEvent (λ e h. tt) room_id conn_id p n s)
            (run-Extends j later) in
        w.tracked room_id r g q
        ∙ ap (λ y. get q (replay [] (laws.sent y u.bus))) (e ∙ k.channel)
        ∙ suffix-seen room_id s receiver peers u.bus k v x q
