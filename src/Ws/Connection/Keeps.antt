-- ===== src/Ws/Connection/Keeps.antt =====
-- What every step of a connection of src/routes/ws.rs keeps, the whole connection keeps.
use parrhesia_backend.Common.{
  ℕ, ◌≡◌, Bool, true, Option, none, some, List, [], ◌∷◌, ◌++◌, String, Result, ok, err, All,
  if◌then◌else◌, Bool-cases, inl, inr,
}
use parrhesia_backend.Common.Int.{ℤ}
use parrhesia_backend.Float.{Float}
use parrhesia_backend.Broadcast.{Broadcast}
use parrhesia_backend.Db.{DbError, update_activity}
use parrhesia_backend.Rooms.Events.{RoomEvent, sender}
use parrhesia_backend.Rooms.Replay.{is_relay}
use parrhesia_backend.Rooms.{
  Participant, App, PeerSnapshot, JoinOutcome, joined, full, room_gone, attach, join, detach,
}
use parrhesia_backend.Ws.Messages.{auth_unavailable, welcome, room_full}
use parrhesia_backend.Ws.Session.{
  Session, Effect, sent_text, sent_ping, sent_pong, closed, touched, published, Codec, round,
}
use parrhesia_backend.Ws.Session.Relay.{IsAuthentic, round-Authentic}
use parrhesia_backend.Ws.Handshake.{Keys, read_keys}
use parrhesia_backend.Server.{Live, State, app_of, put_app}
use parrhesia_backend.Ws.Connection.{
  Beat, Visit, send_json, greet, perform, serve, stay, enter, converse, connect, max_participants,
  protocol_version,
}

module _ (fl : Float) (bc : Broadcast RoomEvent) (P : State fl bc → Type 0) where
  open fl use {F}
  open bc use {Bus, Sender, send}

  -- The steps of a connection on the shared state, after its authentication, keep `P`.
  pub record IsStable (room_id uuid : String) : Type 0 where
    pub attaches :
        (f : Option DbError) (s : State fl bc)
        → P s
        → P (put_app fl bc (attach bc f room_id uuid (app_of fl bc s)).1 s)
    pub joins :
        (p : Participant) (s : State fl bc)
        → P s
        → P (put_app fl bc (join bc room_id uuid p max_participants (app_of fl bc s)).1 s)
    pub detaches :
        (s : State fl bc) → P s → P (put_app fl bc (detach bc room_id uuid (app_of fl bc s)) s)
    pub publishes :
        (tx : Sender) (e : RoomEvent) (s : State fl bc)
        → sender e ≡ some uuid
        → is_relay e ≡ true
        → P s
        → P (record s { rest = record (s.rest) { bus = send tx e s.rest.bus } })
    pub records :
        (f : Option DbError) (now : ℤ) (s : State fl bc)
        → P s
        → P (record s { db = (update_activity f now room_id s.db).1 })

  abbrev pub Keeps : (State fl bc → State fl bc) → Type 0
  Keeps f = (s : State fl bc) → P s → P (f s)

  -- Other tasks keep it too.
  pub record IsUndisturbed (v : Visit F (Live Sender Bus)) : Type 0 where
    pub arriving : Keeps v.arriving
    pub joining : Keeps v.joining
    pub leaving : Keeps v.leaving
    pub looping : All (λ b. Keeps b.others × Keeps b.recording) v.beats

  module _ (room_id uuid : String) (stable : IsStable room_id uuid) where
    perform-keeps :
        (tx : Sender) (b : Beat (State fl bc)) (effects : List Effect) (s : State fl bc)
        → Keeps b.recording
        → All (IsAuthentic uuid) effects
        → P s
        → P (perform fl bc tx room_id b effects s)
    unfolding perform
    perform-keeps tx b [] s k a p = p
    perform-keeps tx b (touched ∷ effects) s k a p =
        perform-keeps tx b effects _ k a.1 (k _ (stable.records b.failure b.timestamp s p))
    perform-keeps tx b (published e ∷ effects) s k a p =
        perform-keeps tx b effects _ k a.1 (stable.publishes tx e s a.0.0 a.0.1 p)
    perform-keeps tx b (sent_text _ ∷ effects) s k a p = perform-keeps tx b effects s k a.1 p
    perform-keeps tx b (sent_ping ∷ effects) s k a p = perform-keeps tx b effects s k a.1 p
    perform-keeps tx b (sent_pong _ ∷ effects) s k a p = perform-keeps tx b effects s k a.1 p
    perform-keeps tx b (closed ∷ effects) s k a p = perform-keeps tx b effects s k a.1 p

    module _ (codec : Codec) where
      serve-keeps :
          (tx : Sender) (beats : List (Beat (State fl bc))) (session : Session F) (s : State fl bc)
          → All (λ b. Keeps b.others × Keeps b.recording) beats
          → P s
          → P (serve fl bc codec uuid tx room_id beats session s).1
      unfolding serve
      serve-keeps tx [] session s k p = p
      serve-keeps tx (b ∷ beats) session s k p =
          let r = round fl codec uuid b.alive b.input session in
          let done =
            perform-keeps tx b r.1 (b.others s) k.0.1
              (round-Authentic fl codec uuid b.alive b.input session) (k.0.0 s p) in
          elim (Bool-cases r.2) [
            | inl e ↦ rw e (serve-keeps tx beats r.0 _ k.1 done)
            | inr e ↦ rw e done
          ]

  module _ (room_id : String) (codec : Codec) (v : Visit F (Live Sender Bus))
      (stable : IsStable room_id v.uuid) (calm : IsUndisturbed v) where
    stay-keeps :
        (protected : Bool) (tx : Sender) (peers : PeerSnapshot) (s : State fl bc)
        → P s
        → P (stay fl bc codec v protected tx room_id peers s).1
    unfolding stay
    stay-keeps protected tx peers s p =
        elim (Bool-cases (greet codec protected v.joined_sent v.peers_sent peers).1) [
          | inl e ↦ rw e (serve-keeps room_id v.uuid stable codec tx v.beats _ s calm.looping p)
          | inr e ↦ rw e p
        ]

    enter-keeps :
        (protected : Bool) (tx : Sender) (keys : Keys) (s : State fl bc)
        → P s
        → P (enter fl bc codec v protected tx room_id keys s).1
    unfolding enter
    enter-keeps protected tx (key, pq_key, sig) s p = go outcome.0
      where
        participant : Participant
        participant = record { public_key = key; pq_public_key = pq_key; sig = sig }

        outcome : JoinOutcome bc.Receiver × App bc
        outcome = join bc room_id v.uuid participant max_participants (app_of fl bc s)

        after : P (put_app fl bc outcome.1 s)
        after = stable.joins participant s p

        go :
            (o : JoinOutcome bc.Receiver)
            → P
                (elim o as (λ x. List Effect × State fl bc) [
                  | joined receiver peers ↦
                      stay fl bc codec v protected tx room_id peers (put_app fl bc outcome.1 s)
                  | full ↦ ((send_json codec true room_full).0, put_app fl bc outcome.1 s)
                  | room_gone ↦ ([], put_app fl bc outcome.1 s)
                ]).1
        go (joined receiver peers) = stay-keeps protected tx peers _ after
        go full = after
        go room_gone = after

    converse-keeps :
        (decode : String → Option ℕ) (protected : Bool)
        → (attached : Sender × Bool × Option String) (s : State fl bc) → P s
        → P (converse fl bc codec decode v protected attached room_id s).1
    unfolding converse
    converse-keeps decode protected (tx, is_creator, creator_id) s p = elim (Bool-cases sent) [
      | inl e ↦ rw e (go (read_keys decode codec v.frames))
      | inr e ↦ rw e p
    ]
      where
        sent : Bool
        sent =
            (send_json codec v.welcome_sent
              (welcome (if protected then 2 else protocol_version) v.uuid is_creator creator_id)).1

        wrote : List Effect
        wrote =
            (send_json codec v.welcome_sent
              (welcome (if protected then 2 else protocol_version) v.uuid is_creator creator_id)).0

        go :
            (k : Option (Option Keys))
            → P
                (elim k as (λ x. List Effect × State fl bc) [
                  | none ↦ (wrote, s)
                  | some none ↦ (wrote, s)
                  | some (some keys) ↦
                      (let rest = enter fl bc codec v protected tx room_id keys (v.joining s) in
                        (wrote ++ rest.0, rest.1))
                ]).1
        go none = p
        go (some none) = p
        go (some (some keys)) = enter-keeps protected tx keys _ (calm.joining s p)

    pub connect-keeps :
        (decode : String → Option ℕ) (protected : Bool) (s : State fl bc)
        → P s
        → P (connect fl bc codec decode v protected room_id s).1
    unfolding connect
    connect-keeps decode protected s p = go reply.0
      where
        reply : Result (Option (Sender × Bool × Option String)) DbError × App bc
        reply = attach bc v.failure room_id v.uuid (app_of fl bc (v.arriving s))

        after : P (put_app fl bc reply.1 (v.arriving s))
        after = stable.attaches v.failure (v.arriving s) (calm.arriving s p)

        go :
            (r : Result (Option (Sender × Bool × Option String)) DbError)
            → P
                (elim r as (λ x. List Effect × State fl bc) [
                  | err _ ↦ (
                    (send_json codec true auth_unavailable).0,
                    put_app fl bc reply.1 (v.arriving s),
                  )
                  | ok none ↦ (
                    (send_json codec true auth_unavailable).0,
                    put_app fl bc reply.1 (v.arriving s),
                  )
                  | ok (some attached) ↦
                      (let (wrote, s3) =
                          converse fl bc codec decode v protected attached room_id
                            (put_app fl bc reply.1 (v.arriving s)) in
                        let s4 = v.leaving s3 in
                        (wrote, put_app fl bc (detach bc room_id v.uuid (app_of fl bc s4)) s4))
                ]).1
        go (err _) = after
        go (ok none) = after
        go (ok (some attached)) =
            stable.detaches _ (calm.leaving _ (converse-keeps decode protected attached _ after))
