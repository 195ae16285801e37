-- ===== src/Ws/Turns/Publishing.antt =====
-- What the steps of one connection of src/routes/ws.rs publish.
use parrhesia_backend.Common.{
  ◌≡◌, refl, sym, ap, ◌∙◌, Bool, true, false, Option, none, some, List, [], ◌∷◌, ◌++◌, String,
  string_eq, inl, inr, All, arith, if◌then◌else◌,
}
use mathlib.Core.List.{append-nil}
use parrhesia_backend.Common.Int.{ℤ}
use parrhesia_backend.Db.{DbError}
use parrhesia_backend.Float.{Float}
use parrhesia_backend.Broadcast.{Broadcast, BroadcastLaws}
use parrhesia_backend.Server.{State, app_of, put_app}
use parrhesia_backend.Rooms.Events.{RoomEvent}
use parrhesia_backend.Rooms.Growth.{IsNotice, Extends-refl, detach-Extends}
use parrhesia_backend.Rooms.{detach}
use parrhesia_backend.Ws.Session.{
  Effect, sent_text, sent_ping, sent_pong, closed, touched, published, Codec,
}
use parrhesia_backend.Ws.Session.Relay.{IsAuthentic}
use parrhesia_backend.Ws.Connection.{perform}
use parrhesia_backend.Ws.Turns.{
  Loop, Connection, Phase, attached, looping, leaving, left, Action, joins, quits, picks, works,
  detaches, Turn, quit, alone, do_next, work, is_idle, depart, act,
}
use parrhesia_backend.Ws.Turns.Served.{Served}
use parrhesia_backend.Ws.Turns.Speech.{outgoing, outgoing-append}
use parrhesia_backend.Ws.Turns.Quiet.{
  said, IsWaiting, Spoke, Spoke-same, start_round-Spoke, take_seat-Spoke,
}

module _ (fl : Float) (bc : Broadcast RoomEvent) (laws : BroadcastLaws bc) (codec : Codec) where
  open fl use {F}
  open bc use {Bus, Sender, Receiver, send}

  do_next-Spoke :
      (id : String) (f : Option DbError) (t : ℤ) (c : Connection F Sender Receiver)
      (l : Loop F Receiver) (xs : List Effect) (s : State fl bc)
      → IsWaiting fl bc laws codec c
      → c.loop ≡ some l
      → All (IsAuthentic id) xs
      → Spoke fl bc laws codec id c s
          (do_next fl bc laws codec (alone fl bc laws codec f t) c l xs s)
  unfolding perform
  do_next-Spoke id f t c l xs s w e h = go xs h
    where
      after : Effect → List Effect → Connection F Sender Receiver
      after x ys = record c { loop = some (record l { todo = ys; done = l.done ++ x ∷ [] }) }

      waiting : (x : Effect) (ys : List Effect) → IsWaiting fl bc laws codec (after x ys)
      waiting x ys k = absurd (ground (arith, w k, e))

      more :
          (x : Effect) (ys : List Effect)
          → said fl bc laws codec (after x ys).loop
            ≡ said fl bc laws codec c.loop ++ outgoing (x ∷ [])
      more x ys =
          outgoing-append l.done (x ∷ [])
          ∙ ap (λ o. said fl bc laws codec o ++ outgoing (x ∷ [])) (sym e)

      silent :
          (x : Effect) (ys : List Effect)
          → outgoing (x ∷ []) ≡ []
          → said fl bc laws codec (after x ys).loop ≡ said fl bc laws codec c.loop
      silent x ys k =
          more x ys
          ∙ ap (λ zs. said fl bc laws codec c.loop ++ zs) k
          ∙ append-nil (said fl bc laws codec c.loop)

      still :
          (x : Effect) (ys : List Effect)
          → outgoing (x ∷ []) ≡ []
          → Spoke fl bc laws codec id c s (after x ys, s)
      still x ys k =
          Spoke-same fl bc laws codec id c (after x ys) s refl (waiting x ys) (silent x ys k)

      go :
          (ys : List Effect)
          → All (IsAuthentic id) ys
          → Spoke fl bc laws codec id c s
              (do_next fl bc laws codec (alone fl bc laws codec f t) c l ys s)
      go [] k = Spoke-same fl bc laws codec id c c s refl w refl
      go (published y ∷ ys) (k, ks) = record {
        line = refl;
        waits = waiting (published y) ys;
        change =
            inr (record { event = y; lawful = k; channel = refl; more = more (published y) ys });
      }
      go (touched ∷ ys) k = record {
        line = refl;
        waits = waiting touched ys;
        change = inl (record {
          grows = Extends-refl bc laws IsNotice s.rest.bus;
          same = silent touched ys refl;
        });
      }
      go (sent_text json ∷ ys) k = still (sent_text json) ys refl
      go (sent_ping ∷ ys) k = still sent_ping ys refl
      go (sent_pong bytes ∷ ys) k = still (sent_pong bytes) ys refl
      go (closed ∷ ys) k = still closed ys refl

  work-Spoke :
      (id : String) (f : Option DbError) (t : ℤ) (c : Connection F Sender Receiver)
      (s : State fl bc)
      → IsWaiting fl bc laws codec c
      → Served fl bc laws codec id c.loop s.rest.bus
      → Spoke fl bc laws codec id c s (work fl bc laws codec f t c s)
  unfolding work
  work-Spoke id f t c s w v = go c.loop refl v
    where
      go :
          (o : Option (Loop F Receiver))
          → c.loop ≡ o
          → Served fl bc laws codec id o s.rest.bus
          → Spoke fl bc laws codec id c s (elim o as (λ x. Turn fl bc laws codec) [
            | none ↦ (c, s)
            | some l ↦ do_next fl bc laws codec (alone fl bc laws codec f t) c l l.todo s
          ])
      go none e u = Spoke-same fl bc laws codec id c c s refl w refl
      go (some l) e u = do_next-Spoke id f t c l l.todo s w e u.lawful

  depart-Spoke :
      (id : String) (c : Connection F Sender Receiver) (s : State fl bc)
      → IsWaiting fl bc laws codec c
      → Spoke fl bc laws codec id c s (depart fl bc laws codec id c s)
  unfolding depart
  depart-Spoke id c s w = go c.phase (is_idle fl bc laws codec c.loop)
    where
      gone : Turn fl bc laws codec
      gone = (record c { phase = left }, put_app fl bc (detach bc c.room_id id (app_of fl bc s)) s)

      go :
          (p : Phase) (idle : Bool)
          → Spoke fl bc laws codec id c s (elim p as (λ x. Turn fl bc laws codec) [
            | leaving ↦ if idle then gone else (c, s)
            | _ ↦ (c, s)
          ])
      go leaving true = record {
        line = refl;
        waits = λ h. cc;
        change = inl (record {
          grows = detach-Extends bc laws IsNotice (λ e k. k) c.room_id id (app_of fl bc s);
          same = refl;
        });
      }
      go leaving false = Spoke-same fl bc laws codec id c c s refl w refl
      go attached idle = Spoke-same fl bc laws codec id c c s refl w refl
      go looping idle = Spoke-same fl bc laws codec id c c s refl w refl
      go left idle = Spoke-same fl bc laws codec id c c s refl w refl

  -- A step of a connection publishes at most one event, which is the client's own.
  pub act-Spoke :
      (id : String) (a : Action) (c : Connection F Sender Receiver) (s : State fl bc)
      → IsWaiting fl bc laws codec c
      → Served fl bc laws codec id c.loop s.rest.bus
      → Spoke fl bc laws codec id c s (act fl bc laws codec id a c s)
  unfolding act quit
  act-Spoke id (joins p greeted now) c s w v =
      take_seat-Spoke fl bc laws codec id p greeted now c s w
  act-Spoke id quits c s w v = go c.phase
    where
      go :
          (p : Phase)
          → Spoke fl bc laws codec id c s (
            elim p as (λ x. Connection F Sender Receiver) [
              | attached ↦ record c { phase = leaving }
              | _ ↦ c
            ],
            s,
          )
      go attached = Spoke-same fl bc laws codec id c _ s refl (λ h. cc) refl
      go looping = Spoke-same fl bc laws codec id c c s refl w refl
      go leaving = Spoke-same fl bc laws codec id c c s refl w refl
      go left = Spoke-same fl bc laws codec id c c s refl w refl
  act-Spoke id (picks alive signal) c s w v =
      start_round-Spoke fl bc laws codec id alive signal c s w
  act-Spoke id (works f t) c s w v = work-Spoke id f t c s w v
  act-Spoke id detaches c s w v = depart-Spoke id c s w
