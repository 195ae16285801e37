-- ===== src/Ws/Turns/Keeps.antt =====
-- The steps of one connection of src/routes/ws.rs, and its channel.
use parrhesia_backend.Common.{
  ◌≡◌, refl, sym, ap, ◌∙◌, Bool, true, false, Option, none, some, List, [], ◌∷◌, ◌++◌, String,
  string_eq, All, subst, if◌then◌else◌,
}
use mathlib.Core.List.{append_assoc}
use parrhesia_backend.Common.Int.{ℤ}
use parrhesia_backend.Db.{DbError}
use parrhesia_backend.Float.{Float}
use parrhesia_backend.Broadcast.{Broadcast, BroadcastLaws}
use parrhesia_backend.Server.{State, app_of, put_app}
use parrhesia_backend.Rooms.Events.{RoomEvent}
use parrhesia_backend.Rooms.Growth.{IsEvent, Extends, Extends-refl, Extends-send, detach-Extends}
use parrhesia_backend.Rooms.Laws.{detach-Tracked}
use parrhesia_backend.Rooms.Replay.{relay-Tracked}
use parrhesia_backend.Rooms.{detach}
use parrhesia_backend.Ws.Session.{
  Effect, sent_text, sent_ping, sent_pong, closed, touched, published, Codec,
}
use parrhesia_backend.Ws.Session.Relay.{IsAuthentic}
use parrhesia_backend.Ws.Connection.{perform}
use parrhesia_backend.Ws.Connection.Membership.{IsTold}
use parrhesia_backend.Ws.Turns.{
  Loop, Connection, Phase, attached, looping, leaving, left, Action, joins, quits, picks, works,
  detaches, Turn, quit, alone, do_next, work, is_idle, depart, act,
}
use parrhesia_backend.Ws.Turns.Texts.{texts}
use parrhesia_backend.Ws.Turns.Rounds.{IsServed, IsServed-Extends}
use parrhesia_backend.Ws.Turns.Served.{
  Served, Served-Extends, Keeps, Keeps-refl, start_round-Served, take_seat-Keeps,
}

module _ (fl : Float) (bc : Broadcast RoomEvent) (laws : BroadcastLaws bc) (codec : Codec) where
  open fl use {F}
  open bc use {Bus, Sender, Receiver, send, subscribe}
  open laws use {IsOpen, sent, source}

  do_next-Keeps :
      (id : String) (f : Option DbError) (t : ℤ) (c : Connection F Sender Receiver)
      (l : Loop F Receiver) (xs : List Effect) (s : State fl bc)
      → IsTold fl bc laws s
      → c.loop ≡ some l
      → l.todo ≡ xs
      → IsServed fl bc laws codec id l s.rest.bus
      → Keeps fl bc laws codec id s (do_next fl bc laws codec (alone fl bc laws codec f t) c l xs s)
  unfolding perform
  do_next-Keeps id f t c l xs s h e q v = go xs q
    where
      -- What is done of the round moves over.
      moved :
          (x : Effect) (ys : List Effect) (b : Bus)
          → l.todo ≡ x ∷ ys
          → IsServed fl bc laws codec id l b
          → IsServed fl bc laws codec id (record l { todo = ys; done = l.done ++ x ∷ [] }) b
      moved x ys b k u = record {
        opened = u.opened;
        before = u.before;
        heard = u.heard;
        later = u.later;
        whole = u.whole;
        began = u.began;
        reached = u.reached;
        written =
            ap texts (append_assoc l.done (x ∷ []) ys)
            ∙ ap (λ zs. texts (l.done ++ zs)) (sym k)
            ∙ u.written;
        lawful = (subst (All (IsAuthentic id)) k u.lawful).1;
      }

      still :
          (x : Effect) (ys : List Effect)
          → l.todo ≡ x ∷ ys
          → Keeps fl bc laws codec id s
              (record c { loop = some (record l { todo = ys; done = l.done ++ x ∷ [] }) }, s)
      still x ys k = record {
        told = h;
        extends = Extends-refl bc laws IsEvent s.rest.bus;
        served = moved x ys s.rest.bus k v;
      }

      go :
          (ys : List Effect)
          → l.todo ≡ ys
          → Keeps fl bc laws codec id s
              (do_next fl bc laws codec (alone fl bc laws codec f t) c l ys s)
      go [] k = Keeps-refl fl bc laws codec id c s h (rw e v)
      go (published y ∷ ys) k =
          let x = Extends-send bc laws IsEvent c.tx y s.rest.bus tt in
          let relayed = (subst (All (IsAuthentic id)) k v.lawful).0.1 in
          record {
            told = relay-Tracked bc laws c.tx y s.rest.rooms s.rest.bus relayed h;
            extends = x;
            served =
                moved (published y) ys (send c.tx y s.rest.bus) k
                  (IsServed-Extends fl bc laws codec id l s.rest.bus (send c.tx y s.rest.bus) x v);
          }
      go (touched ∷ ys) k = record {
        told = h;
        extends = Extends-refl bc laws IsEvent s.rest.bus;
        served = moved touched ys s.rest.bus k v;
      }
      go (sent_text json ∷ ys) k = still (sent_text json) ys k
      go (sent_ping ∷ ys) k = still sent_ping ys k
      go (sent_pong bytes ∷ ys) k = still (sent_pong bytes) ys k
      go (closed ∷ ys) k = still closed ys k

  work-Keeps :
      (id : String) (f : Option DbError) (t : ℤ) (c : Connection F Sender Receiver)
      (s : State fl bc)
      → IsTold fl bc laws s
      → Served fl bc laws codec id c.loop s.rest.bus
      → Keeps fl bc laws codec id s (work fl bc laws codec f t c s)
  unfolding work
  work-Keeps id f t c s h v = go c.loop refl v
    where
      go :
          (o : Option (Loop F Receiver))
          → c.loop ≡ o
          → Served fl bc laws codec id o s.rest.bus
          → Keeps fl bc laws codec id s (elim o as (λ x. Turn fl bc laws codec) [
            | none ↦ (c, s)
            | some l ↦ do_next fl bc laws codec (alone fl bc laws codec f t) c l l.todo s
          ])
      go none e u = Keeps-refl fl bc laws codec id c s h v
      go (some l) e u = do_next-Keeps id f t c l l.todo s h e refl u

  depart-Keeps :
      (id : String) (c : Connection F Sender Receiver) (s : State fl bc)
      → IsTold fl bc laws s
      → Served fl bc laws codec id c.loop s.rest.bus
      → Keeps fl bc laws codec id s (depart fl bc laws codec id c s)
  unfolding depart
  depart-Keeps id c s h v = go c.phase (is_idle fl bc laws codec c.loop)
    where
      gone : Turn fl bc laws codec
      gone = (record c { phase = left }, put_app fl bc (detach bc c.room_id id (app_of fl bc s)) s)

      grows : Extends bc laws IsEvent s.rest.bus gone.1.rest.bus
      grows = detach-Extends bc laws IsEvent (λ e h. tt) c.room_id id (app_of fl bc s)

      go :
          (p : Phase) (idle : Bool)
          → Keeps fl bc laws codec id s (elim p as (λ x. Turn fl bc laws codec) [
            | leaving ↦ if idle then gone else (c, s)
            | _ ↦ (c, s)
          ])
      go leaving true = record {
        told = detach-Tracked bc laws c.room_id id (app_of fl bc s) h;
        extends = grows;
        served = Served-Extends fl bc laws codec id c.loop s.rest.bus gone.1.rest.bus grows v;
      }
      go leaving false = Keeps-refl fl bc laws codec id c s h v
      go attached idle = Keeps-refl fl bc laws codec id c s h v
      go looping idle = Keeps-refl fl bc laws codec id c s h v
      go left idle = Keeps-refl fl bc laws codec id c s h v

  pub act-Keeps :
      (id : String) (a : Action) (c : Connection F Sender Receiver) (s : State fl bc)
      → IsTold fl bc laws s
      → Served fl bc laws codec id c.loop s.rest.bus
      → Keeps fl bc laws codec id s (act fl bc laws codec id a c s)
  unfolding act quit
  act-Keeps id (joins p greeted now) c s h v =
      take_seat-Keeps fl bc laws codec id p greeted now c s h v
  act-Keeps id quits c s h v = Keeps-refl fl bc laws codec id _ s h (quit-Served c.phase)
    where
      quit-Served :
          (p : Phase)
          → Served fl bc laws codec id
              (elim p as (λ x. Connection F Sender Receiver) [
                | attached ↦ record c { phase = leaving }
                | _ ↦ c
              ]).loop
              s.rest.bus
      quit-Served attached = v
      quit-Served looping = v
      quit-Served leaving = v
      quit-Served left = v
  act-Keeps id (picks alive signal) c s h v =
      Keeps-refl fl bc laws codec id _ s h
        (start_round-Served fl bc laws codec id alive signal c s v)
  act-Keeps id (works f t) c s h v = work-Keeps id f t c s h v
  act-Keeps id detaches c s h v = depart-Keeps id c s h v
