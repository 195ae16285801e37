-- ===== src/Ws/Turns/Served.antt =====
-- The rounds and the join of one connection of src/routes/ws.rs, and its channel.
use parrhesia_backend.Common.{
  ℕ, ◌≡◌, refl, sym, ap, ◌∙◌, Bool, Option, none, some, List, [], ◌∷◌, ◌++◌, String, string_eq,
  length,
}
use mathlib.Core.List.{append-nil}
use parrhesia_backend.Float.{Float}
use parrhesia_backend.Broadcast.{Broadcast, BroadcastLaws}
use parrhesia_backend.Server.{State, app_of, put_app}
use parrhesia_backend.Rooms.Events.{RoomEvent}
use parrhesia_backend.Rooms.Histories.{Handed, join-Handed}
use parrhesia_backend.Rooms.Growth.{IsEvent, Extends, Extends-refl, join-Extends}
use parrhesia_backend.Rooms.Laws.{IsTracked, join-Tracked}
use parrhesia_backend.Rooms.{
  PeerSnapshot, Participant, App, JoinOutcome, joined, full, room_gone, join,
}
use parrhesia_backend.Ws.Session.{Effect, Codec}
use parrhesia_backend.Ws.Connection.{max_participants}
use parrhesia_backend.Ws.Connection.Membership.{IsTold}
use parrhesia_backend.Ws.Turns.{
  Loop, Connection, Phase, attached, looping, leaving, left, Signal, Turn, new_loop, seat,
  take_seat, pick, after_round, next_round, start_round,
}
use parrhesia_backend.Ws.Turns.Rounds.{IsServed, IsServed-Extends, pick-IsServed}

module _ (fl : Float) (bc : Broadcast RoomEvent) (laws : BroadcastLaws bc) (codec : Codec) where
  open fl use {F}
  open bc use {Bus, Sender, Receiver, send, subscribe}
  open laws use {IsOpen, sent, source}

  -- The loop of a connection, if it is in one.
  abbrev pub Served : String → Option (Loop F Receiver) → Bus → Type 0
  Served id none b = Unit
  Served id (some l) b = IsServed fl bc laws codec id l b

  pub Served-Extends :
      (id : String) (o : Option (Loop F Receiver)) (b c : Bus)
      → Extends bc laws IsEvent b c
      → Served id o b
      → Served id o c
  Served-Extends id none b c x v = tt
  Served-Extends id (some l) b c x v = IsServed-Extends fl bc laws codec id l b c x v

  -- What a step of a connection keeps.
  pub record Keeps (id : String) (s : State fl bc) (t : Turn fl bc laws codec) : Type 0 where
    pub told : IsTold fl bc laws t.1
    pub extends : Extends bc laws IsEvent s.rest.bus t.1.rest.bus
    pub served : Served id t.0.loop t.1.rest.bus

  pub Keeps-refl :
      (id : String) (c : Connection F Sender Receiver) (s : State fl bc)
      → IsTold fl bc laws s
      → Served id c.loop s.rest.bus
      → Keeps id s (c, s)
  Keeps-refl id c s h v = record {
    told = h;
    extends = Extends-refl bc laws IsEvent s.rest.bus;
    served = v;
  }

  next_round-Served :
      (id : String) (alive : Bool) (signal : Signal) (c : Connection F Sender Receiver)
      (o : Option (Loop F Receiver)) (s : State fl bc)
      → c.loop ≡ o
      → Served id o s.rest.bus
      → Served id (next_round fl bc laws codec id alive signal c o s).loop s.rest.bus
  next_round-Served id alive signal c none s e v = rw e v
  next_round-Served id alive signal c (some l) s e v = go l.todo refl
    where
      go :
          (xs : List Effect)
          → l.todo ≡ xs
          → Served id
              (elim xs as (λ x. Connection F Sender Receiver) [
                | [] ↦
                    after_round fl bc laws codec c
                      (pick fl bc laws codec id alive signal l s.rest.bus)
                | _ ∷ _ ↦ c
              ]).loop
              s.rest.bus
      go [] h = pick-IsServed fl bc laws codec id alive signal l s.rest.bus h v
      go (x ∷ xs) h = rw e v

  pub start_round-Served :
      (id : String) (alive : Bool) (signal : Signal) (c : Connection F Sender Receiver)
      (s : State fl bc)
      → Served id c.loop s.rest.bus
      → Served id (start_round fl bc laws codec id alive signal c s).loop s.rest.bus
  unfolding start_round
  start_round-Served id alive signal c s v = go c.phase
    where
      go :
          (p : Phase)
          → Served id
              (elim p as (λ x. Connection F Sender Receiver) [
                | looping ↦ next_round fl bc laws codec id alive signal c c.loop s
                | _ ↦ c
              ]).loop
              s.rest.bus
      go looping = next_round-Served id alive signal c c.loop s refl v
      go attached = v
      go leaving = v
      go left = v

  new_loop-IsServed :
      (id : String) (receiver : Receiver) (now : ℕ) (room_id : String) (a : App bc)
      (peers : PeerSnapshot) (b : Bus)
      → IsTracked bc laws a
      → Extends bc laws IsEvent a.bus b
      → Handed bc laws room_id a receiver peers
      → IsServed fl bc laws codec id (new_loop fl bc laws codec receiver now) b
  new_loop-IsServed id receiver now room_id a peers b h x k =
      let o = h.opened room_id k.room k.found in
      let (es, e, _) = x.more k.room.tx o in
      record {
        opened = rw k.channel (x.opens k.room.tx o);
        before = sent k.room.tx a.bus;
        heard = [];
        later = es;
        whole =
            ap (λ y. sent y b) k.channel
            ∙ e
            ∙ ap (λ xs. xs ++ es) (sym (append-nil (sent k.room.tx a.bus)));
        began = k.start;
        reached = k.start ∙ ap length (sym (append-nil (sent k.room.tx a.bus)));
        written = refl;
        lawful = tt;
      }

  -- A loop begins behind the `PeerJoined` of its own.
  pub take_seat-Keeps :
      (id : String) (p : Participant) (greeted : Bool) (now : ℕ) (c : Connection F Sender Receiver)
      (s : State fl bc)
      → IsTold fl bc laws s
      → Served id c.loop s.rest.bus
      → Keeps id s (take_seat fl bc laws codec id p greeted now c s)
  unfolding take_seat
  take_seat-Keeps id p greeted now c s h v = go c.phase
    where
      r : JoinOutcome Receiver × App bc
      r = join bc c.room_id id p max_participants (app_of fl bc s)

      grows : Extends bc laws IsEvent s.rest.bus r.1.bus
      grows =
          join-Extends bc laws IsEvent (λ e h. tt) c.room_id id p max_participants (app_of fl bc s)

      kept : Served id c.loop r.1.bus
      kept = Served-Extends id c.loop s.rest.bus r.1.bus grows v

      seated :
          (o : JoinOutcome Receiver)
          → r.0 ≡ o
          → Served id (seat fl bc laws codec greeted now c o).loop r.1.bus
      seated (joined receiver peers) e =
          new_loop-IsServed id receiver now c.room_id (app_of fl bc s) peers r.1.bus h grows
            (join-Handed bc laws c.room_id id p max_participants (app_of fl bc s) receiver peers e)
      seated full e = kept
      seated room_gone e = kept

      go :
          (q : Phase)
          → Keeps id s (elim q as (λ x. Turn fl bc laws codec) [
            | attached ↦ (seat fl bc laws codec greeted now c r.0, put_app fl bc r.1 s)
            | _ ↦ (c, s)
          ])
      go attached = record {
        told = join-Tracked bc laws c.room_id id p max_participants (app_of fl bc s) h;
        extends = grows;
        served = seated r.0 refl;
      }
      go looping = Keeps-refl id c s h v
      go leaving = Keeps-refl id c s h v
      go left = Keeps-refl id c s h v
