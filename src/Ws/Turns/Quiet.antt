-- ===== src/Ws/Turns/Quiet.antt =====
-- What the rounds and the join of one connection of src/routes/ws.rs publish.
use parrhesia_backend.Common.{
  ℕ, ◌≡◌, refl, sym, ap, ◌∙◌, Bool, true, false, Option, none, some, List, [], ◌∷◌, ◌++◌, String,
  string_eq, inl, ◌⊎◌,
}
use parrhesia_backend.Float.{Float}
use parrhesia_backend.Broadcast.{Broadcast, BroadcastLaws}
use parrhesia_backend.Server.{State, app_of, put_app}
use parrhesia_backend.Rooms.Events.{RoomEvent}
use parrhesia_backend.Rooms.Growth.{IsNotice, Extends, Extends-refl, join-Extends}
use parrhesia_backend.Rooms.{Participant, App, JoinOutcome, joined, full, room_gone, join}
use parrhesia_backend.Ws.Session.{Effect, published, Codec}
use parrhesia_backend.Ws.Session.Relay.{IsAuthentic}
use parrhesia_backend.Ws.Connection.{max_participants}
use parrhesia_backend.Ws.Turns.{
  Loop, Connection, Phase, attached, looping, leaving, left, Signal, ticks, frames, gets, Turn,
  seat, take_seat, first, pending, is_overrun, get_next, pick, after_round, next_round, start_round,
}
use parrhesia_backend.Ws.Turns.Speech.{outgoing}

module _ (fl : Float) (bc : Broadcast RoomEvent) (laws : BroadcastLaws bc) (codec : Codec) where
  open fl use {F}
  open bc use {Bus, Sender, Receiver, send}

  -- What a connection published.
  abbrev pub said : Option (Loop F Receiver) → List RoomEvent
  said none = []
  said (some l) = outgoing l.done

  -- A connection that did not join has no loop.
  abbrev pub IsWaiting : Connection F Sender Receiver → Type 0
  IsWaiting c = c.phase ≡ attached → c.loop ≡ none

  -- A step that publishes nothing of the client.
  pub record Quiet (c : Connection F Sender Receiver) (s : State fl bc) (t : Turn fl bc laws codec)
      : Type 0 where
    pub grows : Extends bc laws IsNotice s.rest.bus t.1.rest.bus
    pub same : said t.0.loop ≡ said c.loop

  -- A step that publishes an event of the client.
  pub record Loud (id : String) (c : Connection F Sender Receiver) (s : State fl bc)
      (t : Turn fl bc laws codec) : Type 0 where
    pub event : RoomEvent
    pub lawful : IsAuthentic id (published event)
    pub channel : t.1.rest.bus ≡ send c.tx event s.rest.bus
    pub more : said t.0.loop ≡ said c.loop ++ event ∷ []

  pub record Spoke (id : String) (c : Connection F Sender Receiver) (s : State fl bc)
      (t : Turn fl bc laws codec) : Type 0 where
    pub line : t.0.tx ≡ c.tx
    pub waits : IsWaiting t.0
    pub change : Quiet c s t ⊎ Loud id c s t

  pub Spoke-same :
      (id : String) (c d : Connection F Sender Receiver) (s : State fl bc)
      → d.tx ≡ c.tx
      → IsWaiting d
      → said d.loop ≡ said c.loop
      → Spoke id c s (d, s)
  Spoke-same id c d s e w q = record {
    line = e;
    waits = w;
    change = inl (record { grows = Extends-refl bc laws IsNotice s.rest.bus; same = q });
  }

  pick-done :
      (id : String) (alive : Bool) (signal : Signal) (l : Loop F Receiver) (b : Bus)
      → (pick fl bc laws codec id alive signal l b).0.done ≡ l.done
  pick-done id alive (ticks now) l b = refl
  pick-done id alive (frames now f) l b = refl
  pick-done id alive gets l b =
      go (is_overrun fl bc laws codec l b) (first (pending fl bc laws codec l b))
    where
      go :
          (overrun : Bool) (o : Option RoomEvent)
          → (get_next fl bc laws codec id alive overrun o l).0.done ≡ l.done
      go true o = refl
      go false none = refl
      go false (some e) = refl

  pub start_round-Spoke :
      (id : String) (alive : Bool) (signal : Signal) (c : Connection F Sender Receiver)
      (s : State fl bc)
      → IsWaiting c
      → Spoke id c s (start_round fl bc laws codec id alive signal c s, s)
  unfolding start_round
  start_round-Spoke id alive signal c s w = go c.phase
    where
      quiet : Spoke id c s (c, s)
      quiet = Spoke-same id c c s refl w refl

      after :
          (l : Loop F Receiver) (r : Loop F Receiver × Bool)
          → c.loop ≡ some l
          → r.0.done ≡ l.done
          → Spoke id c s (after_round fl bc laws codec c r, s)
      after l (m, true) e q = Spoke-same id c _ s refl (λ h. cc) (ap outgoing q ∙ ap said (sym e))
      after l (m, false) e q = Spoke-same id c _ s refl (λ h. cc) (ap outgoing q ∙ ap said (sym e))

      round :
          (l : Loop F Receiver) (xs : List Effect)
          → c.loop ≡ some l
          → Spoke id c s (
            elim xs as (λ x. Connection F Sender Receiver) [
              | [] ↦
                  after_round fl bc laws codec c
                    (pick fl bc laws codec id alive signal l s.rest.bus)
              | _ ∷ _ ↦ c
            ],
            s,
          )
      round l [] e =
          after l (pick fl bc laws codec id alive signal l s.rest.bus) e
            (pick-done id alive signal l s.rest.bus)
      round l (x ∷ xs) e = quiet

      next :
          (o : Option (Loop F Receiver))
          → c.loop ≡ o
          → Spoke id c s (next_round fl bc laws codec id alive signal c o s, s)
      next none e = quiet
      next (some l) e = round l l.todo e

      go :
          (p : Phase)
          → Spoke id c s (
            elim p as (λ x. Connection F Sender Receiver) [
              | looping ↦ next_round fl bc laws codec id alive signal c c.loop s
              | _ ↦ c
            ],
            s,
          )
      go looping = next c.loop refl
      go attached = quiet
      go leaving = quiet
      go left = quiet

  pub take_seat-Spoke :
      (id : String) (p : Participant) (greeted : Bool) (now : ℕ) (c : Connection F Sender Receiver)
      (s : State fl bc)
      → IsWaiting c
      → Spoke id c s (take_seat fl bc laws codec id p greeted now c s)
  unfolding take_seat
  take_seat-Spoke id p greeted now c s w = go c.phase refl
    where
      r : JoinOutcome Receiver × App bc
      r = join bc c.room_id id p max_participants (app_of fl bc s)

      seat-tx : (o : JoinOutcome Receiver) → (seat fl bc laws codec greeted now c o).tx ≡ c.tx
      seat-tx (joined _ _) = refl
      seat-tx full = refl
      seat-tx room_gone = refl

      seat-waits :
          (g : Bool) (o : JoinOutcome Receiver) → IsWaiting (seat fl bc laws codec g now c o)
      seat-waits true (joined _ _) h = cc
      seat-waits false (joined _ _) h = cc
      seat-waits g full h = cc
      seat-waits g room_gone h = cc

      seat-said :
          (o : JoinOutcome Receiver)
          → c.loop ≡ none
          → said (seat fl bc laws codec greeted now c o).loop ≡ said c.loop
      seat-said (joined _ _) e = ap said (sym e)
      seat-said full e = refl
      seat-said room_gone e = refl

      go :
          (q : Phase)
          → c.phase ≡ q
          → Spoke id c s (elim q as (λ x. Turn fl bc laws codec) [
            | attached ↦ (seat fl bc laws codec greeted now c r.0, put_app fl bc r.1 s)
            | _ ↦ (c, s)
          ])
      go attached h = record {
        line = seat-tx r.0;
        waits = seat-waits greeted r.0;
        change = inl (record {
          grows =
              join-Extends bc laws IsNotice (λ e k. k) c.room_id id p max_participants
                (app_of fl bc s);
          same = seat-said r.0 (w h);
        });
      }
      go looping h = Spoke-same id c c s refl w refl
      go leaving h = Spoke-same id c c s refl w refl
      go left h = Spoke-same id c c s refl w refl
