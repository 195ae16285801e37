-- ===== src/Ws/Turns/Rounds.antt =====
-- The channel of a connection of src/routes/ws.rs, and what a round of its loop writes of it.
use parrhesia_backend.Common.{
  drop, drop-append, suc, ◌≡◌, refl, sym, ap, ◌∙◌, Bool, Option, none, some, List, [], ◌∷◌, ◌++◌,
  true, false, String, string_eq, arith, length, length-append, All, some_inj,
}
use mathlib.Core.List.{append-nil, append_assoc}
use parrhesia_backend.Float.{Float}
use parrhesia_backend.Broadcast.{Broadcast, BroadcastLaws}
use parrhesia_backend.Rooms.Events.{RoomEvent}
use parrhesia_backend.Rooms.Growth.{IsEvent, Extends}
use parrhesia_backend.Ws.Session.{Input, ticked, received, framed, Codec, round}
use parrhesia_backend.Ws.Session.Relay.{IsAuthentic, round-Authentic}
use parrhesia_backend.Ws.Turns.{
  Loop, Signal, ticks, frames, gets, first, pending, turn, is_overrun, get_next, pick,
}
use parrhesia_backend.Ws.Turns.Texts.{
  texts, texts-append, owed, due, due-append, of_input, round-texts,
}

first_lem :
    (xs : List RoomEvent) (e : RoomEvent)
    → first xs ≡ some e
    → (ys : List RoomEvent) × (xs ≡ e ∷ ys)
first_lem [] e h = cc
first_lem (x ∷ xs) e h = (xs, rw (some_inj h) refl)

module _ (fl : Float) (bc : Broadcast RoomEvent) (laws : BroadcastLaws bc) (codec : Codec) where
  open fl use {F}
  open bc use {Bus, Sender, Receiver, send, subscribe}
  open laws use {IsOpen, sent, source}

  -- The channel of a loop is what was there when it joined, what it heard, and what it did not get
  -- yet; its texts are those that what it heard owes.
  pub record IsServed (id : String) (l : Loop F Receiver) (b : Bus) : Type 0 where
    pub opened : IsOpen (source l.receiver) b
    pub before : List RoomEvent
    pub heard : List RoomEvent
    pub later : List RoomEvent
    pub whole : sent (source l.receiver) b ≡ (before ++ heard) ++ later
    pub began : laws.from l.receiver ≡ length before
    pub reached : l.next ≡ length (before ++ heard)
    pub written : texts (l.done ++ l.todo) ≡ due codec id heard
    pub lawful : All (IsAuthentic id) l.todo

  pub IsServed-Extends :
      (id : String) (l : Loop F Receiver) (b c : Bus)
      → Extends bc laws IsEvent b c
      → IsServed id l b
      → IsServed id l c
  IsServed-Extends id l b c x v =
      let (es, e, _) = x.more (source l.receiver) v.opened in
      record {
        opened = x.opens (source l.receiver) v.opened;
        before = v.before;
        heard = v.heard;
        later = v.later ++ es;
        whole = e ∙ ap (λ xs. xs ++ es) v.whole ∙ append_assoc (v.before ++ v.heard) v.later es;
        began = v.began;
        reached = v.reached;
        written = v.written;
        lawful = v.lawful;
      }

  pub pending_lem :
      (id : String) (l : Loop F Receiver) (b : Bus) (v : IsServed id l b)
      → pending fl bc laws codec l b ≡ v.later
  pending_lem id l b v = rw (v.whole, v.reached) (drop-append (v.before ++ v.heard) v.later)

  -- The events since the join.
  pub since :
      (id : String) (l : Loop F Receiver) (b : Bus) (v : IsServed id l b)
      → drop (laws.from l.receiver) (sent (source l.receiver) b) ≡ v.heard ++ v.later
  since id l b v =
      rw (v.began, v.whole, append_assoc v.before v.heard v.later)
        (drop-append v.before (v.heard ++ v.later))

  -- Between two rounds, all is written.
  pub wrote :
      (id : String) (l : Loop F Receiver) (b : Bus) (v : IsServed id l b)
      → l.todo ≡ []
      → texts l.done ≡ due codec id v.heard
  wrote id l b v idle =
      ap texts (sym (append-nil l.done)) ∙ ap (λ xs. texts (l.done ++ xs)) (sym idle) ∙ v.written

  -- A round that takes no event from the channel, and what it owes.
  turn-IsServed :
      (id : String) (alive : Bool) (i : Input) (l : Loop F Receiver) (b : Bus)
      → l.todo ≡ []
      → of_input codec id i ≡ []
      → IsServed id l b
      → IsServed id (turn fl bc laws codec id alive i l.next l).0 b
  turn-IsServed id alive i l b idle owes v = record {
    opened = v.opened;
    before = v.before;
    heard = v.heard;
    later = v.later;
    whole = v.whole;
    began = v.began;
    reached = v.reached;
    written =
        texts-append l.done (round fl codec id alive i l.session).1
        ∙ ap (λ xs. texts l.done ++ xs) (round-texts fl codec id alive i l.session ∙ owes)
        ∙ sym (texts-append l.done [])
        ∙ ap (λ xs. texts (l.done ++ xs)) (sym idle)
        ∙ v.written;
    lawful = round-Authentic fl codec id alive i l.session;
  }

  turn_taken :
      (id : String) (alive : Bool) (e : RoomEvent) (es : List RoomEvent) (l : Loop F Receiver)
      (b : Bus) (v : IsServed id l b)
      → l.todo ≡ []
      → v.later ≡ e ∷ es
      → IsServed id (turn fl bc laws codec id alive (received (some e)) (suc l.next) l).0 b
  turn_taken id alive e es l b v idle taken = record {
    opened = v.opened;
    before = v.before;
    heard = v.heard ++ e ∷ [];
    later = es;
    whole =
        v.whole
        ∙ ap (λ xs. (v.before ++ v.heard) ++ xs) taken
        ∙ sym (append_assoc (v.before ++ v.heard) (e ∷ []) es)
        ∙ ap (λ xs. xs ++ es) (append_assoc v.before v.heard (e ∷ []));
    began = v.began;
    reached =
        ap suc v.reached
        ∙ omega (arith, length-append (v.before ++ v.heard) (e ∷ []))
        ∙ ap length (append_assoc v.before v.heard (e ∷ []));
    written =
        texts-append l.done (round fl codec id alive (received (some e)) l.session).1
        ∙ ap (λ xs. texts l.done ++ xs)
            (round-texts fl codec id alive (received (some e)) l.session)
        ∙ ap (λ xs. xs ++ owed codec id e) (wrote id l b v idle)
        ∙ ap (λ xs. due codec id v.heard ++ xs) (sym (append-nil (owed codec id e)))
        ∙ sym (due-append codec id v.heard (e ∷ []));
    lawful = round-Authentic fl codec id alive (received (some e)) l.session;
  }

  pub pick-IsServed :
      (id : String) (alive : Bool) (signal : Signal) (l : Loop F Receiver) (b : Bus)
      → l.todo ≡ []
      → IsServed id l b
      → IsServed id (pick fl bc laws codec id alive signal l b).0 b
  pick-IsServed id alive (ticks now) l b idle v =
      turn-IsServed id alive (ticked now) l b idle refl v
  pick-IsServed id alive (frames now f) l b idle v =
      turn-IsServed id alive (framed now f) l b idle refl v
  pick-IsServed id alive gets l b idle v =
      go (is_overrun fl bc laws codec l b) (first (pending fl bc laws codec l b)) refl
    where
      go :
          (overrun : Bool) (o : Option RoomEvent)
          → first (pending fl bc laws codec l b) ≡ o
          → IsServed id (get_next fl bc laws codec id alive overrun o l).0 b
      go true o h = turn-IsServed id alive (received none) l b idle refl v
      go false none h = v
      go false (some e) h =
          let (es, taken) = first_lem (pending fl bc laws codec l b) e h in
          turn_taken id alive e es l b v idle (sym (pending_lem id l b v) ∙ taken)
