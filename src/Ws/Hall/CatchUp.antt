-- ===== src/Ws/Hall/CatchUp.antt =====
-- A loop of src/routes/ws.rs that goes on, whose client takes what it is written.
use parrhesia_backend.Common.{
  drop, drop-suc, ℕ, zero, suc, ◌+◌, ◌≤◌, ◌≡◌, refl, sym, ap, ◌∙◌, some, List, [], ◌∷◌, ◌++◌, map,
  String, string_eq, arith, length, All,
}
use mathlib.Core.List.{append-nil, append_assoc, map-append}
use mathlib.Core.Path.{ap₂}
use parrhesia_backend.Common.Dict.{get}
use parrhesia_backend.Float.{Float}
use parrhesia_backend.Broadcast.{Broadcast, BroadcastLaws}
use parrhesia_backend.Db.{Table}
use parrhesia_backend.Rooms.Events.{RoomEvent}
use parrhesia_backend.Ws.Session.{Session, Effect, sent_text, Codec}
use parrhesia_backend.Ws.Turns.{Loop, Connection, looping, pending}
use parrhesia_backend.Ws.Hall.{Move, Hall, run, start}
use parrhesia_backend.Ws.Turns.Rounds.{IsServed, pending_lem, since, wrote}
use parrhesia_backend.Ws.Hall.Delivery.{run-IsServed, run-IsRoomy}
use parrhesia_backend.Ws.Turns.Texts.{texts, texts-append, owed, due, due-append}
use parrhesia_backend.Ws.Hall.Receive.{IsNoExpiry, receive, written, resting, receive_lem}

abbrev pub catch_up : String → ℕ → List Move
catch_up id zero = []
catch_up id (suc n) = receive id ++ catch_up id n

-- Texts that are written are the texts that were written.
texts_written : (xs : List String) → texts (map sent_text xs) ≡ xs
texts_written [] = refl
texts_written (x ∷ xs) = ap (λ l. x ∷ l) (texts_written xs)

module _ (fl : Float) (bc : Broadcast RoomEvent) (laws : BroadcastLaws bc) (codec : Codec) where
  open fl use {F}
  open bc use {Bus, Sender, Receiver}
  open laws use {IsOpen, sent, source, from, capacity}

  module _ (id room_id : String) (tx : Sender) (receiver : Receiver) (session : Session F) where
    abbrev at : ℕ → List Effect → Connection F Sender Receiver
    at next done = resting fl bc laws codec room_id tx receiver next session done

    catch_up_lem :
        (es : List RoomEvent) (h : Hall fl bc laws codec) (next : ℕ) (done : List Effect)
        → get id h.connections ≡ some (at next done)
        → drop next (sent (source receiver) h.state.rest.bus) ≡ es
        → length es ≤ capacity (source receiver) h.state.rest.bus
        → All IsNoExpiry es
        → get id (run fl bc laws codec h (catch_up id (length es))).connections
          ≡ some (at (next + length es) (done ++ map sent_text (due codec id es)))
    unfolding run
    catch_up_lem [] h next done g p r n = g ∙ ap some (ap₂ at (omega arith) (sym (append-nil done)))
    catch_up_lem (e ∷ es) h next done g p r (n, ns) =
        let (k, q) =
          receive_lem fl bc laws codec id room_id tx receiver session h next done e es g p r n in
        let xs = sent (source receiver) h.state.rest.bus in
        catch_up_lem es (run fl bc laws codec h (receive id)) (suc next)
          (done ++ written fl codec id e) k
          (ap (λ s. drop (suc next) (sent (source receiver) s.rest.bus)) q
            ∙ drop-suc next xs e es p)
          (rw (ap (λ s. capacity (source receiver) s.rest.bus) q) (omega (arith, r))) ns
        ∙ ap some (
            ap₂ at (omega arith) (
              append_assoc done (written fl codec id e) (map sent_text (due codec id es))
              ∙ ap (λ l. done ++ l)
                  (sym (map-append sent_text (owed codec id e) (due codec id es)))))

  resting_lem :
      (c : Connection F Sender Receiver) (l : Loop F Receiver)
      → c.phase ≡ looping
      → c.loop ≡ some l
      → l.todo ≡ []
      → c ≡ resting fl bc laws codec c.room_id c.tx l.receiver l.next l.session l.done
  resting_lem c l e q k =
      ap (λ p. record c { phase = p }) e
      ∙ ap (λ o. record c { phase = looping; loop = o }) q
      ∙ ap (λ xs. record c { phase = looping; loop = some (record l { todo = xs }) }) k

  -- The loop that is not behind.
  abbrev caught_up : String → Loop F Receiver → Bus → Loop F Receiver
  caught_up id l b =
      let missing = pending fl bc laws codec l b in
      record l {
        next = l.next + length missing;
        todo = [];
        done = l.done ++ map sent_text (due codec id missing);
      }

  caught_up-texts :
      (id : String) (l : Loop F Receiver) (b : Bus)
      → IsServed fl bc laws codec id l b
      → l.todo ≡ []
      → texts (caught_up id l b).done
        ≡ due codec id (drop (from l.receiver) (sent (source l.receiver) b))
  caught_up-texts id l b u k =
      let missing = pending fl bc laws codec l b in
      texts-append l.done (map sent_text (due codec id missing))
      ∙ ap₂ ◌++◌ (wrote fl bc laws codec id l b u k) (texts_written (due codec id missing))
      ∙ sym (due-append codec id u.heard missing)
      ∙ ap (λ es. due codec id (u.heard ++ es)) (pending_lem fl bc laws codec id l b u)
      ∙ ap (due codec id) (sym (since fl bc laws codec id l b u))

  -- After any history of a new server that had no channel, let a connection be in its loop between
  -- two rounds, at most a hundred events behind its channel, none of which is the expiry of the room.
  -- Then as many rounds as there are such events, in each of which it receives and its client takes
  -- the write, leave it in its loop, and it has then written the texts of all events that its channel
  -- had after its join: a receiver that is no further behind does not lag, and none is lost.
  pub run-catch_up :
      (t : Table) (b : Bus) (ms : List Move) (id : String) (c : Connection F Sender Receiver)
      (l : Loop F Receiver)
      → get id (run fl bc laws codec (start fl bc laws codec t b) ms).connections ≡ some c
      → c.phase ≡ looping
      → c.loop ≡ some l
      → l.todo ≡ []
      → ((y : Sender) → ¬ IsOpen y b)
      → length (
          pending fl bc laws codec l
            (run fl bc laws codec (start fl bc laws codec t b) ms).state.rest.bus)
        ≤ 100
      → All IsNoExpiry (
          pending fl bc laws codec l
            (run fl bc laws codec (start fl bc laws codec t b) ms).state.rest.bus)
      → let h = run fl bc laws codec (start fl bc laws codec t b) ms in
        let missing = pending fl bc laws codec l h.state.rest.bus in
        (l' : Loop F Receiver) × (get id
            (run fl bc laws codec h (catch_up id (length missing))).connections
          ≡ some (record c { loop = some l' }))
        × (texts l'.done
            ≡ due codec id (drop (from l.receiver) (sent (source l.receiver) h.state.rest.bus)))
  run-catch_up t b ms id c l g e q k closed few n =
      let h = run fl bc laws codec (start fl bc laws codec t b) ms in
      let missing = pending fl bc laws codec l h.state.rest.bus in
      let u = run-IsServed fl bc laws codec t b ms id c l g q in
      let r =
        catch_up_lem id c.room_id c.tx l.receiver l.session missing h l.next l.done
          (g ∙ ap some (resting_lem c l e q k)) refl
          (omega
            (arith, few, run-IsRoomy fl bc laws codec t b ms closed (source l.receiver) u.opened))
          n in
      (
        caught_up id l h.state.rest.bus,
        r
            ∙ ap (λ p. some (record c { phase = p; loop = some (caught_up id l h.state.rest.bus) }))
                (sym e),
        caught_up-texts id l h.state.rest.bus u k,
      )
