-- ===== src/Ws/Hall/Conversation.antt =====
-- Two clients of src/routes/ws.rs in one room.
use parrhesia_backend.Common.{
  take, take-append, drop, drop-append, length, All, refl, subst, [], ◌∷◌, ◌≤◌, Bool-cases, inl,
  inr, ◌≡◌, sym, ap, ◌∙◌, some, List, ◌++◌, String, string_eq,
}
use parrhesia_backend.Common.Dict.{get}
use mathlib.Core.Path.{ap₂}
use mathlib.Core.List.{append_assoc}
use parrhesia_backend.Float.{Float}
use parrhesia_backend.Broadcast.{Broadcast, BroadcastLaws}
use parrhesia_backend.Db.{Table}
use parrhesia_backend.Rooms.Events.{RoomEvent}
use parrhesia_backend.Ws.Session.{Codec}
use parrhesia_backend.Ws.Turns.Rounds.{IsServed, since}
use parrhesia_backend.Ws.Turns.{pending, looping, Loop, Connection}
use parrhesia_backend.Ws.Hall.{Move, run, start}
use parrhesia_backend.Ws.Turns.Texts.{texts, owed, due}
use parrhesia_backend.Ws.Turns.Speech.{says, spoken, spoken-append}
use parrhesia_backend.Ws.Turns.Quiet.{said}
use parrhesia_backend.Ws.Hall.Delivery.{run-IsServed}
use mathlib.Core.List.{Sublist, Sublistᴰ}
use parrhesia_backend.Ws.Hall.Receive.{IsNoExpiry}
use parrhesia_backend.Ws.Hall.CatchUp.{catch_up, run-catch_up}
use parrhesia_backend.Ws.Hall.Voices.{voice, voice-here}
use parrhesia_backend.Ws.Hall.Authors.{run-authored}

keep : (xs : List String) {ys zs : List String} → Sublistᴰ ys zs → Sublistᴰ (xs ++ ys) (xs ++ zs)
keep [] h = h
keep (x ∷ xs) h = Sublistᴰ.cons-cons refl (keep xs h)

skip : (xs : List String) {ys zs : List String} → Sublistᴰ ys zs → Sublistᴰ ys (xs ++ zs)
skip [] h = h
skip (x ∷ xs) h = Sublistᴰ.cons (skip xs h)

-- What is owed for some of the events is part of what is owed for all.
due-spoken :
    (codec : Codec) (speaker id : String) (es : List RoomEvent)
    → Sublistᴰ (due codec id (spoken speaker es)) (due codec id es)
due-spoken codec speaker id [] = Sublistᴰ.slnil
due-spoken codec speaker id (e ∷ es) = elim (Bool-cases (says speaker e)) [
  | inl h ↦ rw h (keep (owed codec id e) (due-spoken codec speaker id es))
  | inr h ↦ rw h (skip (owed codec id e) (due-spoken codec speaker id es))
]

module _ (fl : Float) (bc : Broadcast RoomEvent) (laws : BroadcastLaws bc) (codec : Codec) where
  open fl use {F}
  open bc use {Bus, Sender, Receiver}
  open laws use {IsOpen, sent, source}

  -- The events of a loop's channel that were there when it joined.
  abbrev pub missed : Loop F Receiver → Bus → List RoomEvent
  missed l b = take (laws.from l.receiver) (sent (source l.receiver) b)

  -- Those that came since.
  abbrev fresh : Loop F Receiver → Bus → List RoomEvent
  fresh l b = drop (laws.from l.receiver) (sent (source l.receiver) b)

  missed_lem :
      (id : String) (l : Loop F Receiver) (b : Bus) (u : IsServed fl bc laws codec id l b)
      → missed l b ≡ u.before
  missed_lem id l b u =
      rw (u.began, u.whole, append_assoc u.before u.heard u.later)
        (take-append u.before (u.heard ++ u.later))

  -- What the speaker published after the other's join.
  new_lem :
      (t : Table) (b : Bus) (ms : List Move) (speaker id : String)
      (c : Connection F Sender Receiver) (l : Loop F Receiver)
      → ((y : Sender) → ¬ IsOpen y b)
      → get speaker (run fl bc laws codec (start fl bc laws codec t b) ms).connections ≡ some c
      → c.tx ≡ source l.receiver
      → IsServed fl bc laws codec id l
          (run fl bc laws codec (start fl bc laws codec t b) ms).state.rest.bus
      → let h = run fl bc laws codec (start fl bc laws codec t b) ms in
        drop (length (spoken speaker (missed l h.state.rest.bus))) (said fl bc laws codec c.loop)
        ≡ spoken speaker (fresh l h.state.rest.bus)
  new_lem t b ms speaker id c l n g line u =
      let h = run fl bc laws codec (start fl bc laws codec t b) ms in
      let bus = h.state.rest.bus in
      let told =
        sym (voice-here fl bc laws codec c (source l.receiver) line)
        ∙ ap (λ o. voice fl bc laws codec o (source l.receiver)) (sym g)
        ∙ sym (run-authored fl bc laws codec t b ms speaker (source l.receiver) n u.opened)
        ∙ ap (spoken speaker) (u.whole ∙ append_assoc u.before u.heard u.later)
        ∙ spoken-append speaker u.before (u.heard ++ u.later)
        ∙ ap₂ (λ es fs. spoken speaker es ++ spoken speaker fs) (sym (missed_lem id l bus u))
            (sym (since fl bc laws codec id l bus u)) in
      ap (drop (length (spoken speaker (missed l bus)))) told
      ∙ drop-append (spoken speaker (missed l bus)) (spoken speaker (fresh l bus))

  -- After any history of a new server that had no channel, let two connections be on the same
  -- channel, and let the second be in its loop between two rounds, at most a hundred events behind
  -- the channel, none of which is the expiry of the room. Then as many rounds as there are such
  -- events, in each of which it receives and its client takes the write, leave it in its loop, and
  -- the texts that it owes its client for all that the first published since the second joined are
  -- among those it has then written, in the order in which the first published them.
  pub run-Hears :
      (t : Table) (b : Bus) (ms : List Move) (speaker id : String)
      (c d : Connection F Sender Receiver) (l : Loop F Receiver)
      → ((y : Sender) → ¬ IsOpen y b)
      → get speaker (run fl bc laws codec (start fl bc laws codec t b) ms).connections ≡ some c
      → get id (run fl bc laws codec (start fl bc laws codec t b) ms).connections ≡ some d
      → c.tx ≡ source l.receiver
      → d.phase ≡ looping
      → d.loop ≡ some l
      → l.todo ≡ []
      → length (
          pending fl bc laws codec l
            (run fl bc laws codec (start fl bc laws codec t b) ms).state.rest.bus)
        ≤ 100
      → All IsNoExpiry (
          pending fl bc laws codec l
            (run fl bc laws codec (start fl bc laws codec t b) ms).state.rest.bus)
      → let h = run fl bc laws codec (start fl bc laws codec t b) ms in
        let missing = pending fl bc laws codec l h.state.rest.bus in
        let earlier = spoken speaker (missed l h.state.rest.bus) in
        (l' : Loop F Receiver) × (get id
            (run fl bc laws codec h (catch_up id (length missing))).connections
          ≡ some (record d { loop = some l' }))
        × Sublist
            (due codec id (drop (length earlier) (said fl bc laws codec c.loop)))
            (texts l'.done)
  run-Hears t b ms speaker id c d l n g k line e q idle few quiet =
      let h = run fl bc laws codec (start fl bc laws codec t b) ms in
      let u = run-IsServed fl bc laws codec t b ms id d l k q in
      let (l', r, whole) = run-catch_up fl bc laws codec t b ms id d l k e q idle n few quiet in
      (
        l',
        r,
        subst (λ es. Sublist (due codec id es) (texts l'.done))
            (sym (new_lem t b ms speaker id c l n g line u))
            (subst (Sublist _) (sym whole)
              ∣ due-spoken codec speaker id (fresh l h.state.rest.bus) ∣₁),
      )
