-- ===== src/Ws/Hall/Voices.antt =====
-- What a channel of src/routes/ws.rs carries under the id of a connection.
use parrhesia_backend.Common.{
  ◌≡◌, refl, sym, ap, ◌∙◌, true, false, Option, none, some, List, [], ◌∷◌, ◌++◌, String, string_eq,
  ◌==◌, inl, inr, subst, ◌≢◌,
}
use mathlib.Core.List.{append-nil}
use parrhesia_backend.Float.{Float}
use parrhesia_backend.Broadcast.{Broadcast, BroadcastLaws}
use parrhesia_backend.Rooms.Events.{RoomEvent}
use parrhesia_backend.Rooms.Growth.{IsNotice, Extends}
use parrhesia_backend.Ws.Session.{Codec, published}
use parrhesia_backend.Ws.Session.Relay.{IsAuthentic}
use parrhesia_backend.Ws.Turns.{Connection}
use parrhesia_backend.Ws.Turns.Speech.{
  says, spoken, spoken-append, spoken-notices, says-authentic, says-apart,
}
use parrhesia_backend.Ws.Turns.Quiet.{said}

module _ (fl : Float) (bc : Broadcast RoomEvent) (laws : BroadcastLaws bc) (codec : Codec) where
  open fl use {F}
  open bc use {Bus, Sender, Receiver, send}
  open laws use {IsOpen, sent}

  -- What a connection published, on the channel of its room.
  abbrev pub voice : Option (Connection F Sender Receiver) → Sender → List RoomEvent
  voice none x = []
  voice (some c) x = elim (laws.same_channel c.tx x) [
    | yes _ ↦ said fl bc laws codec c.loop
    | no _ ↦ []
  ]

  pub voice-here :
      (c : Connection F Sender Receiver) (x : Sender)
      → c.tx ≡ x
      → voice (some c) x ≡ said fl bc laws codec c.loop
  voice-here c x e =
      elim (laws.same_channel c.tx x)
        as (λ d.
          elim d as (λ y. List RoomEvent) [ yes _ ↦ said fl bc laws codec c.loop | no _ ↦ [] ]
          ≡ said fl bc laws codec c.loop) [ yes p ↦ refl | no p ↦ absurd (p e) ]

  pub voice-elsewhere :
      (c : Connection F Sender Receiver) (x : Sender) → c.tx ≢ x → voice (some c) x ≡ []
  voice-elsewhere c x n =
      elim (laws.same_channel c.tx x)
        as (λ d.
          elim d as (λ y. List RoomEvent) [ yes _ ↦ said fl bc laws codec c.loop | no _ ↦ [] ]
          ≡ []) [ yes p ↦ absurd (n p) | no p ↦ refl ]

  -- Connections that said the same on the same channel.
  pub voice-same :
      (c d : Connection F Sender Receiver) (x : Sender)
      → d.tx ≡ c.tx
      → said fl bc laws codec d.loop ≡ said fl bc laws codec c.loop
      → voice (some d) x ≡ voice (some c) x
  voice-same c d x e q = elim (laws.same_channel c.tx x) [
    | yes p ↦ voice-here d x (e ∙ p) ∙ q ∙ sym (voice-here c x p)
    | no p ↦ voice-elsewhere d x (λ k. p (sym e ∙ k)) ∙ sym (voice-elsewhere c x p)
  ]

  abbrev IsLinked : Option (Connection F Sender Receiver) → Bus → Type 0
  IsLinked o b = (c : Connection F Sender Receiver) → o ≡ some c → IsOpen c.tx b

  -- Notices change no voice.
  pub notices-voice :
      (j : String) (o : Option (Connection F Sender Receiver)) (b b' : Bus) (x : Sender)
      → Extends bc laws IsNotice b b'
      → IsLinked o b
      → (IsOpen x b → spoken j (sent x b) ≡ voice o x)
      → IsOpen x b'
      → spoken j (sent x b') ≡ voice o x
  notices-voice j o b b' x k linked h y = elim (k.fresh x y) [
    | inl z ↦
        let (es, e, a) = k.more x z in
        ap (spoken j) e
        ∙ spoken-append j (sent x b) es
        ∙ ap (λ l. spoken j (sent x b) ++ l) (spoken-notices j es a)
        ∙ append-nil (spoken j (sent x b))
        ∙ h z
    | inr (n, a) ↦ spoken-notices j (sent x b') a ∙ sym (unheard o linked n)
  ]
    where
      unheard :
          (p : Option (Connection F Sender Receiver)) → IsLinked p b → ¬ IsOpen x b → voice p x ≡ []
      unheard none l n = refl
      unheard (some c) l n = voice-elsewhere c x (λ e. n (subst (λ z. IsOpen z b) e (l c refl)))

  pub send-voice :
      (id : String) (e : RoomEvent) (c d : Connection F Sender Receiver) (b : Bus) (x : Sender)
      → IsAuthentic id (published e)
      → d.tx ≡ c.tx
      → said fl bc laws codec d.loop ≡ said fl bc laws codec c.loop ++ e ∷ []
      → spoken id (sent x b) ≡ voice (some c) x
      → spoken id (sent x (send c.tx e b)) ≡ voice (some d) x
  send-voice id e c d b x lawful line more h = elim (laws.same_channel c.tx x) [
    | yes p ↦
        ap (λ y. spoken id (sent y (send c.tx e b))) (sym p)
        ∙ ap (spoken id) (laws.sent-send c.tx e b)
        ∙ spoken-append id (sent c.tx b) (e ∷ [])
        ∙ ap (λ l. l ++ spoken id (e ∷ []))
            (ap (λ y. spoken id (sent y b)) p ∙ h ∙ voice-here c x p)
        ∙ ap (λ l. said fl bc laws codec c.loop ++ l) (alone (says-authentic id e lawful))
        ∙ sym more
        ∙ sym (voice-here d x (line ∙ p))
    | no p ↦
        ap (spoken id) (laws.sent-send_other c.tx x e b p)
        ∙ h
        ∙ voice-elsewhere c x p
        ∙ sym (voice-elsewhere d x (λ k. p (sym line ∙ k)))
  ]
    where
      alone : says id e ≡ true → spoken id (e ∷ []) ≡ e ∷ []
      alone k = rw k refl

  pub send-apart :
      (id j : String) (e : RoomEvent) (tx x : Sender) (b : Bus)
      → IsAuthentic id (published e)
      → (id == j) ≡ false
      → spoken j (sent x (send tx e b)) ≡ spoken j (sent x b)
  send-apart id j e tx x b lawful n = elim (laws.same_channel tx x) [
    | yes p ↦
        ap (λ y. spoken j (sent y (send tx e b))) (sym p)
        ∙ ap (spoken j) (laws.sent-send tx e b)
        ∙ spoken-append j (sent tx b) (e ∷ [])
        ∙ ap (λ l. spoken j (sent tx b) ++ l) (none_of (says-apart id j e lawful n))
        ∙ append-nil (spoken j (sent tx b))
        ∙ ap (λ y. spoken j (sent y b)) p
    | no p ↦ ap (spoken j) (laws.sent-send_other tx x e b p)
  ]
    where
      none_of : says j e ≡ false → spoken j (e ∷ []) ≡ []
      none_of k = rw k refl
