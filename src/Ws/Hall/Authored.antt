-- ===== src/Ws/Hall/Authored.antt =====
-- The authors of what the channels of src/routes/ws.rs carry, and the changes that keep them.
use parrhesia_backend.Common.{
  ◌≡◌, refl, sym, ap, ◌∙◌, Bool, true, false, some, String, string_eq, ◌==◌, ==-eq, Bool-cases, inl,
  inr, subst, if◌then◌else◌,
}
use parrhesia_backend.Common.Dict.{insert_cases, get, insert, get-insert}
use parrhesia_backend.Float.{Float}
use parrhesia_backend.Broadcast.{Broadcast, BroadcastLaws}
use parrhesia_backend.Server.{State}
use parrhesia_backend.Rooms.Events.{RoomEvent}
use parrhesia_backend.Rooms.Growth.{IsNotice, Extends}
use parrhesia_backend.Ws.Session.{Codec}
use parrhesia_backend.Ws.Turns.{Connection, Turn}
use parrhesia_backend.Ws.Hall.{Hall}
use parrhesia_backend.Ws.Turns.Speech.{spoken}
use parrhesia_backend.Ws.Turns.Quiet.{IsWaiting, Spoke}
use parrhesia_backend.Ws.Hall.Voices.{voice, voice-same, notices-voice, send-voice, send-apart}

module _ (fl : Float) (bc : Broadcast RoomEvent) (laws : BroadcastLaws bc) (codec : Codec) where
  open fl use {F}
  open bc use {Bus, Sender, Receiver, send}
  open laws use {IsOpen, sent}

  -- Each channel carries under each id what the connection with that id published there.
  pub record IsAuthored (h : Hall fl bc laws codec) : Type 0 where
    pub heard :
        (j : String) (x : Sender)
        → IsOpen x h.state.rest.bus
        → spoken j (sent x h.state.rest.bus) ≡ voice fl bc laws codec (get j h.connections) x
    pub linked :
        (j : String) (c : Connection F Sender Receiver)
        → get j h.connections ≡ some c
        → IsOpen c.tx h.state.rest.bus
    pub waiting :
        (j : String) (c : Connection F Sender Receiver)
        → get j h.connections ≡ some c
        → IsWaiting fl bc laws codec c

  -- One connection changed.
  pub insert-IsAuthored :
      (id : String) (c : Connection F Sender Receiver) (s : State fl bc) (h : Hall fl bc laws codec)
      → IsAuthored h
      → ((x : Sender) → IsOpen x h.state.rest.bus → IsOpen x s.rest.bus)
      → IsOpen c.tx s.rest.bus
      → IsWaiting fl bc laws codec c
      → ((j : String) (x : Sender)
          → (id == j) ≡ false
          → IsOpen x s.rest.bus
          → spoken j (sent x s.rest.bus) ≡ voice fl bc laws codec (get j h.connections) x)
      → ((x : Sender)
          → IsOpen x s.rest.bus
          → spoken id (sent x s.rest.bus) ≡ voice fl bc laws codec (some c) x)
      → IsAuthored (record { state = s; connections = insert id c h.connections })
  insert-IsAuthored id c s h v opens o w others own = record {
    heard = λ j x y. elim (Bool-cases (id == j)) [
      | inl e ↦
          ap (λ i. spoken i (sent x s.rest.bus)) (sym (==-eq id j e))
          ∙ own x y
          ∙ sym (
              ap (λ d. voice fl bc laws codec d x)
                (get-insert id j c h.connections ∙ chosen j (id == j) e))
      | inr e ↦
          others j x e y
          ∙ sym (
              ap (λ d. voice fl bc laws codec d x)
                (get-insert id j c h.connections ∙ passed j (id == j) e))
    ];
    linked = λ j d g. elim (insert_cases id j c d h.connections g) [
      | inl (_, q) ↦ subst (λ y. IsOpen y.tx s.rest.bus) q o
      | inr k ↦ opens d.tx (v.linked j d k)
    ];
    waiting = λ j d g. elim (insert_cases id j c d h.connections g) [
      | inl (_, q) ↦ subst (IsWaiting fl bc laws codec) q w
      | inr k ↦ v.waiting j d k
    ];
  }
    where
      chosen :
          (j : String) (t : Bool) → t ≡ true → (if t then some c else get j h.connections) ≡ some c
      chosen j t e = rw e refl

      passed :
          (j : String) (t : Bool)
          → t ≡ false
          → (if t then some c else get j h.connections) ≡ get j h.connections
      passed j t e = rw e refl

  -- The channels got notices.
  pub change-IsAuthored :
      (s : State fl bc) (h : Hall fl bc laws codec)
      → IsAuthored h
      → Extends bc laws IsNotice h.state.rest.bus s.rest.bus
      → IsAuthored (record h { state = s })
  change-IsAuthored s h v k = record {
    heard = λ j x.
        notices-voice fl bc laws codec j (get j h.connections) h.state.rest.bus s.rest.bus x k
          (v.linked j) (v.heard j x);
    linked = λ j c g. k.opens c.tx (v.linked j c g);
    waiting = v.waiting;
  }

  -- A step of the connection with the id.
  pub act-IsAuthored :
      (id : String) (c : Connection F Sender Receiver) (t : Turn fl bc laws codec)
      (h : Hall fl bc laws codec)
      → get id h.connections ≡ some c
      → IsAuthored h
      → Spoke fl bc laws codec id c h.state t
      → IsAuthored (record { state = t.1; connections = insert id t.0 h.connections })
  act-IsAuthored id c (d, s) h g v p = elim p.change [
    | inl q ↦
        insert-IsAuthored id d s h v q.grows.opens
          (subst (λ y. IsOpen y s.rest.bus) (sym p.line) (q.grows.opens c.tx (v.linked id c g)))
          p.waits
          (λ j x n.
            notices-voice fl bc laws codec j (get j h.connections) h.state.rest.bus s.rest.bus x
              q.grows (v.linked j) (v.heard j x))
          (λ x y.
            notices-voice fl bc laws codec id (get id h.connections) h.state.rest.bus s.rest.bus x
              q.grows (v.linked id) (v.heard id x) y
            ∙ ap (λ o. voice fl bc laws codec o x) g
            ∙ sym (voice-same fl bc laws codec c d x p.line q.same))
    | inr q ↦
        let b = h.state.rest.bus in
        let grow : (x : Sender) → IsOpen x b → IsOpen x s.rest.bus =
          λ x o. subst (IsOpen x) (sym q.channel) (laws.send_keeps c.tx x q.event b o) in
        let back : (x : Sender) → IsOpen x s.rest.bus → IsOpen x b =
          λ x y. laws.send_only c.tx x q.event b (subst (IsOpen x) q.channel y) in
        insert-IsAuthored id d s h v grow
          (subst (λ y. IsOpen y s.rest.bus) (sym p.line) (grow c.tx (v.linked id c g))) p.waits
          (λ j x n y.
            ap (λ a. spoken j (sent x a)) q.channel
            ∙ send-apart fl bc laws codec id j q.event c.tx x b q.lawful n
            ∙ v.heard j x (back x y))
          (λ x y.
            ap (λ a. spoken id (sent x a)) q.channel
            ∙ send-voice fl bc laws codec id q.event c d b x q.lawful p.line q.more
                (v.heard id x (back x y) ∙ ap (λ o. voice fl bc laws codec o x) g))
  ]
