-- ===== src/Ws/Turns/Speech.antt =====
-- The events under the id of a connection of src/routes/ws.rs.
use parrhesia_backend.Common.{
  ◌≡◌, refl, ap, Bool, true, false, ◌&&◌, not, List, [], ◌∷◌, ◌++◌, String, string_eq, ◌==◌,
  ==-refl, Bool-cases, inl, inr, All, if◌then◌else◌, some_inj,
}
use parrhesia_backend.Rooms.Events.{
  RoomEvent, peer_joined, chat, tree_commit, tree_welcome, typing, peer_left, room_expired, sender,
}
use parrhesia_backend.Rooms.Growth.{is_notice, IsNotice}
use parrhesia_backend.Ws.Session.{
  Effect, sent_text, sent_ping, sent_pong, closed, touched, published, is_own,
}
use parrhesia_backend.Ws.Session.Relay.{IsAuthentic}

-- A client's own event, and not one that tells of a membership or of an expiry.
abbrev pub says : String → RoomEvent → Bool
says id e = not (is_notice e) && is_own id (sender e)

abbrev pub spoken : String → List RoomEvent → List RoomEvent
spoken id [] = []
spoken id (e ∷ es) = let rest = spoken id es in if says id e then e ∷ rest else rest

pub spoken-append :
    (id : String) (xs ys : List RoomEvent) → spoken id (xs ++ ys) ≡ spoken id xs ++ spoken id ys
spoken-append id [] ys = refl
spoken-append id (e ∷ xs) ys = elim (Bool-cases (says id e)) [
  | inl h ↦ rw h (ap (λ l. e ∷ l) (spoken-append id xs ys))
  | inr h ↦ rw h (spoken-append id xs ys)
]

pub spoken-notices : (id : String) (es : List RoomEvent) → All IsNotice es → spoken id es ≡ []
spoken-notices id [] h = refl
spoken-notices id (e ∷ es) (h, hs) = rw h (spoken-notices id es hs)

own : (from id : String) → from ≡ id → (from == id) ≡ true
own from id e = rw e (==-refl id)

pub says-authentic : (id : String) (e : RoomEvent) → IsAuthentic id (published e) → says id e ≡ true
unfolding sender
says-authentic id (chat from _ _ _) (h, r) = own from id (some_inj h)
says-authentic id (tree_commit from _) (h, r) = own from id (some_inj h)
says-authentic id (tree_welcome from _ _) (h, r) = own from id (some_inj h)
says-authentic id (typing from) (h, r) = own from id (some_inj h)
says-authentic id (peer_joined _ _ _ _) (h, r) = cc
says-authentic id (peer_left _) (h, r) = cc
says-authentic id room_expired (h, r) = cc

-- An event has one sender.
pub says-apart :
    (id j : String) (e : RoomEvent)
    → IsAuthentic id (published e)
    → (id == j) ≡ false
    → says j e ≡ false
says-apart id j e (h, r) n = elim (Bool-cases (is_notice e)) [
  | inl k ↦ rw (h, k) refl
  | inr k ↦ rw (h, k, n) refl
]

-- The events among the effects.
abbrev pub outgoing : List Effect → List RoomEvent
outgoing [] = []
outgoing (published e ∷ xs) = e ∷ outgoing xs
outgoing (_ ∷ xs) = outgoing xs

pub outgoing-append : (xs ys : List Effect) → outgoing (xs ++ ys) ≡ outgoing xs ++ outgoing ys
outgoing-append [] ys = refl
outgoing-append (published e ∷ xs) ys = ap (λ l. e ∷ l) (outgoing-append xs ys)
outgoing-append (sent_text _ ∷ xs) ys = outgoing-append xs ys
outgoing-append (sent_ping ∷ xs) ys = outgoing-append xs ys
outgoing-append (sent_pong _ ∷ xs) ys = outgoing-append xs ys
outgoing-append (closed ∷ xs) ys = outgoing-append xs ys
outgoing-append (touched ∷ xs) ys = outgoing-append xs ys
