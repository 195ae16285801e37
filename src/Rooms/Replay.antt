-- ===== src/Rooms/Replay.antt =====
-- Who is in a room of src/state.rs, as the events on its channel tell it: each channel's history,
-- replayed, gives the participants.
use parrhesia_backend.Common.{
  ◌≡◌, ◌≢◌, refl, sym, ap, ◌∙◌, ◌⊎◌, Bool, true, false, some, List, [], ◌∷◌, ◌++◌, arith, String,
  string_eq, ◌==◌, ==-eq, Bool-cases, some_inj, inl, inr,
}
use parrhesia_backend.Common.Dict.{Dict, get, insert, remove, get-insert, get-remove}
use parrhesia_backend.Broadcast.{Broadcast, BroadcastLaws}
use parrhesia_backend.Rooms.Events.{
  RoomEvent, peer_joined, chat, tree_commit, tree_welcome, typing, peer_left, room_expired,
}
use parrhesia_backend.Rooms.{Participant, Room}

abbrev pub People : Type 0
People = Dict String Participant

-- What a client does with an event that tells of a membership.
abbrev pub apply_event : People → RoomEvent → People
apply_event m (peer_joined from pk pq sig) =
    insert from (record { public_key = pk; pq_public_key = pq; sig = sig }) m
apply_event m (peer_left from) = remove from m
apply_event m _ = m

abbrev pub replay : People → List RoomEvent → People
replay m [] = m
replay m (e ∷ es) = replay (apply_event m e) es

-- The events that no membership depends on.
abbrev pub is_relay : RoomEvent → Bool
is_relay (peer_joined _ _ _ _) = false
is_relay (peer_left _) = false
is_relay _ = true

pub replay-append :
    (m : People) (xs ys : List RoomEvent) → replay m (xs ++ ys) ≡ replay (replay m xs) ys
replay-append m [] ys = refl
replay-append m (x ∷ xs) ys = replay-append (apply_event m x) xs ys

-- The same people, in whatever order the map keeps them.
abbrev pub Agree : People → People → Type 0
Agree m n = (p : String) → get p m ≡ get p n

pub apply_event-Agree :
    (m n : People) (e : RoomEvent) → Agree m n → Agree (apply_event m e) (apply_event n e)
apply_event-Agree m n (peer_joined from pk pq sig) h p =
    rw (get-insert from p _ m, get-insert from p _ n, h p)
apply_event-Agree m n (peer_left from) h p = rw (get-remove from p m, get-remove from p n, h p)
apply_event-Agree m n (chat _ _ _ _) h p = h p
apply_event-Agree m n (tree_commit _ _) h p = h p
apply_event-Agree m n (tree_welcome _ _ _) h p = h p
apply_event-Agree m n (typing _) h p = h p
apply_event-Agree m n room_expired h p = h p

pub replay-Agree :
    (m n : People) (es : List RoomEvent) → Agree m n → Agree (replay m es) (replay n es)
replay-Agree m n [] h = h
replay-Agree m n (e ∷ es) h =
    replay-Agree (apply_event m e) (apply_event n e) es (apply_event-Agree m n e h)

pub apply_event_relay : (m : People) (e : RoomEvent) → is_relay e ≡ true → apply_event m e ≡ m
apply_event_relay m (peer_joined _ _ _ _) h = cc
apply_event_relay m (peer_left _) h = cc
apply_event_relay m (chat _ _ _ _) h = refl
apply_event_relay m (tree_commit _ _) h = refl
apply_event_relay m (tree_welcome _ _ _) h = refl
apply_event_relay m (typing _) h = refl
apply_event_relay m room_expired h = refl

module _ (bc : Broadcast RoomEvent) (laws : BroadcastLaws bc) where
  open bc use {Bus, Sender, send}
  open laws use {IsOpen, sent}

  -- The rooms have channels of their own, and each room's participants are those that the history
  -- of its channel gives.
  pub record Tracked (rooms : Dict String (Room Sender)) (b : Bus) : Type 0 where
    pub opened : (id : String) (r : Room Sender) → get id rooms ≡ some r → IsOpen r.tx b
    pub apart :
        (i j : String) (r q : Room Sender)
        → get i rooms ≡ some r
        → get j rooms ≡ some q
        → r.tx ≡ q.tx
        → i ≡ j
    pub tracked :
        (id : String) (r : Room Sender)
        → get id rooms ≡ some r
        → Agree r.participants (replay [] (sent r.tx b))

  pub remove-Tracked :
      (id : String) (rooms : Dict String (Room Sender)) (b : Bus)
      → Tracked rooms b
      → Tracked (remove id rooms) b
  remove-Tracked id rooms b v = record {
    opened = λ j r g. v.opened j r (kept j r g);
    apart = λ i j r q g k. v.apart i j r q (kept i r g) (kept j q k);
    tracked = λ j r g. v.tracked j r (kept j r g);
  }
    where
      kept :
          (j : String) (r : Room Sender) → get j (remove id rooms) ≡ some r → get j rooms ≡ some r
      kept j r g = ground (arith, get-remove id j rooms)

  sent-relay :
      (x y : Sender) (e : RoomEvent) (b : Bus)
      → is_relay e ≡ true
      → replay [] (sent y (send x e b)) ≡ replay [] (sent y b)
  sent-relay x y e b h = elim (laws.same_channel x y) [
    | yes p ↦
        rw (← p, laws.sent-send x e b)
          (replay-append [] (sent x b) (e ∷ []) ∙ apply_event_relay _ e h)
    | no p ↦ ap (replay []) (laws.sent-send_other x y e b p)
  ]

  -- A relayed event, on any channel, tells of no membership.
  pub relay-Tracked :
      (x : Sender) (e : RoomEvent) (rooms : Dict String (Room Sender)) (b : Bus)
      → is_relay e ≡ true
      → Tracked rooms b
      → Tracked rooms (send x e b)
  relay-Tracked x e rooms b h v = record {
    opened = λ j r g. laws.send_keeps x r.tx e b (v.opened j r g);
    apart = v.apart;
    tracked = λ j r g. rw (sent-relay x r.tx e b h) (v.tracked j r g);
  }

  -- A room changes, and the history of its channel with it.
  pub insert-Tracked :
      (id : String) (r : Room Sender) (rooms : Dict String (Room Sender)) (b b' : Bus)
      → Tracked rooms b
      → IsOpen r.tx b'
      → ((x : Sender) → IsOpen x b → IsOpen x b')
      → ((x : Sender) → IsOpen x b → r.tx ≢ x → sent x b' ≡ sent x b)
      → ((j : String) (q : Room Sender) → get j rooms ≡ some q → r.tx ≡ q.tx → id ≡ j)
      → Agree r.participants (replay [] (sent r.tx b'))
      → Tracked (insert id r rooms) b'
  insert-Tracked id r rooms b b' v live keeps other alone told = record {
    opened = λ j q g. elim (found j q g) [
      | inl (e, f) ↦ rw f live
      | inr (e, f) ↦ keeps q.tx (v.opened j q f)
    ];
    apart = λ i j q s g h k. elim (found i q g) [
      | inl (e, f) ↦ elim (found j s h) [
        | inl (e', f') ↦ sym (==-eq id i e) ∙ ==-eq id j e'
        | inr (e', f') ↦ sym (==-eq id i e) ∙ alone j s f' (sym (ap (λ x. x.tx) f) ∙ k)
      ]
      | inr (e, f) ↦ elim (found j s h) [
        | inl (e', f') ↦ sym (alone i q f (sym (k ∙ ap (λ x. x.tx) f'))) ∙ ==-eq id j e'
        | inr (e', f') ↦ v.apart i j q s f f' k
      ]
    ];
    tracked = λ j q g. elim (found j q g) [
      | inl (e, f) ↦ rw f told
      | inr (e, f) ↦
          rw (other q.tx (v.opened j q f) (λ k. not_same id j e (alone j q f k))) (v.tracked j q f)
    ];
  }
    where
      found :
          (j : String) (q : Room Sender)
          → get j (insert id r rooms) ≡ some q
          → (((id == j) ≡ true) × (q ≡ r)) ⊎ (((id == j) ≡ false) × (get j rooms ≡ some q))
      found j q g = elim (Bool-cases (id == j)) [
        | inl e ↦ inl (e, some_inj (sym g ∙ get-insert id j r rooms ∙ rw e))
        | inr e ↦ inr (e, sym (get-insert id j r rooms ∙ rw e) ∙ g)
      ]

      not_same : (i j : String) → (i == j) ≡ false → i ≡ j → ⊥
      not_same i j e p = ground (arith, string_eq.same_iff i j)
