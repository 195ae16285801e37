-- ===== src/Rooms/Growth.antt =====
-- The channels of src/state.rs only grow: every method extends the history of each channel.
use parrhesia_backend.Common.{
  ℕ, ◌≤◌, ◌≡◌, refl, sym, subst, Bool, true, false, ◌⊎◌, All, All-append, ap, ◌∙◌, Option, none,
  some, List, [], ◌∷◌, ◌++◌, String, string_eq, Bool-cases, Option-cases, inl, inr, Result, ok, err,
  leb, length,
}
use mathlib.Core.List.{append-nil, append_assoc}
use parrhesia_backend.Common.Int.{ℤ}
use parrhesia_backend.Common.Dict.{get, is_some}
use parrhesia_backend.Db.{DbError, Table, room_exists, delete_inactive_rooms}
use parrhesia_backend.Broadcast.{Broadcast, BroadcastLaws}
use parrhesia_backend.Rooms.Events.{RoomEvent, peer_joined, peer_left, room_expired}
use parrhesia_backend.Rooms.Laws.{Result-cases}
use parrhesia_backend.Rooms.{
  Participant, Room, App, room_entry, attach, join, join_room, detach, detach_room, expire_room,
  expire_all, expire_reply, expire_inactive_rooms,
}

-- What the methods send themselves.
abbrev pub is_notice : RoomEvent → Bool
is_notice (peer_joined _ _ _ _) = true
is_notice (peer_left _) = true
is_notice room_expired = true
is_notice _ = false

-- Any event, and only those of the methods.
abbrev pub IsEvent : RoomEvent → Type 0
IsEvent e = Unit

abbrev pub IsNotice : RoomEvent → Type 0
IsNotice e = is_notice e ≡ true

module _ (bc : Broadcast RoomEvent) (laws : BroadcastLaws bc) (P : RoomEvent → Type 0) where
  open bc use {Bus, Sender, channel, send, subscribe}
  open laws use {IsOpen, sent, capacity}

  -- Each channel has room for a hundred events.
  abbrev pub IsRoomy : Bus → Type 0
  IsRoomy b = (x : Sender) → IsOpen x b → 100 ≤ capacity x b

  -- The channels of `b` are those of `c`, with more events at the end of each; the other channels
  -- of `c` have no events but such. All of these events have the property.
  pub record Extends (b c : Bus) : Type 0 where
    pub opens : (x : Sender) → IsOpen x b → IsOpen x c
    pub more :
        (x : Sender) → IsOpen x b → (es : List RoomEvent) × (sent x c ≡ sent x b ++ es) × All P es
    pub fresh : (x : Sender) → IsOpen x c → IsOpen x b ⊎ ((¬ IsOpen x b) × All P (sent x c))
    pub roomy : IsRoomy b → IsRoomy c

  pub Extends-refl : (b : Bus) → Extends b b
  Extends-refl b = record {
    opens = λ x o. o;
    more = λ x o. ([], sym (append-nil (sent x b)), tt);
    fresh = λ x o. inl o;
    roomy = λ r. r;
  }

  pub Extends-trans : (b c d : Bus) → Extends b c → Extends c d → Extends b d
  Extends-trans b c d h k = record {
    opens = λ x o. k.opens x (h.opens x o);
    more = λ x o.
        let (es, p, a) = h.more x o in
        let (fs, q, z) = k.more x (h.opens x o) in
        (es ++ fs, q ∙ ap (λ l. l ++ fs) p ∙ append_assoc (sent x b) es fs, All-append P es fs a z);
    fresh = λ x o. elim (k.fresh x o) [
      | inr (n, a) ↦ inr (λ y. n (h.opens x y), a)
      | inl y ↦ elim (h.fresh x y) [
        | inl z ↦ inl z
        | inr (n, a) ↦
            let (fs, q, z) = k.more x y in
            inr (n, subst (All P) (sym q) (All-append P (sent x c) fs a z))
      ]
    ];
    roomy = λ r. k.roomy (h.roomy r);
  }

  pub Extends-send : (s : Sender) (e : RoomEvent) (b : Bus) → P e → Extends b (send s e b)
  Extends-send s e b h = record {
    opens = λ x o. laws.send_keeps s x e b o;
    more = λ x o. elim (laws.same_channel s x) [
      | yes p ↦ (e ∷ [], rw (← p) (laws.sent-send s e b), (h, tt))
      | no p ↦ ([], laws.sent-send_other s x e b p ∙ sym (append-nil (sent x b)), tt)
    ];
    fresh = λ x o. inl (laws.send_only s x e b o);
    roomy = λ r x o. rw (laws.capacity-send s x e b) (r x (laws.send_only s x e b o));
  }

  Extends-subscribe : (s : Sender) (b : Bus) → Extends b (subscribe s b).1
  Extends-subscribe s b = record {
    opens = λ x o. laws.subscribe_keeps s x b o;
    more = λ x o. ([], laws.sent-subscribe s x b ∙ sym (append-nil (sent x b)), tt);
    fresh = λ x o. inl (laws.subscribe_only s x b o);
    roomy = λ r x o. rw (laws.capacity-subscribe s x b) (r x (laws.subscribe_only s x b o));
  }

  Extends-entry : (o : Option (Room Sender)) (b : Bus) → Extends b (room_entry bc o b).1
  Extends-entry (some r) b = Extends-refl b
  Extends-entry none b = record {
    opens = λ x o. laws.channel_keeps 100 b x o;
    more = λ x o. ([], laws.sent-channel_other 100 b x o ∙ sym (append-nil (sent x b)), tt);
    fresh = λ x o. elim (laws.channel_only 100 b x o) [
      | inl y ↦ inl y
      | inr e ↦ inr (
        subst (λ y. ¬ IsOpen y b) (sym e) (laws.channel_fresh 100 b),
        rw (e, laws.sent-channel 100 b) tt,
      )
    ];
    roomy = λ r x o. elim (laws.channel_only 100 b x o) [
      | inl y ↦ rw (laws.capacity-channel_other 100 b x y) (r x y)
      | inr e ↦ rw e (laws.capacity-channel 100 b)
    ];
  }

  pub attach-Extends :
      (f : Option DbError) (room_id conn_id : String) (s : App bc)
      → Extends s.bus (attach bc f room_id conn_id s).1.bus
  unfolding attach
  attach-Extends f room_id conn_id s = elim (Result-cases (room_exists f room_id s.db)) [
    | inl e ↦ rw (e, attach) (Extends-entry (get room_id s.rooms) s.bus)
    | inr (inl e) ↦ rw (e, attach) (Extends-refl s.bus)
    | inr (inr (x, e)) ↦ rw (e, attach) (Extends-refl s.bus)
  ]

  module _ (notices : (e : RoomEvent) → IsNotice e → P e) where
    join_room-Extends :
        (room_id conn_id : String) (p : Participant) (n : ℕ) (r : Room Sender) (s : App bc)
        → Extends s.bus (join_room bc room_id conn_id p n r s).1.bus
    unfolding join_room
    join_room-Extends room_id conn_id p n r s = elim (Bool-cases (leb n (length r.participants))) [
      | inl e ↦ rw e (Extends-refl s.bus)
      | inr e ↦ rw e (
          Extends-trans s.bus (subscribe r.tx s.bus).1 _ (Extends-subscribe r.tx s.bus)
            (Extends-send r.tx _ (subscribe r.tx s.bus).1 (notices _ refl)))
    ]

    pub join-Extends :
        (room_id conn_id : String) (p : Participant) (n : ℕ) (s : App bc)
        → Extends s.bus (join bc room_id conn_id p n s).1.bus
    unfolding join
    join-Extends room_id conn_id p n s = elim (Option-cases (get room_id s.rooms)) [
      | inl e ↦ rw (e, join) (Extends-refl s.bus)
      | inr (r, e) ↦ rw (e, join) (join_room-Extends room_id conn_id p n r s)
    ]

    detach_room-Extends :
        (room_id conn_id : String) (r : Room Sender) (s : App bc)
        → Extends s.bus (detach_room bc room_id conn_id r s).bus
    unfolding detach_room
    detach_room-Extends room_id conn_id r s =
        elim (Bool-cases (is_some (get conn_id r.participants))) [
          | inl e ↦ rw e (Extends-send r.tx (peer_left conn_id) s.bus (notices _ refl))
          | inr e ↦ rw e (Extends-refl s.bus)
        ]

    pub detach-Extends :
        (room_id conn_id : String) (s : App bc) → Extends s.bus (detach bc room_id conn_id s).bus
    unfolding detach
    detach-Extends room_id conn_id s = elim (Option-cases (get room_id s.rooms)) [
      | inl e ↦ rw (e, detach) (Extends-refl s.bus)
      | inr (r, e) ↦ rw (e, detach) (detach_room-Extends room_id conn_id r s)
    ]

    expire_room-Extends : (o : Option (Room Sender)) (b : Bus) → Extends b (expire_room bc o b)
    expire_room-Extends none b = Extends-refl b
    expire_room-Extends (some r) b = Extends-send r.tx room_expired b (notices _ refl)

    expire_all-Extends : (ids : List String) (s : App bc) → Extends s.bus (expire_all bc ids s).bus
    unfolding expire_all
    expire_all-Extends [] s = Extends-refl s.bus
    expire_all-Extends (id ∷ ids) s =
        Extends-trans s.bus (expire_room bc (get id s.rooms) s.bus) _
          (expire_room-Extends (get id s.rooms) s.bus) (expire_all-Extends ids _)

    expire_reply-Extends :
        (r : Result (List String) DbError × Table) (s : App bc)
        → Extends s.bus (expire_reply bc r s).1.bus
    expire_reply-Extends (err e, db) s = Extends-refl s.bus
    expire_reply-Extends (ok ids, db) s = expire_all-Extends ids (record s { db = db })

    pub expire_inactive_rooms-Extends :
        (f : Option DbError) (now threshold_secs : ℤ) (s : App bc)
        → Extends s.bus (expire_inactive_rooms bc f now threshold_secs s).1.bus
    unfolding expire_inactive_rooms
    expire_inactive_rooms-Extends f now threshold_secs s =
        expire_reply-Extends (delete_inactive_rooms f now threshold_secs s.db) s
