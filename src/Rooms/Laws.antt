-- ===== src/Rooms/Laws.antt =====
-- Every method of src/state.rs keeps the rooms in step with what their channels tell.
use parrhesia_backend.Common.{
  ℕ, ◌≡◌, ◌≢◌, refl, sym, ap, ◌∙◌, ◌⊎◌, subst, Bool, true, false, Option, none, some, List, [], ◌∷◌,
  arith, String, string_eq, if◌then◌else◌, Bool-cases, Option-cases, inl, inr, Result, ok, err, leb,
  length,
}
use parrhesia_backend.Common.Int.{ℤ}
use parrhesia_backend.Common.Dict.{Dict, get, insert, remove, get-remove, is_some}
use parrhesia_backend.Db.{DbError, Table, room_exists, delete_inactive_rooms}
use parrhesia_backend.Broadcast.{Broadcast, BroadcastLaws}
use parrhesia_backend.Rooms.Events.{RoomEvent, peer_joined, peer_left, room_expired}
use parrhesia_backend.Rooms.Replay.{
  People, Agree, apply_event, apply_event-Agree, replay, replay-append, Tracked, insert-Tracked,
  remove-Tracked, relay-Tracked,
}
use parrhesia_backend.Rooms.{
  Participant, Room, App, elect, room_entry, attach, join, join_room, detach, detach_room,
  expire_room, expire_all, expire_reply, expire_inactive_rooms,
}

pub Result-cases :
    (r : Result Bool DbError) → (r ≡ ok true) ⊎ ((r ≡ ok false) ⊎ ((e : DbError) × (r ≡ err e)))
Result-cases (ok true) = inl refl
Result-cases (ok false) = inr (inl refl)
Result-cases (err e) = inr (inr (e, refl))

module _ (bc : Broadcast RoomEvent) (laws : BroadcastLaws bc) where
  open bc use {Bus, Sender, channel, send, subscribe}
  open laws use {IsOpen, sent}

  abbrev pub IsTracked : App bc → Type 0
  IsTracked s = Tracked bc laws s.rooms s.bus

  -- A membership that is told as it happens.
  told :
      (m n : People) (e : RoomEvent) (x : Sender) (b : Bus)
      → Agree m (replay [] (sent x b))
      → Agree n (apply_event m e)
      → Agree n (replay [] (sent x (send x e b)))
  told m n e x b h k p =
      k p
      ∙ apply_event-Agree m (replay [] (sent x b)) e h p
      ∙ ap (get p) (sym (replay-append [] (sent x b) (e ∷ [])))
      ∙ ap (λ l. get p (replay [] l)) (sym (laws.sent-send x e b))

  pub elected :
      (conn_id : String) (r : Room Sender)
      → ((elect bc conn_id r).0.tx ≡ r.tx) × ((elect bc conn_id r).0.participants ≡ r.participants)
  elected conn_id r = ground arith

  -- A room of the map changes with its channel, and the others stay.
  same_room :
      (id : String) (r q : Room Sender) (rooms : Dict String (Room Sender)) (b b' : Bus)
      → Tracked bc laws rooms b
      → get id rooms ≡ some r
      → q.tx ≡ r.tx
      → ((x : Sender) → IsOpen x b → IsOpen x b')
      → ((x : Sender) → IsOpen x b → r.tx ≢ x → sent x b' ≡ sent x b)
      → Agree q.participants (replay [] (sent r.tx b'))
      → Tracked bc laws (insert id q rooms) b'
  same_room id r q rooms b b' v g t keeps other told' =
      insert-Tracked bc laws id q rooms b b' v (rw t (keeps r.tx (v.opened id r g))) keeps
        (λ x o n. other x o (λ e. n (t ∙ e))) (λ j s h e. v.apart id j r s g h (sym t ∙ e))
        (rw t told')

  attach_entry-Tracked :
      (room_id conn_id : String) (rooms : Dict String (Room Sender)) (b : Bus)
      (o : Option (Room Sender))
      → get room_id rooms ≡ o
      → Tracked bc laws rooms b
      → let (r, b') = room_entry bc o b in
        Tracked bc laws (insert room_id (elect bc conn_id r).0 rooms) b'
  attach_entry-Tracked room_id conn_id rooms b (some r) g v =
      let (t, p) = elected conn_id r in
      same_room room_id r (elect bc conn_id r).0 rooms b b v g t (λ x o. o) (λ x o n. refl)
        (rw p (v.tracked room_id r g))
  attach_entry-Tracked room_id conn_id rooms b none g v =
      insert-Tracked bc laws room_id _ rooms b _ v (laws.channel-IsOpen 100 b)
        (λ x o. laws.channel_keeps 100 b x o) (λ x o n. laws.sent-channel_other 100 b x o)
        (λ j s h e. absurd (laws.channel_fresh 100 b (rw e (v.opened j s h))))
        (rw (laws.sent-channel 100 b) (λ p. refl))

  pub attach-Tracked :
      (f : Option DbError) (room_id conn_id : String) (s : App bc)
      → IsTracked s
      → IsTracked (attach bc f room_id conn_id s).1
  unfolding attach
  attach-Tracked f room_id conn_id s v = elim (Result-cases (room_exists f room_id s.db)) [
    | inl e ↦
        rw (e, attach)
          (attach_entry-Tracked room_id conn_id s.rooms s.bus (get room_id s.rooms) refl v)
    | inr (inl e) ↦ rw (e, attach) v
    | inr (inr (x, e)) ↦ rw (e, attach) v
  ]

  join_room-Tracked :
      (room_id conn_id : String) (p : Participant) (n : ℕ) (r : Room Sender) (s : App bc)
      → get room_id s.rooms ≡ some r
      → IsTracked s
      → IsTracked (join_room bc room_id conn_id p n r s).1
  unfolding join_room
  join_room-Tracked room_id conn_id p n r s g v =
      elim (Bool-cases (leb n (length r.participants))) [
        | inl e ↦ rw e v
        | inr e ↦ rw e (
            same_room room_id r (record r { participants = insert conn_id p r.participants })
              s.rooms s.bus _ v g refl
              (λ x o. laws.send_keeps r.tx x _ _ (laws.subscribe_keeps r.tx x s.bus o))
              (λ x o d. laws.sent-send_other r.tx x _ _ d ∙ laws.sent-subscribe r.tx x s.bus)
              (told r.participants _ (peer_joined conn_id p.public_key p.pq_public_key p.sig) r.tx _
                (rw (laws.sent-subscribe r.tx r.tx s.bus) (v.tracked room_id r g)) (λ q. refl)))
      ]

  pub join-Tracked :
      (room_id conn_id : String) (p : Participant) (n : ℕ) (s : App bc)
      → IsTracked s
      → IsTracked (join bc room_id conn_id p n s).1
  unfolding join
  join-Tracked room_id conn_id p n s v = elim (Option-cases (get room_id s.rooms)) [
    | inl e ↦ rw (e, join) v
    | inr (r, e) ↦ rw (e, join) (join_room-Tracked room_id conn_id p n r s e v)
  ]

  -- Leaving, with or without an event.
  departed :
      (conn_id : String) (r : Room Sender) (b : Bus)
      → Agree r.participants (replay [] (sent r.tx b))
      → Agree (remove conn_id r.participants) (
          replay [] (
            sent r.tx (
              if is_some (get conn_id r.participants) then send r.tx (peer_left conn_id) b else b)))
  departed conn_id r b h = elim (Bool-cases (is_some (get conn_id r.participants))) [
    | inl e ↦ rw e (told r.participants _ (peer_left conn_id) r.tx b h (λ p. refl))
    | inr e ↦ rw e λ p. absent e p ∙ h p
  ]
    where
      absent :
          is_some (get conn_id r.participants) ≡ false
          → (p : String) → get p (remove conn_id r.participants) ≡ get p r.participants
      absent e p = ground (arith, get-remove conn_id p r.participants, string_eq.same_iff conn_id p)

  detach_room-Tracked :
      (room_id conn_id : String) (r : Room Sender) (s : App bc)
      → get room_id s.rooms ≡ some r
      → IsTracked s
      → IsTracked (detach_room bc room_id conn_id r s)
  unfolding detach_room
  detach_room-Tracked room_id conn_id r s g v =
      same_room room_id r _ s.rooms s.bus _ v g (ground arith) keeps other (
        subst
          (λ m. Agree m (
            replay [] (
              sent r.tx (
                if is_some (get conn_id r.participants)
                then send r.tx (peer_left conn_id) s.bus
                else s.bus))))
          (ground arith) (departed conn_id r s.bus (v.tracked room_id r g)))
    where
      bus : Bus
      bus =
          if is_some (get conn_id r.participants)
          then send r.tx (peer_left conn_id) s.bus
          else s.bus

      keeps : (x : Sender) → IsOpen x s.bus → IsOpen x bus
      keeps x o = elim (Bool-cases (is_some (get conn_id r.participants))) [
        | inl e ↦ rw e (laws.send_keeps r.tx x _ s.bus o)
        | inr e ↦ rw e o
      ]

      other : (x : Sender) → IsOpen x s.bus → r.tx ≢ x → sent x bus ≡ sent x s.bus
      other x o d = elim (Bool-cases (is_some (get conn_id r.participants))) [
        | inl e ↦ rw e (laws.sent-send_other r.tx x _ s.bus d)
        | inr e ↦ rw e
      ]

  pub detach-Tracked :
      (room_id conn_id : String) (s : App bc)
      → IsTracked s
      → IsTracked (detach bc room_id conn_id s)
  unfolding detach
  detach-Tracked room_id conn_id s v = elim (Option-cases (get room_id s.rooms)) [
    | inl e ↦ rw (e, detach) v
    | inr (r, e) ↦ rw (e, detach) (detach_room-Tracked room_id conn_id r s e v)
  ]

  pub expire_room-Tracked :
      (o : Option (Room Sender)) (rooms : Dict String (Room Sender)) (b : Bus)
      → Tracked bc laws rooms b
      → Tracked bc laws rooms (expire_room bc o b)
  expire_room-Tracked none rooms b v = v
  expire_room-Tracked (some r) rooms b v = relay-Tracked bc laws r.tx room_expired rooms b refl v

  expire_all-Tracked :
      (ids : List String) (s : App bc) → IsTracked s → IsTracked (expire_all bc ids s)
  unfolding expire_all
  expire_all-Tracked [] s v = v
  expire_all-Tracked (id ∷ ids) s v = expire_all-Tracked ids _ (
      expire_room-Tracked (get id s.rooms) (remove id s.rooms) s.bus
        (remove-Tracked bc laws id s.rooms s.bus v))

  pub expire_inactive_rooms-Tracked :
      (f : Option DbError) (now threshold_secs : ℤ) (s : App bc)
      → IsTracked s
      → IsTracked (expire_inactive_rooms bc f now threshold_secs s).1
  unfolding expire_inactive_rooms
  expire_inactive_rooms-Tracked f now threshold_secs s v =
      go (delete_inactive_rooms f now threshold_secs s.db)
    where
      go : (r : Result (List String) DbError × Table) → IsTracked (expire_reply bc r s).1
      go (err e, db) = v
      go (ok ids, db) = expire_all-Tracked ids (record s { db = db }) v
