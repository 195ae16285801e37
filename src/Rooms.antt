-- ===== src/Rooms.antt =====
-- src/state.rs: the rooms in memory, their channels, and the table that decides whether a room
-- exists. Each method holds the write lock of the map from its first to its last access, so it is
-- one step on the state. A room that leaves the map keeps its channel for the sessions that hold
-- its sender.
pub mod Events
pub mod Laws
pub mod Replay
pub mod Growth
pub mod Backing
pub mod Expiry
pub mod Histories
pub mod Creator
mod Examples
use parrhesia_backend.Common.{
  ℕ, ◌≡◌, Bool, true, false, not, Option, none, some, List, [], ◌∷◌, map, String, string_eq, leb,
  if◌then◌else◌, length, Result, ok, err,
}
use parrhesia_backend.Common.Int.{ℤ}
use parrhesia_backend.Common.Dict.{Dict, get, insert, remove, is_some}
use parrhesia_backend.Db.{DbError, Table, room_exists, delete_inactive_rooms}
use parrhesia_backend.Broadcast.{Broadcast}
use Events.{RoomEvent, peer_joined, peer_left, room_expired}

pub record Participant : Type 0 where
  pub public_key : String
  pub pq_public_key : String
  pub sig : Option String

pub record Room (Sender : Type 0) : Type 0 where
  pub tx : Sender
  pub creator_id : Option String
  pub participants : Dict String Participant

abbrev pub PeerSnapshot : Type 0
PeerSnapshot = List (String × String × String × Option String)

pub data JoinOutcome (Receiver : Type 0) : Type 0 where
  joined : Receiver → PeerSnapshot → JoinOutcome Receiver
  full : JoinOutcome Receiver
  room_gone : JoinOutcome Receiver

-- The fields of `AppState` that these methods use; `bus` is the state of the channels.
pub record AppState (Sender Bus : Type 0) : Type 0 where
  pub db : Table
  pub rooms : Dict String (Room Sender)
  pub bus : Bus

abbrev pub is_empty {ℓ} : {A : Type ℓ} → List A → Bool
is_empty [] = true
is_empty (_ ∷ _) = false

unfoldable pub snapshot : Dict String Participant → PeerSnapshot
snapshot = map λ (id, p). (id, p.public_key, p.pq_public_key, p.sig)

module _ (bc : Broadcast RoomEvent) where
  open bc use {Bus, Sender, Receiver, channel, send, subscribe}

  abbrev pub App : Type 0
  App = AppState Sender Bus

  -- `Room::new`.
  abbrev pub new_room : Bus → Room Sender × Bus
  new_room b =
      let (tx, b') = channel 100 b in (record { tx = tx; creator_id = none; participants = [] }, b')

  -- `entry(room_id).or_insert_with(Room::new)`: the room and the state of the channels.
  abbrev pub room_entry : Option (Room Sender) → Bus → Room Sender × Bus
  room_entry (some r) b = (r, b)
  room_entry none b = new_room b

  -- The sender, whether the caller is the creator, and who is.
  abbrev pub Attached : Type 0
  Attached = Sender × Bool × Option String

  abbrev pub elect : String → Room Sender → Room Sender × Bool
  elect conn_id r = elim r.creator_id [
    | none ↦ (record r { creator_id = some conn_id }, true)
    | some c ↦ (r, false)
  ]

  unfoldable pub attach :
      Option DbError → String → String → App → Result (Option Attached) DbError × App
  attach f room_id conn_id s = elim (room_exists f room_id s.db) [
    | err e ↦ (err e, s)
    | ok false ↦ (ok none, s)
    | ok true ↦
        (let (r, b) = room_entry (get room_id s.rooms) s.bus in
          let (r', is_creator) = elect conn_id r in
          (
            ok (some (r'.tx, is_creator, r'.creator_id)),
            record s { rooms = insert room_id r' s.rooms; bus = b },
          ))
  ]

  unfoldable pub join_room :
      String → String → Participant → ℕ → Room Sender → App → JoinOutcome Receiver × App
  unfolding snapshot
  join_room room_id conn_id p max_participants r s =
      if leb max_participants (length r.participants)
      then (full, s)
      else (let peers = snapshot r.participants in
          let (receiver, b) = subscribe r.tx s.bus in
          let event = peer_joined conn_id p.public_key p.pq_public_key p.sig in
          let r' = record r { participants = insert conn_id p r.participants } in
          (
            joined receiver peers,
            record s { rooms = insert room_id r' s.rooms; bus = send r.tx event b },
          ))

  unfoldable pub join : String → String → Participant → ℕ → App → JoinOutcome Receiver × App
  unfolding join_room
  join room_id conn_id p max_participants s = elim (get room_id s.rooms) [
    | none ↦ (room_gone, s)
    | some r ↦ join_room room_id conn_id p max_participants r s
  ]

  unfoldable pub detach_room : String → String → Room Sender → App → App
  detach_room room_id conn_id r s =
      let left = remove conn_id r.participants in
      let b =
        if is_some (get conn_id r.participants)
        then send r.tx (peer_left conn_id) s.bus
        else s.bus in
      let r' =
        if is_empty left
        then record r { creator_id = none; participants = left }
        else record r { participants = left } in
      record s { rooms = insert room_id r' s.rooms; bus = b }

  unfoldable pub detach : String → String → App → App
  unfolding detach_room
  detach room_id conn_id s = elim (get room_id s.rooms) [
    | none ↦ s
    | some r ↦ detach_room room_id conn_id r s
  ]

  abbrev pub expire_room : Option (Room Sender) → Bus → Bus
  expire_room none b = b
  expire_room (some r) b = send r.tx room_expired b

  -- The loop over the rooms that the database deleted.
  unfoldable pub expire_all : List String → App → App
  expire_all [] s = s
  expire_all (id ∷ ids) s =
      expire_all ids
        (record s { rooms = remove id s.rooms; bus = expire_room (get id s.rooms) s.bus })

  -- The rooms in memory follow what the database answered.
  abbrev pub expire_reply :
      Result (List String) DbError × Table → App → Result (List String) DbError × App
  expire_reply (err e, db) s = (err e, record s { db = db })
  expire_reply (ok deleted, db) s = (ok deleted, expire_all deleted (record s { db = db }))

  unfoldable pub expire_inactive_rooms :
      Option DbError → ℤ → ℤ → App → Result (List String) DbError × App
  expire_inactive_rooms f now threshold_secs s =
      expire_reply (delete_inactive_rooms f now threshold_secs s.db) s
