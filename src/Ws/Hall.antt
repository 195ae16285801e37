-- ===== src/Ws/Hall.antt =====
-- The connections of src/routes/ws.rs side by side, with the rest of the server: moves of one
-- history, in any order.
pub mod Delivery
pub mod Receive
pub mod CatchUp
mod Voices
mod Authored
pub mod Authors
pub mod Conversation
mod Examples
use parrhesia_backend.Common.{Option, none, some, List, [], ◌∷◌, String, string_eq, Result, ok, err}
use parrhesia_backend.Common.Int.{ℤ}
use parrhesia_backend.Common.Dict.{Dict, get, insert}
use parrhesia_backend.Db.{DbError, Table}
use parrhesia_backend.Float.{Float}
use parrhesia_backend.Broadcast.{Broadcast, BroadcastLaws}
use parrhesia_backend.Server.{State, app_of, put_app, new_state}
use parrhesia_backend.Rooms.Events.{RoomEvent}
use parrhesia_backend.Rooms.{Attached, attach, expire_inactive_rooms}
use parrhesia_backend.Ws.Session.{Codec}
use parrhesia_backend.Ws.Turns.{Connection, attached, Action, act}

pub data Move : Type 0 where
  attaches : Option DbError → String → String → Move
  acts : String → Action → Move
  expires : Option DbError → ℤ → ℤ → Move
  -- Another part of the server changes the table.
  stores : Table → Move

module _ (fl : Float) (bc : Broadcast RoomEvent) (laws : BroadcastLaws bc) (codec : Codec) where
  open fl use {F}
  open bc use {Bus, Sender, Receiver}

  pub record Hall : Type 0 where
    pub state : State fl bc
    pub connections : Dict String (Connection F Sender Receiver)

  -- What `attach` answered: a refused connection ends.
  abbrev pub open_connection :
      String → String → Result (Option (Attached bc)) DbError → State fl bc → Hall → Hall
  open_connection room_id id (ok (some (tx, _, _))) s h = record {
    state = s;
    connections =
        insert id (record { room_id = room_id; tx = tx; phase = attached; loop = none })
          h.connections;
  }
  open_connection room_id id (ok none) s h = record h { state = s }
  open_connection room_id id (err _) s h = record h { state = s }

  abbrev pub try_open : Option DbError → String → String → Hall → Hall
  try_open f room_id id h =
      let (reply, a) = attach bc f room_id id (app_of fl bc h.state) in
      open_connection room_id id reply (put_app fl bc a h.state) h

  -- The random ids of connections are not used twice.
  unfoldable pub step : Hall → Move → Hall
  step h (attaches f room_id id) = elim (get id h.connections) [
    | none ↦ try_open f room_id id h
    | some _ ↦ h
  ]
  step h (acts id a) = elim (get id h.connections) [
    | none ↦ h
    | some c ↦
        (let (c', s) = act fl bc laws codec id a c h.state in
          record { state = s; connections = insert id c' h.connections })
  ]
  step h (expires f now threshold) =
      let a = expire_inactive_rooms bc f now threshold (app_of fl bc h.state) in
      record h { state = put_app fl bc a.1 h.state }
  step h (stores t) = record h { state = record (h.state) { db = t } }

  unfoldable pub run : Hall → List Move → Hall
  run h [] = h
  run h (m ∷ ms) = run (step h m) ms

  -- A server that starts: no room is in memory, and nobody is connected.
  abbrev pub start : Table → Bus → Hall
  start t b = record { state = new_state fl bc t b; connections = [] }
