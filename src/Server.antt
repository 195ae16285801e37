-- ===== src/Server.antt =====
-- `AppState` of src/state.rs as the handlers share it: the admission control, the table of rooms, and
-- the rest, which the routes leave to others: the rooms in memory and the state of their channels.
use parrhesia_backend.Common.{[], String}
use parrhesia_backend.Common.Dict.{Dict}
use parrhesia_backend.Float.{Float}
use parrhesia_backend.Broadcast.{Broadcast}
use parrhesia_backend.Admission.{Admission, default}
use parrhesia_backend.Db.{Table}
use parrhesia_backend.Rooms.Events.{RoomEvent}
use parrhesia_backend.Rooms.{Room, App}

pub record Server (F X : Type 0) : Type 0 where
  pub admission : Admission F
  pub db : Table
  pub rest : X

-- The rooms in memory, with the state of their channels.
pub record Live (Sender Bus : Type 0) : Type 0 where
  pub rooms : Dict String (Room Sender)
  pub bus : Bus

module _ (fl : Float) (bc : Broadcast RoomEvent) where
  open fl use {F}
  open bc use {Bus, Sender}

  abbrev pub State : Type 0
  State = Server F (Live Sender Bus)

  abbrev pub app_of : State → App bc
  app_of s = record { db = s.db; rooms = s.rest.rooms; bus = s.rest.bus }

  abbrev pub put_app : App bc → State → State
  put_app a s = record s { db = a.db; rest = record { rooms = a.rooms; bus = a.bus } }

  -- `AppState::new`.
  abbrev pub new_state : Table → Bus → State
  new_state t b = record { admission = default F; db = t; rest = record { rooms = []; bus = b } }
