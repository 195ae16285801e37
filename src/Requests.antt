-- ===== src/Requests.antt =====
-- `app` of src/lib.rs: the handler that each route leads to, with the connection that an upgrade
-- hands over to. The framework decides which route a request takes.
pub mod Friendly
pub mod Samples
pub mod Closure
pub mod Histories
mod Examples
use mathlib.Core.Option
use parrhesia_backend.Common.{ℕ, Option, none, some, List, [], String}
use parrhesia_backend.Net.{IpAddr}
use parrhesia_backend.Float.{Float}
use parrhesia_backend.Broadcast.{Broadcast}
use parrhesia_backend.Http.{HeaderMap, Response}
use parrhesia_backend.Config.{Config}
use parrhesia_backend.Db.{DbError}
use parrhesia_backend.Server.{Server, Live, State}
use parrhesia_backend.Rooms.Events.{RoomEvent}
use parrhesia_backend.Passwords.{Crypto}
use parrhesia_backend.RoomRoutes.{Body, Moment, create_room, get_room}
use parrhesia_backend.Ws.Session.{Effect, Codec}
use parrhesia_backend.Ws.Upgrade.{Arrival, Handover, refused, upgraded, ws_handler}
use parrhesia_backend.Ws.Connection.{Visit, drop_pending, handle_socket}

-- A request by its route, with what its handler meets. A request for a WebSocket has what other tasks
-- do until the upgrade is complete, and the visit, or nothing if the upgrade fails.
pub data Request (F X : Type 0) : Type 0 where
  creates : Moment F X → IpAddr → HeaderMap → List ℕ → Request F X
  looks_up : Option DbError → String → Request F X
  visits :
      Arrival F X
      → String
      → IpAddr
      → HeaderMap
      → (Server F X → Server F X)
      → Option (Visit F X)
      → Request F X
  health : Request F X

pub data Answer : Type 0 where
  responded : Response Body → Answer
  -- what the connection wrote and did
  switched : List Effect → Answer
  healthy : Answer

-- What the handlers call that is not of the repository, and what they are configured with.
pub record Setting : Type 1 where
  pub float : Float
  pub bus : Broadcast RoomEvent
  pub codec : Codec
  pub key_length : String → Option ℕ
  pub crypto : Crypto
  pub read_password : String → Option String
  pub read_request : List ℕ → Option (Option String)
  pub read_ip : String → Option IpAddr
  pub common_passwords : List String
  pub config : Config

module _ (g : Setting) where
  abbrev pub World : Type 0
  World = State g.float g.bus

  abbrev pub F : Type 0
  F = g.float.F

  abbrev pub X : Type 0
  X = Live g.bus.Sender g.bus.Bus

  -- The closure of `on_upgrade`: it is dropped, with the guard, if the upgrade fails.
  unfoldable pub attend :
      (World → World) → Option (Visit F X) → Handover → World → Option (Answer × World)
  attend others visit (refused response) s = some (responded response, s)
  attend others none (upgraded room_id found pending) s =
      Option.map (λ t. (switched [], t)) (drop_pending pending (others s))
  attend others (some v) (upgraded room_id found pending) s =
      Option.map (λ (wrote, t). (switched wrote, t))
        (handle_socket g.float g.bus g.codec g.key_length g.crypto g.read_password v room_id found
          pending (others s))

  -- `none` is a panic of the task.
  unfoldable pub handle : Request F X → World → Option (Answer × World)
  handle (creates m peer headers body) s =
      let (response, t) =
        create_room g.float g.crypto g.read_ip g.read_request g.common_passwords g.config m peer
          headers body s in
      some (responded response, t)
  handle (looks_up f room_id) s = some (responded (get_room f room_id s), s)
  handle (visits m room_id peer headers others visit) s =
      let (h, t) = ws_handler g.float g.read_ip g.config m room_id peer headers s in
      attend others visit h t
  handle health s = some (healthy, s)
