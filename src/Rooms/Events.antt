-- ===== src/Rooms/Events.antt =====
-- `RoomEvent` of src/state.rs, with its two accessors.
use parrhesia_backend.Common.{ℕ, Option, none, some, String}

pub data RoomEvent : Type 0 where
  -- from, public key, post-quantum public key, signature
  peer_joined : String → String → String → Option String → RoomEvent
  -- from, payload, epoch, counter
  chat : String → String → Option ℕ → Option ℕ → RoomEvent
  -- from, tree data
  tree_commit : String → String → RoomEvent
  -- from, target, tree data
  tree_welcome : String → String → String → RoomEvent
  typing : String → RoomEvent
  peer_left : String → RoomEvent
  room_expired : RoomEvent

unfoldable pub sender : RoomEvent → Option String
sender (peer_joined from _ _ _) = some from
sender (chat from _ _ _) = some from
sender (tree_commit from _) = some from
sender (tree_welcome from _ _) = some from
sender (typing from) = some from
sender (peer_left from) = some from
sender room_expired = none

unfoldable pub target : RoomEvent → Option String
target (tree_welcome _ to _) = some to
target _ = none
