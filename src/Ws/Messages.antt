-- ===== src/Ws/Messages.antt =====
-- The messages of src/routes/ws.rs, and the message that a room's event becomes.
use parrhesia_backend.Common.{ℕ, Bool, Option, String}
use parrhesia_backend.Rooms.Events.{
  RoomEvent, peer_joined, chat, tree_commit, tree_welcome, typing, peer_left, room_expired,
}

pub data IncomingMessage : Type 0 where
  -- public key, post-quantum public key, signature
  key_announce : Option String → Option String → Option String → IncomingMessage
  -- payload, epoch, counter
  message : Option String → Option ℕ → Option ℕ → IncomingMessage
  commit : Option String → IncomingMessage
  -- tree welcome, target
  welcome_to : Option String → Option String → IncomingMessage
  is_typing : IncomingMessage
  unknown : IncomingMessage

pub data OutgoingMessage : Type 0 where
  auth_required : ℕ → OutgoingMessage
  auth_failed : OutgoingMessage
  auth_rate_limited : ℕ → OutgoingMessage
  auth_unavailable : OutgoingMessage
  joined_room : OutgoingMessage
  -- protocol version, peer, whether it is the creator, the creator
  welcome : ℕ → String → Bool → Option String → OutgoingMessage
  peer_key : String → String → String → Option String → OutgoingMessage
  peer_has_joined : String → String → String → Option String → OutgoingMessage
  peer_has_left : String → OutgoingMessage
  -- peer, payload, epoch, counter
  chat_message : String → String → Option ℕ → Option ℕ → OutgoingMessage
  commit_from : String → String → OutgoingMessage
  typing_from : String → OutgoingMessage
  expired : OutgoingMessage
  welcome_data : String → OutgoingMessage
  room_full : OutgoingMessage

unfoldable pub from_event : RoomEvent → OutgoingMessage
from_event (chat from payload epoch counter) = chat_message from payload epoch counter
from_event (tree_commit from tree_data) = commit_from from tree_data
from_event (tree_welcome _ _ tree_data) = welcome_data tree_data
from_event (peer_joined from pk pq sig) = peer_has_joined from pk pq sig
from_event (peer_left from) = peer_has_left from
from_event (typing from) = typing_from from
from_event room_expired = expired
