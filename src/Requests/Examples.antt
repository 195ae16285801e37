-- ===== src/Requests/Examples.antt =====
-- The theorems about requests at a visit to a room, which the creation of another room interrupts.
use parrhesia_backend.Common.{
  ◌≡◌, refl, Bool, true, false, Option, none, some, List, [], ◌∷◌, string_eq, String, ok,
}
use parrhesia_backend.Common.Dict.{get, insert, remove, is_some}
use parrhesia_backend.Common.Texts.{split, contains_char, ends_with, trim, trim_start, trim_end}
use parrhesia_backend.Net.{IpAddr, v4, ip_same}
use parrhesia_backend.Http.{HeaderMap, visible, get_all, to_str}
use parrhesia_backend.Security.{client_ip, contains_ip}
use parrhesia_backend.Admission.{budget_same, default, pending_auth, drop_guard, check_at, spend}
use parrhesia_backend.Db.{room_exists, room_password, update_activity, create_room_with_password}
use parrhesia_backend.Rooms.{attach, join, join_room, snapshot, detach, detach_room}
use parrhesia_backend.Passwords.{
  hash, is_listed, normalize, compute, is_accepted, verify_job, verify,
}
use parrhesia_backend.RoomRoutes.{
  create_room, create_admitted, create_with, store_room, read_request,
}
use parrhesia_backend.Ws.Keys.{is_valid_mldsa65_public_key, is_valid_mlkem768_public_key}
use parrhesia_backend.Ws.RateLimiter.{new_limiter, check}
use parrhesia_backend.Ws.Session.{relay, on_frame, round}
use parrhesia_backend.Ws.Auth.{
  read_text, judge, await_verification, conclude, attempt, read_password, ask, authenticate,
}
use parrhesia_backend.Ws.Upgrade.{
  upgraded, ws_handler, admit, find_room, take_slot, is_allowed_origin, is_listed_origin,
}
use parrhesia_backend.Ws.Handshake.{announced, read_keys}
use parrhesia_backend.Ws.Connection.{
  drop_pending, send_json, send_peers, greet, perform, serve, stay, enter, converse, connect,
  handle_socket, answer_pings, tell_failure, converse_auth,
}
use parrhesia_backend.Broadcast.{log_laws}
use parrhesia_backend.Rooms.Events.{RoomEvent, peer_joined, chat, peer_left, sender}
use parrhesia_backend.Server.{new_state}
use parrhesia_backend.Requests.{World, attend, handle}
use parrhesia_backend.Requests.Samples.{
  home, parsers, defaults, arrival, setting, no_channels, idle, creation, meeting,
}
use parrhesia_backend.Float.{fixed}
use parrhesia_backend.Common.Int.{pos}
use parrhesia_backend.Config.{
  is_origin, are_origins, read_origins, parse_proxies, read_proxies, read_number, read_fields,
  read_addresses, from_env,
}
use parrhesia_backend.Ws.Upgrade.Origins.{IsWebOrigin, ws_handler-IsWebOrigin}
use parrhesia_backend.Requests.Friendly.{IsSound, IsFriendly}
use parrhesia_backend.Requests.Closure.{IsMet, Served, handle-Served}
use parrhesia_backend.Requests.Histories.{
  Task, serves, effect, effect-IsFriendly, new_state-IsSound, step, run, run-IsSound,
}

-- Others leave no guard behind.
abbrev None : List IpAddr → Type 0
None gs = gs ≡ []

idle-IsFriendly : IsFriendly setting (log_laws RoomEvent) None idle
idle-IsFriendly mine s v = v

abbrev another : World setting → World setting
another = effect setting (serves (creation "other"))

another-IsFriendly : IsFriendly setting (log_laws RoomEvent) None another
another-IsFriendly =
    effect-IsFriendly setting (log_laws RoomEvent) None (serves (creation "other")) idle-IsFriendly

meeting-IsMet : IsMet setting (log_laws RoomEvent) None (meeting another)
meeting-IsMet = (
  idle-IsFriendly,
  idle-IsFriendly,
  record {
    before = idle-IsFriendly;
    during = idle-IsFriendly;
    arriving = another-IsFriendly;
    joining = idle-IsFriendly;
    leaving = idle-IsFriendly;
    looping = ((idle-IsFriendly, idle-IsFriendly), ((idle-IsFriendly, idle-IsFriendly), tt));
  },
)

abbrev fresh : World setting
fresh = new_state setting.float setting.bus [] no_channels

-- The state that has the room.
made :
    (s : World setting) × (run setting (serves (creation "room") ∷ []) fresh ≡ some s)
    × IsSound setting (log_laws RoomEvent) None [] s
made =
    run-IsSound setting (log_laws RoomEvent) None (serves (creation "room") ∷ []) [] fresh
      (idle-IsFriendly, tt)
      (new_state-IsSound setting (log_laws RoomEvent) None [] no_channels tt refl)

handle-Served_example :
    Served setting (log_laws RoomEvent) None [] (handle setting (meeting another) made.0)
handle-Served_example =
    handle-Served setting (log_laws RoomEvent) None (meeting another) [] made.0 meeting-IsMet made.2

abbrev day : List (Task setting)
day = serves (creation "room") ∷ serves (meeting another) ∷ []

abbrev outcome : Option (World setting) → Bool × List RoomEvent
outcome none = (false, [])
outcome (some s) = (is_some (get "other" s.db), s.rest.bus.events 0)

-- The other room is there, and the connection's events are on the channel of its room.
ran : outcome (run setting day fresh) ≡ (
  true,
  peer_joined "alice" "dsa" "kem" none ∷ chat "alice" "hello" none none ∷ peer_left "alice" ∷ [],
)
unfolding run step effect handle attend create_room create_admitted create_with store_room
    read_request hash normalize compute is_listed create_room_with_password client_ip contains_ip
    check_at spend default get insert remove get_all to_str trim trim_start trim_end ws_handler
    admit find_room take_slot is_allowed_origin is_listed_origin room_password pending_auth
    drop_guard handle_socket converse_auth answer_pings tell_failure connect converse enter stay
    serve perform greet send_peers send_json drop_pending authenticate conclude ask read_text
    read_password attempt await_verification judge verify verify_job is_accepted room_exists
    update_activity sender attach detach detach_room join join_room snapshot announced read_keys
    is_valid_mldsa65_public_key is_valid_mlkem768_public_key check new_limiter on_frame relay round
    ip_same budget_same
ran = refl

read : from_env parsers (λ name. none) ≡ ok defaults
unfolding from_env read_origins are_origins is_origin read_proxies parse_proxies read_addresses
    read_fields read_number split trim trim_start trim_end contains_char ends_with
read = refl

abbrev open_room : World setting
open_room =
    new_state setting.float setting.bus
      (("room", record { created_at = pos 1; last_activity = pos 1; password_hash = none }) ∷ [])
      no_channels

abbrev headers : HeaderMap
headers = ("origin", visible home) ∷ []

let_in :
    (ws_handler fixed parsers.ip_addr defaults arrival "room" (v4 2) headers open_room).0
    ≡ upgraded "room" (some none) none
unfolding ws_handler admit find_room take_slot is_allowed_origin is_listed_origin get_all to_str
    client_ip contains_ip check_at spend room_password default get
let_in = refl

ws_handler-IsWebOrigin_example :
    (origin : String) × (get_all "origin" headers ≡ visible origin ∷ [])
    × IsWebOrigin parsers origin
ws_handler-IsWebOrigin_example =
    ws_handler-IsWebOrigin fixed parsers (λ name. none) defaults arrival "room" (v4 2) headers
      open_room "room" (some none) none read let_in
