-- ===== src/Lib.antt =====
-- parrhesia-backend: the server of an end-to-end encrypted chat. Clients create rooms over HTTP,
-- upgrade to a WebSocket, announce keys, and have their messages relayed to the others in the
-- room.
--
-- The parts and their files (paths from the root of the repository):
--   Admission   src/admission.rs: `Admission::check_at`, `pending`, `maintain` and the guard's `drop`;
--               the state behind the mutex and the counters are one record, and a call is one step.
--   Db          src/db.rs: the statements over the table of rooms, and the migrations. A fault of the
--               database is an argument of the statement.
--   Rooms       src/state.rs: `RoomEvent` and `attach`, `join`, `detach` and `expire_inactive_rooms` of
--               `AppState`. Each holds the lock on the rooms throughout and is one step.
--   Passwords   src/passwords.rs: `normalize`, `hash`, `verify`, and the two slots of the KDF.
--   Security    src/security.rs: the headers of a response, and `client_ip`.
--   RoomRoutes  src/routes/rooms.rs: `create_room` and `get_room`.
--   Ws          src/routes/ws.rs: the checks of keys, the messages, `RateLimiter`, in Ws/Upgrade
--               `ws_handler`, in Ws/Auth `authenticate`, in Ws/Handshake the exchange of keys of
--               `handle_socket`, in Ws/Session its loop, in Ws/Connection the whole of it. In
--               Ws/Turns it is cut into steps, and Ws/Hall has all connections side by side.
--   Config      src/config.rs: `from_env` and `inactivity_expiry_secs`.
--   Cleanup     src/cleanup.rs: what its two tasks do at a tick, and histories of the shared state.
--   Requests    src/lib.rs: the handler of each route, up to the end of the connection that it leads
--               to, and histories of the whole server.
--   Startup     src/main.rs, `init_pool` of src/db.rs and the origins of `app` in src/lib.rs.
-- Beside them: Server (the state that the handlers share), Common (shared helpers), Net (addresses),
-- Http (header maps and status codes), Float (the arithmetic of f64) and Broadcast (the channels of
-- tokio).
--
-- How they interact: a request's address (Security) names the buckets that admit it (Admission).
-- A connection attaches to its room, if the table (Db) has it, and joins it (Rooms). Its loop
-- (Ws) writes the events that it receives to its client, and publishes those that its client
-- sends. The cleanup deletes rooms from the table, and then those in memory.
--
-- Numbers and time. A u64 that the code adds to wraps (`% 2 ^ 64`), an i64 is an integer with its
-- wrap-around, and a time is a count of nanoseconds. An f64 is an element of the interface Float:
-- the bounds of buckets hold for every arithmetic with the laws FloatLaws, which rounding keeps.
-- The exact accounts hold in the instance `fixed`, where the values of the two kinds of bucket
-- are counted in units of 1 / 60000000000 and nothing is rounded.
--
-- Only `decimal`, which writes a number, counts down: from 20, the digits of a u64. The other
-- loops are over the events or calls that are given, so that a theorem about a history is about
-- every finite history.
--
-- Parameters: the broadcast channels with their documented order of delivery (Broadcast), argon2,
-- the PHC parser and NFC (Crypto), the parsers of addresses, URIs and header values, the base64
-- engine, and serde_json (Codec, and the parser of requests).
--
-- A handler that waits has among its arguments what the other tasks do meanwhile, any function on
-- the shared state. What a theorem relies on of these functions is among its hypotheses; for the
-- whole server it is `IsFriendly` of Requests/Friendly.
--
-- In Ws/Hall the steps (Ws/Turns) of all connections are moves of one history, in any order. A loop
-- has its receiver at a position of its channel, from which `rx.recv()` yields the next value, or
-- that the receiver lags: that more values wait than the channel holds, which is at least the
-- hundred that a room asks for. A write is an effect of a loop whether it succeeds or not; after
-- one that does not the loop ends.
--
-- Not modelled: when the timers of src/cleanup.rs tick, how the framework matches a path, what it
-- answers on its own account and how it applies the layers of `app`, that the failure of an
-- authentication is written within a second, and the logs. A call that holds a lock is atomic, and
-- what can come between two calls is any other call. The order in which a HashMap iterates is that
-- of a list here; no theorem depends on it.
pub mod Common
pub mod Net
pub mod Float
pub mod Broadcast
pub mod Http
pub mod Config
pub mod Admission
pub mod Db
pub mod Rooms
pub mod Security
pub mod Passwords
pub mod Server
pub mod Cleanup
pub mod RoomRoutes
pub mod Ws
pub mod Requests
pub mod Startup
