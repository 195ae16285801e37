-- ===== src/Ws/Upgrade.antt =====
-- `ws_handler` in src/routes/ws.rs: which requests are upgraded to a WebSocket, and with what.
pub mod Laws
pub mod Grants
pub mod Keeps
pub mod Origins
mod Examples
use parrhesia_backend.Common.{
  ℕ, Bool, true, false, ◌||◌, Option, none, some, List, [], ◌∷◌, String, string_eq, ◌==◌,
  if◌then◌else◌, Result, ok, err, add_one,
}
use parrhesia_backend.Net.{IpAddr}
use parrhesia_backend.Float.{Float}
use parrhesia_backend.Http.{
  HeaderMap, HeaderValue, to_str, get_all, forbidden, service_unavailable, Response,
}
use parrhesia_backend.Server.{Server}
use parrhesia_backend.Config.{Config}
use parrhesia_backend.Admission.{AdmissionError, connection, check_at, pending_auth}
use parrhesia_backend.Db.{DbError, room_password}
use parrhesia_backend.Security.{client_ip}
use parrhesia_backend.RoomRoutes.{Body, error, admission_error}

unfoldable pub is_listed_origin : String → List String → Bool
is_listed_origin origin [] = false
is_listed_origin origin (allowed ∷ rest) = allowed == origin || is_listed_origin origin rest

-- There is one line `Origin`, and it is one of the allowed.
unfoldable pub is_allowed_origin : List String → List HeaderValue → Bool
is_allowed_origin allowed (v ∷ []) = elim (to_str v) [
  | none ↦ false
  | some origin ↦ is_listed_origin origin allowed
]
is_allowed_origin allowed _ = false

-- What the handler hands over: a response, or the id, what the table says of the room, and the
-- guard of the pending authentication, if there is one.
pub data Handover : Type 0 where
  refused : Response Body → Handover
  upgraded : String → Option (Option String) → Option IpAddr → Handover

-- What a request meets: the clock, whether the database fails, and what other tasks do while it
-- waits for the database.
pub record Arrival (F X : Type 0) : Type 0 where
  pub now : ℕ
  pub failure : Option DbError
  pub others : Server F X → Server F X

module _ {F X : Type 0} where
  abbrev pub count_rejected : Server F X → Server F X
  count_rejected s = record s {
    admission = record (s.admission) { rejected = add_one s.admission.rejected };
  }

  -- A slot for the authentication.
  unfoldable pub take_slot : IpAddr → String → Option String → Server F X → Handover × Server F X
  take_slot ip room_id none s = (upgraded room_id (some none) none, s)
  take_slot ip room_id (some stored) s =
      let (r, a) = pending_auth ip s.admission in
      let s' = record s { admission = a } in
      elim r [
        | err e ↦ (refused (admission_error e), s')
        | ok guard ↦ (upgraded room_id (some (some stored)) (some guard), s')
      ]

  -- From the read of the room on.
  unfoldable pub find_room : Arrival F X → IpAddr → String → Server F X → Handover × Server F X
  find_room m ip room_id s = elim (room_password m.failure room_id s.db) [
    | err _ ↦ (refused (error service_unavailable "Admission temporarily unavailable"), s)
    | ok none ↦ (upgraded room_id none none, s)
    | ok (some stored) ↦ take_slot ip room_id stored s
  ]

module _ {X : Type 0} (fl : Float) (parse_ip : String → Option IpAddr) (config : Config) where
  open fl use {F}

  -- The part behind the test of the origin.
  unfoldable pub admit :
      Arrival F X → String → IpAddr → HeaderMap → Server F X → Handover × Server F X
  admit m room_id peer headers s = elim (client_ip parse_ip peer headers config.trusted_proxies) [
    | err status ↦ (refused (error status "Invalid client address"), s)
    | ok ip ↦
        (let (r, a) = check_at fl (connection ip) m.now s.admission in
          let s' = record s { admission = a } in
          elim r [
            | err e ↦ (refused (admission_error e), s')
            | ok _ ↦ find_room m ip room_id (m.others s')
          ])
  ]

  unfoldable pub ws_handler :
      Arrival F X → String → IpAddr → HeaderMap → Server F X → Handover × Server F X
  ws_handler m room_id peer headers s =
      if is_allowed_origin config.allowed_origins (get_all "origin" headers)
      then admit m room_id peer headers s
      else (refused (error forbidden "Origin not allowed"), count_rejected s)
