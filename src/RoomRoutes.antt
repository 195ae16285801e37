-- ===== src/RoomRoutes.antt =====
-- src/routes/rooms.rs: the routes that create a room and that tell whether there is one.
pub mod Laws
pub mod Guards
pub mod Payment
pub mod Quota
pub mod Keeps
mod Examples
use parrhesia_backend.Common.{
  ℕ, ◌+◌, ◌/◌, ◌%◌, Bool, true, false, ◌||◌, ◌&&◌, Option, none, some, List, [], ◌∷◌, String,
  string_eq, nat_eq, ◌==◌, leb, if◌then◌else◌, Result, ok, err, add_one, suc,
}
use parrhesia_backend.Common.Int.{ℤ}
use parrhesia_backend.Common.Dict.{is_some}
use parrhesia_backend.Net.{IpAddr}
use parrhesia_backend.Float.{Float}
use parrhesia_backend.Http.{
  HeaderMap, HeaderValue, visible, to_str, first, get_all, set_header, StatusCode, ok_200,
  bad_request, not_found, unsupported_media_type, too_many_requests, internal_server_error,
  service_unavailable, Response,
}
use parrhesia_backend.Common.Texts.{decimal, before, trim}
use parrhesia_backend.Server.{Server}
use parrhesia_backend.Config.{Config}
use parrhesia_backend.Admission.{
  Admission, AdmissionError, limited, unavailable_error, creation, check_at,
}
use parrhesia_backend.Db.{DbError, Table, create_room_with_password, room_password}
use parrhesia_backend.Security.{client_ip}
use parrhesia_backend.Passwords.{Crypto, PasswordError, invalid, common, busy, internal, hash}

-- `CreateRoomResponse`, `RoomStatusResponse` and `ErrorResponse`.
pub data Body : Type 0 where
  -- room id, whether a password is required
  create_room_response : String → Bool → Body
  -- whether it exists, room id, whether a password is required
  room_status_response : Bool → String → Bool → Body
  error_response : String → Body

abbrev pub error : StatusCode → String → Response Body
error status message = record { status = status; headers = []; body = error_response message }

abbrev pub json : Body → Response Body
json body = record { status = ok_200; headers = []; body = body }

unfoldable pub admission_error : AdmissionError → Response Body
admission_error (limited retry) =
    record (error too_many_requests "Too many attempts; retry later") {
      headers = set_header "retry-after" (visible (decimal 20 retry)) [];
    }
admission_error unavailable_error = error service_unavailable "Admission temporarily unavailable"

-- The media type of the first value of the header, without its parameters.
abbrev pub is_json : HeaderMap → Bool
is_json headers = elim (first (get_all "content-type" headers)) [
  | none ↦ false
  | some v ↦ elim (to_str v) [ none ↦ false | some s ↦ trim (before ";" s) == "application/json" ]
]

-- A request to create a room. `parse` is what `serde_json` makes of the body as a
-- `CreateRoomRequest`: its password.
unfoldable pub read_request :
    (List ℕ → Option (Option String)) → HeaderMap → List ℕ → Result (Option String) (Response Body)
read_request parse headers [] = ok none
read_request parse headers (byte ∷ bytes) =
    if is_json headers
    then elim (parse (byte ∷ bytes)) [
      | none ↦ err (error bad_request "Invalid room request")
      | some password ↦ ok password
    ]
    else err (error unsupported_media_type "Expected application/json")

-- What a request meets: the clock of its check, the clock of the database, the permits at its
-- hash, whether the job dies, the salt, the random id, and whether the database fails the
-- statement. `others` is what other tasks do while it waits.
pub record Moment (F X : Type 0) : Type 0 where
  pub now : ℕ
  pub timestamp : ℤ
  pub permits : ℕ
  pub panicked : Bool
  pub salt : ℕ
  pub uuid : String
  pub failure : Option DbError
  pub others : Server F X → Server F X

abbrev pub Reply : Type 0 → Type 0 → Type 0
Reply F X = Response Body × Server F X

module _ {F X : Type 0} where
  -- From the new id on.
  unfoldable pub store_room : Moment F X → Option String → Server F X → Reply F X
  store_room m stored s =
      let (r, t) = create_room_with_password m.failure m.timestamp m.uuid stored s.db in
      elim r [
        | err _ ↦ (error internal_server_error "Failed to create room", record s { db = t })
        | ok _ ↦ (json (create_room_response m.uuid (is_some stored)), record s { db = t })
      ]

  abbrev pub count_unavailable : Server F X → Server F X
  count_unavailable s = record s {
    admission = record (s.admission) { unavailable = add_one s.admission.unavailable };
  }

  -- The answer to a password that was not hashed.
  unfoldable pub refuse_password : PasswordError → Server F X → Reply F X
  refuse_password invalid s =
      (error bad_request "Password must contain 15–256 characters and at most 1024 UTF-8 bytes", s)
  refuse_password common s =
      (error bad_request "This password is commonly used; choose a different passphrase", s)
  refuse_password _ s =
      (error service_unavailable "Password protection temporarily unavailable", count_unavailable s)

  unfoldable pub create_with :
      Crypto → List String → Moment F X → Option String → Server F X → Reply F X
  create_with c common_passwords m none s = store_room m none (m.others s)
  create_with c common_passwords m (some password) s =
      let s' = m.others s in
      elim (hash c common_passwords m.permits m.panicked m.salt password) [
        | err e ↦ refuse_password e s'
        | ok stored ↦ store_room m (some stored) s'
      ]

  unfoldable pub get_room : Option DbError → String → Server F X → Response Body
  get_room f room_id s = elim (room_password f room_id s.db) [
    | ok (some stored) ↦ json (room_status_response true room_id (is_some stored))
    | ok none ↦ error not_found "Room not found"
    | err _ ↦ error internal_server_error "Failed to check room"
  ]

module _ {X : Type 0} (fl : Float) (c : Crypto) (parse_ip : String → Option IpAddr)
    (parse : List ℕ → Option (Option String)) (common_passwords : List String)
    (config : Config) where
  open fl use {F}

  unfoldable pub create_admitted : Moment F X → HeaderMap → List ℕ → Server F X → Reply F X
  create_admitted m headers body s = elim (read_request parse headers body) [
    | err response ↦ (response, s)
    | ok password ↦ create_with c common_passwords m password s
  ]

  unfoldable pub create_room : Moment F X → IpAddr → HeaderMap → List ℕ → Server F X → Reply F X
  create_room m peer headers body s =
      elim (client_ip parse_ip peer headers config.trusted_proxies) [
        | err status ↦ (error status "Invalid client address", s)
        | ok ip ↦
            (let (r, a) = check_at fl (creation ip) m.now s.admission in
              let s' = record s { admission = a } in
              elim r [ err e ↦ (admission_error e, s') | ok _ ↦ create_admitted m headers body s' ])
      ]
