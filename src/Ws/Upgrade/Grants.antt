-- ===== src/Ws/Upgrade/Grants.antt =====
-- What a request had that `ws_handler` in src/routes/ws.rs upgraded.
use parrhesia_backend.Common.{
  ◌≡◌, refl, ap, inl, inr, true, Option, none, some, List, [], ◌∷◌, String, Result, ok, err,
  Bool-cases, arith,
}
use parrhesia_backend.Net.{IpAddr}
use parrhesia_backend.Float.{Float}
use parrhesia_backend.Http.{
  HeaderMap, HeaderValue, visible, opaque, to_str, get_all, StatusCode, service_unavailable,
}
use parrhesia_backend.Server.{Server}
use parrhesia_backend.Config.{Config}
use parrhesia_backend.Admission.{AdmissionError, connection, check_at, pending_auth}
use parrhesia_backend.Db.{DbError, room_password}
use parrhesia_backend.Security.{client_ip}
use parrhesia_backend.RoomRoutes.{error, admission_error}
use parrhesia_backend.Ws.Upgrade.{
  is_listed_origin, is_allowed_origin, Handover, refused, upgraded, Arrival, take_slot, find_room,
  admit, ws_handler,
}

-- The one line is readable and lists an allowed origin.
abbrev pub IsAllowedOrigin : List String → List HeaderValue → Type 0
IsAllowedOrigin allowed lines =
    (origin : String) × (lines ≡ visible origin ∷ []) × (is_listed_origin origin allowed ≡ true)

is_allowed_origin-IsAllowedOrigin :
    (allowed : List String) (lines : List HeaderValue)
    → is_allowed_origin allowed lines ≡ true
    → IsAllowedOrigin allowed lines
unfolding is_allowed_origin to_str
is_allowed_origin-IsAllowedOrigin allowed [] h = cc
is_allowed_origin-IsAllowedOrigin allowed (visible o ∷ []) h = (o, refl, h)
is_allowed_origin-IsAllowedOrigin allowed (opaque ∷ []) h = cc
is_allowed_origin-IsAllowedOrigin allowed (_ ∷ _ ∷ _) h = cc

-- A guard goes with a connection exactly if its room has a password, and then it is of the address.
abbrev pub Guarded : IpAddr → Option (Option String) → Option IpAddr → Type 0
Guarded ip (some (some _)) guard = guard ≡ some ip
Guarded ip (some none) guard = guard ≡ none
Guarded ip none guard = guard ≡ none

abbrev pub Upgraded :
    {F X : Type 0} → Arrival F X → IpAddr → String → Server F X → Handover → Type 0
Upgraded m ip room_id s (refused _) = Unit
Upgraded m ip room_id s (upgraded id room guard) =
    (id ≡ room_id) × (room_password m.failure room_id s.db ≡ ok room) × Guarded ip room guard

module _ {F X : Type 0} where
  pending_auth_guard :
      (ip guard : IpAddr) (s : Server F X) → (pending_auth ip s.admission).0 ≡ ok guard → guard ≡ ip
  unfolding pending_auth
  pending_auth_guard ip guard s h = ground (arith, h)

  take_slot-Upgraded :
      (m : Arrival F X) (ip : IpAddr) (room_id : String) (stored : Option String) (s : Server F X)
      → room_password m.failure room_id s.db ≡ ok (some stored)
      → Upgraded m ip room_id s (take_slot ip room_id stored s).0
  unfolding take_slot
  take_slot-Upgraded m ip room_id none s q = (refl, q, refl)
  take_slot-Upgraded m ip room_id (some stored) s q = go (pending_auth ip s.admission).0 refl
    where
      answer : Result IpAddr AdmissionError → Handover × Server F X
      answer r =
          let s' = record s { admission = (pending_auth ip s.admission).1 } in
          elim r [
            | err e ↦ (refused (admission_error e), s')
            | ok guard ↦ (upgraded room_id (some (some stored)) (some guard), s')
          ]

      go :
          (r : Result IpAddr AdmissionError)
          → (pending_auth ip s.admission).0 ≡ r
          → Upgraded m ip room_id s (answer r).0
      go (err e) k = tt
      go (ok guard) k = (refl, q, ap some (pending_auth_guard ip guard s k))

  find_room-Upgraded :
      (m : Arrival F X) (ip : IpAddr) (room_id : String) (s : Server F X)
      → Upgraded m ip room_id s (find_room m ip room_id s).0
  unfolding find_room
  find_room-Upgraded m ip room_id s = go (room_password m.failure room_id s.db) refl
    where
      answer : Result (Option (Option String)) DbError → Handover × Server F X
      answer r = elim r [
        | err _ ↦ (refused (error service_unavailable "Admission temporarily unavailable"), s)
        | ok none ↦ (upgraded room_id none none, s)
        | ok (some stored) ↦ take_slot ip room_id stored s
      ]

      go :
          (r : Result (Option (Option String)) DbError)
          → room_password m.failure room_id s.db ≡ r
          → Upgraded m ip room_id s (answer r).0
      go (err _) k = tt
      go (ok none) k = (refl, k, refl)
      go (ok (some stored)) k = take_slot-Upgraded m ip room_id stored s k

module _ {X : Type 0} (fl : Float) (parse_ip : String → Option IpAddr) (config : Config) where
  open fl use {F}

  -- The state after the check of the connections of an address.
  abbrev pub after_check : Arrival F X → IpAddr → Server F X → Server F X
  after_check m ip s = record s { admission = (check_at fl (connection ip) m.now s.admission).1 }

  -- What an upgraded request had.
  abbrev pub IsGranted : Arrival F X → String → IpAddr → HeaderMap → Server F X → Handover → Type 0
  IsGranted m room_id peer headers s (refused _) = Unit
  IsGranted m room_id peer headers s (upgraded id room guard) =
      IsAllowedOrigin config.allowed_origins (get_all "origin" headers)
      × ((ip : IpAddr) × (client_ip parse_ip peer headers config.trusted_proxies ≡ ok ip)
          × ((check_at fl (connection ip) m.now s.admission).0 ≡ ok tt)
          × Upgraded m ip room_id (m.others (after_check m ip s)) (upgraded id room guard))

  -- A request is upgraded only if its one origin line is of an allowed origin, its address is known,
  -- and the budget of connections admits it; it is handed what the table then says of the room, and
  -- a guard, of its address, exactly if the room has a password.
  pub ws_handler-IsGranted :
      (m : Arrival F X) (room_id : String) (peer : IpAddr) (headers : HeaderMap) (s : Server F X)
      → IsGranted m room_id peer headers s
          (ws_handler fl parse_ip config m room_id peer headers s).0
  unfolding ws_handler admit
  ws_handler-IsGranted m room_id peer headers s =
      elim (Bool-cases (is_allowed_origin config.allowed_origins (get_all "origin" headers))) [
        | inr e ↦ rw (e, IsGranted) tt
        | inl e ↦
            rw (e, IsGranted)
              (named
                (is_allowed_origin-IsAllowedOrigin config.allowed_origins (get_all "origin" headers)
                  e)
                (client_ip parse_ip peer headers config.trusted_proxies) refl)
      ]
    where
      answer_check : (ip : IpAddr) → Result (Unit {0}) AdmissionError → Handover × Server F X
      answer_check ip r = elim r [
        | err e ↦ (refused (admission_error e), after_check m ip s)
        | ok _ ↦ find_room m ip room_id (m.others (after_check m ip s))
      ]

      granted :
          (ip : IpAddr) (h : Handover)
          → IsAllowedOrigin config.allowed_origins (get_all "origin" headers)
          → client_ip parse_ip peer headers config.trusted_proxies ≡ ok ip
          → (check_at fl (connection ip) m.now s.admission).0 ≡ ok tt
          → Upgraded m ip room_id (m.others (after_check m ip s)) h
          → IsGranted m room_id peer headers s h
      granted ip (refused _) o n a u = tt
      granted ip (upgraded id room guard) o n a u = (o, (ip, n, a, u))

      checked :
          (ip : IpAddr) (r : Result (Unit {0}) AdmissionError)
          → IsAllowedOrigin config.allowed_origins (get_all "origin" headers)
          → client_ip parse_ip peer headers config.trusted_proxies ≡ ok ip
          → (check_at fl (connection ip) m.now s.admission).0 ≡ r
          → IsGranted m room_id peer headers s (answer_check ip r).0
      checked ip (err e) o n a = tt
      checked ip (ok tt) o n a =
          let s' = m.others (after_check m ip s) in
          granted ip (find_room m ip room_id s').0 o n a (find_room-Upgraded m ip room_id s')

      answer : Result IpAddr StatusCode → Handover × Server F X
      answer r = elim r [
        | err status ↦ (refused (error status "Invalid client address"), s)
        | ok ip ↦ answer_check ip (check_at fl (connection ip) m.now s.admission).0
      ]

      named :
          IsAllowedOrigin config.allowed_origins (get_all "origin" headers)
          → (r : Result IpAddr StatusCode)
          → client_ip parse_ip peer headers config.trusted_proxies ≡ r
          → IsGranted m room_id peer headers s (answer r).0
      named o (err status) n = tt
      named o (ok ip) n = checked ip (check_at fl (connection ip) m.now s.admission).0 o n refl
