-- ===== src/Ws/Upgrade/Keeps.antt =====
-- What every step of `ws_handler` in src/routes/ws.rs keeps, the whole handler keeps, with the guard
-- that it hands over.
use parrhesia_backend.Common.{
  ℕ, Option, none, some, List, [], ◌∷◌, ◌++◌, String, Result, ok, err, Bool-cases, inl, inr,
}
use parrhesia_backend.Net.{IpAddr}
use parrhesia_backend.Float.{Float}
use parrhesia_backend.Http.{HeaderMap, get_all, StatusCode, service_unavailable}
use parrhesia_backend.Server.{Server}
use parrhesia_backend.Config.{Config}
use parrhesia_backend.Admission.{AdmissionError, connection, check_at, pending_auth}
use parrhesia_backend.Db.{DbError, room_password}
use parrhesia_backend.Security.{client_ip}
use parrhesia_backend.RoomRoutes.{error, admission_error}
use parrhesia_backend.Ws.Upgrade.Laws.{guard_of}
use parrhesia_backend.Ws.Upgrade.{
  is_allowed_origin, Handover, refused, upgraded, Arrival, count_rejected, take_slot, find_room,
  admit, ws_handler,
}

-- The guard of a slot that was granted.
abbrev pub granted : Result IpAddr AdmissionError → List IpAddr
granted (ok ip) = ip ∷ []
granted (err _) = []

module _ {X : Type 0} (fl : Float) (P : List IpAddr → Server fl.F X → Type 0) where
  open fl use {F}

  -- The check of the connections of an address, the counter and the slot keep `P` of the guards.
  pub record IsStable : Type 0 where
    pub spends :
        (gs : List IpAddr) (ip : IpAddr) (now : ℕ) (s : Server F X)
        → P gs s
        → P gs (record s { admission = (check_at fl (connection ip) now s.admission).1 })
    pub rejects : (gs : List IpAddr) (s : Server F X) → P gs s → P gs (count_rejected s)
    pub takes :
        (gs : List IpAddr) (ip : IpAddr) (s : Server F X)
        → P gs s
        → P
            (granted (pending_auth ip s.admission).0 ++ gs)
            (record s { admission = (pending_auth ip s.admission).1 })

  -- The state, with the guard that goes with the connection.
  abbrev pub Handed : List IpAddr → Handover × Server F X → Type 0
  Handed gs (h, s) = P (guard_of h ++ gs) s

  module _ (stable : IsStable) (gs : List IpAddr) where
    take_slot-Handed :
        (ip : IpAddr) (room_id : String) (stored : Option String) (s : Server F X)
        → P gs s
        → Handed gs (take_slot ip room_id stored s)
    unfolding take_slot
    take_slot-Handed ip room_id none s p = p
    take_slot-Handed ip room_id (some stored) s p =
        go (pending_auth ip s.admission).0 (stable.takes gs ip s p)
      where
        after : Server F X
        after = record s { admission = (pending_auth ip s.admission).1 }

        go :
            (r : Result IpAddr AdmissionError)
            → P (granted r ++ gs) after
            → Handed gs (elim r [
              | err e ↦ (refused (admission_error e), after)
              | ok guard ↦ (upgraded room_id (some (some stored)) (some guard), after)
            ])
        go (err e) q = q
        go (ok guard) q = q

    find_room-Handed :
        (m : Arrival F X) (ip : IpAddr) (room_id : String) (s : Server F X)
        → P gs s
        → Handed gs (find_room m ip room_id s)
    unfolding find_room
    find_room-Handed m ip room_id s p = go (room_password m.failure room_id s.db)
      where
        go :
            (r : Result (Option (Option String)) DbError)
            → Handed gs (elim r [
              | err _ ↦ (refused (error service_unavailable "Admission temporarily unavailable"), s)
              | ok none ↦ (upgraded room_id none none, s)
              | ok (some stored) ↦ take_slot ip room_id stored s
            ])
        go (err _) = p
        go (ok none) = p
        go (ok (some stored)) = take_slot-Handed ip room_id stored s p

    module _ (parse_ip : String → Option IpAddr) (config : Config) (m : Arrival F X)
        (calm : (s : Server F X) → P gs s → P gs (m.others s)) where
      pub ws_handler-Handed :
          (room_id : String) (peer : IpAddr) (headers : HeaderMap) (s : Server F X)
          → P gs s
          → Handed gs (ws_handler fl parse_ip config m room_id peer headers s)
      unfolding ws_handler admit
      ws_handler-Handed room_id peer headers s p =
          elim (Bool-cases (is_allowed_origin config.allowed_origins (get_all "origin" headers))) [
            | inr e ↦ rw e (stable.rejects gs s p)
            | inl e ↦ rw e (named (client_ip parse_ip peer headers config.trusted_proxies))
          ]
        where
          after : IpAddr → Server F X
          after ip = record s { admission = (check_at fl (connection ip) m.now s.admission).1 }

          after-keeps : (ip : IpAddr) → P gs (after ip)
          after-keeps ip = stable.spends gs ip m.now s p

          answer_check : (ip : IpAddr) → Result (Unit {0}) AdmissionError → Handover × Server F X
          answer_check ip r = elim r [
            | err e ↦ (refused (admission_error e), after ip)
            | ok _ ↦ find_room m ip room_id (m.others (after ip))
          ]

          checked :
              (ip : IpAddr) (r : Result (Unit {0}) AdmissionError) → Handed gs (answer_check ip r)
          checked ip (err e) = after-keeps ip
          checked ip (ok _) = find_room-Handed m ip room_id _ (calm (after ip) (after-keeps ip))

          answer : Result IpAddr StatusCode → Handover × Server F X
          answer r = elim r [
            | err status ↦ (refused (error status "Invalid client address"), s)
            | ok ip ↦ answer_check ip (check_at fl (connection ip) m.now s.admission).0
          ]

          named : (r : Result IpAddr StatusCode) → Handed gs (answer r)
          named (err status) = p
          named (ok ip) = checked ip (check_at fl (connection ip) m.now s.admission).0
