-- ===== src/Ws/Upgrade/Laws.antt =====
-- Which requests `ws_handler` in src/routes/ws.rs upgrades, and the slots that it takes.
use parrhesia_backend.Common.{
  refl, ap, ◌⊎◌, inl, inr, Option, none, some, List, [], ◌∷◌, ◌++◌, String, Result, ok, err,
  Bool-cases,
}
use parrhesia_backend.Net.{IpAddr}
use parrhesia_backend.Float.{Float}
use parrhesia_backend.Http.{HeaderMap, get_all, StatusCode, service_unavailable}
use parrhesia_backend.Server.{Server}
use parrhesia_backend.Config.{Config}
use parrhesia_backend.Admission.{AdmissionError, connection, check_at}
use parrhesia_backend.Admission.Pending.{Accounts, pending_auth_lem, pending_auth_granted}
use parrhesia_backend.Admission.Guards.{Accounts-same, check_at_slots}
use parrhesia_backend.Db.{DbError, room_password}
use parrhesia_backend.Security.{client_ip}
use parrhesia_backend.RoomRoutes.{error, admission_error}
use parrhesia_backend.Ws.Upgrade.{
  is_allowed_origin, Handover, refused, upgraded, Arrival, take_slot, find_room, admit, ws_handler,
}

-- The guard that goes with a connection.
abbrev pub guard_of : Handover → List IpAddr
guard_of (refused _) = []
guard_of (upgraded _ _ none) = []
guard_of (upgraded _ _ (some ip)) = ip ∷ []

abbrev pub IsAccounted : {F X : Type 0} → List IpAddr → Handover × Server F X → Type 0
IsAccounted gs (h, s) = Accounts (guard_of h ++ gs) s.admission

module _ {X : Type 0} (fl : Float) where
  open fl use {F}

  take_slot-IsAccounted :
      (gs : List IpAddr) (ip : IpAddr) (room_id : String) (stored : Option String) (s : Server F X)
      → Accounts gs s.admission
      → IsAccounted gs (take_slot ip room_id stored s)
  unfolding take_slot
  take_slot-IsAccounted gs ip room_id none s v = v
  take_slot-IsAccounted gs ip room_id (some stored) s v =
      elim (pending_auth_lem ip gs s.admission v) [
        | inl (_, _, e) ↦ rw (e, take_slot) (pending_auth_granted ip gs s.admission v e)
        | inr (_, e, l) ↦
            rw (e, take_slot)
              (Accounts-same fl gs s.admission _ (ap (λ x. x.pending) l)
                (ap (λ x. x.pending_total) l) v)
      ]

  find_room-IsAccounted :
      (gs : List IpAddr) (m : Arrival F X) (ip : IpAddr) (room_id : String) (s : Server F X)
      → Accounts gs s.admission
      → IsAccounted gs (find_room m ip room_id s)
  unfolding find_room
  find_room-IsAccounted gs m ip room_id s v = go (room_password m.failure room_id s.db)
    where
      go :
          (r : Result (Option (Option String)) DbError)
          → IsAccounted {F = F} {X = X} gs (elim r [
            | err _ ↦ (refused (error service_unavailable "Admission temporarily unavailable"), s)
            | ok none ↦ (upgraded room_id none none, s)
            | ok (some stored) ↦ take_slot ip room_id stored s
          ])
      go (err _) = v
      go (ok none) = v
      go (ok (some stored)) = take_slot-IsAccounted gs ip room_id stored s v

module _ {X : Type 0} (fl : Float) (parse_ip : String → Option IpAddr) (config : Config) where
  open fl use {F}

  -- The slots account for the guards alive before the request, or for those after the other tasks
  -- had their turn, and for the one that the request is handed, if it is handed one: no path through
  -- the handler takes a slot without handing over its guard.
  ws_handler-IsAccounted :
      (gs gs' : List IpAddr) (m : Arrival F X) (room_id : String) (peer : IpAddr)
      (headers : HeaderMap) (s : Server F X)
      → Accounts gs s.admission
      → ((x : Server F X) → Accounts gs x.admission → Accounts gs' (m.others x).admission)
      → IsAccounted gs (ws_handler fl parse_ip config m room_id peer headers s)
        ⊎ IsAccounted gs' (ws_handler fl parse_ip config m room_id peer headers s)
  unfolding ws_handler admit
  ws_handler-IsAccounted gs gs' m room_id peer headers s v keep =
      elim (Bool-cases (is_allowed_origin config.allowed_origins (get_all "origin" headers))) [
        | inr e ↦ rw e (inl (Accounts-same fl gs s.admission _ refl refl v))
        | inl e ↦ rw e (named (client_ip parse_ip peer headers config.trusted_proxies))
      ]
    where
      after : IpAddr → Server F X
      after ip = record s { admission = (check_at fl (connection ip) m.now s.admission).1 }

      after-Accounts : (ip : IpAddr) → Accounts gs (after ip).admission
      after-Accounts ip =
          let (p, t) = check_at_slots fl (connection ip) m.now s.admission in
          Accounts-same fl gs s.admission _ p t v

      answer_check : (ip : IpAddr) → Result (Unit {0}) AdmissionError → Handover × Server F X
      answer_check ip r = elim r [
        | err e ↦ (refused (admission_error e), after ip)
        | ok _ ↦ find_room m ip room_id (m.others (after ip))
      ]

      checked :
          (ip : IpAddr) (r : Result (Unit {0}) AdmissionError)
          → IsAccounted gs (answer_check ip r) ⊎ IsAccounted gs' (answer_check ip r)
      checked ip (err e) = inl (after-Accounts ip)
      checked ip (ok _) = inr (
          find_room-IsAccounted fl gs' m ip room_id (m.others (after ip))
            (keep (after ip) (after-Accounts ip)))

      answer : Result IpAddr StatusCode → Handover × Server F X
      answer r = elim r [
        | err status ↦ (refused (error status "Invalid client address"), s)
        | ok ip ↦ answer_check ip (check_at fl (connection ip) m.now s.admission).0
      ]

      named :
          (r : Result IpAddr StatusCode) → IsAccounted gs (answer r) ⊎ IsAccounted gs' (answer r)
      named (err status) = inl v
      named (ok ip) = checked ip (check_at fl (connection ip) m.now s.admission).0
