-- ===== src/RoomRoutes/Laws.antt =====
-- What the route of src/routes/rooms.rs that creates rooms answers, and what it leaves behind.
use parrhesia_backend.Common.{
  ℕ, ◌≡◌, ◌≢◌, refl, ◌⊎◌, inl, inr, true, Option, none, some, List, [], ◌∷◌, String, Result, ok,
  err, arith,
}
use parrhesia_backend.Common.Dict.{is_some}
use parrhesia_backend.Net.{IpAddr}
use parrhesia_backend.Float.{Float}
use parrhesia_backend.Http.{HeaderMap, StatusCode, ok_200, Response}
use parrhesia_backend.Server.{Server}
use parrhesia_backend.Config.{Config}
use parrhesia_backend.Admission.{AdmissionError, limited, unavailable_error, creation, check_at}
use parrhesia_backend.Db.{Table}
use parrhesia_backend.Db.Laws.{create_room_lem}
use parrhesia_backend.Security.{client_ip}
use parrhesia_backend.Security.Laws.{client_ip_lem}
use parrhesia_backend.Passwords.{Crypto, PasswordError, invalid, common, busy, internal, hash}
use parrhesia_backend.RoomRoutes.{
  Body, create_room_response, room_status_response, json, error, admission_error, read_request,
  Moment, Reply, store_room, refuse_password, create_with, get_room, create_admitted, create_room,
}

-- The room was created, with or without a stored hash, the answer says so, and the other route
-- says the same from then on.
abbrev pub Done : {F X : Type 0} → Moment F X → Reply F X → Type 0
Done m (response, s) =
    (stored : Option String) × (response ≡ json (create_room_response m.uuid (is_some stored)))
    × (get_room none m.uuid s ≡ json (room_status_response true m.uuid (is_some stored)))

abbrev pub Refused : {F X : Type 0} → (Table → Type 0) → Reply F X → Type 0
Refused Q (response, s) = (response.status ≢ ok_200) × Q s.db

abbrev pub Settled : {F X : Type 0} → (Table → Type 0) → Moment F X → Reply F X → Type 0
Settled Q m r = Done m r ⊎ Refused Q r

module _ {F X : Type 0} (m : Moment F X) (Q : Table → Type 0) where
  store_room-Settled :
      (stored : Option String) (s : Server F X) → Q s.db → Settled Q m (store_room m stored s)
  unfolding store_room get_room
  store_room-Settled stored s q =
      elim (create_room_lem m.failure m.timestamp m.uuid m.uuid stored s.db) [
        | inl (e, _, kept, _) ↦ rw (e, store_room) (inl (stored, refl, rw (kept, get_room) refl))
        | inr (x, e, same, _) ↦ rw (e, store_room) (inr ((λ h. cc), rw same q))
      ]

  refuse_password-Settled :
      (e : PasswordError) (s : Server F X) → Q s.db → Settled Q m (refuse_password e s)
  unfolding refuse_password
  refuse_password-Settled invalid s q = inr ((λ h. cc), q)
  refuse_password-Settled common s q = inr ((λ h. cc), q)
  refuse_password-Settled busy s q = inr ((λ h. cc), q)
  refuse_password-Settled internal s q = inr ((λ h. cc), q)

  create_with-Settled :
      (c : Crypto) (common_passwords : List String) (password : Option String) (s : Server F X)
      → Q s.db
      → ((x : Server F X) → Q x.db → Q (m.others x).db)
      → Settled Q m (create_with c common_passwords m password s)
  unfolding create_with
  create_with-Settled c common_passwords none s q keep =
      store_room-Settled none (m.others s) (keep s q)
  create_with-Settled c common_passwords (some password) s q keep =
      go (hash c common_passwords m.permits m.panicked m.salt password)
    where
      go :
          (r : Result String PasswordError)
          → Settled Q m (elim r [
            | err e ↦ refuse_password e (m.others s)
            | ok stored ↦ store_room m (some stored) (m.others s)
          ])
      go (err e) = refuse_password-Settled e (m.others s) (keep s q)
      go (ok stored) = store_room-Settled (some stored) (m.others s) (keep s q)

pub read_request_refuses :
    (parse : List ℕ → Option (Option String)) (headers : HeaderMap) (body : List ℕ)
    (r : Response Body)
    → read_request parse headers body ≡ err r
    → r.status ≢ ok_200
unfolding read_request
read_request_refuses parse headers [] r h k = cc
read_request_refuses parse headers (x ∷ xs) r h k = ground (arith, h, k)

pub admission_error_refuses : (e : AdmissionError) → (admission_error e).status ≢ ok_200
unfolding admission_error
admission_error_refuses (limited n) h = cc
admission_error_refuses unavailable_error h = cc

pub client_ip_refuses :
    (parse_ip : String → Option IpAddr) (peer : IpAddr) (headers : HeaderMap)
    (proxies : List IpAddr) (status : StatusCode)
    → client_ip parse_ip peer headers proxies ≡ err status
    → status ≢ ok_200
client_ip_refuses parse_ip peer headers proxies status h k =
    ground (arith, (client_ip_lem parse_ip peer peer headers proxies).1, h, k)

module _ {X : Type 0} (fl : Float) (c : Crypto) (parse_ip : String → Option IpAddr)
    (parse : List ℕ → Option (Option String)) (common_passwords : List String)
    (config : Config) where
  open fl use {F}

  create_admitted-Settled :
      (m : Moment F X) (Q : Table → Type 0) (headers : HeaderMap) (body : List ℕ) (s : Server F X)
      → Q s.db
      → ((x : Server F X) → Q x.db → Q (m.others x).db)
      → Settled Q m (create_admitted fl c parse_ip parse common_passwords config m headers body s)
  unfolding create_admitted
  create_admitted-Settled m Q headers body s q keep =
      go (read_request parse headers body) (read_request_refuses parse headers body)
    where
      go :
          (r : Result (Option String) (Response Body))
          → ((x : Response Body) → r ≡ err x → x.status ≢ ok_200)
          → Settled Q m (elim r [
            | err response ↦ (response, s)
            | ok password ↦ create_with c common_passwords m password s
          ])
      go (err response) never = inr (never response refl, q)
      go (ok password) never = create_with-Settled m Q c common_passwords password s q keep

  -- A request to create a room either creates it, and then the answer and the other route agree on
  -- whether it has a password, or is refused with another status, and then leaves every property of
  -- the table that the other tasks keep.
  pub create_room-Settled :
      (m : Moment F X) (Q : Table → Type 0) (peer : IpAddr) (headers : HeaderMap) (body : List ℕ)
      (s : Server F X)
      → Q s.db
      → ((x : Server F X) → Q x.db → Q (m.others x).db)
      → Settled Q m (create_room fl c parse_ip parse common_passwords config m peer headers body s)
  unfolding create_room
  create_room-Settled m Q peer headers body s q keep =
      go (client_ip parse_ip peer headers config.trusted_proxies)
        (client_ip_refuses parse_ip peer headers config.trusted_proxies)
    where
      after : IpAddr → Server F X
      after ip = record s { admission = (check_at fl (creation ip) m.now s.admission).1 }

      admitted :
          (ip : IpAddr) (r : Result (Unit {0}) AdmissionError)
          → Settled Q m (elim r [
            | err e ↦ (admission_error e, after ip)
            | ok _ ↦
                create_admitted fl c parse_ip parse common_passwords config m headers body
                  (after ip)
          ])
      admitted ip (err e) = inr (admission_error_refuses e, q)
      admitted ip (ok _) = create_admitted-Settled m Q headers body (after ip) q keep

      go :
          (r : Result IpAddr StatusCode)
          → ((x : StatusCode) → r ≡ err x → x ≢ ok_200)
          → Settled Q m (elim r [
            | err status ↦ (error status "Invalid client address", s)
            | ok ip ↦ (elim (check_at fl (creation ip) m.now s.admission).0 [
              | err e ↦ (admission_error e, after ip)
              | ok _ ↦
                  create_admitted fl c parse_ip parse common_passwords config m headers body
                    (after ip)
            ])
          ])
      go (err status) never = inr (never status refl, q)
      go (ok ip) never = admitted ip (check_at fl (creation ip) m.now s.admission).0
