-- ===== src/RoomRoutes/Keeps.antt =====
-- What every step of `create_room` in src/routes/rooms.rs keeps, the whole handler keeps.
use parrhesia_backend.Common.{ℕ, Option, none, some, List, String, Result, ok, err}
use parrhesia_backend.Common.Int.{ℤ}
use parrhesia_backend.Common.Dict.{is_some}
use parrhesia_backend.Net.{IpAddr}
use parrhesia_backend.Float.{Float}
use parrhesia_backend.Http.{HeaderMap, Response, StatusCode, internal_server_error}
use parrhesia_backend.Server.{Server}
use parrhesia_backend.Config.{Config}
use parrhesia_backend.Admission.{AdmissionError, creation, check_at}
use parrhesia_backend.Db.{DbError, create_room_with_password}
use parrhesia_backend.Security.{client_ip}
use parrhesia_backend.Passwords.{Crypto, PasswordError, invalid, common, busy, internal, hash}
use parrhesia_backend.RoomRoutes.{
  Body, error, json, create_room_response, admission_error, read_request, Moment, Reply, store_room,
  count_unavailable, refuse_password, create_with, create_admitted, create_room,
}

module _ {X : Type 0} (fl : Float) (P : Server fl.F X → Type 0) where
  open fl use {F}

  -- The counter and the statement keep `P`.
  pub record IsQuiet : Type 0 where
    pub lacks : (s : Server F X) → P s → P (count_unavailable s)
    pub stores :
        (f : Option DbError) (now : ℤ) (id : String) (hash : Option String) (s : Server F X)
        → P s
        → P (record s { db = (create_room_with_password f now id hash s.db).1 })

  -- So does the check of the creations of an address.
  pub record IsStable : Type 0 where
    pub spends :
        (ip : IpAddr) (now : ℕ) (s : Server F X)
        → P s
        → P (record s { admission = (check_at fl (creation ip) now s.admission).1 })
    pub quiet : IsQuiet

  module _ (quiet : IsQuiet) (m : Moment F X) (calm : (s : Server F X) → P s → P (m.others s)) where
    store_room-keeps : (stored : Option String) (s : Server F X) → P s → P (store_room m stored s).1
    unfolding store_room
    store_room-keeps stored s p =
        go (create_room_with_password m.failure m.timestamp m.uuid stored s.db).0
      where
        after : Server F X
        after = record s {
          db = (create_room_with_password m.failure m.timestamp m.uuid stored s.db).1;
        }

        go :
            (r : Result (Unit {0}) DbError)
            → P
                (elim r as (λ x. Reply F X) [
                  | err _ ↦ (error internal_server_error "Failed to create room", after)
                  | ok _ ↦ (json (create_room_response m.uuid (is_some stored)), after)
                ]).1
        go (err _) = quiet.stores m.failure m.timestamp m.uuid stored s p
        go (ok _) = quiet.stores m.failure m.timestamp m.uuid stored s p

    refuse_password-keeps : (e : PasswordError) (s : Server F X) → P s → P (refuse_password e s).1
    unfolding refuse_password
    refuse_password-keeps invalid s p = p
    refuse_password-keeps common s p = p
    refuse_password-keeps busy s p = quiet.lacks s p
    refuse_password-keeps internal s p = quiet.lacks s p

    module _ (c : Crypto) (parse_ip : String → Option IpAddr)
        (parse : List ℕ → Option (Option String)) (common_passwords : List String)
        (config : Config) where
      pub create_with-keeps :
          (password : Option String) (s : Server F X)
          → P s
          → P (create_with c common_passwords m password s).1
      unfolding create_with
      create_with-keeps none s p = store_room-keeps none _ (calm s p)
      create_with-keeps (some password) s p =
          go (hash c common_passwords m.permits m.panicked m.salt password)
        where
          go :
              (r : Result String PasswordError)
              → P
                  (elim r as (λ x. Reply F X) [
                    | err e ↦ refuse_password e (m.others s)
                    | ok stored ↦ store_room m (some stored) (m.others s)
                  ]).1
          go (err e) = refuse_password-keeps e _ (calm s p)
          go (ok stored) = store_room-keeps (some stored) _ (calm s p)

      create_admitted-keeps :
          (headers : HeaderMap) (body : List ℕ) (s : Server F X)
          → P s
          → P (create_admitted fl c parse_ip parse common_passwords config m headers body s).1
      unfolding create_admitted
      create_admitted-keeps headers body s p = go (read_request parse headers body)
        where
          go :
              (r : Result (Option String) (Response Body))
              → P
                  (elim r as (λ x. Reply F X) [
                    | err response ↦ (response, s)
                    | ok password ↦ create_with c common_passwords m password s
                  ]).1
          go (err response) = p
          go (ok password) = create_with-keeps password s p

  module _ (stable : IsStable) (m : Moment F X) (calm : (s : Server F X) → P s → P (m.others s))
      (c : Crypto) (parse_ip : String → Option IpAddr) (parse : List ℕ → Option (Option String))
      (common_passwords : List String) (config : Config) where
    pub create_room-keeps :
        (peer : IpAddr) (headers : HeaderMap) (body : List ℕ) (s : Server F X)
        → P s
        → P (create_room fl c parse_ip parse common_passwords config m peer headers body s).1
    unfolding create_room
    create_room-keeps peer headers body s p =
        named (client_ip parse_ip peer headers config.trusted_proxies)
      where
        after : IpAddr → Server F X
        after ip = record s { admission = (check_at fl (creation ip) m.now s.admission).1 }

        answer_check : (ip : IpAddr) → Result (Unit {0}) AdmissionError → Reply F X
        answer_check ip r = elim r [
          | err e ↦ (admission_error e, after ip)
          | ok _ ↦
              create_admitted fl c parse_ip parse common_passwords config m headers body (after ip)
        ]

        checked : (ip : IpAddr) (r : Result (Unit {0}) AdmissionError) → P (answer_check ip r).1
        checked ip (err e) = stable.spends ip m.now s p
        checked ip (ok _) =
            create_admitted-keeps stable.quiet m calm c parse_ip parse common_passwords config
              headers body _ (stable.spends ip m.now s p)

        named :
            (r : Result IpAddr StatusCode)
            → P
                (elim r as (λ x. Reply F X) [
                  | err status ↦ (error status "Invalid client address", s)
                  | ok ip ↦ answer_check ip (check_at fl (creation ip) m.now s.admission).0
                ]).1
        named (err status) = p
        named (ok ip) = checked ip (check_at fl (creation ip) m.now s.admission).0
