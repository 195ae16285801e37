-- ===== src/RoomRoutes/Guards.antt =====
-- Which requests create a room in src/routes/rooms.rs.
use parrhesia_backend.Common.{ℕ, ◌≡◌, ◌≢◌, refl, Option, none, some, List, String, Result, ok, err}
use parrhesia_backend.Net.{IpAddr}
use parrhesia_backend.Float.{Float}
use parrhesia_backend.Http.{HeaderMap, StatusCode, ok_200, Response}
use parrhesia_backend.Server.{Server}
use parrhesia_backend.Config.{Config}
use parrhesia_backend.Admission.{AdmissionError, creation, check_at}
use parrhesia_backend.Security.{client_ip}
use parrhesia_backend.Passwords.{Crypto, PasswordError, invalid, common, busy, internal, hash}
use parrhesia_backend.RoomRoutes.{
  Body, error, admission_error, read_request, Moment, Reply, store_room, refuse_password,
  create_with, create_admitted, create_room,
}
use parrhesia_backend.RoomRoutes.Laws.{
  read_request_refuses, admission_error_refuses, client_ip_refuses,
}

refuse_password_refuses :
    {F X : Type 0} (e : PasswordError) (s : Server F X) → (refuse_password e s).0.status ≢ ok_200
unfolding refuse_password
refuse_password_refuses invalid s h = cc
refuse_password_refuses common s h = cc
refuse_password_refuses busy s h = cc
refuse_password_refuses internal s h = cc

module _ {X : Type 0} (fl : Float) (c : Crypto) (parse_ip : String → Option IpAddr)
    (parse : List ℕ → Option (Option String)) (common_passwords : List String)
    (config : Config) where
  open fl use {F}

  -- A password, if there is one, was hashed.
  abbrev pub IsHashed : Moment F X → Option String → Type 0
  IsHashed m none = Unit
  IsHashed m (some p) =
      (stored : String) × (hash c common_passwords m.permits m.panicked m.salt p ≡ ok stored)

  create_with-IsHashed :
      (m : Moment F X) (password : Option String) (s : Server F X)
      → (create_with c common_passwords m password s).0.status ≡ ok_200
      → IsHashed m password
  unfolding create_with
  create_with-IsHashed m none s h = tt
  create_with-IsHashed m (some p) s h =
      go (hash c common_passwords m.permits m.panicked m.salt p) refl h
    where
      answer : Result String PasswordError → Reply F X
      answer r = elim r [
        | err e ↦ refuse_password e (m.others s)
        | ok stored ↦ store_room m (some stored) (m.others s)
      ]

      go :
          (r : Result String PasswordError)
          → hash c common_passwords m.permits m.panicked m.salt p ≡ r
          → (answer r).0.status ≡ ok_200
          → IsHashed m (some p)
      go (err e) q k = absurd (refuse_password_refuses e (m.others s) k)
      go (ok stored) q k = (stored, q)

  -- What a request must have for its room to be created.
  pub record IsGranted (m : Moment F X) (peer : IpAddr) (headers : HeaderMap) (body : List ℕ)
      (s : Server F X) : Type 0 where
    pub ip : IpAddr
    pub named : client_ip parse_ip peer headers config.trusted_proxies ≡ ok ip
    pub admitted : (check_at fl (creation ip) m.now s.admission).0 ≡ ok tt
    pub password : Option String
    pub read : read_request parse headers body ≡ ok password
    pub hashed : IsHashed m password

  -- Only a request whose address is known, that its budget admits, that can be read, and whose
  -- password, if it has one, was hashed, is answered that a room was created.
  pub create_room-IsGranted :
      (m : Moment F X) (peer : IpAddr) (headers : HeaderMap) (body : List ℕ) (s : Server F X)
      → (create_room fl c parse_ip parse common_passwords config m peer headers body s).0.status
        ≡ ok_200
      → IsGranted m peer headers body s
  unfolding create_room create_admitted
  create_room-IsGranted m peer headers body s =
      named (client_ip parse_ip peer headers config.trusted_proxies) refl
    where
      after : IpAddr → Server F X
      after ip = record s { admission = (check_at fl (creation ip) m.now s.admission).1 }

      answer_read : (ip : IpAddr) → Result (Option String) (Response Body) → Reply F X
      answer_read ip r = elim r [
        | err response ↦ (response, after ip)
        | ok password ↦ create_with c common_passwords m password (after ip)
      ]

      answer_check : (ip : IpAddr) → Result (Unit {0}) AdmissionError → Reply F X
      answer_check ip r = elim r [
        | err e ↦ (admission_error e, after ip)
        | ok _ ↦ answer_read ip (read_request parse headers body)
      ]

      answer : Result IpAddr StatusCode → Reply F X
      answer r = elim r [
        | err status ↦ (error status "Invalid client address", s)
        | ok ip ↦ answer_check ip (check_at fl (creation ip) m.now s.admission).0
      ]

      read_next :
          (ip : IpAddr) (r : Result (Option String) (Response Body))
          → client_ip parse_ip peer headers config.trusted_proxies ≡ ok ip
          → (check_at fl (creation ip) m.now s.admission).0 ≡ ok tt
          → read_request parse headers body ≡ r
          → (answer_read ip r).0.status ≡ ok_200
          → IsGranted m peer headers body s
      read_next ip (err response) n a q k =
          absurd (read_request_refuses parse headers body response q k)
      read_next ip (ok password) n a q k = record {
        ip = ip;
        named = n;
        admitted = a;
        password = password;
        read = q;
        hashed = create_with-IsHashed m password (after ip) k;
      }

      checked :
          (ip : IpAddr) (r : Result (Unit {0}) AdmissionError)
          → client_ip parse_ip peer headers config.trusted_proxies ≡ ok ip
          → (check_at fl (creation ip) m.now s.admission).0 ≡ r
          → (answer_check ip r).0.status ≡ ok_200
          → IsGranted m peer headers body s
      checked ip (err e) n q k = absurd (admission_error_refuses e k)
      checked ip (ok tt) n q k = read_next ip (read_request parse headers body) n q refl k

      named :
          (r : Result IpAddr StatusCode)
          → client_ip parse_ip peer headers config.trusted_proxies ≡ r
          → (answer r).0.status ≡ ok_200
          → IsGranted m peer headers body s
      named (err status) q k =
          absurd (client_ip_refuses parse_ip peer headers config.trusted_proxies status q k)
      named (ok ip) q k = checked ip (check_at fl (creation ip) m.now s.admission).0 q refl k
