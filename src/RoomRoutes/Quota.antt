-- ===== src/RoomRoutes/Quota.antt =====
-- How many rooms an address creates in src/routes/rooms.rs.
use parrhesia_backend.Common.{
  ℕ, ◌+◌, ◌-◌, ◌*◌, ◌≤◌, ◌≡◌, refl, ap, ◌∙◌, ◌⊎◌, inl, inr, Bool, true, false, Option, none, some,
  List, [], ◌∷◌, arith, String, string_eq, ◌==◌, if◌then◌else◌, Result, ok, err,
}
use parrhesia_backend.Net.{ip_eq, IpAddr}
use parrhesia_backend.Float.{fixed, unit}
use parrhesia_backend.Http.{HeaderMap, StatusCode, ok_200, Response}
use parrhesia_backend.Server.{Server}
use parrhesia_backend.Config.{Config}
use parrhesia_backend.Admission.{
  budget_eq, AdmissionError, limited, unavailable_error, budget_same, creation, check_at,
}
use parrhesia_backend.Admission.Level.{level}
use parrhesia_backend.Admission.Rate.{admits}
use parrhesia_backend.Security.{client_ip}
use parrhesia_backend.Passwords.{Crypto}
use parrhesia_backend.RoomRoutes.{
  Body, error, admission_error, read_request, Moment, Reply, store_room, create_with,
  create_admitted, create_room,
}
use parrhesia_backend.RoomRoutes.Keeps.{create_with-keeps}
use parrhesia_backend.RoomRoutes.Payment.{
  Buckets, buckets, IsSteady, Paid, Paid-trans, Paid-le, Paid-aged, Paid-check, IsThrifty,
}

-- A request, the time at which it is answered, and what other tasks do before it.
pub record Arrival (X : Type 0) : Type 0 where
  pub moment : Moment ℕ X
  pub peer : IpAddr
  pub headers : HeaderMap
  pub body : List ℕ
  pub ends : ℕ
  pub before : Server ℕ X → Server ℕ X

abbrev pub is_created : StatusCode → Bool
is_created ok_200 = true
is_created _ = false

abbrev pub is_from : IpAddr → Result IpAddr StatusCode → Bool
is_from ip (ok j) = j == ip
is_from ip (err _) = false

-- 1 if the address is told that a room was created.
abbrev pub counted : IpAddr → Result IpAddr StatusCode → StatusCode → ℕ
counted ip r status = if is_created status then (if is_from ip r then 1 else 0) else 0

module _ {X : Type 0} (c : Crypto) (parse_ip : String → Option IpAddr)
    (parse : List ℕ → Option (Option String)) (common_passwords : List String)
    (config : Config) where
  -- After the check, a request leaves the budgets to the others, if it waits, and alone otherwise.
  create_admitted-buckets :
      (m : Moment ℕ X) (headers : HeaderMap) (body : List ℕ) (s : Server ℕ X)
      → let after =
          (create_admitted fixed c parse_ip parse common_passwords config m headers body s).1 in
        (buckets after ≡ buckets s) ⊎ (buckets after ≡ buckets (m.others s))
  unfolding create_admitted create_with store_room
  create_admitted-buckets m headers body s = go (read_request parse headers body)
    where
      -- The same request, which does not wait.
      rested : Moment ℕ X
      rested = record m { others = λ x. x }

      same :
          (password : Option String)
          → buckets (create_with c common_passwords rested password (m.others s)).1
            ≡ buckets (m.others s)
      same password =
          create_with-keeps fixed (λ x. buckets x ≡ buckets (m.others s))
            (record { lacks = λ x h. h; stores = λ f now id hash x h. h }) rested (λ x h. h) c
            parse_ip parse common_passwords config password (m.others s) refl

      waits :
          (password : Option String)
          → create_with c common_passwords m password s
            ≡ create_with c common_passwords rested password (m.others s)
      waits none = refl
      waits (some password) = refl

      go :
          (r : Result (Option String) (Response Body))
          → let after =
              (elim r as (λ x. Reply ℕ X) [
                | err response ↦ (response, s)
                | ok password ↦ create_with c common_passwords m password s
              ]).1 in
            (buckets after ≡ buckets s) ⊎ (buckets after ≡ buckets (m.others s))
      go (err response) = inl refl
      go (ok password) = inr (ap (λ t. buckets t.1) (waits password) ∙ same password)

  abbrev pub reply : Arrival X → Server ℕ X → Reply ℕ X
  reply v s =
      create_room fixed c parse_ip parse common_passwords config v.moment v.peer v.headers v.body
        (v.before s)

  -- The rooms that the address is told were created, in a history of requests.
  pub created : IpAddr → List (Arrival X) → Server ℕ X → ℕ
  created ip [] s = 0
  created ip (v ∷ vs) s =
      let r = reply v s in
      counted ip (client_ip parse_ip v.peer v.headers config.trusted_proxies) r.0.status
      + created ip vs r.1

  -- The requests come one after the other, and the other tasks give the address no tokens.
  abbrev pub IsFair : IpAddr → ℕ → List (Arrival X) → Type 0
  IsFair ip t [] = Unit
  IsFair ip t (v ∷ vs) =
      IsThrifty ip t v.moment.now v.before
      × IsThrifty ip v.moment.now v.ends v.moment.others
      × (t ≤ v.moment.now)
      × (v.moment.now ≤ v.ends)
      × IsFair ip v.ends vs

  abbrev pub end_of : ℕ → List (Arrival X) → ℕ
  end_of t [] = t
  end_of t (v ∷ vs) = end_of v.ends vs

  reply-Paid :
      (ip : IpAddr) (v : Arrival X) (s : Server ℕ X)
      → IsSteady v.moment.now (buckets (v.before s))
      → IsThrifty ip v.moment.now v.ends v.moment.others
      → v.moment.now ≤ v.ends
      → let r = reply v s in
        Paid ip v.moment.now v.ends
          (counted ip (client_ip parse_ip v.peer v.headers config.trusted_proxies) r.0.status)
          (buckets (v.before s))
          (buckets r.1)
  unfolding create_room admission_error budget_same
  reply-Paid ip v s steady thrifty h =
      named (client_ip parse_ip v.peer v.headers config.trusted_proxies)
    where
      now : ℕ
      now = v.moment.now

      here : Server ℕ X
      here = v.before s

      after : IpAddr → Server ℕ X
      after j = record here { admission = (check_at fixed (creation j) now here.admission).1 }

      answer_check : (j : IpAddr) → Result (Unit {0}) AdmissionError → Reply ℕ X
      answer_check j r = elim r [
        | err e ↦ (admission_error e, after j)
        | ok _ ↦
            create_admitted fixed c parse_ip parse common_passwords config v.moment v.headers v.body
              (after j)
      ]

      answer : Result IpAddr StatusCode → Reply ℕ X
      answer r = elim r [
        | err status ↦ (error status "Invalid client address", here)
        | ok j ↦ answer_check j (check_at fixed (creation j) now here.admission).0
      ]

      stranger : (b : Bool) → ◌≡◌ {A = ℕ} (if b then (if false then 1 else 0) else 0) 0
      stranger true = refl
      stranger false = refl

      refused : (j : IpAddr) (e : AdmissionError) → counted ip (ok j) (admission_error e).status ≡ 0
      refused j (limited n) = refl
      refused j unavailable_error = refl

      check :
          (j : IpAddr)
          → Paid ip now now
              (admits (creation ip) (now, some (creation j)) here.admission)
              (buckets here)
              (buckets (after j))
      check j = Paid-check ip (creation j) now here.admission steady

      told :
          (j : IpAddr) (status : StatusCode)
          → (check_at fixed (creation j) now here.admission).0 ≡ ok tt
          → counted ip (ok j) status
            ≤ admits (creation ip) (now, some (creation j)) here.admission + 0
      told j status q = rw q (ground arith)

      rest :
          (j : IpAddr) (b : Buckets)
          → (b ≡ buckets (after j)) ⊎ (b ≡ buckets (v.moment.others (after j)))
          → Paid ip now v.ends 0 (buckets (after j)) b
      rest j b (inl e) = rw e (Paid-aged ip now v.ends (buckets (after j)) h (check j).steady)
      rest j b (inr e) = rw e (thrifty (after j) (check j).steady)

      checked :
          (j : IpAddr) (r : Result (Unit {0}) AdmissionError)
          → (check_at fixed (creation j) now here.admission).0 ≡ r
          → Paid ip now v.ends
              (counted ip (ok j) (answer_check j r).0.status)
              (buckets here)
              (buckets (answer_check j r).1)
      checked j (err e) q =
          Paid-le ip now v.ends _ (admits (creation ip) (now, some (creation j)) here.admission + 0)
            _ _ (omega (arith, refused j e))
            (Paid-trans ip now now v.ends _ _ _ _ _ (check j) (rest j _ (inl refl)))
      checked j (ok _) q =
          Paid-le ip now v.ends _ (admits (creation ip) (now, some (creation j)) here.admission + 0)
            _ _ (told j _ q)
            (Paid-trans ip now now v.ends _ _ _ _ _ (check j)
              (rest j _ (create_admitted-buckets v.moment v.headers v.body (after j))))

      named :
          (r : Result IpAddr StatusCode)
          → Paid ip now v.ends
              (counted ip r (answer r).0.status)
              (buckets here)
              (buckets (answer r).1)
      named (err status) =
          Paid-le ip now v.ends _ 0 _ _ (omega (arith, stranger (is_created status)))
            (Paid-aged ip now v.ends (buckets here) h steady)
      named (ok j) = checked j (check_at fixed (creation j) now here.admission).0 refl

  end_of-le : (ip : IpAddr) (t : ℕ) (vs : List (Arrival X)) → IsFair ip t vs → t ≤ end_of t vs
  end_of-le ip t [] h = omega arith
  end_of-le ip t (v ∷ vs) (a, b, h, k, fair) = omega (arith, h, k, end_of-le ip v.ends vs fair)

  -- In the fixed-point arithmetic, from a table that has each budget once and no bucket updated after
  -- the start, and over any history of requests in the order of time, between and during which the
  -- other tasks do anything that gives the address no tokens and keeps the table so, the rooms that an
  -- address is told were created cost no more than the level of its budget at the start and what is
  -- refilled until the end, five rooms a minute.
  pub created-le :
      (ip : IpAddr) (t : ℕ) (vs : List (Arrival X)) (s : Server ℕ X)
      → IsSteady t (buckets s)
      → IsFair ip t vs
      → created ip vs s * unit ≤ level (creation ip) t (buckets s) + (end_of t vs - t) * 5
  unfolding created
  created-le ip t [] s steady fair = omega arith
  created-le ip t (v ∷ vs) s steady (first, during, _, h, fair) =
      let p = first s steady in
      let q = reply-Paid ip v s p.steady during h in
      omega (
        arith,
        p.paid,
        q.paid,
        p.later,
        h,
        end_of-le ip v.ends vs fair,
        created-le ip v.ends vs (reply v s).1 q.steady fair,
      )
