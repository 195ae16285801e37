-- ===== src/Ws/Auth/Laws.antt =====
-- Who gets into a room with a password, by `authenticate` in src/routes/ws.rs.
use parrhesia_backend.Common.{
  ℕ, ◌≡◌, refl, ◌↔◌, Bool, true, false, Option, none, some, String, Result, ok, err, Bool-cases,
  Option-cases, arith, inl, inr,
}
use parrhesia_backend.Server.{Server}
use parrhesia_backend.Float.{Float}
use parrhesia_backend.Admission.{AdmissionError, room, check_at}
use parrhesia_backend.Passwords.{Crypto, PasswordError, invalid, common, busy, internal, verify}
use parrhesia_backend.Ws.Auth.{
  read_text, Wait, answered, interrupted, timed_out, Attempt, Verdict, refusal, judge,
  await_verification, conclude, attempt, read_password, ask, authenticate,
}

-- The verdict that lets a client in.
abbrev IsIn : {F X : Type 0} → Verdict F X → Type 0
IsIn v = v.0 ≡ some (ok tt)

-- The wait ended with an answer that accepts.
abbrev Accepts : Crypto → Wait → String → String → Type 0
Accepts c w password stored =
    (permits : ℕ) × (panicked : Bool) × (w ≡ answered permits panicked)
    × (verify c permits panicked password stored ≡ ok true)

module _ {X : Type 0} (fl : Float) (c : Crypto) (parse : String → Option String) where
  open fl use {F}

  -- The client was asked and answered in time with a password, the budget of the room admitted the
  -- attempt, and the verification ended first and accepted the password.
  pub record IsProven (m : Attempt F X) (room_id stored : String) (s : Server F X) : Type 0 where
    pub asked : m.asked ≡ true
    pub message : String
    pub read : read_text m.frames ≡ some (ok message)
    pub password : String
    pub parsed : parse message ≡ some password
    pub admitted : (check_at fl (room room_id) m.now (m.before s).admission).0 ≡ ok tt
    pub permits : ℕ
    pub panicked : Bool
    pub waited : m.wait ≡ answered permits panicked
    pub accepted : verify c permits panicked password stored ≡ ok true

  judge-IsIn : (r : Result Bool PasswordError) (s : Server F X) → IsIn (judge r s) → r ≡ ok true
  unfolding judge
  judge-IsIn (ok true) s h = refl
  judge-IsIn (ok false) s h = cc
  judge-IsIn (err invalid) s h = cc
  judge-IsIn (err common) s h = cc
  judge-IsIn (err busy) s h = cc
  judge-IsIn (err internal) s h = cc

  conclude-IsIn : (v : Verdict F X) → (conclude v).0 ≡ true → IsIn v
  unfolding conclude
  conclude-IsIn (some (ok tt), s) h = refl
  conclude-IsIn (some (err _), s) h = cc
  conclude-IsIn (none, s) h = cc

  await-Accepts :
      (w : Wait) (password stored : String) (s : Server F X)
      → IsIn (await_verification c w password stored s)
      → Accepts c w password stored
  unfolding await_verification
  await-Accepts (answered permits panicked) password stored s h =
      (permits, panicked, refl, judge-IsIn (verify c permits panicked password stored) s h)
  await-Accepts interrupted password stored s h = cc
  await-Accepts timed_out password stored s h = cc

  attempt-Accepts :
      (m : Attempt F X) (room_id stored password : String) (s : Server F X)
      → IsIn (attempt fl c parse m room_id stored password s)
      → ((check_at fl (room room_id) m.now s.admission).0 ≡ ok tt)
        × Accepts c m.wait password stored
  unfolding attempt
  attempt-Accepts m room_id stored password s = go (check_at fl (room room_id) m.now s.admission).0
    where
      after : Server F X
      after = record s { admission = (check_at fl (room room_id) m.now s.admission).1 }

      answer : Result (Unit {0}) AdmissionError → Verdict F X
      answer r = elim r [
        | err e ↦ (some (err (refusal e)), after)
        | ok _ ↦ await_verification c m.wait password stored (m.during after)
      ]

      go :
          (r : Result (Unit {0}) AdmissionError)
          → IsIn (answer r)
          → (r ≡ ok tt) × Accepts c m.wait password stored
      go (err e) h = absurd (ground (arith, h))
      go (ok tt) h = (refl, await-Accepts m.wait password stored (m.during after) h)

  ask-IsProven :
      (m : Attempt F X) (room_id stored : String) (s : Server F X)
      → IsIn (ask fl c parse m room_id stored s)
      → IsProven m room_id stored s
  unfolding ask read_password
  ask-IsProven m room_id stored s h = elim (Bool-cases m.asked) [
    | inr e ↦ absurd (ground (arith, e, h))
    | inl e ↦ elim (Option-cases (read_text m.frames)) [
      | inl r ↦ absurd (ground (arith, e, r, h))
      | inr (err x, r) ↦ absurd (ground (arith, e, r, h))
      | inr (ok message, r) ↦ elim (Option-cases (parse message)) [
        | inl q ↦ absurd (ground (arith, e, r, q, h))
        | inr (password, q) ↦
            let (a, (permits, panicked, w, v)) =
              attempt-Accepts m room_id stored password (m.before s)
                (rw (e, r, ask, read_password, q) at h) in
            record {
              asked = e;
              message = message;
              read = r;
              password = password;
              parsed = q;
              admitted = a;
              permits = permits;
              panicked = panicked;
              waited = w;
              accepted = v;
            }
      ]
    ]
  ]

  IsProven-authenticate :
      (m : Attempt F X) (room_id stored : String) (s : Server F X)
      → IsProven m room_id stored s
      → (authenticate fl c parse m room_id stored s).0 ≡ true
  unfolding authenticate ask read_password attempt await_verification judge conclude
  IsProven-authenticate m room_id stored s v =
      ground (arith, v.asked, v.read, v.parsed, v.admitted, v.waited, v.accepted)

  -- A client is let in exactly if it was asked and answered in time with a password, the budget of
  -- the room admitted the attempt, and the verification ended before the timeout and any further
  -- frame, and accepted the password.
  pub authenticate-IsProven :
      (m : Attempt F X) (room_id stored : String) (s : Server F X)
      → ((authenticate fl c parse m room_id stored s).0 ≡ true) ↔ IsProven m room_id stored s
  unfolding authenticate
  authenticate-IsProven m room_id stored s = (
    λ h. ask-IsProven m room_id stored s (conclude-IsIn (ask fl c parse m room_id stored s) h),
    IsProven-authenticate m room_id stored s,
  )
