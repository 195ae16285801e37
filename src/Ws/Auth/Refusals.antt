-- ===== src/Ws/Auth/Refusals.antt =====
-- What a client of src/routes/ws.rs is told that `authenticate` does not let in.
use parrhesia_backend.Common.{
  ◌≡◌, refl, Bool, true, false, Option, none, some, List, [], ◌∷◌, String, Result, ok, err,
  Bool-cases, inl, inr, arith,
}
use parrhesia_backend.Server.{Server}
use parrhesia_backend.Float.{Float}
use parrhesia_backend.Admission.{AdmissionError, limited, unavailable_error, room, check_at}
use parrhesia_backend.Passwords.{Crypto, PasswordError, invalid, common, busy, internal, verify}
use parrhesia_backend.Ws.Messages.{
  OutgoingMessage, auth_failed, auth_rate_limited, auth_unavailable,
}
use parrhesia_backend.Ws.Session.{Frame, text, pong, ping, close, transport_error, ended, binary}
use parrhesia_backend.Ws.Auth.{
  read_text, Wait, answered, interrupted, timed_out, Attempt, Verdict, refusal, judge,
  await_verification, conclude, attempt, read_password, ask, authenticate,
}

-- The messages of a failed authentication.
abbrev pub is_refusal : OutgoingMessage → Bool
is_refusal auth_failed = true
is_refusal (auth_rate_limited _) = true
is_refusal auth_unavailable = true
is_refusal _ = false

abbrev IsRefusal : {A : Type 0} → Option (Result A OutgoingMessage) → Type 0
IsRefusal none = Unit
IsRefusal (some (ok _)) = Unit
IsRefusal (some (err m)) = is_refusal m ≡ true

read_text-IsRefusal : (frames : List (Bool × Frame)) → IsRefusal (read_text frames)
unfolding read_text
read_text-IsRefusal [] = tt
read_text-IsRefusal ((alive, text s) ∷ frames) = ground arith
read_text-IsRefusal ((true, ping bytes) ∷ frames) = read_text-IsRefusal frames
read_text-IsRefusal ((false, ping bytes) ∷ frames) = refl
read_text-IsRefusal ((alive, pong) ∷ frames) = read_text-IsRefusal frames
read_text-IsRefusal ((alive, close) ∷ frames) = refl
read_text-IsRefusal ((alive, transport_error) ∷ frames) = refl
read_text-IsRefusal ((alive, ended) ∷ frames) = refl
read_text-IsRefusal ((alive, binary) ∷ frames) = refl

module _ {F X : Type 0} where
  judge-IsRefusal : (r : Result Bool PasswordError) (s : Server F X) → IsRefusal (judge r s).0
  unfolding judge
  judge-IsRefusal (ok true) s = tt
  judge-IsRefusal (ok false) s = refl
  judge-IsRefusal (err invalid) s = refl
  judge-IsRefusal (err common) s = refl
  judge-IsRefusal (err busy) s = refl
  judge-IsRefusal (err internal) s = refl

  await-IsRefusal :
      (c : Crypto) (w : Wait) (password stored : String) (s : Server F X)
      → IsRefusal (await_verification c w password stored s).0
  unfolding await_verification
  await-IsRefusal c (answered permits panicked) password stored s =
      judge-IsRefusal (verify c permits panicked password stored) s
  await-IsRefusal c interrupted password stored s = refl
  await-IsRefusal c timed_out password stored s = tt

  -- What is told is the failure, and there is one unless the client is in.
  abbrev IsToldOff : Bool × Option OutgoingMessage × Server F X → Type 0
  IsToldOff r =
      r.0 ≡ false → (failure : OutgoingMessage) × (r.1 ≡ some failure) × (is_refusal failure ≡ true)

  conclude-IsToldOff : (v : Verdict F X) → IsRefusal v.0 → IsToldOff (conclude v)
  unfolding conclude
  conclude-IsToldOff (some (ok _), s) h e = cc
  conclude-IsToldOff (some (err m), s) h e = (m, refl, h)
  conclude-IsToldOff (none, s) h e = (auth_failed, refl, refl)

module _ {X : Type 0} (fl : Float) (c : Crypto) (parse : String → Option String) where
  open fl use {F}

  attempt-IsRefusal :
      (m : Attempt F X) (room_id stored password : String) (s : Server F X)
      → IsRefusal (attempt fl c parse m room_id stored password s).0
  unfolding attempt
  attempt-IsRefusal m room_id stored password s =
      go (check_at fl (room room_id) m.now s.admission).0
    where
      after : Server F X
      after = record s { admission = (check_at fl (room room_id) m.now s.admission).1 }

      go :
          (r : Result (Unit {0}) AdmissionError)
          → IsRefusal
              (elim r as (λ _. Verdict F X) [
                | err e ↦ (some (err (refusal e)), after)
                | ok _ ↦ await_verification c m.wait password stored (m.during after)
              ]).0
      go (err (limited n)) = refl
      go (err unavailable_error) = refl
      go (ok tt) = await-IsRefusal c m.wait password stored (m.during after)

  read_password-IsRefusal :
      (m : Attempt F X) (room_id stored message : String) (s : Server F X)
      → IsRefusal (read_password fl c parse m room_id stored message s).0
  unfolding read_password
  read_password-IsRefusal m room_id stored message s = go (parse message)
    where
      go :
          (o : Option String)
          → IsRefusal
              (elim o as (λ _. Verdict F X) [
                | none ↦ (some (err auth_failed), s)
                | some password ↦ attempt fl c parse m room_id stored password s
              ]).0
      go none = refl
      go (some password) = attempt-IsRefusal m room_id stored password s

  ask-IsRefusal :
      (m : Attempt F X) (room_id stored : String) (s : Server F X)
      → IsRefusal (ask fl c parse m room_id stored s).0
  unfolding ask
  ask-IsRefusal m room_id stored s = elim (Bool-cases m.asked) [
    | inl e ↦ rw (e, ask) (go (read_text m.frames) (read_text-IsRefusal m.frames))
    | inr e ↦ rw (e, ask) refl
  ]
    where
      go :
          (o : Option (Result String OutgoingMessage))
          → IsRefusal o
          → IsRefusal
              (elim o as (λ _. Verdict F X) [
                | none ↦ (none, m.before s)
                | some (err failure) ↦ (some (err failure), m.before s)
                | some (ok message) ↦ read_password fl c parse m room_id stored message (m.before s)
              ]).0
      go none h = tt
      go (some (err failure)) h = h
      go (some (ok message)) h = read_password-IsRefusal m room_id stored message (m.before s)

  pub authenticate-IsToldOff :
      (m : Attempt F X) (room_id stored : String) (s : Server F X)
      → (authenticate fl c parse m room_id stored s).0 ≡ false
      → (failure : OutgoingMessage) × ((authenticate fl c parse m room_id stored s).1
          ≡ some failure)
        × (is_refusal failure ≡ true)
  unfolding authenticate
  authenticate-IsToldOff m room_id stored s =
      conclude-IsToldOff (ask fl c parse m room_id stored s) (ask-IsRefusal m room_id stored s)
