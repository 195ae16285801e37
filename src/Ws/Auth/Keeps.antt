-- ===== src/Ws/Auth/Keeps.antt =====
-- What every step of `authenticate` in src/routes/ws.rs keeps, the whole authentication keeps.
use parrhesia_backend.Common.{
  ℕ, Bool, true, false, Option, none, some, String, Result, ok, err, Bool-cases, inl, inr,
}
use parrhesia_backend.Server.{Server}
use parrhesia_backend.Float.{Float}
use parrhesia_backend.Admission.{AdmissionError, room, check_at}
use parrhesia_backend.Passwords.{Crypto, PasswordError, invalid, common, busy, internal, verify}
use parrhesia_backend.RoomRoutes.{count_unavailable}
use parrhesia_backend.Ws.Messages.{OutgoingMessage, auth_failed}
use parrhesia_backend.Ws.Upgrade.{count_rejected}
use parrhesia_backend.Ws.Auth.{
  read_text, Wait, answered, interrupted, timed_out, Attempt, Verdict, refusal, count_failed, judge,
  await_verification, conclude, attempt, read_password, ask, authenticate,
}

module _ {X : Type 0} (fl : Float) (P : Server fl.F X → Type 0) where
  open fl use {F}

  -- The check of the room's budget and the counters keep `P`.
  pub record IsStable (room_id : String) : Type 0 where
    pub spends :
        (now : ℕ) (s : Server F X)
        → P s
        → P (record s { admission = (check_at fl (room room_id) now s.admission).1 })
    pub fails : (s : Server F X) → P s → P (count_failed s)
    pub lacks : (s : Server F X) → P s → P (count_unavailable s)
    pub rejects : (s : Server F X) → P s → P (count_rejected s)

  module _ (c : Crypto) (parse : String → Option String) (room_id : String)
      (stable : IsStable room_id) where
    judge-keeps : (r : Result Bool PasswordError) (s : Server F X) → P s → P (judge r s).1
    unfolding judge
    judge-keeps (ok true) s p = p
    judge-keeps (ok false) s p = stable.fails s p
    judge-keeps (err invalid) s p = stable.fails s p
    judge-keeps (err common) s p = stable.lacks s p
    judge-keeps (err busy) s p = stable.lacks s p
    judge-keeps (err internal) s p = stable.lacks s p

    await-keeps :
        (w : Wait) (password stored : String) (s : Server F X)
        → P s
        → P (await_verification c w password stored s).1
    unfolding await_verification
    await-keeps (answered permits panicked) password stored s p =
        judge-keeps (verify c permits panicked password stored) s p
    await-keeps interrupted password stored s p = p
    await-keeps timed_out password stored s p = p

    conclude-keeps : (v : Verdict F X) → P v.1 → P (conclude v).2
    unfolding conclude
    conclude-keeps (some (ok _), s) p = p
    conclude-keeps (some (err _), s) p = stable.rejects s p
    conclude-keeps (none, s) p = stable.rejects s p

    module _ (m : Attempt F X) (calm : (s : Server F X) → P s → P (m.during s)) where
      attempt-keeps :
          (stored password : String) (s : Server F X)
          → P s
          → P (attempt fl c parse m room_id stored password s).1
      unfolding attempt
      attempt-keeps stored password s p = go (check_at fl (room room_id) m.now s.admission).0
        where
          after : Server F X
          after = record s { admission = (check_at fl (room room_id) m.now s.admission).1 }

          go :
              (r : Result (Unit {0}) AdmissionError)
              → P
                  (elim r as (λ x. Verdict F X) [
                    | err e ↦ (some (err (refusal e)), after)
                    | ok _ ↦ await_verification c m.wait password stored (m.during after)
                  ]).1
          go (err e) = stable.spends m.now s p
          go (ok _) = await-keeps m.wait password stored _ (calm after (stable.spends m.now s p))

      read_password-keeps :
          (stored message : String) (s : Server F X)
          → P s
          → P (read_password fl c parse m room_id stored message s).1
      unfolding read_password
      read_password-keeps stored message s p = go (parse message)
        where
          go :
              (o : Option String)
              → P
                  (elim o as (λ x. Verdict F X) [
                    | none ↦ (some (err auth_failed), s)
                    | some password ↦ attempt fl c parse m room_id stored password s
                  ]).1
          go none = p
          go (some password) = attempt-keeps stored password s p

      ask-keeps :
          (stored : String) (s : Server F X)
          → P (m.before s)
          → P (ask fl c parse m room_id stored s).1
      unfolding ask
      ask-keeps stored s p = elim (Bool-cases m.asked) [
        | inl e ↦ rw e (go (read_text m.frames))
        | inr e ↦ rw e p
      ]
        where
          go :
              (o : Option (Result String OutgoingMessage))
              → P
                  (elim o as (λ x. Verdict F X) [
                    | none ↦ (none, m.before s)
                    | some (err failure) ↦ (some (err failure), m.before s)
                    | some (ok message) ↦
                        read_password fl c parse m room_id stored message (m.before s)
                  ]).1
          go none = p
          go (some (err _)) = p
          go (some (ok message)) = read_password-keeps stored message (m.before s) p

      pub authenticate-keeps :
          (stored : String) (s : Server F X)
          → P (m.before s)
          → P (authenticate fl c parse m room_id stored s).2
      unfolding authenticate
      authenticate-keeps stored s p =
          conclude-keeps (ask fl c parse m room_id stored s) (ask-keeps stored s p)
