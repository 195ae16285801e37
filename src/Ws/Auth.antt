-- ===== src/Ws/Auth.antt =====
-- `authenticate` in src/routes/ws.rs: the password of a room, asked for over the new socket.
pub mod Laws
pub mod Refusals
pub mod Keeps
mod Examples
use Prim.Native.String.{len}
use parrhesia_backend.Common.{
  ℕ, ◌≡◌, Bool, true, false, Option, none, some, List, [], ◌∷◌, String, leb, if◌then◌else◌, Result,
  ok, err, add_one,
}
use parrhesia_backend.Server.{Server}
use parrhesia_backend.Float.{Float}
use parrhesia_backend.Admission.{AdmissionError, limited, unavailable_error, room, check_at}
use parrhesia_backend.Passwords.{Crypto, PasswordError, invalid, common, busy, internal, verify}
use parrhesia_backend.RoomRoutes.{count_unavailable}
use parrhesia_backend.Ws.Messages.{
  OutgoingMessage, auth_failed, auth_rate_limited, auth_unavailable,
}
use parrhesia_backend.Ws.Session.{Frame, text, pong, ping}
use parrhesia_backend.Ws.Upgrade.{count_rejected}

-- The loop up to the first text. Each frame comes with whether a write would succeed; `none` is
-- the timeout of the handshake, which comes when no more frames do.
unfoldable pub read_text : List (Bool × Frame) → Option (Result String OutgoingMessage)
read_text [] = none
read_text ((alive, text s) ∷ frames) = some (if leb (len s) 4096 then ok s else err auth_failed)
read_text ((alive, ping bytes) ∷ frames) =
    let rest = read_text frames in if alive then rest else some (err auth_failed)
read_text ((alive, pong) ∷ frames) = read_text frames
read_text (_ ∷ frames) = some (err auth_failed)

-- How the wait for a verification ends: with its answer, with the permits that it found and whether
-- its job died; with a second frame or a disconnect; or with the timeout.
pub data Wait : Type 0 where
  answered : ℕ → Bool → Wait
  interrupted timed_out : Wait

-- What an authentication meets. `asked` says whether the question was written, `before` is what
-- other tasks do until the password is there, and `during` what they do until the wait ends.
pub record Attempt (F X : Type 0) : Type 0 where
  pub asked : Bool
  pub frames : List (Bool × Frame)
  pub now : ℕ
  pub wait : Wait
  pub before : Server F X → Server F X
  pub during : Server F X → Server F X

-- `none` is the timeout.
abbrev pub Verdict : Type 0 → Type 0 → Type 0
Verdict F X = Option (Result (Unit {0}) OutgoingMessage) × Server F X

abbrev pub refusal : AdmissionError → OutgoingMessage
refusal (limited retry_after_secs) = auth_rate_limited retry_after_secs
refusal unavailable_error = auth_unavailable

module _ {F X : Type 0} where
  abbrev pub count_failed : Server F X → Server F X
  count_failed s = record s {
    admission = record (s.admission) {
      verification_failed = add_one s.admission.verification_failed;
    };
  }

  unfoldable pub judge : Result Bool PasswordError → Server F X → Verdict F X
  judge (ok true) s = (some (ok tt), s)
  judge (ok false) s = (some (err auth_failed), count_failed s)
  judge (err invalid) s = (some (err auth_failed), count_failed s)
  judge (err _) s = (some (err auth_unavailable), count_unavailable s)

  -- The `select!` over the verification and the next frame.
  unfoldable pub await_verification : Crypto → Wait → String → String → Server F X → Verdict F X
  await_verification c (answered permits panicked) password stored s =
      judge (verify c permits panicked password stored) s
  await_verification c interrupted password stored s = (some (err auth_failed), s)
  await_verification c timed_out password stored s = (none, s)

  -- What follows the timeout: the failure that is written, if there is one.
  unfoldable pub conclude : Verdict F X → Bool × Option OutgoingMessage × Server F X
  conclude (some (ok _), s) = (true, none, s)
  conclude (some (err failure), s) = (false, some failure, count_rejected s)
  conclude (none, s) = (false, some auth_failed, count_rejected s)

-- `parse` is what `serde_json` makes of a text as an `Authentication`: its password.
module _ {X : Type 0} (fl : Float) (c : Crypto) (parse : String → Option String) where
  open fl use {F}

  -- The budget is spent before the password is verified.
  unfoldable pub attempt : Attempt F X → String → String → String → Server F X → Verdict F X
  attempt m room_id stored password s =
      let (r, a) = check_at fl (room room_id) m.now s.admission in
      let s' = record s { admission = a } in
      elim r [
        | err e ↦ (some (err (refusal e)), s')
        | ok _ ↦ await_verification c m.wait password stored (m.during s')
      ]

  unfoldable pub read_password : Attempt F X → String → String → String → Server F X → Verdict F X
  read_password m room_id stored s s' = elim (parse s) [
    | none ↦ (some (err auth_failed), s')
    | some password ↦ attempt m room_id stored password s'
  ]

  unfoldable pub ask : Attempt F X → String → String → Server F X → Verdict F X
  ask m room_id stored s =
      if m.asked
      then elim (read_text m.frames) [
        | none ↦ (none, m.before s)
        | some (err failure) ↦ (some (err failure), m.before s)
        | some (ok message) ↦ read_password m room_id stored message (m.before s)
      ]
      else (some (err auth_failed), m.before s)

  -- Whether the client is in, the failure that it is told, and the state.
  unfoldable pub authenticate :
      Attempt F X → String → String → Server F X → Bool × Option OutgoingMessage × Server F X
  authenticate m room_id stored s = conclude (ask m room_id stored s)
