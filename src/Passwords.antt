-- ===== src/Passwords.antt =====
-- src/passwords.rs: the checks on a room's password, its hash, and the two slots for the costly
-- computation. Unicode normalisation, the block list of the data file and Argon2 are parameters.
pub mod Laws
pub mod Slots
mod Examples
use Prim.Native.String.{len, count}
use parrhesia_backend.Common.{
  ℕ, suc, ◌≡◌, Bool, true, false, ◌||◌, ◌&&◌, not, Option, none, some, List, [], ◌∷◌, String,
  string_eq, nat_eq, ◌==◌, ltb, leb, if◌then◌else◌, Result, ok, err, add_one, sub_one,
}

abbrev pub memory_kib : ℕ
memory_kib = 65536

abbrev pub iterations : ℕ
iterations = 3

abbrev pub lanes : ℕ
lanes = 1

abbrev pub output_bytes : ℕ
output_bytes = 32

pub data PasswordError : Type 0 where
  invalid common busy internal : PasswordError

pub record Params : Type 0 where
  pub m_cost : ℕ
  pub t_cost : ℕ
  pub p_cost : ℕ

pub data Verification : Type 0 where
  matches password_invalid failed : Verification

-- What `Argon2::new` and `Params::new` of the crate are given.
pub data Algorithm : Type 0 where
  argon2d argon2i argon2id : Algorithm

pub data Version : Type 0 where
  v0x10 v0x13 : Version

pub record Argon2 : Type 0 where
  pub algorithm : Algorithm
  pub version : Version
  pub params : Params
  pub output_len : Option ℕ

-- The crates that the service computes with. Both functions take the context that they are called
-- on, and `hash_password` the random salt. A `Phc` is a parsed hash string.
pub record Crypto : Type 1 where
  pub nfc : String → String
  pub Phc : Type 0
  pub parse : String → Option Phc
  pub params : Phc → Option Params
  pub algorithm : Phc → String
  pub version : Phc → Option ℕ
  pub salt_len : Phc → Option ℕ
  pub hash_len : Phc → Option ℕ
  pub hash_password : Argon2 → ℕ → String → Option String
  pub verify_password : Argon2 → String → Phc → Verification

abbrev pub argon2 : Argon2
argon2 = record {
  algorithm = argon2id;
  version = v0x13;
  params = record { m_cost = memory_kib; t_cost = iterations; p_cost = lanes };
  output_len = some output_bytes;
}

infixl 5 ◌>>=◌
abbrev pub ◌>>=◌ {ℓ κ} :
    {A : Type ℓ} {B : Type κ}
    → Result A PasswordError
    → (A → Result B PasswordError)
    → Result B PasswordError
ok a >>= f = f a
err e >>= f = err e

abbrev pub or_internal {ℓ} : {A : Type ℓ} → Option A → Result A PasswordError
or_internal none = err internal
or_internal (some a) = ok a

unfoldable pub is_listed : String → List String → Bool
is_listed s [] = false
is_listed s (x ∷ xs) = x == s || is_listed s xs

abbrev pub is_length : ℕ → Option ℕ → Bool
is_length n none = false
is_length n (some m) = m == n

module _ (c : Crypto) where
  open c use {
    nfc, Phc, parse, params, algorithm, version, salt_len, hash_len, hash_password, verify_password,
  }

  unfoldable pub normalize : String → Result String PasswordError
  normalize password =
      if ltb 1024 (len password)
      then err invalid
      else (let normalized = nfc password in
          if ltb 1024 (len normalized)
            || not (leb 15 (count normalized) && leb (count normalized) 256)
          then err invalid
          else ok normalized)

  -- `available` is the number of permits at the call; `panicked` says whether the job died, which
  -- the join reports.
  unfoldable pub compute {ℓ} :
      {A : Type ℓ} → ℕ → Bool → Result A PasswordError → Result A PasswordError
  compute available panicked job =
      if available == 0 then err busy else if panicked then err internal else job

  unfoldable pub hash : List String → ℕ → Bool → ℕ → String → Result String PasswordError
  hash blocklist available panicked salt password = normalize password >>= λ p.
      if is_listed p blocklist
      then err common
      else compute available panicked (or_internal (hash_password argon2 salt p))

  -- Stored parameters that are corrupt, downgraded or unbounded are never accepted.
  unfoldable pub is_accepted : Phc → Params → Bool
  is_accepted h p =
      algorithm h == "argon2id"
      && is_length 19 (version h)
      && p.m_cost == memory_kib
      && p.t_cost == iterations
      && p.p_cost == lanes
      && is_length 16 (salt_len h)
      && is_length output_bytes (hash_len h)

  abbrev pub outcome : Verification → Result Bool PasswordError
  outcome matches = ok true
  outcome password_invalid = ok false
  outcome failed = err internal

  unfoldable pub verify_job : String → String → Result Bool PasswordError
  verify_job password stored = do
    h ← or_internal (parse stored)
    p ← or_internal (params h)
    if is_accepted h p then outcome (verify_password argon2 password h) else err internal

  unfoldable pub verify : ℕ → Bool → String → String → Result Bool PasswordError
  verify available panicked password stored = do
    p ← normalize password
    compute available panicked (verify_job p stored)
