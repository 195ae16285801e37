-- ===== src/Passwords/Laws.antt =====
-- What src/passwords.rs guarantees about hashes.
use Prim.Native.String.{len, count}
use parrhesia_backend.Common.{
  ℕ, Option, none, ◌≤◌, ◌<◌, ◌≡◌, refl, ◌↔◌, ◌⊎◌, inl, inr, Bool, true, false, some, List, arith,
  String, string_eq, Result, ok, err, Bool-cases, Option-cases,
}
use parrhesia_backend.Passwords.{
  Algorithm, argon2d, argon2i, argon2id, Version, v0x10, v0x13, Argon2, matches, Crypto,
  PasswordError, invalid, Params, argon2, is_listed, normalize, compute, hash, is_accepted,
  verify_job, verify, outcome,
}

-- How a hash string names an algorithm and a version, and the output length by default.
abbrev pub identifier : Algorithm → String
identifier argon2d = "argon2d"
identifier argon2i = "argon2i"
identifier argon2id = "argon2id"

abbrev pub number : Version → ℕ
number v0x10 = 16
number v0x13 = 19

abbrev pub output_size : Option ℕ → ℕ
output_size none = 32
output_size (some n) = n

module _ (c : Crypto) where
  open c use {
    nfc, Phc, parse, params, algorithm, version, salt_len, hash_len, hash_password, verify_password,
  }

  -- The lengths that a password must have, before and after normalisation.
  pub record IsAllowed (password : String) : Type 0 where
    pub raw : len password ≤ 1024
    pub bytes : len (nfc password) ≤ 1024
    pub least : 15 ≤ count (nfc password)
    pub most : count (nfc password) ≤ 256

  -- A password is normalised exactly if its lengths are allowed, and refused as invalid otherwise.
  pub normalize_lem :
      (password : String)
      → (IsAllowed password × (normalize c password ≡ ok (nfc password)))
        ⊎ ((¬ IsAllowed password) × (normalize c password ≡ err invalid))
  unfolding normalize
  normalize_lem password = ground arith

  -- What a parsed hash must be for its verdict to count.
  pub record IsOurs (h : Phc) : Type 0 where
    pub is_argon2id : algorithm h ≡ "argon2id"
    pub is_current : version h ≡ some 19
    pub has_params : params h ≡ some argon2.params
    pub has_salt : salt_len h ≡ some 16
    pub has_output : hash_len h ≡ some 32

  IsOurs-accepted : (h : Phc) (p : Params) → params h ≡ some p → is_accepted c h p ≡ true → IsOurs h
  unfolding is_accepted
  IsOurs-accepted h p e t = record {
    is_argon2id = ground (arith, string_eq.same_iff (algorithm h) "argon2id");
    is_current = ground arith;
    has_params = ground arith;
    has_salt = ground arith;
    has_output = ground arith;
  }

  accepted_ours : (h : Phc) → IsOurs h → is_accepted c h argon2.params ≡ true
  unfolding is_accepted
  accepted_ours h o = rw (o.is_argon2id, o.is_current, o.has_salt, o.has_output)

  compute_ok :
      (available : ℕ) (panicked : Bool) (job : Result Bool PasswordError) (b : Bool)
      → (compute c available panicked job ≡ ok b)
        ↔ ((0 < available) × (panicked ≡ false) × (job ≡ ok b))
  unfolding compute
  compute_ok available panicked job b = ground arith

  -- The verdict of the stored hash on a normalised password, if the hash is one of ours.
  pub record Decides (password stored : String) (b : Bool) : Type 0 where
    pub phc : Phc
    pub parsed : parse stored ≡ some phc
    pub ours : IsOurs phc
    pub verdict : outcome c (verify_password argon2 password phc) ≡ ok b

  verify_job-Decides :
      (password stored : String) (b : Bool)
      → verify_job c password stored ≡ ok b
      → Decides password stored b
  unfolding verify_job
  verify_job-Decides password stored b e = elim (Option-cases (parse stored)) [
    | inl f ↦ absurd (ground (arith, f))
    | inr (h, f) ↦ elim (Option-cases (params h)) [
      | inl g ↦ absurd (ground (arith, f, g))
      | inr (p, g) ↦ elim (Bool-cases (is_accepted c h p)) [
        | inl k ↦ record {
          phc = h;
          parsed = f;
          ours = IsOurs-accepted h p g k;
          verdict = ground (arith, f, g, k);
        }
        | inr k ↦ absurd (ground (arith, f, g, k))
      ]
    ]
  ]

  Decides-verify_job :
      (password stored : String) (b : Bool)
      → Decides password stored b
      → verify_job c password stored ≡ ok b
  unfolding verify_job
  Decides-verify_job password stored b d =
      rw (d.parsed, d.ours.has_params, accepted_ours d.phc d.ours) d.verdict

  -- A verification gives a verdict exactly if the password is allowed, a slot is free, the job does
  -- not die, and the stored text parses to an Argon2id hash of version 19 with the fixed
  -- parameters, salt and output lengths, which then decides; in every other case it is an error.
  pub verify_lem :
      (available : ℕ) (panicked : Bool) (password stored : String) (b : Bool)
      → (verify c available panicked password stored ≡ ok b) ↔ (
          IsAllowed password
          × (0 < available)
          × (panicked ≡ false)
          × Decides (nfc password) stored b)
  unfolding verify
  verify_lem available panicked password stored b = elim (normalize_lem password) [
    | inl (a, e) ↦
        let job = compute_ok available panicked (verify_job c (nfc password) stored) b in
        rw e (
          λ h.
              let (free, alive, j) = job.0 h in
              (a, free, alive, verify_job-Decides (nfc password) stored b j),
          λ (_, free, alive, d). job.1 (free, alive, Decides-verify_job (nfc password) stored b d),
        )
    | inr (n, e) ↦ rw e (λ h. cc, λ (a, _, _, _). absurd (n a))
  ]

  -- A parsed hash that says what it was made with, and matches its password under the same context.
  pub record IsMade (a : Argon2) (password : String) (h : Phc) : Type 0 where
    pub by : algorithm h ≡ identifier a.algorithm
    pub at : version h ≡ some (number a.version)
    pub with : params h ≡ some a.params
    pub salted : salt_len h ≡ some 16
    pub long : hash_len h ≡ some (output_size a.output_len)
    pub fits : verify_password a password h ≡ matches

  -- Documented of the crates: what a context hashes parses back, says the algorithm, the version and
  -- the parameters of that context, has the recommended salt and the output asked for, and matches
  -- the password that it was made from.
  pub record HashLaws : Type 0 where
    pub hashed :
        (a : Argon2) (salt : ℕ) (password stored : String)
        → hash_password a salt password ≡ some stored
        → (h : Phc) × (parse stored ≡ some h) × IsMade a password h

  made_ours :
      (password stored : String) (h : Phc)
      → parse stored ≡ some h
      → IsMade argon2 password h
      → Decides password stored true
  made_ours password stored h e m = record {
    phc = h;
    parsed = e;
    ours = record {
      is_argon2id = m.by;
      is_current = m.at;
      has_params = m.with;
      has_salt = m.salted;
      has_output = m.long;
    };
    verdict = rw m.fits refl;
  }

  hash_made :
      (blocklist : List String) (available : ℕ) (panicked : Bool) (salt : ℕ)
      (password stored : String)
      → hash c blocklist available panicked salt password ≡ ok stored
      → IsAllowed password
        × (is_listed (nfc password) blocklist ≡ false)
        × (hash_password argon2 salt (nfc password) ≡ some stored)
  unfolding hash compute
  hash_made blocklist available panicked salt password stored h = elim (normalize_lem password) [
    | inl (a, e) ↦ (a, ground (arith, e), ground (arith, e))
    | inr (n, e) ↦ absurd (ground (arith, e))
  ]

  -- A password that was hashed is accepted later, by any spelling of it with the same
  -- normalisation and at most 1024 bytes, while a slot is free and the job does not die; it was not
  -- a listed one.
  pub verify-hash :
      (laws : HashLaws) (blocklist : List String) (available free : ℕ) (panicked : Bool) (salt : ℕ)
      (password again stored : String)
      → hash c blocklist available panicked salt password ≡ ok stored
      → nfc again ≡ nfc password
      → len again ≤ 1024
      → 0 < free
      → (verify c free false again stored ≡ ok true) × (is_listed (nfc password) blocklist ≡ false)
  verify-hash laws blocklist available free panicked salt password again stored h e l f =
      let (a, listed, made) = hash_made blocklist available panicked salt password stored h in
      let (phc, parsed, m) = laws.hashed argon2 salt (nfc password) stored made in
      (
        (verify_lem free false again stored true).1 (
          record { raw = l; bytes = rw e a.bytes; least = rw e a.least; most = rw e a.most },
          f,
          refl,
          rw e (made_ours (nfc password) stored phc parsed m),
        ),
        listed,
      )
