-- ===== src/Passwords/Examples.antt =====
-- The theorems about src/passwords.rs with a stand-in for the crates.
use parrhesia_backend.Common.{
  ℕ, ap, Option, none, ◌&&◌, nat_eq, ◌≡◌, refl, ◌↔◌, ◌≤◌, ◌<◌, Bool, true, false, some, [], ◌∷◌,
  arith, String, string_eq, ◌==◌, if◌then◌else◌, ok, err,
}
use parrhesia_backend.Passwords.{
  Algorithm, argon2d, argon2i, argon2id, Version, v0x10, v0x13, Params, Crypto, common, busy,
  matches, password_invalid, is_listed, normalize, compute, hash, verify,
}
use parrhesia_backend.Passwords.Laws.{
  IsAllowed, Decides, verify_lem, output_size, HashLaws, verify-hash,
}
use parrhesia_backend.Passwords.Slots.{
  requested, cancelled, two_slots, slot_step, slot_run, slot_run_lem,
}

abbrev standard_params : Params
standard_params = record { m_cost = 65536; t_cost = 3; p_cost = 1 }

abbrev is_standard : Algorithm → Version → Params → Option ℕ → Bool
is_standard argon2id v0x13 p o =
    p.m_cost == 65536 && p.t_cost == 3 && p.p_cost == 1 && output_size o == 32
is_standard _ _ _ _ = false

-- Passwords are hashed with the standard parameters only, and the hash of one is the password: what matters here is the shape.
abbrev plain : Crypto
plain = record {
  nfc = λ s. s;
  Phc = String;
  parse = λ s. some s;
  params = λ h. some standard_params;
  algorithm = λ h. "argon2id";
  version = λ h. some 19;
  salt_len = λ h. some 16;
  hash_len = λ h. some 32;
  hash_password =
      λ a salt s. if is_standard a.algorithm a.version a.params a.output_len then some s else none;
  verify_password = λ a s h. if s == h then matches else password_invalid;
}

plain_made :
    (g : Algorithm) (v : Version) (p : Params) (o : Option ℕ) (salt : ℕ) (password stored : String)
    → (if is_standard g v p o then some password else none) ≡ some stored
    → (g ≡ argon2id)
      × (v ≡ v0x13)
      × (some standard_params ≡ some p)
      × (32 ≡ output_size o)
      × (password ≡ stored)
plain_made argon2id v0x13 p o salt password stored h =
    (refl, refl, ground (arith, h), ground (arith, h), ground (arith, h))
plain_made argon2id v0x10 p o salt password stored h = cc
plain_made argon2i v p o salt password stored h = cc
plain_made argon2d v p o salt password stored h = cc

plain_laws : HashLaws plain
plain_laws = record {
  hashed = λ a salt password stored made.
      let (by, at, with, long, same) =
        plain_made a.algorithm a.version a.params a.output_len salt password stored made in
      (
        stored,
        refl,
        record {
          by = rw by refl;
          at = rw at refl;
          with = with;
          salted = refl;
          long = ap some long;
          fits = ground (arith, string_eq.same_iff password stored, same);
        },
      );
}

abbrev phrase : String
phrase = "telescopes drift slowly"

phrase_hashed : hash plain ("passwordpassword" ∷ []) 1 false 7 phrase ≡ ok phrase
unfolding hash normalize compute is_listed
phrase_hashed = refl

listed_refused : hash plain ("passwordpassword" ∷ []) 1 false 7 "passwordpassword" ≡ err common
unfolding hash normalize compute is_listed
listed_refused = refl

verify_lem_example : (verify plain 1 false phrase phrase ≡ ok true) ↔ (
    IsAllowed plain phrase
    × (0 < 1)
    × (◌≡◌ {A = Bool} false false)
    × Decides plain phrase phrase true)
verify_lem_example = verify_lem plain 1 false phrase phrase true

verify-hash_example :
    (verify plain 2 false phrase phrase ≡ ok true)
    × (is_listed phrase ("passwordpassword" ∷ []) ≡ false)
verify-hash_example =
    verify-hash plain plain_laws ("passwordpassword" ∷ []) 1 2 false 7 phrase phrase phrase
      phrase_hashed refl (omega arith) (omega arith)

slot_run_lem_example :
    let s = slot_run two_slots (requested ∷ cancelled ∷ requested ∷ []) in
    (s.running ≤ 2)
    × ((compute plain s.available false (ok true) ≡ err busy) ↔ (s.running ≡ 2))
    × ((compute plain s.available false (ok true) ≡ ok true) ↔ (s.running ≤ 1))
slot_run_lem_example =
    slot_run_lem plain (requested ∷ cancelled ∷ requested ∷ []) (ok true) true refl

cancelled_keeps :
    slot_run two_slots (requested ∷ cancelled ∷ requested ∷ [])
    ≡ record { available = 0; running = 2 }
unfolding slot_run slot_step two_slots
cancelled_keeps = refl
