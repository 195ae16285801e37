-- ===== src/Ws/Keys.antt =====
-- The checks on announced keys in src/routes/ws.rs. `decode` is the length of what the base64
-- engine makes of a text, if it accepts the text.
use parrhesia_backend.Common.{ℕ, Bool, false, Option, none, some, String, nat_eq, ◌==◌}

unfoldable pub is_valid_mldsa65_public_key : (String → Option ℕ) → String → Bool
is_valid_mldsa65_public_key decode key = elim (decode key) [ none ↦ false | some n ↦ n == 1952 ]

unfoldable pub is_valid_mlkem768_public_key : (String → Option ℕ) → String → Bool
is_valid_mlkem768_public_key decode key = elim (decode key) [ none ↦ false | some n ↦ n == 1184 ]
