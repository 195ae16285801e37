-- ===== src/Admission/Examples.antt =====
-- The theorems about src/admission.rs at concrete states, and runs of its methods.
use parrhesia_backend.Common.{
  ℕ, ◌+◌, ◌*◌, ◌≤◌, ◌<◌, ◌≡◌, refl, none, some, List, [], ◌∷◌, arith, ok, err,
}
use parrhesia_backend.Common.Dict.{get, IsMap}
use parrhesia_backend.Net.{IpAddr, v4, ip_same}
use parrhesia_backend.Float.{fixed, fixed_laws, unit}
use parrhesia_backend.Admission.{
  Admission, creation, room, limited, check_at, spend, budget_same, budget_eq,
}
use parrhesia_backend.Admission.Pending.{Accounts}
use parrhesia_backend.Admission.Guards.{
  Call, checks, acquires, releases, maintains, run, start, run-start-Accounts,
}
use parrhesia_backend.Admission.Bounds.{IsSound, run-start-IsSound}
use parrhesia_backend.Admission.Level.{level}
use parrhesia_backend.Admission.Metering.{IsPast}
use parrhesia_backend.Admission.Rate.{Visit, admitted, admitted-le}
use parrhesia_backend.Admission.Retry.{second, limited-exact}

abbrev client : IpAddr
client = v4 3221225985

-- A client that has just spent its budget of new rooms.
abbrev drained : Admission ℕ
drained = record {
  limits = record {
    buckets = (creation client, record { tokens = 0; updated = 0 }) ∷ [];
    pending = [];
    pending_total = 0;
  };
  rejected = 0;
  throttled = 0;
  verification_failed = 0;
  unavailable = 0;
}

drained-IsMap : IsMap drained.limits.buckets
unfolding get
drained-IsMap = (refl, tt)

drained-IsPast : IsPast 0 drained.limits.buckets
unfolding get
drained-IsPast key b g = ground arith

drained_limited : (check_at fixed (creation client) 0 drained).0 ≡ err (limited 12)
unfolding check_at spend get budget_same ip_same
drained_limited = refl

abbrev history : List Call
history =
    acquires client ∷ checks (room "r") 5 ∷ releases client ∷ releases client ∷ maintains 9 ∷ []

abbrev visits : List Visit
visits =
    (1, some (creation client)) ∷ (12 * second, some (creation client)) ∷ (13 * second, none) ∷ []

admitted-le_example :
    admitted (creation client) drained visits * unit
    ≤ level (creation client) 0 drained.limits.buckets + 13 * second * 5
admitted-le_example =
    admitted-le (creation client) 0 drained visits drained-IsMap drained-IsPast (omega arith)

limited-exact_example :
    (0 < 12)
    × (12 * 5 ≤ 60)
    × ((check_at fixed
          (creation client)
          (0 + 12 * second)
          (check_at fixed (creation client) 0 drained).1).0
        ≡ ok tt)
limited-exact_example =
    limited-exact (creation client) 0 12 12 drained drained-IsMap drained-IsPast drained_limited

run-start-Accounts_example :
    (s : _) × (run fixed (start fixed) history ≡ some s) × Accounts s.guards s.admission
run-start-Accounts_example = run-start-Accounts fixed history

run-start-IsSound_example :
    (s : _) × (run fixed (start fixed) history ≡ some s) × IsSound fixed s.admission.limits.buckets
run-start-IsSound_example = run-start-IsSound fixed fixed_laws history
