-- ===== src/RoomRoutes/Payment.antt =====
-- What the budget of an address pays for in src/routes/rooms.rs.
use parrhesia_backend.Common.{ℕ, ◌+◌, ◌-◌, ◌*◌, ◌≤◌, some, arith, string_eq}
use parrhesia_backend.Common.Dict.{Dict, IsMap}
use parrhesia_backend.Net.{ip_eq, IpAddr}
use parrhesia_backend.Float.{fixed, unit}
use parrhesia_backend.Server.{Server}
use parrhesia_backend.Admission.{budget_eq, Admission, Bucket, Budget, creation, check_at}
use parrhesia_backend.Admission.Level.{level}
use parrhesia_backend.Admission.Metering.{IsPast, level-aged}
use parrhesia_backend.Admission.Rate.{admits, visit-IsMap, visit-IsPast, visit_pays}

abbrev pub Buckets : Type 0
Buckets = Dict Budget (Bucket ℕ)

abbrev pub buckets : {X : Type 0} → Server ℕ X → Buckets
buckets s = s.admission.limits.buckets

-- Each budget once, and no bucket updated after a time.
abbrev pub IsSteady : ℕ → Buckets → Type 0
IsSteady t bs = IsMap bs × IsPast t bs

-- From one time to a later one, the budget of the address pays for `n` rooms, out of its level and
-- of what is refilled.
pub record Paid (ip : IpAddr) (t t' n : ℕ) (bs bs' : Buckets) : Type 0 where
  pub steady : IsSteady t' bs'
  pub later : t ≤ t'
  pub paid : n * unit + level (creation ip) t' bs' ≤ level (creation ip) t bs + (t' - t) * 5

pub Paid-trans :
    (ip : IpAddr) (t u v n k : ℕ) (a b c : Buckets)
    → Paid ip t u n a b
    → Paid ip u v k b c
    → Paid ip t v (n + k) a c
Paid-trans ip t u v n k a b c p q = record {
  steady = q.steady;
  later = omega (arith, p.later, q.later);
  paid = omega (arith, p.paid, q.paid, p.later, q.later);
}

pub Paid-le :
    (ip : IpAddr) (t u n k : ℕ) (a b : Buckets) → n ≤ k → Paid ip t u k a b → Paid ip t u n a b
Paid-le ip t u n k a b h p = record {
  steady = p.steady;
  later = p.later;
  paid = omega (arith, p.paid, h);
}

-- Nothing is done.
pub Paid-aged : (ip : IpAddr) (t u : ℕ) (bs : Buckets) → t ≤ u → IsSteady t bs → Paid ip t u 0 bs bs
Paid-aged ip t u bs h (m, p) = record {
  steady = (m, λ k b g. omega (arith, p k b g, h));
  later = h;
  paid = omega (arith, level-aged (creation ip) t u bs p h);
}

-- A check of a budget.
pub Paid-check :
    (ip : IpAddr) (key : Budget) (now : ℕ) (a : Admission ℕ)
    → IsSteady now a.limits.buckets
    → Paid ip now now
        (admits (creation ip) (now, some key) a)
        a.limits.buckets
        (check_at fixed key now a).1.limits.buckets
Paid-check ip key now a (m, p) = record {
  steady = (visit-IsMap (now, some key) a m, visit-IsPast (now, some key) a m p);
  later = omega arith;
  paid = omega (arith, visit_pays (creation ip) (now, some key) a m p);
}

-- What other tasks do from one time to another: none of it gives the address tokens.
abbrev pub IsThrifty : {X : Type 0} → IpAddr → ℕ → ℕ → (Server ℕ X → Server ℕ X) → Type 0
IsThrifty {X} ip t t' g =
    (s : Server ℕ X) → IsSteady t (buckets s) → Paid ip t t' 0 (buckets s) (buckets (g s))
