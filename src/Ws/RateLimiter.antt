-- ===== src/Ws/RateLimiter.antt =====
-- The token bucket of one connection in src/routes/ws.rs.
use parrhesia_backend.Common.{
  ℕ, ◌+◌, ◌-◌, ◌*◌, ◌≡◌, Bool, true, false, arith, if◌then◌else◌, ltb, min, not,
}
use parrhesia_backend.Float.{Float, fixed, unit}

pub record RateLimiter (F : Type 0) : Type 0 where
  pub tokens : F
  pub capacity : F
  pub refill_per_sec : F
  pub last_refill : ℕ

module _ (fl : Float) where
  open fl use {F, of_nat, add, sub, mul, least, lt, secs}

  abbrev pub msg_rate_capacity : F
  msg_rate_capacity = of_nat 60

  abbrev pub msg_rate_refill_per_sec : F
  msg_rate_refill_per_sec = of_nat 30

  unfoldable pub new_limiter : F → F → ℕ → RateLimiter F
  new_limiter capacity refill_per_sec now = record {
    tokens = capacity;
    capacity = capacity;
    refill_per_sec = refill_per_sec;
    last_refill = now;
  }

  -- `tokens >= 1.0` is the negation of `tokens < 1.0`: no token count is a NaN.
  unfoldable pub check : ℕ → RateLimiter F → Bool × RateLimiter F
  check now r =
      let elapsed = secs (now - r.last_refill) in
      let tokens = least (add r.tokens (mul elapsed r.refill_per_sec)) r.capacity in
      if lt tokens (of_nat 1)
      then (false, record r { tokens = tokens; last_refill = now })
      else (true, record r { tokens = sub tokens (of_nat 1); last_refill = now })

-- A limiter with the constants of the connections.
pub record IsStandard (r : RateLimiter ℕ) : Type 0 where
  pub holds : r.capacity ≡ 60 * unit
  pub refills : r.refill_per_sec ≡ 30 * unit

-- The tokens at `now`, in units; a nanosecond refills 1800 of them.
abbrev pub available : ℕ → RateLimiter ℕ → ℕ
available now r = min (r.tokens + (now - r.last_refill) * 1800) (60 * unit)

pub check_lem :
    (now : ℕ) (r : RateLimiter ℕ)
    → IsStandard r
    → ((check fixed now r).0 ≡ not (ltb (available now r) unit))
      × IsStandard (check fixed now r).1
      × ((check fixed now r).1.last_refill ≡ now)
      × ((check fixed now r).1.tokens
          ≡ (if ltb (available now r) unit then available now r else available now r - unit))
unfolding check
check_lem now r v = ground arith
