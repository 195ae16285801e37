-- ===== src/Net.antt =====
-- `std::net::IpAddr`: the source compares addresses and uses them as keys.
use parrhesia_backend.Common.{ℕ, ◌≡◌, ◌↔◌, Bool, true, false, arith, Eq, nat_same}

pub data IpAddr : Type 0 where
  v4 : ℕ → IpAddr
  v6 : ℕ → IpAddr

unfoldable pub ip_same : IpAddr → IpAddr → Bool
ip_same (v4 a) (v4 b) = nat_same a b
ip_same (v6 a) (v6 b) = nat_same a b
ip_same _ _ = false

pub ip_same_iff : (a b : IpAddr) → (ip_same a b ≡ true) ↔ (a ≡ b)
unfolding ip_same
ip_same_iff (v4 a) (v4 b) = ground arith
ip_same_iff (v6 a) (v6 b) = ground arith
ip_same_iff (v4 a) (v6 b) = ground arith
ip_same_iff (v6 a) (v4 b) = ground arith

instance abbrev pub ip_eq : Eq IpAddr
ip_eq = record { same = ip_same; same_iff = ip_same_iff }
