-- ===== src/Admission/Pending.antt =====
-- The slots for pending authentications: src/admission.rs, `pending` and the `Drop` of
-- `PendingAuth`, under any interleaving with the other methods. The guards that are alive stand
-- beside the state; a guard is dropped once, as Rust's ownership has it.
use parrhesia_backend.Common.{
  ℕ, zero, suc, ◌≤◌, ◌<◌, ◌≡◌, refl, ◌⊎◌, Option, none, some, List, [], ◌∷◌, arith, ◌==◌,
  if◌then◌else◌, length, ok, err, add_one, sub_one, nat_same,
}
use parrhesia_backend.Common.Dict.{get, insert, remove, get-insert, get-remove}
use parrhesia_backend.Net.{IpAddr, ip_eq}
use parrhesia_backend.Admission.{
  Admission, unavailable_error, default, pending_auth, drop_guard, count_or_zero,
}

abbrev pub count : IpAddr → List IpAddr → ℕ
count ip [] = 0
count ip (g ∷ gs) = let rest = count ip gs in if g == ip then suc rest else rest

-- One guard of the address leaves the list.
abbrev pub discard : IpAddr → List IpAddr → List IpAddr
discard ip [] = []
discard ip (g ∷ gs) = if g == ip then gs else g ∷ discard ip gs

abbrev pub nonzero : ℕ → Option ℕ
nonzero zero = none
nonzero (suc n) = some (suc n)

count-discard :
    (ip j : IpAddr) (gs : List IpAddr) (n : ℕ)
    → count ip gs ≡ suc n
    → count j (discard ip gs) ≡ (if ip == j then n else count j gs)
count-discard ip j [] n h = ground arith
count-discard ip j (g ∷ gs) n h =
    ground
      (arith, ip_eq.same_iff g ip, ip_eq.same_iff g j, ip_eq.same_iff ip j, count-discard ip j gs n)

length-discard :
    (ip : IpAddr) (gs : List IpAddr) (n : ℕ)
    → count ip gs ≡ suc n
    → suc (length (discard ip gs)) ≡ length gs
length-discard ip [] n h = ground arith
length-discard ip (g ∷ gs) n h = ground (arith, length-discard ip gs n)

count-le-length : (ip : IpAddr) (gs : List IpAddr) → count ip gs ≤ length gs
count-le-length ip [] = omega arith
count-le-length ip (g ∷ gs) = ground (arith, count-le-length ip gs)

-- The table holds exactly the guards that are alive, at most ten of an address and a hundred.
pub record Accounts {F : Type 0} (guards : List IpAddr) (a : Admission F) : Type 0 where
  pub held : (ip : IpAddr) → get ip a.limits.pending ≡ nonzero (count ip guards)
  pub total : a.limits.pending_total ≡ length guards
  pub per_ip : (ip : IpAddr) → count ip guards ≤ 10
  pub at_most : length guards ≤ 100

module _ {F : Type 0} where
  pub default-Accounts : Accounts [] (default F)
  unfolding default get
  default-Accounts = record {
    held = λ ip. refl;
    total = refl;
    per_ip = λ ip. omega arith;
    at_most = omega arith;
  }

  -- The slots of the address, as the code reads them.
  held_slots :
      (ip : IpAddr) (gs : List IpAddr) (a : Admission F)
      → Accounts gs a
      → count_or_zero (get ip a.limits.pending) ≡ count ip gs
  held_slots ip gs a v = rw (v.held ip) (go (count ip gs))
    where
      go : (n : ℕ) → count_or_zero (nonzero n) ≡ n
      go zero = refl
      go (suc n) = refl

  -- A granted request adds its guard to those that are accounted for.
  pub pending_auth_granted :
      (ip : IpAddr) (gs : List IpAddr) (a : Admission F)
      → Accounts gs a
      → (pending_auth ip a).0 ≡ ok ip
      → Accounts (ip ∷ gs) (pending_auth ip a).1
  unfolding pending_auth
  pending_auth_granted ip gs a v h = record {
    held = λ j. ground (
      arith,
      held_slots ip gs a v,
      v.held j,
      ip_eq.same_iff ip j,
      get-insert ip j (add_one (count_or_zero (get ip a.limits.pending))) a.limits.pending,
    );
    total = ground (arith, held_slots ip gs a v);
    per_ip = λ j. ground (arith, held_slots ip gs a v, v.per_ip j, ip_eq.same_iff ip j);
    at_most = ground (arith, held_slots ip gs a v);
  }

  pub drop_guard_held :
      (ip : IpAddr) (gs : List IpAddr) (n : ℕ) (a : Admission F)
      → Accounts gs a
      → count ip gs ≡ suc n
      → (b : Admission F) × (drop_guard ip a ≡ some b) × Accounts (discard ip gs) b
  unfolding drop_guard
  drop_guard_held ip gs n a v h = (
    record a {
      limits = record (a.limits) {
        pending =
            if nat_same (sub_one (suc n)) 0
            then remove ip a.limits.pending
            else insert ip (sub_one (suc n)) a.limits.pending;
        pending_total = sub_one a.limits.pending_total;
      };
    },
    ground (arith, v.held ip),
    record {
      held = λ j. ground (
        arith,
        v.held j,
        v.per_ip ip,
        ip_eq.same_iff ip j,
        count-discard ip j gs n h,
        get-insert ip j (sub_one (suc n)) a.limits.pending,
        get-remove ip j a.limits.pending,
      );
      total = ground (arith, length-discard ip gs n h);
      per_ip = λ j. ground (arith, v.per_ip ip, v.per_ip j, count-discard ip j gs n h);
      at_most = ground (arith, length-discard ip gs n h);
    },
  )

  -- With exact accounts a request is granted exactly when fewer than a hundred guards are alive
  -- and fewer than ten of its address; a refusal leaves every table as it is.
  pub pending_auth_lem :
      (ip : IpAddr) (gs : List IpAddr) (a : Admission F)
      → Accounts gs a
      → ((length gs < 100) × (count ip gs < 10) × ((pending_auth ip a).0 ≡ ok ip))
        ⊎ (((100 ≤ length gs) ⊎ (10 ≤ count ip gs))
            × ((pending_auth ip a).0 ≡ err unavailable_error)
            × ((pending_auth ip a).1.limits ≡ a.limits))
  unfolding pending_auth
  pending_auth_lem ip gs a v = ground (arith, held_slots ip gs a v)
