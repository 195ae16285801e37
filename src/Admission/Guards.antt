-- ===== src/Admission/Guards.antt =====
-- Histories of src/admission.rs: any sequence of its methods, with the guards that are alive. The
-- mutex makes each method one step, so a sequence is an interleaving of the server's tasks.
use parrhesia_backend.Common.{
  ℕ, zero, suc, ◌≡◌, refl, Option, none, some, List, [], ◌∷◌, arith, Result, ok, err, inl, inr, ap,
  ◌∙◌,
}
use parrhesia_backend.Net.{IpAddr}
use parrhesia_backend.Float.{Float}
use parrhesia_backend.Admission.{
  Admission, Budget, AdmissionError, default, check_at, pending_auth, drop_guard, maintain, spend,
}
use parrhesia_backend.Admission.Pending.{
  count, discard, Accounts, default-Accounts, pending_auth_granted, pending_auth_lem,
  drop_guard_held,
}

-- A method call; `releases` drops a guard of the address, if one is alive.
pub data Call : Type 0 where
  checks : Budget → ℕ → Call
  acquires : IpAddr → Call
  releases : IpAddr → Call
  maintains : ℕ → Call

pub record Server (F : Type 0) : Type 0 where
  pub admission : Admission F
  pub guards : List IpAddr

abbrev pub keep_guard :
    {F : Type 0} → List IpAddr → Result IpAddr AdmissionError × Admission F → Server F
keep_guard gs (ok ip, a) = record { admission = a; guards = ip ∷ gs }
keep_guard gs (err e, a) = record { admission = a; guards = gs }

unfoldable pub release : {F : Type 0} → ℕ → IpAddr → Server F → Option (Server F)
release zero ip s = some s
release (suc n) ip s = elim (drop_guard ip s.admission) [
  | none ↦ none
  | some a ↦ some (record { admission = a; guards = discard ip s.guards })
]

module _ (fl : Float) where
  open fl use {F}

  -- `none` is a panic.
  unfoldable pub step : Server F → Call → Option (Server F)
  unfolding release
  step s (checks key now) = some (record s { admission = (check_at fl key now s.admission).1 })
  step s (acquires ip) = some (keep_guard s.guards (pending_auth ip s.admission))
  step s (releases ip) = release (count ip s.guards) ip s
  step s (maintains now) = some (record s { admission = (maintain now s.admission).1 })

  unfoldable pub run : Server F → List Call → Option (Server F)
  run s [] = some s
  run s (c ∷ cs) = elim (step s c) [ none ↦ none | some t ↦ run t cs ]

  unfoldable pub start : Server F
  start = record { admission = default F; guards = [] }

  -- The methods that touch no slot.
  pub Accounts-same :
      (gs : List IpAddr) (a b : Admission F)
      → b.limits.pending ≡ a.limits.pending
      → b.limits.pending_total ≡ a.limits.pending_total
      → Accounts gs a
      → Accounts gs b
  Accounts-same gs a b p t v = record {
    held = λ ip. rw p (v.held ip);
    total = t ∙ v.total;
    per_ip = v.per_ip;
    at_most = v.at_most;
  }

  pub check_at_slots :
      (key : Budget) (now : ℕ) (a : Admission F)
      → ((check_at fl key now a).1.limits.pending ≡ a.limits.pending)
        × ((check_at fl key now a).1.limits.pending_total ≡ a.limits.pending_total)
  unfolding check_at spend
  check_at_slots key now a = ground arith

  pub maintain_slots :
      (now : ℕ) (a : Admission F)
      → ((maintain now a).1.limits.pending ≡ a.limits.pending)
        × ((maintain now a).1.limits.pending_total ≡ a.limits.pending_total)
  unfolding maintain
  maintain_slots now a = (refl, refl)

  pub acquire-Accounts :
      (ip : IpAddr) (gs : List IpAddr) (a : Admission F)
      → Accounts gs a
      → let s = keep_guard gs (pending_auth ip a) in Accounts s.guards s.admission
  acquire-Accounts ip gs a v = elim (pending_auth_lem ip gs a v) [
    | inl (_, _, e) ↦ rw e (pending_auth_granted ip gs a v e)
    | inr (_, e, l) ↦
        rw e (Accounts-same gs a _ (ap (λ x. x.pending) l) (ap (λ x. x.pending_total) l) v)
  ]

  release-Accounts :
      (n : ℕ) (ip : IpAddr) (s : Server F)
      → count ip s.guards ≡ n
      → Accounts s.guards s.admission
      → (t : Server F) × (release n ip s ≡ some t) × Accounts t.guards t.admission
  unfolding release
  release-Accounts zero ip s h v = (s, refl, v)
  release-Accounts (suc n) ip s h v =
      let (a, e, w) = drop_guard_held ip s.guards n s.admission v h in
      (record { admission = a; guards = discard ip s.guards }, rw (e, release), w)

  pub step-Accounts :
      (s : Server F) (c : Call)
      → Accounts s.guards s.admission
      → (t : Server F) × (step s c ≡ some t) × Accounts t.guards t.admission
  unfolding step
  step-Accounts s (checks key now) v =
      let (p, t) = check_at_slots key now s.admission in
      (
        record s { admission = (check_at fl key now s.admission).1 },
        refl,
        Accounts-same s.guards s.admission _ p t v,
      )
  step-Accounts s (acquires ip) v = (
    keep_guard s.guards (pending_auth ip s.admission),
    refl,
    acquire-Accounts ip s.guards s.admission v,
  )
  step-Accounts s (releases ip) v = release-Accounts (count ip s.guards) ip s refl v
  step-Accounts s (maintains now) v =
      let (p, t) = maintain_slots now s.admission in
      (
        record s { admission = (maintain now s.admission).1 },
        refl,
        Accounts-same s.guards s.admission _ p t v,
      )

  run-Accounts :
      (s : Server F) (cs : List Call)
      → Accounts s.guards s.admission
      → (t : Server F) × (run s cs ≡ some t) × Accounts t.guards t.admission
  unfolding run
  run-Accounts s [] v = (s, refl, v)
  run-Accounts s (c ∷ cs) v =
      let (t, e, w) = step-Accounts s c v in
      let (u, f, x) = run-Accounts t cs w in (u, rw (e, run) f, x)

  -- No history panics, and after each one the table holds exactly the guards that are alive.
  pub run-start-Accounts :
      (cs : List Call) → (s : Server F) × (run start cs ≡ some s) × Accounts s.guards s.admission
  unfolding start
  run-start-Accounts cs = run-Accounts _ cs default-Accounts
