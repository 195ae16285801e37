-- ===== src/Admission/Bounds.antt =====
-- The bucket table of src/admission.rs stays small, and its tokens stay within the budgets.
use parrhesia_backend.Common.{
  ℕ, zero, suc, ◌≤◌, ◌<◌, ◌≡◌, ◌⊎◌, inl, inr, Bool, true, false, some, List, [], ◌∷◌, arith, ◌==◌,
  length, Bool-cases, Option-cases, some_inj, subst,
}
use parrhesia_backend.Common.Dict.{
  Dict, get, insert, retain, is_some, IsMap, get-insert, length-insert, length-retain-le,
  insert-IsMap, retain-IsMap, get-retain-some,
}
use parrhesia_backend.Float.{Float, FloatLaws}
use parrhesia_backend.Admission.{
  Admission, Bucket, Budget, connection, creation, room, budget_eq, max_buckets, is_active, default,
  capacity, refill_bucket, spend, expire_idle, check_at, maintain, bucket_or, pending_auth,
  drop_guard,
}
use parrhesia_backend.Net.{IpAddr}
use parrhesia_backend.Admission.Pending.{count}
use parrhesia_backend.Admission.Guards.{
  Call, checks, acquires, releases, maintains, Server, keep_guard, release, step, run, start,
  run-start-Accounts,
}
use parrhesia_backend.Admission.Cases.{check_at_cases}

module _ (fl : Float) where
  open fl use {F, of_nat, lt}

  -- Between nothing and a full budget.
  abbrev pub InRange : F → Bucket F → Type 0
  InRange cap b = (lt cap b.tokens ≡ false) × (lt b.tokens (of_nat 0) ≡ false)

  -- The table holds a bucket of a key once, at most ten thousand, each with no more tokens than
  -- the key's budget and no debt.
  pub record IsSound (bs : Dict Budget (Bucket F)) : Type 0 where
    pub unique : IsMap bs
    pub fits : length bs ≤ max_buckets
    pub in_range : (key : Budget) (b : Bucket F) → get key bs ≡ some b → InRange (capacity fl key) b

  module _ (laws : FloatLaws fl) where
    capacity_pos :
        (key : Budget)
        → (lt (capacity fl key) (of_nat 0) ≡ false)
          × (lt (capacity fl key) (capacity fl key) ≡ false)
          × (lt (capacity fl key) (of_nat 1) ≡ false)
    unfolding capacity
    capacity_pos (connection _) =
        (laws.nat_nonneg 30, laws.nat_irrefl 30, laws.nat_one_le 30 (omega arith))
    capacity_pos (creation _) =
        (laws.nat_nonneg 5, laws.nat_irrefl 5, laws.nat_one_le 5 (omega arith))
    capacity_pos (room _) =
        (laws.nat_nonneg 20, laws.nat_irrefl 20, laws.nat_one_le 20 (omega arith))

    refill_bucket-InRange :
        (cap : F) (now : ℕ) (b : Bucket F)
        → lt cap (of_nat 0) ≡ false
        → InRange cap b
        → InRange cap (refill_bucket fl cap now b)
    unfolding refill_bucket
    refill_bucket-InRange cap now b pos r = (
      laws.least_le _ cap,
      laws.least_nonneg _ cap
          (laws.add_nonneg _ _ r.1 (
            laws.mul_nonneg _ _ (laws.secs_nonneg _)
              (laws.div_nonneg _ _ pos (laws.nat_pos 60 (omega arith)))))
          pos,
    )

    retain-IsSound :
        (p : Bucket F → Bool) (bs : Dict Budget (Bucket F)) → IsSound bs → IsSound (retain p bs)
    retain-IsSound p bs v = record {
      unique = retain-IsMap p bs v.unique;
      fits = omega (arith, length-retain-le p bs, v.fits);
      in_range = λ key b g. v.in_range key b (get-retain-some p key bs b v.unique g).0;
    }

    insert-IsSound :
        (key : Budget) (b : Bucket F) (bs : Dict Budget (Bucket F))
        → InRange (capacity fl key) b
        → (is_some (get key bs) ≡ true) ⊎ (length bs < max_buckets)
        → IsSound bs
        → IsSound (insert key b bs)
    insert-IsSound key b bs r space v = record {
      unique = insert-IsMap key b bs v.unique;
      fits = ground (arith, length-insert key b bs);
      in_range = λ j c g. elim (Bool-cases (key == j)) [
        | inl e ↦ ground (arith, get-insert key j b bs, budget_eq.same_iff key j, r.0, r.1)
        | inr e ↦ v.in_range j c (ground (arith, get-insert key j b bs))
      ];
    }

    found-InRange :
        (key : Budget) (now : ℕ) (bs : Dict Budget (Bucket F))
        → IsSound bs
        → InRange
            (capacity fl key)
            (bucket_or (record { tokens = capacity fl key; updated = now }) (get key bs))
    found-InRange key now bs v = elim (Option-cases (get key bs)) [
      | inl e ↦ rw e ((capacity_pos key).1, (capacity_pos key).0)
      | inr (b, e) ↦ rw e (v.in_range key b e)
    ]

    spend-IsSound :
        (key : Budget) (now : ℕ) (a : Admission F)
        → (is_some (get key a.limits.buckets) ≡ true) ⊎ (length a.limits.buckets < max_buckets)
        → IsSound a.limits.buckets
        → IsSound (spend fl key now a).1.limits.buckets
    unfolding spend
    spend-IsSound key now a space v =
        let cap = capacity fl key in
        let b =
          refill_bucket fl cap now
            (bucket_or (record { tokens = cap; updated = now }) (get key a.limits.buckets)) in
        let r =
          refill_bucket-InRange cap now _ (capacity_pos key).0
            (found-InRange key now a.limits.buckets v) in
        elim (Bool-cases (lt b.tokens (of_nat 1))) [
          | inl e ↦ rw e (insert-IsSound key b a.limits.buckets r space v)
          | inr e ↦ rw e (
              insert-IsSound key (record b { tokens = fl.sub b.tokens (of_nat 1) }) a.limits.buckets
                (laws.sub_one_le b.tokens cap r.0, laws.sub_one_nonneg b.tokens e) space v)
        ]

    -- Every check keeps the table sound.
    pub check_at-IsSound :
        (key : Budget) (now : ℕ) (a : Admission F)
        → IsSound a.limits.buckets
        → IsSound (check_at fl key now a).1.limits.buckets
    unfolding expire_idle
    check_at-IsSound key now a v =
        let kept = retain-IsSound (is_active now) a.limits.buckets v in
        check_at_cases fl (λ r. IsSound r.1.limits.buckets) key now a
          (λ space. spend-IsSound key now a space v) (λ _ _. kept)
          (λ _ free. spend-IsSound key now _ (inr free) kept)

    pub maintain-IsSound :
        (now : ℕ) (a : Admission F)
        → IsSound a.limits.buckets
        → IsSound (maintain now a).1.limits.buckets
    unfolding maintain
    maintain-IsSound now a v = retain-IsSound (is_active now) a.limits.buckets v

    drop_guard_buckets :
        (ip : IpAddr) (a b : Admission F)
        → drop_guard ip a ≡ some b
        → b.limits.buckets ≡ a.limits.buckets
    unfolding drop_guard
    drop_guard_buckets ip a b h = ground arith

    pending_auth_buckets :
        (ip : IpAddr) (gs : List IpAddr) (a : Admission F)
        → (keep_guard gs (pending_auth ip a)).admission.limits.buckets ≡ a.limits.buckets
    unfolding pending_auth
    pending_auth_buckets ip gs a = ground arith

    release-IsSound :
        (n : ℕ) (ip : IpAddr) (s t : Server F)
        → release n ip s ≡ some t
        → IsSound s.admission.limits.buckets
        → IsSound t.admission.limits.buckets
    unfolding release
    release-IsSound zero ip s t h v = subst (λ u. IsSound u.admission.limits.buckets) (some_inj h) v
    release-IsSound (suc n) ip s t h v = elim (Option-cases (drop_guard ip s.admission)) [
      | inl e ↦ ground (arith, e)
      | inr (a, e) ↦ subst IsSound (ground (arith, e, drop_guard_buckets ip s.admission a e)) v
    ]

    step-IsSound :
        (s t : Server F) (c : Call)
        → step fl s c ≡ some t
        → IsSound s.admission.limits.buckets
        → IsSound t.admission.limits.buckets
    unfolding step
    step-IsSound s t (checks key now) h v =
        subst (λ u. IsSound u.admission.limits.buckets) (some_inj h)
          (check_at-IsSound key now s.admission v)
    step-IsSound s t (acquires ip) h v =
        subst (λ u. IsSound u.admission.limits.buckets) (some_inj h)
          (rw (pending_auth_buckets ip s.guards s.admission) v)
    step-IsSound s t (releases ip) h v = release-IsSound (count ip s.guards) ip s t h v
    step-IsSound s t (maintains now) h v =
        subst (λ u. IsSound u.admission.limits.buckets) (some_inj h)
          (maintain-IsSound now s.admission v)

    run-IsSound :
        (s t : Server F) (cs : List Call)
        → run fl s cs ≡ some t
        → IsSound s.admission.limits.buckets
        → IsSound t.admission.limits.buckets
    unfolding run
    run-IsSound s t [] h v = subst (λ u. IsSound u.admission.limits.buckets) (some_inj h) v
    run-IsSound s t (c ∷ cs) h v = elim (Option-cases (step fl s c)) [
      | inl e ↦ absurd (ground (arith, e))
      | inr (u, e) ↦ run-IsSound u t cs (ground (arith, e)) (step-IsSound s u c e v)
    ]

    start-IsSound : IsSound (start fl).admission.limits.buckets
    unfolding start default get
    start-IsSound = record { unique = tt; fits = omega arith; in_range = λ key b g. cc }

    -- Every history of the methods ends without a panic, in a state whose table holds each budget
    -- once and at most ten thousand, and whose tokens lie between nothing and the full budget.
    pub run-start-IsSound :
        (cs : List Call)
        → (s : Server F) × (run fl (start fl) cs ≡ some s) × IsSound s.admission.limits.buckets
    run-start-IsSound cs =
        let (s, e, _) = run-start-Accounts fl cs in
        (s, e, run-IsSound (start fl) s cs e start-IsSound)
