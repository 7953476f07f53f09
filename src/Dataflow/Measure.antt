-- ===== src/Dataflow/Measure.antt =====
-- HW3/dflow_calc.cpp: the second loop of `InitData` visits the exits, and so every node.
use computer_structures.Base.{
  ℕ, zero, suc, ◌+◌, ◌^◌, ◌≤◌, ◌<◌, ◌≡◌, ◌≢◌, ◌⊎◌, refl, sym, ap, arith, Bool, true, false, some,
  List, if◌then◌else◌, inl, inr, get_elem?, eq_cases, lt_cases, subst,
}
use computer_structures.Dataflow.Defs.{
  DataFlow, InstInfo, Node, absent, gt_int, get_depth_recursive, measure_exit, measure,
}
use computer_structures.Dataflow.Spec.{Depends, Depends-lt, IsProgram, IsLevel, next}
use computer_structures.Dataflow.Depth.{Done, IsMemo, IsFound, IsLevel-lt, find}

some_inj : {a b : ℕ} → some a ≡ some b → a ≡ b
some_inj e = cc

le_of_eq : {a b : ℕ} → a ≡ b → a ≤ b
le_of_eq e = omega arith

gt_int-absent : (m : ℕ) → m < 2 ^ 31 → gt_int absent m ≡ false
gt_int-absent m h = ground arith

gt_int_lt : (a b : ℕ) → a < 2 ^ 31 → b < 2 ^ 31 → b < a → gt_int a b ≡ true
gt_int_lt a b ha hb h = ground arith

gt_int_le : (a b : ℕ) → a < 2 ^ 31 → b < 2 ^ 31 → a ≤ b → gt_int a b ≡ false
gt_int_le a b ha hb h = ground arith

measure_exit-skipped :
    (i : ℕ) (d : DataFlow) → get_elem? d.exit_nodes i ≡ some false → measure_exit i d ≡ some d
unfolding measure_exit
measure_exit-skipped i d skipped = rw (skipped, measure_exit)

measure_exit-visited :
    (i : ℕ) (d : DataFlow) (depth : ℕ) (after : List Node)
    → get_elem? d.exit_nodes i ≡ some true
    → get_depth_recursive (suc d.num_of_insts) d.dependencies i ≡ some (depth, after)
    → measure_exit i d
      ≡ some (record d {
        dependencies = after;
        max_depth = if gt_int d.max_depth depth then d.max_depth else depth;
      })
unfolding measure_exit
measure_exit-visited i d depth after exit returns = rw (exit, measure_exit) (rw returns)

module _ (ops_latency : List ℕ) (prog : List InstInfo) (n : ℕ) where
  -- The value of `max_depth`: that of no node yet, or the level of one that is at least those of the
  -- first `i` exits.
  pub data IsTop (i : ℕ) (exits : List Bool) (d : ℕ) : Type 0 where
    unset : d ≡ absent → ((k : ℕ) → k < i → get_elem? exits k ≢ some true) → IsTop i exits d
    highest :
        (k : ℕ)
        → k < n
        → IsLevel ops_latency prog k d
        → ((j m : ℕ) → j < i → get_elem? exits j ≡ some true → IsLevel ops_latency prog j m → m ≤ d)
        → IsTop i exits d

  -- The state after `i` rounds over the exits that the first loop found.
  pub record IsMeasured (exits : List Bool) (i : ℕ) (d : DataFlow) : Type 0 where
    pub insts : d.num_of_insts ≡ n
    pub same_exits : d.exit_nodes ≡ exits
    pub memo : IsMemo ops_latency prog n d.dependencies
    pub done :
        (k : ℕ) → k < i → get_elem? exits k ≡ some true → Done ops_latency prog d.dependencies k
    pub top : IsTop i exits d.max_depth

  -- What the first loop guarantees of the exits.
  abbrev pub Covered : List Bool → Type 0
  Covered exits =
      (k : ℕ)
      → k < n
      → (get_elem? exits k ≡ some true)
        ⊎ ((get_elem? exits k ≡ some false) × (j : ℕ) × (j < n) × Depends ops_latency prog j k)

  IsLevel-unique : (k a b : ℕ) → IsLevel ops_latency prog k a → IsLevel ops_latency prog k b → a ≡ b
  IsLevel-unique k a b la lb =
      let le1 = lb.bound a la.attained in let le2 = la.bound b lb.attained in omega arith

  module _ (p : IsProgram ops_latency prog n) (exits : List Bool) (cover : Covered exits) where
    IsTop-step :
        (i d m : ℕ)
        → i < n
        → IsLevel ops_latency prog i m
        → IsTop i exits d
        → IsTop (suc i) exits (if gt_int d m then d else m)
    IsTop-step i d m h level (unset e no_exit) =
        let value : (if gt_int d m then d else m) ≡ m =
          subst (λ x. (if gt_int x m then x else m) ≡ m) (sym e)
            (rw (gt_int-absent m (IsLevel-lt ops_latency prog n p i m h level))) in
        rw value (
          highest i h level (λ j m' lt found l. elim (eq_cases j i) [
            | inl same ↦
                let l' = subst (λ x. IsLevel ops_latency prog x m') same l in
                le_of_eq (IsLevel-unique i m' m l' level)
            | inr other ↦ absurd (no_exit j (omega arith) found)
          ]))
    IsTop-step i d m h level (highest k below lk bound) =
        let small = IsLevel-lt ops_latency prog n p i m h level in
        let small' = IsLevel-lt ops_latency prog n p k d below lk in
        elim (lt_cases m d) [
          | inl less ↦ rw (gt_int_lt d m small' small less) (
              highest k below lk (λ j m' lt found l. elim (eq_cases j i) [
                | inl same ↦
                    let l' = subst (λ x. IsLevel ops_latency prog x m') same l in
                    omega (arith, IsLevel-unique i m' m l' level)
                | inr other ↦ bound j m' (omega arith) found l
              ]))
          | inr more ↦ rw (gt_int_le d m small' small more) (
              highest i h level (λ j m' lt found l. elim (eq_cases j i) [
                | inl same ↦
                    let l' = subst (λ x. IsLevel ops_latency prog x m') same l in
                    omega (arith, IsLevel-unique i m' m l' level)
                | inr other ↦ omega (arith, bound j m' (omega arith) found l)
              ]))
        ]

    skip-step : (i d : ℕ) → get_elem? exits i ≡ some false → IsTop i exits d → IsTop (suc i) exits d
    skip-step i d skipped (unset e no_exit) = unset e (λ k below. elim (eq_cases k i) [
      | inl same ↦
          λ yes_exit. let at = subst (λ x. get_elem? exits x ≡ some true) same yes_exit in cc
      | inr other ↦ no_exit k (omega arith)
    ])
    skip-step i d skipped (highest k below lk bound) = highest k below lk (λ j m lt found l.
        elim (eq_cases j i) [
          | inl same ↦ let at = subst (λ x. get_elem? exits x ≡ some true) same found in absurd (cc)
          | inr other ↦ bound j m (omega arith) found l
        ])

    measure_exit-taken :
        (i : ℕ) (d : DataFlow)
        → i < n
        → IsMeasured exits i d
        → get_elem? exits i ≡ some true
        → (d' : DataFlow) × (measure_exit i d ≡ some d') × IsMeasured exits (suc i) d'
    measure_exit-taken i d h s exit =
        let f : IsFound ops_latency prog n p (suc n) d.dependencies (some i) =
          find ops_latency prog n p (suc n) d.dependencies (some i) s.memo (omega arith)
            (λ k e. let same : i ≡ k = some_inj e in (omega arith, omega arith)) in
        let returns =
          subst (λ x. get_depth_recursive (suc x) d.dependencies i ≡ some (f.depth, f.after))
            (sym s.insts) f.returns in
        (
          record d {
            dependencies = f.after;
            max_depth = if gt_int d.max_depth f.depth then d.max_depth else f.depth;
          },
          measure_exit-visited i d f.depth f.after (rw s.same_exits exit) returns,
          record {
            insts = s.insts;
            same_exits = s.same_exits;
            memo = f.memo;
            done = λ k below found. elim (eq_cases i k) [
              | inl same ↦ f.done k (ap some same)
              | inr other ↦ f.grows k (s.done k (omega arith) found)
            ];
            top = IsTop-step i d.max_depth f.depth h f.level s.top;
          },
        )

    measure_exit-IsMeasured :
        (i : ℕ) (d : DataFlow)
        → i < n
        → IsMeasured exits i d
        → (d' : DataFlow) × (measure_exit i d ≡ some d') × IsMeasured exits (suc i) d'
    measure_exit-IsMeasured i d h s = elim (cover i h) [
      | inl exit ↦ measure_exit-taken i d h s exit
      | inr (skipped, _, _, _) ↦ (
        d,
        measure_exit-skipped i d (rw s.same_exits skipped),
        record {
          insts = s.insts;
          same_exits = s.same_exits;
          memo = s.memo;
          done = λ k below found. elim (eq_cases k i) [
            | inl same ↦
                let at = subst (λ x. get_elem? exits x ≡ some true) same found in absurd (cc)
            | inr other ↦ s.done k (omega arith) found
          ];
          top = skip-step i d.max_depth skipped s.top;
        },
      )
    ]

    pub measure-IsMeasured :
        (left i : ℕ) (d : DataFlow)
        → i + left ≡ n
        → IsMeasured exits i d
        → (d' : DataFlow) × (measure left i d ≡ some d') × IsMeasured exits n d'
    unfolding measure
    measure-IsMeasured zero i d e s =
        let same : i ≡ n = omega arith in (d, refl, subst (λ x. IsMeasured exits x d) same s)
    measure-IsMeasured (suc left) i d e s =
        let (d', returns, s') = measure_exit-IsMeasured i d (omega arith) s in
        let (d'', rest, s'') = measure-IsMeasured left (suc i) d' (omega arith) s' in
        (d'', rw returns rest, s'')

    -- Every node lies below an exit, so in the end every depth is known.
    pub all-Done :
        (left k : ℕ) (d : DataFlow)
        → k < n
        → n ≤ k + left
        → IsMeasured exits n d
        → Done ops_latency prog d.dependencies k
    all-Done zero k d h e s = absurd (omega arith)
    all-Done (suc left) k d h e s = elim (cover k h) [
      | inl exit ↦ s.done k h exit
      | inr (_, j, below, dep) ↦
          let lt = Depends-lt ops_latency prog j k dep in
          s.memo.closed j k below (all-Done left j d below (omega arith) s) dep
    ]

    bounded_by_exit :
        (k m d : ℕ)
        → k < n
        → get_elem? exits k ≡ some true
        → IsLevel ops_latency prog k m
        → IsTop n exits d
        → m ≤ d
    bounded_by_exit k m d h exit level (unset e no_exit) = absurd (no_exit k h exit)
    bounded_by_exit k m d h exit level (highest _ _ _ bound) = bound k m h exit level

    -- No level is above the maximum.
    pub all_below :
        (left k m : ℕ) (d : DataFlow)
        → k < n
        → n ≤ k + left
        → IsMeasured exits n d
        → IsLevel ops_latency prog k m
        → m ≤ d.max_depth
    all_below zero k m d h e s level = absurd (omega arith)
    all_below (suc left) k m d h e s level = elim (cover k h) [
      | inl exit ↦ bounded_by_exit k m d.max_depth h exit level s.top
      | inr (_, j, below, dep) ↦
          let lt = Depends-lt ops_latency prog j k dep in
          let (m', _, l) = all-Done left j d below (omega arith) s in
          let longer = l.bound _ (next j level.attained dep) in
          omega (arith, longer, all_below left j m' d below (omega arith) s l)
    ]
