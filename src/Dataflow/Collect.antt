-- ===== src/Dataflow/Collect.antt =====
-- HW3/dflow_calc.cpp: the first loop of `InitData` finds the dependencies of every instruction.
use computer_structures.Base.{
  ℕ, zero, suc, ◌+◌, ◌≤◌, ◌<◌, ◌≡◌, ◌⊎◌, refl, ap, ◌∙◌, arith, Bool, true, false, Option, none,
  some, List, ◌==◌, inl, inr, length, get_elem?, set, length-set, get_elem?-set_self,
  get_elem?-set_ne, get_elem?_lem, eq_cases, ==-ne, ==-refl, write-set, subst,
}
use computer_structures.Dataflow.Defs.{
  DataFlow, InstInfo, Node, absent, num_of_regs, clear_exit, collect_inst, collect,
}
use computer_structures.Dataflow.Spec.{
  or_else, inst, latency, writer, writer-lt, Depends, IsProgram, no_inst,
}

-- The pattern of a dependency.
abbrev pub word : Option ℕ → ℕ
word none = absent
word (some j) = j

get_elem?-or_else {ℓ} :
    {A : Type ℓ} (xs : List A) (i : ℕ) (a : A)
    → i < length xs
    → get_elem? xs i ≡ some (or_else (get_elem? xs i) a)
get_elem?-or_else xs i a h = let (x, e) = get_elem?_lem xs i h in rw e

-- What `clear_exit` leaves.
record IsCleared (exits : List Bool) (w : Option ℕ) : Type 0 where
  after : List Bool
  returns : clear_exit exits (word w) ≡ some after
  size : length after ≡ length exits
  at :
      (k : ℕ)
      → (get_elem? after k ≡ get_elem? exits k) ⊎ ((w ≡ some k) × (get_elem? after k ≡ some false))

clear_exit-IsCleared :
    (exits : List Bool) (w : Option ℕ)
    → ((j : ℕ) → w ≡ some j → (j < length exits) × (j < absent))
    → IsCleared exits w
unfolding clear_exit
clear_exit-IsCleared exits none below = record {
  after = exits;
  returns = refl;
  size = refl;
  at = λ k. inl refl;
}
clear_exit-IsCleared exits (some j) below =
    let (fits, small) = below j refl in
    record {
      after = set exits j false;
      returns = rw (==-ne j absent (omega arith)) (write-set exits j false fits);
      size = length-set exits j false;
      at = λ k. elim (eq_cases j k) [
        | inl e ↦ inr (ap some e, rw (← e) (get_elem?-set_self exits j false fits))
        | inr ne ↦ inl (get_elem?-set_ne exits j k false ne)
      ];
    }

module _ (ops_latency : List ℕ) (prog : List InstInfo) where
  -- The node of instruction `i`, with a given depth.
  abbrev pub node_at : ℕ → ℕ → Node
  node_at i depth = record {
    opcode = (inst ops_latency prog i).opcode;
    dep1 = word (writer ops_latency prog i (inst ops_latency prog i).src1_idx);
    dep2 = word (writer ops_latency prog i (inst ops_latency prog i).src2_idx);
    max_depth = depth;
    latency = latency ops_latency prog i;
  }

  -- After `i` rounds: the registers name their last writers, the first `i` nodes their dependencies,
  -- and an instruction that is no exit any more is one that another depends on.
  pub record IsCollected (n i : ℕ) (d : DataFlow) : Type 0 where
    pub insts : d.num_of_insts ≡ n
    pub depth : d.max_depth ≡ absent
    pub nodes_size : length d.dependencies ≡ n
    pub exits_size : length d.exit_nodes ≡ n
    pub regs_size : length d.regs ≡ num_of_regs
    pub regs :
        (r : ℕ) → r < num_of_regs → get_elem? d.regs r ≡ some (word (writer ops_latency prog i r))
    pub nodes : (k : ℕ) → k < i → get_elem? d.dependencies k ≡ some (node_at k absent)
    pub rest :
        (k : ℕ)
        → i ≤ k
        → k < n
        → (old : Node) × (get_elem? d.dependencies k ≡ some old) × (old.max_depth ≡ absent)
    pub exits :
        (k : ℕ)
        → k < n
        → (get_elem? d.exit_nodes k ≡ some true)
          ⊎ ((get_elem? d.exit_nodes k ≡ some false)
              × (j : ℕ) × (j < n)
              × Depends ops_latency prog j k)

  module _ (n : ℕ) (p : IsProgram ops_latency prog n) where
    in_range :
        (i r : ℕ)
        → i < n
        → (exits : List Bool) → length exits ≡ n
        → (j : ℕ) → writer ops_latency prog i r ≡ some j
        → (j < length exits) × (j < absent)
    in_range i r h exits e j w =
        let lt = writer-lt ops_latency prog i r j w in let few = p.few in (omega arith, omega arith)

    exits_after :
        (i : ℕ)
        → i < n
        → (k : ℕ) (before between after : List Bool)
        → (get_elem? between k ≡ get_elem? before k)
          ⊎ ((writer ops_latency prog i (inst ops_latency prog i).src1_idx ≡ some k)
              × (get_elem? between k ≡ some false))
        → (get_elem? after k ≡ get_elem? between k)
          ⊎ ((writer ops_latency prog i (inst ops_latency prog i).src2_idx ≡ some k)
              × (get_elem? after k ≡ some false))
        → (get_elem? before k ≡ some true)
          ⊎ ((get_elem? before k ≡ some false) × (j : ℕ) × (j < n) × Depends ops_latency prog j k)
        → (get_elem? after k ≡ some true)
          ⊎ ((get_elem? after k ≡ some false) × (j : ℕ) × (j < n) × Depends ops_latency prog j k)
    exits_after i h k before between after at1 (inr (w, e)) old = inr (e, i, h, inr w)
    exits_after i h k before between after (inr (w, e')) (inl e) old = inr (e ∙ e', i, h, inl w)
    exits_after i h k before between after (inl e') (inl e) (inl t) = inl (e ∙ (e' ∙ t))
    exits_after i h k before between after (inl e') (inl e) (inr (f, j, lt, dep)) =
        inr (e ∙ (e' ∙ f), j, lt, dep)

    collect_inst-IsCollected :
        (i : ℕ) (d : DataFlow)
        → i < n
        → IsCollected n i d
        → (d' : DataFlow) × (collect_inst ops_latency prog i d ≡ some d') × IsCollected n (suc i) d'
    unfolding collect_inst
    collect_inst-IsCollected i d h c =
        let s1 = (inst ops_latency prog i).src1_idx in
        let s2 = (inst ops_latency prog i).src2_idx in
        let dst = (inst ops_latency prog i).dst_idx in
        let e1 =
          clear_exit-IsCleared d.exit_nodes (writer ops_latency prog i s1)
            (in_range i s1 h _ c.exits_size) in
        let e2 =
          clear_exit-IsCleared e1.after (writer ops_latency prog i s2)
            (in_range i s2 h _ (e1.size ∙ c.exits_size)) in
        let (old, found, fresh) = c.rest i (omega arith) h in
        let new = node_at i old.max_depth in
        let read = get_elem?-or_else prog i no_inst (omega (arith, p.in_range)) in
        let time =
          get_elem?-or_else ops_latency (inst ops_latency prog i).opcode 0 (p.opcodes i h) in
        let r1 = c.regs s1 (p.src1 i h) in
        let r2 = c.regs s2 (p.src2 i h) in
        let fits : i < length d.dependencies = rw c.nodes_size h in
        let dst_fits : dst < length d.regs = rw c.regs_size (p.dst i h) in
        (
          record d {
            dependencies = set d.dependencies i new;
            exit_nodes = e2.after;
            regs = set d.regs dst i;
          },
          rw (
            read,
            time,
            r1,
            r2,
            found,
            write-set d.dependencies i new fits,
            e1.returns,
            e2.returns,
            write-set d.regs dst i dst_fits,
          ),
          record {
            insts = c.insts;
            depth = c.depth;
            nodes_size = length-set d.dependencies i new ∙ c.nodes_size;
            exits_size = e2.size ∙ (e1.size ∙ c.exits_size);
            regs_size = length-set d.regs dst i ∙ c.regs_size;
            regs = λ r small. elim (eq_cases dst r) [
              | inl same ↦
                  let hit = subst (λ x. (dst == x) ≡ true) same (==-refl dst) in
                  rw hit (
                    subst (λ x. get_elem? (set d.regs dst i) x ≡ some i) same
                      (get_elem?-set_self d.regs dst i dst_fits))
              | inr other ↦
                  rw (==-ne dst r other) (get_elem?-set_ne d.regs dst r i other ∙ c.regs r small)
            ];
            nodes = λ k below. elim (eq_cases i k) [
              | inl same ↦
                  subst (λ x. get_elem? (set d.dependencies i new) x ≡ some (node_at x absent)) same
                    (get_elem?-set_self d.dependencies i new fits
                      ∙ ap (λ m. some (node_at i m)) fresh)
              | inr other ↦ get_elem?-set_ne d.dependencies i k new other ∙ c.nodes k (omega arith)
            ];
            rest = λ k above below.
                let (node, at, unset) = c.rest k (omega arith) below in
                (node, get_elem?-set_ne d.dependencies i k new (omega arith) ∙ at, unset);
            exits = λ k below.
                exits_after i h k d.exit_nodes e1.after e2.after (e1.at k) (e2.at k)
                  (c.exits k below);
          },
        )

    pub collect-IsCollected :
        (left i : ℕ) (d : DataFlow)
        → i + left ≡ n
        → IsCollected n i d
        → (d' : DataFlow) × (collect ops_latency prog left i d ≡ some d') × IsCollected n n d'
    unfolding collect
    collect-IsCollected zero i d e c =
        let same : i ≡ n = omega arith in (d, refl, subst (λ x. IsCollected n x d) same c)
    collect-IsCollected (suc left) i d e c =
        let (d', returns, c') = collect_inst-IsCollected i d (omega arith) c in
        let (d'', rest, c'') = collect-IsCollected left (suc i) d' (omega arith) c' in
        (d'', rw returns rest, c'')
