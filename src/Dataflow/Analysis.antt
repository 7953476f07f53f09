-- ===== src/Dataflow/Analysis.antt =====
-- HW3: what the queries of dflow_calc.h answer about an analysed program.
use computer_structures.Base.{
  ◌⊎◌, eq_cases, ℕ, ◌+◌, ◌-◌, ◌≤◌, ◌<◌, ◌≡◌, ◌≢◌, refl, sym, ◌∙◌, arith, Bool, true, false, none,
  some, List, leb, inl, inr, get_elem?, replicate, length-replicate, get_elem?-replicate, subst,
  ==-ne, sub32,
}
use computer_structures.Dataflow.Defs.{
  DataFlow, InstInfo, Node, absent, node, num_of_regs, collect, measure, init_data, data_flow,
}
use computer_structures.Dataflow.Api.{analyze_prog, get_inst_depth, get_inst_deps, get_prog_depth}
use computer_structures.Dataflow.Spec.{
  inst, latency, writer, Depends-lt, IsProgram, IsLevel, Chain, start,
}
use computer_structures.Dataflow.Collect.{word, node_at, IsCollected, collect-IsCollected}
use computer_structures.Dataflow.Depth.{Done, IsMemo, IsLevel-lt}
use computer_structures.Dataflow.Measure.{
  Covered, IsTop, unset, highest, IsMeasured, measure-IsMeasured, all-Done, all_below,
}

not_out_of_range : (n i : ℕ) → i < n → leb n i ≡ false
not_out_of_range n i h = ground arith

out_of_range : (n i : ℕ) → n ≤ i → leb n i ≡ true
out_of_range n i h = ground arith

get_inst_depth_at :
    (d : DataFlow) (i : ℕ) (node : Node)
    → i < d.num_of_insts
    → get_elem? d.dependencies i ≡ some node
    → node.max_depth ≢ absent
    → get_inst_depth d i ≡ some (sub32 node.max_depth node.latency)
unfolding get_inst_depth
get_inst_depth_at d i node h found known =
    rw (not_out_of_range d.num_of_insts i h, get_inst_depth)
      (rw found (rw (==-ne node.max_depth absent known)))

get_inst_deps_at :
    (d : DataFlow) (i : ℕ) (node : Node)
    → i < d.num_of_insts
    → get_elem? d.dependencies i ≡ some node
    → get_inst_deps d i ≡ some (0, some (node.dep1, node.dep2))
unfolding get_inst_deps
get_inst_deps_at d i node h found =
    rw (not_out_of_range d.num_of_insts i h, get_inst_deps) (rw found)

past_end :
    (d : DataFlow) (i : ℕ)
    → d.num_of_insts ≤ i
    → (get_inst_depth d i ≡ some absent) × (get_inst_deps d i ≡ some (absent, none))
unfolding get_inst_depth get_inst_deps
past_end d i h =
    let out = out_of_range d.num_of_insts i h in (rw (out, get_inst_depth), rw (out, get_inst_deps))

module _ (ops_latency : List ℕ) (prog : List InstInfo) (n : ℕ) where
  -- A finished analysis.
  record IsAnalysed (d : DataFlow) : Type 0 where
    insts : d.num_of_insts ≡ n
    nodes : (k : ℕ) → k < n → Done ops_latency prog d.dependencies k
    below : (k m : ℕ) → k < n → IsLevel ops_latency prog k m → m ≤ d.max_depth
    attained : 0 < n → (k : ℕ) × (k < n) × IsLevel ops_latency prog k d.max_depth
    empty : n ≡ 0 → d.max_depth ≡ absent

  module _ (p : IsProgram ops_latency prog n) (raw_opcode raw_latency : ℕ) where
    abbrev initial : DataFlow
    initial = record {
      dependencies = replicate n (node raw_opcode raw_latency);
      regs = replicate num_of_regs absent;
      exit_nodes = replicate n true;
      num_of_insts = n;
      max_depth = absent;
    }

    initial-IsCollected : IsCollected ops_latency prog n 0 initial
    initial-IsCollected = record {
      insts = refl;
      depth = refl;
      nodes_size = length-replicate n (node raw_opcode raw_latency);
      exits_size = length-replicate n true;
      regs_size = length-replicate num_of_regs absent;
      regs = λ r h. get_elem?-replicate num_of_regs absent r h;
      nodes = λ k h. elim h [ ];
      rest = λ k _ h. (
        node raw_opcode raw_latency,
        get_elem?-replicate n (node raw_opcode raw_latency) k h,
        refl,
      );
      exits = λ k h. inl (get_elem?-replicate n true k h);
    }

    fresh :
        (d : DataFlow)
        → IsCollected ops_latency prog n n d
        → (k : ℕ) → k < n
        → ¬ Done ops_latency prog d.dependencies k
    fresh d c k h (m, found, level) =
        let set_is_unset : m ≡ absent = same_depth (sym found ∙ c.nodes k h) in
        omega (arith, IsLevel-lt ops_latency prog n p k m h level)
      where
        same_depth :
            some (node_at ops_latency prog k m) ≡ some (node_at ops_latency prog k absent)
            → m ≡ absent
        same_depth e = cc

    top-attained :
        (exits : List Bool) (d : ℕ)
        → 0 < n
        → Covered ops_latency prog n exits
        → IsTop ops_latency prog n n exits d
        → (k : ℕ) × (k < n) × IsLevel ops_latency prog k d
    top-attained exits d h cover (highest k below level _) = (k, below, level)
    top-attained exits d h cover (unset _ no_exit) = elim (cover (n - 1) (omega arith)) [
      | inl exit ↦ absurd (no_exit (n - 1) (omega arith) exit)
      | inr (_, j, below, dep) ↦ absurd (omega (arith, Depends-lt ops_latency prog j (n - 1) dep))
    ]

    top-empty :
        (exits : List Bool) (d : ℕ) → n ≡ 0 → IsTop ops_latency prog n n exits d → d ≡ absent
    top-empty exits d h (highest k below level _) = absurd (omega arith)
    top-empty exits d h (unset e no_exit) = e

    data_flow-chain :
        (d d' : DataFlow)
        → collect ops_latency prog n 0 initial ≡ some d
        → measure n 0 d ≡ some d'
        → data_flow raw_opcode raw_latency n ops_latency prog ≡ some d'
    unfolding data_flow init_data
    data_flow-chain d d' collected measured = rw collected measured

    collected-IsMemo :
        (d : DataFlow)
        → IsCollected ops_latency prog n n d
        → IsMemo ops_latency prog n d.dependencies
    collected-IsMemo d c = record {
      sized = c.nodes_size;
      at = λ k h. (absent, c.nodes k h, inl refl);
      closed = λ k j h known dep. absurd (fresh d c k h known);
    }

    analysed :
        (d : DataFlow) × (data_flow raw_opcode raw_latency n ops_latency prog ≡ some d)
        × IsAnalysed d
    analysed =
        let (d, collected, c) =
          collect-IsCollected ops_latency prog n p n 0 initial (omega arith) initial-IsCollected in
        let start : IsMeasured ops_latency prog n d.exit_nodes 0 d = record {
          insts = c.insts;
          same_exits = refl;
          memo = collected-IsMemo d c;
          done = λ k h. elim h [ ];
          top = unset c.depth (λ k h. elim h [ ]);
        } in
        let (d', measured, s) =
          measure-IsMeasured ops_latency prog n p d.exit_nodes c.exits n 0 d (omega arith) start in
        (
          d',
          data_flow-chain d d' collected measured,
          record {
            insts = s.insts;
            nodes =
                λ k h. all-Done ops_latency prog n p d.exit_nodes c.exits n k d' h (omega arith) s;
            below = λ k m h l.
                all_below ops_latency prog n p d.exit_nodes c.exits n k m d' h (omega arith) s l;
            attained = λ h. top-attained d.exit_nodes d'.max_depth h c.exits s.top;
            empty = λ h. top-empty d.exit_nodes d'.max_depth h s.top;
          },
        )

    analyze_prog-analysed :
        (d : DataFlow)
        → data_flow raw_opcode raw_latency n ops_latency prog ≡ some d
        → analyze_prog true raw_opcode raw_latency ops_latency prog n ≡ some (some d)
    unfolding analyze_prog
    analyze_prog-analysed d e = rw e

    depth_of_Done :
        (d : DataFlow) (i : ℕ)
        → i < n
        → d.num_of_insts ≡ n
        → Done ops_latency prog d.dependencies i
        → (depth : ℕ) × (get_inst_depth d i ≡ some depth)
          × IsLevel ops_latency prog i (depth + latency ops_latency prog i)
    depth_of_Done d i h insts (m, found, level) =
        let small = IsLevel-lt ops_latency prog n p i m h level in
        let latency_le = level.bound (latency ops_latency prog i) (start i) in
        let back : sub32 m (latency ops_latency prog i) + latency ops_latency prog i ≡ m =
          omega arith in
        (
          sub32 m (latency ops_latency prog i),
          get_inst_depth_at d i (node_at ops_latency prog i m) (rw insts h) found (omega arith),
          subst (IsLevel ops_latency prog i) (sym back) level,
        )

    deps_of_Done :
        (d : DataFlow) (i : ℕ)
        → i < n
        → d.num_of_insts ≡ n
        → Done ops_latency prog d.dependencies i
        → get_inst_deps d i
          ≡ some (
            0,
            some (
              word (writer ops_latency prog i (inst ops_latency prog i).src1_idx),
              word (writer ops_latency prog i (inst ops_latency prog i).src2_idx),
            ),
          )
    deps_of_Done d i h insts (m, found, level) =
        get_inst_deps_at d i (node_at ops_latency prog i m) (rw insts h) found

    -- The analysis of fewer than 2 ^ 31 instructions, with opcodes and registers in range and a sum
    -- of latencies below 2 ^ 31, returns if it gets its memory, and for an instruction of it
    -- `getInstDepth` then returns the length of the longest chain of dependent instructions that
    -- ends in it, its own latency not counted: no chain is longer, and one is as long.
    pub analyze_prog-get_inst_depth :
        (i : ℕ)
        → i < n
        → (d : DataFlow) × (depth : ℕ) × (analyze_prog true raw_opcode raw_latency ops_latency prog
              n
            ≡ some (some d))
          × (get_inst_depth d i ≡ some depth)
          × IsLevel ops_latency prog i (depth + latency ops_latency prog i)
    analyze_prog-get_inst_depth i h =
        let (d, returns, a) = analysed in
        let (depth, answer, level) = depth_of_Done d i h a.insts (a.nodes i h) in
        (d, depth, analyze_prog-analysed d returns, answer, level)

    -- The analysis of fewer than 2 ^ 31 instructions, with opcodes and registers in range and a sum
    -- of latencies below 2 ^ 31, returns if it gets its memory, and for an instruction of it
    -- `getInstDeps` then succeeds with the last writers of its two source registers among the
    -- instructions before it, -1 for none.
    pub analyze_prog-get_inst_deps :
        (i : ℕ)
        → i < n
        → (d : DataFlow) × (analyze_prog true raw_opcode raw_latency ops_latency prog n
            ≡ some (some d))
          × (get_inst_deps d i
              ≡ some (
                0,
                some (
                  word (writer ops_latency prog i (inst ops_latency prog i).src1_idx),
                  word (writer ops_latency prog i (inst ops_latency prog i).src2_idx),
                ),
              ))
    analyze_prog-get_inst_deps i h =
        let (d, returns, a) = analysed in
        (d, analyze_prog-analysed d returns, deps_of_Done d i h a.insts (a.nodes i h))

    -- The analysis of fewer than 2 ^ 31 instructions, with opcodes and registers in range and a sum
    -- of latencies below 2 ^ 31, returns if it gets its memory, and `getProgDepth` then is -1 if
    -- there are no instructions; otherwise it is at least as long as any chain of dependent
    -- instructions, and exactly as long as one of them.
    pub analyze_prog-get_prog_depth :
        (d : DataFlow) × (analyze_prog true raw_opcode raw_latency ops_latency prog n
          ≡ some (some d))
        × ((n ≡ 0) × (get_prog_depth d ≡ absent)
            ⊎ (k : ℕ) × (k < n)
              × Chain ops_latency prog k (get_prog_depth d)
              × ((i m : ℕ) → i < n → Chain ops_latency prog i m → m ≤ get_prog_depth d))
    unfolding get_prog_depth
    analyze_prog-get_prog_depth =
        let (d, returns, a) = analysed in
        (
          d,
          analyze_prog-analysed d returns,
          elim (eq_cases n 0) [
            | inl none_at_all ↦ inl (none_at_all, a.empty none_at_all)
            | inr some_inst ↦
                let (k, below, longest) = a.attained (omega arith) in
                inr (
                  k,
                  below,
                  longest.attained,
                  λ i m h c.
                      let (top, _, level) = a.nodes i h in
                      omega (arith, level.bound m c, a.below i top h level),
                )
          ],
        )

    -- The analysis of fewer than 2 ^ 31 instructions, with opcodes and registers in range and a sum
    -- of latencies below 2 ^ 31, returns if it gets its memory, and then -1 is no answer of
    -- `getInstDepth` for an instruction of the trace, but is its answer and that of `getInstDeps`,
    -- which writes nothing, for every index past the end.
    pub analyze_prog-past_end :
        (d : DataFlow) × (analyze_prog true raw_opcode raw_latency ops_latency prog n
          ≡ some (some d))
        × ((i : ℕ)
            → n ≤ i
            → (get_inst_depth d i ≡ some absent) × (get_inst_deps d i ≡ some (absent, none)))
        × ((i : ℕ) → i < n → get_inst_depth d i ≢ some absent)
    analyze_prog-past_end =
        let (d, returns, a) = analysed in
        (
          d,
          analyze_prog-analysed d returns,
          λ i h. past_end d i (omega (arith, a.insts)),
          λ i h e.
              let (depth, answer, level) = depth_of_Done d i h a.insts (a.nodes i h) in
              let same : depth ≡ absent = cc in
              omega (arith, IsLevel-lt ops_latency prog n p i _ h level, same),
        )
