-- ===== src/Dataflow/Depth.antt =====
-- HW3/dflow_calc.cpp: `getDepthRecursive` finds the longest chain that ends in a node, and remembers it.
use computer_structures.Base.{
  ℕ, zero, suc, ◌+◌, ◌^◌, ◌≤◌, ◌<◌, ◌≡◌, ◌≢◌, ◌⊎◌, refl, sym, ap, ◌∙◌, arith, true, Option, none,
  some, List, if◌then◌else◌, ◌==◌, inl, inr, length, get_elem?, set, length-set, max, u32,
  get_elem?-set_self, get_elem?-set_ne, eq_cases, ==-ne, bind-some, write-set, subst,
}
use computer_structures.Dataflow.Defs.{InstInfo, Node, absent, gt_int, get_depth_recursive}
use computer_structures.Dataflow.Spec.{
  inst, latency, writer, writer-lt, Depends, IsProgram, IsLevel, OptLevel, IsLevel-step, Chain-le,
  total_mono,
}
use computer_structures.Dataflow.Collect.{word, node_at}

depth_value :
    (l v1 v2 : ℕ)
    → v1 < 2 ^ 31
    → v2 < 2 ^ 31
    → l + max v1 v2 < 2 ^ 31
    → u32 (l + (if gt_int v1 v2 then v1 else v2)) ≡ l + max v1 v2
depth_value l v1 v2 h1 h2 fits = ground arith

-- The two ways through `getDepthRecursive` at a node.
depth_known :
    (fuel k : ℕ) (nodes : List Node) (node : Node)
    → k ≢ absent
    → get_elem? nodes k ≡ some node
    → node.max_depth ≢ absent
    → get_depth_recursive (suc fuel) nodes k ≡ some (node.max_depth, nodes)
unfolding get_depth_recursive
depth_known fuel k nodes node small found known =
    rw (==-ne k absent small, get_depth_recursive)
      (bind-some (get_elem? nodes k) _ found (rw (==-ne node.max_depth absent known)))

depth_new :
    (fuel k max1 max2 : ℕ) (nodes nodes1 nodes2 : List Node) (node node1 node2 : Node)
    → k ≢ absent
    → get_elem? nodes k ≡ some node
    → node.max_depth ≡ absent
    → get_depth_recursive fuel nodes node.dep1 ≡ some (max1, nodes1)
    → get_elem? nodes1 k ≡ some node1
    → get_depth_recursive fuel nodes1 node1.dep2 ≡ some (max2, nodes2)
    → get_elem? nodes2 k ≡ some node2
    → k < length nodes2
    → let depth = u32 (node.latency + (if gt_int max1 max2 then max1 else max2)) in
      get_depth_recursive (suc fuel) nodes k
      ≡ some (depth, set nodes2 k (record node2 { max_depth = depth }))
unfolding get_depth_recursive
depth_new fuel k max1 max2 nodes nodes1 nodes2 node node1 node2 small found unset r1 found1 r2
      found2 fits =
    let depth = u32 (node.latency + (if gt_int max1 max2 then max1 else max2)) in
    let unknown = subst (λ x. (x == absent) ≡ true) (sym unset) refl in
    rw (==-ne k absent small, get_depth_recursive)
      (bind-some (get_elem? nodes k) _ found (
        rw unknown (
          rw (
            r1,
            found1,
            r2,
            found2,
            write-set nodes2 k (record node2 { max_depth = depth }) fits,
          ))))

module _ (ops_latency : List ℕ) (prog : List InstInfo) where
  -- The depth of node `k` is known and is right.
  abbrev pub Done : List Node → ℕ → Type 0
  Done nodes k =
      (m : ℕ) × (get_elem? nodes k ≡ some (node_at ops_latency prog k m))
      × IsLevel ops_latency prog k m

  module _ (n : ℕ) where
    -- Every depth is unset or right, and where one is known so are those that it was made from.
    pub record IsMemo (nodes : List Node) : Type 0 where
      pub sized : length nodes ≡ n
      pub at :
          (k : ℕ)
          → k < n
          → (m : ℕ) × (get_elem? nodes k ≡ some (node_at ops_latency prog k m))
            × ((m ≡ absent) ⊎ IsLevel ops_latency prog k m)
      pub closed : (k j : ℕ) → k < n → Done nodes k → Depends ops_latency prog k j → Done nodes j

    module _ (p : IsProgram ops_latency prog n) where
      pub IsLevel-lt : (k m : ℕ) → k < n → IsLevel ops_latency prog k m → m < 2 ^ 31
      IsLevel-lt k m h l = omega (
        arith,
        Chain-le ops_latency prog l.attained,
        total_mono ops_latency prog (suc k) n h,
        p.fits,
      )

      OptLevel-lt :
          (w : Option ℕ) (v : ℕ)
          → ((k : ℕ) → w ≡ some k → k < n)
          → OptLevel ops_latency prog w v
          → v < 2 ^ 31
      OptLevel-lt none v below o = omega arith
      OptLevel-lt (some k) v below o = IsLevel-lt k v (below k refl) o

      record IsWritten (nodes : List Node) (k m : ℕ) : Type 0 where
        memo : IsMemo (set nodes k (node_at ops_latency prog k m))
        grows : (j : ℕ) → Done nodes j → Done (set nodes k (node_at ops_latency prog k m)) j
        done : Done (set nodes k (node_at ops_latency prog k m)) k

      write_level :
          (nodes : List Node) (k m : ℕ)
          → IsMemo nodes
          → k < n
          → IsLevel ops_latency prog k m
          → ((j : ℕ) → Depends ops_latency prog k j → Done nodes j)
          → IsWritten nodes k m
      write_level nodes k m memo h level deps = record {
        memo = record {
          sized = length-set nodes k new ∙ memo.sized;
          at = λ j below. elim (eq_cases k j) [
            | inl same ↦
                let (_, found, _) = done in
                subst
                  (λ x.
                    (m' : ℕ) × (get_elem? (set nodes k new) x
                      ≡ some (node_at ops_latency prog x m'))
                    × ((m' ≡ absent) ⊎ IsLevel ops_latency prog x m'))
                  same (m, self, inr level)
            | inr other ↦
                let (m', found, state) = memo.at j below in
                (m', get_elem?-set_ne nodes k j new other ∙ found, state)
          ];
          closed = λ i j below known dep. elim (eq_cases k i) [
            | inl same ↦ grows j (deps j (subst (λ x. Depends ops_latency prog x j) (sym same) dep))
            | inr other ↦
                let (m', found, l) = known in
                grows j (
                  memo.closed i j below (m', sym (get_elem?-set_ne nodes k i new other) ∙ found, l)
                    dep)
          ];
        };
        grows = grows;
        done = done;
      }
        where
          new : Node
          new = node_at ops_latency prog k m

          self : get_elem? (set nodes k new) k ≡ some new
          self = get_elem?-set_self nodes k new (subst (λ x. k < x) (sym memo.sized) h)

          done : Done (set nodes k new) k
          done = (m, self, level)

          grows : (j : ℕ) → Done nodes j → Done (set nodes k new) j
          grows j (m', found, l) = elim (eq_cases k j) [
            | inl same ↦ subst (Done (set nodes k new)) same done
            | inr other ↦ (m', get_elem?-set_ne nodes k j new other ∙ found, l)
          ]

      -- What a call of `getDepthRecursive` returns for a dependency `w`.
      pub record IsFound (fuel : ℕ) (nodes : List Node) (w : Option ℕ) : Type 0 where
        pub depth : ℕ
        pub after : List Node
        pub returns : get_depth_recursive fuel nodes (word w) ≡ some (depth, after)
        pub memo : IsMemo after
        pub grows : (k : ℕ) → Done nodes k → Done after k
        pub level : OptLevel ops_latency prog w depth
        pub done : (k : ℕ) → w ≡ some k → Done after k

      some_inj : {a b : ℕ} → some a ≡ some b → a ≡ b
      some_inj e = cc

      -- Both calls at a node whose depth is not known yet.
      record AreFound (fuel : ℕ) (nodes : List Node) (k : ℕ) : Type 0 where
        first : IsFound fuel nodes (writer ops_latency prog k (inst ops_latency prog k).src1_idx)
        second :
            IsFound fuel first.after (writer ops_latency prog k (inst ops_latency prog k).src2_idx)

      find_new :
          (fuel : ℕ) (nodes : List Node) (k m : ℕ)
          → IsMemo nodes
          → k < n
          → get_elem? nodes k ≡ some (node_at ops_latency prog k m)
          → m ≡ absent
          → AreFound fuel nodes k
          → IsFound (suc fuel) nodes (some k)
      find_new fuel nodes k m memo h found unset calls =
          let first = calls.first in
          let second = calls.second in
          let (m1, found1, _) = first.memo.at k h in
          let (m2, found2, _) = second.memo.at k h in
          let level =
            IsLevel-step ops_latency prog k first.depth second.depth first.level second.level in
          let lt1 =
            OptLevel-lt _ first.depth (below k (inst ops_latency prog k).src1_idx h) first.level in
          let lt2 =
            OptLevel-lt _ second.depth (below k (inst ops_latency prog k).src2_idx h)
              second.level in
          let value =
            depth_value (latency ops_latency prog k) first.depth second.depth lt1 lt2
              (IsLevel-lt k _ h level) in
          let fits : k < length second.after = subst (λ x. k < x) (sym second.memo.sized) h in
          let returns =
            depth_new fuel k first.depth second.depth nodes first.after second.after
              (node_at ops_latency prog k m) (node_at ops_latency prog k m1)
              (node_at ops_latency prog k m2) (omega (arith, p.few)) found unset first.returns
              found1 second.returns found2 fits in
          let depth = latency ops_latency prog k + max first.depth second.depth in
          let written = write_level second.after k depth second.memo h level (λ j dep. elim dep [
            | inl w ↦ second.grows j (first.done j w)
            | inr w ↦ second.done j w
          ]) in
          record {
            depth = depth;
            after = set second.after k (node_at ops_latency prog k depth);
            returns =
                returns
                ∙ ap (λ x. some (x, set second.after k (node_at ops_latency prog k x))) value;
            memo = written.memo;
            grows = λ j known. written.grows j (second.grows j (first.grows j known));
            level = level;
            done = λ j e.
                subst (Done (set second.after k (node_at ops_latency prog k depth))) (some_inj e)
                  written.done;
          }
        where
          below : (k r : ℕ) → k < n → (j : ℕ) → writer ops_latency prog k r ≡ some j → j < n
          below k r h j w = omega (arith, writer-lt ops_latency prog k r j w)

      deeper :
          (fuel k r : ℕ)
          → k < n
          → k + 2 ≤ suc fuel
          → (j : ℕ) → writer ops_latency prog k r ≡ some j
          → (j < n) × (j + 2 ≤ fuel)
      deeper fuel k r h enough j w =
          let lt = writer-lt ops_latency prog k r j w in (omega arith, omega arith)

      pub find :
          (fuel : ℕ) (nodes : List Node) (w : Option ℕ)
          → IsMemo nodes
          → 0 < fuel
          → ((k : ℕ) → w ≡ some k → (k < n) × (k + 2 ≤ fuel))
          → IsFound fuel nodes w
      find zero nodes w memo pos below = elim pos [ ]
      find (suc fuel) nodes none memo pos below = record {
        depth = 0;
        after = nodes;
        returns = unfold get_depth_recursive in refl;
        memo = memo;
        grows = λ k known. known;
        level = refl;
        done = λ k e. absurd (cc);
      }
      find (suc fuel) nodes (some k) memo pos below =
          let (h, enough) = below k refl in
          let (m, found, state) = memo.at k h in
          let w1 = writer ops_latency prog k (inst ops_latency prog k).src1_idx in
          let w2 = writer ops_latency prog k (inst ops_latency prog k).src2_idx in
          let first =
            find fuel nodes w1 memo (omega arith)
              (deeper fuel k (inst ops_latency prog k).src1_idx h enough) in
          let second =
            find fuel first.after w2 first.memo (omega arith)
              (deeper fuel k (inst ops_latency prog k).src2_idx h enough) in
          elim state [
            | inl unset ↦
                find_new fuel nodes k m memo h found unset
                  (record { first = first; second = second })
            | inr level ↦ record {
              depth = m;
              after = nodes;
              returns =
                  depth_known fuel k nodes (node_at ops_latency prog k m) (omega (arith, p.few))
                    found (omega (arith, IsLevel-lt k m h level));
              memo = memo;
              grows = λ j known. known;
              level = level;
              done = λ j e. subst (Done nodes) (some_inj e) (m, found, level);
            }
          ]
