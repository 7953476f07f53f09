-- ===== src/Dataflow/Spec.antt =====
-- HW3: what the analysis of a trace is about, told from the trace alone: which instruction wrote a
-- register last, which instructions depend on which, and the chains of dependent instructions.
use computer_structures.Base.{
  ℕ, zero, suc, ◌+◌, ◌^◌, ◌≤◌, ◌<◌, ◌≡◌, ◌⊎◌, refl, arith, Option, none, some, List, if◌then◌else◌,
  ◌==◌, inl, inr, lt_cases, subst, length, get_elem?, max,
}
use computer_structures.Dataflow.Defs.{InstInfo, num_of_regs}

abbrev pub no_inst : InstInfo
no_inst = record { opcode = 0; dst_idx = 0; src1_idx = 0; src2_idx = 0 }

abbrev pub or_else {ℓ} : {A : Type ℓ} → Option A → A → A
or_else none a = a
or_else (some x) a = x

module _ (ops_latency : List ℕ) (prog : List InstInfo) where
  -- Instruction `i`, and its latency.
  abbrev pub inst : ℕ → InstInfo
  inst i = or_else (get_elem? prog i) no_inst

  abbrev pub latency : ℕ → ℕ
  latency i = or_else (get_elem? ops_latency (inst i).opcode) 0

  -- The last of the instructions below `i` that writes register `r`.
  abbrev pub writer : ℕ → ℕ → Option ℕ
  writer zero r = none
  writer (suc i) r = if (inst i).dst_idx == r then some i else writer i r

  -- Instruction `i` reads a register that instruction `j` was the last to write.
  abbrev pub Depends : ℕ → ℕ → Type 0
  Depends i j = (writer i (inst i).src1_idx ≡ some j) ⊎ (writer i (inst i).src2_idx ≡ some j)

  -- A chain of dependent instructions that ends in `i`, and the sum of their latencies.
  pub data Chain : ℕ → ℕ → Type 0 where
    start : (i : ℕ) → Chain i (latency i)
    next : {j n : ℕ} (i : ℕ) → Chain j n → Depends i j → Chain i (n + latency i)

  -- The sum of all latencies below `i`.
  abbrev pub total : ℕ → ℕ
  total zero = 0
  total (suc i) = total i + latency i

  -- The trace and its first `n` instructions are as the program reads them: every index is in
  -- range, and the sum of the latencies fits an int.
  pub record IsProgram (n : ℕ) : Type 0 where
    pub in_range : n ≤ length prog
    pub opcodes : (i : ℕ) → i < n → (inst i).opcode < length ops_latency
    pub dst : (i : ℕ) → i < n → (inst i).dst_idx < num_of_regs
    pub src1 : (i : ℕ) → i < n → (inst i).src1_idx < num_of_regs
    pub src2 : (i : ℕ) → i < n → (inst i).src2_idx < num_of_regs
    pub few : n < 2 ^ 31
    pub fits : total n < 2 ^ 31

  -- The longest chain that ends in `i` takes `d`.
  pub record IsLevel (i d : ℕ) : Type 0 where
    pub bound : (n : ℕ) → Chain i n → n ≤ d
    pub attained : Chain i d

  -- A level that is 0 where there is no dependency.
  abbrev pub OptLevel : Option ℕ → ℕ → Type 0
  OptLevel none d = d ≡ 0
  OptLevel (some j) d = IsLevel j d

  pub writer-lt : (i r j : ℕ) → writer i r ≡ some j → j < i
  writer-lt zero r j h = absurd (cc)
  writer-lt (suc i) r j h = ground (arith, writer-lt i r j)

  pub Depends-lt : (i j : ℕ) → Depends i j → j < i
  Depends-lt i j (inl h) = writer-lt i (inst i).src1_idx j h
  Depends-lt i j (inr h) = writer-lt i (inst i).src2_idx j h

  pub total_mono : (i j : ℕ) → i ≤ j → total i ≤ total j
  total_mono zero zero h = omega arith
  total_mono (suc i) zero h = elim h [ ]
  total_mono i (suc j) h = elim (lt_cases i (suc j)) [
    | inl less ↦ omega (arith, total_mono i j (omega arith))
    | inr more ↦ let e : i ≡ suc j = omega arith in rw e (omega arith)
  ]

  -- A chain takes no longer than all the instructions up to its end.
  pub Chain-le : {i n : ℕ} → Chain i n → n ≤ total (suc i)
  Chain-le (start i) = omega arith
  Chain-le (next {j} i c d) = omega (arith, Chain-le c, total_mono (suc j) i (Depends-lt i j d))

  dep-bound : (w : Option ℕ) (v : ℕ) {j n : ℕ} → OptLevel w v → w ≡ some j → Chain j n → n ≤ v
  dep-bound none v o e c = absurd (cc)
  dep-bound (some k) v {j} {n} o e c =
      let same : j ≡ k = cc in o.bound n (subst (λ x. Chain x n) same c)

  reach :
      (i : ℕ) {w : Option ℕ} (v : ℕ)
      → ((j : ℕ) → w ≡ some j → Depends i j)
      → OptLevel w v
      → (v ≡ 0) ⊎ ((j : ℕ) × Depends i j × Chain j v)
  reach i {w = none} v dep o = inl o
  reach i {w = some j} v dep o = inr (j, dep j refl, o.attained)

  extend :
      (i v m : ℕ) → v ≡ m → (v ≡ 0) ⊎ ((j : ℕ) × Depends i j × Chain j v) → Chain i (latency i + m)
  extend i v m e (inl z) =
      let same : latency i ≡ latency i + m = omega arith in rw (← same) (start i)
  extend i v m e (inr (j, d, c)) =
      let same : v + latency i ≡ latency i + m = omega arith in rw (← same) (next i c d)

  -- The level of an instruction is its latency past the higher of the levels that it depends on.
  pub IsLevel-step :
      (i v1 v2 : ℕ)
      → OptLevel (writer i (inst i).src1_idx) v1
      → OptLevel (writer i (inst i).src2_idx) v2
      → IsLevel i (latency i + max v1 v2)
  IsLevel-step i v1 v2 o1 o2 = record {
    bound = bound;
    attained = elim (lt_cases v1 v2) [
      | inl less ↦ extend i v2 (max v1 v2) (omega arith) (reach i v2 (λ j. inr) o2)
      | inr more ↦ extend i v1 (max v1 v2) (omega arith) (reach i v1 (λ j. inl) o1)
    ];
  }
    where
      bound : (n : ℕ) → Chain i n → n ≤ latency i + max v1 v2
      bound n (start _) = omega arith
      bound n (next {n = m} _ c (inl d)) =
          omega (arith, dep-bound (writer i (inst i).src1_idx) v1 o1 d c)
      bound n (next {n = m} _ c (inr d)) =
          omega (arith, dep-bound (writer i (inst i).src2_idx) v2 o2 d c)
