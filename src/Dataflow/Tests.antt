-- ===== src/Dataflow/Tests.antt =====
-- HW3: the theorems about the analysis at a concrete trace.
use computer_structures.Base.{
  ◌⊎◌, ◌≢◌, ◌≤◌, ℕ, zero, suc, ◌+◌, ◌≤◌, ◌<◌, ◌≡◌, arith, true, none, some, List, [], ◌∷◌, length,
}
use computer_structures.Dataflow.Defs.{DataFlow, InstInfo, absent, num_of_regs}
use computer_structures.Dataflow.Api.{analyze_prog, get_inst_depth, get_inst_deps, get_prog_depth}
use computer_structures.Dataflow.Spec.{inst, latency, IsProgram, IsLevel, Chain}
use computer_structures.Dataflow.Analysis

abbrev latencies : List ℕ
latencies = 2 ∷ 5 ∷ []

-- r1 := r2 op r3; r4 := r1 op r1; r1 := r4 op r2
abbrev trace : List InstInfo
trace =
    record { opcode = 1; dst_idx = 1; src1_idx = 2; src2_idx = 3 }
    ∷ record { opcode = 0; dst_idx = 4; src1_idx = 1; src2_idx = 1 }
    ∷ record { opcode = 1; dst_idx = 1; src1_idx = 4; src2_idx = 2 }
    ∷ []

below_three : (P : ℕ → Type 0) → P 0 → P 1 → P 2 → (i : ℕ) → i < 3 → P i
below_three P p0 p1 p2 zero h = p0
below_three P p0 p1 p2 (suc zero) h = p1
below_three P p0 p1 p2 (suc (suc zero)) h = p2
below_three P p0 p1 p2 (suc (suc (suc i))) h = absurd (omega arith)

trace-IsProgram : IsProgram latencies trace 3
trace-IsProgram = record {
  in_range = omega arith;
  opcodes =
      below_three (λ i. (inst latencies trace i).opcode < length latencies) (omega arith)
        (omega arith) (omega arith);
  dst =
      below_three (λ i. (inst latencies trace i).dst_idx < num_of_regs) (omega arith) (omega arith)
        (omega arith);
  src1 =
      below_three (λ i. (inst latencies trace i).src1_idx < num_of_regs) (omega arith) (omega arith)
        (omega arith);
  src2 =
      below_three (λ i. (inst latencies trace i).src2_idx < num_of_regs) (omega arith) (omega arith)
        (omega arith);
  few = omega arith;
  fits = omega arith;
}

analyze_prog-get_inst_depth_example :
    (d : DataFlow) × (depth : ℕ) × (analyze_prog true 9 9 latencies trace 3 ≡ some (some d))
    × (get_inst_depth d 2 ≡ some depth)
    × IsLevel latencies trace 2 (depth + latency latencies trace 2)
analyze_prog-get_inst_depth_example =
    Analysis.analyze_prog-get_inst_depth latencies trace 3 trace-IsProgram 9 9 2 (omega arith)

analyze_prog-get_inst_deps_example :
    (d : DataFlow) × (analyze_prog true 9 9 latencies trace 3 ≡ some (some d))
    × (get_inst_deps d 2 ≡ some (0, some (1, absent)))
analyze_prog-get_inst_deps_example =
    Analysis.analyze_prog-get_inst_deps latencies trace 3 trace-IsProgram 9 9 2 (omega arith)

analyze_prog-get_prog_depth_example :
    (d : DataFlow) × (analyze_prog true 9 9 latencies trace 3 ≡ some (some d))
    × ((◌≡◌ {A = ℕ} 3 0) × (get_prog_depth d ≡ absent)
        ⊎ (k : ℕ) × (k < 3)
          × Chain latencies trace k (get_prog_depth d)
          × ((i m : ℕ) → i < 3 → Chain latencies trace i m → m ≤ get_prog_depth d))
analyze_prog-get_prog_depth_example =
    Analysis.analyze_prog-get_prog_depth latencies trace 3 trace-IsProgram 9 9

analyze_prog-past_end_example :
    (d : DataFlow) × (analyze_prog true 9 9 latencies trace 3 ≡ some (some d))
    × ((i : ℕ)
        → 3 ≤ i
        → (get_inst_depth d i ≡ some absent) × (get_inst_deps d i ≡ some (absent, none)))
    × ((i : ℕ) → i < 3 → get_inst_depth d i ≢ some absent)
analyze_prog-past_end_example = Analysis.analyze_prog-past_end latencies trace 3 trace-IsProgram 9 9
