-- ===== src/Dataflow/Api.antt =====
-- HW3/dflow_calc.cpp: the functions of HW3/dflow_calc.h. A context is `none` where the code has NULL.
use computer_structures.Base.{
  ℕ, Bool, Option, none, some, List, if◌then◌else◌, ◌==◌, leb, get_elem?, sub32, ◌>>=◌,
}
use computer_structures.Dataflow.Defs.{DataFlow, InstInfo, absent, data_flow}

-- `allocated` tells whether the memory could be had: else the exception is caught.
unfoldable pub analyze_prog : Bool → ℕ → ℕ → List ℕ → List InstInfo → ℕ → Option (Option DataFlow)
analyze_prog allocated raw_opcode raw_latency ops_latency prog_trace num_of_insts =
    if allocated
    then (data_flow raw_opcode raw_latency num_of_insts ops_latency prog_trace >>= λ d.
        some (some d))
    else some none

unfoldable pub get_inst_depth : DataFlow → ℕ → Option ℕ
get_inst_depth d the_inst = if leb d.num_of_insts the_inst then some absent else (do
  inst_node ← get_elem? d.dependencies the_inst
  some (if inst_node.max_depth == absent then 0 else sub32 inst_node.max_depth inst_node.latency))

-- The result and, on success, what is written through the two pointers.
unfoldable pub get_inst_deps : DataFlow → ℕ → Option (ℕ × Option (ℕ × ℕ))
get_inst_deps d the_inst = if leb d.num_of_insts the_inst then some (absent, none) else (do
  inst_node ← get_elem? d.dependencies the_inst
  some (0, some (inst_node.dep1, inst_node.dep2)))

unfoldable pub get_prog_depth : DataFlow → ℕ
get_prog_depth d = d.max_depth
