-- ===== src/Dataflow/Defs.antt =====
-- HW3/dflow_calc.cpp: the dependencies of a trace of instructions and the depths of its nodes.
-- An int is its 32-bit pattern, so `NONE`, which is -1, is 2 ^ 32 - 1. `none` is an access outside an
-- array, or a recursion deeper than the fuel.
use computer_structures.Base.{
  ℕ, zero, suc, ◌+◌, ◌-◌, ◌^◌, Bool, true, false, not, Option, none, some, List, if◌then◌else◌,
  ◌==◌, get_elem?, replicate, write, u32, ◌>>=◌,
}
use computer_structures.Base.Int.{signed32, leb_ℤ}

abbrev pub num_of_regs : ℕ
num_of_regs = 32

abbrev pub absent : ℕ
absent = 2 ^ 32 - 1

pub record InstInfo : Type 0 where
  pub opcode : ℕ
  pub dst_idx : ℕ
  pub src1_idx : ℕ
  pub src2_idx : ℕ

pub record Node : Type 0 where
  pub opcode : ℕ
  pub dep1 : ℕ
  pub dep2 : ℕ
  pub max_depth : ℕ
  pub latency : ℕ

-- The constructor leaves the opcode and the latency as it finds them.
abbrev pub node : ℕ → ℕ → Node
node raw_opcode raw_latency = record {
  opcode = raw_opcode;
  dep1 = absent;
  dep2 = absent;
  max_depth = absent;
  latency = raw_latency;
}

pub record DataFlow : Type 0 where
  pub dependencies : List Node
  pub regs : List ℕ
  pub exit_nodes : List Bool
  pub num_of_insts : ℕ
  pub max_depth : ℕ

-- `exit_nodes[dependency] = false`, unless there is no dependency.
unfoldable pub clear_exit : List Bool → ℕ → Option (List Bool)
clear_exit exit_nodes dependency =
    if dependency == absent then some exit_nodes else write exit_nodes dependency false

-- A round of the first loop of `InitData`.
unfoldable pub collect_inst : List ℕ → List InstInfo → ℕ → DataFlow → Option DataFlow
collect_inst ops_latency prog_trace i d = do
  current_inst ← get_elem? prog_trace i
  latency ← get_elem? ops_latency current_inst.opcode
  dependency1 ← get_elem? d.regs current_inst.src1_idx
  dependency2 ← get_elem? d.regs current_inst.src2_idx
  old ← get_elem? d.dependencies i
  dependencies ← write d.dependencies i (record old {
    opcode = current_inst.opcode;
    latency = latency;
    dep1 = dependency1;
    dep2 = dependency2;
  })
  cleared ← clear_exit d.exit_nodes dependency1
  exit_nodes ← clear_exit cleared dependency2
  regs ← write d.regs current_inst.dst_idx i
  some (record d { dependencies = dependencies; exit_nodes = exit_nodes; regs = regs })

-- The first loop of `InitData`, with `left` rounds to go at `i`.
unfoldable pub collect : List ℕ → List InstInfo → ℕ → ℕ → DataFlow → Option DataFlow
collect ops_latency prog_trace zero i d = some d
collect ops_latency prog_trace (suc left) i d = do
  d' ← collect_inst ops_latency prog_trace i d
  collect ops_latency prog_trace left (suc i) d'

-- `a > b` on int
abbrev pub gt_int : ℕ → ℕ → Bool
gt_int a b = not (leb_ℤ (signed32 a) (signed32 b))

-- The depth of a node, and the nodes with the depths that were found on the way.
unfoldable pub get_depth_recursive : ℕ → List Node → ℕ → Option (ℕ × List Node)
get_depth_recursive zero dependencies node_index = none
get_depth_recursive (suc fuel) dependencies node_index = elim (node_index == absent) [
  | true ↦ some (0, dependencies)
  | false ↦ do
    current_node ← get_elem? dependencies node_index
    elim (current_node.max_depth == absent) [
      | false ↦ some (current_node.max_depth, dependencies)
      | true ↦ do
        (max1, dependencies1) ← get_depth_recursive fuel dependencies current_node.dep1
        current_node1 ← get_elem? dependencies1 node_index
        (max2, dependencies2) ← get_depth_recursive fuel dependencies1 current_node1.dep2
        let max_depth = u32 (current_node.latency + (if gt_int max1 max2 then max1 else max2))
        current_node2 ← get_elem? dependencies2 node_index
        dependencies3 ←
            write dependencies2 node_index (record current_node2 { max_depth = max_depth })
        some (max_depth, dependencies3)
    ]
]

-- A round of the second loop of `InitData`.
unfoldable pub measure_exit : ℕ → DataFlow → Option DataFlow
measure_exit i d = get_elem? d.exit_nodes i >>= λ is_exit.
    if is_exit
    then (do
      (max_temp, dependencies) ← get_depth_recursive (suc d.num_of_insts) d.dependencies i
      some (record d {
        dependencies = dependencies;
        max_depth = if gt_int d.max_depth max_temp then d.max_depth else max_temp;
      }))
    else some d

-- The second loop of `InitData`, with `left` rounds to go at `i`.
unfoldable pub measure : ℕ → ℕ → DataFlow → Option DataFlow
measure zero i d = some d
measure (suc left) i d = do d' ← measure_exit i d; measure left (suc i) d'

unfoldable pub init_data : List ℕ → List InstInfo → DataFlow → Option DataFlow
init_data ops_latency prog_trace d = do
  d' ← collect ops_latency prog_trace d.num_of_insts 0 d
  measure d.num_of_insts 0 d'

unfoldable pub data_flow : ℕ → ℕ → ℕ → List ℕ → List InstInfo → Option DataFlow
data_flow raw_opcode raw_latency num_of_insts ops_latency prog_trace =
    init_data ops_latency prog_trace (record {
      dependencies = replicate num_of_insts (node raw_opcode raw_latency);
      regs = replicate num_of_regs absent;
      exit_nodes = replicate num_of_insts true;
      num_of_insts = num_of_insts;
      max_depth = absent;
    })
