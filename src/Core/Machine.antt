-- ===== src/Core/Machine.antt =====
-- HW4/core_api.cpp: the threads, the core, and the execution of one instruction.
use computer_structures.Base.{
  ℕ, ◌+◌, ◌-◌, ◌^◌, Option, some, List, if◌then◌else◌, get_elem?, replicate, write, u32, sub32,
  ◌>>=◌,
}
use computer_structures.Core.Memory.{
  Memory, Instruction, CmdOpcode, cmd_nop, cmd_add, cmd_sub, cmd_addi, cmd_subi, cmd_load,
  cmd_store, cmd_halt, sim_mem_data_read, sim_mem_data_write, sim_mem_inst_read,
}

abbrev pub regs_count : ℕ
regs_count = 8

-- `UINT32_MAX`, the return cycle of a halted thread.
abbrev pub never : ℕ
never = 2 ^ 32 - 1

pub record Thread : Type 0 where
  pub rip : ℕ
  pub return_cycle : ℕ
  pub regs : List ℕ

pub record Core : Type 0 where
  pub num_of_threads : ℕ
  pub cycle_count : ℕ
  pub inst_count : ℕ
  pub rr_index : ℕ
  pub load_latency : ℕ
  pub store_latency : ℕ
  pub context_switch_overhead : ℕ
  pub core_threads : List Thread

abbrev pub new_thread : Thread
new_thread = record { rip = 0; return_cycle = 0; regs = replicate regs_count 0 }

unfoldable pub core_init : Memory → Core
core_init m = record {
  num_of_threads = m.threadnumber;
  cycle_count = 0;
  inst_count = 0;
  rr_index = 0;
  load_latency = m.load_latency;
  store_latency = m.store_latency;
  context_switch_overhead = m.switch_cycles;
  core_threads = replicate m.threadnumber new_thread;
}

-- The state of a simulation: the core, the memory, and the counters of its loop.
pub record Sim : Type 0 where
  pub core : Core
  pub memory : Memory
  pub idle_count : ℕ
  pub halt_count : ℕ

-- What an instruction makes of its thread, of the memory and of the two counters.
pub record Effect : Type 0 where
  pub thread : Thread
  pub memory : Memory
  pub idle_count : ℕ
  pub halt_count : ℕ

abbrev pub put_reg : Thread → ℕ → ℕ → Option Thread
put_reg t index value = write t.regs index value >>= λ regs. some (record t { regs = regs })

-- The second operand of LOAD and STORE.
unfoldable pub addend : Thread → Instruction → Option ℕ
addend t inst =
    if inst.is_src2_imm then some inst.src2_index_imm else get_elem? t.regs inst.src2_index_imm

-- The cases of the switch on the opcode. The thread's `rip` has been moved on.
unfoldable pub dispatch : CmdOpcode → Instruction → Core → Memory → Thread → ℕ → Option Effect
dispatch cmd_nop inst core memory t halt_count =
    some (record { thread = t; memory = memory; idle_count = 0; halt_count = halt_count })
dispatch cmd_add inst core memory t halt_count = do
  a ← get_elem? t.regs inst.src1_index
  b ← get_elem? t.regs inst.src2_index_imm
  t' ← put_reg t inst.dst_index (u32 (a + b))
  some (record { thread = t'; memory = memory; idle_count = 0; halt_count = halt_count })
dispatch cmd_addi inst core memory t halt_count = do
  a ← get_elem? t.regs inst.src1_index
  t' ← put_reg t inst.dst_index (u32 (a + inst.src2_index_imm))
  some (record { thread = t'; memory = memory; idle_count = 0; halt_count = halt_count })
dispatch cmd_sub inst core memory t halt_count = do
  a ← get_elem? t.regs inst.src1_index
  b ← get_elem? t.regs inst.src2_index_imm
  t' ← put_reg t inst.dst_index (sub32 a b)
  some (record { thread = t'; memory = memory; idle_count = 0; halt_count = halt_count })
dispatch cmd_subi inst core memory t halt_count = do
  a ← get_elem? t.regs inst.src1_index
  t' ← put_reg t inst.dst_index (sub32 a inst.src2_index_imm)
  some (record { thread = t'; memory = memory; idle_count = 0; halt_count = halt_count })
dispatch cmd_load inst core memory t halt_count = do
  offset ← addend t inst
  base ← get_elem? t.regs inst.src1_index
  value ← sim_mem_data_read memory (u32 (base + offset))
  t' ← put_reg t inst.dst_index value
  some (record {
    thread = record t' { return_cycle = u32 (core.cycle_count + 1 + core.load_latency) };
    memory = memory;
    idle_count = 1;
    halt_count = halt_count;
  })
dispatch cmd_store inst core memory t halt_count = do
  offset ← addend t inst
  base ← get_elem? t.regs inst.dst_index
  value ← get_elem? t.regs inst.src1_index
  memory' ← sim_mem_data_write memory (u32 (base + offset)) value
  some (record {
    thread = record t { return_cycle = u32 (core.cycle_count + 1 + core.store_latency) };
    memory = memory';
    idle_count = 1;
    halt_count = halt_count;
  })
dispatch cmd_halt inst core memory t halt_count = some (record {
  thread = record t { return_cycle = never };
  memory = memory;
  idle_count = 0;
  halt_count = u32 (halt_count + 1);
})

-- `EXECUTE_inst` on the thread at the Round Robin index.
unfoldable pub execute_inst : Sim → Thread → Option Sim
execute_inst s current_thread = do
  inst ← sim_mem_inst_read s.memory current_thread.rip s.core.rr_index
  let moved = record current_thread { rip = u32 (current_thread.rip + 1) }
  e ← dispatch inst.opcode inst s.core s.memory moved s.halt_count
  core_threads ← write s.core.core_threads s.core.rr_index e.thread
  some (record {
    core = record (s.core) {
      core_threads = core_threads;
      cycle_count = u32 (s.core.cycle_count + 1);
      inst_count = u32 (s.core.inst_count + 1);
    };
    memory = e.memory;
    idle_count = e.idle_count;
    halt_count = e.halt_count;
  })
