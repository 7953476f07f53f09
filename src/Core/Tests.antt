-- ===== src/Core/Tests.antt =====
-- HW4: the theorems about the memory and the rounds at concrete states.
use computer_structures.Base.{ℕ, ◌≡◌, refl, arith, true, false, Option, none, some, List, [], ◌∷◌}
use computer_structures.Core.Memory.{
  Memory, Instruction, cmd_addi, cmd_load, cmd_halt, data_index, sim_mem_data_read,
  sim_mem_data_write, sim_mem_inst_read,
}
use computer_structures.Core.Machine.{
  Thread, Sim, new_thread, core_init, dispatch, addend, execute_inst,
}
use computer_structures.Core.Schedule.{
  find_thread, blocked_round, finegrained_choice, finegrained_round, run_rounds, core_blocked_mt,
  core_finegrained_mt, start,
}
use computer_structures.Core.RoundTrip
use computer_structures.Core.RoundTrip.{address}
use computer_structures.Core.Search.{IsCore}
use computer_structures.Core.Execute
use computer_structures.Core.Execute.{IsExecuted}
use computer_structures.Core.Start
use computer_structures.Core.Reach.{Ended}
use computer_structures.Core.Blocked
use computer_structures.Core.Turns
use computer_structures.Core.Fair
use computer_structures.Core.Fair.{Served}
use computer_structures.Core.Switch
use computer_structures.Core.Switch.{Switched}

-- r1 := r1 + 5; r2 := Mem[r0 + 0x10]; halt
abbrev code : List Instruction
code =
    record {
      opcode = cmd_addi;
      dst_index = 1;
      src1_index = 1;
      src2_index_imm = 5;
      is_src2_imm = true;
    }
    ∷ record {
      opcode = cmd_load;
      dst_index = 2;
      src1_index = 0;
      src2_index_imm = 16;
      is_src2_imm = true;
    }
    ∷ record {
      opcode = cmd_halt;
      dst_index = 0;
      src1_index = 0;
      src2_index_imm = 0;
      is_src2_imm = false;
    }
    ∷ []

abbrev memory : Memory
memory = record {
  words = 10 ∷ 20 ∷ 30 ∷ [];
  data_start = 16;
  instructions = code ∷ code ∷ [];
  load_latency = 3;
  store_latency = 1;
  switch_cycles = 2;
  threadnumber = 2;
}

-- Everything that a simulation computes with.
simulation : Unit {0}
unfolding data_index sim_mem_data_read sim_mem_data_write sim_mem_inst_read core_init dispatch
    addend execute_inst find_thread blocked_round finegrained_choice finegrained_round run_rounds
    core_blocked_mt core_finegrained_mt
simulation = tt

abbrev clock : Option Sim → ℕ × ℕ
clock none = (0, 0)
clock (some s) = (s.core.cycle_count, s.core.inst_count)

blocked_clock : clock (core_blocked_mt 20 memory) ≡ (12, 6)
unfolding simulation
blocked_clock = refl

finegrained_clock : clock (core_finegrained_mt 20 memory) ≡ (8, 6)
unfolding simulation
finegrained_clock = refl

sim_mem_data_read-write_example :
    (m' : Memory) × (sim_mem_data_write memory (address memory 1) 7 ≡ some m')
    × (sim_mem_data_read m' (address memory 2) ≡ sim_mem_data_read memory (address memory 2))
sim_mem_data_read-write_example =
    RoundTrip.sim_mem_data_read-write memory 1 2 7 (omega arith) (omega arith) (omega arith)
      (omega arith)

core_blocked_mt-Ended_example : Ended blocked_round (core_blocked_mt 40 memory) (start memory)
core_blocked_mt-Ended_example =
    Blocked.core_blocked_mt-Ended memory 40 (omega arith) (omega arith) (omega arith) (omega arith)

core_finegrained_mt-Ended_example :
    Ended finegrained_round (core_finegrained_mt 70 memory) (start memory)
core_finegrained_mt-Ended_example =
    Turns.core_finegrained_mt-Ended memory 70 (omega arith) (omega arith) (omega arith)
      (omega arith)

finegrained_round-Served_example : Served 1 (start memory) 1 new_thread
unfolding core_init
finegrained_round-Served_example =
    Fair.finegrained_round-Served 6 1 (start memory) 1 new_thread
      (Start.start-IsSound memory (omega arith) (omega arith)) (omega arith) (omega arith) refl refl
      (omega arith) (omega arith)

abbrev waiting : Thread
waiting = record { rip = 2; return_cycle = 9; regs = [] }

abbrev ready : Thread
ready = record { rip = 0; return_cycle = 0; regs = [] }

abbrev state : Sim
state = record {
  core = record {
    num_of_threads = 2;
    cycle_count = 4;
    inst_count = 2;
    rr_index = 0;
    load_latency = 3;
    store_latency = 1;
    context_switch_overhead = 2;
    core_threads = waiting ∷ ready ∷ [];
  };
  memory = memory;
  idle_count = 1;
  halt_count = 0;
}

state-IsCore : IsCore state.core
state-IsCore = record { sized = refl; index = omega arith; few = omega arith }

blocked_round-Switched_example : Switched state
blocked_round-Switched_example =
    Switch.blocked_round-Switched state state-IsCore (waiting, refl, omega arith)

abbrev runner : Thread
runner = record { rip = 0; return_cycle = 0; regs = 3 ∷ 4 ∷ [] }

abbrev running : Sim
running = record state {
  core = record (state.core) { rr_index = 1; core_threads = waiting ∷ runner ∷ [] };
}

abbrev first_inst : Instruction
first_inst = record {
  opcode = cmd_addi;
  dst_index = 1;
  src1_index = 1;
  src2_index_imm = 5;
  is_src2_imm = true;
}

first_fetched : sim_mem_inst_read memory 0 1 ≡ some first_inst
unfolding simulation
first_fetched = refl

execute_inst-IsExecuted_example : IsExecuted running runner first_inst
execute_inst-IsExecuted_example =
    Execute.execute_inst-IsExecuted running runner first_inst
      (record { sized = refl; index = omega arith; few = omega arith }) first_fetched
      (omega arith, omega arith)
