-- ===== src/Core/Execute.antt =====
-- HW4/core_api.cpp: what the execution of an instruction does to the threads and to the counters.
use computer_structures.Base.{
  ℕ, ◌+◌, ◌<◌, ◌≡◌, ◌≢◌, refl, ◌∙◌, some, length, get_elem?, set, length-set, get_elem?-set_self,
  write, write-set, u32, bind-some,
}
use computer_structures.Core.Memory.{
  Memory, Instruction, CmdOpcode, cmd_nop, cmd_add, cmd_sub, cmd_addi, cmd_subi, cmd_load,
  cmd_store, cmd_halt, sim_mem_inst_read,
}
use computer_structures.Core.Machine.{Thread, Sim, Effect, addend, dispatch, execute_inst}
use computer_structures.Core.Search.{IsCore}
use computer_structures.Core.Dispatch.{
  Operable, ready_at, halts_after, set_kept, dispatch-Dispatched,
}

-- The simulation after the instruction `inst` of thread `t` at the index of the core.
pub record IsExecuted (s : Sim) (t : Thread) (inst : Instruction) : Type 0 where
  pub after : Sim
  pub moved : Thread
  pub returns : execute_inst s t ≡ some after
  pub core : IsCore after.core
  pub cycles : after.core.cycle_count ≡ u32 (s.core.cycle_count + 1)
  pub insts : after.core.inst_count ≡ u32 (s.core.inst_count + 1)
  pub index : after.core.rr_index ≡ s.core.rr_index
  pub halts : after.halt_count ≡ halts_after inst.opcode s.halt_count
  pub others :
      (j : ℕ)
      → j ≢ s.core.rr_index
      → get_elem? after.core.core_threads j ≡ get_elem? s.core.core_threads j
  pub own : get_elem? after.core.core_threads s.core.rr_index ≡ some moved
  pub rip : moved.rip ≡ u32 (t.rip + 1)
  pub sized : length moved.regs ≡ length t.regs
  pub ready : moved.return_cycle ≡ ready_at inst.opcode s.core t.return_cycle
  pub kept : (j : ℕ) → j ≢ inst.dst_index → get_elem? moved.regs j ≡ get_elem? t.regs j

abbrev stepped : Thread → Thread
stepped t = record t { rip = u32 (t.rip + 1) }

abbrev executed : Sim → Effect → Sim
executed s e = record {
  core = record (s.core) {
    core_threads = set s.core.core_threads s.core.rr_index e.thread;
    cycle_count = u32 (s.core.cycle_count + 1);
    inst_count = u32 (s.core.inst_count + 1);
  };
  memory = e.memory;
  idle_count = e.idle_count;
  halt_count = e.halt_count;
}

execute_inst-chain :
    (s : Sim) (t : Thread) (inst : Instruction) (e : Effect)
    → sim_mem_inst_read s.memory t.rip s.core.rr_index ≡ some inst
    → dispatch inst.opcode inst s.core s.memory (stepped t) s.halt_count ≡ some e
    → s.core.rr_index < length s.core.core_threads
    → execute_inst s t ≡ some (executed s e)
unfolding execute_inst
execute_inst-chain s t inst e fetched done h =
    bind-some (sim_mem_inst_read s.memory t.rip s.core.rr_index) _ fetched (
      bind-some (dispatch inst.opcode inst s.core s.memory (stepped t) s.halt_count) _ done (
        bind-some (write s.core.core_threads s.core.rr_index e.thread) _
          (write-set s.core.core_threads s.core.rr_index e.thread h) refl))

addend-stepped : (t : Thread) (inst : Instruction) → addend (stepped t) inst ≡ addend t inst
unfolding addend
addend-stepped t inst = refl

-- The line of the next instruction makes no difference to the accesses of this one.
Operable-stepped :
    (op : CmdOpcode) (inst : Instruction) (m : Memory) (t : Thread)
    → Operable op inst m t
    → Operable op inst m (stepped t)
Operable-stepped cmd_nop inst m t ok = ok
Operable-stepped cmd_add inst m t ok = ok
Operable-stepped cmd_sub inst m t ok = ok
Operable-stepped cmd_addi inst m t ok = ok
Operable-stepped cmd_subi inst m t ok = ok
Operable-stepped cmd_load inst m t (offset, base, value, eo, eb, er, d) =
    (offset, base, value, addend-stepped t inst ∙ eo, eb, er, d)
Operable-stepped cmd_store inst m t (offset, base, value, m', eo, eb, ev, ew) =
    (offset, base, value, m', addend-stepped t inst ∙ eo, eb, ev, ew)
Operable-stepped cmd_halt inst m t ok = ok

-- If the index is that of one of the threads, the thread's next instruction is there, and the
-- accesses of its command are in range, its execution returns: cycles and instructions are counted,
-- cut to 32 bits, the halted threads too on HALT alone, the index and the other threads stay, and
-- the thread moves to its next line, keeps all registers but the destination, and waits for the
-- latency after LOAD and STORE and for ever after HALT.
pub execute_inst-IsExecuted :
    (s : Sim) (t : Thread) (inst : Instruction)
    → IsCore s.core
    → sim_mem_inst_read s.memory t.rip s.core.rr_index ≡ some inst
    → Operable inst.opcode inst s.memory t
    → IsExecuted s t inst
execute_inst-IsExecuted s t inst c fetched ok =
    let (e, done, effect) =
      dispatch-Dispatched inst.opcode inst s.core s.memory (stepped t) s.halt_count
        (Operable-stepped inst.opcode inst s.memory t ok) in
    let range : s.core.rr_index < length s.core.core_threads = rw c.sized c.index in
    record {
      after = executed s e;
      moved = e.thread;
      returns = execute_inst-chain s t inst e fetched done range;
      core = record {
        sized = length-set s.core.core_threads s.core.rr_index e.thread ∙ c.sized;
        index = c.index;
        few = c.few;
      };
      cycles = refl;
      insts = refl;
      index = refl;
      halts = effect.halts;
      others = λ j ne. set_kept s.core.core_threads s.core.rr_index e.thread j ne;
      own = get_elem?-set_self s.core.core_threads s.core.rr_index e.thread range;
      rip = effect.rip;
      sized = effect.sized;
      ready = effect.ready;
      kept = effect.kept;
    }
