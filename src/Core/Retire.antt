-- ===== src/Core/Retire.antt =====
-- HW4/core_api.cpp: what is true of every execution of an instruction that returns.
use computer_structures.Base.{
  ℕ, ◌+◌, ◌<◌, ◌≡◌, refl, sym, ◌∙◌, some, List, length, get_elem?, set, write, write-set, u32,
  sub32, Meets, meets, Meets-bind, Meets-some, ◌>>=◌,
}
use computer_structures.Core.Memory.{
  Memory, Instruction, CmdOpcode, cmd_nop, cmd_add, cmd_sub, cmd_addi, cmd_subi, cmd_load,
  cmd_store, cmd_halt, data_index, sim_mem_data_read, sim_mem_data_write, sim_mem_inst_read,
}
use computer_structures.Core.Machine.{
  Thread, Core, Sim, Effect, put_reg, addend, dispatch, execute_inst,
}
use computer_structures.Core.Dispatch.{ready_at, halts_after}

record IsTransition (op : CmdOpcode) (core : Core) (m : Memory) (t : Thread) (n : ℕ) (e : Effect)
    : Type 0 where
  rip : e.thread.rip ≡ t.rip
  ready : e.thread.return_cycle ≡ ready_at op core t.return_cycle
  halts : e.halt_count ≡ halts_after op n
  programs : e.memory.instructions ≡ m.instructions

abbrev IsPut : Thread → Thread → Type 0
IsPut t t' = (t'.rip ≡ t.rip) × (t'.return_cycle ≡ t.return_cycle)

put_reg-Meets : (t : Thread) (index value : ℕ) → Meets (IsPut t) (put_reg t index value)
put_reg-Meets t index value = Meets-bind (write t.regs index value) _ (λ regs _. meets (refl, refl))

sim_mem_data_write-Meets :
    (m : Memory) (addr val : ℕ)
    → Meets (λ m'. m'.instructions ≡ m.instructions) (sim_mem_data_write m addr val)
unfolding sim_mem_data_write
sim_mem_data_write-Meets m addr val =
    Meets-bind (data_index m addr) _
      (λ i _. Meets-bind (write m.words i val) _ (λ words _. meets refl))

module _ (inst : Instruction) (core : Core) (m : Memory) (t : Thread) (n : ℕ) where
  -- A command of arithmetic ends with the write of its register.
  put-Meets :
      (op : CmdOpcode) (value : ℕ)
      → ready_at op core t.return_cycle ≡ t.return_cycle
      → halts_after op n ≡ n
      → Meets (IsTransition op core m t n) (
          put_reg t inst.dst_index value >>= λ t'.
          some (record { thread = t'; memory = m; idle_count = 0; halt_count = n }))
  put-Meets op value ready halts = Meets-bind (put_reg t inst.dst_index value) _ (λ t' e.
      let (rip, cycle) = Meets-some (put_reg-Meets t inst.dst_index value) e in
      meets (record { rip = rip; ready = cycle ∙ sym ready; halts = sym halts; programs = refl }))

  dispatch-Meets :
      (op : CmdOpcode) → Meets (IsTransition op core m t n) (dispatch op inst core m t n)
  unfolding dispatch
  dispatch-Meets cmd_nop =
      meets (record { rip = refl; ready = refl; halts = refl; programs = refl })
  dispatch-Meets cmd_halt =
      meets (record { rip = refl; ready = refl; halts = refl; programs = refl })
  dispatch-Meets cmd_add = Meets-bind (get_elem? t.regs inst.src1_index) _ (λ a _.
      Meets-bind (get_elem? t.regs inst.src2_index_imm) _
        (λ b _. put-Meets cmd_add (u32 (a + b)) refl refl))
  dispatch-Meets cmd_sub = Meets-bind (get_elem? t.regs inst.src1_index) _ (λ a _.
      Meets-bind (get_elem? t.regs inst.src2_index_imm) _
        (λ b _. put-Meets cmd_sub (sub32 a b) refl refl))
  dispatch-Meets cmd_addi =
      Meets-bind (get_elem? t.regs inst.src1_index) _
        (λ a _. put-Meets cmd_addi (u32 (a + inst.src2_index_imm)) refl refl)
  dispatch-Meets cmd_subi =
      Meets-bind (get_elem? t.regs inst.src1_index) _
        (λ a _. put-Meets cmd_subi (sub32 a inst.src2_index_imm) refl refl)
  dispatch-Meets cmd_load = Meets-bind (addend t inst) _ (λ offset _.
      Meets-bind (get_elem? t.regs inst.src1_index) _ (λ base _.
        Meets-bind (sim_mem_data_read m (u32 (base + offset))) _ (λ value _.
          Meets-bind (put_reg t inst.dst_index value) _ (λ t' e. meets (record {
            rip = (Meets-some (put_reg-Meets t inst.dst_index value) e).0;
            ready = refl;
            halts = refl;
            programs = refl;
          })))))
  dispatch-Meets cmd_store = Meets-bind (addend t inst) _ (λ offset _.
      Meets-bind (get_elem? t.regs inst.dst_index) _ (λ base _.
        Meets-bind (get_elem? t.regs inst.src1_index) _ (λ value _.
          Meets-bind (sim_mem_data_write m (u32 (base + offset)) value) _ (λ m' e. meets (record {
            rip = refl;
            ready = refl;
            halts = refl;
            programs = Meets-some (sim_mem_data_write-Meets m (u32 (base + offset)) value) e;
          })))))

-- The core after an execution that left its thread as `t'`.
abbrev pub retired : Core → Thread → Core
retired core t' = record core {
  core_threads = set core.core_threads core.rr_index t';
  cycle_count = u32 (core.cycle_count + 1);
  inst_count = u32 (core.inst_count + 1);
}

pub record IsRetired (s : Sim) (t : Thread) (s' : Sim) : Type 0 where
  pub inst : Instruction
  pub moved : Thread
  pub fetched : sim_mem_inst_read s.memory t.rip s.core.rr_index ≡ some inst
  pub core : s'.core ≡ retired s.core moved
  pub rip : moved.rip ≡ u32 (t.rip + 1)
  pub ready : moved.return_cycle ≡ ready_at inst.opcode s.core t.return_cycle
  pub halts : s'.halt_count ≡ halts_after inst.opcode s.halt_count
  pub programs : s'.memory.instructions ≡ s.memory.instructions

write-eq :
    {A : Type 0} (xs ys : List A) (i : ℕ) (v : A)
    → i < length xs
    → write xs i v ≡ some ys
    → ys ≡ set xs i v
write-eq xs ys i v h e = let known = write-set xs i v h in cc

execute_inst-Meets :
    (s : Sim) (t : Thread)
    → s.core.rr_index < length s.core.core_threads
    → Meets (IsRetired s t) (execute_inst s t)
unfolding execute_inst
execute_inst-Meets s t h =
    let stepped = record t { rip = u32 (t.rip + 1) } in
    Meets-bind (sim_mem_inst_read s.memory t.rip s.core.rr_index) _ (λ inst fetched.
      Meets-bind (dispatch inst.opcode inst s.core s.memory stepped s.halt_count) _ (λ e done.
        let r =
          Meets-some (dispatch-Meets inst s.core s.memory stepped s.halt_count inst.opcode) done in
        Meets-bind (write s.core.core_threads s.core.rr_index e.thread) _ (λ threads w.
          meets (record {
            inst = inst;
            moved = e.thread;
            fetched = fetched;
            core = rw (write-eq s.core.core_threads threads s.core.rr_index e.thread h w) refl;
            rip = r.rip;
            ready = r.ready;
            halts = r.halts;
            programs = r.programs;
          }))))

pub execute_inst-IsRetired :
    (s s' : Sim) (t : Thread)
    → s.core.rr_index < length s.core.core_threads
    → execute_inst s t ≡ some s'
    → IsRetired s t s'
execute_inst-IsRetired s s' t h e = Meets-some (execute_inst-Meets s t h) e
