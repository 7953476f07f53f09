-- ===== src/Core/Dispatch.antt =====
-- HW4/core_api.cpp: what the cases of `EXECUTE_inst` do to their thread and to the count of halts.
use computer_structures.Base.{
  ℕ, ◌+◌, ◌<◌, ◌≡◌, ◌≢◌, refl, sym, ap, ◌∙◌, some, List, length, get_elem?, get_elem?_lem, set,
  length-set, get_elem?-set_ne, write, write-set, u32, sub32, bind-some,
}
use computer_structures.Core.Memory.{
  Memory, Instruction, CmdOpcode, cmd_nop, cmd_add, cmd_sub, cmd_addi, cmd_subi, cmd_load,
  cmd_store, cmd_halt, sim_mem_data_read, sim_mem_data_write,
}
use computer_structures.Core.Machine.{Thread, Core, Effect, never, put_reg, addend, dispatch}

-- The accesses of a command to the registers and to the memory are in range.
abbrev pub Operable : CmdOpcode → Instruction → Memory → Thread → Type 0
Operable cmd_nop inst m t = Unit
Operable cmd_add inst m t =
    (inst.dst_index < length t.regs)
    × (inst.src1_index < length t.regs)
    × (inst.src2_index_imm < length t.regs)
Operable cmd_sub inst m t =
    (inst.dst_index < length t.regs)
    × (inst.src1_index < length t.regs)
    × (inst.src2_index_imm < length t.regs)
Operable cmd_addi inst m t = (inst.dst_index < length t.regs) × (inst.src1_index < length t.regs)
Operable cmd_subi inst m t = (inst.dst_index < length t.regs) × (inst.src1_index < length t.regs)
Operable cmd_load inst m t =
    (offset : ℕ) × (base : ℕ) × (value : ℕ) × (addend t inst ≡ some offset)
    × (get_elem? t.regs inst.src1_index ≡ some base)
    × (sim_mem_data_read m (u32 (base + offset)) ≡ some value)
    × (inst.dst_index < length t.regs)
Operable cmd_store inst m t =
    (offset : ℕ) × (base : ℕ) × (value : ℕ) × (m' : Memory) × (addend t inst ≡ some offset)
    × (get_elem? t.regs inst.dst_index ≡ some base)
    × (get_elem? t.regs inst.src1_index ≡ some value)
    × (sim_mem_data_write m (u32 (base + offset)) value ≡ some m')
Operable cmd_halt inst m t = Unit

-- The cycle from which the thread can run again.
abbrev pub ready_at : CmdOpcode → Core → ℕ → ℕ
ready_at cmd_load core before = u32 (core.cycle_count + 1 + core.load_latency)
ready_at cmd_store core before = u32 (core.cycle_count + 1 + core.store_latency)
ready_at cmd_halt core before = never
ready_at _ core before = before

abbrev pub halts_after : CmdOpcode → ℕ → ℕ
halts_after cmd_halt n = u32 (n + 1)
halts_after _ n = n

pub record IsEffect (inst : Instruction) (op : CmdOpcode) (core : Core) (t : Thread) (n : ℕ)
    (e : Effect) : Type 0 where
  pub rip : e.thread.rip ≡ t.rip
  pub sized : length e.thread.regs ≡ length t.regs
  pub ready : e.thread.return_cycle ≡ ready_at op core t.return_cycle
  pub halts : e.halt_count ≡ halts_after op n
  pub kept : (j : ℕ) → j ≢ inst.dst_index → get_elem? e.thread.regs j ≡ get_elem? t.regs j

put_reg_lem :
    (t : Thread) (index value : ℕ)
    → index < length t.regs
    → put_reg t index value ≡ some (record t { regs = set t.regs index value })
put_reg_lem t index value h =
    bind-some (write t.regs index value) _ (write-set t.regs index value h) refl

abbrev pub Dispatched : CmdOpcode → Instruction → Core → Memory → Thread → ℕ → Type 0
Dispatched op inst core m t n =
    (e : Effect) × (dispatch op inst core m t n ≡ some e) × IsEffect inst op core t n e

pub set_kept :
    {A : Type 0} (regs : List A) (i : ℕ) (v : A) (j : ℕ)
    → j ≢ i
    → get_elem? (set regs i v) j ≡ get_elem? regs j
set_kept regs i v j ne = get_elem?-set_ne regs i j v (λ e. ne (sym e))

-- The effect of a command that writes one register.
written-IsEffect :
    (inst : Instruction) (op : CmdOpcode) (core : Core) (t : Thread) (n : ℕ) (e : Effect) (v : ℕ)
    → e.thread.rip ≡ t.rip
    → e.thread.regs ≡ set t.regs inst.dst_index v
    → e.thread.return_cycle ≡ ready_at op core t.return_cycle
    → e.halt_count ≡ halts_after op n
    → IsEffect inst op core t n e
written-IsEffect inst op core t n e v rip regs ready halts = record {
  rip = rip;
  sized = ap (λ (r : List ℕ). length r) regs ∙ length-set t.regs inst.dst_index v;
  ready = ready;
  halts = halts;
  kept = λ j ne. ap (λ (r : List ℕ). get_elem? r j) regs ∙ set_kept t.regs inst.dst_index v j ne;
}

Dispatched-nop :
    (inst : Instruction) (core : Core) (m : Memory) (t : Thread) (n : ℕ)
    → Operable cmd_nop inst m t
    → Dispatched cmd_nop inst core m t n
unfolding dispatch
Dispatched-nop inst core m t n ok =
    (_, refl, record { rip = refl; sized = refl; ready = refl; halts = refl; kept = λ j ne. refl })

Dispatched-halt :
    (inst : Instruction) (core : Core) (m : Memory) (t : Thread) (n : ℕ)
    → Operable cmd_halt inst m t
    → Dispatched cmd_halt inst core m t n
unfolding dispatch
Dispatched-halt inst core m t n ok =
    (_, refl, record { rip = refl; sized = refl; ready = refl; halts = refl; kept = λ j ne. refl })

Dispatched-add :
    (inst : Instruction) (core : Core) (m : Memory) (t : Thread) (n : ℕ)
    → Operable cmd_add inst m t
    → Dispatched cmd_add inst core m t n
unfolding dispatch
Dispatched-add inst core m t n (d, s1, s2) =
    let (a, ea) = get_elem?_lem t.regs inst.src1_index s1 in
    let (b, eb) = get_elem?_lem t.regs inst.src2_index_imm s2 in
    (
      _,
      bind-some (get_elem? t.regs inst.src1_index) _ ea (
          bind-some (get_elem? t.regs inst.src2_index_imm) _ eb (
            bind-some (put_reg t inst.dst_index (u32 (a + b))) _
              (put_reg_lem t inst.dst_index (u32 (a + b)) d) refl)),
      written-IsEffect inst cmd_add core t n _ (u32 (a + b)) refl refl refl refl,
    )

Dispatched-sub :
    (inst : Instruction) (core : Core) (m : Memory) (t : Thread) (n : ℕ)
    → Operable cmd_sub inst m t
    → Dispatched cmd_sub inst core m t n
unfolding dispatch
Dispatched-sub inst core m t n (d, s1, s2) =
    let (a, ea) = get_elem?_lem t.regs inst.src1_index s1 in
    let (b, eb) = get_elem?_lem t.regs inst.src2_index_imm s2 in
    (
      _,
      bind-some (get_elem? t.regs inst.src1_index) _ ea (
          bind-some (get_elem? t.regs inst.src2_index_imm) _ eb (
            bind-some (put_reg t inst.dst_index (sub32 a b)) _
              (put_reg_lem t inst.dst_index (sub32 a b) d) refl)),
      written-IsEffect inst cmd_sub core t n _ (sub32 a b) refl refl refl refl,
    )

Dispatched-addi :
    (inst : Instruction) (core : Core) (m : Memory) (t : Thread) (n : ℕ)
    → Operable cmd_addi inst m t
    → Dispatched cmd_addi inst core m t n
unfolding dispatch
Dispatched-addi inst core m t n (d, s1) =
    let (a, ea) = get_elem?_lem t.regs inst.src1_index s1 in
    let v = u32 (a + inst.src2_index_imm) in
    (
      _,
      bind-some (get_elem? t.regs inst.src1_index) _ ea
          (bind-some (put_reg t inst.dst_index v) _ (put_reg_lem t inst.dst_index v d) refl),
      written-IsEffect inst cmd_addi core t n _ v refl refl refl refl,
    )

Dispatched-subi :
    (inst : Instruction) (core : Core) (m : Memory) (t : Thread) (n : ℕ)
    → Operable cmd_subi inst m t
    → Dispatched cmd_subi inst core m t n
unfolding dispatch
Dispatched-subi inst core m t n (d, s1) =
    let (a, ea) = get_elem?_lem t.regs inst.src1_index s1 in
    let v = sub32 a inst.src2_index_imm in
    (
      _,
      bind-some (get_elem? t.regs inst.src1_index) _ ea
          (bind-some (put_reg t inst.dst_index v) _ (put_reg_lem t inst.dst_index v d) refl),
      written-IsEffect inst cmd_subi core t n _ v refl refl refl refl,
    )

Dispatched-load :
    (inst : Instruction) (core : Core) (m : Memory) (t : Thread) (n : ℕ)
    → Operable cmd_load inst m t
    → Dispatched cmd_load inst core m t n
unfolding dispatch
Dispatched-load inst core m t n (offset, base, value, eo, eb, er, d) = (
  _,
  bind-some (addend t inst) _ eo (
      bind-some (get_elem? t.regs inst.src1_index) _ eb (
        bind-some (sim_mem_data_read m (u32 (base + offset))) _ er (
          bind-some (put_reg t inst.dst_index value) _ (put_reg_lem t inst.dst_index value d)
            refl))),
  written-IsEffect inst cmd_load core t n _ value refl refl refl refl,
)

Dispatched-store :
    (inst : Instruction) (core : Core) (m : Memory) (t : Thread) (n : ℕ)
    → Operable cmd_store inst m t
    → Dispatched cmd_store inst core m t n
unfolding dispatch
Dispatched-store inst core m t n (offset, base, value, m', eo, eb, ev, ew) = (
  _,
  bind-some (addend t inst) _ eo (
      bind-some (get_elem? t.regs inst.dst_index) _ eb (
        bind-some (get_elem? t.regs inst.src1_index) _ ev
          (bind-some (sim_mem_data_write m (u32 (base + offset)) value) _ ew refl))),
  record { rip = refl; sized = refl; ready = refl; halts = refl; kept = λ j ne. refl },
)

pub dispatch-Dispatched :
    (op : CmdOpcode) (inst : Instruction) (core : Core) (m : Memory) (t : Thread) (n : ℕ)
    → Operable op inst m t
    → Dispatched op inst core m t n
dispatch-Dispatched cmd_nop inst core m t n ok = Dispatched-nop inst core m t n ok
dispatch-Dispatched cmd_halt inst core m t n ok = Dispatched-halt inst core m t n ok
dispatch-Dispatched cmd_add inst core m t n ok = Dispatched-add inst core m t n ok
dispatch-Dispatched cmd_sub inst core m t n ok = Dispatched-sub inst core m t n ok
dispatch-Dispatched cmd_addi inst core m t n ok = Dispatched-addi inst core m t n ok
dispatch-Dispatched cmd_subi inst core m t n ok = Dispatched-subi inst core m t n ok
dispatch-Dispatched cmd_load inst core m t n ok = Dispatched-load inst core m t n ok
dispatch-Dispatched cmd_store inst core m t n ok = Dispatched-store inst core m t n ok
