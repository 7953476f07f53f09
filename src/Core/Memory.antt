-- ===== src/Core/Memory.antt =====
-- HW4/sim_api.c: the data memory, the instruction memory and the parameters of the simulator, after the
-- image is loaded. An int is its 32-bit pattern. `none` is an access outside an array.
use computer_structures.Base.{
  ℕ, ◌-◌, ◌/◌, ◌^◌, Bool, Option, none, some, List, if◌then◌else◌, ltb, get_elem?, write, sub32,
  ◌>>=◌,
}

pub data CmdOpcode : Type 0 where
  cmd_nop cmd_add cmd_sub cmd_addi cmd_subi cmd_load cmd_store cmd_halt : CmdOpcode

pub record Instruction : Type 0 where
  pub opcode : CmdOpcode
  pub dst_index : ℕ
  pub src1_index : ℕ
  pub src2_index_imm : ℕ
  pub is_src2_imm : Bool

pub record Memory : Type 0 where
  pub words : List ℕ
  pub data_start : ℕ
  pub instructions : List (List Instruction)
  pub load_latency : ℕ
  pub store_latency : ℕ
  pub switch_cycles : ℕ
  pub threadnumber : ℕ

-- `(int) (addr - data_start) / 4` as an index: the division goes towards 0, and a negative index lies
-- outside the array.
unfoldable pub data_index : Memory → ℕ → Option ℕ
data_index m addr =
    let addr_i = sub32 addr m.data_start in
    if ltb addr_i (2 ^ 31)
    then some (addr_i / 4)
    else if ltb (2 ^ 32 - addr_i) 4
    then some 0
    else none

unfoldable pub sim_mem_data_read : Memory → ℕ → Option ℕ
sim_mem_data_read m addr = data_index m addr >>= λ i. get_elem? m.words i

unfoldable pub sim_mem_data_write : Memory → ℕ → ℕ → Option Memory
sim_mem_data_write m addr val =
    data_index m addr >>= λ i. write m.words i val >>= λ words. some (record m { words = words })

unfoldable pub sim_mem_inst_read : Memory → ℕ → ℕ → Option Instruction
sim_mem_inst_read m line tid = get_elem? m.instructions tid >>= λ program. get_elem? program line
