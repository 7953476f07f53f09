-- ===== src/Predictor/Api.antt =====
-- HW1/bp.cpp: the statistics and the interface of HW1/bp_api.h; HW1/bp_main.c: the loop over a trace.
use computer_structures.Base.{
  ℕ, ◌+◌, ◌*◌, Bool, Option, none, some, List, [], ◌∷◌, if◌then◌else◌, u32, shl32, ◌>>=◌,
}
use computer_structures.Base.Int.{ℤ, pos, negsuc}
use computer_structures.Predictor.Fsm.{Raw}
use computer_structures.Predictor.Btb.{Btb, Config, btb, update, predict}

pub record SimStats : Type 0 where
  pub flush_num : ℕ
  pub br_num : ℕ
  pub size : ℕ

unfoldable pub update_stats : Btb → SimStats
update_stats b =
    let valid_bit_size = b.btb_size in
    let tag_bit_size = u32 (b.btb_size * b.tag_size) in
    let target_bit_size = u32 (30 * b.btb_size) in
    let history_bit_size =
      if b.is_global_hist then b.history_size else u32 (b.history_size * b.btb_size) in
    let table_size = shl32 2 b.history_size in
    let table_bit_size = if b.is_global_table then table_size else u32 (table_size * b.btb_size) in
    record {
      flush_num = u32 b.flush_counter;
      br_num = u32 b.update_counter;
      size =
          u32 (valid_bit_size + tag_bit_size + target_bit_size + history_bit_size + table_bit_size);
    }

-- `allocated` tells whether the memory for the buffer could be had: else `bad_alloc` is caught.
unfoldable pub bp_init : Bool → Raw → Config → ℤ × Option Btb
bp_init allocated raw c = if allocated then (pos 0, some (btb raw c)) else (negsuc 0, none)

-- `BP_BTB` is `none` before `BP_init` and after `BP_GetStats`, which deletes it.
unfoldable pub bp_predict : Option Btb → ℕ → Option (Bool × ℕ)
bp_predict bp_btb pc = bp_btb >>= λ b. predict b pc

unfoldable pub bp_update : Option Btb → ℕ → ℕ → Bool → ℕ → Option (Option Btb)
bp_update bp_btb pc target_pc taken pred_dst =
    bp_btb >>= λ b. update b pc target_pc taken pred_dst >>= λ b'. some (some b')

unfoldable pub bp_get_stats : Option Btb → Option (SimStats × Option Btb)
bp_get_stats bp_btb = bp_btb >>= λ b. some (update_stats b, none)

-- A line of the trace.
pub record Branch : Type 0 where
  pub pc : ℕ
  pub target_pc : ℕ
  pub taken : Bool

-- A line of the output, the address, the prediction and its destination, and the buffer that `update`
-- prints after it.
pub record Report : Type 0 where
  pub pc : ℕ
  pub predicted : Bool
  pub dst : ℕ
  pub dump : Btb

-- One round of the loop of `main`.
unfoldable pub simulate_branch : Btb → Branch → Option (Report × Btb)
simulate_branch b br = elim (predict b br.pc) [
  | none ↦ none
  | some (predicted, dst) ↦ elim (update b br.pc br.target_pc br.taken dst) [
    | none ↦ none
    | some b' ↦ some (record { pc = br.pc; predicted = predicted; dst = dst; dump = b' }, b')
  ]
]

unfoldable pub simulate : Btb → List Branch → Option (List Report × Btb)
simulate b [] = some ([], b)
simulate b (br ∷ trace) = elim (simulate_branch b br) [
  | none ↦ none
  | some (report, b') ↦ elim (simulate b' trace) [
    | none ↦ none
    | some (reports, b'') ↦ some (report ∷ reports, b'')
  ]
]
