-- ===== src/Predictor/Btb.antt =====
-- HW1/bp.cpp: the branch target buffer, its update in the execute stage and its prediction.
-- `entries[i]` is the object behind the pointer: the constructor allocates each entry once, and no
-- two pointers are shared. `none` is an access outside an array.
use computer_structures.Base.{
  ℕ, ◌+◌, Bool, true, false, not, ◌&&◌, ◌||◌, Option, none, some, List, if◌then◌else◌, ◌==◌, ◌!=◌,
  get_elem?, set, replicate, u32, shl32, shr, sub32, bit_and, bit_xor, log2,
}
use computer_structures.Base.Int.{ℤ, eqb_ℤ}
use computer_structures.Predictor.Fsm.{
  FsmTable, Bhr, Raw, wt, st, fsm_table, reset, table_update, get_state_by_index, bhr, bhr_update,
  set_history,
}

pub record BtbEntry : Type 0 where
  pub valid : Bool
  pub tag : ℕ
  pub target : ℕ
  pub local_bhr : Bhr
  pub local_table : FsmTable

unfoldable pub btb_entry : Raw → ℕ → ℕ → BtbEntry
btb_entry raw history_size fsm_state = record {
  valid = false;
  tag = raw.tag;
  target = raw.target;
  local_bhr = bhr raw history_size;
  local_table = fsm_table raw history_size fsm_state;
}

-- The two counters are ints, as their 32-bit patterns.
pub record Btb : Type 0 where
  pub btb_size : ℕ
  pub history_size : ℕ
  pub tag_size : ℕ
  pub entry_index_mask : ℕ
  pub global_bhr : Bhr
  pub global_table : FsmTable
  pub is_global_hist : Bool
  pub is_global_table : Bool
  pub entries : List BtbEntry
  pub shared : ℕ
  pub update_counter : ℕ
  pub flush_counter : ℕ

-- The configuration that `main` reads from the first line of the trace.
pub record Config : Type 0 where
  pub btb_size : ℕ
  pub history_size : ℕ
  pub tag_size : ℕ
  pub fsm_state : ℕ
  pub is_global_hist : Bool
  pub is_global_table : Bool
  pub shared : ℕ

unfoldable pub btb : Raw → Config → Btb
btb raw c = record {
  btb_size = c.btb_size;
  history_size = c.history_size;
  tag_size = c.tag_size;
  entry_index_mask = sub32 (shl32 1 (log2 c.btb_size)) 1;
  global_bhr = bhr raw c.history_size;
  global_table = fsm_table raw c.history_size c.fsm_state;
  is_global_hist = c.is_global_hist;
  is_global_table = c.is_global_table;
  entries = replicate c.btb_size (btb_entry raw c.history_size c.fsm_state);
  shared = c.shared;
  update_counter = 0;
  flush_counter = 0;
}

abbrev pub not_using_share : ℕ
not_using_share = 0

abbrev pub using_share_lsb : ℕ
using_share_lsb = 1

abbrev pub using_share_mid : ℕ
using_share_mid = 2

unfoldable pub get_shared_history : Btb → ℕ → ℕ → ℕ
get_shared_history b history pc =
    if b.shared == not_using_share
    then history
    else (let history_mask = sub32 (shl32 1 b.history_size) 1 in
        let masked_pc = if b.shared == using_share_lsb then shr pc 2 else shr pc 16 in
        bit_xor history (bit_and masked_pc history_mask))

unfoldable pub get_tag : Btb → ℕ → ℕ
get_tag b address = bit_and (shr address (2 + log2 b.btb_size)) (sub32 (shl32 1 b.tag_size) 1)

unfoldable pub get_entry_by_index : Btb → ℕ → ℕ
get_entry_by_index b address = bit_and (shr address 2) b.entry_index_mask

-- The condition under which `update` counts a flush.
unfoldable pub is_flush : ℕ → ℕ → Bool → ℕ → Bool
is_flush pc target_pc taken pred_dst =
    taken && target_pc != pred_dst || not taken && pred_dst != u32 (pc + 4)

-- The entry as `update` leaves it before the tables are trained.
unfoldable pub claim_entry : BtbEntry → ℕ → ℕ → BtbEntry
claim_entry entry current_tag target_pc =
    let replaced =
      if not entry.valid || entry.tag != current_tag
      then record entry {
        tag = current_tag;
        target = target_pc;
        local_bhr = set_history entry.local_bhr 0;
        local_table = reset false entry.local_table;
      }
      else entry in
    record replaced { valid = true; target = target_pc }

-- The second half of `update`, on the claimed entry at its place in the array.
unfoldable pub train : Btb → ℕ → BtbEntry → ℕ → Bool → Option Btb
train b index entry pc taken =
    let hist_for_update = if b.is_global_hist then b.global_bhr else entry.local_bhr in
    let masked_history = get_shared_history b hist_for_update.history_record pc in
    elim (table_update b.global_table masked_history taken) [
      | none ↦ none
      | some global_table ↦
          elim (table_update entry.local_table hist_for_update.history_record taken) [
            | none ↦ none
            | some local_table ↦ some (record b {
              global_table = global_table;
              global_bhr = bhr_update b.global_bhr taken;
              entries = set b.entries index (record entry {
                local_table = local_table;
                local_bhr = bhr_update entry.local_bhr taken;
              });
            })
          ]
    ]

-- `update`, which at its end prints the buffer that it leaves: see `Report`.
unfoldable pub update : Btb → ℕ → ℕ → Bool → ℕ → Option Btb
update b pc target_pc taken pred_dst =
    let counted = record b {
      update_counter = u32 (b.update_counter + 1);
      flush_counter =
          if is_flush pc target_pc taken pred_dst
          then u32 (b.flush_counter + 1)
          else b.flush_counter;
    } in
    elim (get_elem? b.entries (get_entry_by_index b pc)) [
      | none ↦ none
      | some entry ↦
          train counted (get_entry_by_index b pc) (claim_entry entry (get_tag b pc) target_pc) pc
            taken
    ]

abbrev pub is_taken_state : ℤ → Bool
is_taken_state s = eqb_ℤ s wt || eqb_ℤ s st

-- The decision of `predict` on the entry that its index selects.
unfoldable pub predict_entry : Btb → BtbEntry → ℕ → Option (Bool × ℕ)
predict_entry b entry pc =
    if entry.valid && get_tag b pc == entry.tag
    then (let history =
          if b.is_global_hist
          then b.global_bhr.history_record
          else entry.local_bhr.history_record in
        let fsm_table = if b.is_global_table then b.global_table else entry.local_table in
        let history_index =
          if b.is_global_table then get_shared_history b history pc else history in
        elim (get_state_by_index fsm_table history_index) [
          | none ↦ none
          | some bi_state ↦
              some (if is_taken_state bi_state then (true, entry.target) else (false, u32 (pc + 4)))
        ])
    else some (false, u32 (pc + 4))

-- The prediction with the destination that is written through `dst`.
unfoldable pub predict : Btb → ℕ → Option (Bool × ℕ)
predict b pc = elim (get_elem? b.entries (get_entry_by_index b pc)) [
  | none ↦ none
  | some entry ↦ predict_entry b entry pc
]
