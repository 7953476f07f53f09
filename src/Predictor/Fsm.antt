-- ===== src/Predictor/Fsm.antt =====
-- HW1/bp.cpp: the bimodal machines, the tables of them and the branch history register.
-- `Raw` holds the indeterminate values that the objects have before they are first written.
use computer_structures.Base.{
  ℕ, ◌+◌, Bool, true, Option, none, some, List, [], ◌∷◌, if◌then◌else◌, get_elem?, set, replicate,
  u32, shl32, sub32, bit_and,
}
use computer_structures.Base.Int.{ℤ, pos, negsuc, ◌+ℤ◌, leb_ℤ, signed32}

abbrev pub bimodal_min : ℤ
bimodal_min = negsuc 0

abbrev pub snt : ℤ
snt = pos 0

abbrev pub wnt : ℤ
wnt = pos 1

abbrev pub wt : ℤ
wt = pos 2

abbrev pub st : ℤ
st = pos 3

abbrev pub bimodal_max : ℤ
bimodal_max = pos 4

-- `BimodalFSM_p`; the state is the int under the enumeration.
pub record BimodalFsm : Type 0 where
  pub state : ℤ

abbrev pub bimodal_fsm : ℕ → BimodalFsm
bimodal_fsm fsm_state = record { state = signed32 fsm_state }

unfoldable pub fsm_update : BimodalFsm → Bool → BimodalFsm
fsm_update m taken =
    let moved = m.state +ℤ (if taken then pos 1 else negsuc 0) in
    let below_max = if leb_ℤ bimodal_max moved then st else moved in
    record { state = if leb_ℤ below_max bimodal_min then snt else below_max }

abbrev pub set_state : BimodalFsm → ℕ → BimodalFsm
set_state m state = record m { state = signed32 state }

-- The values of members that no constructor sets.
pub record Raw : Type 0 where
  pub machine : BimodalFsm
  pub history : ℕ
  pub tag : ℕ
  pub target : ℕ

pub record FsmTable : Type 0 where
  pub default_state : ℕ
  pub num_of_fsm : ℕ
  pub fsm : List BimodalFsm

unfoldable pub reset_loop : Bool → ℕ → List BimodalFsm → List BimodalFsm
reset_loop allocate default_state [] = []
reset_loop allocate default_state (m ∷ fsm) =
    set_state (if allocate then bimodal_fsm default_state else m) default_state
    ∷ reset_loop allocate default_state fsm

unfoldable pub reset : Bool → FsmTable → FsmTable
unfolding reset_loop
reset allocate t = record t { fsm = reset_loop allocate t.default_state t.fsm }

unfoldable pub fsm_table : Raw → ℕ → ℕ → FsmTable
unfolding reset
fsm_table raw history_size fsm_state =
    let num_of_fsm = shl32 1 history_size in
    reset true (record {
      default_state = fsm_state;
      num_of_fsm = num_of_fsm;
      fsm = replicate num_of_fsm raw.machine;
    })

-- `none` is an index outside the array.
unfoldable pub table_update : FsmTable → ℕ → Bool → Option FsmTable
unfolding fsm_update
table_update t index taken = elim (get_elem? t.fsm index) [
  | none ↦ none
  | some m ↦ some (record t { fsm = set t.fsm index (fsm_update m taken) })
]

unfoldable pub get_state_by_index : FsmTable → ℕ → Option ℤ
get_state_by_index t index = elim (get_elem? t.fsm index) [ none ↦ none | some m ↦ some m.state ]

pub record Bhr : Type 0 where
  pub history_size : ℕ
  pub history_record : ℕ
  pub history_mask : ℕ

-- The constructor does not set `history_record`.
unfoldable pub bhr : Raw → ℕ → Bhr
bhr raw history_size = record {
  history_size = history_size;
  history_record = raw.history;
  history_mask = sub32 (shl32 1 history_size) 1;
}

unfoldable pub bhr_update : Bhr → Bool → Bhr
bhr_update b taken =
    let shifted = shl32 b.history_record 1 in
    let added = u32 (shifted + (if taken then 1 else 0)) in
    record b { history_record = bit_and added b.history_mask }

abbrev pub set_history : Bhr → ℕ → Bhr
set_history b history = record b { history_record = history }
