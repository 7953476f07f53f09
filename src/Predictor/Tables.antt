-- ===== src/Predictor/Tables.antt =====
-- HW1/bp.cpp: what keeps a table of machines well formed, and what an update does to its places.
use computer_structures.Base.{
  ℕ, zero, suc, ◌^◌, ◌≤◌, ◌<◌, ◌≡◌, ◌≢◌, refl, ap, ◌∙◌, arith, Bool, true, some, List, [], ◌∷◌, inl,
  inr, length, get_elem?, set, length-set, length-replicate, get_elem?-set_self, get_elem?-set_ne,
  get_elem?_lem, lt_of_get_elem?, eq_cases, shl32, pow-lt,
}
use computer_structures.Predictor.Fsm.{
  BimodalFsm, Raw, FsmTable, bimodal_fsm, fsm_update, reset_loop, reset, fsm_table, table_update,
  get_state_by_index,
}
use computer_structures.Predictor.Counters.{IsState, fsm_update-IsState}

-- A table over `k` bits of history, in which every machine is in one of its four states.
pub record IsTable (k : ℕ) (t : FsmTable) : Type 0 where
  pub sized : length t.fsm ≡ 2 ^ k
  pub fresh : t.default_state ≤ 3
  pub states : (i : ℕ) (m : BimodalFsm) → get_elem? t.fsm i ≡ some m → IsState m

length-reset_loop :
    (allocate : Bool) (d : ℕ) (fsm : List BimodalFsm)
    → length (reset_loop allocate d fsm) ≡ length fsm
unfolding reset_loop
length-reset_loop allocate d [] = refl
length-reset_loop allocate d (m ∷ fsm) = ap suc (length-reset_loop allocate d fsm)

reset_loop-default :
    (allocate : Bool) (d : ℕ) (fsm : List BimodalFsm) (i : ℕ)
    → i < length fsm
    → get_elem? (reset_loop allocate d fsm) i ≡ some (bimodal_fsm d)
unfolding reset_loop
reset_loop-default allocate d [] i h = elim h [ ]
reset_loop-default allocate d (m ∷ fsm) zero h = refl
reset_loop-default allocate d (m ∷ fsm) (suc i) h =
    reset_loop-default allocate d fsm i (omega arith)

-- After a reset every machine of the table is in the default state.
pub reset-default :
    (allocate : Bool) (t : FsmTable) (i : ℕ)
    → i < length t.fsm
    → get_elem? (reset allocate t).fsm i ≡ some (bimodal_fsm t.default_state)
unfolding reset
reset-default allocate t i h = reset_loop-default allocate t.default_state t.fsm i h

bimodal_fsm-IsState : (d : ℕ) → d ≤ 3 → IsState (bimodal_fsm d)
bimodal_fsm-IsState d h = ground arith

pub length-reset : (allocate : Bool) (t : FsmTable) → length (reset allocate t).fsm ≡ length t.fsm
unfolding reset
length-reset allocate t = length-reset_loop allocate t.default_state t.fsm

pub reset-IsTable :
    (allocate : Bool) (k : ℕ) (t : FsmTable)
    → length t.fsm ≡ 2 ^ k
    → t.default_state ≤ 3
    → IsTable k (reset allocate t)
unfolding reset
reset-IsTable allocate k t sized fresh = record {
  sized = length-reset_loop allocate t.default_state t.fsm ∙ sized;
  fresh = fresh;
  states = λ i m e.
      let range = lt_of_get_elem? _ i e in
      let same =
        reset-default allocate t i
          (rw (← length-reset_loop allocate t.default_state t.fsm) range) in
      let h = bimodal_fsm-IsState t.default_state fresh in ground arith;
}

-- The constructor builds a table of `2 ^ k` machines in the default state.
pub fsm_table-IsTable : (raw : Raw) (k d : ℕ) → k ≤ 31 → d ≤ 3 → IsTable k (fsm_table raw k d)
unfolding fsm_table
fsm_table-IsTable raw k d h fresh =
    reset-IsTable true k _ (length-replicate (shl32 1 k) raw.machine ∙ omega (arith, pow-lt k h))
      fresh

-- An index in range is trained, and the table stays well formed.
pub record IsTrained (k : ℕ) (t : FsmTable) (index : ℕ) (taken : Bool) : Type 0 where
  pub machine : BimodalFsm
  pub old : get_elem? t.fsm index ≡ some machine
  pub after : FsmTable
  pub returns : table_update t index taken ≡ some after
  pub new : get_elem? after.fsm index ≡ some (fsm_update machine taken)
  pub others : (j : ℕ) → index ≢ j → get_elem? after.fsm j ≡ get_elem? t.fsm j
  pub kept : IsTable k after

pub table_update-IsTrained :
    (k : ℕ) (t : FsmTable) (index : ℕ) (taken : Bool)
    → IsTable k t
    → index < 2 ^ k
    → IsTrained k t index taken
unfolding table_update
table_update-IsTrained k t index taken v h =
    let range : index < length t.fsm = rw v.sized h in
    let (m, old) = get_elem?_lem t.fsm index range in
    record {
      machine = m;
      old = old;
      after = record t { fsm = set t.fsm index (fsm_update m taken) };
      returns = ground arith;
      new = get_elem?-set_self t.fsm index (fsm_update m taken) range;
      others = λ j ne. get_elem?-set_ne t.fsm index j (fsm_update m taken) ne;
      kept = record {
        sized = length-set t.fsm index (fsm_update m taken) ∙ v.sized;
        fresh = v.fresh;
        states = λ j m' e. elim (eq_cases index j) [
          | inl same ↦
              let s = fsm_update-IsState m taken in
              let f = get_elem?-set_self t.fsm index (fsm_update m taken) range in ground arith
          | inr ne ↦
              v.states j m' (ground (arith, get_elem?-set_ne t.fsm index j (fsm_update m taken) ne))
        ];
      };
    }

-- A machine in range can be read.
pub get_state_by_index_lem :
    (k : ℕ) (t : FsmTable) (index : ℕ)
    → IsTable k t
    → index < 2 ^ k
    → (m : BimodalFsm) × (get_elem? t.fsm index ≡ some m)
      × (get_state_by_index t index ≡ some m.state)
unfolding get_state_by_index
get_state_by_index_lem k t index v h =
    let (m, e) = get_elem?_lem t.fsm index (rw v.sized h) in (m, e, ground arith)
