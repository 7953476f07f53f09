-- ===== src/Predictor/Prediction.antt =====
-- HW1/bp.cpp: what `predict` reads and answers on a well-formed buffer.
use computer_structures.Base.{
  ℕ, ◌+◌, ◌^◌, ◌<◌, ◌≡◌, ◌∙◌, arith, Bool, true, false, ◌&&◌, some, if◌then◌else◌, inl, inr, length,
  get_elem?, get_elem?_lem, Bool-cases, ◌==◌, u32,
}
use computer_structures.Predictor.Fsm.{BimodalFsm, FsmTable, get_state_by_index}
use computer_structures.Predictor.Btb.{
  Btb, BtbEntry, get_shared_history, get_entry_by_index, get_tag, predict, predict_entry,
  is_taken_state,
}
use computer_structures.Predictor.Valid.{
  IsEntry, IsValid, get_entry_by_index-lt, get_shared_history-lt,
}

-- The test of `predict` that the entry belongs to the branch.
abbrev pub hit : Btb → BtbEntry → ℕ → Bool
hit b e pc = e.valid && get_tag b pc == e.tag

abbrev pub predict_history : Btb → BtbEntry → ℕ
predict_history b e =
    if b.is_global_hist then b.global_bhr.history_record else e.local_bhr.history_record

abbrev pub predict_table : Btb → BtbEntry → FsmTable
predict_table b e = if b.is_global_table then b.global_table else e.local_table

abbrev pub predict_index : Btb → BtbEntry → ℕ → ℕ
predict_index b e pc =
    if b.is_global_table then get_shared_history b (predict_history b e) pc else predict_history b e

abbrev pub answer : BimodalFsm → BtbEntry → ℕ → Bool × ℕ
answer m e pc = if is_taken_state m.state then (true, e.target) else (false, u32 (pc + 4))

pub predict_miss :
    (b : Btb) (pc : ℕ) (e : BtbEntry)
    → get_elem? b.entries (get_entry_by_index b pc) ≡ some e
    → hit b e pc ≡ false
    → predict b pc ≡ some (false, u32 (pc + 4))
unfolding predict predict_entry
predict_miss b pc e found miss = rw (found, predict) (rw miss)

get_state_found :
    (t : FsmTable) (index : ℕ) (m : BimodalFsm)
    → get_elem? t.fsm index ≡ some m
    → get_state_by_index t index ≡ some m.state
unfolding get_state_by_index
get_state_found t index m read = rw (read, get_state_by_index)

pub predict-hit_at :
    (b : Btb) (pc : ℕ) (e : BtbEntry) (m : BimodalFsm)
    → get_elem? b.entries (get_entry_by_index b pc) ≡ some e
    → hit b e pc ≡ true
    → get_elem? (predict_table b e).fsm (predict_index b e pc) ≡ some m
    → predict b pc ≡ some (answer m e pc)
unfolding predict predict_entry
predict-hit_at b pc e m found h read =
    rw (found, predict)
      (rw h (rw (get_state_found (predict_table b e) (predict_index b e pc) m read)))

pub predict_history-lt :
    (w k : ℕ) (b : Btb) (e : BtbEntry)
    → IsValid w k b
    → IsEntry k e
    → e.valid ≡ true
    → predict_history b e < 2 ^ k
predict_history-lt w k b e v ve h = elim (Bool-cases b.is_global_hist) [
  | inl g ↦ rw g v.history.range
  | inr l ↦ rw l (ve.range h)
]

predict_index-lt :
    (w k : ℕ) (b : Btb) (e : BtbEntry) (pc : ℕ)
    → IsValid w k b
    → IsEntry k e
    → e.valid ≡ true
    → predict_index b e pc < length (predict_table b e).fsm
predict_index-lt w k b e pc v ve h =
    let range = predict_history-lt w k b e v ve h in
    let shared =
      get_shared_history-lt k b (predict_history b e) pc v.few_bits v.history_size range in
    ground (arith, range, shared, v.table.sized, ve.table.sized)

-- What a prediction reads on a hit: a machine of the selected table, whose state it answers by.
pub predict_machine :
    (w k : ℕ) (b : Btb) (pc : ℕ) (e : BtbEntry)
    → IsValid w k b
    → get_elem? b.entries (get_entry_by_index b pc) ≡ some e
    → hit b e pc ≡ true
    → (m : BimodalFsm) × (get_elem? (predict_table b e).fsm (predict_index b e pc) ≡ some m)
      × (predict b pc ≡ some (answer m e pc))
predict_machine w k b pc e v found h =
    let ve = v.entries (get_entry_by_index b pc) e found in
    let (m, read) =
      get_elem?_lem (predict_table b e).fsm (predict_index b e pc)
        (predict_index-lt w k b e pc v ve (ground arith)) in
    (m, read, predict-hit_at b pc e m found h read)

-- A prediction on a well-formed buffer returns, and its destination is the one stored in the
-- entry of its index if it says taken, and the next instruction if not.
pub predict_returns :
    (w k : ℕ) (b : Btb) (pc : ℕ)
    → IsValid w k b
    → (e : BtbEntry) × (taken : Bool) × (get_elem? b.entries (get_entry_by_index b pc) ≡ some e)
      × (predict b pc ≡ some (taken, (if taken then e.target else u32 (pc + 4))))
predict_returns w k b pc v =
    let range : get_entry_by_index b pc < length b.entries =
      rw v.sized (get_entry_by_index-lt w b pc v.mask) in
    let (e, found) = get_elem?_lem b.entries (get_entry_by_index b pc) range in
    elim (Bool-cases (hit b e pc)) [
      | inl h ↦
          let (m, read, eq) = predict_machine w k b pc e v found h in
          (e, is_taken_state m.state, found, eq ∙ ground arith)
      | inr miss ↦ (e, false, found, predict_miss b pc e found miss)
    ]
