-- ===== src/Predictor/Locality.antt =====
-- HW1/bp.cpp: what an update makes of later predictions, and the register that no constructor sets.
use computer_structures.Base.{
  ℕ, ◌+◌, ◌^◌, ◌≤◌, ◌≡◌, ◌≢◌, ap, ◌∙◌, arith, Bool, true, false, none, some, if◌then◌else◌, inl,
  inr, get_elem?, Option-cases, u32, get_elem?-none,
}
use computer_structures.Predictor.Fsm.{Raw, BimodalFsm, bhr, table_update, fsm_table}
use computer_structures.Predictor.Btb.{
  Btb, BtbEntry, Config, btb, get_shared_history, get_entry_by_index, get_tag, update, predict,
  predict_entry, is_taken_state, train,
}
use computer_structures.Predictor.Tables.{fsm_table-IsTable}
use computer_structures.Predictor.Valid.{IsValid}
use computer_structures.Predictor.Step.{update-IsUpdated}
use computer_structures.Predictor.Prediction.{hit, predict_table, predict_index, predict_machine}
use computer_structures.Predictor.Run.{IsConfig}
use computer_structures.Predictor.After.{
  new_entry, after-index, after-found, after-hit, after-tag, after-modes, after-others,
}

-- On a well-formed buffer an update returns, and a prediction for the same branch right after it
-- finds an entry that is valid and has its tag, and reads the machine of the entry: if the state of
-- that machine says taken, it is taken to the target of the update, and otherwise not taken to the
-- next instruction.
pub predict-update_self :
    (w k : ℕ) (b : Btb) (pc target_pc : ℕ) (taken : Bool) (pred_dst : ℕ)
    → IsValid w k b
    → (b' : Btb) × (e : BtbEntry) × (m : BimodalFsm) × (update b pc target_pc taken pred_dst
        ≡ some b')
      × (get_elem? b'.entries (get_entry_by_index b' pc) ≡ some e)
      × (hit b' e pc ≡ true)
      × (get_elem? (predict_table b' e).fsm (predict_index b' e pc) ≡ some m)
      × (predict b' pc
          ≡ some (if is_taken_state m.state then (true, target_pc) else (false, u32 (pc + 4))))
predict-update_self w k b pc target_pc taken pred_dst v =
    let u = update-IsUpdated w k b pc target_pc taken pred_dst v in
    let found : get_elem? u.after.entries (get_entry_by_index u.after pc) ≡ some (new_entry u) =
      rw (after-index u pc) (after-found u) in
    let (hits, target) = after-hit u in
    let (m, read, eq) = predict_machine w k u.after pc (new_entry u) u.valid found hits in
    (u.after, new_entry u, m, u.returns, found, hits, read, eq ∙ ground arith)

predict_entry_local :
    (a b : Btb) (e : BtbEntry) (q : ℕ)
    → a.is_global_hist ≡ false
    → a.is_global_table ≡ false
    → b.is_global_hist ≡ false
    → b.is_global_table ≡ false
    → get_tag a q ≡ get_tag b q
    → predict_entry a e q ≡ predict_entry b e q
unfolding predict_entry
predict_entry_local a b e q ah at bh bt tag = ground arith

predict_local :
    (a b : Btb) (q : ℕ)
    → a.is_global_hist ≡ false
    → a.is_global_table ≡ false
    → b.is_global_hist ≡ false
    → b.is_global_table ≡ false
    → get_tag a q ≡ get_tag b q
    → get_elem? a.entries (get_entry_by_index a q) ≡ get_elem? b.entries (get_entry_by_index b q)
    → predict a q ≡ predict b q
unfolding predict
predict_local a b q ah at bh bt tag same =
    elim (Option-cases (get_elem? b.entries (get_entry_by_index b q))) [
      | inl missing ↦ rw ((same ∙ missing), missing, predict)
      | inr (e, found) ↦
          rw ((same ∙ found), found, predict) (predict_entry_local a b e q ah at bh bt tag)
    ]

-- With local histories and local tables an update of a well-formed buffer returns and changes no
-- prediction for a branch of another entry.
pub predict-update_ne :
    (w k : ℕ) (b : Btb) (pc target_pc : ℕ) (taken : Bool) (pred_dst q : ℕ)
    → IsValid w k b
    → b.is_global_hist ≡ false
    → b.is_global_table ≡ false
    → get_entry_by_index b pc ≢ get_entry_by_index b q
    → (b' : Btb) × (update b pc target_pc taken pred_dst ≡ some b') × (predict b' q ≡ predict b q)
predict-update_ne w k b pc target_pc taken pred_dst q v lh lt ne =
    let u = update-IsUpdated w k b pc target_pc taken pred_dst v in
    let (gh, gt) = after-modes u in
    let entry =
      ap (λ (i : ℕ). get_elem? u.after.entries i) (after-index u q)
      ∙ after-others u (get_entry_by_index b q) ne in
    (u.after, u.returns, predict_local u.after b q (gh ∙ lh) (gt ∙ lt) lh lt (after-tag u q) entry)

-- With a global history and no sharing, the first update reads outside the table of machines if the
-- register of the global history, which the constructor leaves unset, happens to hold more than
-- `history_size` bits.
pub update_unset_history :
    (w : ℕ) (raw : Raw) (c : Config) (pc target_pc : ℕ) (taken : Bool) (pred_dst : ℕ)
    → IsConfig w c
    → c.is_global_hist ≡ true
    → c.shared ≡ 0
    → 2 ^ c.history_size ≤ raw.history
    → update (btb raw c) pc target_pc taken pred_dst ≡ none
unfolding update btb bhr train get_shared_history table_update
update_unset_history w raw c pc target_pc taken pred_dst v global plain garbage =
    let t = fsm_table-IsTable raw c.history_size c.fsm_state v.few_bits v.state in
    let outside =
      get_elem?-none (fsm_table raw c.history_size c.fsm_state).fsm raw.history
        (rw t.sized garbage) in
    ground (arith, outside)
