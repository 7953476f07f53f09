-- ===== src/Predictor/After.antt =====
-- HW1/bp.cpp: the buffer after an update, read through the accessors.
use computer_structures.Base.{
  ℕ, ◌≡◌, ◌≢◌, refl, ap, ◌∙◌, arith, Bool, true, some, if_both, get_elem?, get_elem?-set_self,
  get_elem?-set_ne, lt_of_get_elem?, Bool-cases, inl, inr, ==-refl,
}
use computer_structures.Predictor.Fsm.{Bhr, BimodalFsm, bhr_update, fsm_update}
use computer_structures.Predictor.Btb.{
  Btb, BtbEntry, get_shared_history, get_entry_by_index, get_tag, claim_entry,
}
use computer_structures.Predictor.Valid.{IsHistory, IsValid}
use computer_structures.Predictor.Step.{IsUpdated, update_history, counted}
use computer_structures.Predictor.Prediction.{hit, predict_history, predict_table, predict_index}

module _ {w k : ℕ} {b : Btb} {pc target_pc : ℕ} {taken : Bool} {pred_dst : ℕ}
    (u : IsUpdated w k b pc target_pc taken pred_dst) where
  abbrev pub claimed_entry : BtbEntry
  claimed_entry = claim_entry u.old (get_tag b pc) target_pc

  abbrev pub new_entry : BtbEntry
  new_entry = record claimed_entry {
    local_table = u.step.local_step.after;
    local_bhr = bhr_update claimed_entry.local_bhr taken;
  }

  -- The register that selected the trained machines.
  abbrev pub old_history : Bhr
  old_history = update_history (counted b pc target_pc taken pred_dst) claimed_entry

  pub after-index : (q : ℕ) → get_entry_by_index u.after q ≡ get_entry_by_index b q
  unfolding get_entry_by_index
  after-index q = ap (λ (x : Btb). get_entry_by_index x q) u.after_eq

  pub after-tag : (q : ℕ) → get_tag u.after q ≡ get_tag b q
  unfolding get_tag
  after-tag q = ap (λ (x : Btb). get_tag x q) u.after_eq

  pub after-shared : (h q : ℕ) → get_shared_history u.after h q ≡ get_shared_history b h q
  unfolding get_shared_history
  after-shared h q = ap (λ (x : Btb). get_shared_history x h q) u.after_eq

  pub counted-shared :
      (h q : ℕ)
      → get_shared_history (counted b pc target_pc taken pred_dst) h q ≡ get_shared_history b h q
  unfolding get_shared_history
  counted-shared h q = refl

  pub after-modes :
      (u.after.is_global_hist ≡ b.is_global_hist) × (u.after.is_global_table ≡ b.is_global_table)
  after-modes = (
    ap (λ (x : Btb). x.is_global_hist) u.after_eq,
    ap (λ (x : Btb). x.is_global_table) u.after_eq,
  )

  -- The entry of the branch is the new one.
  pub after-found : get_elem? u.after.entries (get_entry_by_index b pc) ≡ some new_entry
  after-found =
      ap (λ (x : Btb). get_elem? x.entries (get_entry_by_index b pc)) u.after_eq
      ∙ get_elem?-set_self b.entries (get_entry_by_index b pc) new_entry
          (lt_of_get_elem? b.entries (get_entry_by_index b pc) u.found)

  -- Every other entry is as it was.
  pub after-others :
      (i : ℕ) → get_entry_by_index b pc ≢ i → get_elem? u.after.entries i ≡ get_elem? b.entries i
  after-others i ne =
      ap (λ (x : Btb). get_elem? x.entries i) u.after_eq
      ∙ get_elem?-set_ne b.entries (get_entry_by_index b pc) i new_entry ne

  claimed-tag :
      (claimed_entry.valid ≡ true)
      × (claimed_entry.tag ≡ get_tag b pc)
      × (claimed_entry.target ≡ target_pc)
  unfolding claim_entry
  claimed-tag = ground arith

  -- The branch hits its entry after the update, and the entry holds the target of the update.
  pub after-hit : (hit u.after new_entry pc ≡ true) × (new_entry.target ≡ target_pc)
  after-hit =
      let (valid, tag, target) = claimed-tag in
      (rw (valid, after-tag pc, tag) (==-refl (get_tag b pc)), target)

  -- An entry that the branch hits keeps its register.
  pub claimed-history : hit b u.old pc ≡ true → claimed_entry.local_bhr ≡ u.old.local_bhr
  unfolding claim_entry
  claimed-history h = ground arith

  pub claimed-table : hit b u.old pc ≡ true → claimed_entry.local_table ≡ u.old.local_table
  unfolding claim_entry
  claimed-table h = ground arith

  pub old_history-IsHistory : IsValid w k b → IsHistory k old_history
  old_history-IsHistory v = if_both (IsHistory k) b.is_global_hist v.history u.claimed.history

  -- The register that the next prediction reads is the one that selected the machines, shifted.
  pub after-history :
      predict_history u.after new_entry ≡ (bhr_update old_history taken).history_record
  after-history =
      let (g, _) = after-modes in
      let bhr_eq = ap (λ (x : Btb). x.global_bhr) u.after_eq in ground arith

  -- On a hit, that is the register that a prediction before the update read.
  pub old_history_of_hit :
      hit b u.old pc ≡ true → old_history.history_record ≡ predict_history b u.old
  old_history_of_hit h = let same = claimed-history h in ground arith

  -- If the prediction after the update reads the same place as the one before it, it reads the
  -- machine of that place moved by the outcome.
  pub after-machine :
      (m : BimodalFsm)
      → hit b u.old pc ≡ true
      → predict_history u.after new_entry ≡ predict_history b u.old
      → get_elem? (predict_table b u.old).fsm (predict_index b u.old pc) ≡ some m
      → get_elem? (predict_table u.after new_entry).fsm (predict_index u.after new_entry pc)
        ≡ some (fsm_update m taken)
  after-machine m h same read =
      let (_, modes) = after-modes in
      let table = ap (λ (x : Btb). x.global_table) u.after_eq in
      let history = old_history_of_hit h in
      let before = claimed-table h in
      let s = counted-shared old_history.history_record pc in
      let s' = after-shared (predict_history u.after new_entry) pc in
      let g = u.step.global_step.old in
      let g' = u.step.global_step.new in
      let l = u.step.local_step.old in
      let l' = u.step.local_step.new in
      elim (Bool-cases b.is_global_table) [ inl c ↦ ground arith | inr c ↦ ground arith ]
