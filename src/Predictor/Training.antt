-- ===== src/Predictor/Training.antt =====
-- HW1/bp.cpp: a branch with a steady outcome is learnt, in every mode of the predictor.
use native.Mathlib.Nat.{mod-eq_of_lt}
use computer_structures.Base.{
  ℕ, suc, ◌+◌, ◌*◌, ◌%◌, ◌^◌, ◌≤◌, ◌<◌, ◌≡◌, refl, sym, ap, ◌∙◌, arith, Bool, true, false, Option,
  none, some, List, [], ◌∷◌, if◌then◌else◌, length, get_elem?, u32, mod_pow-mod, subst, inl, inr,
  if_both, lt_cases,
}
use computer_structures.Predictor.Fsm.{BimodalFsm, fsm_update}
use computer_structures.Predictor.Btb.{Btb, BtbEntry, get_entry_by_index, update, predict}
use computer_structures.Predictor.Counters.{IsState, fsm_update_twice}
use computer_structures.Predictor.Shift.{bit}
use computer_structures.Predictor.Tables.{IsTable}
use computer_structures.Predictor.Valid.{IsValid}
use computer_structures.Predictor.Step.{IsUpdated}
use computer_structures.Predictor.Prediction.{
  predict_history-lt, predict_returns, hit, predict_history, predict_table, predict_index, answer,
  predict_machine, predict-hit_at,
}
use computer_structures.Predictor.After.{
  new_entry, after-index, after-found, after-hit, after-machine, old_history,
}
use computer_structures.Predictor.Outcomes.{
  ones, ones-lt, IsLow, after-bits, update-IsLow, ones-mod,
}

-- The updates of one branch with one outcome, one for each predicted destination in the list.
unfoldable pub updates : Btb → ℕ → ℕ → Bool → List ℕ → Option Btb
updates b pc target_pc taken [] = some b
updates b pc target_pc taken (dst ∷ dsts) = elim (update b pc target_pc taken dst) [
  | none ↦ none
  | some b' ↦ updates b' pc target_pc taken dsts
]

-- The whole register is `t`, and the branch reads the machine `m`.
record IsFull (w k : ℕ) (t : Bool) (pc : ℕ) (b : Btb) (m : BimodalFsm) : Type 0 where
  valid : IsValid w k b
  entry : BtbEntry
  found : get_elem? b.entries (get_entry_by_index b pc) ≡ some entry
  hits : hit b entry pc ≡ true
  history : predict_history b entry ≡ ones k t
  read : get_elem? (predict_table b entry).fsm (predict_index b entry pc) ≡ some m

valid_of_hit : (b : Btb) (e : BtbEntry) (pc : ℕ) → hit b e pc ≡ true → e.valid ≡ true
valid_of_hit b e pc h = ground arith

IsLow-IsFull :
    (w k : ℕ) (t : Bool) (pc : ℕ) (b : Btb)
    → 0 < k
    → IsLow w k k t pc b
    → (m : BimodalFsm) × IsFull w k t pc b m
IsLow-IsFull w k t pc b h low =
    let (m, read, _) = predict_machine w k b pc low.entry low.valid low.found (low.hits h) in
    let ve = low.valid.entries (get_entry_by_index b pc) low.entry low.found in
    let range =
      predict_history-lt w k b low.entry low.valid ve (valid_of_hit b low.entry pc (low.hits h)) in
    (
      m,
      record {
        valid = low.valid;
        entry = low.entry;
        found = low.found;
        hits = low.hits h;
        history = sym (mod-eq_of_lt range) ∙ low.bits;
        read = read;
      },
    )

-- With a full register an update trains the very machine that the branch reads.
update-IsFull :
    (w k : ℕ) (t : Bool) (pc target_pc dst : ℕ) (b : Btb) (m : BimodalFsm)
    → IsFull w k t pc b m
    → (u : IsUpdated w k b pc target_pc t dst) × IsFull w k t pc u.after (fsm_update m t)
      × (predict u.after pc ≡ some (answer (fsm_update m t) (new_entry u) pc))
update-IsFull w k t pc target_pc dst b m full =
    let low : IsLow w k k t pc b = record {
      valid = full.valid;
      entry = full.entry;
      found = full.found;
      hits = λ _. full.hits;
      bits = ap (λ (s : ℕ). s % 2 ^ k) full.history ∙ mod-eq_of_lt (ones-lt k t);
    } in
    let (u, old, history, bits) = after-bits w k k t pc target_pc dst b low in
    let x = 2 * (old_history u).history_record + bit t in
    let stays : predict_history u.after (new_entry u) ≡ ones k t =
      history
      ∙ (sym (mod_pow-mod k (suc k) x (omega arith))
          ∙ (ap (λ (s : ℕ). s % 2 ^ k) bits ∙ ones-mod k t)) in
    let hits = subst (λ e. hit b e pc ≡ true) (sym old) full.hits in
    let before = subst (λ e. predict_history b e ≡ ones k t) (sym old) full.history in
    let read =
      subst (λ e. get_elem? (predict_table b e).fsm (predict_index b e pc) ≡ some m) (sym old)
        full.read in
    let read' = after-machine u m hits (stays ∙ sym before) read in
    let found : get_elem? u.after.entries (get_entry_by_index u.after pc) ≡ some (new_entry u) =
      rw (after-index u pc) (after-found u) in
    (
      u,
      record {
        valid = u.valid;
        entry = new_entry u;
        found = found;
        hits = (after-hit u).0;
        history = stays;
        read = read';
      },
      predict-hit_at u.after pc (new_entry u) (fsm_update m t) found (after-hit u).0 read',
    )

updates-step :
    (b b' : Btb) (pc target_pc : ℕ) (t : Bool) (dst : ℕ) (dsts : List ℕ)
    → update b pc target_pc t dst ≡ some b'
    → updates b pc target_pc t (dst ∷ dsts) ≡ updates b' pc target_pc t dsts
unfolding updates
updates-step b b' pc target_pc t dst dsts e = rw (e, updates)

-- The buffer after the updates, and its prediction.
pub record IsLearnt (w k : ℕ) (b : Btb) (pc target_pc : ℕ) (t : Bool) (dsts : List ℕ) : Type 0 where
  pub after : Btb
  pub returns : updates b pc target_pc t dsts ≡ some after
  pub valid : IsValid w k after
  pub predicts : predict after pc ≡ some (if t then (true, target_pc) else (false, u32 (pc + 4)))

machine-IsState :
    (w k : ℕ) (t : Bool) (pc : ℕ) (b : Btb) (m : BimodalFsm) → IsFull w k t pc b m → IsState m
machine-IsState w k t pc b m full =
    let ve = full.valid.entries (get_entry_by_index b pc) full.entry full.found in
    let table = if_both (IsTable k) b.is_global_table full.valid.table ve.table in
    table.states (predict_index b full.entry pc) m full.read

last_two :
    (w k : ℕ) (t : Bool) (pc target_pc d d' : ℕ) (b : Btb) (m : BimodalFsm)
    → IsFull w k t pc b m
    → IsLearnt w k b pc target_pc t (d ∷ d' ∷ [])
last_two w k t pc target_pc d d' b m full =
    let (u, full', _) = update-IsFull w k t pc target_pc d b m full in
    let (u', full'', predicts) =
      update-IsFull w k t pc target_pc d' u.after (fsm_update m t) full' in
    let decided = fsm_update_twice m t (machine-IsState w k t pc b m full) in
    let target = (after-hit u').1 in
    record {
      after = u'.after;
      returns =
          updates-step b u.after pc target_pc t d (d' ∷ []) u.returns
          ∙ (updates-step u.after u'.after pc target_pc t d' [] u'.returns
              ∙ unfold updates in refl);
      valid = u'.valid;
      predicts = predicts ∙ ap some (rw (decided, target));
    }

nil_of_length : (l : List ℕ) → length l ≡ 0 → l ≡ []
nil_of_length [] h = refl
nil_of_length (x ∷ l) h = absurd (omega arith)

learn :
    (w k j : ℕ) (t : Bool) (pc target_pc : ℕ) (b : Btb) (dsts : List ℕ)
    → 0 < k
    → j ≤ k
    → j + length dsts ≡ k + 2
    → IsLow w k j t pc b
    → IsLearnt w k b pc target_pc t dsts
learn w k j t pc target_pc b [] h le e low = absurd (omega arith)
learn w k j t pc target_pc b (d ∷ []) h le e low = absurd (omega arith)
learn w k j t pc target_pc b (d ∷ d' ∷ dsts) h le e low = elim (lt_cases j k) [
  | inl more ↦
      let (u, low') = update-IsLow w k j t pc target_pc d b more low in
      let rest = learn w k (suc j) t pc target_pc u.after (d' ∷ dsts) h more (omega arith) low' in
      record {
        after = rest.after;
        returns = updates-step b u.after pc target_pc t d (d' ∷ dsts) u.returns ∙ rest.returns;
        valid = rest.valid;
        predicts = rest.predicts;
      }
  | inr full ↦
      let all : j ≡ k = omega arith in
      let none_left : dsts ≡ [] = nil_of_length dsts (omega arith) in
      let (m, f) = IsLow-IsFull w k t pc b h (subst (λ i. IsLow w k i t pc b) all low) in
      subst (λ l. IsLearnt w k b pc target_pc t (d ∷ d' ∷ l)) (sym none_left)
        (last_two w k t pc target_pc d d' b m f)
]

-- In every mode of the predictor, and from every well-formed buffer with `k` bits of history, `k`
-- not 0, `k + 2` updates of one branch with the same outcome and target, whatever had been
-- predicted, all return, and the prediction for that branch then is that outcome: taken with that
-- target as destination, or not taken with the next instruction.
pub updates-IsLearnt :
    (w k : ℕ) (t : Bool) (pc target_pc : ℕ) (b : Btb) (dsts : List ℕ)
    → 0 < k
    → length dsts ≡ k + 2
    → IsValid w k b
    → IsLearnt w k b pc target_pc t dsts
updates-IsLearnt w k t pc target_pc b dsts h e v =
    let (entry, _, found, _) = predict_returns w k b pc v in
    learn w k 0 t pc target_pc b dsts h (omega arith) (omega arith) (record {
      valid = v;
      entry = entry;
      found = found;
      hits = λ p. absurd (omega arith);
      bits = omega arith;
    })
