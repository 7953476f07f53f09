-- ===== src/Predictor/Run.antt =====
-- HW1: the constructed buffer is well formed, and a run over a trace counts branches and flushes.
use computer_structures.Base.{
  ℕ, ◌+◌, ◌^◌, ◌≤◌, ◌<◌, ◌≡◌, refl, ap, ◌∙◌, arith, Bool, true, false, some, List, [], ◌∷◌,
  if◌then◌else◌, ◌⊎◌, inl, inr, length, length-replicate, get_elem?-replicate, lt_of_get_elem?,
  ◌!=◌, u32, low_mask, log2-pow, subst,
}
use computer_structures.Predictor.Fsm.{Raw, bhr}
use computer_structures.Predictor.Btb.{Btb, Config, btb, btb_entry, is_flush, predict, update}
use computer_structures.Predictor.Api.{Branch, Report, simulate_branch, simulate}
use computer_structures.Predictor.Tables.{fsm_table-IsTable}
use computer_structures.Predictor.Valid.{IsEntry, IsValid}
use computer_structures.Predictor.Step.{update-IsUpdated}
use computer_structures.Predictor.Prediction.{predict_returns}

-- A configuration that the arithmetic of the constructor can hold.
pub record IsConfig (w : ℕ) (c : Config) : Type 0 where
  pub btb_size : c.btb_size ≡ 2 ^ w
  pub few_entries : w ≤ 31
  pub few_bits : c.history_size ≤ 31
  pub state : c.fsm_state ≤ 3

btb_entry-IsEntry : (raw : Raw) (k d : ℕ) → k ≤ 31 → d ≤ 3 → IsEntry k (btb_entry raw k d)
unfolding btb_entry bhr
btb_entry-IsEntry raw k d h fresh = record {
  size = refl;
  mask = low_mask k h;
  range = λ e. absurd (cc);
  table = fsm_table-IsTable raw k d h fresh;
}

-- The constructor builds a well-formed buffer from a configuration that its arithmetic can hold, if
-- the history register that it leaves unset happens to hold a number of `history_size` bits.
pub btb-IsValid :
    (w : ℕ) (raw : Raw) (c : Config)
    → IsConfig w c
    → raw.history < 2 ^ c.history_size
    → IsValid w c.history_size (btb raw c)
unfolding btb bhr
btb-IsValid w raw c v range = record {
  few_entries = v.few_entries;
  few_bits = v.few_bits;
  btb_size = v.btb_size;
  history_size = refl;
  mask = rw (v.btb_size, log2-pow w (omega arith)) (low_mask w v.few_entries);
  sized = length-replicate c.btb_size (btb_entry raw c.history_size c.fsm_state) ∙ v.btb_size;
  history = record { size = refl; mask = low_mask c.history_size v.few_bits; range = range };
  table = fsm_table-IsTable raw c.history_size c.fsm_state v.few_bits v.state;
  entries = λ i e found.
      let new = btb_entry raw c.history_size c.fsm_state in
      let at =
        get_elem?-replicate c.btb_size new i
          (omega (arith, lt_of_get_elem? _ i found, length-replicate c.btb_size new)) in
      let same : new ≡ e = cc in
      subst (IsEntry c.history_size) same
        (btb_entry-IsEntry raw c.history_size c.fsm_state v.few_bits v.state);
  branch_count = omega arith;
  flush_count = omega arith;
}

-- The address of the instruction that runs after the branch.
abbrev pub next_pc : Branch → ℕ
next_pc br = if br.taken then br.target_pc else u32 (br.pc + 4)

-- A flush is counted exactly when the predicted destination is not the next instruction.
pub is_flush_lem :
    (br : Branch) (dst : ℕ) → is_flush br.pc br.target_pc br.taken dst ≡ (next_pc br != dst)
unfolding is_flush
is_flush_lem br dst = ground arith

abbrev pub flushes : List Branch → List Report → ℕ
flushes [] reports = 0
flushes (br ∷ trace) [] = 0
flushes (br ∷ trace) (r ∷ reports) = (if next_pc br != r.dst then 1 else 0) + flushes trace reports

-- The reports fit the trace: one for each branch, in order, and one that says not taken names the
-- next instruction.
abbrev pub Fit : List Branch → List Report → Type 0
Fit [] [] = Unit
Fit [] (r ∷ reports) = ⊥
Fit (br ∷ trace) [] = ⊥
Fit (br ∷ trace) (r ∷ reports) =
    (r.pc ≡ br.pc) × ((r.predicted ≡ true) ⊎ (r.dst ≡ u32 (br.pc + 4))) × Fit trace reports

-- The predictions are those of the buffer as it was printed last, and the printed buffers are those
-- that the updates leave.
abbrev pub Dumped : Btb → List Branch → List Report → Type 0
Dumped b [] reports = Unit
Dumped b (br ∷ trace) [] = ⊥
Dumped b (br ∷ trace) (r ∷ reports) =
    (predict b br.pc ≡ some (r.predicted, r.dst))
    × (update b br.pc br.target_pc br.taken r.dst ≡ some r.dump)
    × Dumped r.dump trace reports

pub flushes-le :
    (trace : List Branch) (reports : List Report) → flushes trace reports ≤ length trace
flushes-le [] reports = omega arith
flushes-le (br ∷ trace) [] = omega arith
flushes-le (br ∷ trace) (r ∷ reports) = ground (arith, flushes-le trace reports)

pub record IsRun (w k : ℕ) (b : Btb) (trace : List Branch) : Type 0 where
  pub reports : List Report
  pub after : Btb
  pub returns : simulate b trace ≡ some (reports, after)
  pub valid : IsValid w k after
  pub fit : Fit trace reports
  pub dumped : Dumped b trace reports
  pub branches : after.update_counter ≡ b.update_counter + length trace
  pub flushed : after.flush_counter ≡ b.flush_counter + flushes trace reports

simulate-step :
    (b b' b'' : Btb) (br : Branch) (trace : List Branch) (r : Report) (rs : List Report)
    → simulate_branch b br ≡ some (r, b')
    → simulate b' trace ≡ some (rs, b'')
    → simulate b (br ∷ trace) ≡ some (r ∷ rs, b'')
unfolding simulate
simulate-step b b' b'' br trace r rs e f = rw (e, simulate) (rw f)

simulate_branch-step :
    (b b' : Btb) (br : Branch) (taken : Bool) (dst : ℕ)
    → predict b br.pc ≡ some (taken, dst)
    → update b br.pc br.target_pc br.taken dst ≡ some b'
    → simulate_branch b br
      ≡ some (record { pc = br.pc; predicted = taken; dst = dst; dump = b' }, b')
unfolding simulate_branch
simulate_branch-step b b' br taken dst e f = rw (e, simulate_branch) (rw f)

dst_of_not_taken :
    (taken : Bool) (target next : ℕ) → (taken ≡ true) ⊎ ((if taken then target else next) ≡ next)
dst_of_not_taken true target next = inl refl
dst_of_not_taken false target next = inr refl

-- The loop of `main`, from a well-formed buffer whose two counters stay below 2 ^ 31 when the
-- length of the trace is added, reads no array out of range and returns; it reports each branch
-- once and in order, a report that says not taken names the next instruction, each report is
-- followed by the buffer that the update of its branch leaves, which the next branch is predicted
-- from, the buffer stays well formed, the branch counter grows by the length of the trace, and the
-- flush counter by the number of branches whose reported destination is not the instruction that
-- ran next.
pub simulate-IsRun :
    (w k : ℕ) (b : Btb) (trace : List Branch)
    → IsValid w k b
    → b.update_counter + length trace < 2 ^ 31
    → b.flush_counter + length trace < 2 ^ 31
    → IsRun w k b trace
simulate-IsRun w k b [] v small1 small2 = record {
  reports = [];
  after = b;
  returns = unfold simulate in refl;
  valid = v;
  fit = tt;
  dumped = tt;
  branches = omega arith;
  flushed = omega arith;
}
simulate-IsRun w k b (br ∷ trace) v small1 small2 =
    let (e, taken, _, predicted) = predict_returns w k b br.pc v in
    let dst = if taken then e.target else u32 (br.pc + 4) in
    let u = update-IsUpdated w k b br.pc br.target_pc br.taken dst v in
    let counted = ap (λ (x : Btb). x.update_counter) u.after_eq in
    let flushed = ap (λ (x : Btb). x.flush_counter) u.after_eq in
    let rest =
      simulate-IsRun w k u.after trace u.valid (omega (arith, counted)) (ground (arith, flushed)) in
    let r : Report = record { pc = br.pc; predicted = taken; dst = dst; dump = u.after } in
    record {
      reports = r ∷ rest.reports;
      after = rest.after;
      returns =
          simulate-step b u.after rest.after br trace r rest.reports
            (simulate_branch-step b u.after br taken dst predicted u.returns) rest.returns;
      valid = rest.valid;
      fit = (refl, dst_of_not_taken taken e.target (u32 (br.pc + 4)), rest.fit);
      dumped = (predicted, u.returns, rest.dumped);
      branches = omega (arith, rest.branches, counted);
      flushed = ground (arith, rest.flushed, flushed, is_flush_lem br dst);
    }
