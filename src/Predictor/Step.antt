-- ===== src/Predictor/Step.antt =====
-- HW1/bp.cpp: what an update does to a well-formed buffer, and that a prediction reads in range.
use computer_structures.Base.{
  u32, ℕ, ◌+◌, ◌^◌, ◌<◌, ◌≡◌, refl, ◌∙◌, arith, Bool, some, List, if◌then◌else◌, inl, inr,
  get_elem?, set, length, length-set, get_elem?-set_cases, sym, subst, get_elem?_lem, Bool-cases,
}
use computer_structures.Predictor.Fsm.{Bhr, bhr_update}
use computer_structures.Predictor.Btb.{
  Btb, BtbEntry, get_shared_history, get_entry_by_index, get_tag, claim_entry, train, update,
  is_flush,
}
use computer_structures.Predictor.Tables.{IsTrained, table_update-IsTrained}
use computer_structures.Predictor.Valid.{
  IsEntry, IsValid, IsClaimed, bhr_update-IsHistory, get_entry_by_index-lt, get_shared_history-lt,
  claim_entry-IsClaimed,
}

-- The register that `update` trains the tables by.
abbrev pub update_history : Btb → BtbEntry → Bhr
update_history b e = if b.is_global_hist then b.global_bhr else e.local_bhr

pub record IsTrainedBtb (w k : ℕ) (b : Btb) (index : ℕ) (e : BtbEntry) (pc : ℕ) (taken : Bool)
    : Type 0 where
  pub global_step :
      IsTrained k b.global_table (get_shared_history b (update_history b e).history_record pc) taken
  pub local_step : IsTrained k e.local_table (update_history b e).history_record taken
  pub returns :
      train b index e pc taken
      ≡ some (record b {
        global_table = global_step.after;
        global_bhr = bhr_update b.global_bhr taken;
        entries =
            set b.entries index (record e {
              local_table = local_step.after;
              local_bhr = bhr_update e.local_bhr taken;
            });
      })

update_history-lt :
    (w k : ℕ) (b : Btb) (e : BtbEntry)
    → IsValid w k b
    → IsClaimed k e
    → (update_history b e).history_record < 2 ^ k
update_history-lt w k b e v c = elim (Bool-cases b.is_global_hist) [
  | inl g ↦ rw g v.history.range
  | inr l ↦ rw l c.history.range
]

train-IsTrainedBtb :
    (w k : ℕ) (b : Btb) (index : ℕ) (e : BtbEntry) (pc : ℕ) (taken : Bool)
    → IsValid w k b
    → IsClaimed k e
    → IsTrainedBtb w k b index e pc taken
unfolding train
train-IsTrainedBtb w k b index e pc taken v c =
    let range = update_history-lt w k b e v c in
    let history = (update_history b e).history_record in
    let g =
      table_update-IsTrained k b.global_table (get_shared_history b history pc) taken v.table
        (get_shared_history-lt k b history pc v.few_bits v.history_size range) in
    let l = table_update-IsTrained k e.local_table history taken c.table range in
    record { global_step = g; local_step = l; returns = ground (arith, g.returns, l.returns) }

-- A written array of entries is well formed if the written entry is.
set-entries :
    (k : ℕ) (entries : List BtbEntry) (index : ℕ) (new : BtbEntry)
    → ((i : ℕ) (e : BtbEntry) → get_elem? entries i ≡ some e → IsEntry k e)
    → IsEntry k new
    → (i : ℕ) (e : BtbEntry) → get_elem? (set entries index new) i ≡ some e
    → IsEntry k e
set-entries k entries index new all v i e found =
    elim (get_elem?-set_cases entries index new i found) [
      | inl same ↦ subst (IsEntry k) (sym same) v
      | inr kept ↦ all i e kept
    ]

-- The buffer with the counters of `update` moved on.
abbrev pub counted : Btb → ℕ → ℕ → Bool → ℕ → Btb
counted b pc target_pc taken pred_dst = record b {
  update_counter = u32 (b.update_counter + 1);
  flush_counter =
      if is_flush pc target_pc taken pred_dst then u32 (b.flush_counter + 1) else b.flush_counter;
}

counted-IsValid :
    (w k : ℕ) (b : Btb) (pc target_pc : ℕ) (taken : Bool) (pred_dst : ℕ)
    → IsValid w k b
    → IsValid w k (counted b pc target_pc taken pred_dst)
counted-IsValid w k b pc target_pc taken pred_dst v = record {
  few_entries = v.few_entries;
  few_bits = v.few_bits;
  btb_size = v.btb_size;
  history_size = v.history_size;
  mask = v.mask;
  sized = v.sized;
  history = v.history;
  table = v.table;
  entries = v.entries;
  branch_count = omega arith;
  flush_count = ground (arith, v.flush_count);
}

update_found :
    (b : Btb) (pc target_pc : ℕ) (taken : Bool) (pred_dst : ℕ) (old : BtbEntry)
    → get_elem? b.entries (get_entry_by_index b pc) ≡ some old
    → update b pc target_pc taken pred_dst
      ≡ train
          (counted b pc target_pc taken pred_dst)
          (get_entry_by_index b pc)
          (claim_entry old (get_tag b pc) target_pc)
          pc
          taken
unfolding update
update_found b pc target_pc taken pred_dst old found = rw (found, update)

-- The buffer after an update.
pub record IsUpdated (w k : ℕ) (b : Btb) (pc target_pc : ℕ) (taken : Bool) (pred_dst : ℕ)
    : Type 0 where
  pub old : BtbEntry
  pub found : get_elem? b.entries (get_entry_by_index b pc) ≡ some old
  pub claimed : IsClaimed k (claim_entry old (get_tag b pc) target_pc)
  pub step :
      IsTrainedBtb w k
        (counted b pc target_pc taken pred_dst)
        (get_entry_by_index b pc)
        (claim_entry old (get_tag b pc) target_pc)
        pc
        taken
  pub after : Btb
  pub after_eq : after ≡ record (counted b pc target_pc taken pred_dst) {
    global_table = step.global_step.after;
    global_bhr = bhr_update b.global_bhr taken;
    entries =
        set b.entries (get_entry_by_index b pc) (record (claim_entry old (get_tag b pc) target_pc) {
          local_table = step.local_step.after;
          local_bhr = bhr_update (claim_entry old (get_tag b pc) target_pc).local_bhr taken;
        });
  }
  pub returns : update b pc target_pc taken pred_dst ≡ some after
  pub valid : IsValid w k after

-- On a well-formed buffer an update returns, with every access in range, and the buffer after it
-- is well formed again.
pub update-IsUpdated :
    (w k : ℕ) (b : Btb) (pc target_pc : ℕ) (taken : Bool) (pred_dst : ℕ)
    → IsValid w k b
    → IsUpdated w k b pc target_pc taken pred_dst
update-IsUpdated w k b pc target_pc taken pred_dst v =
    let index = get_entry_by_index b pc in
    let range : index < length b.entries = rw v.sized (get_entry_by_index-lt w b pc v.mask) in
    let (old, found) = get_elem?_lem b.entries index range in
    let e = claim_entry old (get_tag b pc) target_pc in
    let c = counted b pc target_pc taken pred_dst in
    let cv = counted-IsValid w k b pc target_pc taken pred_dst v in
    let claimed =
      claim_entry-IsClaimed k old (get_tag b pc) target_pc (v.entries index old found) in
    let step = train-IsTrainedBtb w k c index e pc taken cv claimed in
    let local_bhr = bhr_update e.local_bhr taken in
    let new : BtbEntry = record e { local_table = step.local_step.after; local_bhr = local_bhr } in
    let h =
      bhr_update-IsHistory k e.local_bhr taken v.few_bits claimed.history.size
        claimed.history.mask in
    record {
      old = old;
      found = found;
      claimed = claimed;
      step = step;
      after = record c {
        global_table = step.global_step.after;
        global_bhr = bhr_update b.global_bhr taken;
        entries = set b.entries index new;
      };
      after_eq = refl;
      returns = update_found b pc target_pc taken pred_dst old found ∙ step.returns;
      valid = record {
        few_entries = v.few_entries;
        few_bits = v.few_bits;
        btb_size = v.btb_size;
        history_size = v.history_size;
        mask = v.mask;
        sized = length-set b.entries index new ∙ v.sized;
        history =
            bhr_update-IsHistory k b.global_bhr taken v.few_bits v.history.size v.history.mask;
        table = step.global_step.kept;
        entries = set-entries k b.entries index new v.entries (record {
          size = h.size;
          mask = h.mask;
          range = λ _. h.range;
          table = step.local_step.kept;
        });
        branch_count = cv.branch_count;
        flush_count = cv.flush_count;
      };
    }
