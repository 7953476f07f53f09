-- ===== src/Predictor/Tests.antt =====
-- HW1: runs of the predictor, and the theorems about it at concrete buffers.
use computer_structures.Base.{
  ◌+◌, ◌%◌, ◌^◌, ◌≡◌, refl, arith, true, false, none, some, List, [], ◌∷◌, if◌then◌else◌, u32,
  get_elem?,
}
use computer_structures.Base.Words.{log2}
use computer_structures.Base.Int.{pos}
use computer_structures.Predictor.Fsm.{
  Raw, Bhr, BimodalFsm, fsm_update, bhr, bhr_update, reset, reset_loop, fsm_table, table_update,
  get_state_by_index,
}
use computer_structures.Predictor.Btb.{
  Btb, BtbEntry, Config, btb, btb_entry, get_shared_history, get_tag, get_entry_by_index, is_flush,
  claim_entry, train, update, predict_entry, predict, is_taken_state,
}
use computer_structures.Predictor.Api.{
  Report, SimStats, Branch, update_stats, simulate_branch, simulate,
}
use computer_structures.Predictor.Counters
use computer_structures.Predictor.Counters.{IsState}
use computer_structures.Predictor.Shift
use computer_structures.Predictor.Shift.{bhr_updates, shift_in}
use computer_structures.Predictor.Prediction.{hit, predict_table, predict_index}
use computer_structures.Predictor.Valid.{IsValid}
use computer_structures.Predictor.Stats
use computer_structures.Predictor.Stats.{hardware_bits}
use computer_structures.Predictor.Run
use computer_structures.Predictor.Run.{IsConfig, IsRun, Fit, Dumped, flushes}
use computer_structures.Predictor.Program
use computer_structures.Predictor.Program.{bp_main, finished}
use computer_structures.Predictor.Training
use computer_structures.Predictor.Training.{IsLearnt}
use computer_structures.Predictor.Locality

abbrev raw : Raw
raw = record { machine = record { state = pos 7 }; history = 0; tag = 99; target = 77 }

abbrev config : Config
config = record {
  btb_size = 4;
  history_size = 2;
  tag_size = 10;
  fsm_state = 1;
  is_global_hist = false;
  is_global_table = false;
  shared = 0;
}

small : Btb
small = btb raw config

config-IsConfig : IsConfig 2 config
config-IsConfig = record {
  btb_size = refl;
  few_entries = omega arith;
  few_bits = omega arith;
  state = omega arith;
}

small-IsValid : IsValid 2 2 small
unfolding small
small-IsValid = Run.btb-IsValid 2 raw config config-IsConfig (omega arith)

abbrev trace : List Branch
trace =
    record { pc = 0x100; target_pc = 0x200; taken = true }
    ∷ record { pc = 0x100; target_pc = 0x200; taken = true }
    ∷ record { pc = 0x104; target_pc = 0x300; taken = false }
    ∷ []

-- Everything that a run computes with.
program : Unit {0}
unfolding small btb btb_entry bhr fsm_table reset reset_loop log2 get_shared_history get_tag
    get_entry_by_index is_flush claim_entry train update predict_entry predict simulate_branch
    simulate fsm_update bhr_update table_update get_state_by_index update_stats
program = tt

-- A taken branch is flushed, and the counter of a branch never seen says not taken.
predict_first : predict small 0x100 ≡ some (false, 0x104)
unfolding program
predict_first = refl

index_first : get_entry_by_index small 0x108 ≡ 2
unfolding program
index_first = refl

simulate-IsRun_example : IsRun 2 2 small trace
unfolding small btb
simulate-IsRun_example =
    Run.simulate-IsRun 2 2 small trace small-IsValid (omega arith) (omega arith)

btb-IsValid_example : IsValid 2 2 (btb raw config)
btb-IsValid_example = Run.btb-IsValid 2 raw config config-IsConfig (omega arith)

updates-IsLearnt_example : IsLearnt 2 2 small 0x100 0x200 true (0 ∷ 1 ∷ 2 ∷ 3 ∷ [])
updates-IsLearnt_example =
    Training.updates-IsLearnt 2 2 true 0x100 0x200 small (0 ∷ 1 ∷ 2 ∷ 3 ∷ []) (omega arith) refl
      small-IsValid

predict-update_self_example :
    (b' : Btb) × (e : BtbEntry) × (m : BimodalFsm) × (update small 0x100 0x200 true 0x104 ≡ some b')
    × (get_elem? b'.entries (get_entry_by_index b' 0x100) ≡ some e)
    × (hit b' e 0x100 ≡ true)
    × (get_elem? (predict_table b' e).fsm (predict_index b' e 0x100) ≡ some m)
    × (predict b' 0x100
        ≡ some (if is_taken_state m.state then (true, 0x200) else (false, u32 (0x100 + 4))))
predict-update_self_example =
    Locality.predict-update_self 2 2 small 0x100 0x200 true 0x104 small-IsValid

predict-update_ne_example :
    (b' : Btb) × (update small 0x100 0x200 true 0x104 ≡ some b')
    × (predict b' 0x108 ≡ predict small 0x108)
unfolding program
predict-update_ne_example =
    Locality.predict-update_ne 2 2 small 0x100 0x200 true 0x104 0x108 small-IsValid refl refl
      (omega arith)

abbrev register : Bhr
register = record { history_size = 2; history_record = 1000; history_mask = 3 }

bhr_updates_lem_example :
    (bhr_updates register (true ∷ false ∷ true ∷ [])).history_record
    ≡ shift_in 0 (true ∷ false ∷ true ∷ []) % 2 ^ 2
bhr_updates_lem_example =
    Shift.bhr_updates_lem register true (false ∷ true ∷ []) (omega arith) refl (omega arith)

fsm_update_hysteresis_example :
    is_taken_state
      (fsm_update
        (fsm_update (fsm_update (fsm_update (record { state = pos 0 }) true) true) true)
        false).state
    ≡ true
fsm_update_hysteresis_example =
    Counters.fsm_update_hysteresis (record { state = pos 0 }) true false (omega arith)

update_stats_lem_example :
    ((update_stats small).size ≡ hardware_bits small)
    × ((update_stats small).br_num ≡ small.update_counter)
    × ((update_stats small).flush_num ≡ small.flush_counter)
unfolding program
update_stats_lem_example =
    Stats.update_stats_lem small (omega arith) (omega arith) (omega arith) (omega arith)

abbrev bad_raw : Raw
bad_raw = record raw { history = 4 }

abbrev global_config : Config
global_config = record config { is_global_hist = true }

update_unset_history_example : update (btb bad_raw global_config) 0x100 0x200 true 0x104 ≡ none
update_unset_history_example =
    Locality.update_unset_history 2 bad_raw global_config 0x100 0x200 true 0x104
      (record {
        btb_size = refl;
        few_entries = omega arith;
        few_bits = omega arith;
        state = omega arith;
      })
      refl refl (omega arith)

bp_main-Fit_example :
    (reports : List Report) × (stats : SimStats) × (bp_main true raw config trace
      ≡ some (finished reports stats))
    × Fit trace reports
    × Dumped (btb raw config) trace reports
    × (stats.br_num ≡ 3)
    × (stats.flush_num ≡ flushes trace reports)
bp_main-Fit_example =
    Program.bp_main-Fit 2 raw config trace config-IsConfig (omega arith) (omega arith)
