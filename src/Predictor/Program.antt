-- ===== src/Predictor/Program.antt =====
-- HW1/bp_main.c: `main` past the parsing of the configuration, on the parsed lines of the trace.
use computer_structures.Base.{
  ℕ, ◌^◌, ◌<◌, ◌≡◌, refl, arith, Bool, true, Option, some, List, length, u32, ◌>>=◌, bind-some,
}
use computer_structures.Base.Int.{pos, negsuc}
use computer_structures.Predictor.Fsm.{Raw}
use computer_structures.Predictor.Btb.{Btb, Config, btb}
use computer_structures.Predictor.Api.{
  Branch, Report, SimStats, bp_init, bp_get_stats, update_stats, simulate,
}
use computer_structures.Predictor.Run.{
  IsConfig, Fit, Dumped, flushes, flushes-le, btb-IsValid, simulate-IsRun,
}

-- What `main` does: it exits with an error, or prints the reports, each with a buffer after it, and the
-- statistics.
pub data Output : Type 0 where
  init_failed : Output
  finished : List Report → SimStats → Output

unfoldable pub bp_main : Bool → Raw → Config → List Branch → Option Output
bp_main allocated raw c trace =
    let (result, bp_btb) = bp_init allocated raw c in
    elim result [
      | negsuc _ ↦ some init_failed
      | pos _ ↦ bp_btb >>= λ b.
          simulate b trace >>= λ r. bp_get_stats (some r.1) >>= λ stats. some (finished r.0 stats.0)
    ]

counters_of :
    (b : Btb)
    → ((update_stats b).br_num ≡ u32 b.update_counter)
      × ((update_stats b).flush_num ≡ u32 b.flush_counter)
unfolding update_stats
counters_of b = (refl, refl)

bp_main-simulate :
    (raw : Raw) (c : Config) (trace : List Branch) (reports : List Report) (after : Btb)
    → simulate (btb raw c) trace ≡ some (reports, after)
    → bp_main true raw c trace ≡ some (finished reports (update_stats after))
unfolding bp_main bp_init bp_get_stats
bp_main-simulate raw c trace reports after e = bind-some (simulate (btb raw c) trace) _ e refl

no_counts :
    (raw : Raw) (c : Config) → ((btb raw c).update_counter ≡ 0) × ((btb raw c).flush_counter ≡ 0)
unfolding btb
no_counts raw c = (refl, refl)

-- `main` past the parsing, from a configuration that the constructor can hold and a history
-- register that happens to be in range, finishes on every trace of fewer than 2 ^ 31 branches: it
-- prints one report for each branch, in order, each followed by the buffer that its update leaves
-- and the next branch is predicted from, and then as `br_num` the length of the trace and as
-- `flush_num` the number of branches whose reported destination is not the instruction that ran
-- next.
pub bp_main-Fit :
    (w : ℕ) (raw : Raw) (c : Config) (trace : List Branch)
    → IsConfig w c
    → raw.history < 2 ^ c.history_size
    → length trace < 2 ^ 31
    → (reports : List Report) × (stats : SimStats) × (bp_main true raw c trace
        ≡ some (finished reports stats))
      × Fit trace reports
      × Dumped (btb raw c) trace reports
      × (stats.br_num ≡ length trace)
      × (stats.flush_num ≡ flushes trace reports)
bp_main-Fit w raw c trace v range short =
    let (no_branches, no_flushes) = no_counts raw c in
    let r =
      simulate-IsRun w c.history_size (btb raw c) trace (btb-IsValid w raw c v range)
        (omega (arith, no_branches)) (omega (arith, no_flushes)) in
    let most = flushes-le trace r.reports in
    let (branches, flushed) = counters_of r.after in
    (
      r.reports,
      update_stats r.after,
      bp_main-simulate raw c trace r.reports r.after r.returns,
      r.fit,
      r.dumped,
      omega (arith, branches, no_branches, r.branches),
      omega (arith, flushed, no_flushes, r.flushed, most),
    )
