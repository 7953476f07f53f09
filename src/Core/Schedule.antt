-- ===== src/Core/Schedule.antt =====
-- HW4/core_api.cpp: the loops of blocked and of fine-grained multithreading, and their results.
use computer_structures.Base.{
  ℕ, zero, suc, ◌+◌, ◌%◌, true, false, Option, none, some, List, if◌then◌else◌, ◌==◌, ltb, leb,
  get_elem?, u32, write, ◌>>=◌,
}
use computer_structures.Core.Memory.{Memory}
use computer_structures.Core.Machine.{Core, Sim, core_init, execute_inst}

abbrev pub with_core : Sim → Core → Sim
with_core s core = record s { core = core }

abbrev pub next_index : Core → ℕ
next_index core = u32 (core.rr_index + 1) % core.num_of_threads

-- The inner loop of `CORE_BlockedMT`: `left` is how far `idle_count` is from the number of threads.
unfoldable pub find_thread : ℕ → Sim → Option Sim
find_thread zero s = some s
find_thread (suc left) s =
    let core = record (s.core) { rr_index = next_index s.core } in
    get_elem? core.core_threads core.rr_index >>= λ temp_thread.
    elim (leb temp_thread.return_cycle core.cycle_count) [
      | true ↦ some (
          with_core s
            (record core { cycle_count = u32 (core.cycle_count + core.context_switch_overhead) }))
      | false ↦ find_thread left (record s { core = core; idle_count = s.idle_count + 1 })
    ]

-- A round of the loop of `CORE_BlockedMT`.
unfoldable pub blocked_round : Sim → Option Sim
blocked_round s = get_elem? s.core.core_threads s.core.rr_index >>= λ current_thread.
    if leb current_thread.return_cycle s.core.cycle_count
    then execute_inst s current_thread
    else (find_thread s.core.num_of_threads (record s { idle_count = 0 }) >>= λ s'. some (
        if s'.idle_count == s'.core.num_of_threads
        then with_core s' (record (s'.core) { cycle_count = u32 (s'.core.cycle_count + 1) })
        else s'))

-- A round of the loop of `CORE_FinegrainedMT`, before the index moves on.
unfoldable pub finegrained_choice : Sim → Option Sim
finegrained_choice s = get_elem? s.core.core_threads s.core.rr_index >>= λ current_thread.
    if leb current_thread.return_cycle s.core.cycle_count
    then (execute_inst s current_thread >>= λ s'. some (record s' { idle_count = 0 }))
    else some (
        if leb s.core.num_of_threads (s.idle_count + 1)
        then record s {
          core = record (s.core) { cycle_count = u32 (s.core.cycle_count + 1) };
          idle_count = 0;
        }
        else record s { idle_count = s.idle_count + 1 })

unfoldable pub finegrained_round : Sim → Option Sim
finegrained_round s = finegrained_choice s >>= λ s'.
    some (with_core s' (record (s'.core) { rr_index = next_index s'.core }))

-- The loop over the rounds, while a thread is not halted; `none` also when the fuel runs out.
unfoldable pub run_rounds : (Sim → Option Sim) → ℕ → Sim → Option Sim
run_rounds round zero s = none
run_rounds round (suc fuel) s = elim (ltb s.halt_count s.core.num_of_threads) [
  | false ↦ some s
  | true ↦ round s >>= λ s'. run_rounds round fuel s'
]

abbrev pub start : Memory → Sim
start m = record { core = core_init m; memory = m; idle_count = 0; halt_count = 0 }

unfoldable pub core_blocked_mt : ℕ → Memory → Option Sim
core_blocked_mt fuel m = run_rounds blocked_round fuel (start m)

unfoldable pub core_finegrained_mt : ℕ → Memory → Option Sim
core_finegrained_mt fuel m = run_rounds finegrained_round fuel (start m)

-- The two numbers whose quotient is the CPI.
unfoldable pub core_cpi : Core → ℕ × ℕ
core_cpi core = (core.cycle_count, core.inst_count)

-- `context[threadid] = core_threads[threadid].regs`
unfoldable pub core_ctx : Core → List (List ℕ) → ℕ → Option (List (List ℕ))
core_ctx core context threadid =
    get_elem? core.core_threads threadid >>= λ t. write context threadid t.regs
