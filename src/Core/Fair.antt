-- ===== src/Core/Fair.antt =====
-- HW4/core_api.cpp: the turns that fine-grained multithreading gives to its threads.
use computer_structures.Base.{
  ℕ, zero, suc, ◌+◌, ◌-◌, ◌%◌, ◌≤◌, ◌<◌, ◌≡◌, ◌≢◌, inl, inr, sym, ap, ◌∙◌, arith, Option, none,
  some, List, get_elem?, get_elem?_lem, get_elem?-set_ne, lt_cases, Option-cases, subst,
}
use native.Mathlib.Nat.{mod-eq_of_lt, add-mod_right}
use computer_structures.Core.Memory.{Instruction}
use computer_structures.Core.Machine.{Thread, Core, Sim, never, execute_inst}
use computer_structures.Core.Schedule.{finegrained_round, next_index}
use computer_structures.Core.Search.{IsCore, result, place}
use computer_structures.Core.Work.{lines_in, halted_in-lt}
use computer_structures.Core.Retire.{execute_inst-IsRetired}
use computer_structures.Core.Sound.{IsSoundSim, retired-IsSound}
use computer_structures.Core.Finegrained.{
  turned, finegrained_round-ready, finegrained_round-Waited, place-next_index, place-zero,
}
use computer_structures.Core.Turns.{passed-IsSound}

-- So many rounds of the loop.
pub data Rounds (round : Sim → Option Sim) : ℕ → Sim → Sim → Type 0 where
  no_rounds : {s : Sim} → Rounds round 0 s s
  one_more :
      {k : ℕ} {s middle last : Sim}
      → s.halt_count < s.core.num_of_threads
      → round s ≡ some middle
      → Rounds round k middle last
      → Rounds round (suc k) s last

-- The thread `t` at index `i` is the current one after `k` rounds, as it was, and can run; or an
-- instruction before that is outside its program, or accesses what is outside the registers or
-- the memory.
pub data Served (k : ℕ) (s : Sim) (i : ℕ) (t : Thread) : Type 0 where
  its_turn :
      (last : Sim)
      → Rounds finegrained_round k s last
      → last.core.rr_index ≡ i
      → get_elem? last.core.core_threads i ≡ some t
      → t.return_cycle ≤ last.core.cycle_count
      → Served k s i t
  fault_before :
      (j : ℕ) (last : Sim) (u : Thread)
      → j < k
      → Rounds finegrained_round j s last
      → get_elem? last.core.core_threads last.core.rr_index ≡ some u
      → u.return_cycle ≤ last.core.cycle_count
      → execute_inst last u ≡ none
      → Served k s i t

Served-step :
    (k i : ℕ) (s middle : Sim) (t : Thread)
    → s.halt_count < s.core.num_of_threads
    → finegrained_round s ≡ some middle
    → Served k middle i t
    → Served (suc k) s i t
Served-step k i s middle t h e (its_turn last r index there ready) =
    its_turn last (one_more h e r) index there ready
Served-step k i s middle t h e (fault_before j last u less r there runs fault) =
    fault_before (suc j) last u (omega arith) (one_more h e r) there runs fault

-- Less than a turn on is another index.
place-ne :
    (core : Core) (k : ℕ)
    → IsCore core
    → suc k < core.num_of_threads
    → core.rr_index ≢ place core (suc k)
place-ne core k c h same = elim (lt_cases (core.rr_index + suc k) core.num_of_threads) [
  | inl before ↦ let known = mod-eq_of_lt before in omega (arith, known, same)
  | inr after ↦
      let rest : core.rr_index + suc k - core.num_of_threads < core.num_of_threads =
        omega (arith, c.index) in
      let split : core.rr_index + suc k
          ≡ core.rr_index + suc k - core.num_of_threads + core.num_of_threads =
        omega arith in
      let known : place core (suc k) ≡ core.rr_index + suc k - core.num_of_threads =
        ap (λ (x : ℕ). x % core.num_of_threads) split
        ∙ (add-mod_right (core.rr_index + suc k - core.num_of_threads) core.num_of_threads
            ∙ mod-eq_of_lt rest) in
      omega (arith, known, same)
]

-- The executed thread is the only one that an execution changes.
kept-thread :
    (s s' : Sim) (u t : Thread) (i : ℕ)
    → IsCore s.core
    → execute_inst s u ≡ some s'
    → s.core.rr_index ≢ i
    → get_elem? s.core.core_threads i ≡ some t
    → (get_elem? s'.core.core_threads i ≡ some t) × (s'.core.num_of_threads ≡ s.core.num_of_threads)
kept-thread s s' u t i c done other e =
    let r = execute_inst-IsRetired s s' u (rw c.sized c.index) done in
    (
      subst (λ core. get_elem? core.core_threads i ≡ some t) (sym r.core)
          (get_elem?-set_ne s.core.core_threads s.core.rr_index i r.moved other ∙ e),
      ap (λ (core : Core). core.num_of_threads) r.core,
    )

-- In a state of the loop that satisfies the invariant of its rounds, with room on the clock and
-- programs of fewer lines than the greatest unsigned int, a thread that can run and is `k` places
-- on, less than a turn, is the current thread after exactly `k` rounds, unchanged and able to run,
-- and the loop does not end before; or in an earlier one of these rounds the current thread can run
-- and is to execute an instruction that is outside its program, or that accesses what is outside
-- the registers or the data.
pub finegrained_round-Served :
    {ps : List (List Instruction)} {n latency overhead : ℕ} (left k : ℕ) (s : Sim) (i : ℕ)
    (t : Thread)
    → IsSoundSim ps n latency overhead left s
    → lines_in ps < never
    → k < s.core.num_of_threads
    → place s.core k ≡ i
    → get_elem? s.core.core_threads i ≡ some t
    → t.return_cycle ≤ s.core.cycle_count
    → s.core.cycle_count + k + latency + 1 < never
    → Served k s i t
finegrained_round-Served left zero s i t sound short below here e ready small =
    its_turn s no_rounds (sym (place-zero s.core sound.sized) ∙ here) e ready
finegrained_round-Served {ps} {n} {latency} {overhead} left (suc k) s i t sound short below here e
      ready small =
    let (u, eu) =
      get_elem?_lem s.core.core_threads s.core.rr_index (rw sound.sized.sized sound.sized.index) in
    let h : s.halt_count < s.core.num_of_threads = omega (
      arith,
      halted_in-lt s.core.core_threads i t e (λ n. omega (arith, n)),
      sound.counted,
      sound.sized.sized,
    ) in
    elim (lt_cases s.core.cycle_count u.return_cycle) [
      | inl waits ↦
          let w = finegrained_round-Waited s (u, eu, waits) (omega arith) in
          let after = result s w.cycles (next_index s.core) w.idle in
          Served-step k i s after t h w.returns (
            finegrained_round-Served left k after i t
              (passed-IsSound ps n latency overhead short s w.cycles w.idle sound w.later) short
              (omega arith) (place-next_index s.core k w.cycles sound.sized ∙ here) e
              (omega (arith, w.later)) (omega (arith, w.soon)))
      | inr runs ↦ elim (Option-cases (execute_inst s u)) [
        | inl fault ↦ fault_before 0 s u (omega arith) no_rounds eu runs fault
        | inr (s', done) ↦
            let (less, one, sound', clock, index) =
              retired-IsSound ps n latency overhead short s s' u left sound eu runs (omega arith)
                done in
            let other : s.core.rr_index ≢ i =
              subst (λ x. s.core.rr_index ≢ x) here (place-ne s.core k sound.sized below) in
            let (e', width) = kept-thread s s' u t i sound.sized done other e in
            let here' : place s'.core (suc k) ≡ i =
              ap (λ x. (x + suc k) % s'.core.num_of_threads) index
              ∙ (ap (λ x. (s.core.rr_index + suc k) % x) width ∙ here) in
            Served-step k i s (turned s') t h (finegrained_round-ready s u s' eu runs done) (
              finegrained_round-Served less k (turned s') i t
                (passed-IsSound ps n latency overhead short s' s'.core.cycle_count 0 sound'
                  (omega arith))
                short (omega (arith, width))
                (place-next_index s'.core k s'.core.cycle_count sound'.sized ∙ here') e'
                (omega (arith, clock)) (omega (arith, clock)))
      ]
    ]
