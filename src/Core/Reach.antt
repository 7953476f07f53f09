-- ===== src/Core/Reach.antt =====
-- HW4/core_api.cpp: the states that the loop over the rounds goes through, and how it ends.
use computer_structures.Base.{
  ℕ, suc, ◌+◌, ◌%◌, ◌≤◌, ◌<◌, ◌≡◌, inl, inr, ap, ◌∙◌, arith, Option, none, some, List, ltb, refl,
  ◌-◌, true, false, lt_cases, Option-cases, get_elem?, bind-some,
}
use native.Mathlib.Nat.{mod-eq_of_lt, add-mod_right}
use computer_structures.Core.Memory.{Instruction}
use computer_structures.Core.Machine.{Thread, Core, Sim, never, execute_inst}
use computer_structures.Core.Schedule.{run_rounds}
use computer_structures.Core.Search.{IsReady, place}
use computer_structures.Core.Work.{lines_in, halted_in-le, halted_in-some, halted_in-all}
use computer_structures.Core.Sound.{IsSoundSim, retired-IsSound}

-- The rounds that the loop runs.
pub data Reach (round : Sim → Option Sim) : Sim → Sim → Type 0 where
  stop : {s : Sim} → Reach round s s
  step :
      {s middle last : Sim}
      → s.halt_count < s.core.num_of_threads
      → round s ≡ some middle
      → Reach round middle last
      → Reach round s last

-- The loop returns when every thread has halted, or it has come to an instruction that is outside its
-- program, or that accesses what is outside the registers or the memory.
pub data Ended (round : Sim → Option Sim) (run : Option Sim) (s : Sim) : Type 0 where
  halted :
      (last : Sim)
      → Reach round s last
      → run ≡ some last
      → last.halt_count ≡ last.core.num_of_threads
      → ((i : ℕ) (t : Thread)
          → get_elem? last.core.core_threads i ≡ some t
          → t.return_cycle ≡ never)
      → Ended round run s
  faulted :
      (last : Sim) (t : Thread)
      → Reach round s last
      → get_elem? last.core.core_threads last.core.rr_index ≡ some t
      → t.return_cycle ≤ last.core.cycle_count
      → execute_inst last t ≡ none
      → Ended round run s

-- The loop of `fuel` rounds at most.
abbrev pub Ends : (Sim → Option Sim) → ℕ → Sim → Type 0
Ends round fuel s = Ended round (run_rounds round fuel s) s

module _ (round : Sim → Option Sim) where
  run_rounds-done :
      (fuel : ℕ) (s : Sim)
      → s.core.num_of_threads ≤ s.halt_count
      → run_rounds round (suc fuel) s ≡ some s
  unfolding run_rounds
  run_rounds-done fuel s h =
      let over : ltb s.halt_count s.core.num_of_threads ≡ false = ground arith in
      rw (run_rounds, over)

  run_rounds-more :
      (fuel : ℕ) (s middle : Sim)
      → s.halt_count < s.core.num_of_threads
      → round s ≡ some middle
      → run_rounds round (suc fuel) s ≡ run_rounds round fuel middle
  unfolding run_rounds
  run_rounds-more fuel s middle h e =
      let more : ltb s.halt_count s.core.num_of_threads ≡ true = ground arith in
      rw (run_rounds, more) (bind-some (round s) _ e refl)

  pub Ended-step :
      (fuel : ℕ) (s middle : Sim)
      → s.halt_count < s.core.num_of_threads
      → round s ≡ some middle
      → Ends round fuel middle
      → Ends round (suc fuel) s
  Ended-step fuel s middle h e (halted last r runs count all) =
      halted last (step h e r) (run_rounds-more fuel s middle h e ∙ runs) count all
  Ended-step fuel s middle h e (faulted last t r et ready fault) =
      faulted last t (step h e r) et ready fault

  pub Ended-halted :
      {ps : List (List Instruction)} {n latency overhead left : ℕ} (fuel : ℕ) (s : Sim)
      → IsSoundSim ps n latency overhead left s
      → s.core.num_of_threads ≤ s.halt_count
      → Ends round (suc fuel) s
  Ended-halted fuel s i h =
      let most = halted_in-le s.core.core_threads in
      halted s stop (run_rounds-done fuel s h) (omega (arith, most, i.counted, i.sized.sized))
        (halted_in-all s.core.core_threads (omega (arith, i.counted, i.sized.sized)))

-- A round that executes an instruction and goes on from there.
pub executed_Ends :
    (round : Sim → Option Sim) (then_round : Sim → Sim) {ps : List (List Instruction)}
    {n latency overhead : ℕ} (short : lines_in ps < never) (left : ℕ) (s : Sim) (fuel : ℕ)
    → IsSoundSim ps n latency overhead left s
    → s.halt_count < s.core.num_of_threads
    → IsReady s.core s.core.rr_index
    → ((t : Thread) (s' : Sim)
        → get_elem? s.core.core_threads s.core.rr_index ≡ some t
        → t.return_cycle ≤ s.core.cycle_count
        → execute_inst s t ≡ some s'
        → round s ≡ some (then_round s'))
    → s.core.cycle_count + latency + 1 < never
    → ((less : ℕ) (s' : Sim)
        → left ≡ suc less
        → IsSoundSim ps n latency overhead less s'
        → s'.core.cycle_count ≡ s.core.cycle_count + 1
        → s'.core.rr_index ≡ s.core.rr_index
        → Ends round fuel (then_round s'))
    → Ends round (suc fuel) s
executed_Ends round then_round {ps} {n} {latency} {overhead} short left s fuel i h (t, e, ready)
      fires small then_Ends =
    elim (Option-cases (execute_inst s t)) [
      | inl fault ↦ faulted s t stop e ready fault
      | inr (s', done) ↦
          let (less, one, i', clock, index) =
            retired-IsSound ps n latency overhead short s s' t left i e ready small done in
          Ended-step round fuel s (then_round s') h (fires t s' e ready done)
            (then_Ends less s' one i' clock index)
    ]

-- A thread that has not halted can run in `wait` cycles at most.
pub record Ahead (wait : ℕ) (core : Core) : Type 0 where
  pub index : ℕ
  pub thread : Thread
  pub there : get_elem? core.core_threads index ≡ some thread
  pub soon : thread.return_cycle ≤ core.cycle_count + wait

pub IsSound-Ahead :
    {ps : List (List Instruction)} {n latency overhead left : ℕ} (s : Sim)
    → IsSoundSim ps n latency overhead left s
    → s.halt_count < s.core.num_of_threads
    → Ahead latency s.core
IsSound-Ahead s i h =
    let (j, t, e, other) =
      halted_in-some s.core.core_threads (omega (arith, h, i.counted, i.sized.sized)) in
    elim (i.due j t e) [
      | inl ended ↦ absurd (other ended)
      | inr near ↦ record { index = j; thread = t; there = e; soon = near }
    ]

-- Each index is less than a whole turn away.
pub place_lem :
    (core : Core) (i : ℕ)
    → core.rr_index < core.num_of_threads
    → i < core.num_of_threads
    → (k : ℕ) × (k < core.num_of_threads) × (place core k ≡ i)
place_lem core i r h = elim (lt_cases i core.rr_index) [
  | inr after ↦ (
    i - core.rr_index,
    omega arith,
    ap (λ (x : ℕ). x % core.num_of_threads) (omega arith) ∙ mod-eq_of_lt h,
  )
  | inl before ↦ (
    i + core.num_of_threads - core.rr_index,
    omega arith,
    ap (λ (x : ℕ). x % core.num_of_threads) (omega arith)
        ∙ (add-mod_right i core.num_of_threads ∙ mod-eq_of_lt h),
  )
]

-- The index is also reached by a turn of at least one place.
pub place_suc_lem :
    (core : Core) (i : ℕ)
    → core.rr_index < core.num_of_threads
    → i < core.num_of_threads
    → (k : ℕ) × (k < core.num_of_threads) × (place core (suc k) ≡ i)
place_suc_lem core i r h = elim (lt_cases core.rr_index i) [
  | inl after ↦ (
    i - core.rr_index - 1,
    omega arith,
    ap (λ (x : ℕ). x % core.num_of_threads) (omega arith) ∙ mod-eq_of_lt h,
  )
  | inr before ↦ (
    i + core.num_of_threads - core.rr_index - 1,
    omega arith,
    ap (λ (x : ℕ). x % core.num_of_threads) (omega arith)
        ∙ (add-mod_right i core.num_of_threads ∙ mod-eq_of_lt h),
  )
]
