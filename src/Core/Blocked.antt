-- ===== src/Core/Blocked.antt =====
-- HW4/core_api.cpp: the end of `CORE_BlockedMT`.
use computer_structures.Base.{
  ℕ, zero, suc, ◌+◌, ◌-◌, ◌*◌, ◌≤◌, ◌<◌, ◌≡◌, inl, inr, ap, ◌∙◌, arith, true, some, List, get_elem?,
  get_elem?_lem, lt_of_get_elem?, lt_cases, max, ◌^◌, leb, u32, bind-some, subst,
}
use native.Mathlib.Nat.{mod-lt}
use computer_structures.Core.Memory.{Memory, Instruction}
use computer_structures.Core.Machine.{Thread, Core, Sim, core_init, never, execute_inst}
use computer_structures.Core.Schedule.{blocked_round, core_blocked_mt, start}
use computer_structures.Core.Search.{IsCore, IsReady, IsWaiting, result, switched, place}
use computer_structures.Core.Switch.{switch_to, stall, blocked_round-Switched}
use computer_structures.Core.Work.{lines_in}
use computer_structures.Core.Sound.{IsSoundSim, moved-IsSound}
use computer_structures.Core.Start.{
  cycles_for, rounds_for, cycles_for-le, rounds_for-le, latency, first_lines, first_lines-le,
  start-IsSound, start-IsReady,
}
use computer_structures.Core.Reach.{
  Ended, Ends, Ended-step, Ended-halted, executed_Ends, Ahead, IsSound-Ahead, place_suc_lem,
}

blocked_round-ready :
    (s : Sim) (t : Thread)
    → get_elem? s.core.core_threads s.core.rr_index ≡ some t
    → t.return_cycle ≤ s.core.cycle_count
    → blocked_round s ≡ execute_inst s t
unfolding blocked_round
blocked_round-ready s t e h =
    let ready : leb t.return_cycle s.core.cycle_count ≡ true = ground arith in
    bind-some (get_elem? s.core.core_threads s.core.rr_index) _ e (rw ready)

-- When no thread can run, one that can run in `wait` cycles is not there yet.
wait-pos :
    (core : Core) (wait : ℕ)
    → IsCore core
    → Ahead wait core
    → ((j : ℕ) → j < core.num_of_threads → IsWaiting core (place core (suc j)))
    → 0 < wait
wait-pos core wait c a others =
    let range = lt_of_get_elem? core.core_threads a.index a.there in
    let (k, below, here) = place_suc_lem core a.index c.index (omega (arith, range, c.sized)) in
    let (u, eu, late) = others k below in
    let there = a.there in
    let eu' = ap (λ x. get_elem? core.core_threads x) here in
    let same : u ≡ a.thread = cc in
    omega (arith, late, a.soon, ap (λ (x : Thread). x.return_cycle) same)

module _ (ps : List (List Instruction)) (n latency overhead : ℕ) (short : lines_in ps < never) where
  abbrev cycles : ℕ → ℕ
  cycles left = cycles_for (latency + overhead + 2) left

  abbrev rounds : ℕ → ℕ
  rounds left = rounds_for (latency + 2) left

  -- What is to be shown of a state whose current thread can run.
  abbrev ReadyEnds : ℕ → Type 0
  ReadyEnds left =
      (s : Sim) (fuel : ℕ)
      → IsSoundSim ps n latency overhead left s
      → s.halt_count < s.core.num_of_threads
      → IsReady s.core s.core.rr_index
      → s.core.cycle_count + cycles left < never
      → rounds left ≤ fuel
      → Ends blocked_round fuel s

  -- A thread that has not halted is reached by waiting and by one switch.
  wait_Ended :
      {left : ℕ} (next : ReadyEnds left) (wait : ℕ) (s : Sim) (fuel : ℕ)
      → IsSoundSim ps n latency overhead left s
      → s.halt_count < s.core.num_of_threads
      → Ahead wait s.core
      → s.core.cycle_count + wait + overhead + cycles left < never
      → wait + 1 + rounds left ≤ fuel
      → Ends blocked_round fuel s
  wait_Ended next wait s zero i h a small enough = absurd (omega arith)
  wait_Ended {left} next wait s (suc fuel) i h a small enough =
      let (t, e) =
        get_elem?_lem s.core.core_threads s.core.rr_index (rw i.sized.sized i.sized.index) in
      elim (lt_cases s.core.cycle_count t.return_cycle) [
        | inr ready ↦ next s (suc fuel) i h (t, e, ready) (omega arith) (omega arith)
        | inl waits ↦ elim (blocked_round-Switched s i.sized (t, e, waits)) [
          | switch_to k below others (u, eu, ready) eq ↦
              let later : s.core.cycle_count + overhead ≡ switched s.core = omega (arith, i.pays) in
              Ended-step blocked_round fuel s (result s (switched s.core) (place s.core (suc k)) k)
                h eq
                (next (result s (switched s.core) (place s.core (suc k)) k) fuel
                  (moved-IsSound ps n latency overhead s.core (switched s.core)
                    (place s.core (suc k)) (omega (arith, later))
                    (mod-lt (s.core.rr_index + suc k) (omega (arith, i.sized.index))) i)
                  h (u, eu, omega (arith, later, ready)) (omega (arith, later)) (omega arith))
          | stall others eq ↦
              let more = wait-pos s.core wait i.sized a others in
              let tick : u32 (s.core.cycle_count + 1) ≡ s.core.cycle_count + 1 = omega arith in
              let after =
                result s (u32 (s.core.cycle_count + 1)) s.core.rr_index s.core.num_of_threads in
              Ended-step blocked_round fuel s after h eq (
                wait_Ended next (wait - 1) after fuel
                  (moved-IsSound ps n latency overhead s.core (u32 (s.core.cycle_count + 1))
                    s.core.rr_index (omega (arith, tick)) i.sized.index i)
                  h
                  (record {
                    index = a.index;
                    thread = a.thread;
                    there = a.there;
                    soon = omega (arith, tick, more, a.soon);
                  })
                  (omega (arith, tick, more)) (omega (arith, more)))
        ]
      ]

  -- Whatever thread is the current one, and whether threads are left or not.
  any_Ended :
      {left : ℕ} (next : ReadyEnds left) (s : Sim) (fuel : ℕ)
      → IsSoundSim ps n latency overhead left s
      → s.core.cycle_count + latency + overhead + cycles left < never
      → latency + 1 + rounds left ≤ fuel
      → Ends blocked_round fuel s
  any_Ended next s zero i small enough = absurd (omega arith)
  any_Ended next s (suc fuel) i small enough = elim (lt_cases s.halt_count s.core.num_of_threads) [
    | inl h ↦ wait_Ended next latency s (suc fuel) i h (IsSound-Ahead s i h) small enough
    | inr over ↦ Ended-halted blocked_round fuel s i over
  ]

  ready_Ended : (left : ℕ) → ReadyEnds left
  ready_Ended zero s zero i h r small enough = absurd (omega arith)
  ready_Ended zero s (suc fuel) i h r small enough =
      executed_Ends blocked_round (λ x. x) short zero s fuel i h r
        (λ t s' e ready done. blocked_round-ready s t e ready ∙ done) (omega arith)
        (λ less s' one i' clock index. absurd (omega arith))
  ready_Ended (suc left) s zero i h r small enough = absurd (omega arith)
  ready_Ended (suc left) s (suc fuel) i h r small enough =
      executed_Ends blocked_round (λ x. x) short (suc left) s fuel i h r
        (λ t s' e ready done. blocked_round-ready s t e ready ∙ done) (omega arith)
        (λ less s' one i' clock index.
          any_Ended (ready_Ended left) s' fuel
            (subst (λ l. IsSoundSim ps n latency overhead l s') (omega arith) i')
            (omega (arith, clock)) (omega arith))

-- On a loaded memory with at least one thread and fewer than 2 ^ 32, if the lines of all programs
-- and one more, times the sum of the greater latency, the overhead of a switch and 2, is below the
-- greatest unsigned int, the loop of blocked multithreading does not go on for ever: with fuel for
-- as many rounds as the greater latency and 2 for each line, and for two more, it returns with
-- every thread halted, or its rounds come to a state whose current thread is to execute an
-- instruction that is outside its program, or that accesses what is outside the registers or the
-- data.
pub core_blocked_mt-Ended :
    (m : Memory) (fuel : ℕ)
    → 0 < m.threadnumber
    → m.threadnumber < 2 ^ 32
    → suc (lines_in m.instructions) * (max m.load_latency m.store_latency + m.switch_cycles + 2)
      < never
    → lines_in m.instructions * (max m.load_latency m.store_latency + 2) + 2 ≤ fuel
    → Ended blocked_round (core_blocked_mt fuel m) (start m)
unfolding core_blocked_mt core_init
core_blocked_mt-Ended m fuel some_threads few small enough =
    let lat = latency m some_threads few in
    let lines = lines_in m.instructions in
    let first = first_lines m some_threads few in
    let most = first_lines-le m some_threads few in
    let cycles_most = cycles_for-le (lat + m.switch_cycles + 2) first lines most in
    let rounds_most = rounds_for-le (lat + 2) first lines most in
    let short : lines < never = grind arith in
    ready_Ended m.instructions m.threadnumber lat m.switch_cycles short first (start m) fuel
      (start-IsSound m some_threads few) some_threads (start-IsReady m some_threads few)
      (omega (arith, cycles_most, small)) (omega (arith, rounds_most, enough))
