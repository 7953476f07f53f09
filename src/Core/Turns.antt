-- ===== src/Core/Turns.antt =====
-- HW4/core_api.cpp: the end of `CORE_FinegrainedMT`.
use computer_structures.Base.{
  ℕ, zero, suc, ◌+◌, ◌-◌, ◌*◌, ◌^◌, ◌≤◌, ◌<◌, ◌≡◌, inl, inr, refl, sym, ap, ◌∙◌, arith, List,
  get_elem?, get_elem?_lem, lt_of_get_elem?, lt_cases, max, u32, subst,
}
use computer_structures.Core.Memory.{Memory, Instruction}
use computer_structures.Core.Machine.{Sim, core_init, never}
use computer_structures.Core.Schedule.{finegrained_round, core_finegrained_mt, start, next_index}
use computer_structures.Core.Search.{IsReady, result, place}
use computer_structures.Core.Work.{lines_in}
use computer_structures.Core.Sound.{IsSoundSim, moved-IsSound}
use computer_structures.Core.Start.{
  cycles_for, rounds_for, cycles_for-le, rounds_for-le, rounds_for-pos, latency, first_lines,
  first_lines-le, start-IsSound, start-IsReady,
}
use computer_structures.Core.Reach.{
  Ended, Ends, Ended-step, Ended-halted, executed_Ends, Ahead, IsSound-Ahead, place_lem,
}
use computer_structures.Core.Finegrained.{
  turned, finegrained_round-ready, idles, ticks, finegrained_round-Passed, finegrained_round-Waited,
  next_index-lt, place-next_index, place-zero,
}

-- The rounds until a thread can run that returns in `wait` cycles.
abbrev pub turns_for : ℕ → ℕ → ℕ
turns_for n zero = n
turns_for n (suc wait) = n + turns_for n wait

turns_for-eq : (n wait : ℕ) → turns_for n wait ≡ suc wait * n
turns_for-eq n zero = grind arith
turns_for-eq n (suc wait) =
    let rest = turns_for-eq n wait in
    let more : suc (suc wait) * n ≡ n + suc wait * n = grind arith in omega (arith, rest, more)

module _ (ps : List (List Instruction)) (n latency overhead : ℕ) (short : lines_in ps < never) where
  abbrev cycles : ℕ → ℕ
  cycles left = cycles_for (latency + n + 2) left

  abbrev rounds : ℕ → ℕ
  rounds left = rounds_for (n + turns_for n latency + 1) left

  abbrev ReadyEnds : ℕ → Type 0
  ReadyEnds left =
      (s : Sim) (fuel : ℕ)
      → IsSoundSim ps n latency overhead left s
      → s.halt_count < s.core.num_of_threads
      → IsReady s.core s.core.rr_index
      → s.core.cycle_count + cycles left < never
      → rounds left ≤ fuel
      → Ends finegrained_round fuel s

  pub passed-IsSound :
      {left : ℕ} (s : Sim) (cycles idle : ℕ)
      → IsSoundSim ps n latency overhead left s
      → s.core.cycle_count ≤ cycles
      → IsSoundSim ps n latency overhead left (result s cycles (next_index s.core) idle)
  passed-IsSound s cycles idle i later =
      moved-IsSound ps n latency overhead s.core cycles (next_index s.core) later
        (next_index-lt s.core i.sized) i

  -- A thread that can run is `near` places away.
  near_Ended :
      {left : ℕ} (next : ReadyEnds left) (near : ℕ) (s : Sim) (fuel : ℕ)
      → IsSoundSim ps n latency overhead left s
      → s.halt_count < s.core.num_of_threads
      → IsReady s.core (place s.core near)
      → s.core.cycle_count + near + cycles left < never
      → near + rounds left ≤ fuel
      → Ends finegrained_round fuel s
  near_Ended next zero s fuel i h r small enough =
      next s fuel i h (subst (IsReady s.core) (place-zero s.core i.sized) r) (omega arith)
        (omega arith)
  near_Ended next (suc near) s zero i h r small enough = absurd (omega arith)
  near_Ended next (suc near) s (suc fuel) i h (u, eu, soon) small enough =
      let (t, e) =
        get_elem?_lem s.core.core_threads s.core.rr_index (rw i.sized.sized i.sized.index) in
      elim (lt_cases s.core.cycle_count t.return_cycle) [
        | inr ready ↦ next s (suc fuel) i h (t, e, ready) (omega arith) (omega arith)
        | inl waits ↦
            let w = finegrained_round-Waited s (t, e, waits) (omega arith) in
            let after = result s w.cycles (next_index s.core) w.idle in
            let eu' =
              ap (λ x. get_elem? s.core.core_threads x)
                (place-next_index s.core near w.cycles i.sized)
              ∙ eu in
            Ended-step finegrained_round fuel s after h w.returns (
              near_Ended next near after fuel (passed-IsSound s w.cycles w.idle i w.later) h
                (u, eu', omega (arith, soon, w.later)) (omega (arith, w.soon)) (omega arith))
      ]

  -- A thread can run in `wait` cycles, and the turn of idle threads is over in `room` rounds.
  wait_Ended :
      {left : ℕ} (next : ReadyEnds left) (wait room : ℕ) (s : Sim) (fuel : ℕ)
      → IsSoundSim ps n latency overhead left s
      → s.halt_count < s.core.num_of_threads
      → Ahead wait s.core
      → n ≤ s.idle_count + 1 + room
      → s.core.cycle_count + wait + n + cycles left < never
      → room + 1 + turns_for n wait + rounds left ≤ fuel
      → Ends finegrained_round fuel s
  wait_Ended next zero room s fuel i h a turn small enough =
      let range = lt_of_get_elem? s.core.core_threads a.index a.there in
      let (k, below, here) =
        place_lem s.core a.index i.sized.index (omega (arith, range, i.sized.sized)) in
      near_Ended next k s fuel i h
        (subst (IsReady s.core) (sym here) (a.thread, a.there, omega (arith, a.soon)))
        (omega (arith, below, i.width)) (omega (arith, below, i.width))
  wait_Ended next (suc wait) room s zero i h a turn small enough = absurd (omega arith)
  wait_Ended next (suc wait) room s (suc fuel) i h a turn small enough =
      let (t, e) =
        get_elem?_lem s.core.core_threads s.core.rr_index (rw i.sized.sized i.sized.index) in
      let tick : u32 (s.core.cycle_count + 1) ≡ s.core.cycle_count + 1 = omega arith in
      elim (lt_cases s.core.cycle_count t.return_cycle) [
        | inr ready ↦ next s (suc fuel) i h (t, e, ready) (omega arith) (omega arith)
        | inl waits ↦ elim (finegrained_round-Passed s (t, e, waits)) [
          | idles few eq ↦
              Ended-step finegrained_round fuel s
                (result s s.core.cycle_count (next_index s.core) (s.idle_count + 1)) h eq
                (wait_Ended next (suc wait) (room - 1)
                  (result s s.core.cycle_count (next_index s.core) (s.idle_count + 1)) fuel
                  (passed-IsSound s s.core.cycle_count (s.idle_count + 1) i (omega arith)) h
                  (record { index = a.index; thread = a.thread; there = a.there; soon = a.soon })
                  (omega (arith, i.width)) small (omega (arith, i.width)))
          | ticks full eq ↦
              Ended-step finegrained_round fuel s
                (result s (u32 (s.core.cycle_count + 1)) (next_index s.core) 0) h eq
                (wait_Ended next wait (n - 1)
                  (result s (u32 (s.core.cycle_count + 1)) (next_index s.core) 0) fuel
                  (passed-IsSound s (u32 (s.core.cycle_count + 1)) 0 i (omega (arith, tick))) h
                  (record {
                    index = a.index;
                    thread = a.thread;
                    there = a.there;
                    soon = omega (arith, tick, a.soon);
                  })
                  (omega arith) (omega (arith, tick)) (omega (arith, i.width, i.sized.index)))
        ]
      ]

  halted_Ended :
      {left : ℕ} (s : Sim) (fuel : ℕ)
      → IsSoundSim ps n latency overhead left s
      → s.core.num_of_threads ≤ s.halt_count
      → 0 < fuel
      → Ends finegrained_round fuel s
  halted_Ended s zero i over more = absurd (omega arith)
  halted_Ended s (suc fuel) i over more = Ended-halted finegrained_round fuel s i over

  any_Ended :
      {left : ℕ} (next : ReadyEnds left) (s : Sim) (fuel : ℕ)
      → IsSoundSim ps n latency overhead left s
      → s.idle_count ≡ 0
      → s.core.cycle_count + latency + n + cycles left < never
      → n + turns_for n latency + rounds left ≤ fuel
      → Ends finegrained_round fuel s
  any_Ended {left} next s fuel i fresh small enough =
      elim (lt_cases s.halt_count s.core.num_of_threads) [
        | inl h ↦
            wait_Ended next latency (n - 1) s fuel i h (IsSound-Ahead s i h) (omega arith) small
              (omega (arith, i.width, i.sized.index))
        | inr over ↦
            halted_Ended s fuel i over
              (omega (arith, rounds_for-pos (n + turns_for n latency + 1) left))
      ]

  ready_Ended : (left : ℕ) → ReadyEnds left
  ready_Ended zero s zero i h r small enough = absurd (omega arith)
  ready_Ended zero s (suc fuel) i h r small enough =
      executed_Ends finegrained_round turned short zero s fuel i h r (finegrained_round-ready s)
        (omega arith) (λ less s' one i' clock index. absurd (omega arith))
  ready_Ended (suc left) s zero i h r small enough = absurd (omega arith)
  ready_Ended (suc left) s (suc fuel) i h r small enough =
      executed_Ends finegrained_round turned short (suc left) s fuel i h r
        (finegrained_round-ready s) (omega arith)
        (λ less s' one i' clock index.
          any_Ended (ready_Ended left) (turned s') fuel
            (passed-IsSound s' s'.core.cycle_count 0
              (subst (λ l. IsSoundSim ps n latency overhead l s') (omega arith) i') (omega arith))
            refl (omega (arith, clock)) (omega arith))

-- On a loaded memory with at least one thread and fewer than 2 ^ 32, if the lines of all programs
-- and one more, times the sum of the greater latency, the number of threads and 2, is below the
-- greatest unsigned int, the loop of fine-grained multithreading does not go on for ever: with fuel
-- for as many turns of all threads as the greater latency and 2, and one round, for each line, and
-- for two more rounds, it returns with every thread halted, or its rounds come to a state whose
-- current thread is to execute an instruction that is outside its program, or that accesses what is
-- outside the registers or the data.
pub core_finegrained_mt-Ended :
    (m : Memory) (fuel : ℕ)
    → 0 < m.threadnumber
    → m.threadnumber < 2 ^ 32
    → suc (lines_in m.instructions) * (max m.load_latency m.store_latency + m.threadnumber + 2)
      < never
    → lines_in m.instructions * ((max m.load_latency m.store_latency + 2) * m.threadnumber + 1) + 2
      ≤ fuel
    → Ended finegrained_round (core_finegrained_mt fuel m) (start m)
unfolding core_finegrained_mt core_init
core_finegrained_mt-Ended m fuel some_threads few small enough =
    let n = m.threadnumber in
    let lat = latency m some_threads few in
    let lines = lines_in m.instructions in
    let first = first_lines m some_threads few in
    let most = first_lines-le m some_threads few in
    let per : n + turns_for n lat + 1 ≡ (lat + 2) * n + 1 = grind (arith, turns_for-eq n lat) in
    let cycles_most = cycles_for-le (lat + n + 2) first lines most in
    let rounds_most = rounds_for-le ((lat + 2) * n + 1) first lines most in
    let short : lines < never = grind arith in
    ready_Ended m.instructions n lat m.switch_cycles short first (start m) fuel
      (start-IsSound m some_threads few) some_threads (start-IsReady m some_threads few)
      (omega (arith, cycles_most, small)) (rw per (omega (arith, rounds_most, enough)))
