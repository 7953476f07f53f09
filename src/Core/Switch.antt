-- ===== src/Core/Switch.antt =====
-- HW4/core_api.cpp: a round of blocked multithreading in which the current thread has to wait.
use computer_structures.Base.{
  ℕ, suc, ◌+◌, ◌<◌, ◌≡◌, refl, ap, ◌∙◌, arith, false, some, if◌then◌else◌, leb, ◌==◌, ==-ne,
  ==-refl, get_elem?, u32, bind-some, subst,
}
use computer_structures.Core.Machine.{Sim}
use computer_structures.Core.Schedule.{find_thread, blocked_round, with_core}
use computer_structures.Core.Search.{
  IsCore, IsReady, IsWaiting, found, all_waiting, search, result, same_result, switched, rotated,
  place, rotated-place, place-full,
}

-- What such a round does: it moves to the first ready thread round the circle, the current one last
-- of all, and pays for the switch; or no thread is ready, and one cycle passes.
pub data Switched (s : Sim) : Type 0 where
  switch_to :
      (k : ℕ)
      → k < s.core.num_of_threads
      → ((j : ℕ) → j < k → IsWaiting s.core (place s.core (suc j)))
      → IsReady s.core (place s.core (suc k))
      → blocked_round s ≡ some (result s (switched s.core) (place s.core (suc k)) k)
      → Switched s
  stall :
      ((j : ℕ) → j < s.core.num_of_threads → IsWaiting s.core (place s.core (suc j)))
      → blocked_round s
        ≡ some (result s (u32 (s.core.cycle_count + 1)) s.core.rr_index s.core.num_of_threads)
      → Switched s

abbrev restarted : Sim → Sim
restarted s = record s { idle_count = 0 }

-- The end of the round, after the search.
abbrev settle : Sim → Sim
settle s =
    if s.idle_count == s.core.num_of_threads
    then with_core s (record (s.core) { cycle_count = u32 (s.core.cycle_count + 1) })
    else s

blocked_round-waiting :
    (s s' : Sim)
    → IsWaiting s.core s.core.rr_index
    → find_thread s.core.num_of_threads (restarted s) ≡ some s'
    → blocked_round s ≡ some (settle s')
unfolding blocked_round
blocked_round-waiting s s' (t, e, waits) f =
    let waiting : leb t.return_cycle s.core.cycle_count ≡ false = ground arith in
    bind-some (get_elem? s.core.core_threads s.core.rr_index) _ e (rw waiting (rw f))

settle-found :
    (s : Sim) (cycles index k : ℕ)
    → k < s.core.num_of_threads
    → settle (result s cycles index k) ≡ result s cycles index k
settle-found s cycles index k h =
    let fewer : (k == s.core.num_of_threads) ≡ false =
      ==-ne k s.core.num_of_threads (omega arith) in
    rw fewer

settle-all :
    (s : Sim) (cycles index : ℕ)
    → settle (result s cycles index s.core.num_of_threads)
      ≡ result s (u32 (cycles + 1)) index s.core.num_of_threads
settle-all s cycles index = rw (==-refl s.core.num_of_threads)

-- If the index is that of one of the threads and its thread has to wait, a round of blocked
-- multithreading returns: either it moves to the first ready thread round the circle, the current
-- one last of all, which costs the overhead of a context switch, or no thread is ready, the index
-- stays and one cycle passes; registers, memory and the counts of instructions and of halted
-- threads stay.
pub blocked_round-Switched :
    (s : Sim) → IsCore s.core → IsWaiting s.core s.core.rr_index → Switched s
blocked_round-Switched s c waits = elim (search s.core.num_of_threads (restarted s) c) [
  | found k h others ready eq ↦
      let eq' : find_thread s.core.num_of_threads (restarted s)
          ≡ some (result s (switched s.core) (rotated s.core (suc k)) k) =
        eq ∙ same_result s (switched s.core) refl (omega arith) in
      switch_to k h
        (λ j below. subst (IsWaiting s.core) (rotated-place s.core (suc j) c) (others j below))
        (subst (IsReady s.core) (rotated-place s.core (suc k) c) ready)
        (blocked_round-waiting s (result s (switched s.core) (rotated s.core (suc k)) k) waits eq'
          ∙ ap some (
              settle-found s (switched s.core) (rotated s.core (suc k)) k h
              ∙ ap (λ (i : ℕ). result s (switched s.core) i k) (rotated-place s.core (suc k) c)))
  | all_waiting others eq ↦
      let eq' : find_thread s.core.num_of_threads (restarted s)
          ≡ some (
              result s s.core.cycle_count (rotated s.core s.core.num_of_threads)
                s.core.num_of_threads) =
        eq ∙ same_result s s.core.cycle_count refl (omega arith) in
      stall (λ j below. subst (IsWaiting s.core) (rotated-place s.core (suc j) c) (others j below))
        (blocked_round-waiting s
            (result s s.core.cycle_count (rotated s.core s.core.num_of_threads)
              s.core.num_of_threads)
            waits eq'
          ∙ ap some (
              settle-all s s.core.cycle_count (rotated s.core s.core.num_of_threads)
              ∙ ap (λ (i : ℕ). result s (u32 (s.core.cycle_count + 1)) i s.core.num_of_threads)
                  (rotated-place s.core s.core.num_of_threads c ∙ place-full s.core c)))
]
