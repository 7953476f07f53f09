-- ===== src/Core/Search.antt =====
-- HW4/core_api.cpp: the search for the next thread of blocked multithreading.
use computer_structures.Base.{
  ℕ, zero, suc, ◌+◌, ◌%◌, ◌^◌, ◌≤◌, ◌<◌, ◌≡◌, refl, sym, ap, ◌∙◌, arith, true, false, some, leb,
  lt_cases, inl, inr, length, get_elem?, get_elem?_lem, u32, bind-some, subst,
}
use native.Mathlib.Nat.{mod-eq_of_lt, mod-add-mod, mod-lt, add-mod_right}
use computer_structures.Core.Machine.{Thread, Core, Sim}
use computer_structures.Core.Schedule.{find_thread}

-- The index `k` places after that of the core, round the circle of threads.
abbrev pub rotated : Core → ℕ → ℕ
rotated core zero = core.rr_index
rotated core (suc k) = u32 (rotated core k + 1) % core.num_of_threads

-- The thread at an index can run.
abbrev pub IsReady : Core → ℕ → Type 0
IsReady core i =
    (t : Thread) × (get_elem? core.core_threads i ≡ some t) × (t.return_cycle ≤ core.cycle_count)

abbrev pub IsWaiting : Core → ℕ → Type 0
IsWaiting core i =
    (t : Thread) × (get_elem? core.core_threads i ≡ some t) × (core.cycle_count < t.return_cycle)

-- The index is that of a thread, and the threads are as many as the core says.
pub record IsCore (core : Core) : Type 0 where
  pub sized : length core.core_threads ≡ core.num_of_threads
  pub index : core.rr_index < core.num_of_threads
  pub few : core.num_of_threads < 2 ^ 32

abbrev pub moved : Core → ℕ → Core
moved core k = record core { rr_index = rotated core k }

-- The state after a search that went to an index: the clock, the index and the count of idle threads
-- are new.
abbrev pub result : Sim → ℕ → ℕ → ℕ → Sim
result s cycles index idle = record s {
  core = record (s.core) { cycle_count = cycles; rr_index = index };
  idle_count = idle;
}

pub same_result :
    (s : Sim) (cycles : ℕ) {i i' idle idle' : ℕ}
    → i ≡ i'
    → idle ≡ idle'
    → some (result s cycles i idle) ≡ some (result s cycles i' idle')
same_result s cycles e f = rw (e, f) refl

-- The clock after a switch to another thread.
abbrev pub switched : Core → ℕ
switched core = u32 (core.cycle_count + core.context_switch_overhead)

-- What a search of `left` places finds: the first ready thread round the circle, or none.
pub data Search (left : ℕ) (s : Sim) : Type 0 where
  found :
      (k : ℕ)
      → k < left
      → ((j : ℕ) → j < k → IsWaiting s.core (rotated s.core (suc j)))
      → IsReady s.core (rotated s.core (suc k))
      → find_thread left s
        ≡ some (result s (switched s.core) (rotated s.core (suc k)) (s.idle_count + k))
      → Search left s
  all_waiting :
      ((j : ℕ) → j < left → IsWaiting s.core (rotated s.core (suc j)))
      → find_thread left s
        ≡ some (result s s.core.cycle_count (rotated s.core left) (s.idle_count + left))
      → Search left s

next-IsCore : (core : Core) → IsCore core → IsCore (moved core 1)
next-IsCore core c = record {
  sized = c.sized;
  index = mod-lt (u32 (core.rr_index + 1)) (omega (arith, c.index));
  few = c.few;
}

rotated-suc : (core : Core) (k : ℕ) → rotated (moved core 1) k ≡ rotated core (suc k)
rotated-suc core zero = refl
rotated-suc core (suc k) = ap (λ (i : ℕ). u32 (i + 1) % core.num_of_threads) (rotated-suc core k)

abbrev after_miss : Sim → Sim
after_miss s = record s { core = moved s.core 1; idle_count = s.idle_count + 1 }

step_ready :
    (left : ℕ) (s : Sim) (t : Thread)
    → get_elem? s.core.core_threads (rotated s.core 1) ≡ some t
    → t.return_cycle ≤ s.core.cycle_count
    → find_thread (suc left) s ≡ some (result s (switched s.core) (rotated s.core 1) s.idle_count)
unfolding find_thread
step_ready left s t e h =
    let ready : leb t.return_cycle s.core.cycle_count ≡ true = ground arith in
    bind-some (get_elem? s.core.core_threads (rotated s.core 1)) _ e (rw ready)

step_waiting :
    (left : ℕ) (s : Sim) (t : Thread)
    → get_elem? s.core.core_threads (rotated s.core 1) ≡ some t
    → s.core.cycle_count < t.return_cycle
    → find_thread (suc left) s ≡ find_thread left (after_miss s)
unfolding find_thread
step_waiting left s t e h =
    let waiting : leb t.return_cycle s.core.cycle_count ≡ false = ground arith in
    bind-some (get_elem? s.core.core_threads (rotated s.core 1)) _ e (rw waiting)

IsWaiting-shift :
    (s : Sim) (n : ℕ)
    → IsWaiting s.core (rotated s.core 1)
    → ((j : ℕ) → j < n → IsWaiting s.core (rotated (moved s.core 1) (suc j)))
    → (j : ℕ) → j < suc n
    → IsWaiting s.core (rotated s.core (suc j))
IsWaiting-shift s n first rest zero h = first
IsWaiting-shift s n first rest (suc j) h =
    subst (IsWaiting s.core) (rotated-suc s.core (suc j)) (rest j (omega arith))

find_thread-zero :
    (s : Sim)
    → find_thread 0 s ≡ some (result s s.core.cycle_count (rotated s.core 0) (s.idle_count + 0))
unfolding find_thread
find_thread-zero s = same_result s s.core.cycle_count refl (omega arith)

pub search : (left : ℕ) (s : Sim) → IsCore s.core → Search left s
search zero s c = all_waiting (λ j h. elim h [ ]) (find_thread-zero s)
search (suc left) s c =
    let range : rotated s.core 1 < length s.core.core_threads =
      rw c.sized ((next-IsCore s.core c).index) in
    let (t, e) = get_elem?_lem s.core.core_threads (rotated s.core 1) range in
    elim (lt_cases s.core.cycle_count t.return_cycle) [
      | inr ready ↦
          found 0 (omega arith) (λ j h. elim h [ ]) (t, e, ready)
            (step_ready left s t e ready ∙ same_result s (switched s.core) refl (omega arith))
      | inl waits ↦
          let step = step_waiting left s t e waits in
          elim (search left (after_miss s) (next-IsCore s.core c)) [
            | found k h others ready eq ↦
                found (suc k) (omega arith) (IsWaiting-shift s k (t, e, waits) others)
                  (subst (IsReady s.core) (rotated-suc s.core (suc k)) ready)
                  (step
                    ∙ (eq
                        ∙ same_result s (switched s.core) (rotated-suc s.core (suc k))
                            (omega arith)))
            | all_waiting others eq ↦ all_waiting (IsWaiting-shift s left (t, e, waits) others) (
                step
                ∙ (eq ∙ same_result s s.core.cycle_count (rotated-suc s.core left) (omega arith)))
          ]
    ]

-- The index `k` places on round the circle.
abbrev pub place : Core → ℕ → ℕ
place core k = (core.rr_index + k) % core.num_of_threads

pub rotated-place : (core : Core) (k : ℕ) → IsCore core → rotated core k ≡ place core k
rotated-place core zero c =
    sym (ap (λ (i : ℕ). i % core.num_of_threads) (omega arith) ∙ mod-eq_of_lt c.index)
rotated-place core (suc k) c =
    let small = mod-lt (core.rr_index + k) {m = core.num_of_threads} (omega (arith, c.index)) in
    let fits : u32 (place core k + 1) ≡ place core k + 1 = omega (arith, small, c.few) in
    ap (λ (i : ℕ). u32 (i + 1) % core.num_of_threads) (rotated-place core k c)
    ∙ (ap (λ (i : ℕ). i % core.num_of_threads) fits
        ∙ (mod-add-mod (core.rr_index + k) core.num_of_threads 1
            ∙ ap (λ (i : ℕ). i % core.num_of_threads) (omega arith)))

pub place-full : (core : Core) → IsCore core → place core core.num_of_threads ≡ core.rr_index
place-full core c = add-mod_right core.rr_index core.num_of_threads ∙ mod-eq_of_lt c.index
