-- ===== src/Core/Start.antt =====
-- HW4/core_api.cpp: the state in which both loops start, and the bounds on their rounds.
use computer_structures.Base.{
  ℕ, zero, suc, ◌+◌, ◌*◌, ◌≤◌, ◌<◌, ◌^◌, ◌≡◌, inr, refl, arith, length-replicate,
  get_elem?-replicate, lt_of_get_elem?, replicate, max, ap, sym,
}
use computer_structures.Core.Memory.{Memory}
use computer_structures.Core.Machine.{Thread, core_init, new_thread}
use computer_structures.Core.Schedule.{start}
use computer_structures.Core.Search.{IsReady}
use computer_structures.Core.Work.{lines_in, lines_left, lines_left-replicate, halted_in-replicate}
use computer_structures.Core.Sound.{IsSoundSim}

-- The bound on the cycles: `per` for each line, and once more.
abbrev pub cycles_for : ℕ → ℕ → ℕ
cycles_for per zero = per
cycles_for per (suc left) = per + cycles_for per left

-- The bound on the rounds: `per` for each line, one more, and the test that ends the loop.
abbrev pub rounds_for : ℕ → ℕ → ℕ
rounds_for per zero = 2
rounds_for per (suc left) = per + rounds_for per left

pub cycles_for-le : (per left lines : ℕ) → left ≤ lines → cycles_for per left ≤ suc lines * per
cycles_for-le per zero lines h = grind arith
cycles_for-le per (suc left) zero h = absurd (omega arith)
cycles_for-le per (suc left) (suc lines) h =
    let rest = cycles_for-le per left lines (omega arith) in
    let more : suc (suc lines) * per ≡ suc lines * per + per = grind arith in
    omega (arith, rest, more)

pub rounds_for-le : (per left lines : ℕ) → left ≤ lines → rounds_for per left ≤ lines * per + 2
rounds_for-le per zero lines h = grind arith
rounds_for-le per (suc left) zero h = absurd (omega arith)
rounds_for-le per (suc left) (suc lines) h =
    let rest = rounds_for-le per left lines (omega arith) in
    let more : suc lines * per ≡ lines * per + per = grind arith in omega (arith, rest, more)

pub rounds_for-pos : (per left : ℕ) → 0 < rounds_for per left
rounds_for-pos per zero = omega arith
rounds_for-pos per (suc left) = omega (arith, rounds_for-pos per left)

module _ (m : Memory) (some_threads : 0 < m.threadnumber) (few : m.threadnumber < 2 ^ 32) where
  abbrev pub latency : ℕ
  latency = max m.load_latency m.store_latency

  abbrev pub first_lines : ℕ
  first_lines = lines_left m.instructions (replicate m.threadnumber new_thread)

  pub first_lines-le : first_lines ≤ lines_in m.instructions
  first_lines-le = lines_left-replicate m.instructions m.threadnumber

  pub start-IsSound :
      IsSoundSim m.instructions m.threadnumber latency m.switch_cycles first_lines (start m)
  unfolding core_init
  start-IsSound = record {
    sized = record {
      sized = length-replicate m.threadnumber new_thread;
      index = some_threads;
      few = few;
    };
    width = refl;
    loads = omega arith;
    stores = omega arith;
    pays = refl;
    same = refl;
    ahead = refl;
    counted = sym (halted_in-replicate m.threadnumber);
    due = λ i t e.
        let range = lt_of_get_elem? (replicate m.threadnumber new_thread) i e in
        let long = length-replicate m.threadnumber new_thread in
        let known = get_elem?-replicate m.threadnumber new_thread i (omega arith) in
        let same : t ≡ new_thread = cc in
        inr (omega (arith, ap (λ (x : Thread). x.return_cycle) same));
  }

  pub start-IsReady : IsReady (start m).core (start m).core.rr_index
  unfolding core_init
  start-IsReady =
      (new_thread, get_elem?-replicate m.threadnumber new_thread 0 some_threads, omega arith)
