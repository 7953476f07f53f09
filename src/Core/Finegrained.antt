-- ===== src/Core/Finegrained.antt =====
-- HW4/core_api.cpp: the rounds of `CORE_FinegrainedMT` one by one.
use computer_structures.Base.{
  ℕ, suc, ◌+◌, ◌%◌, ◌≤◌, ◌<◌, ◌^◌, ◌≡◌, inl, inr, refl, ap, ◌∙◌, arith, true, false, some,
  get_elem?, lt_cases, leb, u32, bind-some,
}
use native.Mathlib.Nat.{mod-eq_of_lt, mod-add-mod, mod-lt}
use computer_structures.Core.Machine.{Thread, Core, Sim, execute_inst}
use computer_structures.Core.Schedule.{finegrained_choice, finegrained_round, next_index, with_core}
use computer_structures.Core.Search.{IsCore, IsWaiting, result, place}

-- The end of a round that executed an instruction.
abbrev pub turned : Sim → Sim
turned s = record s { core = record (s.core) { rr_index = next_index s.core }; idle_count = 0 }

choice-turn :
    (s s' : Sim)
    → finegrained_choice s ≡ some s'
    → finegrained_round s ≡ some (with_core s' (record (s'.core) { rr_index = next_index s'.core }))
unfolding finegrained_round
choice-turn s s' e = bind-some (finegrained_choice s) _ e refl

choice-ready :
    (s : Sim) (t : Thread) (s' : Sim)
    → get_elem? s.core.core_threads s.core.rr_index ≡ some t
    → t.return_cycle ≤ s.core.cycle_count
    → execute_inst s t ≡ some s'
    → finegrained_choice s ≡ some (record s' { idle_count = 0 })
unfolding finegrained_choice
choice-ready s t s' e h done =
    let ready : leb t.return_cycle s.core.cycle_count ≡ true = ground arith in
    bind-some (get_elem? s.core.core_threads s.core.rr_index) _ e
      (rw ready (bind-some (execute_inst s t) _ done refl))

pub finegrained_round-ready :
    (s : Sim) (t : Thread) (s' : Sim)
    → get_elem? s.core.core_threads s.core.rr_index ≡ some t
    → t.return_cycle ≤ s.core.cycle_count
    → execute_inst s t ≡ some s'
    → finegrained_round s ≡ some (turned s')
finegrained_round-ready s t s' e h done = choice-turn s _ (choice-ready s t s' e h done)

-- A round whose thread has to wait: it is counted, or it ends a turn of idle threads, and a cycle passes.
pub data Passed (s : Sim) : Type 0 where
  idles :
      s.idle_count + 1 < s.core.num_of_threads
      → finegrained_round s
        ≡ some (result s s.core.cycle_count (next_index s.core) (s.idle_count + 1))
      → Passed s
  ticks :
      s.core.num_of_threads ≤ s.idle_count + 1
      → finegrained_round s ≡ some (result s (u32 (s.core.cycle_count + 1)) (next_index s.core) 0)
      → Passed s

module _ (s : Sim) (waits : IsWaiting s.core s.core.rr_index) where
  choice-idles :
      s.idle_count + 1 < s.core.num_of_threads
      → finegrained_choice s ≡ some (record s { idle_count = s.idle_count + 1 })
  unfolding finegrained_choice
  choice-idles few =
      let (t, e, late) = waits in
      let waiting : leb t.return_cycle s.core.cycle_count ≡ false = ground arith in
      let more : leb s.core.num_of_threads (s.idle_count + 1) ≡ false = ground arith in
      bind-some (get_elem? s.core.core_threads s.core.rr_index) _ e (rw waiting (rw more))

  choice-ticks :
      s.core.num_of_threads ≤ s.idle_count + 1
      → finegrained_choice s
        ≡ some (record s {
          core = record (s.core) { cycle_count = u32 (s.core.cycle_count + 1) };
          idle_count = 0;
        })
  unfolding finegrained_choice
  choice-ticks full =
      let (t, e, late) = waits in
      let waiting : leb t.return_cycle s.core.cycle_count ≡ false = ground arith in
      let all : leb s.core.num_of_threads (s.idle_count + 1) ≡ true = ground arith in
      bind-some (get_elem? s.core.core_threads s.core.rr_index) _ e (rw waiting (rw all))

  pub finegrained_round-Passed : Passed s
  finegrained_round-Passed = elim (lt_cases (s.idle_count + 1) s.core.num_of_threads) [
    | inl few ↦ idles few (choice-turn s _ (choice-idles few))
    | inr full ↦ ticks full (choice-turn s _ (choice-ticks full))
  ]

-- What the two have in common.
pub record Waited (s : Sim) : Type 0 where
  pub cycles : ℕ
  pub idle : ℕ
  pub returns : finegrained_round s ≡ some (result s cycles (next_index s.core) idle)
  pub later : s.core.cycle_count ≤ cycles
  pub soon : cycles ≤ s.core.cycle_count + 1

pub finegrained_round-Waited :
    (s : Sim) → IsWaiting s.core s.core.rr_index → s.core.cycle_count + 1 < 2 ^ 32 → Waited s
finegrained_round-Waited s waits small = elim (finegrained_round-Passed s waits) [
  | idles few eq ↦ record {
    cycles = s.core.cycle_count;
    idle = s.idle_count + 1;
    returns = eq;
    later = omega arith;
    soon = omega arith;
  }
  | ticks full eq ↦ record {
    cycles = u32 (s.core.cycle_count + 1);
    idle = 0;
    returns = eq;
    later = omega arith;
    soon = omega arith;
  }
]

-- One place on.
pub next_index-place : (core : Core) → IsCore core → next_index core ≡ place core 1
next_index-place core c =
    let fits : u32 (core.rr_index + 1) ≡ core.rr_index + 1 = omega (arith, c.index, c.few) in
    ap (λ (x : ℕ). x % core.num_of_threads) fits

pub next_index-lt : (core : Core) → IsCore core → next_index core < core.num_of_threads
next_index-lt core c = mod-lt (u32 (core.rr_index + 1)) (omega (arith, c.index))

-- A place is one nearer after the index moved on.
pub place-next_index :
    (core : Core) (k cycles : ℕ)
    → IsCore core
    → place (record core { cycle_count = cycles; rr_index = next_index core }) k
      ≡ place core (suc k)
place-next_index core k cycles c =
    ap (λ (x : ℕ). (x + k) % core.num_of_threads) (next_index-place core c)
    ∙ (mod-add-mod (core.rr_index + 1) core.num_of_threads k
        ∙ ap (λ (x : ℕ). x % core.num_of_threads) (omega arith))

pub place-zero : (core : Core) → IsCore core → place core 0 ≡ core.rr_index
place-zero core c = ap (λ (x : ℕ). x % core.num_of_threads) (omega arith) ∙ mod-eq_of_lt c.index
