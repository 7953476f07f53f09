-- ===== src/Core/Sound.antt =====
-- HW4/core_api.cpp: an invariant of the rounds of both kinds of multithreading.
use computer_structures.Base.{
  ℕ, suc, ◌+◌, ◌≤◌, ◌<◌, ◌≡◌, ◌⊎◌, inl, inr, refl, sym, ◌∙◌, arith, some, none, List, length,
  length-set, get_elem?, get_elem?-set_cases, set, u32, Option-cases, subst, lt_of_get_elem?,
  bind-some,
}
use computer_structures.Core.Memory.{
  Memory, Instruction, CmdOpcode, cmd_nop, cmd_add, cmd_sub, cmd_addi, cmd_subi, cmd_load,
  cmd_store, cmd_halt, sim_mem_inst_read,
}
use computer_structures.Core.Machine.{Thread, Core, Sim, never, execute_inst}
use computer_structures.Core.Dispatch.{ready_at, halts_after}
use computer_structures.Core.Search.{IsCore}
use computer_structures.Core.Retire.{execute_inst-IsRetired}
use computer_structures.Core.Work.{
  lines_left, lines_in, lines_left-set, lines_in-le, halt_flag-never, halt_flag-ne, halted_in,
  halted_in-set, halted_in-le,
}

-- A fetch stays inside the program of its thread.
pub fetched_lem :
    (m : Memory) (line tid : ℕ) (inst : Instruction)
    → sim_mem_inst_read m line tid ≡ some inst
    → (p : List Instruction) × (get_elem? m.instructions tid ≡ some p) × (line < length p)
unfolding sim_mem_inst_read
fetched_lem m line tid inst e = elim (Option-cases (get_elem? m.instructions tid)) [
  | inl missing ↦ let nothing : sim_mem_inst_read m line tid ≡ none = rw missing in absurd (cc)
  | inr (p, ep) ↦
      (p, ep, lt_of_get_elem? p line (sym (bind-some (get_elem? m.instructions tid) _ ep refl) ∙ e))
]

-- When a thread can run again, or that it has halted.
abbrev IsDue : CmdOpcode → ℕ → ℕ → ℕ → Core → Type 0
IsDue op latest cycle halts core =
    (ready_at op core cycle ≡ never) × (halts_after op halts ≡ u32 (halts + 1))
    ⊎ (ready_at op core cycle ≤ latest) × (halts_after op halts ≡ halts)

module _ (ps : List (List Instruction)) (n latency overhead : ℕ) where
  -- The programs and the number of threads are those given, the latencies and the overhead too, `left` lines are not executed
  -- yet, the halted threads are counted, and each other thread returns within the latency.
  pub record IsSound (left : ℕ) (core : Core) (programs : List (List Instruction)) (halts : ℕ)
      : Type 0 where
    pub sized : IsCore core
    pub width : core.num_of_threads ≡ n
    pub loads : core.load_latency ≤ latency
    pub stores : core.store_latency ≤ latency
    pub pays : core.context_switch_overhead ≡ overhead
    pub same : programs ≡ ps
    pub ahead : lines_left ps core.core_threads ≡ left
    pub counted : halts ≡ halted_in core.core_threads
    pub due :
        (i : ℕ) (t : Thread)
        → get_elem? core.core_threads i ≡ some t
        → (t.return_cycle ≡ never) ⊎ (t.return_cycle ≤ core.cycle_count + latency)

  abbrev pub IsSoundSim : ℕ → Sim → Type 0
  IsSoundSim left s = IsSound left s.core s.memory.instructions s.halt_count

  -- Time passes, or another thread becomes the current one.
  pub moved-IsSound :
      {left halts : ℕ} {programs : List (List Instruction)} (core : Core) (cycles index : ℕ)
      → core.cycle_count ≤ cycles
      → index < core.num_of_threads
      → IsSound left core programs halts
      → IsSound left (record core { cycle_count = cycles; rr_index = index }) programs halts
  moved-IsSound core cycles index later h i = record {
    sized = record { sized = i.sized.sized; index = h; few = i.sized.few };
    width = i.width;
    loads = i.loads;
    stores = i.stores;
    pays = i.pays;
    same = i.same;
    ahead = i.ahead;
    counted = i.counted;
    due = λ j t e. elim (i.due j t e) [ inl n ↦ inl n | inr soon ↦ inr (omega arith) ];
  }

  ready_at-IsDue :
      (op : CmdOpcode) (core : Core) (cycle halts : ℕ)
      → core.load_latency ≤ latency
      → core.store_latency ≤ latency
      → cycle ≤ core.cycle_count
      → core.cycle_count + latency + 1 < never
      → IsDue op (core.cycle_count + latency + 1) cycle halts core
  ready_at-IsDue cmd_halt core cycle halts l s h small = inl (refl, refl)
  ready_at-IsDue cmd_load core cycle halts l s h small = inr (omega arith, refl)
  ready_at-IsDue cmd_store core cycle halts l s h small = inr (omega arith, refl)
  ready_at-IsDue cmd_nop core cycle halts l s h small = inr (omega arith, refl)
  ready_at-IsDue cmd_add core cycle halts l s h small = inr (omega arith, refl)
  ready_at-IsDue cmd_sub core cycle halts l s h small = inr (omega arith, refl)
  ready_at-IsDue cmd_addi core cycle halts l s h small = inr (omega arith, refl)
  ready_at-IsDue cmd_subi core cycle halts l s h small = inr (omega arith, refl)

  -- The halted threads after the execution are counted.
  recount :
      (op : CmdOpcode) (core : Core) (t t' : Thread) (halts : ℕ)
      → get_elem? core.core_threads core.rr_index ≡ some t
      → IsCore core
      → t.return_cycle ≤ core.cycle_count
      → core.cycle_count + latency + 1 < never
      → IsDue op (core.cycle_count + latency + 1) t.return_cycle halts core
      → t'.return_cycle ≡ ready_at op core t.return_cycle
      → halts ≡ halted_in core.core_threads
      → halts_after op halts ≡ halted_in (set core.core_threads core.rr_index t')
  recount op core t t' halts e c h small due ready counted =
      let before = halt_flag-ne t.return_cycle (λ n. omega (arith, n)) in
      let step = halted_in-set core.core_threads core.rr_index t t' e in
      let most = halted_in-le (set core.core_threads core.rr_index t') in
      let long = length-set core.core_threads core.rr_index t' in
      elim due [
        | inl (ended, count) ↦
            let after = halt_flag-never t'.return_cycle (ready ∙ ended) in
            omega (arith, before, step, most, long, after, count, c.sized, c.few)
        | inr (soon, count) ↦
            let after = halt_flag-ne t'.return_cycle (λ n. omega (arith, n, ready, soon)) in
            omega (arith, before, step, after, count)
      ]

  module _ (short : lines_in ps < never) where
    -- An execution that returns leaves one line less, and takes one cycle.
    pub retired-IsSound :
        (s s' : Sim) (t : Thread) (left : ℕ)
        → IsSoundSim left s
        → get_elem? s.core.core_threads s.core.rr_index ≡ some t
        → t.return_cycle ≤ s.core.cycle_count
        → s.core.cycle_count + latency + 1 < never
        → execute_inst s t ≡ some s'
        → (less : ℕ) × (left ≡ suc less)
          × IsSoundSim less s'
          × (s'.core.cycle_count ≡ s.core.cycle_count + 1)
          × (s'.core.rr_index ≡ s.core.rr_index)
    retired-IsSound s s' t left i e h small done =
        let r = execute_inst-IsRetired s s' t (rw i.sized.sized i.sized.index) done in
        let (p, ep, line) = fetched_lem s.memory t.rip s.core.rr_index r.inst r.fetched in
        let ep' = subst (λ x. get_elem? x s.core.rr_index ≡ some p) i.same ep in
        let next : r.moved.rip ≡ t.rip + 1 =
          omega (arith, r.rip, line, lines_in-le ps s.core.rr_index p ep') in
        let less = lines_left ps (set s.core.core_threads s.core.rr_index r.moved) in
        let step =
          lines_left-set ps s.core.core_threads s.core.rr_index p t r.moved ep' e line next in
        let tick : u32 (s.core.cycle_count + 1) ≡ s.core.cycle_count + 1 = omega arith in
        let now =
          ready_at-IsDue r.inst.opcode s.core t.return_cycle s.halt_count i.loads i.stores h
            small in
        (
          less,
          omega (arith, step, i.ahead),
          subst (λ c. IsSound less c s'.memory.instructions s'.halt_count) (sym r.core)
              (record {
                sized = record {
                  sized = length-set s.core.core_threads s.core.rr_index r.moved ∙ i.sized.sized;
                  index = i.sized.index;
                  few = i.sized.few;
                };
                width = i.width;
                loads = i.loads;
                stores = i.stores;
                pays = i.pays;
                same = r.programs ∙ i.same;
                ahead = refl;
                counted =
                    r.halts
                    ∙ recount r.inst.opcode s.core t r.moved s.halt_count e i.sized h small now
                        r.ready i.counted;
                due = λ j u eu.
                    elim (get_elem?-set_cases s.core.core_threads s.core.rr_index r.moved j eu) [
                      | inl new ↦ elim now [
                        | inl (ended, _) ↦ inl (rw new (r.ready ∙ ended))
                        | inr (soon, _) ↦ inr (rw new (omega (arith, soon, r.ready, tick)))
                      ]
                      | inr old ↦ elim (i.due j u old) [
                        | inl n ↦ inl n
                        | inr soon ↦ inr (omega (arith, soon, tick))
                      ]
                    ];
              }),
          subst (λ c. c.cycle_count ≡ s.core.cycle_count + 1) (sym r.core) tick,
          subst (λ c. c.rr_index ≡ s.core.rr_index) (sym r.core) refl,
        )
