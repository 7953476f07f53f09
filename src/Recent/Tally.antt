-- ===== src/Recent/Tally.antt =====
-- HW2/cacheSimShelly.cpp: what the accesses of `Memory` count, and what `main` prints.
use computer_structures.Base.{
  ℕ, suc, ◌+◌, ◌*◌, ◌≤◌, ◌<◌, ◌≡◌, refl, arith, true, List, [], ◌∷◌, ◌==◌, Bool-cases, inl, inr,
  u32, Returns, returns, Returns-bind, if_both,
}
use computer_structures.Recent.Rows.{dirty}
use computer_structures.Recent.Accesses.{
  RecentMemory, Levels, levels, with_levels, brings, hit_first, hit_second, miss_all, Shown, rate,
}
use computer_structures.Recent.Grid.{lru_update-Returns, change_to_x-true}
use computer_structures.Recent.Bring.{
  AreGrids, mark-Returns, bring_to_l1-Returns, bring_to_both-Returns,
}

-- What is printed after `i` accesses: so many misses of L1, each an access of L2, and so many misses
-- of L2, each an access of the memory.
pub record IsShown (cycles1 cycles2 cycles_mem i : ℕ) (s : Shown) : Type 0 where
  pub misses1 : ℕ
  pub misses2 : ℕ
  pub few1 : misses1 ≤ i
  pub few2 : misses2 ≤ misses1
  pub rate1 : s.l1_miss_rate ≡ rate (0, 1) misses1 i
  pub rate2 : s.l2_miss_rate ≡ rate (0, 1) misses2 misses1
  pub time : s.avg_acc_time ≡ (u32 (i * cycles1 + misses1 * cycles2 + misses2 * cycles_mem), i)

-- What is printed from the `i`-th access on: a line for each of the `left` accesses, and one more.
pub data AllShown (cycles1 cycles2 cycles_mem : ℕ) : ℕ → ℕ → List Shown → Type 0 where
  last :
      {i : ℕ} {s : Shown}
      → IsShown cycles1 cycles2 cycles_mem i s
      → AllShown cycles1 cycles2 cycles_mem i 0 (s ∷ [])
  line :
      {i left : ℕ} {s : Shown} {rest : List Shown}
      → IsShown cycles1 cycles2 cycles_mem (suc i) s
      → AllShown cycles1 cycles2 cycles_mem (suc i) left rest
      → AllShown cycles1 cycles2 cycles_mem i (suc left) (s ∷ rest)

pub rate-rate :
    (before : ℕ × ℕ) (m k m' k' : ℕ) → k ≤ k' → rate (rate before m k) m' k' ≡ rate before m' k'
rate-rate before m k m' k' h = elim (Bool-cases (k' == 0)) [
  | inr e ↦ rw e refl
  | inl e ↦ let zero_before : (k == 0) ≡ true = ground arith in rw (e, zero_before) refl
]

module _ (rows1 ways1 rows2 ways2 : ℕ) (some_rows1 : 0 < rows1) (some_rows2 : 0 < rows2) (unset : ℕ)
    (small1 : unset < rows1) (cycles1 cycles2 cycles_mem : ℕ) where
  abbrev Grids : Levels → Type 0
  Grids l = AreGrids rows1 ways1 rows2 ways2 some_rows1 some_rows2 unset small1 l

  -- The counters, and the sizes of the levels.
  pub record IsCounted (i misses1 misses2 : ℕ) (m : RecentMemory) : Type 0 where
    pub grids : Grids (levels m)
    pub firsts : m.access_count_l1 ≡ i
    pub first_misses : m.miss_count_l1 ≡ misses1
    pub seconds : m.access_count_l2 ≡ misses1
    pub second_misses : m.miss_count_l2 ≡ misses2
    pub fetches : m.access_count_mem ≡ misses2
    pub cycles1_known : m.l1_cycles ≡ cycles1
    pub cycles2_known : m.l2_cycles ≡ cycles2
    pub cycles_mem_known : m.dram_cycles ≡ cycles_mem

  relevel :
      {i misses1 misses2 : ℕ} (m : RecentMemory) (l : Levels)
      → IsCounted i misses1 misses2 m
      → Grids l
      → IsCounted i misses1 misses2 (with_levels m l)
  relevel m l k g = record {
    grids = g;
    firsts = k.firsts;
    first_misses = k.first_misses;
    seconds = k.seconds;
    second_misses = k.second_misses;
    fetches = k.fetches;
    cycles1_known = k.cycles1_known;
    cycles2_known = k.cycles2_known;
    cycles_mem_known = k.cycles_mem_known;
  }

  module _ {i misses1 misses2 : ℕ} (m : RecentMemory) (address op : ℕ)
      (k : IsCounted i misses1 misses2 m) where
    pub hit_first-Returns : Returns (IsCounted i misses1 misses2) (hit_first unset m address op)
    unfolding hit_first
    hit_first-Returns =
        Returns-bind _ (lru_update-Returns some_rows1 m.l1_cache address true k.grids.one) (λ c g.
          Returns-bind _
            (mark-Returns rows1 ways1 rows2 ways2 some_rows1 some_rows2 unset small1 some_rows1
              (op == b'w') c address dirty g)
            (λ c' g'. returns (
              relevel m (record { first = c'; second = m.l2_cache }) k
                (record { one = g'; two = k.grids.two }))))

    pub hit_second-Returns : Returns (IsCounted i misses1 misses2) (hit_second unset m address op)
    unfolding hit_second
    hit_second-Returns =
        if_both (Returns (IsCounted i misses1 misses2)) (brings m op)
          (Returns-bind _
            (bring_to_l1-Returns rows1 ways1 rows2 ways2 some_rows1 some_rows2 unset small1
              (levels m) address op k.grids)
            (λ l g. returns (relevel m l k g)))
          (Returns-bind _ (lru_update-Returns some_rows2 m.l2_cache address true k.grids.two)
            (λ c g. Returns-bind _ (change_to_x-true some_rows2 unset c address dirty g) (λ c' g'.
              returns (
                relevel m (record { first = m.l1_cache; second = c' }) k
                  (record { one = k.grids.one; two = g' })))))

    pub miss_all-Returns : Returns (IsCounted i misses1 misses2) (miss_all unset m address op)
    unfolding miss_all
    miss_all-Returns =
        if_both (Returns (IsCounted i misses1 misses2)) (brings m op)
          (Returns-bind _
            (bring_to_both-Returns rows1 ways1 rows2 ways2 some_rows1 some_rows2 unset small1
              (levels m) address op k.grids)
            (λ l g. returns (relevel m l k g)))
          (returns k)
