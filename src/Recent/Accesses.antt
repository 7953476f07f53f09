-- ===== src/Recent/Accesses.antt =====
-- HW2/cacheSimShelly.cpp: the class `Memory`, the loop of `main` on parsed lines, and what it prints.
-- `unset` is what the variable `set` of `changeToX` holds before it is set.
use computer_structures.Base.{
  pow_unsigned, ℕ, ◌+◌, ◌*◌, Bool, true, false, ◌&&◌, ◌||◌, Option, none, some, List, [], ◌∷◌,
  if◌then◌else◌, ◌==◌, u32, ◌>>=◌,
}
use computer_structures.Recent.Rows.{
  RecentCache, recent_cache, DataStatus, doesnt_exist, exist, dirty, in_cache, add, change_to_x,
  lru_update, lru_remove, lru_get_least_recently_used,
}

pub data Policy : Type 0 where
  no_write_allocate write_allocate : Policy

abbrev pub may_allocate : Policy → Bool
may_allocate no_write_allocate = false
may_allocate write_allocate = true

pub record RecentMemory : Type 0 where
  pub l1_cache : RecentCache
  pub l2_cache : RecentCache
  pub cache_policy : Policy
  pub access_count_l1 : ℕ
  pub miss_count_l1 : ℕ
  pub access_count_l2 : ℕ
  pub miss_count_l2 : ℕ
  pub access_count_mem : ℕ
  pub dram_cycles : ℕ
  pub l1_cycles : ℕ
  pub l2_cycles : ℕ
  pub block_size : ℕ

-- The constructor past the conversions and the levels.
abbrev pub empty_memory : RecentCache → RecentCache → ℕ → ℕ → ℕ → ℕ → ℕ → RecentMemory
empty_memory l1 l2 mem_cyc block l1_cyc l2_cyc wr_alloc = record {
  l1_cache = l1;
  l2_cache = l2;
  cache_policy = if wr_alloc == 0 then no_write_allocate else write_allocate;
  access_count_l1 = 0;
  miss_count_l1 = 0;
  access_count_l2 = 0;
  miss_count_l2 = 0;
  access_count_mem = 0;
  dram_cycles = mem_cyc;
  l1_cycles = l1_cyc;
  l2_cycles = l2_cyc;
  block_size = block;
}

unfoldable pub recent_memory : ℕ → ℕ → ℕ → ℕ → ℕ → ℕ → ℕ → ℕ → ℕ → Option RecentMemory
recent_memory mem_cyc b_size l1_size l2_size l1_assoc l2_assoc l1_cyc l2_cyc wr_alloc = do
  block ← pow_unsigned b_size
  l1 ← recent_cache l1_size l1_assoc b_size
  l2 ← recent_cache l2_size l2_assoc b_size
  some (empty_memory l1 l2 mem_cyc block l1_cyc l2_cyc wr_alloc)

-- The two levels, which the operations of an access change.
pub record Levels : Type 0 where
  pub first : RecentCache
  pub second : RecentCache

abbrev pub mark : Bool → ℕ → RecentCache → ℕ → DataStatus → Option RecentCache
mark whether unset c address status =
    if whether then change_to_x unset c address status true else some c

-- `need_evac && (LRU_address != nullptr)`: the address to evacuate.
abbrev pub evacuated : Bool → Option ℕ → Option ℕ
evacuated need_evac lru_address = if need_evac then lru_address else none

-- A miss in L1 that is a hit in L2, and brings the block into L1.
unfoldable pub bring_to_l1 : ℕ → Levels → ℕ → ℕ → Option Levels
bring_to_l1 unset m address op = do
  lru_address ← lru_get_least_recently_used m.first address
  (need_evac, first) ← add m.first address lru_address true
  second ← elim (evacuated need_evac lru_address) [
    | none ↦ some m.second
    | some old ↦ lru_update m.second old false >>= λ c. change_to_x unset c address dirty true
  ]
  stored ← mark (op == b'w') unset first address dirty
  loaded ← mark (op == b'r') unset stored address exist
  loaded2 ← mark (op == b'r') unset second address exist
  first' ← lru_update loaded address true
  second' ← lru_update loaded2 address true
  some (record { first = first'; second = second' })

-- What an evacuation from L2 does to L1.
unfoldable pub forget : ℕ → RecentCache → ℕ → Option RecentCache
forget unset c old = in_cache c old true >>= λ found. elim found [
  | none ↦ some c
  | some x ↦ change_to_x unset c old doesnt_exist false >>= λ c'. lru_remove c' old
]

-- A miss in both levels that brings the block into both.
unfoldable pub bring_to_both : ℕ → Levels → ℕ → ℕ → Option Levels
bring_to_both unset m address op = do
  lru_address2 ← lru_get_least_recently_used m.second address
  (need_evac2, second) ← add m.second address lru_address2 false
  first ← elim (evacuated need_evac2 lru_address2) [
    | none ↦ some m.first
    | some old ↦ forget unset m.first old
  ]
  second' ← lru_update second address true
  lru_address ← lru_get_least_recently_used first address
  (need_evac, first') ← add first address lru_address true
  second'' ← elim (evacuated need_evac lru_address) [
    | none ↦ some second'
    | some old ↦ lru_update second' old false
  ]
  first'' ← lru_update first' address true
  stored ← mark (op == b'w') unset first'' address dirty
  some (record { first = stored; second = second'' })

abbrev pub with_levels : RecentMemory → Levels → RecentMemory
with_levels m l = record m { l1_cache = l.first; l2_cache = l.second }

abbrev pub levels : RecentMemory → Levels
levels m = record { first = m.l1_cache; second = m.l2_cache }

-- The block goes into L1.
abbrev pub brings : RecentMemory → ℕ → Bool
brings m op = op == b'w' && may_allocate m.cache_policy || op == b'r'

abbrev pub access_first : RecentMemory → RecentMemory
access_first m = record m { access_count_l1 = u32 (m.access_count_l1 + 1) }

abbrev pub miss_first : RecentMemory → RecentMemory
miss_first m = record m {
  miss_count_l1 = u32 (m.miss_count_l1 + 1);
  access_count_l2 = u32 (m.access_count_l2 + 1);
}

abbrev pub miss_second : RecentMemory → RecentMemory
miss_second m = record m {
  miss_count_l2 = u32 (m.miss_count_l2 + 1);
  access_count_mem = u32 (m.access_count_mem + 1);
}

-- The branch of a hit in L1, of a hit in L2, and of a miss in both.
unfoldable pub hit_first : ℕ → RecentMemory → ℕ → ℕ → Option RecentMemory
hit_first unset m address op = do
  first ← lru_update m.l1_cache address true
  stored ← mark (op == b'w') unset first address dirty
  some (record m { l1_cache = stored })

unfoldable pub hit_second : ℕ → RecentMemory → ℕ → ℕ → Option RecentMemory
hit_second unset m address op =
    if brings m op
    then (bring_to_l1 unset (levels m) address op >>= λ l. some (with_levels m l))
    else (lru_update m.l2_cache address true >>= λ c.
        change_to_x unset c address dirty true >>= λ c'. some (record m { l2_cache = c' }))

unfoldable pub miss_all : ℕ → RecentMemory → ℕ → ℕ → Option RecentMemory
miss_all unset m address op =
    if brings m op
    then (bring_to_both unset (levels m) address op >>= λ l. some (with_levels m l))
    else some m

unfoldable pub calc_operation : ℕ → RecentMemory → ℕ → ℕ → Option RecentMemory
calc_operation unset m address op = in_cache m.l1_cache address false >>= λ in_first.
    elim in_first [
      | some x ↦ hit_first unset (access_first m) address op
      | none ↦ in_cache m.l2_cache address false >>= λ in_second. elim in_second [
        | some y ↦ hit_second unset (miss_first (access_first m)) address op
        | none ↦ miss_all unset (miss_second (miss_first (access_first m))) address op
      ]
    ]

-- The numerators and denominators of the two rates and of the average time.
pub record Shown : Type 0 where
  pub l1_miss_rate : ℕ × ℕ
  pub l2_miss_rate : ℕ × ℕ
  pub avg_acc_time : ℕ × ℕ

-- A rate is computed again if there were accesses.
abbrev pub rate : ℕ × ℕ → ℕ → ℕ → ℕ × ℕ
rate before misses accesses = if accesses == 0 then before else (misses, accesses)

unfoldable pub shown : RecentMemory → ℕ × ℕ → ℕ × ℕ → Shown
shown m l1_before l2_before = record {
  l1_miss_rate = rate l1_before m.miss_count_l1 m.access_count_l1;
  l2_miss_rate = rate l2_before m.miss_count_l2 m.access_count_l2;
  avg_acc_time = (
    u32 (
        m.access_count_l1 * m.l1_cycles
        + m.access_count_l2 * m.l2_cycles
        + m.access_count_mem * m.dram_cycles),
    m.access_count_l1,
  );
}

-- The loop of `main` over the operations and addresses of the lines, from the rates so far, first 0 / 1:
-- what it prints, one entry for each line and one at the end.
unfoldable pub recent_run : ℕ → RecentMemory → ℕ × ℕ → ℕ × ℕ → List (ℕ × ℕ) → Option (List Shown)
recent_run unset m l1_rate l2_rate [] = some (shown m l1_rate l2_rate ∷ [])
recent_run unset m l1_rate l2_rate ((op, num) ∷ lines) = do
  m' ← calc_operation unset m num op
  let s = shown m' l1_rate l2_rate
  rest ← recent_run unset m' s.l1_miss_rate s.l2_miss_rate lines
  some (s ∷ rest)
