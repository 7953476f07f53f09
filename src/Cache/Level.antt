-- ===== src/Cache/Level.antt =====
-- HW2/cacheSim.cpp: a level of the cache, its ways, and the search for a block and for a victim.
-- A pointer to an entry of a level is the number of its way; the set is that of the address it was
-- found by. `none` is an access outside an array or through a pointer that was not set.
use computer_structures.Base.{
  pow_unsigned, ltb, none, some, Option, ◌>>=◌, if◌then◌else◌, ℕ, suc, ◌-◌, ◌/◌, ◌^◌, Bool, true,
  false, ◌&&◌, List, [], ◌∷◌, ◌==◌, get_elem?, replicate, write, u32, shl32, shr, sub32, bit_and,
  log2,
}

pub record WayEntry : Type 0 where
  pub valid : Bool
  pub dirty : Bool
  pub tag : ℕ
  pub last_accessed_time : ℕ
  pub address : ℕ

abbrev pub way_entry : WayEntry
way_entry = record { valid = false; dirty = false; tag = 0; last_accessed_time = 0; address = 0 }

pub record Way : Type 0 where
  pub num_of_sets : ℕ
  pub entries : List WayEntry

abbrev pub new_way : ℕ → Way
new_way num_of_sets = record {
  num_of_sets = num_of_sets;
  entries = replicate num_of_sets way_entry;
}

pub record CacheLevel : Type 0 where
  pub num_of_ways : ℕ
  pub num_of_blocks : ℕ
  pub num_of_sets : ℕ
  pub tag_size : ℕ
  pub cache_num : ℕ
  pub block_size_log : ℕ
  pub ways : List Way
  pub num_of_cycles : ℕ
  pub miss_count : ℕ
  pub access_count : ℕ

-- The constructor past the conversions of the numbers of ways and of blocks.
abbrev pub new_level : ℕ → ℕ → ℕ → ℕ → ℕ → CacheLevel
new_level num_of_ways num_of_blocks num_of_cycles block_size_log cache_num =
    let num_of_sets = num_of_blocks / num_of_ways in
    record {
      num_of_ways = num_of_ways;
      num_of_blocks = num_of_blocks;
      num_of_sets = num_of_sets;
      tag_size = sub32 (sub32 32 (log2 num_of_sets)) block_size_log;
      cache_num = cache_num;
      block_size_log = block_size_log;
      ways = replicate num_of_ways (new_way num_of_sets);
      num_of_cycles = num_of_cycles;
      miss_count = 0;
      access_count = 0;
    }

-- `none` where a conversion to an unsigned int or the logarithm of 0 sets is undefined.
unfoldable pub cache_level : ℕ → ℕ → ℕ → ℕ → ℕ → Option CacheLevel
cache_level cache_size_log waze_num_log num_of_cycles block_size_log cache_num = do
  ways ← pow_unsigned waze_num_log
  blocks ← pow_unsigned (sub32 cache_size_log block_size_log)
  let level = new_level ways blocks num_of_cycles block_size_log cache_num
  if ltb 0 level.num_of_sets then some level else none

unfoldable pub get_set : CacheLevel → ℕ → ℕ
get_set l address = bit_and (shr address l.block_size_log) (sub32 (shl32 1 (log2 l.num_of_sets)) 1)

unfoldable pub get_tag : CacheLevel → ℕ → ℕ
get_tag l address = u32 (shr address (sub32 32 l.tag_size))

-- The loop of `blockExists`, at way `i`.
unfoldable pub find_way : List Way → ℕ → ℕ → ℕ → Option (Option ℕ)
find_way [] set tag i = some none
find_way (w ∷ ways) set tag i = get_elem? w.entries set >>= λ entry.
    elim (entry.valid && entry.tag == tag) [
      | true ↦ some (some i)
      | false ↦ find_way ways set tag (suc i)
    ]

unfoldable pub block_exists : CacheLevel → ℕ → Option (Option ℕ)
block_exists l address = find_way l.ways (get_set l address) (get_tag l address) 0

-- The loop of `getEntryForNewBlock`, at way `i`; `candidate` is `entry_to_update`.
unfoldable pub find_victim : List Way → ℕ → ℕ → ℕ → Option ℕ → Option ℕ
find_victim [] set i last_block_time candidate = candidate
find_victim (w ∷ ways) set i last_block_time candidate = get_elem? w.entries set >>= λ entry.
    elim (entry.valid) [
      | false ↦ some i
      | true ↦ elim (ltb entry.last_accessed_time last_block_time) [
        | true ↦ find_victim ways set (suc i) entry.last_accessed_time (some i)
        | false ↦ find_victim ways set (suc i) last_block_time candidate
      ]
    ]

-- The address is passed as an unsigned int.
unfoldable pub get_entry_for_new_block : CacheLevel → ℕ → Option ℕ
get_entry_for_new_block l address = find_victim l.ways (get_set l (u32 address)) 0 (2 ^ 32 - 1) none

-- `ways[way]->entries[set]`, read and written.
unfoldable pub entry_at : CacheLevel → ℕ → ℕ → Option WayEntry
entry_at l way set = get_elem? l.ways way >>= λ w. get_elem? w.entries set

unfoldable pub modify_entry : CacheLevel → ℕ → ℕ → (WayEntry → WayEntry) → Option CacheLevel
modify_entry l way set f = do
  w ← get_elem? l.ways way
  entry ← get_elem? w.entries set
  entries ← write w.entries set (f entry)
  ways ← write l.ways way (record w { entries = entries })
  some (record l { ways = ways })
