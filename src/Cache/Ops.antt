-- ===== src/Cache/Ops.antt =====
-- HW2/cacheSim.cpp: the two levels and their operations. `pseudo_cycle` is the global clock of the
-- same name. The doubles of the source are whole numbers, and their sums are rounded as those of doubles.
use computer_structures.Base.{
  ℕ, ◌+◌, plus_double, true, false, Option, none, some, List, [], ◌∷◌, if◌then◌else◌, u32, ◌>>=◌,
}
use computer_structures.Cache.Level.{
  WayEntry, CacheLevel, cache_level, get_set, get_tag, block_exists, get_entry_for_new_block,
  entry_at, modify_entry,
}

pub data WritePolicy : Type 0 where
  no_write_allocate write_allocate : WritePolicy

pub record Cache : Type 0 where
  pub write_policy : WritePolicy
  pub t_access_total : ℕ
  pub mem_cyc : ℕ
  pub l1 : CacheLevel
  pub l2 : CacheLevel
  pub pseudo_cycle : ℕ

pub record Params : Type 0 where
  pub mem_cyc : ℕ
  pub b_size : ℕ
  pub l1_size : ℕ
  pub l2_size : ℕ
  pub l1_assoc : ℕ
  pub l2_assoc : ℕ
  pub l1_cyc : ℕ
  pub l2_cyc : ℕ
  pub wr_alloc : WritePolicy

-- The constructor past those of the two levels.
abbrev pub new_cache : Params → CacheLevel → CacheLevel → Cache
new_cache p l1 l2 = record {
  write_policy = p.wr_alloc;
  t_access_total = 0;
  mem_cyc = p.mem_cyc;
  l1 = l1;
  l2 = l2;
  pseudo_cycle = 0;
}

unfoldable pub cache : Params → Option Cache
cache p = do
  l1 ← cache_level p.l1_size p.l1_assoc p.l1_cyc p.b_size 1
  l2 ← cache_level p.l2_size p.l2_assoc p.l2_cyc p.b_size 2
  some (new_cache p l1 l2)

-- An entry that is filled with the block of an address.
abbrev pub filled : CacheLevel → ℕ → ℕ → WayEntry → WayEntry
filled l address time entry = record {
  valid = true;
  dirty = false;
  tag = get_tag l address;
  last_accessed_time = time;
  address = address;
}

abbrev pub tick : Cache → Cache
tick c = record c { pseudo_cycle = u32 (c.pseudo_cycle + 1) }

-- The copy of a dirty victim of L1 in L2 becomes dirty and recent; a null pointer is a fault.
unfoldable pub write_back : Cache → ℕ → Option Cache
write_back c address = block_exists c.l2 address >>= λ found. found >>= λ way.
    modify_entry c.l2 way (get_set c.l2 address)
      (λ entry. record entry { dirty = true; last_accessed_time = c.pseudo_cycle })
    >>= λ l2. some (tick (record c { l2 = l2 }))

-- The first half of `fetchToL1`: a valid victim is written back if it is dirty.
unfoldable pub retire_victim : Cache → WayEntry → Option Cache
retire_victim c victim =
    if victim.valid
    then (block_exists c.l2 victim.address >>= λ found.
        if victim.dirty then write_back c victim.address else some c)
    else some c

-- The entry that was filled, as its way, and the cache after it.
unfoldable pub fetch_to_l1 : Cache → ℕ → Option (ℕ × Cache)
fetch_to_l1 c address = get_entry_for_new_block c.l1 address >>= λ way.
    entry_at c.l1 way (get_set c.l1 (u32 address)) >>= λ victim. retire_victim c victim >>= λ c'.
    modify_entry c'.l1 way (get_set c.l1 (u32 address)) (filled c'.l1 address c'.pseudo_cycle)
    >>= λ l1. some (way, tick (record c' { l1 = l1 }))

-- The victim of L2 is invalidated in L1, if it is there.
unfoldable pub invalidate_l1 : Cache → WayEntry → Option Cache
invalidate_l1 c victim =
    if victim.valid
    then (block_exists c.l1 victim.address >>= λ found. elim found [
      | none ↦ some c
      | some way ↦
          modify_entry c.l1 way (get_set c.l1 victim.address)
            (λ entry. record entry { valid = false })
          >>= λ l1. some (record c { l1 = l1 })
    ])
    else some c

unfoldable pub fetch_block_from_memory : Cache → ℕ → Option (ℕ × Cache)
fetch_block_from_memory c address = get_entry_for_new_block c.l2 address >>= λ way.
    entry_at c.l2 way (get_set c.l2 (u32 address)) >>= λ victim. invalidate_l1 c victim >>= λ c'.
    modify_entry c'.l2 way (get_set c.l2 (u32 address)) (filled c'.l2 address c'.pseudo_cycle)
    >>= λ l2. fetch_to_l1 (tick (record c' { l2 = l2 })) address

-- The counters of an access to L1, of a miss there and of a miss in L2.
abbrev pub access_l1 : Cache → Cache
access_l1 c = record c {
  t_access_total = plus_double c.t_access_total c.l1.num_of_cycles;
  l1 = record (c.l1) { access_count = plus_double c.l1.access_count 1 };
}

abbrev pub miss_l1 : Cache → Cache
miss_l1 c = record c {
  t_access_total = plus_double c.t_access_total c.l2.num_of_cycles;
  l1 = record (c.l1) { miss_count = plus_double c.l1.miss_count 1 };
  l2 = record (c.l2) { access_count = plus_double c.l2.access_count 1 };
}

abbrev pub miss_l2 : Cache → Cache
miss_l2 c = record c {
  t_access_total = plus_double c.t_access_total c.mem_cyc;
  l2 = record (c.l2) { miss_count = plus_double c.l2.miss_count 1 };
}

-- A hit moves the entry to the newest place, and a store makes it dirty.
abbrev pub touched : Cache → WayEntry → WayEntry
touched c entry = record entry { last_accessed_time = c.pseudo_cycle }

abbrev pub dirtied : WayEntry → WayEntry
dirtied entry = record entry { dirty = true }

unfoldable pub modify_l1 : Cache → ℕ → ℕ → (WayEntry → WayEntry) → Option Cache
modify_l1 c way address f =
    modify_entry c.l1 way (get_set c.l1 address) f >>= λ l1. some (record c { l1 = l1 })

unfoldable pub modify_l2 : Cache → ℕ → ℕ → (WayEntry → WayEntry) → Option Cache
modify_l2 c way address f =
    modify_entry c.l2 way (get_set c.l2 address) f >>= λ l2. some (record c { l2 = l2 })

-- `cacheRead` past a miss in L1.
unfoldable pub read_l2 : Cache → ℕ → Option Cache
read_l2 c address = block_exists c.l2 address >>= λ found. elim found [
  | none ↦ fetch_block_from_memory (miss_l2 c) address >>= λ r. some r.1
  | some way ↦
      modify_l2 c way address (touched c) >>= λ c'. fetch_to_l1 (tick c') address >>= λ r. some r.1
]

unfoldable pub cache_read : Cache → ℕ → Option Cache
cache_read c address = block_exists c.l1 address >>= λ found. elim found [
  | none ↦ read_l2 (miss_l1 (access_l1 c)) address
  | some way ↦ modify_l1 (access_l1 c) way address (touched c) >>= λ c'. some (tick c')
]

-- `cacheWrite` past a miss in L1.
unfoldable pub write_l2 : Cache → ℕ → Option Cache
write_l2 c address = block_exists c.l2 address >>= λ found. elim found [
  | none ↦ elim (c.write_policy) [
    | write_allocate ↦
        fetch_block_from_memory (miss_l2 c) address >>= λ r. modify_l1 r.1 r.0 (u32 address) dirtied
    | no_write_allocate ↦ some (miss_l2 c)
  ]
  | some way ↦ modify_l2 c way address (touched c) >>= λ c'. elim (c.write_policy) [
    | no_write_allocate ↦ modify_l2 (tick c') way address dirtied
    | write_allocate ↦
        fetch_to_l1 (tick c') address >>= λ r. modify_l1 r.1 r.0 (u32 address) dirtied
  ]
]

unfoldable pub cache_write : Cache → ℕ → Option Cache
cache_write c address = block_exists c.l1 address >>= λ found. elim found [
  | none ↦ write_l2 (miss_l1 (access_l1 c)) address
  | some way ↦ modify_l1 (access_l1 c) way address (λ entry. touched c (dirtied entry)) >>= λ c'.
      some (tick c')
]

-- A line of the input: its operation and its address.
pub data Access : Type 0 where
  read write : ℕ → Access
  other : Access

unfoldable pub access : Cache → Access → Option Cache
access c (read address) = cache_read c address
access c (write address) = cache_write c address
access c other = some c

-- The loop of `main` over the lines of the input.
unfoldable pub run : Cache → List Access → Option Cache
run c [] = some c
run c (a ∷ accesses) = access c a >>= λ c'. run c' accesses
