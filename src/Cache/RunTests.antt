-- ===== src/Cache/RunTests.antt =====
-- HW2: runs of the cache, and the theorems about accesses at concrete caches.
use computer_structures.Base.Doubles.{plus_double}
use computer_structures.Base.{◌>>=◌, ℕ, ◌≡◌, refl, arith, true, Option, none, some, List, [], ◌∷◌}
use computer_structures.Base.Words.{log2}
use computer_structures.Cache.Level.{
  cache_level, get_set, get_tag, find_way, block_exists, find_victim, get_entry_for_new_block,
  entry_at, modify_entry,
}
use computer_structures.Cache.Ops.{
  Cache, Params, cache, Access, read, write, other, write_allocate, write_back, retire_victim,
  fetch_to_l1, invalidate_l1, fetch_block_from_memory, modify_l1, modify_l2, read_l2, write_l2,
  cache_read, cache_write, access, run,
}
use computer_structures.Cache.Outcome
use computer_structures.Cache.Outcome.{Outcome}
use computer_structures.Cache.Again
use computer_structures.Cache.Again.{IsReadAgain}
use computer_structures.Cache.Run.{IsSimulated}
use computer_structures.Cache.Initial
use computer_structures.Cache.Initial.{IsSize, fresh, fresh-IsInclusive}

-- Blocks of 8 bytes; L1 of one set of two ways, L2 of 8 sets of one way.
abbrev params : Params
params = record {
  mem_cyc = 100;
  b_size = 3;
  l1_size = 4;
  l2_size = 6;
  l1_assoc = 1;
  l2_assoc = 0;
  l1_cyc = 1;
  l2_cyc = 5;
  wr_alloc = write_allocate;
}

-- Everything that a run computes with.
caching : Unit {0}
unfolding log2 plus_double cache_level get_set get_tag find_way block_exists find_victim
    get_entry_for_new_block entry_at modify_entry cache write_back retire_victim fetch_to_l1
    invalidate_l1 fetch_block_from_memory modify_l1 modify_l2 read_l2 write_l2 cache_read
    cache_write access run
caching = tt

abbrev sums : Option Cache → List ℕ
sums none = []
sums (some c) =
    c.l1.access_count ∷ c.l1.miss_count ∷ c.l2.access_count ∷ c.l2.miss_count ∷ c.t_access_total
    ∷ []

abbrev lines : List Access
lines = read 0 ∷ write 8 ∷ read 16 ∷ read 8 ∷ read 64 ∷ read 0 ∷ other ∷ []

sums_of_run : sums (cache params >>= λ c. run c lines) ≡ 6 ∷ 5 ∷ 5 ∷ 5 ∷ 531 ∷ []
unfolding caching
sums_of_run = refl

l1_fits : IsSize 3 4 1
l1_fits = record { fits = omega arith; small = omega arith }

l2_fits : IsSize 3 6 0
l2_fits = record { fits = omega arith; small = omega arith }

run-cache-IsSimulated_example :
    (c : Cache) × (cache params ≡ some c) × IsSimulated 3 0 3 1 5 100 c lines
run-cache-IsSimulated_example =
    Initial.run-cache-IsSimulated params lines l1_fits l2_fits (omega arith) (omega arith)
      (omega arith)

cache_read-Outcome_example : Outcome 3 0 3 8 (fresh params) true (cache_read (fresh params) 8)
cache_read-Outcome_example =
    Outcome.cache_read-Outcome 3 0 3 8 (fresh params) (fresh-IsInclusive params l1_fits l2_fits)
      (omega arith) (omega arith)

cache_write-Outcome_example : Outcome 3 0 3 8 (fresh params) true (cache_write (fresh params) 8)
cache_write-Outcome_example =
    Outcome.cache_write-Outcome 3 0 3 8 (fresh params) (fresh-IsInclusive params l1_fits l2_fits)
      (omega arith) (omega arith)

cache_read-cache_read_example : IsReadAgain 3 0 3 8 (fresh params)
cache_read-cache_read_example =
    Again.cache_read-cache_read 3 0 3 8 (fresh params) (fresh-IsInclusive params l1_fits l2_fits)
      (omega arith) (omega arith)
