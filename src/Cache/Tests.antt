-- ===== src/Cache/Tests.antt =====
-- HW2: the theorems about the searches and the options at concrete levels and arguments.
use Prim.Native.String.{String}
use computer_structures.Base.{
  ℕ, zero, suc, ◌+◌, ◌*◌, ◌^◌, ◌≤◌, ◌<◌, ◌≡◌, refl, ap, sym, arith, true, false, Option, none, some,
  List, [], ◌∷◌, length, get_elem?, ◌-◌,
}
use computer_structures.Base.Words.{log2}
use computer_structures.Cache.Level.{
  WayEntry, Way, CacheLevel, get_set, get_tag, block_exists, get_entry_for_new_block, find_way,
  find_victim,
}
use computer_structures.Cache.Ops.{Access, read}
use computer_structures.Cache.Ways.{entry_of}
use computer_structures.Cache.Program.{OptionName, option_name, cache_main}
use computer_structures.Cache.Search
use computer_structures.Cache.Search.{BlockSearch, HasSet, VictimSearch}
use computer_structures.Cache.Arguments
use computer_structures.Cache.Arguments.{IsName}

abbrev used_at : ℕ → ℕ → WayEntry
used_at tag time = record {
  valid = true;
  dirty = false;
  tag = tag;
  last_accessed_time = time;
  address = tag * 8;
}

-- One set of two ways, both in use.
abbrev small : CacheLevel
small = record {
  num_of_ways = 2;
  num_of_blocks = 2;
  num_of_sets = 1;
  tag_size = 29;
  cache_num = 1;
  block_size_log = 3;
  ways =
      record { num_of_sets = 1; entries = used_at 5 9 ∷ [] }
      ∷ record { num_of_sets = 1; entries = used_at 7 4 ∷ [] }
      ∷ [];
  num_of_cycles = 1;
  miss_count = 0;
  access_count = 0;
}

-- Everything that the searches compute with.
searches : Unit {0}
unfolding get_set get_tag block_exists find_way find_victim get_entry_for_new_block log2
searches = tt

victim_is_second : get_entry_for_new_block small 0x40 ≡ some 1
unfolding searches
victim_is_second = refl

block_is_first : block_exists small 0x2c ≡ some (some 0)
unfolding searches
block_is_first = refl

abbrev sets_in : Option Way → ℕ
sets_in none = 0
sets_in (some w) = length w.entries

one_set : (j : ℕ) (w : Way) → get_elem? small.ways j ≡ some w → length w.entries ≡ 1
one_set zero w e = ap sets_in (sym e)
one_set (suc zero) w e = ap sets_in (sym e)
one_set (suc (suc j)) w e = absurd (cc)

small-HasSet : (a : ℕ) → get_set small a ≡ 0 → HasSet small a
small-HasSet a z j w e = omega (arith, one_set j w e, z)

abbrev time_in : Option WayEntry → ℕ
time_in none = 0
time_in (some e) = e.last_accessed_time

small_early :
    (j : ℕ) (e : WayEntry) → entry_of small.ways 0 j ≡ some e → e.last_accessed_time < 2 ^ 32 - 1
small_early zero e f = omega (arith, ap time_in f)
small_early (suc zero) e f = omega (arith, ap time_in f)
small_early (suc (suc j)) e f = absurd (cc)

block_exists-BlockSearch_example : BlockSearch small 0x2c
unfolding searches
block_exists-BlockSearch_example =
    Search.block_exists-BlockSearch small 0x2c (small-HasSet 0x2c refl)

get_entry_for_new_block-VictimSearch_example : VictimSearch small 0x40
unfolding searches
get_entry_for_new_block-VictimSearch_example =
    Search.get_entry_for_new_block-VictimSearch small 0x40 (omega arith) (small-HasSet 0x40 refl)
      small_early

abbrev arguments : List String
arguments =
    "cacheSim" ∷ "trace" ∷ "--mem-cyc" ∷ "100" ∷ "--bsize" ∷ "3" ∷ "--wr-alloc" ∷ "1" ∷ "--l1-size"
    ∷ "4" ∷ "--l1-assoc" ∷ "1" ∷ "--l1-cyc" ∷ "1" ∷ "--l2-size" ∷ "6" ∷ "--l2-assoc" ∷ "0"
    ∷ "--l2-cyc" ∷ []

arguments_are_names : (j : ℕ) → j ≤ 8 → IsName arguments (2 + 2 * j)
unfolding option_name
arguments_are_names zero h = ("--mem-cyc", OptionName.mem_cyc, refl, refl)
arguments_are_names (suc zero) h = ("--bsize", OptionName.bsize, refl, refl)
arguments_are_names (suc (suc zero)) h = ("--wr-alloc", OptionName.wr_alloc, refl, refl)
arguments_are_names (suc (suc (suc zero))) h = ("--l1-size", OptionName.l1_size, refl, refl)
arguments_are_names (suc (suc (suc (suc zero)))) h = ("--l1-assoc", OptionName.l1_assoc, refl, refl)
arguments_are_names (suc (suc (suc (suc (suc zero))))) h =
    ("--l1-cyc", OptionName.l1_cyc, refl, refl)
arguments_are_names (suc (suc (suc (suc (suc (suc zero)))))) h =
    ("--l2-size", OptionName.l2_size, refl, refl)
arguments_are_names (suc (suc (suc (suc (suc (suc (suc zero))))))) h =
    ("--l2-assoc", OptionName.l2_assoc, refl, refl)
arguments_are_names (suc (suc (suc (suc (suc (suc (suc (suc zero)))))))) h =
    ("--l2-cyc", OptionName.l2_cyc, refl, refl)
arguments_are_names (suc (suc (suc (suc (suc (suc (suc (suc (suc j))))))))) h = absurd (omega arith)

-- Stand-ins for the library's functions.
abbrev any_number : String → ℕ
any_number s = 1

abbrev any_access : String → Option Access
any_access s = some (read 64)

cache_main-missing_value_example :
    cache_main any_number any_access arguments (some ("r 0x40" ∷ [])) ≡ none
cache_main-missing_value_example =
    Arguments.cache_main-missing_value any_number any_access arguments ("r 0x40" ∷ []) refl
      arguments_are_names
