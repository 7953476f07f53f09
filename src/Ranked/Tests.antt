-- ===== src/Ranked/Tests.antt =====
-- HW2/cacheSimRoy.cpp: runs, and the theorems about masks and ranks at concrete sets.
use computer_structures.Base.{
  ◌>>=◌, ℕ, zero, suc, ◌<◌, ◌≡◌, refl, sym, ap, arith, true, false, Option, none, some, List, [],
  ◌∷◌, get_elem?, set,
}
use computer_structures.Base.Words.{log2}
use computer_structures.Ranked.Ways.{
  RankedWay, create_mask_loop, create_mask, search_ways, for_ways, new_rank, update_lru,
  update_lru_for_evac, insert_to_slot, last_ranked, get_lru, empty_slot,
}
use computer_structures.Ranked.Levels.{
  RankedCache, update_cache_counters, search_cache, evict_l1, insert_to_l1, evict_l2, insert_to_l2,
}
use computer_structures.Ranked.Accesses.{
  ranked_cache, split_of, hit_l1, hit_l2, miss_both, perform, ranked_access, ranked_run, total_time,
}
use computer_structures.Ranked.Masks
use computer_structures.Ranked.Ranks
use computer_structures.Ranked.Ranks.{IsRanked, IsPromoted}

-- Everything that a run computes with.
ranked_simulation : Unit {0}
unfolding create_mask_loop create_mask search_ways for_ways new_rank update_lru update_lru_for_evac
    insert_to_slot last_ranked get_lru empty_slot update_cache_counters search_cache evict_l1
    insert_to_l1 evict_l2 insert_to_l2 ranked_cache split_of hit_l1 hit_l2 miss_both perform
    ranked_access ranked_run total_time log2
ranked_simulation = tt

abbrev raw_way : RankedWay
raw_way = record { tag = 9; valid_bit = true; dirty = true; lru = 9 }

-- Blocks of 8 bytes, L1 of 16 and L2 of 32 bytes, both direct mapped, with allocation.
abbrev tiny : Option RankedCache
unfolding ranked_simulation
tiny = ranked_cache raw_way 100 3 4 5 0 0 1 5 1

abbrev counts : Option RankedCache → List ℕ
unfolding ranked_simulation
counts none = []
counts (some m) =
    m.l1_num_of_accesses ∷ m.l1_miss ∷ m.l2_num_of_accesses ∷ m.l2_miss ∷ total_time m ∷ []

-- A miss, a hit, two misses that replace the block in L1, the second of them a hit in L2.
counts_of_run :
    counts (
      tiny >>= λ m.
      ranked_run (split_of 3 m) m ((b'r', 0) ∷ (b'w', 4) ∷ (b'r', 16) ∷ (b'r', 0) ∷ []))
    ≡ 4 ∷ 3 ∷ 3 ∷ 2 ∷ 219 ∷ []
unfolding ranked_simulation
counts_of_run = refl

create_mask_lem_example : create_mask 3 4 ≡ 120
create_mask_lem_example = Masks.create_mask_lem 3 4 (omega arith)

abbrev newest : RankedWay
newest = record { tag = 5; valid_bit = true; dirty = false; lru = 1 }

abbrev oldest_way : RankedWay
oldest_way = record { tag = 7; valid_bit = true; dirty = true; lru = 2 }

abbrev pair : List RankedWay
pair = newest ∷ oldest_way ∷ []

abbrev rank_in : Option RankedWay → ℕ
rank_in none = 0
rank_in (some w) = w.lru

pair_rank : (i : ℕ) (w : RankedWay) → get_elem? pair i ≡ some w → (w.lru ≡ suc i) × (i < 2)
pair_rank zero w e = (sym (ap rank_in e), omega arith)
pair_rank (suc zero) w e = (sym (ap rank_in e), omega arith)
pair_rank (suc (suc i)) w e = absurd (cc)

pair-IsRanked : IsRanked pair
pair-IsRanked = record {
  low = λ i w e _. omega (arith, (pair_rank i w e).0);
  high = λ i w e _. omega (arith, (pair_rank i w e).0, (pair_rank i w e).1);
  distinct =
      λ i j w v e f _ _ ne same. ne (omega (arith, (pair_rank i w e).0, (pair_rank j v f).0, same));
}

update_lru-IsPromoted_example :
    (ways' : List RankedWay) × (update_lru (pair ∷ []) 0 2 2 ≡ some (set (pair ∷ []) 0 ways'))
    × IsPromoted pair ways' 1
update_lru-IsPromoted_example =
    Ranks.update_lru-IsPromoted (pair ∷ []) 0 1 pair oldest_way refl refl refl pair-IsRanked
      (omega arith)
