-- ===== src/Ranked/Levels.antt =====
-- HW2/cacheSimRoy.cpp: the two levels, the insertion of blocks and the accesses of `main`.
use computer_structures.Base.{
  ℕ, ◌+◌, Bool, true, false, Option, none, some, List, if◌then◌else◌, ◌==◌, get_elem?, u32, shl32,
  shr, bit_and, ◌>>=◌,
}
use computer_structures.Base.Words.{log2}
use computer_structures.Ranked.Ways.{
  RankedWay, create_mask, search_ways, update_lru, update_lru_for_evac, way_at, change_way,
  insert_to_slot, get_lru, empty_slot,
}

pub record RankedCache : Type 0 where
  pub l1 : List (List RankedWay)
  pub l2 : List (List RankedWay)
  pub mem_cyc : ℕ
  pub l1_assoc : ℕ
  pub l2_assoc : ℕ
  pub l1_cyc : ℕ
  pub l2_cyc : ℕ
  pub wr_alloc : ℕ
  pub l1_miss : ℕ
  pub l2_miss : ℕ
  pub l1_num_of_accesses : ℕ
  pub l2_num_of_accesses : ℕ
  pub total : ℕ
  pub l1_levels : ℕ
  pub l2_levels : ℕ

abbrev pub count_miss : Bool → ℕ → ℕ
count_miss is_miss n = if is_miss then u32 (n + 1) else n

unfoldable pub update_cache_counters : RankedCache → ℕ → Bool → RankedCache
update_cache_counters m cache_id is_miss =
    if cache_id == 1
    then record m {
      l1_num_of_accesses = u32 (m.l1_num_of_accesses + 1);
      l1_miss = count_miss is_miss m.l1_miss;
    }
    else record m {
      l2_num_of_accesses = u32 (m.l2_num_of_accesses + 1);
      l2_miss = count_miss is_miss m.l2_miss;
    }

unfoldable pub search_cache : RankedCache → ℕ → ℕ → ℕ → Option (Option (RankedWay × ℕ))
search_cache m cache_id cur_set cur_tag =
    if cache_id == 1
    then (get_elem? m.l1 cur_set >>= λ ways. search_ways m.l1_assoc ways cur_tag 0)
    else (get_elem? m.l2 cur_set >>= λ ways. search_ways m.l2_assoc ways cur_tag 0)

-- The set and the tag in the other level of the block with a set and a tag in this one.
abbrev pub set_in_other : ℕ → ℕ → ℕ → ℕ → ℕ
set_in_other levels other_levels cur_set tag =
    bit_and (u32 (shl32 tag (log2 levels) + cur_set)) (create_mask 0 (log2 other_levels))

abbrev pub tag_in_other : ℕ → ℕ → ℕ → ℕ → ℕ
tag_in_other levels other_levels cur_set tag =
    shr (u32 (shl32 tag (log2 levels) + cur_set)) (log2 other_levels)

-- A dirty block that leaves L1 makes its copy in L2 dirty and the newest there.
unfoldable pub evict_l1 : RankedCache → ℕ → RankedWay → Option RankedCache
evict_l1 m cur_set way_to_evac =
    if way_to_evac.dirty
    then (let l2_set = set_in_other m.l1_levels m.l2_levels cur_set way_to_evac.tag in
        search_cache m 2 l2_set (tag_in_other m.l1_levels m.l2_levels cur_set way_to_evac.tag)
        >>= λ found. elim found [
          | none ↦ some m
          | some (_, way_num_l2) ↦ do
            w ← way_at m.l2 l2_set way_num_l2
            l2 ← change_way m.l2 l2_set way_num_l2 (λ x. record x { dirty = true })
            l2' ← update_lru l2 l2_set w.lru m.l2_assoc
            some (record m { l2 = l2' })
        ])
    else some m

unfoldable pub insert_to_l1 : RankedCache → ℕ → ℕ → ℕ → Option RankedCache
insert_to_l1 m cur_set cur_tag operation = get_elem? m.l1 cur_set >>= λ ways.
    empty_slot m.l1_assoc ways 0 >>= λ slot. elim slot [
      | some way_num ↦ do
        l1 ← insert_to_slot m.l1 cur_set cur_tag way_num operation m.l1_assoc
        some (record m { l1 = l1 })
      | none ↦ do
        way_num ← get_lru m.l1 cur_set m.l1_assoc
        way_to_evac ← way_at m.l1 cur_set way_num
        m' ← evict_l1 m cur_set way_to_evac
        l1 ← insert_to_slot m'.l1 cur_set cur_tag way_num operation m'.l1_assoc
        some (record m' { l1 = l1 })
    ]

-- A block that leaves L2 leaves L1 too, and the ranks there close up.
unfoldable pub evict_l2 : RankedCache → ℕ → RankedWay → Option RankedCache
evict_l2 m cur_set way_to_evac =
    let l1_set = set_in_other m.l2_levels m.l1_levels cur_set way_to_evac.tag in
    search_cache m 1 l1_set (tag_in_other m.l2_levels m.l1_levels cur_set way_to_evac.tag)
    >>= λ found. elim found [
      | none ↦ some m
      | some (l1_way, way_num_l1) ↦ do
        l1 ← change_way m.l1 l1_set way_num_l1 (λ x. record x { valid_bit = false })
        l1' ← update_lru_for_evac l1 l1_set l1_way.lru m.l1_assoc
        some (record m { l1 = l1' })
    ]

unfoldable pub insert_to_l2 : RankedCache → ℕ → ℕ → ℕ → Option RankedCache
insert_to_l2 m cur_set cur_tag operation = get_elem? m.l2 cur_set >>= λ ways.
    empty_slot m.l2_assoc ways 0 >>= λ slot. elim slot [
      | some way_num ↦ do
        l2 ← insert_to_slot m.l2 cur_set cur_tag way_num operation m.l2_assoc
        some (record m { l2 = l2 })
      | none ↦ do
        way_num ← get_lru m.l2 cur_set m.l2_assoc
        way_to_evac ← way_at m.l2 cur_set way_num
        m' ← evict_l2 m cur_set way_to_evac
        l2 ← insert_to_slot m'.l2 cur_set cur_tag way_num operation m'.l2_assoc
        some (record m' { l2 = l2 })
    ]
