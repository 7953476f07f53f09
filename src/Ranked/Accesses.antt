-- ===== src/Ranked/Accesses.antt =====
-- HW2/cacheSimRoy.cpp: the initial cache, the accesses and the output of `main`. The counters are ints,
-- as 32-bit patterns. `raw` is what the memory of a way held before.
use computer_structures.Base.{
  pow_unsigned, ltb, ℕ, ◌+◌, ◌*◌, ◌/◌, ◌^◌, Bool, true, false, not, ◌&&◌, Option, none, some, List,
  [], ◌∷◌, if◌then◌else◌, ◌==◌, replicate, u32, sub32, shr, bit_and, ◌>>=◌,
}
use computer_structures.Base.Words.{log2}
use computer_structures.Ranked.Ways.{RankedWay, create_mask, update_lru, change_way}
use computer_structures.Ranked.Levels.{
  RankedCache, update_cache_counters, search_cache, insert_to_l1, insert_to_l2,
}

-- The masks and shifts by which `main` splits an address.
pub record Split : Type 0 where
  pub b_size : ℕ
  pub l1_set_mask : ℕ
  pub l2_set_mask : ℕ
  pub size_to_shft_for_l1_tag : ℕ
  pub size_to_shft_for_l2_tag : ℕ

-- `L1Levels` and `L2Levels`, from the three sizes: `none` where the logarithm of 0 is taken, or an
-- array of a negative length.
abbrev pub levels_of : ℕ → ℕ → ℕ → Option ℕ
levels_of size b_size assoc =
    let levels = size / b_size / assoc in
    if ltb 0 levels && ltb levels (2 ^ 31) then some levels else none

abbrev pub empty_sets : RankedWay → ℕ → ℕ → List (List RankedWay)
empty_sets raw levels assoc = replicate levels (replicate assoc (record raw { valid_bit = false }))

unfoldable pub ranked_cache : RankedWay → ℕ → ℕ → ℕ → ℕ → ℕ → ℕ → ℕ → ℕ → ℕ → Option RankedCache
ranked_cache raw mem_cyc b_size l1_size l2_size l1_assoc l2_assoc l1_cyc l2_cyc wr_alloc = do
  block ← pow_unsigned b_size
  size1 ← pow_unsigned l1_size
  size2 ← pow_unsigned l2_size
  ways1 ← pow_unsigned l1_assoc
  ways2 ← pow_unsigned l2_assoc
  levels1 ← levels_of size1 block ways1
  levels2 ← levels_of size2 block ways2
  some (record {
    l1 = empty_sets raw levels1 ways1;
    l2 = empty_sets raw levels2 ways2;
    mem_cyc = mem_cyc;
    l1_assoc = ways1;
    l2_assoc = ways2;
    l1_cyc = l1_cyc;
    l2_cyc = l2_cyc;
    wr_alloc = wr_alloc;
    l1_miss = 0;
    l2_miss = 0;
    l1_num_of_accesses = 0;
    l2_num_of_accesses = 0;
    total = 0;
    l1_levels = levels1;
    l2_levels = levels2;
  })

unfoldable pub split_of : ℕ → RankedCache → Split
split_of b_size m = record {
  b_size = b_size;
  l1_set_mask = create_mask b_size (log2 m.l1_levels);
  l2_set_mask = create_mask b_size (log2 m.l2_levels);
  size_to_shft_for_l1_tag = b_size + log2 m.l1_levels;
  size_to_shft_for_l2_tag = b_size + log2 m.l2_levels;
}

-- Both levels are counted, the first with a miss.
abbrev pub count_both : Bool → RankedCache → RankedCache
count_both is_miss m = update_cache_counters (update_cache_counters m 1 true) 2 is_miss

-- A hit in L1, by a store or by a load.
unfoldable pub hit_l1 : RankedCache → Bool → ℕ → RankedWay → ℕ → Option RankedCache
hit_l1 m stores l1_set l1_way way_num = do
  l1 ← update_lru m.l1 l1_set l1_way.lru m.l1_assoc
  l1' ← if stores then change_way l1 l1_set way_num (λ x. record x { dirty = true }) else some l1
  some (update_cache_counters (record m { l1 = l1' }) 1 false)

-- A miss in L1 and a hit in L2.
unfoldable pub hit_l2 : RankedCache → Bool → ℕ → ℕ → ℕ → ℕ → RankedWay → ℕ → Option RankedCache
hit_l2 m stores operation l1_set l1_tag l2_set l2_way way_num =
    update_lru m.l2 l2_set l2_way.lru m.l2_assoc >>= λ l2.
    if stores && not (m.wr_alloc == 1)
    then (change_way l2 l2_set way_num (λ x. record x { dirty = true }) >>= λ l2'.
        some (count_both false (record m { l2 = l2' })))
    else (insert_to_l1 (record m { l2 = l2 }) l1_set l1_tag operation >>= λ m'.
        some (count_both false m'))

-- A miss in both levels.
unfoldable pub miss_both : RankedCache → Bool → ℕ → ℕ → ℕ → ℕ → ℕ → Option RankedCache
miss_both m stores operation l1_set l1_tag l2_set l2_tag =
    if stores && not (m.wr_alloc == 1)
    then some (count_both true m)
    else (insert_to_l2 m l2_set l2_tag operation >>= λ m'.
        insert_to_l1 m' l1_set l1_tag operation >>= λ m''. some (count_both true m''))

-- The body of `if (operation == 'w')` and of `if (operation == 'r')`.
unfoldable pub perform : RankedCache → Bool → ℕ → ℕ → ℕ → ℕ → ℕ → Option RankedCache
perform m stores operation l1_set l1_tag l2_set l2_tag = search_cache m 1 l1_set l1_tag >>= λ in_l1.
    elim in_l1 [
      | some (l1_way, way_num) ↦ hit_l1 m stores l1_set l1_way way_num
      | none ↦ search_cache m 2 l2_set l2_tag >>= λ in_l2. elim in_l2 [
        | some (l2_way, way_num) ↦ hit_l2 m stores operation l1_set l1_tag l2_set l2_way way_num
        | none ↦ miss_both m stores operation l1_set l1_tag l2_set l2_tag
      ]
    ]

-- A round of the loop over the lines, on the operation and the address of the line.
unfoldable pub ranked_access : Split → RankedCache → ℕ → ℕ → Option RankedCache
ranked_access s m operation num =
    let m' = record m { total = u32 (m.total + 1) } in
    let l1_set = shr (bit_and num s.l1_set_mask) s.b_size in
    let l2_set = shr (bit_and num s.l2_set_mask) s.b_size in
    let l1_tag = u32 (shr num s.size_to_shft_for_l1_tag) in
    let l2_tag = u32 (shr num s.size_to_shft_for_l2_tag) in
    if operation == b'w'
    then perform m' true operation l1_set l1_tag l2_set l2_tag
    else (if operation == b'r'
        then perform m' false operation l1_set l1_tag l2_set l2_tag
        else some m')

unfoldable pub ranked_run : Split → RankedCache → List (ℕ × ℕ) → Option RankedCache
ranked_run s m [] = some m
ranked_run s m ((operation, num) ∷ lines) =
    ranked_access s m operation num >>= λ m'. ranked_run s m' lines

-- `total_time`, on unsigned numbers.
unfoldable pub total_time : RankedCache → ℕ
total_time m =
    let l1_hit = sub32 m.total m.l1_miss in
    let l1_miss_and_l2_hit = sub32 (sub32 m.total m.l2_miss) l1_hit in
    u32 (
      l1_hit * m.l1_cyc
      + l1_miss_and_l2_hit * (m.l1_cyc + m.l2_cyc)
      + m.l2_miss * (m.l1_cyc + m.l2_cyc + m.mem_cyc))
