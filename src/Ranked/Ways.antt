-- ===== src/Ranked/Ways.antt =====
-- HW2/cacheSimRoy.cpp: the ways of a set and the ranks by which the least recently used is found. An
-- array of sets is a list of lists of ways. `none` is an access outside an array.
use computer_structures.Base.{
  ℕ, zero, suc, ◌+◌, ◌-◌, Bool, true, not, ◌&&◌, Option, none, some, List, [], ◌∷◌, if◌then◌else◌,
  ◌==◌, ltb, get_elem?, write, u32, shl32, ◌>>=◌,
}

pub record RankedWay : Type 0 where
  pub tag : ℕ
  pub valid_bit : Bool
  pub dirty : Bool
  pub lru : ℕ

-- The loop of `create_mask` at bit `i`, with `left` rounds to go.
unfoldable pub create_mask_loop : ℕ → ℕ → ℕ → ℕ
create_mask_loop zero i mask = mask
create_mask_loop (suc left) i mask = create_mask_loop left (suc i) (u32 (mask + shl32 1 i))

unfoldable pub create_mask : ℕ → ℕ → ℕ
create_mask starting_bit bits_num = create_mask_loop bits_num starting_bit 0

-- The loop of `SearchCache` at way `i`, with `left` rounds to go: the way that is found and its number.
unfoldable pub search_ways : ℕ → List RankedWay → ℕ → ℕ → Option (Option (RankedWay × ℕ))
search_ways zero ways cur_tag i = some none
search_ways (suc left) [] cur_tag i = none
search_ways (suc left) (w ∷ ways) cur_tag i =
    let rest = search_ways left ways cur_tag (suc i) in
    if w.tag == cur_tag && w.valid_bit then some (some (w, i)) else rest

-- The first `left` ways of a set, each changed in turn.
unfoldable pub for_ways : (RankedWay → RankedWay) → ℕ → List RankedWay → Option (List RankedWay)
for_ways f zero ways = some ways
for_ways f (suc left) [] = none
for_ways f (suc left) (w ∷ ways) = for_ways f left ways >>= λ rest. some (f w ∷ rest)

-- The rank after the block with rank `limit` was used.
unfoldable pub new_rank : ℕ → ℕ → ℕ
new_rank limit lru = if lru == limit then 1 else if ltb lru limit then u32 (lru + 1) else lru

abbrev pub promote : ℕ → RankedWay → RankedWay
promote limit w = if w.valid_bit then record w { lru = new_rank limit w.lru } else w

unfoldable pub update_lru : List (List RankedWay) → ℕ → ℕ → ℕ → Option (List (List RankedWay))
update_lru cur_cache cur_set limit assoc = do
  ways ← get_elem? cur_cache cur_set
  ways' ← for_ways (promote limit) assoc ways
  write cur_cache cur_set ways'

-- The rank after the block with rank `limit` was taken out.
abbrev pub close_rank : ℕ → RankedWay → RankedWay
close_rank limit w =
    if w.valid_bit then record w { lru = if ltb limit w.lru then w.lru - 1 else w.lru } else w

unfoldable pub update_lru_for_evac :
    List (List RankedWay) → ℕ → ℕ → ℕ → Option (List (List RankedWay))
update_lru_for_evac cur_cache cur_set limit assoc = do
  ways ← get_elem? cur_cache cur_set
  ways' ← for_ways (close_rank limit) assoc ways
  write cur_cache cur_set ways'

-- `cur_cache[cur_set][way_num]`, read and changed.
abbrev pub way_at : List (List RankedWay) → ℕ → ℕ → Option RankedWay
way_at cur_cache cur_set way_num = get_elem? cur_cache cur_set >>= λ ways. get_elem? ways way_num

abbrev pub change_way :
    List (List RankedWay) → ℕ → ℕ → (RankedWay → RankedWay) → Option (List (List RankedWay))
change_way cur_cache cur_set way_num f = do
  ways ← get_elem? cur_cache cur_set
  w ← get_elem? ways way_num
  ways' ← write ways way_num (f w)
  write cur_cache cur_set ways'

unfoldable pub insert_to_slot :
    List (List RankedWay) → ℕ → ℕ → ℕ → ℕ → ℕ → Option (List (List RankedWay))
insert_to_slot cur_cache cur_set cur_tag way_num operation assoc = do
  cur_cache' ← change_way cur_cache cur_set way_num (λ _. record {
    tag = cur_tag;
    valid_bit = true;
    dirty = not (operation == b'r');
    lru = assoc;
  })
  update_lru cur_cache' cur_set assoc assoc

-- The loop of `getLRU` at way `i`: the way with the last rank, or NULL, which all callers read through.
unfoldable pub last_ranked : ℕ → List RankedWay → ℕ → ℕ → Option ℕ
last_ranked zero ways assoc i = none
last_ranked (suc left) [] assoc i = none
last_ranked (suc left) (w ∷ ways) assoc i =
    let rest = last_ranked left ways assoc (suc i) in if w.lru == assoc then some i else rest

unfoldable pub get_lru : List (List RankedWay) → ℕ → ℕ → Option ℕ
get_lru cur_cache cur_set assoc =
    get_elem? cur_cache cur_set >>= λ ways. last_ranked assoc ways assoc 0

-- The search for an empty slot at way `i`, with `left` rounds to go.
unfoldable pub empty_slot : ℕ → List RankedWay → ℕ → Option (Option ℕ)
empty_slot zero ways i = some none
empty_slot (suc left) [] i = none
empty_slot (suc left) (w ∷ ways) i =
    let rest = empty_slot left ways (suc i) in if w.valid_bit then rest else some (some i)
