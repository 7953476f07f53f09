-- ===== src/Recent/Rows.antt =====
-- HW2/cacheSimShelly.cpp: the class `Cache`. An address is an unsigned long; tags and list elements are
-- cut to an unsigned int when they are stored, and compared in full. `none` is an access outside a
-- vector or a remainder by 0.
use computer_structures.Base.{
  pow_unsigned, pow_unsigned-some, ◌<◌, ◌≡◌, refl, bind-some, ℕ, zero, suc, ◌/◌, ◌%◌, ◌^◌, Bool,
  true, false, not, ◌&&◌, ◌||◌, Option, none, some, List, [], ◌∷◌, ◌++◌, if◌then◌else◌, ◌==◌,
  get_elem?, replicate, write, u32, shr, ◌>>=◌,
}
use computer_structures.Base.Words.{log2}

pub data DataStatus : Type 0 where
  doesnt_exist exist dirty : DataStatus

-- `std::pair<unsigned, data_status>`
pub record Cell : Type 0 where
  pub first : ℕ
  pub second : DataStatus

pub record RecentCache : Type 0 where
  pub size_of_cache : ℕ
  pub associative_level : ℕ
  pub block_size : ℕ
  pub num_of_rows : ℕ
  pub cells : List (List Cell)
  pub lru_vector : List (List ℕ)

-- `num_of_rows`, from the three sizes.
abbrev pub rows_of : ℕ → ℕ → ℕ → ℕ
rows_of size_of_cache associative_level block_size = size_of_cache / block_size / associative_level

-- The constructor past the conversions.
abbrev pub empty_cache : ℕ → ℕ → ℕ → RecentCache
empty_cache size_of_cache associative_level block_size =
    let num_of_rows = rows_of size_of_cache associative_level block_size in
    record {
      size_of_cache = size_of_cache;
      associative_level = associative_level;
      block_size = block_size;
      num_of_rows = num_of_rows;
      cells =
          replicate num_of_rows
            (replicate associative_level (record { first = 0; second = doesnt_exist }));
      lru_vector = replicate num_of_rows [];
    }

unfoldable pub recent_cache : ℕ → ℕ → ℕ → Option RecentCache
recent_cache cache_size associative_level block_size = do
  size ← pow_unsigned cache_size
  ways ← pow_unsigned associative_level
  block ← pow_unsigned block_size
  some (empty_cache size ways block)

abbrev pub is_there : DataStatus → Bool
is_there doesnt_exist = false
is_there _ = true

abbrev pub is_dirty : DataStatus → Bool
is_dirty dirty = true
is_dirty _ = false

-- The address without the offset in its block.
abbrev pub block_of : RecentCache → ℕ → ℕ
block_of c address = shr address (log2 c.block_size)

-- `tag % this->num_of_rows`
abbrev pub row_of : RecentCache → ℕ → Option ℕ
row_of c block = if c.num_of_rows == 0 then none else some (block % c.num_of_rows)

-- `tag >> num_of_bits_in_set`
abbrev pub upper : RecentCache → ℕ → ℕ
upper c block = shr block (log2 c.num_of_rows)

abbrev pub holds : Cell → ℕ → Bool
holds x tag = x.first == tag && is_there x.second

-- The loop of `in_cache` over the first `left` cells.
abbrev pub find_cell : ℕ → List Cell → ℕ → Option (Option Cell)
find_cell zero xs tag = some none
find_cell (suc left) [] tag = none
find_cell (suc left) (x ∷ xs) tag = if holds x tag then some (some x) else find_cell left xs tag

-- The block of an argument that is an address, or the block itself.
abbrev pub argument_block : RecentCache → ℕ → Bool → ℕ
argument_block c address is_tag = if is_tag then address else block_of c address

unfoldable pub in_cache : RecentCache → ℕ → Bool → Option (Option Cell)
in_cache c address is_tag = do
  let block = argument_block c address is_tag
  row ← row_of c block
  xs ← get_elem? c.cells row
  find_cell c.associative_level xs (upper c block)

-- The first loop of `add`; `some none` if no cell was free.
abbrev pub claim_free : Option (Option Cell) → List Cell → ℕ → Option (Option (List Cell))
claim_free present [] tag = some none
claim_free present (x ∷ xs) tag =
    let rest =
      claim_free present xs tag >>= λ r. some (elim r [ none ↦ none | some ys ↦ some (x ∷ ys) ]) in
    if is_there x.second
    then rest
    else present >>= λ found. elim found [
      | none ↦ some (some (record { first = u32 tag; second = exist } ∷ xs))
      | some y ↦ rest
    ]

-- The second loop of `add`: whether to evacuate, and the cells; `none` if no cell has the tag.
abbrev pub replace_cell : Bool → List Cell → ℕ → ℕ → Option (Bool × List Cell)
replace_cell l1 [] lru_address_tag tag = none
replace_cell l1 (x ∷ xs) lru_address_tag tag =
    let rest = replace_cell l1 xs lru_address_tag tag >>= λ r. some (r.0, x ∷ r.1) in
    if holds x lru_address_tag
    then some (
      is_dirty x.second || not l1 && is_there x.second,
      record { first = u32 tag; second = exist } ∷ xs,
    )
    else rest

-- The loops of `LRUremove` and `LRUupdate`.
abbrev pub without : ℕ → List ℕ → List ℕ
without tag [] = []
without tag (x ∷ xs) = if x == tag then without tag xs else x ∷ without tag xs

unfoldable pub lru_remove : RecentCache → ℕ → Option RecentCache
lru_remove c tag = do
  row ← row_of c tag
  xs ← get_elem? c.lru_vector row
  rows ← write c.lru_vector row (without tag xs)
  some (record c { lru_vector = rows })

unfoldable pub lru_update : RecentCache → ℕ → Bool → Option RecentCache
lru_update c address is_address = do
  let tag = argument_block c address (not is_address)
  row ← row_of c tag
  xs ← get_elem? c.lru_vector row
  rows ← write c.lru_vector row (without tag xs ++ u32 tag ∷ [])
  some (record c { lru_vector = rows })

-- The front of the list, if there is one.
abbrev pub front : List ℕ → Option ℕ
front [] = none
front (x ∷ xs) = some x

unfoldable pub lru_get_least_recently_used : RecentCache → ℕ → Option (Option ℕ)
lru_get_least_recently_used c address = do
  row ← row_of c (block_of c address)
  xs ← get_elem? c.lru_vector row
  some (front xs)

abbrev pub with_row : RecentCache → ℕ → List Cell → Option RecentCache
with_row c row xs = write c.cells row xs >>= λ rows. some (record c { cells = rows })

-- What `add` makes of the result of its second loop, for the list element `old`.
abbrev pub replace_old :
    RecentCache → ℕ → ℕ → Option (Bool × List Cell) → Option (Bool × RecentCache)
replace_old c row old none = some (false, c)
replace_old c row old (some (need_evac, xs)) =
    with_row c row xs >>= λ c'. lru_remove c' old >>= λ c''. some (need_evac, c'')

-- `add` after its first loop, where no cell was free; `l1` is its last argument.
abbrev pub add_over :
    RecentCache → ℕ → List Cell → ℕ → Bool → Option ℕ → Option (Bool × RecentCache)
add_over c row xs tag l1 none = some (false, c)
add_over c row xs tag l1 (some old) = replace_old c row old (replace_cell l1 xs (upper c old) tag)

-- `add` after its first loop: whether to evacuate, and the cache.
abbrev pub added :
    RecentCache
    → ℕ
    → List Cell
    → ℕ
    → Bool
    → Option ℕ
    → Option (List Cell)
    → Option (Bool × RecentCache)
added c row xs tag l1 lru_address none = add_over c row xs tag l1 lru_address
added c row xs tag l1 lru_address (some ys) = with_row c row ys >>= λ c'. some (false, c')

unfoldable pub add : RecentCache → ℕ → Option ℕ → Bool → Option (Bool × RecentCache)
add c address lru_address l1 = do
  let block = block_of c address
  row ← row_of c block
  xs ← get_elem? c.cells row
  free ← claim_free (in_cache c address false) xs (upper c block)
  added c row xs (upper c block) l1 lru_address free

-- The loop of `changeToX` over the first `left` cells.
abbrev pub change_cell : ℕ → List Cell → ℕ → DataStatus → Option (List Cell)
change_cell zero xs tag status = some xs
change_cell (suc left) [] tag status = none
change_cell (suc left) (x ∷ xs) tag status =
    let rest = change_cell left xs tag status >>= λ ys. some (x ∷ ys) in
    if holds x tag then some (record x { second = status } ∷ xs) else rest

-- `changeToX`. Only an address sets the row: else it is `unset`, what the variable held.
unfoldable pub change_to_x : ℕ → RecentCache → ℕ → DataStatus → Bool → Option RecentCache
change_to_x unset c address status is_address = do
  let block = argument_block c address (not is_address)
  row ← if is_address then row_of c block else some unset
  xs ← get_elem? c.cells row
  ys ← change_cell c.associative_level xs (upper c block) status
  with_row c row ys

-- The loop of `checkIfDirty`.
abbrev pub dirty_cell : ℕ → List Cell → ℕ → Option Bool
dirty_cell zero xs tag = some false
dirty_cell (suc left) [] tag = none
dirty_cell (suc left) (x ∷ xs) tag =
    if x.first == tag then some (is_dirty x.second) else dirty_cell left xs tag

unfoldable pub check_if_dirty : RecentCache → ℕ → Option Bool
check_if_dirty c address = do
  let block = block_of c address
  row ← row_of c block
  xs ← get_elem? c.cells row
  dirty_cell c.associative_level xs (upper c block)

pub recent_cache-some :
    (cache_size associative_level block_size : ℕ)
    → cache_size < 32
    → associative_level < 32
    → block_size < 32
    → recent_cache cache_size associative_level block_size
      ≡ some (empty_cache (2 ^ cache_size) (2 ^ associative_level) (2 ^ block_size))
unfolding recent_cache
recent_cache-some cache_size associative_level block_size s1 s2 s3 =
    bind-some (pow_unsigned cache_size) _ (pow_unsigned-some cache_size s1) (
      bind-some (pow_unsigned associative_level) _ (pow_unsigned-some associative_level s2)
        (bind-some (pow_unsigned block_size) _ (pow_unsigned-some block_size s3) refl))
