-- ===== src/Recent/Grid.antt =====
-- HW2/cacheSimShelly.cpp: the operations of `Cache` stay inside its vectors.
use computer_structures.Base.{
  ℕ, ◌%◌, ◌<◌, ◌≡◌, refl, sym, ap, ◌∙◌, arith, Bool, true, false, not, Option, none, some, List,
  if◌then◌else◌, ◌==◌, eq_cases, inl, inr, length, length-set, get_elem?, get_elem?_lem,
  get_elem?-set_self, get_elem?-set_ne, set, write, write-set, Returns, returns, Returns-bind,
  Returns-eq, ◌>>=◌, subst,
}
use native.Mathlib.Nat.{mod-lt}
use computer_structures.Recent.Rows.{
  RecentCache, Cell, DataStatus, block_of, row_of, upper, argument_block, in_cache, replace_cell,
  without, lru_remove, lru_update, lru_get_least_recently_used, with_row, replace_old, add_over,
  added, add, change_to_x,
}
use computer_structures.Recent.Cells.{
  find_cell-Returns, change_cell-Returns, IsSized, claim_free-Returns, IsReplaced,
  replace_cell-IsReplaced,
}

-- So many rows, of so many cells each, and a list for each row.
pub record IsGrid (rows ways : ℕ) (c : RecentCache) : Type 0 where
  pub rows_known : c.num_of_rows ≡ rows
  pub ways_known : c.associative_level ≡ ways
  pub deep : (row : ℕ) → row < rows → Returns (λ xs. length xs ≡ ways) (get_elem? c.cells row)
  pub wide : length c.cells ≡ rows
  pub listed : length c.lru_vector ≡ rows

abbrev pub HasGrid : ℕ → ℕ → Bool × RecentCache → Type 0
HasGrid rows ways r = IsGrid rows ways r.1

module _ {rows ways : ℕ} (some_rows : 0 < rows) where
  row_of-Returns :
      (c : RecentCache) (block : ℕ)
      → IsGrid rows ways c
      → Returns (λ row. row < rows) (row_of c block)
  row_of-Returns c block g =
      let other : (c.num_of_rows == 0) ≡ false = ground (arith, g.rows_known) in
      rw other (returns (subst (λ n. block % n < rows) (sym g.rows_known) (mod-lt block some_rows)))

  list-Returns :
      (c : RecentCache) (row : ℕ)
      → IsGrid rows ways c
      → row < rows
      → Returns (λ _. Unit) (get_elem? c.lru_vector row)
  list-Returns c row g h =
      let (xs, e) = get_elem?_lem c.lru_vector row (omega (arith, h, g.listed)) in
      Returns-eq (get_elem? c.lru_vector row) e tt

  pub in_cache-Returns :
      (c : RecentCache) (address : ℕ) (is_tag : Bool)
      → IsGrid rows ways c
      → Returns (λ _. Unit) (in_cache c address is_tag)
  unfolding in_cache
  in_cache-Returns c address is_tag g =
      let block = argument_block c address is_tag in
      Returns-bind _ (row_of-Returns c block g) (λ row h. Returns-bind _ (g.deep row h) (λ xs long.
        find_cell-Returns c.associative_level xs (upper c block)
          (omega (arith, long, g.ways_known))))

  lists-Returns :
      (c : RecentCache) (row : ℕ) (xs : List ℕ)
      → IsGrid rows ways c
      → row < rows
      → Returns
          (IsGrid rows ways)
          (write c.lru_vector row xs >>= λ lists. some (record c { lru_vector = lists }))
  lists-Returns c row xs g h =
      Returns-bind _
        (Returns-eq {P = λ lists. length lists ≡ rows} (write c.lru_vector row xs)
          (write-set c.lru_vector row xs (omega (arith, h, g.listed)))
          (length-set c.lru_vector row xs ∙ g.listed))
        (λ lists long. returns (record {
          rows_known = g.rows_known;
          ways_known = g.ways_known;
          deep = g.deep;
          wide = g.wide;
          listed = long;
        }))

  pub lru_remove-Returns :
      (c : RecentCache) (tag : ℕ)
      → IsGrid rows ways c
      → Returns (IsGrid rows ways) (lru_remove c tag)
  unfolding lru_remove
  lru_remove-Returns c tag g = Returns-bind _ (row_of-Returns c tag g) (λ row h.
      Returns-bind _ (list-Returns c row g h) (λ xs _. lists-Returns c row (without tag xs) g h))

  pub lru_update-Returns :
      (c : RecentCache) (address : ℕ) (is_address : Bool)
      → IsGrid rows ways c
      → Returns (IsGrid rows ways) (lru_update c address is_address)
  unfolding lru_update
  lru_update-Returns c address is_address g =
      Returns-bind _ (row_of-Returns c (argument_block c address (not is_address)) g)
        (λ row h. Returns-bind _ (list-Returns c row g h) (λ xs _. lists-Returns c row _ g h))

  pub lru_get-Returns :
      (c : RecentCache) (address : ℕ)
      → IsGrid rows ways c
      → Returns (λ _. Unit) (lru_get_least_recently_used c address)
  unfolding lru_get_least_recently_used
  lru_get-Returns c address g =
      Returns-bind _ (row_of-Returns c (block_of c address) g)
        (λ row h. Returns-bind _ (list-Returns c row g h) (λ xs _. returns tt))

  with_row-Returns :
      (c : RecentCache) (row : ℕ) (xs : List Cell)
      → IsGrid rows ways c
      → row < rows
      → length xs ≡ ways
      → Returns (IsGrid rows ways) (with_row c row xs)
  with_row-Returns c row xs g h long =
      let range : row < length c.cells = omega (arith, h, g.wide) in
      Returns-bind _
        (Returns-eq {P = λ cells. cells ≡ set c.cells row xs} (write c.cells row xs)
          (write-set c.cells row xs range) refl)
        (λ cells same. returns (record {
          rows_known = g.rows_known;
          ways_known = g.ways_known;
          deep = λ r below. rw same (elim (eq_cases row r) [
            | inl e ↦
                Returns-eq (get_elem? (set c.cells row xs) r)
                  (subst (λ i. get_elem? (set c.cells row xs) i ≡ some xs) e
                    (get_elem?-set_self c.cells row xs range))
                  long
            | inr ne ↦ rw (get_elem?-set_ne c.cells row r xs ne) (g.deep r below)
          ]);
          wide =
              ap (λ (l : List (List Cell)). length l) same ∙ (length-set c.cells row xs ∙ g.wide);
          listed = g.listed;
        }))

  change_to_x-Returns :
      (unset : ℕ) (c : RecentCache) (address : ℕ) (status : DataStatus) (is_address : Bool)
      → Returns
          (λ row. row < rows)
          (if is_address then row_of c (argument_block c address (not is_address)) else some unset)
      → IsGrid rows ways c
      → Returns (IsGrid rows ways) (change_to_x unset c address status is_address)
  unfolding change_to_x
  change_to_x-Returns unset c address status is_address first g =
      let block = argument_block c address (not is_address) in
      Returns-bind _ first (λ row h. Returns-bind _ (g.deep row h) (λ xs long.
        Returns-bind _
          (change_cell-Returns c.associative_level xs (upper c block) status
            (omega (arith, long, g.ways_known)))
          (λ ys same. with_row-Returns c row ys g h (same ∙ long))))

  pub change_to_x-true :
      (unset : ℕ) (c : RecentCache) (address : ℕ) (status : DataStatus)
      → IsGrid rows ways c
      → Returns (IsGrid rows ways) (change_to_x unset c address status true)
  change_to_x-true unset c address status g =
      change_to_x-Returns unset c address status true (row_of-Returns c (block_of c address) g) g

  pub change_to_x-false :
      (unset : ℕ) (c : RecentCache) (address : ℕ) (status : DataStatus)
      → unset < rows
      → IsGrid rows ways c
      → Returns (IsGrid rows ways) (change_to_x unset c address status false)
  change_to_x-false unset c address status small g =
      change_to_x-Returns unset c address status false (returns small) g

  replace_old-Returns :
      (c : RecentCache) (row old : ℕ) (r : Option (Bool × List Cell))
      → IsGrid rows ways c
      → row < rows
      → IsReplaced ways r
      → Returns (HasGrid rows ways) (replace_old c row old r)
  replace_old-Returns c row old none g h sized = returns g
  replace_old-Returns c row old (some (need_evac, ys)) g h sized =
      Returns-bind _ (with_row-Returns c row ys g h sized)
        (λ c' g'. Returns-bind _ (lru_remove-Returns c' old g') (λ c'' g''. returns g''))

  add_over-Returns :
      (c : RecentCache) (row : ℕ) (xs : List Cell) (tag : ℕ) (l1 : Bool) (lru_address : Option ℕ)
      → IsGrid rows ways c
      → row < rows
      → length xs ≡ ways
      → Returns (HasGrid rows ways) (add_over c row xs tag l1 lru_address)
  add_over-Returns c row xs tag l1 none g h long = returns g
  add_over-Returns c row xs tag l1 (some old) g h long =
      replace_old-Returns c row old (replace_cell l1 xs (upper c old) tag) g h (
        subst (λ n. IsReplaced n (replace_cell l1 xs (upper c old) tag)) long
          (replace_cell-IsReplaced l1 xs (upper c old) tag))

  added-Returns :
      (c : RecentCache) (row : ℕ) (xs : List Cell) (tag : ℕ) (l1 : Bool) (lru_address : Option ℕ)
      (free : Option (List Cell))
      → IsGrid rows ways c
      → row < rows
      → length xs ≡ ways
      → IsSized (length xs) free
      → Returns (HasGrid rows ways) (added c row xs tag l1 lru_address free)
  added-Returns c row xs tag l1 lru_address none g h long sized =
      add_over-Returns c row xs tag l1 lru_address g h long
  added-Returns c row xs tag l1 lru_address (some ys) g h long sized =
      Returns-bind _ (with_row-Returns c row ys g h (sized ∙ long)) (λ c' g'. returns g')

  pub add-Returns :
      (c : RecentCache) (address : ℕ) (lru_address : Option ℕ) (l1 : Bool)
      → IsGrid rows ways c
      → Returns (HasGrid rows ways) (add c address lru_address l1)
  unfolding add
  add-Returns c address lru_address l1 g =
      let block = block_of c address in
      Returns-bind _ (row_of-Returns c block g) (λ row h. Returns-bind _ (g.deep row h) (λ xs long.
        Returns-bind _
          (claim_free-Returns (in_cache c address false) xs (upper c block)
            (in_cache-Returns c address false g))
          (λ free sized.
            added-Returns c row xs (upper c block) l1 lru_address free g h long sized)))
