-- ===== src/Recent/Print.antt =====
-- HW2/cacheSimShelly.cpp: the loop of `main` on parsed lines, from the new memory to what is printed.
use computer_structures.Base.{
  pow_unsigned, pow_unsigned-some, bind-some, ℕ, ◌<◌, ◌^◌, ◌≡◌, refl, arith, some, List, [], length,
  Returns-result, replicate, length-replicate, get_elem?, get_elem?-replicate, Returns-eq,
}
use computer_structures.Recent.Rows.{
  Cell, DataStatus, recent_cache, recent_cache-some, empty_cache, rows_of,
}
use computer_structures.Recent.Accesses.{
  RecentMemory, recent_memory, empty_memory, Shown, recent_run,
}
use computer_structures.Recent.Grid.{IsGrid}
use computer_structures.Recent.Tally.{AllShown}
use computer_structures.Recent.Counting.{run-AllShown}

-- A new level.
empty_cache-IsGrid :
    (size ways block : ℕ) → IsGrid (rows_of size ways block) ways (empty_cache size ways block)
empty_cache-IsGrid size ways block =
    let rows = rows_of size ways block in
    let row : List Cell = replicate ways (record { first = 0; second = DataStatus.doesnt_exist }) in
    record {
      rows_known = refl;
      ways_known = refl;
      deep = λ r h.
          Returns-eq (get_elem? (replicate rows row) r) (get_elem?-replicate rows row r h)
            (length-replicate ways _);
      wide = length-replicate rows row;
      listed = length-replicate rows [];
    }

-- The memory that the constructor builds from sizes that fit an unsigned int.
abbrev new_memory : ℕ → ℕ → ℕ → ℕ → ℕ → ℕ → ℕ → ℕ → ℕ → RecentMemory
new_memory mem_cyc b_size l1_size l2_size l1_assoc l2_assoc l1_cyc l2_cyc wr_alloc =
    empty_memory (empty_cache (2 ^ l1_size) (2 ^ l1_assoc) (2 ^ b_size))
      (empty_cache (2 ^ l2_size) (2 ^ l2_assoc) (2 ^ b_size)) mem_cyc (2 ^ b_size) l1_cyc l2_cyc
      wr_alloc

recent_memory-some :
    (mem_cyc b_size l1_size l2_size l1_assoc l2_assoc l1_cyc l2_cyc wr_alloc : ℕ)
    → b_size < 32
    → l1_size < 32
    → l2_size < 32
    → l1_assoc < 32
    → l2_assoc < 32
    → recent_memory mem_cyc b_size l1_size l2_size l1_assoc l2_assoc l1_cyc l2_cyc wr_alloc
      ≡ some (new_memory mem_cyc b_size l1_size l2_size l1_assoc l2_assoc l1_cyc l2_cyc wr_alloc)
unfolding recent_memory
recent_memory-some mem_cyc b_size l1_size l2_size l1_assoc l2_assoc l1_cyc l2_cyc wr_alloc h h1 h2
      w1 w2 =
    bind-some (pow_unsigned b_size) _ (pow_unsigned-some b_size h) (
      bind-some (recent_cache l1_size l1_assoc b_size) _
        (recent_cache-some l1_size l1_assoc b_size h1 w1 h)
        (bind-some (recent_cache l2_size l2_assoc b_size) _
          (recent_cache-some l2_size l2_assoc b_size h2 w2 h) refl))

-- For exponents of sizes below 32 that give both levels at least one row, fewer than 2 ^ 32 lines,
-- and a first row that the unset variable of `changeToX` happens to name, the loop of the
-- list-based simulator on parsed lines, from its new memory, reads no vector out of range and
-- prints a line for each access and one at the end; the one after `i` accesses shows that `i`
-- accesses of L1 had no more than `i` misses, that each of them was an access of L2, of which no
-- more missed, and the time that these cost by the cycles of L1, of L2 and of the memory, cut to 32
-- bits.
pub recent_run-AllShown :
    (unset mem_cyc b_size l1_size l2_size l1_assoc l2_assoc l1_cyc l2_cyc wr_alloc : ℕ)
    (lines : List (ℕ × ℕ))
    → b_size < 32
    → l1_size < 32
    → l2_size < 32
    → l1_assoc < 32
    → l2_assoc < 32
    → unset < rows_of (2 ^ l1_size) (2 ^ l1_assoc) (2 ^ b_size)
    → 0 < rows_of (2 ^ l2_size) (2 ^ l2_assoc) (2 ^ b_size)
    → length lines < 2 ^ 32
    → (m : RecentMemory) × (shows : List Shown) × (recent_memory mem_cyc b_size l1_size l2_size
          l1_assoc l2_assoc l1_cyc l2_cyc wr_alloc
        ≡ some m)
      × (recent_run unset m (0, 1) (0, 1) lines ≡ some shows)
      × AllShown l1_cyc l2_cyc mem_cyc 0 (length lines) shows
recent_run-AllShown unset mem_cyc b_size l1_size l2_size l1_assoc l2_assoc l1_cyc l2_cyc wr_alloc
      lines h h1 h2 w1 w2 small1 some_rows2 small =
    let m = new_memory mem_cyc b_size l1_size l2_size l1_assoc l2_assoc l1_cyc l2_cyc wr_alloc in
    let (shows, runs, all) = Returns-result (
      run-AllShown (rows_of (2 ^ l1_size) (2 ^ l1_assoc) (2 ^ b_size)) (2 ^ l1_assoc)
        (rows_of (2 ^ l2_size) (2 ^ l2_assoc) (2 ^ b_size)) (2 ^ l2_assoc) (omega arith) some_rows2
        unset small1 l1_cyc l2_cyc mem_cyc lines 0 0 0 m (0, 1) (0, 1) (omega arith) (omega arith)
        (omega arith) refl refl
        (record {
          grids = record {
            one = empty_cache-IsGrid (2 ^ l1_size) (2 ^ l1_assoc) (2 ^ b_size);
            two = empty_cache-IsGrid (2 ^ l2_size) (2 ^ l2_assoc) (2 ^ b_size);
          };
          firsts = refl;
          first_misses = refl;
          seconds = refl;
          second_misses = refl;
          fetches = refl;
          cycles1_known = refl;
          cycles2_known = refl;
          cycles_mem_known = refl;
        })) in
    (
      m,
      shows,
      recent_memory-some mem_cyc b_size l1_size l2_size l1_assoc l2_assoc l1_cyc l2_cyc wr_alloc h
          h1 h2 w1 w2,
      runs,
      all,
    )
