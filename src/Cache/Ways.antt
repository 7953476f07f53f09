-- ===== src/Cache/Ways.antt =====
-- HW2/cacheSim.cpp: the entries of a set, one in each way.
use computer_structures.Base.{
  ℕ, zero, suc, ◌+◌, ◌≤◌, ◌<◌, ◌≡◌, refl, arith, true, false, Option, none, some, List, ◌∷◌, ◌&&◌,
  ◌==◌, ltb, length, get_elem?, get_elem?_lem, bind-some, ◌>>=◌,
}
use computer_structures.Cache.Level.{WayEntry, Way, find_way, find_victim}

-- The entry of set `set` in way `j`.
abbrev pub entry_of : List Way → ℕ → ℕ → Option WayEntry
entry_of ways set j = get_elem? ways j >>= λ w. get_elem? w.entries set

-- Every way has the set.
abbrev pub IsSized : List Way → ℕ → Type 0
IsSized ways set = (j : ℕ) (w : Way) → get_elem? ways j ≡ some w → set < length w.entries

-- Way `j` holds a block with the tag in the set.
abbrev pub Holds : List Way → ℕ → ℕ → ℕ → Type 0
Holds ways set tag j =
    (e : WayEntry) × (entry_of ways set j ≡ some e) × ((e.valid && e.tag == tag) ≡ true)

abbrev pub Lacks : List Way → ℕ → ℕ → ℕ → Type 0
Lacks ways set tag j =
    (e : WayEntry) × (entry_of ways set j ≡ some e) × ((e.valid && e.tag == tag) ≡ false)

abbrev pub IsFree : List Way → ℕ → ℕ → Type 0
IsFree ways set j = (e : WayEntry) × (entry_of ways set j ≡ some e) × (e.valid ≡ false)

-- Way `j` has a valid block in the set that was used at a time.
abbrev pub IsUsedAt : List Way → ℕ → ℕ → ℕ → Type 0
IsUsedAt ways set j time =
    (e : WayEntry) × (entry_of ways set j ≡ some e)
    × (e.valid ≡ true)
    × (e.last_accessed_time ≡ time)

-- Way `j` has a valid block in the set, not used before a time.
abbrev pub IsUsedSince : List Way → ℕ → ℕ → ℕ → Type 0
IsUsedSince ways set time j = (t : ℕ) × IsUsedAt ways set j t × (time ≤ t)

-- What the search for a block finds, `i` being the number of the first way.
pub data Lookup (ways : List Way) (set tag i : ℕ) : Type 0 where
  held :
      (k : ℕ)
      → k < length ways
      → ((j : ℕ) → j < k → Lacks ways set tag j)
      → Holds ways set tag k
      → find_way ways set tag i ≡ some (some (i + k))
      → Lookup ways set tag i
  lacking :
      ((j : ℕ) → j < length ways → Lacks ways set tag j)
      → find_way ways set tag i ≡ some none
      → Lookup ways set tag i

-- What the search for a victim finds, `last` being the oldest time so far and `candidate` its way: the
-- first free way, the way that was used least recently, or nothing older.
pub data Selection (ways : List Way) (set i last : ℕ) (candidate : Option ℕ) : Type 0 where
  free :
      (k : ℕ)
      → k < length ways
      → ((j : ℕ) → j < k → IsUsedSince ways set 0 j)
      → IsFree ways set k
      → find_victim ways set i last candidate ≡ some (i + k)
      → Selection ways set i last candidate
  oldest :
      (k time : ℕ)
      → k < length ways
      → time < last
      → IsUsedAt ways set k time
      → ((j : ℕ) → j < k → IsUsedSince ways set (suc time) j)
      → ((j : ℕ) → j < length ways → IsUsedSince ways set time j)
      → find_victim ways set i last candidate ≡ some (i + k)
      → Selection ways set i last candidate
  none_older :
      ((j : ℕ) → j < length ways → IsUsedSince ways set last j)
      → find_victim ways set i last candidate ≡ candidate
      → Selection ways set i last candidate

module _ (w : Way) (ways : List Way) (set : ℕ) where
  pub IsSized-tail : IsSized (w ∷ ways) set → IsSized ways set
  IsSized-tail h j v e = h (suc j) v e

  pub first_entry : IsSized (w ∷ ways) set → (e : WayEntry) × (get_elem? w.entries set ≡ some e)
  first_entry h = get_elem?_lem w.entries set (h zero w refl)

  pub find_way-held :
      (tag i : ℕ) (e : WayEntry)
      → get_elem? w.entries set ≡ some e
      → (e.valid && e.tag == tag) ≡ true
      → find_way (w ∷ ways) set tag i ≡ some (some i)
  unfolding find_way
  find_way-held tag i e read hit = bind-some (get_elem? w.entries set) _ read (rw hit)

  pub find_way-lacking :
      (tag i : ℕ) (e : WayEntry)
      → get_elem? w.entries set ≡ some e
      → (e.valid && e.tag == tag) ≡ false
      → find_way (w ∷ ways) set tag i ≡ find_way ways set tag (suc i)
  unfolding find_way
  find_way-lacking tag i e read miss = bind-some (get_elem? w.entries set) _ read (rw miss)

  pub find_victim-free :
      (i last : ℕ) (candidate : Option ℕ) (e : WayEntry)
      → get_elem? w.entries set ≡ some e
      → e.valid ≡ false
      → find_victim (w ∷ ways) set i last candidate ≡ some i
  unfolding find_victim
  find_victim-free i last candidate e read unused =
      bind-some (get_elem? w.entries set) _ read (rw unused)

  pub find_victim-older :
      (i last : ℕ) (candidate : Option ℕ) (e : WayEntry)
      → get_elem? w.entries set ≡ some e
      → e.valid ≡ true
      → e.last_accessed_time < last
      → find_victim (w ∷ ways) set i last candidate
        ≡ find_victim ways set (suc i) e.last_accessed_time (some i)
  unfolding find_victim
  find_victim-older i last candidate e read used older =
      let test : ltb e.last_accessed_time last ≡ true = ground arith in
      bind-some (get_elem? w.entries set) _ read (rw used (rw test))

  pub find_victim-newer :
      (i last : ℕ) (candidate : Option ℕ) (e : WayEntry)
      → get_elem? w.entries set ≡ some e
      → e.valid ≡ true
      → last ≤ e.last_accessed_time
      → find_victim (w ∷ ways) set i last candidate ≡ find_victim ways set (suc i) last candidate
  unfolding find_victim
  find_victim-newer i last candidate e read used newer =
      let test : ltb e.last_accessed_time last ≡ false = ground arith in
      bind-some (get_elem? w.entries set) _ read (rw used (rw test))

  -- What holds of the first way and of the ways past it holds of all.
  pub cons_all :
      (P : Option WayEntry → Type 0) (n : ℕ)
      → P (get_elem? w.entries set)
      → ((j : ℕ) → j < n → P (entry_of ways set j))
      → (j : ℕ) → j < suc n
      → P (entry_of (w ∷ ways) set j)
  cons_all P n first rest zero h = first
  cons_all P n first rest (suc j) h = rest j (omega arith)
