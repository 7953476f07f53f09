-- ===== src/Cache/Search.antt =====
-- HW2/cacheSim.cpp: what the searches for a block and for a victim find.
use computer_structures.Base.{
  ℕ, suc, ◌-◌, ◌^◌, ◌≤◌, ◌<◌, ◌≡◌, refl, ap, ◌∙◌, arith, true, false, Option, none, some, List, [],
  ◌∷◌, ◌&&◌, ◌==◌, length, get_elem?, u32, Bool-cases, lt_cases, inl, inr,
}
use computer_structures.Cache.Level.{
  WayEntry, Way, CacheLevel, find_way, find_victim, block_exists, get_entry_for_new_block, get_set,
  get_tag,
}
use computer_structures.Cache.Ways.{
  entry_of, IsSized, Holds, Lacks, IsFree, IsUsedAt, IsUsedSince, Lookup, held, lacking, Selection,
  free, oldest, none_older, IsSized-tail, first_entry, find_way-held, find_way-lacking,
  find_victim-free, find_victim-older, find_victim-newer, cons_all,
}

find_way-empty : (set tag i : ℕ) → find_way [] set tag i ≡ some none
unfolding find_way
find_way-empty set tag i = refl

pub find_way-Lookup : (ways : List Way) (set tag i : ℕ) → IsSized ways set → Lookup ways set tag i
find_way-Lookup [] set tag i sized = lacking (λ j h. elim h [ ]) (find_way-empty set tag i)
find_way-Lookup (w ∷ ways) set tag i sized =
    let (e, read) = first_entry w ways set sized in
    elim (Bool-cases (e.valid && e.tag == tag)) [
      | inl hit ↦
          held 0 (omega arith) (λ j h. elim h [ ]) (e, read, hit)
            (find_way-held w ways set tag i e read hit
              ∙ ap (λ (k : ℕ). some (some k)) (omega arith))
      | inr miss ↦
          let step = find_way-lacking w ways set tag i e read miss in
          let P : Option WayEntry → Type 0 =
            λ o. (a : WayEntry) × (o ≡ some a) × ((a.valid && a.tag == tag) ≡ false) in
          elim (find_way-Lookup ways set tag (suc i) (IsSized-tail w ways set sized)) [
            | held k h others hit eq ↦
                held (suc k) (omega arith) (cons_all w ways set P k (e, read, miss) others) hit
                  (step ∙ (eq ∙ ap (λ (k : ℕ). some (some k)) (omega arith)))
            | lacking others eq ↦
                lacking (cons_all w ways set P (length ways) (e, read, miss) others) (step ∙ eq)
          ]
    ]

find_victim-empty :
    (set i last : ℕ) (candidate : Option ℕ) → find_victim [] set i last candidate ≡ candidate
unfolding find_victim
find_victim-empty set i last candidate = refl

abbrev Since : ℕ → Option WayEntry → Type 0
Since time o =
    (t : ℕ) × ((e : WayEntry) × (o ≡ some e) × (e.valid ≡ true) × (e.last_accessed_time ≡ t))
    × (time ≤ t)

pub find_victim-Selection :
    (ways : List Way) (set i last : ℕ) (candidate : Option ℕ)
    → IsSized ways set
    → Selection ways set i last candidate
find_victim-Selection [] set i last candidate sized =
    none_older (λ j h. elim h [ ]) (find_victim-empty set i last candidate)
find_victim-Selection (w ∷ ways) set i last candidate sized =
    let (e, read) = first_entry w ways set sized in
    let tail = IsSized-tail w ways set sized in
    elim (Bool-cases e.valid) [
      | inr unused ↦
          free 0 (omega arith) (λ j h. elim h [ ]) (e, read, unused)
            (find_victim-free w ways set i last candidate e read unused ∙ ap some (omega arith))
      | inl used ↦ elim (lt_cases e.last_accessed_time last) [
        | inl older ↦
            seen_older w ways set i last candidate e read used older
              (find_victim-Selection ways set (suc i) e.last_accessed_time (some i) tail)
        | inr newer ↦
            seen_newer w ways set i last candidate e read used newer
              (find_victim-Selection ways set (suc i) last candidate tail)
      ]
    ]
  where
    seen_newer :
        (w : Way) (ways : List Way) (set i last : ℕ) (candidate : Option ℕ) (e : WayEntry)
        → get_elem? w.entries set ≡ some e
        → e.valid ≡ true
        → last ≤ e.last_accessed_time
        → Selection ways set (suc i) last candidate
        → Selection (w ∷ ways) set i last candidate
    seen_newer w ways set i last candidate e read used newer (free k h others unused eq) =
        free (suc k) (omega arith)
          (cons_all w ways set (Since 0) k
            (e.last_accessed_time, (e, read, used, refl), omega arith) others)
          unused
          (find_victim-newer w ways set i last candidate e read used newer
            ∙ (eq ∙ ap some (omega arith)))
    seen_newer w ways set i last candidate e read used newer
          (oldest k time h less at before all eq) =
        let here : Since (suc time) (get_elem? w.entries set) =
          (e.last_accessed_time, (e, read, used, refl), omega arith) in
        let here' : Since time (get_elem? w.entries set) =
          (e.last_accessed_time, (e, read, used, refl), omega arith) in
        oldest (suc k) time (omega arith) less at
          (cons_all w ways set (Since (suc time)) k here before)
          (cons_all w ways set (Since time) (length ways) here' all)
          (find_victim-newer w ways set i last candidate e read used newer
            ∙ (eq ∙ ap some (omega arith)))
    seen_newer w ways set i last candidate e read used newer (none_older all eq) =
        none_older
          (cons_all w ways set (Since last) (length ways)
            (e.last_accessed_time, (e, read, used, refl), newer) all)
          (find_victim-newer w ways set i last candidate e read used newer ∙ eq)

    seen_older :
        (w : Way) (ways : List Way) (set i last : ℕ) (candidate : Option ℕ) (e : WayEntry)
        → get_elem? w.entries set ≡ some e
        → e.valid ≡ true
        → e.last_accessed_time < last
        → Selection ways set (suc i) e.last_accessed_time (some i)
        → Selection (w ∷ ways) set i last candidate
    seen_older w ways set i last candidate e read used older (free k h others unused eq) =
        free (suc k) (omega arith)
          (cons_all w ways set (Since 0) k
            (e.last_accessed_time, (e, read, used, refl), omega arith) others)
          unused
          (find_victim-older w ways set i last candidate e read used older
            ∙ (eq ∙ ap some (omega arith)))
    seen_older w ways set i last candidate e read used older
          (oldest k time h less at before all eq) =
        let here : Since (suc time) (get_elem? w.entries set) =
          (e.last_accessed_time, (e, read, used, refl), omega arith) in
        let here' : Since time (get_elem? w.entries set) =
          (e.last_accessed_time, (e, read, used, refl), omega arith) in
        oldest (suc k) time (omega arith) (omega arith) at
          (cons_all w ways set (Since (suc time)) k here before)
          (cons_all w ways set (Since time) (length ways) here' all)
          (find_victim-older w ways set i last candidate e read used older
            ∙ (eq ∙ ap some (omega arith)))
    seen_older w ways set i last candidate e read used older (none_older all eq) =
        oldest 0 e.last_accessed_time (omega arith) older (e, read, used, refl) (λ j h. elim h [ ])
          (cons_all w ways set (Since e.last_accessed_time) (length ways)
            (e.last_accessed_time, (e, read, used, refl), omega arith) all)
          (find_victim-older w ways set i last candidate e read used older
            ∙ (eq ∙ ap some (omega arith)))

-- A level as the searches for an address expect it: every way has the set of the address.
abbrev pub HasSet : CacheLevel → ℕ → Type 0
HasSet l address = IsSized l.ways (get_set l address)

-- What `blockExists` answers: the first way that holds the block, or that no way does.
pub data BlockSearch (l : CacheLevel) (address : ℕ) : Type 0 where
  hit_in :
      (k : ℕ)
      → k < length l.ways
      → ((j : ℕ) → j < k → Lacks l.ways (get_set l address) (get_tag l address) j)
      → Holds l.ways (get_set l address) (get_tag l address) k
      → block_exists l address ≡ some (some k)
      → BlockSearch l address
  no_hit :
      ((j : ℕ) → j < length l.ways → Lacks l.ways (get_set l address) (get_tag l address) j)
      → block_exists l address ≡ some none
      → BlockSearch l address

-- In a level whose ways all have the set of the address, `blockExists` returns the first way that
-- holds a valid block with the tag of the address in its set, or NULL if none does.
pub block_exists-BlockSearch :
    (l : CacheLevel) (address : ℕ) → HasSet l address → BlockSearch l address
unfolding block_exists
block_exists-BlockSearch l address sized =
    elim (find_way-Lookup l.ways (get_set l address) (get_tag l address) 0 sized) [
      | held k h others hit eq ↦
          hit_in k h others hit (eq ∙ ap (λ (i : ℕ). some (some i)) (omega arith))
      | lacking others eq ↦ no_hit others eq
    ]

-- What `getEntryForNewBlock` answers: the first free way, or the first of the least recently used.
pub data VictimSearch (l : CacheLevel) (address : ℕ) : Type 0 where
  unused :
      (k : ℕ)
      → k < length l.ways
      → ((j : ℕ) → j < k → IsUsedSince l.ways (get_set l (u32 address)) 0 j)
      → IsFree l.ways (get_set l (u32 address)) k
      → get_entry_for_new_block l address ≡ some k
      → VictimSearch l address
  least_recent :
      (k time : ℕ)
      → k < length l.ways
      → IsUsedAt l.ways (get_set l (u32 address)) k time
      → ((j : ℕ) → j < k → IsUsedSince l.ways (get_set l (u32 address)) (suc time) j)
      → ((j : ℕ) → j < length l.ways → IsUsedSince l.ways (get_set l (u32 address)) time j)
      → get_entry_for_new_block l address ≡ some k
      → VictimSearch l address

-- In a level with at least one way, all of which have the set of the address, and with every time
-- in that set below the greatest unsigned int, `getEntryForNewBlock` returns the first way that is
-- free in the set, or else the first of the ways that were used least recently.
pub get_entry_for_new_block-VictimSearch :
    (l : CacheLevel) (address : ℕ)
    → 0 < length l.ways
    → HasSet l (u32 address)
    → ((j : ℕ) (e : WayEntry)
        → entry_of l.ways (get_set l (u32 address)) j ≡ some e
        → e.last_accessed_time < 2 ^ 32 - 1)
    → VictimSearch l address
unfolding get_entry_for_new_block
get_entry_for_new_block-VictimSearch l address some_way sized early =
    elim (find_victim-Selection l.ways (get_set l (u32 address)) 0 (2 ^ 32 - 1) none sized) [
      | free k h others is_free eq ↦ unused k h others is_free (eq ∙ ap some (omega arith))
      | oldest k time h less at before all eq ↦
          least_recent k time h at before all (eq ∙ ap some (omega arith))
      | none_older all eq ↦
          let (t, (e, read, _, at), late) = all 0 some_way in
          absurd (omega (arith, early 0 e read, at))
    ]
