-- ===== src/Ranked/Ranks.antt =====
-- HW2/cacheSimRoy.cpp: what `UpdateLRU` does to the ranks of a set.
use computer_structures.Base.{
  ℕ, zero, suc, ◌^◌, ◌≤◌, ◌<◌, ◌≡◌, ◌≢◌, refl, sym, ap, ◌∙◌, arith, true, Option, some, List, [],
  ◌∷◌, map, length, get_elem?, set, write-set, lt_of_get_elem?, bind-some,
}
use computer_structures.Ranked.Ways.{RankedWay, new_rank, promote, for_ways, update_lru}

-- The valid ways of a set have ranks from 1 to the number of the ways, all different.
pub record IsRanked (ways : List RankedWay) : Type 0 where
  pub low : (i : ℕ) (w : RankedWay) → get_elem? ways i ≡ some w → w.valid_bit ≡ true → 1 ≤ w.lru
  pub high :
      (i : ℕ) (w : RankedWay) → get_elem? ways i ≡ some w → w.valid_bit ≡ true → w.lru ≤ length ways
  pub distinct :
      (i j : ℕ) (w v : RankedWay)
      → get_elem? ways i ≡ some w
      → get_elem? ways j ≡ some v
      → w.valid_bit ≡ true
      → v.valid_bit ≡ true
      → i ≢ j
      → w.lru ≢ v.lru

for_ways-map :
    (f : RankedWay → RankedWay) (ways : List RankedWay)
    → for_ways f (length ways) ways ≡ some (map f ways)
unfolding for_ways
for_ways-map f [] = refl
for_ways-map f (w ∷ ways) = rw (for_ways-map f ways)

length-map : (f : RankedWay → RankedWay) (ways : List RankedWay) → length (map f ways) ≡ length ways
length-map f [] = refl
length-map f (w ∷ ways) = ap suc (length-map f ways)

get_elem?-map :
    (f : RankedWay → RankedWay) (ways : List RankedWay) (i : ℕ) (w : RankedWay)
    → get_elem? ways i ≡ some w
    → get_elem? (map f ways) i ≡ some (f w)
get_elem?-map f [] i w e = absurd (cc)
get_elem?-map f (v ∷ ways) zero w e = let same : v ≡ w = cc in rw same refl
get_elem?-map f (v ∷ ways) (suc i) w e = get_elem?-map f ways i w e

before-map :
    (f : RankedWay → RankedWay) (ways : List RankedWay) (i : ℕ) (w' : RankedWay)
    → get_elem? (map f ways) i ≡ some w'
    → (w : RankedWay) × (get_elem? ways i ≡ some w) × (w' ≡ f w)
before-map f [] i w' e = absurd (cc)
before-map f (v ∷ ways) zero w' e = (v, refl, cc)
before-map f (v ∷ ways) (suc i) w' e = before-map f ways i w' e

new_rank-low : (limit r : ℕ) → 1 ≤ r → r < 2 ^ 31 → 1 ≤ new_rank limit r
unfolding new_rank
new_rank-low limit r h small = ground arith

new_rank-high : (limit r n : ℕ) → 1 ≤ r → r ≤ n → limit ≤ n → n < 2 ^ 31 → new_rank limit r ≤ n
unfolding new_rank
new_rank-high limit r n h le le' small = ground arith

new_rank-ne :
    (limit r q n : ℕ)
    → 1 ≤ r
    → 1 ≤ q
    → r ≤ n
    → q ≤ n
    → n < 2 ^ 31
    → r ≢ q
    → new_rank limit r ≢ new_rank limit q
unfolding new_rank
new_rank-ne limit r q n h h' le le' small ne = ground arith

new_rank-first : (limit : ℕ) → new_rank limit limit ≡ 1
unfolding new_rank
new_rank-first limit = ground arith

new_rank-lt :
    (limit r q n : ℕ)
    → 1 ≤ r
    → r ≤ n
    → q ≤ n
    → n < 2 ^ 31
    → r ≢ limit
    → q ≢ limit
    → r < q
    → new_rank limit r < new_rank limit q
unfolding new_rank
new_rank-lt limit r q n h le le' small ne ne' lt = ground arith

promote-valid : (limit : ℕ) (w : RankedWay) → (promote limit w).valid_bit ≡ w.valid_bit
promote-valid limit w = ground arith

promote-rank :
    (limit : ℕ) (w : RankedWay) → w.valid_bit ≡ true → (promote limit w).lru ≡ new_rank limit w.lru
promote-rank limit w valid = rw valid

-- A set after its way `k` was used: that way has the first rank, the others keep their order, and
-- nothing but the ranks is changed.
pub record IsPromoted (ways ways' : List RankedWay) (k : ℕ) : Type 0 where
  pub ranked : IsRanked ways'
  pub first : (w : RankedWay) → get_elem? ways' k ≡ some w → w.lru ≡ 1
  pub order :
      (i j : ℕ) (w v w' v' : RankedWay)
      → get_elem? ways i ≡ some w
      → get_elem? ways j ≡ some v
      → get_elem? ways' i ≡ some w'
      → get_elem? ways' j ≡ some v'
      → w.valid_bit ≡ true
      → v.valid_bit ≡ true
      → i ≢ k
      → j ≢ k
      → w.lru < v.lru
      → w'.lru < v'.lru
  pub same :
      (i : ℕ) (w : RankedWay)
      → get_elem? ways i ≡ some w
      → (w' : RankedWay) × (get_elem? ways' i ≡ some w')
        × (w'.tag ≡ w.tag)
        × (w'.valid_bit ≡ w.valid_bit)
        × (w'.dirty ≡ w.dirty)

some_eq : {A : Type 0} {a b : A} {o : Option A} → o ≡ some a → o ≡ some b → a ≡ b
some_eq p q = cc

promote-rest :
    (limit : ℕ) (w : RankedWay)
    → ((promote limit w).tag ≡ w.tag)
      × ((promote limit w).valid_bit ≡ w.valid_bit)
      × ((promote limit w).dirty ≡ w.dirty)
promote-rest limit w = (ground arith, ground arith, ground arith)

module _ (ways : List RankedWay) (ranked : IsRanked ways) (few : length ways < 2 ^ 31) where
  -- What a way of the set after the use was before.
  origin :
      (limit i : ℕ) (w' : RankedWay)
      → get_elem? (map (promote limit) ways) i ≡ some w'
      → w'.valid_bit ≡ true
      → (w : RankedWay) × (get_elem? ways i ≡ some w)
        × (w.valid_bit ≡ true)
        × (w'.lru ≡ new_rank limit w.lru)
  origin limit i w' e valid =
      let (w, read, eq) = before-map (promote limit) ways i w' e in
      let was : w.valid_bit ≡ true =
        sym (promote-valid limit w) ∙ (sym (ap (λ (x : RankedWay). x.valid_bit) eq) ∙ valid) in
      (w, read, was, ap (λ (x : RankedWay). x.lru) eq ∙ promote-rank limit w was)

  map-IsRanked : (limit : ℕ) → limit ≤ length ways → IsRanked (map (promote limit) ways)
  map-IsRanked limit h = record {
    low = λ i w' e valid.
        let (w, read, was, rank) = origin limit i w' e valid in
        let l = ranked.low i w read was in
        let u = ranked.high i w read was in
        omega (arith, new_rank-low limit w.lru l (omega arith), rank);
    high = λ i w' e valid.
        let (w, read, was, rank) = origin limit i w' e valid in
        let l = ranked.low i w read was in
        let u = ranked.high i w read was in
        omega (
          arith,
          new_rank-high limit w.lru (length ways) l u h few,
          rank,
          length-map (promote limit) ways,
        );
    distinct = λ i j w' v' e f valid valid' ne same.
        let (w, read, was, rank) = origin limit i w' e valid in
        let (v, read', was', rank') = origin limit j v' f valid' in
        new_rank-ne limit w.lru v.lru (length ways) (ranked.low i w read was)
          (ranked.low j v read' was') (ranked.high i w read was) (ranked.high j v read' was') few
          (ranked.distinct i j w v read read' was was' ne) (sym rank ∙ (same ∙ rank'));
  }

  map-IsPromoted :
      (k : ℕ) (u : RankedWay)
      → get_elem? ways k ≡ some u
      → u.valid_bit ≡ true
      → IsPromoted ways (map (promote u.lru) ways) k
  map-IsPromoted k u at used = record {
    ranked = map-IsRanked u.lru (ranked.high k u at used);
    first = λ w e.
        let eq = some_eq e (get_elem?-map (promote u.lru) ways k u at) in
        ap (λ (x : RankedWay). x.lru) eq ∙ (promote-rank u.lru u used ∙ new_rank-first u.lru);
    order = λ i j w v w' v' ri rj ri' rj' vi vj ni nj lt.
        let ei = some_eq ri' (get_elem?-map (promote u.lru) ways i w ri) in
        let ej = some_eq rj' (get_elem?-map (promote u.lru) ways j v rj) in
        let ranki = ap (λ (x : RankedWay). x.lru) ei ∙ promote-rank u.lru w vi in
        let rankj = ap (λ (x : RankedWay). x.lru) ej ∙ promote-rank u.lru v vj in
        let moved =
          new_rank-lt u.lru w.lru v.lru (length ways) (ranked.low i w ri vi) (ranked.high i w ri vi)
            (ranked.high j v rj vj) few (ranked.distinct i k w u ri at vi used ni)
            (ranked.distinct j k v u rj at vj used nj) lt in
        omega (arith, moved, ranki, rankj);
    same = λ i w e.
        let (t, v, d) = promote-rest u.lru w in
        (promote u.lru w, get_elem?-map (promote u.lru) ways i w e, t, v, d);
  }

update_lru-chain :
    (cur_cache : List (List RankedWay)) (cur_set limit : ℕ) (ways : List RankedWay)
    → get_elem? cur_cache cur_set ≡ some ways
    → update_lru cur_cache cur_set limit (length ways)
      ≡ some (set cur_cache cur_set (map (promote limit) ways))
unfolding update_lru
update_lru-chain cur_cache cur_set limit ways e = bind-some (get_elem? cur_cache cur_set) _ e (
    bind-some (for_ways (promote limit) (length ways) ways) _ (for_ways-map (promote limit) ways) (
      write-set cur_cache cur_set (map (promote limit) ways) (lt_of_get_elem? cur_cache cur_set e)))

-- If the ranks of the valid ways of a set of fewer than 2 ^ 31 ways are different and go from 1 to
-- the number of the ways, `UpdateLRU` with the rank of a valid way returns and changes that set
-- only: the ranks are different and in range again, that way has rank 1, the other valid ways keep
-- their order, and tags, valid bits and dirty bits stay.
pub update_lru-IsPromoted :
    (cur_cache : List (List RankedWay)) (cur_set k : ℕ) (ways : List RankedWay) (w : RankedWay)
    → get_elem? cur_cache cur_set ≡ some ways
    → get_elem? ways k ≡ some w
    → w.valid_bit ≡ true
    → IsRanked ways
    → length ways < 2 ^ 31
    → (ways' : List RankedWay) × (update_lru cur_cache cur_set w.lru (length ways)
        ≡ some (set cur_cache cur_set ways'))
      × IsPromoted ways ways' k
update_lru-IsPromoted cur_cache cur_set k ways w e at used ranked few = (
  map (promote w.lru) ways,
  update_lru-chain cur_cache cur_set w.lru ways e,
  map-IsPromoted ways ranked few k w at used,
)
