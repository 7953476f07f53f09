-- ===== src/Recent/Bring.antt =====
-- HW2/cacheSimShelly.cpp: the accesses that bring a block into the levels return.
use computer_structures.Base.{
  ℕ, ◌<◌, Bool, true, false, Option, none, some, ◌==◌, Returns, returns, Returns-bind, ◌>>=◌,
  if_both,
}
use computer_structures.Recent.Rows.{
  RecentCache, Cell, DataStatus, doesnt_exist, exist, dirty, change_to_x, lru_update, lru_remove,
}
use computer_structures.Recent.Accesses.{
  Levels, mark, evacuated, bring_to_l1, forget, bring_to_both,
}
use computer_structures.Recent.Grid.{
  IsGrid, in_cache-Returns, lru_update-Returns, lru_remove-Returns, lru_get-Returns,
  change_to_x-true, change_to_x-false, add-Returns,
}

module _ (rows1 ways1 rows2 ways2 : ℕ) (some_rows1 : 0 < rows1) (some_rows2 : 0 < rows2) (unset : ℕ)
    (small1 : unset < rows1) where
  pub mark-Returns :
      {rows ways : ℕ} (some_rows : 0 < rows) (whether : Bool) (c : RecentCache) (address : ℕ)
      (status : DataStatus)
      → IsGrid rows ways c
      → Returns (IsGrid rows ways) (mark whether unset c address status)
  mark-Returns {rows} {ways} some_rows whether c address status g =
      if_both (Returns (IsGrid rows ways)) whether
        (change_to_x-true some_rows unset c address status g) (returns g)

  forget-Returns :
      (c : RecentCache) (old : ℕ)
      → IsGrid rows1 ways1 c
      → Returns (IsGrid rows1 ways1) (forget unset c old)
  unfolding forget
  forget-Returns c old g =
      Returns-bind _ (in_cache-Returns some_rows1 c old true g) (λ found _. found_cell found)
    where
      found_cell :
          (found : Option Cell)
          → Returns (IsGrid rows1 ways1) (elim found [
            | none ↦ some c
            | some x ↦ change_to_x unset c old doesnt_exist false >>= λ c'. lru_remove c' old
          ])
      found_cell none = returns g
      found_cell (some x) =
          Returns-bind _ (change_to_x-false some_rows1 unset c old doesnt_exist small1 g)
            (λ c' g'. lru_remove-Returns some_rows1 c' old g')

  -- Both levels have their sizes.
  pub record AreGrids (l : Levels) : Type 0 where
    pub one : IsGrid rows1 ways1 l.first
    pub two : IsGrid rows2 ways2 l.second

  pub bring_to_l1-Returns :
      (l : Levels) (address op : ℕ) → AreGrids l → Returns AreGrids (bring_to_l1 unset l address op)
  unfolding bring_to_l1
  bring_to_l1-Returns l address op g =
      Returns-bind _ (lru_get-Returns some_rows1 l.first address g.one) (λ lru_address _.
        Returns-bind _ (add-Returns some_rows1 l.first address lru_address true g.one) (λ r g1.
          Returns-bind _ (second_level (evacuated r.0 lru_address)) (λ second g2.
            Returns-bind _ (mark-Returns some_rows1 (op == b'w') r.1 address dirty g1) (λ stored g3.
              Returns-bind _ (mark-Returns some_rows1 (op == b'r') stored address exist g3)
                (λ loaded g4.
                  Returns-bind _ (mark-Returns some_rows2 (op == b'r') second address exist g2)
                    (λ loaded2 g5.
                      Returns-bind _ (lru_update-Returns some_rows1 loaded address true g4)
                        (λ first' g6.
                          Returns-bind _ (lru_update-Returns some_rows2 loaded2 address true g5)
                            (λ second' g7. returns (record { one = g6; two = g7 })))))))))
    where
      second_level :
          (o : Option ℕ)
          → Returns (IsGrid rows2 ways2) (elim o [
            | none ↦ some l.second
            | some old ↦
                lru_update l.second old false >>= λ c. change_to_x unset c address dirty true
          ])
      second_level none = returns g.two
      second_level (some old) =
          Returns-bind _ (lru_update-Returns some_rows2 l.second old false g.two)
            (λ c g'. change_to_x-true some_rows2 unset c address dirty g')

  pub bring_to_both-Returns :
      (l : Levels) (address op : ℕ)
      → AreGrids l
      → Returns AreGrids (bring_to_both unset l address op)
  unfolding bring_to_both
  bring_to_both-Returns l address op g =
      Returns-bind _ (lru_get-Returns some_rows2 l.second address g.two) (λ lru_address2 _.
        Returns-bind _ (add-Returns some_rows2 l.second address lru_address2 false g.two) (λ r2 g1.
          Returns-bind _ (first_level (evacuated r2.0 lru_address2)) (λ first g2.
            Returns-bind _ (lru_update-Returns some_rows2 r2.1 address true g1) (λ second' g3.
              Returns-bind _ (lru_get-Returns some_rows1 first address g2) (λ lru_address _.
                Returns-bind _ (add-Returns some_rows1 first address lru_address true g2) (λ r g4.
                  Returns-bind _ (second_level second' g3 (evacuated r.0 lru_address))
                    (λ second'' g5.
                      Returns-bind _ (lru_update-Returns some_rows1 r.1 address true g4)
                        (λ first'' g6.
                          Returns-bind _
                            (mark-Returns some_rows1 (op == b'w') first'' address dirty g6)
                            (λ stored g7. returns (record { one = g7; two = g5 }))))))))))
    where
      first_level :
          (o : Option ℕ)
          → Returns
              (IsGrid rows1 ways1)
              (elim o [ none ↦ some l.first | some old ↦ forget unset l.first old ])
      first_level none = returns g.one
      first_level (some old) = forget-Returns l.first old g.one

      second_level :
          (c : RecentCache)
          → IsGrid rows2 ways2 c
          → (o : Option ℕ)
          → Returns
              (IsGrid rows2 ways2)
              (elim o [ none ↦ some c | some old ↦ lru_update c old false ])
      second_level c g' none = returns g'
      second_level c g' (some old) = lru_update-Returns some_rows2 c old false g'
