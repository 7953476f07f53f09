-- ===== src/Recent/Recency.antt =====
-- HW2/cacheSimShelly.cpp: the lists of `LRUupdate` against the order of the last uses.
use computer_structures.Base.{
  shr, ℕ, ◌^◌, ◌<◌, ◌≡◌, true, Option, some, List, [], ◌∷◌, length, get_elem?, ◌>>=◌,
}
use computer_structures.Base.Words.{log2}
use computer_structures.Recent.Rows.{RecentCache, lru_update}
use computer_structures.Recent.Uses.{last_uses, in_row}

-- The uses of a list of addresses, in order.
unfoldable pub uses : RecentCache → List ℕ → Option RecentCache
uses c [] = some c
uses c (address ∷ rest) = lru_update c address true >>= λ c'. uses c' rest

-- The blocks of the addresses fit an unsigned int.
abbrev pub AllWords : ℕ → List ℕ → Type 0
AllWords block_size [] = Unit
AllWords block_size (address ∷ rest) =
    (shr address (log2 block_size) < 2 ^ 32) × AllWords block_size rest

abbrev pub with_lists : RecentCache → List (List ℕ) → RecentCache
with_lists c lists = record c { lru_vector = lists }

-- Each list is the order of the last uses of the blocks of its row, after the uses `past`.
pub record IsFollowed (rows : ℕ) (past : List ℕ) (lists : List (List ℕ)) : Type 0 where
  pub sized : length lists ≡ rows
  pub listed :
      (row : ℕ) → row < rows → get_elem? lists row ≡ some (last_uses (in_row rows row past))
