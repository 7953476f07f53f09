-- ===== src/Recent/Tests.antt =====
-- HW2/cacheSimShelly.cpp: the theorems about its caches at concrete states.
use computer_structures.Base.{◌>>=◌, ℕ, ◌≡◌, refl, arith, Option, none, some, List, [], ◌∷◌, map}
use computer_structures.Base.Words.{log2}
use computer_structures.Recent.Rows.{
  recent_cache, lru_update, lru_remove, lru_get_least_recently_used, in_cache, add, change_to_x,
}
use computer_structures.Recent.Accesses.{
  Shown, RecentMemory, recent_memory, bring_to_l1, bring_to_both, forget, hit_first, hit_second,
  miss_all, calc_operation, shown, recent_run,
}
use computer_structures.Recent.Tally.{AllShown}
use computer_structures.Recent.Print
use computer_structures.Recent.Recency

-- Everything that a simulation computes with.
simulation : Unit {0}
unfolding log2 recent_cache lru_update lru_remove lru_get_least_recently_used in_cache add
    change_to_x recent_memory bring_to_l1 bring_to_both forget hit_first hit_second miss_all
    calc_operation shown recent_run
simulation = tt

abbrev rates : Option (List Shown) → List (ℕ × ℕ)
rates none = []
rates (some shows) = map (λ (s : Shown). s.l1_miss_rate) shows

-- Blocks of 8 bytes; one of them fits L1 and four L2.
three_lines :
    (recent_memory 100 3 3 5 0 1 1 10 1 >>= λ m.
    some (rates (recent_run 0 m (0, 1) (0, 1) ((b'r', 16) ∷ (b'w', 20) ∷ (b'r', 32) ∷ []))))
    ≡ some ((1, 1) ∷ (1, 2) ∷ (2, 3) ∷ (2, 3) ∷ [])
unfolding simulation
three_lines = refl

recent_run-AllShown_example :
    (m : RecentMemory) × (shows : List Shown) × (recent_memory 100 3 3 5 0 1 1 10 1 ≡ some m)
    × (recent_run 0 m (0, 1) (0, 1) ((b'r', 16) ∷ (b'w', 20) ∷ (b'r', 32) ∷ []) ≡ some shows)
    × AllShown 1 10 100 0 3 shows
recent_run-AllShown_example =
    Print.recent_run-AllShown 0 100 3 3 5 0 1 1 10 1 ((b'r', 16) ∷ (b'w', 20) ∷ (b'r', 32) ∷ [])
      (omega arith) (omega arith) (omega arith) (omega arith) (omega arith) (omega arith)
      (omega arith) (omega arith)
