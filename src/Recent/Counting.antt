-- ===== src/Recent/Counting.antt =====
-- HW2/cacheSimShelly.cpp: the counters over an access, and over the loop of `main` on parsed lines.
use computer_structures.Base.{
  ℕ, suc, ◌+◌, ◌-◌, ◌≤◌, ◌<◌, ◌^◌, ◌≡◌, refl, arith, false, Option, none, some, List, [], ◌∷◌,
  length, Returns, returns, Returns-bind, Returns-result, ◌>>=◌, Returns-eq,
}
use computer_structures.Recent.Rows.{Cell, in_cache}
use computer_structures.Recent.Accesses.{
  RecentMemory, access_first, miss_first, miss_second, hit_first, hit_second, miss_all,
  calc_operation, shown, rate, recent_run,
}
use computer_structures.Recent.Grid.{in_cache-Returns}
use computer_structures.Recent.Tally.{
  IsShown, AllShown, last, line, rate-rate, IsCounted, hit_first-Returns, hit_second-Returns,
  miss_all-Returns,
}

module _ (rows1 ways1 rows2 ways2 : ℕ) (some_rows1 : 0 < rows1) (some_rows2 : 0 < rows2) (unset : ℕ)
    (small1 : unset < rows1) (cycles1 cycles2 cycles_mem : ℕ) where
  abbrev Counted : ℕ → ℕ → ℕ → RecentMemory → Type 0
  Counted i misses1 misses2 m =
      IsCounted rows1 ways1 rows2 ways2 some_rows1 some_rows2 unset small1 cycles1 cycles2
        cycles_mem i misses1 misses2 m

  -- The counters after an access, from those before.
  record IsAfter (i misses1 misses2 : ℕ) (m : RecentMemory) : Type 0 where
    next1 : ℕ
    next2 : ℕ
    more1 : misses1 ≤ next1
    most1 : next1 ≤ misses1 + 1
    most2 : next2 ≤ misses2 + (next1 - misses1)
    counted : Counted (suc i) next1 next2 m

  accessed :
      {i misses1 misses2 : ℕ} (m : RecentMemory)
      → suc i < 2 ^ 32
      → Counted i misses1 misses2 m
      → Counted (suc i) misses1 misses2 (access_first m)
  accessed m small k = record {
    grids = k.grids;
    firsts = omega (arith, k.firsts);
    first_misses = k.first_misses;
    seconds = k.seconds;
    second_misses = k.second_misses;
    fetches = k.fetches;
    cycles1_known = k.cycles1_known;
    cycles2_known = k.cycles2_known;
    cycles_mem_known = k.cycles_mem_known;
  }

  missed_first :
      {i misses1 misses2 : ℕ} (m : RecentMemory)
      → suc misses1 < 2 ^ 32
      → Counted i misses1 misses2 m
      → Counted i (suc misses1) misses2 (miss_first m)
  missed_first m small k = record {
    grids = k.grids;
    firsts = k.firsts;
    first_misses = omega (arith, k.first_misses);
    seconds = omega (arith, k.seconds);
    second_misses = k.second_misses;
    fetches = k.fetches;
    cycles1_known = k.cycles1_known;
    cycles2_known = k.cycles2_known;
    cycles_mem_known = k.cycles_mem_known;
  }

  missed_second :
      {i misses1 misses2 : ℕ} (m : RecentMemory)
      → suc misses2 < 2 ^ 32
      → Counted i misses1 misses2 m
      → Counted i misses1 (suc misses2) (miss_second m)
  missed_second m small k = record {
    grids = k.grids;
    firsts = k.firsts;
    first_misses = k.first_misses;
    seconds = k.seconds;
    second_misses = omega (arith, k.second_misses);
    fetches = omega (arith, k.fetches);
    cycles1_known = k.cycles1_known;
    cycles2_known = k.cycles2_known;
    cycles_mem_known = k.cycles_mem_known;
  }

  module _ {i misses1 misses2 : ℕ} (m : RecentMemory) (address op : ℕ) (small : suc i < 2 ^ 32)
      (few1 : misses1 ≤ i) (few2 : misses2 ≤ misses1) (k : Counted i misses1 misses2 m) where
    abbrev first_miss : RecentMemory
    first_miss = miss_first (access_first m)

    second_found :
        (found : Option Cell)
        → Returns (IsAfter i misses1 misses2) (elim found [
          | some y ↦ hit_second unset first_miss address op
          | none ↦ miss_all unset (miss_second first_miss) address op
        ])
    second_found (some y) =
        let (m', e, k') = Returns-result (
          hit_second-Returns rows1 ways1 rows2 ways2 some_rows1 some_rows2 unset small1 cycles1
            cycles2 cycles_mem first_miss address op
            (missed_first (access_first m) (omega arith) (accessed m small k))) in
        Returns-eq (hit_second unset first_miss address op) e (record {
          next1 = suc misses1;
          next2 = misses2;
          more1 = omega arith;
          most1 = omega arith;
          most2 = omega arith;
          counted = k';
        })
    second_found none =
        let (m', e, k') = Returns-result (
          miss_all-Returns rows1 ways1 rows2 ways2 some_rows1 some_rows2 unset small1 cycles1
            cycles2 cycles_mem (miss_second first_miss) address op
            (missed_second first_miss (omega arith)
              (missed_first (access_first m) (omega arith) (accessed m small k)))) in
        Returns-eq (miss_all unset (miss_second first_miss) address op) e (record {
          next1 = suc misses1;
          next2 = suc misses2;
          more1 = omega arith;
          most1 = omega arith;
          most2 = omega arith;
          counted = k';
        })

    first_found :
        (found : Option Cell)
        → Returns (IsAfter i misses1 misses2) (elim found [
          | some x ↦ hit_first unset (access_first m) address op
          | none ↦ in_cache m.l2_cache address false >>= λ in_second. elim in_second [
            | some y ↦ hit_second unset first_miss address op
            | none ↦ miss_all unset (miss_second first_miss) address op
          ]
        ])
    first_found (some x) =
        let (m', e, k') = Returns-result (
          hit_first-Returns rows1 ways1 rows2 ways2 some_rows1 some_rows2 unset small1 cycles1
            cycles2 cycles_mem (access_first m) address op (accessed m small k)) in
        Returns-eq (hit_first unset (access_first m) address op) e (record {
          next1 = misses1;
          next2 = misses2;
          more1 = omega arith;
          most1 = omega arith;
          most2 = omega arith;
          counted = k';
        })
    first_found none =
        Returns-bind _ (in_cache-Returns some_rows2 m.l2_cache address false k.grids.two)
          (λ found _. second_found found)

    calc_operation-IsAfter : Returns (IsAfter i misses1 misses2) (calc_operation unset m address op)
    unfolding calc_operation
    calc_operation-IsAfter =
        Returns-bind _ (in_cache-Returns some_rows1 m.l1_cache address false k.grids.one)
          (λ found _. first_found found)

  -- What is printed, from the rates printed before.
  shown-IsShown :
      {i misses1 misses2 : ℕ} (before_i before1 before2 : ℕ) (m : RecentMemory) (p1 p2 : ℕ × ℕ)
      → misses1 ≤ i
      → misses2 ≤ misses1
      → before_i ≤ i
      → before1 ≤ misses1
      → p1 ≡ rate (0, 1) before1 before_i
      → p2 ≡ rate (0, 1) before2 before1
      → Counted i misses1 misses2 m
      → IsShown cycles1 cycles2 cycles_mem i (shown m p1 p2)
        × ((shown m p1 p2).l1_miss_rate ≡ rate (0, 1) misses1 i)
        × ((shown m p1 p2).l2_miss_rate ≡ rate (0, 1) misses2 misses1)
  unfolding shown
  shown-IsShown {i} {misses1} {misses2} before_i before1 before2 m p1 p2 few1 few2 later more e1 e2
        k =
      let r1 : rate p1 m.miss_count_l1 m.access_count_l1 ≡ rate (0, 1) misses1 i =
        rw (k.first_misses, k.firsts, e1) (rate-rate (0, 1) before1 before_i misses1 i later) in
      let r2 : rate p2 m.miss_count_l2 m.access_count_l2 ≡ rate (0, 1) misses2 misses1 =
        rw (k.second_misses, k.seconds, e2)
          (rate-rate (0, 1) before2 before1 misses2 misses1 more) in
      (
        record {
          misses1 = misses1;
          misses2 = misses2;
          few1 = few1;
          few2 = few2;
          rate1 = r1;
          rate2 = r2;
          time =
              rw
                (
                  k.firsts, k.seconds, k.fetches, k.cycles1_known, k.cycles2_known,
                  k.cycles_mem_known,
                )
                refl;
        },
        r1,
        r2,
      )

  pub run-AllShown :
      (lines : List (ℕ × ℕ)) (i misses1 misses2 : ℕ) (m : RecentMemory) (p1 p2 : ℕ × ℕ)
      → misses1 ≤ i
      → misses2 ≤ misses1
      → i + length lines < 2 ^ 32
      → p1 ≡ rate (0, 1) misses1 i
      → p2 ≡ rate (0, 1) misses2 misses1
      → Counted i misses1 misses2 m
      → Returns
          (AllShown cycles1 cycles2 cycles_mem i (length lines))
          (recent_run unset m p1 p2 lines)
  unfolding recent_run
  run-AllShown [] i misses1 misses2 m p1 p2 few1 few2 small e1 e2 k =
      let (is_shown, _, _) =
        shown-IsShown i misses1 misses2 m p1 p2 few1 few2 (omega arith) (omega arith) e1 e2 k in
      returns (last is_shown)
  run-AllShown ((op, num) ∷ lines) i misses1 misses2 m p1 p2 few1 few2 small e1 e2 k =
      Returns-bind _ (calc_operation-IsAfter m num op (omega arith) few1 few2 k) (λ m' a.
        let few1' : a.next1 ≤ suc i = omega (arith, a.most1) in
        let few2' : a.next2 ≤ a.next1 = omega (arith, a.most2, a.more1) in
        let (is_shown, r1, r2) =
          shown-IsShown i misses1 misses2 m' p1 p2 few1' few2' (omega arith) a.more1 e1 e2
            a.counted in
        Returns-bind _
          (run-AllShown lines (suc i) a.next1 a.next2 m' (shown m' p1 p2).l1_miss_rate
            (shown m' p1 p2).l2_miss_rate few1' few2' (omega arith) r1 r2 a.counted)
          (λ rest all. returns (line is_shown all)))
