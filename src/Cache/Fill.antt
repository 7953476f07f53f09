-- ===== src/Cache/Fill.antt =====
-- HW2/cacheSim.cpp: `fetchBlockFromMemory` returns, and keeps the levels inclusive.
use computer_structures.Base.{
  ℕ, ◌+◌, ◌-◌, ◌^◌, ◌<◌, ◌≡◌, refl, arith, Option, some, List, u32, bind-some,
}
use computer_structures.Cache.Level.{
  WayEntry, Way, CacheLevel, get_entry_for_new_block, modify_entry, entry_at, get_set,
}
use computer_structures.Cache.Ops.{
  Cache, filled, tick, fetch_to_l1, invalidate_l1, fetch_block_from_memory,
}
use computer_structures.Cache.Entries.{replaced, with_ways}
use computer_structures.Cache.Blocks.{set_of, get_tag-tag_of}
use computer_structures.Cache.Present.{Absent, victim, Present-new}
use computer_structures.Cache.Inclusion.{IsInclusive, IsInclusive-later, state, fill_second}
use computer_structures.Cache.Invalidate.{invalidate_l1-Invalidated}
use computer_structures.Cache.Fetch.{
  Fetched, fetch_to_l1-Fetched, entry_at-u32, modify-u32, new_entry,
}

module _ (b k1 k2 : ℕ) (c : Cache) (i : IsInclusive b k1 k2 c.pseudo_cycle c.l1 c.l2) (a : ℕ) where
  fetch_block-chain :
      (j : ℕ) (e : WayEntry) (c' : Cache) (l : CacheLevel) (r : Option (ℕ × Cache))
      → get_entry_for_new_block c.l2 a ≡ some j
      → entry_at c.l2 j (get_set c.l2 (u32 a)) ≡ some e
      → invalidate_l1 c e ≡ some c'
      → modify_entry c'.l2 j (get_set c.l2 (u32 a)) (filled c'.l2 a c'.pseudo_cycle) ≡ some l
      → fetch_to_l1 (tick (record c' { l2 = l })) a ≡ r
      → fetch_block_from_memory c a ≡ r
  unfolding fetch_block_from_memory
  fetch_block-chain j e c' l r p q s t u = bind-some (get_entry_for_new_block c.l2 a) _ p (
      bind-some (entry_at c.l2 j (get_set c.l2 (u32 a))) _ q (
        bind-some (invalidate_l1 c e) _ s (
          bind-some (modify_entry c'.l2 j (get_set c.l2 (u32 a)) (filled c'.l2 a c'.pseudo_cycle)) _
            t u)))

  -- The cache between the two fills.
  abbrev half : List Way → List Way → Cache
  half w1 w2 = state c w1 w2 (u32 (c.pseudo_cycle + 1))

  pub fetch_block_from_memory-Fetched :
      a < 2 ^ 32
      → c.pseudo_cycle + 3 < 2 ^ 32 - 1
      → Absent b k1 c.l1 a
      → Absent b k2 c.l2 a
      → Fetched b k1 k2 c a 3 (fetch_block_from_memory c a)
  fetch_block_from_memory-Fetched small early absent absent' =
      let (j, e, chosen, at) = victim b k2 c.pseudo_cycle c.l2 i.second a small (omega arith) in
      let gone = invalidate_l1-Invalidated b k1 k2 c i (set_of b k2 a) j e at in
      let v = new_entry b k1 k2 c i c.l2 a c.pseudo_cycle in
      let tag = get_tag-tag_of b k2 c.l2 a i.second.shape small in
      let w2 = replaced c.l2.ways j (set_of b k2 a) v in
      let filled_inv =
        IsInclusive-later b k1 k2 c.pseudo_cycle (u32 (c.pseudo_cycle + 1)) (with_ways c.l1 gone.w1)
          (with_ways c.l2 w2) (omega arith)
          (fill_second b k1 k2 c.pseudo_cycle (with_ways c.l1 gone.w1) c.l2 gone.inv j a v e at
            small refl tag (omega arith) absent' gone.gone) in
      let f =
        fetch_to_l1-Fetched b k1 k2 (half gone.w1 w2) filled_inv a small (omega arith)
          (gone.kept a absent)
          (j, v, Present-new b k2 c.l2 (set_of b k2 a) j a v e at refl refl tag) in
      record {
        way = f.way;
        entry = f.entry;
        w1 = f.w1;
        w2 = f.w2;
        n = f.n;
        returns =
            fetch_block-chain j e (state c gone.w1 c.l2.ways c.pseudo_cycle) (with_ways c.l2 w2)
              (some (f.way, state c f.w1 f.w2 f.n)) chosen
              (entry_at-u32 b k1 k2 c i k2 c.l2 a j e small i.second.shape at) gone.returns
              (modify-u32 b k1 k2 c i k2 c.l2 a j c.pseudo_cycle e small i.second.shape at)
              f.returns;
        inv = f.inv;
        holds = f.holds;
        later = omega (arith, f.later);
        clock = omega (arith, f.clock);
      }
