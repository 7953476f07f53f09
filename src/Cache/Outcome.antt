-- ===== src/Cache/Outcome.antt =====
-- HW2/cacheSim.cpp: what `cacheRead` and `cacheWrite` do, by where the block is found.
use computer_structures.Base.{
  ℕ, plus_double, ◌+◌, ◌-◌, ◌^◌, ◌≤◌, ◌<◌, ◌≡◌, refl, sym, ◌∙◌, arith, true, Bool, Option, none,
  some, List, subst, u32, bind-some,
}
use computer_structures.Cache.Level.{WayEntry, Way, block_exists, modify_entry, get_set}
use computer_structures.Cache.Ops.{
  Cache, access_l1, miss_l1, miss_l2, touched, dirtied, modify_l1, read_l2, write_l2, cache_read,
  cache_write,
}
use computer_structures.Cache.Entries.{replaced, with_ways}
use computer_structures.Cache.Blocks.{set_of}
use computer_structures.Cache.Present.{HoldsIn, Present, Absent, there, nowhere, find, Present-new}
use computer_structures.Cache.Inclusion.{
  IsInclusive, IsInclusive-later, state, modify_at, touch_first,
}
use computer_structures.Cache.Accesses.{
  Reached, Second, second_hit, second_miss, allocates, IsInclusive-recount, read_l2-Second,
}
use computer_structures.Cache.Stores.{write_l2-Second}

module _ (b k1 k2 a : ℕ) where
  -- An access hits the first level, or misses it and hits the second, or misses both. In each case it
  -- ends in the cache with the counters of that case, in another state of its ways and its clock.
  pub data Outcome (c : Cache) (brings : Bool) (r : Option Cache) : Type 0 where
    first_hit : Present b k1 c.l1 a → Reached b k1 k2 a (access_l1 c) true r → Outcome c brings r
    first_miss :
        Absent b k1 c.l1 a
        → Present b k2 c.l2 a
        → Reached b k1 k2 a (miss_l1 (access_l1 c)) brings r
        → Outcome c brings r
    both_miss :
        Absent b k1 c.l1 a
        → Absent b k2 c.l2 a
        → Reached b k1 k2 a (miss_l2 (miss_l1 (access_l1 c))) brings r
        → Outcome c brings r

  module _ (c : Cache) (i : IsInclusive b k1 k2 c.pseudo_cycle c.l1 c.l2) (small : a < 2 ^ 32)
      (early : c.pseudo_cycle + 3 < 2 ^ 32 - 1) where
    counted : IsInclusive b k1 k2 c.pseudo_cycle (access_l1 c).l1 (access_l1 c).l2
    counted =
        IsInclusive-recount b k1 k2 c.pseudo_cycle c.l1.miss_count (plus_double c.l1.access_count 1)
          c.l2.miss_count c.l2.access_count c.l1 c.l2 i

    missed :
        IsInclusive b k1 k2 c.pseudo_cycle (miss_l1 (access_l1 c)).l1 (miss_l1 (access_l1 c)).l2
    missed =
        IsInclusive-recount b k1 k2 c.pseudo_cycle (plus_double c.l1.miss_count 1)
          (plus_double c.l1.access_count 1) c.l2.miss_count (plus_double c.l2.access_count 1) c.l1
          c.l2 i

    -- A hit gives the entry the newest time, and `f` may make it dirty.
    module _ (f : WayEntry → WayEntry) (j : ℕ) (e : WayEntry) (h : HoldsIn b k1 c.l1 a j e) where
      hit_ways : List Way
      hit_ways = replaced c.l1.ways j (set_of b k1 a) (f e)

      modify_l1-hit :
          modify_l1 (access_l1 c) j a f
          ≡ some (state (access_l1 c) hit_ways c.l2.ways c.pseudo_cycle)
      unfolding modify_l1 hit_ways
      modify_l1-hit =
          bind-some (modify_entry (access_l1 c).l1 j (get_set (access_l1 c).l1 a) f) _
            (modify_at b k1 (access_l1 c).l1 a j f e counted.first.shape h.at) refl

      hit-Reached :
          (r : Option Cache)
          → (f e).valid ≡ e.valid
          → (f e).tag ≡ e.tag
          → (f e).address ≡ e.address
          → (f e).last_accessed_time ≤ c.pseudo_cycle
          → r ≡ some (state (access_l1 c) hit_ways c.l2.ways (u32 (c.pseudo_cycle + 1)))
          → Reached b k1 k2 a (access_l1 c) true r
      unfolding hit_ways
      hit-Reached r valid tag address recent returns = record {
        w1 = replaced c.l1.ways j (set_of b k1 a) (f e);
        w2 = c.l2.ways;
        n = u32 (c.pseudo_cycle + 1);
        returns = returns;
        inv =
            IsInclusive-later b k1 k2 c.pseudo_cycle (u32 (c.pseudo_cycle + 1))
              (with_ways (access_l1 c).l1 (replaced c.l1.ways j (set_of b k1 a) (f e))) c.l2
              (omega arith)
              (touch_first b k1 k2 c.pseudo_cycle (access_l1 c).l1 c.l2 counted (set_of b k1 a) j
                (f e) e h.at h.valid valid tag address recent);
        cached = λ _. (
          j,
          f e,
          Present-new b k1 (access_l1 c).l1 (set_of b k1 a) j a (f e) e h.at refl (valid ∙ h.valid)
              (tag ∙ h.tag),
        );
        later = omega arith;
        clock = omega arith;
      }

    cache_read-hit :
        (j : ℕ) (e : WayEntry) (h : HoldsIn b k1 c.l1 a j e)
        → block_exists c.l1 a ≡ some (some j)
        → cache_read c a
          ≡ some (
              state (access_l1 c) (hit_ways (touched c) j e h) c.l2.ways (u32 (c.pseudo_cycle + 1)))
    unfolding cache_read
    cache_read-hit j e h eq = bind-some (block_exists c.l1 a) _ eq (
        bind-some (modify_l1 (access_l1 c) j a (touched c)) _ (modify_l1-hit (touched c) j e h)
          refl)

    cache_read-miss :
        block_exists c.l1 a ≡ some none → cache_read c a ≡ read_l2 (miss_l1 (access_l1 c)) a
    unfolding cache_read
    cache_read-miss eq = bind-some (block_exists c.l1 a) _ eq refl

    cache_write-hit :
        (j : ℕ) (e : WayEntry) (h : HoldsIn b k1 c.l1 a j e)
        → block_exists c.l1 a ≡ some (some j)
        → cache_write c a
          ≡ some (
              state
                (access_l1 c)
                (hit_ways (λ x. touched c (dirtied x)) j e h)
                c.l2.ways
                (u32 (c.pseudo_cycle + 1)))
    unfolding cache_write
    cache_write-hit j e h eq = bind-some (block_exists c.l1 a) _ eq (
        bind-some (modify_l1 (access_l1 c) j a (λ x. touched c (dirtied x))) _
          (modify_l1-hit (λ x. touched c (dirtied x)) j e h) refl)

    cache_write-miss :
        block_exists c.l1 a ≡ some none → cache_write c a ≡ write_l2 (miss_l1 (access_l1 c)) a
    unfolding cache_write
    cache_write-miss eq = bind-some (block_exists c.l1 a) _ eq refl

    of_Second :
        (brings : Bool) (r : Option Cache)
        → Absent b k1 c.l1 a
        → Second b k1 k2 a (miss_l1 (access_l1 c)) brings r
        → Outcome c brings r
    of_Second brings r absent (second_hit (j, e, h) reached) =
        first_miss absent (j, e, record { at = h.at; valid = h.valid; tag = h.tag }) reached
    of_Second brings r absent (second_miss absent' reached) = both_miss absent absent' reached

    -- In a cache whose levels are in good order and inclusive, with room on the clock, a read of a
    -- 32-bit address returns: if the block is in L1 one access of L1 is counted; if it is in L2
    -- only, also a miss of L1 and an access of L2; if it is in neither, also a miss of L2, and each
    -- of these adds the cycles of what it accesses, where a sum is that of doubles, rounded to 53
    -- bits; the levels stay in good order and inclusive, and the block then is in L1.
    pub cache_read-Outcome : Outcome c true (cache_read c a)
    cache_read-Outcome = elim (find b k1 c.pseudo_cycle c.l1 i.first a small) [
      | there j e h eq ↦
          first_hit (j, e, h)
            (hit-Reached (touched c) j e h (cache_read c a) refl refl refl (omega arith)
              (cache_read-hit j e h eq))
      | nowhere absent eq ↦ of_Second true (cache_read c a) absent (
          subst (Second b k1 k2 a (miss_l1 (access_l1 c)) true) (sym (cache_read-miss eq))
            (read_l2-Second b k1 k2 a (miss_l1 (access_l1 c)) missed small early absent))
    ]

    -- In a cache whose levels are in good order and inclusive, with room on the clock, a write to a
    -- 32-bit address returns and counts as a read does, the levels stay in good order and
    -- inclusive, and the block then is in L1 if it was there before or the policy is to allocate on
    -- writes.
    pub cache_write-Outcome : Outcome c (allocates c.write_policy) (cache_write c a)
    cache_write-Outcome = elim (find b k1 c.pseudo_cycle c.l1 i.first a small) [
      | there j e h eq ↦
          first_hit (j, e, h)
            (hit-Reached (λ x. touched c (dirtied x)) j e h (cache_write c a) refl refl refl
              (omega arith) (cache_write-hit j e h eq))
      | nowhere absent eq ↦ of_Second (allocates c.write_policy) (cache_write c a) absent (
          subst (Second b k1 k2 a (miss_l1 (access_l1 c)) (allocates c.write_policy))
            (sym (cache_write-miss eq))
            (write_l2-Second b k1 k2 a (miss_l1 (access_l1 c)) missed small early absent))
    ]
