-- ===== src/Cache/Again.antt =====
-- HW2/cacheSim.cpp: a block that was read is found in the first level by the next read.
use computer_structures.Base.{
  ℕ, plus_double, ◌+◌, ◌-◌, ◌^◌, ◌<◌, ◌≡◌, refl, arith, true, Option, some,
}
use computer_structures.Cache.Ops.{Cache, access_l1, miss_l1, miss_l2, cache_read}
use computer_structures.Cache.Present.{Present}
use computer_structures.Cache.Inclusion.{IsInclusive, state}
use computer_structures.Cache.Accesses.{Reached}
use computer_structures.Cache.Outcome.{
  Outcome, first_hit, first_miss, both_miss, cache_read-Outcome,
}

-- A read that finds its block in the first level: it costs the cycles of that level, and no miss is
-- counted.
pub record IsQuick (c : Cache) (r : Option Cache) : Type 0 where
  pub after : Cache
  pub returns : r ≡ some after
  pub time : after.t_access_total ≡ plus_double c.t_access_total c.l1.num_of_cycles
  pub accesses : after.l1.access_count ≡ plus_double c.l1.access_count 1
  pub misses : after.l1.miss_count ≡ c.l1.miss_count
  pub accesses2 : after.l2.access_count ≡ c.l2.access_count
  pub misses2 : after.l2.miss_count ≡ c.l2.miss_count

module _ (b k1 k2 a : ℕ) where
  IsQuick-of_Present :
      (c : Cache) (r : Option Cache)
      → Outcome b k1 k2 a c true r
      → Present b k1 c.l1 a
      → IsQuick c r
  IsQuick-of_Present c r (first_hit p h) q = record {
    after = state (access_l1 c) h.w1 h.w2 h.n;
    returns = h.returns;
    time = refl;
    accesses = refl;
    misses = refl;
    accesses2 = refl;
    misses2 = refl;
  }
  IsQuick-of_Present c r (first_miss absent p h) (j, e, q) = absurd (absent j e q.at q.valid q.tag)
  IsQuick-of_Present c r (both_miss absent p h) (j, e, q) = absurd (absent j e q.at q.valid q.tag)

  -- The first read, and then the second.
  pub record IsReadAgain (c : Cache) : Type 0 where
    pub between : Cache
    pub returns : cache_read c a ≡ some between
    pub again : IsQuick between (cache_read between a)

  again_of_Reached :
      (c c' : Cache)
      → a < 2 ^ 32
      → c'.pseudo_cycle + 6 < 2 ^ 32 - 1
      → Reached b k1 k2 a c' true (cache_read c a)
      → IsReadAgain c
  again_of_Reached c c' small early h =
      let mid = state c' h.w1 h.w2 h.n in
      let (j, e, q) = h.cached refl in
      record {
        between = mid;
        returns = h.returns;
        again =
            IsQuick-of_Present mid (cache_read mid a)
              (cache_read-Outcome b k1 k2 a mid h.inv small (omega (arith, h.clock)))
              (j, e, record { at = q.at; valid = q.valid; tag = q.tag });
      }

  -- In a cache whose levels are in good order and inclusive, with room on the clock, two reads of a
  -- 32-bit address in a row return, and the second adds the cycles of L1 alone to the total, as
  -- doubles are added, and counts no miss.
  pub cache_read-cache_read :
      (c : Cache)
      → IsInclusive b k1 k2 c.pseudo_cycle c.l1 c.l2
      → a < 2 ^ 32
      → c.pseudo_cycle + 6 < 2 ^ 32 - 1
      → IsReadAgain c
  cache_read-cache_read c i small early =
      elim (cache_read-Outcome b k1 k2 a c i small (omega arith)) [
        | first_hit p h ↦ again_of_Reached c (access_l1 c) small early h
        | first_miss p q h ↦ again_of_Reached c (miss_l1 (access_l1 c)) small early h
        | both_miss p q h ↦ again_of_Reached c (miss_l2 (miss_l1 (access_l1 c))) small early h
      ]
