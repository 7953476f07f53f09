-- ===== src/Cache/Stores.antt =====
-- HW2/cacheSim.cpp: what `cacheWrite` does past a miss in the first level, under both policies.
use native.Mathlib.Nat.{mod-eq_of_lt}
use computer_structures.Base.{
  ℕ, plus_double, ◌+◌, ◌-◌, ◌^◌, ◌<◌, ◌≡◌, refl, ap, ◌∙◌, arith, true, false, Option, none, some,
  List, u32, bind-some,
}
use computer_structures.Cache.Level.{WayEntry, Way, block_exists, modify_entry, get_set}
use computer_structures.Cache.Ops.{
  Cache, WritePolicy, no_write_allocate, write_allocate, miss_l2, touched, dirtied, modify_l1,
  modify_l2, fetch_to_l1, fetch_block_from_memory, write_l2,
}
use computer_structures.Cache.Entries.{replaced, with_ways}
use computer_structures.Cache.Blocks.{set_of}
use computer_structures.Cache.Present.{HoldsIn, Present, Absent, there, nowhere, find, Present-new}
use computer_structures.Cache.Inclusion.{IsInclusive, state, modify_at, touch_first, touch_second}
use computer_structures.Cache.Fetch.{Fetched}
use computer_structures.Cache.Accesses.{
  Second, second_hit, second_miss, allocates, recent, hit_state, hit_state-IsInclusive,
  modify_l2-touched, hit_fetch, miss_fetch, IsInclusive-recount,
}

-- The ways of the first level after the fetched entry became dirty.
abbrev dirty_ways : ℕ → ℕ → ℕ → List Way → ℕ → WayEntry → List Way
dirty_ways b k a w1 way e = replaced w1 way (set_of b k a) (dirtied e)

module _ (b k1 k2 a : ℕ) (small : a < 2 ^ 32) (c : Cache) (t : ℕ) (r : Option (ℕ × Cache))
    (f : Fetched b k1 k2 c a t r) where
  modify_l1-dirtied :
      modify_l1 (state c f.w1 f.w2 f.n) f.way (u32 a) dirtied
      ≡ some (state c (dirty_ways b k1 a f.w1 f.way f.entry) f.w2 f.n)
  unfolding modify_l1
  modify_l1-dirtied =
      bind-some
        (modify_entry (with_ways c.l1 f.w1) f.way (get_set (with_ways c.l1 f.w1) (u32 a)) dirtied) _
        (ap
            (λ (x : ℕ).
              modify_entry (with_ways c.l1 f.w1) f.way (get_set (with_ways c.l1 f.w1) x) dirtied)
            (mod-eq_of_lt small)
          ∙ modify_at b k1 (with_ways c.l1 f.w1) a f.way dirtied f.entry f.inv.first.shape
              f.holds.at)
        refl

  dirtied-IsInclusive :
      IsInclusive b k1 k2 f.n
        (with_ways c.l1 (dirty_ways b k1 a f.w1 f.way f.entry))
        (with_ways c.l2 f.w2)
  dirtied-IsInclusive =
      touch_first b k1 k2 f.n (with_ways c.l1 f.w1) (with_ways c.l2 f.w2) f.inv (set_of b k1 a)
        f.way (dirtied f.entry) f.entry f.holds.at f.holds.valid refl refl refl
        (f.inv.first.times (set_of b k1 a) f.way f.entry f.holds.at)

  dirtied-Present : Present b k1 (with_ways c.l1 (dirty_ways b k1 a f.w1 f.way f.entry)) a
  dirtied-Present = (
    f.way,
    dirtied f.entry,
    Present-new b k1 (with_ways c.l1 f.w1) (set_of b k1 a) f.way a (dirtied f.entry) f.entry
        f.holds.at refl f.holds.valid f.holds.tag,
  )

abbrev with_policy : Cache → WritePolicy → Cache
with_policy c p = record c { write_policy = p }

module _ (b k1 k2 a : ℕ) (c : Cache) (i : IsInclusive b k1 k2 c.pseudo_cycle c.l1 c.l2)
    (small : a < 2 ^ 32) (early : c.pseudo_cycle + 3 < 2 ^ 32 - 1)
    (absent : Absent b k1 c.l1 a) where
  abbrev writes : Cache
  writes = with_policy c write_allocate

  abbrev bypasses : Cache
  bypasses = with_policy c no_write_allocate

  write_l2-hit :
      (j : ℕ) (e : WayEntry) (w : ℕ) (s r : Cache)
      → HoldsIn b k2 c.l2 a j e
      → block_exists c.l2 a ≡ some (some j)
      → fetch_to_l1 (hit_state b k1 k2 a writes i small early absent j e) a ≡ some (w, s)
      → modify_l1 s w (u32 a) dirtied ≡ some r
      → write_l2 writes a ≡ some r
  unfolding write_l2
  write_l2-hit j e w s r h eq f g = bind-some (block_exists c.l2 a) _ eq (
      bind-some (modify_l2 writes j a (touched writes)) _
        (modify_l2-touched b k1 k2 a writes i small early absent j e h)
        (bind-some (fetch_to_l1 (hit_state b k1 k2 a writes i small early absent j e) a) _ f g))

  write_l2-miss :
      (w : ℕ) (s r : Cache)
      → block_exists c.l2 a ≡ some none
      → fetch_block_from_memory (miss_l2 writes) a ≡ some (w, s)
      → modify_l1 s w (u32 a) dirtied ≡ some r
      → write_l2 writes a ≡ some r
  unfolding write_l2
  write_l2-miss w s r eq f g =
      bind-some (block_exists c.l2 a) _ eq
        (bind-some (fetch_block_from_memory (miss_l2 writes) a) _ f g)

  write_l2-bypass :
      (j : ℕ) (e : WayEntry) (r : Cache)
      → HoldsIn b k2 c.l2 a j e
      → block_exists c.l2 a ≡ some (some j)
      → modify_l2 (hit_state b k1 k2 a bypasses i small early absent j e) j a dirtied ≡ some r
      → write_l2 bypasses a ≡ some r
  unfolding write_l2
  write_l2-bypass j e r h eq f = bind-some (block_exists c.l2 a) _ eq (
      bind-some (modify_l2 bypasses j a (touched bypasses)) _
        (modify_l2-touched b k1 k2 a bypasses i small early absent j e h) f)

  write_l2-skip : block_exists c.l2 a ≡ some none → write_l2 bypasses a ≡ some (miss_l2 bypasses)
  unfolding write_l2
  write_l2-skip eq = bind-some (block_exists c.l2 a) _ eq refl

  allocating : Second b k1 k2 a writes true (write_l2 writes a)
  allocating = elim (find b k2 c.pseudo_cycle c.l2 i.second a small) [
    | there j e h eq ↦
        let s = hit_state b k1 k2 a writes i small early absent j e in
        let f = hit_fetch b k1 k2 a writes i small early absent j e h in
        second_hit (j, e, h)
          (record {
            w1 = dirty_ways b k1 a f.w1 f.way f.entry;
            w2 = f.w2;
            n = f.n;
            returns =
                write_l2-hit j e f.way (state writes f.w1 f.w2 f.n)
                  (state writes (dirty_ways b k1 a f.w1 f.way f.entry) f.w2 f.n) h eq f.returns
                  (modify_l1-dirtied b k1 k2 a small s 2 (fetch_to_l1 s a) f);
            inv = dirtied-IsInclusive b k1 k2 a small s 2 (fetch_to_l1 s a) f;
            cached = λ _. dirtied-Present b k1 k2 a small s 2 (fetch_to_l1 s a) f;
            later = omega (arith, f.later);
            clock = omega (arith, f.clock);
          })
    | nowhere absent' eq ↦
        let f = miss_fetch b k1 k2 a writes i small early absent absent' in
        let m = miss_l2 writes in
        second_miss absent' (record {
          w1 = dirty_ways b k1 a f.w1 f.way f.entry;
          w2 = f.w2;
          n = f.n;
          returns =
              write_l2-miss f.way (state m f.w1 f.w2 f.n)
                (state m (dirty_ways b k1 a f.w1 f.way f.entry) f.w2 f.n) eq f.returns
                (modify_l1-dirtied b k1 k2 a small m 3 (fetch_block_from_memory m a) f);
          inv = dirtied-IsInclusive b k1 k2 a small m 3 (fetch_block_from_memory m a) f;
          cached = λ _. dirtied-Present b k1 k2 a small m 3 (fetch_block_from_memory m a) f;
          later = f.later;
          clock = f.clock;
        })
  ]

  -- The second level after a store that goes past the first.
  abbrev stored : ℕ → WayEntry → List Way
  stored j e =
      replaced (recent b k1 k2 a bypasses i small early absent j e) j (set_of b k2 a)
        (dirtied (touched c e))

  touched_holds :
      (j : ℕ) (e : WayEntry)
      → HoldsIn b k2 c.l2 a j e
      → HoldsIn b k2
          (with_ways c.l2 (recent b k1 k2 a bypasses i small early absent j e))
          a
          j
          (touched c e)
  touched_holds j e h =
      Present-new b k2 c.l2 (set_of b k2 a) j a (touched c e) e h.at refl h.valid h.tag

  modify_l2-dirtied :
      (j : ℕ) (e : WayEntry)
      → HoldsIn b k2 c.l2 a j e
      → modify_l2 (hit_state b k1 k2 a bypasses i small early absent j e) j a dirtied
        ≡ some (state bypasses c.l1.ways (stored j e) (u32 (c.pseudo_cycle + 1)))
  unfolding modify_l2
  modify_l2-dirtied j e h =
      let l = with_ways c.l2 (recent b k1 k2 a bypasses i small early absent j e) in
      bind-some (modify_entry l j (get_set l a) dirtied) _
        (modify_at b k2 l a j dirtied (touched c e)
          (hit_state-IsInclusive b k1 k2 a bypasses i small early absent j e h).second.shape
          (touched_holds j e h).at)
        refl

  bypassing : Second b k1 k2 a bypasses false (write_l2 bypasses a)
  bypassing = elim (find b k2 c.pseudo_cycle c.l2 i.second a small) [
    | there j e h eq ↦
        let l = with_ways c.l2 (recent b k1 k2 a bypasses i small early absent j e) in
        let i' = hit_state-IsInclusive b k1 k2 a bypasses i small early absent j e h in
        second_hit (j, e, h)
          (record {
            w1 = c.l1.ways;
            w2 = stored j e;
            n = u32 (c.pseudo_cycle + 1);
            returns =
                write_l2-bypass j e
                  (state bypasses c.l1.ways (stored j e) (u32 (c.pseudo_cycle + 1))) h eq
                  (modify_l2-dirtied j e h);
            inv =
                touch_second b k1 k2 (u32 (c.pseudo_cycle + 1)) c.l1 l i' (set_of b k2 a) j
                  (dirtied (touched c e)) (touched c e) (touched_holds j e h).at h.valid refl refl
                  refl (omega arith);
            cached = λ no_way. absurd (cc);
            later = omega arith;
            clock = omega arith;
          })
    | nowhere absent' eq ↦ second_miss absent' (record {
      w1 = c.l1.ways;
      w2 = c.l2.ways;
      n = c.pseudo_cycle;
      returns = write_l2-skip eq;
      inv =
          IsInclusive-recount b k1 k2 c.pseudo_cycle c.l1.miss_count c.l1.access_count
            (plus_double c.l2.miss_count 1) c.l2.access_count c.l1 c.l2 i;
      cached = λ no_way. absurd (cc);
      later = omega arith;
      clock = omega arith;
    })
  ]

  by_policy :
      (p : WritePolicy)
      → Second b k1 k2 a (with_policy c p) (allocates p) (write_l2 (with_policy c p) a)
  by_policy no_write_allocate = bypassing
  by_policy write_allocate = allocating

  pub write_l2-Second : Second b k1 k2 a c (allocates c.write_policy) (write_l2 c a)
  write_l2-Second = by_policy c.write_policy
