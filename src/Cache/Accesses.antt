-- ===== src/Cache/Accesses.antt =====
-- HW2/cacheSim.cpp: what `cacheRead` and `cacheWrite` do past a miss in the first level.
use computer_structures.Base.{
  ℕ, plus_double, ◌+◌, ◌-◌, ◌^◌, ◌≤◌, ◌<◌, ◌≡◌, refl, arith, true, false, Bool, Option, none, some,
  List, u32, bind-some,
}
use computer_structures.Cache.Level.{WayEntry, Way, CacheLevel, block_exists, modify_entry, get_set}
use computer_structures.Cache.Ops.{
  Cache, WritePolicy, no_write_allocate, write_allocate, miss_l2, touched, modify_l2, fetch_to_l1,
  fetch_block_from_memory, read_l2,
}
use computer_structures.Cache.Entries.{replaced, with_ways}
use computer_structures.Cache.Blocks.{set_of}
use computer_structures.Cache.Valid.{IsOrdered}
use computer_structures.Cache.Present.{HoldsIn, Present, Absent, there, nowhere, find, Present-new}
use computer_structures.Cache.Inclusion.{
  IsInclusive, IsInclusive-later, state, modify_at, touch_second,
}
use computer_structures.Cache.Fetch.{Fetched, fetch_to_l1-Fetched}
use computer_structures.Cache.Fill.{fetch_block_from_memory-Fetched}

-- A level with other counters.
abbrev pub recount : CacheLevel → ℕ → ℕ → CacheLevel
recount l m n = record l { miss_count = m; access_count = n }

pub HoldsIn-recount :
    (b k : ℕ) (l : CacheLevel) (a j m n : ℕ) (e : WayEntry)
    → HoldsIn b k l a j e
    → HoldsIn b k (recount l m n) a j e
HoldsIn-recount b k l a j m n e h = record { at = h.at; valid = h.valid; tag = h.tag }

pub IsOrdered-recount :
    (b k now m n : ℕ) (l : CacheLevel) → IsOrdered b k now l → IsOrdered b k now (recount l m n)
IsOrdered-recount b k now m n l o = record {
  shape = record {
    few = o.shape.few;
    block_size = o.shape.block_size;
    sets = o.shape.sets;
    tag = o.shape.tag;
  };
  some_way = o.some_way;
  sets = o.sets;
  times = o.times;
  placed = o.placed;
  unique = o.unique;
}

pub IsInclusive-recount :
    (b k1 k2 now m1 n1 m2 n2 : ℕ) (l1 l2 : CacheLevel)
    → IsInclusive b k1 k2 now l1 l2
    → IsInclusive b k1 k2 now (recount l1 m1 n1) (recount l2 m2 n2)
IsInclusive-recount b k1 k2 now m1 n1 m2 n2 l1 l2 i = record {
  first = IsOrdered-recount b k1 now m1 n1 l1 i.first;
  second = IsOrdered-recount b k2 now m2 n2 l2 i.second;
  inclusive = λ s j e at valid.
      let (j', e', h) = i.inclusive s j e at valid in
      (j', e', HoldsIn-recount b k2 l2 e.address j' m2 n2 e' h);
}

-- Whether a store that misses brings its block in.
abbrev pub allocates : WritePolicy → Bool
allocates no_write_allocate = false
allocates write_allocate = true

module _ (b k1 k2 a : ℕ) where
  -- The cache `c`, its counters moved on, ends in another state of its ways and its clock, which took
  -- three ticks at most; the block is in the first level if the access brings it in.
  pub record Reached (c : Cache) (brings : Bool) (r : Option Cache) : Type 0 where
    pub w1 : List Way
    pub w2 : List Way
    pub n : ℕ
    pub returns : r ≡ some (state c w1 w2 n)
    pub inv : IsInclusive b k1 k2 n (with_ways c.l1 w1) (with_ways c.l2 w2)
    pub cached : brings ≡ true → Present b k1 (with_ways c.l1 w1) a
    pub later : c.pseudo_cycle ≤ n
    pub clock : n ≤ 3 + c.pseudo_cycle

  -- An access past a miss in the first level hits the second or misses it too.
  pub data Second (c : Cache) (brings : Bool) (r : Option Cache) : Type 0 where
    second_hit : Present b k2 c.l2 a → Reached c brings r → Second c brings r
    second_miss : Absent b k2 c.l2 a → Reached (miss_l2 c) brings r → Second c brings r

  module _ (c : Cache) (i : IsInclusive b k1 k2 c.pseudo_cycle c.l1 c.l2) (small : a < 2 ^ 32)
      (early : c.pseudo_cycle + 3 < 2 ^ 32 - 1) (absent : Absent b k1 c.l1 a) where
    -- The second level after a hit there.
    abbrev pub recent : ℕ → WayEntry → List Way
    recent j e = replaced c.l2.ways j (set_of b k2 a) (touched c e)

    abbrev pub hit_state : ℕ → WayEntry → Cache
    hit_state j e = state c c.l1.ways (recent j e) (u32 (c.pseudo_cycle + 1))

    pub hit_state-IsInclusive :
        (j : ℕ) (e : WayEntry)
        → HoldsIn b k2 c.l2 a j e
        → IsInclusive b k1 k2 (u32 (c.pseudo_cycle + 1)) c.l1 (with_ways c.l2 (recent j e))
    hit_state-IsInclusive j e h =
        IsInclusive-later b k1 k2 c.pseudo_cycle (u32 (c.pseudo_cycle + 1)) c.l1
          (with_ways c.l2 (recent j e)) (omega arith)
          (touch_second b k1 k2 c.pseudo_cycle c.l1 c.l2 i (set_of b k2 a) j (touched c e) e h.at
            h.valid refl refl refl (omega arith))

    pub modify_l2-touched :
        (j : ℕ) (e : WayEntry)
        → HoldsIn b k2 c.l2 a j e
        → modify_l2 c j a (touched c) ≡ some (state c c.l1.ways (recent j e) c.pseudo_cycle)
    unfolding modify_l2
    modify_l2-touched j e h =
        bind-some (modify_entry c.l2 j (get_set c.l2 a) (touched c)) _
          (modify_at b k2 c.l2 a j (touched c) e i.second.shape h.at) refl

    pub hit_fetch :
        (j : ℕ) (e : WayEntry)
        → HoldsIn b k2 c.l2 a j e
        → Fetched b k1 k2 (hit_state j e) a 2 (fetch_to_l1 (hit_state j e) a)
    hit_fetch j e h =
        fetch_to_l1-Fetched b k1 k2 (hit_state j e) (hit_state-IsInclusive j e h) a small
          (omega arith) absent
          (
            j,
            touched c e,
            Present-new b k2 c.l2 (set_of b k2 a) j a (touched c e) e h.at refl h.valid h.tag,
          )

    pub miss_fetch :
        Absent b k2 c.l2 a → Fetched b k1 k2 (miss_l2 c) a 3 (fetch_block_from_memory (miss_l2 c) a)
    miss_fetch absent' =
        fetch_block_from_memory-Fetched b k1 k2 (miss_l2 c)
          (IsInclusive-recount b k1 k2 c.pseudo_cycle c.l1.miss_count c.l1.access_count
            (plus_double c.l2.miss_count 1) c.l2.access_count c.l1 c.l2 i)
          a small early absent absent'

    read_l2-hit :
        (j : ℕ) (e : WayEntry) (w : ℕ) (r : Cache)
        → HoldsIn b k2 c.l2 a j e
        → block_exists c.l2 a ≡ some (some j)
        → fetch_to_l1 (hit_state j e) a ≡ some (w, r)
        → read_l2 c a ≡ some r
    unfolding read_l2
    read_l2-hit j e w r h eq f = bind-some (block_exists c.l2 a) _ eq (
        bind-some (modify_l2 c j a (touched c)) _ (modify_l2-touched j e h)
          (bind-some (fetch_to_l1 (hit_state j e) a) _ f refl))

    read_l2-miss :
        (w : ℕ) (r : Cache)
        → block_exists c.l2 a ≡ some none
        → fetch_block_from_memory (miss_l2 c) a ≡ some (w, r)
        → read_l2 c a ≡ some r
    unfolding read_l2
    read_l2-miss w r eq f =
        bind-some (block_exists c.l2 a) _ eq
          (bind-some (fetch_block_from_memory (miss_l2 c) a) _ f refl)

    pub read_l2-Second : Second c true (read_l2 c a)
    read_l2-Second = elim (find b k2 c.pseudo_cycle c.l2 i.second a small) [
      | there j e h eq ↦
          let f = hit_fetch j e h in
          second_hit (j, e, h)
            (record {
              w1 = f.w1;
              w2 = f.w2;
              n = f.n;
              returns = read_l2-hit j e f.way (state c f.w1 f.w2 f.n) h eq f.returns;
              inv = f.inv;
              cached = λ _. (f.way, f.entry, f.holds);
              later = omega (arith, f.later);
              clock = omega (arith, f.clock);
            })
      | nowhere absent' eq ↦
          let f = miss_fetch absent' in
          second_miss absent' (record {
            w1 = f.w1;
            w2 = f.w2;
            n = f.n;
            returns = read_l2-miss f.way (state (miss_l2 c) f.w1 f.w2 f.n) eq f.returns;
            inv = f.inv;
            cached = λ _. (f.way, f.entry, f.holds);
            later = f.later;
            clock = f.clock;
          })
    ]
