-- ===== src/Cache/Run.antt =====
-- HW2/cacheSim.cpp: the loop of `main` over the accesses, and the three sums that it prints.
use native.Mathlib.Nat.{mul-le-mul_right}
use computer_structures.Base.{
  ℕ, suc, ap, plus_double, plus_double-exact, ◌+◌, ◌-◌, ◌*◌, ◌^◌, ◌≤◌, ◌<◌, ◌≡◌, refl, ◌∙◌, arith,
  true, Bool, Option, some, List, [], ◌∷◌, bind-some,
}
use computer_structures.Cache.Ops.{
  Cache, Access, read, write, other, access_l1, miss_l1, miss_l2, cache_read, cache_write, access,
  run,
}
use computer_structures.Cache.Inclusion.{IsInclusive}
use computer_structures.Cache.Accesses.{Reached, allocates}
use computer_structures.Cache.Outcome.{
  Outcome, first_hit, first_miss, both_miss, cache_read-Outcome, cache_write-Outcome,
}

-- The books of a cache whose levels cost `x` and `y` cycles and whose memory costs `z`: every access goes to
-- the first level, every miss there to the second, and every miss there to the memory.
pub record IsAccounted (x y z : ℕ) (c : Cache) : Type 0 where
  pub cost1 : c.l1.num_of_cycles ≡ x
  pub cost2 : c.l2.num_of_cycles ≡ y
  pub cost3 : c.mem_cyc ≡ z
  pub second : c.l2.access_count ≡ c.l1.miss_count
  pub some_hits : c.l1.miss_count ≤ c.l1.access_count
  pub some_hits' : c.l2.miss_count ≤ c.l2.access_count
  pub time : c.t_access_total ≡ x * c.l1.access_count + y * c.l2.access_count + z * c.l2.miss_count

-- No access costs more than the three together.
total-le : (x y z n p q : ℕ) → p ≤ n → q ≤ n → x * n + y * p + z * q ≤ n * (x + y + z)
total-le x y z n p q h1 h2 =
    let a = mul-le-mul_right y h1 in let b = mul-le-mul_right z h2 in grind (arith, a, b)

abbrev Invariant : ℕ → ℕ → ℕ → Cache → Type 0
Invariant b k1 k2 c = IsInclusive b k1 k2 c.pseudo_cycle c.l1 c.l2

module _ (x y z : ℕ) (c : Cache) (v : IsAccounted x y z c) (few : c.l1.access_count + 1 < 2 ^ 53)
    (cheap : (c.l1.access_count + 1) * (x + y + z) < 2 ^ 53) where
  first_sum :
      (c.t_access_total + c.l1.num_of_cycles)
      ≡ x * (c.l1.access_count + 1) + y * c.l2.access_count + z * c.l2.miss_count
  first_sum = grind (arith, v.time, v.cost1)

  second_sum :
      (c.t_access_total + c.l1.num_of_cycles + c.l2.num_of_cycles)
      ≡ x * (c.l1.access_count + 1) + y * (c.l2.access_count + 1) + z * c.l2.miss_count
  second_sum = grind (arith, v.time, v.cost1, v.cost2)

  memory_sum :
      (c.t_access_total + c.l1.num_of_cycles + c.l2.num_of_cycles + c.mem_cyc)
      ≡ x * (c.l1.access_count + 1) + y * (c.l2.access_count + 1) + z * (c.l2.miss_count + 1)
  memory_sum = grind (arith, v.time, v.cost1, v.cost2, v.cost3)

  most :
      x * (c.l1.access_count + 1) + y * (c.l2.access_count + 1) + z * (c.l2.miss_count + 1) < 2 ^ 53
  most =
      let fits =
        total-le x y z (c.l1.access_count + 1) (c.l2.access_count + 1) (c.l2.miss_count + 1)
          (omega (arith, v.some_hits, v.second))
          (omega (arith, v.some_hits, v.some_hits', v.second)) in
      omega (arith, fits, cheap)

  one_more : (n : ℕ) → n ≤ c.l1.access_count → plus_double n 1 ≡ n + 1
  one_more n h = plus_double-exact n 1 (omega (arith, h, few))

  second_few : c.l2.access_count ≤ c.l1.access_count
  second_few = omega (arith, v.second, v.some_hits)

  first_time :
      plus_double c.t_access_total c.l1.num_of_cycles ≡ c.t_access_total + c.l1.num_of_cycles
  first_time =
      plus_double-exact c.t_access_total c.l1.num_of_cycles (omega (arith, memory_sum, most))

  second_time :
      plus_double (plus_double c.t_access_total c.l1.num_of_cycles) c.l2.num_of_cycles
      ≡ c.t_access_total + c.l1.num_of_cycles + c.l2.num_of_cycles
  second_time =
      ap (λ t. plus_double t c.l2.num_of_cycles) first_time
      ∙ plus_double-exact (c.t_access_total + c.l1.num_of_cycles) c.l2.num_of_cycles
          (omega (arith, memory_sum, most))

  memory_time :
      plus_double
        (plus_double (plus_double c.t_access_total c.l1.num_of_cycles) c.l2.num_of_cycles)
        c.mem_cyc
      ≡ c.t_access_total + c.l1.num_of_cycles + c.l2.num_of_cycles + c.mem_cyc
  memory_time =
      ap (λ t. plus_double t c.mem_cyc) second_time
      ∙ plus_double-exact (c.t_access_total + c.l1.num_of_cycles + c.l2.num_of_cycles) c.mem_cyc
          (omega (arith, memory_sum, most))

  access_l1-IsAccounted : IsAccounted x y z (access_l1 c)
  access_l1-IsAccounted =
      let one = one_more c.l1.access_count (omega arith) in
      record {
        cost1 = v.cost1;
        cost2 = v.cost2;
        cost3 = v.cost3;
        second = v.second;
        some_hits = omega (arith, v.some_hits, one);
        some_hits' = v.some_hits';
        time = rw one (first_time ∙ first_sum);
      }

  miss_l1-IsAccounted : IsAccounted x y z (miss_l1 (access_l1 c))
  miss_l1-IsAccounted =
      let one = one_more c.l1.access_count (omega arith) in
      let one_miss = one_more c.l1.miss_count v.some_hits in
      let one_second = one_more c.l2.access_count second_few in
      record {
        cost1 = v.cost1;
        cost2 = v.cost2;
        cost3 = v.cost3;
        second = omega (arith, v.second, one_miss, one_second);
        some_hits = omega (arith, v.some_hits, one, one_miss);
        some_hits' = omega (arith, v.some_hits', one_second);
        time = rw (one, one_second) (second_time ∙ second_sum);
      }

  miss_l2-IsAccounted : IsAccounted x y z (miss_l2 (miss_l1 (access_l1 c)))
  miss_l2-IsAccounted =
      let one = one_more c.l1.access_count (omega arith) in
      let one_miss = one_more c.l1.miss_count v.some_hits in
      let one_second = one_more c.l2.access_count second_few in
      let one_fetch = one_more c.l2.miss_count (omega (arith, v.some_hits', second_few)) in
      record {
        cost1 = v.cost1;
        cost2 = v.cost2;
        cost3 = v.cost3;
        second = omega (arith, v.second, one_miss, one_second);
        some_hits = omega (arith, v.some_hits, one, one_miss);
        some_hits' = omega (arith, v.some_hits', one_second, one_fetch);
        time = rw (one, one_second, one_fetch) (memory_time ∙ memory_sum);
      }

-- What one access leaves behind.

abbrev Keeps : Cache → Cache → Type 0
Keeps c c' =
    (x y z : ℕ)
    → IsAccounted x y z c
    → c.l1.access_count + 1 < 2 ^ 53
    → (c.l1.access_count + 1) * (x + y + z) < 2 ^ 53
    → IsAccounted x y z c'

record Advanced (b k1 k2 : ℕ) (c : Cache) (r : Option Cache) : Type 0 where
  after : Cache
  returns : r ≡ some after
  inv : Invariant b k1 k2 after
  clock : after.pseudo_cycle ≤ 3 + c.pseudo_cycle
  counted : after.l1.access_count ≡ plus_double c.l1.access_count 1
  books : Keeps c after

of_Reached :
    (b k1 k2 a : ℕ) (c c' : Cache) (brings : Bool) (r : Option Cache)
    → Reached b k1 k2 a c' brings r
    → c'.pseudo_cycle ≡ c.pseudo_cycle
    → c'.l1.access_count ≡ plus_double c.l1.access_count 1
    → Keeps c c'
    → Advanced b k1 k2 c r
of_Reached b k1 k2 a c c' brings r h clock counted books = record {
  after = record c' {
    l1 = record (c'.l1) { ways = h.w1 };
    l2 = record (c'.l2) { ways = h.w2 };
    pseudo_cycle = h.n;
  };
  returns = h.returns;
  inv = h.inv;
  clock = omega (arith, h.clock, clock);
  counted = counted;
  books = λ x y z v few cheap.
      let w = books x y z v few cheap in
      record {
        cost1 = w.cost1;
        cost2 = w.cost2;
        cost3 = w.cost3;
        second = w.second;
        some_hits = w.some_hits;
        some_hits' = w.some_hits';
        time = w.time;
      };
}

of_Outcome :
    (b k1 k2 a : ℕ) (c : Cache) (brings : Bool) (r : Option Cache)
    → Outcome b k1 k2 a c brings r
    → Advanced b k1 k2 c r
of_Outcome b k1 k2 a c brings r (first_hit p h) =
    of_Reached b k1 k2 a c (access_l1 c) true r h refl refl
      (λ x y z v few cheap. access_l1-IsAccounted x y z c v few cheap)
of_Outcome b k1 k2 a c brings r (first_miss p q h) =
    of_Reached b k1 k2 a c (miss_l1 (access_l1 c)) brings r h refl refl
      (λ x y z v few cheap. miss_l1-IsAccounted x y z c v few cheap)
of_Outcome b k1 k2 a c brings r (both_miss p q h) =
    of_Reached b k1 k2 a c (miss_l2 (miss_l1 (access_l1 c))) brings r h refl refl
      (λ x y z v few cheap. miss_l2-IsAccounted x y z c v few cheap)

-- The accesses among the lines, and that their addresses have 32 bits.
abbrev pub accesses_in : List Access → ℕ
accesses_in [] = 0
accesses_in (other ∷ lines) = accesses_in lines
accesses_in (read a ∷ lines) = suc (accesses_in lines)
accesses_in (write a ∷ lines) = suc (accesses_in lines)

abbrev pub AllSmall : List Access → Type 0
AllSmall [] = Unit
AllSmall (other ∷ lines) = AllSmall lines
AllSmall (read a ∷ lines) = (a < 2 ^ 32) × AllSmall lines
AllSmall (write a ∷ lines) = (a < 2 ^ 32) × AllSmall lines

-- What the loop leaves behind.
pub record IsSimulated (b k1 k2 x y z : ℕ) (c : Cache) (lines : List Access) : Type 0 where
  pub after : Cache
  pub returns : run c lines ≡ some after
  pub inv : IsInclusive b k1 k2 after.pseudo_cycle after.l1 after.l2
  pub books : IsAccounted x y z after
  pub counted : after.l1.access_count ≡ c.l1.access_count + accesses_in lines

run-step :
    (c c' c'' : Cache) (a : Access) (lines : List Access)
    → access c a ≡ some c'
    → run c' lines ≡ some c''
    → run c (a ∷ lines) ≡ some c''
unfolding run
run-step c c' c'' a lines p q = bind-some (access c a) _ p q

module _ (b k1 k2 x y z : ℕ) where
  after_one :
      (c : Cache) (a : Access) (lines : List Access) (s : Advanced b k1 k2 c (access c a))
      → accesses_in (a ∷ lines) ≡ suc (accesses_in lines)
      → c.l1.access_count + 1 < 2 ^ 53
      → IsSimulated b k1 k2 x y z s.after lines
      → IsSimulated b k1 k2 x y z c (a ∷ lines)
  after_one c a lines s one few rest = record {
    after = rest.after;
    returns = run-step c s.after rest.after a lines s.returns rest.returns;
    inv = rest.inv;
    books = rest.books;
    counted =
        omega (arith, rest.counted, s.counted, one, plus_double-exact c.l1.access_count 1 few);
  }

  read-Advanced :
      (c : Cache) (a : ℕ)
      → Invariant b k1 k2 c
      → a < 2 ^ 32
      → c.pseudo_cycle + 3 < 2 ^ 32 - 1
      → Advanced b k1 k2 c (access c (read a))
  unfolding access
  read-Advanced c a i small early =
      of_Outcome b k1 k2 a c true (cache_read c a) (cache_read-Outcome b k1 k2 a c i small early)

  write-Advanced :
      (c : Cache) (a : ℕ)
      → Invariant b k1 k2 c
      → a < 2 ^ 32
      → c.pseudo_cycle + 3 < 2 ^ 32 - 1
      → Advanced b k1 k2 c (access c (write a))
  unfolding access
  write-Advanced c a i small early =
      of_Outcome b k1 k2 a c (allocates c.write_policy) (cache_write c a)
        (cache_write-Outcome b k1 k2 a c i small early)

  run-nil : (c : Cache) → run c [] ≡ some c
  unfolding run
  run-nil c = refl

  run-other : (c : Cache) (lines : List Access) → run c (other ∷ lines) ≡ run c lines
  unfolding run access
  run-other c lines = refl

  cheap-first :
      (c : Cache) (n : ℕ)
      → (c.l1.access_count + suc n) * (x + y + z) < 2 ^ 53
      → (c.l1.access_count + 1) * (x + y + z) < 2 ^ 53
  cheap-first c n h =
      let fewer =
        mul-le-mul_right {m = c.l1.access_count + 1} {n = c.l1.access_count + suc n} (x + y + z)
          (omega arith) in
      omega (arith, fewer, h)

  cheap-rest :
      (c c' : Cache) (n : ℕ)
      → c'.l1.access_count ≡ c.l1.access_count + 1
      → (c.l1.access_count + suc n) * (x + y + z) < 2 ^ 53
      → (c'.l1.access_count + n) * (x + y + z) < 2 ^ 53
  cheap-rest c c' n e h =
      let same : c'.l1.access_count + n ≡ c.l1.access_count + suc n = omega (arith, e) in rw same h

  pub run-IsSimulated :
      (c : Cache) (lines : List Access)
      → IsInclusive b k1 k2 c.pseudo_cycle c.l1 c.l2
      → IsAccounted x y z c
      → AllSmall lines
      → c.pseudo_cycle + 3 * accesses_in lines < 2 ^ 32 - 1
      → c.l1.access_count + accesses_in lines < 2 ^ 53
      → (c.l1.access_count + accesses_in lines) * (x + y + z) < 2 ^ 53
      → IsSimulated b k1 k2 x y z c lines
  run-IsSimulated c [] i v small early few cheap = record {
    after = c;
    returns = run-nil c;
    inv = i;
    books = v;
    counted = omega arith;
  }
  run-IsSimulated c (other ∷ lines) i v small early few cheap =
      let rest = run-IsSimulated c lines i v small early few cheap in
      record {
        after = rest.after;
        returns = run-other c lines ∙ rest.returns;
        inv = rest.inv;
        books = rest.books;
        counted = rest.counted;
      }
  run-IsSimulated c (read a ∷ lines) i v (small, rest) early few cheap =
      let few1 : c.l1.access_count + 1 < 2 ^ 53 = omega arith in
      let cheap1 = cheap-first c (accesses_in lines) cheap in
      let s = read-Advanced c a i small (omega arith) in
      let next = s.counted ∙ plus_double-exact c.l1.access_count 1 few1 in
      after_one c (read a) lines s refl few1 (
        run-IsSimulated s.after lines s.inv (s.books x y z v few1 cheap1) rest
          (omega (arith, s.clock)) (omega (arith, next))
          (cheap-rest c s.after (accesses_in lines) next cheap))
  run-IsSimulated c (write a ∷ lines) i v (small, rest) early few cheap =
      let few1 : c.l1.access_count + 1 < 2 ^ 53 = omega arith in
      let cheap1 = cheap-first c (accesses_in lines) cheap in
      let s = write-Advanced c a i small (omega arith) in
      let next = s.counted ∙ plus_double-exact c.l1.access_count 1 few1 in
      after_one c (write a) lines s refl few1 (
        run-IsSimulated s.after lines s.inv (s.books x y z v few1 cheap1) rest
          (omega (arith, s.clock)) (omega (arith, next))
          (cheap-rest c s.after (accesses_in lines) next cheap))
