-- ===== src/Cache/Initial.antt =====
-- HW2/cacheSim.cpp: the constructor builds two empty levels in good order, and the whole simulation of a
-- file of accesses.
use native.Mathlib.Nat.{mul-div_cancel}
use computer_structures.Base.{
  bind-some, ltb, pow_unsigned, pow_unsigned-some, ℕ, ◌+◌, ◌-◌, ◌*◌, ◌/◌, ◌^◌, ◌≤◌, ◌<◌, ◌≡◌, refl,
  sym, ap, ◌∙◌, arith, true, Option, some, List, subst, sub32, length, length-replicate, get_elem?,
  get_elem?-replicate, lt_of_get_elem?, replicate, pow-pos, pow-add, Option-cases, inl, inr,
}
use computer_structures.Base.Words.{log2, log2-pow}
use computer_structures.Cache.Level.{
  WayEntry, way_entry, Way, new_way, CacheLevel, new_level, cache_level,
}
use computer_structures.Cache.Ops.{Cache, Params, cache, new_cache, Access}
use computer_structures.Cache.Ways.{entry_of}
use computer_structures.Cache.Valid.{IsOrdered}
use computer_structures.Cache.Inclusion.{IsInclusive}
use computer_structures.Cache.Run.{IsAccounted, accesses_in, AllSmall, IsSimulated, run-IsSimulated}

some_eq : {A : Type 0} {a b : A} {o : Option A} → o ≡ some a → o ≡ some b → a ≡ b
some_eq p q = cc

of_replicate : {A : Type 0} (n i : ℕ) (a x : A) → get_elem? (replicate n a) i ≡ some x → x ≡ a
of_replicate n i a x h = some_eq h (
    get_elem?-replicate n a i
      (omega (arith, lt_of_get_elem? (replicate n a) i h, length-replicate n a)))

-- Every entry of a new level is empty.
new_entries :
    (n m s j : ℕ) (e : WayEntry) → entry_of (replicate n (new_way m)) s j ≡ some e → e ≡ way_entry
new_entries n m s j e h = elim (Option-cases (get_elem? (replicate n (new_way m)) j)) [
  | inl missing ↦ absurd (cc)
  | inr (w, read) ↦
      let same = of_replicate n j (new_way m) w read in
      let there : get_elem? w.entries s ≡ some e = cc in
      of_replicate m s way_entry e (subst (λ (x : Way). get_elem? x.entries s ≡ some e) same there)
]

-- The logarithms of the sizes of a level: a set fits the level, and its numbers of sets and of bytes fit
-- an address.
pub record IsSize (b size assoc : ℕ) : Type 0 where
  pub fits : b + assoc ≤ size
  pub small : size ≤ 31

abbrev pub sets_log : ℕ → ℕ → ℕ → ℕ
sets_log b size assoc = size - b - assoc

sets_power :
    (b size assoc : ℕ)
    → IsSize b size assoc
    → 2 ^ sub32 size b / 2 ^ assoc ≡ 2 ^ sets_log b size assoc
sets_power b size assoc v =
    let cut : sub32 size b ≡ sets_log b size assoc + assoc = omega (arith, v.fits, v.small) in
    ap (λ (n : ℕ). 2 ^ n / 2 ^ assoc) cut
    ∙ (ap (λ (n : ℕ). n / 2 ^ assoc) (pow-add (sets_log b size assoc) assoc)
        ∙ mul-div_cancel (2 ^ sets_log b size assoc) (pow-pos assoc))

-- The level that the constructor builds from such sizes.
abbrev level_of : ℕ → ℕ → ℕ → ℕ → ℕ → CacheLevel
level_of b size assoc cyc num = new_level (2 ^ assoc) (2 ^ sub32 size b) cyc b num

cache_level-some :
    (b size assoc cyc num : ℕ)
    → IsSize b size assoc
    → cache_level size assoc cyc b num ≡ some (level_of b size assoc cyc num)
unfolding cache_level
cache_level-some b size assoc cyc num v =
    let power = sets_power b size assoc v in
    let some_sets : ltb 0 (2 ^ sub32 size b / 2 ^ assoc) ≡ true =
      rw power (ground (arith, pow-pos (sets_log b size assoc))) in
    bind-some (pow_unsigned assoc) _ (pow_unsigned-some assoc (omega (arith, v.fits, v.small))) (
      bind-some (pow_unsigned (sub32 size b)) _
        (pow_unsigned-some (sub32 size b) (omega (arith, v.fits, v.small))) (rw some_sets refl))

level_of-IsOrdered :
    (b size assoc cyc num : ℕ)
    → IsSize b size assoc
    → IsOrdered b (sets_log b size assoc) 0 (level_of b size assoc cyc num)
level_of-IsOrdered b size assoc cyc num v =
    let power = sets_power b size assoc v in
    let k = sets_log b size assoc in
    let log : log2 (2 ^ sub32 size b / 2 ^ assoc) ≡ k =
      ap (λ (n : ℕ). log2 n) power ∙ log2-pow k (omega (arith, v.small)) in
    record {
      shape = record {
        few = omega (arith, v.fits, v.small);
        block_size = refl;
        sets = power;
        tag = ap (λ (n : ℕ). sub32 (sub32 32 n) b) log ∙ omega (arith, v.fits, v.small);
      };
      some_way = omega (
        arith,
        length-replicate (2 ^ assoc) (new_way (2 ^ sub32 size b / 2 ^ assoc)),
        pow-pos assoc,
      );
      sets = λ j w h.
          ap (λ (x : Way). length x.entries)
            (of_replicate (2 ^ assoc) j (new_way (2 ^ sub32 size b / 2 ^ assoc)) w h)
          ∙ (length-replicate (2 ^ sub32 size b / 2 ^ assoc) way_entry ∙ power);
      times = λ s j e h.
          subst (λ (x : WayEntry). x.last_accessed_time ≤ 0)
            (sym (new_entries (2 ^ assoc) (2 ^ sub32 size b / 2 ^ assoc) s j e h)) (omega arith);
      placed = λ s j e h valid. absurd (empty s j e h valid);
      unique = λ s j j' e e' h h' valid valid' tags. absurd (empty s j e h valid);
    }
  where
    empty :
        (s j : ℕ) (e : WayEntry)
        → entry_of (replicate (2 ^ assoc) (new_way (2 ^ sub32 size b / 2 ^ assoc))) s j ≡ some e
        → e.valid ≡ true
        → ⊥
    empty s j e h valid =
        let same = new_entries (2 ^ assoc) (2 ^ sub32 size b / 2 ^ assoc) s j e h in cc

abbrev pub fresh : Params → Cache
fresh p =
    new_cache p (level_of p.b_size p.l1_size p.l1_assoc p.l1_cyc 1)
      (level_of p.b_size p.l2_size p.l2_assoc p.l2_cyc 2)

cache-fresh :
    (p : Params)
    → IsSize p.b_size p.l1_size p.l1_assoc
    → IsSize p.b_size p.l2_size p.l2_assoc
    → cache p ≡ some (fresh p)
unfolding cache
cache-fresh p v w =
    bind-some (cache_level p.l1_size p.l1_assoc p.l1_cyc p.b_size 1) _
      (cache_level-some p.b_size p.l1_size p.l1_assoc p.l1_cyc 1 v)
      (bind-some (cache_level p.l2_size p.l2_assoc p.l2_cyc p.b_size 2) _
        (cache_level-some p.b_size p.l2_size p.l2_assoc p.l2_cyc 2 w) refl)

pub fresh-IsInclusive :
    (p : Params)
    → IsSize p.b_size p.l1_size p.l1_assoc
    → IsSize p.b_size p.l2_size p.l2_assoc
    → IsInclusive p.b_size
        (sets_log p.b_size p.l1_size p.l1_assoc)
        (sets_log p.b_size p.l2_size p.l2_assoc)
        0
        (fresh p).l1
        (fresh p).l2
fresh-IsInclusive p v w = record {
  first = level_of-IsOrdered p.b_size p.l1_size p.l1_assoc p.l1_cyc 1 v;
  second = level_of-IsOrdered p.b_size p.l2_size p.l2_assoc p.l2_cyc 2 w;
  inclusive = λ s j e h valid.
      let same =
        new_entries (2 ^ p.l1_assoc) (2 ^ sub32 p.l1_size p.b_size / 2 ^ p.l1_assoc) s j e h in
      absurd (cc);
}

fresh-IsAccounted : (p : Params) → IsAccounted p.l1_cyc p.l2_cyc p.mem_cyc (fresh p)
fresh-IsAccounted p = record {
  cost1 = refl;
  cost2 = refl;
  cost3 = refl;
  second = refl;
  some_hits = omega arith;
  some_hits' = omega arith;
  time = omega arith;
}

fresh-clock : (p : Params) → (fresh p).pseudo_cycle ≡ 0
fresh-clock p = refl

fresh-count : (p : Params) → (fresh p).l1.access_count ≡ 0
fresh-count p = refl

zero_add : (n : ℕ) → 0 + n ≡ n
zero_add n = omega arith

fresh-IsSimulated :
    (p : Params) (lines : List Access)
    → IsSize p.b_size p.l1_size p.l1_assoc
    → IsSize p.b_size p.l2_size p.l2_assoc
    → AllSmall lines
    → 3 * accesses_in lines < 2 ^ 32 - 1
    → accesses_in lines * (p.l1_cyc + p.l2_cyc + p.mem_cyc) < 2 ^ 53
    → IsSimulated p.b_size
        (sets_log p.b_size p.l1_size p.l1_assoc)
        (sets_log p.b_size p.l2_size p.l2_assoc)
        p.l1_cyc
        p.l2_cyc
        p.mem_cyc
        (fresh p)
        lines
fresh-IsSimulated p lines v w small few cheap =
    run-IsSimulated p.b_size (sets_log p.b_size p.l1_size p.l1_assoc)
      (sets_log p.b_size p.l2_size p.l2_assoc) p.l1_cyc p.l2_cyc p.mem_cyc (fresh p) lines
      (subst
        (λ (n : ℕ).
          IsInclusive p.b_size (sets_log p.b_size p.l1_size p.l1_assoc)
            (sets_log p.b_size p.l2_size p.l2_assoc) n (fresh p).l1 (fresh p).l2)
        (sym (fresh-clock p)) (fresh-IsInclusive p v w))
      (fresh-IsAccounted p) small (omega (arith, few, fresh-clock p))
      (omega (arith, few, fresh-count p))
      (subst (λ n. (n + accesses_in lines) * (p.l1_cyc + p.l2_cyc + p.mem_cyc) < 2 ^ 53)
        (sym (fresh-count p)) (rw (zero_add (accesses_in lines)) cheap))

-- For levels of up to 2 ^ 31 bytes, each with room for a set, and accesses to 32-bit addresses, up
-- to about 2 ^ 32 / 3 of them and so few that their number times the cycles of L1, L2 and the
-- memory together is below 2 ^ 53, the constructor builds the cache and the loop of `main` from it
-- returns, no pointer that it reads through is unset, and at its end every block of L1 is in L2, no
-- set holds a block twice, every entry stands in the set of its address under its tag, L1 was
-- accessed once for each line that reads or writes, L2 once for each miss of L1, neither has more
-- misses than accesses, and the total time is the cycles of L1 for each access of L1, those of L2
-- for each access of L2 and those of the memory for each miss of L2.
pub run-cache-IsSimulated :
    (p : Params) (lines : List Access)
    → IsSize p.b_size p.l1_size p.l1_assoc
    → IsSize p.b_size p.l2_size p.l2_assoc
    → AllSmall lines
    → 3 * accesses_in lines < 2 ^ 32 - 1
    → accesses_in lines * (p.l1_cyc + p.l2_cyc + p.mem_cyc) < 2 ^ 53
    → (c : Cache) × (cache p ≡ some c)
      × IsSimulated p.b_size
          (sets_log p.b_size p.l1_size p.l1_assoc)
          (sets_log p.b_size p.l2_size p.l2_assoc)
          p.l1_cyc
          p.l2_cyc
          p.mem_cyc
          c
          lines
run-cache-IsSimulated p lines v w small few cheap =
    (fresh p, cache-fresh p v w, fresh-IsSimulated p lines v w small few cheap)
