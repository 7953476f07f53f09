-- ===== src/Cache/Fetch.antt =====
-- HW2/cacheSim.cpp: `fetchToL1` and `fetchBlockFromMemory` return, and keep the levels inclusive.
use native.Mathlib.Nat.{mod-eq_of_lt}
use computer_structures.Base.{
  ℕ, suc, ◌+◌, ◌-◌, ◌^◌, ◌≤◌, ◌<◌, ◌≡◌, inl, inr, refl, sym, ap, ◌∙◌, arith, true, false, Option,
  none, some, List, subst, u32, bind-some, Bool-cases,
}
use computer_structures.Cache.Level.{
  WayEntry, Way, CacheLevel, block_exists, get_entry_for_new_block, modify_entry, entry_at, get_set,
  get_tag,
}
use computer_structures.Cache.Ops.{Cache, filled, tick, write_back, retire_victim, fetch_to_l1}
use computer_structures.Cache.Ways.{entry_of}
use computer_structures.Cache.Entries.{
  replaced, with_ways, entry_at-entry_of, modify_entry-replaced,
}
use computer_structures.Cache.Blocks.{set_of, IsShaped, get_set-set_of, get_tag-tag_of}
use computer_structures.Cache.Present.{
  HoldsIn, Present, Absent, there, nowhere, find, victim, Present-same, Present-new,
}
use computer_structures.Cache.Inclusion.{
  IsInclusive, IsInclusive-later, state, modify_at, touch_second, fill_first,
}

tick-later : (n : ℕ) → n + 1 < 2 ^ 32 → n ≤ u32 (n + 1)
tick-later n h = omega arith

tick-clock : (n m : ℕ) → n ≤ m → u32 (n + 1) ≤ suc m
tick-clock n m h = omega arith

module _ (b k1 k2 : ℕ) where
  -- After a step that changes the second level and the clock alone.
  pub record Retired (c : Cache) (r : Option Cache) : Type 0 where
    pub w2 : List Way
    pub n : ℕ
    pub returns : r ≡ some (state c c.l1.ways w2 n)
    pub inv : IsInclusive b k1 k2 n c.l1 (with_ways c.l2 w2)
    pub kept : (a : ℕ) → Present b k2 c.l2 a → Present b k2 (with_ways c.l2 w2) a
    pub later : c.pseudo_cycle ≤ n
    pub clock : n ≤ suc c.pseudo_cycle

  -- After a fetch of the block of an address to a way of the first level.
  pub record Fetched (c : Cache) (a ticks : ℕ) (r : Option (ℕ × Cache)) : Type 0 where
    pub way : ℕ
    pub entry : WayEntry
    pub w1 : List Way
    pub w2 : List Way
    pub n : ℕ
    pub returns : r ≡ some (way, state c w1 w2 n)
    pub inv : IsInclusive b k1 k2 n (with_ways c.l1 w1) (with_ways c.l2 w2)
    pub holds : HoldsIn b k1 (with_ways c.l1 w1) a way entry
    pub later : c.pseudo_cycle ≤ n
    pub clock : n ≤ ticks + c.pseudo_cycle

  module _ (c : Cache) (i : IsInclusive b k1 k2 c.pseudo_cycle c.l1 c.l2) where
    write_back-Retired :
        (a : ℕ)
        → a < 2 ^ 32
        → c.pseudo_cycle + 1 < 2 ^ 32
        → Present b k2 c.l2 a
        → Retired c (write_back c a)
    unfolding write_back
    write_back-Retired a small early (j0, e0, h0) =
        elim (find b k2 c.pseudo_cycle c.l2 i.second a small) [
          | nowhere absent eq ↦ absurd (absent j0 e0 h0.at h0.valid h0.tag)
          | there j e h eq ↦
              let v = record e { dirty = true; last_accessed_time = c.pseudo_cycle } in
              record {
                w2 = replaced c.l2.ways j (set_of b k2 a) v;
                n = u32 (c.pseudo_cycle + 1);
                returns = bind-some (block_exists c.l2 a) _ eq (
                    bind-some
                      (modify_entry c.l2 j (get_set c.l2 a)
                        (λ x. record x { dirty = true; last_accessed_time = c.pseudo_cycle }))
                      _
                      (modify_at b k2 c.l2 a j
                        (λ x. record x { dirty = true; last_accessed_time = c.pseudo_cycle }) e
                        i.second.shape h.at)
                      refl);
                inv =
                    IsInclusive-later b k1 k2 c.pseudo_cycle (u32 (c.pseudo_cycle + 1)) c.l1
                      (with_ways c.l2 (replaced c.l2.ways j (set_of b k2 a) v))
                      (tick-later c.pseudo_cycle early)
                      (touch_second b k1 k2 c.pseudo_cycle c.l1 c.l2 i (set_of b k2 a) j v e h.at
                        h.valid refl refl refl (omega arith));
                kept = λ x p. Present-same b k2 c.l2 (set_of b k2 a) j x v e h.at refl refl p;
                later = tick-later c.pseudo_cycle early;
                clock = tick-clock c.pseudo_cycle c.pseudo_cycle (omega arith);
              }
        ]

    stays : Retired c (some c)
    stays = record {
      w2 = c.l2.ways;
      n = c.pseudo_cycle;
      returns = refl;
      inv = i;
      kept = λ a p. p;
      later = omega arith;
      clock = omega arith;
    }

    block_exists-returns :
        (a : ℕ) → a < 2 ^ 32 → (found : Option ℕ) × (block_exists c.l2 a ≡ some found)
    block_exists-returns a small = elim (find b k2 c.pseudo_cycle c.l2 i.second a small) [
      | nowhere absent eq ↦ (none, eq)
      | there j e h eq ↦ (some j, eq)
    ]

    retire_victim-Retired :
        (s j : ℕ) (e : WayEntry)
        → c.pseudo_cycle + 1 < 2 ^ 32
        → entry_of c.l1.ways s j ≡ some e
        → Retired c (retire_victim c e)
    unfolding retire_victim
    retire_victim-Retired s j e early at = elim (Bool-cases e.valid) [
      | inr unused ↦ subst (Retired c) (sym (retire_unused e unused)) stays
      | inl valid ↦
          let p = i.first.placed s j e at valid in
          let (found, eq) = block_exists-returns e.address p.small in
          elim (Bool-cases e.dirty) [
            | inr clean ↦ subst (Retired c) (sym (retire_clean e found valid eq clean)) stays
            | inl dirty ↦
                subst (Retired c) (sym (retire_dirty e found valid eq dirty))
                  (write_back-Retired e.address p.small early (i.inclusive s j e at valid))
          ]
    ]
      where
        retire_unused : (e : WayEntry) → e.valid ≡ false → retire_victim c e ≡ some c
        retire_unused e h = rw h

        retire_clean :
            (e : WayEntry) (found : Option ℕ)
            → e.valid ≡ true
            → block_exists c.l2 e.address ≡ some found
            → e.dirty ≡ false
            → retire_victim c e ≡ some c
        retire_clean e found h eq clean =
            rw h (bind-some (block_exists c.l2 e.address) _ eq (rw clean))

        retire_dirty :
            (e : WayEntry) (found : Option ℕ)
            → e.valid ≡ true
            → block_exists c.l2 e.address ≡ some found
            → e.dirty ≡ true
            → retire_victim c e ≡ write_back c e.address
        retire_dirty e found h eq dirty =
            rw h (bind-some (block_exists c.l2 e.address) _ eq (rw dirty))

    pub set_of-u32 :
        (k : ℕ) (l : CacheLevel) (a : ℕ)
        → a < 2 ^ 32
        → IsShaped b k l
        → get_set l (u32 a) ≡ set_of b k a
    set_of-u32 k l a small v = ap (get_set l) (mod-eq_of_lt small) ∙ get_set-set_of b k l a v

    pub entry_at-u32 :
        (k : ℕ) (l : CacheLevel) (a j : ℕ) (e : WayEntry)
        → a < 2 ^ 32
        → IsShaped b k l
        → entry_of l.ways (set_of b k a) j ≡ some e
        → entry_at l j (get_set l (u32 a)) ≡ some e
    entry_at-u32 k l a j e small v at =
        ap (entry_at l j) (set_of-u32 k l a small v) ∙ (entry_at-entry_of l j (set_of b k a) ∙ at)

    -- What is written over the victim.
    abbrev pub new_entry : CacheLevel → ℕ → ℕ → WayEntry
    new_entry l a now = record {
      valid = true;
      dirty = false;
      tag = get_tag l a;
      last_accessed_time = now;
      address = a;
    }

    pub modify-u32 :
        (k : ℕ) (l : CacheLevel) (a j now : ℕ) (e : WayEntry)
        → a < 2 ^ 32
        → IsShaped b k l
        → entry_of l.ways (set_of b k a) j ≡ some e
        → modify_entry l j (get_set l (u32 a)) (filled l a now)
          ≡ some (with_ways l (replaced l.ways j (set_of b k a) (new_entry l a now)))
    modify-u32 k l a j now e small v at =
        ap (λ (s : ℕ). modify_entry l j s (filled l a now)) (set_of-u32 k l a small v)
        ∙ modify_entry-replaced l j (set_of b k a) (filled l a now) e at

    fetch_to_l1-chain :
        (a j : ℕ) (e : WayEntry) (c' : Cache) (l : CacheLevel)
        → get_entry_for_new_block c.l1 a ≡ some j
        → entry_at c.l1 j (get_set c.l1 (u32 a)) ≡ some e
        → retire_victim c e ≡ some c'
        → modify_entry c'.l1 j (get_set c.l1 (u32 a)) (filled c'.l1 a c'.pseudo_cycle) ≡ some l
        → fetch_to_l1 c a ≡ some (j, tick (record c' { l1 = l }))
    unfolding fetch_to_l1
    fetch_to_l1-chain a j e c' l p q r s = bind-some (get_entry_for_new_block c.l1 a) _ p (
        bind-some (entry_at c.l1 j (get_set c.l1 (u32 a))) _ q (
          bind-some (retire_victim c e) _ r (
            bind-some (modify_entry c'.l1 j (get_set c.l1 (u32 a)) (filled c'.l1 a c'.pseudo_cycle))
              _ s refl)))

    pub fetch_to_l1-Fetched :
        (a : ℕ)
        → a < 2 ^ 32
        → c.pseudo_cycle + 2 < 2 ^ 32 - 1
        → Absent b k1 c.l1 a
        → Present b k2 c.l2 a
        → Fetched c a 2 (fetch_to_l1 c a)
    fetch_to_l1-Fetched a small early absent present =
        let (j, e, chosen, at) = victim b k1 c.pseudo_cycle c.l1 i.first a small (omega arith) in
        let r = retire_victim-Retired (set_of b k1 a) j e (omega arith) at in
        let v = new_entry c.l1 a r.n in
        let tag = get_tag-tag_of b k1 c.l1 a i.first.shape small in
        let w1 = replaced c.l1.ways j (set_of b k1 a) v in
        let soon : r.n + 1 < 2 ^ 32 = omega (arith, r.clock) in
        record {
          way = j;
          entry = v;
          w1 = w1;
          w2 = r.w2;
          n = u32 (r.n + 1);
          returns =
              fetch_to_l1-chain a j e (state c c.l1.ways r.w2 r.n) (with_ways c.l1 w1) chosen
                (entry_at-u32 k1 c.l1 a j e small i.first.shape at) r.returns
                (modify-u32 k1 c.l1 a j r.n e small i.first.shape at);
          inv =
              IsInclusive-later b k1 k2 r.n (u32 (r.n + 1)) (with_ways c.l1 w1)
                (with_ways c.l2 r.w2) (tick-later r.n soon)
                (fill_first b k1 k2 r.n c.l1 (with_ways c.l2 r.w2) r.inv j a v e at small refl tag
                  (omega arith) absent (r.kept a present));
          holds = Present-new b k1 c.l1 (set_of b k1 a) j a v e at refl refl tag;
          later = omega (arith, r.later, tick-later r.n soon);
          clock = omega (arith, r.clock, tick-clock r.n (suc c.pseudo_cycle) r.clock);
        }
