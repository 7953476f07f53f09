-- ===== src/Cache/Invalidate.antt =====
-- HW2/cacheSim.cpp: the victim of the second level leaves the first.
use computer_structures.Base.{
  ℕ, ◌≡◌, inl, inr, refl, true, false, Option, none, some, List, bind-some, Bool-cases,
}
use computer_structures.Cache.Level.{WayEntry, Way, block_exists, modify_entry, get_set}
use computer_structures.Cache.Ops.{Cache, invalidate_l1}
use computer_structures.Cache.Ways.{entry_of}
use computer_structures.Cache.Entries.{replaced, with_ways}
use computer_structures.Cache.Blocks.{set_of}
use computer_structures.Cache.Present.{HoldsIn, Absent, there, nowhere, find, Absent-kept}
use computer_structures.Cache.Inclusion.{
  IsInclusive, state, modify_at, drop_first, drop_first-Absent,
}

module _ (b k1 k2 : ℕ) where
  module _ (c : Cache) (i : IsInclusive b k1 k2 c.pseudo_cycle c.l1 c.l2) where
    -- After the victim of the second level has left the first.
    pub record Invalidated (e : WayEntry) (r : Option Cache) : Type 0 where
      pub w1 : List Way
      pub returns : r ≡ some (state c w1 c.l2.ways c.pseudo_cycle)
      pub inv : IsInclusive b k1 k2 c.pseudo_cycle (with_ways c.l1 w1) c.l2
      pub kept : (a : ℕ) → Absent b k1 c.l1 a → Absent b k1 (with_ways c.l1 w1) a
      pub gone : e.valid ≡ true → Absent b k1 (with_ways c.l1 w1) e.address

    invalidate_unused : (e : WayEntry) → e.valid ≡ false → invalidate_l1 c e ≡ some c
    unfolding invalidate_l1
    invalidate_unused e h = rw h

    invalidate_none :
        (e : WayEntry)
        → e.valid ≡ true
        → block_exists c.l1 e.address ≡ some none
        → invalidate_l1 c e ≡ some c
    unfolding invalidate_l1
    invalidate_none e h eq = rw h (bind-some (block_exists c.l1 e.address) _ eq refl)

    invalidate_some :
        (e d : WayEntry) (j : ℕ)
        → e.valid ≡ true
        → block_exists c.l1 e.address ≡ some (some j)
        → HoldsIn b k1 c.l1 e.address j d
        → invalidate_l1 c e
          ≡ some (
              state c
                (replaced c.l1.ways j (set_of b k1 e.address) (record d { valid = false }))
                c.l2.ways
                c.pseudo_cycle)
    unfolding invalidate_l1
    invalidate_some e d j h eq held = rw h (
        bind-some (block_exists c.l1 e.address) _ eq (
          bind-some (modify_entry c.l1 j (get_set c.l1 e.address) (λ x. record x { valid = false }))
            _
            (modify_at b k1 c.l1 e.address j (λ x. record x { valid = false }) d i.first.shape
              held.at)
            refl))

    pub invalidate_l1-Invalidated :
        (s j : ℕ) (e : WayEntry)
        → entry_of c.l2.ways s j ≡ some e
        → Invalidated e (invalidate_l1 c e)
    invalidate_l1-Invalidated s j e at = elim (Bool-cases e.valid) [
      | inr unused ↦ record {
        w1 = c.l1.ways;
        returns = invalidate_unused e unused;
        inv = i;
        kept = λ a p. p;
        gone = λ h. absurd (cc);
      }
      | inl valid ↦
          let small = (i.second.placed s j e at valid).small in
          elim (find b k1 c.pseudo_cycle c.l1 i.first e.address small) [
            | nowhere absent eq ↦ record {
              w1 = c.l1.ways;
              returns = invalidate_none e valid eq;
              inv = i;
              kept = λ a p. p;
              gone = λ h. absent;
            }
            | there j' d held eq ↦
                let v = record d { valid = false } in
                record {
                  w1 = replaced c.l1.ways j' (set_of b k1 e.address) v;
                  returns = invalidate_some e d j' valid eq held;
                  inv =
                      drop_first b k1 k2 c.pseudo_cycle c.l1 c.l2 i e.address j' v d held refl
                        (i.first.times (set_of b k1 e.address) j' d held.at);
                  kept = λ a p.
                      Absent-kept b k1 c.l1 (set_of b k1 e.address) j' a v d held.at
                        (λ h. absurd (cc)) p;
                  gone = λ h.
                      drop_first-Absent b k1 k2 c.pseudo_cycle c.l1 c.l2 i e.address j' v d held
                        refl;
                }
          ]
    ]
