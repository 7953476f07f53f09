-- ===== src/Cache/Inclusion.antt =====
-- HW2/cacheSim.cpp: the inclusion of the first level in the second, and the steps that keep it.
use computer_structures.Base.{
  ℕ, ◌%◌, ◌/◌, ◌^◌, ◌≤◌, ◌<◌, ◌≡◌, ◌≢◌, inl, inr, refl, sym, ap, ◌∙◌, true, false, some, List,
  subst,
}
use computer_structures.Cache.Level.{WayEntry, Way, CacheLevel, modify_entry, get_set}
use computer_structures.Cache.Ops.{Cache}
use computer_structures.Cache.Ways.{entry_of}
use computer_structures.Cache.Entries.{
  replaced, with_ways, new_entry, old_entry, replaced-Found, modify_entry-replaced,
}
use computer_structures.Cache.Blocks.{block, set_of, tag_of, IsShaped, get_set-set_of, same_block}
use computer_structures.Cache.Valid.{
  IsOrdered, IsOrdered-later, is_free, is_new, same-Fits, replaced-IsOrdered,
}
use computer_structures.Cache.Present.{HoldsIn, Present, Absent, Present-same, Present-other}

-- Both levels are in good order, and every block of the first is in the second.
pub record IsInclusive (b k1 k2 now : ℕ) (l1 l2 : CacheLevel) : Type 0 where
  pub first : IsOrdered b k1 now l1
  pub second : IsOrdered b k2 now l2
  pub inclusive :
      (s j : ℕ) (e : WayEntry)
      → entry_of l1.ways s j ≡ some e
      → e.valid ≡ true
      → Present b k2 l2 e.address

pub IsInclusive-later :
    (b k1 k2 now now' : ℕ) (l1 l2 : CacheLevel)
    → now ≤ now'
    → IsInclusive b k1 k2 now l1 l2
    → IsInclusive b k1 k2 now' l1 l2
IsInclusive-later b k1 k2 now now' l1 l2 h i = record {
  first = IsOrdered-later b k1 now now' l1 h i.first;
  second = IsOrdered-later b k2 now now' l2 h i.second;
  inclusive = i.inclusive;
}

-- The cache with other ways and another clock: all that a search or a fetch changes.
abbrev pub state : Cache → List Way → List Way → ℕ → Cache
state c w1 w2 n = record c { l1 = with_ways c.l1 w1; l2 = with_ways c.l2 w2; pseudo_cycle = n }

pub modify_at :
    (b k : ℕ) (l : CacheLevel) (a j : ℕ) (f : WayEntry → WayEntry) (e : WayEntry)
    → IsShaped b k l
    → entry_of l.ways (set_of b k a) j ≡ some e
    → modify_entry l j (get_set l a) f ≡ some (with_ways l (replaced l.ways j (set_of b k a) (f e)))
modify_at b k l a j f e v at =
    ap (λ (s : ℕ). modify_entry l j s f) (get_set-set_of b k l a v)
    ∙ modify_entry-replaced l j (set_of b k a) f e at

module _ (b k1 k2 now : ℕ) (l1 l2 : CacheLevel) (i : IsInclusive b k1 k2 now l1 l2) where
  -- A valid entry of the second level gets another time or becomes dirty.
  pub touch_second :
      (s j : ℕ) (v e : WayEntry)
      → entry_of l2.ways s j ≡ some e
      → e.valid ≡ true
      → v.valid ≡ e.valid
      → v.tag ≡ e.tag
      → v.address ≡ e.address
      → v.last_accessed_time ≤ now
      → IsInclusive b k1 k2 now l1 (with_ways l2 (replaced l2.ways j s v))
  touch_second s j v e at valid same tag address recent = record {
    first = i.first;
    second =
        replaced-IsOrdered b k2 now l2 i.second s j v e at recent
          (same-Fits b k2 now l2 i.second s j v e at valid address tag);
    inclusive =
        λ s' j' d h u. Present-same b k2 l2 s j d.address v e at same tag (i.inclusive s' j' d h u);
  }

  -- The same in the first level.
  pub touch_first :
      (s j : ℕ) (v e : WayEntry)
      → entry_of l1.ways s j ≡ some e
      → e.valid ≡ true
      → v.valid ≡ e.valid
      → v.tag ≡ e.tag
      → v.address ≡ e.address
      → v.last_accessed_time ≤ now
      → IsInclusive b k1 k2 now (with_ways l1 (replaced l1.ways j s v)) l2
  touch_first s j v e at valid same tag address recent = record {
    first =
        replaced-IsOrdered b k1 now l1 i.first s j v e at recent
          (same-Fits b k1 now l1 i.first s j v e at valid address tag);
    second = i.second;
    inclusive = λ s' j' d h u. elim (replaced-Found l1.ways j s v e j' s' d at h) [
      | old_entry _ h' ↦ i.inclusive s' j' d h' u
      | new_entry p q r ↦
          subst (Present b k2 l2) (sym address ∙ sym (ap (λ (x : WayEntry). x.address) r))
            (i.inclusive s j e at valid)
    ];
  }

  -- A new block of the second level comes into the first.
  pub fill_first :
      (j a : ℕ) (v e : WayEntry)
      → entry_of l1.ways (set_of b k1 a) j ≡ some e
      → a < 2 ^ 32
      → v.address ≡ a
      → v.tag ≡ tag_of b k1 a
      → v.last_accessed_time ≤ now
      → Absent b k1 l1 a
      → Present b k2 l2 a
      → IsInclusive b k1 k2 now (with_ways l1 (replaced l1.ways j (set_of b k1 a) v)) l2
  fill_first j a v e at small address tag recent absent present = record {
    first = replaced-IsOrdered b k1 now l1 i.first (set_of b k1 a) j v e at recent (
        is_new
          (record {
            small = subst (λ (x : ℕ). x < 2 ^ 32) (sym address) small;
            set = ap (set_of b k1) (sym address);
            tag = tag ∙ ap (tag_of b k1) (sym address);
          })
          (λ j' e' ne h u same. absent j' e' h u (same ∙ tag)));
    second = i.second;
    inclusive = λ s' j' d h u. elim (replaced-Found l1.ways j (set_of b k1 a) v e j' s' d at h) [
      | old_entry _ h' ↦ i.inclusive s' j' d h' u
      | new_entry p q r ↦
          subst (Present b k2 l2) (sym address ∙ sym (ap (λ (x : WayEntry). x.address) r)) present
    ];
  }

  -- A block comes into the second level, in place of one that is not in the first.
  pub fill_second :
      (j a : ℕ) (v e : WayEntry)
      → entry_of l2.ways (set_of b k2 a) j ≡ some e
      → a < 2 ^ 32
      → v.address ≡ a
      → v.tag ≡ tag_of b k2 a
      → v.last_accessed_time ≤ now
      → Absent b k2 l2 a
      → (e.valid ≡ true → Absent b k1 l1 e.address)
      → IsInclusive b k1 k2 now l1 (with_ways l2 (replaced l2.ways j (set_of b k2 a) v))
  fill_second j a v e at small address tag recent absent evicted = record {
    first = i.first;
    second = replaced-IsOrdered b k2 now l2 i.second (set_of b k2 a) j v e at recent (
        is_new
          (record {
            small = subst (λ (x : ℕ). x < 2 ^ 32) (sym address) small;
            set = ap (set_of b k2) (sym address);
            tag = tag ∙ ap (tag_of b k2) (sym address);
          })
          (λ j' e' ne h u same. absent j' e' h u (same ∙ tag)));
    inclusive = λ s' j' d h u.
        Present-other b k2 l2 (set_of b k2 a) j d.address v e at (differs s' j' d h u)
          (i.inclusive s' j' d h u);
  }
    where
      differs :
          (s' j' : ℕ) (d : WayEntry)
          → entry_of l1.ways s' j' ≡ some d
          → d.valid ≡ true
          → set_of b k2 a ≡ set_of b k2 d.address
          → e.valid ≡ true
          → e.tag ≢ tag_of b k2 d.address
      differs s' j' d h u set ev same =
          let p = i.second.placed (set_of b k2 a) j e at ev in
          let q = i.first.placed s' j' d h u in
          let blocks : block b e.address ≡ block b d.address =
            same_block b k2 e.address d.address (sym p.set ∙ set) (sym p.tag ∙ same) in
          let sets : s' ≡ set_of b k1 e.address = q.set ∙ ap (λ (x : ℕ). x % 2 ^ k1) (sym blocks) in
          let tags : d.tag ≡ tag_of b k1 e.address =
            q.tag ∙ ap (λ (x : ℕ). x / 2 ^ k1) (sym blocks) in
          evicted ev j' d (subst (λ (x : ℕ). entry_of l1.ways x j' ≡ some d) sets h) u tags

  -- The entry with a block leaves the first level.
  pub drop_first :
      (a j : ℕ) (v e : WayEntry)
      → HoldsIn b k1 l1 a j e
      → v.valid ≡ false
      → v.last_accessed_time ≤ now
      → IsInclusive b k1 k2 now (with_ways l1 (replaced l1.ways j (set_of b k1 a) v)) l2
  drop_first a j v e h free recent = record {
    first = replaced-IsOrdered b k1 now l1 i.first (set_of b k1 a) j v e h.at recent (is_free free);
    second = i.second;
    inclusive = λ s' j' d h' u.
        elim (replaced-Found l1.ways j (set_of b k1 a) v e j' s' d h.at h') [
          | old_entry _ old ↦ i.inclusive s' j' d old u
          | new_entry p q r ↦ absurd (cc)
        ];
  }

  pub drop_first-Absent :
      (a j : ℕ) (v e : WayEntry)
      → HoldsIn b k1 l1 a j e
      → v.valid ≡ false
      → Absent b k1 (with_ways l1 (replaced l1.ways j (set_of b k1 a) v)) a
  drop_first-Absent a j v e h free j' d h' u tag =
      elim (replaced-Found l1.ways j (set_of b k1 a) v e j' (set_of b k1 a) d h.at h') [
        | new_entry p q r ↦ cc
        | old_entry (inr other) old ↦ other refl
        | old_entry (inl other) old ↦
            other (i.first.unique (set_of b k1 a) j' j d e old h.at u h.valid (tag ∙ sym h.tag))
      ]
