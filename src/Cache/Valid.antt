-- ===== src/Cache/Valid.antt =====
-- HW2/cacheSim.cpp: what holds of a level at all times, and that it survives the change of an entry.
use computer_structures.Base.{
  ℕ, ◌^◌, ◌≤◌, ◌<◌, ◌≡◌, ◌≢◌, ◌⊎◌, inl, inr, sym, ap, ◌∙◌, arith, true, false, some, length, subst,
}
use computer_structures.Cache.Level.{WayEntry, CacheLevel}
use computer_structures.Cache.Ways.{entry_of}
use computer_structures.Cache.Entries.{
  replaced, with_ways, length-replaced, HasSets, replaced-HasSets, Found, new_entry, old_entry,
  replaced-Found,
}
use computer_structures.Cache.Blocks.{set_of, tag_of, IsShaped}

-- An entry of a set holds the block of its address.
pub record IsPlaced (b k s : ℕ) (e : WayEntry) : Type 0 where
  pub small : e.address < 2 ^ 32
  pub set : s ≡ set_of b k e.address
  pub tag : e.tag ≡ tag_of b k e.address

-- A level in good order: its sizes fit, no entry is newer than `now`, valid entries stand in the set of
-- their address under its tag, and no block stands in two ways of a set.
pub record IsOrdered (b k now : ℕ) (l : CacheLevel) : Type 0 where
  pub shape : IsShaped b k l
  pub some_way : 0 < length l.ways
  pub sets : HasSets l.ways (2 ^ k)
  pub times : (s j : ℕ) (e : WayEntry) → entry_of l.ways s j ≡ some e → e.last_accessed_time ≤ now
  pub placed :
      (s j : ℕ) (e : WayEntry) → entry_of l.ways s j ≡ some e → e.valid ≡ true → IsPlaced b k s e
  pub unique :
      (s j j' : ℕ) (e e' : WayEntry)
      → entry_of l.ways s j ≡ some e
      → entry_of l.ways s j' ≡ some e'
      → e.valid ≡ true
      → e'.valid ≡ true
      → e.tag ≡ e'.tag
      → j ≡ j'

pub IsOrdered-later :
    (b k now now' : ℕ) (l : CacheLevel) → now ≤ now' → IsOrdered b k now l → IsOrdered b k now' l
IsOrdered-later b k now now' l h v = record {
  shape = v.shape;
  some_way = v.some_way;
  sets = v.sets;
  times = λ s j e at. omega (arith, v.times s j e at);
  placed = v.placed;
  unique = v.unique;
}

-- What a new entry must satisfy in way `j` of set `s`: it is not valid, or it holds the block of its
-- address and no other way of the set holds that block.
pub data Fits (b k : ℕ) (l : CacheLevel) (s j : ℕ) (v : WayEntry) : Type 0 where
  is_free : v.valid ≡ false → Fits b k l s j v
  is_new :
      IsPlaced b k s v
      → ((j' : ℕ) (e' : WayEntry)
          → j' ≢ j
          → entry_of l.ways s j' ≡ some e'
          → e'.valid ≡ true
          → e'.tag ≢ v.tag)
      → Fits b k l s j v

Fits-IsPlaced :
    {b k : ℕ} {l : CacheLevel} {s j : ℕ} {v : WayEntry}
    → Fits b k l s j v
    → v.valid ≡ true
    → IsPlaced b k s v
Fits-IsPlaced (is_free f) h = absurd (cc)
Fits-IsPlaced (is_new p others) h = p

Fits-others :
    {b k : ℕ} {l : CacheLevel} {s j : ℕ} {v : WayEntry} (j' : ℕ) (e' : WayEntry)
    → Fits b k l s j v
    → v.valid ≡ true
    → j' ≢ j
    → entry_of l.ways s j' ≡ some e'
    → e'.valid ≡ true
    → e'.tag ≢ v.tag
Fits-others j' e' (is_free f) h = absurd (cc)
Fits-others j' e' (is_new p others) h = others j' e'

module _ (b k now : ℕ) (l : CacheLevel) (o : IsOrdered b k now l) (s j : ℕ) (v e : WayEntry)
    (at : entry_of l.ways s j ≡ some e) where
  -- A valid entry in its set may get another time and become dirty.
  pub same-Fits : e.valid ≡ true → v.address ≡ e.address → v.tag ≡ e.tag → Fits b k l s j v
  same-Fits valid address tag =
      let p = o.placed s j e at valid in
      is_new
        (record {
          small = subst (λ (a : ℕ). a < 2 ^ 32) (sym address) p.small;
          set = p.set ∙ ap (set_of b k) (sym address);
          tag = tag ∙ (p.tag ∙ ap (tag_of b k) (sym address));
        })
        (λ j' e' ne at' valid' same. ne (o.unique s j' j e' e at' at valid' valid (same ∙ tag)))

  pub replaced-IsOrdered :
      v.last_accessed_time ≤ now
      → Fits b k l s j v
      → IsOrdered b k now (with_ways l (replaced l.ways j s v))
  replaced-IsOrdered recent fits = record {
    shape = record {
      few = o.shape.few;
      block_size = o.shape.block_size;
      sets = o.shape.sets;
      tag = o.shape.tag;
    };
    some_way = omega (arith, o.some_way, length-replaced l.ways j s v);
    sets = replaced-HasSets l.ways j s (2 ^ k) v o.sets;
    times = λ s' j' e' h. times_of (replaced-Found l.ways j s v e j' s' e' at h);
    placed = λ s' j' e' h. placed_of (replaced-Found l.ways j s v e j' s' e' at h);
    unique = λ s' i i' d d' h h'.
        unique_of (replaced-Found l.ways j s v e i s' d at h)
          (replaced-Found l.ways j s v e i' s' d' at h');
  }
    where
      times_of :
          {s' j' : ℕ} {e' : WayEntry} → Found l.ways j s v j' s' e' → e'.last_accessed_time ≤ now
      times_of (new_entry p q r) =
          subst (λ (x : WayEntry). x.last_accessed_time ≤ now) (sym r) recent
      times_of {s'} {j'} {e'} (old_entry p h) = o.times s' j' e' h

      placed_of :
          {s' j' : ℕ} {e' : WayEntry}
          → Found l.ways j s v j' s' e'
          → e'.valid ≡ true
          → IsPlaced b k s' e'
      placed_of {s'} {j'} {e'} (new_entry p q r) valid =
          let here = Fits-IsPlaced fits (sym (ap (λ (x : WayEntry). x.valid) r) ∙ valid) in
          subst (λ (x : WayEntry). IsPlaced b k s' x) (sym r)
            (subst (λ (x : ℕ). IsPlaced b k x v) (sym q) here)
      placed_of {s'} {j'} {e'} (old_entry p h) valid = o.placed s' j' e' h valid

      clash :
          {s' i i' : ℕ} {d d' : WayEntry}
          → i ≡ j
          → s' ≡ s
          → d ≡ v
          → (i' ≢ j) ⊎ (s' ≢ s)
          → entry_of l.ways s' i' ≡ some d'
          → d.valid ≡ true
          → d'.valid ≡ true
          → d'.tag ≢ d.tag
      clash p q r (inr other) h valid valid' tags = other q
      clash {s'} {i} {i'} {d} {d'} p q r (inl other) h valid valid' tags =
          Fits-others i' d' fits (sym (ap (λ (x : WayEntry). x.valid) r) ∙ valid) other
            (subst (λ (x : ℕ). entry_of l.ways x i' ≡ some d') q h) valid'
            (tags ∙ ap (λ (x : WayEntry). x.tag) r)

      unique_of :
          {s' i i' : ℕ} {d d' : WayEntry}
          → Found l.ways j s v i s' d
          → Found l.ways j s v i' s' d'
          → d.valid ≡ true
          → d'.valid ≡ true
          → d.tag ≡ d'.tag
          → i ≡ i'
      unique_of (new_entry p q r) (new_entry p' q' r') valid valid' tags = p ∙ sym p'
      unique_of (new_entry p q r) (old_entry w h) valid valid' tags =
          absurd (clash p q r w h valid valid' (sym tags))
      unique_of (old_entry w h) (new_entry p q r) valid valid' tags =
          absurd (clash p q r w h valid' valid tags)
      unique_of {s'} {i} {i'} {d} {d'} (old_entry w h) (old_entry w' h') valid valid' tags =
          o.unique s' i i' d d' h h' valid valid' tags
