-- ===== src/Cache/Present.antt =====
-- HW2/cacheSim.cpp: the two searches in a level in good order.
use native.Mathlib.Nat.{mod-lt, mod-eq_of_lt}
use computer_structures.Base.{
  ℕ, zero, suc, ◌-◌, ◌^◌, ◌<◌, ◌≡◌, ◌≢◌, inl, inr, sym, ap, ◌∙◌, arith, true, false, Option, none,
  some, List, [], ◌∷◌, ◌&&◌, ◌==◌, length, subst, eq_cases, u32, pow-pos,
}
use computer_structures.Cache.Level.{
  WayEntry, Way, CacheLevel, block_exists, get_entry_for_new_block, get_set, get_tag,
}
use computer_structures.Cache.Ways.{entry_of, IsSized}
use computer_structures.Cache.Entries.{
  replaced, with_ways, HasSets, new_entry, old_entry, replaced-Found, entry_of-replaced_self,
  entry_of-replaced_way, entry_of-replaced_set,
}
use computer_structures.Cache.Blocks.{block, set_of, tag_of, get_set-set_of, get_tag-tag_of}
use computer_structures.Cache.Valid.{IsOrdered}
use computer_structures.Cache.Search.{
  hit_in, no_hit, block_exists-BlockSearch, unused, least_recent,
  get_entry_for_new_block-VictimSearch,
}

-- Way `j` of the set of an address holds its block.
pub record HoldsIn (b k : ℕ) (l : CacheLevel) (a j : ℕ) (e : WayEntry) : Type 0 where
  pub at : entry_of l.ways (set_of b k a) j ≡ some e
  pub valid : e.valid ≡ true
  pub tag : e.tag ≡ tag_of b k a

abbrev pub Present : ℕ → ℕ → CacheLevel → ℕ → Type 0
Present b k l a = (j : ℕ) × (e : WayEntry) × HoldsIn b k l a j e

abbrev pub Absent : ℕ → ℕ → CacheLevel → ℕ → Type 0
Absent b k l a =
    (j : ℕ) (e : WayEntry)
    → entry_of l.ways (set_of b k a) j ≡ some e
    → e.valid ≡ true
    → e.tag ≢ tag_of b k a

pub data Find (b k : ℕ) (l : CacheLevel) (a : ℕ) : Type 0 where
  there :
      (j : ℕ) (e : WayEntry) → HoldsIn b k l a j e → block_exists l a ≡ some (some j) → Find b k l a
  nowhere : Absent b k l a → block_exists l a ≡ some none → Find b k l a

entry_of-lt :
    (ways : List Way) (s j : ℕ) (e : WayEntry) → entry_of ways s j ≡ some e → j < length ways
entry_of-lt [] s j e h = absurd (cc)
entry_of-lt (w ∷ ways) s zero e h = omega arith
entry_of-lt (w ∷ ways) s (suc j) e h = omega (arith, entry_of-lt ways s j e h)

HasSets-IsSized : (ways : List Way) (n s : ℕ) → HasSets ways n → s < n → IsSized ways s
HasSets-IsSized ways n s h less j w e = omega (arith, h j w e)

some_eq : {A : Type 0} {x y : A} {o : Option A} → o ≡ some x → o ≡ some y → x ≡ y
some_eq p q = cc

module _ (b k now : ℕ) (l : CacheLevel) (o : IsOrdered b k now l) (a : ℕ) (small : a < 2 ^ 32) where
  set-lt : set_of b k a < 2 ^ k
  set-lt = mod-lt (block b a) (pow-pos k)

  sized : IsSized l.ways (get_set l a)
  sized =
      HasSets-IsSized l.ways (2 ^ k) (get_set l a) o.sets
        (omega (arith, set-lt, get_set-set_of b k l a o.shape))

  at_set :
      (j : ℕ) (e : WayEntry)
      → entry_of l.ways (get_set l a) j ≡ some e
      → entry_of l.ways (set_of b k a) j ≡ some e
  at_set j e h = subst (λ (s : ℕ). entry_of l.ways s j ≡ some e) (get_set-set_of b k l a o.shape) h

  from_set :
      (j : ℕ) (e : WayEntry)
      → entry_of l.ways (set_of b k a) j ≡ some e
      → entry_of l.ways (get_set l a) j ≡ some e
  from_set j e h =
      subst (λ (s : ℕ). entry_of l.ways s j ≡ some e) (sym (get_set-set_of b k l a o.shape)) h

  found_parts :
      (e : WayEntry) (t : ℕ) → (e.valid && e.tag == t) ≡ true → (e.valid ≡ true) × (e.tag ≡ t)
  found_parts e t h = (ground arith, ground arith)

  not_found : (e : WayEntry) (t : ℕ) → (e.valid && e.tag == t) ≡ false → e.valid ≡ true → e.tag ≢ t
  not_found e t h valid = ground arith

  pub find : Find b k l a
  find = elim (block_exists-BlockSearch l a sized) [
    | hit_in j below others (e, at, hit) eq ↦
        let (valid, tag) = found_parts e (get_tag l a) hit in
        there j e
          (record {
            at = at_set j e at;
            valid = valid;
            tag = tag ∙ get_tag-tag_of b k l a o.shape small;
          })
          eq
    | no_hit others eq ↦
        nowhere
          (λ j e at valid tag.
            let (e', at', miss) = others j (entry_of-lt l.ways (set_of b k a) j e at) in
            let same = some_eq (from_set j e at) at' in
            not_found e' (get_tag l a) miss (sym (ap (λ (x : WayEntry). x.valid) same) ∙ valid) (
              sym (ap (λ (x : WayEntry). x.tag) same)
              ∙ (tag ∙ sym (get_tag-tag_of b k l a o.shape small))))
          eq
  ]

  -- The search for a victim returns a way of the set.
  pub victim :
      now < 2 ^ 32 - 1
      → (j : ℕ) × (e : WayEntry) × (get_entry_for_new_block l a ≡ some j)
        × (entry_of l.ways (set_of b k a) j ≡ some e)
  victim early =
      let cut : u32 a ≡ a = mod-eq_of_lt small in
      let back = λ (j : ℕ) (e : WayEntry) (h : entry_of l.ways (get_set l (u32 a)) j ≡ some e).
        at_set j e (subst (λ (x : ℕ). entry_of l.ways (get_set l x) j ≡ some e) cut h) in
      elim (get_entry_for_new_block-VictimSearch l a o.some_way
        (subst (λ (x : ℕ). IsSized l.ways (get_set l x)) (sym cut) sized)
        (λ j e h. omega (arith, o.times (get_set l (u32 a)) j e h))) [
          | unused j _ _ (e, at, _) eq ↦ (j, e, eq, back j e at)
          | least_recent j _ _ (e, at, _, _) _ _ eq ↦ (j, e, eq, back j e at)
        ]

-- A block that is not the one in the changed entry stays present.
pub Present-other :
    (b k : ℕ) (l : CacheLevel) (s j a : ℕ) (v e : WayEntry)
    → entry_of l.ways s j ≡ some e
    → (s ≡ set_of b k a → e.valid ≡ true → e.tag ≢ tag_of b k a)
    → Present b k l a
    → Present b k (with_ways l (replaced l.ways j s v)) a
Present-other b k l s j a v e at differs (i, d, h) =
    (i, d, record { at = kept; valid = h.valid; tag = h.tag })
  where
    kept : entry_of (replaced l.ways j s v) (set_of b k a) i ≡ some d
    kept = elim (eq_cases j i) [
      | inr way ↦ entry_of-replaced_way l.ways j s i (set_of b k a) v way ∙ h.at
      | inl same ↦ elim (eq_cases s (set_of b k a)) [
        | inr other ↦ entry_of-replaced_set l.ways j s i (set_of b k a) v other ∙ h.at
        | inl same' ↦
            let there' : entry_of l.ways s j ≡ some d =
              subst (λ (x : ℕ). entry_of l.ways s x ≡ some d) (sym same)
                (subst (λ (x : ℕ). entry_of l.ways x i ≡ some d) (sym same') h.at) in
            let eq = some_eq at there' in
            absurd (
              differs same' (ap (λ (x : WayEntry). x.valid) eq ∙ h.valid)
                (ap (λ (x : WayEntry). x.tag) eq ∙ h.tag))
      ]
    ]

-- The block of a valid new entry is present.
pub Present-new :
    (b k : ℕ) (l : CacheLevel) (s j a : ℕ) (v e : WayEntry)
    → entry_of l.ways s j ≡ some e
    → s ≡ set_of b k a
    → v.valid ≡ true
    → v.tag ≡ tag_of b k a
    → HoldsIn b k (with_ways l (replaced l.ways j s v)) a j v
Present-new b k l s j a v e at set valid tag = record {
  at =
      subst (λ (x : ℕ). entry_of (replaced l.ways j s v) x j ≡ some v) set
        (entry_of-replaced_self l.ways j s v e at);
  valid = valid;
  tag = tag;
}

-- A change that keeps the block of its entry keeps every block present.
pub Present-same :
    (b k : ℕ) (l : CacheLevel) (s j a : ℕ) (v e : WayEntry)
    → entry_of l.ways s j ≡ some e
    → v.valid ≡ e.valid
    → v.tag ≡ e.tag
    → Present b k l a
    → Present b k (with_ways l (replaced l.ways j s v)) a
Present-same b k l s j a v e at valid tag (i, d, h) = elim (eq_cases j i) [
  | inr way ↦ (
    i,
    d,
    record {
      at = entry_of-replaced_way l.ways j s i (set_of b k a) v way ∙ h.at;
      valid = h.valid;
      tag = h.tag;
    },
  )
  | inl same ↦ elim (eq_cases s (set_of b k a)) [
    | inr other ↦ (
      i,
      d,
      record {
        at = entry_of-replaced_set l.ways j s i (set_of b k a) v other ∙ h.at;
        valid = h.valid;
        tag = h.tag;
      },
    )
    | inl same' ↦
        let there' : entry_of l.ways s j ≡ some d =
          subst (λ (x : ℕ). entry_of l.ways s x ≡ some d) (sym same)
            (subst (λ (x : ℕ). entry_of l.ways x i ≡ some d) (sym same') h.at) in
        let eq = some_eq at there' in
        (
          j,
          v,
          Present-new b k l s j a v e at same'
              (valid ∙ (ap (λ (x : WayEntry). x.valid) eq ∙ h.valid))
              (tag ∙ (ap (λ (x : WayEntry). x.tag) eq ∙ h.tag)),
        )
  ]
]

-- No block becomes present by a change that makes an entry invalid, or keeps its block.
pub Absent-kept :
    (b k : ℕ) (l : CacheLevel) (s j a : ℕ) (v e : WayEntry)
    → entry_of l.ways s j ≡ some e
    → (v.valid ≡ true → (e.valid ≡ true) × (v.tag ≡ e.tag))
    → Absent b k l a
    → Absent b k (with_ways l (replaced l.ways j s v)) a
Absent-kept b k l s j a v e at was none_there i d h valid tag =
    elim (replaced-Found l.ways j s v e i (set_of b k a) d at h) [
      | old_entry _ h' ↦ none_there i d h' valid tag
      | new_entry p q r ↦
          let (valid', tag') = was (sym (ap (λ (x : WayEntry). x.valid) r) ∙ valid) in
          none_there j e (subst (λ (x : ℕ). entry_of l.ways x j ≡ some e) (sym q) at) valid'
            (sym tag' ∙ (sym (ap (λ (x : WayEntry). x.tag) r) ∙ tag))
    ]
