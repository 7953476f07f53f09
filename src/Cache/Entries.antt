-- ===== src/Cache/Entries.antt =====
-- HW2/cacheSim.cpp: what a change of one entry does to the entries of the ways.
use computer_structures.Base.{
  ℕ, zero, suc, ◌<◌, ◌≡◌, ◌≢◌, ◌⊎◌, inl, inr, refl, sym, ap, ◌∙◌, arith, Option, some, List, [],
  ◌∷◌, length, get_elem?, set, length-set, get_elem?-set_self, get_elem?-set_ne, get_elem?_lem,
  lt_of_get_elem?, write, write-set, bind-some, eq_cases, Option-cases, subst,
}
use computer_structures.Cache.Level.{WayEntry, Way, CacheLevel, entry_at, modify_entry}
use computer_structures.Cache.Ways.{entry_of}

-- The ways with another entry in set `s` of way `j`.
abbrev pub replaced : List Way → ℕ → ℕ → WayEntry → List Way
replaced [] j s v = []
replaced (w ∷ ways) zero s v = record w { entries = set w.entries s v } ∷ ways
replaced (w ∷ ways) (suc j) s v = w ∷ replaced ways j s v

abbrev pub with_ways : CacheLevel → List Way → CacheLevel
with_ways l ways = record l { ways = ways }

pub length-replaced :
    (ways : List Way) (j s : ℕ) (v : WayEntry) → length (replaced ways j s v) ≡ length ways
length-replaced [] j s v = refl
length-replaced (w ∷ ways) zero s v = refl
length-replaced (w ∷ ways) (suc j) s v = ap suc (length-replaced ways j s v)

entry_of-in_range :
    (w : Way) (s : ℕ) (e : WayEntry) → get_elem? w.entries s ≡ some e → s < length w.entries
entry_of-in_range w s e h = lt_of_get_elem? w.entries s h

pub entry_of-replaced_self :
    (ways : List Way) (j s : ℕ) (v e : WayEntry)
    → entry_of ways s j ≡ some e
    → entry_of (replaced ways j s v) s j ≡ some v
entry_of-replaced_self [] j s v e h = absurd (cc)
entry_of-replaced_self (w ∷ ways) zero s v e h =
    get_elem?-set_self w.entries s v (lt_of_get_elem? w.entries s h)
entry_of-replaced_self (w ∷ ways) (suc j) s v e h = entry_of-replaced_self ways j s v e h

pub entry_of-replaced_way :
    (ways : List Way) (j s j' s' : ℕ) (v : WayEntry)
    → j ≢ j'
    → entry_of (replaced ways j s v) s' j' ≡ entry_of ways s' j'
entry_of-replaced_way [] j s j' s' v ne = refl
entry_of-replaced_way (w ∷ ways) zero s zero s' v ne = absurd (ne refl)
entry_of-replaced_way (w ∷ ways) zero s (suc j') s' v ne = refl
entry_of-replaced_way (w ∷ ways) (suc j) s zero s' v ne = refl
entry_of-replaced_way (w ∷ ways) (suc j) s (suc j') s' v ne =
    entry_of-replaced_way ways j s j' s' v (λ e. ne (ap suc e))

pub entry_of-replaced_set :
    (ways : List Way) (j s j' s' : ℕ) (v : WayEntry)
    → s ≢ s'
    → entry_of (replaced ways j s v) s' j' ≡ entry_of ways s' j'
entry_of-replaced_set [] j s j' s' v ne = refl
entry_of-replaced_set (w ∷ ways) zero s zero s' v ne = get_elem?-set_ne w.entries s s' v ne
entry_of-replaced_set (w ∷ ways) zero s (suc j') s' v ne = refl
entry_of-replaced_set (w ∷ ways) (suc j) s zero s' v ne = refl
entry_of-replaced_set (w ∷ ways) (suc j) s (suc j') s' v ne =
    entry_of-replaced_set ways j s j' s' v ne

some_eq : {A : Type 0} {a b : A} {o : Option A} → o ≡ some a → o ≡ some b → a ≡ b
some_eq p q = cc

-- What is found after a change is the new entry at its place, or was there before at another place.
pub data Found (ways : List Way) (j s : ℕ) (v : WayEntry) (j' s' : ℕ) (e' : WayEntry) : Type 0 where
  new_entry : j' ≡ j → s' ≡ s → e' ≡ v → Found ways j s v j' s' e'
  old_entry : (j' ≢ j) ⊎ (s' ≢ s) → entry_of ways s' j' ≡ some e' → Found ways j s v j' s' e'

pub replaced-Found :
    (ways : List Way) (j s : ℕ) (v e : WayEntry) (j' s' : ℕ) (e' : WayEntry)
    → entry_of ways s j ≡ some e
    → entry_of (replaced ways j s v) s' j' ≡ some e'
    → Found ways j s v j' s' e'
replaced-Found ways j s v e j' s' e' at h = elim (eq_cases j j') [
  | inr way ↦
      old_entry (inl (λ q. way (sym q))) (sym (entry_of-replaced_way ways j s j' s' v way) ∙ h)
  | inl same ↦ elim (eq_cases s s') [
    | inr other ↦
        old_entry (inr (λ q. other (sym q)))
          (sym (entry_of-replaced_set ways j s j' s' v other) ∙ h)
    | inl same' ↦
        let here : entry_of (replaced ways j s v) s' j' ≡ some v =
          subst (λ (x : ℕ). entry_of (replaced ways j s v) s' x ≡ some v) same
            (subst (λ (x : ℕ). entry_of (replaced ways j s v) x j ≡ some v) same'
              (entry_of-replaced_self ways j s v e at)) in
        new_entry (sym same) (sym same') (some_eq h here)
  ]
]

-- Every way has as many sets as the number says.
abbrev pub HasSets : List Way → ℕ → Type 0
HasSets ways n = (j : ℕ) (w : Way) → get_elem? ways j ≡ some w → length w.entries ≡ n

pub replaced-HasSets :
    (ways : List Way) (j s n : ℕ) (v : WayEntry) → HasSets ways n → HasSets (replaced ways j s v) n
replaced-HasSets [] j s n v h i w e = absurd (cc)
replaced-HasSets (u ∷ ways) zero s n v h zero w e =
    let same : record u { entries = set u.entries s v } ≡ w = some_eq {o = some w} (sym e) refl in
    ap (λ (x : Way). length x.entries) (sym same) ∙ (length-set u.entries s v ∙ h zero u refl)
replaced-HasSets (u ∷ ways) zero s n v h (suc i) w e = h (suc i) w e
replaced-HasSets (u ∷ ways) (suc j) s n v h zero w e = h zero w e
replaced-HasSets (u ∷ ways) (suc j) s n v h (suc i) w e =
    replaced-HasSets ways j s n v (λ k x q. h (suc k) x q) i w e

-- A way of a level has an entry in each of its sets.
pub entry_of_lem :
    (ways : List Way) (n j s : ℕ)
    → HasSets ways n
    → j < length ways
    → s < n
    → (e : WayEntry) × (entry_of ways s j ≡ some e)
entry_of_lem ways n j s h below inside =
    let (w, read) = get_elem?_lem ways j below in
    let size = h j w read in
    let (e, there) = get_elem?_lem w.entries s (omega (arith, size)) in
    (e, bind-some (get_elem? ways j) _ read there)

write-replaced :
    (ways : List Way) (j s : ℕ) (w : Way) (v : WayEntry)
    → get_elem? ways j ≡ some w
    → write ways j (record w { entries = set w.entries s v }) ≡ some (replaced ways j s v)
write-replaced [] j s w v h = absurd (cc)
write-replaced (u ∷ ways) zero s w v h = let same : u ≡ w = cc in rw same refl
write-replaced (u ∷ ways) (suc j) s w v h = rw (write-replaced ways j s w v h) refl

pub modify_entry-replaced :
    (l : CacheLevel) (j s : ℕ) (f : WayEntry → WayEntry) (e : WayEntry)
    → entry_of l.ways s j ≡ some e
    → modify_entry l j s f ≡ some (with_ways l (replaced l.ways j s (f e)))
unfolding modify_entry
modify_entry-replaced l j s f e at = elim (Option-cases (get_elem? l.ways j)) [
  | inl missing ↦ absurd (cc)
  | inr (w, read) ↦
      let there : get_elem? w.entries s ≡ some e =
        sym (bind-some (get_elem? l.ways j) (λ x. get_elem? x.entries s) read refl) ∙ at in
      bind-some (get_elem? l.ways j) _ read (
        bind-some (get_elem? w.entries s) _ there (
          bind-some (write w.entries s (f e)) _
            (write-set w.entries s (f e) (lt_of_get_elem? w.entries s there))
            (bind-some (write l.ways j (record w { entries = set w.entries s (f e) })) _
              (write-replaced l.ways j s w (f e) read) refl)))
]

pub entry_at-entry_of : (l : CacheLevel) (j s : ℕ) → entry_at l j s ≡ entry_of l.ways s j
unfolding entry_at
entry_at-entry_of l j s = refl
