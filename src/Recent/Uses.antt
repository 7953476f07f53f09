-- ===== src/Recent/Uses.antt =====
-- HW2/cacheSimShelly.cpp: the order in which a set's blocks were last used, as it is meant.
use computer_structures.Base.{
  ℕ, ◌%◌, ◌≡◌, refl, Bool, true, false, ◌||◌, List, [], ◌∷◌, ◌++◌, if◌then◌else◌, ◌==◌, Bool-cases,
  inl, inr,
}
use computer_structures.Recent.Rows.{without}

abbrev pub mem : ℕ → List ℕ → Bool
mem x [] = false
mem x (y ∷ ys) = x == y || mem x ys

-- Each block once, in the order of the last uses.
abbrev pub last_uses : List ℕ → List ℕ
last_uses [] = []
last_uses (x ∷ xs) = if mem x xs then last_uses xs else x ∷ last_uses xs

-- The uses of the blocks of a row.
abbrev pub in_row : ℕ → ℕ → List ℕ → List ℕ
in_row rows row [] = []
in_row rows row (x ∷ xs) = if x % rows == row then x ∷ in_row rows row xs else in_row rows row xs

mem-snoc : (x y : ℕ) (xs : List ℕ) → mem x (xs ++ y ∷ []) ≡ (mem x xs || x == y)
mem-snoc x y [] = elim (Bool-cases (x == y)) [ inl e ↦ rw e refl | inr e ↦ rw e refl ]
mem-snoc x y (z ∷ zs) = elim (Bool-cases (x == z)) [
  | inl e ↦ rw e refl
  | inr e ↦ rw (e, mem-snoc x y zs) refl
]

-- A use moves its block to the end.
pub last_uses-snoc :
    (x : ℕ) (xs : List ℕ) → last_uses (xs ++ x ∷ []) ≡ without x (last_uses xs) ++ x ∷ []
last_uses-snoc x [] = refl
last_uses-snoc x (y ∷ ys) = elim (Bool-cases (mem y ys)) [
  | inl e ↦ rw (mem-snoc y x ys, e) (last_uses-snoc x ys)
  | inr e ↦ elim (Bool-cases (y == x)) [
    | inl f ↦ rw (mem-snoc y x ys, e, f) (last_uses-snoc x ys)
    | inr f ↦ rw (mem-snoc y x ys, e, f, last_uses-snoc x ys) refl
  ]
]

pub in_row-snoc_self :
    (rows row x : ℕ) (xs : List ℕ)
    → (x % rows == row) ≡ true
    → in_row rows row (xs ++ x ∷ []) ≡ in_row rows row xs ++ x ∷ []
in_row-snoc_self rows row x [] e = rw e
in_row-snoc_self rows row x (y ∷ ys) e = elim (Bool-cases (y % rows == row)) [
  | inl f ↦ rw (f, in_row-snoc_self rows row x ys e) refl
  | inr f ↦ rw (f, in_row-snoc_self rows row x ys e) refl
]

pub in_row-snoc_other :
    (rows row x : ℕ) (xs : List ℕ)
    → (x % rows == row) ≡ false
    → in_row rows row (xs ++ x ∷ []) ≡ in_row rows row xs
in_row-snoc_other rows row x [] e = rw e
in_row-snoc_other rows row x (y ∷ ys) e = elim (Bool-cases (y % rows == row)) [
  | inl f ↦ rw (f, in_row-snoc_other rows row x ys e) refl
  | inr f ↦ rw (f, in_row-snoc_other rows row x ys e) refl
]
