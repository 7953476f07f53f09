-- ===== src/Recent/Cells.antt =====
-- HW2/cacheSimShelly.cpp: the loops of `Cache` over the cells of a row.
use computer_structures.Base.{
  ℕ, zero, suc, ◌≤◌, ◌≡◌, refl, ap, arith, Bool, Option, none, some, List, [], ◌∷◌, length, u32,
  Returns, returns, Returns-bind, ◌>>=◌, if_both,
}
use computer_structures.Recent.Rows.{
  Cell, DataStatus, holds, is_there, find_cell, claim_free, replace_cell, change_cell,
}

pub find_cell-Returns :
    (left : ℕ) (xs : List Cell) (tag : ℕ)
    → left ≤ length xs
    → Returns (λ _. Unit) (find_cell left xs tag)
find_cell-Returns zero xs tag h = returns tt
find_cell-Returns (suc left) [] tag h = absurd (omega arith)
find_cell-Returns (suc left) (x ∷ xs) tag h =
    if_both (Returns (λ _. Unit)) (holds x tag) (returns tt)
      (find_cell-Returns left xs tag (omega arith))

pub change_cell-Returns :
    (left : ℕ) (xs : List Cell) (tag : ℕ) (status : DataStatus)
    → left ≤ length xs
    → Returns (λ ys. length ys ≡ length xs) (change_cell left xs tag status)
change_cell-Returns zero xs tag status h = returns refl
change_cell-Returns (suc left) [] tag status h = absurd (omega arith)
change_cell-Returns (suc left) (x ∷ xs) tag status h =
    if_both (Returns (λ ys. length ys ≡ suc (length xs))) (holds x tag) (returns refl) (
      Returns-bind _ (change_cell-Returns left xs tag status (omega arith))
        (λ ys e. returns (ap suc e)))

-- The cells that a loop of `add` found, if any, are as many as before.
abbrev pub IsSized : ℕ → Option (List Cell) → Type 0
IsSized n none = Unit
IsSized n (some ys) = length ys ≡ n

pub claim_free-Returns :
    (present : Option (Option Cell)) (xs : List Cell) (tag : ℕ)
    → Returns (λ _. Unit) present
    → Returns (IsSized (length xs)) (claim_free present xs tag)
claim_free-Returns present [] tag p = returns tt
claim_free-Returns present (x ∷ xs) tag (returns {a = found} p) =
    let rest : Returns (IsSized (suc (length xs))) (
        claim_free (some found) xs tag >>= λ r.
        some (elim r [ none ↦ none | some ys ↦ some (x ∷ ys) ])) =
      Returns-bind _ (claim_free-Returns (some found) xs tag (returns p))
        (λ r sized. returns (grown r sized)) in
    if_both (Returns (IsSized (suc (length xs)))) (is_there x.second) rest (claimed found rest)
  where
    grown :
        (r : Option (List Cell))
        → IsSized (length xs) r
        → IsSized (suc (length xs)) (elim r [ none ↦ none | some ys ↦ some (x ∷ ys) ])
    grown none s = tt
    grown (some ys) s = ap suc s

    claimed :
        (f : Option Cell) {o : Option (Option (List Cell))}
        → Returns (IsSized (suc (length xs))) o
        → Returns (IsSized (suc (length xs))) (elim f [
          | none ↦ some (some (record { first = u32 tag; second = DataStatus.exist } ∷ xs))
          | some y ↦ o
        ])
    claimed none r = returns refl
    claimed (some y) r = r

abbrev pub IsReplaced : ℕ → Option (Bool × List Cell) → Type 0
IsReplaced n none = Unit
IsReplaced n (some (need_evac, ys)) = length ys ≡ n

pub replace_cell-IsReplaced :
    (l1 : Bool) (xs : List Cell) (old_tag tag : ℕ)
    → IsReplaced (length xs) (replace_cell l1 xs old_tag tag)
replace_cell-IsReplaced l1 [] old_tag tag = tt
replace_cell-IsReplaced l1 (x ∷ xs) old_tag tag =
    if_both (IsReplaced (suc (length xs))) (holds x old_tag) refl
      (grown (replace_cell l1 xs old_tag tag) (replace_cell-IsReplaced l1 xs old_tag tag))
  where
    grown :
        (r : Option (Bool × List Cell))
        → IsReplaced (length xs) r
        → IsReplaced (suc (length xs)) (r >>= λ p. some (p.0, x ∷ p.1))
    grown none s = tt
    grown (some (b, ys)) s = ap suc s
