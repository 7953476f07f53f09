-- ===== src/Core/Work.antt =====
-- HW4/core_api.cpp: the instructions that the threads have still before them, and the threads that
-- have halted.
use computer_structures.Base.{
  ℕ, zero, suc, ◌+◌, ◌-◌, ◌≤◌, ◌<◌, ◌≡◌, ◌≢◌, refl, ap, arith, some, List, [], ◌∷◌, if◌then◌else◌,
  ◌==◌, ==-ne, eq_cases, inl, inr, length, get_elem?, set, replicate, subst, sym,
}
use computer_structures.Core.Memory.{Instruction}
use computer_structures.Core.Machine.{Thread, never, new_thread}

-- The lines of the programs that their threads have not executed.
abbrev pub lines_left : List (List Instruction) → List Thread → ℕ
lines_left [] ts = 0
lines_left (p ∷ ps) [] = 0
lines_left (p ∷ ps) (t ∷ ts) = (length p - t.rip) + lines_left ps ts

abbrev pub lines_in : List (List Instruction) → ℕ
lines_in [] = 0
lines_in (p ∷ ps) = length p + lines_in ps

-- A line more in one thread is a line less to go.
pub lines_left-set :
    (ps : List (List Instruction)) (ts : List Thread) (i : ℕ) (p : List Instruction) (t t' : Thread)
    → get_elem? ps i ≡ some p
    → get_elem? ts i ≡ some t
    → t.rip < length p
    → t'.rip ≡ t.rip + 1
    → lines_left ps (set ts i t') + 1 ≡ lines_left ps ts
lines_left-set [] ts i p t t' ep et h next = absurd (cc)
lines_left-set (q ∷ ps) [] i p t t' ep et h next = absurd (cc)
lines_left-set (q ∷ ps) (u ∷ ts) zero p t t' ep et h next =
    let ep' : q ≡ p = cc in
    let et' : u ≡ t = cc in
    let here : (length q - t'.rip) + 1 ≡ length q - u.rip = rw (ep', et') (omega arith) in
    omega (arith, here)
lines_left-set (q ∷ ps) (u ∷ ts) (suc i) p t t' ep et h next =
    omega (arith, lines_left-set ps ts i p t t' ep et h next)

pub lines_left-replicate :
    (ps : List (List Instruction)) (n : ℕ) → lines_left ps (replicate n new_thread) ≤ lines_in ps
lines_left-replicate [] n = omega arith
lines_left-replicate (p ∷ ps) zero = omega arith
lines_left-replicate (p ∷ ps) (suc n) = omega (arith, lines_left-replicate ps n)

pub lines_in-le :
    (ps : List (List Instruction)) (i : ℕ) (p : List Instruction)
    → get_elem? ps i ≡ some p
    → length p ≤ lines_in ps
lines_in-le [] i p e = absurd (cc)
lines_in-le (q ∷ ps) zero p e = let same : q ≡ p = cc in rw same (omega arith)
lines_in-le (q ∷ ps) (suc i) p e = omega (arith, lines_in-le ps i p e)

abbrev pub halt_flag : ℕ → ℕ
halt_flag cycle = if cycle == never then 1 else 0

abbrev pub halted_in : List Thread → ℕ
halted_in [] = 0
halted_in (t ∷ ts) = halt_flag t.return_cycle + halted_in ts

pub halt_flag-never : (cycle : ℕ) → cycle ≡ never → halt_flag cycle ≡ 1
halt_flag-never cycle h = ap halt_flag h

pub halt_flag-ne : (cycle : ℕ) → cycle ≢ never → halt_flag cycle ≡ 0
halt_flag-ne cycle h = let other = ==-ne cycle never h in rw other

pub halted_in-set :
    (ts : List Thread) (i : ℕ) (t t' : Thread)
    → get_elem? ts i ≡ some t
    → halted_in (set ts i t') + halt_flag t.return_cycle ≡ halted_in ts + halt_flag t'.return_cycle
halted_in-set [] i t t' e = absurd (cc)
halted_in-set (u ∷ ts) zero t t' e = let same : u ≡ t = cc in rw same (omega arith)
halted_in-set (u ∷ ts) (suc i) t t' e = omega (arith, halted_in-set ts i t t' e)

halt_flag-le : (cycle : ℕ) → halt_flag cycle ≤ 1
halt_flag-le cycle = ground arith

pub halted_in-le : (ts : List Thread) → halted_in ts ≤ length ts
halted_in-le [] = omega arith
halted_in-le (t ∷ ts) = omega (arith, halt_flag-le t.return_cycle, halted_in-le ts)

pub halted_in-replicate : (n : ℕ) → halted_in (replicate n new_thread) ≡ 0
halted_in-replicate zero = refl
halted_in-replicate (suc n) = omega (arith, halted_in-replicate n)

-- While not all threads have halted, one has not.
pub halted_in-some :
    (ts : List Thread)
    → halted_in ts < length ts
    → (i : ℕ) × (t : Thread) × (get_elem? ts i ≡ some t) × (t.return_cycle ≢ never)
halted_in-some [] h = absurd (omega arith)
halted_in-some (t ∷ ts) h = elim (eq_cases t.return_cycle never) [
  | inr other ↦ (0, t, refl, other)
  | inl e ↦
      let (i, u, eu, other) = halted_in-some ts (omega (arith, halt_flag-never t.return_cycle e)) in
      (suc i, u, eu, other)
]

-- When as many have halted as there are threads, each has.
pub halted_in-all :
    (ts : List Thread)
    → length ts ≤ halted_in ts
    → (i : ℕ) (t : Thread) → get_elem? ts i ≡ some t
    → t.return_cycle ≡ never
halted_in-all [] h i t e = absurd (cc)
halted_in-all (u ∷ ts) h zero t e = elim (eq_cases u.return_cycle never) [
  | inl done ↦ let same : u ≡ t = cc in subst (λ (x : Thread). x.return_cycle ≡ never) same done
  | inr other ↦ absurd (omega (arith, halt_flag-ne u.return_cycle other, halted_in-le ts))
]
halted_in-all (u ∷ ts) h (suc i) t e =
    halted_in-all ts (omega (arith, halt_flag-le u.return_cycle)) i t e

-- While one thread has not halted, fewer have than there are.
pub halted_in-lt :
    (ts : List Thread) (i : ℕ) (t : Thread)
    → get_elem? ts i ≡ some t
    → t.return_cycle ≢ never
    → halted_in ts < length ts
halted_in-lt [] i t e other = absurd (cc)
halted_in-lt (u ∷ ts) zero t e other =
    let same : u ≡ t = cc in
    let here : u.return_cycle ≢ never =
      subst (λ (x : Thread). x.return_cycle ≢ never) (sym same) other in
    omega (arith, halt_flag-ne u.return_cycle here, halted_in-le ts)
halted_in-lt (u ∷ ts) (suc i) t e other =
    omega (arith, halt_flag-le u.return_cycle, halted_in-lt ts i t e other)
