-- ===== src/Base/Options.antt =====
-- Accesses that may fail: `none` is an access outside an array, which C++ leaves undefined.
use Prim.Native.Nat.{ℕ, zero, suc, ◌<◌, ◌^◌}
use mathlib.Core.Bool.{true}
use mathlib.Core.Path.{◌≡◌, refl, subst}
use mathlib.Core.List.{List, [], ◌∷◌}
use mathlib.Core.Option.{Option, none, some}
use native.Mathlib.Omega.{arith}
use computer_structures.Base.Arrays.{length, set}
use computer_structures.Base.Tests.{ltb, if◌then◌else◌}

infixl 5 ◌>>=◌
abbrev pub ◌>>=◌ {ℓ κ} : {A : Type ℓ} {B : Type κ} → Option A → (A → Option B) → Option B
none >>= f = none
some a >>= f = f a

-- A step of a chain whose first part is known.
pub bind-some {ℓ κ} :
    {A : Type ℓ} {B : Type κ} (m : Option A) (f : A → Option B) {a : A} {r : Option B}
    → m ≡ some a
    → f a ≡ r
    → (m >>= f) ≡ r
bind-some m f p q = rw p q

-- A checked write.
abbrev pub write {ℓ} : {A : Type ℓ} → List A → ℕ → A → Option (List A)
write [] i v = none
write (x ∷ xs) zero v = some (v ∷ xs)
write (x ∷ xs) (suc i) v = write xs i v >>= λ ys. some (x ∷ ys)

pub write-set {ℓ} :
    {A : Type ℓ} (xs : List A) (i : ℕ) (v : A) → i < length xs → write xs i v ≡ some (set xs i v)
write-set [] i v h = elim h [ ]
write-set (x ∷ xs) zero v h = refl
write-set (x ∷ xs) (suc i) v h = rw (write-set xs i v (omega arith))

-- What holds of the result, if there is one.
pub data Meets {A : Type 0} (P : A → Type 0) : Option A → Type 0 where
  fails : Meets P none
  meets : {a : A} → P a → Meets P (some a)

module _ {A : Type 0} where
  pub Meets-bind :
      {B : Type 0} {P : B → Type 0} (m : Option A) (f : A → Option B)
      → ((a : A) → m ≡ some a → Meets P (f a))
      → Meets P (m >>= f)
  Meets-bind none f h = fails
  Meets-bind (some a) f h = h a refl

  pub Meets-some : {P : A → Type 0} {o : Option A} {a : A} → Meets P o → o ≡ some a → P a
  Meets-some fails e = absurd (cc)
  Meets-some {P} (meets p) e = subst P (cc) p

-- There is a result, and what holds of it.
pub data Returns {A : Type 0} (P : A → Type 0) : Option A → Type 0 where
  returns : {a : A} → P a → Returns P (some a)

pub Returns-bind :
    {A : Type 0} {B : Type 0} {P : A → Type 0} {Q : B → Type 0} {m : Option A} (f : A → Option B)
    → Returns P m
    → ((a : A) → P a → Returns Q (f a))
    → Returns Q (m >>= f)
Returns-bind f (returns p) h = h _ p

pub Returns-eq :
    {A : Type 0} {P : A → Type 0} (o : Option A) {a : A} → o ≡ some a → P a → Returns P o
Returns-eq {P} o e p = rw e (returns p)

pub Returns-result :
    {A : Type 0} {P : A → Type 0} {o : Option A} → Returns P o → (a : A) × (o ≡ some a) × P a
Returns-result (returns p) = (_, refl, p)

-- `pow(2, n)` as an unsigned: the conversion is undefined from 2 ^ 32 on.
abbrev pub pow_unsigned : ℕ → Option ℕ
pow_unsigned n = if ltb n 32 then some (2 ^ n) else none

pub pow_unsigned-some : (n : ℕ) → n < 32 → pow_unsigned n ≡ some (2 ^ n)
pow_unsigned-some n h = let small : ltb n 32 ≡ true = ground arith in rw small
