-- ===== src/Base/Doubles.antt =====
-- Whole numbers as a double holds them: 53 significant bits, to the nearest, ties to even.
use Prim.Native.Nat.{ℕ, zero, suc, ◌+◌, ◌*◌, ◌/◌, ◌%◌, ◌^◌, ◌<◌}
use mathlib.Core.Path.{◌≡◌, refl}
use mathlib.Core.Bool.{true, false, ◌&&◌}
use native.Mathlib.Omega.{arith}
use computer_structures.Base.Tests.{ltb, ◌==◌, if◌then◌else◌}

-- The low bits of `n` past the first 53, `fuel` at most: a finite double has less than 1024.
abbrev spare : ℕ → ℕ → ℕ
spare zero n = 0
spare (suc fuel) n = let rest = suc (spare fuel (n / 2)) in if ltb n (2 ^ 53) then 0 else rest

-- The nearest multiple of `unit`.
abbrev nearest : ℕ → ℕ → ℕ
nearest unit n =
    let q = n / unit in
    let r = n % unit in
    if ltb (2 * r) unit
    then q * unit
    else if (2 * r == unit) && (q % 2 == 0)
    then q * unit
    else (q + 1) * unit

-- The sum of two doubles that are whole numbers.
unfoldable pub plus_double : ℕ → ℕ → ℕ
plus_double a b = elim (ltb (a + b) (2 ^ 53)) [
  | true ↦ a + b
  | false ↦ nearest (2 ^ spare 1024 (a + b)) (a + b)
]

pub plus_double-exact : (a b : ℕ) → a + b < 2 ^ 53 → plus_double a b ≡ a + b
unfolding plus_double
plus_double-exact a b h =
    let small : ltb (a + b) (2 ^ 53) ≡ true = ground arith in rw (plus_double, small) refl

-- One more than 2 ^ 53 is no double.
lost : plus_double (2 ^ 53) 1 ≡ 2 ^ 53
unfolding plus_double
lost = refl
