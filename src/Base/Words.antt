-- ===== src/Base/Words.antt =====
-- The 32-bit unsigned arithmetic of the simulators, and its masks and exclusive or at every width.
use Prim.Native.Nat.{
  ℕ, zero, suc, ◌+◌, ◌-◌, ◌*◌, ◌/◌, ◌%◌, ◌^◌, ◌≤◌, ◌<◌, min, bit_and, bit_xor, digits, differ,
  bit_and-bitwise, bit_xor-bitwise,
}
use mathlib.Core.Path.{◌≡◌, refl, ap, sym, ◌∙◌}
use native.Mathlib.Nat.{
  zero-add, suc-add, pow-suc, one-le-pow, pow-le-pow_right, div-add-mod', mul-add-mod_self_right,
}
use native.Mathlib.Omega.{arith}
use computer_structures.Base.Tests.{ltb, if◌then◌else◌}

-- Truncation to uint32_t.
abbrev pub u32 : ℕ → ℕ
u32 n = n % 2 ^ 32

-- `a << k` on uint32_t.
abbrev pub shl32 : ℕ → ℕ → ℕ
shl32 a k = u32 (a * 2 ^ k)

-- `a >> k`
abbrev pub shr : ℕ → ℕ → ℕ
shr a k = a / 2 ^ k

-- `a - b` on uint32_t
abbrev pub sub32 : ℕ → ℕ → ℕ
sub32 a b = u32 (a + 2 ^ 32 - b)

-- `(int) log2(n)`: the position of the highest set bit, by halving `n` at most `fuel` times.
log2_fuel : ℕ → ℕ → ℕ
log2_fuel zero n = 0
log2_fuel (suc fuel) n = let rest = suc (log2_fuel fuel (n / 2)) in if ltb n 2 then 0 else rest

unfoldable pub log2 : ℕ → ℕ
unfolding log2_fuel
log2 n = log2_fuel 64 n

log2_fuel-pow : (fuel k : ℕ) → k ≤ fuel → log2_fuel fuel (2 ^ k) ≡ k
unfolding log2_fuel
log2_fuel-pow zero zero h = refl
log2_fuel-pow zero (suc k) h = absurd (omega arith)
log2_fuel-pow (suc fuel) zero h = refl
log2_fuel-pow (suc fuel) (suc k) h =
    let half : 2 ^ suc k / 2 ≡ 2 ^ k = omega (arith, pow-suc 2 k) in
    ground (arith, half, pow-suc 2 k, one-le-pow k 2, log2_fuel-pow fuel k)

pub log2-pow : (k : ℕ) → k ≤ 64 → log2 (2 ^ k) ≡ k
unfolding log2
log2-pow k h = log2_fuel-pow 64 k h

and_digits : ℕ → ℕ → ℕ → ℕ
and_digits n a b = digits (λ b. zero) min n a b

and_digits-zero : (n a : ℕ) → and_digits n a 0 ≡ 0
unfolding and_digits
and_digits-zero zero a = refl
and_digits-zero (suc n) zero = refl
and_digits-zero (suc n) (suc a) = omega (arith, and_digits-zero n (suc a / 2))

and_digits-mask :
    (k n a q r : ℕ) → a ≡ q * 2 ^ k + r → r < 2 ^ k → a ≤ n → and_digits n a (2 ^ k - 1) ≡ r
unfolding and_digits
and_digits-mask zero n a q r e fits enough = omega (arith, and_digits-zero n a)
and_digits-mask (suc k) zero zero q r e fits enough = omega arith
and_digits-mask (suc k) zero (suc a) q r e fits enough = absurd (omega arith)
and_digits-mask (suc k) (suc n) zero q r e fits enough = omega arith
and_digits-mask (suc k) (suc n) (suc a) q r e fits enough =
    let double : q * 2 ^ suc k ≡ 2 * (q * 2 ^ k) =
      omega (arith, ap (λ (t : ℕ). q * t) (pow-suc 2 k)) in
    let half : (2 ^ suc k - 1) / 2 ≡ 2 ^ k - 1 = omega (arith, pow-suc 2 k) in
    rw half (
      omega (
        arith,
        pow-suc 2 k,
        one-le-pow k 2,
        and_digits-mask k n (suc a / 2) q (r / 2) (omega arith) (omega (arith, pow-suc 2 k))
            (omega arith),
      ))

-- Masking with the `k` low bits is the remainder by `2 ^ k`.
pub bit_and-mask : (k a : ℕ) → bit_and a (2 ^ k - 1) ≡ a % 2 ^ k
unfolding and_digits
bit_and-mask k a = rw (bit_and-bitwise a (2 ^ k - 1)) (
    and_digits-mask k a a (a / 2 ^ k) (a % 2 ^ k) (omega (arith, one-le-pow k 2))
      (omega (arith, one-le-pow k 2)) (omega arith))

xor_digits : ℕ → ℕ → ℕ → ℕ
xor_digits n a b = digits (λ b. b) differ n a b

differ-lt : (a b : ℕ) → a < 2 → b < 2 → differ a b < 2
differ-lt zero b ha hb = hb
differ-lt (suc zero) zero ha hb = omega arith
differ-lt (suc zero) (suc b) ha hb = omega arith
differ-lt (suc (suc a)) b ha hb = absurd (omega arith)

xor_digits-lt : (k n a b : ℕ) → a < 2 ^ k → b < 2 ^ k → xor_digits n a b < 2 ^ k
unfolding xor_digits
xor_digits-lt k zero a b ha hb = hb
xor_digits-lt k (suc n) zero b ha hb = hb
xor_digits-lt zero (suc n) (suc a) b ha hb = absurd (omega arith)
xor_digits-lt (suc k) (suc n) (suc a) b ha hb = omega (
  arith,
  pow-suc 2 k,
  differ-lt (suc a % 2) (b % 2) (omega arith) (omega arith),
  xor_digits-lt k n (suc a / 2) (b / 2) (omega (arith, pow-suc 2 k)) (omega (arith, pow-suc 2 k)),
)

-- The exclusive or of two `k`-bit numbers has `k` bits.
pub bit_xor-lt : (k a b : ℕ) → a < 2 ^ k → b < 2 ^ k → bit_xor a b < 2 ^ k
unfolding xor_digits
bit_xor-lt k a b ha hb = rw (bit_xor-bitwise a b) (xor_digits-lt k a a b ha hb)

pub pow-pos : (k : ℕ) → 0 < 2 ^ k
pow-pos k = one-le-pow k 2 (omega arith)

-- A width of at most 31 bits keeps a power of two below the modulus.
pub pow-lt : (k : ℕ) → k ≤ 31 → 2 ^ k ≤ 2 ^ 31
pow-lt k h = pow-le-pow_right (omega arith) h

-- `(1 << k) - 1` is a mask of `k` ones.
pub low_mask : (k : ℕ) → k ≤ 31 → sub32 (shl32 1 k) 1 ≡ 2 ^ k - 1
low_mask k h = omega (arith, pow-lt k h, pow-pos k)

pub pow-add : (j k : ℕ) → 2 ^ (j + k) ≡ 2 ^ j * 2 ^ k
pow-add zero k = omega (arith, ap (λ (t : ℕ). 2 ^ t) (zero-add k))
pow-add (suc j) k = rw (suc-add j k) (grind (arith, pow-suc 2 (j + k), pow-suc 2 j, pow-add j k))

-- A multiple of `2 ^ n` has no low bits.
pub mul_pow-mod : (k n q r : ℕ) → k ≤ n → (q * 2 ^ n + r) % 2 ^ k ≡ r % 2 ^ k
mul_pow-mod k n q r h =
    let e' : 2 ^ (n - k + k) ≡ 2 ^ (n - k) * 2 ^ k = pow-add (n - k) k in
    let w : n - k + k ≡ n = omega arith in
    let p : 2 ^ n ≡ 2 ^ (n - k) * 2 ^ k = rw w at e' in
    let f : q * 2 ^ n + r ≡ q * 2 ^ (n - k) * 2 ^ k + r = omega (arith, ap (λ (t : ℕ). q * t) p) in
    ap (λ (t : ℕ). t % 2 ^ k) f ∙ mul-add-mod_self_right (q * 2 ^ (n - k)) (2 ^ k) r

-- Cutting to `n` bits first does not change the low `k` bits.
pub mod_pow-mod : (k n x : ℕ) → k ≤ n → x % 2 ^ n % 2 ^ k ≡ x % 2 ^ k
mod_pow-mod k n x h =
    sym (mul_pow-mod k n (x / 2 ^ n) (x % 2 ^ n) h)
    ∙ ap (λ (t : ℕ). t % 2 ^ k) (div-add-mod' x (2 ^ n))

-- Truncation to 32 bits does not change the low bits.
pub u32-mod : (k x : ℕ) → k ≤ 32 → u32 x % 2 ^ k ≡ x % 2 ^ k
u32-mod k x h = mod_pow-mod k 32 x h
