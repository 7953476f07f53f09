-- ===== src/Ranked/Masks.antt =====
-- HW2/cacheSimRoy.cpp: the mask that `create_mask` makes.
use native.Mathlib.Nat.{pow-suc, pow-le-pow_right}
use computer_structures.Base.{
  ℕ, zero, suc, ◌+◌, ◌-◌, ◌*◌, ◌^◌, ◌≤◌, ◌<◌, ◌≡◌, refl, ap, ◌∙◌, arith, u32, shl32,
}
use computer_structures.Base.Words.{pow-lt, pow-pos, pow-add}
use computer_structures.Ranked.Ways.{create_mask, create_mask_loop}

create_mask_loop-step :
    (left i mask : ℕ)
    → create_mask_loop (suc left) i mask ≡ create_mask_loop left (suc i) (u32 (mask + shl32 1 i))
unfolding create_mask_loop
create_mask_loop-step left i mask = refl

create_mask_loop-zero : (i mask : ℕ) → create_mask_loop 0 i mask ≡ mask
unfolding create_mask_loop
create_mask_loop-zero i mask = refl

create_mask_loop-pow :
    (left i top mask : ℕ)
    → i + left ≡ top
    → top ≤ 32
    → mask + (2 ^ top - 2 ^ i) < 2 ^ 32
    → create_mask_loop left i mask ≡ mask + (2 ^ top - 2 ^ i)
create_mask_loop-pow zero i top mask e h fits =
    let same : i ≡ top = omega arith in create_mask_loop-zero i mask ∙ rw (← same) (omega arith)
create_mask_loop-pow (suc left) i top mask e h fits =
    let mono : 2 ^ suc i ≤ 2 ^ top = pow-le-pow_right (omega arith) (omega arith) in
    let low : 2 ^ i ≤ 2 ^ 31 = pow-lt i (omega arith) in
    let double = pow-suc 2 i in
    let bit : u32 (mask + shl32 1 i) ≡ mask + 2 ^ i = omega arith in
    create_mask_loop-step left i mask
    ∙ (ap (create_mask_loop left (suc i)) bit
        ∙ (create_mask_loop-pow left (suc i) top (mask + 2 ^ i) (omega arith) h (omega arith)
            ∙ omega arith))

take_one : (a b p : ℕ) → p ≡ a * b → 0 < b → 0 + (p - a) ≡ (b - 1) * a
take_one a zero p e h = absurd (omega arith)
take_one a (suc b) p e h =
    let split : p ≡ b * a + a = grind arith in
    let less : suc b - 1 ≡ b = omega arith in rw less (omega arith)

-- `create_mask` makes the mask of `bits_num` ones from bit `starting_bit` on, if they all lie in 32
-- bits.
pub create_mask_lem :
    (starting_bit bits_num : ℕ)
    → starting_bit + bits_num ≤ 32
    → create_mask starting_bit bits_num ≡ (2 ^ bits_num - 1) * 2 ^ starting_bit
unfolding create_mask
create_mask_lem s n h =
    let top : 2 ^ (s + n) ≤ 2 ^ 32 = pow-le-pow_right (omega arith) h in
    let small : 2 ^ s ≤ 2 ^ (s + n) = pow-le-pow_right (omega arith) (omega arith) in
    create_mask_loop-pow n s (s + n) 0 refl h (omega (arith, pow-pos s))
    ∙ take_one (2 ^ s) (2 ^ n) (2 ^ (s + n)) (pow-add s n) (pow-pos n)
