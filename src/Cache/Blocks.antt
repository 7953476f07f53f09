-- ===== src/Cache/Blocks.antt =====
-- HW2/cacheSim.cpp: the set and the tag of an address, as parts of the number of its block.
use native.Mathlib.Nat.{div-div-eq-div-mul, div-le_self, mod-eq_of_lt, div-add-mod'}
use computer_structures.Base.{
  ℕ, ◌+◌, ◌-◌, ◌*◌, ◌/◌, ◌%◌, ◌^◌, ◌≤◌, ◌<◌, ◌≡◌, sym, ap, ◌∙◌, arith, u32, sub32, shl32, shr,
  bit_and, bit_and-mask, low_mask, pow-add,
}
use computer_structures.Base.Words.{log2, log2-pow}
use computer_structures.Cache.Level.{CacheLevel, get_set, get_tag}

-- The block of an address, in blocks of `2 ^ b` bytes, and its set and tag where there are `2 ^ k` sets.
abbrev pub block : ℕ → ℕ → ℕ
block b a = a / 2 ^ b

abbrev pub set_of : ℕ → ℕ → ℕ → ℕ
set_of b k a = block b a % 2 ^ k

abbrev pub tag_of : ℕ → ℕ → ℕ → ℕ
tag_of b k a = block b a / 2 ^ k

-- The sizes of a level with `2 ^ k` sets of blocks of `2 ^ b` bytes.
pub record IsShaped (b k : ℕ) (l : CacheLevel) : Type 0 where
  pub few : k + b ≤ 31
  pub block_size : l.block_size_log ≡ b
  pub sets : l.num_of_sets ≡ 2 ^ k
  pub tag : l.tag_size ≡ 32 - (k + b)

pub get_set-set_of :
    (b k : ℕ) (l : CacheLevel) (a : ℕ) → IsShaped b k l → get_set l a ≡ set_of b k a
unfolding get_set
get_set-set_of b k l a v =
    ap (λ (m : ℕ). bit_and (shr a l.block_size_log) m)
      (ap (λ (n : ℕ). sub32 (shl32 1 (log2 n)) 1) v.sets
        ∙ (ap (λ (n : ℕ). sub32 (shl32 1 n) 1) (log2-pow k (omega (arith, v.few)))
            ∙ low_mask k (omega (arith, v.few))))
    ∙ (bit_and-mask k (shr a l.block_size_log) ∙ ap (λ (n : ℕ). a / 2 ^ n % 2 ^ k) v.block_size)

pub get_tag-tag_of :
    (b k : ℕ) (l : CacheLevel) (a : ℕ) → IsShaped b k l → a < 2 ^ 32 → get_tag l a ≡ tag_of b k a
unfolding get_tag
get_tag-tag_of b k l a v small =
    let shift : sub32 32 l.tag_size ≡ b + k = omega (arith, v.few, v.tag) in
    ap (λ (n : ℕ). u32 (a / 2 ^ n)) shift
    ∙ (mod-eq_of_lt (omega (arith, div-le_self a (2 ^ (b + k))))
        ∙ (ap (λ (n : ℕ). a / n) (pow-add b k) ∙ sym (div-div-eq-div-mul a (2 ^ b) (2 ^ k))))

-- A block is known by its set and its tag.
pub same_block :
    (b k a a' : ℕ)
    → set_of b k a ≡ set_of b k a'
    → tag_of b k a ≡ tag_of b k a'
    → block b a ≡ block b a'
same_block b k a a' s t =
    sym (div-add-mod' (block b a) (2 ^ k))
    ∙ (ap (λ (x : ℕ). x * 2 ^ k + block b a % 2 ^ k) t
        ∙ (ap (λ (x : ℕ). tag_of b k a' * 2 ^ k + x) s ∙ div-add-mod' (block b a') (2 ^ k)))
