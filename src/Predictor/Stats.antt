-- ===== src/Predictor/Stats.antt =====
-- HW1/bp.cpp: the size that `updateStats` reports.
use native.Mathlib.Nat.{mod-eq_of_lt}
use computer_structures.Base.{
  ℕ, ◌+◌, ◌*◌, ◌^◌, ◌≤◌, ◌<◌, ◌≡◌, arith, Bool, true, false, if◌then◌else◌, u32,
}
use computer_structures.Predictor.Btb.{Btb}
use computer_structures.Predictor.Api.{update_stats}

abbrev bits : Bool → Bool → ℕ → ℕ → ℕ → ℕ → ℕ
bits one_history one_table n t h p =
    n * (1 + t + 30) + (if one_history then 1 else n) * h + (if one_table then 1 else n) * (2 * p)

cut : (x : ℕ) → x < 2 ^ 32 → u32 x ≡ x
cut x h = mod-eq_of_lt h

-- The sum as the code makes it, each product cut to 32 bits.
bits_wrapped :
    (one_history one_table : Bool) (n t h p : ℕ)
    → p ≤ n * p
    → bits one_history one_table n t h p < 2 ^ 32
    → u32 (
        n
        + u32 (n * t)
        + u32 (30 * n)
        + (if one_history then h else u32 (h * n))
        + (if one_table then u32 (2 * p) else u32 (u32 (2 * p) * n)))
      ≡ bits one_history one_table n t h p
bits_wrapped true true n t h p power fits = omega arith
bits_wrapped true false n t h p power fits = rw (cut (2 * p) (omega arith)) (omega arith)
bits_wrapped false true n t h p power fits = omega arith
bits_wrapped false false n t h p power fits = rw (cut (2 * p) (omega arith)) (omega arith)

-- The bits of the modelled hardware: for each entry a valid bit, a tag and a target of 30 bits; one
-- history of `history_size` bits and one table of `2 ^ history_size` machines of two bits, or one of
-- them for each entry.
abbrev pub hardware_bits : Btb → ℕ
hardware_bits b =
    b.btb_size * (1 + b.tag_size + 30)
    + (if b.is_global_hist then 1 else b.btb_size) * b.history_size
    + (if b.is_global_table then 1 else b.btb_size) * (2 * 2 ^ b.history_size)

-- If the number of bits of the modelled hardware fits an unsigned int, it is the size that is
-- reported, and counters that fit are reported as they are.
pub update_stats_lem :
    (b : Btb)
    → 0 < b.btb_size
    → hardware_bits b < 2 ^ 32
    → b.update_counter < 2 ^ 32
    → b.flush_counter < 2 ^ 32
    → ((update_stats b).size ≡ hardware_bits b)
      × ((update_stats b).br_num ≡ b.update_counter)
      × ((update_stats b).flush_num ≡ b.flush_counter)
unfolding update_stats
update_stats_lem b h fits few few' =
    let power : 2 ^ b.history_size ≤ b.btb_size * 2 ^ b.history_size = grind arith in
    (
      bits_wrapped b.is_global_hist b.is_global_table b.btb_size b.tag_size b.history_size
          (2 ^ b.history_size) power fits,
      mod-eq_of_lt few,
      mod-eq_of_lt few',
    )
