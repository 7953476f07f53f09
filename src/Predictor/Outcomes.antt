-- ===== src/Predictor/Outcomes.antt =====
-- HW1/bp.cpp: a history register after a number of equal outcomes.
use native.Mathlib.Nat.{pow-suc, mod-eq_of_lt, mul-add-mod_self_right, div-add-mod'}
use computer_structures.Base.{
  ℕ, zero, suc, ◌+◌, ◌-◌, ◌*◌, ◌/◌, ◌%◌, ◌^◌, ◌≤◌, ◌<◌, ◌≡◌, refl, sym, ap, ◌∙◌, arith, Bool, true,
  false, Option, some, get_elem?, pow-pos, mod_pow-mod, subst,
}
use computer_structures.Predictor.Btb.{Btb, BtbEntry, get_entry_by_index}
use computer_structures.Predictor.Shift.{bit, bhr_update-mod}
use computer_structures.Predictor.Valid.{IsValid}
use computer_structures.Predictor.Step.{IsUpdated, update-IsUpdated}
use computer_structures.Predictor.Prediction.{hit, predict_history}
use computer_structures.Predictor.After.{
  new_entry, after-index, after-found, after-hit, after-history, old_history, old_history-IsHistory,
  old_history_of_hit,
}

-- `j` bits that all are the outcome.
abbrev pub ones : ℕ → Bool → ℕ
ones j t = bit t * (2 ^ j - 1)

ones-double : (j : ℕ) (t : Bool) → 2 * ones j t + bit t ≡ ones (suc j) t
ones-double j true = omega (arith, pow-suc 2 j, pow-pos j)
ones-double j false = omega arith

pub ones-lt : (j : ℕ) (t : Bool) → ones j t < 2 ^ j
ones-lt j true = omega (arith, pow-pos j)
ones-lt j false = omega (arith, pow-pos j)

ones-shift :
    (j x : ℕ) (t : Bool) → x % 2 ^ j ≡ ones j t → (2 * x + bit t) % 2 ^ suc j ≡ ones (suc j) t
ones-shift j x t h =
    let e = div-add-mod' x (2 ^ j) in
    let p = pow-suc 2 j in
    let d : x / 2 ^ j * 2 ^ suc j ≡ 2 * (x / 2 ^ j * 2 ^ j) =
      omega (arith, ap (λ (s : ℕ). x / 2 ^ j * s) p) in
    let split : 2 * x + bit t ≡ x / 2 ^ j * 2 ^ suc j + (2 * ones j t + bit t) = omega arith in
    let low : 2 * ones j t + bit t ≡ ones (suc j) t = ones-double j t in
    ap (λ (s : ℕ). s % 2 ^ suc j) split
    ∙ (mul-add-mod_self_right (x / 2 ^ j) (2 ^ suc j) (2 * ones j t + bit t)
        ∙ (ap (λ (s : ℕ). s % 2 ^ suc j) low ∙ mod-eq_of_lt (ones-lt (suc j) t)))

-- The newest `j` outcomes in the register that the branch reads are `t`.
pub record IsLow (w k j : ℕ) (t : Bool) (pc : ℕ) (b : Btb) : Type 0 where
  pub valid : IsValid w k b
  pub entry : BtbEntry
  pub found : get_elem? b.entries (get_entry_by_index b pc) ≡ some entry
  pub hits : 0 < j → hit b entry pc ≡ true
  pub bits : predict_history b entry % 2 ^ j ≡ ones j t

old-bits :
    (j : ℕ) {w k : ℕ} {t : Bool} {pc target_pc dst : ℕ} {b : Btb}
    → (u : IsUpdated w k b pc target_pc t dst) → (0 < j → hit b u.old pc ≡ true)
    → predict_history b u.old % 2 ^ j ≡ ones j t
    → (old_history u).history_record % 2 ^ j ≡ ones j t
old-bits zero u hits bits = omega arith
old-bits (suc j) u hits bits = rw (old_history_of_hit u (hits (omega arith))) bits

-- What an update makes of the register, in its low bits.
pub after-bits :
    (w k j : ℕ) (t : Bool) (pc target_pc dst : ℕ) (b : Btb) (low : IsLow w k j t pc b)
    → (u : IsUpdated w k b pc target_pc t dst) × (u.old ≡ low.entry)
      × (predict_history u.after (new_entry u)
          ≡ (2 * (old_history u).history_record + bit t) % 2 ^ k)
      × ((2 * (old_history u).history_record + bit t) % 2 ^ suc j ≡ ones (suc j) t)
after-bits w k j t pc target_pc dst b low =
    let u = update-IsUpdated w k b pc target_pc t dst low.valid in
    let same : low.entry ≡ u.old = same_entry low.found u.found in
    let hits = λ (p : 0 < j). subst (λ e. hit b e pc ≡ true) same (low.hits p) in
    let bits = subst (λ e. predict_history b e % 2 ^ j ≡ ones j t) same low.bits in
    let old = old-bits j u hits bits in
    let range = old_history-IsHistory u low.valid in
    (
      u,
      sym same,
      after-history u
          ∙ bhr_update-mod k (old_history u) (old_history u).history_record t low.valid.few_bits
              range.size range.mask refl,
      ones-shift j (old_history u).history_record t old,
    )
  where
    same_entry : {o : Option BtbEntry} {e f : BtbEntry} → o ≡ some e → o ≡ some f → e ≡ f
    same_entry p q = cc

-- The record of the low bits after an update, from the bits alone.
after-IsLow :
    (w k j : ℕ) (t : Bool) (pc target_pc dst : ℕ) (b : Btb)
    → (u : IsUpdated w k b pc target_pc t dst)
    → predict_history u.after (new_entry u) % 2 ^ j ≡ ones j t
    → IsLow w k j t pc u.after
after-IsLow w k j t pc target_pc dst b u bits = record {
  valid = u.valid;
  entry = new_entry u;
  found = rw (after-index u pc) (after-found u);
  hits = λ _. (after-hit u).0;
  bits = bits;
}

-- An update with the outcome `t` adds one such bit.
pub update-IsLow :
    (w k j : ℕ) (t : Bool) (pc target_pc dst : ℕ) (b : Btb)
    → suc j ≤ k
    → IsLow w k j t pc b
    → (u : IsUpdated w k b pc target_pc t dst) × IsLow w k (suc j) t pc u.after
update-IsLow w k j t pc target_pc dst b h low =
    let (u, _, history, bits) = after-bits w k j t pc target_pc dst b low in
    let x = 2 * (old_history u).history_record + bit t in
    (
      u,
      after-IsLow w k (suc j) t pc target_pc dst b u
          (ap (λ (s : ℕ). s % 2 ^ suc j) history ∙ (mod_pow-mod (suc j) k x h ∙ bits)),
    )

pub ones-mod : (k : ℕ) (t : Bool) → ones (suc k) t % 2 ^ k ≡ ones k t
ones-mod k false = mod-eq_of_lt (omega (arith, pow-pos k)) ∙ omega arith
ones-mod k true =
    let split : ones (suc k) true ≡ 1 * 2 ^ k + ones k true =
      omega (arith, pow-suc 2 k, pow-pos k) in
    ap (λ (s : ℕ). s % 2 ^ k) split
    ∙ (mul-add-mod_self_right 1 (2 ^ k) (ones k true) ∙ mod-eq_of_lt (omega (arith, pow-pos k)))
