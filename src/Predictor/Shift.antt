-- ===== src/Predictor/Shift.antt =====
-- HW1/bp.cpp: the history register is a shift register of the last outcomes.
use native.Mathlib.Nat.{mod-lt, mod-add-mod, mul-add-mod_self_right, div-add-mod', pow-suc, mod-mod}
use computer_structures.Base.{
  ℕ, ◌+◌, ◌-◌, ◌*◌, ◌/◌, ◌%◌, ◌^◌, ◌≤◌, ◌<◌, ◌≡◌, refl, sym, ap, ◌∙◌, arith, Bool, List, [], ◌∷◌,
  if◌then◌else◌, length, shl32, u32-mod, mul_pow-mod, bit_and-mask, pow-pos,
}
use computer_structures.Predictor.Fsm.{Bhr, bhr_update}

abbrev pub bit : Bool → ℕ
bit b = if b then 1 else 0

pub double-mod : (m a t : ℕ) → 0 < m → (2 * (a % m) + t) % m ≡ (2 * a + t) % m
double-mod m a t h =
    let q = a / m in
    let r = a % m in
    let e : q * m + r ≡ a = div-add-mod' a m in
    let s : (2 * q) * m + (2 * r + t) ≡ 2 * a + t = omega (arith, e) in
    rw (← s) (sym (mul-add-mod_self_right (2 * q) m (2 * r + t)))

-- The update shifts in the outcome and keeps `history_size` bits, whatever the register held.
pub bhr_update_lem :
    (b : Bhr) (taken : Bool)
    → b.history_size ≤ 31
    → b.history_mask ≡ 2 ^ b.history_size - 1
    → (bhr_update b taken).history_record ≡ (2 * b.history_record + bit taken) % 2 ^ b.history_size
unfolding bhr_update
bhr_update_lem b taken h e =
    rw (e, bit_and-mask b.history_size)
      (u32-mod b.history_size _ (omega arith)
        ∙ (sym (mod-add-mod (shl32 b.history_record 1) (2 ^ b.history_size) (bit taken))
            ∙ (ap (λ (t : ℕ). (t + bit taken) % 2 ^ b.history_size)
                  (u32-mod b.history_size (b.history_record * 2 ^ 1) (omega arith))
                ∙ (mod-add-mod (b.history_record * 2 ^ 1) (2 ^ b.history_size) (bit taken)
                    ∙ ap (λ (t : ℕ). (t + bit taken) % 2 ^ b.history_size) (omega arith)))))

pub bhr_update-mod :
    (k : ℕ) (b : Bhr) (acc : ℕ) (taken : Bool)
    → k ≤ 31
    → b.history_size ≡ k
    → b.history_mask ≡ 2 ^ k - 1
    → b.history_record % 2 ^ k ≡ acc % 2 ^ k
    → (bhr_update b taken).history_record ≡ (2 * acc + bit taken) % 2 ^ k
bhr_update-mod k b acc taken h w e same =
    bhr_update_lem b taken (rw w h) (e ∙ ap (λ (x : ℕ). 2 ^ x - 1) (sym w))
    ∙ (ap (λ (x : ℕ). (2 * b.history_record + bit taken) % 2 ^ x) w
        ∙ (sym (double-mod (2 ^ k) b.history_record (bit taken) (pow-pos k))
            ∙ (ap (λ (x : ℕ). (2 * x + bit taken) % 2 ^ k) same
                ∙ double-mod (2 ^ k) acc (bit taken) (pow-pos k))))

-- The register after a list of outcomes, oldest first.
unfoldable pub bhr_updates : Bhr → List Bool → Bhr
bhr_updates b [] = b
bhr_updates b (taken ∷ outcomes) = bhr_updates (bhr_update b taken) outcomes

-- The outcomes as binary digits, the newest the lowest, below the number `acc`.
abbrev pub shift_in : ℕ → List Bool → ℕ
shift_in acc [] = acc
shift_in acc (taken ∷ outcomes) = shift_in (2 * acc + bit taken) outcomes

shift_in-split :
    (acc : ℕ) (outcomes : List Bool)
    → shift_in acc outcomes ≡ acc * 2 ^ length outcomes + shift_in 0 outcomes
shift_in-split acc [] = omega arith
shift_in-split acc (taken ∷ outcomes) = omega (
  arith,
  shift_in-split (2 * acc + bit taken) outcomes,
  shift_in-split (2 * 0 + bit taken) outcomes,
  ap (λ (t : ℕ). acc * t) (pow-suc 2 (length outcomes)),
)

pub bhr_update-size :
    (b : Bhr) (taken : Bool)
    → ((bhr_update b taken).history_size ≡ b.history_size)
      × ((bhr_update b taken).history_mask ≡ b.history_mask)
unfolding bhr_update
bhr_update-size b taken = (refl, refl)

bhr_updates-mod :
    (k : ℕ) (b : Bhr) (acc : ℕ) (taken : Bool) (outcomes : List Bool)
    → k ≤ 31
    → b.history_size ≡ k
    → b.history_mask ≡ 2 ^ k - 1
    → b.history_record % 2 ^ k ≡ acc % 2 ^ k
    → (bhr_updates b (taken ∷ outcomes)).history_record ≡ shift_in acc (taken ∷ outcomes) % 2 ^ k
unfolding bhr_updates
bhr_updates-mod k b acc taken [] h w e same = bhr_update-mod k b acc taken h w e same
bhr_updates-mod k b acc taken (t ∷ outcomes) h w e same =
    let (size, mask) = bhr_update-size b taken in
    let stepped = bhr_update-mod k b acc taken h w e same in
    bhr_updates-mod k (bhr_update b taken) (2 * acc + bit taken) t outcomes h (size ∙ w) (mask ∙ e)
      (ap (λ (x : ℕ). x % 2 ^ k) stepped ∙ mod-mod (2 * acc + bit taken) (2 ^ k))

-- Once `history_size` outcomes or more, and one at least, have been seen, a history register of up
-- to 31 bits holds exactly the newest `history_size` of them, whatever it held before: the next
-- outcomes as a binary number, cut to `history_size` bits.
pub bhr_updates_lem :
    (b : Bhr) (taken : Bool) (outcomes : List Bool)
    → b.history_size ≤ 31
    → b.history_mask ≡ 2 ^ b.history_size - 1
    → b.history_size ≤ length (taken ∷ outcomes)
    → (bhr_updates b (taken ∷ outcomes)).history_record
      ≡ shift_in 0 (taken ∷ outcomes) % 2 ^ b.history_size
bhr_updates_lem b taken outcomes h e enough =
    bhr_updates-mod b.history_size b b.history_record taken outcomes h refl e refl
    ∙ (ap (λ (x : ℕ). x % 2 ^ b.history_size) (shift_in-split b.history_record (taken ∷ outcomes))
        ∙ mul_pow-mod b.history_size (length (taken ∷ outcomes)) b.history_record
            (shift_in 0 (taken ∷ outcomes)) enough)

-- Whatever the register held, an update leaves it in range.
pub bhr_update-lt :
    (k : ℕ) (b : Bhr) (taken : Bool)
    → k ≤ 31
    → b.history_size ≡ k
    → b.history_mask ≡ 2 ^ k - 1
    → (bhr_update b taken).history_record < 2 ^ k
bhr_update-lt k b taken h w e =
    rw (bhr_update-mod k b b.history_record taken h w e refl)
      (mod-lt (2 * b.history_record + bit taken) (pow-pos k))
