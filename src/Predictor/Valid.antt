-- ===== src/Predictor/Valid.antt =====
-- HW1/bp.cpp: the invariant of the branch target buffer, and that no access leaves an array.
use native.Mathlib.Nat.{mod-lt}
use computer_structures.Base.{
  ℕ, ◌-◌, ◌%◌, ◌^◌, ◌≤◌, ◌<◌, ◌≡◌, refl, ◌∙◌, arith, Bool, true, false, not, ◌||◌, some, inl, inr,
  length, get_elem?, Bool-cases, shr, bit_and, bit_xor, pow-pos, low_mask, bit_and-mask, bit_xor-lt,
  ◌!=◌,
}
use computer_structures.Predictor.Fsm.{Bhr, bhr_update}
use computer_structures.Predictor.Btb.{
  Btb, BtbEntry, get_shared_history, get_entry_by_index, claim_entry,
}
use computer_structures.Predictor.Shift.{bhr_update-size, bhr_update-lt}
use computer_structures.Predictor.Tables.{IsTable, reset-IsTable}

-- A history register of `k` bits.
pub record IsHistory (k : ℕ) (b : Bhr) : Type 0 where
  pub size : b.history_size ≡ k
  pub mask : b.history_mask ≡ 2 ^ k - 1
  pub range : b.history_record < 2 ^ k

-- An entry; its register holds a history once the entry is valid.
pub record IsEntry (k : ℕ) (e : BtbEntry) : Type 0 where
  pub size : e.local_bhr.history_size ≡ k
  pub mask : e.local_bhr.history_mask ≡ 2 ^ k - 1
  pub range : e.valid ≡ true → e.local_bhr.history_record < 2 ^ k
  pub table : IsTable k e.local_table

-- A buffer of `2 ^ w` entries with `k` bits of history.
pub record IsValid (w k : ℕ) (b : Btb) : Type 0 where
  pub few_entries : w ≤ 31
  pub few_bits : k ≤ 31
  pub btb_size : b.btb_size ≡ 2 ^ w
  pub history_size : b.history_size ≡ k
  pub mask : b.entry_index_mask ≡ 2 ^ w - 1
  pub sized : length b.entries ≡ 2 ^ w
  pub history : IsHistory k b.global_bhr
  pub table : IsTable k b.global_table
  pub entries : (i : ℕ) (e : BtbEntry) → get_elem? b.entries i ≡ some e → IsEntry k e
  pub branch_count : b.update_counter < 2 ^ 32
  pub flush_count : b.flush_counter < 2 ^ 32

pub bhr_update-IsHistory :
    (k : ℕ) (b : Bhr) (taken : Bool)
    → k ≤ 31
    → b.history_size ≡ k
    → b.history_mask ≡ 2 ^ k - 1
    → IsHistory k (bhr_update b taken)
bhr_update-IsHistory k b taken h size mask =
    let (s, m) = bhr_update-size b taken in
    record { size = s ∙ size; mask = m ∙ mask; range = bhr_update-lt k b taken h size mask }

-- The index of an address lies in the array: it is the word address modulo the number of entries.
pub get_entry_by_index-mod :
    (w : ℕ) (b : Btb) (pc : ℕ)
    → b.entry_index_mask ≡ 2 ^ w - 1
    → get_entry_by_index b pc ≡ shr pc 2 % 2 ^ w
unfolding get_entry_by_index
get_entry_by_index-mod w b pc e = rw e (bit_and-mask w (shr pc 2))

pub get_entry_by_index-lt :
    (w : ℕ) (b : Btb) (pc : ℕ) → b.entry_index_mask ≡ 2 ^ w - 1 → get_entry_by_index b pc < 2 ^ w
get_entry_by_index-lt w b pc e =
    rw (get_entry_by_index-mod w b pc e) (mod-lt (shr pc 2) (pow-pos w))

xor_masked-lt :
    (k history x : ℕ) → history < 2 ^ k → bit_xor history (bit_and x (2 ^ k - 1)) < 2 ^ k
xor_masked-lt k history x range =
    rw (bit_and-mask k x) (bit_xor-lt k history (x % 2 ^ k) range (mod-lt x (pow-pos k)))

-- The shared history selects a machine of the table.
pub get_shared_history-lt :
    (k : ℕ) (b : Btb) (history pc : ℕ)
    → k ≤ 31
    → b.history_size ≡ k
    → history < 2 ^ k
    → get_shared_history b history pc < 2 ^ k
unfolding get_shared_history
get_shared_history-lt k b history pc h e range =
    rw (e, low_mask k h)
      (ground (
        arith,
        xor_masked-lt k history (shr pc 2) range,
        xor_masked-lt k history (shr pc 16) range,
      ))

-- A claimed entry is valid, and its register is in range.
pub record IsClaimed (k : ℕ) (e : BtbEntry) : Type 0 where
  pub valid : e.valid ≡ true
  pub history : IsHistory k e.local_bhr
  pub table : IsTable k e.local_table

pub claim_entry-IsClaimed :
    (k : ℕ) (e : BtbEntry) (tag target : ℕ) → IsEntry k e → IsClaimed k (claim_entry e tag target)
unfolding claim_entry
claim_entry-IsClaimed k e tag target v = elim (Bool-cases (not e.valid || e.tag != tag)) [
  | inl fresh ↦ rw fresh (record {
    valid = refl;
    history = record { size = v.size; mask = v.mask; range = pow-pos k };
    table = reset-IsTable false k e.local_table v.table.sized v.table.fresh;
  })
  | inr old ↦ rw old (record {
    valid = refl;
    history = record { size = v.size; mask = v.mask; range = v.range (ground arith) };
    table = v.table;
  })
]
