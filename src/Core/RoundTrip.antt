-- ===== src/Core/RoundTrip.antt =====
-- HW4/sim_api.c: what a read of the data memory finds after a write.
use computer_structures.Base.{
  ℕ, ◌+◌, ◌-◌, ◌*◌, ◌/◌, ◌^◌, ◌≤◌, ◌<◌, ◌≡◌, refl, sym, ap, ◌∙◌, arith, Option, none, some, List,
  if◌then◌else◌, ltb, ◌==◌, ==-refl, ==-ne, eq_cases, inl, inr, length, get_elem?, set, write-set,
  get_elem?-set_self, get_elem?-set_ne, u32, sub32,
}
use computer_structures.Core.Memory.{Memory, data_index, sim_mem_data_read, sim_mem_data_write}

-- The address of word `k` of the data block.
abbrev pub address : Memory → ℕ → ℕ
address m k = u32 (m.data_start + 4 * k)

sub32-address : (s k : ℕ) → s < 2 ^ 32 → k < 2 ^ 29 → sub32 (u32 (s + 4 * k)) s ≡ 4 * k
sub32-address s k hs hk = omega arith

index_of :
    (a : ℕ)
    → a < 2 ^ 31
    → (if ltb a (2 ^ 31) then some (a / 4) else if ltb (2 ^ 32 - a) 4 then some 0 else none)
      ≡ some (a / 4)
index_of a h = ground arith

pub data_index-address :
    (m : Memory) (k : ℕ) → m.data_start < 2 ^ 32 → k < 2 ^ 29 → data_index m (address m k) ≡ some k
unfolding data_index
data_index-address m k hs hk =
    rw (sub32-address m.data_start k hs hk) (index_of (4 * k) (omega arith) ∙ ap some (omega arith))

pub read_at :
    (m : Memory) (k : ℕ)
    → m.data_start < 2 ^ 32
    → k < 2 ^ 29
    → sim_mem_data_read m (address m k) ≡ get_elem? m.words k
unfolding sim_mem_data_read
read_at m k hs hk = rw (data_index-address m k hs hk, sim_mem_data_read) refl

pub write_at :
    (m : Memory) (k v : ℕ)
    → m.data_start < 2 ^ 32
    → k < length m.words
    → length m.words ≤ 2 ^ 29
    → sim_mem_data_write m (address m k) v ≡ some (record m { words = set m.words k v })
unfolding sim_mem_data_write
write_at m k v hs hk few =
    rw (data_index-address m k hs (omega arith), sim_mem_data_write) (rw (write-set m.words k v hk))

get_elem?-set_if :
    {A : Type 0} (xs : List A) (k j : ℕ) (v : A)
    → k < length xs
    → get_elem? (set xs k v) j ≡ (if k == j then some v else get_elem? xs j)
get_elem?-set_if xs k j v h = elim (eq_cases k j) [
  | inl same ↦ rw (← same) (rw (==-refl k) (get_elem?-set_self xs k v h))
  | inr ne ↦ rw (==-ne k j ne) (get_elem?-set_ne xs k j v ne)
]

-- In a data block of up to 2 ^ 29 words, a write to the address of one of its words returns, and
-- then the read of that word finds the value that was written, and the read of any other word what
-- it found before.
pub sim_mem_data_read-write :
    (m : Memory) (k j v : ℕ)
    → m.data_start < 2 ^ 32
    → length m.words ≤ 2 ^ 29
    → k < length m.words
    → j < 2 ^ 29
    → (m' : Memory) × (sim_mem_data_write m (address m k) v ≡ some m')
      × (sim_mem_data_read m' (address m j)
          ≡ (if k == j then some v else sim_mem_data_read m (address m j)))
sim_mem_data_read-write m k j v hs few hk hj =
    let m' : Memory = record m { words = set m.words k v } in
    (
      m',
      write_at m k v hs hk few,
      read_at m' j hs hj
          ∙ (get_elem?-set_if m.words k j v hk
              ∙ ap (λ (o : Option ℕ). if k == j then some v else o) (sym (read_at m j hs hj))),
    )
