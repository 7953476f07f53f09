-- ===== src/Predictor/Counters.antt =====
-- HW1/bp.cpp: a bimodal machine is a counter that saturates, and two equal outcomes set it.
use computer_structures.Base.{ℕ, ◌+◌, ◌-◌, ◌≤◌, ◌≡◌, arith, Bool, true, false, min, if◌then◌else◌}
use computer_structures.Base.Int.{pos, pos_part, ◌≤ℤ◌}
use computer_structures.Predictor.Fsm.{BimodalFsm, snt, st, fsm_update}
use computer_structures.Predictor.Btb.{is_taken_state}

-- The state is one of the four of the machine.
abbrev pub IsState : BimodalFsm → Type 0
IsState m = (snt ≤ℤ m.state) × (m.state ≤ℤ st)

-- Whatever int the machine held, an update leaves one of its four states.
pub fsm_update-IsState : (m : BimodalFsm) (taken : Bool) → IsState (fsm_update m taken)
unfolding fsm_update
fsm_update-IsState m taken = ground arith

-- On the four states an update counts up to 3 or down to 0.
pub fsm_update_saturates :
    (n : ℕ) (taken : Bool)
    → n ≤ 3
    → (fsm_update (record { state = pos n }) taken).state
      ≡ pos (if taken then min 3 (n + 1) else n - 1)
unfolding fsm_update
fsm_update_saturates n taken h = ground arith

-- From one of the four states, two equal outcomes in a row make the prediction that outcome.
pub fsm_update_twice :
    (m : BimodalFsm) (taken : Bool)
    → IsState m
    → is_taken_state (fsm_update (fsm_update m taken) taken).state ≡ taken
unfolding fsm_update
fsm_update_twice m taken h = ground arith

IsState-pos : (m : BimodalFsm) → IsState m → (n : ℕ) × (n ≤ 3) × (m.state ≡ pos n)
IsState-pos m h = (pos_part m.state, ground arith, ground arith)

abbrev count : ℕ → Bool → ℕ
count n taken = if taken then min 3 (n + 1) else n - 1

fsm_update-count :
    (m : BimodalFsm) (n : ℕ) (taken : Bool)
    → n ≤ 3
    → m.state ≡ pos n
    → (fsm_update m taken).state ≡ pos (count n taken)
unfolding fsm_update
fsm_update-count m n taken h e = ground arith

count_hysteresis :
    (n : ℕ) (taken other : Bool)
    → n ≤ 3
    → is_taken_state (pos (count (count (count (count n taken) taken) taken) other)) ≡ taken
count_hysteresis n true true h = ground arith
count_hysteresis n true false h = ground arith
count_hysteresis n false true h = ground arith
count_hysteresis n false false h = ground arith

count-le : (n : ℕ) (taken : Bool) → n ≤ 3 → count n taken ≤ 3
count-le n taken h = ground arith

-- After three equal outcomes from one of the four states, one outcome to the contrary does not turn
-- the prediction.
pub fsm_update_hysteresis :
    (m : BimodalFsm) (taken other : Bool)
    → IsState m
    → is_taken_state
        (fsm_update (fsm_update (fsm_update (fsm_update m taken) taken) taken) other).state
      ≡ taken
fsm_update_hysteresis m taken other h =
    let (n, small, e) = IsState-pos m h in
    let c1 = count-le n taken small in
    let c2 = count-le (count n taken) taken c1 in
    let c3 = count-le (count (count n taken) taken) taken c2 in
    let e1 = fsm_update-count m n taken small e in
    let e2 = fsm_update-count (fsm_update m taken) (count n taken) taken c1 e1 in
    let e3 =
      fsm_update-count (fsm_update (fsm_update m taken) taken) (count (count n taken) taken) taken
        c2 e2 in
    rw
      (fsm_update-count (fsm_update (fsm_update (fsm_update m taken) taken) taken)
        (count (count (count n taken) taken) taken) other c3 e3)
      (count_hysteresis n taken other small)
