-- ===== src/ProcessPool/Invariant.antt =====
-- What the statuses, navail and the pipes say of the children in every reachable state.
use com_tutor.Base.{ℕ, ◌+◌, ◌≤◌, ◌<◌, ◌≡◌, Bool, true, false, List, length}
use com_tutor.Base.Counts.{total}
use com_tutor.ProcessPool.{Child, reading, Place, selecting, scanning, State, bit}
use com_tutor.ProcessPool.Processes.{World}

abbrev pub works : Child → ℕ
works reading = 0
works _ = 1

-- The connections of child `i`: on the way to it, in work, or done and not yet told to the parent.
abbrev pub load : (passed : List ℕ) → Child → (told : ℕ) → ℕ
load passed c told = length passed + works c + told

abbrev pub free : Bool → ℕ
free true = 0
free false = 1

-- The loop over the children: those from `i` on that are in rset have written, and nsel counts them.
abbrev pub Scan : (n : ℕ) → State → Place → Type 0
Scan n s selecting = Unit
Scan n s (scanning i nsel rset) =
    (i ≤ n)
    × ((j : ℕ) → i ≤ j → j < n → rset j ≡ true → 0 < s.told j)
    × (nsel + total bit i rset ≡ total bit n rset)
    × (0 < nsel)

pub record Holds (n : ℕ) (w : World) : Type 0 where
  pub loads :
      (i : ℕ)
      → i < n
      → load (w.state.passed i) (w.children i) (w.state.told i) ≡ bit (w.state.child_status i)
  pub available : w.state.navail ≡ total free n w.state.child_status
  pub counted : total (λ k. k) n w.state.child_count ≡ w.state.accepted
  pub scan : Scan n w.state w.place
