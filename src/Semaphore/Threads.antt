-- ===== src/Semaphore/Threads.antt =====
-- `n` threads that use one semaphore, interleaved in any order. A step is what a thread does from
-- taking the mutex until it gives it back or sleeps on the condition variable.
use com_tutor.Base.{ℕ, ◌+◌, ◌-◌, ◌<◌, ◌≡◌, ◌≢◌, ◌⊎◌, true, false, ◌==◌, if◌then◌else◌, update}
use com_tutor.Semaphore.{increment}

-- `inside` is a thread that has come through a wait and has not posted since. A sleeper that has
-- been woken tests the count again when it has the mutex.
pub data Pc : Type 0 where
  idle sleeps woken inside : Pc

-- `made` counts the posts of threads that were not inside, `used` the waits whose unit is never
-- posted again.
pub record System : Type 0 where
  pub count : ℕ
  pub pc : ℕ → Pc
  pub made : ℕ
  pub used : ℕ

-- One round of the loop of mysem_wait.
abbrev pub wait_round : ℕ → ℕ × Pc
wait_round c = if c == 0 then (c, sleeps) else (c - 1, inside)

abbrev pub is_inside : Pc → ℕ
is_inside inside = 1
is_inside _ = 0

-- A post by a thread in state `p`, which leaves the threads in the states `pc`.
abbrev pub posted : System → (p : Pc) → (pc : ℕ → Pc) → System
posted s p pc = record s { count = increment s.count; pc = pc; made = s.made + (1 - is_inside p) }

pub data Step (n : ℕ) (s : System) : System → Type 0 where
  wait :
      (i : ℕ) (p : Pc)
      → i < n
      → s.pc i ≡ p
      → (p ≡ idle) ⊎ (p ≡ woken)
      → Step n s
          (record s { count = (wait_round s.count).0; pc = update s.pc i (wait_round s.count).1 })
  trywait :
      (i : ℕ)
      → i < n
      → s.pc i ≡ idle
      → (s.count == 0) ≡ false
      → Step n s (record s { count = s.count - 1; pc = update s.pc i inside })
  -- A wake-up for no reason.
  spurious : (i : ℕ) → i < n → s.pc i ≡ sleeps → Step n s (record s { pc = update s.pc i woken })
  -- The thread keeps its unit for good.
  keep :
      (i : ℕ)
      → i < n
      → s.pc i ≡ inside
      → Step n s (record s { pc = update s.pc i idle; used = s.used + 1 })
  -- A post, by what it signals: nothing unless the count was 0, and then one sleeper, if there is one.
  post_quiet :
      (i : ℕ) (p : Pc)
      → i < n
      → s.pc i ≡ p
      → (p ≡ idle) ⊎ (p ≡ inside)
      → (s.count == 0) ≡ false
      → Step n s (posted s p (update s.pc i idle))
  post_signal :
      (i j : ℕ) (p : Pc)
      → i < n
      → j < n
      → s.pc i ≡ p
      → (p ≡ idle) ⊎ (p ≡ inside)
      → (s.count == 0) ≡ true
      → s.pc j ≡ sleeps
      → Step n s (posted s p (update (update s.pc i idle) j woken))
  post_signal_none :
      (i : ℕ) (p : Pc)
      → i < n
      → s.pc i ≡ p
      → (p ≡ idle) ⊎ (p ≡ inside)
      → (s.count == 0) ≡ true
      → ((j : ℕ) → j < n → s.pc j ≢ sleeps)
      → Step n s (posted s p (update s.pc i idle))

-- The states that come from a semaphore opened with `value`.
pub data Reach (n value : ℕ) : System → Type 0 where
  start : Reach n value (record { count = value; pc = λ _. idle; made = 0; used = 0 })
  later : {s t : System} → Reach n value s → Step n s t → Reach n value t
