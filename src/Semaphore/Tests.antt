-- ===== src/Semaphore/Tests.antt =====
-- The properties of the semaphores at concrete semaphores, states of threads and answers.
use com_tutor.Base.{
  ℕ, zero, ◌+◌, ◌<◌, ◌≡◌, refl, inl, true, false, none, some, [], ◌∷◌, arith, update,
}
use com_tutor.Base.Counts.{total}
use com_tutor.Base.Errno.{enoent, eexist, einval}
use com_tutor.SharedFile.{stat_error, mode, wait_ready}
use com_tutor.Semaphore.{Sem, sem_magic}
use com_tutor.Semaphore.Threads.{idle, sleeps, inside, System, is_inside, Reach, start, later, wait}
use com_tutor.Semaphore.Invariant.{tokens_conserved}
use com_tutor.Semaphore.Wakeups.{CanGoOn, binary_no_lost_wakeup}
use com_tutor.Semaphore.Open.{
  Answers, created, attached, open_failed, pass, passes, mysem_open, create, attach, initialise,
}
use com_tutor.Semaphore.Open.Laws.{IsLost, IsReady}

-- Thread 0 is inside a semaphore opened with 1, and thread 1 sleeps.
abbrev taken : System
taken = record { count = 0; pc = update (update (λ _. idle) 0 inside) 1 sleeps; made = 0; used = 0 }

taken-Reach : Reach 4 1 taken
taken-Reach =
    later (later start (wait 0 idle (omega arith) refl (inl refl)))
      (wait 1 idle (omega arith) refl (inl refl))

tokens_conserved_example : 0 + total is_inside 4 taken.pc + 0 ≡ 1 + 0
tokens_conserved_example = tokens_conserved taken-Reach (omega arith)

binary_no_lost_wakeup_example : (j : ℕ) × (j < 4) × CanGoOn (taken.pc j)
binary_no_lost_wakeup_example = binary_no_lost_wakeup taken-Reach refl refl 1 (omega arith) refl

-- Threads 1 and 2 sleep for a semaphore opened with 0; thread 0 will post.
abbrev two_sleep : System
two_sleep = record {
  count = 0;
  pc = update (update (λ _. idle) 1 sleeps) 2 sleeps;
  made = 0;
  used = 0;
}

two_sleep-Reach : Reach 4 0 two_sleep
two_sleep-Reach =
    later (later start (wait 1 idle (omega arith) refl (inl refl)))
      (wait 2 idle (omega arith) refl (inl refl))

abbrev units : ℕ → Sem
units c = record { magic = sem_magic; count = c }

-- Every system call succeeds, and the file is found ready in the second round.
abbrev fine : Answers
fine = record {
  excl_open = none;
  write = none;
  mmap = none;
  mutexattr_init = 0;
  mutex_init = 0;
  condattr_init = 0;
  cond_init = 0;
  fchmod = none;
  plain_open = none;
  attach_mmap = none;
  stats = λ i. elim i [ zero ↦ mode true | _ ↦ mode false ];
  shared = units 7;
}

abbrev there : Answers
there = record fine { excl_open = some eexist }

abbrev vanishing : Answers
vanishing = record there { stats = λ i. stat_error enoent }

vanishing-IsLost : IsLost vanishing
unfolding wait_ready
vanishing-IsLost = record { there = refl; opened = refl; mapped = refl; vanished = refl }

there-IsReady : IsReady there
unfolding wait_ready
there-IsReady = record { there = refl; opened = refl; mapped = refl; fine = refl }

creates_runs : mysem_open true false 3 100 (fine ∷ []) ≡ created (units 3) 0
unfolding mysem_open passes pass create initialise
creates_runs = refl

attaches_runs : mysem_open false false 3 100 (fine ∷ []) ≡ attached (units 7) 0
unfolding mysem_open passes pass attach wait_ready
attaches_runs = refl

refuses_runs : mysem_open true false 300 100 (fine ∷ []) ≡ open_failed einval true true 0
unfolding mysem_open passes pass create initialise
refuses_runs = refl
