-- ===== src/RwLock/Threads.antt =====
-- `n` threads that use one lock, interleaved in any order. Between two steps nobody holds the mutex:
-- a step is what a thread does from taking the mutex until it gives it back or sleeps on a condition
-- variable.
use com_tutor.Base.{ℕ, ◌+◌, ◌-◌, ◌<◌, ◌≡◌, ◌≢◌, ◌⊎◌, false, if◌then◌else◌, update}
use com_tutor.Base.Int.{pos, negsuc, is_pos, inc, dec}
use com_tutor.RwLock.{
  Lock, rw_magic, rd_blocked, wr_blocked, quiet, one_writer, all_readers, signal_of,
}

-- What a thread is doing. A sleeper that has been woken, by a signal or for no reason, is not in
-- the lock yet: it goes on when it has the mutex again.
pub data Pc : Type 0 where
  idle rd_sleeps rd_woken wr_sleeps wr_woken reading writing : Pc

pub record System : Type 0 where
  pub lock : Lock
  pub pc : ℕ → Pc

-- One round of the loop of rdlock: the lock, or a place among the waiting readers.
abbrev pub rd_round : Lock → Lock × Pc
rd_round l =
    if rd_blocked l
    then (record l { nwaitreaders = l.nwaitreaders + 1 }, rd_sleeps)
    else (record l { refcount = inc l.refcount }, reading)

abbrev pub wr_round : Lock → Lock × Pc
wr_round l =
    if wr_blocked l
    then (record l { nwaitwriters = l.nwaitwriters + 1 }, wr_sleeps)
    else (record l { refcount = negsuc 0 }, writing)

-- The count after a reader or the writer has left.
abbrev pub left : Lock → Lock
left l = record l { refcount = (if is_pos l.refcount then dec l.refcount else pos 0) }

-- The broadcast: every sleeping reader is woken.
abbrev pub wake_reader : Pc → Pc
wake_reader rd_sleeps = rd_woken
wake_reader p = p

pub data Step (n : ℕ) (s : System) : System → Type 0 where
  rdlock :
      (i : ℕ)
      → i < n
      → s.pc i ≡ idle
      → Step n s (record { lock = (rd_round s.lock).0; pc = update s.pc i (rd_round s.lock).1 })
  -- The return from pthread_cond_wait, and the next round.
  rd_return :
      (i : ℕ) (l : Lock)
      → i < n
      → s.pc i ≡ rd_woken
      → l ≡ record s.lock { nwaitreaders = s.lock.nwaitreaders - 1 }
      → Step n s (record { lock = (rd_round l).0; pc = update s.pc i (rd_round l).1 })
  wrlock :
      (i : ℕ)
      → i < n
      → s.pc i ≡ idle
      → Step n s (record { lock = (wr_round s.lock).0; pc = update s.pc i (wr_round s.lock).1 })
  wr_return :
      (i : ℕ) (l : Lock)
      → i < n
      → s.pc i ≡ wr_woken
      → l ≡ record s.lock { nwaitwriters = s.lock.nwaitwriters - 1 }
      → Step n s (record { lock = (wr_round l).0; pc = update s.pc i (wr_round l).1 })
  -- A try that finds the lock taken changes nothing, and is no step.
  tryrdlock :
      (i : ℕ)
      → i < n
      → s.pc i ≡ idle
      → rd_blocked s.lock ≡ false
      → Step n s (record {
        lock = record s.lock { refcount = inc s.lock.refcount };
        pc = update s.pc i reading;
      })
  trywrlock :
      (i : ℕ)
      → i < n
      → s.pc i ≡ idle
      → wr_blocked s.lock ≡ false
      → Step n s
          (record { lock = record s.lock { refcount = negsuc 0 }; pc = update s.pc i writing })
  -- A wake-up for no reason.
  rd_spurious :
      (i : ℕ) → i < n → s.pc i ≡ rd_sleeps → Step n s (record s { pc = update s.pc i rd_woken })
  wr_spurious :
      (i : ℕ) → i < n → s.pc i ≡ wr_sleeps → Step n s (record s { pc = update s.pc i wr_woken })
  -- unlock, by what it sends; the signal wakes one sleeping writer, if there is one.
  unlock_quiet :
      (i : ℕ) (p : Pc)
      → i < n
      → s.pc i ≡ p
      → (p ≡ reading) ⊎ (p ≡ writing)
      → signal_of (left s.lock) ≡ quiet
      → Step n s (record { lock = left s.lock; pc = update s.pc i idle })
  unlock_signal :
      (i j : ℕ) (p : Pc)
      → i < n
      → j < n
      → s.pc i ≡ p
      → (p ≡ reading) ⊎ (p ≡ writing)
      → signal_of (left s.lock) ≡ one_writer
      → s.pc j ≡ wr_sleeps
      → Step n s (record { lock = left s.lock; pc = update (update s.pc i idle) j wr_woken })
  unlock_signal_none :
      (i : ℕ) (p : Pc)
      → i < n
      → s.pc i ≡ p
      → (p ≡ reading) ⊎ (p ≡ writing)
      → signal_of (left s.lock) ≡ one_writer
      → ((j : ℕ) → j < n → s.pc j ≢ wr_sleeps)
      → Step n s (record { lock = left s.lock; pc = update s.pc i idle })
  unlock_broadcast :
      (i : ℕ) (p : Pc)
      → i < n
      → s.pc i ≡ p
      → (p ≡ reading) ⊎ (p ≡ writing)
      → signal_of (left s.lock) ≡ all_readers
      → Step n s (record { lock = left s.lock; pc = update (λ j. wake_reader (s.pc j)) i idle })

abbrev pub start_lock : Lock
start_lock = record { magic = rw_magic; nwaitreaders = 0; nwaitwriters = 0; refcount = pos 0 }

pub data Reach (n : ℕ) : System → Type 0 where
  start : Reach n (record { lock = start_lock; pc = λ _. idle })
  later : {s t : System} → Reach n s → Step n s t → Reach n t
