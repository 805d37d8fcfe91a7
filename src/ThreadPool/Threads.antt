-- ===== src/ThreadPool/Threads.antt =====
-- Main and `n` threads of the pool, interleaved in any order.
use com_tutor.Base.{ℕ, ◌+◌, ◌<◌, ◌≡◌, ◌≢◌, some, update}
use com_tutor.ThreadPool.{
  Shared, initial, Main, accepting, signalling, unlocking, main_step, Worker, at_lock, waiting,
  woken, worker_step, credit,
}

pub record World : Type 0 where
  pub shared : Shared
  pub main : Main
  pub workers : ℕ → Worker
  pub thread_count : ℕ → ℕ

pub data Step (n : ℕ) (w : World) : World → Type 0 where
  main_goes :
      (connfd : ℕ) (m' : Main) (s' : Shared)
      → main_step connfd w.shared w.main ≡ some (m', s')
      → Step n w (record w { shared = s'; main = m' })
  -- pthread_cond_signal wakes a thread that waits; with none it does nothing.
  signals :
      (i : ℕ)
      → w.main ≡ signalling
      → i < n
      → w.workers i ≡ waiting
      → Step n w (record w { main = unlocking; workers = update w.workers i woken })
  signals_nobody :
      w.main ≡ signalling
      → ((i : ℕ) → i < n → w.workers i ≢ waiting)
      → Step n w (record w { main = unlocking })
  -- A wait may also end by itself.
  wakes :
      (i : ℕ)
      → i < n
      → w.workers i ≡ waiting
      → Step n w (record w { workers = update w.workers i woken })
  worker_goes :
      (i : ℕ) (p p' : Worker) (s' : Shared)
      → i < n
      → w.workers i ≡ p
      → worker_step w.shared p ≡ some (p', s')
      → Step n w (record w {
        shared = s';
        workers = update w.workers i p';
        thread_count = update w.thread_count i (w.thread_count i + credit p);
      })

abbrev pub start : World
start = record { shared = initial; main = accepting; workers = λ i. at_lock; thread_count = λ i. 0 }

pub data Reach (n : ℕ) : World → Type 0 where
  begins : Reach n start
  later : {w w' : World} → Reach n w → Step n w w' → Reach n w'
