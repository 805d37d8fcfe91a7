-- ===== src/ThreadPool.antt =====
-- unixNetV1/server/serv08.c, pthread08.c and pthread08.h: the main thread accepts connections into a
-- ring, and a pool of threads takes them from it. Each `…_step` is one step of a thread: it gives the
-- thread's next place and the shared variables, or nothing where the thread is blocked.
pub mod Threads
pub mod Invariant
pub mod Steps
pub mod Workers
pub mod Safety
pub mod Progress
pub mod Refines
mod Tests
use com_tutor.Base.{
  ℕ, ◌+◌, ◌-◌, Option, none, some, List, [], ◌∷◌, ◌++◌, ◌==◌, if◌then◌else◌, update,
}

abbrev pub maxncli : ℕ
maxncli = 32

-- clifd_mutex is 1 when it is free. `put` and `taken` are the connections that have been stored in
-- the ring and taken from it, in order.
pub record Shared : Type 0 where
  pub mutex : ℕ
  pub clifd : ℕ → ℕ
  pub iget : ℕ
  pub iput : ℕ
  pub put : List ℕ
  pub taken : List ℕ

abbrev pub initial : Shared
initial = record { mutex = 1; clifd = λ i. 0; iget = 0; iput = 0; put = []; taken = [] }

-- `if (++i == MAXNCLI) i = 0`.
abbrev pub next : ℕ → ℕ
next i = if i + 1 == maxncli then 0 else i + 1

-- Where main is: before Accept, before the lock with a connection, before the store, before the
-- signal, before the unlock; or it has ended the program.
pub data Main : Type 0 where
  accepting signalling unlocking quitting : Main
  to_lock storing : (connfd : ℕ) → Main

-- The store at iput and the test for a full ring.
abbrev pub store : (connfd : ℕ) → Shared → Main × Shared
store connfd s =
    let iput : ℕ = next s.iput in
    (
      if iput == s.iget then quitting else signalling,
      record s { clifd = update s.clifd s.iput connfd; iput = iput; put = s.put ++ (connfd ∷ []) },
    )

-- The steps of main but for the signal, which reaches a waiting thread.
unfoldable pub main_step : (connfd : ℕ) → Shared → Main → Option (Main × Shared)
main_step connfd s accepting = some (to_lock connfd, s)
main_step _ s (to_lock connfd) =
    if s.mutex == 0 then none else some (storing connfd, record s { mutex = s.mutex - 1 })
main_step _ s (storing connfd) = some (store connfd s)
main_step _ s signalling = none
main_step _ s unlocking = some (accepting, record s { mutex = s.mutex + 1 })
main_step _ s quitting = none

-- Where a thread of the pool is: before the lock, before the test for an empty ring, in
-- pthread_cond_wait, woken there and before the lock again; and with a connection, before the unlock,
-- before it counts it, and before it has served and closed it.
pub data Worker : Type 0 where
  at_lock testing waiting woken : Worker
  to_unlock to_count to_serve : (connfd : ℕ) → Worker

-- The test, and what follows it: the wait, which frees the mutex, or the connection at iget.
abbrev pub take_next : Shared → Worker × Shared
take_next s = if s.iget == s.iput then (waiting, record s { mutex = s.mutex + 1 }) else (
  to_unlock (s.clifd s.iget),
  record s { iget = next s.iget; taken = s.taken ++ (s.clifd s.iget ∷ []) },
)

abbrev pub lock : Shared → Option (Worker × Shared)
lock s = if s.mutex == 0 then none else some (testing, record s { mutex = s.mutex - 1 })

unfoldable pub worker_step : Shared → Worker → Option (Worker × Shared)
worker_step s at_lock = lock s
worker_step s testing = some (take_next s)
worker_step s waiting = none
worker_step s woken = lock s
worker_step s (to_unlock connfd) = some (to_count connfd, record s { mutex = s.mutex + 1 })
worker_step s (to_count connfd) = some (to_serve connfd, s)
worker_step s (to_serve connfd) = some (at_lock, s)

-- What a step adds to thread_count.
abbrev pub credit : Worker → ℕ
credit (to_count connfd) = 1
credit _ = 0
