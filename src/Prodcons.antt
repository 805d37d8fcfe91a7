-- ===== src/Prodcons.antt =====
-- unixipc/pxsem/prodcons4.c: producers and consumers of numbered items that share a ring of ten slots,
-- with three semaphores. Sem_wait and Sem_post act on the counts at once, as is documented of them.
pub mod Threads
pub mod Invariant
pub mod Steps
pub mod Counts
pub mod Safety
pub mod Moves
pub mod Progress
pub mod Ends
mod Tests
use com_tutor.Base.{ℕ, ◌+◌, ◌-◌, ◌%◌, Option, none, some, leb, ◌==◌, if◌then◌else◌, update}

abbrev pub nbuff : ℕ
nbuff = 10

-- `shared`, with the semaphores as their counts; `errors` counts the messages of consume.
pub record Shared : Type 0 where
  pub buff : ℕ → ℕ
  pub nput : ℕ
  pub nputval : ℕ
  pub nget : ℕ
  pub ngetval : ℕ
  pub mutex : ℕ
  pub nempty : ℕ
  pub nstored : ℕ
  pub errors : ℕ

-- What main has initialised.
abbrev pub initial : Shared
initial = record {
  buff = λ i. 0;
  nput = 0;
  nputval = 0;
  nget = 0;
  ngetval = 0;
  mutex = 1;
  nempty = nbuff;
  nstored = 0;
  errors = 0;
}

-- Where a producer is: before the two waits, with the mutex, before the two posts; and, when all items
-- are put, before the last two posts, or done.
pub data Producer : Type 0 where
  at_empty at_mutex putting unlocking posting ending leaving finished : Producer

-- A step of produce, from one semaphore call to the next; none if the thread waits or is done.
unfoldable pub produce : (nitems : ℕ) → Shared → Producer → Option (Producer × Shared)
produce nitems s at_empty =
    if s.nempty == 0 then none else some (at_mutex, record s { nempty = s.nempty - 1 })
produce nitems s at_mutex =
    if s.mutex == 0 then none else some (putting, record s { mutex = s.mutex - 1 })
produce nitems s putting =
    if leb nitems s.nput
    then some (ending, record s { nstored = s.nstored + 1 })
    else some (
      unlocking,
      record s {
        buff = update s.buff (s.nput % nbuff) s.nputval;
        nput = s.nput + 1;
        nputval = s.nputval + 1;
      },
    )
produce nitems s unlocking = some (posting, record s { mutex = s.mutex + 1 })
produce nitems s posting = some (at_empty, record s { nstored = s.nstored + 1 })
produce nitems s ending = some (leaving, record s { nempty = s.nempty + 1 })
produce nitems s leaving = some (finished, record s { mutex = s.mutex + 1 })
produce nitems s finished = none

pub data Consumer : Type 0 where
  at_stored to_lock getting to_unlock to_post to_leave ended : Consumer

unfoldable pub consume : (nitems : ℕ) → Shared → Consumer → Option (Consumer × Shared)
consume nitems s at_stored =
    if s.nstored == 0 then none else some (to_lock, record s { nstored = s.nstored - 1 })
consume nitems s to_lock =
    if s.mutex == 0 then none else some (getting, record s { mutex = s.mutex - 1 })
consume nitems s getting =
    if leb nitems s.nget
    then some (to_leave, record s { nstored = s.nstored + 1 })
    else some (
      to_unlock,
      record s {
        errors = if s.buff (s.nget % nbuff) == s.ngetval then s.errors else s.errors + 1;
        nget = s.nget + 1;
        ngetval = s.ngetval + 1;
      },
    )
consume nitems s to_unlock = some (to_post, record s { mutex = s.mutex + 1 })
consume nitems s to_post = some (at_stored, record s { nempty = s.nempty + 1 })
consume nitems s to_leave = some (ended, record s { mutex = s.mutex + 1 })
consume nitems s ended = none
