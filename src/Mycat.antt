-- ===== src/Mycat.antt =====
-- unixipc/pxsem/mycat2.c: a thread that reads a file and one that writes it to the output, with a ring
-- of eight buffers and three semaphores between them. Sem_wait and Sem_post act on the counts at once.
pub mod Threads
pub mod Invariant
pub mod Steps
pub mod Writes
pub mod Safety
pub mod Progress
mod Tests
use com_tutor.Base.{
  ℕ, zero, suc, ◌+◌, ◌-◌, Bool, true, false, Option, none, some, List, [], ◌∷◌, ◌++◌, leb, ◌==◌,
  if◌then◌else◌, update,
}

abbrev pub nbuff : ℕ
nbuff = 8

-- BUFFSIZE of unixipc/pxsem/unpipc.h
abbrev pub buffsize : ℕ
buffsize = 8192

-- `shared`, with the semaphores as their counts: a buffer is its first `n` bytes. `output` are the bytes
-- that Write has written.
pub record Shared : Type 0 where
  pub buff : ℕ → List ℕ
  pub mutex : ℕ
  pub nempty : ℕ
  pub nstored : ℕ
  pub output : List ℕ

-- What main has initialised.
abbrev pub initial : Shared
initial = record { buff = λ i. []; mutex = 1; nempty = nbuff; nstored = 0; output = [] }

-- `if (++i >= NBUFF) i = 0;`
abbrev pub next : ℕ → ℕ
next i = if leb nbuff (i + 1) then 0 else i + 1

-- Where the reader is: before a wait, in the critical region, before Read, before a post, or done.
pub data Reader : Type 0 where
  at_empty at_mutex critical reading posting ending finished : Reader

-- A step of produce, at the index `i`; `chunk` is what Read gives, if it is called.
unfoldable pub produce : (chunk : List ℕ) → Shared → ℕ → Reader → Option (Reader × ℕ × Shared)
produce chunk s i at_empty =
    if s.nempty == 0 then none else some (at_mutex, i, record s { nempty = s.nempty - 1 })
produce chunk s i at_mutex =
    if s.mutex == 0 then none else some (critical, i, record s { mutex = s.mutex - 1 })
produce chunk s i critical = some (reading, i, record s { mutex = s.mutex + 1 })
produce [] s i reading = some (ending, i, record s { buff = update s.buff i [] })
produce (b ∷ bs) s i reading = some (posting, next i, record s { buff = update s.buff i (b ∷ bs) })
produce chunk s i posting = some (at_empty, i, record s { nstored = s.nstored + 1 })
produce chunk s i ending = some (finished, i, record s { nstored = s.nstored + 1 })
produce chunk s i finished = none

pub data Writer : Type 0 where
  at_stored to_lock inside writing to_post ended : Writer

-- Write of the bytes of a buffer, or the return if there are none.
abbrev pub written : List ℕ → Shared → ℕ → Writer × ℕ × Shared
written [] s i = (ended, i, s)
written (b ∷ bs) s i = (to_post, next i, record s { output = s.output ++ (b ∷ bs) })

unfoldable pub consume : Shared → ℕ → Writer → Option (Writer × ℕ × Shared)
consume s i at_stored =
    if s.nstored == 0 then none else some (to_lock, i, record s { nstored = s.nstored - 1 })
consume s i to_lock =
    if s.mutex == 0 then none else some (inside, i, record s { mutex = s.mutex - 1 })
consume s i inside = some (writing, i, record s { mutex = s.mutex + 1 })
consume s i writing = some (written (s.buff i) s i)
consume s i to_post = some (at_stored, i, record s { nempty = s.nempty + 1 })
consume s i ended = none
