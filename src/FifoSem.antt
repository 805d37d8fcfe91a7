-- ===== src/FifoSem.antt =====
-- unixipc/my_pxsem_fifo: counting semaphores whose units are the bytes in a FIFO.
pub mod Laws
mod Tests
use com_tutor.Base.{
  ℕ, zero, suc, ◌+◌, ◌-◌, ◌≤◌, ◌<◌, ◌≡◌, Bool, true, false, not, Option, none, some, ◌==◌,
  if◌then◌else◌, update,
}
use com_tutor.Base.Errno.{Errno, einval, eagain, eexist}
use com_tutor.Semaphore.{Reply, done, asleep, failed}

-- `mysem_t`, less its two descriptors.
pub record Handle : Type 0 where
  pub magic : ℕ

abbrev pub fifo_magic : ℕ
fifo_magic = 0x89674523

-- What read of one byte answers.
pub data Read : Type 0 where
  took_byte at_end blocks : Read
  read_error : Errno → Read

-- The kernel's FIFO, as functions of the number of bytes in it: `none` is a byte written.
pub record Pipe : Type 0 where
  pub write : ℕ → Option Errno
  pub read : ℕ → Read

-- What is documented of a FIFO with room for `capacity` bytes, whose write end does not block, whose
-- read end does, and both ends of which are open.
pub record IsPipe (p : Pipe) (capacity : ℕ) : Type 0 where
  pub writes : (u : ℕ) → u < capacity → p.write u ≡ none
  pub full : p.write capacity ≡ some eagain
  pub takes : (u : ℕ) → p.read (suc u) ≡ took_byte
  pub waits : p.read 0 ≡ blocks

-- The descriptors that are open.
abbrev pub Fds : Type 0
Fds = ℕ → Bool

-- The file and the process: whether the path is there, the bytes in the FIFO, and the open descriptors.
pub record Env : Type 0 where
  pub path : Bool
  pub units : ℕ
  pub fds : Fds

-- What open answers.
pub data OpenAnswer : Type 0 where
  open_error : Errno → OpenAnswer
  got_fd : ℕ → OpenAnswer

-- What the system answers in mysem_open; `none` is success.
pub record Answers : Type 0 where
  pub mkfifo : Option Errno
  pub malloc : Option Errno
  pub open_read : OpenAnswer
  pub open_write : OpenAnswer
  pub getfl : Option Errno
  pub setfl : Option Errno
  pub unlink : Option Errno

-- The semaphore, with its two descriptors; or SEM_FAILED with `errno`.
pub data Opened : Type 0 where
  opened : (sem_fd0 sem_fd1 : ℕ) → Opened
  open_failed : Errno → Opened

-- close frees a descriptor that is open, and does nothing to -1, which is `none`.
abbrev pub close : (fd : Option ℕ) → Fds → Fds
close none fds = fds
close (some fd) fds = update fds fd false

-- unlink takes the path away, if it succeeds.
abbrev pub unlinked : (unlink : Option Errno) → (path : Bool) → Bool
unlinked none path = false
unlinked (some unseen) path = path

-- The label `error`, with what `sem_fd` holds.
abbrev pub error :
    (creat : Bool) (sem_fd0 sem_fd1 : Option ℕ) → Errno → Answers → Env → Opened × Env
error creat sem_fd0 sem_fd1 e a s = (
  open_failed e,
  record s {
    path = if creat then unlinked a.unlink s.path else s.path;
    fds = close sem_fd1 (close sem_fd0 s.fds);
  },
)

module _ (p : Pipe) where
  -- The loop that writes the initial value, `n` bytes to go.
  unfoldable pub fill : (n u : ℕ) → Option Errno × ℕ
  fill zero u = (none, u)
  fill (suc n) u = elim (p.write u) [ none ↦ fill n (u + 1) | some e ↦ (some e, u) ]

  -- From malloc on, with `creat` as the code has left O_CREAT.
  unfoldable pub attach : (creat : Bool) (value : ℕ) → Answers → Env → Opened × Env
  unfolding fill
  attach creat value a s = elim a.malloc [
    | some e ↦ (open_failed e, s)
    | none ↦ elim a.open_read [
      | open_error e ↦ error creat none none e a s
      | got_fd fd0 ↦
          let s1 = record s { fds = update s.fds fd0 true } in
          elim a.open_write [
            | open_error e ↦ error creat (some fd0) none e a s1
            | got_fd fd1 ↦
                let s2 = record s1 { fds = update s1.fds fd1 true } in
                elim a.getfl [
                  | some e ↦ error creat (some fd0) (some fd1) e a s2
                  | none ↦ elim a.setfl [
                    | some e ↦ error creat (some fd0) (some fd1) e a s2
                    | none ↦
                        if creat
                        then (let (r, u) = fill value s.units in
                            elim r as (λ x. Opened × Env) [
                              | none ↦ (opened fd0 fd1, record s2 { units = u })
                              | some e ↦
                                  error creat (some fd0) (some fd1) e a (record s2 { units = u })
                            ])
                        else (opened fd0 fd1, s2)
                  ]
                ]
          ]
    ]
  ]

  unfoldable pub mysem_open : (creat excl : Bool) (value : ℕ) → Answers → Env → Opened × Env
  unfolding attach
  mysem_open false excl value a s = attach false value a s
  mysem_open true excl value a s = elim a.mkfifo [
    | none ↦ attach true value a (record s { path = true; units = 0 })
    | some eexist ↦ if excl then (open_failed eexist, s) else attach false value a s
    | some e ↦ (open_failed e, s)
  ]

  unfoldable pub mysem_post : Handle → ℕ → Reply × ℕ
  mysem_post h u =
      if not (h.magic == fifo_magic)
      then (failed einval, u)
      else elim (p.write u) as (λ x. Reply × ℕ) [ none ↦ (done, u + 1) | some e ↦ (failed e, u) ]

  -- `errno` is what it was before the call, which a read of no byte leaves.
  unfoldable pub mysem_wait : (errno : Errno) → Handle → ℕ → Reply × ℕ
  mysem_wait errno h u =
      if not (h.magic == fifo_magic)
      then (failed einval, u)
      else elim (p.read u) as (λ x. Reply × ℕ) [
        | took_byte ↦ (done, u - 1)
        | at_end ↦ (failed errno, u)
        | blocks ↦ (asleep, u)
        | read_error e ↦ (failed e, u)
      ]

-- The errors of the two closes; with the number of descriptors that close was called for. The handle is
-- freed with its magic number cleared.
unfoldable pub mysem_close : (first second : Option Errno) → Handle → Reply × ℕ × Handle
mysem_close first second h =
    if not (h.magic == fifo_magic)
    then (failed einval, 0, h)
    else elim first as (λ x. Reply × ℕ × Handle) [
      | some e ↦ (failed e, 1, record { magic = 0 })
      | none ↦ elim second as (λ x. Reply × ℕ × Handle) [
        | some e ↦ (failed e, 2, record { magic = 0 })
        | none ↦ (done, 2, record { magic = 0 })
      ]
    ]

-- One call of unlink.
unfoldable pub mysem_unlink : (unlink : Option Errno) → Env → Option Errno × Env
mysem_unlink none s = (none, record s { path = false })
mysem_unlink (some e) s = (some e, s)
