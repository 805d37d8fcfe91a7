-- ===== src/Semaphore.antt =====
-- unixipc/my_pxsem_mmap: counting semaphores in a mapped file, on a mutex and a condition variable.
pub mod Threads
pub mod Invariant
pub mod Wakeups
pub mod Calls
pub mod Open
mod Tests
use com_tutor.Base.{
  ℕ, ◌+◌, ◌-◌, ◌%◌, ◌^◌, Bool, true, false, not, Option, none, some, List, [], ◌∷◌, ltb, ◌==◌,
  if◌then◌else◌,
}
use com_tutor.Base.Errno.{Errno, einval, eagain, code}

-- `mysem_t`, less its mutex and condition variable; `count` is an unsigned int.
pub record Sem : Type 0 where
  pub magic : ℕ
  pub count : ℕ

abbrev pub sem_magic : ℕ
sem_magic = 0x67458923

-- The values of an unsigned int.
abbrev pub word : ℕ
word = 2 ^ 32

-- A call has returned 0, or -1 with `errno`, or still sleeps in pthread_cond_wait.
pub data Reply : Type 0 where
  done asleep : Reply
  failed : Errno → Reply

-- The store `sem_count++`.
abbrev pub increment : ℕ → ℕ
increment c = (c + 1) % word

-- `lock` is what pthread_mutex_lock returns. The flag says whether pthread_cond_signal was called.
unfoldable pub mysem_post : (lock : ℕ) → Sem → Reply × Bool × Sem
mysem_post lock s =
    if not (s.magic == sem_magic)
    then (failed einval, false, s)
    else (if not (lock == 0)
        then (failed (code lock), false, s)
        else (done, s.count == 0, record s { count = increment s.count }))

-- The loop of mysem_wait; the list holds the semaphore as each wake-up finds it.
unfoldable pub wait_loop : List Sem → Sem → Reply × Sem
wait_loop [] s = if s.count == 0 then (asleep, s) else (done, record s { count = s.count - 1 })
wait_loop (w ∷ ws) s =
    let again = wait_loop ws w in
    if s.count == 0 then again else (done, record s { count = s.count - 1 })

unfoldable pub mysem_wait : (lock : ℕ) → List Sem → Sem → Reply × Sem
mysem_wait lock wakes s =
    if not (s.magic == sem_magic)
    then (failed einval, s)
    else (if not (lock == 0) then (failed (code lock), s) else wait_loop wakes s)

unfoldable pub mysem_trywait : (lock : ℕ) → Sem → Reply × Sem
mysem_trywait lock s =
    if not (s.magic == sem_magic)
    then (failed einval, s)
    else (if not (lock == 0)
        then (failed (code lock), s)
        else (if ltb 0 s.count
            then (done, record s { count = s.count - 1 })
            else (failed eagain, s)))

-- With the value stored at `pvalue`, if one is.
unfoldable pub mysem_getvalue : (lock : ℕ) → Sem → Reply × Option ℕ
mysem_getvalue lock s =
    if not (s.magic == sem_magic)
    then (failed einval, none)
    else (if not (lock == 0) then (failed (code lock), none) else (done, some s.count))

-- `unmap` is the error of munmap, if it has one.
unfoldable pub mysem_close : (unmap : Option Errno) → Sem → Reply
mysem_close unmap s =
    if not (s.magic == sem_magic)
    then failed einval
    else elim unmap [ none ↦ done | some e ↦ failed e ]
