-- ===== src/RwLock.antt =====
-- Read-write locks on a mutex and two condition variables: unixipc/my_rwlock, and the two lock
-- functions of unixipc/my_rwlock_cancel that differ from it.
pub mod Threads
pub mod Census
pub mod Invariant
pub mod Safety
pub mod Cancel
pub mod Calls
mod Tests
use com_tutor.Base.{
  ℕ, zero, suc, ◌+◌, ◌-◌, Bool, true, false, ◌||◌, ◌&&◌, not, List, [], ◌∷◌, ltb, ◌==◌,
  if◌then◌else◌,
}
use com_tutor.Base.Int.{ℤ, pos, negsuc, is_pos, is_neg, is_zero, is_minus_one, inc, dec}

-- `pthread_rwlock_t`, less its mutex and condition variables. `refcount` is -1 if a writer has the
-- lock, else the number of readers that hold it.
pub record Lock : Type 0 where
  pub magic : ℕ
  pub nwaitreaders : ℕ
  pub nwaitwriters : ℕ
  pub refcount : ℤ

abbrev pub rw_magic : ℕ
rw_magic = 0x19283746

abbrev pub einval : ℕ
einval = 22

abbrev pub ebusy : ℕ
ebusy = 16

-- The state in which pthread_cond_wait returns, and what it returns.
pub record Wake : Type 0 where
  pub rc : ℕ
  pub lock : Lock

-- A call has returned a number, has been aborted by `err_dump`, or still sleeps. `woken` is what it
-- has sent: nothing, one signal to a writer, or the broadcast to the readers.
pub data Reply : Type 0 where
  returned : ℕ → Reply
  dumped asleep : Reply

pub data Signal : Type 0 where
  quiet one_writer all_readers : Signal

-- pthread_rwlock_init: the results of the three initialisations; an attribute is refused.
unfoldable pub rwlock_init : (attr : Bool) (mutex readers writers : ℕ) → Lock → ℕ × Lock
rwlock_init attr mutex readers writers l =
    if attr
    then (einval, l)
    else (if not (mutex == 0)
        then (mutex, l)
        else (if not (readers == 0)
            then (readers, l)
            else (if not (writers == 0) then (writers, l) else (
              0,
              record { magic = rw_magic; nwaitreaders = 0; nwaitwriters = 0; refcount = pos 0 },
            ))))

unfoldable pub rwlock_destroy : Lock → ℕ × Lock
rwlock_destroy l =
    if not (l.magic == rw_magic)
    then (einval, l)
    else (if not (is_zero l.refcount) || (not (l.nwaitreaders == 0) || not (l.nwaitwriters == 0))
        then (ebusy, l)
        else (0, record l { magic = 0 }))

-- The test of rdlock and tryrdlock: a writer holds the lock, or writers wait for it.
abbrev pub rd_blocked : Lock → Bool
rd_blocked l = is_neg l.refcount || ltb 0 l.nwaitwriters

-- The test of wrlock and trywrlock: somebody holds the lock.
abbrev pub wr_blocked : Lock → Bool
wr_blocked l = not (is_zero l.refcount)

-- The loop of pthread_rwlock_rdlock, with the wake-ups to come, and the end of the function.
unfoldable pub rd_loop : List Wake → Lock → Reply × Lock
rd_loop [] l =
    if rd_blocked l
    then (asleep, record l { nwaitreaders = l.nwaitreaders + 1 })
    else (returned 0, record l { refcount = inc l.refcount })
rd_loop (w ∷ ws) l =
    let woken = record w.lock { nwaitreaders = w.lock.nwaitreaders - 1 } in
    let again = rd_loop ws woken in
    if rd_blocked l
    then (if w.rc == 0 then again else (returned w.rc, woken))
    else (returned 0, record l { refcount = inc l.refcount })

unfoldable pub wr_loop : List Wake → Lock → Reply × Lock
wr_loop [] l =
    if wr_blocked l
    then (asleep, record l { nwaitwriters = l.nwaitwriters + 1 })
    else (returned 0, record l { refcount = negsuc 0 })
wr_loop (w ∷ ws) l =
    let woken = record w.lock { nwaitwriters = w.lock.nwaitwriters - 1 } in
    let again = wr_loop ws woken in
    if wr_blocked l
    then (if w.rc == 0 then again else (returned w.rc, woken))
    else (returned 0, record l { refcount = negsuc 0 })

-- `mutex` is what pthread_mutex_lock returns.
unfoldable pub rdlock : (mutex : ℕ) → List Wake → Lock → Reply × Lock
rdlock mutex wakes l =
    if not (l.magic == rw_magic)
    then (returned einval, l)
    else (if not (mutex == 0) then (returned mutex, l) else rd_loop wakes l)

unfoldable pub wrlock : (mutex : ℕ) → List Wake → Lock → Reply × Lock
wrlock mutex wakes l =
    if not (l.magic == rw_magic)
    then (returned einval, l)
    else (if not (mutex == 0) then (returned mutex, l) else wr_loop wakes l)

unfoldable pub tryrdlock : (mutex : ℕ) → Lock → Reply × Lock
tryrdlock mutex l =
    if not (l.magic == rw_magic)
    then (returned einval, l)
    else (if not (mutex == 0)
        then (returned mutex, l)
        else (if rd_blocked l
            then (returned ebusy, l)
            else (returned 0, record l { refcount = inc l.refcount })))

unfoldable pub trywrlock : (mutex : ℕ) → Lock → Reply × Lock
trywrlock mutex l =
    if not (l.magic == rw_magic)
    then (returned einval, l)
    else (if not (mutex == 0)
        then (returned mutex, l)
        else (if wr_blocked l
            then (returned ebusy, l)
            else (returned 0, record l { refcount = negsuc 0 })))

-- The preference of waiting writers over waiting readers.
abbrev pub signal_of : Lock → Signal
signal_of l =
    if ltb 0 l.nwaitwriters
    then (if is_zero l.refcount then one_writer else quiet)
    else (if ltb 0 l.nwaitreaders then all_readers else quiet)

-- `sent` is what the signal or the broadcast returns.
unfoldable pub release : (sent : ℕ) → Lock → Reply × Signal × Lock
release sent l = (returned (elim (signal_of l) [ quiet ↦ 0 | _ ↦ sent ]), signal_of l, l)

unfoldable pub unlock : (mutex sent : ℕ) → Lock → Reply × Signal × Lock
unfolding release
unlock mutex sent l =
    if not (l.magic == rw_magic)
    then (returned einval, quiet, l)
    else (if not (mutex == 0)
        then (returned mutex, quiet, l)
        else (if is_pos l.refcount
            then release sent (record l { refcount = dec l.refcount })
            else (if is_minus_one l.refcount
                then release sent (record l { refcount = pos 0 })
                else (dumped, quiet, l))))
