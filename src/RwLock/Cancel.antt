-- ===== src/RwLock/Cancel.antt =====
-- unixipc/my_rwlock_cancel: the lock functions with a cleanup handler for cancellation, and how they
-- differ from those of unixipc/my_rwlock.
use com_tutor.Base.{
  ℕ, ◌+◌, ◌-◌, ◌≡◌, ◌≢◌, refl, true, ◌||◌, ◌&&◌, not, List, [], ◌∷◌, arith, ltb, ◌==◌,
  if◌then◌else◌, eq→==, ne→==,
}
use com_tutor.Base.Int.{pos, negsuc, is_pos, is_minus_one, inc, dec}
use com_tutor.RwLock.{
  Lock, rw_magic, einval, Reply, returned, dumped, asleep, Signal, quiet, one_writer, all_readers,
  rd_blocked, wr_blocked, rd_loop, rdlock, release, unlock,
}

-- How a wait ends: pthread_cond_wait returns, or the thread is cancelled in it.
pub data Waited : Type 0 where
  wakes : (rc : ℕ) → Lock → Waited
  cancelled : Lock → Waited

pub data Outcome : Type 0 where
  replied : Reply → Lock → Outcome
  cancelled_with : Lock → Outcome

-- The cleanup handlers: a thread that is cancelled is no longer counted as waiting.
unfoldable pub cancelrdwait : Lock → Lock
cancelrdwait l = record l { nwaitreaders = l.nwaitreaders - 1 }

unfoldable pub cancelwrwait : Lock → Lock
cancelwrwait l = record l { nwaitwriters = l.nwaitwriters - 1 }

-- The loop leaves with the result of the wait, and the function returns 0 all the same.
unfoldable pub cancel_rd_loop : List Waited → Lock → Outcome
unfolding cancelrdwait
cancel_rd_loop [] l =
    if rd_blocked l
    then replied asleep (record l { nwaitreaders = l.nwaitreaders + 1 })
    else replied (returned 0) (record l { refcount = inc l.refcount })
cancel_rd_loop (cancelled k ∷ ws) l =
    if rd_blocked l
    then cancelled_with (cancelrdwait k)
    else replied (returned 0) (record l { refcount = inc l.refcount })
cancel_rd_loop (wakes rc k ∷ ws) l =
    let woken = record k { nwaitreaders = k.nwaitreaders - 1 } in
    let again = cancel_rd_loop ws woken in
    if rd_blocked l
    then (if rc == 0 then again else replied (returned 0) woken)
    else replied (returned 0) (record l { refcount = inc l.refcount })

unfoldable pub cancel_wr_loop : List Waited → Lock → Outcome
unfolding cancelwrwait
cancel_wr_loop [] l =
    if wr_blocked l
    then replied asleep (record l { nwaitwriters = l.nwaitwriters + 1 })
    else replied (returned 0) (record l { refcount = negsuc 0 })
cancel_wr_loop (cancelled k ∷ ws) l =
    if wr_blocked l
    then cancelled_with (cancelwrwait k)
    else replied (returned 0) (record l { refcount = negsuc 0 })
cancel_wr_loop (wakes rc k ∷ ws) l =
    let woken = record k { nwaitwriters = k.nwaitwriters - 1 } in
    let again = cancel_wr_loop ws woken in
    if wr_blocked l
    then (if rc == 0 then again else replied (returned 0) woken)
    else replied (returned 0) (record l { refcount = negsuc 0 })

unfoldable pub cancel_rdlock : (mutex : ℕ) → List Waited → Lock → Outcome
cancel_rdlock mutex ws l =
    if not (l.magic == rw_magic)
    then replied (returned einval) l
    else (if not (mutex == 0) then replied (returned mutex) l else cancel_rd_loop ws l)

-- The function compares the result of pthread_mutex_lock with -1, and an error number is never -1:
-- it goes on after an error. If the loop then does not wait, that number is the `result` of the last
-- test: the function takes no lock and returns 0.
unfoldable pub cancel_wrlock : (mutex : ℕ) → List Waited → Lock → Outcome
cancel_wrlock mutex ws l =
    if not (l.magic == rw_magic)
    then replied (returned einval) l
    else (if mutex == 0 || wr_blocked l then cancel_wr_loop ws l else replied (returned 0) l)

-- unlock of this version sends a signal to a writer also while readers still hold the lock.
abbrev pub cancel_signal_of : Lock → Signal
cancel_signal_of l =
    if ltb 0 l.nwaitwriters
    then one_writer
    else (if ltb 0 l.nwaitreaders then all_readers else quiet)

unfoldable pub cancel_release : (sent : ℕ) → Lock → Reply × Signal × Lock
cancel_release sent l =
    (returned (elim (cancel_signal_of l) [ quiet ↦ 0 | _ ↦ sent ]), cancel_signal_of l, l)

unfoldable pub cancel_unlock : (mutex sent : ℕ) → Lock → Reply × Signal × Lock
unfolding cancel_release
cancel_unlock mutex sent l =
    if not (l.magic == rw_magic)
    then (returned einval, quiet, l)
    else (if not (mutex == 0)
        then (returned mutex, quiet, l)
        else (if is_pos l.refcount
            then cancel_release sent (record l { refcount = dec l.refcount })
            else (if is_minus_one l.refcount
                then cancel_release sent (record l { refcount = pos 0 })
                else (dumped, quiet, l))))

-- A wait that fails: my_rwlock passes the error on and leaves the lock alone; my_rwlock_cancel
-- leaves the lock alone as well, so that the caller does not hold it, and returns 0.
pub cancel_rdlock_hides_error :
    (l k : Lock) (rc : ℕ)
    → l.magic ≡ rw_magic
    → rd_blocked l ≡ true
    → rc ≢ 0
    → (rdlock 0 (record { rc = rc; lock = k } ∷ []) l
        ≡ (returned rc, record k { nwaitreaders = k.nwaitreaders - 1 }))
      × (cancel_rdlock 0 (wakes rc k ∷ []) l
          ≡ replied (returned 0) (record k { nwaitreaders = k.nwaitreaders - 1 }))
unfolding rdlock rd_loop cancel_rdlock cancel_rd_loop
cancel_rdlock_hides_error l k rc magic blocked failed =
    rw (eq→== l.magic rw_magic magic, blocked, ne→== rc 0 failed) (refl, refl)

-- The unlock of my_rwlock_cancel leaves the lock as that of my_rwlock leaves it and sends the same,
-- but in one case: if writers wait while readers still hold the lock it signals a writer, where
-- my_rwlock sends nothing.
pub cancel_unlock_signals_early :
    (l : Lock)
    → l.magic ≡ rw_magic
    → ((cancel_unlock 0 0 l).2 ≡ (unlock 0 0 l).2)
      × ((cancel_unlock 0 0 l).1 ≡ (
          if ltb 0 l.nwaitwriters && is_pos l.refcount && is_pos (dec l.refcount)
          then one_writer
          else (unlock 0 0 l).1))
unfolding unlock release cancel_unlock cancel_release
cancel_unlock_signals_early l magic = rw (eq→== l.magic rw_magic magic) (ground arith, ground arith)
