-- ===== src/RwLock/Calls.antt =====
-- The calls against one another, and against the steps of the threads.
use com_tutor.Base.{
  ℕ, ◌+◌, ◌<◌, ◌≡◌, ◌≢◌, refl, ◌∙◌, inl, inr, true, ◌||◌, [], arith, if◌then◌else◌, eq→==,
  Bool-cases,
}
use com_tutor.Base.Int.{pos, is_pos, is_minus_one, dec}
use com_tutor.RwLock.{
  Lock, rw_magic, einval, ebusy, Wake, Reply, returned, dumped, asleep, Signal, quiet, one_writer,
  all_readers, rd_blocked, wr_blocked, rd_loop, wr_loop, signal_of, release, unlock, rwlock_destroy,
}
use com_tutor.RwLock
use com_tutor.RwLock.Threads.{
  Pc, idle, System, rd_round, wr_round, left, Step, Reach, start, later, rdlock, rd_return, wrlock,
  wr_return, tryrdlock, trywrlock, rd_spurious, wr_spurious, unlock_quiet, unlock_signal,
  unlock_signal_none, unlock_broadcast,
}
use com_tutor.Base.Counts.{total-le}
use com_tutor.RwLock.Census.{in_rs, in_rk, in_ws, in_wk, in_r, in_w, Held}
use com_tutor.RwLock.Invariant.{Reach-Agrees}

released : (l : Lock) → release 0 l ≡ (returned 0, signal_of l, l)
unfolding release
released l = ground arith

unlocked :
    (l : Lock)
    → (is_pos l.refcount || is_minus_one l.refcount) ≡ true
    → (if is_pos l.refcount
        then release 0 (record l { refcount = dec l.refcount })
        else (if is_minus_one l.refcount
            then release 0 (record l { refcount = pos 0 })
            else (dumped, quiet, l)))
      ≡ (returned 0, signal_of (left l), left l)
unlocked l h = elim (Bool-cases (is_pos l.refcount)) [
  | inl p ↦ rw p (released _)
  | inr p ↦ let q : is_minus_one l.refcount ≡ true = ground (arith, h, p) in rw (p, q) (released _)
]

-- The calls, made with a good mutex, do to the lock what the steps of a thread do: rdlock and wrlock
-- a round, with the thread asleep if the round says so; the tries the same where a round does not
-- sleep, and nothing where it does; unlock of a lock that is held, `left`.
pub calls_are_steps :
    (l : Lock)
    → l.magic ≡ rw_magic
    → (RwLock.rdlock 0 [] l ≡ ((if rd_blocked l then asleep else returned 0), (rd_round l).0))
      × (RwLock.wrlock 0 [] l ≡ ((if wr_blocked l then asleep else returned 0), (wr_round l).0))
      × (RwLock.tryrdlock 0 l
          ≡ (if rd_blocked l then (returned ebusy, l) else (returned 0, (rd_round l).0)))
      × (RwLock.trywrlock 0 l
          ≡ (if wr_blocked l then (returned ebusy, l) else (returned 0, (wr_round l).0)))
      × ((is_pos l.refcount || is_minus_one l.refcount) ≡ true
          → unlock 0 0 l ≡ (returned 0, signal_of (left l), left l))
unfolding RwLock.rdlock rd_loop RwLock.wrlock wr_loop RwLock.tryrdlock RwLock.trywrlock unlock
calls_are_steps l magic =
    rw (eq→== l.magic rw_magic magic)
      (ground arith, ground arith, ground arith, ground arith, unlocked l)

Step-magic : {n : ℕ} {s t : System} → Step n s t → t.lock.magic ≡ s.lock.magic
Step-magic (rdlock k lt e) = ground arith
Step-magic (rd_return k l lt e q) = ground arith
Step-magic (wrlock k lt e) = ground arith
Step-magic (wr_return k l lt e q) = ground arith
Step-magic (tryrdlock k lt e free) = refl
Step-magic (trywrlock k lt e free) = refl
Step-magic (rd_spurious k lt e) = refl
Step-magic (wr_spurious k lt e) = refl
Step-magic (unlock_quiet k p lt e own sig) = refl
Step-magic (unlock_signal k j p lt ltj e own sig ej) = refl
Step-magic (unlock_signal_none k p lt e own sig nobody) = refl
Step-magic (unlock_broadcast k p lt e own sig) = refl

Reach-magic : {n : ℕ} {s : System} → Reach n s → s.lock.magic ≡ rw_magic
Reach-magic start = refl
Reach-magic (later r st) = Step-magic st ∙ Reach-magic r

-- Six weights that count every state but `idle`.
counted : (p : Pc) → p ≢ idle → 0 < in_rs p + in_rk p + in_ws p + in_wk p + in_r p + in_w p
counted p h = ground arith

busy :
    (l : Lock) (r w k v : ℕ)
    → l.magic ≡ rw_magic
    → Held l.refcount r w
    → l.nwaitreaders ≡ k
    → l.nwaitwriters ≡ v
    → 0 < r + w + k + v
    → rwlock_destroy l ≡ (ebusy, l)
unfolding rwlock_destroy
busy l r w k v magic held ek ev some = rw (eq→== l.magic rw_magic magic) (ground arith)

-- A lock that some thread holds, or waits for, is not destroyed.
pub destroy_busy :
    {n : ℕ} {s : System}
    → Reach n s
    → (i : ℕ) → i < n
    → s.pc i ≢ idle
    → rwlock_destroy s.lock ≡ (ebusy, s.lock)
destroy_busy {n} {s} r i lt h =
    let a = Reach-Agrees r in
    busy s.lock _ _ _ _ (Reach-magic r) a.held a.readers a.writers (
      omega (
        arith,
        counted (s.pc i) h,
        total-le in_rs n s.pc i lt,
        total-le in_rk n s.pc i lt,
        total-le in_ws n s.pc i lt,
        total-le in_wk n s.pc i lt,
        total-le in_r n s.pc i lt,
        total-le in_w n s.pc i lt,
      ))
