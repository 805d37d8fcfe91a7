-- ===== src/RwLock/Safety.antt =====
-- What holds in every reachable state of the threads that use a lock.
use com_tutor.Base.{
  ℕ, ◌≤◌, ◌<◌, ◌≡◌, ◌≢◌, ap, ◌⊎◌, inl, inr, true, false, arith, Zero-cases, Bool-cases,
}
use com_tutor.Base.Int.{ℤ, is_neg, is_zero}
use com_tutor.RwLock.{Lock}
use com_tutor.RwLock.Threads.{
  Pc, rd_sleeps, rd_woken, wr_sleeps, wr_woken, reading, writing, System, rd_round, wake_reader,
  Step, rdlock, rd_return, wrlock, wr_return, tryrdlock, trywrlock, rd_spurious, wr_spurious,
  unlock_quiet, unlock_signal, unlock_signal_none, unlock_broadcast, Reach,
}
use com_tutor.Base.Counts.{total, total-le, total-two, total-find}
use com_tutor.RwLock.Census.{in_rs, in_ws, in_wk, in_r, in_w, census, Held, Agrees}
use com_tutor.RwLock.Invariant.{Reach-Agrees}

Held-w-le : (z : ℤ) (r w : ℕ) → Held z r w → (w ≤ 1) × (0 < w → r ≡ 0)
Held-w-le z r w h = ground arith

-- While a thread writes, no other thread reads or writes.
pub mutual_exclusion :
    {n : ℕ} {s : System}
    → Reach n s
    → (i j : ℕ) → i < n
    → j < n
    → i ≢ j
    → s.pc i ≡ writing
    → (s.pc j ≢ writing) × (s.pc j ≢ reading)
mutual_exclusion {n} {s} r i j lt ltj d e =
    let a = Reach-Agrees r in
    let b = Held-w-le s.lock.refcount _ _ a.held in
    (
      λ q. absurd (omega (arith, b.0, total-two in_w n s.pc i j lt ltj d, ap in_w e, ap in_w q)),
      λ q. absurd (
          omega (
            arith,
            b.1 (omega (arith, total-le in_w n s.pc i lt, ap in_w e)),
            total-le in_r n s.pc j ltj,
            ap in_r q,
          )),
    )

-- Whoever holds the lock or has been woken can go on when it gets the mutex.
pub data CanGoOn : Pc → Type 0 where
  reads : CanGoOn reading
  writes : CanGoOn writing
  reader_woken : CanGoOn rd_woken
  writer_woken : CanGoOn wr_woken

found :
    (w : Pc → ℕ) (n : ℕ) (f : ℕ → Pc)
    → ((p : Pc) → 0 < w p → CanGoOn p)
    → 0 < total w n f
    → (j : ℕ) × (j < n) × CanGoOn (f j)
found w n f ok h = let (j, lt, p) = total-find w n f h in (j, lt, ok (f j) p)

Held-by_someone : (z : ℤ) (r w : ℕ) → Held z r w → is_zero z ≡ false → r ≡ 0 → 0 < w
Held-by_someone z r w h e q = ground arith

Held-by_writer : (z : ℤ) (r w : ℕ) → Held z r w → is_neg z ≡ true → 0 < w
Held-by_writer z r w h e = ground arith

module _ {n : ℕ} {s : System} (a : Agrees s.lock (census n s.pc)) where
  some_holder : is_zero s.lock.refcount ≡ false → (j : ℕ) × (j < n) × CanGoOn (s.pc j)
  some_holder e = elim (Zero-cases (total in_r n s.pc)) [
    | inr many ↦
        found in_r n s.pc (elim [ reading ↦ λ h. reads | _ ↦ λ h. absurd (omega arith) ]) many
    | inl none ↦
        found in_w n s.pc (elim [ writing ↦ λ h. writes | _ ↦ λ h. absurd (omega arith) ])
          (Held-by_someone s.lock.refcount _ _ a.held e none)
  ]

  woken_writer : 0 < total in_wk n s.pc → (j : ℕ) × (j < n) × CanGoOn (s.pc j)
  woken_writer =
      found in_wk n s.pc (elim [ wr_woken ↦ λ h. writer_woken | _ ↦ λ h. absurd (omega arith) ])

  writers_go_on : 0 < total in_ws n s.pc → (j : ℕ) × (j < n) × CanGoOn (s.pc j)
  writers_go_on some = elim (Bool-cases (is_zero s.lock.refcount)) [
    | inl free ↦ woken_writer (a.some_writer free some)
    | inr taken ↦ some_holder taken
  ]

  readers_go_on : 0 < total in_rs n s.pc → (j : ℕ) × (j < n) × CanGoOn (s.pc j)
  readers_go_on some = elim (Bool-cases (is_neg s.lock.refcount)) [
    | inl taken ↦
        found in_w n s.pc (elim [ writing ↦ λ h. writes | _ ↦ λ h. absurd (omega arith) ])
          (Held-by_writer s.lock.refcount _ _ a.held taken)
    | inr shared ↦ elim (Zero-cases (total in_ws n s.pc)) [
      | inr sleepers ↦ writers_go_on sleepers
      | inl none ↦ woken_writer (waiting shared none)
    ]
  ]
    where
      waiting : is_neg s.lock.refcount ≡ false → total in_ws n s.pc ≡ 0 → 0 < total in_wk n s.pc
      waiting shared none = elim (Zero-cases (total in_wk n s.pc)) [
        | inr k ↦ k
        | inl z ↦ absurd (omega (arith, some, a.no_reader shared (omega (arith, a.writers))))
      ]

-- No wake-up is lost: while a thread sleeps for the lock, some thread holds the lock or has been
-- woken, so not all threads sleep.
pub no_lost_wakeup :
    {n : ℕ} {s : System}
    → Reach n s
    → (i : ℕ) → i < n
    → (s.pc i ≡ rd_sleeps) ⊎ (s.pc i ≡ wr_sleeps)
    → (j : ℕ) × (j < n) × CanGoOn (s.pc j)
no_lost_wakeup {n} {s} r i lt (inl e) =
    readers_go_on (Reach-Agrees r) (omega (arith, total-le in_rs n s.pc i lt, ap in_rs e))
no_lost_wakeup {n} {s} r i lt (inr e) =
    writers_go_on (Reach-Agrees r) (omega (arith, total-le in_ws n s.pc i lt, ap in_ws e))

woken_not_reading : (p : Pc) → p ≢ reading → wake_reader p ≢ reading
woken_not_reading p h e = ground arith

round_opens :
    (l : Lock) → (rd_round l).1 ≡ reading → (is_neg l.refcount ≡ false) × (l.nwaitwriters ≡ 0)
round_opens l e = ground arith

-- What the lock looks like when a thread becomes a reader.
open_for_readers :
    {n : ℕ} {s t : System}
    → Step n s t
    → (i : ℕ) → s.pc i ≢ reading
    → t.pc i ≡ reading
    → (is_neg s.lock.refcount ≡ false) × (s.lock.nwaitwriters ≡ 0)
open_for_readers {s} (rdlock k lt e) i before after = round_opens s.lock (ground arith)
open_for_readers {s} (rd_return k l lt e q) i before after =
    let o = round_opens l (ground arith) in ground (arith, o)
open_for_readers {s} (wrlock k lt e) i before after = absurd (ground arith)
open_for_readers {s} (wr_return k l lt e q) i before after = absurd (ground arith)
open_for_readers {s} (tryrdlock k lt e free) i before after = ground arith
open_for_readers {s} (trywrlock k lt e free) i before after = absurd (ground arith)
open_for_readers {s} (rd_spurious k lt e) i before after = absurd (ground arith)
open_for_readers {s} (wr_spurious k lt e) i before after = absurd (ground arith)
open_for_readers {s} (unlock_quiet k p lt e own sig) i before after = absurd (ground arith)
open_for_readers {s} (unlock_signal k j p lt ltj e own sig ej) i before after =
    absurd (ground arith)
open_for_readers {s} (unlock_signal_none k p lt e own sig nobody) i before after =
    absurd (ground arith)
open_for_readers {s} (unlock_broadcast k p lt e own sig) i before after =
    absurd (ground (arith, woken_not_reading (s.pc i)))

-- A thread becomes a reader only in a state in which no thread waits to write and none writes.
pub writers_first :
    {n : ℕ} {s t : System}
    → Reach n s
    → Step n s t
    → (i : ℕ) → s.pc i ≢ reading
    → t.pc i ≡ reading
    → (j : ℕ) → j < n
    → (s.pc j ≢ writing) × (s.pc j ≢ wr_sleeps) × (s.pc j ≢ wr_woken)
writers_first {n} {s} r st i before after j lt =
    let a = Reach-Agrees r in
    let b = open_for_readers st i before after in
    (
      λ q. absurd (ground (arith, b, total-le in_w n s.pc j lt, ap in_w q, a.held)),
      λ q. absurd (omega (arith, b.1, a.writers, total-le in_ws n s.pc j lt, ap in_ws q)),
      λ q. absurd (omega (arith, b.1, a.writers, total-le in_wk n s.pc j lt, ap in_wk q)),
    )
