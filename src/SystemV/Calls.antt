-- ===== src/SystemV/Calls.antt =====
-- The other calls of my_pxsem_svsem, each of which passes one operation to semop or semctl. The kernel's
-- semop is a parameter, a function of the value of the set.
use com_tutor.Base.{
  ℕ, zero, suc, ◌+◌, ◌<◌, ◌≡◌, refl, ap, Bool, true, false, not, Option, none, some, [], arith, ltb,
  ◌==◌, if◌then◌else◌, eq→==, ne→==,
}
use com_tutor.Base.Int.{ℤ, pos, negsuc}
use com_tutor.Base.Errno.{Errno, einval, eagain}
use com_tutor.Semaphore.{Sem, Reply, done, asleep, failed, sem_magic, increment, word}
use com_tutor.Semaphore
use com_tutor.SystemV.{semvmx}

-- `mysem_t` of this version.
pub record Handle : Type 0 where
  pub semid : ℕ
  pub magic : ℕ

abbrev pub sv_magic : ℕ
sv_magic = 0x45678923

pub record SemBuf : Type 0 where
  pub sem_num : ℕ
  pub sem_op : ℤ
  pub nowait : Bool

-- What semop does to the value of the set: a new value, an error, or the caller sleeps.
pub data Semop : Type 0 where
  did : ℕ → Semop
  refused : Errno → Semop
  blocks : Semop

abbrev pub reply : ℕ → Semop → Reply × ℕ
reply v (did w) = (done, w)
reply v (refused e) = (failed e, v)
reply v blocks = (asleep, v)

module _ (semop : ℕ → SemBuf → ℕ → Semop) where
  unfoldable pub mysem_post : Handle → ℕ → Reply × ℕ
  mysem_post h v =
      if not (h.magic == sv_magic)
      then (failed einval, v)
      else reply v (semop h.semid (record { sem_num = 0; sem_op = pos 1; nowait = false }) v)

  unfoldable pub mysem_wait : Handle → ℕ → Reply × ℕ
  mysem_wait h v =
      if not (h.magic == sv_magic)
      then (failed einval, v)
      else reply v (semop h.semid (record { sem_num = 0; sem_op = negsuc 0; nowait = false }) v)

  unfoldable pub mysem_trywait : Handle → ℕ → Reply × ℕ
  mysem_trywait h v =
      if not (h.magic == sv_magic)
      then (failed einval, v)
      else reply v (semop h.semid (record { sem_num = 0; sem_op = negsuc 0; nowait = true }) v)

-- `getval` is the answer of semctl with GETVAL, an error or the value.
unfoldable pub mysem_getvalue : (getval : Option Errno × ℕ) → Handle → Reply × Option ℕ
mysem_getvalue getval h =
    if not (h.magic == sv_magic)
    then (failed einval, none)
    else elim (getval.0) [ some e ↦ (failed e, none) | none ↦ (done, some (getval.1)) ]

-- The handle is freed with its magic number cleared.
unfoldable pub mysem_close : Handle → Reply × Handle
mysem_close h =
    if not (h.magic == sv_magic) then (failed einval, h) else (done, record h { magic = 0 })

-- The errors of the four calls it makes; with the flags, whether the path was unlinked and whether the
-- set was removed.
unfoldable pub mysem_unlink : (ftok unlink semget rmid : Option Errno) → Reply × Bool × Bool
mysem_unlink (some e) unlink semget rmid = (failed e, false, false)
mysem_unlink none (some e) semget rmid = (failed e, false, false)
mysem_unlink none none (some e) rmid = (failed e, true, false)
mysem_unlink none none none (some e) = (failed e, true, false)
mysem_unlink none none none none = (done, true, true)

-- The documented behaviour of semop for the three operations that are used: a unit is added while
-- the value stays within SEMVMX; a unit is taken if there is one; else the caller sleeps, or, with
-- IPC_NOWAIT, gets EAGAIN.
pub record IsSemop (semop : ℕ → SemBuf → ℕ → Semop) : Type 0 where
  pub adds :
      (id v : ℕ)
      → v < semvmx
      → semop id (record { sem_num = 0; sem_op = pos 1; nowait = false }) v ≡ did (v + 1)
  pub takes :
      (id v : ℕ) (b : Bool)
      → semop id (record { sem_num = 0; sem_op = negsuc 0; nowait = b }) (suc v) ≡ did v
  pub waits :
      (id : ℕ) → semop id (record { sem_num = 0; sem_op = negsuc 0; nowait = false }) 0 ≡ blocks
  pub fails :
      (id : ℕ)
      → semop id (record { sem_num = 0; sem_op = negsuc 0; nowait = true }) 0 ≡ refused eagain

-- A semaphore of my_pxsem_mmap with as many units.
abbrev pub mapped : ℕ → Sem
mapped v = record { magic = sem_magic; count = v }

module _ (semop : ℕ → SemBuf → ℕ → Semop) (is : IsSemop semop) (id : ℕ) where
  post_agrees :
      (v : ℕ)
      → v < semvmx
      → reply v (semop id (record { sem_num = 0; sem_op = pos 1; nowait = false }) v)
        ≡ (done, increment v)
  post_agrees v small =
      let up : increment v ≡ v + 1 = omega (arith, small) in rw (is.adds id v small, up) refl

  wait_agrees :
      (v : ℕ)
      → reply v (semop id (record { sem_num = 0; sem_op = negsuc 0; nowait = false }) v)
        ≡ ((Semaphore.mysem_wait 0 [] (mapped v)).0, (Semaphore.mysem_wait 0 [] (mapped v)).1.count)
  unfolding Semaphore.mysem_wait Semaphore.wait_loop
  wait_agrees zero = rw (is.waits id) refl
  wait_agrees (suc w) =
      rw (is.takes id w false, ne→== (suc w) 0 (omega arith)) (ap (λ c. (done, c)) (omega arith))

  trywait_agrees :
      (v : ℕ)
      → reply v (semop id (record { sem_num = 0; sem_op = negsuc 0; nowait = true }) v)
        ≡ ((Semaphore.mysem_trywait 0 (mapped v)).0, (Semaphore.mysem_trywait 0 (mapped v)).1.count)
  unfolding Semaphore.mysem_trywait
  trywait_agrees zero = rw (is.fails id) refl
  trywait_agrees (suc w) =
      let some_units : ltb 0 (suc w) ≡ true = ground arith in
      rw (is.takes id w true, some_units) (ap (λ c. (done, c)) (omega arith))

-- If semop does what is documented, the calls on System V, on an open handle and below SEMVMX,
-- reply as those of my_pxsem_mmap on a semaphore with as many units, and leave as many: post, a wait
-- that is not woken, and trywait.
pub calls_agree :
    (semop : ℕ → SemBuf → ℕ → Semop)
    → IsSemop semop
    → (h : Handle) → h.magic ≡ sv_magic
    → (v : ℕ) → v < semvmx
    → (let (r, b, s) = Semaphore.mysem_post 0 (mapped v) in mysem_post semop h v ≡ (r, s.count))
      × (let (r, s) = Semaphore.mysem_wait 0 [] (mapped v) in mysem_wait semop h v ≡ (r, s.count))
      × (let (r, s) = Semaphore.mysem_trywait 0 (mapped v) in
          mysem_trywait semop h v ≡ (r, s.count))
unfolding mysem_post mysem_wait mysem_trywait Semaphore.mysem_post
calls_agree semop is h magic v small = rw (eq→== h.magic sv_magic magic) (
  post_agrees semop is h.semid v small,
  wait_agrees semop is h.semid v,
  trywait_agrees semop is h.semid v,
)
