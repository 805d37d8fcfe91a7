-- ===== src/SystemV/Tests.antt =====
-- Runs of mysem_open of my_pxsem_svsem, and the theorems at them.
use com_tutor.Base.{
  ◌+◌, ◌==◌, ◌≡◌, Option, refl, true, false, Bool, ◌-◌, zero, suc, arith, leb, if◌then◌else◌, ℕ,
  none, some,
}
use com_tutor.Base.Errno.{code, eagain, eexist, etimedout}
use com_tutor.SystemV.{
  otime, got_id, semget_error, Answers, Sets, opened, open_failed, semvmx, wait_initialised, attach,
  mysem_open, initialise,
}
use com_tutor.Base.Int.{ℤ, pos, negsuc}
use com_tutor.SystemV.Calls.{SemBuf, Semop, did, refused, blocks, IsSemop}
use com_tutor.SystemV.Kept.{IsOn, survives, IsSemget}
use com_tutor.SystemV.Removal.{open_removes_any}

-- Every call succeeds, but the maker of the set never raises it.
abbrev stalled : Answers
stalled = record {
  open_file = none;
  ftok = none;
  semget_excl = got_id 7;
  setval = none;
  semop = none;
  attach_ftok = none;
  semget = got_id 7;
  stats = λ i. otime 0;
  malloc = none;
  rmid = none;
}

-- The set 7 is in the system.
abbrev seven : Sets
seven j = j == 7

abbrev no_sets : Sets
no_sets j = false

times_out : (mysem_open false false 0 stalled seven).0 ≡ open_failed etimedout
unfolding mysem_open attach wait_initialised
times_out = refl

gone : (mysem_open false false 0 stalled seven).1 7 ≡ false
unfolding mysem_open attach wait_initialised
gone = refl

stalled-IsSemget : IsSemget (record stalled { semget_excl = semget_error eexist }) seven
stalled-IsSemget = record { fresh = λ id q. ground (arith, q); known = λ id q. ground (arith, q) }

open_removes_any_example :
    let (r, s') =
      mysem_open true false 0 (record stalled { semget_excl = semget_error eexist }) seven in
    IsOn 7 r × ((j : ℕ) → s' j ≡ (if j == 7 then survives r none else seven j))
open_removes_any_example =
    open_removes_any true false 0 (record stalled { semget_excl = semget_error eexist }) seven
      stalled-IsSemget

abbrev five : Option ℕ
five = some 5

makes_set : (mysem_open true false 5 stalled no_sets).0 ≡ opened 7 five
unfolding mysem_open initialise
makes_set = refl

-- A kernel that does what is documented, for the operations that are used.
abbrev operate : ℤ → (nowait : Bool) → ℕ → Semop
operate (pos k) nowait v = if leb (v + k) semvmx then did (v + k) else refused (code 34)
operate (negsuc k) nowait zero = if nowait then refused eagain else blocks
operate (negsuc k) nowait (suc v) = did (v - k)

abbrev kernel : ℕ → SemBuf → ℕ → Semop
kernel id b v = operate b.sem_op b.nowait v

kernel-IsSemop : IsSemop kernel
kernel-IsSemop = record {
  adds = λ id v small. ground arith;
  takes = λ id v b. ground arith;
  waits = λ id. refl;
  fails = λ id. refl;
}
