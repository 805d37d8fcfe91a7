-- ===== src/MessageQueue/Create/Tests.antt =====
-- Runs of mymq_open, and the theorems at them.
use com_tutor.Base.Errno.{einval}
use com_tutor.SharedFile.{mode, wait_ready}
use com_tutor.Base.{zero, ◌≡◌, refl, true, false, none, some, [], ◌∷◌, arith}
use com_tutor.Base.Int.{pos, negsuc}
use com_tutor.MessageQueue.Create.{
  Answers, created, attached, open_failed, init_queue, undefined, set_up, create, attach, pass,
  mymq_open,
}
use com_tutor.MessageQueue.Types.{round_up}
use com_tutor.MessageQueue.Control.{filesize}
use com_tutor.MessageQueue.Create.Protocol.{IsNew, open_creates-IsNew}
use com_tutor.MessageQueue.Tests.{blank, blocking}

-- Every system call succeeds, and the file is found ready in the second round.
abbrev fine : Answers
fine = record {
  excl_open = none;
  lseek = none;
  write = none;
  mmap = none;
  malloc = none;
  mutexattr_init = 0;
  mutex_init = 0;
  condattr_init = 0;
  cond_init = 0;
  fchmod = none;
  plain_open = none;
  stats = λ i. elim i [ zero ↦ mode true | _ ↦ mode false ];
  attach_mmap = none;
  attach_malloc = none;
}

open_runs :
    mymq_open 216 true false false (some (pos 2, pos 8)) blank (fine ∷ [])
    ≡ created blocking (init_queue 216 2 8 blank)
unfolding mymq_open pass create set_up filesize round_up
open_runs = refl

open_creates-IsNew_example : IsNew 216 false blocking (init_queue 216 2 8 blank)
open_creates-IsNew_example =
    open_creates-IsNew 216 (omega arith) false false (some (pos 2, pos 8))
      (omega arith, omega arith) blank true (fine ∷ []) open_runs

-- The size of a file of 2 ^ 59 slots of 32 bytes wraps to that of the header.
open_overflows :
    mymq_open 216 true false false (some (pos 576460752303423488, pos 8)) blank (fine ∷ [])
    ≡ undefined
unfolding mymq_open pass create set_up filesize round_up
open_overflows = refl

open_refuses :
    pass 216 true false false (some (pos 2, negsuc 7)) blank fine
    ≡ some (open_failed einval true false false)
unfolding pass create
open_refuses = refl

attach_runs : pass 216 false false false none blank fine ≡ some (attached blocking)
unfolding pass attach wait_ready
attach_runs = refl
