-- ===== src/MessageQueue/Create.antt =====
-- mq_open.c: mymq_open, over the results of the system calls that it makes.
pub mod Layout
pub mod Protocol
pub mod Waiting
mod Tests
use com_tutor.Base.Errno.{
  Errno, ebadf, emsgsize, eagain, ebusy, einval, eexist, enoent, etimedout, code,
}
use com_tutor.SharedFile.{
  Stat, stat_error, mode, Wait, ready, again, stopped, wait_ready, max_tries, SawReady,
  wait_ready-SawReady,
}
use com_tutor.Base.{
  ℕ, zero, suc, ◌+◌, ◌-◌, ◌*◌, Bool, true, false, ◌&&◌, not, Option, none, some, List, [], ◌∷◌, ltb,
  leb, ◌^◌, ◌==◌, if◌then◌else◌, update,
}
use com_tutor.Base.Int.{ℤ, int_max, long_max, is_pos, to_ℕ}
use com_tutor.MessageQueue.Types.{Queue, Info, mqi_magic, round_up, msg_hdr_size, head_at, free_at}
use com_tutor.MessageQueue.Control.{filesize}

-- The free list: `rounds` links to the slot behind, and 0 in the last slot.
pub init_links : (rounds span index : ℕ) → (ℕ → ℕ) → ℕ → ℕ
init_links zero span index next = update next index 0
init_links (suc k) span index next =
    init_links k span (index + span) (update next index (index + span))

-- The file as its creator leaves it. `blank` is what the new mapping holds.
pub init_queue : (hdr_size maxmsg msgsize : ℕ) → (blank : Queue) → Queue
unfolding init_links round_up
init_queue hdr_size maxmsg msgsize blank = record blank {
  maxmsg = maxmsg;
  msgsize = msgsize;
  curmsgs = 0;
  nwait = 0;
  pid = 0;
  next =
      init_links (maxmsg - 1) (msg_hdr_size + round_up msgsize) hdr_size
        (update (update blank.next head_at 0) free_at hdr_size);
}

-- What the system answers in one pass from `again`; `none` is success. `stats i` is the
-- answer of `stat` in round `i` of the wait.
pub record Answers : Type 0 where
  pub excl_open : Option Errno
  pub lseek : Option Errno
  pub write : Option Errno
  pub mmap : Option Errno
  pub malloc : Option Errno
  pub mutexattr_init : ℕ
  pub mutex_init : ℕ
  pub condattr_init : ℕ
  pub cond_init : ℕ
  pub fchmod : Option Errno
  pub plain_open : Option Errno
  pub stats : ℕ → Stat
  pub attach_mmap : Option Errno
  pub attach_malloc : Option Errno

-- What comes of a call: the creator's descriptor and file, the descriptor of one that found the
-- file, or -1 with `errno`; a failure says whether the path was unlinked, whether the mapping was
-- undone, and whether the descriptor was freed. `undefined` is a call that writes outside
-- the mapping, or whose loop counter overflows; `unanswered` one that has used up its answers.
pub data Opened : Type 0 where
  created : Info → Queue → Opened
  attached : Info → Opened
  open_failed : Errno → (unlinked unmapped freed : Bool) → Opened
  undefined unanswered : Opened

-- `goto err` on an error of a call, else on with the next one. `map` and `info` say whether the
-- mapping and the descriptor are there to be undone.
abbrev pub check : Option Errno → (map info : Bool) → Opened → Opened
check none map info k = k
check (some e) map info k = open_failed e true map info

-- `goto pthreaderr` on a nonzero result.
abbrev pub check_rc : ℕ → Opened → Opened
check_rc rc k = if rc == 0 then k else open_failed (code rc) true true true

-- The free list has a link outside the file if its size has wrapped, and then `index` may overflow. The
-- counter of the loop is an int.
abbrev pub in_bounds : (hdr_size maxmsg msgsize : ℕ) → Bool
in_bounds hdr_size maxmsg msgsize =
    let last = hdr_size + (maxmsg - 1) * (msg_hdr_size + round_up msgsize) in
    leb (last + 8) (filesize hdr_size maxmsg msgsize)
    && (leb last long_max && leb (maxmsg - 1) int_max)

-- From the calculation of the file's size to the return, for the process that created the file.
pub set_up :
    (hdr_size : ℕ) → (nonblock : Bool) → (maxmsg msgsize : ℕ) → (blank : Queue) → Answers → Opened
set_up hdr_size nonblock maxmsg msgsize blank a = check a.lseek false false (
    check a.write false false (
      check a.mmap false false (
        check a.malloc true false (
          let made = check_rc a.mutexattr_init (
            check_rc a.mutex_init (
              check_rc a.condattr_init (
                check_rc a.cond_init (
                  check a.fchmod true true (
                    created (record { magic = mqi_magic; nonblock = nonblock })
                      (init_queue hdr_size maxmsg msgsize blank)))))) in
          if in_bounds hdr_size maxmsg msgsize then made else undefined))))

-- After the open with O_EXCL: the attributes, `defattr` if none are given, are checked.
pub create :
    (hdr_size : ℕ) → (nonblock : Bool) → Option (ℤ × ℤ) → (blank : Queue) → Answers → Opened
create hdr_size nonblock none blank a = set_up hdr_size nonblock 128 1024 blank a
create hdr_size nonblock (some (m, s)) blank a =
    if is_pos m && is_pos s
    then set_up hdr_size nonblock (to_ℕ m) (to_ℕ s) blank a
    else open_failed einval true false false

-- From `exists` on: `none` goes back to `again`.
pub attach : (creat nonblock : Bool) → Answers → Option Opened
attach creat nonblock a = elim a.plain_open [
  | none ↦ elim (wait_ready max_tries creat a.stats 0) [
    | again ↦ none
    | stopped e ↦ some (open_failed e false false false)
    | ready ↦ elim a.attach_mmap [
      | some e ↦ some (open_failed e false false false)
      | none ↦ elim a.attach_malloc [
        | some e ↦ some (open_failed e false true false)
        | none ↦ some (attached (record { magic = mqi_magic; nonblock = nonblock }))
      ]
    ]
  ]
  | some enoent ↦ if creat then none else some (open_failed enoent false false false)
  | some e ↦ some (open_failed e false false false)
]

-- One pass from `again`. An error of the open with O_EXCL other than a tolerated EEXIST returns at
-- once, with nothing to undo.
pub pass :
    (hdr_size : ℕ) → (creat excl nonblock : Bool) → Option (ℤ × ℤ) → Queue → Answers → Option Opened
pass hdr_size true excl nonblock attr blank a = elim a.excl_open [
  | none ↦ some (create hdr_size nonblock attr blank a)
  | some eexist ↦
      if excl then some (open_failed eexist false false false) else attach true nonblock a
  | some e ↦ some (open_failed e false false false)
]
pass hdr_size false excl nonblock attr blank a = attach false nonblock a

pub mymq_open :
    (hdr_size : ℕ) → (creat excl nonblock : Bool) → Option (ℤ × ℤ) → Queue → List Answers → Opened
mymq_open hdr_size creat excl nonblock attr blank [] = unanswered
mymq_open hdr_size creat excl nonblock attr blank (a ∷ as') =
    let rest = mymq_open hdr_size creat excl nonblock attr blank as' in
    elim (pass hdr_size creat excl nonblock attr blank a) [ some o ↦ o | none ↦ rest ]
