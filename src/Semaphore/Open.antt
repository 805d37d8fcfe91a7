-- ===== src/Semaphore/Open.antt =====
-- sem_open.c: mysem_open, which creates the file of a semaphore or attaches one that is there.
pub mod Laws
use com_tutor.Base.{
  ℕ, zero, suc, ◌+◌, Bool, true, false, Option, none, some, List, [], ◌∷◌, ltb, ◌==◌, if◌then◌else◌,
}
use com_tutor.Base.Errno.{Errno, einval, eexist, enoent, code}
use com_tutor.SharedFile.{Stat, Wait, ready, again, stopped, wait_ready, max_tries}
use com_tutor.Semaphore.{Sem, sem_magic}

-- What the system answers in one pass from `again`; `none` is success. `stats i` is the answer of
-- `stat` in round `i` of the wait, and `shared` what the mapping of a file that is there holds when
-- the wait has ended.
pub record Answers : Type 0 where
  pub excl_open : Option Errno
  pub write : Option Errno
  pub mmap : Option Errno
  pub mutexattr_init : ℕ
  pub mutex_init : ℕ
  pub condattr_init : ℕ
  pub cond_init : ℕ
  pub fchmod : Option Errno
  pub plain_open : Option Errno
  pub attach_mmap : Option Errno
  pub stats : ℕ → Stat
  pub shared : Sem

-- The semaphore that is returned, or SEM_FAILED with `errno`; a failure says whether the path was
-- unlinked and whether a mapping was undone. `leaked` is the number of mappings that were made and
-- to which no pointer is left.
pub data Opened : Type 0 where
  created attached : Sem → (leaked : ℕ) → Opened
  open_failed : Errno → (unlinked unmapped : Bool) → (leaked : ℕ) → Opened
  unanswered : Opened

-- A pass ends the call, or goes back to `again`. The variable `sem` keeps its value between two
-- passes: `held` says whether it points to a mapping.
pub data Pass : Type 0 where
  finished : Opened → Pass
  retry : (held : Bool) → (leaked : ℕ) → Pass

-- The store of a new mapping, or of MAP_FAILED, in `sem`.
abbrev pub overwritten : (held : Bool) → ℕ → ℕ
overwritten held leaked = if held then leaked + 1 else leaked

-- `goto err` on an error of a call, and `goto pthreaderr` on a nonzero result, after the mapping.
abbrev pub check : Option Errno → ℕ → Opened → Opened
check none leaked k = k
check (some e) leaked k = open_failed e true true leaked

abbrev pub check_rc : ℕ → ℕ → Opened → Opened
check_rc rc leaked k = if rc == 0 then k else open_failed (code rc) true true leaked

-- What the creator does once it has its mapping; `limit` is what sysconf(_SC_SEM_VALUE_MAX) returns.
unfoldable pub initialise : (value limit leaked : ℕ) → Answers → Opened
initialise value limit leaked a = check_rc a.mutexattr_init leaked (
    check_rc a.mutex_init leaked (
      check_rc a.condattr_init leaked (
        check_rc a.cond_init leaked (
          if ltb limit value
          then open_failed einval true true leaked
          else check a.fchmod leaked
              (created (record { magic = sem_magic; count = value }) leaked)))))

unfoldable pub create : (value limit : ℕ) → (held : Bool) → (leaked : ℕ) → Answers → Opened
unfolding initialise
create value limit held leaked a = elim a.write [
  | some e ↦ open_failed e true held leaked
  | none ↦ elim a.mmap [
    | some e ↦ open_failed e true false (overwritten held leaked)
    | none ↦ initialise value limit (overwritten held leaked) a
  ]
]

-- From `exists` on.
unfoldable pub attach : (creat held : Bool) → (leaked : ℕ) → Answers → Pass
attach creat held leaked a = elim a.plain_open [
  | some enoent ↦
      if creat then retry held leaked else finished (open_failed enoent false held leaked)
  | some e ↦ finished (open_failed e false held leaked)
  | none ↦ elim a.attach_mmap [
    | some e ↦ finished (open_failed e false false (overwritten held leaked))
    | none ↦ elim (wait_ready max_tries creat a.stats 0) [
      | again ↦ retry true (overwritten held leaked)
      | stopped e ↦ finished (open_failed e false true (overwritten held leaked))
      | ready ↦
          finished (attached (record a.shared { magic = sem_magic }) (overwritten held leaked))
    ]
  ]
]

-- An error of the open with O_EXCL other than a tolerated EEXIST returns at once, and undoes nothing.
unfoldable pub pass :
    (creat excl : Bool) → (value limit : ℕ) → (held : Bool) → (leaked : ℕ) → Answers → Pass
pass true excl value limit held leaked a = elim a.excl_open [
  | none ↦ finished (create value limit held leaked a)
  | some eexist ↦
      if excl
      then finished (open_failed eexist false false (overwritten held leaked))
      else attach true held leaked a
  | some e ↦ finished (open_failed e false false (overwritten held leaked))
]
pass false excl value limit held leaked a = attach false held leaked a

-- One list entry for each pass; `unanswered` is a call that has used up its answers.
unfoldable pub passes :
    (creat excl : Bool) → (value limit : ℕ) → (held : Bool) → (leaked : ℕ) → List Answers → Opened
passes creat excl value limit held leaked [] = unanswered
passes creat excl value limit held leaked (a ∷ as') =
    elim (pass creat excl value limit held leaked a) [
      | finished o ↦ o
      | retry held' leaked' ↦ passes creat excl value limit held' leaked' as'
    ]

unfoldable pub mysem_open : (creat excl : Bool) → (value limit : ℕ) → List Answers → Opened
unfolding passes
mysem_open creat excl value limit answers = passes creat excl value limit false 0 answers
