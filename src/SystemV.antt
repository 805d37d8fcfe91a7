-- ===== src/SystemV.antt =====
-- unixipc/my_pxsem_svsem: sem_open.c, which gets a System V semaphore set of one member. Two processes
-- agree on it by a file, and the set is initialised when its time of the last semop is not 0.
pub mod Laws
pub mod Removal
pub mod Kept
pub mod Calls
mod Tests
use com_tutor.Base.{
  ℕ, zero, suc, ◌+◌, Bool, true, false, Option, none, some, ltb, ◌==◌, if◌then◌else◌, update,
}
use com_tutor.Base.Errno.{Errno, einval, eexist, etimedout}

-- What semctl with IPC_STAT says: an error, or `sem_otime`.
pub data Stat : Type 0 where
  stat_error : Errno → Stat
  otime : ℕ → Stat

-- What semget answers: an error, or the identifier of a set.
pub data Semget : Type 0 where
  semget_error : Errno → Semget
  got_id : ℕ → Semget

-- What the system answers; `none` is success. `stats i` is the answer in round `i` of the wait.
pub record Answers : Type 0 where
  pub open_file : Option Errno
  pub ftok : Option Errno
  pub semget_excl : Semget
  pub setval : Option Errno
  pub semop : Option Errno
  pub attach_ftok : Option Errno
  pub semget : Semget
  pub stats : ℕ → Stat
  pub malloc : Option Errno
  pub rmid : Option Errno

-- The sets that are in the system, by their identifiers.
abbrev pub Sets : Type 0
Sets = ℕ → Bool

-- The semaphore, with its set and the value given to it if this call initialised it; or SEM_FAILED with
-- `errno`.
pub data Opened : Type 0 where
  opened : (sem_semid : ℕ) → (initial : Option ℕ) → Opened
  open_failed : Errno → Opened

abbrev pub semvmx : ℕ
semvmx = 32767

abbrev pub max_tries : ℕ
max_tries = 10

-- The label `err`, with the variable `semid`: `none` is -1. What semctl answers is not looked at.
abbrev pub err : Errno → (semid : Option ℕ) → Answers → Sets → Opened × Sets
err e none a s = (open_failed e, s)
err e (some id) a s = (open_failed e, elim a.rmid [ none ↦ update s id false | some unseen ↦ s ])

-- From `finish` on.
abbrev pub finish : (semid : ℕ) → (initial : Option ℕ) → Answers → Sets → Opened × Sets
finish semid initial a s = elim a.malloc [
  | some e ↦ err e (some semid) a s
  | none ↦ (opened semid initial, s)
]

-- The set is new: it is set to 0, and then raised by `value`.
unfoldable pub initialise : (semid value : ℕ) → Answers → Sets → Opened × Sets
initialise semid value a s = elim a.setval [
  | some e ↦ err e (some semid) a s
  | none ↦
      if ltb semvmx value
      then err einval (some semid) a s
      else elim a.semop [ some e ↦ err e (some semid) a s | none ↦ finish semid (some value) a s ]
]

-- The wait: `none` is a set that has been initialised, else the `errno` with which it ends.
unfoldable pub wait_initialised : (tries : ℕ) → (ℕ → Stat) → (i : ℕ) → Option Errno
wait_initialised zero stats i = some etimedout
wait_initialised (suc n) stats i =
    let rest = wait_initialised n stats (i + 1) in
    elim (stats i) [ stat_error e ↦ some e | otime t ↦ if t == 0 then rest else none ]

-- The second half of the function, for a set that is there.
unfoldable pub attach : (semid : Option ℕ) → Answers → Sets → Opened × Sets
attach semid a s = elim a.attach_ftok [
  | some e ↦ err e semid a s
  | none ↦ elim a.semget [
    | semget_error e ↦ err e none a s
    | got_id id ↦ elim (wait_initialised max_tries a.stats 0) [
      | some e ↦ err e (some id) a s
      | none ↦ finish id none a s
    ]
  ]
]

unfoldable pub mysem_open : (creat excl : Bool) → (value : ℕ) → Answers → Sets → Opened × Sets
unfolding initialise attach
mysem_open false excl value a s = attach none a s
mysem_open true excl value a s = elim a.open_file [
  | some e ↦ (open_failed e, s)
  | none ↦ elim a.ftok [
    | some e ↦ (open_failed e, s)
    | none ↦ elim a.semget_excl [
      | got_id id ↦ initialise id value a (update s id true)
      | semget_error eexist ↦ if excl then err eexist none a s else attach none a s
      | semget_error e ↦ err e none a s
    ]
  ]
]
