-- ===== src/SystemV/Removal.antt =====
-- What becomes of the sets in an open, and whose set it removes when it fails.
use com_tutor.Base.{
  ℕ, ◌≡◌, refl, Bool, true, false, Option, none, some, if◌then◌else◌, update, update_at,
}
use com_tutor.Base.Errno.{
  Errno, ebadf, emsgsize, eagain, ebusy, einval, eexist, enoent, etimedout, code,
}
use com_tutor.SystemV.{
  Semget, semget_error, got_id, Answers, Sets, Opened, open_failed, max_tries, err, finish,
  initialise, wait_initialised, attach, mysem_open,
}
use com_tutor.SystemV.Kept.{
  found, obtained, IsSemget, IsKept, Option_induction, err-IsKept, finish-IsKept, initialise-IsKept,
  IsKept-new,
}

attach-IsKept :
    (a : Answers) (s : Sets) → IsSemget a s → IsKept (found a) a.rmid s (attach none a s)
unfolding attach
attach-IsKept a s is = key a.attach_ftok
  where
    waited :
        (id : ℕ)
        → s id ≡ true
        → IsKept
            (some id)
            a.rmid
            s
            (elim (wait_initialised max_tries a.stats 0) as (λ x. Opened × Sets) [
              | some e ↦ err e (some id) a s
              | none ↦ finish id none a s
            ])
    waited id there =
        Option_induction (IsKept (some id) a.rmid s) (wait_initialised max_tries a.stats 0)
          (finish id none a s) (λ e. err e (some id) a s) (finish-IsKept id none a s there)
          (λ e. err-IsKept e id a s there)

    got :
        (g : Semget)
        → a.semget ≡ g
        → IsKept
            (elim g as (λ x. Option ℕ) [ semget_error e ↦ none | got_id id ↦ some id ])
            a.rmid
            s
            (elim g as (λ x. Opened × Sets) [
              | semget_error e ↦ err e none a s
              | got_id id ↦ elim (wait_initialised max_tries a.stats 0) [
                | some e ↦ err e (some id) a s
                | none ↦ finish id none a s
              ]
            ])
    got (semget_error e) q = ((e, refl), λ j. refl)
    got (got_id id) q = waited id (is.known id q)

    key :
        (o : Option Errno)
        → IsKept
            (elim o as (λ x. Option ℕ) [
              | some e ↦ none
              | none ↦ elim a.semget [ semget_error e ↦ none | got_id id ↦ some id ]
            ])
            a.rmid
            s
            (elim o as (λ x. Opened × Sets) [
              | some e ↦ err e none a s
              | none ↦ elim a.semget [
                | semget_error e ↦ err e none a s
                | got_id id ↦ elim (wait_initialised max_tries a.stats 0) [
                  | some e ↦ err e (some id) a s
                  | none ↦ finish id none a s
                ]
              ]
            ])
    key (some e) = ((e, refl), λ j. refl)
    key none = got a.semget refl

none_set : (rmid : Option Errno) (s : Sets) (e : Errno) → IsKept none rmid s (open_failed e, s)
none_set rmid s e = ((e, refl), λ j. refl)

old-IsKept :
    (a : Answers) (s : Sets)
    → IsSemget a s
    → (excl : Bool)
    → IsKept
        (if excl then none else found a)
        a.rmid
        s
        (if excl then err eexist none a s else attach none a s)
old-IsKept a s is true = none_set a.rmid s eexist
old-IsKept a s is false = attach-IsKept a s is

semget_excl-IsKept :
    (excl : Bool) (value : ℕ) (a : Answers) (s : Sets)
    → IsSemget a s
    → (g : Semget)
    → IsKept
        (elim g as (λ x. Option ℕ) [
          | got_id id ↦ some id
          | semget_error eexist ↦ if excl then none else found a
          | semget_error e ↦ none
        ])
        a.rmid
        s
        (elim g as (λ x. Opened × Sets) [
          | got_id id ↦ initialise id value a (update s id true)
          | semget_error eexist ↦ if excl then err eexist none a s else attach none a s
          | semget_error e ↦ err e none a s
        ])
semget_excl-IsKept excl value a s is (got_id id) =
    IsKept-new id a.rmid s (initialise id value a (update s id true))
      (initialise-IsKept id value a (update s id true) (update_at s id true))
semget_excl-IsKept excl value a s is (semget_error eexist) = old-IsKept a s is excl
semget_excl-IsKept excl value a s is (semget_error ebadf) = none_set a.rmid s ebadf
semget_excl-IsKept excl value a s is (semget_error emsgsize) = none_set a.rmid s emsgsize
semget_excl-IsKept excl value a s is (semget_error eagain) = none_set a.rmid s eagain
semget_excl-IsKept excl value a s is (semget_error ebusy) = none_set a.rmid s ebusy
semget_excl-IsKept excl value a s is (semget_error einval) = none_set a.rmid s einval
semget_excl-IsKept excl value a s is (semget_error enoent) = none_set a.rmid s enoent
semget_excl-IsKept excl value a s is (semget_error etimedout) = none_set a.rmid s etimedout
semget_excl-IsKept excl value a s is (semget_error (code x)) = none_set a.rmid s (code x)

-- A mysem_open to which semget gives no set fails, and changes none. One that gets a set, new or of
-- another process, changes no other set: if it succeeds, the semaphore is on the set, which is there; if
-- it fails, the set is gone, or is there if IPC_RMID has failed.
pub open_removes_any :
    (creat excl : Bool) (value : ℕ) (a : Answers) (s : Sets)
    → IsSemget a s
    → IsKept (obtained creat excl a) a.rmid s (mysem_open creat excl value a s)
unfolding mysem_open
open_removes_any false excl value a s is = attach-IsKept a s is
open_removes_any true excl value a s is = file a.open_file a.ftok
  where
    file :
        (o k : Option Errno)
        → IsKept
            (elim o as (λ x. Option ℕ) [
              | some e ↦ none
              | none ↦ elim k [
                | some e ↦ none
                | none ↦ elim a.semget_excl [
                  | got_id id ↦ some id
                  | semget_error eexist ↦ if excl then none else found a
                  | semget_error e ↦ none
                ]
              ]
            ])
            a.rmid
            s
            (elim o as (λ x. Opened × Sets) [
              | some e ↦ (open_failed e, s)
              | none ↦ elim k [
                | some e ↦ (open_failed e, s)
                | none ↦ elim a.semget_excl [
                  | got_id id ↦ initialise id value a (update s id true)
                  | semget_error eexist ↦ if excl then err eexist none a s else attach none a s
                  | semget_error e ↦ err e none a s
                ]
              ]
            ])
    file (some e) k = none_set a.rmid s e
    file none (some e) = none_set a.rmid s e
    file none none = semget_excl-IsKept excl value a s is a.semget_excl
