-- ===== src/SystemV/Kept.antt =====
-- What the exits of sem_open.c, and the making of a set, leave of the sets of the system.
use com_tutor.Base.{
  ℕ, ◌≡◌, refl, ap, ◌∙◌, inl, inr, Bool, true, false, Option, none, some, ltb, ◌==◌, ==→eq,
  Bool-cases, if◌then◌else◌, if_induction, update, update_at, update_off, arith,
}
use com_tutor.Base.Errno.{Errno, einval, eexist}
use com_tutor.SystemV.{
  semget_error, got_id, Answers, Sets, Opened, opened, open_failed, semvmx, err, finish, initialise,
}

-- The set that semget gives to a call that gets as far as that.
abbrev pub found : Answers → Option ℕ
found a = elim a.attach_ftok [
  | some e ↦ none
  | none ↦ elim a.semget [ semget_error e ↦ none | got_id id ↦ some id ]
]

-- The set that a call gets, new or found.
abbrev pub obtained : (creat excl : Bool) → Answers → Option ℕ
obtained false excl a = found a
obtained true excl a = elim a.open_file [
  | some e ↦ none
  | none ↦ elim a.ftok [
    | some e ↦ none
    | none ↦ elim a.semget_excl [
      | got_id id ↦ some id
      | semget_error eexist ↦ if excl then none else found a
      | semget_error e ↦ none
    ]
  ]
]

-- semget with IPC_EXCL makes a new set, and without it finds one of the system.
pub record IsSemget (a : Answers) (s : Sets) : Type 0 where
  pub fresh : (id : ℕ) → a.semget_excl ≡ got_id id → s id ≡ false
  pub known : (id : ℕ) → a.semget ≡ got_id id → s id ≡ true

-- A call that succeeds keeps the set that it got. One that fails has removed it, if IPC_RMID does so.
abbrev pub survives : Opened → (rmid : Option Errno) → Bool
survives (opened id v) rmid = true
survives (open_failed e) none = false
survives (open_failed e) (some x) = true

-- A semaphore that is opened is on the set.
abbrev pub IsOn : (semid : ℕ) → Opened → Type 0
IsOn semid (opened id v) = id ≡ semid
IsOn semid (open_failed e) = Unit

-- What becomes of the sets `s` in a call that gets the set `semid`: without one, the call fails and
-- changes none.
abbrev pub IsKept : (semid : Option ℕ) → (rmid : Option Errno) → Sets → Opened × Sets → Type 0
IsKept none rmid s (r, s') = ((e : Errno) × (r ≡ open_failed e)) × ((j : ℕ) → s' j ≡ s j)
IsKept (some id) rmid s (r, s') =
    IsOn id r × ((j : ℕ) → s' j ≡ (if j == id then survives r rmid else s j))

pub Option_induction {ℓ ℓ' ℓ''} :
    {A : Type ℓ} {B : Type ℓ'} (P : B → Type ℓ'') (x : Option A) (n : B) (f : A → B)
    → P n
    → ((a : A) → P (f a))
    → P (elim x [ none ↦ n | some a ↦ f a ])
Option_induction P none n f if_none if_some = if_none
Option_induction P (some a) n f if_none if_some = if_some a

same_sets : (id : ℕ) (s : Sets) → s id ≡ true → (j : ℕ) → s j ≡ (if j == id then true else s j)
same_sets id s there j = elim (Bool-cases (j == id)) [
  | inl here ↦ rw here (ap s (==→eq j id here) ∙ there)
  | inr other ↦ rw other refl
]

pub err-IsKept :
    (e : Errno) (id : ℕ) (a : Answers) (s : Sets)
    → s id ≡ true
    → IsKept (some id) a.rmid s (err e (some id) a s)
err-IsKept e id a s there = (tt, removed a.rmid)
  where
    removed :
        (rmid : Option Errno) (j : ℕ)
        → (elim rmid as (λ x. Sets) [ none ↦ update s id false | some unseen ↦ s ]) j
          ≡ (if j == id then survives (open_failed e) rmid else s j)
    removed none j = ground (arith, update_at s id false, update_off s id false j)
    removed (some x) j = same_sets id s there j

pub finish-IsKept :
    (id : ℕ) (v : Option ℕ) (a : Answers) (s : Sets)
    → s id ≡ true
    → IsKept (some id) a.rmid s (finish id v a s)
finish-IsKept id v a s there =
    Option_induction (IsKept (some id) a.rmid s) a.malloc (opened id v, s)
      (λ e. err e (some id) a s) (refl, same_sets id s there) (λ e. err-IsKept e id a s there)

pub initialise-IsKept :
    (id value : ℕ) (a : Answers) (s : Sets)
    → s id ≡ true
    → IsKept (some id) a.rmid s (initialise id value a s)
unfolding initialise
initialise-IsKept id value a s there =
    let P : Opened × Sets → Type 0 = IsKept (some id) a.rmid s in
    let fails : (e : Errno) → P (err e (some id) a s) = λ e. err-IsKept e id a s there in
    Option_induction P a.setval _ (λ e. err e (some id) a s)
      (if_induction P (ltb semvmx value) (err einval (some id) a s) _ (λ q. fails einval)
        (λ q.
          Option_induction P a.semop (finish id (some value) a s) (λ e. err e (some id) a s)
            (finish-IsKept id (some value) a s there) fails))
      fails

-- A set that has just been made counts as one that the call got.
pub IsKept-new :
    (id : ℕ) (rmid : Option Errno) (s : Sets) (x : Opened × Sets)
    → IsKept (some id) rmid (update s id true) x
    → IsKept (some id) rmid s x
IsKept-new id rmid s (r, s') (on, kept) = (on, λ j. ground (arith, kept j, update_off s id true j))
