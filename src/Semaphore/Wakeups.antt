-- ===== src/Semaphore/Wakeups.antt =====
-- Which sleepers a post wakes. A post signals only if it finds the count 0, and one thread at most.
use com_tutor.Base.{
  ℕ, ◌+◌, ◌≤◌, ◌<◌, ◌≡◌, ◌≢◌, refl, ap, inl, inr, false, arith, ◌==◌, update, subst, update_at,
  Zero-cases,
}
use com_tutor.Base.Counts.{total, total-update, total-le, total-find, total-none}
use com_tutor.Semaphore.Threads.{
  Pc, idle, sleeps, woken, inside, System, wait_round, is_inside, Step, wait, trywait, spurious,
  keep, post_quiet, post_signal, post_signal_none, Reach, start, later,
}
use com_tutor.Semaphore.Invariant.{tokens_conserved, posts_not_sleeping}

abbrev is_sleeping : Pc → ℕ
is_sleeping sleeps = 1
is_sleeping _ = 0

abbrev is_woken : Pc → ℕ
is_woken woken = 1
is_woken _ = 0

-- While units are left and threads sleep, some thread has been woken.
abbrev Awake : ℕ → System → Type 0
Awake n s = 0 < s.count → 0 < total is_sleeping n s.pc → 0 < total is_woken n s.pc

module _ (n : ℕ) (pc : ℕ → Pc) (i : ℕ) (p a : Pc) (lt : i < n) (e : pc i ≡ p) where
  sleeping :
      total is_sleeping n (update pc i a) + is_sleeping p ≡ total is_sleeping n pc + is_sleeping a
  sleeping = total-update is_sleeping n pc i p a lt e

  waking : total is_woken n (update pc i a) + is_woken p ≡ total is_woken n pc + is_woken a
  waking = total-update is_woken n pc i p a lt e

nobody_sleeps :
    (n : ℕ) (s : System) (i : ℕ)
    → ((j : ℕ) → j < n → s.pc j ≢ sleeps)
    → total is_sleeping n (update s.pc i idle) ≡ 0
nobody_sleeps n s i nobody =
    total-none is_sleeping n (update s.pc i idle) (λ j lt. ground (arith, nobody j lt))

round_empties : (c : ℕ) → c ≤ 1 → (wait_round c).0 ≡ 0
round_empties c h = ground arith

some_left : (c : ℕ) → (c == 0) ≡ false → 0 < c
some_left c h = ground arith

-- With one unit in all, a step keeps it so.
Step-Awake :
    {n : ℕ} {s t : System}
    → Step n s t
    → s.count + total is_inside n s.pc ≤ 1
    → s.made ≡ t.made
    → Awake n s
    → Awake n t
Step-Awake {n} {s} (wait i p lt e own) one same h some sleepers =
    absurd (omega (arith, some, round_empties s.count (omega (arith, one))))
Step-Awake {n} {s} (trywait i lt e free) one same h some sleepers = absurd (ground arith)
Step-Awake {n} {s} (spurious i lt e) one same h some sleepers =
    omega (arith, waking n s.pc i sleeps woken lt e)
Step-Awake {n} {s} (keep i lt e) one same h some sleepers =
    omega (arith, h some, sleeping n s.pc i inside idle lt e, waking n s.pc i inside idle lt e)
Step-Awake {n} {s} (post_quiet i p lt e own free) one same h some sleepers = absurd (
    omega
      (arith, one, some_left s.count free, same, total-le is_inside n s.pc i lt, ap is_inside e))
Step-Awake {n} {s} (post_signal i j p lt ltj e own none ej) one same h some sleepers =
    let f : ℕ → Pc = update s.pc i idle in
    omega (arith, total-le is_woken n (update f j woken) j ltj, ap is_woken (update_at f j woken))
Step-Awake {n} {s} (post_signal_none i p lt e own none nobody) one same h some sleepers =
    absurd (omega (arith, sleepers, nobody_sleeps n s i nobody))

Step-made : {n : ℕ} {s t : System} → Step n s t → s.made ≤ t.made
Step-made (wait i p lt e own) = omega arith
Step-made (trywait i lt e free) = omega arith
Step-made (spurious i lt e) = omega arith
Step-made (keep i lt e) = omega arith
Step-made (post_quiet i p lt e own free) = omega arith
Step-made (post_signal i j p lt ltj e own none ej) = omega arith
Step-made (post_signal_none i p lt e own none nobody) = omega arith

Reach-Awake : {n : ℕ} {s : System} → Reach n 1 s → s.made ≡ 0 → Awake n s
Reach-Awake {n} start none = λ some sleepers.
    absurd (omega (arith, sleepers, total-none is_sleeping n (λ _. idle) (λ j lt. refl)))
Reach-Awake {n} (later {s} r st) none =
    let before : s.made ≡ 0 = omega (arith, none, Step-made st) in
    Step-Awake st (omega (arith, tokens_conserved r (omega (arith, before)), before))
      (omega (arith, before, none)) (Reach-Awake r before)

-- Whoever is inside or has been woken can go on when it gets the mutex.
pub data CanGoOn : Pc → Type 0 where
  goes_on : CanGoOn inside
  tests_again : CanGoOn woken

woken-CanGoOn : (p : Pc) → 0 < is_woken p → CanGoOn p
woken-CanGoOn woken h = tests_again
woken-CanGoOn idle h = absurd (omega arith)
woken-CanGoOn sleeps h = absurd (omega arith)
woken-CanGoOn inside h = absurd (omega arith)

inside-CanGoOn : (p : Pc) → 0 < is_inside p → CanGoOn p
inside-CanGoOn inside h = goes_on
inside-CanGoOn idle h = absurd (omega arith)
inside-CanGoOn sleeps h = absurd (omega arith)
inside-CanGoOn woken h = absurd (omega arith)

-- A semaphore opened with 1, to which no thread posts from outside and whose unit nobody keeps:
-- while a thread sleeps, some thread is inside or has been woken.
pub binary_no_lost_wakeup :
    {n : ℕ} {s : System}
    → Reach n 1 s
    → s.made ≡ 0
    → s.used ≡ 0
    → (i : ℕ) → i < n
    → s.pc i ≡ sleeps
    → (j : ℕ) × (j < n) × CanGoOn (s.pc j)
binary_no_lost_wakeup {n} {s} r none kept i lt e = elim (Zero-cases s.count) [
  | inr some ↦
      let (j, ltj, p) = total-find is_woken n s.pc (
        Reach-Awake r none some
          (omega (arith, total-le is_sleeping n s.pc i lt, ap is_sleeping e))) in
      (j, ltj, woken-CanGoOn (s.pc j) p)
  | inl zero' ↦
      let (j, ltj, p) =
        total-find is_inside n s.pc
          (omega (arith, tokens_conserved r (omega (arith, none)), none, kept, zero')) in
      (j, ltj, inside-CanGoOn (s.pc j) p)
]

-- The state after two posts of `i`, the first of which wakes `j`, and the return of `j`.
abbrev pub twice_posted : System → (i j : ℕ) → System
twice_posted s i j = record {
  count = 1;
  pc = update (update (update (update s.pc i idle) j woken) i idle) j inside;
  made = s.made + 1 + 1;
  used = s.used;
}

twice_posted-Reach :
    (n value : ℕ) (pc : ℕ → Pc) (made used i j : ℕ)
    → Reach n value (record { count = 0; pc = pc; made = made; used = used })
    → i < n
    → j < n
    → i ≢ j
    → pc i ≡ idle
    → pc j ≡ sleeps
    → Reach n value (twice_posted (record { count = 0; pc = pc; made = made; used = used }) i j)
twice_posted-Reach n value pc made used i j r lt ltj d ei ej =
    let f : ℕ → Pc = update (update pc i idle) j woken in
    let first = later r (post_signal i j idle lt ltj ei (inl refl) refl ej) in
    let fi : f i ≡ idle = ground arith in
    let second = later first (post_quiet i idle lt fi (inl refl) refl) in
    let fj : update f i idle j ≡ woken = ground arith in
    later second (wait j woken ltj fj (inr refl))

-- With two sleepers the second of two posts finds the count 1 and wakes nobody. From any state in
-- which the count is 0, thread `i` does not wait and `j` and `k` sleep, the threads reach a state in
-- which the count is 1, `k` still sleeps, and nobody is woken who was not before.
pub second_post_wakes_nobody :
    {n value : ℕ} {s : System}
    → Reach n value s
    → s.count ≡ 0
    → (i j k : ℕ) → i < n
    → j < n
    → j ≢ k
    → s.pc i ≡ idle
    → s.pc j ≡ sleeps
    → s.pc k ≡ sleeps
    → Reach n value (twice_posted s i j)
      × ((twice_posted s i j).pc k ≡ sleeps)
      × ((m : ℕ) → s.pc m ≢ woken → (twice_posted s i j).pc m ≢ woken)
second_post_wakes_nobody {n} {value} {s} r empty i j k lt ltj d ei ej ek =
    let other : i ≢ j = posts_not_sleeping s i j idle ei (inl refl) ej in
    (
      twice_posted-Reach n value s.pc s.made s.used i j
          (subst (λ c. Reach n value (record s { count = c })) empty r) lt ltj other ei ej,
      ground (arith, ap s.pc),
      λ m h. ground (arith, h),
    )
