-- ===== src/Semaphore/Invariant.antt =====
-- Units of the semaphore are neither made nor lost by the threads that use it.
use com_tutor.Base.{
  ℕ, suc, ◌+◌, ◌-◌, ◌*◌, ◌≤◌, ◌<◌, ◌≡◌, ◌≢◌, refl, ◌∙◌, ap, ◌⊎◌, inl, inr, arith, update,
  update_off, Zero-cases,
}
use com_tutor.Base.Counts.{total, total-update, total-two, total-none}
use com_tutor.Semaphore.{word, increment}
use com_tutor.Semaphore.Threads.{
  Pc, idle, sleeps, woken, inside, System, wait_round, is_inside, posted, Step, wait, trywait,
  spurious, keep, post_quiet, post_signal, post_signal_none, Reach, start, later,
}

-- The units, counted with the times the count has wrapped round.
pub record Conserved (value count ins made used : ℕ) : Type 0 where
  pub wraps : ℕ
  pub in_word : count < word
  pub balance : count + ins + used + wraps * word ≡ value + made

increment-cases :
    (c : ℕ)
    → c < word
    → ((c + 1 < word) × (increment c ≡ c + 1)) ⊎ ((c + 1 ≡ word) × (increment c ≡ 0))
increment-cases c h = elim (Zero-cases (word - (c + 1))) [
  | inl z ↦ inr (omega arith, omega arith)
  | inr p ↦ inl (omega arith, omega arith)
]

post_conserves :
    (value count ins ins' made used d : ℕ)
    → Conserved value count ins made used
    → ins' + d ≡ ins
    → d ≤ 1
    → Conserved value (increment count) ins' (made + (1 - d)) used
post_conserves value count ins ins' made used d h e le = elim (increment-cases count h.in_word) [
  | inl (lt, q) ↦ record {
    wraps = h.wraps;
    in_word = omega (arith, lt, q);
    balance = omega (arith, h.balance, q, e, le);
  }
  | inr (top, q) ↦ record {
    wraps = suc h.wraps;
    in_word = omega (arith, q);
    balance = omega (arith, h.balance, q, top, e, le);
  }
]

wait_conserves :
    (value count ins ins' made used : ℕ)
    → Conserved value count ins made used
    → ins' ≡ ins + is_inside (wait_round count).1
    → Conserved value (wait_round count).0 ins' made used
wait_conserves value count ins ins' made used h e = record {
  wraps = h.wraps;
  in_word = ground (arith, h.in_word);
  balance = ground (arith, h.balance, e);
}

abbrev pub Conserves : ℕ → ℕ → System → Type 0
Conserves n value s = Conserved value s.count (total is_inside n s.pc) s.made s.used

is_inside-le : (p : Pc) → is_inside p ≤ 1
is_inside-le p = ground arith

not_inside : (p : Pc) → (p ≡ idle) ⊎ (p ≡ woken) → is_inside p ≡ 0
not_inside p h = ground arith

moved :
    (n : ℕ) (pc : ℕ → Pc) (i : ℕ) (p a : Pc)
    → i < n
    → pc i ≡ p
    → total is_inside n (update pc i a) + is_inside p ≡ total is_inside n pc + is_inside a
moved n pc i p a lt e = total-update is_inside n pc i p a lt e

-- The thread that posts is another than the sleeper it wakes.
pub posts_not_sleeping :
    (s : System) (i j : ℕ) (p : Pc)
    → s.pc i ≡ p
    → (p ≡ idle) ⊎ (p ≡ inside)
    → s.pc j ≡ sleeps
    → i ≢ j
posts_not_sleeping s i j p e own ej d = ground (arith, ap s.pc d)

post_one :
    (n value : ℕ) (s : System) (i : ℕ) (p : Pc)
    → Conserves n value s
    → i < n
    → s.pc i ≡ p
    → Conserves n value (posted s p (update s.pc i idle))
post_one n value s i p h lt e =
    post_conserves value s.count _ _ s.made s.used (is_inside p) h
      (omega (arith, moved n s.pc i p idle lt e)) (is_inside-le p)

post_two :
    (n value : ℕ) (s : System) (i j : ℕ) (p : Pc)
    → Conserves n value s
    → i < n
    → j < n
    → s.pc i ≡ p
    → i ≢ j
    → s.pc j ≡ sleeps
    → Conserves n value (posted s p (update (update s.pc i idle) j woken))
post_two n value s i j p h lt ltj e d ej =
    let other : update s.pc i idle j ≡ sleeps = update_off s.pc i idle j d ∙ ej in
    post_conserves value s.count _ _ s.made s.used (is_inside p) h
      (omega
        (arith, moved n s.pc i p idle lt e, moved n (update s.pc i idle) j sleeps woken ltj other))
      (is_inside-le p)

Step-Conserves :
    {n value : ℕ} {s t : System} → Step n s t → Conserves n value s → Conserves n value t
Step-Conserves {s = s} (wait i p lt e own) h =
    wait_conserves _ s.count _ _ s.made s.used h
      (omega (arith, moved _ s.pc i p (wait_round s.count).1 lt e, not_inside p own))
Step-Conserves {s = s} (trywait i lt e some) h = record {
  wraps = h.wraps;
  in_word = omega (arith, h.in_word);
  balance = ground (arith, h.balance, moved _ s.pc i idle inside lt e, some);
}
Step-Conserves {s = s} (spurious i lt e) h = record {
  wraps = h.wraps;
  in_word = h.in_word;
  balance = omega (arith, h.balance, moved _ s.pc i sleeps woken lt e);
}
Step-Conserves {s = s} (keep i lt e) h = record {
  wraps = h.wraps;
  in_word = h.in_word;
  balance = omega (arith, h.balance, moved _ s.pc i inside idle lt e);
}
Step-Conserves {s = s} (post_quiet i p lt e own some) h = post_one _ _ s i p h lt e
Step-Conserves {n} {s = s} (post_signal i j p lt ltj e own none ej) h =
    post_two n _ s i j p h lt ltj e (posts_not_sleeping s i j p e own ej) ej
Step-Conserves {s = s} (post_signal_none i p lt e own none nobody) h = post_one _ _ s i p h lt e

start_none : (n : ℕ) → total is_inside n (λ _. idle) ≡ 0
start_none n = total-none is_inside n (λ _. idle) (λ i lt. refl)

pub Reach-Conserves :
    {n value : ℕ} {s : System} → value < word → Reach n value s → Conserves n value s
Reach-Conserves {n} {value} small start = record {
  wraps = 0;
  in_word = small;
  balance = omega (arith, start_none n);
}
Reach-Conserves small (later r st) = Step-Conserves st (Reach-Conserves small r)

-- A semaphore opened with a value that fits an unsigned int: in every reachable state its count,
-- the threads inside and the units that were kept make up the value and the posts from outside,
-- as long as that sum fits an unsigned int.
pub tokens_conserved :
    {n value : ℕ} {s : System}
    → Reach n value s
    → value + s.made < word
    → s.count + total is_inside n s.pc + s.used ≡ value + s.made
tokens_conserved r fits =
    let h = Reach-Conserves (omega (arith, fits)) r in omega (arith, h.balance, h.in_word, fits)

-- A semaphore opened with 1, to which no thread posts from outside: two threads are never inside.
pub one_inside :
    {n : ℕ} {s : System}
    → Reach n 1 s
    → s.made ≡ 0
    → (i j : ℕ) → i < n
    → j < n
    → i ≢ j
    → s.pc i ≡ inside
    → s.pc j ≢ inside
one_inside {n} {s} r none i j lt ltj d e f = absurd (
    omega (
      arith,
      tokens_conserved r (omega (arith, none)),
      none,
      total-two is_inside n s.pc i j lt ltj d,
      ap is_inside e,
      ap is_inside f,
    ))
