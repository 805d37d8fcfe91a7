-- ===== src/SystemV/Laws.antt =====
-- What an open that succeeds has seen of the set.
use com_tutor.Base.{
  ℕ, zero, suc, ◌+◌, ◌≤◌, ◌<◌, ◌≡◌, refl, subst, ◌⊎◌, inl, inr, Bool, true, false, Option, none,
  some, update, arith,
}
use com_tutor.SystemV.{
  Stat, stat_error, otime, got_id, Answers, Sets, opened, semvmx, max_tries, initialise,
  wait_initialised, attach, mysem_open,
}

-- In some round within the tries the set has been used, and in every round before it has not.
pub record SawUse (tries : ℕ) (stats : ℕ → Stat) (first : ℕ) : Type 0 where
  pub round : ℕ
  pub in_time : round < tries
  pub time : ℕ
  pub used_then : stats (first + round) ≡ otime (suc time)
  pub not_before : (j : ℕ) → j < round → stats (first + j) ≡ otime 0

used_later :
    (n : ℕ) (stats : ℕ → Stat) (i : ℕ)
    → stats i ≡ otime 0
    → SawUse n stats (i + 1)
    → SawUse (suc n) stats i
used_later n stats i e s = record {
  round = suc s.round;
  in_time = omega (arith, s.in_time);
  time = s.time;
  used_then =
      let at : i + 1 + s.round ≡ i + suc s.round = omega arith in
      subst (λ k. stats k ≡ otime (suc s.time)) at s.used_then;
  not_before = before;
}
  where
    before : (j : ℕ) → j < suc s.round → stats (i + j) ≡ otime 0
    before zero h = let at : i ≡ i + 0 = omega arith in subst (λ k. stats k ≡ otime 0) at e
    before (suc j) h =
        let at : i + 1 + j ≡ i + suc j = omega arith in
        subst (λ k. stats k ≡ otime 0) at (s.not_before j (omega arith))

wait_initialised-SawUse :
    (tries : ℕ) (stats : ℕ → Stat) (i : ℕ)
    → wait_initialised tries stats i ≡ none
    → SawUse tries stats i
unfolding wait_initialised
wait_initialised-SawUse zero stats i h = cc
wait_initialised-SawUse (suc n) stats i h =
    look (stats i) refl (wait_initialised-SawUse n stats (i + 1))
  where
    look :
        (s : Stat)
        → stats i ≡ s
        → (wait_initialised n stats (i + 1) ≡ none → SawUse n stats (i + 1))
        → SawUse (suc n) stats i
    look (otime zero) e later = used_later n stats i e (later (ground arith))
    look (otime (suc t)) e later = record {
      round = 0;
      in_time = omega arith;
      time = t;
      used_then = let at : i ≡ i + 0 = omega arith in subst (λ k. stats k ≡ otime (suc t)) at e;
      not_before = λ j lt. absurd (omega arith);
    }
    look (stat_error x) e later = absurd (ground arith)

attach-waits :
    (a : Answers) (s : Sets) {id : ℕ} {v : Option ℕ}
    → (attach none a s).0 ≡ opened id v
    → (a.semget ≡ got_id id) × (v ≡ none) × (wait_initialised max_tries a.stats 0 ≡ none)
unfolding attach
attach-waits a s h = ground arith

initialise-value :
    (semid value : ℕ) (a : Answers) (s : Sets) {id : ℕ} {v : Option ℕ}
    → (initialise semid value a s).0 ≡ opened id v
    → (id ≡ semid) × (v ≡ some value) × (value ≤ semvmx)
unfolding initialise
initialise-value semid value a s h = ground arith

-- An open that succeeds either has made its set and given it the value, which is at most SEMVMX; or
-- has found it, has initialised nothing, and has seen, within ten rounds, that its maker had done so.
pub open_initialised :
    (creat excl : Bool) (value : ℕ) (a : Answers) (s : Sets) {id : ℕ} {v : Option ℕ}
    → (mysem_open creat excl value a s).0 ≡ opened id v
    → ((a.semget_excl ≡ got_id id) × (v ≡ some value) × (value ≤ semvmx))
      ⊎ ((a.semget ≡ got_id id) × (v ≡ none) × SawUse max_tries a.stats 0)
unfolding mysem_open
open_initialised creat excl value a s {id} {v} h = elim (ends creat excl h) [
  | inl made ↦ inl made
  | inr (got, old, waited) ↦ inr (got, old, wait_initialised-SawUse max_tries a.stats 0 waited)
]
  where
    ends :
        (creat excl : Bool)
        → (mysem_open creat excl value a s).0 ≡ opened id v
        → ((a.semget_excl ≡ got_id id) × (v ≡ some value) × (value ≤ semvmx))
          ⊎ ((a.semget ≡ got_id id) × (v ≡ none) × (wait_initialised max_tries a.stats 0 ≡ none))
    ends false excl h = inr (attach-waits a s h)
    ends true excl h = ground (
      arith,
      λ (i : ℕ). initialise-value i value a (update s i true) {id = id} {v = v},
      attach-waits a s {id = id} {v = v},
    )
