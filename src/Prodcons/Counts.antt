-- ===== src/Prodcons/Counts.antt =====
-- What every reachable state of producers and consumers holds: the invariant, and the counts that main
-- prints.
use com_tutor.Base.{ℕ, ◌+◌, ◌≤◌, ◌<◌, ◌≡◌, refl, subst, Option, none, some, update, arith}
use com_tutor.Base.Counts.{total, total-update, total-le, total-none}
use com_tutor.Prodcons.{
  Shared, Producer, at_empty, at_mutex, putting, unlocking, posting, ending, leaving, finished,
  produce, Consumer, at_stored, to_lock, getting, to_unlock, to_post, to_leave, ended, consume,
}
use com_tutor.Prodcons.Threads.{
  World, credit, cons_credit, produces, consumes, start, Reach, begins, later,
}
use com_tutor.Prodcons.Invariant.{
  Producers, Consumers, holds_empty, locks, owes_stored, is_over, owes_empty, cons_locks,
  holds_stored, cons_is_over, Holds,
}
use com_tutor.Prodcons.Steps.{Kept, produce-Kept, ConsKept, consume-Kept}

abbrev pub producers : ℕ → (ℕ → Producer) → Producers
producers np f = record {
  holding = total holds_empty np f;
  locking = total locks np f;
  owing = total owes_stored np f;
  over = total is_over np f;
}

abbrev pub consumers : ℕ → (ℕ → Consumer) → Consumers
consumers nc f = record {
  owing = total owes_empty nc f;
  locking = total cons_locks nc f;
  holding = total holds_stored nc f;
  over = total cons_is_over nc f;
}

-- The items counted, and those put but not yet counted, are those put.
abbrev pub IsCredited : ℕ → ℕ → World → Type 0
IsCredited np nc w =
    (total (λ k. k) np w.prodcount + total owes_stored np w.prod ≡ w.shared.nput)
    × (total (λ k. k) nc w.conscount + total owes_empty nc w.cons ≡ w.shared.nget)

abbrev pub Sound : (np nc nitems : ℕ) → World → Type 0
Sound np nc nitems w =
    Holds nitems w.shared (producers np w.prod) (consumers nc w.cons) × IsCredited np nc w

abbrev Credits : Shared → Producer → Option (Producer × Shared) → Type 0
Credits s x none = Unit
Credits s x (some (y, s')) =
    (credit x + owes_stored y + s.nput ≡ s'.nput + owes_stored x) × (s'.nget ≡ s.nget)

produce-Credits : (nitems : ℕ) (s : Shared) (x : Producer) → Credits s x (produce nitems s x)
unfolding produce
produce-Credits nitems s at_empty = ground arith
produce-Credits nitems s at_mutex = ground arith
produce-Credits nitems s putting = ground arith
produce-Credits nitems s unlocking = ground arith
produce-Credits nitems s posting = ground arith
produce-Credits nitems s ending = ground arith
produce-Credits nitems s leaving = ground arith
produce-Credits nitems s finished = tt

abbrev ConsCredits : Shared → Consumer → Option (Consumer × Shared) → Type 0
ConsCredits s x none = Unit
ConsCredits s x (some (y, s')) =
    (cons_credit x + owes_empty y + s.nget ≡ s'.nget + owes_empty x) × (s'.nput ≡ s.nput)

consume-Credits : (nitems : ℕ) (s : Shared) (x : Consumer) → ConsCredits s x (consume nitems s x)
unfolding consume
consume-Credits nitems s at_stored = ground arith
consume-Credits nitems s to_lock = ground arith
consume-Credits nitems s getting = ground arith
consume-Credits nitems s to_unlock = ground arith
consume-Credits nitems s to_post = ground arith
consume-Credits nitems s to_leave = ground arith
consume-Credits nitems s ended = tt

-- A weight of one thread is at most the total.
pub weight-le {ℓ} :
    {A : Type ℓ}
    → (w : A → ℕ) (n : ℕ) (f : ℕ → A) (i : ℕ) (x : A) → i < n
    → f i ≡ x
    → w x ≤ total w n f
weight-le w n f i x lt e = subst (λ y. w y ≤ total w n f) e (total-le w n f i lt)

produces-Sound :
    (np nc nitems : ℕ) (w : World) (i : ℕ) (p p' : Producer) (s' : Shared)
    → i < np
    → w.prod i ≡ p
    → produce nitems w.shared p ≡ some (p', s')
    → Sound np nc nitems w
    → Sound np nc nitems (record w {
      shared = s';
      prod = update w.prod i p';
      prodcount = update w.prodcount i (w.prodcount i + credit p);
    })
produces-Sound np nc nitems w i p p' s' lt e q (h, (put, got)) =
    let le = λ (v : Producer → ℕ). weight-le v np w.prod i p lt e in
    let move = λ (v : Producer → ℕ). total-update v np w.prod i p p' lt e in
    let kept = subst (Kept nitems (producers np w.prod) (consumers nc w.cons) p) q (
      produce-Kept nitems w.shared (producers np w.prod) (consumers nc w.cons) p (le holds_empty)
        (le locks) (le owes_stored) (le is_over) h) in
    let (more, same) = subst (Credits w.shared p) q (produce-Credits nitems w.shared p) in
    (
      kept (producers np (update w.prod i p')) (record {
        holding = move holds_empty;
        locking = move locks;
        owing = move owes_stored;
        over = move is_over;
      }),
      (
        omega (
          arith,
          put,
          more,
          move owes_stored,
          total-update (λ k. k) np w.prodcount i (w.prodcount i) (w.prodcount i + credit p) lt refl,
        ),
        omega (arith, got, same),
      ),
    )

consumes-Sound :
    (np nc nitems : ℕ) (w : World) (i : ℕ) (c c' : Consumer) (s' : Shared)
    → i < nc
    → w.cons i ≡ c
    → consume nitems w.shared c ≡ some (c', s')
    → Sound np nc nitems w
    → Sound np nc nitems (record w {
      shared = s';
      cons = update w.cons i c';
      conscount = update w.conscount i (w.conscount i + cons_credit c);
    })
consumes-Sound np nc nitems w i c c' s' lt e q (h, (put, got)) =
    let le = λ (v : Consumer → ℕ). weight-le v nc w.cons i c lt e in
    let move = λ (v : Consumer → ℕ). total-update v nc w.cons i c c' lt e in
    let kept = subst (ConsKept nitems (producers np w.prod) (consumers nc w.cons) c) q (
      consume-Kept nitems w.shared (producers np w.prod) (consumers nc w.cons) c (le owes_empty)
        (le cons_locks) (le holds_stored) (le cons_is_over) h) in
    let (more, same) = subst (ConsCredits w.shared c) q (consume-Credits nitems w.shared c) in
    (
      kept (consumers nc (update w.cons i c')) (record {
        owing = move owes_empty;
        locking = move cons_locks;
        holding = move holds_stored;
        over = move cons_is_over;
      }),
      (
        omega (arith, put, same),
        omega (
          arith,
          got,
          more,
          move owes_empty,
          total-update (λ k. k) nc w.conscount i (w.conscount i) (w.conscount i + cons_credit c) lt
              refl,
        ),
      ),
    )

start-Sound : (np nc nitems : ℕ) → Sound np nc nitems start
start-Sound np nc nitems =
    let p =
      λ (v : Producer → ℕ) (z : v at_empty ≡ 0). total-none v np (λ i. at_empty) (λ i lt. z) in
    let c =
      λ (v : Consumer → ℕ) (z : v at_stored ≡ 0). total-none v nc (λ i. at_stored) (λ i lt. z) in
    (
      record {
        one_lock = omega (arith, p locks refl, c cons_locks refl);
        slots = omega (arith, p holds_empty refl, c owes_empty refl);
        items = omega (arith, p owes_stored refl, c holds_stored refl, p is_over refl);
        put = omega arith;
        got = omega arith;
        all_put = λ o. absurd (omega (arith, o, p is_over refl));
        all_got = λ o. absurd (omega (arith, o, c cons_is_over refl));
        puts = refl;
        gets = refl;
        stored = λ i ge lt. absurd (omega (arith, lt));
        right = refl;
      },
      (
        omega (arith, p owes_stored refl, total-none (λ k. k) np (λ i. 0) (λ i lt. refl)),
        omega (arith, c owes_empty refl, total-none (λ k. k) nc (λ i. 0) (λ i lt. refl)),
      ),
    )

pub Reach-Sound : (np nc nitems : ℕ) (w : World) → Reach np nc nitems w → Sound np nc nitems w
Reach-Sound np nc nitems _ begins = start-Sound np nc nitems
Reach-Sound np nc nitems _ (later {w} r (produces i p p' s' lt e q)) =
    produces-Sound np nc nitems w i p p' s' lt e q (Reach-Sound np nc nitems w r)
Reach-Sound np nc nitems _ (later {w} r (consumes i c c' s' lt e q)) =
    consumes-Sound np nc nitems w i c c' s' lt e q (Reach-Sound np nc nitems w r)
