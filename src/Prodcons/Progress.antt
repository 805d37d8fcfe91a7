-- ===== src/Prodcons/Progress.antt =====
-- Producers and consumers never wait for one another for ever.
use com_tutor.Base.{ℕ, ◌+◌, ◌<◌, ◌≡◌, ◌⊎◌, refl, inl, inr, arith, Zero-cases}
use com_tutor.Base.Counts.{total, total-le, total-none, total-find}
use com_tutor.Prodcons.{nbuff, Producer, at_empty, finished, Consumer, at_stored, ended}
use com_tutor.Prodcons.Threads.{World, Reach}
use com_tutor.Prodcons.Invariant.{
  holds_empty, locks, owes_stored, is_over, owes_empty, cons_locks, holds_stored, cons_is_over,
}
use com_tutor.Prodcons.Counts.{Sound, Reach-Sound, weight-le}
use com_tutor.Prodcons.Moves.{
  runs, waits_empty, waits_mutex, cons_runs, waits_stored, cons_waits_mutex, Goes, producer-Goes,
  consumer-Goes, if_producer, if_consumer,
}

-- A thread of which none of the weights holds is done.
is_finished : (p : Producer) → runs p ≡ 0 → waits_mutex p ≡ 0 → waits_empty p ≡ 0 → p ≡ finished
is_finished p a b c = ground (arith, a, b, c)

is_ended :
    (c : Consumer) → cons_runs c ≡ 0 → cons_waits_mutex c ≡ 0 → waits_stored c ≡ 0 → c ≡ ended
is_ended x a b c = ground (arith, a, b, c)

abbrev pub IsDone : (np nc : ℕ) → World → Type 0
IsDone np nc w = ((i : ℕ) → i < np → w.prod i ≡ finished) × ((i : ℕ) → i < nc → w.cons i ≡ ended)

-- No thread runs: the mutex is free.
mutex_free :
    (np nc nitems : ℕ) (w : World)
    → Sound np nc nitems w
    → ((i : ℕ) → i < np → runs (w.prod i) ≡ 0)
    → ((i : ℕ) → i < nc → cons_runs (w.cons i) ≡ 0)
    → 0 < w.shared.mutex
mutex_free np nc nitems w (h, counts) still still' = omega (
  arith,
  h.one_lock,
  total-none locks np w.prod (λ i lt. unlocked (w.prod i) (still i lt)),
  total-none cons_locks nc w.cons (λ i lt. cons_unlocked (w.cons i) (still' i lt)),
)
  where
    unlocked : (p : Producer) → runs p ≡ 0 → locks p ≡ 0
    unlocked p e = ground (arith, e)

    cons_unlocked : (c : Consumer) → cons_runs c ≡ 0 → cons_locks c ≡ 0
    cons_unlocked c e = ground (arith, e)

-- No thread runs, or waits for the mutex.
pub record IsWaiting (np nc : ℕ) (w : World) : Type 0 where
  pub still : (i : ℕ) → i < np → runs (w.prod i) ≡ 0
  pub out : (i : ℕ) → i < np → waits_mutex (w.prod i) ≡ 0
  pub cons_still : (i : ℕ) → i < nc → cons_runs (w.cons i) ≡ 0
  pub cons_out : (i : ℕ) → i < nc → cons_waits_mutex (w.cons i) ≡ 0

-- Then the semaphores have a unit for each empty slot and for each item.
units_free :
    (np nc nitems : ℕ) (w : World)
    → Sound np nc nitems w
    → IsWaiting np nc w
    → (w.shared.nempty + w.shared.nput ≡ nbuff + w.shared.nget)
      × (w.shared.nstored + w.shared.nget ≡ w.shared.nput + total is_over np w.prod)
units_free np nc nitems w (h, counts) quiet = (
  omega (
    arith,
    h.slots,
    total-none holds_empty np w.prod
        (λ i lt. none_held (w.prod i) (quiet.still i lt) (quiet.out i lt)),
    total-none owes_empty nc w.cons (λ i lt. none_owed (w.cons i) (quiet.cons_still i lt)),
  ),
  omega (
    arith,
    h.items,
    total-none owes_stored np w.prod (λ i lt. none_owing (w.prod i) (quiet.still i lt)),
    total-none holds_stored nc w.cons
        (λ i lt. none_holding (w.cons i) (quiet.cons_still i lt) (quiet.cons_out i lt)),
  ),
)
  where
    none_held : (p : Producer) → runs p ≡ 0 → waits_mutex p ≡ 0 → holds_empty p ≡ 0
    none_held p a b = ground (arith, a, b)

    none_owing : (p : Producer) → runs p ≡ 0 → owes_stored p ≡ 0
    none_owing p a = ground (arith, a)

    none_owed : (c : Consumer) → cons_runs c ≡ 0 → owes_empty c ≡ 0
    none_owed c a = ground (arith, a)

    none_holding : (c : Consumer) → cons_runs c ≡ 0 → cons_waits_mutex c ≡ 0 → holds_stored c ≡ 0
    none_holding c a b = ground (arith, a, b)

-- Some consumer waits for an item: if there is none, a producer has an empty slot.
consumers-Goes :
    (np nc nitems : ℕ) (w : World)
    → Sound np nc nitems w
    → IsWaiting np nc w
    → 0 < np
    → 0 < total waits_stored nc w.cons
    → Goes np nc nitems w
consumers-Goes np nc nitems w sound quiet some_prod waiting =
    let (slots, items) = units_free np nc nitems w sound quiet in
    elim (Zero-cases w.shared.nstored) [
      | inr some_item ↦
          let (i, lt, here) = total-find waits_stored nc w.cons waiting in
          consumer-Goes np nc nitems w i lt (w.cons i) refl
            (inr (inr (is_waiting (w.cons i) here, some_item)))
      | inl no_item ↦
          let empty : 0 < w.shared.nempty = omega (arith, slots, items, no_item, sound.0.got) in
          producer-Goes np nc nitems w 0 some_prod (w.prod 0) refl (
            inr (
              inr (
                is_at_empty (w.prod 0) (quiet.still 0 some_prod) (quiet.out 0 some_prod) (
                    omega
                      (arith, total-le is_over np w.prod 0 some_prod, items, no_item, sound.0.got)),
                empty,
              )))
    ]
  where
    is_waiting : (c : Consumer) → 0 < waits_stored c → c ≡ at_stored
    is_waiting c h = ground (arith, h)

    is_at_empty : (p : Producer) → runs p ≡ 0 → waits_mutex p ≡ 0 → is_over p ≡ 0 → p ≡ at_empty
    is_at_empty p a b c = ground (arith, a, b, c)

-- All consumers are done: then a producer that waits has an empty slot.
producers-Goes :
    (np nc nitems : ℕ) (w : World)
    → Sound np nc nitems w
    → IsWaiting np nc w
    → 0 < nc
    → ((i : ℕ) → i < nc → w.cons i ≡ ended)
    → 0 < total waits_empty np w.prod
    → Goes np nc nitems w
producers-Goes np nc nitems w sound quiet some_cons done waiting =
    let (slots, items) = units_free np nc nitems w sound quiet in
    let all =
      sound.0.all_got (weight-le cons_is_over nc w.cons 0 ended some_cons (done 0 some_cons)) in
    let (i, lt, here) = total-find waits_empty np w.prod waiting in
    producer-Goes np nc nitems w i lt (w.prod i) refl
      (inr (inr (ground (arith, here), omega (arith, slots, all, sound.0.put))))

waiting-Goes :
    (np nc nitems : ℕ) (w : World)
    → Sound np nc nitems w
    → IsWaiting np nc w
    → 0 < np
    → 0 < nc
    → Goes np nc nitems w ⊎ IsDone np nc w
waiting-Goes np nc nitems w sound quiet some_prod some_cons =
    elim (Zero-cases (total waits_stored nc w.cons)) [
      | inr waiting ↦ inl (consumers-Goes np nc nitems w sound quiet some_prod waiting)
      | inl none_waiting ↦
          let done = λ (i : ℕ) (lt : i < nc).
            is_ended (w.cons i) (quiet.cons_still i lt) (quiet.cons_out i lt)
              (omega (arith, total-le waits_stored nc w.cons i lt, none_waiting)) in
          elim (Zero-cases (total waits_empty np w.prod)) [
            | inr waiting ↦ inl (producers-Goes np nc nitems w sound quiet some_cons done waiting)
            | inl none_empty ↦ inr (
              λ i lt.
                  is_finished (w.prod i) (quiet.still i lt) (quiet.out i lt)
                    (omega (arith, total-le waits_empty np w.prod i lt, none_empty)),
              done,
            )
          ]
    ]

-- In every reachable state with a producer and a consumer at least, a thread can go on, or all are done.
pub never_stuck :
    (np nc nitems : ℕ) (w : World)
    → Reach np nc nitems w
    → 0 < np
    → 0 < nc
    → Goes np nc nitems w ⊎ IsDone np nc w
never_stuck np nc nitems w r some_prod some_cons =
    let sound = Reach-Sound np nc nitems w r in
    elim (if_producer np nc nitems w runs (λ p h. inl h)) [
      | inl goes ↦ inl goes
      | inr still ↦ elim (if_consumer np nc nitems w cons_runs (λ c h. inl h)) [
        | inl goes ↦ inl goes
        | inr still' ↦
            let free = mutex_free np nc nitems w sound still still' in
            elim (if_producer np nc nitems w waits_mutex
              (λ p h. inr (inl (ground (arith, h), free)))) [
                | inl goes ↦ inl goes
                | inr out ↦
                    elim (if_consumer np nc nitems w cons_waits_mutex
                      (λ c h. inr (inl (ground (arith, h), free)))) [
                        | inl goes ↦ inl goes
                        | inr out' ↦
                            waiting-Goes np nc nitems w sound
                              (record {
                                still = still;
                                out = out;
                                cons_still = still';
                                cons_out = out';
                              })
                              some_prod some_cons
                      ]
              ]
      ]
    ]
