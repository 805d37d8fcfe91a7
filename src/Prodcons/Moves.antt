-- ===== src/Prodcons/Moves.antt =====
-- Which threads can go on.
use com_tutor.Base.{ℕ, ◌<◌, ◌≡◌, ◌⊎◌, refl, inl, inr, Option, none, some, arith, Zero-cases}
use com_tutor.Base.Counts.{total, total-le, total-find}
use com_tutor.Prodcons.{
  Shared, Producer, at_empty, at_mutex, putting, unlocking, posting, ending, leaving, finished,
  produce, Consumer, at_stored, to_lock, getting, to_unlock, to_post, to_leave, ended, consume,
}
use com_tutor.Prodcons.Threads.{World, Step, produces, consumes}

-- The threads that need not wait, and those that wait for a semaphore.
abbrev pub runs : Producer → ℕ
runs at_empty = 0
runs at_mutex = 0
runs finished = 0
runs _ = 1

abbrev pub waits_empty : Producer → ℕ
waits_empty at_empty = 1
waits_empty _ = 0

abbrev pub waits_mutex : Producer → ℕ
waits_mutex at_mutex = 1
waits_mutex _ = 0

abbrev pub cons_runs : Consumer → ℕ
cons_runs at_stored = 0
cons_runs to_lock = 0
cons_runs ended = 0
cons_runs _ = 1

abbrev pub waits_stored : Consumer → ℕ
waits_stored at_stored = 1
waits_stored _ = 0

abbrev pub cons_waits_mutex : Consumer → ℕ
cons_waits_mutex to_lock = 1
cons_waits_mutex _ = 0

abbrev pub Goes : (np nc nitems : ℕ) → World → Type 0
Goes np nc nitems w = (w' : World) × Step np nc nitems w w'

module _ (np nc nitems : ℕ) (w : World) where
  pub producer-Goes :
      (i : ℕ)
      → i < np
      → (p : Producer) → w.prod i ≡ p
      → (0 < runs p)
        ⊎ (((p ≡ at_mutex) × (0 < w.shared.mutex)) ⊎ ((p ≡ at_empty) × (0 < w.shared.nempty)))
      → Goes np nc nitems w
  unfolding produce
  producer-Goes i lt p e ready = look (produce nitems w.shared p) refl (can p ready)
    where
      Is : Option (Producer × Shared) → Type 0
      Is none = ⊥
      Is (some r) = Unit

      can :
          (p : Producer)
          → (0 < runs p)
            ⊎ (((p ≡ at_mutex) × (0 < w.shared.mutex)) ⊎ ((p ≡ at_empty) × (0 < w.shared.nempty)))
          → Is (produce nitems w.shared p)
      can at_empty h = ground (arith, h)
      can at_mutex h = ground (arith, h)
      can putting h = ground (arith, h)
      can unlocking h = tt
      can posting h = tt
      can ending h = tt
      can leaving h = tt
      can finished h = ground (arith, h)

      look :
          (r : Option (Producer × Shared))
          → produce nitems w.shared p ≡ r
          → Is r
          → Goes np nc nitems w
      look none q is = absurd is
      look (some (p', s')) q is = (_, produces i p p' s' lt e q)

  pub consumer-Goes :
      (i : ℕ)
      → i < nc
      → (c : Consumer) → w.cons i ≡ c
      → (0 < cons_runs c)
        ⊎ (((c ≡ to_lock) × (0 < w.shared.mutex)) ⊎ ((c ≡ at_stored) × (0 < w.shared.nstored)))
      → Goes np nc nitems w
  unfolding consume
  consumer-Goes i lt c e ready = look (consume nitems w.shared c) refl (can c ready)
    where
      Is : Option (Consumer × Shared) → Type 0
      Is none = ⊥
      Is (some r) = Unit

      can :
          (c : Consumer)
          → (0 < cons_runs c)
            ⊎ (((c ≡ to_lock) × (0 < w.shared.mutex)) ⊎ ((c ≡ at_stored) × (0 < w.shared.nstored)))
          → Is (consume nitems w.shared c)
      can at_stored h = ground (arith, h)
      can to_lock h = ground (arith, h)
      can getting h = ground (arith, h)
      can to_unlock h = tt
      can to_post h = tt
      can to_leave h = tt
      can ended h = ground (arith, h)

      look :
          (r : Option (Consumer × Shared))
          → consume nitems w.shared c ≡ r
          → Is r
          → Goes np nc nitems w
      look none q is = absurd is
      look (some (c', s')) q is = (_, consumes i c c' s' lt e q)

  pub if_producer :
      (v : Producer → ℕ)
      → ((p : Producer)
          → 0 < v p
          → (0 < runs p)
            ⊎ (((p ≡ at_mutex) × (0 < w.shared.mutex)) ⊎ ((p ≡ at_empty) × (0 < w.shared.nempty))))
      → (Goes np nc nitems w) ⊎ ((i : ℕ) → i < np → v (w.prod i) ≡ 0)
  if_producer v ready = elim (Zero-cases (total v np w.prod)) [
    | inl none_such ↦ inr (λ i lt. omega (arith, total-le v np w.prod i lt, none_such))
    | inr some_such ↦
        let (i, lt, here) = total-find v np w.prod some_such in
        inl (producer-Goes i lt (w.prod i) refl (ready (w.prod i) here))
  ]

  pub if_consumer :
      (v : Consumer → ℕ)
      → ((c : Consumer)
          → 0 < v c
          → (0 < cons_runs c)
            ⊎ (((c ≡ to_lock) × (0 < w.shared.mutex)) ⊎ ((c ≡ at_stored) × (0 < w.shared.nstored))))
      → (Goes np nc nitems w) ⊎ ((i : ℕ) → i < nc → v (w.cons i) ≡ 0)
  if_consumer v ready = elim (Zero-cases (total v nc w.cons)) [
    | inl none_such ↦ inr (λ i lt. omega (arith, total-le v nc w.cons i lt, none_such))
    | inr some_such ↦
        let (i, lt, here) = total-find v nc w.cons some_such in
        inl (consumer-Goes i lt (w.cons i) refl (ready (w.cons i) here))
  ]
