-- ===== src/Mycat/Progress.antt =====
-- The reader and the writer of mycat2 never wait for each other for ever.
use com_tutor.Base.{
  ℕ, ◌<◌, ◌≡◌, ◌≢◌, ◌⊎◌, refl, inl, inr, Option, none, some, List, [], ◌∷◌, Zero-cases, arith,
}
use com_tutor.Mycat.{
  Shared, Reader, at_empty, at_mutex, critical, reading, posting, ending, finished, produce, Writer,
  at_stored, to_lock, inside, writing, to_post, ended, consume,
}
use com_tutor.Mycat.Threads.{World, Step, produces, reads, consumes, Reach}
use com_tutor.Mycat.Invariant.{locks, Holds}
use com_tutor.Mycat.Writes.{Reach-IsCat}

abbrev pub Goes : World → Type 0
Goes w = (w' : World) × Step w w'

abbrev Is : Option (Reader × ℕ × Shared) → Type 0
Is none = ⊥
Is (some r) = Unit

abbrev ConsIs : Option (Writer × ℕ × Shared) → Type 0
ConsIs none = ⊥
ConsIs (some r) = Unit

module _ (w : World) where
  reader-Goes :
      w.reader ≢ reading
      → (r : Option (Reader × ℕ × Shared)) → produce [] w.shared w.put_at w.reader ≡ r
      → Is r
      → Goes w
  reader-Goes ne none q is = absurd is
  reader-Goes ne (some (p', i', s')) q is = (_, produces p' i' s' ne q)

  writer-Goes :
      (r : Option (Writer × ℕ × Shared))
      → consume w.shared w.get_at w.writer ≡ r
      → ConsIs r
      → Goes w
  writer-Goes none q is = absurd is
  writer-Goes (some (c', i', s')) q is = (_, consumes c' i' s' q)

  -- Read can give one byte, or say that there is none.
  reading-Goes : w.reader ≡ reading → (l : List ℕ) → w.input ≡ l → Goes w
  unfolding produce
  reading-Goes e [] q = (_, reads [] [] ending _ _ e q (omega arith) (λ o. refl) refl)
  reading-Goes e (b ∷ l) q =
      (_, reads (b ∷ []) l posting _ _ e q (omega arith) (λ o. ground (arith, o)) refl)

  reader_can :
      (p : Reader)
      → w.reader ≡ p
      → p ≢ finished
      → (p ≡ at_mutex → 0 < w.shared.mutex)
      → (p ≡ at_empty → 0 < w.shared.nempty)
      → Goes w
  unfolding produce
  reader_can reading e ne m n = reading-Goes e w.input refl
  reader_can at_empty e ne m n =
      reader-Goes (ground (arith, e)) (produce [] w.shared w.put_at w.reader) refl
        (rw e (ground (arith, n refl)))
  reader_can at_mutex e ne m n =
      reader-Goes (ground (arith, e)) (produce [] w.shared w.put_at w.reader) refl
        (rw e (ground (arith, m refl)))
  reader_can critical e ne m n =
      reader-Goes (ground (arith, e)) (produce [] w.shared w.put_at w.reader) refl (rw e tt)
  reader_can posting e ne m n =
      reader-Goes (ground (arith, e)) (produce [] w.shared w.put_at w.reader) refl (rw e tt)
  reader_can ending e ne m n =
      reader-Goes (ground (arith, e)) (produce [] w.shared w.put_at w.reader) refl (rw e tt)
  reader_can finished e ne m n = absurd (ne refl)

  writer_can :
      (c : Writer)
      → w.writer ≡ c
      → c ≢ ended
      → (c ≡ to_lock → 0 < w.shared.mutex)
      → (c ≡ at_stored → 0 < w.shared.nstored)
      → Goes w
  unfolding consume
  writer_can at_stored e ne m n =
      writer-Goes (consume w.shared w.get_at w.writer) refl (rw e (ground (arith, n refl)))
  writer_can to_lock e ne m n =
      writer-Goes (consume w.shared w.get_at w.writer) refl (rw e (ground (arith, m refl)))
  writer_can inside e ne m n = writer-Goes (consume w.shared w.get_at w.writer) refl (rw e tt)
  writer_can writing e ne m n = writer-Goes (consume w.shared w.get_at w.writer) refl (rw e tt)
  writer_can to_post e ne m n = writer-Goes (consume w.shared w.get_at w.writer) refl (rw e tt)
  writer_can ended e ne m n = absurd (ne refl)

module _ (file : List ℕ) (a r : ℕ) (w : World) (h : Holds file a r w) where
  -- The writer waits for the mutex: one of the two can go on.
  lock-Goes : w.writer ≡ to_lock → Goes w
  lock-Goes e = elim (Zero-cases w.shared.mutex) [
    | inr free ↦ writer_can w to_lock e (ground arith) (λ o. free) (λ o. ground (arith, o))
    | inl taken ↦
        let here : 0 < locks w.reader = ground (arith, h.one_lock, e, taken) in
        reader_can w w.reader refl (ground (arith, here)) (λ o. ground (arith, here, o))
          (λ o. ground (arith, here, o))
  ]

  -- The writer waits for a buffer, and there is none: the reader can go on.
  stored-Goes : w.writer ≡ at_stored → Goes w
  stored-Goes e = elim (Zero-cases w.shared.nstored) [
    | inr some_item ↦
        writer_can w at_stored e (ground arith) (λ o. ground (arith, o)) (λ o. some_item)
    | inl no_item ↦
        reader_can w w.reader refl (λ o. ground (arith, h.items, e, no_item, o))
          (λ o. ground (arith, h.one_lock, e, o))
          (λ o. ground (arith, h.slots, h.items, e, no_item, o))
  ]

  ended-Goes : w.writer ≡ ended → Goes w ⊎ ((w.reader ≡ finished) × (w.writer ≡ ended))
  ended-Goes e = look w.reader refl
    where
      look : (p : Reader) → w.reader ≡ p → Goes w ⊎ ((w.reader ≡ finished) × (w.writer ≡ ended))
      look finished q = inr (q, e)
      look ending q =
          inl
            (reader_can w ending q (ground arith) (λ o. ground (arith, o)) (λ o. ground (arith, o)))
      look at_empty q = ground (arith, (h.all e).1, q)
      look at_mutex q = ground (arith, (h.all e).1, q)
      look critical q = ground (arith, (h.all e).1, q)
      look reading q = ground (arith, (h.all e).1, q)
      look posting q = ground (arith, (h.all e).1, q)

  Goes-or_done : (c : Writer) → w.writer ≡ c → Goes w ⊎ ((w.reader ≡ finished) × (w.writer ≡ ended))
  Goes-or_done at_stored e = inl (stored-Goes e)
  Goes-or_done to_lock e = inl (lock-Goes e)
  Goes-or_done inside e =
      inl (writer_can w inside e (ground arith) (λ o. ground (arith, o)) (λ o. ground (arith, o)))
  Goes-or_done writing e =
      inl (writer_can w writing e (ground arith) (λ o. ground (arith, o)) (λ o. ground (arith, o)))
  Goes-or_done to_post e =
      inl (writer_can w to_post e (ground arith) (λ o. ground (arith, o)) (λ o. ground (arith, o)))
  Goes-or_done ended e = ended-Goes e

-- In every reachable state of mycat2 one of the two threads can go on, or both are done.
pub cat_never_stuck :
    (file : List ℕ) (w : World)
    → Reach file w
    → Goes w ⊎ ((w.reader ≡ finished) × (w.writer ≡ ended))
cat_never_stuck file w r =
    let (a, n, h) = Reach-IsCat file w r in Goes-or_done file a n w h w.writer refl
