-- ===== src/ThreadPool/Progress.antt =====
-- Which threads of the pool can go on while a connection is in the ring.
use com_tutor.Base.{
  ℕ, ◌+◌, ◌-◌, ◌<◌, ◌≡◌, ◌≢◌, ◌⊎◌, refl, inl, inr, ◌∙◌, ap, some, length, length-append, ne→==,
  Zero-cases, arith,
}
use com_tutor.Base.Counts.{total, total-find, total-miss}
use com_tutor.ThreadPool.{
  Shared, Main, accepting, to_lock, storing, signalling, unlocking, quitting, store, main_step,
  Worker, at_lock, testing, waiting, woken, to_unlock, to_count, to_serve, take_next, lock,
  worker_step,
}
use com_tutor.ThreadPool.Threads.{World, Reach}
use com_tutor.ThreadPool.Invariant.{
  queued, length-queued, locks, has_quit, is_signalling, worker_locks, waits, Holds,
}
use com_tutor.ThreadPool.Workers.{Reach-HasInvariant}

-- Main can go on without another connection: it signals, or the step does not depend on one.
abbrev pub MainGoes : Shared → Main → Type 0
MainGoes s m =
    (m ≡ signalling)
    ⊎ ((m' : Main) × (s' : Shared) × ((connfd : ℕ) → main_step connfd s m ≡ some (m', s')))

abbrev pub WorkerGoes : Shared → Worker → Type 0
WorkerGoes s p = (p' : Worker) × (s' : Shared) × (worker_step s p ≡ some (p', s'))

main_holder : (s : Shared) (m : Main) → m ≢ quitting → 0 < locks m → MainGoes s m
unfolding main_step
main_holder s accepting ne q = absurd (omega (arith, q))
main_holder s (to_lock fd) ne q = absurd (omega (arith, q))
main_holder s (storing fd) ne q = inr ((store fd s).0, (store fd s).1, λ k. refl)
main_holder s signalling ne q = inl refl
main_holder s unlocking ne q = inr (accepting, record s { mutex = s.mutex + 1 }, λ fd. refl)
main_holder s quitting ne q = absurd (ne refl)

lock-Goes : (s : Shared) → 0 < s.mutex → (p' : Worker) × (s' : Shared) × (lock s ≡ some (p', s'))
lock-Goes s q = (
  testing,
  record s { mutex = s.mutex - 1 },
  rw (ne→== s.mutex 0 (λ z. omega (arith, z, q))) refl,
)

worker_able :
    (s : Shared) (p : Worker)
    → (0 < worker_locks p) ⊎ ((0 < s.mutex) × (waits p ≡ 0))
    → WorkerGoes s p
unfolding worker_step
worker_able s at_lock (inl q) = absurd (omega (arith, q))
worker_able s at_lock (inr (q, _)) = lock-Goes s q
worker_able s testing q = ((take_next s).0, (take_next s).1, refl)
worker_able s waiting (inl q) = absurd (omega (arith, q))
worker_able s waiting (inr (_, q)) = absurd (omega (arith, q))
worker_able s woken (inl q) = absurd (omega (arith, q))
worker_able s woken (inr (q, _)) = lock-Goes s q
worker_able s (to_unlock fd) q = (to_count fd, record s { mutex = s.mutex + 1 }, refl)
worker_able s (to_count fd) q = (to_serve fd, s, refl)
worker_able s (to_serve fd) q = (at_lock, s, refl)

Holds-Goes :
    (n a r : ℕ) (w : World)
    → 0 < n
    → 0 < r
    → w.main ≢ quitting
    → Holds n a r w
    → MainGoes w.shared w.main ⊎ ((i : ℕ) × (i < n) × WorkerGoes w.shared (w.workers i))
Holds-Goes n a r w pos some_queued ne h = elim (Zero-cases w.shared.mutex) [
  | inl taken ↦ elim (Zero-cases (total worker_locks n w.workers)) [
    | inl none_locks ↦
        inl (main_holder w.shared w.main ne (omega (arith, h.one_lock, taken, none_locks)))
    | inr one_locks ↦
        let (i, lt, q) = total-find worker_locks n w.workers one_locks in
        inr (i, lt, worker_able w.shared (w.workers i) (inl q))
  ]
  | inr free ↦
      let (no_quit, no_signal) = idle w.main (omega (arith, h.one_lock, free)) in
      let (i, lt, q) =
        total-miss waits n w.workers (omega (arith, h.awake pos some_queued, no_quit, no_signal)) in
      inr (i, lt, worker_able w.shared (w.workers i) (inr (free, q)))
]
  where
    idle : (m : Main) → locks m ≡ 0 → (has_quit m ≡ 0) × (is_signalling m ≡ 0)
    idle m q = ground (arith, q)

-- While a connection is in the ring, in every reachable state of a pool with a thread that main has not
-- ended, main can go on without another connection, or a thread of the pool can go on.
pub connections_are_taken :
    (n : ℕ) (w : World)
    → Reach n w
    → 0 < n
    → w.main ≢ quitting
    → length w.shared.taken < length w.shared.put
    → MainGoes w.shared w.main ⊎ ((i : ℕ) × (i < n) × WorkerGoes w.shared (w.workers i))
connections_are_taken n w go pos ne more =
    let (a, r, h) = Reach-HasInvariant n w go in
    let held : length w.shared.put ≡ length w.shared.taken + length (queued w.shared.clifd a r) =
      ap length h.ring ∙ length-append w.shared.taken (queued w.shared.clifd a r) in
    Holds-Goes n a r w pos (omega (arith, held, more, length-queued w.shared.clifd a r)) ne h
