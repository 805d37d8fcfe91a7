-- ===== src/ThreadPool/Workers.antt =====
-- The steps of a thread of the pool against the invariant, and the reachable states.
use mathlib.Core.List.{append_assoc}
use com_tutor.Base.{
  ℕ, zero, suc, ◌+◌, ◌-◌, ◌%◌, ◌≤◌, ◌<◌, ◌≡◌, refl, sym, ◌∙◌, ap, subst, false, Option, none, some,
  [], ◌∷◌, ◌++◌, length-append, ◌==◌, ==→eq, if_induction, update, arith,
}
use com_tutor.Base.Counts.{total, total-update, total-le, total-const}
use com_tutor.ThreadPool.{
  maxncli, next, Shared, Main, unlocking, Worker, at_lock, testing, waiting, woken, to_unlock,
  to_count, to_serve, take_next, lock, worker_step, credit,
}
use com_tutor.ThreadPool.Threads.{
  World, Step, main_goes, signals, signals_nobody, wakes, worker_goes, start, Reach, begins, later,
}
use com_tutor.ThreadPool.Invariant.{
  queued, next_lem, locks, has_quit, is_signalling, worker_locks, uncounted, waits, Holds,
}
use com_tutor.ThreadPool.Steps.{MainKept, main-Kept, Holds-wake, Holds-nobody}

abbrev after : World → (i : ℕ) → (p p' : Worker) → Shared → World
after w i p p' s' = record w {
  shared = s';
  workers = update w.workers i p';
  thread_count = update w.thread_count i (w.thread_count i + credit p);
}

module _ (n a r : ℕ) (w : World) (i : ℕ) (p : Worker) (lt : i < n) (e : w.workers i ≡ p)
    (h : Holds n a r w) where
  counted :
      total (λ c. c) n (update w.thread_count i (w.thread_count i + credit p))
      ≡ total (λ c. c) n w.thread_count + credit p
  counted = omega (
    arith,
    total-update (λ c. c) n w.thread_count i (w.thread_count i) (w.thread_count i + credit p) lt
        refl,
  )

  -- A step that moves the mutex only.
  Holds-worker :
      (m : ℕ) (p' : Worker)
      → m + worker_locks p' ≡ w.shared.mutex + worker_locks p
      → uncounted p' + credit p ≡ uncounted p
      → (0 < r → waits p' ≤ waits p)
      → Holds n a r (after w i p p' (record w.shared { mutex = m }))
  Holds-worker m p' x y z = record {
    one_lock = omega (arith, x, total-update worker_locks n w.workers i p p' lt e, h.one_lock);
    ring = h.ring;
    count = h.count;
    gets = h.gets;
    puts = h.puts;
    room = h.room;
    full = h.full;
    credits = omega (arith, y, counted, total-update uncounted n w.workers i p p' lt e, h.credits);
    awake = λ pos some.
        omega (arith, total-update waits n w.workers i p p' lt e, h.awake pos some, z some);
  }

  locked_out : worker_locks p ≡ 1 → (has_quit w.main ≡ 0) × (is_signalling w.main ≡ 0)
  locked_out q = free w.main (omega (arith, h.one_lock, mine, q))
    where
      mine : worker_locks p ≤ total worker_locks n w.workers
      mine =
          subst (λ x. worker_locks x ≤ total worker_locks n w.workers) e
            (total-le worker_locks n w.workers i lt)

      free : (m : Main) → locks m ≡ 0 → (has_quit m ≡ 0) × (is_signalling m ≡ 0)
      free m q = ground (arith, q)

-- The test of an empty ring under the lock.
empty_ring : (a r i g : ℕ) → i ≡ (a + r) % maxncli → g ≡ a % maxncli → r < maxncli → g ≡ i → r ≡ 0
empty_ring a r i g x y room q = omega (arith, x, y, room, q)

Holds-take :
    (n a r : ℕ) (w : World) (i : ℕ)
    → i < n
    → w.workers i ≡ testing
    → Holds n a (suc r) w
    → let fd = w.shared.clifd w.shared.iget in
      Holds n (a + 1) r (
        after w i testing
          (to_unlock fd)
          (record w.shared { iget = next w.shared.iget; taken = w.shared.taken ++ (fd ∷ []) }))
unfolding queued
Holds-take n a r w i lt e h =
    let fd = w.shared.clifd w.shared.iget in
    let (no_quit, no_signal) = locked_out n a (suc r) w i testing lt e h refl in
    record {
      one_lock =
          omega (
            arith,
            total-update worker_locks n w.workers i testing (to_unlock fd) lt e,
            h.one_lock,
          );
      ring =
          h.ring
          ∙ ap (λ k. w.shared.taken ++ (w.shared.clifd k ∷ queued w.shared.clifd (a + 1) r))
              (sym h.gets)
          ∙ sym (append_assoc w.shared.taken (fd ∷ []) (queued w.shared.clifd (a + 1) r));
      count = length-append w.shared.taken (fd ∷ []) ∙ ap (λ k. k + 1) h.count;
      gets = ap next h.gets ∙ next_lem a;
      puts = h.puts ∙ ap (λ k. k % maxncli) (omega arith);
      room = omega (arith, h.room);
      full = λ q. absurd (omega (arith, q, no_quit));
      credits = omega (
        arith,
        counted n a (suc r) w i testing lt e h,
        total-update uncounted n w.workers i testing (to_unlock fd) lt e,
        h.credits,
      );
      awake = λ pos some. omega (
        arith,
        total-update waits n w.workers i testing (to_unlock fd) lt e,
        h.awake pos (omega arith),
      );
    }

abbrev pub HasInvariant : ℕ → World → Type 0
HasInvariant n w = (a : ℕ) × (r : ℕ) × Holds n a r w

abbrev WorkerKept : (n : ℕ) (w : World) (i : ℕ) (p : Worker) → Option (Worker × Shared) → Type 0
WorkerKept n w i p none = Unit
WorkerKept n w i p (some (p', s')) = HasInvariant n (after w i p p' s')

takes-Kept :
    (n a r : ℕ) (w : World) (i : ℕ)
    → i < n
    → w.workers i ≡ testing
    → Holds n a r w
    → WorkerKept n w i testing (some (take_next w.shared))
takes-Kept n a r w i lt e h =
    let (no_quit, no_signal) = locked_out n a r w i testing lt e h refl in
    if_induction {A = Worker × Shared} (λ x. HasInvariant n (after w i testing x.0 x.1))
      (w.shared.iget == w.shared.iput) (waiting, record w.shared { mutex = w.shared.mutex + 1 })
      (
        to_unlock (w.shared.clifd w.shared.iget),
        record w.shared {
          iget = next w.shared.iget;
          taken = w.shared.taken ++ (w.shared.clifd w.shared.iget ∷ []);
        },
      )
      (λ q.
        let none_left : r ≡ 0 =
          empty_ring a r w.shared.iput w.shared.iget h.puts h.gets (omega (arith, h.room, no_quit))
            (==→eq w.shared.iget w.shared.iput q) in
        (
          a,
          r,
          Holds-worker n a r w i testing lt e h (w.shared.mutex + 1) waiting (omega arith)
              (omega arith) (λ z. absurd (omega (arith, z, none_left))),
        ))
      (λ q. some_left r h q)
  where
    some_left :
        (r : ℕ)
        → Holds n a r w
        → (w.shared.iget == w.shared.iput) ≡ false
        → HasInvariant n (
            after w i testing (to_unlock (w.shared.clifd w.shared.iget)) (record w.shared {
              iget = next w.shared.iget;
              taken = w.shared.taken ++ (w.shared.clifd w.shared.iget ∷ []);
            }))
    some_left zero h q = absurd (ground (arith, h.gets, h.puts, q))
    some_left (suc r) h q = (a + 1, r, Holds-take n a r w i lt e h)

module _ (n a r : ℕ) (w : World) (i : ℕ) (lt : i < n) (h : Holds n a r w) where
  lock-Kept :
      (p : Worker)
      → w.workers i ≡ p
      → worker_locks p ≡ 0
      → uncounted p ≡ 0
      → credit p ≡ 0
      → WorkerKept n w i p (lock w.shared)
  lock-Kept p e x y z =
      if_induction (WorkerKept n w i p) (w.shared.mutex == 0) none
        (some (testing, record w.shared { mutex = w.shared.mutex - 1 })) (λ q. tt)
        (λ q. (
          a,
          r,
          Holds-worker n a r w i p lt e h (w.shared.mutex - 1) testing (ground (arith, q, x))
              (omega (arith, y, z)) (λ o. omega arith),
        ))

  worker-Kept : (p : Worker) → w.workers i ≡ p → WorkerKept n w i p (worker_step w.shared p)
  unfolding worker_step
  worker-Kept at_lock e = lock-Kept at_lock e refl refl refl
  worker-Kept testing e = takes-Kept n a r w i lt e h
  worker-Kept waiting e = tt
  worker-Kept woken e = lock-Kept woken e refl refl refl
  worker-Kept (to_unlock fd) e = (
    a,
    r,
    Holds-worker n a r w i (to_unlock fd) lt e h (w.shared.mutex + 1) (to_count fd) (omega arith)
        (omega arith) (λ o. omega arith),
  )
  worker-Kept (to_count fd) e = (
    a,
    r,
    Holds-worker n a r w i (to_count fd) lt e h w.shared.mutex (to_serve fd) (omega arith)
        (omega arith) (λ o. omega arith),
  )
  worker-Kept (to_serve fd) e = (
    a,
    r,
    Holds-worker n a r w i (to_serve fd) lt e h w.shared.mutex at_lock (omega arith) (omega arith)
        (λ o. omega arith),
  )

start-Holds : (n : ℕ) → Holds n 0 0 start
unfolding queued
start-Holds n = record {
  one_lock = omega (arith, total-const worker_locks n at_lock);
  ring = refl;
  count = refl;
  gets = omega arith;
  puts = omega arith;
  room = omega arith;
  full = λ q. absurd (omega (arith, q));
  credits = omega (arith, total-const (λ c. c) n 0, total-const uncounted n at_lock);
  awake = λ pos some. absurd (omega (arith, some));
}

Step-Holds : (n : ℕ) (w w' : World) → HasInvariant n w → Step n w w' → HasInvariant n w'
Step-Holds n w _ (a, r, h) (main_goes connfd m' s' q) =
    let (r', h') = subst (MainKept n a r w) q (main-Kept n a r w connfd w.main refl h) in
    (a, r', h')
Step-Holds n w _ (a, r, h) (signals i e lt e') = (
  a,
  r,
  Holds-wake n a r w i unlocking lt e' (ground (arith, e)) (ground (arith, e)) (ground (arith, e))
      h,
)
Step-Holds n w _ (a, r, h) (signals_nobody e none_waits) =
    (a, r, Holds-nobody n a r w e none_waits h)
Step-Holds n w _ (a, r, h) (wakes i lt e) =
    (a, r, Holds-wake n a r w i w.main lt e refl refl (omega arith) h)
Step-Holds n w _ (a, r, h) (worker_goes i p p' s' lt e q) =
    subst (WorkerKept n w i p) q (worker-Kept n a r w i lt h p e)

pub Reach-HasInvariant : (n : ℕ) (w : World) → Reach n w → HasInvariant n w
Reach-HasInvariant n _ begins = (0, 0, start-Holds n)
Reach-HasInvariant n _ (later {w = w} {w' = w'} go s) =
    Step-Holds n w w' (Reach-HasInvariant n w go) s
