-- ===== src/ThreadPool/Tests.antt =====
-- Two threads and one connection; and a pool of which no thread runs, with 32 connections.
use com_tutor.Base.{
  ◌↔◌, ℕ, zero, suc, ◌+◌, ◌%◌, ◌≤◌, ◌<◌, ◌≡◌, ◌≢◌, ◌⊎◌, refl, Option, none, some, List, [], ◌∷◌,
  ◌++◌, length, update, arith,
}
use com_tutor.Base.Counts.{total}
use com_tutor.ThreadPool.{
  maxncli, Shared, Main, accepting, to_lock, storing, quitting, signalling, unlocking, main_step,
  Worker, woken, worker_step, credit,
}
use com_tutor.ThreadPool.Threads.{
  World, Step, main_goes, signals, signals_nobody, worker_goes, start, Reach, begins, later,
}
use com_tutor.ThreadPool.Invariant.{queued, uncounted}
use com_tutor.ThreadPool.Safety.{served_in_order, quits_when_full}
use com_tutor.ThreadPool.Refines.{contents, stored_by, taken_by, step_is_queue}
use com_tutor.ThreadPool.Progress.{MainGoes, WorkerGoes, connections_are_taken}

-- A choice of the thread that goes next: main with a connection, or a thread of the pool.
data Choice : Type 0 where
  main_next : (connfd : ℕ) → Choice
  worker_next : (i : ℕ) → Choice

abbrev main_moved : World → Option (Main × Shared) → World
main_moved w none = w
main_moved w (some (m, s)) = record w { shared = s; main = m }

abbrev worker_moved : World → (i : ℕ) → (p : Worker) → Option (Worker × Shared) → World
worker_moved w i p none = w
worker_moved w i p (some (p', s)) = record w {
  shared = s;
  workers = update w.workers i p';
  thread_count = update w.thread_count i (w.thread_count i + credit p);
}

-- The state after the choices, the last one first.
unfoldable after : List Choice → World
after [] = start
after (main_next connfd ∷ l) = let w = after l in main_moved w (main_step connfd w.shared w.main)
after (worker_next i ∷ l) =
    let w = after l in worker_moved w i (w.workers i) (worker_step w.shared (w.workers i))

abbrev AreBelow : (n : ℕ) → List Choice → Type 0
AreBelow n [] = Unit
AreBelow n (main_next connfd ∷ l) = AreBelow n l
AreBelow n (worker_next i ∷ l) = (i < n) × AreBelow n l

main_moved-Reach :
    (n : ℕ) (w : World) (connfd : ℕ) (o : Option (Main × Shared))
    → main_step connfd w.shared w.main ≡ o
    → Reach n w
    → Reach n (main_moved w o)
main_moved-Reach n w connfd none e r = r
main_moved-Reach n w connfd (some (m, s)) e r = later r (main_goes connfd m s e)

worker_moved-Reach :
    (n : ℕ) (w : World) (i : ℕ) (o : Option (Worker × Shared))
    → i < n
    → worker_step w.shared (w.workers i) ≡ o
    → Reach n w
    → Reach n (worker_moved w i (w.workers i) o)
worker_moved-Reach n w i none lt e r = r
worker_moved-Reach n w i (some (p', s)) lt e r =
    later r (worker_goes i (w.workers i) p' s lt refl e)

after-Reach : (n : ℕ) (l : List Choice) → AreBelow n l → Reach n (after l)
unfolding after
after-Reach n [] h = begins
after-Reach n (main_next connfd ∷ l) h =
    let w = after l in
    main_moved-Reach n w connfd (main_step connfd w.shared w.main) refl (after-Reach n l h)
after-Reach n (worker_next i ∷ l) h =
    let w = after l in
    worker_moved-Reach n w i (worker_step w.shared (w.workers i)) h.0 refl (after-Reach n l h.1)

abbrev lock_and_store : (connfd : ℕ) → List Choice
lock_and_store connfd = main_next 0 ∷ main_next 0 ∷ main_next connfd ∷ []

-- Thread 1 waits; main stores a connection and signals it.
abbrev waited : List Choice
waited = lock_and_store 9 ++ (worker_next 1 ∷ worker_next 1 ∷ [])

abbrev signalled : World
signalled = record (after waited) {
  main = unlocking;
  workers = update (after waited).workers 1 woken;
}

signalled-Reach : Reach 2 signalled
unfolding after main_step worker_step
signalled-Reach =
    later (after-Reach 2 waited (omega arith, (omega arith, tt)))
      (signals 1 refl (omega arith) refl)

served_in_order_example :
    ((r : ℕ) × (r ≤ maxncli)
      × (signalled.shared.put
          ≡ signalled.shared.taken ++ queued signalled.shared.clifd signalled.shared.iget r))
    × (signalled.shared.iget ≡ length signalled.shared.taken % maxncli)
    × (signalled.shared.iput ≡ length signalled.shared.put % maxncli)
    × (total (λ c. c) 2 signalled.thread_count + total uncounted 2 signalled.workers
        ≡ length signalled.shared.taken)
served_in_order_example = served_in_order 2 signalled signalled-Reach

one_queued : (signalled.shared.put ≡ 9 ∷ []) × (signalled.shared.taken ≡ [])
unfolding after main_step worker_step
one_queued = (refl, refl)

goes_on : signalled.main ≢ quitting
goes_on e = ground (arith, e)

more_put : length signalled.shared.taken < length signalled.shared.put
unfolding after main_step worker_step
more_put = omega arith

connections_are_taken_example :
    MainGoes signalled.shared signalled.main
    ⊎ ((i : ℕ) × (i < 2) × WorkerGoes signalled.shared (signalled.workers i))
connections_are_taken_example =
    connections_are_taken 2 signalled signalled-Reach (omega arith) goes_on more_put

-- In a pool without threads each signal finds nobody.
abbrev unheard : World → Main → World
unheard w signalling = record w { main = unlocking }
unheard w m = w

unheard-Reach : (w : World) (m : Main) → w.main ≡ m → Reach 0 w → Reach 0 (unheard w m)
unheard-Reach w signalling e r = later r (signals_nobody e (λ i lt. absurd (omega (arith, lt))))
unheard-Reach w accepting e r = r
unheard-Reach w unlocking e r = r
unheard-Reach w quitting e r = r
unheard-Reach w (to_lock fd) e r = r
unheard-Reach w (storing fd) e r = r

abbrev main_turn : (connfd : ℕ) → World → World
main_turn connfd w = main_moved w (main_step connfd w.shared w.main)

unfoldable flooded : ℕ → World
unfolding main_step
flooded zero = start
flooded (suc k) =
    let stored = main_turn k (main_turn k (main_turn k (flooded k))) in
    main_turn k (unheard stored stored.main)

main_turn-Reach : (connfd : ℕ) (w : World) → Reach 0 w → Reach 0 (main_turn connfd w)
main_turn-Reach connfd w r = main_moved-Reach 0 w connfd (main_step connfd w.shared w.main) refl r

flooded-Reach : (k : ℕ) → Reach 0 (flooded k)
unfolding flooded
flooded-Reach zero = begins
flooded-Reach (suc k) =
    let stored = main_turn k (main_turn k (main_turn k (flooded k))) in
    main_turn-Reach k (unheard stored stored.main) (
      unheard-Reach stored stored.main refl (
        main_turn-Reach k (main_turn k (main_turn k (flooded k))) (
          main_turn-Reach k (main_turn k (flooded k))
            (main_turn-Reach k (flooded k) (flooded-Reach k)))))

-- The 32nd connection ends the program.
flood_quits : ((flooded 31).main ≢ quitting) × ((flooded 32).main ≡ quitting)
unfolding flooded main_step
flood_quits = (λ e. ground (arith, e), refl)

quits_when_full_example :
    (length (flooded 32).shared.put ≤ length (flooded 32).shared.taken + maxncli)
    × (((flooded 32).main ≡ quitting)
        ↔ (length (flooded 32).shared.put ≡ length (flooded 32).shared.taken + maxncli))
quits_when_full_example = quits_when_full 0 (flooded 32) (flooded-Reach 32)

-- The connection is stored, in the fourth step of a pool with one thread.
abbrev three : List Choice
three = main_next 0 ∷ main_next 9 ∷ []

unfoldable storing_step : Step 1 (after three) (after (main_next 0 ∷ three))
unfolding after main_step
storing_step = main_goes 0 signalling (after (main_next 0 ∷ three)).shared refl

nine_is_stored : stored_by storing_step ≡ 9 ∷ []
unfolding storing_step after main_step
nine_is_stored = refl

step_is_queue_example :
    contents (after three) ++ stored_by storing_step
    ≡ taken_by storing_step ++ contents (after (main_next 0 ∷ three))
step_is_queue_example =
    step_is_queue 1 (after three) (after (main_next 0 ∷ three)) storing_step
      (after-Reach 1 three tt)
