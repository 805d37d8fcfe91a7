-- ===== src/ThreadPool/Refines.antt =====
-- The ring of the pool as a queue.
use mathlib.Core.List.{append_assoc, append-nil}
use com_tutor.Base.{
  ℕ, ◌+◌, ◌-◌, ◌*◌, ◌%◌, ◌≤◌, ◌<◌, ◌≡◌, refl, sym, ◌∙◌, ap, subst, Option, none, some, List, [],
  ◌∷◌, ◌++◌, ◌==◌, if◌then◌else◌, if_induction, append_cancel, arith,
}
use com_tutor.ThreadPool.{
  maxncli, next, Shared, Main, accepting, to_lock, storing, signalling, unlocking, quitting,
  main_step, Worker, at_lock, testing, waiting, woken, to_unlock, to_count, to_serve, lock,
  worker_step,
}
use com_tutor.ThreadPool.Threads.{
  World, Step, main_goes, signals, signals_nobody, wakes, worker_goes, Reach, later,
}
use com_tutor.ThreadPool.Invariant.{queued, queued-around, has_quit, Holds}
use com_tutor.ThreadPool.Workers.{Reach-HasInvariant}

-- How many connections the ring holds, from the pointers. If they meet it is empty, unless main has
-- ended the program there.
abbrev pub held : Main → Shared → ℕ
held m s = if s.iput == s.iget then has_quit m * maxncli else (s.iput + maxncli - s.iget) % maxncli

-- The connections of the ring.
abbrev pub contents : World → List ℕ
contents w = queued w.shared.clifd w.shared.iget (held w.main w.shared)

held_lem : (n a r : ℕ) (w : World) → Holds n a r w → held w.main w.shared ≡ r
held_lem n a r w h = counted (has_quit w.main) (at_most w.main) h.room h.full
  where
    at_most : (m : Main) → has_quit m ≤ 1
    at_most m = ground arith

    counted :
        (q : ℕ)
        → q ≤ 1
        → r < maxncli + q
        → (0 < q → r ≡ maxncli)
        → (if w.shared.iput == w.shared.iget
            then q * maxncli
            else (w.shared.iput + maxncli - w.shared.iget) % maxncli)
          ≡ r
    counted q le room full = ground (arith, h.gets, h.puts, room, full, le)

contents_lem : (n a r : ℕ) (w : World) → Holds n a r w → contents w ≡ queued w.shared.clifd a r
contents_lem n a r w h =
    ap (queued w.shared.clifd w.shared.iget) (held_lem n a r w h)
    ∙ queued-around w.shared.clifd w.shared.iget a r (omega (arith, h.gets))

-- What a step of main stores.
abbrev pub stores : Main → List ℕ
stores (storing connfd) = connfd ∷ []
stores _ = []

-- What a step of a thread takes.
abbrev pub takes : (p p' : Worker) → List ℕ
takes testing (to_unlock connfd) = connfd ∷ []
takes _ _ = []

abbrev pub stored_by : {n : ℕ} {w w' : World} → Step n w w' → List ℕ
stored_by {w = w} (main_goes connfd m' s' e) = stores w.main
stored_by _ = []

abbrev pub taken_by : {n : ℕ} {w w' : World} → Step n w w' → List ℕ
taken_by (worker_goes i p p' s' lt e q) = takes p p'
taken_by _ = []

abbrev MainLogs : Shared → Main → Option (Main × Shared) → Type 0
MainLogs s m none = Unit
MainLogs s m (some (m', s')) = (s'.put ≡ s.put ++ stores m) × (s'.taken ≡ s.taken)

main_step-MainLogs : (connfd : ℕ) (s : Shared) (m : Main) → MainLogs s m (main_step connfd s m)
unfolding main_step
main_step-MainLogs connfd s accepting = (sym (append-nil s.put), refl)
main_step-MainLogs connfd s (to_lock fd) =
    if_induction (MainLogs s (to_lock fd)) (s.mutex == 0) none
      (some (storing fd, record s { mutex = s.mutex - 1 })) (λ e. tt)
      (λ e. (sym (append-nil s.put), refl))
main_step-MainLogs connfd s (storing fd) = (refl, refl)
main_step-MainLogs connfd s signalling = tt
main_step-MainLogs connfd s unlocking = (sym (append-nil s.put), refl)
main_step-MainLogs connfd s quitting = tt

abbrev WorkerLogs : Shared → Worker → Option (Worker × Shared) → Type 0
WorkerLogs s p none = Unit
WorkerLogs s p (some (p', s')) = (s'.put ≡ s.put) × (s'.taken ≡ s.taken ++ takes p p')

locks_only : (s : Shared) (p : Worker) → ((p' : Worker) → takes p p' ≡ []) → WorkerLogs s p (lock s)
locks_only s p none_taken =
    if_induction (WorkerLogs s p) (s.mutex == 0) none
      (some (testing, record s { mutex = s.mutex - 1 })) (λ e. tt)
      (λ e. (refl, sym (append-nil s.taken) ∙ ap (λ l. s.taken ++ l) (sym (none_taken testing))))

worker_step-WorkerLogs : (s : Shared) (p : Worker) → WorkerLogs s p (worker_step s p)
unfolding worker_step
worker_step-WorkerLogs s at_lock = locks_only s at_lock (λ p'. refl)
worker_step-WorkerLogs s testing =
    if_induction {A = Worker × Shared} (λ x. WorkerLogs s testing (some x)) (s.iget == s.iput)
      (waiting, record s { mutex = s.mutex + 1 })
      (
        to_unlock (s.clifd s.iget),
        record s { iget = next s.iget; taken = s.taken ++ (s.clifd s.iget ∷ []) },
      )
      (λ e. (refl, sym (append-nil s.taken))) (λ e. (refl, refl))
worker_step-WorkerLogs s waiting = tt
worker_step-WorkerLogs s woken = locks_only s woken (λ p'. refl)
worker_step-WorkerLogs s (to_unlock fd) = (refl, sym (append-nil s.taken))
worker_step-WorkerLogs s (to_count fd) = (refl, sym (append-nil s.taken))
worker_step-WorkerLogs s (to_serve fd) = (refl, sym (append-nil s.taken))

-- The logs of two states and what lies between them give the queues.
queue_between :
    (put taken put' taken' q q' new old : List ℕ)
    → put ≡ taken ++ q
    → put' ≡ taken' ++ q'
    → put' ≡ put ++ new
    → taken' ≡ taken ++ old
    → q ++ new ≡ old ++ q'
queue_between put taken put' taken' q q' new old e e' x y =
    append_cancel taken (q ++ new) (old ++ q') (
      sym (append_assoc taken q new)
      ∙ ap (λ l. l ++ new) (sym e)
      ∙ sym x
      ∙ e'
      ∙ ap (λ l. l ++ q') y
      ∙ append_assoc taken old q')

ring_is_contents : (n : ℕ) (w : World) → Reach n w → w.shared.put ≡ w.shared.taken ++ contents w
ring_is_contents n w r =
    let (a, k, h) = Reach-HasInvariant n w r in
    h.ring ∙ ap (λ l. w.shared.taken ++ l) (sym (contents_lem n a k w h))

abbrev Logs : World → (put taken : List ℕ) → World → Type 0
Logs w put taken w' =
    (w'.shared.put ≡ w.shared.put ++ put) × (w'.shared.taken ≡ w.shared.taken ++ taken)

no_change : (w w' : World) → w'.shared ≡ w.shared → Logs w [] [] w'
no_change w w' e = (
  ap (λ s. s.put) e ∙ sym (append-nil w.shared.put),
  ap (λ s. s.taken) e ∙ sym (append-nil w.shared.taken),
)

step-Logs : (n : ℕ) (w w' : World) (s : Step n w w') → Logs w (stored_by s) (taken_by s) w'
step-Logs n w w' (main_goes connfd m' s' e) =
    let (put, taken) =
      subst (MainLogs w.shared w.main) e (main_step-MainLogs connfd w.shared w.main) in
    (put, taken ∙ sym (append-nil w.shared.taken))
step-Logs n w w' (signals i e lt e') = no_change w w' refl
step-Logs n w w' (signals_nobody e none_waits) = no_change w w' refl
step-Logs n w w' (wakes i lt e) = no_change w w' refl
step-Logs n w w' (worker_goes i p p' s' lt e q) =
    let (put, taken) = subst (WorkerLogs w.shared p) q (worker_step-WorkerLogs w.shared p) in
    (put ∙ sym (append-nil w.shared.put), taken)

-- Every step of the pool, in a reachable state, is one of a queue on the connections of the ring: with
-- what the step stores at its end, the queue before is what the step takes and then the queue after.
pub step_is_queue :
    (n : ℕ) (w w' : World) (s : Step n w w')
    → Reach n w
    → contents w ++ stored_by s ≡ taken_by s ++ contents w'
step_is_queue n w w' s r =
    let (put, taken) = step-Logs n w w' s in
    queue_between w.shared.put w.shared.taken w'.shared.put w'.shared.taken (contents w)
      (contents w') (stored_by s) (taken_by s) (ring_is_contents n w r)
      (ring_is_contents n w' (later r s)) put taken
