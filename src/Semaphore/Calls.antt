-- ===== src/Semaphore/Calls.antt =====
-- The calls on one semaphore against one another, and against the steps of the threads.
use com_tutor.Base.{
  ◌+◌, ◌-◌, ◌<◌, ◌≡◌, ◌≢◌, refl, ◌∙◌, ap, true, some, List, [], ◌∷◌, ◌++◌, arith, ltb, ◌==◌,
  if◌then◌else◌, eq→==, All,
}
use com_tutor.Base.Errno.{eagain}
use com_tutor.Semaphore.{
  Sem, sem_magic, word, done, asleep, failed, increment, mysem_post, wait_loop, mysem_wait,
  mysem_trywait, mysem_getvalue,
}
use com_tutor.Semaphore.Threads.{wait_round}

-- mysem_wait on an open semaphore does one round, and sleeps if the round says so; mysem_trywait
-- does what mysem_wait does where that does not sleep, and else fails with EAGAIN.
pub trywait_is_wait :
    (s : Sem)
    → s.magic ≡ sem_magic
    → (mysem_wait 0 [] s
        ≡ ((if s.count == 0 then asleep else done), record s { count = (wait_round s.count).0 }))
      × (mysem_trywait 0 s ≡ (if s.count == 0 then (failed eagain, s) else mysem_wait 0 [] s))
unfolding mysem_wait wait_loop mysem_trywait
trywait_is_wait s magic = rw (eq→== s.magic sem_magic magic) (ground arith, ground arith)

wait_loop_some :
    (wakes : List Sem) (s : Sem)
    → 0 < s.count
    → wait_loop wakes s ≡ (done, record s { count = s.count - 1 })
unfolding wait_loop
wait_loop_some [] s h = ground arith
wait_loop_some (w ∷ ws) s h = ground arith

wait_loop_early :
    (early late : List Sem) (s w : Sem)
    → s.count ≡ 0
    → All (λ e. e.count ≡ 0) early
    → w.count ≢ 0
    → wait_loop (early ++ (w ∷ late)) s ≡ (done, record w { count = w.count - 1 })
unfolding wait_loop
wait_loop_early [] late s w empty idle found =
    rw (eq→== s.count 0 empty) (wait_loop_some late w (omega (arith, found)))
wait_loop_early (e ∷ es) late s w empty idle found =
    rw (eq→== s.count 0 empty) (wait_loop_early es late e w (idle.0) (idle.1) found)

wait_loop_asleep :
    (early : List Sem) (s : Sem)
    → s.count ≡ 0
    → All (λ e. e.count ≡ 0) early
    → (wait_loop early s).0 ≡ asleep
unfolding wait_loop
wait_loop_asleep [] s empty idle = rw (eq→== s.count 0 empty) refl
wait_loop_asleep (e ∷ es) s empty idle =
    rw (eq→== s.count 0 empty) (wait_loop_asleep es e (idle.0) (idle.1))

-- The semaphore with one unit more.
abbrev richer : Sem → Sem
richer s = record s { count = s.count + 1 }

poorer : (s : Sem) → record s { count = s.count + 1 - 1 } ≡ s
poorer s = ap (λ c. record s { count = c }) (omega arith)

post_open :
    (s : Sem)
    → s.magic ≡ sem_magic
    → s.count + 1 < word
    → mysem_post 0 s ≡ (done, s.count == 0, richer s)
unfolding mysem_post
post_open s magic fits =
    let up : increment s.count ≡ s.count + 1 = omega (arith, fits) in
    rw (eq→== s.magic sem_magic magic, up) refl

getvalue_open : (s : Sem) → s.magic ≡ sem_magic → mysem_getvalue 0 s ≡ (done, some s.count)
unfolding mysem_getvalue
getvalue_open s magic = rw (eq→== s.magic sem_magic magic) refl

wait_open :
    (s : Sem) (wakes : List Sem) → s.magic ≡ sem_magic → mysem_wait 0 wakes (richer s) ≡ (done, s)
unfolding mysem_wait
wait_open s wakes magic =
    rw (eq→== s.magic sem_magic magic)
      (wait_loop_some wakes (richer s) (omega arith) ∙ ap (λ r. (done, r)) (poorer s))

trywait_open : (s : Sem) → s.magic ≡ sem_magic → mysem_trywait 0 (richer s) ≡ (done, s)
unfolding mysem_trywait
trywait_open s magic =
    let some_units : ltb 0 (s.count + 1) ≡ true = ground arith in
    rw (eq→== s.magic sem_magic magic, some_units) (ap (λ r. (done, r)) (poorer s))

-- A post on an open semaphore whose count is not the largest, and then any way to take a unit,
-- leave the semaphore as it was; in between mysem_getvalue gives one unit more.
pub wait-post :
    (s : Sem)
    → s.magic ≡ sem_magic
    → s.count + 1 < word
    → (wakes : List Sem)
    → let r = mysem_post 0 s in
      (r.0 ≡ done)
      × (mysem_getvalue 0 r.2 ≡ (done, some (s.count + 1)))
      × (mysem_wait 0 wakes r.2 ≡ (done, s))
      × (mysem_trywait 0 r.2 ≡ (done, s))
wait-post s magic fits wakes =
    rw (post_open s magic fits)
      (refl, getvalue_open _ magic, wait_open s wakes magic, trywait_open s magic)

-- mysem_wait, called with the count 0, goes on with the first wake-up that finds units, whatever
-- follows, and takes one of them; it sleeps as long as every wake-up finds none.
pub wait_takes_first :
    (s w : Sem) (early late : List Sem)
    → s.magic ≡ sem_magic
    → s.count ≡ 0
    → All (λ e. e.count ≡ 0) early
    → w.count ≢ 0
    → (mysem_wait 0 (early ++ (w ∷ late)) s ≡ (done, record w { count = w.count - 1 }))
      × ((mysem_wait 0 early s).0 ≡ asleep)
unfolding mysem_wait
wait_takes_first s w early late magic empty idle found =
    rw (eq→== s.magic sem_magic magic)
      (wait_loop_early early late s w empty idle found, wait_loop_asleep early s empty idle)
