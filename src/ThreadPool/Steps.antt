-- ===== src/ThreadPool/Steps.antt =====
-- The steps of the main thread of the pool, and the wakes, against the invariant.
use mathlib.Core.List.{append_assoc}
use com_tutor.Base.{
  ℕ, suc, ◌+◌, ◌-◌, ◌%◌, ◌≤◌, ◌<◌, ◌≡◌, ◌≢◌, refl, sym, ◌∙◌, ap, ap₂, true, false, Option, none,
  some, [], ◌∷◌, ◌++◌, ◌==◌, ==→eq, if_induction, update, update_at, arith,
}
use com_tutor.Base.Counts.{total, total-at_most, total-update, total-none}
use com_tutor.ThreadPool.{
  maxncli, next, Shared, Main, accepting, to_lock, storing, signalling, unlocking, quitting, store,
  main_step, Worker, waiting, woken,
}
use com_tutor.ThreadPool.Threads.{World}
use com_tutor.ThreadPool.Invariant.{
  queued, queued-snoc, queued-update, next_lem, locks, has_quit, is_signalling, worker_locks,
  uncounted, waits, Holds,
}

module _ (n a r : ℕ) (w : World) (h : Holds n a r w) where
  -- A step of main that moves the mutex only.
  Holds-main :
      (m : ℕ) (p : Main)
      → m + locks p ≡ w.shared.mutex + locks w.main
      → has_quit p ≡ has_quit w.main
      → is_signalling w.main ≤ is_signalling p
      → Holds n a r (record w { shared = record w.shared { mutex = m }; main = p })
  Holds-main m p x y z = record {
    one_lock = omega (arith, x, h.one_lock);
    ring = h.ring;
    count = h.count;
    gets = h.gets;
    puts = h.puts;
    room = omega (arith, y, h.room);
    full = λ q. h.full (omega (arith, y, q));
    credits = h.credits;
    awake = λ pos some. omega (arith, h.awake pos some, y, z);
  }

  -- The slot that is stored into is none of the filled ones.
  free_slot : (j : ℕ) → r < maxncli → a ≤ j → j < a + r → j % maxncli ≢ (a + r) % maxncli
  free_slot j room ge lt e = omega (arith, room, ge, lt, e)

  Holds-store :
      (connfd : ℕ) (p : Main)
      → w.main ≡ storing connfd
      → locks p ≡ 1
      → suc r < maxncli + has_quit p
      → (0 < has_quit p → suc r ≡ maxncli)
      → 1 ≤ is_signalling p + has_quit p
      → Holds n a (suc r) (record w { shared = (store connfd w.shared).1; main = p })
  Holds-store connfd p e x y z u =
      let room : r < maxncli = ground (arith, h.room, e) in
      record {
        one_lock = ground (arith, h.one_lock, e, x);
        ring =
            ap (λ l. l ++ (connfd ∷ [])) h.ring
            ∙ append_assoc w.shared.taken (queued w.shared.clifd a r) (connfd ∷ [])
            ∙ ap (λ l. w.shared.taken ++ l)
                (sym (
                  queued-snoc (update w.shared.clifd w.shared.iput connfd) a r
                  ∙ ap₂ (λ l b. l ++ (b ∷ []))
                      (queued-update w.shared.clifd w.shared.iput connfd a r
                        (λ j ge lt q. free_slot j room ge lt (q ∙ h.puts)))
                      (ap (update w.shared.clifd w.shared.iput connfd) (sym h.puts)
                        ∙ update_at w.shared.clifd w.shared.iput connfd)));
        count = h.count;
        gets = h.gets;
        puts = ap next h.puts ∙ next_lem (a + r) ∙ ap (λ k. k % maxncli) (omega arith);
        room = y;
        full = z;
        credits = h.credits;
        awake = λ pos some. omega (arith, u, all_waiting);
      }
    where
      all_waiting : total waits n w.workers ≤ n
      all_waiting = total-at_most waits (λ p. ground arith) n w.workers

-- The pointers meet when the connection has filled the last slot.
store_fills :
    (a r i g : ℕ)
    → i ≡ (a + r + 1) % maxncli
    → g ≡ a % maxncli
    → r < maxncli
    → (i == g) ≡ true
    → suc r ≡ maxncli
store_fills a r i g e e' room q = omega (arith, room, e, e', ==→eq i g q)

store_fits :
    (a r i g : ℕ)
    → i ≡ (a + r + 1) % maxncli
    → g ≡ a % maxncli
    → r < maxncli
    → (i == g) ≡ false
    → suc r < maxncli
store_fits a r i g e e' room q = ground (arith, room, e, e', q)

abbrev pub MainKept : (n a r : ℕ) (w : World) → Option (Main × Shared) → Type 0
MainKept n a r w none = Unit
MainKept n a r w (some (m', s')) = (r' : ℕ) × Holds n a r' (record w { shared = s'; main = m' })

pub main-Kept :
    (n a r : ℕ) (w : World) (connfd : ℕ) (m : Main)
    → w.main ≡ m
    → Holds n a r w
    → MainKept n a r w (main_step connfd w.shared m)
unfolding main_step
main-Kept n a r w connfd accepting e h = (
  r,
  Holds-main n a r w h w.shared.mutex (to_lock connfd) (ground (arith, e)) (ground (arith, e))
      (ground (arith, e)),
)
main-Kept n a r w connfd (to_lock fd) e h =
    if_induction (MainKept n a r w) (w.shared.mutex == 0) none
      (some (storing fd, record w.shared { mutex = w.shared.mutex - 1 })) (λ q. tt)
      (λ q. (
        r,
        Holds-main n a r w h (w.shared.mutex - 1) (storing fd) (ground (arith, e, q))
            (ground (arith, e)) (ground (arith, e)),
      ))
main-Kept n a r w connfd (storing fd) e h =
    let room : r < maxncli = ground (arith, h.room, e) in
    let i = next w.shared.iput in
    let at : i ≡ (a + r + 1) % maxncli = ap next h.puts ∙ next_lem (a + r) in
    (
      suc r,
      if_induction (λ p. Holds n a (suc r) (record w { shared = (store fd w.shared).1; main = p }))
          (next w.shared.iput == w.shared.iget) quitting signalling
          (λ q.
            Holds-store n a r w h fd quitting e refl (omega (arith, room))
              (λ z. store_fills a r i w.shared.iget at h.gets room q) (omega arith))
          (λ q.
            Holds-store n a r w h fd signalling e refl
              (store_fits a r i w.shared.iget at h.gets room q) (λ z. absurd (omega (arith, z)))
              (omega arith)),
    )
main-Kept n a r w connfd signalling e h = tt
main-Kept n a r w connfd unlocking e h = (
  r,
  Holds-main n a r w h (w.shared.mutex + 1) accepting (ground (arith, e)) (ground (arith, e))
      (ground (arith, e)),
)
main-Kept n a r w connfd quitting e h = tt

-- A thread is woken; main has signalled it, or goes on as it was.
pub Holds-wake :
    (n a r : ℕ) (w : World) (i : ℕ) (p : Main)
    → i < n
    → w.workers i ≡ waiting
    → locks p ≡ locks w.main
    → has_quit p ≡ has_quit w.main
    → is_signalling w.main ≤ is_signalling p + 1
    → Holds n a r w
    → Holds n a r (record w { main = p; workers = update w.workers i woken })
Holds-wake n a r w i p lt e x y z h = record {
  one_lock =
      omega (arith, total-update worker_locks n w.workers i waiting woken lt e, x, h.one_lock);
  ring = h.ring;
  count = h.count;
  gets = h.gets;
  puts = h.puts;
  room = omega (arith, y, h.room);
  full = λ q. h.full (omega (arith, y, q));
  credits = omega (arith, total-update uncounted n w.workers i waiting woken lt e, h.credits);
  awake = λ pos some.
      omega (arith, total-update waits n w.workers i waiting woken lt e, h.awake pos some, y, z);
}

-- Nobody waits for the signal.
pub Holds-nobody :
    (n a r : ℕ) (w : World)
    → w.main ≡ signalling
    → ((i : ℕ) → i < n → w.workers i ≢ waiting)
    → Holds n a r w
    → Holds n a r (record w { main = unlocking })
Holds-nobody n a r w e none_waits h = record {
  one_lock = ground (arith, e, h.one_lock);
  ring = h.ring;
  count = h.count;
  gets = h.gets;
  puts = h.puts;
  room = ground (arith, e, h.room);
  full = λ q. absurd (omega (arith, q));
  credits = h.credits;
  awake = λ pos some. omega (
    arith,
    total-none waits n w.workers (λ i lt. awake_one (w.workers i) (none_waits i lt)),
    pos,
  );
}
  where
    awake_one : (p : Worker) → p ≢ waiting → waits p ≡ 0
    awake_one p q = ground (arith, q)
