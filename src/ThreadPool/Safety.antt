-- ===== src/ThreadPool/Safety.antt =====
-- The ring, the counts and the end of the pool.
use com_tutor.Base.{
  ℕ, ◌+◌, ◌≤◌, ◌<◌, ◌≡◌, ◌↔◌, sym, ◌∙◌, ap, ◌%◌, ◌++◌, length, length-append, arith,
}
use com_tutor.Base.Counts.{total}
use com_tutor.ThreadPool.{maxncli, Main, quitting}
use com_tutor.ThreadPool.Threads.{World, Reach}
use com_tutor.ThreadPool.Invariant.{
  Holds, queued, queued-around, length-queued, has_quit, uncounted,
}
use com_tutor.ThreadPool.Workers.{Reach-HasInvariant}

stored_count : (n a r : ℕ) (w : World) → Holds n a r w → length w.shared.put ≡ a + r
stored_count n a r w h =
    ap length h.ring
    ∙ length-append w.shared.taken (queued w.shared.clifd a r)
    ∙ ap (λ k. k + length (queued w.shared.clifd a r)) h.count
    ∙ ap (λ k. a + k) (length-queued w.shared.clifd a r)

-- In every reachable state of the pool the connections that main has stored are those that the threads
-- have taken, and then those in the ring from iget on, 32 at most, in order; iget is how many have been
-- taken and iput how many have been stored, mod 32; and the thread_count of all threads add up to the
-- connections taken, less those that a thread has taken and not yet counted.
pub served_in_order :
    (n : ℕ) (w : World)
    → Reach n w
    → ((r : ℕ) × (r ≤ maxncli)
        × (w.shared.put ≡ w.shared.taken ++ queued w.shared.clifd w.shared.iget r))
      × (w.shared.iget ≡ length w.shared.taken % maxncli)
      × (w.shared.iput ≡ length w.shared.put % maxncli)
      × (total (λ c. c) n w.thread_count + total uncounted n w.workers ≡ length w.shared.taken)
served_in_order n w go =
    let (a, r, h) = Reach-HasInvariant n w go in
    (
      (
        r,
        at_most w.main r h.room,
        h.ring
            ∙ ap (λ l. w.shared.taken ++ l)
                (queued-around w.shared.clifd a w.shared.iget r (omega (arith, h.gets))),
      ),
      h.gets ∙ ap (λ k. k % maxncli) (sym h.count),
      h.puts ∙ ap (λ k. k % maxncli) (sym (stored_count n a r w h)),
      h.credits ∙ sym h.count,
    )
  where
    at_most : (m : Main) (r : ℕ) → r < maxncli + has_quit m → r ≤ maxncli
    at_most m r q = ground (arith, q)

-- In every reachable state of the pool 32 connections at most are stored and not taken, and main has
-- ended the program exactly if there are 32.
pub quits_when_full :
    (n : ℕ) (w : World)
    → Reach n w
    → (length w.shared.put ≤ length w.shared.taken + maxncli)
      × ((w.main ≡ quitting) ↔ (length w.shared.put ≡ length w.shared.taken + maxncli))
quits_when_full n w go =
    let (a, r, h) = Reach-HasInvariant n w go in
    let held : length w.shared.put ≡ length w.shared.taken + r =
      stored_count n a r w h ∙ ap (λ k. k + r) (sym h.count) in
    (
      omega (arith, held, h.room, once w.main),
      (
        λ e. held ∙ ap (λ k. length w.shared.taken + k) (h.full (ground (arith, e))),
        λ e. ended w.main (omega (arith, held, e, h.room)),
      ),
    )
  where
    once : (m : Main) → has_quit m ≤ 1
    once m = ground arith

    ended : (m : Main) → 0 < has_quit m → m ≡ quitting
    ended m q = ground (arith, q)
