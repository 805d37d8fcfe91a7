-- ===== src/ThreadPool/Invariant.antt =====
-- What holds of the ring, the mutex and the counts of the pool in every reachable state.
use com_tutor.Base.{
  ℕ, zero, suc, ◌+◌, ◌%◌, ◌≤◌, ◌<◌, ◌≡◌, ◌≢◌, refl, sym, ◌∙◌, ap, ap₂, List, [], ◌∷◌, ◌++◌, length,
  update, update_off, arith,
}
use com_tutor.Base.Counts.{total}
use com_tutor.ThreadPool.{
  maxncli, next, Main, signalling, unlocking, quitting, storing, Worker, testing, waiting,
  to_unlock, to_count,
}
use com_tutor.ThreadPool.Threads.{World}

-- The `r` connections of the ring from number `a` on.
unfoldable pub queued : (ℕ → ℕ) → (a r : ℕ) → List ℕ
queued f a zero = []
queued f a (suc r) = f (a % maxncli) ∷ queued f (a + 1) r

pub queued-around :
    (f : ℕ → ℕ) (a b r : ℕ) → a % maxncli ≡ b % maxncli → queued f a r ≡ queued f b r
unfolding queued
queued-around f a b zero e = refl
queued-around f a b (suc r) e =
    ap₂ (λ x l. x ∷ l) (ap f e) (queued-around f (a + 1) (b + 1) r (omega (arith, e)))

pub queued-snoc :
    (f : ℕ → ℕ) (a r : ℕ) → queued f a (suc r) ≡ queued f a r ++ (f ((a + r) % maxncli) ∷ [])
unfolding queued
queued-snoc f a zero = ap (λ n. f (n % maxncli) ∷ []) (omega arith)
queued-snoc f a (suc r) =
    ap (λ l. f (a % maxncli) ∷ l)
      (queued-snoc f (a + 1) r
        ∙ ap (λ n. queued f (a + 1) r ++ (f (n % maxncli) ∷ [])) (omega arith))

pub queued-update :
    (f : ℕ → ℕ) (t x a r : ℕ)
    → ((j : ℕ) → a ≤ j → j < a + r → j % maxncli ≢ t)
    → queued (update f t x) a r ≡ queued f a r
unfolding queued
queued-update f t x a zero h = refl
queued-update f t x a (suc r) h =
    ap₂ (λ u v. u ∷ v)
      (update_off f t x (a % maxncli) (λ q. h a (omega arith) (omega arith) (sym q)))
      (queued-update f t x (a + 1) r (λ j ge lt. h j (omega (arith, ge)) (omega (arith, lt))))

pub length-queued : (f : ℕ → ℕ) (a r : ℕ) → length (queued f a r) ≡ r
unfolding queued
length-queued f a zero = refl
length-queued f a (suc r) = ap suc (length-queued f (a + 1) r)

pub next_lem : (n : ℕ) → next (n % maxncli) ≡ (n + 1) % maxncli
next_lem n = ground arith

abbrev pub locks : Main → ℕ
locks (storing _) = 1
locks signalling = 1
locks unlocking = 1
locks quitting = 1
locks _ = 0

abbrev pub has_quit : Main → ℕ
has_quit quitting = 1
has_quit _ = 0

abbrev pub is_signalling : Main → ℕ
is_signalling signalling = 1
is_signalling _ = 0

abbrev pub worker_locks : Worker → ℕ
worker_locks testing = 1
worker_locks (to_unlock _) = 1
worker_locks _ = 0

-- A thread that has taken a connection and not counted it.
abbrev pub uncounted : Worker → ℕ
uncounted (to_unlock _) = 1
uncounted (to_count _) = 1
uncounted _ = 0

abbrev pub waits : Worker → ℕ
waits waiting = 1
waits _ = 0

-- `a` connections have been taken, and `r` are in the ring.
pub record Holds (n a r : ℕ) (w : World) : Type 0 where
  pub one_lock : w.shared.mutex + locks w.main + total worker_locks n w.workers ≡ 1
  pub ring : w.shared.put ≡ w.shared.taken ++ queued w.shared.clifd a r
  pub count : length w.shared.taken ≡ a
  pub gets : w.shared.iget ≡ a % maxncli
  pub puts : w.shared.iput ≡ (a + r) % maxncli
  pub room : r < maxncli + has_quit w.main
  pub full : 0 < has_quit w.main → r ≡ maxncli
  pub credits : total (λ c. c) n w.thread_count + total uncounted n w.workers ≡ a
  pub awake : 0 < n → 0 < r → total waits n w.workers < n + is_signalling w.main + has_quit w.main
