-- ===== src/Mycat/Invariant.antt =====
-- What holds of the buffers and the semaphores of mycat2 in every reachable state.
use mathlib.Core.List.{append_assoc, append-nil}
use com_tutor.Base.{
  ℕ, zero, suc, ◌+◌, ◌%◌, ◌≤◌, ◌<◌, ◌≡◌, ◌≢◌, refl, sym, ◌∙◌, ap, ap₂, List, [], ◌++◌, update,
  update_off, arith,
}
use com_tutor.Mycat.{
  nbuff, next, Reader, at_mutex, critical, reading, posting, ending, finished, Writer, to_lock,
  inside, writing, to_post, ended,
}
use com_tutor.Mycat.Threads.{World}

-- The bytes of `r` buffers of the ring, from the buffer of number `a` on.
unfoldable pub segment : (ℕ → List ℕ) → (a r : ℕ) → List ℕ
segment f a zero = []
segment f a (suc r) = f (a % nbuff) ++ segment f (a + 1) r

pub segment-snoc :
    (f : ℕ → List ℕ) (a r : ℕ) → segment f a (suc r) ≡ segment f a r ++ f ((a + r) % nbuff)
unfolding segment
segment-snoc f a zero = append-nil (f (a % nbuff)) ∙ ap (λ n. f (n % nbuff)) (omega arith)
segment-snoc f a (suc r) =
    ap (λ l. f (a % nbuff) ++ l) (segment-snoc f (a + 1) r)
    ∙ sym (append_assoc (f (a % nbuff)) (segment f (a + 1) r) (f ((a + 1 + r) % nbuff)))
    ∙ ap (λ n. f (a % nbuff) ++ segment f (a + 1) r ++ f (n % nbuff)) (omega arith)

pub segment-step :
    (f : ℕ → List ℕ) (a r : ℕ) → segment f a (suc r) ≡ f (a % nbuff) ++ segment f (a + 1) r
unfolding segment
segment-step f a r = refl

pub segment-update :
    (f : ℕ → List ℕ) (t : ℕ) (x : List ℕ) (a r : ℕ)
    → ((j : ℕ) → a ≤ j → j < a + r → j % nbuff ≢ t)
    → segment (update f t x) a r ≡ segment f a r
unfolding segment
segment-update f t x a zero h = refl
segment-update f t x a (suc r) h =
    ap₂ (λ u v. u ++ v)
      (update_off f t x (a % nbuff) (λ q. h a (omega arith) (omega arith) (sym q)))
      (segment-update f t x (a + 1) r (λ j ge lt. h j (omega (arith, ge)) (omega (arith, lt))))

pub next_lem : (n : ℕ) → next (n % nbuff) ≡ (n + 1) % nbuff
next_lem n = ground arith

-- Of the reader: it holds a unit of nempty, holds the mutex, owes one to nstored, has met the end.
abbrev pub holds_empty : Reader → ℕ
holds_empty at_mutex = 1
holds_empty critical = 1
holds_empty reading = 1
holds_empty _ = 0

abbrev pub locks : Reader → ℕ
locks critical = 1
locks _ = 0

abbrev pub owes_stored : Reader → ℕ
owes_stored posting = 1
owes_stored ending = 1
owes_stored _ = 0

abbrev pub is_over : Reader → ℕ
is_over ending = 1
is_over finished = 1
is_over _ = 0

-- Of the writer: it owes a unit to nempty, holds the mutex, holds one of nstored.
abbrev pub owes_empty : Writer → ℕ
owes_empty to_post = 1
owes_empty _ = 0

abbrev pub cons_locks : Writer → ℕ
cons_locks inside = 1
cons_locks _ = 0

abbrev pub holds_stored : Writer → ℕ
holds_stored to_lock = 1
holds_stored inside = 1
holds_stored writing = 1
holds_stored ended = 1
holds_stored _ = 0

-- `a` buffers have been written, and `r` are filled and not yet written; one more, empty, when the reader
-- has met the end of the file.
pub record Holds (file : List ℕ) (a r : ℕ) (w : World) : Type 0 where
  pub one_lock : w.shared.mutex + locks w.reader + cons_locks w.writer ≡ 1
  pub slots :
      w.shared.nempty + holds_empty w.reader + owes_empty w.writer + r + is_over w.reader ≡ nbuff
  pub items : w.shared.nstored + owes_stored w.reader + holds_stored w.writer ≡ r + is_over w.reader
  pub puts : w.put_at ≡ (a + r) % nbuff
  pub gets : w.get_at ≡ a % nbuff
  pub content : w.shared.output ++ (segment w.shared.buff a r ++ w.input) ≡ file
  pub full : (j : ℕ) → a ≤ j → j < a + r → w.shared.buff (j % nbuff) ≢ []
  pub last : 0 < is_over w.reader → (w.input ≡ []) × (w.shared.buff ((a + r) % nbuff) ≡ [])
  pub all : w.writer ≡ ended → (r ≡ 0) × (is_over w.reader ≡ 1)
