-- ===== src/Prodcons/Invariant.antt =====
-- What holds of the semaphores, the slots and the counts while producers and consumers run.
use com_tutor.Base.{ℕ, ◌+◌, ◌%◌, ◌≤◌, ◌<◌, ◌≡◌}
use com_tutor.Prodcons.{
  Shared, nbuff, Producer, at_mutex, putting, unlocking, posting, ending, leaving, finished,
  Consumer, to_lock, getting, to_unlock, to_post, to_leave, ended,
}

-- How many of a kind of thread hold a unit of nempty, hold the mutex, owe a unit to nstored, or have
-- found that all items are put.
pub record Producers : Type 0 where
  pub holding : ℕ
  pub locking : ℕ
  pub owing : ℕ
  pub over : ℕ

-- The same: they owe a unit to nempty, hold the mutex, hold a unit of nstored, or have found that all
-- items are got.
pub record Consumers : Type 0 where
  pub owing : ℕ
  pub locking : ℕ
  pub holding : ℕ
  pub over : ℕ

abbrev pub holds_empty : Producer → ℕ
holds_empty at_mutex = 1
holds_empty putting = 1
holds_empty ending = 1
holds_empty _ = 0

abbrev pub locks : Producer → ℕ
locks putting = 1
locks unlocking = 1
locks ending = 1
locks leaving = 1
locks _ = 0

abbrev pub owes_stored : Producer → ℕ
owes_stored unlocking = 1
owes_stored posting = 1
owes_stored _ = 0

abbrev pub is_over : Producer → ℕ
is_over ending = 1
is_over leaving = 1
is_over finished = 1
is_over _ = 0

abbrev pub owes_empty : Consumer → ℕ
owes_empty to_unlock = 1
owes_empty to_post = 1
owes_empty _ = 0

abbrev pub cons_locks : Consumer → ℕ
cons_locks getting = 1
cons_locks to_unlock = 1
cons_locks to_leave = 1
cons_locks _ = 0

abbrev pub holds_stored : Consumer → ℕ
holds_stored to_lock = 1
holds_stored getting = 1
holds_stored _ = 0

abbrev pub cons_is_over : Consumer → ℕ
cons_is_over to_leave = 1
cons_is_over ended = 1
cons_is_over _ = 0

pub record Holds (nitems : ℕ) (s : Shared) (p : Producers) (c : Consumers) : Type 0 where
  pub one_lock : s.mutex + p.locking + c.locking ≡ 1
  pub slots : s.nempty + p.holding + c.owing + s.nput ≡ nbuff + s.nget
  pub items : s.nstored + p.owing + c.holding + s.nget ≡ s.nput + p.over
  pub put : s.nput ≤ nitems
  pub got : s.nget ≤ s.nput
  pub all_put : 0 < p.over → s.nput ≡ nitems
  pub all_got : 0 < c.over → s.nget ≡ nitems
  pub puts : s.nputval ≡ s.nput
  pub gets : s.ngetval ≡ s.nget
  pub stored : (i : ℕ) → s.nget ≤ i → i < s.nput → s.buff (i % nbuff) ≡ i
  pub right : s.errors ≡ 0

-- The counts when one producer goes from `x` to `y`.
pub record Moves (p : Producers) (x y : Producer) (p' : Producers) : Type 0 where
  pub holding : p'.holding + holds_empty x ≡ p.holding + holds_empty y
  pub locking : p'.locking + locks x ≡ p.locking + locks y
  pub owing : p'.owing + owes_stored x ≡ p.owing + owes_stored y
  pub over : p'.over + is_over x ≡ p.over + is_over y

pub record ConsMoves (c : Consumers) (x y : Consumer) (c' : Consumers) : Type 0 where
  pub owing : c'.owing + owes_empty x ≡ c.owing + owes_empty y
  pub locking : c'.locking + cons_locks x ≡ c.locking + cons_locks y
  pub holding : c'.holding + holds_stored x ≡ c.holding + holds_stored y
  pub over : c'.over + cons_is_over x ≡ c.over + cons_is_over y
