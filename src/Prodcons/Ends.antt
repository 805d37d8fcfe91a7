-- ===== src/Prodcons/Ends.antt =====
-- Every run of producers and consumers is finite: the steps to go are counted.
use com_tutor.Base.{ℕ, ◌+◌, ◌-◌, ◌*◌, ◌≤◌, ◌<◌, subst, Option, none, some, arith}
use com_tutor.Base.Counts.{total, total-update, total-const}
use com_tutor.Prodcons.{
  Shared, Producer, at_empty, at_mutex, putting, unlocking, posting, ending, leaving, finished,
  produce, Consumer, at_stored, to_lock, getting, to_unlock, to_post, to_leave, ended, consume,
}
use com_tutor.Prodcons.Threads.{World, Step, produces, consumes, Reach, begins, later}

-- How many steps a thread has at most before it puts or gets another item, and then ends.
abbrev pub rank : Producer → ℕ
rank unlocking = 7
rank posting = 6
rank at_empty = 5
rank at_mutex = 4
rank putting = 3
rank ending = 2
rank leaving = 1
rank finished = 0

abbrev pub cons_rank : Consumer → ℕ
cons_rank to_unlock = 6
cons_rank to_post = 5
cons_rank at_stored = 4
cons_rank to_lock = 3
cons_rank getting = 2
cons_rank to_leave = 1
cons_rank ended = 0

-- The items to put and to get each take a thread round its loop.
abbrev pub items_left : ℕ → Shared → ℕ
items_left nitems s = 5 * (nitems - s.nput) + 5 * (nitems - s.nget)

abbrev Shrinks : ℕ → Shared → Producer → Option (Producer × Shared) → Type 0
Shrinks nitems s x none = Unit
Shrinks nitems s x (some (y, s')) = items_left nitems s' + rank y < items_left nitems s + rank x

produce-Shrinks : (nitems : ℕ) (s : Shared) (x : Producer) → Shrinks nitems s x (produce nitems s x)
unfolding produce
produce-Shrinks nitems s at_empty = ground arith
produce-Shrinks nitems s at_mutex = ground arith
produce-Shrinks nitems s putting = ground arith
produce-Shrinks nitems s unlocking = ground arith
produce-Shrinks nitems s posting = ground arith
produce-Shrinks nitems s ending = ground arith
produce-Shrinks nitems s leaving = ground arith
produce-Shrinks nitems s finished = tt

abbrev ConsShrinks : ℕ → Shared → Consumer → Option (Consumer × Shared) → Type 0
ConsShrinks nitems s x none = Unit
ConsShrinks nitems s x (some (y, s')) =
    items_left nitems s' + cons_rank y < items_left nitems s + cons_rank x

consume-Shrinks :
    (nitems : ℕ) (s : Shared) (x : Consumer) → ConsShrinks nitems s x (consume nitems s x)
unfolding consume
consume-Shrinks nitems s at_stored = ground arith
consume-Shrinks nitems s to_lock = ground arith
consume-Shrinks nitems s getting = ground arith
consume-Shrinks nitems s to_unlock = ground arith
consume-Shrinks nitems s to_post = ground arith
consume-Shrinks nitems s to_leave = ground arith
consume-Shrinks nitems s ended = tt

abbrev pub left : (np nc nitems : ℕ) → World → ℕ
left np nc nitems w = items_left nitems w.shared + total rank np w.prod + total cons_rank nc w.cons

left-decreases :
    (np nc nitems : ℕ) (w w' : World)
    → Step np nc nitems w w'
    → left np nc nitems w' < left np nc nitems w
left-decreases np nc nitems w _ (produces i p p' s' lt e q) = omega (
  arith,
  subst (Shrinks nitems w.shared p) q (produce-Shrinks nitems w.shared p),
  total-update rank np w.prod i p p' lt e,
)
left-decreases np nc nitems w _ (consumes i c c' s' lt e q) = omega (
  arith,
  subst (ConsShrinks nitems w.shared c) q (consume-Shrinks nitems w.shared c),
  total-update cons_rank nc w.cons i c c' lt e,
)

-- The steps of a run.
unfoldable pub steps : {np nc nitems : ℕ} {w : World} → Reach np nc nitems w → ℕ
steps begins = 0
steps (later r step) = steps r + 1

steps-left :
    (np nc nitems : ℕ) (w : World) (r : Reach np nc nitems w)
    → steps r + left np nc nitems w ≤ 10 * nitems + 5 * np + 4 * nc
unfolding steps
steps-left np nc nitems _ begins =
    omega (arith, total-const rank np at_empty, total-const cons_rank nc at_stored)
steps-left np nc nitems w (later {w = v} r step) =
    omega (arith, steps-left np nc nitems v r, left-decreases np nc nitems v w step)

-- A run of the threads has ten steps for each item, five for each producer and four for each consumer, at
-- most: none goes on for ever.
pub runs_end :
    (np nc nitems : ℕ) (w : World) (r : Reach np nc nitems w)
    → steps r ≤ 10 * nitems + 5 * np + 4 * nc
runs_end np nc nitems w r = omega (arith, steps-left np nc nitems w r)
