-- ===== src/Prodcons/Safety.antt =====
-- What follows for producers and consumers: no item is lost, overwritten or got twice, and they end.
use com_tutor.Base.{ℕ, ◌+◌, ◌%◌, ◌≤◌, ◌<◌, ◌≡◌, ap, arith}
use com_tutor.Base.Counts.{total, total-none}
use com_tutor.Prodcons.{nbuff, finished, ended}
use com_tutor.Prodcons.Threads.{World, Reach}
use com_tutor.Prodcons.Invariant.{owes_stored, is_over, owes_empty, cons_is_over}
use com_tutor.Prodcons.Counts.{Reach-Sound, weight-le}

-- In every reachable state the items put and not yet got, ten at most, are in their slots, and no consumer
-- has found another value than the one it was to get.
pub items_kept :
    (np nc nitems : ℕ) (w : World)
    → Reach np nc nitems w
    → (w.shared.errors ≡ 0)
      × (w.shared.nget ≤ w.shared.nput)
      × (w.shared.nput ≤ w.shared.nget + nbuff)
      × (w.shared.nput ≤ nitems)
      × ((i : ℕ) → w.shared.nget ≤ i → i < w.shared.nput → w.shared.buff (i % nbuff) ≡ i)
items_kept np nc nitems w r =
    let (h, counts) = Reach-Sound np nc nitems w r in
    (h.right, h.got, omega (arith, h.slots), h.put, h.stored)

-- When all threads are done, and there is one of each kind at least, all items have been put and got: the
-- counts that main prints add up to `nitems` on both sides.
pub all_consumed :
    (np nc nitems : ℕ) (w : World)
    → Reach np nc nitems w
    → 0 < np
    → 0 < nc
    → ((i : ℕ) → i < np → w.prod i ≡ finished)
    → ((i : ℕ) → i < nc → w.cons i ≡ ended)
    → (total (λ k. k) np w.prodcount ≡ nitems) × (total (λ k. k) nc w.conscount ≡ nitems)
all_consumed np nc nitems w r some_prod some_cons done done' =
    let (h, (put, got)) = Reach-Sound np nc nitems w r in
    let over = weight-le is_over np w.prod 0 finished some_prod (done 0 some_prod) in
    let over' = weight-le cons_is_over nc w.cons 0 ended some_cons (done' 0 some_cons) in
    (
      omega (
        arith,
        put,
        h.all_put over,
        total-none owes_stored np w.prod (λ i lt. ap owes_stored (done i lt)),
      ),
      omega (
        arith,
        got,
        h.all_got over',
        total-none owes_empty nc w.cons (λ i lt. ap owes_empty (done' i lt)),
      ),
    )
