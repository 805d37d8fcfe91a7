-- ===== src/Prodcons/Threads.antt =====
-- `np` producers and `nc` consumers, interleaved in any order.
use com_tutor.Base.{ℕ, ◌+◌, ◌<◌, ◌≡◌, some, update}
use com_tutor.Prodcons.{
  Shared, initial, Producer, at_empty, posting, produce, Consumer, at_stored, to_post, consume,
}

-- The threads, with the counts that main prints.
pub record World : Type 0 where
  pub shared : Shared
  pub prod : ℕ → Producer
  pub cons : ℕ → Consumer
  pub prodcount : ℕ → ℕ
  pub conscount : ℕ → ℕ

-- A thread adds to its count when it goes round its loop.
abbrev pub credit : Producer → ℕ
credit posting = 1
credit _ = 0

abbrev pub cons_credit : Consumer → ℕ
cons_credit to_post = 1
cons_credit _ = 0

pub data Step (np nc nitems : ℕ) (w : World) : World → Type 0 where
  produces :
      (i : ℕ) (p p' : Producer) (s' : Shared)
      → i < np
      → w.prod i ≡ p
      → produce nitems w.shared p ≡ some (p', s')
      → Step np nc nitems w (record w {
        shared = s';
        prod = update w.prod i p';
        prodcount = update w.prodcount i (w.prodcount i + credit p);
      })
  consumes :
      (i : ℕ) (c c' : Consumer) (s' : Shared)
      → i < nc
      → w.cons i ≡ c
      → consume nitems w.shared c ≡ some (c', s')
      → Step np nc nitems w (record w {
        shared = s';
        cons = update w.cons i c';
        conscount = update w.conscount i (w.conscount i + cons_credit c);
      })

abbrev pub start : World
start = record {
  shared = initial;
  prod = λ i. at_empty;
  cons = λ i. at_stored;
  prodcount = λ i. 0;
  conscount = λ i. 0;
}

pub data Reach (np nc nitems : ℕ) : World → Type 0 where
  begins : Reach np nc nitems start
  later : {w w' : World} → Reach np nc nitems w → Step np nc nitems w w' → Reach np nc nitems w'
