-- ===== src/Prodcons/Tests.antt =====
-- Runs of one producer and one consumer.
use com_tutor.Base.{
  ℕ, suc, zero, ◌+◌, ◌*◌, ◌%◌, ◌≤◌, ◌<◌, ◌≡◌, ◌⊎◌, refl, Bool, true, false, Option, none, some,
  List, [], ◌∷◌, ◌++◌, update, arith,
}
use com_tutor.Prodcons.{Shared, nbuff, Producer, finished, produce, Consumer, ended, consume}
use com_tutor.Prodcons.Threads.{
  World, credit, cons_credit, produces, consumes, start, Reach, begins, later,
}
use com_tutor.Prodcons.Safety.{items_kept}
use com_tutor.Prodcons.Ends.{steps, runs_end}
use com_tutor.Prodcons.Moves.{Goes}
use com_tutor.Prodcons.Progress.{never_stuck, IsDone}

abbrev produced : World → Option (Producer × Shared) → World
produced w none = w
produced w (some (p, s)) = record w {
  shared = s;
  prod = update w.prod 0 p;
  prodcount = update w.prodcount 0 (w.prodcount 0 + credit (w.prod 0));
}

abbrev consumed : World → Option (Consumer × Shared) → World
consumed w none = w
consumed w (some (c, s)) = record w {
  shared = s;
  cons = update w.cons 0 c;
  conscount = update w.conscount 0 (w.conscount 0 + cons_credit (w.cons 0));
}

-- The state after a schedule, the last choice first: `true` is the producer.
unfoldable after : ℕ → List Bool → World
after nitems [] = start
after nitems (true ∷ l) = let w = after nitems l in produced w (produce nitems w.shared (w.prod 0))
after nitems (false ∷ l) = let w = after nitems l in consumed w (consume nitems w.shared (w.cons 0))

after-Reach : (nitems : ℕ) (l : List Bool) → Reach 1 1 nitems (after nitems l)
unfolding after
after-Reach nitems [] = begins
after-Reach nitems (true ∷ l) =
    look (produce nitems (after nitems l).shared ((after nitems l).prod 0)) refl
      (after-Reach nitems l)
  where
    look :
        (r : Option (Producer × Shared))
        → produce nitems (after nitems l).shared ((after nitems l).prod 0) ≡ r
        → Reach 1 1 nitems (after nitems l)
        → Reach 1 1 nitems (produced (after nitems l) r)
    look none q h = h
    look (some (p, s)) q h = later h (produces 0 _ p s (omega arith) refl q)
after-Reach nitems (false ∷ l) =
    look (consume nitems (after nitems l).shared ((after nitems l).cons 0)) refl
      (after-Reach nitems l)
  where
    look :
        (r : Option (Consumer × Shared))
        → consume nitems (after nitems l).shared ((after nitems l).cons 0) ≡ r
        → Reach 1 1 nitems (after nitems l)
        → Reach 1 1 nitems (consumed (after nitems l) r)
    look none q h = h
    look (some (c, s)) q h = later h (consumes 0 _ c s (omega arith) refl q)

abbrev eight : Bool → List Bool
eight b = b ∷ b ∷ b ∷ b ∷ b ∷ b ∷ b ∷ b ∷ []

-- One item: the producer runs until it is done, then the consumer.
abbrev whole : List Bool
whole = eight false ++ eight false ++ eight true ++ eight true

whole_put : (after 1 whole).prod 0 ≡ finished
unfolding after produce consume
whole_put = refl

whole_got : (after 1 whole).cons 0 ≡ ended
unfolding after produce consume
whole_got = refl

items_kept_example :
    ((after 2 (eight true)).shared.errors ≡ 0)
    × ((after 2 (eight true)).shared.nget ≤ (after 2 (eight true)).shared.nput)
    × ((after 2 (eight true)).shared.nput ≤ (after 2 (eight true)).shared.nget + nbuff)
    × ((after 2 (eight true)).shared.nput ≤ 2)
    × ((i : ℕ)
        → (after 2 (eight true)).shared.nget ≤ i
        → i < (after 2 (eight true)).shared.nput
        → (after 2 (eight true)).shared.buff (i % nbuff) ≡ i)
items_kept_example = items_kept 1 1 2 (after 2 (eight true)) (after-Reach 2 (eight true))

put_done : (i : ℕ) → i < 1 → (after 1 whole).prod i ≡ finished
put_done zero h = whole_put
put_done (suc i) h = absurd (omega (arith, h))

got_done : (i : ℕ) → i < 1 → (after 1 whole).cons i ≡ ended
got_done zero h = whole_got
got_done (suc i) h = absurd (omega (arith, h))

never_stuck_example : Goes 1 1 2 (after 2 (eight true)) ⊎ IsDone 1 1 (after 2 (eight true))
never_stuck_example =
    never_stuck 1 1 2 (after 2 (eight true)) (after-Reach 2 (eight true)) (omega arith)
      (omega arith)

runs_end_example : steps (after-Reach 1 whole) ≤ 10 * 1 + 5 * 1 + 4 * 1
runs_end_example = runs_end 1 1 1 (after 1 whole) (after-Reach 1 whole)
