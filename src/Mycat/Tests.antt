-- ===== src/Mycat/Tests.antt =====
-- Runs of mycat2 on a file of three bytes, one byte a Read.
use com_tutor.Base.{
  ℕ, ◌≡◌, ◌≢◌, ◌⊎◌, refl, sym, ◌∙◌, subst, Bool, true, false, Option, none, some, List, [], ◌∷◌,
  ◌++◌, arith,
}
use com_tutor.Mycat.{
  Shared, Reader, at_empty, at_mutex, critical, reading, posting, ending, finished, produce, Writer,
  ended, consume,
}
use com_tutor.Mycat.Threads.{World, produces, reads, consumes, start, Reach, begins, later}
use com_tutor.Mycat.Safety.{output_is_file}
use com_tutor.Mycat.Progress.{Goes, cat_never_stuck}

abbrev first : List ℕ → List ℕ
first [] = []
first (b ∷ l) = b ∷ []

abbrev others : List ℕ → List ℕ
others [] = []
others (b ∷ l) = l

abbrev moved : World → List ℕ → Option (Reader × ℕ × Shared) → World
moved w l none = w
moved w l (some (p, i, s)) = record w { shared = s; reader = p; put_at = i; input = l }

abbrev read_step : World → Reader → World
read_step w reading = moved w (others w.input) (produce (first w.input) w.shared w.put_at reading)
read_step w p = moved w w.input (produce [] w.shared w.put_at p)

abbrev written_step : World → Option (Writer × ℕ × Shared) → World
written_step w none = w
written_step w (some (c, i, s)) = record w { shared = s; writer = c; get_at = i }

-- The state after a schedule, the last choice first: `true` is the reader.
unfoldable after : List ℕ → List Bool → World
after file [] = start file
after file (true ∷ l) = let w = after file l in read_step w w.reader
after file (false ∷ l) = let w = after file l in written_step w (consume w.shared w.get_at w.writer)

module _ (file : List ℕ) (w : World) (r : Reach file w) where
  moved-Reach :
      (q : Option (Reader × ℕ × Shared))
      → w.reader ≢ reading
      → produce [] w.shared w.put_at w.reader ≡ q
      → Reach file (moved w w.input q)
  moved-Reach none ne e = r
  moved-Reach (some (p, i, s)) ne e = later r (produces p i s ne e)

  reading-Reach :
      (l : List ℕ)
      → w.input ≡ l
      → w.reader ≡ reading
      → (q : Option (Reader × ℕ × Shared)) → produce (first l) w.shared w.put_at reading ≡ q
      → Reach file (moved w (others l) q)
  reading-Reach l e e' none q = r
  reading-Reach [] e e' (some (p, i, s)) q =
      later r (reads [] [] p i s e' e (omega arith) (λ o. refl) q)
  reading-Reach (b ∷ l) e e' (some (p, i, s)) q =
      later r (reads (b ∷ []) l p i s e' e (omega arith) (λ o. ground (arith, o)) q)

  other-Reach :
      (p : Reader)
      → w.reader ≡ p
      → p ≢ reading
      → Reach file (moved w w.input (produce [] w.shared w.put_at p))
  other-Reach p e ne =
      subst (λ x. Reach file (moved w w.input (produce [] w.shared w.put_at x))) e
        (moved-Reach (produce [] w.shared w.put_at w.reader) (λ o. ne (sym e ∙ o)) refl)

  read_step-Reach : (p : Reader) → w.reader ≡ p → Reach file (read_step w p)
  read_step-Reach reading e =
      reading-Reach w.input refl e (produce (first w.input) w.shared w.put_at reading) refl
  read_step-Reach at_empty e = other-Reach at_empty e (ground arith)
  read_step-Reach at_mutex e = other-Reach at_mutex e (ground arith)
  read_step-Reach critical e = other-Reach critical e (ground arith)
  read_step-Reach posting e = other-Reach posting e (ground arith)
  read_step-Reach ending e = other-Reach ending e (ground arith)
  read_step-Reach finished e = other-Reach finished e (ground arith)

  written_step-Reach :
      (q : Option (Writer × ℕ × Shared))
      → consume w.shared w.get_at w.writer ≡ q
      → Reach file (written_step w q)
  written_step-Reach none e = r
  written_step-Reach (some (c, i, s)) e = later r (consumes c i s e)

after-Reach : (file : List ℕ) (l : List Bool) → Reach file (after file l)
unfolding after
after-Reach file [] = begins
after-Reach file (true ∷ l) =
    read_step-Reach file (after file l) (after-Reach file l) (after file l).reader refl
after-Reach file (false ∷ l) =
    written_step-Reach file (after file l) (after-Reach file l)
      (consume (after file l).shared (after file l).get_at (after file l).writer) refl

abbrev six : Bool → List Bool
six b = b ∷ b ∷ b ∷ b ∷ b ∷ b ∷ []

-- The reader runs until it is done, then the writer.
abbrev whole : List Bool
whole =
    six false ++ six false ++ six false ++ six false ++ six true ++ six true ++ six true ++ six true

abbrev file : List ℕ
file = 104 ∷ 105 ∷ 10 ∷ []

whole_writer : (after file whole).writer ≡ ended
unfolding after produce consume
whole_writer = refl

whole_output : (after file whole).shared.output ≡ file
unfolding after produce consume
whole_output = refl

output_is_file_example : ((after file whole).shared.output ≡ file) × ((after file whole).input ≡ [])
output_is_file_example =
    output_is_file file (after file whole) (after-Reach file whole) whole_writer

cat_never_stuck_example :
    Goes (after file (six true))
    ⊎ (((after file (six true)).reader ≡ finished) × ((after file (six true)).writer ≡ ended))
cat_never_stuck_example = cat_never_stuck file (after file (six true)) (after-Reach file (six true))
