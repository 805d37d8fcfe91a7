-- ===== src/Mycat/Safety.antt =====
-- What mycat2 writes.
use mathlib.Core.List.{append-nil}
use com_tutor.Base.{ℕ, ◌≡◌, sym, ◌∙◌, ap₂, List, [], ◌++◌, arith}
use com_tutor.Mycat.{ended}
use com_tutor.Mycat.Threads.{World, Reach}
use com_tutor.Mycat.Invariant.{segment}
use com_tutor.Mycat.Writes.{Reach-IsCat}

-- When the writer is done, the output is the file, and nothing of it is left to read.
pub output_is_file :
    (file : List ℕ) (w : World)
    → Reach file w
    → w.writer ≡ ended
    → (w.shared.output ≡ file) × (w.input ≡ [])
unfolding segment
output_is_file file w r e =
    let (a, n, h) = Reach-IsCat file w r in
    let (none_filled, over) = h.all e in
    let (none_left, q) = h.last (omega (arith, over)) in
    (
      sym (append-nil w.shared.output)
          ∙ ap₂ (λ k l. w.shared.output ++ (segment w.shared.buff a k ++ l)) (sym none_filled)
              (sym none_left)
          ∙ h.content,
      none_left,
    )
