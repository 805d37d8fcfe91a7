-- ===== src/ZhCheck/Refines/Pairs.antt =====
-- The rounds of the loop that take two bytes: the opening of a comment, and the closing of a block.
use com_tutor.Base.{ℕ, suc, ◌+◌, ◌<◌, ◌≡◌, refl, true, false, arith}
use com_tutor.ZhCheck.{Mem, no_flags, blank, c_slash_proc, c_star_proc}
use com_tutor.ZhCheck.Lexer.{code, line, entering, block, leaving, rest, bytes, has_close, lex}
use com_tutor.ZhCheck.Refines.Steps.{Done, Done-step_two, bytes-blank}
use com_tutor.ZhCheck.Refines.Relation.{in_line, in_block, IsQuiet, Runs}

-- The rounds that take two bytes.
module _ (k e : ℕ) (runs : Runs k e) (m : Mem) (p n : ℕ) (at : p + suc (suc n) ≡ e)
    (room : suc n < k) (quiet : IsQuiet (m e)) where
  pub at_two : p + 2 + n ≡ e
  at_two = omega (arith, at)

  pub block_ends :
      (s : ℕ)
      → s < p
      → m p ≡ b'*'
      → m (p + 1) ≡ b'/'
      → Done block (suc k) e m p (in_block s) (suc (suc n))
  unfolding c_star_proc lex bytes has_close
  block_ends s lt star slash =
      Done-step_two block leaving code k e m (blank m s (p + 2)) p (in_block s) no_flags n b' ' b' '
        at (ground arith) (ground arith) refl
        (bytes-blank m s (p + 2) (p + 2) n (omega (arith, lt)) (omega arith)) (ground (arith, lt))
        (ground (arith, lt)) (λ a w. ground (arith, at, star, slash))
        (runs code (blank m s (p + 2)) (p + 2) n no_flags at_two (omega (arith, room))
          (ground (arith, quiet, at)) refl)

  pub code_line : m p ≡ b'/' → m (p + 1) ≡ b'/' → Done code (suc k) e m p no_flags (suc (suc n))
  unfolding c_slash_proc lex bytes
  code_line first second =
      Done-step_two code line line k e m m p no_flags (in_line p) n b' ' b' ' at (ground arith)
        (ground arith) (ground arith) refl (ground arith) (ground arith) (λ a w. ground (arith, at))
        (runs line m (p + 2) n (in_line p) at_two (omega (arith, room)) quiet
          (p, refl, omega arith))

  pub code_block :
      m p ≡ b'/'
      → m (p + 1) ≡ b'*'
      → has_close (bytes m (p + 2) n) ≡ true
      → Done code (suc k) e m p no_flags (suc (suc n))
  unfolding c_slash_proc lex bytes
  code_block first second closed =
      let two : p + 1 + 1 ≡ p + 2 = omega arith in
      let closed_ahead : has_close (bytes m (p + 1 + 1) n) ≡ true = rw two closed in
      Done-step_two code entering block k e m m p no_flags (in_block p) n b' ' b' ' at
        (ground arith) (ground (arith, closed_ahead)) refl refl (ground (arith, closed))
        (ground (arith, closed)) (λ a w. ground (arith, at))
        (runs block m (p + 2) n (in_block p) at_two (omega (arith, room)) quiet
          (p, refl, omega arith, closed))

  pub code_rest :
      m p ≡ b'/'
      → m (p + 1) ≡ b'*'
      → has_close (bytes m (p + 2) n) ≡ false
      → Done code (suc k) e m p no_flags (suc (suc n))
  unfolding c_slash_proc lex bytes
  code_rest first second never =
      let two : p + 1 + 1 ≡ p + 2 = omega arith in
      let never_ahead : has_close (bytes m (p + 1 + 1) n) ≡ false = rw two never in
      Done-step_two code rest rest k e m m p no_flags (in_block p) n b'/' b'*' at (ground arith)
        (ground (arith, never_ahead)) (ground arith) refl (ground (arith, never))
        (ground (arith, never)) (λ a w. ground (arith, at, never))
        (runs rest m (p + 2) n (in_block p) at_two (omega (arith, room)) quiet
          (p, refl, omega arith, never))
