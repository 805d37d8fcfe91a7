-- ===== src/ZhCheck/Refines/Bytes.antt =====
-- The rounds of the loop that take one byte, mode by mode.
use com_tutor.Base.{
  ℕ, suc, ◌+◌, ◌-◌, ◌<◌, ◌≡◌, inl, inr, refl, sym, ◌∙◌, ap, Bool, true, false, ◌&&◌, not, ◌==◌,
  if◌then◌else◌, arith, Bool-cases,
}
use com_tutor.ZhCheck.{
  Mem, Flag, no_flags, c_func_map, proc, blank, backslash, slash_is_single, single_quote_proc,
  double_quote_proc, c_slash_proc, c_star_proc, end_proc,
}
use com_tutor.ZhCheck.Lexer.{
  Mode, code, text, char0, char1, char2, line, block, rest, bytes, starts_with, has_close, lex,
}
use com_tutor.ZhCheck.Refines.Steps.{before, Done, Done-step, bytes-blank}
use com_tutor.ZhCheck.Refines.Relation.{
  in_text, in_char, in_line, in_block, Rel, IsQuiet, Runs, slash_is_single_other,
  slash_is_single_next, starts_with-bytes,
}

module _ (k e : ℕ) (runs : Runs k e) (m : Mem) (p n : ℕ) (at : p + suc n ≡ e) (room : n < k)
    (quiet : IsQuiet (m e)) where
  at' : p + 1 + n ≡ e
  at' = omega (arith, at)

  pub below : p < e
  below = omega (arith, at)

  pub slash_ahead : (m (p + 1) == b'/') ≡ starts_with b'/' (bytes m (p + 1) n)
  slash_ahead = starts_with-bytes m p n e b'/' at' (quiet.0)

  pub star_ahead : (m (p + 1) == b'*') ≡ starts_with b'*' (bytes m (p + 1) n)
  star_ahead = starts_with-bytes m p n e b'*' at' (quiet.1)

  -- The end of the line.
  pub line_ends :
      (s end' : ℕ)
      → s < p
      → m p ≡ b'\n'
      → end' ≡ (if m (p - 1) == b'\r' then p - 1 else p)
      → Done line (suc k) e m p (in_line s) (suc n)
  unfolding end_proc lex bytes
  line_ends s end' lt nl ends =
      Done-step line code k e m (blank m s end') p (in_line s) no_flags n (m p) at (ground arith)
        (ground arith) (bytes-blank m s end' (p + 1) n (omega (arith, lt)) (ground arith))
        (ground arith) (λ a w. ground (arith, below, ap m))
        (runs code (blank m s end') (p + 1) n no_flags at' room (ground (arith, quiet, below)) refl)

  pub line_goes_on :
      (s : ℕ) → s < p → (m p == b'\n') ≡ false → Done line (suc k) e m p (in_line s) (suc n)
  unfolding single_quote_proc double_quote_proc c_slash_proc c_star_proc end_proc lex bytes
  line_goes_on s lt other =
      Done-step line line k e m m p (in_line s) (in_line s) n
        (if m p == b'\r' && starts_with b'\n' (bytes m (p + 1) n) then m p else b' ') at
        (ground (arith, other)) (ground (arith, other)) refl (ground (arith, lt))
        (λ a w. ground (arith, below, other))
        (runs line m (p + 1) n (in_line s) at' room quiet (s, refl, omega (arith, lt)))

  -- A round that changes nothing, outside every comment.
  pub stay :
      (mode mode' : Mode) (f f' : Flag)
      → proc c_func_map m p f ≡ (1, m, f')
      → lex mode (m p) (bytes m (p + 1) n) ≡ (m p, mode')
      → ((a : ℕ) → before f' m (p + 1) n a ≡ m a)
      → ((a : ℕ) → before f m p (suc n) a ≡ m a)
      → Rel mode' f' m (p + 1) n
      → Done mode (suc k) e m p f (suc n)
  stay mode mode' f f' step lexed plain' plain r =
      Done-step mode mode' k e m m p f f' n (m p) at step lexed refl (plain' p)
        (λ a w. plain' a ∙ sym (plain a)) (runs mode' m (p + 1) n f' at' room quiet r)

  pub char0_run : (s : ℕ) → p ≡ s + 1 → Done char0 (suc k) e m p (in_char s) (suc n)
  unfolding single_quote_proc double_quote_proc c_slash_proc c_star_proc end_proc lex
  char0_run s q = elim (Bool-cases (m p == b'\'')) [
    | inl same ↦
        stay char0 code (in_char s) no_flags (ground (arith, q)) (ground arith) (λ a. refl)
          (λ a. refl) refl
    | inr other ↦
        stay char0 (char1 (m p == backslash)) (in_char s) (in_char s) (ground (arith, other))
          (ground (arith, other)) (λ a. refl) (λ a. refl)
          (s, refl, omega (arith, q), ap (λ a. m a == backslash) (omega (arith, q)))
  ]

  pub char1_run :
      (b : Bool) (s : ℕ)
      → p ≡ s + 2
      → (m (s + 1) == backslash) ≡ b
      → Done (char1 b) (suc k) e m p (in_char s) (suc n)
  unfolding single_quote_proc double_quote_proc c_slash_proc c_star_proc end_proc lex
  char1_run b s q e' = elim (Bool-cases (m p == b'\'' && not b)) [
    | inl same ↦
        stay (char1 b) code (in_char s) no_flags (ground (arith, q, e')) (ground arith) (λ a. refl)
          (λ a. refl) refl
    | inr other ↦
        stay (char1 b) char2 (in_char s) (in_char s) (ground (arith, other, q, e'))
          (ground (arith, other)) (λ a. refl) (λ a. refl) (s, refl, omega (arith, q))
  ]

  pub char2_run : (s : ℕ) → s + 2 < p → Done char2 (suc k) e m p (in_char s) (suc n)
  unfolding single_quote_proc double_quote_proc c_slash_proc c_star_proc end_proc lex
  char2_run s q = elim (Bool-cases (m p == b'\'')) [
    | inl same ↦
        stay char2 code (in_char s) no_flags (ground (arith, q)) (ground arith) (λ a. refl)
          (λ a. refl) refl
    | inr other ↦
        stay char2 char2 (in_char s) (in_char s) (ground (arith, other)) (ground (arith, other))
          (λ a. refl) (λ a. refl) (s, refl, omega (arith, q))
  ]

  pub text_run :
      (b : Bool) (s : ℕ)
      → s < p
      → slash_is_single m (p - 1) ≡ b
      → Done (text b) (suc k) e m p (in_text s) (suc n)
  unfolding single_quote_proc double_quote_proc c_slash_proc c_star_proc end_proc lex
  text_run b s q e' = elim (Bool-cases (m p == b'"' && not b)) [
    | inl same ↦
        stay (text b) code (in_text s) no_flags (ground (arith, q, e')) (ground arith) (λ a. refl)
          (λ a. refl) refl
    | inr other ↦
        stay (text b) (text (m p == backslash && not b)) (in_text s) (in_text s)
          (ground (arith, other, q, e')) (ground (arith, other)) (λ a. refl) (λ a. refl)
          (s, refl, omega (arith, q), escapes)
  ]
    where
      escapes : slash_is_single m (p + 1 - 1) ≡ (m p == backslash && not b)
      escapes =
          let back : p + 1 - 1 ≡ p = omega arith in
          rw back
            (slash_is_single_next m p (omega (arith, q)) ∙ ap (λ c. m p == backslash && not c) e')

  -- In a block comment that is never closed.
  pub rest_run :
      (s : ℕ)
      → s < p
      → has_close (bytes m p (suc n)) ≡ false
      → Done rest (suc k) e m p (in_block s) (suc n)
  unfolding single_quote_proc double_quote_proc c_slash_proc c_star_proc end_proc lex has_close
      bytes
  rest_run s lt never =
      stay rest rest (in_block s) (in_block s) (ground (arith, slash_ahead, never)) refl
        (λ a. ground (arith, never)) (λ a. ground (arith, never))
        (s, refl, omega (arith, lt), ground (arith, never))

  -- In a block comment that is closed ahead, at a byte that does not begin its closing.
  pub block_goes_on :
      (s : ℕ)
      → s < p
      → has_close (bytes m p (suc n)) ≡ true
      → (m p == b'*' && starts_with b'/' (bytes m (p + 1) n)) ≡ false
      → Done block (suc k) e m p (in_block s) (suc n)
  unfolding single_quote_proc double_quote_proc c_slash_proc c_star_proc end_proc lex has_close
      bytes
  block_goes_on s lt closed here =
      Done-step block block k e m m p (in_block s) (in_block s) n b' ' at
        (ground (arith, slash_ahead, here)) (ground (arith, here)) refl
        (ground (arith, lt, closed, here)) (λ a w. ground (arith, below, closed, here))
        (runs block m (p + 1) n (in_block s) at' room quiet
          (s, refl, omega (arith, lt), ground (arith, closed, here)))

  -- A byte of the code that opens nothing.
  pub code_goes_on :
      (m p == b'\'') ≡ false
      → (m p == b'"') ≡ false
      → (m p == b'/' && starts_with b'/' (bytes m (p + 1) n)) ≡ false
      → (m p == b'/' && starts_with b'*' (bytes m (p + 1) n)) ≡ false
      → Done code (suc k) e m p no_flags (suc n)
  unfolding c_slash_proc c_star_proc end_proc lex
  code_goes_on q d sl st =
      stay code code no_flags no_flags (ground (arith, slash_ahead, star_ahead, q, d, sl, st))
        (ground (arith, q, d, sl, st)) (λ a. refl) (λ a. refl) refl

  pub code_quote : m p ≡ b'\'' → Done code (suc k) e m p no_flags (suc n)
  unfolding single_quote_proc lex
  code_quote q =
      stay code char0 no_flags (in_char p) (ground arith) (ground arith) (λ a. refl) (λ a. refl)
        (p, refl, refl)

  pub code_text : m p ≡ b'"' → Done code (suc k) e m p no_flags (suc n)
  unfolding double_quote_proc lex
  code_text q =
      stay code (text false) no_flags (in_text p) (ground arith) (ground arith) (λ a. refl)
        (λ a. refl)
        (
          p,
          refl,
          omega arith,
          (let back : p + 1 - 1 ≡ p = omega arith in
              rw back (slash_is_single_other m p (ground arith))),
        )
