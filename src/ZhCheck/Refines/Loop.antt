-- ===== src/ZhCheck/Refines/Loop.antt =====
-- The induction on the rounds of the loop.
use com_tutor.Base.{
  ℕ, zero, suc, ◌+◌, ◌≤◌, ◌<◌, ◌≡◌, ◌⊎◌, inl, inr, refl, true, ◌&&◌, some, ◌==◌, arith, Bool-cases,
  ==→eq, subst,
}
use com_tutor.ZhCheck.{Mem, Flag, no_flags, remove_c_annotation, remove_annotation}
use com_tutor.ZhCheck.Lexer.{
  Mode, code, text, char0, char1, char2, line, entering, block, leaving, rest, bytes, has_close,
  strip,
}
use com_tutor.ZhCheck.Refines.Steps.{Done, Done-end}
use com_tutor.ZhCheck.Refines.Relation.{in_line, in_block, Rel, IsQuiet, Runs}
use com_tutor.ZhCheck.Refines.Bytes.{
  line_ends, line_goes_on, char0_run, char1_run, char2_run, text_run, rest_run, block_goes_on,
  code_goes_on, code_quote, code_text,
}
use com_tutor.ZhCheck.Refines.Pairs.{block_ends, code_line, code_block, code_rest}

module _ (k e : ℕ) (runs : Runs k e) (m : Mem) (p : ℕ) (quiet : IsQuiet (m e)) where
  block_run :
      (n : ℕ) (s : ℕ)
      → p + suc n ≡ e
      → n < k
      → s < p
      → has_close (bytes m p (suc n)) ≡ true
      → Done block (suc k) e m p (in_block s) (suc n)
  unfolding bytes
  block_run zero s at room lt closed =
      block_goes_on k e runs m p zero at room quiet s lt closed (ground arith)
  block_run (suc n) s at room lt closed = elim (Bool-cases (m p == b'*' && m (p + 1) == b'/')) [
    | inl ends ↦
        block_ends k e runs m p n at room quiet s lt (ground (arith, ends)) (ground (arith, ends))
    | inr other ↦ block_goes_on k e runs m p (suc n) at room quiet s lt closed other
  ]

  line_run :
      (n : ℕ) (s : ℕ) → p + suc n ≡ e → n < k → s < p → Done line (suc k) e m p (in_line s) (suc n)
  line_run n s at room lt = elim (Bool-cases (m p == b'\n')) [
    | inl ends ↦ line_ends k e runs m p n at room quiet s _ lt (==→eq (m p) b'\n' ends) refl
    | inr other ↦ line_goes_on k e runs m p n at room quiet s lt other
  ]

  -- A slash in the code.
  slash_run :
      (n : ℕ) → p + suc n ≡ e → n < k → m p ≡ b'/' → Done code (suc k) e m p no_flags (suc n)
  unfolding bytes
  slash_run zero at room slash =
      code_goes_on k e runs m p zero at room quiet (ground arith) (ground arith) (ground arith)
        (ground arith)
  slash_run (suc n) at room slash = elim (Bool-cases (m (p + 1) == b'/')) [
    | inl first ↦ code_line k e runs m p n at room quiet slash (==→eq _ _ first)
    | inr no_line ↦ elim (Bool-cases (m (p + 1) == b'*')) [
      | inr no_block ↦
          code_goes_on k e runs m p (suc n) at room quiet (ground arith) (ground arith)
            (ground (arith, no_line)) (ground (arith, no_block))
      | inl opens ↦ elim (Bool-cases (has_close (bytes m (p + 2) n))) [
        | inl closed ↦ code_block k e runs m p n at room quiet slash (==→eq _ _ opens) closed
        | inr never ↦ code_rest k e runs m p n at room quiet slash (==→eq _ _ opens) never
      ]
    ]
  ]

  code_run : (n : ℕ) → p + suc n ≡ e → n < k → Done code (suc k) e m p no_flags (suc n)
  code_run n at room = elim (Bool-cases (m p == b'\'')) [
    | inl q ↦ code_quote k e runs m p n at room quiet (==→eq _ _ q)
    | inr no_quote ↦ elim (Bool-cases (m p == b'"')) [
      | inl d ↦ code_text k e runs m p n at room quiet (==→eq _ _ d)
      | inr no_text ↦ elim (Bool-cases (m p == b'/')) [
        | inl slash ↦ slash_run n at room (==→eq _ _ slash)
        | inr no_slash ↦
            code_goes_on k e runs m p n at room quiet no_quote no_text (ground (arith, no_slash))
              (ground (arith, no_slash))
      ]
    ]
  ]

  mode_run :
      (mode : Mode) (n : ℕ) (f : Flag)
      → p + suc n ≡ e
      → n < k
      → Rel mode f m p (suc n)
      → Done mode (suc k) e m p f (suc n)
  mode_run code n f at room r = rw r (code_run n at room)
  mode_run (text b) n f at room (s, r, lt, q) =
      rw r (text_run k e runs m p n at room quiet b s lt q)
  mode_run char0 n f at room (s, r, q) = rw r (char0_run k e runs m p n at room quiet s q)
  mode_run (char1 b) n f at room (s, r, q, b') =
      rw r (char1_run k e runs m p n at room quiet b s q b')
  mode_run char2 n f at room (s, r, q) = rw r (char2_run k e runs m p n at room quiet s q)
  mode_run line n f at room (s, r, lt) = rw r (line_run n s at room lt)
  mode_run block n f at room (s, r, lt, closed) = rw r (block_run n s at room lt closed)
  mode_run rest n f at room (s, r, lt, never) =
      rw r (rest_run k e runs m p n at room quiet s lt never)
  mode_run entering n f at room r = elim r [ ]
  mode_run leaving n f at room r = elim r [ ]

-- With more rounds than bytes ahead, the loop runs to the end.
pub run : (k e : ℕ) → Runs k e
run zero e phase m p n f at room quiet r = absurd (omega (arith, room))
run (suc k) e phase m p zero f at room quiet r =
    let last : p ≡ e = omega (arith, at) in
    subst (λ x. Done phase (suc k) x m p f 0) last (Done-end phase k m p f)
run (suc k) e phase m p (suc n) f at room quiet r =
    mode_run k e (run k e) m p quiet phase n f at (omega (arith, room)) r

-- remove_c_annotation on a buffer: it ends, the buffer holds the source with its comments blanked as
-- the lexer says, and no byte outside the buffer is written. The byte behind the buffer is neither a
-- slash nor a star: the code reads it.
pub remove_c_strips :
    (m : Mem) (buf size : ℕ)
    → IsQuiet (m (buf + size))
    → (m' : Mem) × (remove_c_annotation m buf size ≡ some m')
      × (bytes m' buf size ≡ strip code (bytes m buf size))
      × ((a : ℕ) → (a < buf) ⊎ (buf + size ≤ a) → m' a ≡ m a)
unfolding remove_annotation
remove_c_strips m buf size quiet =
    let d = run (size + 1) (buf + size) code m buf size no_flags refl (omega arith) quiet refl in
    (d.after, d.runs, d.text_ahead, d.outside)
