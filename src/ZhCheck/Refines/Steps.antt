-- ===== src/ZhCheck/Refines/Steps.antt =====
-- One round of the loop against one byte, or two, of `Lexer.strip`.
use com_tutor.Base.{
  ℕ, zero, suc, ◌+◌, ◌≤◌, ◌<◌, ◌≡◌, ◌⊎◌, inl, refl, ◌∙◌, ap, ap₂, ◌&&◌, none, some, ◌∷◌, ltb, leb,
  ◌==◌, if◌then◌else◌, arith, lt→ltb, le→ltb,
}
use com_tutor.ZhCheck.{Mem, Flag, c_func_map, proc, scan, finish, complete, blank}
use com_tutor.ZhCheck.Lexer.{Mode, bytes, starts_with, has_close, lex, strip}

-- What the end of the run leaves at an address before `p`: the bytes of a line comment that is open
-- are blanked, less a carriage return at the end of the line; those of a block comment that is open
-- are blanked if it is closed among the `n` bytes ahead.
abbrev pub before : Flag → Mem → (p n : ℕ) → ℕ → ℕ
before f m p n a = elim f.line_annotation [
  | some s ↦
      if leb s a && ltb a p
      then (if a + 1 == p && m a == b'\r' && starts_with b'\n' (bytes m p n) then m a else b' ')
      else m a
  | none ↦ elim f.block_annotation [
    | some s ↦ if has_close (bytes m p n) && leb s a && ltb a p then b' ' else m a
    | none ↦ m a
  ]
]

-- The loop runs to the end, with `k` rounds, from `p`, `n` bytes before the end `e`.
pub record Done (mode : Mode) (k e : ℕ) (m : Mem) (p : ℕ) (f : Flag) (n : ℕ) : Type 0 where
  pub after : Mem
  pub runs : complete (scan c_func_map k e m p f) ≡ some after
  pub text_ahead : bytes after p n ≡ strip mode (bytes m p n)
  pub outside : (a : ℕ) → (a < p) ⊎ (e ≤ a) → after a ≡ before f m p n a

pub Done-end : (mode : Mode) (k : ℕ) (m : Mem) (p : ℕ) (f : Flag) → Done mode (suc k) p m p f 0
unfolding scan strip bytes has_close
Done-end phase k m p f = record {
  after = finish (p, m, f);
  runs = rw (le→ltb p p (omega arith)) refl;
  text_ahead = refl;
  outside = λ a w. ground arith;
}

module _ (mode mode' : Mode) (k e : ℕ) (m m' : Mem) (p : ℕ) (f f' : Flag) (n : ℕ) where
  pub Done-step :
      (o : ℕ)
      → p + suc n ≡ e
      → proc c_func_map m p f ≡ (1, m', f')
      → lex mode (m p) (bytes m (p + 1) n) ≡ (o, mode')
      → bytes m' (p + 1) n ≡ bytes m (p + 1) n
      → before f' m' (p + 1) n p ≡ o
      → ((a : ℕ) → (a < p) ⊎ (e ≤ a) → before f' m' (p + 1) n a ≡ before f m p (suc n) a)
      → Done mode' k e m' (p + 1) f' n
      → Done mode (suc k) e m p f (suc n)
  unfolding scan strip bytes
  Done-step o at step lexed same here there d = record {
    after = d.after;
    runs = rw (lt→ltb p e (omega arith), step) d.runs;
    text_ahead = rw lexed (
        ap₂ (λ b bs. b ∷ bs) (d.outside p (inl (omega arith)) ∙ here)
          (d.text_ahead ∙ ap (strip mode') same));
    outside = λ a h. d.outside a (ground arith) ∙ there a h;
  }

module _ (mode via mode' : Mode) (k e : ℕ) (m m' : Mem) (p : ℕ) (f f' : Flag) (n : ℕ) where
  -- A round that goes on by two bytes.
  pub Done-step_two :
      (o o' : ℕ)
      → p + suc (suc n) ≡ e
      → proc c_func_map m p f ≡ (2, m', f')
      → lex mode (m p) (bytes m (p + 1) (suc n)) ≡ (o, via)
      → lex via (m (p + 1)) (bytes m (p + 2) n) ≡ (o', mode')
      → bytes m' (p + 2) n ≡ bytes m (p + 2) n
      → before f' m' (p + 2) n p ≡ o
      → before f' m' (p + 2) n (p + 1) ≡ o'
      → ((a : ℕ) → (a < p) ⊎ (e ≤ a) → before f' m' (p + 2) n a ≡ before f m p (suc (suc n)) a)
      → Done mode' k e m' (p + 2) f' n
      → Done mode (suc k) e m p f (suc (suc n))
  unfolding scan strip bytes
  Done-step_two o o' at step lexed lexed' same here next there d =
      let two : p + 1 + 1 ≡ p + 2 = omega arith in
      record {
        after = d.after;
        runs = rw (lt→ltb p e (omega arith), step) d.runs;
        text_ahead =
            rw (lexed, two, lexed')
              (ap₂ (λ b bs. b ∷ bs) (d.outside p (inl (omega arith)) ∙ here)
                (ap₂ (λ b bs. b ∷ bs) (d.outside (p + 1) (inl (omega arith)) ∙ next)
                  (d.text_ahead ∙ ap (strip mode') same)));
        outside = λ a h. d.outside a (ground arith) ∙ there a h;
      }

-- Blanking below an address leaves the bytes from there on.
pub bytes-blank :
    (m : Mem) (s end' a n : ℕ) → s ≤ a → end' ≤ a → bytes (blank m s end') a n ≡ bytes m a n
unfolding bytes
bytes-blank m s end' a zero h g = refl
bytes-blank m s end' a (suc n) h g =
    ap₂ (λ b bs. b ∷ bs) (ground arith)
      (bytes-blank m s end' (a + 1) n (omega (arith, h)) (omega (arith, g)))
