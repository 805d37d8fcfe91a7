-- ===== src/ZhCheck/Refines/Relation.antt =====
-- How the flags of the code stand to the modes of the lexer.
use com_tutor.Base.{
  ℕ, zero, suc, ◌+◌, ◌-◌, ◌<◌, ◌≡◌, ◌≢◌, refl, true, false, ◌&&◌, not, some, ◌==◌, arith, ne→==,
}
use com_tutor.ZhCheck.{Mem, Flag, no_flags, backslash, backslashes, slash_is_single}
use com_tutor.ZhCheck.Lexer.{
  Mode, code, text, char0, char1, char2, line, block, rest, bytes, starts_with, has_close,
}
use com_tutor.ZhCheck.Refines.Steps.{Done}

abbrev pub in_text : ℕ → Flag
in_text s = record no_flags { double_quote = some s }

abbrev pub in_char : ℕ → Flag
in_char s = record no_flags { single_quote = some s }

abbrev pub in_line : ℕ → Flag
in_line s = record no_flags { line_annotation = some s }

abbrev pub in_block : ℕ → Flag
in_block s = record no_flags { block_annotation = some s }

-- The flags of the code in each mode of the lexer; `n` bytes are ahead of `p`.
abbrev pub Rel : Mode → Flag → Mem → (p n : ℕ) → Type 0
Rel code f m p n = f ≡ no_flags
Rel (text b) f m p n = (s : ℕ) × (f ≡ in_text s) × (s < p) × (slash_is_single m (p - 1) ≡ b)
Rel char0 f m p n = (s : ℕ) × (f ≡ in_char s) × (p ≡ s + 1)
Rel (char1 b) f m p n = (s : ℕ) × (f ≡ in_char s) × (p ≡ s + 2) × ((m (s + 1) == backslash) ≡ b)
Rel char2 f m p n = (s : ℕ) × (f ≡ in_char s) × (s + 2 < p)
Rel line f m p n = (s : ℕ) × (f ≡ in_line s) × (s < p)
Rel block f m p n = (s : ℕ) × (f ≡ in_block s) × (s < p) × (has_close (bytes m p n) ≡ true)
Rel rest f m p n = (s : ℕ) × (f ≡ in_block s) × (s < p) × (has_close (bytes m p n) ≡ false)
Rel _ f m p n = ⊥

-- The byte behind the buffer does not look like the second byte of a comment's opening or closing.
abbrev pub IsQuiet : ℕ → Type 0
IsQuiet c = (c ≢ b'/') × (c ≢ b'*')

-- The runs with `k` rounds.
abbrev pub Runs : (k e : ℕ) → Type 0
Runs k e =
    (mode : Mode) (m : Mem) (p n : ℕ) (f : Flag)
    → p + n ≡ e
    → n < k
    → IsQuiet (m e)
    → Rel mode f m p n
    → Done mode k e m p f n

-- What a run of zero or more backslashes before a byte says of it.
pub slash_is_single_other :
    (m : Mem) (a : ℕ) → (m a == backslash) ≡ false → slash_is_single m a ≡ false
unfolding slash_is_single backslashes
slash_is_single_other m zero h = rw h refl
slash_is_single_other m (suc a) h = rw h refl

pub slash_is_single_next :
    (m : Mem) (p : ℕ)
    → 0 < p
    → slash_is_single m p ≡ (m p == backslash && not (slash_is_single m (p - 1)))
unfolding slash_is_single backslashes
slash_is_single_next m zero h = absurd (omega arith)
slash_is_single_next m (suc a) h = let e : suc a - 1 ≡ a = omega arith in rw e (ground arith)

-- A byte that is sought right behind `p` is not the one behind the buffer.
pub starts_with-bytes :
    (m : Mem) (p n e c : ℕ)
    → p + 1 + n ≡ e
    → m e ≢ c
    → (m (p + 1) == c) ≡ starts_with c (bytes m (p + 1) n)
unfolding bytes
starts_with-bytes m p zero e c at differs =
    let q : p + 1 ≡ e = omega (arith, at) in rw q (ne→== (m e) c differs)
starts_with-bytes m p (suc n) e c at differs = refl
