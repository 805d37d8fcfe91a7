-- ===== src/ZhCheck/Lexer.antt =====
-- What the removal of C comments is for, byte by byte, on the list of the bytes of the source.
use com_tutor.Base.{
  ℕ, zero, suc, ◌+◌, Bool, false, ◌&&◌, ◌||◌, not, List, [], ◌∷◌, ◌==◌, if◌then◌else◌,
}
use com_tutor.ZhCheck.{Mem, backslash}

-- The bytes of a buffer.
unfoldable pub bytes : Mem → (from len : ℕ) → List ℕ
bytes m a zero = []
bytes m a (suc n) = m a ∷ bytes m (a + 1) n

-- Where a byte stands. `text` is a string literal, with whether its next byte is escaped. `char` is a
-- character literal by the bytes read of it: none, one (was it a backslash?), or more. `entering` and
-- `leaving` stand before the second byte of a comment's opening and closing, and `rest` is all that
-- follows the opening of a block comment that is never closed.
pub data Mode : Type 0 where
  code : Mode
  text : (escaped : Bool) → Mode
  char0 : Mode
  char1 : (escape : Bool) → Mode
  char2 : Mode
  line : Mode
  entering block leaving : Mode
  rest : Mode

abbrev pub starts_with : ℕ → List ℕ → Bool
starts_with c [] = false
starts_with c (x ∷ xs) = x == c

-- The closing of a block comment, somewhere ahead.
unfoldable pub has_close : List ℕ → Bool
has_close [] = false
has_close (x ∷ xs) = (x == b'*' && starts_with b'/' xs) || has_close xs

abbrev pub tail : List ℕ → List ℕ
tail [] = []
tail (x ∷ xs) = xs

-- One byte: what becomes of it, and where the next byte stands, with the bytes ahead.
unfoldable pub lex : Mode → ℕ → (ahead : List ℕ) → ℕ × Mode
lex code c ahead =
    if c == b'\''
    then (c, char0)
    else (if c == b'"'
        then (c, text false)
        else (if c == b'/' && starts_with b'/' ahead
            then (b' ', line)
            else (if c == b'/' && starts_with b'*' ahead
                then (if has_close (tail ahead) then (b' ', entering) else (c, rest))
                else (c, code))))
lex (text escaped) c ahead =
    if c == b'"' && not escaped then (c, code) else (c, text (c == backslash && not escaped))
lex char0 c ahead = if c == b'\'' then (c, code) else (c, char1 (c == backslash))
lex (char1 escape) c ahead = if c == b'\'' && not escape then (c, code) else (c, char2)
lex char2 c ahead = if c == b'\'' then (c, code) else (c, char2)
lex line c ahead =
    if c == b'\n'
    then (c, code)
    else (if c == b'\r' && starts_with b'\n' ahead then (c, line) else (b' ', line))
lex entering c ahead = (b' ', block)
lex block c ahead = if c == b'*' && starts_with b'/' ahead then (b' ', leaving) else (b' ', block)
lex leaving c ahead = (b' ', code)
lex rest c ahead = (c, rest)

-- The source with its comments blanked.
unfoldable pub strip : Mode → List ℕ → List ℕ
unfolding lex
strip m [] = []
strip m (c ∷ cs) = (lex m c cs).0 ∷ strip (lex m c cs).1 cs
