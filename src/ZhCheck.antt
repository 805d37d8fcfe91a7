-- ===== src/ZhCheck.antt =====
-- item/check_zh_cn/zh_str_check.c: the removal of comments from a C, Lua or Python source held in a
-- buffer, and the search for bytes that are not ASCII. This file has the memory and the parts for C and
-- Lua.
pub mod Lexer
pub mod Blanks
pub mod Python
pub mod Check
pub mod Refines
mod Tests
use com_tutor.Base.{
  ℕ, zero, suc, ◌+◌, ◌-◌, Bool, true, false, ◌&&◌, ◌||◌, not, Option, none, some, List, [], ◌∷◌,
  ltb, leb, ◌==◌, if◌then◌else◌,
}

-- The bytes of the process, by address.
abbrev pub Mem : Type 0
Mem = ℕ → ℕ

abbrev pub backslash : ℕ
backslash = 92

-- memset of `len` bytes from `from` with a space.
abbrev pub memset : Mem → (from len : ℕ) → Mem
memset m from len a = if leb from a && ltb a (from + len) then b' ' else m a

-- `AnnotationFlag`: where the literal or the comment that is open begins; NULL is `none`.
pub record Flag : Type 0 where
  pub single_quote : Option ℕ
  pub double_quote : Option ℕ
  pub line_annotation : Option ℕ
  pub block_annotation : Option ℕ

abbrev pub no_flags : Flag
no_flags = record {
  single_quote = none;
  double_quote = none;
  line_annotation = none;
  block_annotation = none;
}

abbrev pub is_set : Option ℕ → Bool
is_set none = false
is_set (some p) = true

-- A function of the table: by how far to go on, and what it leaves.
abbrev pub AnnoProcFunc : Type 0
AnnoProcFunc = Mem → (offset : ℕ) → Flag → ℕ × Mem × Flag

-- The backslashes that end at an address.
unfoldable pub backslashes : Mem → ℕ → ℕ
backslashes m zero = if m 0 == backslash then 1 else 0
backslashes m (suc a) = let rest = backslashes m a in if m (suc a) == backslash then suc rest else 0

abbrev pub is_odd : ℕ → Bool
is_odd zero = false
is_odd (suc n) = not (is_odd n)

-- `slash_is_single`: their number is odd.
unfoldable pub slash_is_single : Mem → ℕ → Bool
unfolding backslashes
slash_is_single m a = is_odd (backslashes m a)

unfoldable pub single_quote_proc : AnnoProcFunc
single_quote_proc m offset f =
    if is_set f.double_quote || is_set f.line_annotation || is_set f.block_annotation
    then (1, m, f)
    else elim f.single_quote [
      | none ↦ (1, m, record f { single_quote = some offset })
      | some s ↦
          if offset - s == 2 && m (s + 1) == backslash
          then (1, m, f)
          else (1, m, record f { single_quote = none })
    ]

unfoldable pub double_quote_proc : AnnoProcFunc
double_quote_proc m offset f =
    if is_set f.single_quote || is_set f.line_annotation || is_set f.block_annotation
    then (1, m, f)
    else elim f.double_quote [
      | none ↦ (1, m, record f { double_quote = some offset })
      | some s ↦
          if slash_is_single m (offset - 1)
          then (1, m, f)
          else (1, m, record f { double_quote = none })
    ]

abbrev pub is_open : Flag → Bool
is_open f =
    is_set f.single_quote
    || is_set f.double_quote
    || is_set f.line_annotation
    || is_set f.block_annotation

unfoldable pub c_slash_proc : AnnoProcFunc
c_slash_proc m offset f =
    if is_open f
    then (1, m, f)
    else (if m (offset + 1) == b'/'
        then (2, m, record f { line_annotation = some offset })
        else (if m (offset + 1) == b'*'
            then (2, m, record f { block_annotation = some offset })
            else (1, m, f)))

-- Blank a comment from its beginning, `start`, to the address `end`.
abbrev pub blank : Mem → (start end' : ℕ) → Mem
blank m start end' = memset m start (end' - start)

unfoldable pub c_star_proc : AnnoProcFunc
c_star_proc m offset f =
    if is_set f.single_quote || is_set f.double_quote || is_set f.line_annotation
    then (1, m, f)
    else elim f.block_annotation [
      | none ↦ (1, m, f)
      | some s ↦
          if m (offset + 1) == b'/'
          then (2, blank m s (offset + 2), record f { block_annotation = none })
          else (1, m, f)
    ]

unfoldable pub end_proc : AnnoProcFunc
end_proc m offset f = elim f.line_annotation [
  | none ↦ (1, m, f)
  | some s ↦ (
    1,
    blank m s (if m (offset - 1) == b'\r' then offset - 1 else offset),
    record f { line_annotation = none },
  )
]

unfoldable pub sub_proc : AnnoProcFunc
sub_proc m offset f =
    if is_open f
    then (1, m, f)
    else (if m (offset + 1) == b'-'
        then (if m (offset + 2) == b'[' && m (offset + 3) == b'['
            then (4, m, record f { block_annotation = some offset })
            else (2, m, record f { line_annotation = some offset }))
        else (1, m, f))

unfoldable pub close_bracket_proc : AnnoProcFunc
close_bracket_proc m offset f =
    if is_set f.line_annotation then (1, m, f) else elim f.block_annotation [
      | none ↦ (1, m, f)
      | some s ↦
          if m (offset + 1) == b']'
          then (2, blank m s (offset + 2), record f { block_annotation = none })
          else (1, m, f)
    ]

-- A row of a `FuncMap` table.
abbrev pub FuncMap : Type 0
FuncMap = ℕ × AnnoProcFunc

abbrev pub c_func_map : List FuncMap
c_func_map =
    (b'\'', single_quote_proc)
    ∷ (b'"', double_quote_proc)
    ∷ (b'/', c_slash_proc)
    ∷ (b'*', c_star_proc)
    ∷ (b'\n', end_proc)
    ∷ []

abbrev pub lua_func_map : List FuncMap
lua_func_map =
    (b'\'', single_quote_proc)
    ∷ (b'"', double_quote_proc)
    ∷ (b'-', sub_proc)
    ∷ (b']', close_bracket_proc)
    ∷ (b'\n', end_proc)
    ∷ []

abbrev pub find_proc_func : ℕ → List FuncMap → Option AnnoProcFunc
find_proc_func ch [] = none
find_proc_func ch ((c, g) ∷ rows) = if ch == c then some g else find_proc_func ch rows

-- The body of the loop: what the function of the byte does, or one step on.
abbrev pub proc : List FuncMap → AnnoProcFunc
proc t m p f = elim (find_proc_func (m p) t) [ none ↦ (1, m, f) | some g ↦ g m p f ]

-- `while (p < end)`. Each round goes on by one byte at least, so `end - p + 1` rounds are enough;
-- `none` is a loop that has used up its rounds.
unfoldable pub scan : List FuncMap → (rounds end' : ℕ) → Mem → ℕ → Flag → Option (ℕ × Mem × Flag)
scan t zero e m p f = none
scan t (suc k) e m p f =
    let rest = (let (d, m', f') = proc t m p f in scan t k e m' (p + d) f') in
    if ltb p e then rest else some (p, m, f)

-- After the loop: a line comment that is still open is blanked.
abbrev pub finish : ℕ × Mem × Flag → Mem
finish (p, m, f) = elim f.line_annotation [ none ↦ m | some s ↦ blank m s p ]

abbrev pub complete : Option (ℕ × Mem × Flag) → Option Mem
complete none = none
complete (some r) = some (finish r)

unfoldable pub remove_annotation : List FuncMap → Mem → (buf size : ℕ) → Option Mem
unfolding scan
remove_annotation t m buf size = complete (scan t (size + 1) (buf + size) m buf no_flags)

abbrev pub remove_c_annotation : Mem → (buf size : ℕ) → Option Mem
remove_c_annotation = remove_annotation c_func_map

abbrev pub remove_lua_annotation : Mem → (buf size : ℕ) → Option Mem
remove_lua_annotation = remove_annotation lua_func_map
