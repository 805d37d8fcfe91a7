-- ===== src/ZhCheck/Python.antt =====
-- remove_python_annotation: line comments, and strings of three quotes that are not assigned.
pub mod Laws
use com_tutor.Base.{
  ℕ, zero, suc, ◌+◌, ◌-◌, Bool, true, false, ◌&&◌, ◌||◌, not, Option, none, some, ltb, leb, ◌==◌,
  if◌then◌else◌,
}
use com_tutor.ZhCheck.{Mem, backslash, is_set, blank}

-- `PythonProcArgu`
pub record Argu : Type 0 where
  pub single_quote : Option ℕ
  pub double_quote : Option ℕ
  pub line_annotation : Option ℕ
  pub three_single_quote : Option ℕ
  pub three_double_quote : Option ℕ

abbrev pub no_argu : Argu
no_argu = record {
  single_quote = none;
  double_quote = none;
  line_annotation = none;
  three_single_quote = none;
  three_double_quote = none;
}

abbrev pub is_space : ℕ → Bool
is_space c = c == b' ' || (leb 9 c && leb c 13)

-- The first byte that is no space, from an address back.
unfoldable pub is_assign : Mem → ℕ → Bool
is_assign m zero = m 0 == b'='
is_assign m (suc a) =
    let back = is_assign m a in if is_space (m (suc a)) then back else m (suc a) == b'='

-- The step on, the memory, and the two variables `*one_quote` and `*three_quote`.
unfoldable pub single_double_quote_proc :
    Mem → (offset : ℕ) → (one three : Option ℕ) → ℕ × Mem × Option ℕ × Option ℕ
single_double_quote_proc m offset one three =
    if m (offset + 1) == m offset && m (offset + 2) == m offset
    then elim three [
      | none ↦ (3, m, one, some offset)
      | some s ↦
          if is_assign m (s - 1)
          then (3, m, one, some s)
          else (3, blank m s (offset + 3), one, none)
    ]
    else elim one [
      | none ↦ (1, m, some offset, three)
      | some s ↦ (1, m, (if m (offset - 1) == backslash then some s else none), three)
    ]

unfoldable pub py_quote_proc : Mem → (offset : ℕ) → Argu → ℕ × Mem × Argu
unfolding single_double_quote_proc
py_quote_proc m offset f =
    if m offset == b'"'
    then (if is_set f.line_annotation || is_set f.single_quote || is_set f.three_single_quote
        then (1, m, f)
        else (let (d, m', one, three) =
              single_double_quote_proc m offset f.double_quote f.three_double_quote in
            (d, m', record f { double_quote = one; three_double_quote = three })))
    else (if m offset == b'\''
        then (if is_set f.line_annotation || is_set f.double_quote || is_set f.three_double_quote
            then (1, m, f)
            else (let (d, m', one, three) =
                  single_double_quote_proc m offset f.single_quote f.three_single_quote in
                (d, m', record f { single_quote = one; three_single_quote = three })))
        else (1, m, f))

abbrev pub in_string : Argu → Bool
in_string f =
    is_set f.single_quote
    || is_set f.double_quote
    || is_set f.three_single_quote
    || is_set f.three_double_quote

-- The body of the loop.
unfoldable pub py_proc : Mem → ℕ → Argu → ℕ × Mem × Argu
unfolding py_quote_proc
py_proc m p f =
    if m p == b'\'' || m p == b'"'
    then py_quote_proc m p f
    else (if m p == b'#'
        then (if in_string f || is_set f.line_annotation
            then (1, m, f)
            else (1, m, record f { line_annotation = some p }))
        else (if m p == b'\n'
            then elim f.line_annotation [
              | none ↦ (1, m, f)
              | some s ↦ (
                1,
                blank m s (if m (p - 1) == b'\r' then p - 1 else p),
                record f { line_annotation = none },
              )
            ]
            else (1, m, f)))

-- `while (p < end)`; see `ZhCheck.scan`.
unfoldable pub py_scan : (rounds end' : ℕ) → Mem → ℕ → Argu → Option (ℕ × Mem × Argu)
py_scan zero e m p f = none
py_scan (suc k) e m p f =
    let rest = (let (d, m', f') = py_proc m p f in py_scan k e m' (p + d) f') in
    if ltb p e then rest else some (p, m, f)

abbrev pub py_finish : ℕ × Mem × Argu → Mem
py_finish (p, m, f) = elim f.line_annotation [ none ↦ m | some s ↦ blank m s p ]

abbrev pub py_complete : Option (ℕ × Mem × Argu) → Option Mem
py_complete none = none
py_complete (some r) = some (py_finish r)

unfoldable pub remove_python_annotation : Mem → (buf size : ℕ) → Option Mem
unfolding py_scan py_proc
remove_python_annotation m buf size = py_complete (py_scan (size + 1) (buf + size) m buf no_argu)
