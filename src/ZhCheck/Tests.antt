-- ===== src/ZhCheck/Tests.antt =====
-- Runs of the removal of comments and of the check, and the theorems at them.
use Prim.Native.Char.{code}
use Prim.Native.String.{String}
use com_tutor.Base.{
  ℕ, zero, suc, ◌-◌, ◌≤◌, ◌<◌, ◌≡◌, ◌↔◌, ◌⊎◌, refl, true, Option, none, some, List, [], ◌∷◌, All,
  length, arith, ltb, if◌then◌else◌,
}
use com_tutor.ZhCheck.{
  Mem, remove_c_annotation, remove_lua_annotation, remove_annotation, single_quote_proc,
  double_quote_proc, c_slash_proc, c_star_proc, end_proc, sub_proc, close_bracket_proc,
  slash_is_single,
}
use com_tutor.ZhCheck.Lexer.{bytes, Mode, strip, has_close}
use com_tutor.ZhCheck.Refines.Loop.{remove_c_strips}
use com_tutor.ZhCheck.Python.{no_argu, is_assign, py_scan, py_complete, remove_python_annotation}
use com_tutor.ZhCheck.Python.Laws.{assigned_text_sticks}
use com_tutor.ZhCheck.Check.{success, cpp, remove_anno_and_check}
use com_tutor.ZhCheck.Check.Laws.{IsAscii, skip_mark, success_iff_IsAscii}

abbrev codes : String → List ℕ
codes String.[] = []
codes (String.◌∷◌ c s) = Prim.Native.Char.code c ∷ codes s

abbrev byte_at : List ℕ → ℕ → ℕ
byte_at [] i = 0
byte_at (x ∷ xs) zero = x
byte_at (x ∷ xs) (suc i) = byte_at xs i

-- A text at address 100, with zeros around it.
abbrev at_100 : List ℕ → Mem
at_100 l a = if ltb a 100 then 0 else byte_at l (a - 100)

abbrev cleaned : ℕ → Option Mem → List ℕ
cleaned n none = []
cleaned n (some m) = bytes m 100 n

abbrev c_source : List ℕ
c_source = codes "a/*x*/b'\\''//c \r\n\"/*\\\"\"/**/ /*y"

abbrev c_code : List ℕ
c_code = codes "a     b'\\''    \r\n\"/*\\\"\"     /*y"

c_runs :
    cleaned (length c_source) (remove_c_annotation (at_100 c_source) 100 (length c_source)) ≡ c_code
unfolding remove_annotation single_quote_proc double_quote_proc c_slash_proc c_star_proc end_proc
    slash_is_single bytes
c_runs = refl

strip_runs : strip Mode.code c_source ≡ c_code
unfolding strip has_close
strip_runs = refl

abbrev lua_source : List ℕ
lua_source = codes "x = '--' --[[ a\n]] y --b\n"

lua_runs :
    cleaned (length lua_source) (remove_lua_annotation (at_100 lua_source) 100 (length lua_source))
    ≡ codes "x = '--'           y    \n"
unfolding remove_annotation single_quote_proc double_quote_proc sub_proc close_bracket_proc end_proc
    bytes
lua_runs = refl

abbrev python_source : List ℕ
python_source = codes "'''a'''#b\nx = \"\"\"c\"\"\" # d\n"

python_runs :
    cleaned
      (length python_source)
      (remove_python_annotation (at_100 python_source) 100 (length python_source))
    ≡ codes "         \nx = \"\"\"c\"\"\" # d\n"
unfolding remove_python_annotation is_assign bytes
python_runs = refl

remove_c_strips_example :
    (m' : Mem) × (remove_c_annotation (at_100 c_source) 100 35 ≡ some m')
    × (bytes m' 100 35 ≡ strip Mode.code (bytes (at_100 c_source) 100 35))
    × ((a : ℕ) → (a < 100) ⊎ (135 ≤ a) → m' a ≡ at_100 c_source a)
remove_c_strips_example = remove_c_strips (at_100 c_source) 100 35 (omega arith)

success_iff_IsAscii_example :
    (c : ℕ) × (remove_anno_and_check cpp (at_100 c_source) 100 35 ≡ some c)
    × ((c ≡ success) ↔ All IsAscii (skip_mark (strip Mode.code (bytes (at_100 c_source) 100 35))))
success_iff_IsAscii_example = success_iff_IsAscii (at_100 c_source) 100 35 (omega arith)

assigned : is_assign (at_100 python_source) 113 ≡ true
unfolding is_assign
assigned = refl

assigned_text_sticks_example :
    py_complete
      (py_scan 20 128 (at_100 python_source) 117 (record no_argu { three_double_quote = some 114 }))
    ≡ some (at_100 python_source)
assigned_text_sticks_example =
    assigned_text_sticks 20 128 (at_100 python_source) 117 114
      (record no_argu { three_double_quote = some 114 }) (omega arith) (omega arith)
      (refl, assigned, refl, refl)
