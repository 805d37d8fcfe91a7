-- ===== src/ZhCheck/Check.antt =====
-- check_zh_cn, remove_anno_and_check and main.
pub mod Laws
use com_tutor.Base.{
  ℕ, zero, suc, ◌+◌, ◌-◌, ◌≤◌, ◌<◌, ◌≡◌, ◌≢◌, ◌↔◌, ◌⊎◌, inl, inr, refl, ◌∙◌, ap, Bool, true, false,
  ◌&&◌, ◌||◌, not, Option, none, some, List, [], ◌∷◌, All, ltb, leb, ◌==◌, if◌then◌else◌, arith,
  update, length,
}
use com_tutor.ZhCheck.{Mem, remove_c_annotation, remove_lua_annotation}
use com_tutor.ZhCheck.Python.{remove_python_annotation}

-- `enum ReturnCode`, by number.
abbrev pub success : ℕ
success = 0

abbrev pub argc_err : ℕ
argc_err = 1

abbrev pub file_name_err : ℕ
file_name_err = 2

abbrev pub file_type_err : ℕ
file_type_err = 3

abbrev pub include_zh_err : ℕ
include_zh_err = 4

-- `str[i] < 0`, for a char that is signed.
abbrev pub is_negative : ℕ → Bool
is_negative c = leb 128 c

-- The loop, with `n` bytes from `i` on; `len` is that of the whole. A byte that is not ASCII is shown
-- with what follows it, and the string is cut twenty bytes on.
unfoldable pub find_zh : Mem → (str len i n : ℕ) → ℕ × Mem
find_zh m str len i zero = (success, m)
find_zh m str len i (suc n) =
    let later = find_zh m str len (i + 1) n in
    if is_negative (m (str + i))
    then (include_zh_err, (if ltb 20 (len - i) then update m (str + i + 20) 0 else m))
    else later

-- The byte order mark at the front of a file of more than three bytes.
abbrev pub has_mark : Mem → (str len : ℕ) → Bool
has_mark m str len = ltb 3 len && m str == 0xEF && m (str + 1) == 0xBB && m (str + 2) == 0xBF

unfoldable pub check_zh_cn : Mem → (str len : ℕ) → ℕ × Mem
unfolding find_zh
check_zh_cn m str len =
    if has_mark m str len then find_zh m str len 3 (len - 3) else find_zh m str len 0 len

pub data FileType : Type 0 where
  cpp lua python unknown : FileType

-- The removal for a type of file; the inner `none` is a removal that does not end.
abbrev pub remove_anno : FileType → Mem → (buf size : ℕ) → Option (Option Mem)
remove_anno cpp m buf size = some (remove_c_annotation m buf size)
remove_anno lua m buf size = some (remove_lua_annotation m buf size)
remove_anno python m buf size = some (remove_python_annotation m buf size)
remove_anno unknown m buf size = none

-- fread has left `read_len` bytes in the buffer. `none` is a call that does not end.
unfoldable pub remove_anno_and_check : FileType → Mem → (buf read_len : ℕ) → Option ℕ
unfolding check_zh_cn
remove_anno_and_check t m buf read_len = elim (remove_anno t m buf read_len) [
  | none ↦ some file_type_err
  | some none ↦ none
  | some (some m') ↦ some (check_zh_cn m' buf read_len).0
]

-- `file` is what fopen and fread make of the first argument: the memory with the buffer, its address
-- and the number of bytes read, or none if the file is not opened.
unfoldable pub main : (argc : ℕ) → (file : Option (Mem × ℕ × ℕ)) → FileType → Option ℕ
unfolding remove_anno_and_check
main argc file t = if ltb argc 3 then some argc_err else elim file [
  | none ↦ some file_name_err
  | some (m, buf, read_len) ↦ remove_anno_and_check t m buf read_len
]
