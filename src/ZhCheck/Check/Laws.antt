-- ===== src/ZhCheck/Check/Laws.antt =====
-- What the answer of the program says of a C source.
use com_tutor.Base.{
  ℕ, zero, suc, ◌+◌, ◌-◌, ◌<◌, ◌≡◌, ◌↔◌, inl, inr, refl, sym, subst, true, ◌&&◌, some, List, [],
  ◌∷◌, All, ltb, ◌==◌, if◌then◌else◌, arith, Bool-cases,
}
use com_tutor.ZhCheck.{Mem}
use com_tutor.ZhCheck.Lexer.{bytes, strip, Mode}
use com_tutor.ZhCheck.Refines.Relation.{IsQuiet}
use com_tutor.ZhCheck.Refines.Loop.{remove_c_strips}
use com_tutor.ZhCheck.Check.{
  success, is_negative, find_zh, has_mark, check_zh_cn, cpp, remove_anno_and_check,
}

abbrev pub IsAscii : ℕ → Type 0
IsAscii c = c < 128

-- The bytes behind a byte order mark, if there is one with at least one byte behind it.
abbrev pub skip_mark : List ℕ → List ℕ
skip_mark (a ∷ b ∷ c ∷ d ∷ r) =
    if a == 0xEF && b == 0xBB && c == 0xBF then d ∷ r else a ∷ b ∷ c ∷ d ∷ r
skip_mark (a ∷ b ∷ c ∷ []) = a ∷ b ∷ c ∷ []
skip_mark (a ∷ b ∷ []) = a ∷ b ∷ []
skip_mark (a ∷ []) = a ∷ []
skip_mark [] = []

find_zh-IsAscii :
    (m : Mem) (str len i n : ℕ)
    → ((find_zh m str len i n).0 ≡ success) ↔ All IsAscii (bytes m (str + i) n)
unfolding find_zh bytes
find_zh-IsAscii m str len i zero = (λ h. tt, λ h. refl)
find_zh-IsAscii m str len i (suc n) =
    let ih = find_zh-IsAscii m str len (i + 1) n in
    let at : str + (i + 1) ≡ str + i + 1 = omega arith in
    elim (Bool-cases (is_negative (m (str + i)))) [
      | inl neg ↦ rw neg (λ h. absurd (omega (arith, h)), λ h. absurd (ground (arith, neg, h.0)))
      | inr ascii ↦ rw ascii (
        λ h. (ground (arith, ascii), subst (λ a. All IsAscii (bytes m a n)) at (ih.0 h)),
        λ h. ih.1 (subst (λ a. All IsAscii (bytes m a n)) (sym at) (h.1)),
      )
    ]

skip_mark-bytes :
    (m : Mem) (str len : ℕ)
    → skip_mark (bytes m str len)
      ≡ (if has_mark m str len then bytes m (str + 3) (len - 3) else bytes m str len)
unfolding bytes
skip_mark-bytes m str zero = ground arith
skip_mark-bytes m str (suc zero) = ground arith
skip_mark-bytes m str (suc (suc zero)) = ground arith
skip_mark-bytes m str (suc (suc (suc zero))) = ground arith
skip_mark-bytes m str (suc (suc (suc (suc n)))) =
    let long : ltb 3 (suc (suc (suc (suc n)))) ≡ true = ground arith in
    let two : str + 1 + 1 ≡ str + 2 = omega arith in
    let three : str + 2 + 1 ≡ str + 3 = omega arith in
    let left : suc (suc (suc (suc n))) - 3 ≡ suc n = omega arith in rw (long, left, two, three) refl

check-IsAscii :
    (m : Mem) (str len : ℕ)
    → ((check_zh_cn m str len).0 ≡ success) ↔ All IsAscii (skip_mark (bytes m str len))
unfolding check_zh_cn
check-IsAscii m str len = rw (skip_mark-bytes m str len) (elim (Bool-cases (has_mark m str len)) [
  | inl mark ↦ rw mark (find_zh-IsAscii m str len 3 (len - 3))
  | inr no_mark ↦
      let front : str + 0 ≡ str = omega arith in
      rw no_mark (
        subst (λ a. ((find_zh m str len 0 len).0 ≡ success) ↔ All IsAscii (bytes m a len)) front
          (find_zh-IsAscii m str len 0 len))
])

-- The answer for a C source: the run ends, and it ends with success exactly if every byte of the
-- source, its comments blanked and a byte order mark at the front skipped, is ASCII. The byte behind
-- the buffer is neither a slash nor a star.
pub success_iff_IsAscii :
    (m : Mem) (buf len : ℕ)
    → IsQuiet (m (buf + len))
    → (c : ℕ) × (remove_anno_and_check cpp m buf len ≡ some c)
      × ((c ≡ success) ↔ All IsAscii (skip_mark (strip Mode.code (bytes m buf len))))
unfolding remove_anno_and_check
success_iff_IsAscii m buf len quiet =
    let (m', runs, text, outside) = remove_c_strips m buf len quiet in
    (
      (check_zh_cn m' buf len).0,
      rw (remove_anno_and_check, runs) refl,
      rw (← text) (check-IsAscii m' buf len),
    )
