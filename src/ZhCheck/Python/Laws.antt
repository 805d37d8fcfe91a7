-- ===== src/ZhCheck/Python/Laws.antt =====
-- What remove_python_annotation does to a source: it ends, writes nothing but spaces, and stops
-- removing anything at the first string of three quotes that is assigned.
use com_tutor.Base.{
  ℕ, zero, suc, ◌+◌, ◌-◌, ◌≤◌, ◌<◌, ◌≡◌, inl, inr, refl, true, none, some, ltb, arith, Bool-cases,
  ltb→lt,
}
use com_tutor.ZhCheck.{Mem}
use com_tutor.ZhCheck.Python.{
  Argu, no_argu, is_assign, py_proc, py_scan, py_finish, py_complete, remove_python_annotation,
}
use com_tutor.ZhCheck.Blanks.{Blanked, Blanked-trans}

py_proc_goes_on : (m : Mem) (p : ℕ) (f : Argu) → 1 ≤ (py_proc m p f).0
unfolding py_proc
py_proc_goes_on m p f = ground arith

py_proc-Blanked : (m : Mem) (p : ℕ) (f : Argu) → Blanked m (py_proc m p f).1
unfolding py_proc
py_proc-Blanked m p f a = ground arith

py_scan-Blanked :
    (k e : ℕ) (m : Mem) (p : ℕ) (f : Argu)
    → 0 < k
    → e < p + k
    → (m' : Mem) × (py_complete (py_scan k e m p f) ≡ some m') × Blanked m m'
unfolding py_scan
py_scan-Blanked zero e m p f pos h = absurd (omega (arith, pos))
py_scan-Blanked (suc k) e m p f pos h = elim (Bool-cases (ltb p e)) [
  | inr done ↦ (py_finish (p, m, f), rw done refl, (λ a. ground arith))
  | inl more ↦
      let d = py_proc m p f in
      let (m', runs, later) =
        py_scan-Blanked k e d.1 (p + d.0) d.2 (omega (arith, h, ltb→lt p e more))
          (omega (arith, h, py_proc_goes_on m p f)) in
      (m', rw more runs, Blanked-trans m d.1 m' (py_proc-Blanked m p f) later)
]

-- remove_python_annotation ends, whatever the source, and every byte of the memory is then what it
-- was, or a space.
pub remove_python-Blanked :
    (m : Mem) (buf size : ℕ)
    → (m' : Mem) × (remove_python_annotation m buf size ≡ some m') × Blanked m m'
unfolding remove_python_annotation
remove_python-Blanked m buf size =
    py_scan-Blanked (size + 1) (buf + size) m buf no_argu (omega arith) (omega arith)

-- Inside a string of three double quotes that was assigned.
abbrev pub IsStuck : Mem → ℕ → Argu → Type 0
IsStuck m s f =
    (f.three_double_quote ≡ some s)
    × (is_assign m (s - 1) ≡ true)
    × (f.line_annotation ≡ none)
    × (f.three_single_quote ≡ none)

py_proc-IsStuck :
    (m : Mem) (p s : ℕ) (f : Argu)
    → IsStuck m s f
    → ((py_proc m p f).1 ≡ m) × IsStuck m s (py_proc m p f).2
unfolding py_proc
py_proc-IsStuck m p s f (three, assigned, line, single) =
    (ground (arith, assigned), (ground (arith, assigned), assigned, ground arith, ground arith))

-- Once a string of three double quotes that is assigned has begun, the rest of the source is left as
-- it is, comments and later strings of three quotes included: the string never ends.
pub assigned_text_sticks :
    (k e : ℕ) (m : Mem) (p s : ℕ) (f : Argu)
    → 0 < k
    → e < p + k
    → IsStuck m s f
    → py_complete (py_scan k e m p f) ≡ some m
unfolding py_scan
assigned_text_sticks zero e m p s f pos h stuck = absurd (omega (arith, pos))
assigned_text_sticks (suc k) e m p s f pos h stuck = elim (Bool-cases (ltb p e)) [
  | inr done ↦ rw done (rw (stuck.2) refl)
  | inl more ↦
      let d = py_proc m p f in
      let kept = py_proc-IsStuck m p s f stuck in
      let ih =
        assigned_text_sticks k e m (p + d.0) s d.2 (omega (arith, h, ltb→lt p e more))
          (omega (arith, h, py_proc_goes_on m p f)) kept.1 in
      rw (more, kept.0) ih
]
