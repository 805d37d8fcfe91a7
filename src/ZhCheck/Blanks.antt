-- ===== src/ZhCheck/Blanks.antt =====
-- The removal of C and Lua comments ends, and writes nothing but spaces.
use com_tutor.Base.{
  ℕ, zero, suc, ◌+◌, ◌≤◌, ◌<◌, ◌≡◌, ◌⊎◌, inl, inr, refl, some, List, [], ◌∷◌, ltb, arith,
  Bool-cases, ltb→lt,
}
use com_tutor.ZhCheck.{
  Mem, Flag, no_flags, FuncMap, AnnoProcFunc, blank, proc, scan, finish, complete, c_func_map,
  lua_func_map, single_quote_proc, double_quote_proc, c_slash_proc, c_star_proc, end_proc, sub_proc,
  close_bracket_proc, remove_annotation, remove_c_annotation, remove_lua_annotation,
}

-- Every byte is the one that was there, or a space.
abbrev pub Blanked : Mem → Mem → Type 0
Blanked m m' = (a : ℕ) → (m' a ≡ m a) ⊎ (m' a ≡ b' ')

pub Blanked-refl : (m : Mem) → Blanked m m
Blanked-refl m a = inl refl

pub Blanked-trans : (m m' m'' : Mem) → Blanked m m' → Blanked m' m'' → Blanked m m''
Blanked-trans m m' m'' h g a = ground (arith, h a, g a)

pub blank-Blanked : (m : Mem) (s e : ℕ) → Blanked m (blank m s e)
blank-Blanked m s e a = ground arith

-- What a function of a table may do: go on, and blank.
pub record IsProc (g : AnnoProcFunc) : Type 0 where
  pub goes_on : (m : Mem) (p : ℕ) (f : Flag) → 1 ≤ (g m p f).0
  pub blanks : (m : Mem) (p : ℕ) (f : Flag) → Blanked m (g m p f).1

abbrev Rows : List FuncMap → Type 0
Rows [] = Unit
Rows ((c, g) ∷ rows) = IsProc g × Rows rows

single_quote-IsProc : IsProc single_quote_proc
unfolding single_quote_proc
single_quote-IsProc = record { goes_on = λ m p f. ground arith; blanks = λ m p f a. ground arith }

double_quote-IsProc : IsProc double_quote_proc
unfolding double_quote_proc
double_quote-IsProc = record { goes_on = λ m p f. ground arith; blanks = λ m p f a. ground arith }

c_slash-IsProc : IsProc c_slash_proc
unfolding c_slash_proc
c_slash-IsProc = record { goes_on = λ m p f. ground arith; blanks = λ m p f a. ground arith }

c_star-IsProc : IsProc c_star_proc
unfolding c_star_proc
c_star-IsProc = record { goes_on = λ m p f. ground arith; blanks = λ m p f a. ground arith }

end-IsProc : IsProc end_proc
unfolding end_proc
end-IsProc = record { goes_on = λ m p f. ground arith; blanks = λ m p f a. ground arith }

sub-IsProc : IsProc sub_proc
unfolding sub_proc
sub-IsProc = record { goes_on = λ m p f. ground arith; blanks = λ m p f a. ground arith }

close_bracket-IsProc : IsProc close_bracket_proc
unfolding close_bracket_proc
close_bracket-IsProc = record { goes_on = λ m p f. ground arith; blanks = λ m p f a. ground arith }

proc-IsProc : (t : List FuncMap) → Rows t → IsProc (proc t)
proc-IsProc [] h = record { goes_on = λ m p f. omega arith; blanks = λ m p f a. inl refl }
proc-IsProc ((c, g) ∷ t) h = record {
  goes_on = λ m p f. ground (arith, (h.0).goes_on m p f, (proc-IsProc t h.1).goes_on m p f);
  blanks = λ m p f a. ground (arith, (h.0).blanks m p f a, (proc-IsProc t h.1).blanks m p f a);
}

scan-Blanked :
    (t : List FuncMap)
    → Rows t
    → (k e : ℕ) (m : Mem) (p : ℕ) (f : Flag) → 0 < k
    → e < p + k
    → (m' : Mem) × (complete (scan t k e m p f) ≡ some m') × Blanked m m'
unfolding scan
scan-Blanked t rows zero e m p f pos h = absurd (omega (arith, pos))
scan-Blanked t rows (suc k) e m p f pos h = elim (Bool-cases (ltb p e)) [
  | inr done ↦ (finish (p, m, f), rw done refl, λ a. ground arith)
  | inl more ↦
      let is = proc-IsProc t rows in
      let d = proc t m p f in
      let (m', runs, later) =
        scan-Blanked t rows k e d.1 (p + d.0) d.2 (omega (arith, h, ltb→lt p e more))
          (omega (arith, h, is.goes_on m p f)) in
      (m', rw more runs, Blanked-trans m d.1 m' (is.blanks m p f) later)
]

remove-Blanked :
    (t : List FuncMap)
    → Rows t
    → (m : Mem) (buf size : ℕ)
    → (m' : Mem) × (remove_annotation t m buf size ≡ some m') × Blanked m m'
unfolding remove_annotation
remove-Blanked t rows m buf size =
    scan-Blanked t rows (size + 1) (buf + size) m buf no_flags (omega arith) (omega arith)

-- remove_c_annotation ends, whatever the source, and every byte of the memory is then what it was, or
-- a space.
pub remove_c-Blanked :
    (m : Mem) (buf size : ℕ)
    → (m' : Mem) × (remove_c_annotation m buf size ≡ some m') × Blanked m m'
remove_c-Blanked = remove-Blanked c_func_map (
  single_quote-IsProc,
  (double_quote-IsProc, (c_slash-IsProc, (c_star-IsProc, (end-IsProc, tt)))),
)

-- remove_lua_annotation ends, whatever the source, and every byte of the memory is then what it was,
-- or a space.
pub remove_lua-Blanked :
    (m : Mem) (buf size : ℕ)
    → (m' : Mem) × (remove_lua_annotation m buf size ≡ some m') × Blanked m m'
remove_lua-Blanked = remove-Blanked lua_func_map (
  single_quote-IsProc,
  (double_quote-IsProc, (sub-IsProc, (close_bracket-IsProc, (end-IsProc, tt)))),
)
