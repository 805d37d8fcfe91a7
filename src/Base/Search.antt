-- ===== src/Base/Search.antt =====
-- The first number of a range that passes a test.
use com_tutor.Base.{
  ℕ, zero, suc, ◌+◌, ◌≤◌, ◌<◌, ◌≡◌, ◌≢◌, ◌⊎◌, inl, inr, sym, ◌∙◌, ap, Bool, true, false,
  if◌then◌else◌, if_induction, arith,
}

-- From `i` on among `k` numbers, or `i + k`.
unfoldable pub first_from : (ℕ → Bool) → (i k : ℕ) → ℕ
first_from t i zero = i
first_from t i (suc k) = let rest = first_from t (i + 1) k in if t i then i else rest

pub first_from-cases :
    (t : ℕ → Bool) (i k : ℕ)
    → (first_from t i k ≡ i + k) ⊎ ((first_from t i k < i + k) × (t (first_from t i k) ≡ true))
unfolding first_from
first_from-cases t i zero = inl (omega arith)
first_from-cases t i (suc k) =
    if_induction (λ x. (x ≡ i + suc k) ⊎ ((x < i + suc k) × (t x ≡ true))) (t i) i
      (first_from t (i + 1) k) (λ e. inr (omega arith, e))
      (λ e. later_one (first_from-cases t (i + 1) k))
  where
    later_one :
        {x : ℕ}
        → (x ≡ i + 1 + k) ⊎ ((x < i + 1 + k) × (t x ≡ true))
        → (x ≡ i + suc k) ⊎ ((x < i + suc k) × (t x ≡ true))
    later_one (inl e) = inl (omega (arith, e))
    later_one (inr (lt, e)) = inr (omega (arith, lt), e)

-- It does not go past a number that passes.
first_from-le : (t : ℕ → Bool) (i k j : ℕ) → i ≤ j → j < i + k → t j ≡ true → first_from t i k ≤ j
unfolding first_from
first_from-le t i zero j ge lt e = absurd (omega (arith, ge, lt))
first_from-le t i (suc k) j ge lt e =
    if_induction (λ x. x ≤ j) (t i) i (first_from t (i + 1) k) (λ q. ge)
      (λ q. first_from-le t (i + 1) k j (omega (arith, ge, passed q)) (omega (arith, lt)) e)
  where
    passed : t i ≡ false → i ≢ j
    passed q same = ground (arith, sym q ∙ ap t same ∙ e)

-- With a number that passes below `n`, the search from 0 finds one.
pub first_from-found :
    (t : ℕ → Bool) (n j : ℕ)
    → j < n
    → t j ≡ true
    → (first_from t 0 n < n) × (t (first_from t 0 n) ≡ true)
first_from-found t n j lt e = found (first_from-cases t 0 n)
  where
    before : first_from t 0 n ≤ j
    before = first_from-le t 0 n j (omega arith) (omega (arith, lt)) e

    found :
        (first_from t 0 n ≡ 0 + n) ⊎ ((first_from t 0 n < 0 + n) × (t (first_from t 0 n) ≡ true))
        → (first_from t 0 n < n) × (t (first_from t 0 n) ≡ true)
    found (inl q) = absurd (omega (arith, q, before, lt))
    found (inr (_, q)) = (omega (arith, before, lt), q)
