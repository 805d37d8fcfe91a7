-- ===== src/Base/Counts.antt =====
-- The sum of a weight over the states of the first `n` threads: how many of them are doing a thing.
use com_tutor.Base.{
  ℕ, zero, suc, ◌+◌, ◌*◌, ◌≤◌, ◌<◌, ◌≡◌, ◌≢◌, refl, inl, inr, ap, arith, update, Zero-cases,
}

unfoldable pub total {ℓ} : {A : Type ℓ} → (A → ℕ) → ℕ → (ℕ → A) → ℕ
total w zero f = 0
total w (suc n) f = total w n f + w (f n)

module _ {ℓ} {A : Type ℓ} (w : A → ℕ) where
  pub total-zero : (f : ℕ → A) → total w 0 f ≡ 0
  unfolding total
  total-zero f = refl

  -- The states below a number and that one.
  pub total-next : (n : ℕ) (f : ℕ → A) → total w (n + 1) f ≡ total w n f + w (f n)
  unfolding total
  total-next n f = ap (λ k. total w k f) {x = n + 1} {y = suc n} (omega arith)

  total-above : (n : ℕ) (f : ℕ → A) (i : ℕ) (a : A) → n ≤ i → total w n (update f i a) ≡ total w n f
  unfolding total
  total-above zero f i a h = refl
  total-above (suc n) f i a h = ground (arith, total-above n f i a)

  -- One thread goes from `p` to `a`.
  pub total-update :
      (n : ℕ) (f : ℕ → A) (i : ℕ) (p a : A)
      → i < n
      → f i ≡ p
      → total w n (update f i a) + w p ≡ total w n f + w a
  unfolding total
  total-update zero f i p a h e = elim h [ ]
  total-update (suc n) f i p a h e =
      ground (arith, total-update n f i p a, total-above n f i a, e, ap w e)

  pub total-le : (n : ℕ) (f : ℕ → A) (i : ℕ) → i < n → w (f i) ≤ total w n f
  unfolding total
  total-le zero f i h = elim h [ ]
  total-le (suc n) f i h = ground (arith, total-le n f i)

  -- Two different threads count twice.
  pub total-two :
      (n : ℕ) (f : ℕ → A) (i j : ℕ) → i < n → j < n → i ≢ j → w (f i) + w (f j) ≤ total w n f
  unfolding total
  total-two zero f i j h k d = elim h [ ]
  total-two (suc n) f i j h k d = ground (arith, total-two n f i j, total-le n f i, total-le n f j)

  pub total-map :
      (v : A → ℕ) (g : A → A) (n : ℕ) (f : ℕ → A)
      → ((p : A) → w (g p) ≡ v p)
      → total w n (λ j. g (f j)) ≡ total v n f
  unfolding total
  total-map v g zero f h = refl
  total-map v g (suc n) f h = omega (arith, total-map v g n f h, h (f n))

  pub total-at_most : ((p : A) → w p ≤ 1) → (n : ℕ) (f : ℕ → A) → total w n f ≤ n
  unfolding total
  total-at_most h zero f = omega arith
  total-at_most h (suc n) f = omega (arith, total-at_most h n f, h (f n))

  pub total-none : (n : ℕ) (f : ℕ → A) → ((i : ℕ) → i < n → w (f i) ≡ 0) → total w n f ≡ 0
  unfolding total
  total-none zero f h = refl
  total-none (suc n) f h =
      omega (arith, total-none n f (λ i lt. h i (omega arith)), h n (omega arith))

pub total-sum {ℓ} :
    {A : Type ℓ}
    → (u v w : A → ℕ) (n : ℕ) (f : ℕ → A) → ((p : A) → w p ≡ u p + v p)
    → total w n f ≡ total u n f + total v n f
unfolding total
total-sum u v w zero f h = refl
total-sum u v w (suc n) f h = omega (arith, total-sum u v w n f h, h (f n))

-- A thread that is counted.
pub total-find {ℓ} :
    {A : Type ℓ}
    → (w : A → ℕ) (n : ℕ) (f : ℕ → A) → 0 < total w n f
    → (i : ℕ) × (i < n) × (0 < w (f i))
unfolding total
total-find w zero f h = elim h [ ]
total-find w (suc n) f h = elim (Zero-cases (w (f n))) [
  | inl none ↦ let (i, lt, p) = total-find w n f (omega arith) in (i, omega arith, p)
  | inr some ↦ (n, omega arith, some)
]

pub total-const {ℓ} : {A : Type ℓ} → (v : A → ℕ) (n : ℕ) (a : A) → total v n (λ i. a) ≡ n * v a
unfolding total
total-const v zero a = omega arith
total-const v (suc n) a = ground (arith, total-const v n a)

-- A thread that is not counted.
pub total-miss {ℓ} :
    {A : Type ℓ}
    → (w : A → ℕ) (n : ℕ) (f : ℕ → A) → total w n f < n
    → (i : ℕ) × (i < n) × (w (f i) ≡ 0)
unfolding total
total-miss w zero f h = elim h [ ]
total-miss w (suc n) f h = elim (Zero-cases (w (f n))) [
  | inl none ↦ (n, omega arith, none)
  | inr some ↦ let (i, lt, p) = total-miss w n f (omega arith) in (i, omega arith, p)
]
