-- ===== src/Ping/Checksum.antt =====
-- The checksum of ping: it fits the int in which it is summed, the packet with the checksum in it sums
-- up to zero, and a change of one byte changes it.
use com_tutor.Base.{
  ℕ, ◌+◌, ◌-◌, ◌*◌, ◌/◌, ◌%◌, ◌≤◌, ◌<◌, ◌≡◌, ◌≢◌, ◌⊎◌, inl, inr, refl, sym, ◌∙◌, ap, subst, List,
  [], ◌∷◌, ◌++◌, length, arith, length-append, All, ltb, ltb→lt, Bool-cases,
}
use com_tutor.Ping.{sum_words, fold, cal_chksum}

abbrev pub IsBytes : List ℕ → Type 0
IsBytes l = All (λ b. b < 256) l

fold_completes : (sum : ℕ) → sum < 2147483648 → fold (sum + fold sum) ≡ 0
unfolding fold
fold_completes sum h = omega (arith, h)

fold_differs : (sum d : ℕ) → 0 < d → d < 65535 → sum + d < 2147483648 → fold sum ≢ fold (sum + d)
unfolding fold
fold_differs sum d pos small h e = omega (arith, h, e, pos, small)

fold-bounded : (sum : ℕ) → fold sum < 65536
unfolding fold
fold-bounded sum = omega arith

sum_words-add : (s d : ℕ) (l : List ℕ) → sum_words (s + d) l ≡ sum_words s l + d
unfolding sum_words
sum_words-add s d [] = refl
sum_words-add s d (b ∷ []) = omega arith
sum_words-add s d (lo ∷ hi ∷ rest) =
    ap (λ x. sum_words x rest) (omega arith) ∙ sum_words-add (s + (lo + 256 * hi)) d rest

-- Twice the sum, since an odd last byte counts as half a word.
sum_words-bounded : (s : ℕ) (l : List ℕ) → IsBytes l → 2 * sum_words s l ≤ 2 * s + 65535 * length l
unfolding sum_words
sum_words-bounded s [] ok = omega arith
sum_words-bounded s (b ∷ []) ok = omega (arith, ok.0)
sum_words-bounded s (lo ∷ hi ∷ rest) (l, (h, ok)) =
    omega (arith, sum_words-bounded (s + (lo + 256 * hi)) rest ok, l, h)

-- A packet whose bytes 2 and 3 hold its checksum, computed while they were zero, has the checksum 0; and
-- no sum on the way leaves the int, for a packet of 64 KB at most.
pub chksum_verifies :
    (a b : ℕ) (rest : List ℕ)
    → IsBytes (a ∷ b ∷ rest)
    → length rest < 65530
    → let c = cal_chksum (a ∷ b ∷ 0 ∷ 0 ∷ rest) in
      cal_chksum (a ∷ b ∷ c % 256 ∷ c / 256 % 256 ∷ rest) ≡ 0
unfolding cal_chksum sum_words
chksum_verifies a b rest (x, (y, ok)) fits =
    let c = cal_chksum (a ∷ b ∷ 0 ∷ 0 ∷ rest) in
    let s = sum_words (a + 256 * b) rest in
    let e : c ≡ fold s = ap (λ n. fold (sum_words n rest)) (omega arith) in
    ap fold (
      ap (λ n. sum_words n rest) (omega (arith, fold-bounded s, e))
      ∙ sum_words-add (a + 256 * b) (fold s) rest)
    ∙ fold_completes s (omega (arith, sum_words-bounded (a + 256 * b) rest ok, fits, x, y))

-- By how much the sum grows with one byte.
sum_words-grows :
    (s b d : ℕ) (pre post : List ℕ)
    → 0 < d
    → b + d < 256
    → (g : ℕ) × (0 < g)
      × (g < 65535)
      × (sum_words s (pre ++ (b + d) ∷ post) ≡ sum_words s (pre ++ b ∷ post) + g)
unfolding sum_words
sum_words-grows s b d [] [] pos small = (d, pos, omega (arith, small), omega arith)
sum_words-grows s b d [] (hi ∷ post) pos small = (
  d,
  pos,
  omega (arith, small),
  ap (λ n. sum_words n post) (omega arith) ∙ sum_words-add (s + (b + 256 * hi)) d post,
)
sum_words-grows s b d (lo ∷ []) post pos small = (
  256 * d,
  omega (arith, pos),
  omega (arith, small),
  ap (λ n. sum_words n post) (omega arith) ∙ sum_words-add (s + (lo + 256 * b)) (256 * d) post,
)
sum_words-grows s b d (lo ∷ hi ∷ pre) post pos small =
    sum_words-grows (s + (lo + 256 * hi)) b d pre post pos small

byte_of : (pre post : List ℕ) (b : ℕ) → IsBytes (pre ++ b ∷ post) → b < 256
byte_of [] post b ok = ok.0
byte_of (x ∷ pre) post b ok = byte_of pre post b ok.1

chksum-grows :
    (pre post : List ℕ) (b d : ℕ)
    → 0 < d
    → IsBytes (pre ++ (b + d) ∷ post)
    → length (pre ++ (b + d) ∷ post) ≤ 65536
    → cal_chksum (pre ++ b ∷ post) ≢ cal_chksum (pre ++ (b + d) ∷ post)
unfolding cal_chksum
chksum-grows pre post b d pos ok fits e =
    let (g, pos', small', more) =
      sum_words-grows 0 b d pre post pos (byte_of pre post (b + d) ok) in
    fold_differs (sum_words 0 (pre ++ b ∷ post)) g pos' small'
      (omega (arith, sum_words-bounded 0 (pre ++ (b + d) ∷ post) ok, more, fits)) (e ∙ ap fold more)

order : (a b : ℕ) → a ≢ b → ((d : ℕ) × (0 < d) × (b ≡ a + d)) ⊎ ((d : ℕ) × (0 < d) × (a ≡ b + d))
order a b differ = elim (Bool-cases (ltb a b)) [
  | inl less ↦ inl (b - a, omega (arith, ltb→lt a b less), omega (arith, ltb→lt a b less))
  | inr more ↦ inr (a - b, ground (arith, more, differ), ground (arith, more, differ))
]

-- Two packets of 64 KB at most that differ in one byte have different checksums.
pub chksum_sees_byte :
    (pre post : List ℕ) (b b' : ℕ)
    → b ≢ b'
    → IsBytes (pre ++ b ∷ post)
    → IsBytes (pre ++ b' ∷ post)
    → length pre + length post < 65536
    → cal_chksum (pre ++ b ∷ post) ≢ cal_chksum (pre ++ b' ∷ post)
chksum_sees_byte pre post b b' differ ok ok' fits e = elim (order b b' differ) [
  | inl (d, pos, e') ↦ apart b b' d pos e' ok' e
  | inr (d, pos, e') ↦ apart b' b d pos e' ok (sym e)
]
  where
    apart :
        (x y d : ℕ)
        → 0 < d
        → y ≡ x + d
        → IsBytes (pre ++ y ∷ post)
        → cal_chksum (pre ++ x ∷ post) ≢ cal_chksum (pre ++ y ∷ post)
    apart x y d pos e ok same =
        chksum-grows pre post x d pos (subst (λ z. IsBytes (pre ++ z ∷ post)) e ok)
          (omega (arith, length-append pre ((x + d) ∷ post), fits))
          (same ∙ ap (λ z. cal_chksum (pre ++ z ∷ post)) e)
