-- ===== src/Base/Distinct.antt =====
-- Lists of addresses that are pairwise different, and lists that share no address.
use com_tutor.Base.Lists.{All}
use Prim.Native.Nat.{ℕ}
use mathlib.Core.Path.{sym}
use mathlib.Core.Logic.{◌≢◌}
use mathlib.Core.List.{List, [], ◌∷◌}

abbrev pub NotIn : ℕ → List ℕ → Type 0
NotIn z xs = All (λ x. z ≢ x) xs

abbrev pub Distinct : List ℕ → Type 0
Distinct [] = Unit
Distinct (x ∷ xs) = NotIn x xs × Distinct xs

abbrev pub Apart : List ℕ → List ℕ → Type 0
Apart xs ys = All (λ x. NotIn x ys) xs

pub NotIn-head : (y : ℕ) (ys xs : List ℕ) → Apart xs (y ∷ ys) → NotIn y xs
NotIn-head y ys [] h = tt
NotIn-head y ys (x ∷ xs) h = (λ e. h.0.0 (sym e), NotIn-head y ys xs h.1)

pub Apart-tail : (y : ℕ) (ys xs : List ℕ) → Apart xs (y ∷ ys) → Apart xs ys
Apart-tail y ys [] h = tt
Apart-tail y ys (x ∷ xs) h = (h.0.1, Apart-tail y ys xs h.1)

pub Apart-symm : (xs ys : List ℕ) → Apart xs ys → Apart ys xs
Apart-symm xs [] h = tt
Apart-symm xs (y ∷ ys) h = (NotIn-head y ys xs h, Apart-symm xs ys (Apart-tail y ys xs h))

pub Apart-cons : (y : ℕ) (ys xs : List ℕ) → NotIn y xs → Apart xs ys → Apart xs (y ∷ ys)
Apart-cons y ys [] a h = tt
Apart-cons y ys (x ∷ xs) a h = ((λ e. a.0 (sym e), h.0), Apart-cons y ys xs a.1 h.1)
