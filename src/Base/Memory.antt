-- ===== src/Base/Memory.antt =====
-- A memory is a function from addresses; `update` writes one cell.
use Prim.Native.Nat.{ℕ}
use mathlib.Core.Path.{◌≡◌}
use mathlib.Core.Logic.{◌≢◌}
use native.Mathlib.Omega.{arith}
use com_tutor.Base.Tests.{◌==◌, if◌then◌else◌}

module _ {ℓ} {A : Type ℓ} where
  abbrev pub update : (ℕ → A) → ℕ → A → ℕ → A
  update f i a j = if i == j then a else f j

  pub update_at : (f : ℕ → A) (i : ℕ) (a : A) → update f i a i ≡ a
  update_at f i a = ground arith

  pub update_off : (f : ℕ → A) (i : ℕ) (a : A) (j : ℕ) → i ≢ j → update f i a j ≡ f j
  update_off f i a j h = ground arith
