-- ===== src/MessageQueue/Spec.antt =====
-- What a message queue promises: the messages in the order in which they are received, the highest
-- priority first and those of one priority in the order of their arrival.
use com_tutor.Base.{
  ℕ, suc, ◌≤◌, ◌≡◌, refl, ap, inl, inr, List, [], ◌∷◌, ◌++◌, arith, ltb, ◌==◌, if◌then◌else◌, All,
  Bool-cases,
}
use mathlib.Core.List.{append-nil}
use com_tutor.MessageQueue.Types.{Message}

unfoldable pub insert : Message → List Message → List Message
insert m [] = m ∷ []
insert m (x ∷ xs) = if ltb x.prio m.prio then m ∷ x ∷ xs else x ∷ insert m xs

-- No message stands before one of higher priority.
abbrev pub IsOrdered : List Message → Type 0
IsOrdered [] = Unit
IsOrdered (x ∷ xs) = All (λ (y : Message). y.prio ≤ x.prio) xs × IsOrdered xs

-- The messages of one priority, in their order.
unfoldable pub of_prio : ℕ → List Message → List Message
of_prio p [] = []
of_prio p (x ∷ xs) = let rest = of_prio p xs in if x.prio == p then x ∷ rest else rest

All-insert {ℓ} :
    (P : Message → Type ℓ) (m : Message) (xs : List Message) → P m → All P xs → All P (insert m xs)
unfolding insert
All-insert P m [] h hs = (h, hs)
All-insert P m (x ∷ xs) h hs = elim (Bool-cases (ltb x.prio m.prio)) [
  | inl t ↦ rw t (h, hs)
  | inr t ↦ rw t (hs.0, All-insert P m xs h hs.1)
]

bounded_mono :
    (a b : ℕ) (xs : List Message)
    → a ≤ b
    → All (λ (y : Message). y.prio ≤ a) xs
    → All (λ (y : Message). y.prio ≤ b) xs
bounded_mono a b [] h hs = tt
bounded_mono a b (x ∷ xs) h hs = (omega arith, bounded_mono a b xs h hs.1)

pub insert-IsOrdered : (m : Message) (xs : List Message) → IsOrdered xs → IsOrdered (insert m xs)
unfolding insert
insert-IsOrdered m [] h = (tt, tt)
insert-IsOrdered m (x ∷ xs) h = elim (Bool-cases (ltb x.prio m.prio)) [
  | inl t ↦ rw t ((ground arith, bounded_mono x.prio m.prio xs (ground arith) h.0), h)
  | inr t ↦
      rw t (All-insert (λ y. y.prio ≤ x.prio) m xs (ground arith) h.0, insert-IsOrdered m xs h.1)
]

of_prio-above :
    (p : ℕ) (xs : List Message)
    → All (λ (y : Message). y.prio ≤ p) xs
    → (q : ℕ) → suc p ≤ q
    → of_prio q xs ≡ []
unfolding of_prio
of_prio-above p [] h q lt = refl
of_prio-above p (x ∷ xs) h q lt = ground (arith, of_prio-above p xs h.1 q lt)

-- A message goes behind those of its own priority, and moves no other.
pub of_prio-insert :
    (p : ℕ) (m : Message) (xs : List Message)
    → IsOrdered xs
    → of_prio p (insert m xs) ≡ of_prio p xs ++ of_prio p (m ∷ [])
unfolding insert of_prio
of_prio-insert p m [] h = refl
of_prio-insert p m (x ∷ xs) h = elim (Bool-cases (ltb x.prio m.prio)) [
  | inl t ↦ rw t (elim (Bool-cases (m.prio == p)) [
    | inl e ↦ rw (e, of_prio-above x.prio (x ∷ xs) (omega arith, h.0) p (ground arith)) refl
    | inr e ↦ rw (e, append-nil) refl
  ])
  | inr t ↦ rw t (elim (Bool-cases (x.prio == p)) [
    | inl e ↦ rw e (ap (λ r. x ∷ r) (of_prio-insert p m xs h.1))
    | inr e ↦ rw e (of_prio-insert p m xs h.1)
  ])
]
