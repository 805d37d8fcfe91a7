-- ===== src/ProcessPool/Safety.antt =====
-- The children, the search for a free one, and the loop over them.
use com_tutor.Base.{
  ℕ, ◌+◌, ◌<◌, ◌≡◌, ◌≢◌, ◌⊎◌, refl, inl, inr, ◌∙◌, ap, subst, Bool, true, some, List, [], ◌∷◌,
  length, same_or_not, arith,
}
use com_tutor.Base.Counts.{total}
use com_tutor.ProcessPool.{
  Child, reading, telling, serving, selecting, scanning, State, no_available_children, bit,
  parent_step, child_step,
}
use com_tutor.ProcessPool.Processes.{World, IsSelect, Reach}
use com_tutor.ProcessPool.Invariant.{works, free, Scan}
use com_tutor.ProcessPool.Parent.{ParentKept, select-Kept, Reach-Holds}

-- In every reachable state of the processes a child has one connection, passed to it, in work, or told
-- to be done, if its child_status is 1, and none if it is 0; navail is the number of the children with
-- the status 0; and the child_count of all children add up to the connections accepted.
pub one_connection_each :
    (n : ℕ) (w : World)
    → Reach n w
    → ((i : ℕ)
        → i < n
        → length (w.state.passed i) + works (w.children i) + w.state.told i
          ≡ bit (w.state.child_status i))
      × (w.state.navail ≡ total free n w.state.child_status)
      × (total (λ k. k) n w.state.child_count ≡ w.state.accepted)
one_connection_each n w r = let h = Reach-Holds n w r in (h.loads, h.available, h.counted)

-- From no reachable state of the processes does the parent that accepts a connection fail to find a child
-- for it, whatever select finds ready.
pub child_is_found :
    (n : ℕ) (w : World) (listening : Bool) (rset : ℕ → Bool) (connfd : ℕ) (s' : State)
    → Reach n w
    → IsSelect n w.state listening rset
    → parent_step n listening rset connfd true selecting w.state ≢ no_available_children s'
child_is_found n w listening rset connfd s' r law e =
    subst (ParentKept n w.children) e
      (select-Kept n w listening rset connfd law (Reach-Holds n w r))

-- In the loop over the children nsel is the number of those still to come that have written, and not 0,
-- so that the loop ends at the last of them.
pub nsel_counts :
    (n : ℕ) (w : World) (i nsel : ℕ) (rset : ℕ → Bool)
    → Reach n w
    → w.place ≡ scanning i nsel rset
    → (i < n) × (0 < nsel) × (nsel + total bit i rset ≡ total bit n rset)
nsel_counts n w i nsel rset r e =
    let (le, told, sum, pos) = subst (Scan n w.state) e (Reach-Holds n w r).scan in
    (
      elim (same_or_not i n) [
        | inl q ↦ absurd (omega (arith, sum, pos, ap (λ k. total bit k rset) q))
        | inr ne ↦ omega (arith, le, ne)
      ],
      pos,
      sum,
    )

-- In every reachable state of the processes a child whose child_status is 1 can go on, or has told the
-- parent that it is done.
pub busy_child_goes :
    (n : ℕ) (w : World) (i : ℕ)
    → Reach n w
    → i < n
    → w.state.child_status i ≡ true
    → (0 < w.state.told i)
      ⊎ ((c : Child) × (passed : List ℕ) × (told : ℕ) × (child_step
              (w.state.passed i)
              (w.state.told i)
              (w.children i)
            ≡ some (c, passed, told)))
unfolding child_step
busy_child_goes n w i r lt busy =
    let h = Reach-Holds n w r in
    goes (w.state.passed i) (w.children i) (w.state.told i) (h.loads i lt ∙ ap bit busy)
  where
    goes :
        (passed : List ℕ) (c : Child) (told : ℕ)
        → length passed + works c + told ≡ 1
        → (0 < told)
          ⊎ ((c' : Child) × (passed' : List ℕ) × (told' : ℕ) × (child_step passed told c
                ≡ some (c', passed', told')))
    goes passed (serving fd) told e = inr (telling, passed, told, refl)
    goes passed telling told e = inr (reading, passed, told + 1, refl)
    goes [] reading told e = inl (omega (arith, e))
    goes (fd ∷ rest) reading told e = inr (serving fd, rest, told, refl)
