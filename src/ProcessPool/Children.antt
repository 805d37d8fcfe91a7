-- ===== src/ProcessPool/Children.antt =====
-- The steps of a child against the invariant.
use com_tutor.Base.{
  ℕ, ◌≤◌, ◌<◌, ◌≡◌, refl, inl, inr, sym, ◌∙◌, subst, Option, none, some, List, [], ◌∷◌, update,
  update_at, update_off, same_or_not, arith,
}
use com_tutor.ProcessPool.{
  Child, reading, telling, serving, Place, selecting, scanning, State, bit, child_step,
}
use com_tutor.ProcessPool.Processes.{World}
use com_tutor.ProcessPool.Invariant.{load, Scan, Holds}

abbrev Kept : (passed : List ℕ) → (told : ℕ) → Child → Option (Child × List ℕ × ℕ) → Type 0
Kept passed told c none = Unit
Kept passed told c (some (c', passed', told')) =
    (load passed' c' told' ≡ load passed c told) × (told ≤ told')

child_step-Kept :
    (passed : List ℕ) (told : ℕ) (c : Child) → Kept passed told c (child_step passed told c)
unfolding child_step
child_step-Kept [] told reading = tt
child_step-Kept (fd ∷ rest) told reading = (omega arith, omega arith)
child_step-Kept passed told (serving fd) = (refl, omega arith)
child_step-Kept passed told telling = (omega arith, omega arith)

pub Scan-more :
    (n : ℕ) (s s' : State) (p : Place) → ((j : ℕ) → s.told j ≤ s'.told j) → Scan n s p → Scan n s' p
Scan-more n s s' selecting more h = tt
Scan-more n s s' (scanning i nsel rset) more (lt, told, sum, pos) =
    (lt, λ j ge lt' e. omega (arith, told j ge lt' e, more j), sum, pos)

pub Holds-child :
    (n : ℕ) (w : World) (i : ℕ) (c' : Child) (passed' : List ℕ) (told' : ℕ)
    → child_step (w.state.passed i) (w.state.told i) (w.children i) ≡ some (c', passed', told')
    → Holds n w
    → Holds n (record w {
      state = record w.state {
        passed = update w.state.passed i passed';
        told = update w.state.told i told';
      };
      children = update w.children i c';
    })
Holds-child n w i c' passed' told' e h =
    let s = w.state in
    let (same, more) =
      subst (Kept (s.passed i) (s.told i) (w.children i)) e
        (child_step-Kept (s.passed i) (s.told i) (w.children i)) in
    let grows : (j : ℕ) → s.told j ≤ update s.told i told' j = λ j. elim (same_or_not i j) [
      | inl q ↦
          subst (λ k. s.told k ≤ update s.told i told' k) q
            (omega (arith, more, update_at s.told i told'))
      | inr q ↦ omega (arith, update_off s.told i told' j q)
    ] in
    record {
      loads = λ j lt. elim (same_or_not i j) [
        | inl q ↦
            subst
              (λ k.
                load (update s.passed i passed' k) (update w.children i c' k)
                  (update s.told i told' k)
                ≡ bit (s.child_status k))
              q
              (rw
                (update_at s.passed i passed', update_at w.children i c', update_at s.told i told')
                (same ∙ h.loads i (subst (λ k. k < n) (sym q) lt)))
        | inr q ↦
            rw
              (
                update_off s.passed i passed' j q,
                update_off w.children i c' j q,
                update_off s.told i told' j q,
              )
              (h.loads j lt)
      ];
      available = h.available;
      counted = h.counted;
      scan =
          Scan-more n s
            (record s { passed = update s.passed i passed'; told = update s.told i told' }) w.place
            grows h.scan;
    }
