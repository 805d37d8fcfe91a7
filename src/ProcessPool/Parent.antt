-- ===== src/ProcessPool/Parent.antt =====
-- The steps of the parent against the invariant, and the reachable states.
use com_tutor.Base.{
  ℕ, ◌+◌, ◌-◌, ◌<◌, ◌≡◌, refl, inl, inr, sym, ap, subst, Bool, true, false, ◌&&◌, not, [], ◌∷◌,
  ◌++◌, length-append, ltb, ◌==◌, ==→eq, if◌then◌else◌, if_induction, update, update_at, update_off,
  same_or_not, arith,
}
use com_tutor.Base.Counts.{total, total-zero, total-next, total-update, total-find, total-const}
use com_tutor.Base.Search.{first_from-found}
use com_tutor.ProcessPool.{
  Child, Place, selecting, scanning, State, Outcome, going, no_available_children, child_terminated,
  find, pass, accept_connection, free_child, bit, parent_step,
}
use com_tutor.ProcessPool.Processes.{
  World, IsSelect, Step, selects, scans, child_goes, start, Reach, begins, later,
}
use com_tutor.ProcessPool.Invariant.{load, free, Scan, Holds}
use com_tutor.ProcessPool.Children.{Holds-child}

abbrev pub ParentKept : (n : ℕ) → (ℕ → Child) → Outcome → Type 0
ParentKept n children (going p s) = Holds n (record { place = p; state = s; children = children })
ParentKept n children (no_available_children s) = ⊥
ParentKept n children (child_terminated i s) = Unit

module _ (n : ℕ) (w : World) (h : Holds n w) where
  pass-Holds :
      (i connfd : ℕ) (p : Place)
      → i < n
      → w.state.child_status i ≡ false
      → Scan n (pass i connfd w.state) p
      → Holds n (record w { place = p; state = pass i connfd w.state })
  pass-Holds i connfd p lt e scan =
      let s = w.state in
      let freed = total-update free n s.child_status i false true lt e in
      record {
        loads = λ j lt'. elim (same_or_not i j) [
          | inl q ↦
              subst
                (λ k.
                  load (update s.passed i (s.passed i ++ (connfd ∷ [])) k) (w.children k) (s.told k)
                  ≡ bit (update s.child_status i true k))
                q
                (rw
                  (
                    update_at s.passed i (s.passed i ++ (connfd ∷ [])),
                    update_at s.child_status i true,
                  )
                  (omega (arith, length-append (s.passed i) (connfd ∷ []), h.loads i lt, ap bit e)))
          | inr q ↦
              rw
                (
                  update_off s.passed i (s.passed i ++ (connfd ∷ [])) j q,
                  update_off s.child_status i true j q,
                )
                (h.loads j lt')
        ];
        available = omega (arith, freed, h.available);
        counted = omega (
          arith,
          total-update (λ k. k) n s.child_count i (s.child_count i) (s.child_count i + 1) lt refl,
          h.counted,
        );
        scan = scan;
      }

  accept-Kept :
      (connfd nsel : ℕ) (rset : ℕ → Bool)
      → 0 < w.state.navail
      → nsel ≡ 1 + total bit n rset
      → ((j : ℕ) → j < n → rset j ≡ true → 0 < w.state.told j)
      → ParentKept n w.children (accept_connection n connfd nsel rset w.state)
  unfolding accept_connection
  accept-Kept connfd nsel rset some_free sum ready =
      let s = w.state in
      let i = find s.child_status n in
      let (j, lt, e) = total-find free n s.child_status (omega (arith, some_free, h.available)) in
      let (within, e') =
        first_from-found (λ k. not (s.child_status k)) n j lt (is_free (s.child_status j) e) in
      let p = if nsel - 1 == 0 then selecting else scanning 0 (nsel - 1) rset in
      if_induction (ParentKept n w.children) (i == n) (no_available_children s)
        (going p (pass i connfd s)) (λ q. absurd (omega (arith, ==→eq i n q, within)))
        (λ q. pass-Holds i connfd p within (status_0 (s.child_status i) e') (
          if_induction (Scan n (pass i connfd s)) (nsel - 1 == 0) selecting
            (scanning 0 (nsel - 1) rset) (λ z. tt)
            (λ z. (
              omega arith,
              λ j ge lt' e. ready j lt' e,
              omega (arith, sum, total-zero bit rset),
              ground (arith, z),
            ))))
    where
      is_free : (b : Bool) → 0 < free b → not b ≡ true
      is_free b q = ground (arith, q)

      status_0 : (b : Bool) → not b ≡ true → b ≡ false
      status_0 b q = ground (arith, q)

  free-Holds :
      (i : ℕ) (p : Place)
      → i < n
      → 0 < w.state.told i
      → let s' : State = record w.state {
        child_status = update w.state.child_status i false;
        navail = w.state.navail + 1;
        told = update w.state.told i (w.state.told i - 1);
      } in
        Scan n s' p → Holds n (record w { place = p; state = s' })
  free-Holds i p lt some_told scan =
      let s = w.state in
      let busy : s.child_status i ≡ true =
        is_busy (s.child_status i) (omega (arith, h.loads i lt, some_told)) in
      record {
        loads = λ j lt'. elim (same_or_not i j) [
          | inl q ↦
              subst
                (λ k.
                  load (s.passed k) (w.children k) (update s.told i (s.told i - 1) k)
                  ≡ bit (update s.child_status i false k))
                q
                (rw (update_at s.told i (s.told i - 1), update_at s.child_status i false)
                  (omega (arith, some_told, h.loads i lt, ap bit busy)))
          | inr q ↦
              rw (update_off s.told i (s.told i - 1) j q, update_off s.child_status i false j q)
                (h.loads j lt')
        ];
        available =
            omega (arith, total-update free n s.child_status i true false lt busy, h.available);
        counted = h.counted;
        scan = scan;
      }
    where
      is_busy : (b : Bool) → 0 < bit b → b ≡ true
      is_busy b q = ground (arith, q)

  pub scan-Kept :
      (i nsel : ℕ) (rset : ℕ → Bool)
      → Scan n w.state (scanning i nsel rset)
      → ParentKept n w.children (parent_step n false rset 0 true (scanning i nsel rset) w.state)
  unfolding parent_step
  scan-Kept i nsel rset (le, told, sum, pos) =
      if_induction (ParentKept n w.children) (ltb i n)
        (if rset i
          then free_child i nsel rset true w.state
          else going (scanning (i + 1) nsel rset) w.state)
        (going selecting w.state)
        (λ lt.
          if_induction (ParentKept n w.children) (rset i) (free_child i nsel rset true w.state)
            (going (scanning (i + 1) nsel rset) w.state) (λ q. freed (ground (arith, lt)) q)
            (λ q. passed_by (ground (arith, lt)) q))
        (λ ge. record { loads = h.loads; available = h.available; counted = h.counted; scan = tt })
    where
      next : total bit (i + 1) rset ≡ total bit i rset + bit (rset i)
      next = total-next bit i rset

      passed_by : i < n → rset i ≡ false → Holds n (record w { place = scanning (i + 1) nsel rset })
      passed_by lt q = record {
        loads = h.loads;
        available = h.available;
        counted = h.counted;
        scan = (
          omega (arith, lt),
          λ j ge lt' e. told j (omega (arith, ge)) lt' e,
          omega (arith, next, ap bit q, sum),
          pos,
        );
      }

      freed : i < n → rset i ≡ true → ParentKept n w.children (free_child i nsel rset true w.state)
      freed lt q =
          let s' : State = record w.state {
            child_status = update w.state.child_status i false;
            navail = w.state.navail + 1;
            told = update w.state.told i (w.state.told i - 1);
          } in
          free-Holds i (if nsel - 1 == 0 then selecting else scanning (i + 1) (nsel - 1) rset) lt
            (told i (omega arith) lt q)
            (if_induction (Scan n s') (nsel - 1 == 0) selecting (scanning (i + 1) (nsel - 1) rset)
              (λ z. tt)
              (λ z. (
                omega (arith, lt),
                λ j ge lt' e.
                    subst (λ k. 0 < k)
                      (sym (
                        update_off w.state.told i (w.state.told i - 1) j
                          (λ o. omega (arith, o, ge))))
                      (told j (omega (arith, ge)) lt' e),
                omega (arith, next, ap bit q, sum, pos),
                ground (arith, z),
              )))

pub select-Kept :
    (n : ℕ) (w : World) (listening : Bool) (rset : ℕ → Bool) (connfd : ℕ)
    → IsSelect n w.state listening rset
    → Holds n w
    → ParentKept n w.children (parent_step n listening rset connfd true selecting w.state)
unfolding parent_step
select-Kept n w listening rset connfd law h =
    let s = w.state in
    let ready : Bool = listening && ltb 0 s.navail in
    let nsel : ℕ = bit ready + total bit n rset in
    if_induction (ParentKept n w.children) ready (accept_connection n connfd nsel rset s)
      (going (scanning 0 nsel rset) s)
      (λ q.
        accept-Kept n w h connfd nsel rset (ground (arith, q)) (omega (arith, ap bit q)) law.ready)
      (λ q. record {
        loads = h.loads;
        available = h.available;
        counted = h.counted;
        scan = (
          omega arith,
          λ j ge lt e. law.ready j lt e,
          omega (arith, ap bit q, total-zero bit rset),
          law.some_ready,
        );
      })

start-Holds : (n : ℕ) → Holds n (start n)
start-Holds n = record {
  loads = λ i lt. refl;
  available = omega (arith, total-const free n false);
  counted = omega (arith, total-const (λ k. k) n 0);
  scan = tt;
}

Step-Holds : (n : ℕ) (w w' : World) → Holds n w → Step n w w' → Holds n w'
Step-Holds n w _ h (selects listening rset connfd p' s' e law q) =
    subst (ParentKept n w.children) q (select-Kept n w listening rset connfd law h)
Step-Holds n w _ h (scans i nsel rset p' s' e q) =
    subst (ParentKept n w.children) q
      (scan-Kept n w h i nsel rset (subst (Scan n w.state) e h.scan))
Step-Holds n w _ h (child_goes i c' passed' told' lt e) = Holds-child n w i c' passed' told' e h

pub Reach-Holds : (n : ℕ) (w : World) → Reach n w → Holds n w
Reach-Holds n _ begins = start-Holds n
Reach-Holds n _ (later {w = w} {w' = w'} r s) = Step-Holds n w w' (Reach-Holds n w r) s
