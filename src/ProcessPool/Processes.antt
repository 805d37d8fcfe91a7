-- ===== src/ProcessPool/Processes.antt =====
-- The parent and `n` children, interleaved in any order.
use com_tutor.Base.{ℕ, ◌+◌, ◌<◌, ◌≡◌, Bool, true, false, ◌&&◌, some, List, ltb, update}
use com_tutor.Base.Counts.{total}
use com_tutor.ProcessPool.{
  Child, reading, Place, selecting, scanning, State, initial, going, bit, parent_step, child_step,
}

pub record World : Type 0 where
  pub place : Place
  pub state : State
  pub children : ℕ → Child

-- select gives children that have written a byte, and it waits for a descriptor at least.
pub record IsSelect (n : ℕ) (s : State) (listening : Bool) (rset : ℕ → Bool) : Type 0 where
  pub ready : (i : ℕ) → i < n → rset i ≡ true → 0 < s.told i
  pub some_ready : 0 < bit (listening && ltb 0 s.navail) + total bit n rset

pub data Step (n : ℕ) (w : World) : World → Type 0 where
  selects :
      (listening : Bool) (rset : ℕ → Bool) (connfd : ℕ) (p' : Place) (s' : State)
      → w.place ≡ selecting
      → IsSelect n w.state listening rset
      → parent_step n listening rset connfd true selecting w.state ≡ going p' s'
      → Step n w (record w { place = p'; state = s' })
  -- No child has closed its end of the stream: Read gives a byte.
  scans :
      (i nsel : ℕ) (rset : ℕ → Bool) (p' : Place) (s' : State)
      → w.place ≡ scanning i nsel rset
      → parent_step n false rset 0 true (scanning i nsel rset) w.state ≡ going p' s'
      → Step n w (record w { place = p'; state = s' })
  child_goes :
      (i : ℕ) (c' : Child) (passed' : List ℕ) (told' : ℕ)
      → i < n
      → child_step (w.state.passed i) (w.state.told i) (w.children i) ≡ some (c', passed', told')
      → Step n w (record w {
        state = record w.state {
          passed = update w.state.passed i passed';
          told = update w.state.told i told';
        };
        children = update w.children i c';
      })

abbrev pub start : (n : ℕ) → World
start n = record { place = selecting; state = initial n; children = λ i. reading }

pub data Reach (n : ℕ) : World → Type 0 where
  begins : Reach n (start n)
  later : {w w' : World} → Reach n w → Step n w w' → Reach n w'
