-- ===== src/ProcessPool/Tests.antt =====
-- Two children and one connection.
use com_tutor.Base.{ℕ, ◌+◌, ◌<◌, ◌≡◌, ◌≢◌, refl, Bool, true, false, [], length, update, arith}
use com_tutor.Base.Counts.{total}
use com_tutor.Base.Search.{first_from}
use com_tutor.ProcessPool.{
  serving, reading, selecting, State, Outcome, going, no_available_children, accept_connection, bit,
  parent_step, child_step,
}
use com_tutor.ProcessPool.Processes.{
  World, IsSelect, selects, child_goes, start, Reach, begins, later,
}
use com_tutor.ProcessPool.Invariant.{works, free}
use com_tutor.ProcessPool.Safety.{one_connection_each, child_is_found}

abbrev nobody : ℕ → Bool
nobody i = false

abbrev state_of : Outcome → State
state_of (going p s) = s
state_of (no_available_children s) = s
state_of _ = (start 0).state

-- The connection 7 is passed to child 0.
abbrev passed : World
passed = record {
  place = selecting;
  state = state_of (parent_step 2 true nobody 7 true selecting (start 2).state);
  children = λ i. reading;
}

idle-IsSelect : IsSelect 2 (start 2).state true nobody
unfolding total
idle-IsSelect = record { ready = λ i lt e. absurd (ground (arith, e)); some_ready = omega arith }

passed-Reach : Reach 2 passed
unfolding parent_step accept_connection first_from total
passed-Reach = later begins (selects true nobody 7 selecting passed.state refl idle-IsSelect refl)

-- It takes it.
abbrev taken : World
taken = record {
  place = selecting;
  state = record passed.state {
    passed = update passed.state.passed 0 [];
    told = update passed.state.told 0 0;
  };
  children = update passed.children 0 (serving 7);
}

taken-Reach : Reach 2 taken
unfolding parent_step accept_connection first_from total child_step
taken-Reach = later passed-Reach (child_goes 0 (serving 7) [] 0 (omega arith) refl)

one_connection_each_example :
    ((i : ℕ)
      → i < 2
      → length (taken.state.passed i) + works (taken.children i) + taken.state.told i
        ≡ bit (taken.state.child_status i))
    × (taken.state.navail ≡ total free 2 taken.state.child_status)
    × (total (λ k. k) 2 taken.state.child_count ≡ taken.state.accepted)
one_connection_each_example = one_connection_each 2 taken taken-Reach

taken_idle : IsSelect 2 taken.state true nobody
unfolding parent_step accept_connection first_from total
taken_idle = record { ready = λ i lt e. absurd (ground (arith, e)); some_ready = omega arith }

child_is_found_example :
    parent_step 2 true nobody 9 true selecting taken.state ≢ no_available_children taken.state
child_is_found_example = child_is_found 2 taken true nobody 9 taken.state taken-Reach taken_idle
