-- ===== src/ProcessPool.antt =====
-- unixNetV1/server/serv05.c, child05.c and child.h: a parent accepts connections and passes each to a
-- child process that is free; a child that is done writes a byte back. `…_step` is one step of a
-- process.
pub mod Processes
pub mod Invariant
pub mod Children
pub mod Parent
pub mod Safety
mod Tests
use com_tutor.Base.{
  ℕ, zero, suc, ◌+◌, ◌-◌, Bool, true, false, ◌&&◌, not, Option, none, some, List, [], ◌∷◌, ◌++◌,
  ltb, ◌==◌, if◌then◌else◌, update,
}
use com_tutor.Base.Counts.{total}
use com_tutor.Base.Search.{first_from}

-- Where a child is: in read_fd, before it has served and closed a connection, before it tells the
-- parent.
pub data Child : Type 0 where
  reading telling : Child
  serving : (connfd : ℕ) → Child

-- Where the parent is: before select; or at child `i` of the loop that looks for free children, with
-- what is left of nsel, and rset.
pub data Place : Type 0 where
  selecting : Place
  scanning : (i nsel : ℕ) (rset : ℕ → Bool) → Place

-- cptr, with child_status 1 as `true`, and navail; and, of the stream pipes, the descriptors on the way
-- to each child and the bytes on the way back. `accepted` is the number of connections so far.
pub record State : Type 0 where
  pub child_status : ℕ → Bool
  pub child_count : ℕ → ℕ
  pub navail : ℕ
  pub passed : ℕ → List ℕ
  pub told : ℕ → ℕ
  pub accepted : ℕ

abbrev pub initial : (nchildren : ℕ) → State
initial nchildren = record {
  child_status = λ i. false;
  child_count = λ i. 0;
  navail = nchildren;
  passed = λ i. [];
  told = λ i. 0;
  accepted = 0;
}

pub data Outcome : Type 0 where
  going : Place → State → Outcome
  no_available_children : State → Outcome
  child_terminated : (i : ℕ) → State → Outcome

-- The first child with the status 0 among `n` children.
abbrev pub find : (ℕ → Bool) → (n : ℕ) → ℕ
find child_status n = first_from (λ i. not (child_status i)) 0 n

-- The connection goes to child `i`.
abbrev pub pass : (i connfd : ℕ) → State → State
pass i connfd s = record {
  child_status = update s.child_status i true;
  child_count = update s.child_count i (s.child_count i + 1);
  navail = s.navail - 1;
  passed = update s.passed i (s.passed i ++ (connfd ∷ []));
  told = s.told;
  accepted = s.accepted + 1;
}

unfoldable pub accept_connection : (nchildren connfd nsel : ℕ) → (rset : ℕ → Bool) → State → Outcome
accept_connection nchildren connfd nsel rset s =
    let i = find s.child_status nchildren in
    if i == nchildren
    then no_available_children s
    else going (if nsel - 1 == 0 then selecting else scanning 0 (nsel - 1) rset) (pass i connfd s)

-- Child `i` is free again. A read of 0 bytes is the end of its stream.
abbrev pub free_child : (i nsel : ℕ) → (rset : ℕ → Bool) → (byte : Bool) → State → Outcome
free_child i nsel rset false s = child_terminated i s
free_child i nsel rset true s =
    going (if nsel - 1 == 0 then selecting else scanning (i + 1) (nsel - 1) rset) (record s {
      child_status = update s.child_status i false;
      navail = s.navail + 1;
      told = update s.told i (s.told i - 1);
    })

abbrev pub bit : Bool → ℕ
bit true = 1
bit false = 0

-- What select finds: whether a connection waits, and which children have written. listenfd is not
-- asked for when no child is available.
unfoldable pub parent_step :
    (nchildren : ℕ)
    → (listening : Bool) → (rset : ℕ → Bool) → (connfd : ℕ) → (byte : Bool) → Place
    → State
    → Outcome
unfolding accept_connection
parent_step nchildren listening rset connfd byte selecting s =
    let ready : Bool = listening && ltb 0 s.navail in
    let nsel : ℕ = bit ready + total bit nchildren rset in
    if ready then accept_connection nchildren connfd nsel rset s else going (scanning 0 nsel rset) s
parent_step nchildren listening _ connfd byte (scanning i nsel rset) s =
    if ltb i nchildren
    then (if rset i then free_child i nsel rset byte s else going (scanning (i + 1) nsel rset) s)
    else going selecting s

-- The steps of child `i`: the connections passed to it, and the bytes it has told.
unfoldable pub child_step : List ℕ → (told : ℕ) → Child → Option (Child × List ℕ × ℕ)
child_step [] told reading = none
child_step (connfd ∷ rest) told reading = some (serving connfd, rest, told)
child_step passed told (serving connfd) = some (telling, passed, told)
child_step passed told telling = some (reading, passed, told + 1)
