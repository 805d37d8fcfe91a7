-- ===== src/SharedFile.antt =====
-- How a process that finds a shared file waits until its creator has initialised it: the loop of
-- mymq_open (unixipc/my_pxmsg_mmap/mq_open.c) and of mysem_open (unixipc/my_pxsem_mmap/sem_open.c).
-- The creator keeps the bit S_IXUSR of the file on until it has finished.
use com_tutor.Base.{
  ℕ, zero, suc, ◌+◌, ◌<◌, ◌≡◌, refl, subst, Bool, true, false, arith, if◌then◌else◌,
}
use com_tutor.Base.Errno.{Errno, enoent, etimedout}

-- What `stat` says: an error, or whether S_IXUSR is set.
pub data Stat : Type 0 where
  stat_error : Errno → Stat
  mode : (executable : Bool) → Stat

-- How the wait for the creator ends.
pub data Wait : Type 0 where
  ready again : Wait
  stopped : Errno → Wait

-- The loop over `stat`, `i` rounds done and `tries` left. A missing file leads back to `again` if
-- O_CREAT is set.
unfoldable pub wait_ready : (tries : ℕ) → (creat : Bool) → (ℕ → Stat) → (i : ℕ) → Wait
wait_ready zero creat stats i = stopped etimedout
wait_ready (suc n) creat stats i =
    let rest = wait_ready n creat stats (i + 1) in
    elim (stats i) [
      | stat_error enoent ↦ if creat then again else stopped enoent
      | stat_error e ↦ stopped e
      | mode executable ↦ if executable then rest else ready
    ]

abbrev pub max_tries : ℕ
max_tries = 10

-- What the wait for the creator has seen when it ends well: in some round within its tries a file
-- whose S_IXUSR is off, and in every round before it a file whose S_IXUSR is on.
pub record SawReady (tries : ℕ) (stats : ℕ → Stat) (first : ℕ) : Type 0 where
  pub round : ℕ
  pub in_time : round < tries
  pub ready_then : stats (first + round) ≡ mode false
  pub not_before : (j : ℕ) → j < round → stats (first + j) ≡ mode true

saw_later :
    (n : ℕ) (stats : ℕ → Stat) (i : ℕ)
    → stats i ≡ mode true
    → SawReady n stats (i + 1)
    → SawReady (suc n) stats i
saw_later n stats i e s = record {
  round = suc s.round;
  in_time = omega (arith, s.in_time);
  ready_then =
      let at : i + 1 + s.round ≡ i + suc s.round = omega arith in
      subst (λ k. stats k ≡ mode false) at s.ready_then;
  not_before = before;
}
  where
    before : (j : ℕ) → j < suc s.round → stats (i + j) ≡ mode true
    before zero h = let at : i ≡ i + 0 = omega arith in subst (λ k. stats k ≡ mode true) at e
    before (suc j) h =
        let at : i + 1 + j ≡ i + suc j = omega arith in
        subst (λ k. stats k ≡ mode true) at (s.not_before j (omega arith))

pub wait_ready-SawReady :
    (tries : ℕ) (creat : Bool) (stats : ℕ → Stat) (i : ℕ)
    → wait_ready tries creat stats i ≡ ready
    → SawReady tries stats i
unfolding wait_ready
wait_ready-SawReady zero creat stats i h = cc
wait_ready-SawReady (suc n) creat stats i h =
    look (stats i) refl (wait_ready-SawReady n creat stats (i + 1))
  where
    look :
        (s : Stat)
        → stats i ≡ s
        → (wait_ready n creat stats (i + 1) ≡ ready → SawReady n stats (i + 1))
        → SawReady (suc n) stats i
    look (mode true) e later = saw_later n stats i e (later (ground arith))
    look (mode false) e later = record {
      round = 0;
      in_time = omega arith;
      ready_then = let at : i ≡ i + 0 = omega arith in subst (λ k. stats k ≡ mode false) at e;
      not_before = λ j lt. absurd (omega arith);
    }
    look (stat_error x) e later = absurd (ground arith)
