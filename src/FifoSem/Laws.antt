-- ===== src/FifoSem/Laws.antt =====
-- How mysem_open on a FIFO ends, and the calls against those on a mapped file.
use com_tutor.Base.{
  ℕ, zero, suc, ◌+◌, ◌-◌, ◌≤◌, ◌<◌, ◌≡◌, ◌≢◌, ◌⊎◌, inl, inr, refl, ◌∙◌, ap, Bool, true, false, none,
  some, [], if◌then◌else◌, arith, Bool-cases, eq→==, ne→==, ltb, ltb→lt, ◌==◌, ◌||◌,
}
use com_tutor.Base.Errno.{Errno, eagain, eexist}
use com_tutor.Semaphore.{Sem, Reply, done, asleep, failed, sem_magic, increment, word}
use com_tutor.Semaphore
use com_tutor.SystemV.Calls.{mapped}
use com_tutor.FifoSem.{
  Handle, fifo_magic, took_byte, at_end, blocks, read_error, Pipe, IsPipe, Fds, Env, OpenAnswer,
  open_error, got_fd, Answers, Opened, opened, open_failed, unlinked, fill, attach, mysem_open,
  mysem_post, mysem_wait,
}

-- mkfifo makes a path that was not there, and says EEXIST of one that was.
pub record IsMkfifo (a : Answers) (s : Env) : Type 0 where
  pub makes : a.mkfifo ≡ none → s.path ≡ false
  pub finds : a.mkfifo ≡ some eexist → s.path ≡ true

-- open gives descriptors that are not open yet.
abbrev pub IsFresh : (open_read open_write : OpenAnswer) → Fds → Type 0
IsFresh (open_error e) w fds = Unit
IsFresh (got_fd fd0) (open_error e) fds = fds fd0 ≡ false
IsFresh (got_fd fd0) (got_fd fd1) fds = (fds fd0 ≡ false) × (fds fd1 ≡ false) × (fd0 ≢ fd1)

abbrev pub is_opened : Opened → Bool
is_opened (opened fd0 fd1) = true
is_opened (open_failed e) = false

-- The descriptors that are open after the call: with the two of the semaphore, if there is one.
abbrev pub open_after : Opened → Fds → Fds
open_after (opened fd0 fd1) fds j = (j == fd0) || ((j == fd1) || fds j)
open_after (open_failed e) fds j = fds j

-- attach leaves the path as it was, or has unlinked it if it fails and the call had made it.
attach_ends :
    (p : Pipe) (creat : Bool) (value : ℕ) (a : Answers) (s : Env)
    → let (r, s') = attach p creat value a s in
      ((is_opened r ≡ true) × (s'.path ≡ s.path))
      ⊎ ((is_opened r ≡ false)
          × (((a.malloc ≢ none) × (s'.path ≡ s.path))
              ⊎ (s'.path ≡ (if creat then unlinked a.unlink s.path else s.path))))
unfolding attach
attach_ends p creat value a s = ground arith

attach_fds :
    (p : Pipe) (creat : Bool) (value : ℕ) (a : Answers) (s : Env)
    → IsFresh a.open_read a.open_write s.fds
    → (j : ℕ) → let (r, s') = attach p creat value a s in s'.fds j ≡ open_after r s.fds j
unfolding attach
attach_fds p creat value a s fresh j = ground (arith, fresh)

fill_runs :
    (p : Pipe) (capacity : ℕ)
    → IsPipe p capacity
    → (n u : ℕ) → u ≤ capacity
    → ((u + n ≤ capacity) × (fill p n u ≡ (none, u + n)))
      ⊎ ((capacity < u + n) × (fill p n u ≡ (some eagain, capacity)))
unfolding fill
fill_runs p capacity is zero u h = inl (omega (arith, h), ap (λ v. (none, v)) (omega arith))
fill_runs p capacity is (suc n) u h = elim (Bool-cases (ltb u capacity)) [
  | inl room ↦
      let less : u < capacity = ltb→lt u capacity room in
      elim (fill_runs p capacity is n (u + 1) (omega (arith, less))) [
        | inl (fits, e) ↦ inl (
          omega (arith, fits),
          rw (fill, is.writes u less) (e ∙ ap (λ v. (none, v)) (omega arith)),
        )
        | inr (more, e) ↦ inr (omega (arith, more), rw (fill, is.writes u less) e)
      ]
  | inr no_room ↦
      let same : u ≡ capacity = ground (arith, no_room, h) in
      inr (omega (arith, same), rw (fill, same, is.full) (ap (λ v. (some eagain, v)) same))
]

-- A mysem_open on a FIFO that succeeds has two descriptors open, those of the semaphore, besides those
-- that were. One that fails has none besides those that were, and leaves the path as it was; but a FIFO
-- that it has made stays if malloc or unlink fails.
pub open_restores :
    (p : Pipe) (creat excl : Bool) (value : ℕ) (a : Answers) (s : Env)
    → IsMkfifo a s
    → IsFresh a.open_read a.open_write s.fds
    → let (r, s') = mysem_open p creat excl value a s in
      ((j : ℕ) → s'.fds j ≡ open_after r s.fds j)
      × ((is_opened r ≡ true)
          ⊎ ((is_opened r ≡ false)
              × ((s'.path ≡ s.path)
                  ⊎ ((s.path ≡ false)
                      × (a.mkfifo ≡ none)
                      × ((a.malloc ≢ none) ⊎ (a.unlink ≢ none))
                      × (s'.path ≡ true)))))
unfolding mysem_open
open_restores p false excl value a s is fresh = (
  attach_fds p false value a s fresh,
  elim (attach_ends p false value a s) [
    | inl (r, same) ↦ inl r
    | inr (r, inl (m, same)) ↦ inr (r, inl same)
    | inr (r, inr same) ↦ inr (r, inl same)
  ],
)
open_restores p true excl value a s is fresh = (
  λ j. ground (
    arith,
    attach_fds p false value a s fresh j,
    attach_fds p true value a (record s { path = true; units = 0 }) fresh j,
  ),
  ground (
    arith,
    attach_ends p false value a s,
    attach_ends p true value a (record s { path = true; units = 0 }),
    is.makes,
  ),
)

-- The FIFO that mysem_open makes, when no call but write fails, holds the value; unless the value is above
-- its capacity, when the call fails with EAGAIN and unlinks the path.
pub open_fills :
    (p : Pipe) (capacity : ℕ)
    → IsPipe p capacity
    → (excl : Bool) (value : ℕ) (a : Answers) (s : Env) {fd0 fd1 : ℕ} → a.mkfifo ≡ none
    → a.malloc ≡ none
    → a.open_read ≡ got_fd fd0
    → a.open_write ≡ got_fd fd1
    → a.getfl ≡ none
    → a.setfl ≡ none
    → a.unlink ≡ none
    → let (r, s') = mysem_open p true excl value a s in
      ((value ≤ capacity) × (r ≡ opened fd0 fd1) × (s'.units ≡ value) × (s'.path ≡ true))
      ⊎ ((capacity < value) × (r ≡ open_failed eagain) × (s'.path ≡ false))
unfolding mysem_open attach
open_fills p capacity is excl value a s e0 e1 e2 e3 e4 e5 e6 =
    elim (fill_runs p capacity is value 0 (omega arith)) [
      | inl (fits, e) ↦
          rw (mysem_open, e0, attach, e1, e2, e3, e4, e5, e)
            (inl (omega (arith, fits), refl, ap (λ z. z.1) e ∙ omega arith, refl))
      | inr (more, e) ↦
          rw (mysem_open, e0, attach, e1, e2, e3, e4, e5, e, e6)
            (inr (omega (arith, more), refl, refl))
    ]

-- If the FIFO does what is documented, the calls on an open handle reply as those of my_pxsem_mmap on a
-- semaphore with as many units, and leave as many: post below the capacity, and a wait that is not
-- woken. At the capacity, post fails with EAGAIN.
pub fifo_calls_agree :
    (p : Pipe) (capacity : ℕ)
    → IsPipe p capacity
    → capacity < word
    → (h : Handle) → h.magic ≡ fifo_magic
    → (errno : Errno) (u : ℕ) → u < capacity
    → (let (r, b, s) = Semaphore.mysem_post 0 (mapped u) in mysem_post p h u ≡ (r, s.count))
      × (let (r, s) = Semaphore.mysem_wait 0 [] (mapped u) in mysem_wait p errno h u ≡ (r, s.count))
      × (mysem_post p h capacity ≡ (failed eagain, capacity))
unfolding mysem_post mysem_wait Semaphore.mysem_post Semaphore.mysem_wait Semaphore.wait_loop
fifo_calls_agree p capacity is small h magic errno u room = rw (eq→== h.magic fifo_magic magic) (
  rw (is.writes u room) (ap (λ c. (done, c)) (omega (arith, room, small))),
  wait_agrees u,
  rw is.full refl,
)
  where
    wait_agrees :
        (u : ℕ)
        → (let (r, s) = Semaphore.mysem_wait 0 [] (mapped u) in
            elim (p.read u) as (λ x. Reply × ℕ) [
              | took_byte ↦ (done, u - 1)
              | at_end ↦ (failed errno, u)
              | blocks ↦ (asleep, u)
              | read_error e ↦ (failed e, u)
            ]
            ≡ (r, s.count))
    wait_agrees zero = rw is.waits refl
    wait_agrees (suc v) = rw (is.takes v, ne→== (suc v) 0 (omega arith)) refl
