-- ===== src/StreamIo.antt =====
-- unixNetV1/lib: readn, writen and readline, the loops round read and write on a descriptor.
pub mod Laws
pub mod Lines
pub mod Writing
mod Tests
use com_tutor.Base.{
  ℕ, zero, suc, ◌+◌, ◌-◌, ◌≤◌, ◌<◌, ◌≡◌, ◌⊎◌, Bool, true, false, List, [], ◌∷◌, ◌++◌, length, take,
  drop, ltb, ◌==◌, if◌then◌else◌,
}
use com_tutor.Base.Int.{ℤ, pos, negsuc, is_pos}
use com_tutor.Base.Errno.{Errno}

-- What read answers: bytes, the end of the file, EINTR, or another error.
pub data Answer : Type 0 where
  got : List ℕ → Answer
  eof interrupted : Answer
  refused : Errno → Answer

-- The descriptor that is read: the kernel's read, and what it promises. `pending` are the bytes that
-- are to come before the end of the file, and `interrupts` bounds how often a signal interrupts a read.
pub record Reader : Type 1 where
  pub State : Type 0
  pub read : State → (n : ℕ) → Answer × State
  pub pending : State → List ℕ
  pub interrupts : State → ℕ
  -- A read gives a byte at least and `n` at most, the next ones of the stream.
  pub got_law :
      (s : State) (n : ℕ) (bs : List ℕ) (s' : State)
      → read s n ≡ (got bs, s')
      → (0 < length bs)
        × (length bs ≤ n)
        × (pending s ≡ bs ++ pending s')
        × (interrupts s' ≤ interrupts s)
  pub eof_law :
      (s : State) (n : ℕ) (s' : State)
      → 0 < n
      → read s n ≡ (eof, s')
      → (pending s ≡ []) × (pending s' ≡ [])
  pub interrupted_law :
      (s : State) (n : ℕ) (s' : State)
      → read s n ≡ (interrupted, s')
      → (pending s' ≡ pending s) × (interrupts s' < interrupts s)
  pub refused_law :
      (s : State) (n : ℕ) (e : Errno) (s' : State)
      → read s n ≡ (refused e, s')
      → pending s' ≡ pending s

-- A read of `n` bytes at most is answered with the error, and leaves the descriptor so.
abbrev pub IsReadError : (d : Reader) → (n : ℕ) → Errno → d.State → Type 0
IsReadError d n e s' = (s : d.State) × (d.read s n ≡ (refused e, s'))

-- How a loop ends: with this many bytes left, with an error, or out of rounds.
pub data End : Type 0 where
  stopped : (nleft : ℕ) → End
  failed : Errno → End
  looping : End

-- What a call comes to: the number it returns; -1 with `errno`, or with the `errno` of before; or a
-- loop out of rounds.
pub data Reply : Type 0 where
  returned : ℕ → Reply
  refusal : Errno → Reply
  stale endless : Reply

abbrev pub reply : (n : ℕ) → End → Reply
reply n (stopped nleft) = returned (n - nleft)
reply n (failed e) = refusal e
reply n looping = endless

module _ (d : Reader) where
  open d use {State, read}

  -- The loop of readn: how it ends, the bytes it stores from `ptr` on, and the descriptor.
  unfoldable pub readn_loop : (rounds nleft : ℕ) → State → End × List ℕ × State
  readn_loop zero nleft s = (looping, [], s)
  readn_loop (suc k) nleft s =
      if nleft == 0
      then (stopped 0, [], s)
      else (let (answer, s') = read s nleft in
          elim answer [
            | interrupted ↦ readn_loop k nleft s'
            | refused e ↦ (failed e, [], s')
            | eof ↦ (stopped nleft, [], s')
            | got bs ↦
                (let (e, more, s'') = readn_loop k (nleft - length bs) s' in (e, bs ++ more, s''))
          ])

  unfoldable pub readn : (rounds n : ℕ) → State → Reply × List ℕ × State
  unfolding readn_loop
  readn rounds n s = let (e, bs, s') = readn_loop rounds n s in (reply n e, bs, s')

-- What write answers: how many bytes it has taken, EINTR, or another error.
pub data Taken : Type 0 where
  took : ℕ → Taken
  signalled : Taken
  denied : Errno → Taken

-- The descriptor that is written. `sink` are the bytes that it has taken.
pub record Writer : Type 1 where
  pub State : Type 0
  pub write : State → List ℕ → Taken × State
  pub sink : State → List ℕ
  pub interrupts : State → ℕ
  pub took_law :
      (s : State) (bs : List ℕ) (k : ℕ) (s' : State)
      → write s bs ≡ (took k, s')
      → (k ≤ length bs) × (sink s' ≡ sink s ++ take k bs) × (interrupts s' ≤ interrupts s)
  pub other_law :
      (s : State) (bs : List ℕ) (t : Taken) (s' : State)
      → write s bs ≡ (t, s')
      → (t ≡ signalled) ⊎ ((e : Errno) × (t ≡ denied e))
      → sink s' ≡ sink s
  pub signalled_law :
      (s : State) (bs : List ℕ) (s' : State)
      → write s bs ≡ (signalled, s')
      → interrupts s' < interrupts s

module _ (d : Writer) where
  open d use {State, write}

  -- The loop of writen, with the bytes that are left. A write that takes nothing is an error, with the
  -- `errno` of before: `stopped` with the bytes that are left.
  unfoldable pub writen_loop : (rounds : ℕ) → List ℕ → State → End × State
  writen_loop zero bs s = (looping, s)
  writen_loop (suc k) [] s = (stopped 0, s)
  writen_loop (suc k) (b ∷ bs) s =
      let (answer, s') = write s (b ∷ bs) in
      elim answer [
        | signalled ↦ writen_loop k (b ∷ bs) s'
        | denied e ↦ (failed e, s')
        | took n ↦
            let rest = writen_loop k (drop n (b ∷ bs)) s' in
            if n == 0 then (stopped (length (b ∷ bs)), s') else rest
      ]

  unfoldable pub writen : (rounds : ℕ) → List ℕ → State → Reply × State
  unfolding writen_loop
  writen rounds bs s =
      let (e, s') = writen_loop rounds bs s in
      (
        elim e [
          | stopped nleft ↦ if nleft == 0 then returned (length bs) else stale
          | failed err ↦ refusal err
          | looping ↦ endless
        ],
        s',
      )
