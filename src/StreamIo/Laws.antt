-- ===== src/StreamIo/Laws.antt =====
-- What readn and writen make of a descriptor that keeps the promises of read and write.
use mathlib.Core.List.{append_assoc}
use com_tutor.Base.{
  ℕ, zero, suc, ◌+◌, ◌-◌, ◌≤◌, ◌<◌, ◌≡◌, ◌≢◌, ◌⊎◌, inl, inr, refl, sym, ◌∙◌, ap, subst, List, [],
  ◌++◌, length, length-append, ◌==◌, arith, Bool-cases, ==→eq,
}
use com_tutor.Base.Errno.{Errno}
use com_tutor.StreamIo.{
  Answer, got, eof, interrupted, refused, Reader, IsReadError, End, stopped, failed, looping,
  returned, refusal, reply, readn_loop, readn,
}

-- An error with which a loop ends is one of read.
abbrev pub IsFailed : (d : Reader) → (n : ℕ) → End → d.State → Type 0
IsFailed d n (failed e) s' = IsReadError d n e s'
IsFailed d n _ s' = Unit

-- What a loop that was to read `n` bytes has done: it has ended, the bytes are the next ones of the
-- stream, and fewer than `n` only at the end of the stream or on an error of read.
pub record HasRead (d : Reader) (n : ℕ) (s : d.State) (e : End) (bs : List ℕ) (s' : d.State)
    : Type 0 where
  pub ends : e ≢ looping
  pub stream : d.pending s ≡ bs ++ d.pending s'
  pub within : length bs ≤ n
  pub count : (nleft : ℕ) → e ≡ stopped nleft → length bs + nleft ≡ n
  pub short : (nleft : ℕ) → e ≡ stopped nleft → (nleft ≡ 0) ⊎ (d.pending s' ≡ [])
  pub error : IsFailed d (n - length bs) e s'

module _ (d : Reader) where
  HasRead-more :
      (n : ℕ) (s s' : d.State) (bs : List ℕ) (e : End) (more : List ℕ) (s'' : d.State)
      → length bs ≤ n
      → d.pending s ≡ bs ++ d.pending s'
      → HasRead d (n - length bs) s' e more s''
      → HasRead d n s e (bs ++ more) s''
  HasRead-more n s s' bs e more s'' fits next h = record {
    ends = h.ends;
    stream = next ∙ ap (λ l. bs ++ l) h.stream ∙ sym (append_assoc bs more (d.pending s''));
    within = omega (arith, length-append bs more, h.within, fits);
    count = λ l q. omega (arith, length-append bs more, h.count l q, fits);
    short = h.short;
    error =
        let less : n - length bs - length more ≡ n - length (bs ++ more) =
          omega (arith, length-append bs more) in
        subst (λ i. IsFailed d i e s'') less h.error;
  }

  -- One round, when the rounds that follow do what they should.
  HasRead-round :
      (k n : ℕ) (s : d.State)
      → n ≢ 0
      → n + d.interrupts s < suc k
      → ((n' : ℕ) (s' : d.State)
          → n' + d.interrupts s' < k
          → let (e, bs, s'') = readn_loop d k n' s' in HasRead d n' s' e bs s'')
      → (answer : Answer) (s' : d.State) → d.read s n ≡ (answer, s')
      → let (e, bs, s'') = elim answer as (λ x. End × List ℕ × d.State) [
        | interrupted ↦ readn_loop d k n s'
        | refused e ↦ (failed e, [], s')
        | eof ↦ (stopped n, [], s')
        | got bs ↦ (let (e, more, s'') = readn_loop d k (n - length bs) s' in (e, bs ++ more, s''))
      ] in
        HasRead d n s e bs s''
  HasRead-round k n s some enough rest interrupted s' q =
      let (same, fewer) = d.interrupted_law s n s' q in
      let h = rest n s' (omega (arith, enough, fewer)) in
      record {
        ends = h.ends;
        stream = sym same ∙ h.stream;
        within = h.within;
        count = h.count;
        short = h.short;
        error = h.error;
      }
  HasRead-round k n s some enough rest (refused e) s' q = record {
    ends = ground arith;
    stream = sym (d.refused_law s n e s' q);
    within = omega arith;
    count = λ l r. ground arith;
    short = λ l r. ground arith;
    error =
        let all : n ≡ n - length {A = ℕ} [] = omega arith in
        subst (λ i. IsReadError d i e s') all (s, q);
  }
  HasRead-round k n s some enough rest eof s' q =
      let (none, none') = d.eof_law s n s' (omega (arith, some)) q in
      record {
        ends = ground arith;
        stream = none ∙ sym none';
        within = omega arith;
        count = λ l r. ground arith;
        short = λ l r. inr none';
        error = tt;
      }
  HasRead-round k n s some enough rest (got bs) s' q =
      let (some', fits, next, fewer) = d.got_law s n bs s' q in
      let (e, more, s'') = readn_loop d k (n - length bs) s' in
      HasRead-more n s s' bs e more s'' fits next
        (rest (n - length bs) s' (omega (arith, some', fits, fewer, enough)))

  readn_loop-HasRead :
      (rounds n : ℕ) (s : d.State)
      → n + d.interrupts s < rounds
      → let (e, bs, s') = readn_loop d rounds n s in HasRead d n s e bs s'
  unfolding readn_loop
  readn_loop-HasRead zero n s h = absurd (omega (arith, h))
  readn_loop-HasRead (suc k) n s h = elim (Bool-cases (n == 0)) [
    | inl none_left ↦ rw none_left record {
      ends = ground arith;
      stream = refl;
      within = omega arith;
      count = λ l r. ground (arith, ==→eq n 0 none_left);
      short = λ l r. ground arith;
      error = tt;
    }
    | inr some_left ↦ rw some_left (
        HasRead-round k n s (λ z. (ground (arith, z, some_left))) h (readn_loop-HasRead k)
          (d.read s n).0 (d.read s n).1 refl)
  ]

  -- readn, with a round for each byte and each signal, always returns. The bytes it stores are the next
  -- ones of the stream, at most `n`, and it returns how many they are, fewer than `n` only at the end of
  -- the stream; or it returns -1 with the error with which a read of the bytes that are left was answered.
  pub readn_returns :
      (rounds n : ℕ) (s : d.State)
      → n + d.interrupts s < rounds
      → let (r, bs, s') = readn d rounds n s in
        (d.pending s ≡ bs ++ d.pending s')
        × (length bs ≤ n)
        × (((r ≡ returned (length bs)) × ((length bs ≡ n) ⊎ (d.pending s' ≡ [])))
            ⊎ ((e : Errno) × (r ≡ refusal e) × IsReadError d (n - length bs) e s'))
  unfolding readn
  readn_returns rounds n s h =
      let got = readn_loop-HasRead rounds n s h in
      let (e, bs, s') = readn_loop d rounds n s in
      (got.stream, got.within, replies e s' bs got.ends got.count got.short got.error)
    where
      replies :
          (e : End) (s' : d.State) (bs : List ℕ)
          → e ≢ looping
          → ((nleft : ℕ) → e ≡ stopped nleft → length bs + nleft ≡ n)
          → ((nleft : ℕ) → e ≡ stopped nleft → (nleft ≡ 0) ⊎ (d.pending s' ≡ []))
          → IsFailed d (n - length bs) e s'
          → ((reply n e ≡ returned (length bs)) × ((length bs ≡ n) ⊎ (d.pending s' ≡ [])))
            ⊎ ((err : Errno) × (reply n e ≡ refusal err) × IsReadError d (n - length bs) err s')
      replies looping s' bs ends count short error = absurd (ends refl)
      replies (failed err) s' bs ends count short error = inr (err, refl, error)
      replies (stopped l) s' bs ends count short error = inl (
        ap returned (omega (arith, count l refl)),
        elim (short l refl) [
          | inl done ↦ inl (omega (arith, count l refl, done))
          | inr over ↦ inr over
        ],
      )
