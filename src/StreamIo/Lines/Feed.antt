-- ===== src/StreamIo/Lines/Feed.antt =====
-- What my_read does with the bytes that are to come, in its buffer and in the stream.
use com_tutor.Base.{
  ℕ, zero, suc, ◌≤◌, ◌<◌, ◌≡◌, ◌⊎◌, inl, inr, refl, sym, ◌∙◌, ap, subst, true, false, List, [], ◌∷◌,
  ◌++◌, length, arith, Bool-cases,
}
use com_tutor.Base.Int.{pos, negsuc, is_pos, dec}
use com_tutor.StreamIo.{Answer, got, eof, interrupted, refused, Reader, IsReadError}
use com_tutor.StreamIo.Lines.{
  Buffer, max_line, next_byte, behind, Byte, byte, at_end, broken, spinning, fetch, refill, my_read,
}

-- The count is that of the bytes in the buffer; or -1 with none in it.
abbrev pub IsCounted : Buffer → Type 0
IsCounted b = (b.read_cnt ≡ pos (length b.read_ptr)) ⊎ ((b.read_cnt ≡ negsuc 0) × (b.read_ptr ≡ []))

-- What a call of my_read does to the bytes that are to come.
abbrev pub IsGiven : Byte → List ℕ → List ℕ → Type 0
IsGiven (byte c) before after = before ≡ c ∷ after
IsGiven at_end before after = (before ≡ []) × (after ≡ [])
IsGiven (broken e) before after = before ≡ after
IsGiven spinning before after = ⊥

-- An error with which my_read ends is one of read.
abbrev pub IsBroken : (d : Reader) → Byte → d.State → Type 0
IsBroken d (broken e) s' = IsReadError d max_line e s'
IsBroken d _ s' = Unit

module _ (d : Reader) where
  -- The bytes to come: those in the buffer, then those of the stream.
  abbrev pub unread : Buffer → d.State → List ℕ
  unread b s = b.read_ptr ++ d.pending s

  pub record HasGiven (b : Buffer) (s : d.State) (c : Byte) (b' : Buffer) (s' : d.State)
      : Type 0 where
    pub counted : IsCounted b'
    pub given : IsGiven c (unread b s) (unread b' s')
    pub calmer : (x : ℕ) → c ≡ byte x → d.interrupts s' ≤ d.interrupts s
    pub error : IsBroken d c s'

  -- A byte out of a buffer that has one, or has just been filled.
  HasGiven-fetch :
      (b b0 : Buffer) (s s' : d.State)
      → 0 < length b.read_ptr
      → b.read_cnt ≡ pos (length b.read_ptr)
      → unread b0 s ≡ unread b s'
      → d.interrupts s' ≤ d.interrupts s
      → HasGiven b0 s (fetch b).0 (fetch b).1 s'
  unfolding fetch
  HasGiven-fetch b b0 s s' some count same calm =
      let parts = parts_of b.read_ptr some in
      record {
        counted = inl (ap dec count ∙ counted_down b.read_ptr some);
        given = same ∙ ap (λ l. l ++ d.pending s') (parts_of b.read_ptr some);
        calmer = λ x r. calm;
        error = tt;
      }
    where
      parts_of : (l : List ℕ) → 0 < length l → l ≡ next_byte l ∷ behind l
      parts_of [] h = absurd (omega (arith, h))
      parts_of (c ∷ cs) h = refl

      counted_down : (l : List ℕ) → 0 < length l → dec (pos (length l)) ≡ pos (length (behind l))
      counted_down [] h = absurd (omega (arith, h))
      counted_down (c ∷ cs) h = refl

  HasGiven-round :
      (k : ℕ) (b : Buffer) (s : d.State)
      → IsCounted b
      → b.read_ptr ≡ []
      → d.interrupts s < suc k
      → ((b' : Buffer) (s' : d.State)
          → IsCounted b'
          → b'.read_ptr ≡ []
          → d.interrupts s' < k
          → let (c, b'', s'') = refill d k b' s' in HasGiven b' s' c b'' s'')
      → (answer : Answer) (s' : d.State) → d.read s max_line ≡ (answer, s')
      → let (c, b'', s'') = elim answer as (λ x. Byte × Buffer × d.State) [
        | interrupted ↦ refill d k (record b { read_cnt = negsuc 0 }) s'
        | refused e ↦ (broken e, record b { read_cnt = negsuc 0 }, s')
        | eof ↦ (at_end, record b { read_cnt = pos 0 }, s')
        | got bs ↦
            let (c, b') = fetch (record { read_cnt = pos (length bs); read_ptr = bs }) in
            (c, b', s')
      ] in
        HasGiven b s c b'' s''
  HasGiven-round k b s ok empty enough rest interrupted s' q =
      let (same, fewer) = d.interrupted_law s max_line s' q in
      let h =
        rest (record b { read_cnt = negsuc 0 }) s' (inr (refl, empty)) empty
          (omega (arith, enough, fewer)) in
      record {
        counted = h.counted;
        given =
            subst
              (λ l. IsGiven (refill d k (record b { read_cnt = negsuc 0 }) s').0 (b.read_ptr ++ l) (
                unread (refill d k (record b { read_cnt = negsuc 0 }) s').1
                  (refill d k (record b { read_cnt = negsuc 0 }) s').2))
              same h.given;
        calmer = λ x r. omega (arith, h.calmer x r, fewer);
        error = h.error;
      }
  HasGiven-round k b s ok empty enough rest (refused e) s' q = record {
    counted = inr (refl, empty);
    given = ap (λ l. b.read_ptr ++ l) (sym (d.refused_law s max_line e s' q));
    calmer = λ x r. ground arith;
    error = (s, q);
  }
  HasGiven-round k b s ok empty enough rest eof s' q =
      let (none, none') = d.eof_law s max_line s' (omega arith) q in
      record {
        counted = inl (ap (λ l. pos (length l)) (sym empty));
        given = (rw (empty, none) refl, rw (empty, none') refl);
        calmer = λ x r. ground arith;
        error = tt;
      }
  HasGiven-round k b s ok empty enough rest (got bs) s' q =
      let (some, fits, next, fewer) = d.got_law s max_line bs s' q in
      HasGiven-fetch (record { read_cnt = pos (length bs); read_ptr = bs }) b s s' some refl
        (rw empty next) fewer

  refill-HasGiven :
      (rounds : ℕ) (b : Buffer) (s : d.State)
      → IsCounted b
      → b.read_ptr ≡ []
      → d.interrupts s < rounds
      → let (c, b', s') = refill d rounds b s in HasGiven b s c b' s'
  unfolding refill
  refill-HasGiven zero b s ok empty enough = absurd (omega (arith, enough))
  refill-HasGiven (suc k) b s ok empty enough =
      HasGiven-round k b s ok empty enough (refill-HasGiven k) (d.read s max_line).0
        (d.read s max_line).1 refl

  pub my_read-HasGiven :
      (rounds : ℕ) (b : Buffer) (s : d.State)
      → IsCounted b
      → d.interrupts s < rounds
      → let (c, b', s') = my_read d rounds b s in HasGiven b s c b' s'
  unfolding my_read
  my_read-HasGiven rounds b s ok enough = elim (Bool-cases (is_pos b.read_cnt)) [
    | inl more ↦ rw more (
        HasGiven-fetch b b s s (some_left b.read_ptr (ok_count ok more) more) (ok_count ok more)
          refl (omega arith))
    | inr over ↦ rw over (refill-HasGiven rounds b s ok (none_left b.read_ptr ok over) enough)
  ]
    where
      ok_count : IsCounted b → is_pos b.read_cnt ≡ true → b.read_cnt ≡ pos (length b.read_ptr)
      ok_count (inl q) p = q
      ok_count (inr (q, r)) p = ground (arith, ap is_pos q, p)

      some_left :
          (l : List ℕ) → b.read_cnt ≡ pos (length l) → is_pos b.read_cnt ≡ true → 0 < length l
      some_left [] q p = ground (arith, ap is_pos q, p)
      some_left (c ∷ cs) q p = omega arith

      none_left :
          (l : List ℕ)
          → (b.read_cnt ≡ pos (length l)) ⊎ ((b.read_cnt ≡ negsuc 0) × (l ≡ []))
          → is_pos b.read_cnt ≡ false
          → l ≡ []
      none_left l (inr (q, r)) p = r
      none_left [] (inl q) p = refl
      none_left (c ∷ cs) (inl q) p = ground (arith, ap is_pos q, p)
