-- ===== src/StreamIo/Lines/Laws.antt =====
-- readline against a reference that cuts the next line off a list of bytes.
use com_tutor.Base.{
  ℕ, zero, suc, ◌+◌, ◌-◌, ◌<◌, ◌≡◌, ◌≢◌, ◌⊎◌, inl, inr, refl, sym, ◌∙◌, ap, subst, Bool, true, ◌||◌,
  ltb, false, List, [], ◌∷◌, ◌++◌, length, ◌==◌, if◌then◌else◌, arith, Bool-cases,
}
use com_tutor.Base.Errno.{Errno}
use com_tutor.StreamIo.{Reader, IsReadError, Reply, returned, refusal, stale, endless}
use com_tutor.StreamIo.Lines.{
  Buffer, max_line, newline, Byte, byte, at_end, broken, spinning, my_read, line_loop, readline,
}
use com_tutor.StreamIo.Lines.Feed.{IsCounted, unread, HasGiven, my_read-HasGiven}

-- The reference: the bytes up to a newline and with it, at most `room` of them.
abbrev pub next_line : (room : ℕ) → List ℕ → List ℕ
next_line zero l = []
next_line (suc room) [] = []
next_line (suc room) (c ∷ cs) =
    let rest = next_line room cs in if c == newline then c ∷ [] else c ∷ rest

abbrev pub has_newline : List ℕ → Bool
has_newline [] = false
has_newline (c ∷ cs) = (c == newline) || has_newline cs

-- A newline or the end of the file has ended the line, not the lack of room.
abbrev pub is_whole : (room : ℕ) → List ℕ → Bool
is_whole room line = ltb (length line) room || has_newline line

-- What the loop has made of the bytes `before`, when it ends with the bytes `after` to come.
pub record HasLine (room n : ℕ) (before : List ℕ) (r : Reply) (line after : List ℕ) : Type 0 where
  pub ends : (r ≢ endless) × (r ≢ stale)
  pub kept : before ≡ line ++ after
  pub taken : (k : ℕ) → r ≡ returned k → line ≡ next_line room before
  pub counted :
      (k : ℕ)
      → r ≡ returned k
      → ((is_whole room line ≡ true) × (k + 1 ≡ n + length line))
        ⊎ ((is_whole room line ≡ false) × (length line ≡ room) × (k ≡ n + length line))

HasLine-more :
    (room n c : ℕ) (before : List ℕ) (r : Reply) (line after : List ℕ)
    → (c == newline) ≡ false
    → HasLine room (n + 1) before r line after
    → HasLine (suc room) n (c ∷ before) r (c ∷ line) after
HasLine-more room n c before r line after other h = record {
  ends = h.ends;
  kept = ap (λ l. c ∷ l) h.kept;
  taken = λ k q. rw other (ap (λ l. c ∷ l) (h.taken k q));
  counted = λ k q. elim (h.counted k q) [
    | inl (whole, count) ↦ inl (ground (arith, whole, other), omega (arith, count))
    | inr (cut, full, count) ↦ inr (ground (arith, cut, other), ap suc full, omega (arith, count))
  ];
}

HasLine-last :
    (room n c : ℕ) (after : List ℕ)
    → (c == newline) ≡ true
    → HasLine (suc room) n (c ∷ after) (returned n) (c ∷ []) after
HasLine-last room n c after e = record {
  ends = (ground arith, ground arith);
  kept = refl;
  taken = λ k q. rw e refl;
  counted = λ k q. inl (ground (arith, e), ground (arith, q));
}

-- An error of readline is one of read.
abbrev pub IsRefused : (d : Reader) → Reply → d.State → Type 0
IsRefused d (refusal e) s' = IsReadError d max_line e s'
IsRefused d _ s' = Unit

module _ (d : Reader) where
  line_loop-HasLine :
      (rounds room n : ℕ) (b : Buffer) (s : d.State)
      → IsCounted b
      → d.interrupts s < rounds
      → 0 < n
      → let (r, line, b', s') = line_loop d rounds room n b s in
        HasLine room n (unread d b s) r line (unread d b' s') × IsCounted b' × IsRefused d r s'
  unfolding line_loop
  line_loop-HasLine rounds zero n b s ok enough some = (
    record {
      ends = (ground arith, ground arith);
      kept = refl;
      taken = λ k q. refl;
      counted = λ k q. inr (ground arith, refl, ground (arith, q));
    },
    ok,
    tt,
  )
  line_loop-HasLine rounds (suc room) n b s ok enough some =
      look (my_read d rounds b s).0 (my_read d rounds b s).1 (my_read d rounds b s).2
        (my_read-HasGiven d rounds b s ok enough) (line_loop-HasLine rounds room)
    where
      look :
          (c : Byte) (b' : Buffer) (s' : d.State)
          → HasGiven d b s c b' s'
          → ((n' : ℕ) (b' : Buffer) (s' : d.State)
              → IsCounted b'
              → d.interrupts s' < rounds
              → 0 < n'
              → let (r, line, b'', s'') = line_loop d rounds room n' b' s' in
                HasLine room n' (unread d b' s') r line (unread d b'' s'')
                × IsCounted b''
                × IsRefused d r s'')
          → let (r, line, b'', s'') = elim c as (λ x. Reply × List ℕ × Buffer × d.State) [
            | byte x ↦
                let (r, line, b'', s'') = line_loop d rounds room (n + 1) b' s' in
                if x == newline then (returned n, x ∷ [], b', s') else (r, x ∷ line, b'', s'')
            | at_end ↦ (returned (n - 1), [], b', s')
            | broken e ↦ (refusal e, [], b', s')
            | spinning ↦ (endless, [], b', s')
          ] in
            HasLine (suc room) n (unread d b s) r line (unread d b'' s'')
            × IsCounted b''
            × IsRefused d r s''
      look spinning b' s' h rest = absurd h.given
      look (broken e) b' s' h rest = (
        record {
          ends = (ground arith, ground arith);
          kept = h.given;
          taken = λ k q. ground arith;
          counted = λ k q. ground arith;
        },
        h.counted,
        h.error,
      )
      look at_end b' s' h rest = (
        record {
          ends = (ground arith, ground arith);
          kept = h.given.0 ∙ sym h.given.1;
          taken = λ k q. rw h.given.0 refl;
          counted = λ k q. inl (ground arith, ground (arith, q, some));
        },
        h.counted,
        tt,
      )
      look (byte x) b' s' h rest = elim (Bool-cases (x == newline)) [
        | inl last ↦ rw last (
          subst (λ l. HasLine (suc room) n l (returned n) (x ∷ []) (unread d b' s')) (sym h.given)
              (HasLine-last room n x (unread d b' s') last),
          h.counted,
          tt,
        )
        | inr other ↦ rw other (
            let (r, line, b'', s'') = line_loop d rounds room (n + 1) b' s' in
            let (got, ok', error) =
              rest (n + 1) b' s' h.counted (omega (arith, h.calmer x refl, enough)) (omega arith) in
            (
              subst (λ l. HasLine (suc room) n l r (x ∷ line) (unread d b'' s'')) (sym h.given)
                  (HasLine-more room n x (unread d b' s') r line (unread d b'' s'') other got),
              ok',
              error,
            ))
      ]

  -- readline, with a round for each signal in every refill, always returns. If it gives a number, it has
  -- stored the bytes that were to come up to a newline and with it, `maxlen - 1` of them at most; if -1,
  -- it has the error with which a read of the descriptor was answered. No byte is lost either way: those stored and those still to come, in the
  -- buffer and in the stream, are those that were to come before.
  pub readline_takes_line :
      (rounds maxlen : ℕ) (b : Buffer) (s : d.State)
      → IsCounted b
      → d.interrupts s < rounds
      → let (r, line, b', s') = readline d rounds maxlen b s in
        IsCounted b'
        × (unread d b s ≡ line ++ unread d b' s')
        × (((k : ℕ) × (r ≡ returned k) × (line ≡ next_line (maxlen - 1) (unread d b s)))
            ⊎ ((e : Errno) × (r ≡ refusal e) × IsReadError d max_line e s'))
  unfolding readline
  readline_takes_line rounds maxlen b s ok enough =
      let (h, ok', error) = line_loop-HasLine rounds (maxlen - 1) 1 b s ok enough (omega arith) in
      (ok', h.kept, look (readline d rounds maxlen b s).0 h.ends h.taken error)
    where
      look :
          (r : Reply)
          → (r ≢ endless) × (r ≢ stale)
          → ((k : ℕ)
              → r ≡ returned k
              → (readline d rounds maxlen b s).1 ≡ next_line (maxlen - 1) (unread d b s))
          → IsRefused d r (readline d rounds maxlen b s).3
          → ((k : ℕ) × (r ≡ returned k)
              × ((readline d rounds maxlen b s).1 ≡ next_line (maxlen - 1) (unread d b s)))
            ⊎ ((e : Errno) × (r ≡ refusal e)
                × IsReadError d max_line e (readline d rounds maxlen b s).3)
      look (returned k) ends taken error = inl (k, refl, taken k refl)
      look (refusal e) ends taken error = inr (e, refl, error)
      look stale ends taken error = absurd (ends.1 refl)
      look endless ends taken error = absurd (ends.0 refl)

  -- The number that readline returns is that of the bytes stored if a newline or the end of the file
  -- ended the line, and one more than that if the room did: then `maxlen` where `maxlen - 1` bytes are
  -- stored.
  pub readline_counts :
      (rounds maxlen : ℕ) (b : Buffer) (s : d.State)
      → IsCounted b
      → d.interrupts s < rounds
      → 0 < maxlen
      → let (r, line, b', s') = readline d rounds maxlen b s in
        ((is_whole (maxlen - 1) line ≡ true) × (r ≡ returned (length line)))
        ⊎ (((is_whole (maxlen - 1) line ≡ false)
              × (length line + 1 ≡ maxlen)
              × (r ≡ returned maxlen))
            ⊎ ((e : Errno) × (r ≡ refusal e)))
  unfolding readline
  readline_counts rounds maxlen b s ok enough some =
      let (h, ok', error) = line_loop-HasLine rounds (maxlen - 1) 1 b s ok enough (omega arith) in
      look (readline d rounds maxlen b s).0 (readline d rounds maxlen b s).1 h.ends h.counted
    where
      look :
          (r : Reply) (line : List ℕ)
          → (r ≢ endless) × (r ≢ stale)
          → ((k : ℕ)
              → r ≡ returned k
              → ((is_whole (maxlen - 1) line ≡ true) × (k + 1 ≡ 1 + length line))
                ⊎ ((is_whole (maxlen - 1) line ≡ false)
                    × (length line ≡ maxlen - 1)
                    × (k ≡ 1 + length line)))
          → ((is_whole (maxlen - 1) line ≡ true) × (r ≡ returned (length line)))
            ⊎ (((is_whole (maxlen - 1) line ≡ false)
                  × (length line + 1 ≡ maxlen)
                  × (r ≡ returned maxlen))
                ⊎ ((e : Errno) × (r ≡ refusal e)))
      look (refusal e) line ends counted = inr (inr (e, refl))
      look stale line ends counted = absurd (ends.1 refl)
      look endless line ends counted = absurd (ends.0 refl)
      look (returned k) line ends counted = elim (counted k refl) [
        | inl (whole, count) ↦ inl (whole, ap returned (omega (arith, count)))
        | inr (cut, full, count) ↦
            inr
              (inl (cut, omega (arith, full, some), ap returned (omega (arith, count, full, some))))
      ]
