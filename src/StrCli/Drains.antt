-- ===== src/StrCli/Drains.antt =====
-- The rounds of str_cli after the end of stdin.
use com_tutor.Base.{
  ℕ, zero, suc, ◌+◌, ◌-◌, ◌≤◌, ◌<◌, ◌≡◌, ◌⊎◌, refl, inl, inr, sym, ap, subst, Bool, true, false,
  ◌&&◌, not, List, [], ◌∷◌, ◌++◌, length, ltb, ◌==◌, if_induction, arith,
}
use com_tutor.Base.Errno.{Errno}
use com_tutor.StrCli.{
  maxline, Buffer, is_empty, window, held, drain, Sets, Client, Outcome, going, returned,
  terminated_prematurely, failed, Answer, read_error, got, Taken, write_error, took, shutdown,
  unless_would_block, ask, select, got_stdin, read_stdin, got_sock, read_sock, wrote_stdout,
  write_stdout, wrote_sock, write_sock, and_then, Kernel, round,
}
use com_tutor.StrCli.Buffers.{length-window}
use com_tutor.StrCli.Rounds.{Lawful, Reach, later, Reach-Holds}

-- The socket is ready for writing, and a write takes a byte at least.
pub record Takes (k : Kernel) : Type 0 where
  pub ready : k.ready.sock_in_wset ≡ true
  pub takes : (bs : List ℕ) → 0 < length bs → (n : ℕ) × (0 < n) × (k.sock_out bs ≡ took n)

-- The rounds of the loop, each with its kernel.
unfoldable pub rounds : (ℕ → Kernel) → ℕ → Client → Outcome
rounds k zero c = going (ask c) c
rounds k (suc n) c = and_then (round (k 0) c) (λ s d. rounds (λ i. k (i + 1)) n d)

abbrev left : Buffer → ℕ
left b = b.iptr - b.optr

-- The parts of a round before the last leave the buffer to the socket, if stdin is at its end.
abbrev Same : Client → Outcome → Type 0
Same c (going s d) = (d.to ≡ c.to) × (d.stdineof ≡ true) × (s.sock_in_wset ≡ not (is_empty c.to))
Same c _ = Unit

unless_would_block-Same :
    (c : Client) (e : Errno) (s : Sets) (d : Client)
    → Same c (going s d)
    → Same c (unless_would_block e s d)
unless_would_block-Same c e s d h = ground (arith, h)

read_sock-Same :
    (c : Client) (read : ℕ → Answer) (s : Sets) (d : Client)
    → Same c (going s d)
    → Same c (read_sock read s d)
unfolding read_sock
read_sock-Same c read s d h =
    if_induction (Same c) s.sock_in_rset (got_sock (read (maxline - d.fr.iptr)) s d) (going s d)
      (λ e. answered (read (maxline - d.fr.iptr))) (λ e. h)
  where
    answered : (a : Answer) → Same c (got_sock a s d)
    answered (read_error e) = unless_would_block-Same c e s d h
    answered (got []) =
        if_induction (Same c) d.stdineof (returned d) (terminated_prematurely d) (λ e. tt) (λ e. tt)
    answered (got (b ∷ bs)) = h

write_stdout-Same :
    (c : Client) (write : List ℕ → Taken) (s : Sets) (d : Client)
    → Same c (going s d)
    → Same c (write_stdout write s d)
unfolding write_stdout
write_stdout-Same c write s d h =
    if_induction (Same c) (s.stdout_in_wset && ltb 0 (d.fr.iptr - d.fr.optr))
      (wrote_stdout (write (held d.fr)) s d) (going s d) (λ e. answered (write (held d.fr)))
      (λ e. h)
  where
    answered : (a : Taken) → Same c (wrote_stdout a s d)
    answered (write_error e) = unless_would_block-Same c e s d h
    answered (took n) = h

and_then-Same :
    (c : Client) (o : Outcome) (f : Sets → Client → Outcome)
    → ((s : Sets) (d : Client) → Same c (going s d) → Same c (f s d))
    → Same c o
    → Same c (and_then o f)
and_then-Same c (going s d) f g h = g s d h
and_then-Same c (returned d) f g h = tt
and_then-Same c (terminated_prematurely d) f g h = tt
and_then-Same c (failed e d) f g h = tt

-- At the end of the round: stdin is still at its end, and a byte less is left, or none.
abbrev Drained : Client → Outcome → Type 0
Drained c (going s d) = (d.stdineof ≡ true) × ((left d.to < left c.to) ⊎ (left d.to ≡ 0))
Drained c _ = Unit

left_drain : (n : ℕ) (b : Buffer) → 0 < n → 0 < left b → left (drain n b) < left b
left_drain n b pos some_left = ground (arith, pos, some_left)

write_sock-Drained :
    (c : Client) (k : Kernel) (s : Sets) (d : Client)
    → Takes k
    → c.to.optr ≤ c.to.iptr
    → Same c (going s d)
    → Drained c (write_sock k.sock_out s d)
unfolding write_sock
write_sock-Drained c k s d t order (to, eof, set) =
    if_induction (Drained c) (s.sock_in_wset && ltb 0 (left d.to))
      (wrote_sock (k.sock_out (held d.to)) s d) (going s d)
      (λ e.
        let some_left : 0 < left d.to = ground (arith, e) in
        let (n, pos, q) =
          t.takes (held d.to)
            (omega (arith, some_left, length-window d.to.bytes d.to.optr (left d.to))) in
        subst (λ a. Drained c (wrote_sock a s d)) (sym q) (went n pos some_left))
      (λ e. (eof, inr (nothing_left (s.sock_in_wset) set e)))
  where
    same_left : left d.to ≡ left c.to
    same_left = ap left to

    nothing_left :
        (set : Bool)
        → set ≡ not (is_empty c.to)
        → (set && ltb 0 (left d.to)) ≡ false
        → left d.to ≡ 0
    nothing_left set q e = ground (arith, q, e, same_left)

    went : (n : ℕ) → 0 < n → 0 < left d.to → Drained c (wrote_sock (took n) s d)
    went n pos some_left =
        let d' : Client = record d {
          to = drain n d.to;
          sent = d.sent ++ window d.to.bytes d.to.optr n;
        } in
        let less : left (drain n d.to) < left c.to =
          omega (arith, left_drain n d.to pos some_left, same_left) in
        if_induction (λ x. Drained c (going s x)) (d.to.optr + n == d.to.iptr && d.stdineof)
          (shutdown d') d' (λ e. (eof, inl less)) (λ e. (eof, inl less))

and_then-Drained :
    (c : Client) (o : Outcome) (f : Sets → Client → Outcome)
    → ((s : Sets) (d : Client) → Same c (going s d) → Drained c (f s d))
    → Same c o
    → Drained c (and_then o f)
and_then-Drained c (going s d) f g h = g s d h
and_then-Drained c (returned d) f g h = tt
and_then-Drained c (terminated_prematurely d) f g h = tt
and_then-Drained c (failed e d) f g h = tt

round-Drained :
    (c : Client) (k : Kernel)
    → Takes k
    → c.stdineof ≡ true
    → c.to.optr ≤ c.to.iptr
    → Drained c (round k c)
unfolding round ask select read_stdin
round-Drained c k t eof order =
    let asked = select k.ready (ask c) in
    let stdin = read_stdin k.stdin asked c in
    let sock = and_then stdin (read_sock k.sock_in) in
    and_then-Drained c (and_then sock (write_stdout k.stdout)) (write_sock k.sock_out)
      (λ s d h. write_sock-Drained c k s d t order h)
      (and_then-Same c sock (write_stdout k.stdout) (write_stdout-Same c k.stdout) (
        and_then-Same c stdin (read_sock k.sock_in) (read_sock-Same c k.sock_in) (
          if_induction (Same c) asked.stdin_in_rset
            (got_stdin (k.stdin (maxline - c.to.iptr)) asked c) (going asked c)
            (λ e. absurd (ground (arith, e, eof))) (λ e. (refl, eof, ground (arith, t.ready))))))

-- What holds of a state after its rounds.
abbrev AllSent : Outcome → Type 0
AllSent (going s c) = c.fins ≡ 1
AllSent _ = Unit

sent_already : (c : Client) → Reach c → c.stdineof ≡ true → left c.to ≡ 0 → c.fins ≡ 1
sent_already c r eof none_left =
    let h = Reach-Holds c r in ground (arith, h.fin, eof, none_left, h.out.order)

rounds-AllSent :
    (n : ℕ) (k : ℕ → Kernel) (c : Client)
    → ((i : ℕ) → Lawful (k i))
    → ((i : ℕ) → Takes (k i))
    → Reach c
    → c.stdineof ≡ true
    → left c.to ≤ n
    → AllSent (rounds k n c)
unfolding rounds
rounds-AllSent zero k c law t r eof few = sent_already c r eof (omega (arith, few))
rounds-AllSent (suc n) k c law t r eof few =
    next
      (λ d r' eof' few'.
        rounds-AllSent n (λ i. k (i + 1)) d (λ i. law (i + 1)) (λ i. t (i + 1)) r' eof' few')
      (round (k 0) c) refl
  where
    fewer : (x : ℕ) → (x < left c.to) ⊎ (x ≡ 0) → x ≤ n
    fewer x (inl q) = omega (arith, q, few)
    fewer x (inr q) = omega (arith, q)

    next :
        ((d : Client)
          → Reach d
          → d.stdineof ≡ true
          → left d.to ≤ n
          → AllSent (rounds (λ i. k (i + 1)) n d))
        → (o : Outcome) → round (k 0) c ≡ o
        → AllSent (and_then o (λ s d. rounds (λ i. k (i + 1)) n d))
    next more (going s d) e =
        let order = (Reach-Holds c r).out.order in
        let (eof', less) = subst (Drained c) e (round-Drained c (k 0) (t 0) eof order) in
        more d (later r (k 0) s d (law 0) e) eof' (fewer (left d.to) less)
    next more (returned d) e = tt
    next more (terminated_prematurely d) e = tt
    next more (failed x d) e = tt

-- From a reachable state of str_cli in which stdin is at its end, after as many rounds as bytes are left
-- to send, in each of which the socket takes a byte at least, the socket has been shut down, unless
-- str_cli has ended.
pub fin_comes :
    (c : Client) (k : ℕ → Kernel)
    → Reach c
    → c.stdineof ≡ true
    → ((i : ℕ) → Lawful (k i))
    → ((i : ℕ) → Takes (k i))
    → (s : Sets) (c' : Client) → rounds k (length (held c.to)) c ≡ going s c'
    → c'.fins ≡ 1
fin_comes c k r eof law t s c' e = subst AllSent e (
    rounds-AllSent (length (held c.to)) k c law t r eof
      (omega (arith, length-window c.to.bytes c.to.optr (left c.to))))
