-- ===== src/StrCli/Safety.antt =====
-- What holds of str_cli in every state, and where it returns.
use com_tutor.Base.{
  ℕ, ◌+◌, ◌-◌, ◌≤◌, ◌<◌, ◌≡◌, ◌⊎◌, ◌↔◌, refl, inl, inr, subst, true, [], ◌∷◌, ◌++◌, ◌&&◌, ltb,
  if_induction, Bool-cases, arith,
}
use com_tutor.StrCli.{
  maxline, is_empty, held, Sets, Client, Outcome, going, returned, terminated_prematurely, failed,
  Answer, read_error, got, write_error, took, Taken, ask, select, got_stdin, read_stdin, got_sock,
  read_sock, wrote_stdout, write_stdout, wrote_sock, write_sock, and_then, Kernel, round,
}
use com_tutor.StrCli.Buffers.{all_written, none_held}
use com_tutor.StrCli.Rounds.{Lawful, Reach, Kept, round-Kept, Reach-Holds}

-- In every reachable state of str_cli, in both directions, the bytes read are the bytes written and
-- then those in the buffer, in order; and both buffers are within their arrays.
pub copied_in_order :
    (c : Client)
    → Reach c
    → (c.typed ≡ c.sent ++ held c.to)
      × (c.served ≡ c.shown ++ held c.fr)
      × (c.to.iptr ≤ maxline)
      × (c.fr.iptr ≤ maxline)
copied_in_order c r =
    let h = Reach-Holds c r in (h.out.content, h.back.content, h.out.bound, h.back.bound)

-- In every reachable state of str_cli the socket has been shut down once at most; and once exactly if
-- stdin is at its end and all that has been read from it has been sent.
pub fin_once :
    (c : Client)
    → Reach c
    → (c.fins ≤ 1) × ((c.fins ≡ 1) ↔ ((c.stdineof ≡ true) × (c.typed ≡ c.sent)))
fin_once c r =
    let h = Reach-Holds c r in
    (
      ground (arith, h.fin),
      (
        λ one.
            let all : c.to.optr ≡ c.to.iptr = ground (arith, h.fin, one) in
            (ground (arith, h.fin, one), none_held c.to c.typed c.sent h.out all),
        λ (over, all). ground (arith, h.fin, over, all_written c.to c.typed c.sent h.out all),
      ),
    )

-- In every reachable state of str_cli select waits for the socket to be readable or for stdout to be
-- writable: it is never called with nothing to wait for.
pub select_waits :
    (c : Client) → Reach c → ((ask c).sock_in_rset ≡ true) ⊎ ((ask c).stdout_in_wset ≡ true)
unfolding ask
select_waits c r =
    let h = Reach-Holds c r in
    elim (Bool-cases (is_empty c.fr)) [
      | inl e ↦ inl (ground (arith, e, h.back.begin))
      | inr e ↦ inr (ground (arith, e))
    ]

-- Where the code returns: at the end of stdin, when a read of the socket for a byte at least gave none.
abbrev AtEnd : Kernel → Outcome → Type 0
AtEnd k (returned c) = (c.stdineof ≡ true) × (room : ℕ) × (0 < room) × (k.sock_in room ≡ got [])
AtEnd k _ = Unit

-- After the read of stdin there is room for the socket's bytes, if they are asked for.
abbrev HasRoom : Outcome → Type 0
HasRoom (going s c) = s.sock_in_rset ≡ true → c.fr.iptr < maxline
HasRoom (returned c) = ⊥
HasRoom _ = Unit

read_stdin-HasRoom :
    (read : ℕ → Answer) (s : Sets) (c : Client)
    → (s.sock_in_rset ≡ true → c.fr.iptr < maxline)
    → HasRoom (read_stdin read s c)
unfolding read_stdin
read_stdin-HasRoom read s c h =
    if_induction HasRoom s.stdin_in_rset (got_stdin (read (maxline - c.to.iptr)) s c) (going s c)
      (λ e. answered (read (maxline - c.to.iptr))) (λ e. h)
  where
    answered : (a : Answer) → HasRoom (got_stdin a s c)
    answered (read_error e) = ground (arith, h)
    answered (got []) =
        if_induction (λ d. HasRoom (going s d)) (is_empty c.to)
          (record c { stdineof = true; fins = c.fins + 1 }) (record c { stdineof = true }) (λ e. h)
          (λ e. h)
    answered (got (b ∷ bs)) = h

read_sock-AtEnd :
    (k : Kernel) (s : Sets) (c : Client)
    → (s.sock_in_rset ≡ true → c.fr.iptr < maxline)
    → AtEnd k (read_sock k.sock_in s c)
unfolding read_sock
read_sock-AtEnd k s c h =
    let room = maxline - c.fr.iptr in
    if_induction (AtEnd k) s.sock_in_rset (got_sock (k.sock_in room) s c) (going s c)
      (λ e. answered (k.sock_in room) refl (h e)) (λ e. tt)
  where
    answered :
        (a : Answer)
        → k.sock_in (maxline - c.fr.iptr) ≡ a
        → c.fr.iptr < maxline
        → AtEnd k (got_sock a s c)
    answered (read_error e) q lt = ground arith
    answered (got []) q lt =
        if_induction (AtEnd k) c.stdineof (returned c) (terminated_prematurely c)
          (λ e. (e, maxline - c.fr.iptr, omega (arith, lt), q)) (λ e. tt)
    answered (got (b ∷ bs)) q lt = tt

sock-AtEnd : (k : Kernel) (o : Outcome) → HasRoom o → AtEnd k (and_then o (read_sock k.sock_in))
sock-AtEnd k (going s c) h = read_sock-AtEnd k s c h
sock-AtEnd k (returned c) h = absurd h
sock-AtEnd k (terminated_prematurely c) h = tt
sock-AtEnd k (failed e c) h = tt

and_then-AtEnd :
    (k : Kernel) (o : Outcome) (f : Sets → Client → Outcome)
    → ((s : Sets) (c : Client) → AtEnd k (f s c))
    → AtEnd k o
    → AtEnd k (and_then o f)
and_then-AtEnd k (going s c) f g h = g s c
and_then-AtEnd k (returned c) f g h = h
and_then-AtEnd k (terminated_prematurely c) f g h = tt
and_then-AtEnd k (failed e c) f g h = tt

write_stdout-AtEnd : (k : Kernel) (s : Sets) (c : Client) → AtEnd k (write_stdout k.stdout s c)
unfolding write_stdout
write_stdout-AtEnd k s c =
    if_induction (AtEnd k) (s.stdout_in_wset && ltb 0 (c.fr.iptr - c.fr.optr))
      (wrote_stdout (k.stdout (held c.fr)) s c) (going s c) (λ e. answered (k.stdout (held c.fr)))
      (λ e. tt)
  where
    answered : (a : Taken) → AtEnd k (wrote_stdout a s c)
    answered (write_error e) = ground arith
    answered (took n) = tt

write_sock-AtEnd : (k : Kernel) (s : Sets) (c : Client) → AtEnd k (write_sock k.sock_out s c)
unfolding write_sock
write_sock-AtEnd k s c =
    if_induction (AtEnd k) (s.sock_in_wset && ltb 0 (c.to.iptr - c.to.optr))
      (wrote_sock (k.sock_out (held c.to)) s c) (going s c) (λ e. answered (k.sock_out (held c.to)))
      (λ e. tt)
  where
    answered : (a : Taken) → AtEnd k (wrote_sock a s c)
    answered (write_error e) = ground arith
    answered (took n) = tt

round-AtEnd : (k : Kernel) (c : Client) → AtEnd k (round k c)
unfolding round ask select
round-AtEnd k c =
    let stdin = read_stdin k.stdin (select k.ready (ask c)) c in
    let sock = and_then stdin (read_sock k.sock_in) in
    and_then-AtEnd k (and_then sock (write_stdout k.stdout)) (write_sock k.sock_out)
      (write_sock-AtEnd k)
      (and_then-AtEnd k sock (write_stdout k.stdout) (write_stdout-AtEnd k) (
        sock-AtEnd k stdin
          (read_stdin-HasRoom k.stdin (select k.ready (ask c)) c (λ q. ground (arith, q)))))

-- When str_cli returns, from a reachable state, a read of the socket for a byte at least has met its
-- end, and stdin is at its end; and of what has come from the socket, just the bytes in the buffer have
-- not been written to stdout.
pub returns_at_end :
    (c : Client) (k : Kernel) (c' : Client)
    → Reach c
    → Lawful k
    → round k c ≡ returned c'
    → (c'.stdineof ≡ true)
      × ((room : ℕ) × (0 < room) × (k.sock_in room ≡ got []))
      × (c'.served ≡ c'.shown ++ held c'.fr)
returns_at_end c k c' r law e =
    let (over, room, some, none_left) = subst (AtEnd k) e (round-AtEnd k c) in
    let h = subst Kept e (round-Kept k c law (Reach-Holds c r)) in
    (over, (room, some, none_left), h.back.content)
