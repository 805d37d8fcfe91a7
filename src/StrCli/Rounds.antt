-- ===== src/StrCli/Rounds.antt =====
-- The states that str_cli reaches, and what each part of a round keeps of them.
use com_tutor.Base.{
  ℕ, ◌+◌, ◌-◌, ◌≤◌, ◌<◌, ◌≡◌, refl, subst, Bool, true, false, ◌&&◌, List, [], ◌∷◌, ◌++◌, length,
  ltb, ◌==◌, if_induction, arith,
}
use com_tutor.Base.Errno.{Errno}
use com_tutor.StrCli.{
  maxline, is_empty, window, held, Sets, Client, start, Outcome, going, returned,
  terminated_prematurely, failed, Answer, read_error, got, Taken, write_error, took, shutdown,
  unless_would_block, drain, ask, select, got_stdin, read_stdin, got_sock, read_sock, wrote_stdout,
  write_stdout, wrote_sock, write_sock, and_then, Kernel, round,
}
use com_tutor.StrCli.Buffers.{Copies, length-window, fill-Copies, drain-Copies}

-- read gives as many bytes as there is room for at most, and write takes at most those it is given.
pub record Lawful (k : Kernel) : Type 0 where
  pub stdin_law : (room : ℕ) (bs : List ℕ) → k.stdin room ≡ got bs → length bs ≤ room
  pub sock_in_law : (room : ℕ) (bs : List ℕ) → k.sock_in room ≡ got bs → length bs ≤ room
  pub stdout_law : (bs : List ℕ) (n : ℕ) → k.stdout bs ≡ took n → n ≤ length bs
  pub sock_out_law : (bs : List ℕ) (n : ℕ) → k.sock_out bs ≡ took n → n ≤ length bs

pub data Reach : Client → Type 0 where
  begins : Reach start
  later :
      {c : Client}
      → Reach c
      → (k : Kernel) (s : Sets) (c' : Client) → Lawful k
      → round k c ≡ going s c'
      → Reach c'

-- How often the socket has been shut down: once if stdin is at its end and nothing is left to send.
abbrev pub due : (stdineof empty : Bool) → ℕ
due true true = 1
due _ _ = 0

pub record Holds (c : Client) : Type 0 where
  pub out : Copies c.to c.typed c.sent
  pub back : Copies c.fr c.served c.shown
  pub fin : c.fins ≡ due c.stdineof (is_empty c.to)

abbrev pub Kept : Outcome → Type 0
Kept (going s c) = Holds c
Kept (returned c) = Holds c
Kept (terminated_prematurely c) = Holds c
Kept (failed e c) = Holds c

unless_would_block-Kept :
    (e : Errno) (s : Sets) (c : Client) → Holds c → Kept (unless_would_block e s c)
unless_would_block-Kept e s c h = ground (arith, h)

got_stdin-Kept :
    (a : Answer) (s : Sets) (c : Client)
    → ((bs : List ℕ) → a ≡ got bs → length bs ≤ maxline - c.to.iptr)
    → c.stdineof ≡ false
    → Holds c
    → Kept (got_stdin a s c)
got_stdin-Kept (read_error e) s c law more h = unless_would_block-Kept e s c h
got_stdin-Kept (got []) s c law more h =
    if_induction Holds (is_empty c.to) (shutdown (record c { stdineof = true }))
      (record c { stdineof = true })
      (λ e. record { out = h.out; back = h.back; fin = ground (arith, h.fin, more, e) })
      (λ e. record { out = h.out; back = h.back; fin = ground (arith, h.fin, more, e) })
got_stdin-Kept (got (b ∷ bs)) s c law more h = record {
  out = fill-Copies c.to c.typed c.sent b bs (law (b ∷ bs) refl) h.out;
  back = h.back;
  fin = ground (arith, h.fin, more);
}

read_stdin-Kept :
    (read : ℕ → Answer) (s : Sets) (c : Client)
    → ((room : ℕ) (bs : List ℕ) → read room ≡ got bs → length bs ≤ room)
    → (s.stdin_in_rset ≡ true → c.stdineof ≡ false)
    → Holds c
    → Kept (read_stdin read s c)
unfolding read_stdin
read_stdin-Kept read s c law more h =
    let a = read (maxline - c.to.iptr) in
    if_induction Kept s.stdin_in_rset (got_stdin a s c) (going s c)
      (λ e. got_stdin-Kept a s c (law (maxline - c.to.iptr)) (more e) h) (λ e. h)

got_sock-Kept :
    (a : Answer) (s : Sets) (c : Client)
    → ((bs : List ℕ) → a ≡ got bs → length bs ≤ maxline - c.fr.iptr)
    → Holds c
    → Kept (got_sock a s c)
got_sock-Kept (read_error e) s c law h = unless_would_block-Kept e s c h
got_sock-Kept (got []) s c law h =
    if_induction Kept c.stdineof (returned c) (terminated_prematurely c) (λ e. h) (λ e. h)
got_sock-Kept (got (b ∷ bs)) s c law h = record {
  out = h.out;
  back = fill-Copies c.fr c.served c.shown b bs (law (b ∷ bs) refl) h.back;
  fin = h.fin;
}

read_sock-Kept :
    (read : ℕ → Answer) (s : Sets) (c : Client)
    → ((room : ℕ) (bs : List ℕ) → read room ≡ got bs → length bs ≤ room)
    → Holds c
    → Kept (read_sock read s c)
unfolding read_sock
read_sock-Kept read s c law h =
    let a = read (maxline - c.fr.iptr) in
    if_induction Kept s.sock_in_rset (got_sock a s c) (going s c)
      (λ e. got_sock-Kept a s c (law (maxline - c.fr.iptr)) h) (λ e. h)

wrote_stdout-Kept :
    (a : Taken) (s : Sets) (c : Client)
    → ((n : ℕ) → a ≡ took n → n ≤ length (held c.fr))
    → Holds c
    → Kept (wrote_stdout a s c)
wrote_stdout-Kept (write_error e) s c law h = unless_would_block-Kept e s c h
wrote_stdout-Kept (took n) s c law h = record {
  out = h.out;
  back =
      drain-Copies c.fr c.served c.shown n
        (omega (arith, law n refl, length-window c.fr.bytes c.fr.optr (c.fr.iptr - c.fr.optr)))
        h.back;
  fin = h.fin;
}

write_stdout-Kept :
    (write : List ℕ → Taken) (s : Sets) (c : Client)
    → ((bs : List ℕ) (n : ℕ) → write bs ≡ took n → n ≤ length bs)
    → Holds c
    → Kept (write_stdout write s c)
unfolding write_stdout
write_stdout-Kept write s c law h =
    let a = write (held c.fr) in
    if_induction Kept (s.stdout_in_wset && ltb 0 (c.fr.iptr - c.fr.optr)) (wrote_stdout a s c)
      (going s c) (λ e. wrote_stdout-Kept a s c (law (held c.fr)) h) (λ e. h)

-- The shutdown after the last byte, when the buffer was not empty before.
wrote_sock-Kept :
    (a : Taken) (s : Sets) (c : Client)
    → ((n : ℕ) → a ≡ took n → n ≤ length (held c.to))
    → c.to.optr < c.to.iptr
    → Holds c
    → Kept (wrote_sock a s c)
wrote_sock-Kept (write_error e) s c law some h = unless_would_block-Kept e s c h
wrote_sock-Kept (took n) s c law some h =
    let kept =
      drain-Copies c.to c.typed c.sent n
        (omega (arith, law n refl, length-window c.to.bytes c.to.optr (c.to.iptr - c.to.optr)))
        h.out in
    let c' : Client = record c {
      to = drain n c.to;
      sent = c.sent ++ window c.to.bytes c.to.optr n;
    } in
    if_induction Holds (c.to.optr + n == c.to.iptr && c.stdineof) (shutdown c') c'
      (λ e. record { out = kept; back = h.back; fin = ground (arith, h.fin, e, some) })
      (λ e. record { out = kept; back = h.back; fin = ground (arith, h.fin, e, some) })

write_sock-Kept :
    (write : List ℕ → Taken) (s : Sets) (c : Client)
    → ((bs : List ℕ) (n : ℕ) → write bs ≡ took n → n ≤ length bs)
    → Holds c
    → Kept (write_sock write s c)
unfolding write_sock
write_sock-Kept write s c law h =
    let a = write (held c.to) in
    if_induction Kept (s.sock_in_wset && ltb 0 (c.to.iptr - c.to.optr)) (wrote_sock a s c)
      (going s c) (λ e. wrote_sock-Kept a s c (law (held c.to)) (ground (arith, e)) h) (λ e. h)

and_then-Kept :
    (o : Outcome) (f : Sets → Client → Outcome)
    → ((s : Sets) (c : Client) → Holds c → Kept (f s c))
    → Kept o
    → Kept (and_then o f)
and_then-Kept (going s c) f k h = k s c h
and_then-Kept (returned c) f k h = h
and_then-Kept (terminated_prematurely c) f k h = h
and_then-Kept (failed e c) f k h = h

pub round-Kept : (k : Kernel) (c : Client) → Lawful k → Holds c → Kept (round k c)
unfolding round ask select
round-Kept k c law h =
    and_then-Kept
      (and_then (and_then (read_stdin k.stdin (select k.ready (ask c)) c) (read_sock k.sock_in))
        (write_stdout k.stdout))
      (write_sock k.sock_out) (λ s d. write_sock-Kept k.sock_out s d law.sock_out_law)
      (and_then-Kept
        (and_then (read_stdin k.stdin (select k.ready (ask c)) c) (read_sock k.sock_in))
        (write_stdout k.stdout) (λ s d. write_stdout-Kept k.stdout s d law.stdout_law)
        (and_then-Kept (read_stdin k.stdin (select k.ready (ask c)) c) (read_sock k.sock_in)
          (λ s d. read_sock-Kept k.sock_in s d law.sock_in_law)
          (read_stdin-Kept k.stdin (select k.ready (ask c)) c law.stdin_law (λ e. ground (arith, e))
            h)))

start-Holds : Holds start
unfolding window
start-Holds = record {
  out = record { order = omega arith; bound = omega arith; begin = λ q. refl; content = refl };
  back = record { order = omega arith; bound = omega arith; begin = λ q. refl; content = refl };
  fin = refl;
}

pub Reach-Holds : (c : Client) → Reach c → Holds c
Reach-Holds _ begins = start-Holds
Reach-Holds _ (later {c = c} r k s c' law e) = subst Kept e (round-Kept k c law (Reach-Holds c r))
