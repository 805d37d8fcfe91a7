-- ===== src/StrCli/Tests.antt =====
-- Runs of str_cli: three bytes typed and echoed; and an answer that stdout is too slow for.
use com_tutor.Base.{
  ℕ, zero, suc, ◌≤◌, ◌<◌, ◌≡◌, ◌↔◌, refl, true, false, List, [], ◌∷◌, ◌++◌, length, take, arith,
}
use com_tutor.Base.Errno.{eagain}
use com_tutor.StrCli.{
  maxline, held, window, store, Sets, Client, start, Outcome, going, returned, Answer, got, Taken,
  write_error, took, ask, select, read_stdin, read_sock, write_stdout, write_sock, Kernel, round,
}
use com_tutor.StrCli.Rounds.{Lawful, Reach, begins, later}
use com_tutor.StrCli.Drains.{Takes, rounds, fin_comes}
use com_tutor.StrCli.Safety.{copied_in_order, fin_once, returns_at_end}

abbrev giving : List ℕ → ℕ → Answer
giving bs room = got (take room bs)

abbrev taking : ℕ → List ℕ → Taken
taking n bs = took (length (take n bs))

abbrev blocking : List ℕ → Taken
blocking bs = write_error eagain

take-fits : (n : ℕ) (bs : List ℕ) → length (take n bs) ≤ n
take-fits zero bs = omega arith
take-fits (suc n) [] = omega arith
take-fits (suc n) (b ∷ bs) = omega (arith, take-fits n bs)

take-within : (n : ℕ) (bs : List ℕ) → length (take n bs) ≤ length bs
take-within zero bs = omega arith
take-within (suc n) [] = omega arith
take-within (suc n) (b ∷ bs) = omega (arith, take-within n bs)

giving-fits : (src : List ℕ) (room : ℕ) (bs : List ℕ) → giving src room ≡ got bs → length bs ≤ room
giving-fits src room bs q = ground (arith, take-fits room src, q)

taking-within : (m : ℕ) (bs : List ℕ) (n : ℕ) → taking m bs ≡ took n → n ≤ length bs
taking-within m bs n q = ground (arith, take-within m bs, q)

blocking-within : (bs : List ℕ) (n : ℕ) → blocking bs ≡ took n → n ≤ length bs
blocking-within bs n q = ground (arith, q)

abbrev all_ready : Sets
all_ready = record {
  stdin_in_rset = true;
  sock_in_rset = true;
  stdout_in_wset = true;
  sock_in_wset = true;
}

-- Three bytes are typed, and the socket takes two of them.
abbrev typing : Kernel
typing = record {
  ready = record all_ready { sock_in_rset = false };
  stdin = giving (104 ∷ 105 ∷ 10 ∷ []);
  sock_in = giving [];
  stdout = taking 9;
  sock_out = taking 2;
}

-- Stdin is at its end, two bytes come from the socket, and stdout would block.
abbrev answering : Kernel
answering = record {
  ready = all_ready;
  stdin = giving [];
  sock_in = giving (7 ∷ 8 ∷ []);
  stdout = blocking;
  sock_out = taking 9;
}

abbrev closing : Kernel
closing = record {
  ready = record all_ready { stdout_in_wset = false };
  stdin = giving [];
  sock_in = giving [];
  stdout = blocking;
  sock_out = taking 9;
}

typing-Lawful : Lawful typing
typing-Lawful = record {
  stdin_law = giving-fits (104 ∷ 105 ∷ 10 ∷ []);
  sock_in_law = giving-fits [];
  stdout_law = taking-within 9;
  sock_out_law = taking-within 2;
}

answering-Lawful : Lawful answering
answering-Lawful = record {
  stdin_law = giving-fits [];
  sock_in_law = giving-fits (7 ∷ 8 ∷ []);
  stdout_law = blocking-within;
  sock_out_law = taking-within 9;
}

closing-Lawful : Lawful closing
closing-Lawful = record {
  stdin_law = giving-fits [];
  sock_in_law = giving-fits [];
  stdout_law = blocking-within;
  sock_out_law = taking-within 9;
}

abbrev client_of : Outcome → Client
client_of (going s c) = c
client_of (returned c) = c
client_of _ = start

abbrev sets_of : Outcome → Sets
sets_of (going s c) = s
sets_of _ = all_ready

unfoldable second : Client
second = client_of (round typing start)

unfoldable third : Client
third = client_of (round answering second)

second-Reach : Reach second
unfolding second round ask select read_stdin read_sock write_stdout write_sock store window
second-Reach = later begins typing (sets_of (round typing start)) second typing-Lawful refl

third-Reach : Reach third
unfolding third second round ask select read_stdin read_sock write_stdout write_sock store window
third-Reach =
    later second-Reach answering (sets_of (round answering second)) third answering-Lawful refl

third_sent : (third.sent ≡ 104 ∷ 105 ∷ 10 ∷ []) × (third.fins ≡ 1)
unfolding third second round ask select read_stdin read_sock write_stdout write_sock store window
third_sent = (refl, refl)

third_lost : (third.served ≡ 7 ∷ 8 ∷ []) × (third.shown ≡ [])
unfolding third second round ask select read_stdin read_sock write_stdout write_sock store window
third_lost = (refl, refl)

third_returns : round closing third ≡ returned third
unfolding third second round ask select read_stdin read_sock write_stdout write_sock store window
third_returns = refl

copied_in_order_example :
    (second.typed ≡ second.sent ++ held second.to)
    × (second.served ≡ second.shown ++ held second.fr)
    × (second.to.iptr ≤ maxline)
    × (second.fr.iptr ≤ maxline)
copied_in_order_example = copied_in_order second second-Reach

fin_once_example :
    (third.fins ≤ 1) × ((third.fins ≡ 1) ↔ ((third.stdineof ≡ true) × (third.typed ≡ third.sent)))
fin_once_example = fin_once third third-Reach

returns_at_end_example :
    (third.stdineof ≡ true)
    × ((room : ℕ) × (0 < room) × (closing.sock_in room ≡ got []))
    × (third.served ≡ third.shown ++ held third.fr)
returns_at_end_example = returns_at_end third closing third third-Reach closing-Lawful third_returns

-- Three bytes are typed and stdin is at its end at once; the socket takes one byte a round.
abbrev slow : ℕ → Kernel
slow i = record typing { stdin = giving []; sock_out = λ bs. taking 1 bs }

take_one : (bs : List ℕ) → 0 < length bs → (n : ℕ) × (0 < n) × (taking 1 bs ≡ took n)
take_one [] h = absurd (omega (arith, h))
take_one (b ∷ bs) h = (1, omega arith, refl)

slow-Takes : (i : ℕ) → Takes (slow i)
slow-Takes i = record { ready = refl; takes = take_one }

slow-Lawful : (i : ℕ) → Lawful (slow i)
slow-Lawful i = record {
  stdin_law = giving-fits [];
  sock_in_law = giving-fits [];
  stdout_law = taking-within 9;
  sock_out_law = taking-within 1;
}

-- At the end of stdin, when the socket would block.
abbrev stuck : Kernel
stuck = record typing { stdin = giving []; sock_out = blocking }

unfoldable waiting : Client
waiting = client_of (round stuck second)

waiting-Reach : Reach waiting
unfolding waiting second round ask select read_stdin read_sock write_stdout write_sock store window
waiting-Reach =
    later second-Reach stuck (sets_of (round stuck second)) waiting
      (record {
        stdin_law = giving-fits [];
        sock_in_law = giving-fits [];
        stdout_law = taking-within 9;
        sock_out_law = blocking-within;
      })
      refl

waiting_eof : waiting.stdineof ≡ true
unfolding waiting second round ask select read_stdin read_sock write_stdout write_sock store window
waiting_eof = refl

unfoldable last_round : Outcome
unfolding rounds
last_round = rounds slow (length (held waiting.to)) waiting

waiting_goes : last_round ≡ going (sets_of last_round) (client_of last_round)
unfolding last_round rounds waiting second round ask select read_stdin read_sock write_stdout
    write_sock store window
waiting_goes = refl

fin_comes_example : (client_of last_round).fins ≡ 1
unfolding last_round rounds
fin_comes_example =
    fin_comes waiting slow waiting-Reach waiting_eof slow-Lawful slow-Takes (sets_of last_round)
      (client_of last_round) waiting_goes
