-- ===== src/StreamIo/Tests.antt =====
-- A file that gives two bytes a read, after some signals; and runs of the loops on it.
use com_tutor.Base.{
  ℕ, zero, suc, ◌-◌, ◌≤◌, ◌<◌, ◌≡◌, ◌⊎◌, inl, inr, refl, ◌∙◌, ap, subst, List, [], ◌∷◌, ◌++◌,
  length, take, arith,
}
use com_tutor.Base.Int.{pos}
use com_tutor.Base.Errno.{Errno}
use com_tutor.StreamIo.{
  Answer, got, eof, interrupted, refused, Reader, IsReadError, returned, refusal, readn_loop, readn,
  Taken, took, signalled, denied, Writer, writen_loop, writen, stale,
}
use com_tutor.StreamIo.Laws.{readn_returns}
use com_tutor.StreamIo.Writing.{writen_returns}
use com_tutor.StreamIo.Lines.{Buffer, max_line, fetch, refill, my_read, line_loop, readline}
use com_tutor.StreamIo.Lines.Feed.{unread, IsCounted}
use com_tutor.StreamIo.Lines.Laws.{readline_takes_line, next_line}

abbrev File : Type 0
File = List ℕ × ℕ

abbrev read_two : (signals : ℕ) → List ℕ → ℕ → Answer × File
read_two (suc k) bs n = (interrupted, (bs, k))
read_two zero bs zero = (eof, (bs, 0))
read_two zero [] (suc n) = (eof, ([], 0))
read_two zero (b ∷ []) (suc n) = (got (b ∷ []), ([], 0))
read_two zero (b ∷ c ∷ bs) (suc zero) = (got (b ∷ []), (c ∷ bs, 0))
read_two zero (b ∷ c ∷ bs) (suc (suc n)) = (got (b ∷ c ∷ []), (bs, 0))

abbrev IsAnswer : ℕ → List ℕ → ℕ → Answer × File → Type 0
IsAnswer signals bs n (got l, (rest, k)) =
    (0 < length l) × (length l ≤ n) × (bs ≡ l ++ rest) × (k ≤ signals)
IsAnswer signals bs n (eof, (rest, k)) = 0 < n → (bs ≡ []) × (rest ≡ [])
IsAnswer signals bs n (interrupted, (rest, k)) = (rest ≡ bs) × (k < signals)
IsAnswer signals bs n (refused e, (rest, k)) = rest ≡ bs

read_two-IsAnswer :
    (signals : ℕ) (bs : List ℕ) (n : ℕ) → IsAnswer signals bs n (read_two signals bs n)
read_two-IsAnswer (suc k) bs n = (refl, omega arith)
read_two-IsAnswer zero bs zero = λ h. absurd (omega (arith, h))
read_two-IsAnswer zero [] (suc n) = λ h. (refl, refl)
read_two-IsAnswer zero (b ∷ []) (suc n) = (omega arith, omega arith, refl, omega arith)
read_two-IsAnswer zero (b ∷ c ∷ bs) (suc zero) = (omega arith, omega arith, refl, omega arith)
read_two-IsAnswer zero (b ∷ c ∷ bs) (suc (suc n)) = (omega arith, omega arith, refl, omega arith)

abbrev file : Reader
file = record {
  State = File;
  read = λ s n. read_two s.1 s.0 n;
  pending = λ s. s.0;
  interrupts = λ s. s.1;
  got_law = λ s n bs s' q. subst (IsAnswer s.1 s.0 n) q (read_two-IsAnswer s.1 s.0 n);
  eof_law = λ s n s' h q. subst (IsAnswer s.1 s.0 n) q (read_two-IsAnswer s.1 s.0 n) h;
  interrupted_law = λ s n s' q. subst (IsAnswer s.1 s.0 n) q (read_two-IsAnswer s.1 s.0 n);
  refused_law = λ s n e s' q. subst (IsAnswer s.1 s.0 n) q (read_two-IsAnswer s.1 s.0 n);
}

abbrev text : List ℕ
text = 97 ∷ 98 ∷ 10 ∷ 99 ∷ 100 ∷ []

abbrev fresh : Buffer
fresh = record { read_cnt = pos 0; read_ptr = [] }

readn_runs : readn file 9 4 (text, 2) ≡ (returned 4, 97 ∷ 98 ∷ 10 ∷ 99 ∷ [], (100 ∷ [], 0))
unfolding readn readn_loop
readn_runs = refl

readn_short : readn file 99 9 (text, 1) ≡ (returned 5, text, ([], 0))
unfolding readn readn_loop
readn_short = refl

readline_runs : readline file 9 80 fresh (text, 2) ≡ (
  returned 3,
  97 ∷ 98 ∷ 10 ∷ [],
  record { read_cnt = pos 1; read_ptr = 99 ∷ [] },
  (100 ∷ [], 0),
)
unfolding readline line_loop my_read refill fetch
readline_runs = refl

readline_cut : (readline file 9 3 fresh (text, 0)).0 ≡ returned 3
unfolding readline line_loop my_read refill fetch
readline_cut = refl

readn_returns_example :
    let (r, bs, s') = readn file 9 4 (text, 2) in
    (text ≡ bs ++ s'.0)
    × (length bs ≤ 4)
    × (((r ≡ returned (length bs)) × ((length bs ≡ 4) ⊎ (s'.0 ≡ [])))
        ⊎ ((e : Errno) × (r ≡ refusal e) × IsReadError file (4 - length bs) e s'))
readn_returns_example = readn_returns file 9 4 (text, 2) (omega arith)

readline_takes_line_example :
    let (r, line, b', s') = readline file 9 80 fresh (text, 2) in
    IsCounted b'
    × (unread file fresh (text, 2) ≡ line ++ unread file b' s')
    × (((k : ℕ) × (r ≡ returned k) × (line ≡ next_line 79 (unread file fresh (text, 2))))
        ⊎ ((e : Errno) × (r ≡ refusal e) × IsReadError file max_line e s'))
readline_takes_line_example = readline_takes_line file 9 80 fresh (text, 2) (inl refl) (omega arith)

-- A descriptor that takes two bytes a write, after some signals, and fails for want of room.
abbrev write_two : (signals : ℕ) → List ℕ → List ℕ → Taken × File
write_two (suc k) sunk bs = (signalled, (sunk, k))
write_two zero sunk bs = (took (length (take 2 bs)), (sunk ++ take 2 bs, 0))

abbrev IsTaken : ℕ → List ℕ → List ℕ → Taken × File → Type 0
IsTaken signals sunk bs (took n, (rest, k)) =
    (n ≤ length bs) × (rest ≡ sunk ++ take n bs) × (k ≤ signals)
IsTaken signals sunk bs (signalled, (rest, k)) = (rest ≡ sunk) × (k < signals)
IsTaken signals sunk bs (denied e, (rest, k)) = rest ≡ sunk

write_two-IsTaken :
    (signals : ℕ) (sunk bs : List ℕ) → IsTaken signals sunk bs (write_two signals sunk bs)
write_two-IsTaken (suc k) sunk bs = (refl, omega arith)
write_two-IsTaken zero sunk [] = (omega arith, refl, omega arith)
write_two-IsTaken zero sunk (b ∷ []) = (omega arith, refl, omega arith)
write_two-IsTaken zero sunk (b ∷ c ∷ bs) = (omega arith, refl, omega arith)

abbrev sink : Writer
sink = record {
  State = File;
  write = λ s bs. write_two s.1 s.0 bs;
  sink = λ s. s.0;
  interrupts = λ s. s.1;
  took_law = λ s bs n s' q. subst (IsTaken s.1 s.0 bs) q (write_two-IsTaken s.1 s.0 bs);
  signalled_law = λ s bs s' q. (subst (IsTaken s.1 s.0 bs) q (write_two-IsTaken s.1 s.0 bs)).1;
  other_law = λ s bs t s' q o. elim o [
    | inl e ↦
        (subst (IsTaken s.1 s.0 bs) (q ∙ ap (λ x. (x, s')) e) (write_two-IsTaken s.1 s.0 bs)).0
    | inr (err, e) ↦
        subst (IsTaken s.1 s.0 bs) (q ∙ ap (λ x. (x, s')) e) (write_two-IsTaken s.1 s.0 bs)
  ];
}

writen_runs : writen sink 9 text ([], 2) ≡ (returned 5, (text, 0))
unfolding writen writen_loop
writen_runs = refl

writen_returns_example :
    let (r, s') = writen sink 9 text (text, 2) in
    ((r ≡ returned 5) × (s'.0 ≡ text ++ text))
    ⊎ ((pre : List ℕ) × (post : List ℕ) × (text ≡ pre ++ post)
        × (s'.0 ≡ text ++ pre)
        × ((s'' : File) × (((r ≡ stale) × (0 < length post) × (sink.write s'' post ≡ (took 0, s')))
              ⊎ ((e : Errno) × (r ≡ refusal e) × (sink.write s'' post ≡ (denied e, s'))))))
writen_returns_example = writen_returns sink 9 text (text, 2) (omega arith)
