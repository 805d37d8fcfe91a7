-- ===== src/StrCli.antt =====
-- unixNetV1/nonblock/strclinonb.c: str_cli over non-blocking descriptors. Two buffers, each with a
-- pointer to its next byte in and one to its next byte out, between stdin and the socket and back.
pub mod Buffers
pub mod Rounds
pub mod Safety
pub mod Drains
mod Tests
use com_tutor.Base.{
  ℕ, zero, suc, ◌+◌, ◌-◌, Bool, true, false, ◌&&◌, not, List, [], ◌∷◌, ◌++◌, length, ltb, ◌==◌,
  if◌then◌else◌, update,
}
use com_tutor.Base.Errno.{Errno, eagain}

abbrev pub maxline : ℕ
maxline = 4096

-- A buffer: `to` with toiptr and tooptr, or `fr` with friptr and froptr, as offsets.
pub record Buffer : Type 0 where
  pub bytes : ℕ → ℕ
  pub iptr : ℕ
  pub optr : ℕ

abbrev pub is_empty : Buffer → Bool
is_empty b = b.optr == b.iptr

-- The `n` bytes of an array from `o` on.
unfoldable pub window : (ℕ → ℕ) → (o n : ℕ) → List ℕ
window f o zero = []
window f o (suc n) = f o ∷ window f (o + 1) n

-- The bytes that are still to be written.
abbrev pub held : Buffer → List ℕ
held b = window b.bytes b.optr (b.iptr - b.optr)

-- What read stores from `i` on.
unfoldable pub store : (ℕ → ℕ) → (i : ℕ) → List ℕ → ℕ → ℕ
store f i [] = f
store f i (b ∷ bs) = store (update f i b) (i + 1) bs

-- The bytes of a read are in the buffer.
abbrev pub fill : List ℕ → Buffer → Buffer
fill bs b = record b { bytes = store b.bytes b.iptr bs; iptr = b.iptr + length bs }

-- `n` bytes have been written; at the end of the data the pointers go back to the beginning.
abbrev pub drain : ℕ → Buffer → Buffer
drain n b =
    let out = b.optr + n in
    if out == b.iptr then record b { iptr = 0; optr = 0 } else record b { optr = out }

-- The descriptors in rset and in wset.
pub record Sets : Type 0 where
  pub stdin_in_rset : Bool
  pub sock_in_rset : Bool
  pub stdout_in_wset : Bool
  pub sock_in_wset : Bool

-- The variables of str_cli; and of the kernel, the bytes that have passed each descriptor in each
-- direction and how often the socket has been shut down.
pub record Client : Type 0 where
  pub to : Buffer
  pub fr : Buffer
  pub stdineof : Bool
  pub typed : List ℕ
  pub sent : List ℕ
  pub served : List ℕ
  pub shown : List ℕ
  pub fins : ℕ

abbrev pub start : Client
start =
    let empty : Buffer = record { bytes = λ i. 0; iptr = 0; optr = 0 } in
    record {
      to = empty;
      fr = empty;
      stdineof = false;
      typed = [];
      sent = [];
      served = [];
      shown = [];
      fins = 0;
    }

pub data Outcome : Type 0 where
  going : Sets → Client → Outcome
  returned : Client → Outcome
  terminated_prematurely : Client → Outcome
  failed : Errno → Client → Outcome

-- What read answers: an error, or bytes, none of them at the end of the file.
pub data Answer : Type 0 where
  read_error : Errno → Answer
  got : List ℕ → Answer

pub data Taken : Type 0 where
  write_error : Errno → Taken
  took : ℕ → Taken

abbrev pub shutdown : Client → Client
shutdown c = record c { fins = c.fins + 1 }

-- An error other than EWOULDBLOCK, which is EAGAIN, ends the program.
abbrev pub unless_would_block : Errno → Sets → Client → Outcome
unless_would_block eagain s c = going s c
unless_would_block e s c = failed e c

unfoldable pub ask : Client → Sets
ask c = record {
  stdin_in_rset = not c.stdineof && ltb c.to.iptr maxline;
  sock_in_rset = ltb c.fr.iptr maxline;
  stdout_in_wset = not (is_empty c.fr);
  sock_in_wset = not (is_empty c.to);
}

-- select leaves the descriptors that are ready.
unfoldable pub select : (ready asked : Sets) → Sets
select r s = record {
  stdin_in_rset = s.stdin_in_rset && r.stdin_in_rset;
  sock_in_rset = s.sock_in_rset && r.sock_in_rset;
  stdout_in_wset = s.stdout_in_wset && r.stdout_in_wset;
  sock_in_wset = s.sock_in_wset && r.sock_in_wset;
}

abbrev pub got_stdin : Answer → Sets → Client → Outcome
got_stdin (read_error e) s c = unless_would_block e s c
got_stdin (got []) s c =
    let c' = record c { stdineof = true } in going s (if is_empty c.to then shutdown c' else c')
got_stdin (got (b ∷ bs)) s c =
    going (record s { sock_in_wset = true })
      (record c { to = fill (b ∷ bs) c.to; typed = c.typed ++ (b ∷ bs) })

unfoldable pub read_stdin : (read : ℕ → Answer) → Sets → Client → Outcome
read_stdin read s c =
    if s.stdin_in_rset then got_stdin (read (maxline - c.to.iptr)) s c else going s c

abbrev pub got_sock : Answer → Sets → Client → Outcome
got_sock (read_error e) s c = unless_would_block e s c
got_sock (got []) s c = if c.stdineof then returned c else terminated_prematurely c
got_sock (got (b ∷ bs)) s c =
    going (record s { stdout_in_wset = true })
      (record c { fr = fill (b ∷ bs) c.fr; served = c.served ++ (b ∷ bs) })

unfoldable pub read_sock : (read : ℕ → Answer) → Sets → Client → Outcome
read_sock read s c = if s.sock_in_rset then got_sock (read (maxline - c.fr.iptr)) s c else going s c

abbrev pub wrote_stdout : Taken → Sets → Client → Outcome
wrote_stdout (write_error e) s c = unless_would_block e s c
wrote_stdout (took n) s c =
    going s (record c { fr = drain n c.fr; shown = c.shown ++ window c.fr.bytes c.fr.optr n })

unfoldable pub write_stdout : (write : List ℕ → Taken) → Sets → Client → Outcome
write_stdout write s c =
    if s.stdout_in_wset && ltb 0 (c.fr.iptr - c.fr.optr)
    then wrote_stdout (write (held c.fr)) s c
    else going s c

abbrev pub wrote_sock : Taken → Sets → Client → Outcome
wrote_sock (write_error e) s c = unless_would_block e s c
wrote_sock (took n) s c =
    let c' = record c { to = drain n c.to; sent = c.sent ++ window c.to.bytes c.to.optr n } in
    going s (if c.to.optr + n == c.to.iptr && c.stdineof then shutdown c' else c')

unfoldable pub write_sock : (write : List ℕ → Taken) → Sets → Client → Outcome
write_sock write s c =
    if s.sock_in_wset && ltb 0 (c.to.iptr - c.to.optr)
    then wrote_sock (write (held c.to)) s c
    else going s c

abbrev pub and_then : Outcome → (Sets → Client → Outcome) → Outcome
and_then (going s c) f = f s c
and_then o f = o

-- The kernel in one round: what is ready, and what the calls answer.
pub record Kernel : Type 0 where
  pub ready : Sets
  pub stdin : ℕ → Answer
  pub sock_in : ℕ → Answer
  pub stdout : List ℕ → Taken
  pub sock_out : List ℕ → Taken

-- One round of the loop.
unfoldable pub round : Kernel → Client → Outcome
unfolding read_stdin read_sock write_stdout write_sock ask select
round k c =
    and_then
      (and_then (and_then (read_stdin k.stdin (select k.ready (ask c)) c) (read_sock k.sock_in))
        (write_stdout k.stdout))
      (write_sock k.sock_out)
