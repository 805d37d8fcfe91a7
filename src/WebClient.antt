-- ===== src/WebClient.antt =====
-- unixNetV1/nonblock/web.c, web.h, start_connect.c and write_get_cmd.c: a client that fetches files
-- over non-blocking connections, a number of them at a time. Each step is one test of a loop of main
-- with the body that follows it.
pub mod Steps
pub mod Counters
pub mod Watch
pub mod Events
pub mod Opens
pub mod Safety
pub mod Progress
mod Tests
use com_tutor.Base.{
  ℕ, zero, suc, ◌+◌, ◌-◌, Bool, true, false, ◌&&◌, ◌||◌, ltb, leb, ◌==◌, if◌then◌else◌, update,
}
use com_tutor.Base.Search.{first_from}

-- f_flags: 0, F_CONNECTING, F_READING or F_DONE; the code never sets two of them.
pub data Flags : Type 0 where
  unstarted connecting reading done : Flags

pub record File : Type 0 where
  pub f_fd : ℕ
  pub f_flags : Flags

-- The variables of web.h; `nfds` is maxfd + 1.
pub record State : Type 0 where
  pub file : ℕ → File
  pub nconn : ℕ
  pub nlefttoconn : ℕ
  pub nlefttoread : ℕ
  pub nfds : ℕ
  pub rset : ℕ → Bool
  pub wset : ℕ → Bool

abbrev pub initial : (nfiles : ℕ) → State
initial nfiles = record {
  file = λ i. record { f_fd = 0; f_flags = unstarted };
  nconn = 0;
  nlefttoconn = nfiles;
  nlefttoread = nfiles;
  nfds = 0;
  rset = λ fd. false;
  wset = λ fd. false;
}

-- Where main is: at the outer loop, at the loop that opens connections, or at file `i` of the loop
-- after select, which has left `rs` and `ws`.
pub data Place : Type 0 where
  outer inner : Place
  scanning : (i : ℕ) (rs ws : ℕ → Bool) → Place

-- The end of the program: exit(0), err_quit of the search, or another error.
pub data Outcome : Type 0 where
  going : Place → State → Outcome
  finished nothing_found failed : State → Outcome

pub data Connect : Type 0 where
  in_progress connected refused : Connect

pub data Got : Type 0 where
  bytes eof read_error : Got

-- What the calls answer in a step: the descriptor of Socket, connect, whether Writen writes the
-- command, the descriptors that select finds ready, whether SO_ERROR is set, and Read.
pub record Answers : Type 0 where
  pub socket : ℕ
  pub connect : Connect
  pub writen : Bool
  pub readable : ℕ → Bool
  pub writable : ℕ → Bool
  pub so_error : Bool
  pub read : Got

abbrev pub is_unstarted : Flags → Bool
is_unstarted unstarted = true
is_unstarted _ = false

-- `if (fd > maxfd) maxfd = fd`.
abbrev pub max_fd : (fd nfds : ℕ) → ℕ
max_fd fd nfds = if leb nfds fd then fd + 1 else nfds

-- write_get_cmd once the command is written to `fd`, the descriptor of file `i`.
abbrev pub command_written : (i fd : ℕ) → State → State
command_written i fd s = record s {
  file = update s.file i (record { f_fd = fd; f_flags = reading });
  rset = update s.rset fd true;
  nfds = max_fd fd s.nfds;
}

-- start_connect, when connect has begun and is not done.
abbrev pub connect_begun : (i fd : ℕ) → State → State
connect_begun i fd s = record s {
  file = update s.file i (record { f_fd = fd; f_flags = connecting });
  rset = update s.rset fd true;
  wset = update s.wset fd true;
  nfds = max_fd fd s.nfds;
}

-- write_get_cmd for file `i` with the descriptor `fd`, and then the place `p`.
abbrev pub write_get_cmd : (i fd : ℕ) → (written : Bool) → Place → State → Outcome
write_get_cmd i fd true p s = going p (command_written i fd s)
write_get_cmd i fd false p s = failed s

abbrev pub count_connection : Outcome → Outcome
count_connection (going p s) =
    going p (record s { nconn = s.nconn + 1; nlefttoconn = s.nlefttoconn - 1 })
count_connection o = o

abbrev pub start_connect : (i : ℕ) → Answers → State → Outcome
start_connect i a s = elim a.connect [
  | in_progress ↦ going inner (connect_begun i a.socket s)
  | connected ↦ write_get_cmd i a.socket a.writen inner s
  | refused ↦ failed s
]

-- The first file to read among `n` files.
abbrev pub find : (ℕ → File) → (n : ℕ) → ℕ
find file n = first_from (λ i. is_unstarted (file i).f_flags) 0 n

unfoldable pub connect_next : (nfiles : ℕ) → Answers → State → Outcome
connect_next nfiles a s =
    let i = find s.file nfiles in
    if i == nfiles then nothing_found s else count_connection (start_connect i a s)

-- A connection is established, or has failed, which is only reported.
abbrev pub established : (i fd : ℕ) → Answers → Place → State → Outcome
established i fd a p s = write_get_cmd i fd a.writen p (record s { wset = update s.wset fd false })

abbrev pub read_file : (i fd : ℕ) → Got → Place → State → Outcome
read_file i fd bytes p s = going p s
read_file i fd eof p s = going p (record s {
  file = update s.file i (record { f_fd = fd; f_flags = done });
  rset = update s.rset fd false;
  nconn = s.nconn - 1;
  nlefttoread = s.nlefttoread - 1;
})
read_file i fd read_error p s = failed s

-- The body of the loop over the files.
abbrev pub scan_file :
    (i : ℕ) → (rs ws : ℕ → Bool) → Answers → Place → State → (fd : ℕ) → Flags → Outcome
scan_file i rs ws a p s fd unstarted = going p s
scan_file i rs ws a p s fd done = going p s
scan_file i rs ws a p s fd connecting = if rs fd || ws fd then established i fd a p s else going p s
scan_file i rs ws a p s fd reading = if rs fd then read_file i fd a.read p s else going p s

unfoldable pub web_step : (nfiles maxnconn : ℕ) → Answers → Place → State → Outcome
unfolding connect_next
web_step nfiles maxnconn a outer s = if ltb 0 s.nlefttoread then going inner s else finished s
web_step nfiles maxnconn a inner s =
    if ltb s.nconn maxnconn && ltb 0 s.nlefttoconn
    then connect_next nfiles a s
    else going (scanning 0 (λ fd. s.rset fd && a.readable fd) (λ fd. s.wset fd && a.writable fd)) s
web_step nfiles maxnconn a (scanning i rs ws) s =
    if ltb i nfiles
    then scan_file i rs ws a (scanning (i + 1) rs ws) s (s.file i).f_fd (s.file i).f_flags
    else going outer s
