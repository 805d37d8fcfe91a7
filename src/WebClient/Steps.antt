-- ===== src/WebClient/Steps.antt =====
-- The steps of the client, with the kernel's promise that Socket gives a descriptor that is not open.
use com_tutor.Base.{ℕ, ◌<◌, ◌≡◌, ◌≢◌}
use com_tutor.WebClient.{
  Flags, connecting, reading, State, initial, Place, outer, going, Answers, web_step,
}

-- A connection is open: 1 if it is.
abbrev pub active : Flags → ℕ
active connecting = 1
active reading = 1
active _ = 0

-- `fd` is not the descriptor of an open connection.
abbrev pub IsFresh : (nfiles : ℕ) → State → ℕ → Type 0
IsFresh nfiles s fd = (j : ℕ) → j < nfiles → active (s.file j).f_flags ≡ 1 → (s.file j).f_fd ≢ fd

pub data Reach (nfiles maxnconn : ℕ) : Place → State → Type 0 where
  begins : Reach nfiles maxnconn outer (initial nfiles)
  later :
      {p : Place} {s : State}
      → Reach nfiles maxnconn p s
      → (a : Answers) (p' : Place) (s' : State) → IsFresh nfiles s a.socket
      → web_step nfiles maxnconn a p s ≡ going p' s'
      → Reach nfiles maxnconn p' s'
