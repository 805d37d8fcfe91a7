-- ===== src/WebClient/Opens.antt =====
-- What each step of the client does to the descriptor sets.
use com_tutor.Base.{
  ℕ, ◌+◌, ◌-◌, ◌<◌, ◌≡◌, ◌⊎◌, refl, inl, inr, subst, Bool, true, false, ◌&&◌, ◌||◌, ltb, ◌==◌,
  if_induction, update, arith,
}
use com_tutor.Base.Search.{first_from-cases}
use com_tutor.WebClient.{
  Flags, unstarted, connecting, reading, done, State, initial, Place, outer, inner, scanning,
  Outcome, going, finished, nothing_found, Connect, in_progress, connected, refused, Got, bytes,
  eof, read_error, Answers, is_unstarted, max_fd, write_get_cmd, count_connection, start_connect,
  find, connect_next, established, read_file, scan_file, web_step,
}
use com_tutor.WebClient.Steps.{IsFresh, Reach, begins, later}
use com_tutor.WebClient.Counters.{is_unstarted-eq}
use com_tutor.WebClient.Events.{
  opens-Changes, connects-Changes, established-Changes, closes-Changes,
}
use com_tutor.WebClient.Watch.{Watches, Watches-change}

abbrev pub WatchKept : (n : ℕ) → Outcome → Type 0
WatchKept n (going p s) = Watches n s
WatchKept n (finished s) = Watches n s
WatchKept n _ = Unit

module _ (n : ℕ) where
  start-WatchKept :
      (i : ℕ) (a : Answers) (s : State)
      → i < n
      → (s.file i).f_flags ≡ unstarted
      → IsFresh n s a.socket
      → Watches n s
      → (c : Connect)
      → WatchKept n (count_connection (start_connect i (record a { connect = c }) s))
  start-WatchKept i a s lt e fresh h in_progress =
      Watches-change n s i a.socket connecting (update s.rset a.socket true)
        (update s.wset a.socket true) (max_fd a.socket s.nfds)
        (opens-Changes n s i lt h a.socket e fresh) h (s.nconn + 1) (s.nlefttoconn - 1)
        s.nlefttoread
  start-WatchKept i a s lt e fresh h connected = written a.writen
    where
      written : (b : Bool) → WatchKept n (count_connection (write_get_cmd i a.socket b inner s))
      written false = tt
      written true =
          Watches-change n s i a.socket reading (update s.rset a.socket true) s.wset
            (max_fd a.socket s.nfds) (connects-Changes n s i lt h a.socket e fresh) h (s.nconn + 1)
            (s.nlefttoconn - 1) s.nlefttoread
  start-WatchKept i a s lt e fresh h refused = tt

  established-WatchKept :
      (i : ℕ) (a : Answers) (p : Place) (s : State)
      → i < n
      → (s.file i).f_flags ≡ connecting
      → Watches n s
      → WatchKept n (established i (s.file i).f_fd a p s)
  established-WatchKept i a p s lt e h = written a.writen
    where
      written :
          (b : Bool)
          → WatchKept n (
              write_get_cmd i
                (s.file i).f_fd
                b
                p
                (record s { wset = update s.wset (s.file i).f_fd false }))
      written false = tt
      written true =
          let fd = (s.file i).f_fd in
          Watches-change n s i fd reading (update s.rset fd true) (update s.wset fd false)
            (max_fd fd s.nfds) (established-Changes n s i lt h e) h s.nconn s.nlefttoconn
            s.nlefttoread

  read_file-WatchKept :
      (i : ℕ) (p : Place) (s : State)
      → i < n
      → (s.file i).f_flags ≡ reading
      → Watches n s
      → (g : Got) → WatchKept n (read_file i (s.file i).f_fd g p s)
  read_file-WatchKept i p s lt e h bytes = h
  read_file-WatchKept i p s lt e h eof =
      let fd = (s.file i).f_fd in
      Watches-change n s i fd done (update s.rset fd false) s.wset s.nfds
        (closes-Changes n s i lt h e) h (s.nconn - 1) s.nlefttoconn (s.nlefttoread - 1)
  read_file-WatchKept i p s lt e h read_error = tt

  scan-WatchKept :
      (i : ℕ) (rs ws : ℕ → Bool) (a : Answers) (p : Place) (s : State)
      → i < n
      → Watches n s
      → (x : Flags) → (s.file i).f_flags ≡ x
      → WatchKept n (scan_file i rs ws a p s (s.file i).f_fd x)
  scan-WatchKept i rs ws a p s lt h unstarted e = h
  scan-WatchKept i rs ws a p s lt h done e = h
  scan-WatchKept i rs ws a p s lt h connecting e =
      let fd = (s.file i).f_fd in
      if_induction (WatchKept n) (rs fd || ws fd) (established i fd a p s) (going p s)
        (λ q. established-WatchKept i a p s lt e h) (λ q. h)
  scan-WatchKept i rs ws a p s lt h reading e =
      let fd = (s.file i).f_fd in
      if_induction (WatchKept n) (rs fd) (read_file i fd a.read p s) (going p s)
        (λ q. read_file-WatchKept i p s lt e h a.read) (λ q. h)

  connect-WatchKept :
      (a : Answers) (s : State)
      → IsFresh n s a.socket
      → Watches n s
      → WatchKept n (connect_next n a s)
  unfolding connect_next
  connect-WatchKept a s fresh h =
      let i = find s.file n in
      if_induction (WatchKept n) (i == n) (nothing_found s) (count_connection (start_connect i a s))
        (λ q. tt) (λ q. found (first_from-cases (λ k. is_unstarted (s.file k).f_flags) 0 n) q)
    where
      found :
          (find s.file n ≡ 0 + n)
            ⊎ ((find s.file n < 0 + n) × (is_unstarted (s.file (find s.file n)).f_flags ≡ true))
          → (find s.file n == n) ≡ false
          → WatchKept n (count_connection (start_connect (find s.file n) a s))
      found (inl e) ne = absurd (ground (arith, e, ne))
      found (inr (lt, e)) ne =
          start-WatchKept (find s.file n) a s (omega (arith, lt))
            (is_unstarted-eq (s.file (find s.file n)).f_flags e) fresh h a.connect

  pub step-WatchKept :
      (m : ℕ) (a : Answers) (p : Place) (s : State)
      → IsFresh n s a.socket
      → Watches n s
      → WatchKept n (web_step n m a p s)
  unfolding web_step
  step-WatchKept m a outer s fresh h =
      if_induction (WatchKept n) (ltb 0 s.nlefttoread) (going inner s) (finished s) (λ q. h)
        (λ q. h)
  step-WatchKept m a inner s fresh h =
      if_induction (WatchKept n) (ltb s.nconn m && ltb 0 s.nlefttoconn) (connect_next n a s)
        (going (scanning 0 (λ fd. s.rset fd && a.readable fd) (λ fd. s.wset fd && a.writable fd)) s)
        (λ q. connect-WatchKept a s fresh h) (λ q. h)
  step-WatchKept m a (scanning i rs ws) s fresh h =
      if_induction (WatchKept n) (ltb i n)
        (scan_file i rs ws a (scanning (i + 1) rs ws) s (s.file i).f_fd (s.file i).f_flags)
        (going outer s)
        (λ q.
          scan-WatchKept i rs ws a (scanning (i + 1) rs ws) s (ground (arith, q)) h
            (s.file i).f_flags refl)
        (λ q. h)

  initial-Watches : Watches n (initial n)
  initial-Watches = record {
    watched = λ i lt. tt;
    apart = λ i j lt lt' e e' q. absurd (ground (arith, e));
    only_open = λ fd q. absurd (ground (arith, q));
    only_connecting = λ fd q. absurd (ground (arith, q));
    below = λ i lt e. absurd (ground (arith, e));
  }

  pub Reach-Watches : (m : ℕ) (p : Place) (s : State) → Reach n m p s → Watches n s
  Reach-Watches m _ _ begins = initial-Watches
  Reach-Watches m _ _ (later {p = p} {s = s} r a p' s' fresh e) =
      subst (WatchKept n) e (step-WatchKept m a p s fresh (Reach-Watches m p s r))
