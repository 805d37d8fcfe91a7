-- ===== src/WebClient/Counters.antt =====
-- The counters of the client and the flags of its files.
use com_tutor.Base.{
  ℕ, ◌+◌, ◌-◌, ◌≤◌, ◌<◌, ◌≡◌, refl, ap, subst, Bool, true, false, ◌&&◌, ◌||◌, ltb, ◌==◌, ==→eq,
  if_induction, update, arith,
}
use com_tutor.Base.Counts.{total, total-update, total-le, total-find, total-const}
use com_tutor.Base.Search.{first_from-found}
use com_tutor.WebClient.{
  Flags, unstarted, connecting, reading, done, File, State, initial, Place, outer, inner, scanning,
  Outcome, going, finished, nothing_found, failed, Connect, in_progress, connected, refused, Got,
  bytes, eof, read_error, Answers, is_unstarted, max_fd, write_get_cmd, count_connection,
  start_connect, find, connect_next, established, read_file, scan_file, web_step,
}
use com_tutor.WebClient.Steps.{active, Reach, begins, later}

abbrev pub to_start : Flags → ℕ
to_start unstarted = 1
to_start _ = 0

abbrev pub unread : Flags → ℕ
unread done = 0
unread _ = 1

-- How many of the files have a weight.
abbrev pub count : (Flags → ℕ) → (nfiles : ℕ) → (ℕ → File) → ℕ
count w nfiles f = total (λ x. w x.f_flags) nfiles f

pub record Counts (nfiles maxnconn : ℕ) (s : State) : Type 0 where
  pub open_files : s.nconn ≡ count active nfiles s.file
  pub left_to_start : s.nlefttoconn ≡ count to_start nfiles s.file
  pub left_to_read : s.nlefttoread ≡ count unread nfiles s.file
  pub limit : s.nconn ≤ maxnconn

abbrev pub Counted : (nfiles maxnconn : ℕ) → Outcome → Type 0
Counted n m (going p s) = Counts n m s
Counted n m (finished s) = Counts n m s × (s.nlefttoread ≡ 0)
Counted n m (nothing_found s) = ⊥
Counted n m (failed s) = Unit

module _ (n m : ℕ) where
  -- File `i` goes from its flags to others.
  Counts-update :
      (s : State) (i fd : ℕ) (x y : Flags) (nconn left read nfds : ℕ) (rset wset : ℕ → Bool)
      → i < n
      → (s.file i).f_flags ≡ x
      → nconn + active x ≡ s.nconn + active y
      → left + to_start x ≡ s.nlefttoconn + to_start y
      → read + unread x ≡ s.nlefttoread + unread y
      → nconn ≤ m
      → Counts n m s
      → Counts n m (record {
        file = update s.file i (record { f_fd = fd; f_flags = y });
        nconn = nconn;
        nlefttoconn = left;
        nlefttoread = read;
        nfds = nfds;
        rset = rset;
        wset = wset;
      })
  Counts-update s i fd x y nconn left read nfds rset wset lt e a b c d h = record {
    open_files = omega (arith, moved active, ap active e, a, h.open_files);
    left_to_start = omega (arith, moved to_start, ap to_start e, b, h.left_to_start);
    left_to_read = omega (arith, moved unread, ap unread e, c, h.left_to_read);
    limit = d;
  }
    where
      moved :
          (w : Flags → ℕ)
          → count w n (update s.file i (record { f_fd = fd; f_flags = y })) + w (s.file i).f_flags
            ≡ count w n s.file + w y
      moved w =
          total-update (λ f. w f.f_flags) n s.file i (s.file i) (record { f_fd = fd; f_flags = y })
            lt refl

  counted_active :
      (s : State) (i : ℕ) (x : Flags)
      → i < n
      → (s.file i).f_flags ≡ x
      → Counts n m s
      → (active x ≤ s.nconn) × (to_start x ≤ s.nlefttoconn) × (unread x ≤ s.nlefttoread)
  counted_active s i x lt e h = (
    omega (arith, total-le (λ f. active f.f_flags) n s.file i lt, ap active e, h.open_files),
    omega (arith, total-le (λ f. to_start f.f_flags) n s.file i lt, ap to_start e, h.left_to_start),
    omega (arith, total-le (λ f. unread f.f_flags) n s.file i lt, ap unread e, h.left_to_read),
  )

  start-Counted :
      (i : ℕ) (a : Answers) (s : State)
      → i < n
      → (s.file i).f_flags ≡ unstarted
      → s.nconn < m
      → Counts n m s
      → (c : Connect)
      → Counted n m (count_connection (start_connect i (record a { connect = c }) s))
  start-Counted i a s lt e room h in_progress =
      let (_, some_left, _) = counted_active s i unstarted lt e h in
      Counts-update s i a.socket unstarted connecting (s.nconn + 1) (s.nlefttoconn - 1)
        s.nlefttoread (max_fd a.socket s.nfds) (update s.rset a.socket true)
        (update s.wset a.socket true) lt e (omega arith) (omega (arith, some_left)) (omega arith)
        (omega (arith, room)) h
  start-Counted i a s lt e room h connected = written a.writen
    where
      written : (b : Bool) → Counted n m (count_connection (write_get_cmd i a.socket b inner s))
      written false = tt
      written true =
          let (_, some_left, _) = counted_active s i unstarted lt e h in
          Counts-update s i a.socket unstarted reading (s.nconn + 1) (s.nlefttoconn - 1)
            s.nlefttoread (max_fd a.socket s.nfds) (update s.rset a.socket true) s.wset lt e
            (omega arith) (omega (arith, some_left)) (omega arith) (omega (arith, room)) h
  start-Counted i a s lt e room h refused = tt

  established-Counted :
      (i : ℕ) (a : Answers) (p : Place) (s : State)
      → i < n
      → (s.file i).f_flags ≡ connecting
      → Counts n m s
      → Counted n m (established i (s.file i).f_fd a p s)
  established-Counted i a p s lt e h = written a.writen
    where
      written :
          (b : Bool)
          → Counted n m (
              write_get_cmd i
                (s.file i).f_fd
                b
                p
                (record s { wset = update s.wset (s.file i).f_fd false }))
      written false = tt
      written true =
          Counts-update s i (s.file i).f_fd connecting reading s.nconn s.nlefttoconn s.nlefttoread
            (max_fd (s.file i).f_fd s.nfds) (update s.rset (s.file i).f_fd true)
            (update s.wset (s.file i).f_fd false) lt e (omega arith) (omega arith) (omega arith)
            h.limit h

  read_file-Counted :
      (i : ℕ) (p : Place) (s : State)
      → i < n
      → (s.file i).f_flags ≡ reading
      → Counts n m s
      → (g : Got) → Counted n m (read_file i (s.file i).f_fd g p s)
  read_file-Counted i p s lt e h bytes = h
  read_file-Counted i p s lt e h eof =
      let (some_open, _, some_left) = counted_active s i reading lt e h in
      Counts-update s i (s.file i).f_fd reading done (s.nconn - 1) s.nlefttoconn (s.nlefttoread - 1)
        s.nfds (update s.rset (s.file i).f_fd false) s.wset lt e (omega (arith, some_open))
        (omega arith) (omega (arith, some_left)) (omega (arith, h.limit)) h
  read_file-Counted i p s lt e h read_error = tt

  scan-Counted :
      (i : ℕ) (rs ws : ℕ → Bool) (a : Answers) (p : Place) (s : State)
      → i < n
      → Counts n m s
      → (x : Flags) → (s.file i).f_flags ≡ x
      → Counted n m (scan_file i rs ws a p s (s.file i).f_fd x)
  scan-Counted i rs ws a p s lt h unstarted e = h
  scan-Counted i rs ws a p s lt h done e = h
  scan-Counted i rs ws a p s lt h connecting e =
      let fd = (s.file i).f_fd in
      if_induction (Counted n m) (rs fd || ws fd) (established i fd a p s) (going p s)
        (λ q. established-Counted i a p s lt e h) (λ q. h)
  scan-Counted i rs ws a p s lt h reading e =
      let fd = (s.file i).f_fd in
      if_induction (Counted n m) (rs fd) (read_file i fd a.read p s) (going p s)
        (λ q. read_file-Counted i p s lt e h a.read) (λ q. h)

pub is_unstarted-eq : (x : Flags) → is_unstarted x ≡ true → x ≡ unstarted
is_unstarted-eq x e = ground (arith, e)

module _ (n m : ℕ) where
  connect-Counted :
      (a : Answers) (s : State)
      → s.nconn < m
      → 0 < s.nlefttoconn
      → Counts n m s
      → Counted n m (connect_next n a s)
  unfolding connect_next
  connect-Counted a s room some_left h =
      let (j, lt, e) =
        total-find (λ f. to_start f.f_flags) n s.file (omega (arith, some_left, h.left_to_start)) in
      let i = find s.file n in
      let (within, e') =
        first_from-found (λ k. is_unstarted (s.file k).f_flags) n j lt
          (starts (s.file j).f_flags e) in
      if_induction (Counted n m) (i == n) (nothing_found s) (count_connection (start_connect i a s))
        (λ q. absurd (omega (arith, ==→eq i n q, within)))
        (λ q.
          start-Counted n m i a s within (is_unstarted-eq (s.file i).f_flags e') room h a.connect)
    where
      starts : (x : Flags) → 0 < to_start x → is_unstarted x ≡ true
      starts x e = ground (arith, e)

  pub step-Counted :
      (a : Answers) (p : Place) (s : State) → Counts n m s → Counted n m (web_step n m a p s)
  unfolding web_step
  step-Counted a outer s h =
      if_induction (Counted n m) (ltb 0 s.nlefttoread) (going inner s) (finished s) (λ q. h)
        (λ q. (h, ground (arith, q)))
  step-Counted a inner s h =
      if_induction (Counted n m) (ltb s.nconn m && ltb 0 s.nlefttoconn) (connect_next n a s)
        (going (scanning 0 (λ fd. s.rset fd && a.readable fd) (λ fd. s.wset fd && a.writable fd)) s)
        (λ q. connect-Counted a s (ground (arith, q)) (ground (arith, q)) h) (λ q. h)
  step-Counted a (scanning i rs ws) s h =
      if_induction (Counted n m) (ltb i n)
        (scan_file i rs ws a (scanning (i + 1) rs ws) s (s.file i).f_fd (s.file i).f_flags)
        (going outer s)
        (λ q.
          scan-Counted n m i rs ws a (scanning (i + 1) rs ws) s (ground (arith, q)) h
            (s.file i).f_flags refl)
        (λ q. h)

  initial-Counts : Counts n m (initial n)
  initial-Counts =
      let none : File = record { f_fd = 0; f_flags = unstarted } in
      record {
        open_files = omega (arith, total-const (λ f. active f.f_flags) n none);
        left_to_start = omega (arith, total-const (λ f. to_start f.f_flags) n none);
        left_to_read = omega (arith, total-const (λ f. unread f.f_flags) n none);
        limit = omega arith;
      }

  pub Reach-Counts : (p : Place) (s : State) → Reach n m p s → Counts n m s
  Reach-Counts _ _ begins = initial-Counts
  Reach-Counts _ _ (later {p = p} {s = s} r a p' s' _ e) =
      subst (Counted n m) e (step-Counted a p s (Reach-Counts p s r))
