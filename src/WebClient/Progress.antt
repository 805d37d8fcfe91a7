-- ===== src/WebClient/Progress.antt =====
-- What select waits for in the client.
use com_tutor.Base.{
  ℕ, ◌+◌, ◌≤◌, ◌<◌, ◌≡◌, ◌⊎◌, refl, inl, inr, subst, Bool, true, false, ◌&&◌, ltb, ◌==◌,
  if_induction, arith,
}
use com_tutor.Base.Counts.{total-sum, total-find}
use com_tutor.WebClient.{
  Flags, unstarted, connecting, reading, done, State, Place, outer, inner, scanning, Outcome, going,
  finished, nothing_found, Connect, in_progress, connected, refused, Answers, write_get_cmd,
  count_connection, start_connect, find, connect_next, scan_file, web_step,
}
use com_tutor.WebClient.Steps.{active, Reach, begins, later}
use com_tutor.WebClient.Counters.{to_start, unread, count, Counts, Reach-Counts}
use com_tutor.WebClient.Watch.{IsWatched, IsOpen, Watches}
use com_tutor.WebClient.Opens.{Reach-Watches}

-- Inside the outer loop a file is left to read.
abbrev Left : Outcome → Type 0
Left (going inner s) = 0 < s.nlefttoread
Left _ = Unit

module _ (n m : ℕ) where
  connect-Left : (a : Answers) (s : State) → 0 < s.nlefttoread → Left (connect_next n a s)
  unfolding connect_next
  connect-Left a s left =
      let i = find s.file n in
      if_induction Left (i == n) (nothing_found s) (count_connection (start_connect i a s))
        (λ q. tt) (λ q. started i a.connect)
    where
      written : (i : ℕ) (b : Bool) → Left (count_connection (write_get_cmd i a.socket b inner s))
      written i true = left
      written i false = tt

      started :
          (i : ℕ) (c : Connect)
          → Left (count_connection (start_connect i (record a { connect = c }) s))
      started i in_progress = left
      started i connected = written i a.writen
      started i refused = tt

  scan-Left :
      (i j : ℕ) (rs ws rs' ws' : ℕ → Bool) (a : Answers) (s : State) (fd : ℕ) (x : Flags)
      → Left (scan_file i rs ws a (scanning j rs' ws') s fd x)
  scan-Left i j rs ws rs' ws' a s fd x = ground arith

  step-Left :
      (a : Answers) (p : Place) (s : State)
      → (p ≡ inner → 0 < s.nlefttoread)
      → Left (web_step n m a p s)
  unfolding web_step
  step-Left a outer s h =
      if_induction Left (ltb 0 s.nlefttoread) (going inner s) (finished s) (λ q. ground (arith, q))
        (λ q. tt)
  step-Left a inner s h =
      if_induction Left (ltb s.nconn m && ltb 0 s.nlefttoconn) (connect_next n a s)
        (going (scanning 0 (λ fd. s.rset fd && a.readable fd) (λ fd. s.wset fd && a.writable fd)) s)
        (λ q. connect-Left a s (h refl)) (λ q. tt)
  step-Left a (scanning i rs ws) s h =
      if_induction Left (ltb i n)
        (scan_file i rs ws a (scanning (i + 1) rs ws) s (s.file i).f_fd (s.file i).f_flags)
        (going outer s)
        (λ q. scan-Left i (i + 1) rs ws rs ws a s (s.file i).f_fd (s.file i).f_flags) (λ q. tt)

  Reach-Left : (p : Place) (s : State) → Reach n m p s → p ≡ inner → 0 < s.nlefttoread
  Reach-Left _ _ begins e = absurd (ground (arith, e))
  Reach-Left _ _ (later {p = p} {s = s} r a p' s' _ e) q =
      subst (λ x. Left (going x s')) q (subst Left e (step-Left a p s (Reach-Left p s r)))

  -- A file that is not done has an open connection or none yet.
  unread_sum : (s : State) → count unread n s.file ≡ count active n s.file + count to_start n s.file
  unread_sum s =
      total-sum (λ f. active f.f_flags) (λ f. to_start f.f_flags) (λ f. unread f.f_flags) n s.file
        (λ f. each f.f_flags)
    where
      each : (x : Flags) → unread x ≡ active x + to_start x
      each x = ground arith

  -- When main calls select, the number of connections is not 0.
  abbrev Selects : Outcome → Type 0
  Selects (going (scanning i rs ws) s) = 0 < s.nconn × Counts n m s × Watches n s
  Selects _ = Unit

  connect-Selects : (a : Answers) (s : State) → Selects (connect_next n a s)
  unfolding connect_next
  connect-Selects a s =
      let i = find s.file n in
      if_induction Selects (i == n) (nothing_found s) (count_connection (start_connect i a s))
        (λ q. tt) (λ q. started i a.connect)
    where
      written : (i : ℕ) (b : Bool) → Selects (count_connection (write_get_cmd i a.socket b inner s))
      written i true = tt
      written i false = tt

      started :
          (i : ℕ) (c : Connect)
          → Selects (count_connection (start_connect i (record a { connect = c }) s))
      started i in_progress = tt
      started i connected = written i a.writen
      started i refused = tt

  step-Selects :
      (a : Answers) (s : State)
      → 0 < m
      → 0 < s.nlefttoread
      → Counts n m s
      → Watches n s
      → Selects (web_step n m a inner s)
  unfolding web_step
  step-Selects a s pos left h w =
      if_induction Selects (ltb s.nconn m && ltb 0 s.nlefttoconn) (connect_next n a s)
        (going (scanning 0 (λ fd. s.rset fd && a.readable fd) (λ fd. s.wset fd && a.writable fd)) s)
        (λ q. connect-Selects a s) (λ q. (some_open (full q), h, w))
    where
      full : (ltb s.nconn m && ltb 0 s.nlefttoconn) ≡ false → (m ≤ s.nconn) ⊎ (s.nlefttoconn ≡ 0)
      full q = ground (arith, q)

      some_open : (m ≤ s.nconn) ⊎ (s.nlefttoconn ≡ 0) → 0 < s.nconn
      some_open (inl q) = omega (arith, q, pos)
      some_open (inr q) =
          omega (arith, q, left, unread_sum s, h.open_files, h.left_to_start, h.left_to_read)

-- If maxnconn is not 0, then when main calls select in a reachable state of the client, there is an open
-- connection, whose descriptor is in rset: select is not called with nothing to wait for.
pub select_has_connection :
    (n m : ℕ) (s : State) (a : Answers) (rs ws : ℕ → Bool) (s' : State)
    → Reach n m inner s
    → 0 < m
    → web_step n m a inner s ≡ going (scanning 0 rs ws) s'
    → (fd : ℕ) × (s'.rset fd ≡ true) × IsOpen n s'.file fd
select_has_connection n m s a rs ws s' r pos e =
    let (some_open, h, w) = subst (Selects n m) e (
      step-Selects n m a s pos (Reach-Left n m inner s r refl) (Reach-Counts n m inner s r)
        (Reach-Watches n m inner s r)) in
    let (i, lt, q) =
      total-find (λ f. active f.f_flags) n s'.file (omega (arith, some_open, h.open_files)) in
    let is_open : active (s'.file i).f_flags ≡ 1 = at_most_one (s'.file i).f_flags q in
    (
      (s'.file i).f_fd,
      in_rset (s'.file i).f_flags (s'.rset (s'.file i).f_fd) (s'.wset (s'.file i).f_fd) is_open
          (w.watched i lt),
      (i, lt, is_open, refl),
    )
  where
    at_most_one : (x : Flags) → 0 < active x → active x ≡ 1
    at_most_one x q = ground (arith, q)

    in_rset : (x : Flags) (r w : Bool) → active x ≡ 1 → IsWatched x r w → r ≡ true
    in_rset connecting r w q h = h.0
    in_rset reading r w q h = h.0
    in_rset unstarted r w q h = absurd (ground (arith, q))
    in_rset done r w q h = absurd (ground (arith, q))
