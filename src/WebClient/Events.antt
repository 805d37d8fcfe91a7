-- ===== src/WebClient/Events.antt =====
-- How the opening, the end of a connect and the close of a connection change the descriptor sets.
use com_tutor.Base.{
  ℕ, ◌≤◌, ◌<◌, ◌≡◌, ◌≢◌, refl, inl, inr, sym, ap, true, false, Bool-cases, update, update_at,
  update_off, arith,
}
use com_tutor.WebClient.{Flags, unstarted, connecting, reading, done, State, max_fd}
use com_tutor.WebClient.Steps.{active, IsFresh}
use com_tutor.WebClient.Watch.{IsWatched, Watches, Changes}

max_fd-covers : (fd nfds : ℕ) → (nfds ≤ max_fd fd nfds) × (fd < max_fd fd nfds)
max_fd-covers fd nfds = (ground arith, ground arith)

module _ (n : ℕ) (s : State) (i : ℕ) (lt : i < n) (h : Watches n s) where
  -- A connection is opened for a file that had none.
  pub opens-Changes :
      (fd : ℕ)
      → (s.file i).f_flags ≡ unstarted
      → IsFresh n s fd
      → Changes n s i fd connecting
          (update s.rset fd true)
          (update s.wset fd true)
          (max_fd fd s.nfds)
  opens-Changes fd e fresh = record {
    within = lt;
    others = λ j lt' ne act. fresh j lt' act;
    own = λ act. absurd (ground (arith, e, act));
    rset_off = update_off s.rset fd true;
    wset_off = update_off s.wset fd true;
    now = (update_at s.rset fd true, update_at s.wset fd true);
    rset_on = λ q. refl;
    wset_on = λ q. refl;
    more = (max_fd-covers fd s.nfds).0;
    covers = λ q. (max_fd-covers fd s.nfds).1;
  }

  -- The same, when the connection is established at once.
  pub connects-Changes :
      (fd : ℕ)
      → (s.file i).f_flags ≡ unstarted
      → IsFresh n s fd
      → Changes n s i fd reading (update s.rset fd true) s.wset (max_fd fd s.nfds)
  connects-Changes fd e fresh = record {
    within = lt;
    others = λ j lt' ne act. fresh j lt' act;
    own = λ act. absurd (ground (arith, e, act));
    rset_off = update_off s.rset fd true;
    wset_off = λ k ne. refl;
    now = (update_at s.rset fd true, not_set);
    rset_on = λ q. refl;
    wset_on = λ q. absurd (ground (arith, not_set, q));
    more = (max_fd-covers fd s.nfds).0;
    covers = λ q. (max_fd-covers fd s.nfds).1;
  }
    where
      not_set : s.wset fd ≡ false
      not_set = elim (Bool-cases (s.wset fd)) [
        | inl set ↦
            let (j, lt', c, same) = h.only_connecting fd set in
            absurd (fresh j lt' (ap active c) same)
        | inr unset ↦ unset
      ]

  apart_from :
      active (s.file i).f_flags ≡ 1
      → (j : ℕ) → j < n
      → i ≢ j
      → active (s.file j).f_flags ≡ 1
      → (s.file j).f_fd ≢ (s.file i).f_fd
  apart_from act j lt' ne act' q = ne (h.apart i j lt lt' act act' (sym q))

  pub established-Changes :
      (s.file i).f_flags ≡ connecting
      → let fd = (s.file i).f_fd in
        Changes n s i fd reading (update s.rset fd true) (update s.wset fd false) (max_fd fd s.nfds)
  established-Changes e =
      let fd = (s.file i).f_fd in
      record {
        within = lt;
        others = apart_from (ap active e);
        own = λ act. refl;
        rset_off = update_off s.rset fd true;
        wset_off = update_off s.wset fd false;
        now = (update_at s.rset fd true, update_at s.wset fd false);
        rset_on = λ q. refl;
        wset_on = λ q. absurd (ground (arith, update_at s.wset fd false, q));
        more = (max_fd-covers fd s.nfds).0;
        covers = λ q. (max_fd-covers fd s.nfds).1;
      }

  pub closes-Changes :
      (s.file i).f_flags ≡ reading
      → let fd = (s.file i).f_fd in Changes n s i fd done (update s.rset fd false) s.wset s.nfds
  closes-Changes e =
      let fd = (s.file i).f_fd in
      record {
        within = lt;
        others = apart_from (ap active e);
        own = λ act. refl;
        rset_off = update_off s.rset fd false;
        wset_off = λ k ne. refl;
        now = tt;
        rset_on = λ q. absurd (ground (arith, update_at s.rset fd false, q));
        wset_on = λ q. absurd (ground (arith, not_written, q));
        more = omega arith;
        covers = λ q. absurd (ground (arith, q));
      }
    where
      not_written : s.wset (s.file i).f_fd ≡ false
      not_written = written (s.file i).f_flags e (h.watched i lt)
        where
          written :
              (x : Flags)
              → x ≡ reading
              → IsWatched x (s.rset (s.file i).f_fd) (s.wset (s.file i).f_fd)
              → s.wset (s.file i).f_fd ≡ false
          written x e w = ground (arith, e, w)
