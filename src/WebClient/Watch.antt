-- ===== src/WebClient/Watch.antt =====
-- The descriptor sets of the client and its open connections: each is to be read, and those whose
-- connect is in progress are to be written, too.
use com_tutor.Base.{
  ℕ, ◌≤◌, ◌<◌, ◌≡◌, ◌≢◌, refl, inl, inr, sym, ◌∙◌, ap, subst, Bool, true, false, ◌==◌, ==→eq,
  Bool-cases, update, update_at, update_off, same_or_not, arith,
}
use com_tutor.WebClient.{Flags, unstarted, connecting, reading, done, File, State}
use com_tutor.WebClient.Steps.{active}

-- What the sets say of the descriptor of a file.
abbrev pub IsWatched : Flags → (r w : Bool) → Type 0
IsWatched connecting r w = (r ≡ true) × (w ≡ true)
IsWatched reading r w = (r ≡ true) × (w ≡ false)
IsWatched _ r w = Unit

abbrev pub IsOpen : (nfiles : ℕ) → (ℕ → File) → (fd : ℕ) → Type 0
IsOpen n f fd = (i : ℕ) × (i < n) × (active (f i).f_flags ≡ 1) × ((f i).f_fd ≡ fd)

abbrev pub IsConnecting : (nfiles : ℕ) → (ℕ → File) → (fd : ℕ) → Type 0
IsConnecting n f fd = (i : ℕ) × (i < n) × ((f i).f_flags ≡ connecting) × ((f i).f_fd ≡ fd)

pub record Watches (n : ℕ) (s : State) : Type 0 where
  pub watched :
      (i : ℕ)
      → i < n
      → IsWatched (s.file i).f_flags (s.rset (s.file i).f_fd) (s.wset (s.file i).f_fd)
  pub apart :
      (i j : ℕ)
      → i < n
      → j < n
      → active (s.file i).f_flags ≡ 1
      → active (s.file j).f_flags ≡ 1
      → (s.file i).f_fd ≡ (s.file j).f_fd
      → i ≡ j
  pub only_open : (fd : ℕ) → s.rset fd ≡ true → IsOpen n s.file fd
  pub only_connecting : (fd : ℕ) → s.wset fd ≡ true → IsConnecting n s.file fd
  pub below : (i : ℕ) → i < n → active (s.file i).f_flags ≡ 1 → (s.file i).f_fd < s.nfds

IsWatched-same :
    (x : Flags) (r w r' w' : Bool)
    → (active x ≡ 1 → (r ≡ r') × (w ≡ w'))
    → IsWatched x r w
    → IsWatched x r' w'
IsWatched-same unstarted r w r' w' same h = tt
IsWatched-same done r w r' w' same h = tt
IsWatched-same connecting r w r' w' same h = let (a, b) = same refl in (sym a ∙ h.0, sym b ∙ h.1)
IsWatched-same reading r w r' w' same h = let (a, b) = same refl in (sym a ∙ h.0, sym b ∙ h.1)

-- File `i` has the descriptor `fd` and flags `y` now, and the sets change at `fd` only.
pub record Changes (n : ℕ) (s : State) (i fd : ℕ) (y : Flags) (r w : ℕ → Bool) (nfds : ℕ)
    : Type 0 where
  pub within : i < n
  pub others : (j : ℕ) → j < n → i ≢ j → active (s.file j).f_flags ≡ 1 → (s.file j).f_fd ≢ fd
  pub own : active (s.file i).f_flags ≡ 1 → (s.file i).f_fd ≡ fd
  pub rset_off : (k : ℕ) → fd ≢ k → r k ≡ s.rset k
  pub wset_off : (k : ℕ) → fd ≢ k → w k ≡ s.wset k
  pub now : IsWatched y (r fd) (w fd)
  pub rset_on : r fd ≡ true → active y ≡ 1
  pub wset_on : w fd ≡ true → y ≡ connecting
  pub more : s.nfds ≤ nfds
  pub covers : active y ≡ 1 → fd < nfds

module _ (n : ℕ) (s : State) (i fd : ℕ) (y : Flags) (r w : ℕ → Bool) (nfds : ℕ)
    (c : Changes n s i fd y r w nfds) (h : Watches n s) where
  file : ℕ → File
  file = update s.file i (record { f_fd = fd; f_flags = y })

  at_i : file i ≡ record { f_fd = fd; f_flags = y }
  unfolding file
  at_i = update_at s.file i (record { f_fd = fd; f_flags = y })

  off_i : (j : ℕ) → i ≢ j → file j ≡ s.file j
  unfolding file
  off_i j ne = update_off s.file i (record { f_fd = fd; f_flags = y }) j ne

  sets_off :
      (j : ℕ)
      → j < n
      → i ≢ j
      → active (s.file j).f_flags ≡ 1
      → (s.rset (s.file j).f_fd ≡ r (s.file j).f_fd) × (s.wset (s.file j).f_fd ≡ w (s.file j).f_fd)
  sets_off j lt ne e =
      let off = λ (q : fd ≡ (s.file j).f_fd). c.others j lt ne e (sym q) in
      (sym (c.rset_off (s.file j).f_fd off), sym (c.wset_off (s.file j).f_fd off))

  alone : (j : ℕ) → j < n → active (file j).f_flags ≡ 1 → (file j).f_fd ≡ fd → i ≡ j
  alone j lt e q = elim (same_or_not i j) [
    | inl same ↦ same
    | inr ne ↦ absurd (
        c.others j lt ne (sym (ap (λ f. active f.f_flags) (off_i j ne)) ∙ e)
          (sym (ap (λ f. f.f_fd) (off_i j ne)) ∙ q))
  ]

  apart_now :
      (j k : ℕ)
      → j < n
      → k < n
      → active (file j).f_flags ≡ 1
      → active (file k).f_flags ≡ 1
      → (file j).f_fd ≡ (file k).f_fd
      → j ≡ k
  apart_now j k lt lt' e e' q = elim (same_or_not i j) [
    | inl same ↦
        let here : (file j).f_fd ≡ fd =
          subst (λ m. (file m).f_fd ≡ fd) same (ap (λ f. f.f_fd) at_i) in
        sym same ∙ alone k lt' e' (sym q ∙ here)
    | inr ne ↦ elim (same_or_not i k) [
      | inl same ↦
          let here : (file k).f_fd ≡ fd =
            subst (λ m. (file m).f_fd ≡ fd) same (ap (λ f. f.f_fd) at_i) in
          absurd (ne (alone j lt e (q ∙ here)))
      | inr ne' ↦
          h.apart j k lt lt' (sym (ap (λ f. active f.f_flags) (off_i j ne)) ∙ e)
            (sym (ap (λ f. active f.f_flags) (off_i k ne')) ∙ e')
            (sym (ap (λ f. f.f_fd) (off_i j ne)) ∙ q ∙ ap (λ f. f.f_fd) (off_i k ne'))
    ]
  ]

  -- A file with a property that only open ones have, at another descriptor, is still there.
  stays :
      (P : Flags → Type 0) (k : ℕ)
      → fd ≢ k
      → ((x : Flags) → P x → active x ≡ 1)
      → ((j : ℕ) × (j < n) × P (s.file j).f_flags × ((s.file j).f_fd ≡ k))
      → (j : ℕ) × (j < n) × P (file j).f_flags × ((file j).f_fd ≡ k)
  stays P k ne act (j, lt, p, e) = elim (same_or_not i j) [
    | inl same ↦ absurd (
        ne (
          sym (c.own (act (s.file i).f_flags (subst (λ m. P (s.file m).f_flags) (sym same) p)))
          ∙ ap (λ m. (s.file m).f_fd) same
          ∙ e))
    | inr other ↦ (
      j,
      lt,
      subst (λ f. P f.f_flags) (sym (off_i j other)) p,
      ap (λ f. f.f_fd) (off_i j other) ∙ e,
    )
  ]

  arrives :
      (P : Flags → Type 0) (k : ℕ)
      → fd ≡ k
      → P y
      → (j : ℕ) × (j < n) × P (file j).f_flags × ((file j).f_fd ≡ k)
  arrives P k e p = (i, c.within, subst (λ f. P f.f_flags) (sym at_i) p, ap (λ f. f.f_fd) at_i ∙ e)

  pub Watches-change :
      (nconn left read : ℕ)
      → Watches n (record {
        file = update s.file i (record { f_fd = fd; f_flags = y });
        nconn = nconn;
        nlefttoconn = left;
        nlefttoread = read;
        nfds = nfds;
        rset = r;
        wset = w;
      })
  unfolding file
  Watches-change nconn left read = record {
    watched = λ j lt. elim (same_or_not i j) [
      | inl same ↦
          subst (λ k. IsWatched (file k).f_flags (r (file k).f_fd) (w (file k).f_fd)) same
            (subst (λ x. IsWatched x.f_flags (r x.f_fd) (w x.f_fd)) (sym at_i) c.now)
      | inr ne ↦
          subst (λ x. IsWatched x.f_flags (r x.f_fd) (w x.f_fd)) (sym (off_i j ne))
            (IsWatched-same (s.file j).f_flags (s.rset (s.file j).f_fd) (s.wset (s.file j).f_fd)
              (r (s.file j).f_fd) (w (s.file j).f_fd) (sets_off j lt ne) (h.watched j lt))
    ];
    apart = apart_now;
    only_open = λ k q. elim (Bool-cases (fd == k)) [
      | inl e ↦
          let here : fd ≡ k = ==→eq fd k e in
          arrives (λ x. active x ≡ 1) k here (c.rset_on (ap r here ∙ q))
      | inr e ↦
          let ne : fd ≢ k = (λ o. ground (arith, e, o)) in
          stays (λ x. active x ≡ 1) k ne (λ x p. p) (h.only_open k (sym (c.rset_off k ne) ∙ q))
    ];
    only_connecting = λ k q. elim (Bool-cases (fd == k)) [
      | inl e ↦
          let here : fd ≡ k = ==→eq fd k e in
          arrives (λ x. x ≡ connecting) k here (c.wset_on (ap w here ∙ q))
      | inr e ↦
          let ne : fd ≢ k = (λ o. ground (arith, e, o)) in
          stays (λ x. x ≡ connecting) k ne (λ x p. ap active p)
            (h.only_connecting k (sym (c.wset_off k ne) ∙ q))
    ];
    below = λ j lt e. elim (same_or_not i j) [
      | inl same ↦
          let covered : active (file i).f_flags ≡ 1 → (file i).f_fd < nfds =
            subst (λ x. active x.f_flags ≡ 1 → x.f_fd < nfds) (sym at_i) c.covers in
          subst (λ k. active (file k).f_flags ≡ 1 → (file k).f_fd < nfds) same covered e
      | inr ne ↦
          let before : (s.file j).f_fd < s.nfds =
            h.below j lt (sym (ap (λ f. active f.f_flags) (off_i j ne)) ∙ e) in
          subst (λ x. x.f_fd < nfds) (sym (off_i j ne)) (omega (arith, before, c.more))
    ];
  }
