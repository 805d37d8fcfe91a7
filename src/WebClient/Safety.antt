-- ===== src/WebClient/Safety.antt =====
-- The counters, the search and the descriptor sets of the client.
use com_tutor.Base.{ℕ, ◌≤◌, ◌<◌, ◌≡◌, ap, subst, true, arith}
use com_tutor.Base.Counts.{total-le}
use com_tutor.WebClient.{
  Flags, done, State, Place, Outcome, going, failed, finished, nothing_found, Answers, web_step,
}
use com_tutor.WebClient.Steps.{active, Reach}
use com_tutor.WebClient.Counters.{to_start, unread, count, Counted, step-Counted, Reach-Counts}
use com_tutor.WebClient.Watch.{IsWatched, IsOpen}
use com_tutor.WebClient.Opens.{Reach-Watches}

-- In every reachable state of the client nconn is the number of files with an open connection, at most
-- maxnconn, nlefttoconn that of the files with none yet, and nlefttoread that of the files not done.
pub counters_true :
    (n m : ℕ) (p : Place) (s : State)
    → Reach n m p s
    → (s.nconn ≡ count active n s.file)
      × (s.nconn ≤ m)
      × (s.nlefttoconn ≡ count to_start n s.file)
      × (s.nlefttoread ≡ count unread n s.file)
counters_true n m p s r =
    let h = Reach-Counts n m p s r in (h.open_files, h.limit, h.left_to_start, h.left_to_read)

-- The search for a file has found one, and the end has come only when every file is done.
abbrev pub EndsRight : (nfiles : ℕ) → Outcome → Type 0
EndsRight n (going p s) = Unit
EndsRight n (failed s) = Unit
EndsRight n (nothing_found s) = ⊥
EndsRight n (finished s) = (i : ℕ) → i < n → (s.file i).f_flags ≡ done

Counted-EndsRight : (n m : ℕ) (o : Outcome) → Counted n m o → EndsRight n o
Counted-EndsRight n m (going p s) h = tt
Counted-EndsRight n m (failed s) h = tt
Counted-EndsRight n m (nothing_found s) h = h
Counted-EndsRight n m (finished s) (counts, none_left) = λ i lt.
    is_done (s.file i).f_flags (
      omega (arith, total-le (λ f. unread f.f_flags) n s.file i lt, counts.left_to_read, none_left))
  where
    is_done : (x : Flags) → unread x ≡ 0 → x ≡ done
    is_done x e = ground (arith, e)

-- No step of the client, from a reachable state, ends with a search that finds no file to read; and a
-- step that ends the program with success leaves every file done.
pub search_finds :
    (n m : ℕ) (p : Place) (s : State) (a : Answers)
    → Reach n m p s
    → EndsRight n (web_step n m a p s)
search_finds n m p s a r =
    Counted-EndsRight n m (web_step n m a p s) (step-Counted n m a p s (Reach-Counts n m p s r))

-- In every reachable state of the client rset holds the descriptors of the open connections and no
-- other; wset has, of those, just the ones whose connect is in progress; and all are below maxfd + 1.
pub sets_match_connections :
    (n m : ℕ) (p : Place) (s : State)
    → Reach n m p s
    → ((i : ℕ)
        → i < n
        → IsWatched (s.file i).f_flags (s.rset (s.file i).f_fd) (s.wset (s.file i).f_fd))
      × ((fd : ℕ) → s.rset fd ≡ true → IsOpen n s.file fd × (fd < s.nfds))
      × ((fd : ℕ) → s.wset fd ≡ true → IsOpen n s.file fd)
sets_match_connections n m p s r =
    let h = Reach-Watches n m p s r in
    (
      h.watched,
      λ fd q.
          let (i, lt, e, same) = h.only_open fd q in
          ((i, lt, e, same), subst (λ k. k < s.nfds) same (h.below i lt e)),
      λ fd q. let (i, lt, e, same) = h.only_connecting fd q in (i, lt, ap active e, same),
    )
