-- ===== src/WebClient/Tests.antt =====
-- The client with two files, one connection at a time.
use com_tutor.Base.{ℕ, zero, suc, ◌≤◌, ◌<◌, ◌≡◌, refl, ◌&&◌, true, false, arith}
use com_tutor.Base.Search.{first_from}
use com_tutor.WebClient.{
  State, initial, Place, outer, inner, Outcome, going, finished, in_progress, connected, eof,
  Answers, connect_next, web_step,
}
use com_tutor.WebClient.Steps.{active, IsFresh, Reach, begins, later}
use com_tutor.WebClient.Counters.{to_start, unread, count}
use com_tutor.WebClient.Watch.{IsWatched, IsOpen}
use com_tutor.WebClient.Safety.{EndsRight, counters_true, search_finds, sets_match_connections}
use com_tutor.WebClient.Progress.{select_has_connection}

-- Socket gives 3, connect is in progress, and every descriptor is ready.
abbrev first : Answers
first = record {
  socket = 3;
  connect = in_progress;
  writen = true;
  readable = λ fd. true;
  writable = λ fd. true;
  so_error = false;
  read = eof;
}

abbrev second : Answers
second = record first { socket = 4; connect = connected }

abbrev state_of : Outcome → State
state_of (going p s) = s
state_of (finished s) = s
state_of _ = initial 0

abbrev place_of : Outcome → Place
place_of (going p s) = p
place_of _ = outer

unfoldable opened : State
opened = state_of (web_step 2 1 first inner (initial 2))

none_open : (fd : ℕ) → IsFresh 2 (initial 2) fd
none_open fd j lt e = absurd (ground (arith, e))

opened-IsFresh : IsFresh 2 opened 4
unfolding opened web_step connect_next first_from
opened-IsFresh zero lt e = λ q. absurd (omega (arith, q))
opened-IsFresh (suc j) lt e = absurd (ground (arith, e))

opened-Reach : Reach 2 1 inner opened
unfolding opened web_step connect_next first_from
opened-Reach =
    later (later begins first inner (initial 2) (none_open 3) refl) first inner opened (none_open 3)
      refl

counters_true_example :
    (opened.nconn ≡ count active 2 opened.file)
    × (opened.nconn ≤ 1)
    × (opened.nlefttoconn ≡ count to_start 2 opened.file)
    × (opened.nlefttoread ≡ count unread 2 opened.file)
counters_true_example = counters_true 2 1 inner opened opened-Reach

search_finds_example : EndsRight 2 (web_step 2 1 second inner opened)
search_finds_example = search_finds 2 1 inner opened second opened-Reach

sets_match_connections_example :
    ((i : ℕ)
      → i < 2
      → IsWatched
          (opened.file i).f_flags
          (opened.rset (opened.file i).f_fd)
          (opened.wset (opened.file i).f_fd))
    × ((fd : ℕ) → opened.rset fd ≡ true → IsOpen 2 opened.file fd × (fd < opened.nfds))
    × ((fd : ℕ) → opened.wset fd ≡ true → IsOpen 2 opened.file fd)
sets_match_connections_example = sets_match_connections 2 1 inner opened opened-Reach

select_has_connection_example : (fd : ℕ) × (opened.rset fd ≡ true) × IsOpen 2 opened.file fd
unfolding opened web_step connect_next first_from
select_has_connection_example =
    select_has_connection 2 1 opened second (λ fd. opened.rset fd && true)
      (λ fd. opened.wset fd && true) opened opened-Reach (omega arith) refl

-- The whole run: both files are done after both connections have met the end of the file.
unfoldable steps : ℕ → Outcome
steps zero = going outer (initial 2)
steps (suc k) = again (steps k)
  where
    again : Outcome → Outcome
    again (going p s) = web_step 2 1 second p s
    again o = o

both_done : (state_of (steps 24)).nlefttoread ≡ 0
unfolding steps web_step connect_next first_from
both_done = refl
