-- ===== src/Ping/Main.antt =====
-- main of ping.c, with set_dest_sock_addr and ping_stats_show: what comes before the threads and after.
use com_tutor.Base.{
  ◌-◌, ◌*◌, ◌/◌, ℕ, ◌≤◌, ◌<◌, ◌≡◌, Bool, ◌&&◌, not, Option, none, some, ltb, ◌==◌, if◌then◌else◌,
}
use com_tutor.Base.Int.{ℤ, pos, int_max}
use com_tutor.Ping.{Timeval, cal_time_offset, Ping, Loss, divides_by_zero, overflows, percent, loss}

-- INADDR_NONE, which inet_addr gives for a text that is no address.
abbrev inaddr_none : ℕ
inaddr_none = 4294967295

-- The address of set_dest_sock_addr from inet_addr, or else from gethostbyname.
abbrev pub set_dest_sock_addr : (inet_addr : ℕ) (gethostbyname : Option ℕ) → Option ℕ
set_dest_sock_addr addr host = if addr == inaddr_none then host else some addr

-- The arguments of main and what its calls answer: inet_addr and gethostbyname on the first, whether
-- socket and bind succeed, and the times of the first packet and of the end.
pub record Calls : Type 0 where
  pub argc : ℕ
  pub inet_addr : ℕ
  pub gethostbyname : Option ℕ
  pub socket : Bool
  pub bind : Bool
  pub start_time : Timeval
  pub end_time : Timeval

-- The end of the process: main returns -1 or 1, divides by zero, lets an int overflow, or prints the
-- counts, the share of lost packets and the time, and returns 0.
pub data End : Type 0 where
  returned_minus_one returned_one divided_by_zero overflowed : End
  printed : (send_count recv_count : ℕ) (lost time : ℤ) → End

abbrev pub show_loss : Calls → Ping → Loss → End
show_loss c s divides_by_zero = divided_by_zero
show_loss c s overflows = overflowed
show_loss c s (percent lost) =
    printed s.send_count s.recv_count lost (cal_time_offset c.start_time c.end_time)

abbrev pub ping_stats_show : Calls → Ping → End
ping_stats_show c s = show_loss c s (loss s)

-- `s` is what the threads leave, if main gets so far as to start them.
abbrev pub start_threads : Calls → Ping → Option ℕ → End
start_threads c s none = returned_minus_one
start_threads c s (some addr) =
    if not c.socket
    then returned_minus_one
    else (if (c.argc == 4) && not c.bind then returned_one else ping_stats_show c s)

unfoldable pub main : Calls → Ping → End
unfolding loss cal_time_offset
main c s =
    if ltb c.argc 2
    then returned_minus_one
    else start_threads c s (set_dest_sock_addr c.inet_addr c.gethostbyname)

-- How main ends after a run with `n` packets sent and `k` answers: it prints these numbers and the share
-- of lost packets; it divides by zero only if nothing has been sent, and overflows only if a hundred
-- times the lost packets are no int.
abbrev pub IsTrue : (n k : ℕ) → End → Type 0
IsTrue n k returned_minus_one = Unit
IsTrue n k returned_one = Unit
IsTrue n k divided_by_zero = n ≡ 0
IsTrue n k overflowed = int_max < (n - k) * 100
IsTrue n k (printed sent received lost time) =
    (sent ≡ n)
    × (received ≡ k)
    × (k ≤ n)
    × (0 < n)
    × ((n - k) * 100 ≤ int_max)
    × (lost ≡ pos ((n - k) * 100 / n))
    × ((n - k) * 100 / n ≤ 100)
