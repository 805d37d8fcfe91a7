-- ===== src/Ping/Tests.antt =====
-- Runs of ping, and the theorems at them.
use com_tutor.Base.{
  ℕ, ◌+◌, ◌%◌, ◌≡◌, refl, true, false, none, List, [], ◌∷◌, ◌++◌, length, arith, ltb, if◌then◌else◌,
}
use com_tutor.Base.Int.{pos, negsuc}
use com_tutor.Ping.{
  sum_words, fold, cal_chksum, Timeval, cal_time_offset, packet, icmp_pack, Ping, ping_send,
  icmp_unpack, unpack_icmp, ping_recv, arrived, loss,
}
use com_tutor.Ping.Packets.{icmp_pack_verifies, answer_to}
use com_tutor.Ping.Threads.{World, start, started, goes_on, sends, receives, Reached}
use com_tutor.Ping.Main.{Calls, printed, overflowed, main}
use com_tutor.Ping.Counts.{answer_counts_or_stops}

chksum_runs : cal_chksum (8 ∷ 0 ∷ 0 ∷ 0 ∷ 1 ∷ 2 ∷ 255 ∷ 255 ∷ 7 ∷ []) ≡ 65007
unfolding cal_chksum fold sum_words
chksum_runs = refl

abbrev at_ten : Timeval
at_ten = record { tv_sec = 10; tv_usec = 999000 }

abbrev at_eleven : Timeval
at_eleven = record { tv_sec = 11; tv_usec = 1500 }

offset_forth : cal_time_offset at_ten at_eleven ≡ pos 2
unfolding cal_time_offset
offset_forth = refl

offset_back : cal_time_offset at_eleven at_ten ≡ negsuc 2
unfolding cal_time_offset
offset_back = refl

icmp_pack_verifies_example : cal_chksum (packet (icmp_pack 4711 at_ten 3 24)) ≡ 0
icmp_pack_verifies_example = icmp_pack_verifies 4711 at_ten 3

abbrev ip_header : List ℕ
ip_header =
    69 ∷ 0 ∷ 0 ∷ 44 ∷ 1 ∷ 2 ∷ 0 ∷ 0 ∷ 64 ∷ 1 ∷ 0 ∷ 0 ∷ 127 ∷ 0 ∷ 0 ∷ 1 ∷ 127 ∷ 0 ∷ 0 ∷ 1 ∷ []

abbrev late : Ping
late = record { alive = true; send_count = 129; recv_count = 100 }

answer_counts_or_stops_example :
    let h = (ping_send 4711 at_ten true late).0 in
    ping_recv 4711 at_eleven
      (arrived (ip_header ++ (packet (answer_to 9 h) ++ [])) (length ip_header + 24))
      late
    ≡ (if ltb 128 (129 % 65536)
        then record late { alive = false }
        else record late { recv_count = late.recv_count + 1 })
answer_counts_or_stops_example =
    answer_counts_or_stops 4711 9 at_ten at_eleven ip_header [] late late (omega arith, refl)
      (omega arith, omega arith)

abbrev after_send : World
after_send = record {
  ping = (ping_send 4711 at_ten true start.ping).1;
  flight = (ping_send 4711 at_ten true start.ping).0 ∷ [];
}

abbrev after_answer : World
after_answer = record {
  ping =
      ping_recv 4711 at_eleven
        (arrived
          (ip_header ++ (packet (answer_to 9 (ping_send 4711 at_ten true start.ping).0) ++ []))
          (length ip_header + 24))
        after_send.ping;
  flight = [];
}

after_answer-Reached : Reached 4711 after_answer
unfolding ping_send
after_answer-Reached = goes_on (goes_on started (sends at_ten refl (omega arith, omega arith))) (
    receives [] (ping_send 4711 at_ten true start.ping).0 [] at_eleven 9 ip_header [] refl refl
      (omega arith, refl))

-- ping with an address.
abbrev calls : Calls
calls = record {
  argc = 2;
  inet_addr = 16777343;
  gethostbyname = none;
  socket = true;
  bind = false;
  start_time = at_ten;
  end_time = at_eleven;
}

prints_no_loss :
    main calls after_answer.ping ≡ printed 1 1 (pos 0) (cal_time_offset at_ten at_eleven)
unfolding main ping_send ping_recv icmp_unpack unpack_icmp icmp_pack loss
prints_no_loss = refl

-- A loss of 21,474,837 packets is no int.
overflow_runs :
    main calls (record { alive = false; send_count = 21474840; recv_count = 3 }) ≡ overflowed
unfolding main loss
overflow_runs = refl
