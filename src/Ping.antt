-- ===== src/Ping.antt =====
-- item/ping/ping.c: the packets of ping, its checksum, and its two threads. Words are little-endian,
-- as on the machines the program's casts are for.
pub mod Checksum
pub mod Times
pub mod Packets
pub mod Threads
pub mod Counts
pub mod Main
mod Tests
use com_tutor.Base.{
  ℕ, zero, suc, ◌+◌, ◌-◌, ◌*◌, ◌/◌, ◌%◌, Bool, true, false, ◌&&◌, Option, none, some, List, [], ◌∷◌,
  ◌++◌, length, take, drop, ltb, ◌==◌, if◌then◌else◌,
}
use com_tutor.Base.Int.{int_max, ℤ, pos, negsuc, dec, is_neg}

-- The loop of cal_chksum, with the last byte of an odd number as the low byte of a word.
unfoldable pub sum_words : (sum : ℕ) → List ℕ → ℕ
sum_words sum [] = sum
sum_words sum (b ∷ []) = sum + b
sum_words sum (lo ∷ hi ∷ rest) = sum_words (sum + (lo + 256 * hi)) rest

-- `sum=(sum>>16)+(sum&0xffff)`, `sum+=(sum>>16)`, `answer=~sum`
unfoldable pub fold : ℕ → ℕ
fold sum = let once = sum / 65536 + sum % 65536 in 65535 - (once + once / 65536) % 65536

unfoldable pub cal_chksum : List ℕ → ℕ
cal_chksum bytes = fold (sum_words 0 bytes)

-- A time since 1970.
pub record Timeval : Type 0 where
  pub tv_sec : ℕ
  pub tv_usec : ℕ

-- `a - b`
abbrev pub minus : ℕ → ℕ → ℤ
minus a zero = pos a
minus zero (suc b) = negsuc b
minus (suc a) (suc b) = minus a b

-- `s * 1000 + ms`
abbrev pub millis : (s : ℤ) (ms : ℕ) → ℤ
millis (pos s) ms = pos (s * 1000 + ms)
millis (negsuc k) ms = minus ms (suc k * 1000)

unfoldable pub cal_time_offset : (begin end_time : Timeval) → ℤ
cal_time_offset begin end_time = elim (minus end_time.tv_usec begin.tv_usec) as (λ x. ℤ) [
  | pos usec ↦ millis (minus end_time.tv_sec begin.tv_sec) (usec / 1000)
  | negsuc k ↦ millis (dec (minus end_time.tv_sec begin.tv_sec)) ((1000000 - suc k) / 1000)
]

-- The bytes of a number of `k` bytes, and the number of some bytes.
abbrev pub bytes_le : (k : ℕ) → ℕ → List ℕ
bytes_le zero v = []
bytes_le (suc k) v = v % 256 ∷ bytes_le k (v / 256)

abbrev pub value_le : List ℕ → ℕ
value_le [] = 0
value_le (b ∷ bs) = b + 256 * value_le bs

-- `struct icmp` of an echo, with the time behind it.
pub record Icmp : Type 0 where
  pub icmp_type : ℕ
  pub icmp_code : ℕ
  pub icmp_cksum : ℕ
  pub icmp_id : ℕ
  pub icmp_seq : ℕ
  pub send_time : Timeval

abbrev pub packet : Icmp → List ℕ
packet h =
    h.icmp_type ∷ h.icmp_code ∷ bytes_le 2 h.icmp_cksum
    ++ bytes_le 2 h.icmp_id
    ++ bytes_le 2 h.icmp_seq
    ++ bytes_le 8 h.send_time.tv_sec
    ++ bytes_le 8 h.send_time.tv_usec

-- `pid` is what getpid answers, `now` what gettimeofday does.
unfoldable pub icmp_pack : (pid : ℕ) (now : Timeval) (seq size : ℕ) → Icmp
unfolding cal_chksum
icmp_pack pid now seq size =
    let h : Icmp = record {
      icmp_type = 8;
      icmp_code = 0;
      icmp_cksum = 0;
      icmp_id = pid % 65536;
      icmp_seq = seq % 65536;
      send_time = now;
    } in
    record h { icmp_cksum = cal_chksum (take size (packet h)) }

-- How icmp_unpack ends: with -1 for a packet too short, not an answer to this process, or with a number
-- out of range, which also ends the program; or with 0, when it prints the length, the number, the time
-- to live and the round-trip time.
pub data Unpacked : Type 0 where
  too_short foreign out_of_range : Unpacked
  answered : (icmp_len seq ttl : ℕ) (rtt : ℤ) → Unpacked

-- The byte at `i`; the buffer has all 512 bytes that the code may read.
abbrev pub byte_at : List ℕ → ℕ → ℕ
byte_at [] i = 0
byte_at (b ∷ bs) zero = b
byte_at (b ∷ bs) (suc i) = byte_at bs i

abbrev pub field : List ℕ → (at_byte size : ℕ) → ℕ
field p at_byte size = value_le (take size (drop at_byte p))

-- The ICMP packet `p` behind the IP header.
unfoldable pub unpack_icmp : (pid : ℕ) (now : Timeval) (icmp_len ttl : ℕ) (p : List ℕ) → Unpacked
unfolding cal_time_offset
unpack_icmp pid now icmp_len ttl p =
    if (byte_at p 0 == 0) && (field p 4 2 == pid % 65536)
    then if ltb 128 (field p 6 2)
      then out_of_range
      else answered icmp_len (field p 6 2) ttl
          (cal_time_offset (record { tv_sec = field p 8 8; tv_usec = field p 16 8 }) now)
    else foreign

-- `buf` is the receive buffer, `len` the length of the packet in it.
unfoldable pub icmp_unpack : (pid : ℕ) (now : Timeval) (buf : List ℕ) (len : ℕ) → Unpacked
unfolding unpack_icmp
icmp_unpack pid now buf len =
    let iphdr_len = byte_at buf 0 % 16 * 4 in
    if ltb len (iphdr_len + 8)
    then too_short
    else unpack_icmp pid now (len - iphdr_len) (byte_at buf 8) (drop iphdr_len buf)

-- The variables the threads share.
pub record Ping : Type 0 where
  pub alive : Bool
  pub send_count : ℕ
  pub recv_count : ℕ

-- A round of ping_send: `sent` tells whether sendto took the packet.
unfoldable pub ping_send : (pid : ℕ) (now : Timeval) (sent : Bool) → Ping → Icmp × Ping
unfolding icmp_pack
ping_send pid now sent s = (
  icmp_pack pid now s.send_count 24,
  if sent then record s { send_count = s.send_count + 1 } else s,
)

-- What select and recvfrom answer in a round of ping_recv.
pub data Arrival : Type 0 where
  select_failed timed_out recv_failed : Arrival
  arrived : (buf : List ℕ) (len : ℕ) → Arrival

unfoldable pub ping_recv : (pid : ℕ) (now : Timeval) → Arrival → Ping → Ping
unfolding icmp_unpack
ping_recv pid now select_failed s = s
ping_recv pid now timed_out s = s
ping_recv pid now recv_failed s = s
ping_recv pid now (arrived buf len) s = elim (icmp_unpack pid now buf len) as (λ x. Ping) [
  | too_short ↦ s
  | foreign ↦ s
  | out_of_range ↦ record s { alive = false }
  | answered l seq ttl rtt ↦ record s { recv_count = s.recv_count + 1 }
]

unfoldable pub icmp_sigint : Ping → Ping
icmp_sigint s = record s { alive = false }

-- The share of lost packets that ping_stats_show prints: a division by zero, an int that overflows, or
-- the number.
pub data Loss : Type 0 where
  divides_by_zero overflows : Loss
  percent : ℤ → Loss

unfoldable pub loss : Ping → Loss
loss s =
    if s.send_count == 0
    then divides_by_zero
    else elim (minus s.send_count s.recv_count) as (λ x. Loss) [
      | pos d ↦ if ltb int_max (d * 100) then overflows else percent (pos (d * 100 / s.send_count))
      | negsuc k ↦
          if ltb (int_max + 1) (suc k * 100)
          then overflows
          else percent (minus 0 (suc k * 100 / s.send_count))
    ]
