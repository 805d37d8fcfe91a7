-- ===== src/Ping/Packets.antt =====
-- What ping sends, and what it makes of the answers.
use com_tutor.Base.{
  ℕ, zero, suc, ◌+◌, ◌-◌, ◌*◌, ◌/◌, ◌%◌, ◌^◌, ◌≤◌, ◌<◌, ◌≡◌, refl, ◌∙◌, ap, ap₂, eq→==, List, [],
  ◌∷◌, ◌++◌, length, drop, arith, All-append, ltb, if◌then◌else◌,
}
use com_tutor.Ping.{
  cal_chksum, cal_time_offset, Timeval, Icmp, packet, icmp_pack, bytes_le, value_le, byte_at, field,
  out_of_range, answered, unpack_icmp, icmp_unpack,
}
use native.Mathlib.Nat.{pow-succ'}
use com_tutor.Ping.Checksum.{IsBytes, chksum_verifies}

bytes_le-IsBytes : (k v : ℕ) → IsBytes (bytes_le k v)
bytes_le-IsBytes zero v = tt
bytes_le-IsBytes (suc k) v = (omega arith, bytes_le-IsBytes k (v / 256))

value-bytes : (k v : ℕ) → v < 256 ^ k → value_le (bytes_le k v) ≡ v
value-bytes zero v h = ground (arith, h)
value-bytes (suc k) v h = omega (arith, value-bytes k (v / 256) (omega (arith, pow-succ' 256 k, h)))

-- Every packet that ping sends has the checksum 0, with its own checksum in it.
pub icmp_pack_verifies :
    (pid : ℕ) (now : Timeval) (seq : ℕ) → cal_chksum (packet (icmp_pack pid now seq 24)) ≡ 0
unfolding icmp_pack
icmp_pack_verifies pid now seq =
    let rest =
      bytes_le 2 (pid % 65536)
      ++ bytes_le 2 (seq % 65536)
      ++ bytes_le 8 now.tv_sec
      ++ bytes_le 8 now.tv_usec in
    chksum_verifies 8 0 rest
      (
        omega arith,
        (
          omega arith,
          All-append (λ b. b < 256) (bytes_le 2 (pid % 65536))
              (bytes_le 2 (seq % 65536) ++ bytes_le 8 now.tv_sec ++ bytes_le 8 now.tv_usec)
              (bytes_le-IsBytes 2 (pid % 65536))
              (All-append (λ b. b < 256) (bytes_le 2 (seq % 65536))
                (bytes_le 8 now.tv_sec ++ bytes_le 8 now.tv_usec) (bytes_le-IsBytes 2 (seq % 65536))
                (All-append (λ b. b < 256) (bytes_le 8 now.tv_sec) (bytes_le 8 now.tv_usec)
                  (bytes_le-IsBytes 8 now.tv_sec) (bytes_le-IsBytes 8 now.tv_usec))),
        ),
      )
      (omega arith)

byte_at-append : (xs ys : List ℕ) (i : ℕ) → i < length xs → byte_at (xs ++ ys) i ≡ byte_at xs i
byte_at-append [] ys i h = absurd (omega (arith, h))
byte_at-append (x ∷ xs) ys zero h = refl
byte_at-append (x ∷ xs) ys (suc i) h = byte_at-append xs ys i (omega (arith, h))

drop-append {ℓ} : {A : Type ℓ} (xs ys : List A) → drop (length xs) (xs ++ ys) ≡ ys
drop-append [] ys = refl
drop-append (x ∷ xs) ys = drop-append xs ys

-- The answer that the peer makes of a packet: another type and checksum, the rest as it was.
abbrev pub answer_to : (cksum : ℕ) → Icmp → Icmp
answer_to cksum h = record h { icmp_type = 0; icmp_cksum = cksum }

-- An IP header, with its length in words in the low half of the first byte.
abbrev pub IsIpHeader : List ℕ → Type 0
IsIpHeader ip = (20 ≤ length ip) × (byte_at ip 0 % 16 * 4 ≡ length ip)

abbrev pub IsTime64 : Timeval → Type 0
IsTime64 t = (t.tv_sec < 256 ^ 8) × (t.tv_usec < 256 ^ 8)

unpack_icmp_lem :
    (pid : ℕ) (now : Timeval) (icmp_len ttl : ℕ) (p : List ℕ) (seq : ℕ) (sent : Timeval)
    → byte_at p 0 ≡ 0
    → field p 4 2 ≡ pid % 65536
    → field p 6 2 ≡ seq
    → field p 8 8 ≡ sent.tv_sec
    → field p 16 8 ≡ sent.tv_usec
    → unpack_icmp pid now icmp_len ttl p
      ≡ (if ltb 128 seq then out_of_range else answered icmp_len seq ttl (cal_time_offset sent now))
unfolding unpack_icmp
unpack_icmp_lem pid now icmp_len ttl p seq sent e0 e4 e6 e8 e16 =
    rw (unpack_icmp, e0, e4, e6, e8, e16, eq→== (pid % 65536) (pid % 65536) refl) refl

icmp_unpack_lem :
    (pid : ℕ) (now : Timeval) (buf : List ℕ) (len hl : ℕ)
    → byte_at buf 0 % 16 * 4 ≡ hl
    → hl + 8 ≤ len
    → icmp_unpack pid now buf len ≡ unpack_icmp pid now (len - hl) (byte_at buf 8) (drop hl buf)
unfolding icmp_unpack
icmp_unpack_lem pid now buf len hl e long = rw (icmp_unpack, e) (ground (arith, long))

-- Unpacking the answer to a packet gives back its number and its time, from which the round-trip time is
-- computed, whatever follows in the buffer; numbers above 128 are out of range.
pub unpack_reply :
    (pid cksum seq : ℕ) (sent now : Timeval) (ip junk : List ℕ)
    → IsIpHeader ip
    → IsTime64 sent
    → let reply = packet (answer_to cksum (icmp_pack pid sent seq 24)) in
      icmp_unpack pid now (ip ++ (reply ++ junk)) (length ip + 24) ≡ (
        if ltb 128 (seq % 65536)
        then out_of_range
        else answered 24 (seq % 65536) (byte_at ip 8) (cal_time_offset sent now))
unfolding icmp_pack
unpack_reply pid cksum seq sent now ip junk (long, hl) (ok, ok') =
    let h = answer_to cksum (icmp_pack pid sent seq 24) in
    let p = packet h ++ junk in
    icmp_unpack_lem pid now (ip ++ p) (length ip + 24) (length ip)
      (rw (byte_at-append ip p 0 (omega (arith, long))) hl) (omega arith)
    ∙ ap₂ (λ ttl r. unpack_icmp pid now (length ip + 24 - length ip) ttl r)
        (byte_at-append ip p 8 (omega (arith, long))) (drop-append ip p)
    ∙ ap (λ l. unpack_icmp pid now l (byte_at ip 8) p) (omega arith)
    ∙ unpack_icmp_lem pid now 24 (byte_at ip 8) p (seq % 65536) sent refl
        (value-bytes 2 (pid % 65536) (omega arith)) (value-bytes 2 (seq % 65536) (omega arith))
        (value-bytes 8 sent.tv_sec ok) (value-bytes 8 sent.tv_usec ok')
