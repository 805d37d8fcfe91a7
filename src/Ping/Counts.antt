-- ===== src/Ping/Counts.antt =====
-- The counts of ping.
use com_tutor.Base.{
  All, subst, sym, ◌∙◌, [], ℕ, ◌+◌, ◌≤◌, ◌≡◌, inl, inr, refl, ap, true, false, List, ◌∷◌, ◌++◌,
  length, arith, length-append, Bool-cases, ltb, if◌then◌else◌, ◌%◌,
}
use com_tutor.Ping.{
  Timeval, Icmp, icmp_pack, packet, Ping, ping_send, Arrival, arrived, select_failed, timed_out,
  recv_failed, icmp_unpack, Unpacked, too_short, foreign, out_of_range, answered, ping_recv,
  icmp_sigint,
}
use com_tutor.Ping.Packets.{IsIpHeader, IsTime64, answer_to, unpack_reply}
use com_tutor.Ping.Threads.{
  World, Step, sends_one, answers_one, sent_in, answered_in, sends, send_fails, receives, ignores,
  loses, interrupts, Reached, started, goes_on,
}

-- Packets received, and packets that may still be answered, have been sent.
abbrev pub IsCovered : World → Type 0
IsCovered w = w.ping.recv_count + length w.flight ≤ w.ping.send_count

ping_recv-counts :
    (pid : ℕ) (now : Timeval) (a : Arrival) (s : Ping)
    → ((ping_recv pid now a s).recv_count ≤ s.recv_count + 1)
      × ((ping_recv pid now a s).send_count ≡ s.send_count)
unfolding ping_recv
ping_recv-counts pid now select_failed s = (omega arith, refl)
ping_recv-counts pid now timed_out s = (omega arith, refl)
ping_recv-counts pid now recv_failed s = (omega arith, refl)
ping_recv-counts pid now (arrived buf len) s = look (icmp_unpack pid now buf len)
  where
    look :
        (u : Unpacked)
        → let s' = elim u as (λ x. Ping) [
          | too_short ↦ s
          | foreign ↦ s
          | out_of_range ↦ record s { alive = false }
          | answered l seq ttl rtt ↦ record s { recv_count = s.recv_count + 1 }
        ] in
          (s'.recv_count ≤ s.recv_count + 1) × (s'.send_count ≡ s.send_count)
    look too_short = (omega arith, refl)
    look foreign = (omega arith, refl)
    look out_of_range = (omega arith, refl)
    look (answered l seq ttl rtt) = (omega arith, refl)

Step-IsCovered : (pid : ℕ) {w w' : World} → Step pid w w' → IsCovered w → IsCovered w'
unfolding ping_send icmp_sigint
Step-IsCovered pid (sends now up ok) h = omega (arith, h)
Step-IsCovered pid (send_fails now up) h = h
Step-IsCovered pid {w} (receives before i after now cksum ip junk up e ok) h =
    let (more, same) =
      ping_recv-counts pid now
        (arrived (ip ++ (packet (answer_to cksum i) ++ junk)) (length ip + 24)) w.ping in
    omega (
      arith,
      more,
      same,
      h,
      ap length e,
      length-append before after,
      length-append before (i ∷ after),
    )
Step-IsCovered pid (ignores now a up still) h =
    omega (arith, ap (λ t. t.recv_count) still, ap (λ t. t.send_count) still, h)
Step-IsCovered pid (loses before i after e) h =
    omega (arith, h, ap length e, length-append before after, length-append before (i ∷ after))
Step-IsCovered pid interrupts h = h

Reached-IsCovered : (pid : ℕ) (w : World) → Reached pid w → IsCovered w
Reached-IsCovered pid _ started = omega arith
Reached-IsCovered pid w (goes_on r step) = Step-IsCovered pid step (Reached-IsCovered pid _ r)

-- A packet that ping_send has made.
abbrev IsSent : (pid : ℕ) → Icmp → Type 0
IsSent pid h = (now : Timeval) × (seq : ℕ) × IsTime64 now × (h ≡ icmp_pack pid now seq 24)

reply_counts :
    (pid cksum : ℕ) (now : Timeval) (ip junk : List ℕ) (h : Icmp) (s : Ping)
    → IsIpHeader ip
    → IsSent pid h
    → ping_recv pid now (arrived (ip ++ (packet (answer_to cksum h) ++ junk)) (length ip + 24)) s
      ≡ (if ltb 128 h.icmp_seq
          then record s { alive = false }
          else record s { recv_count = s.recv_count + 1 })
unfolding ping_recv icmp_pack
reply_counts pid cksum now ip junk h s ok (sent, seq, ok', made) =
    subst
      (λ x.
        ping_recv pid now (arrived (ip ++ (packet (answer_to cksum x) ++ junk)) (length ip + 24)) s
        ≡ (if ltb 128 x.icmp_seq
            then record s { alive = false }
            else record s { recv_count = s.recv_count + 1 }))
      (sym made) look
  where
    look :
        ping_recv pid now
          (arrived
            (ip ++ (packet (answer_to cksum (icmp_pack pid sent seq 24)) ++ junk))
            (length ip + 24))
          s
        ≡ (if ltb 128 (icmp_pack pid sent seq 24).icmp_seq
            then record s { alive = false }
            else record s { recv_count = s.recv_count + 1 })
    look =
        let e = unpack_reply pid cksum seq sent now ip junk ok ok' in
        elim (Bool-cases (ltb 128 (seq % 65536))) [
          | inl high ↦ rw (high, ping_recv, e, high) refl
          | inr low ↦ rw (low, ping_recv, e, low) refl
        ]

-- The counts are those of the run, and the packets in flight are ping's.
pub record IsCounted (pid : ℕ) (sent answered : ℕ) (w : World) : Type 0 where
  pub sends : w.ping.send_count ≡ sent
  pub answers : w.ping.recv_count ≡ answered
  pub own : All (IsSent pid) w.flight

All-middle {ℓ κ} :
    {A : Type ℓ} (P : A → Type κ) (xs : List A) (x : A) (ys : List A)
    → All P (xs ++ x ∷ ys)
    → P x × All P (xs ++ ys)
All-middle P [] x ys h = h
All-middle P (y ∷ xs) x ys (hy, h) = let (hx, rest) = All-middle P xs x ys h in (hx, (hy, rest))

Step-IsCounted :
    (pid n k : ℕ) {w w' : World} (step : Step pid w w')
    → IsCounted pid n k w
    → IsCounted pid (n + sends_one step) (k + answers_one step) w'
unfolding ping_send icmp_sigint
Step-IsCounted pid n k {w} (sends now up ok) h = record {
  sends = omega (arith, h.sends);
  answers = h.answers ∙ omega arith;
  own = ((now, w.ping.send_count, ok, refl), h.own);
}
Step-IsCounted pid n k (send_fails now up) h = record {
  sends = h.sends ∙ omega arith;
  answers = h.answers ∙ omega arith;
  own = h.own;
}
Step-IsCounted pid n k {w} (receives before i after now cksum ip junk up e ok) h =
    let (one, others) = All-middle (IsSent pid) before i after (subst (All (IsSent pid)) e h.own) in
    let r = reply_counts pid cksum now ip junk i w.ping ok one in
    record {
      sends = ap (λ s. s.send_count) r ∙ counted_as.0;
      answers = ap (λ s. s.recv_count) r ∙ counted_as.1;
      own = others;
    }
  where
    counted_as :
        let s =
          if ltb 128 i.icmp_seq
          then record w.ping { alive = false }
          else record w.ping { recv_count = w.ping.recv_count + 1 } in
        (s.send_count ≡ n + 0) × (s.recv_count ≡ k + (if ltb 128 i.icmp_seq then 0 else 1))
    counted_as = ground (arith, h.sends, h.answers)
Step-IsCounted pid n k (ignores now a up still) h = record {
  sends = ap (λ s. s.send_count) still ∙ h.sends ∙ omega arith;
  answers = ap (λ s. s.recv_count) still ∙ h.answers ∙ omega arith;
  own = h.own;
}
Step-IsCounted pid n k (loses before i after e) h = record {
  sends = h.sends ∙ omega arith;
  answers = h.answers ∙ omega arith;
  own = (All-middle (IsSent pid) before i after (subst (All (IsSent pid)) e h.own)).1;
}
Step-IsCounted pid n k interrupts h = record {
  sends = h.sends ∙ omega arith;
  answers = h.answers ∙ omega arith;
  own = h.own;
}

pub Reached-IsCounted :
    (pid : ℕ) (w : World) (r : Reached pid w) → IsCounted pid (sent_in r) (answered_in r) w
Reached-IsCounted pid _ started = record { sends = refl; answers = refl; own = tt }
Reached-IsCounted pid w (goes_on r step) =
    Step-IsCounted pid (sent_in r) (answered_in r) step (Reached-IsCounted pid _ r)

pub answered-sent : (pid : ℕ) (w : World) → Reached pid w → w.ping.recv_count ≤ w.ping.send_count
answered-sent pid w r = omega (arith, Reached-IsCovered pid w r)

-- The answer to a packet that ping_send has sent is counted if the number of the packet, which is 16 bits
-- of `send_count`, is at most 128, and else ends the program.
pub answer_counts_or_stops :
    (pid cksum : ℕ) (sent now : Timeval) (ip junk : List ℕ) (s0 s : Ping)
    → IsIpHeader ip
    → IsTime64 sent
    → let h = (ping_send pid sent true s0).0 in
      ping_recv pid now (arrived (ip ++ (packet (answer_to cksum h) ++ junk)) (length ip + 24)) s
      ≡ (if ltb 128 (s0.send_count % 65536)
          then record s { alive = false }
          else record s { recv_count = s.recv_count + 1 })
unfolding ping_recv ping_send
answer_counts_or_stops pid cksum sent now ip junk s0 s ok ok' =
    let e = unpack_reply pid cksum s0.send_count sent now ip junk ok ok' in
    elim (Bool-cases (ltb 128 (s0.send_count % 65536))) [
      | inl high ↦ rw (high, ping_recv, e, high) refl
      | inr low ↦ rw (low, ping_recv, e, low) refl
    ]
