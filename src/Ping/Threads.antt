-- ===== src/Ping/Threads.antt =====
-- The threads of ping and the network between them, as a relation between states. The network answers
-- a packet once at most, in any order, or loses it.
use com_tutor.Base.{ltb, if◌then◌else◌, ℕ, ◌+◌, ◌≡◌, true, false, List, [], ◌∷◌, ◌++◌, length}
use com_tutor.Ping.{
  Timeval, Icmp, packet, Ping, ping_send, Arrival, arrived, ping_recv, icmp_sigint,
}
use com_tutor.Ping.Packets.{IsTime64, IsIpHeader, answer_to}

-- The variables, and the packets that may still be answered.
pub record World : Type 0 where
  pub ping : Ping
  pub flight : List Icmp

-- Both threads look at `alive` before a round.
pub data Step (pid : ℕ) (w : World) : World → Type 0 where
  sends :
      (now : Timeval)
      → w.ping.alive ≡ true
      → IsTime64 now
      → Step pid w (record {
        ping = (ping_send pid now true w.ping).1;
        flight = (ping_send pid now true w.ping).0 ∷ w.flight;
      })
  send_fails :
      (now : Timeval)
      → w.ping.alive ≡ true
      → Step pid w (record w { ping = (ping_send pid now false w.ping).1 })
  receives :
      (before : List Icmp) (h : Icmp) (after : List Icmp) (now : Timeval) (cksum : ℕ)
      (ip junk : List ℕ)
      → w.ping.alive ≡ true
      → w.flight ≡ before ++ h ∷ after
      → IsIpHeader ip
      → Step pid w (record {
        ping =
            ping_recv pid now
              (arrived (ip ++ (packet (answer_to cksum h) ++ junk)) (length ip + 24))
              w.ping;
        flight = before ++ after;
      })
  -- A timeout, a failure, or a packet that is not for this process.
  ignores :
      (now : Timeval) (a : Arrival)
      → w.ping.alive ≡ true
      → ping_recv pid now a w.ping ≡ w.ping
      → Step pid w (record w { ping = ping_recv pid now a w.ping })
  loses :
      (before : List Icmp) (h : Icmp) (after : List Icmp)
      → w.flight ≡ before ++ h ∷ after
      → Step pid w (record w { flight = before ++ after })
  interrupts : Step pid w (record w { ping = icmp_sigint w.ping })

abbrev pub start : World
start = record { ping = record { alive = true; send_count = 0; recv_count = 0 }; flight = [] }

-- What comes of the start of main.
pub data Reached (pid : ℕ) : World → Type 0 where
  started : Reached pid start
  goes_on : {w w' : World} → Reached pid w → Step pid w w' → Reached pid w'

abbrev pub sends_one : {pid : ℕ} {w w' : World} → Step pid w w' → ℕ
sends_one (sends now up ok) = 1
sends_one _ = 0

-- An answer counts if its number is one that ping expects, 128 at most.
abbrev pub answers_one : {pid : ℕ} {w w' : World} → Step pid w w' → ℕ
answers_one (receives before h after now cksum ip junk up e ok) =
    if ltb 128 h.icmp_seq then 0 else 1
answers_one _ = 0

-- The packets that have been sent, and the answers to them that have come in.
abbrev pub sent_in : {pid : ℕ} {w : World} → Reached pid w → ℕ
sent_in started = 0
sent_in (goes_on r step) = sent_in r + sends_one step

abbrev pub answered_in : {pid : ℕ} {w : World} → Reached pid w → ℕ
answered_in started = 0
answered_in (goes_on r step) = answered_in r + answers_one step
