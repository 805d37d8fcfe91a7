-- ===== src/MessageQueue/Create/Waiting.antt =====
-- When mymq_open attaches a file that another process has created.
use com_tutor.SharedFile.{ready, wait_ready, max_tries, SawReady, wait_ready-SawReady}
use com_tutor.Base.{ℕ, ◌≡◌, Bool, true, false, Option, none, some, arith}
use com_tutor.Base.Int.{ℤ}
use com_tutor.MessageQueue.Types.{Queue, Info}
use com_tutor.MessageQueue.Create.{Answers, attached, attach, pass}
use com_tutor.MessageQueue.Create.Protocol.{create-never_attaches}

attach-waits :
    (creat nonblock : Bool) (a : Answers) (i : Info)
    → attach creat nonblock a ≡ some (attached i)
    → (a.plain_open ≡ none) × (wait_ready max_tries creat a.stats 0 ≡ ready)
unfolding attach
attach-waits creat nonblock a i h = ground arith

pass-attaches :
    (hdr_size : ℕ) (creat excl nonblock : Bool) (attr : Option (ℤ × ℤ)) (blank : Queue)
    (a : Answers) (i : Info)
    → pass hdr_size creat excl nonblock attr blank a ≡ some (attached i)
    → attach creat nonblock a ≡ some (attached i)
unfolding pass
pass-attaches hdr_size true excl nonblock attr blank a i h =
    ground (arith, create-never_attaches hdr_size nonblock attr blank a i)
pass-attaches hdr_size false excl nonblock attr blank a i h = h

-- A pass that attaches a file has opened it, and has waited until its creator has turned S_IXUSR
-- off, at most `max_tries` rounds.
pub open_attaches_ready :
    (hdr_size : ℕ) (creat excl nonblock : Bool) (attr : Option (ℤ × ℤ)) (blank : Queue)
    (a : Answers) {i : Info}
    → pass hdr_size creat excl nonblock attr blank a ≡ some (attached i)
    → (a.plain_open ≡ none) × SawReady max_tries a.stats 0
open_attaches_ready hdr_size creat excl nonblock attr blank a {i} h =
    let w =
      attach-waits creat nonblock a i
        (pass-attaches hdr_size creat excl nonblock attr blank a i h) in
    (w.0, wait_ready-SawReady max_tries creat a.stats 0 w.1)
