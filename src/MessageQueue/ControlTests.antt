-- ===== src/MessageQueue/ControlTests.antt =====
-- Runs of the attribute, notification and open calls, and the theorems at them.
use com_tutor.Base.{ℕ, ◌≡◌, refl, Bool, false, Option, none}
use com_tutor.MessageQueue.Types.{Info, done}
use com_tutor.MessageQueue.Control.{mymq_notify, mymq_close}
use com_tutor.MessageQueue.Tests.{empty, blocking}

abbrev nobody : ℕ → Bool
nobody _ = false

abbrev unmaps : ℕ → Option ℕ
unmaps _ = none

abbrev closed : Info
closed = record { magic = 0; nonblock = false }

close_runs :
    mymq_close 216 0 77 nobody unmaps blocking empty ≡ (done 0, closed, record empty { pid = 0 })
unfolding mymq_close mymq_notify
close_runs = refl
