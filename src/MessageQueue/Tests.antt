-- ===== src/MessageQueue/Tests.antt =====
-- Runs on small files, and the theorems at them.
use com_tutor.Base.Errno.{ebadf, emsgsize, eagain, code}
use com_tutor.Base.{◌≡◌, refl, true, false, none, some, List, [], ◌∷◌, arith, update}
use com_tutor.MessageQueue.Types.{
  Queue, Info, outcome, done, failed, sleeping, mqi_magic, head_at, free_at,
}
use com_tutor.MessageQueue.Send.{notify_arrival, enqueue, mymq_send}
use com_tutor.MessageQueue.Receive.{dequeue, mymq_receive}
use com_tutor.MessageQueue.Invariant.{messages, Holds}
use com_tutor.MessageQueue.SendLaws.{Sent}
use com_tutor.MessageQueue.SendCalls.{send_refines, send_full}
use com_tutor.MessageQueue.ReceiveLaws.{Received}
use com_tutor.MessageQueue.ReceiveCalls.{receive_refines}
use com_tutor.MessageQueue.ReceiveCalls.{receive_failed_unchanged}
use com_tutor.MessageQueue.Run.{Call, send, receive, run, spec_run, call, run_refines}

abbrev pub blank : Queue
blank = record {
  maxmsg = 0;
  msgsize = 0;
  curmsgs = 0;
  nwait = 0;
  pid = 0;
  event = record { by_signal = true; signo = 10; value = 0 };
  next = λ _. 0;
  slot = λ _. record { len = 0; prio = 0; body = [] };
}

-- One message of priority 5 at 216, and one free slot at 248.
abbrev holding : Queue
holding = record blank {
  maxmsg = 2;
  msgsize = 8;
  curmsgs = 1;
  next = update (update (update (update (λ _. 0) head_at 216) 216 0) free_at 248) 248 0;
  slot =
      update (λ _. record { len = 0; prio = 0; body = [] }) 216
        (record { len = 2; prio = 5; body = 7 ∷ 8 ∷ 0 ∷ [] });
}

abbrev one_slot : Queue
one_slot = record holding { maxmsg = 1; next = update (update (λ _. 0) head_at 216) 216 0 }

abbrev pub empty : Queue
empty = record blank {
  maxmsg = 2;
  msgsize = 8;
  pid = 77;
  next = update (update (λ _. 0) free_at 216) 216 248;
}

abbrev pub blocking : Info
blocking = record { magic = mqi_magic; nonblock = false }

holding-Holds : Holds holding (216 ∷ []) (248 ∷ [])
holding-Holds = omega arith

one_slot-Holds : Holds one_slot (216 ∷ []) []
one_slot-Holds = omega arith

pub empty-Holds : Holds empty [] (216 ∷ 248 ∷ [])
empty-Holds = omega arith

abbrev script : List Call
script = send 1 (4 ∷ []) ∷ send 9 [] ∷ receive 8 ∷ receive 3 ∷ receive 8 ∷ receive 8 ∷ []

run_runs :
    run holding script
    ≡ (done 0, none)
      ∷ (failed eagain, none)
      ∷ (done 2, some (record { prio = 5; bytes = 7 ∷ 8 ∷ [] }))
      ∷ (failed emsgsize, none)
      ∷ (done 1, some (record { prio = 1; bytes = 4 ∷ [] }))
      ∷ (failed eagain, none)
      ∷ []
unfolding run call mymq_send enqueue mymq_receive dequeue notify_arrival
run_runs = refl

run_refines_example : run holding script ≡ spec_run 2 8 (messages holding.slot (216 ∷ [])) script
run_refines_example = run_refines script holding (216 ∷ []) (248 ∷ []) (omega arith) holding-Holds

send_refines_example :
    Sent holding
      (216 ∷ [])
      []
      (record { prio = 6; bytes = 3 ∷ 4 ∷ [] })
      (mymq_send 0 [] blocking (3 ∷ 4 ∷ []) 2 6 holding)
send_refines_example =
    send_refines [] blocking (3 ∷ 4 ∷ []) 2 6 holding (216 ∷ []) 248 [] holding-Holds refl
      (omega arith) (omega arith)

send_full_example :
    mymq_send 0 (one_slot ∷ []) blocking (3 ∷ []) 1 6 one_slot ≡ outcome sleeping one_slot []
send_full_example =
    send_full blocking (3 ∷ []) 1 6 one_slot (216 ∷ []) one_slot-Holds refl (omega arith)
      (omega arith) (one_slot ∷ []) (refl, tt)

send_refused :
    (mymq_send 0 [] (record { magic = 0; nonblock = true }) [] 0 1 holding).reply ≡ failed ebadf
unfolding mymq_send
send_refused = refl

receive_refused : (mymq_receive 22 [] blocking 8 holding).0.reply ≡ failed (code 22)
unfolding mymq_receive
receive_refused = refl

receive_refines_example : Received holding 216 [] (248 ∷ []) (mymq_receive 0 [] blocking 8 holding)
receive_refines_example =
    receive_refines [] blocking 8 holding 216 [] (248 ∷ []) holding-Holds refl (omega arith)

receive_failed_unchanged_example :
    mymq_receive 22 [] blocking 8 holding ≡ (outcome (failed (code 22)) holding [], none)
receive_failed_unchanged_example =
    receive_failed_unchanged 22 [] blocking 8 holding (code 22) receive_refused
