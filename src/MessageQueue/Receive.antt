-- ===== src/MessageQueue/Receive.antt =====
-- mq_receive.c: mymq_receive.
use com_tutor.Base.Errno.{ebadf, emsgsize, eagain, code}
use com_tutor.Base.{
  ℕ, ◌+◌, ◌-◌, not, Option, none, some, List, [], ◌∷◌, ltb, ◌==◌, if◌then◌else◌, update, take,
}
use com_tutor.MessageQueue.Types.{
  Queue, Message, Info, cond_signal, Outcome, outcome, done, failed, dumped, sleeping, mqi_magic,
  head_at, free_at,
}

-- The loop `while (mq_curmsgs == 0)` round pthread_cond_wait; see `Send.wait_room`.
unfoldable pub wait_message : List Queue → Queue → Option Queue
wait_message [] q = if q.curmsgs == 0 then none else some q
wait_message (w ∷ ws) q = if q.curmsgs == 0 then wait_message ws w else some q

-- After the tests: the first message is copied out, and its slot goes to the front of the free
-- list.
unfoldable pub dequeue : Queue → Outcome × Option Message
dequeue q =
    let i = q.next head_at in
    if i == 0
    then (outcome dumped q [], none)
    else (let n1 = update q.next head_at (q.next i) in
        let n2 = update n1 i (n1 free_at) in
        let m = q.slot i in
        (
          outcome (done m.len) (record q { next = update n2 free_at i; curmsgs = q.curmsgs - 1 })
              (if q.curmsgs == q.maxmsg then cond_signal ∷ [] else []),
          some (record { prio = m.prio; bytes = take m.len m.body }),
        ))

unfoldable pub mymq_receive :
    (lock : ℕ) (wakes : List Queue) → Info → (maxlen : ℕ) → Queue → Outcome × Option Message
mymq_receive lock wakes info maxlen q =
    if not (info.magic == mqi_magic)
    then (outcome (failed ebadf) q [], none)
    else (if not (lock == 0)
        then (outcome (failed (code lock)) q [], none)
        else (if ltb maxlen q.msgsize
            then (outcome (failed emsgsize) q [], none)
            else (if q.curmsgs == 0
                then (if info.nonblock
                    then (outcome (failed eagain) q [], none)
                    else (let q0 = record q { nwait = q.nwait + 1 } in
                        elim (wait_message wakes q0) [
                          | none ↦ (outcome sleeping q0 [], none)
                          | some q' ↦ dequeue (record q' { nwait = q'.nwait - 1 })
                        ]))
                else dequeue q)))
