-- ===== src/MessageQueue/Send.antt =====
-- mq_send.c: mymq_send.
use com_tutor.Base.Errno.{ebadf, emsgsize, eagain, code}
use com_tutor.Base.{
  ℕ, zero, suc, ◌+◌, Bool, ◌&&◌, not, Option, none, some, List, [], ◌∷◌, ◌++◌, ltb, leb, ◌==◌,
  if◌then◌else◌, update, take, drop,
}
use com_tutor.MessageQueue.Types.{
  Queue, Slot, Info, Effect, cond_signal, sigqueue, Outcome, outcome, done, failed, dumped,
  sleeping, looping, mqi_magic, head_at, free_at,
}

-- `attr->mq_curmsgs >= attr->mq_maxmsg`
abbrev pub is_full : Queue → Bool
is_full q = leb q.maxmsg q.curmsgs

-- What a message that arrives at an empty queue does to a registration: the process is told, and
-- unregistered.
unfoldable pub notify_arrival : Queue → Queue × List Effect
notify_arrival q =
    if not (q.pid == 0) && (q.nwait == 0)
    then (
      record q { pid = 0 },
      (if q.event.by_signal then sigqueue q.pid q.event.signo q.event.value ∷ [] else []),
    )
    else (q, [])

-- The loop round pthread_cond_wait, `while (mq_curmsgs >= mq_maxmsg)`. The list holds the file as
-- each wake-up finds it; `none` is a caller that still sleeps when the list is used up.
unfoldable pub wait_room : List Queue → Queue → Option Queue
wait_room [] q = if is_full q then none else some q
wait_room (w ∷ ws) q = if is_full q then wait_room ws w else some q

-- The walk for the place: the link to change (`pmsghdr`) and the index that follows it.
-- `none` is a walk that has not ended after `fuel` steps.
unfoldable pub find_place : ℕ → (ℕ → ℕ) → (ℕ → Slot) → ℕ → (pmsghdr index : ℕ) → Option (ℕ × ℕ)
find_place zero next slot prio p i = none
find_place (suc fuel) next slot prio p i =
    let rest = find_place fuel next slot prio i (next i) in
    if i == 0 then some (p, 0) else (if ltb (slot i).prio prio then some (p, i) else rest)

-- The two stores that link the new slot `f` in, in the order of each branch.
unfoldable pub splice : (ℕ → ℕ) → (f pmsghdr index : ℕ) → ℕ → ℕ
splice next f p i = if i == 0 then update (update next p f) f 0 else update (update next f i) p f

-- memcpy of `len` bytes from `src` over the front of `dst`.
unfoldable pub memcpy : (dst src : List ℕ) → ℕ → List ℕ
memcpy dst src len = take len src ++ drop len dst

-- The free slot is taken from its list and filled.
unfoldable pub fill_slot : (ptr : List ℕ) (len prio f : ℕ) → Queue → Queue
unfolding memcpy
fill_slot ptr len prio f q = record q {
  slot = update q.slot f (record { len = len; prio = prio; body = memcpy (q.slot f).body ptr len });
  next = update q.next free_at (q.next f);
}

-- After the tests: take a free slot, fill it, link it in, signal, count. The walk visits each of
-- the `mq_maxmsg` slots at most once, so `mq_maxmsg + 1` rounds are enough.
unfoldable pub enqueue : (ptr : List ℕ) (len prio : ℕ) → Queue → List Effect → Outcome
unfolding fill_slot find_place splice
enqueue ptr len prio q es =
    if q.next free_at == 0
    then outcome dumped q es
    else let f = q.next free_at in
      let q1 = fill_slot ptr len prio f q in
      elim (find_place (q.maxmsg + 1) q1.next q1.slot prio head_at (q1.next head_at)) [
        | none ↦ outcome looping q1 es
        | some (p, i) ↦
            outcome (done 0) (record q1 { next = splice q1.next f p i; curmsgs = q.curmsgs + 1 })
              (es ++ (if q.curmsgs == 0 then cond_signal ∷ [] else []))
      ]

-- `lock` is what pthread_mutex_lock returns, and `wakes` what other processes make of the file
-- while the caller sleeps.
unfoldable pub mymq_send :
    (lock : ℕ) (wakes : List Queue) → Info → (ptr : List ℕ) (len prio : ℕ) → Queue → Outcome
mymq_send lock wakes info ptr len prio q =
    if not (info.magic == mqi_magic)
    then outcome (failed ebadf) q []
    else (if not (lock == 0)
        then outcome (failed (code lock)) q []
        else (if ltb q.msgsize len
            then outcome (failed emsgsize) q []
            else (if q.curmsgs == 0
                then (let (q', es) = notify_arrival q in enqueue ptr len prio q' es)
                else (if is_full q
                    then (if info.nonblock
                        then outcome (failed eagain) q []
                        else elim (wait_room wakes q) [
                          | none ↦ outcome sleeping q []
                          | some q' ↦ enqueue ptr len prio q' []
                        ])
                    else enqueue ptr len prio q []))))
