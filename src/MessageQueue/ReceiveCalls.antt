-- ===== src/MessageQueue/ReceiveCalls.antt =====
-- What mymq_receive returns in every case, and what it does to the file.
use com_tutor.Base.Errno.{Errno, emsgsize, eagain}
use com_tutor.Base.{
  ℕ, ◌+◌, ◌-◌, ◌≤◌, ◌≡◌, refl, sym, subst, inl, inr, true, false, none, some, List, [], ◌∷◌, ◌++◌,
  arith, ltb, ◌==◌, if◌then◌else◌, All, Bool-cases, eq→==, le→ltb,
}
use com_tutor.MessageQueue.Types.{Queue, Info, outcome, failed, sleeping, mqi_magic}
use com_tutor.MessageQueue.Receive.{wait_message, dequeue, mymq_receive}
use com_tutor.MessageQueue.Invariant.{Holds, Holds-control}
use com_tutor.MessageQueue.ReceiveLaws.{Received, dequeue-Received}

dequeue_refines :
    (q : Queue) (i : ℕ) (used free : List ℕ)
    → Holds q (i ∷ used) free
    → Received q i used free (dequeue q)
dequeue_refines q i used free h =
    subst (λ x. Received q x used free (dequeue q)) h.used_links.0
      (dequeue-Received q used free (subst (λ x. Holds q (x ∷ used) free) (sym h.used_links.0) h))

-- A receive with a large enough buffer, from a queue that is not empty, takes the first message.
pub receive_refines :
    (wakes : List Queue) (info : Info) (maxlen : ℕ) (q : Queue) (i : ℕ) (used free : List ℕ)
    → Holds q (i ∷ used) free
    → info.magic ≡ mqi_magic
    → q.msgsize ≤ maxlen
    → Received q i used free (mymq_receive 0 wakes info maxlen q)
unfolding mymq_receive
receive_refines wakes info maxlen q i used free h magic large =
    rw (eq→== info.magic mqi_magic magic, le→ltb maxlen q.msgsize large, not_empty)
      (dequeue_refines q i used free h)
  where
    not_empty : (q.curmsgs == 0) ≡ false
    not_empty = ground (arith, h.counted)

pub receive_too_short :
    (wakes : List Queue) (info : Info) (maxlen : ℕ) (q : Queue)
    → info.magic ≡ mqi_magic
    → ltb maxlen q.msgsize ≡ true
    → mymq_receive 0 wakes info maxlen q ≡ (outcome (failed emsgsize) q [], none)
unfolding mymq_receive
receive_too_short wakes info maxlen q magic short =
    rw (eq→== info.magic mqi_magic magic, short) refl

abbrev IsEmpty : Queue → Type 0
IsEmpty q = (q.curmsgs == 0) ≡ true

wait_message_first :
    (ws : List Queue) (q w : Queue) (rest : List Queue)
    → IsEmpty q
    → All IsEmpty ws
    → (w.curmsgs == 0) ≡ false
    → wait_message (ws ++ w ∷ rest) q ≡ some w
unfolding wait_message
wait_message_first [] q w [] empty all there = rw (empty, there) refl
wait_message_first [] q w (v ∷ vs) empty all there = rw (empty, there) refl
wait_message_first (v ∷ vs) q w rest empty all there =
    rw empty (wait_message_first vs v w rest all.0 all.1 there)

wait_message-none :
    (ws : List Queue) (q : Queue) → IsEmpty q → All IsEmpty ws → wait_message ws q ≡ none
unfolding wait_message
wait_message-none [] q empty all = rw empty refl
wait_message-none (v ∷ vs) q empty all = rw empty (wait_message-none vs v all.0 all.1)

module _ (info : Info) (maxlen : ℕ) (q : Queue) (empty : q.curmsgs ≡ 0)
    (magic : info.magic ≡ mqi_magic) (large : q.msgsize ≤ maxlen) where
  tests : (ws : List Queue) → All (λ v. v.curmsgs ≡ 0) ws → All IsEmpty ws
  tests [] a = tt
  tests (w ∷ ws) a = (eq→== w.curmsgs 0 a.0, tests ws a.1)

  -- An empty queue: EAGAIN if the descriptor has O_NONBLOCK, and the file stays as it was; if not,
  -- the caller is counted in `mqh_nwait` and sleeps while the queue is empty each time it wakes.
  pub receive_empty :
      (wakes : List Queue)
      → All (λ v. v.curmsgs ≡ 0) wakes
      → mymq_receive 0 wakes info maxlen q ≡ (
          if info.nonblock
          then (outcome (failed eagain) q [], none)
          else (outcome sleeping (record q { nwait = q.nwait + 1 }) [], none))
  unfolding mymq_receive
  receive_empty wakes all =
      rw
        (
          eq→== info.magic mqi_magic magic,
          le→ltb maxlen q.msgsize large,
          eq→== q.curmsgs 0 empty,
          wait_message-none wakes (record q { nwait = q.nwait + 1 }) (eq→== q.curmsgs 0 empty)
              (tests wakes all),
        )
        (elim (Bool-cases info.nonblock) [ inl t ↦ rw t refl | inr t ↦ rw t refl ])

  -- A receiver that sleeps takes the first message of the first state in which it wakes to a queue
  -- that is not empty, and is no longer counted in `mqh_nwait`.
  pub receive_woken :
      (ws : List Queue) (w : Queue) (rest : List Queue) (i : ℕ) (others free : List ℕ)
      → info.nonblock ≡ false
      → All (λ v. v.curmsgs ≡ 0) ws
      → Holds w (i ∷ others) free
      → Received w i others free (mymq_receive 0 (ws ++ w ∷ rest) info maxlen q)
        × ((mymq_receive 0 (ws ++ w ∷ rest) info maxlen q).0.queue.nwait ≡ w.nwait - 1)
  unfolding mymq_receive dequeue
  receive_woken ws w rest i others free block all h =
      rw
        (
          eq→== info.magic mqi_magic magic,
          le→ltb maxlen q.msgsize large,
          eq→== q.curmsgs 0 empty,
          block,
          wait_message_first ws (record q { nwait = q.nwait + 1 }) w rest (eq→== q.curmsgs 0 empty)
              (tests ws all) (ground (arith, h.counted)),
        )
        (Received_of_nwait, nwait_kept)
    where
      w' : Queue
      w' = record w { nwait = w.nwait - 1 }

      r : Received w' i others free (dequeue w')
      r =
          dequeue_refines w' i others free
            (Holds-control w (i ∷ others) free (w.nwait - 1) w.pid w.event h)

      Received_of_nwait : Received w i others free (dequeue w')
      Received_of_nwait = record {
        reply = r.reply;
        given = r.given;
        holds = r.holds;
        sizes = r.sizes;
        left = r.left;
      }

      nwait_kept : (dequeue w').0.queue.nwait ≡ w.nwait - 1
      nwait_kept = ground arith

-- A call that fails leaves the file as it was, signals nobody and gives no message.
pub receive_failed_unchanged :
    (lock : ℕ) (wakes : List Queue) (info : Info) (maxlen : ℕ) (q : Queue) (e : Errno)
    → (mymq_receive lock wakes info maxlen q).0.reply ≡ failed e
    → mymq_receive lock wakes info maxlen q ≡ (outcome (failed e) q [], none)
unfolding mymq_receive dequeue
receive_failed_unchanged lock wakes info maxlen q e h = ground arith
