-- ===== src/MessageQueue/Run.antt =====
-- A process that uses a queue with O_NONBLOCK: any sequence of its calls of mymq_send and
-- mymq_receive, beside the same calls on the list of messages of the specification.
use com_tutor.Base.Errno.{emsgsize, eagain}
use com_tutor.Base.{
  ℕ, suc, ◌≤◌, ◌<◌, ◌≡◌, refl, sym, ap, ap₂, ◌∙◌, inl, inr, true, false, none, some, Option, List,
  [], ◌∷◌, arith, ltb, leb, if◌then◌else◌, length, take_all, length-take_of_le, Bool-cases,
}
use com_tutor.MessageQueue.Types.{Queue, Slot, Info, Message, Reply, done, failed, mqi_magic}
use com_tutor.MessageQueue.Spec.{insert}
use com_tutor.MessageQueue.Send.{mymq_send}
use com_tutor.MessageQueue.Receive.{mymq_receive}
use com_tutor.MessageQueue.Invariant.{messages, Holds}
use com_tutor.MessageQueue.SendCalls.{send_refines, send_full, send_too_long}
use com_tutor.MessageQueue.ReceiveCalls.{receive_refines, receive_empty, receive_too_short}

-- A call of the process: a message to send, of `length bytes` bytes, or a buffer to fill.
pub data Call : Type 0 where
  send : (prio : ℕ) (bytes : List ℕ) → Call
  receive : (maxlen : ℕ) → Call

abbrev pub Answer : Type 0
Answer = Reply × Option Message

abbrev info : Info
info = record { magic = mqi_magic; nonblock = true }

unfoldable pub call : Queue → Call → Answer × Queue
call q (send prio bytes) =
    let o = mymq_send 0 [] info bytes (length bytes) prio q in ((o.reply, none), o.queue)
call q (receive maxlen) = let o = mymq_receive 0 [] info maxlen q in ((o.0.reply, o.1), o.0.queue)

unfoldable pub run : Queue → List Call → List Answer
unfolding call
run q [] = []
run q (c ∷ cs) = let (a, q') = call q c in a ∷ run q' cs

-- The specification: at most `maxmsg` messages of at most `msgsize` bytes, in order.
module _ (maxmsg msgsize : ℕ) where
  unfoldable pub spec_call : List Message → Call → Answer × List Message
  spec_call ms (send prio bytes) =
      if ltb msgsize (length bytes)
      then ((failed emsgsize, none), ms)
      else (if leb maxmsg (length ms)
          then ((failed eagain, none), ms)
          else ((done 0, none), insert (record { prio = prio; bytes = bytes }) ms))
  spec_call [] (receive maxlen) =
      if ltb maxlen msgsize then ((failed emsgsize, none), []) else ((failed eagain, none), [])
  spec_call (m ∷ ms) (receive maxlen) =
      if ltb maxlen msgsize
      then ((failed emsgsize, none), m ∷ ms)
      else ((done (length m.bytes), some m), ms)

  unfoldable pub spec_run : List Message → List Call → List Answer
  unfolding spec_call
  spec_run ms [] = []
  spec_run ms (c ∷ cs) = let (a, ms') = spec_call ms c in a ∷ spec_run ms' cs

-- What one call does: the answer is that of the specification, and so is what the file holds after.
record Agrees (q : Queue) (spec : Answer × List Message) (r : Answer × Queue) : Type 0 where
  used : List ℕ
  free : List ℕ
  answer : r.0 ≡ spec.0
  holds : Holds r.1 used free
  sizes : (r.1.maxmsg ≡ q.maxmsg) × (r.1.msgsize ≡ q.msgsize)
  left : messages r.1.slot used ≡ spec.1

length-messages : (slot : ℕ → Slot) (used : List ℕ) → length (messages slot used) ≡ length used
length-messages slot [] = refl
length-messages slot (x ∷ xs) = ap suc (length-messages slot xs)

unchanged :
    (q : Queue) (used free : List ℕ) (a b : Answer)
    → Holds q used free
    → a ≡ b
    → Agrees q (b, messages q.slot used) (a, q)
unchanged q used free a b h e = record {
  used = used;
  free = free;
  answer = e;
  holds = h;
  sizes = (refl, refl);
  left = refl;
}

send-Agrees :
    (q : Queue) (used free : List ℕ) (prio : ℕ) (bytes : List ℕ)
    → 0 < q.maxmsg
    → Holds q used free
    → Agrees q
        (spec_call q.maxmsg q.msgsize (messages q.slot used) (send prio bytes))
        (call q (send prio bytes))
unfolding call spec_call
send-Agrees q used free prio bytes p h = elim (Bool-cases (ltb q.msgsize (length bytes))) [
  | inl long ↦
      rw (long, send_too_long [] info bytes (length bytes) prio q refl long)
        (unchanged q used free _ _ h refl)
  | inr fits ↦ rw (fits, length-messages q.slot used) (rest free h (ground arith))
]
  where
    rest :
        (free : List ℕ)
        → Holds q used free
        → length bytes ≤ q.msgsize
        → Agrees q
            (if leb q.maxmsg (length used) then ((failed eagain, none), messages q.slot used) else (
              (done 0, none),
              insert (record { prio = prio; bytes = bytes }) (messages q.slot used),
            ))
            (
              ((mymq_send 0 [] info bytes (length bytes) prio q).reply, none),
              (mymq_send 0 [] info bytes (length bytes) prio q).queue,
            )
    rest [] h fits =
        rw (send_full info bytes (length bytes) prio q used h refl fits p [] tt, full)
          (unchanged q used [] _ _ h refl)
      where
        full : leb q.maxmsg (length used) ≡ true
        full = ground (arith, h.slots)
    rest (f ∷ fs) h fits =
        let s =
          send_refines [] info bytes (length bytes) prio q used f fs h refl fits (omega arith) in
        rw room (record {
          used = s.slots;
          free = fs;
          answer = ap (λ r. (r, none)) s.reply;
          holds = s.holds;
          sizes = s.sizes;
          left =
              s.inserted
              ∙ ap (λ b. insert (record { prio = prio; bytes = b }) (messages q.slot used))
                  (take_all bytes);
        })
      where
        room : leb q.maxmsg (length used) ≡ false
        room = ground (arith, h.slots)

receive-Agrees :
    (q : Queue) (used free : List ℕ) (maxlen : ℕ)
    → Holds q used free
    → Agrees q
        (spec_call q.maxmsg q.msgsize (messages q.slot used) (receive maxlen))
        (call q (receive maxlen))
unfolding call spec_call
receive-Agrees q [] free maxlen h = elim (Bool-cases (ltb maxlen q.msgsize)) [
  | inl short ↦
      rw (short, receive_too_short [] info maxlen q refl short) (unchanged q [] free _ _ h refl)
  | inr large ↦
      rw (large, receive_empty info maxlen q h.counted refl (ground arith) [] tt)
        (unchanged q [] free _ _ h refl)
]
receive-Agrees q (i ∷ used) free maxlen h = elim (Bool-cases (ltb maxlen q.msgsize)) [
  | inl short ↦
      rw (short, receive_too_short [] info maxlen q refl short)
        (unchanged q (i ∷ used) free _ _ h refl)
  | inr large ↦
      let r = receive_refines [] info maxlen q i used free h refl (ground arith) in
      rw large (record {
        used = used;
        free = i ∷ free;
        answer =
            ap₂ {C = Answer} (λ a b. (a, b))
              (r.reply ∙ ap done (sym (length-take_of_le _ _ h.fits.0.1))) r.given;
        holds = r.holds;
        sizes = r.sizes;
        left = r.left;
      })
]

call-Agrees :
    (q : Queue) (used free : List ℕ) (c : Call)
    → 0 < q.maxmsg
    → Holds q used free
    → Agrees q (spec_call q.maxmsg q.msgsize (messages q.slot used) c) (call q c)
call-Agrees q used free (send prio bytes) p h = send-Agrees q used free prio bytes p h
call-Agrees q used free (receive maxlen) p h = receive-Agrees q used free maxlen h

-- The mapped file behaves as the list of its messages: from any file that holds its two lists,
-- any sequence of calls gets the answers of the specification.
pub run_refines :
    (cs : List Call) (q : Queue) (used free : List ℕ)
    → 0 < q.maxmsg
    → Holds q used free
    → run q cs ≡ spec_run q.maxmsg q.msgsize (messages q.slot used) cs
unfolding run spec_run
run_refines [] q used free p h = refl
run_refines (c ∷ cs) q used free p h =
    let a = call-Agrees q used free c p h in
    ap₂ (λ x r. x ∷ r) a.answer
      (run_refines cs (call q c).1 a.used a.free (rw (a.sizes.0) p) a.holds ∙ λ i.
        spec_run (a.sizes.0 i) (a.sizes.1 i) (a.left i) cs)
