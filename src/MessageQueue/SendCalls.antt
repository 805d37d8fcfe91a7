-- ===== src/MessageQueue/SendCalls.antt =====
-- What mymq_send returns in every case, and what it does to the file.
use com_tutor.Base.Errno.{Errno, ebadf, emsgsize, eagain, code}
use com_tutor.Base.{
  ℕ, ◌≤◌, ◌<◌, ◌≡◌, ◌≢◌, refl, sym, ap, subst, ◌∙◌, inl, inr, true, false, none, some, not, Bool,
  List, [], ◌∷◌, ◌++◌, arith, ltb, leb, ◌==◌, if◌then◌else◌, All, length, take, Bool-cases, eq→==,
  le→ltb,
}
use com_tutor.MessageQueue.Types.{
  Queue, Info, Message, Effect, cond_signal, Outcome, outcome, failed, sleeping, mqi_magic,
}
use com_tutor.MessageQueue.Spec.{insert, IsOrdered, insert-IsOrdered, of_prio, of_prio-insert}
use com_tutor.MessageQueue.Send.{is_full, notify_arrival, wait_room, enqueue, mymq_send}
use com_tutor.MessageQueue.Invariant.{messages, Holds}
use com_tutor.MessageQueue.SendLaws.{Sent, enqueue-Sent, enqueue_sends, notify_arrival-Holds}

enqueue_refines :
    (ptr : List ℕ) (len prio : ℕ) (q : Queue) (used : List ℕ) (f : ℕ) (fs : List ℕ)
    (es : List Effect)
    → Holds q used (f ∷ fs)
    → len ≤ q.msgsize
    → len ≤ length ptr
    → Sent q used fs (record { prio = prio; bytes = take len ptr }) (enqueue ptr len prio q es)
enqueue_refines ptr len prio q used f fs es h small given =
    enqueue-Sent ptr len prio q used fs es
      (subst (λ x. Holds q used (x ∷ fs)) (sym h.free_links.0) h) small given

pub enqueue_effects :
    (ptr : List ℕ) (len prio : ℕ) (q : Queue) (used : List ℕ) (f : ℕ) (fs : List ℕ)
    (es : List Effect)
    → Holds q used (f ∷ fs)
    → len ≤ q.msgsize
    → len ≤ length ptr
    → ((enqueue ptr len prio q es).sent ≡ es ++ (if q.curmsgs == 0 then cond_signal ∷ [] else []))
      × ((enqueue ptr len prio q es).queue.pid ≡ q.pid)
enqueue_effects ptr len prio q used f fs es h small given =
    enqueue_sends ptr len prio q used fs es
      (subst (λ x. Holds q used (x ∷ fs)) (sym h.free_links.0) h) small given

notify_arrival_keeps :
    (q : Queue)
    → ((notify_arrival q).0.slot ≡ q.slot)
      × ((notify_arrival q).0.maxmsg ≡ q.maxmsg)
      × ((notify_arrival q).0.msgsize ≡ q.msgsize)
unfolding notify_arrival
notify_arrival_keeps q = (ground arith, ground arith, ground arith)

Sent-of_slot :
    (p q : Queue) (used fs : List ℕ) (m : Message) (o : Outcome)
    → (p.slot ≡ q.slot) × (p.maxmsg ≡ q.maxmsg) × (p.msgsize ≡ q.msgsize)
    → Sent p used fs m o
    → Sent q used fs m o
Sent-of_slot p q used fs m o e s = record {
  slots = s.slots;
  reply = s.reply;
  holds = s.holds;
  sizes = (s.sizes.0 ∙ e.1, s.sizes.1 ∙ e.2);
  inserted = s.inserted ∙ ap (λ slot. insert m (messages slot used)) e.0;
}

-- A message that fits, sent to a queue with a free slot, goes where the specification puts it.
-- The caller does not sleep, and the walk ends.
pub send_refines :
    (wakes : List Queue) (info : Info) (ptr : List ℕ) (len prio : ℕ) (q : Queue) (used : List ℕ)
    (f : ℕ) (fs : List ℕ)
    → Holds q used (f ∷ fs)
    → info.magic ≡ mqi_magic
    → len ≤ q.msgsize
    → len ≤ length ptr
    → Sent q used fs
        (record { prio = prio; bytes = take len ptr })
        (mymq_send 0 wakes info ptr len prio q)
unfolding mymq_send
send_refines wakes info ptr len prio q used f fs h magic small given =
    rw (eq→== info.magic mqi_magic magic, le→ltb q.msgsize len small)
      (elim (Bool-cases (q.curmsgs == 0)) [
        | inl t ↦ rw t (
            Sent-of_slot (notify_arrival q).0 q used fs _ _ (notify_arrival_keeps q) (
              enqueue_refines ptr len prio (notify_arrival q).0 used f fs (notify_arrival q).1
                (notify_arrival-Holds q used (f ∷ fs) h) (rw ((notify_arrival_keeps q).2) small)
                given))
        | inr t ↦ rw (t, room) (enqueue_refines ptr len prio q used f fs [] h small given)
      ])
  where
    room : leb q.maxmsg q.curmsgs ≡ false
    room = ground (arith, h.slots, h.counted)

-- If the messages stand in order of priority before, they do so after, and for each priority the
-- new message stands behind the messages of that priority.
pub send_in_order :
    (wakes : List Queue) (info : Info) (ptr : List ℕ) (len prio : ℕ) (q : Queue) (used : List ℕ)
    (f : ℕ) (fs : List ℕ)
    → Holds q used (f ∷ fs)
    → info.magic ≡ mqi_magic
    → len ≤ q.msgsize
    → len ≤ length ptr
    → IsOrdered (messages q.slot used)
    → let o = mymq_send 0 wakes info ptr len prio q in
      (slots : List ℕ) × Holds o.queue slots fs
      × IsOrdered (messages o.queue.slot slots)
      × ((p : ℕ)
          → of_prio p (messages o.queue.slot slots)
            ≡ of_prio p (messages q.slot used)
              ++ of_prio p (record { prio = prio; bytes = take len ptr } ∷ []))
send_in_order wakes info ptr len prio q used f fs h magic small given order =
    let s = send_refines wakes info ptr len prio q used f fs h magic small given in
    (
      s.slots,
      s.holds,
      subst IsOrdered (sym s.inserted) (insert-IsOrdered _ _ order),
      λ p. ap (of_prio p) s.inserted ∙ of_prio-insert p _ _ order,
    )

pub send_too_long :
    (wakes : List Queue) (info : Info) (ptr : List ℕ) (len prio : ℕ) (q : Queue)
    → info.magic ≡ mqi_magic
    → ltb q.msgsize len ≡ true
    → mymq_send 0 wakes info ptr len prio q ≡ outcome (failed emsgsize) q []
unfolding mymq_send
send_too_long wakes info ptr len prio q magic long =
    rw (eq→== info.magic mqi_magic magic, long) refl

-- The loop round pthread_cond_wait passes over every state in which the queue is still full.
wait_room_first :
    (ws : List Queue) (q w : Queue) (rest : List Queue)
    → is_full q ≡ true
    → All (λ v. is_full v ≡ true) ws
    → is_full w ≡ false
    → wait_room (ws ++ w ∷ rest) q ≡ some w
unfolding wait_room
wait_room_first [] q w [] full fulls room = rw (full, room) refl
wait_room_first [] q w (v ∷ vs) full fulls room = rw (full, room) refl
wait_room_first (v ∷ vs) q w rest full fulls room =
    rw full (wait_room_first vs v w rest fulls.0 fulls.1 room)

wait_room-none :
    (ws : List Queue) (q : Queue)
    → is_full q ≡ true
    → All (λ v. is_full v ≡ true) ws
    → wait_room ws q ≡ none
unfolding wait_room
wait_room-none [] q full fulls = rw full refl
wait_room-none (v ∷ vs) q full fulls = rw full (wait_room-none vs v fulls.0 fulls.1)

module _ (info : Info) (ptr : List ℕ) (len prio : ℕ) (q : Queue) (used : List ℕ)
    (h : Holds q used []) (magic : info.magic ≡ mqi_magic) (small : len ≤ q.msgsize)
    (some_slot : 0 < q.maxmsg) where
  full : is_full q ≡ true
  full = ground (arith, h.slots, h.counted)

  not_empty : (q.curmsgs == 0) ≡ false
  not_empty = ground (arith, h.slots, h.counted)

  -- A full queue: EAGAIN if the descriptor has O_NONBLOCK; if not, the caller sleeps for as long as
  -- the queue is full each time that it wakes. In both cases the file is left as it was.
  pub send_full :
      (wakes : List Queue)
      → All (λ v. is_full v ≡ true) wakes
      → mymq_send 0 wakes info ptr len prio q
        ≡ outcome (if info.nonblock then failed eagain else sleeping) q []
  unfolding mymq_send
  send_full wakes fulls =
      rw
        (
          eq→== info.magic mqi_magic magic,
          le→ltb q.msgsize len small,
          not_empty,
          full,
          wait_room-none wakes q full fulls,
        )
        (elim (Bool-cases info.nonblock) [ inl t ↦ rw t refl | inr t ↦ rw t refl ])

  -- A sender that sleeps goes on from the first state in which it wakes to a queue with a free
  -- slot, and its message goes into that state as the specification says.
  pub send_woken :
      (ws : List Queue) (w : Queue) (rest : List Queue) (others : List ℕ) (f : ℕ) (fs : List ℕ)
      → info.nonblock ≡ false
      → All (λ v. is_full v ≡ true) ws
      → Holds w others (f ∷ fs)
      → len ≤ w.msgsize
      → len ≤ length ptr
      → Sent w others fs
          (record { prio = prio; bytes = take len ptr })
          (mymq_send 0 (ws ++ w ∷ rest) info ptr len prio q)
  unfolding mymq_send
  send_woken ws w rest others f fs block fulls hw small' given =
      rw
        (
          eq→== info.magic mqi_magic magic,
          le→ltb q.msgsize len small,
          not_empty,
          full,
          block,
          wait_room_first ws q w rest full fulls (ground (arith, hw.slots, hw.counted)),
        )
        (enqueue_refines ptr len prio w others f fs [] hw small' given)

enqueue_never_fails :
    (ptr : List ℕ) (len prio : ℕ) (q : Queue) (es : List Effect) (e : Errno)
    → (enqueue ptr len prio q es).reply ≢ failed e
unfolding enqueue
enqueue_never_fails ptr len prio q es e h = ground arith

abbrev Unchanged : Queue → Errno → Outcome → Type 0
Unchanged q e o = o.reply ≡ failed e → o ≡ outcome (failed e) q []

if_Unchanged :
    (q : Queue) (e : Errno) (b : Bool) (x y : Outcome)
    → Unchanged q e x
    → Unchanged q e y
    → Unchanged q e (if b then x else y)
if_Unchanged q e true x y hx hy = hx
if_Unchanged q e false x y hx hy = hy

enqueue-Unchanged :
    (ptr : List ℕ) (len prio : ℕ) (q q' : Queue) (es : List Effect) (e : Errno)
    → Unchanged q e (enqueue ptr len prio q' es)
enqueue-Unchanged ptr len prio q q' es e h = absurd (enqueue_never_fails ptr len prio q' es e h)

-- A call that fails leaves the file as it was and signals nobody, whatever the file holds.
pub send_failed_unchanged :
    (lock : ℕ) (wakes : List Queue) (info : Info) (ptr : List ℕ) (len prio : ℕ) (q : Queue)
    (e : Errno)
    → (mymq_send lock wakes info ptr len prio q).reply ≡ failed e
    → mymq_send lock wakes info ptr len prio q ≡ outcome (failed e) q []
unfolding mymq_send
send_failed_unchanged lock wakes info ptr len prio q e =
    step (not (info.magic == mqi_magic)) _ _ (refused ebadf) (
      step (not (lock == 0)) _ _ (refused (code lock)) (
        step (ltb q.msgsize len) _ _ (refused emsgsize) (
          step (q.curmsgs == 0) _ _
            (enqueue-Unchanged ptr len prio q (notify_arrival q).0 (notify_arrival q).1 e)
            (step (is_full q) _ _
              (step info.nonblock _ _ (refused eagain)
                (elim (wait_room wakes q)
                  as (λ o. Unchanged q e (elim o [
                    | none ↦ outcome sleeping q []
                    | some q' ↦ enqueue ptr len prio q' []
                  ])) [ none ↦ λ h. cc | some w ↦ enqueue-Unchanged ptr len prio q w [] e ]))
              (enqueue-Unchanged ptr len prio q q [] e)))))
  where
    step :
        (b : Bool) (x y : Outcome)
        → Unchanged q e x
        → Unchanged q e y
        → Unchanged q e (if b then x else y)
    step = if_Unchanged q e

    refused : (x : Errno) → Unchanged q e (outcome (failed x) q [])
    refused x h = ap (λ r. outcome r q []) h
