-- ===== src/MessageQueue/ControlLaws.antt =====
-- Attributes, notification and close, against the other calls.
use com_tutor.Base.Errno.{ebadf, ebusy}
use com_tutor.Base.{
  ℕ, ◌≤◌, ◌≡◌, ◌≢◌, refl, ◌∙◌, inl, inr, ◌⊎◌, Bool, true, false, Option, none, some, List, [], ◌∷◌,
  ◌++◌, arith, ◌==◌, if◌then◌else◌, length, Bool-cases, eq→==, ==→eq, sym, le→ltb, subst, ap,
}
use com_tutor.MessageQueue.Types.{
  Queue, Info, Event, Effect, cond_signal, sigqueue, outcome, done, failed, mqi_magic,
}
use com_tutor.MessageQueue.Send.{notify_arrival, enqueue, mymq_send}
use com_tutor.MessageQueue.Receive.{mymq_receive}
use com_tutor.MessageQueue.Control.{mymq_getattr, mymq_setattr, mymq_notify, filesize, mymq_close}
use com_tutor.MessageQueue.Invariant.{Holds, Holds-control}
use com_tutor.MessageQueue.SendCalls.{enqueue_effects}

-- A close that succeeds clears the magic number and unregisters its own process, no other.
pub close_clears :
    (hdr_size lock self : ℕ) (exists : ℕ → Bool) (unmap : ℕ → Option ℕ) (info info' : Info)
    (q q' : Queue)
    → mymq_close hdr_size lock self exists unmap info q ≡ (done 0, info', q')
    → (info'.magic ≡ 0)
      × (q' ≡ (if q.pid == self then record q { pid = 0 } else q))
      × (unmap (filesize hdr_size q.maxmsg q.msgsize) ≡ none)
unfolding mymq_close mymq_notify
close_clears hdr_size lock self exists unmap info info' q q' h =
    (ground arith, ground arith, ground arith)

-- Each call on the descriptor is refused with EBADF, and changes nothing.
pub record IsRefused (hdr_size lock self : ℕ) (exists : ℕ → Bool) (unmap : ℕ → Option ℕ)
    (info : Info) (q : Queue) : Type 0 where
  pub on_send :
      (wakes : List Queue) (ptr : List ℕ) (len prio : ℕ)
      → mymq_send lock wakes info ptr len prio q ≡ outcome (failed ebadf) q []
  pub on_receive :
      (wakes : List Queue) (maxlen : ℕ)
      → mymq_receive lock wakes info maxlen q ≡ (outcome (failed ebadf) q [], none)
  pub on_getattr : mymq_getattr lock info q ≡ (failed ebadf, none)
  pub on_setattr :
      (wanted old : Bool) → mymq_setattr lock wanted old info q ≡ (failed ebadf, none, info)
  pub on_notify : (e : Option Event) → mymq_notify lock self exists info e q ≡ (failed ebadf, q)
  pub on_close : mymq_close hdr_size lock self exists unmap info q ≡ (failed ebadf, info, q)

-- After a close that succeeds, every further call on the descriptor is refused with EBADF and
-- changes nothing, whatever the file holds by then.
pub closed-IsRefused :
    (hdr_size lock self : ℕ) (exists : ℕ → Bool) (unmap : ℕ → Option ℕ) (info info' : Info)
    (q q' : Queue)
    → mymq_close hdr_size lock self exists unmap info q ≡ (done 0, info', q')
    → (lock' : ℕ) (p : Queue) → IsRefused hdr_size lock' self exists unmap info' p
unfolding mymq_send mymq_receive mymq_getattr mymq_setattr mymq_notify mymq_close
closed-IsRefused hdr_size lock self exists unmap info info' q q' h lock' p = record {
  on_send = λ wakes ptr len prio. rw bad refl;
  on_receive = λ wakes maxlen. rw bad refl;
  on_getattr = rw bad refl;
  on_setattr = λ wanted old. rw bad refl;
  on_notify = refused_notify;
  on_close = rw bad refl;
}
  where
    bad : (info'.magic == mqi_magic) ≡ false
    bad = rw ((close_clears hdr_size lock self exists unmap info info' q q' h).0) refl

    refused_notify :
        (e : Option Event) → mymq_notify lock' self exists info' e p ≡ (failed ebadf, p)
    refused_notify none = rw bad refl
    refused_notify (some e) = rw bad refl

-- The attributes after a change: the flag is the new one, the sizes and the count are those of the
-- file, and the old attributes are what getattr gave before.
pub getattr-setattr :
    (wanted : Bool) (info : Info) (q : Queue)
    → info.magic ≡ mqi_magic
    → let r = mymq_setattr 0 wanted true info q in
      (r.0 ≡ done 0)
      × ((done 0, r.1) ≡ mymq_getattr 0 info q)
      × (mymq_getattr 0 r.2 q ≡ (
        done 0,
        some (record {
          nonblock = wanted;
          maxmsg = q.maxmsg;
          msgsize = q.msgsize;
          curmsgs = q.curmsgs;
        }),
      ))
unfolding mymq_setattr mymq_getattr
getattr-setattr wanted info q magic =
    rw (eq→== info.magic mqi_magic magic) (refl, refl, rw (eq→== info.magic mqi_magic magic) refl)

-- Registration: it is refused with EBUSY exactly if another registration stands whose process
-- exists; a refusal changes nothing, and a success leaves the caller registered.
pub notify_registers :
    (self : ℕ) (exists : ℕ → Bool) (info : Info) (e : Event) (q : Queue)
    → info.magic ≡ mqi_magic
    → ((q.pid ≢ 0)
        × (exists q.pid ≡ true)
        × (mymq_notify 0 self exists info (some e) q ≡ (failed ebusy, q)))
      ⊎ (((q.pid ≡ 0) ⊎ (exists q.pid ≡ false))
          × (mymq_notify 0 self exists info (some e) q
              ≡ (done 0, record q { pid = self; event = e })))
unfolding mymq_notify
notify_registers self exists info e q magic = elim (Bool-cases (q.pid == 0)) [
  | inl t ↦ inr (inl (==→eq _ _ t), rw (eq→== info.magic mqi_magic magic, t) refl)
  | inr t ↦ elim (Bool-cases (exists q.pid)) [
    | inl u ↦
        inl
          ((λ z. cc (sym t ∙ eq→== q.pid 0 z)), u, rw (eq→== info.magic mqi_magic magic, t, u) refl)
    | inr u ↦ inr (inr u, rw (eq→== info.magic mqi_magic magic, t, u) refl)
  ]
]

send_to_empty :
    (wakes : List Queue) (info : Info) (ptr : List ℕ) (len prio : ℕ) (q : Queue)
    → info.magic ≡ mqi_magic
    → len ≤ q.msgsize
    → q.curmsgs ≡ 0
    → mymq_send 0 wakes info ptr len prio q
      ≡ enqueue ptr len prio (notify_arrival q).0 (notify_arrival q).1
unfolding mymq_send
send_to_empty wakes info ptr len prio q magic small empty =
    rw (eq→== info.magic mqi_magic magic, le→ltb q.msgsize len small, eq→== q.curmsgs 0 empty) refl

arrival_signals :
    (q : Queue)
    → q.nwait ≡ 0
    → q.pid ≢ 0
    → q.event.by_signal ≡ true
    → notify_arrival q ≡ (record q { pid = 0 }, sigqueue q.pid q.event.signo q.event.value ∷ [])
unfolding notify_arrival
arrival_signals q nobody reg by = ground arith

-- A message that comes to an empty queue while nobody waits in mymq_receive: the registered process
-- gets its signal, once, since the registration is gone after it; and one sleeper is woken.
pub notify_once :
    (wakes : List Queue) (info : Info) (ptr : List ℕ) (len prio : ℕ) (q : Queue) (f : ℕ)
    (fs : List ℕ)
    → Holds q [] (f ∷ fs)
    → info.magic ≡ mqi_magic
    → len ≤ q.msgsize
    → len ≤ length ptr
    → q.nwait ≡ 0
    → q.pid ≢ 0
    → q.event.by_signal ≡ true
    → let o = mymq_send 0 wakes info ptr len prio q in
      (o.sent ≡ sigqueue q.pid q.event.signo q.event.value ∷ cond_signal ∷ []) × (o.queue.pid ≡ 0)
notify_once wakes info ptr len prio q f fs h magic small given nobody reg by =
    subst (λ o. (o.sent ≡ signal ∷ cond_signal ∷ []) × (o.queue.pid ≡ 0))
      (sym (
        send_to_empty wakes info ptr len prio q magic small h.counted
        ∙ ap (λ (r : Queue × List Effect). enqueue ptr len prio r.0 r.1)
            (arrival_signals q nobody reg by)))
      (effects.0 ∙ counted, effects.1)
  where
    signal : Effect
    signal = sigqueue q.pid q.event.signo q.event.value

    unregistered : Queue
    unregistered = record q { pid = 0 }

    effects :
        ((enqueue ptr len prio unregistered (signal ∷ [])).sent
          ≡ (signal ∷ []) ++ (if q.curmsgs == 0 then cond_signal ∷ [] else []))
        × ((enqueue ptr len prio unregistered (signal ∷ [])).queue.pid ≡ 0)
    effects =
        enqueue_effects ptr len prio unregistered [] f fs _
          (Holds-control q [] (f ∷ fs) q.nwait 0 q.event h) small given

    counted :
        (signal ∷ []) ++ (if q.curmsgs == 0 then cond_signal ∷ [] else [])
        ≡ signal ∷ cond_signal ∷ []
    counted = rw (eq→== q.curmsgs 0 h.counted) refl
