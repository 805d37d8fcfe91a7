-- ===== src/MessageQueue/SendLaws.antt =====
-- mymq_send puts its message where the specification puts it.
use com_tutor.Base.{
  ℕ, ◌+◌, ◌≤◌, ◌≡◌, ◌≢◌, refl, sym, ap, ap₂, subst, ◌∙◌, inl, inr, ◌&&◌, not, List, [], ◌∷◌, ◌++◌,
  arith, ◌==◌, if◌then◌else◌, update, update_at, update_off, All, All-mono, length, take, drop,
  take-append_take, length-append, length-take_of_le, Bool-cases, ne→==,
}
use com_tutor.Base.Distinct.{NotIn, Apart, NotIn-head, Apart-tail, Apart-symm}
use com_tutor.MessageQueue.Types.{
  Queue, Slot, Message, Effect, cond_signal, Outcome, outcome, done, head_at, free_at,
}
use com_tutor.MessageQueue.Spec.{insert}
use com_tutor.MessageQueue.Send.{notify_arrival, splice, memcpy, fill_slot, enqueue}
use com_tutor.MessageQueue.Links.{
  Linked, Linked-frame, Linked-update, insert_slot, Inserted, insert_links,
}
use com_tutor.MessageQueue.Invariant.{
  message, messages, Holds, Holds-control, All-insert_slot, Distinct-insert_slot,
  length-insert_slot, messages-insert_slot, messages-update,
}

-- What a completed send leaves: the message inserted, one free slot less.
pub record Sent (q : Queue) (used fs : List ℕ) (m : Message) (o : Outcome) : Type 0 where
  pub slots : List ℕ
  pub reply : o.reply ≡ done 0
  pub holds : Holds o.queue slots fs
  pub sizes : (o.queue.maxmsg ≡ q.maxmsg) × (o.queue.msgsize ≡ q.msgsize)
  pub inserted : messages o.queue.slot slots ≡ insert m (messages q.slot used)

free_links_kept :
    (n m : ℕ → ℕ) (f : ℕ) (used ys : List ℕ)
    → ((z : ℕ) → z ≢ f → NotIn z used → m z ≡ update n free_at (n f) z)
    → NotIn f ys
    → NotIn free_at ys
    → Apart ys used
    → All (λ y. m y ≡ n y) ys
free_links_kept n m f used [] same a b c = tt
free_links_kept n m f used (y ∷ ys) same a b c = (
  same y (λ e. a.0 (sym e)) c.0 ∙ update_off n free_at (n f) y b.0,
  free_links_kept n m f used ys same a.1 b.1 c.1,
)

module _ (ptr : List ℕ) (len prio : ℕ) (q : Queue) (used fs : List ℕ) (es : List Effect)
    (h : Holds q used (q.next free_at ∷ fs)) (small : len ≤ q.msgsize)
    (given : len ≤ length ptr) where
  abbrev f : ℕ
  f = q.next free_at

  abbrev q1 : Queue
  q1 = fill_slot ptr len prio f q

  new_not_used : NotIn f used
  new_not_used = NotIn-head f fs used (Apart-tail free_at (f ∷ fs) used h.apart.1)

  free_at_not_used : NotIn free_at used
  free_at_not_used = NotIn-head free_at (f ∷ fs) used h.apart.1

  ins : Inserted q1.slot prio f q1.next (q.maxmsg + 1) head_at used
  unfolding fill_slot
  ins =
      insert_links _ _ _ _ (q.maxmsg + 1) head_at used (omega (arith, h.slots))
        (Linked-update q.next free_at (q.next f) head_at used (omega arith) free_at_not_used
          h.used_links)
        h.apart.0.1.0 new_not_used h.used_distinct h.free_links.1

  abbrev q2 : Queue
  q2 = record q1 { next = splice q1.next f ins.place ins.after; curmsgs = q.curmsgs + 1 }

  abbrev slots : List ℕ
  slots = insert_slot q1.slot prio f used

  enqueue_result :
      enqueue ptr len prio q es
      ≡ outcome (done 0) q2 (es ++ (if q.curmsgs == 0 then cond_signal ∷ [] else []))
  unfolding enqueue
  enqueue_result = rw (ne→== f 0 h.free_links.1, ins.found) refl

  free_links_after : Linked q2.next free_at fs
  unfolding fill_slot
  free_links_after =
      Linked-frame q.next q2.next f free_at fs
        (ins.rest free_at h.free_distinct.0.0 (omega arith, free_at_not_used)
          ∙ update_at q.next free_at (q.next f))
        (free_links_kept q.next q2.next f (head_at ∷ used) fs ins.rest h.free_distinct.1.0
          h.free_distinct.0.1
          (Apart-symm (head_at ∷ used) fs (
            Apart-tail f fs (head_at ∷ used)
              (Apart-tail free_at (f ∷ fs) (head_at ∷ used) h.apart))))
        h.free_links.2

  abbrev Fits : ℕ → Type 0
  Fits i = ((q1.slot i).len ≤ q.msgsize) × ((q1.slot i).len ≤ length (q1.slot i).body)

  new_fits : len ≤ length (memcpy (q.slot f).body ptr len)
  unfolding memcpy
  new_fits = omega (
    arith,
    length-append (take len ptr) (drop len (q.slot f).body),
    length-take_of_le len ptr given,
  )

  old-Fits : All Fits used
  unfolding fill_slot
  old-Fits = All-mono _ Fits used (λ i e. ground (arith, new_fits)) h.fits

  enqueue_Holds : Holds q2 slots fs
  unfolding fill_slot
  enqueue_Holds = record {
    used_links = ins.linked;
    free_links = free_links_after;
    used_distinct = (
      All-insert_slot q1.slot prio f (λ y. head_at ≢ y) used h.apart.0.1.0 h.used_distinct.0,
      Distinct-insert_slot q1.slot prio f used new_not_used h.used_distinct.1,
    );
    free_distinct = (h.free_distinct.0.1, h.free_distinct.1.1);
    apart = (
      (h.apart.0.0, h.apart.0.1.1),
      All-insert_slot q1.slot prio f (λ x. NotIn x (free_at ∷ fs)) used
          ((λ e. h.free_distinct.0.0 (sym e)), h.free_distinct.1.0)
          (All-mono (λ x. NotIn x (free_at ∷ f ∷ fs)) _ used (λ x a. (a.0, a.1.1)) h.apart.1),
    );
    counted = omega (arith, h.counted, length-insert_slot q1.slot prio f used);
    slots = omega (arith, h.slots, length-insert_slot q1.slot prio f used);
    fits = All-insert_slot q1.slot prio f Fits used (ground (arith, new_fits)) old-Fits;
  }

  enqueue_messages :
      messages q2.slot slots
      ≡ insert (record { prio = prio; bytes = take len ptr }) (messages q.slot used)
  unfolding fill_slot memcpy
  enqueue_messages =
      messages-insert_slot q1.slot prio f used (ground arith)
      ∙ ap₂ insert
          (ap (λ (c : Slot). message (λ _. c) f) (update_at q.slot f _)
            ∙ ap (λ b. record { prio = prio; bytes = b })
                (take-append_take len ptr (drop len (q.slot f).body) given))
          (messages-update q.slot f _ used new_not_used)

  pub enqueue-Sent :
      Sent q used fs (record { prio = prio; bytes = take len ptr }) (enqueue ptr len prio q es)
  unfolding fill_slot
  enqueue-Sent =
      subst (Sent q used fs (record { prio = prio; bytes = take len ptr })) (sym enqueue_result)
        (record {
          slots = slots;
          reply = refl;
          holds = enqueue_Holds;
          sizes = (refl, refl);
          inserted = enqueue_messages;
        })

  pub enqueue_sends :
      ((enqueue ptr len prio q es).sent ≡ es ++ (if q.curmsgs == 0 then cond_signal ∷ [] else []))
      × ((enqueue ptr len prio q es).queue.pid ≡ q.pid)
  unfolding fill_slot
  enqueue_sends = (ap (λ o. o.sent) enqueue_result, ap (λ o. o.queue.pid) enqueue_result)

pub notify_arrival-Holds :
    (q : Queue) (used free : List ℕ) → Holds q used free → Holds (notify_arrival q).0 used free
unfolding notify_arrival
notify_arrival-Holds q used free h = elim (Bool-cases (not (q.pid == 0) && (q.nwait == 0))) [
  | inl t ↦ rw t (Holds-control q used free q.nwait 0 q.event h)
  | inr t ↦ rw t h
]
