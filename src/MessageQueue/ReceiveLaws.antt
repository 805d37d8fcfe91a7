-- ===== src/MessageQueue/ReceiveLaws.antt =====
-- mymq_receive takes the first message, and gives its slot back to the free list.
use com_tutor.Base.{ℕ, ◌-◌, ◌≡◌, refl, sym, some, Option, List, [], ◌∷◌, arith, update, All, ne→==}
use com_tutor.Base.Distinct.{NotIn, NotIn-head, Apart-tail, Apart-cons}
use com_tutor.MessageQueue.Types.{Queue, Message, Outcome, done, head_at, free_at}
use com_tutor.MessageQueue.Receive.{dequeue}
use com_tutor.MessageQueue.Links.{Linked-frame}
use com_tutor.MessageQueue.Invariant.{message, messages, Holds}

-- What a completed receive leaves: the rest of the messages, and the slot `i` free.
pub record Received (q : Queue) (i : ℕ) (used free : List ℕ) (o : Outcome × Option Message)
    : Type 0 where
  pub reply : o.0.reply ≡ done (q.slot i).len
  pub given : o.1 ≡ some (message q.slot i)
  pub holds : Holds o.0.queue used (i ∷ free)
  pub sizes : (o.0.queue.maxmsg ≡ q.maxmsg) × (o.0.queue.msgsize ≡ q.msgsize)
  pub left : messages o.0.queue.slot used ≡ messages q.slot used

-- The three stores of a receive: `mqh_head`, the link of the slot, `mqh_free`.
abbrev unlinked : (ℕ → ℕ) → ℕ → ℕ → ℕ
unlinked n i = update (update (update n head_at (n i)) i (update n head_at (n i) free_at)) free_at i

unlinked_rest :
    (n : ℕ → ℕ) (i : ℕ) (ys : List ℕ)
    → NotIn head_at ys
    → NotIn i ys
    → NotIn free_at ys
    → All (λ y. unlinked n i y ≡ n y) ys
unlinked_rest n i [] a b c = tt
unlinked_rest n i (y ∷ ys) a b c = (ground (arith, a.0, b.0, c.0), unlinked_rest n i ys a.1 b.1 c.1)

module _ (q : Queue) (used free : List ℕ) (h : Holds q (q.next head_at ∷ used) free) where
  abbrev i : ℕ
  i = q.next head_at

  abbrev q2 : Queue
  q2 = record q { next = unlinked q.next i; curmsgs = q.curmsgs - 1 }

  i_not_free : NotIn i (free_at ∷ free)
  i_not_free = h.apart.1.0

  links : (unlinked q.next i head_at ≡ q.next i) × (unlinked q.next i i ≡ q.next free_at)
  links = (ground (arith, h.used_distinct.0.0), ground (arith, h.used_distinct.0.0, i_not_free.0))

  dequeue_Holds : Holds q2 used (i ∷ free)
  dequeue_Holds = record {
    used_links =
        Linked-frame q.next q2.next i head_at used links.0
          (unlinked_rest q.next i used h.used_distinct.0.1 h.used_distinct.1.0
            (NotIn-head free_at free used h.apart.1.1))
          h.used_links.2;
    free_links = (
      ground arith,
      h.used_links.1,
      Linked-frame q.next q2.next free_at i free links.1
          (unlinked_rest q.next i free h.apart.0.1 i_not_free.1 h.free_distinct.0) h.free_links,
    );
    used_distinct = (h.used_distinct.0.1, h.used_distinct.1.1);
    free_distinct =
        (((λ e. i_not_free.0 (sym e)), h.free_distinct.0), (i_not_free.1, h.free_distinct.1));
    apart = (
      (h.apart.0.0, (h.used_distinct.0.0, h.apart.0.1)),
      Apart-cons free_at (i ∷ free) used (NotIn-head free_at free used h.apart.1.1)
          (Apart-cons i free used h.used_distinct.1.0 (Apart-tail free_at free used h.apart.1.1)),
    );
    counted = omega (arith, h.counted);
    slots = omega (arith, h.slots);
    fits = h.fits.1;
  }

  pub dequeue-Received : Received q i used free (dequeue q)
  unfolding dequeue
  dequeue-Received = rw (ne→== i 0 h.used_links.1) (record {
    reply = refl;
    given = refl;
    holds = dequeue_Holds;
    sizes = (refl, refl);
    left = refl;
  })
