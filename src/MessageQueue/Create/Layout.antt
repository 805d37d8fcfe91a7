-- ===== src/MessageQueue/Create/Layout.antt =====
-- The file that mymq_open creates: every slot is on the free list, and lies within the file.
use com_tutor.Base.{
  ℕ, zero, suc, ◌+◌, ◌-◌, ◌*◌, ◌%◌, true, ◌≤◌, ◌<◌, ◌≡◌, refl, subst, ◌∙◌, List, [], ◌∷◌, arith,
  update, update_off, All, length,
}
use com_tutor.Base.Int.{long_max}
use com_tutor.Base.Distinct.{NotIn, Distinct, Apart}
use com_tutor.MessageQueue.Types.{Queue, round_up, msg_hdr_size, head_at, free_at}
use com_tutor.MessageQueue.Control.{filesize, ulong_range}
use com_tutor.MessageQueue.Create.{init_links, init_queue, in_bounds}
use com_tutor.MessageQueue.Links.{Linked}
use com_tutor.MessageQueue.Invariant.{Holds}

-- `n` slots of `span` bytes from `index` on.
unfoldable pub slots_from : (n span index : ℕ) → List ℕ
slots_from zero span index = []
slots_from (suc n) span index = index ∷ slots_from n span (index + span)

length-slots_from : (n span index : ℕ) → length (slots_from n span index) ≡ n
unfolding slots_from
length-slots_from zero span index = refl
length-slots_from (suc n) span index = omega (arith, length-slots_from n span (index + span))

NotIn-slots_from : (z n span index : ℕ) → z < index → NotIn z (slots_from n span index)
unfolding slots_from
NotIn-slots_from z zero span index h = tt
NotIn-slots_from z (suc n) span index h =
    (omega arith, NotIn-slots_from z n span (index + span) (omega arith))

Distinct-slots_from : (n span index : ℕ) → 0 < span → Distinct (slots_from n span index)
unfolding slots_from
Distinct-slots_from zero span index h = tt
Distinct-slots_from (suc n) span index h = (
  NotIn-slots_from index n span (index + span) (omega arith),
  Distinct-slots_from n span (index + span) h,
)

-- The loop writes no link below its index.
init_links_below :
    (k span index : ℕ) (n : ℕ → ℕ) (z : ℕ) → z < index → init_links k span index n z ≡ n z
unfolding init_links
init_links_below zero span index n z h = update_off n index 0 z (omega arith)
init_links_below (suc k) span index n z h =
    init_links_below k span (index + span) (update n index (index + span)) z (omega arith)
    ∙ update_off n index (index + span) z (omega arith)

init_links-Linked :
    (k span index : ℕ) (n : ℕ → ℕ) (l : ℕ)
    → 0 < span
    → l < index
    → n l ≡ index
    → Linked (init_links k span index n) l (slots_from (suc k) span index)
unfolding init_links slots_from
init_links-Linked zero span index n l p h e = (ground arith, omega arith, ground arith)
init_links-Linked (suc k) span index n l p h e = (
  init_links_below (suc k) span index n l h ∙ e,
  omega arith,
  init_links-Linked k span (index + span) (update n index (index + span)) index p (omega arith)
      (ground arith),
)

slots_within :
    (n span lo index size last : ℕ)
    → lo ≤ index
    → size ≤ span
    → index + n * span ≤ last
    → All (λ i. (lo ≤ i) × (i + size ≤ last)) (slots_from n span index)
unfolding slots_from
slots_within zero span lo index size last low fit room = tt
slots_within (suc n) span lo index size last low fit room = (
  (low, omega arith),
  slots_within n span lo (index + span) size last (omega arith) fit (omega arith),
)

no_wrap : (last x : ℕ) → last + 8 ≤ x % ulong_range → x ≤ last + ulong_range → x % ulong_range ≡ x
no_wrap last x h k = omega (arith, h, k)

round_up-bounds : (n : ℕ) → (n ≤ round_up n) × (round_up n ≤ n + 7)
unfolding round_up
round_up-bounds n = (omega arith, omega arith)

one_more : (h n x : ℕ) → 0 < n → h + n * x ≡ h + (n - 1) * x + x
one_more h zero x p = absurd (omega (arith, p))
one_more h (suc k) x p =
    let rounds : k ≡ suc k - 1 = omega arith in
    subst (λ r. h + suc k * x ≡ h + r * x + x) rounds (omega arith)

-- The size of the file has not wrapped if the last link lies in the file.
filesize_whole :
    (hdr_size maxmsg msgsize : ℕ)
    → 0 < maxmsg
    → msgsize ≤ long_max
    → in_bounds hdr_size maxmsg msgsize ≡ true
    → filesize hdr_size maxmsg msgsize ≡ hdr_size + maxmsg * (msg_hdr_size + round_up msgsize)
unfolding filesize
filesize_whole hdr_size maxmsg msgsize p small h =
    let span = msg_hdr_size + round_up msgsize in
    let last = hdr_size + (maxmsg - 1) * span in
    no_wrap last (hdr_size + maxmsg * span) (ground (arith, h))
      (omega (arith, one_more hdr_size maxmsg span p, (round_up-bounds msgsize).1, small))

-- Every slot of a new file lies behind the header, and a message of `mq_msgsize` bytes in it ends
-- within the file.
pub slots_in_file :
    (hdr_size maxmsg msgsize : ℕ)
    → 0 < maxmsg
    → msgsize ≤ long_max
    → in_bounds hdr_size maxmsg msgsize ≡ true
    → All
        (λ i. (hdr_size ≤ i) × (i + (msg_hdr_size + msgsize) ≤ filesize hdr_size maxmsg msgsize))
        (slots_from maxmsg (msg_hdr_size + round_up msgsize) hdr_size)
slots_in_file hdr_size maxmsg msgsize p small h =
    slots_within maxmsg (msg_hdr_size + round_up msgsize) hdr_size hdr_size (msg_hdr_size + msgsize)
      (filesize hdr_size maxmsg msgsize) (omega arith) (omega (arith, (round_up-bounds msgsize).0))
      (omega (arith, filesize_whole hdr_size maxmsg msgsize p small h))

head-Apart :
    (n span index : ℕ)
    → head_at < index
    → free_at < index
    → Apart (head_at ∷ []) (free_at ∷ slots_from n span index)
head-Apart n span index h k = ((omega arith, NotIn-slots_from head_at n span index h), tt)

-- A new file holds no message, and all its slots are free. The header is longer than the four
-- attributes and two links at its front.
pub init_queue-Holds :
    (hdr_size maxmsg msgsize : ℕ) (blank : Queue)
    → free_at + 8 ≤ hdr_size
    → 0 < maxmsg
    → Holds
        (init_queue hdr_size maxmsg msgsize blank)
        []
        (slots_from maxmsg (msg_hdr_size + round_up msgsize) hdr_size)
unfolding init_queue
init_queue-Holds hdr_size zero msgsize blank big p = elim p [ ]
init_queue-Holds hdr_size (suc k) msgsize blank big p = record {
  used_links =
      init_links_below (suc k - 1) span hdr_size start head_at (omega arith) ∙ ground arith;
  free_links =
      let rounds : k ≡ suc k - 1 = omega arith in
      subst
        (λ r. Linked (init_links r span hdr_size start) free_at (slots_from (suc k) span hdr_size))
        rounds
        (init_links-Linked k span hdr_size start free_at (omega arith) (omega arith)
          (ground arith));
  used_distinct = (tt, tt);
  free_distinct = (
    NotIn-slots_from free_at (suc k) span hdr_size (omega arith),
    Distinct-slots_from (suc k) span hdr_size (omega arith),
  );
  apart = head-Apart (suc k) span hdr_size (omega arith) (omega arith);
  counted = refl;
  slots = omega (arith, length-slots_from (suc k) span hdr_size);
  fits = tt;
}
  where
    span : ℕ
    span = msg_hdr_size + round_up msgsize

    start : ℕ → ℕ
    start = update (update blank.next head_at 0) free_at hdr_size
