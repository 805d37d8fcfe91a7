-- ===== src/MessageQueue/Invariant.antt =====
-- The two lists of a mapped file, of messages and of free slots, and the messages that it holds.
use com_tutor.Base.{
  ℕ, suc, ◌+◌, ◌≤◌, ◌≡◌, ◌≢◌, refl, sym, ap, ap₂, inl, inr, List, [], ◌∷◌, map, arith, ltb, update,
  update_off, All, length, take, Bool-cases,
}
use com_tutor.Base.Distinct.{NotIn, Distinct, Apart}
use com_tutor.MessageQueue.Types.{Queue, Event, Slot, Message, head_at, free_at}
use com_tutor.MessageQueue.Spec.{insert}
use com_tutor.MessageQueue.Links.{Linked, insert_slot}

abbrev pub message : (ℕ → Slot) → ℕ → Message
message slot i = record { prio = (slot i).prio; bytes = take (slot i).len (slot i).body }

-- The messages in the slots `used`, in the order of the list.
abbrev pub messages : (ℕ → Slot) → List ℕ → List Message
messages slot used = map (message slot) used

-- `used` are the slots behind `mqh_head`, `free` those behind `mqh_free`; no slot is in both or
-- twice in one, together they are the `mq_maxmsg` slots, and `mq_curmsgs` counts the first. A
-- message is no longer than `mq_msgsize`, and its bytes are there.
pub record Holds (q : Queue) (used free : List ℕ) : Type 0 where
  pub used_links : Linked q.next head_at used
  pub free_links : Linked q.next free_at free
  pub used_distinct : Distinct (head_at ∷ used)
  pub free_distinct : Distinct (free_at ∷ free)
  pub apart : Apart (head_at ∷ used) (free_at ∷ free)
  pub counted : q.curmsgs ≡ length used
  pub slots : length used + length free ≡ q.maxmsg
  pub fits :
      All (λ i. ((q.slot i).len ≤ q.msgsize) × ((q.slot i).len ≤ length (q.slot i).body)) used

-- The fields that only waiting and notification use do not matter.
pub Holds-control :
    (q : Queue) (used free : List ℕ) (n p : ℕ) (e : Event)
    → Holds q used free
    → Holds (record q { nwait = n; pid = p; event = e }) used free
Holds-control q used free n p e h = record {
  used_links = h.used_links;
  free_links = h.free_links;
  used_distinct = h.used_distinct;
  free_distinct = h.free_distinct;
  apart = h.apart;
  counted = h.counted;
  slots = h.slots;
  fits = h.fits;
}

module _ (slot : ℕ → Slot) (prio f : ℕ) where
  pub All-insert_slot {ℓ} :
      (P : ℕ → Type ℓ) (xs : List ℕ) → P f → All P xs → All P (insert_slot slot prio f xs)
  unfolding insert_slot
  All-insert_slot P [] h hs = (h, hs)
  All-insert_slot P (x ∷ xs) h hs = elim (Bool-cases (ltb (slot x).prio prio)) [
    | inl t ↦ rw t (h, hs)
    | inr t ↦ rw t (hs.0, All-insert_slot P xs h hs.1)
  ]

  pub Distinct-insert_slot :
      (xs : List ℕ) → NotIn f xs → Distinct xs → Distinct (insert_slot slot prio f xs)
  unfolding insert_slot
  Distinct-insert_slot [] a d = (tt, tt)
  Distinct-insert_slot (x ∷ xs) a d = elim (Bool-cases (ltb (slot x).prio prio)) [
    | inl t ↦ rw t (a, d)
    | inr t ↦
        rw t
          (All-insert_slot (λ y. x ≢ y) xs (λ e. a.0 (sym e)) d.0, Distinct-insert_slot xs a.1 d.1)
  ]

  pub length-insert_slot : (xs : List ℕ) → length (insert_slot slot prio f xs) ≡ suc (length xs)
  unfolding insert_slot
  length-insert_slot [] = refl
  length-insert_slot (x ∷ xs) = ground (arith, length-insert_slot xs)

  -- The new slot comes where the specification puts its message.
  pub messages-insert_slot :
      (xs : List ℕ)
      → (slot f).prio ≡ prio
      → messages slot (insert_slot slot prio f xs) ≡ insert (message slot f) (messages slot xs)
  unfolding insert_slot insert
  messages-insert_slot [] e = refl
  messages-insert_slot (x ∷ xs) e = elim (Bool-cases (ltb (slot x).prio prio)) [
    | inl t ↦ rw (t, e, t) refl
    | inr t ↦ rw (t, e, t) (ap (λ r. message slot x ∷ r) (messages-insert_slot xs e))
  ]

pub messages-update :
    (slot : ℕ → Slot) (f : ℕ) (s : Slot) (xs : List ℕ)
    → NotIn f xs
    → messages (update slot f s) xs ≡ messages slot xs
messages-update slot f s [] a = refl
messages-update slot f s (x ∷ xs) a =
    ap₂ (λ c r. record { prio = c.prio; bytes = take c.len c.body } ∷ r) (update_off slot f s x a.0)
      (messages-update slot f s xs a.1)
