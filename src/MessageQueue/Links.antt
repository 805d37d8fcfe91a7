-- ===== src/MessageQueue/Links.antt =====
-- Linked lists in the mapped file, and what `find_place` and `splice` of mq_send.c do to one.
use com_tutor.Base.{
  ℕ, zero, suc, ◌<◌, ◌≡◌, ◌≢◌, refl, sym, ◌∙◌, inl, inr, true, false, some, List, [], ◌∷◌, arith,
  ltb, ◌==◌, if◌then◌else◌, update, update_off, All, length, Bool-cases,
}
use com_tutor.Base.Distinct.{NotIn, Distinct}
use com_tutor.MessageQueue.Types.{Slot}
use com_tutor.MessageQueue.Send.{find_place, splice}

-- The link at `l` leads through the slots `xs`, and the last link is 0.
abbrev pub Linked : (ℕ → ℕ) → ℕ → List ℕ → Type 0
Linked next l [] = next l ≡ 0
Linked next l (x ∷ xs) = (next l ≡ x) × (x ≢ 0) × Linked next x xs

-- A list behind `k` that was behind `l`, its own links unchanged.
pub Linked-frame :
    (n m : ℕ → ℕ) (l k : ℕ) (xs : List ℕ)
    → m k ≡ n l
    → All (λ x. m x ≡ n x) xs
    → Linked n l xs
    → Linked m k xs
Linked-frame n m l k [] e a h = e ∙ h
Linked-frame n m l k (x ∷ xs) e a h = (e ∙ h.0, h.1, Linked-frame n m x x xs a.0 a.1 h.2)

-- A write at an address that is not in the list.
pub Linked-update :
    (n : ℕ → ℕ) (i v l : ℕ) (xs : List ℕ)
    → i ≢ l
    → NotIn i xs
    → Linked n l xs
    → Linked (update n i v) l xs
Linked-update n i v l [] e a h = update_off n i v l e ∙ h
Linked-update n i v l (x ∷ xs) e a h =
    (update_off n i v l e ∙ h.0, h.1, Linked-update n i v x xs a.0 a.1 h.2)

-- Where the new slot `f` comes among the slots of a list: behind those of its priority or more.
unfoldable pub insert_slot : (ℕ → Slot) → (prio f : ℕ) → List ℕ → List ℕ
insert_slot slot prio f [] = f ∷ []
insert_slot slot prio f (x ∷ xs) =
    if ltb (slot x).prio prio then f ∷ x ∷ xs else x ∷ insert_slot slot prio f xs

pub splice_at :
    (n : ℕ → ℕ) (f p i z : ℕ)
    → p ≢ f
    → splice n f p i z ≡ (if p == z then f else (if f == z then i else n z))
unfolding splice
splice_at n f p i z h = ground arith

splice_keeps :
    (n : ℕ → ℕ) (f p i : ℕ) (ys : List ℕ)
    → p ≢ f
    → NotIn p ys
    → NotIn f ys
    → All (λ y. splice n f p i y ≡ n y) ys
splice_keeps n f p i [] pf a b = tt
splice_keeps n f p i (y ∷ ys) pf a b =
    (ground (arith, splice_at n f p i y pf), splice_keeps n f p i ys pf a.1 b.1)

module _ (slot : ℕ → Slot) (prio f : ℕ) (n : ℕ → ℕ) where
  -- What the walk and the splice of mq_send.c make of the list `xs` at the link `l`.
  pub record Inserted (fuel l : ℕ) (xs : List ℕ) : Type 0 where
    pub place : ℕ
    pub after : ℕ
    pub found : find_place fuel n slot prio l (n l) ≡ some (place, after)
    pub linked : Linked (splice n f place after) l (insert_slot slot prio f xs)
    pub rest : (z : ℕ) → z ≢ f → NotIn z (l ∷ xs) → splice n f place after z ≡ n z

  insert_here :
      (fuel l x : ℕ) (xs : List ℕ)
      → Linked n l (x ∷ xs)
      → l ≢ f
      → NotIn f (x ∷ xs)
      → Distinct (l ∷ x ∷ xs)
      → f ≢ 0
      → ltb (slot x).prio prio ≡ true
      → Inserted (suc fuel) l (x ∷ xs)
  unfolding find_place insert_slot
  insert_here fuel l x xs h lf fx d nz t = record {
    place = l;
    after = x;
    found = rw (h.0) (ground arith);
    linked = rw t (
      ground (arith, splice_at n f l x l lf),
      nz,
      (
        ground (arith, splice_at n f l x f lf),
        h.1,
        Linked-frame n (splice n f l x) x x xs (ground (arith, splice_at n f l x x lf))
            (splice_keeps n f l x xs lf d.0.1 fx.1) h.2,
      ),
    );
    rest = λ z zf out. ground (arith, splice_at n f l x z lf);
  }

  -- The walk goes past `x`, and the new slot goes into the list behind it.
  insert_later :
      (fuel l x : ℕ) (xs : List ℕ)
      → Linked n l (x ∷ xs)
      → l ≢ f
      → NotIn f (x ∷ xs)
      → Distinct (l ∷ x ∷ xs)
      → ltb (slot x).prio prio ≡ false
      → Inserted fuel x xs
      → Inserted (suc fuel) l (x ∷ xs)
  unfolding find_place insert_slot
  insert_later fuel l x xs h lf fx d t r = record {
    place = r.place;
    after = r.after;
    found = rw (h.0) (ground (arith, r.found));
    linked = rw t (r.rest l lf d.0 ∙ h.0, h.1, r.linked);
    rest = λ z zf out. r.rest z zf out.1;
  }

  pub insert_links :
      (fuel l : ℕ) (xs : List ℕ)
      → length xs < fuel
      → Linked n l xs
      → l ≢ f
      → NotIn f xs
      → Distinct (l ∷ xs)
      → f ≢ 0
      → Inserted fuel l xs
  unfolding find_place insert_slot
  insert_links zero l xs e h lf fx d nz = elim e [ ]
  insert_links (suc k) l [] e h lf fx d nz = record {
    place = l;
    after = 0;
    found = rw h refl;
    linked = (ground (arith, splice_at n f l 0 l lf), nz, ground (arith, splice_at n f l 0 f lf));
    rest = λ z zf out. ground (arith, splice_at n f l 0 z lf);
  }
  insert_links (suc k) l (x ∷ xs) e h lf fx d nz =
      let more : Inserted k x xs =
        insert_links k x xs (omega arith) h.2 (λ q. fx.0 (sym q)) fx.1 d.1 nz in
      elim (Bool-cases (ltb (slot x).prio prio)) [
        | inl t ↦ insert_here k l x xs h lf fx d nz t
        | inr t ↦ insert_later k l x xs h lf fx d t more
      ]
