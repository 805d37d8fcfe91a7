-- ===== src/Mycat/Steps.antt =====
-- Each step of the reader or the writer keeps the invariant.
use mathlib.Core.List.{append_assoc}
use com_tutor.Base.{
  ℕ, suc, ◌+◌, ◌-◌, ◌%◌, ◌≤◌, ◌<◌, ◌≡◌, ◌≢◌, refl, inl, inr, sym, ◌∙◌, ap, ap₂, Option, none, some,
  List, [], ◌∷◌, ◌++◌, ◌==◌, Bool-cases, update, update_at, update_off, arith, ==→eq,
}
use com_tutor.Mycat.{
  Shared, nbuff, next, Reader, at_empty, at_mutex, critical, reading, posting, ending, finished,
  produce, Writer, ended,
}
use com_tutor.Mycat.Threads.{World}
use com_tutor.Mycat.Invariant.{
  segment, segment-snoc, segment-update, next_lem, holds_empty, locks, owes_stored, is_over,
  owes_empty, cons_locks, holds_stored, Holds,
}

-- A step that moves threads and the semaphores only.
pub Holds-semaphores :
    (file : List ℕ) (a r : ℕ) (w : World)
    → Holds file a r w
    → (m e t : ℕ) (p : Reader) (c : Writer)
    → m + locks p + cons_locks c ≡ w.shared.mutex + locks w.reader + cons_locks w.writer
    → e + holds_empty p + owes_empty c
      ≡ w.shared.nempty + holds_empty w.reader + owes_empty w.writer
    → t + owes_stored p + holds_stored c
      ≡ w.shared.nstored + owes_stored w.reader + holds_stored w.writer
    → is_over p ≡ is_over w.reader
    → (c ≡ ended → w.writer ≡ ended)
    → Holds file a r (record w {
      shared = record w.shared { mutex = m; nempty = e; nstored = t };
      reader = p;
      writer = c;
    })
Holds-semaphores file a r w h m e t p c x y z u v = record {
  one_lock = x ∙ h.one_lock;
  slots = omega (arith, y, h.slots, u);
  items = omega (arith, z, h.items, u);
  puts = h.puts;
  gets = h.gets;
  content = h.content;
  full = h.full;
  last = λ o. h.last (omega (arith, o, u));
  all = λ o. let (done, over) = h.all (v o) in (done, u ∙ over);
}

abbrev pub Kept : (file : List ℕ) (a r : ℕ) (w : World) → Option (Reader × ℕ × Shared) → Type 0
Kept file a r w none = Unit
Kept file a r w (some (p', i', s')) =
    Holds file a r (record w { shared = s'; reader = p'; put_at = i' })

pub produce-Kept :
    (file : List ℕ) (a r : ℕ) (w : World) (p : Reader)
    → w.reader ≡ p
    → p ≢ reading
    → Holds file a r w
    → Kept file a r w (produce [] w.shared w.put_at p)
unfolding produce
produce-Kept file a r w at_empty e ne h = elim (Bool-cases (w.shared.nempty == 0)) [
  | inl stuck ↦ rw stuck tt
  | inr free ↦ rw free (
      Holds-semaphores file a r w h w.shared.mutex (w.shared.nempty - 1) w.shared.nstored at_mutex
        w.writer (ground (arith, e)) (ground (arith, e, free)) (ground (arith, e))
        (ground (arith, e)) (λ o. o))
]
produce-Kept file a r w at_mutex e ne h = elim (Bool-cases (w.shared.mutex == 0)) [
  | inl stuck ↦ rw stuck tt
  | inr free ↦ rw free (
      Holds-semaphores file a r w h (w.shared.mutex - 1) w.shared.nempty w.shared.nstored critical
        w.writer (ground (arith, e, free)) (ground (arith, e)) (ground (arith, e))
        (ground (arith, e)) (λ o. o))
]
produce-Kept file a r w critical e ne h =
    Holds-semaphores file a r w h (w.shared.mutex + 1) w.shared.nempty w.shared.nstored reading
      w.writer (ground (arith, e)) (ground (arith, e)) (ground (arith, e)) (ground (arith, e))
      (λ o. o)
produce-Kept file a r w reading e ne h = absurd (ne refl)
produce-Kept file a r w posting e ne h =
    Holds-semaphores file a r w h w.shared.mutex w.shared.nempty (w.shared.nstored + 1) at_empty
      w.writer (ground (arith, e)) (ground (arith, e)) (ground (arith, e)) (ground (arith, e))
      (λ o. o)
produce-Kept file a r w ending e ne h =
    Holds-semaphores file a r w h w.shared.mutex w.shared.nempty (w.shared.nstored + 1) finished
      w.writer (ground (arith, e)) (ground (arith, e)) (ground (arith, e)) (ground (arith, e))
      (λ o. o)
produce-Kept file a r w finished e ne h = tt

-- The buffer that is read into is none of the filled ones.
not_filled : (a r j : ℕ) → r < nbuff → a ≤ j → j < a + r → j % nbuff ≢ (a + r) % nbuff
not_filled a r j room ge lt e = omega (arith, room, ge, lt, e)

-- Read gives bytes, which go into the next buffer.
pub reads-Holds :
    (file : List ℕ) (a r : ℕ) (w : World) (b : ℕ) (bs rest : List ℕ)
    → w.reader ≡ reading
    → w.input ≡ (b ∷ bs) ++ rest
    → Holds file a r w
    → Holds file a (suc r) (record w {
      shared = record w.shared { buff = update w.shared.buff w.put_at (b ∷ bs) };
      reader = posting;
      put_at = next w.put_at;
      input = rest;
    })
reads-Holds file a r w b bs rest e more h =
    let slots : w.shared.nempty + 1 + owes_empty w.writer + r ≡ nbuff =
      ground (arith, h.slots, e) in
    let room : r < nbuff = omega (arith, slots) in
    let f = update w.shared.buff w.put_at (b ∷ bs) in
    let filled : f ((a + r) % nbuff) ≡ b ∷ bs =
      ap f (sym h.puts) ∙ update_at w.shared.buff w.put_at (b ∷ bs) in
    let same : segment f a r ≡ segment w.shared.buff a r =
      segment-update w.shared.buff w.put_at (b ∷ bs) a r
        (λ j ge lt q. not_filled a r j room ge lt (q ∙ h.puts)) in
    record {
      one_lock = ground (arith, h.one_lock, e);
      slots = omega (arith, slots);
      items = ground (arith, h.items, e);
      puts = ap next h.puts ∙ next_lem (a + r) ∙ ap (λ n. n % nbuff) (omega arith);
      gets = h.gets;
      content =
          ap (λ u. w.shared.output ++ (u ++ rest))
            (segment-snoc f a r ∙ ap₂ (λ u v. u ++ v) same filled)
          ∙ ap (λ u. w.shared.output ++ u)
              (append_assoc (segment w.shared.buff a r) (b ∷ bs) rest
                ∙ ap (λ v. segment w.shared.buff a r ++ v) (sym more))
          ∙ h.content;
      full = λ j ge lt. elim (Bool-cases (j == a + r)) [
        | inl here ↦ λ q.
            ground (arith, sym filled ∙ ap (λ n. f (n % nbuff)) (sym (==→eq j (a + r) here)) ∙ q)
        | inr before ↦ λ q. h.full j ge (ground (arith, before, lt)) (
            sym (
              update_off w.shared.buff w.put_at (b ∷ bs) (j % nbuff)
                (λ o. not_filled a r j room ge (ground (arith, before, lt)) (sym o ∙ h.puts)))
            ∙ q)
      ];
      last = λ o. absurd (omega (arith, o));
      all = λ o. ground (arith, h.all o, e);
    }

-- Read meets the end of the file.
pub ends-Holds :
    (file : List ℕ) (a r : ℕ) (w : World)
    → w.reader ≡ reading
    → w.input ≡ []
    → Holds file a r w
    → Holds file a r (record w {
      shared = record w.shared { buff = update w.shared.buff w.put_at [] };
      reader = ending;
      input = [];
    })
ends-Holds file a r w e none_left h =
    let slots : w.shared.nempty + 1 + owes_empty w.writer + r ≡ nbuff =
      ground (arith, h.slots, e) in
    let room : r < nbuff = omega (arith, slots) in
    let f = update w.shared.buff w.put_at [] in
    let same : segment f a r ≡ segment w.shared.buff a r =
      segment-update w.shared.buff w.put_at [] a r
        (λ j ge lt q. not_filled a r j room ge lt (q ∙ h.puts)) in
    record {
      one_lock = ground (arith, h.one_lock, e);
      slots = omega (arith, slots);
      items = ground (arith, h.items, e);
      puts = h.puts;
      gets = h.gets;
      content = ap₂ (λ u v. w.shared.output ++ (u ++ v)) same (sym none_left) ∙ h.content;
      full = λ j ge lt q. h.full j ge lt (
          sym (
            update_off w.shared.buff w.put_at [] (j % nbuff)
              (λ o. not_filled a r j room ge lt (sym o ∙ h.puts)))
          ∙ q);
      last = λ o. (refl, ap f (sym h.puts) ∙ update_at w.shared.buff w.put_at []);
      all = λ o. ground (arith, h.all o, e);
    }
