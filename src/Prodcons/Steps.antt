-- ===== src/Prodcons/Steps.antt =====
-- Each step of a thread keeps the invariant.
use com_tutor.Base.{
  ℕ, ◌+◌, ◌-◌, ◌%◌, ◌≤◌, ◌<◌, ◌≡◌, inl, inr, sym, ◌∙◌, ap, true, false, Option, none, some, leb,
  ◌==◌, if◌then◌else◌, update, Bool-cases, arith, update_off, update_at, ==→eq, eq→==,
}
use com_tutor.Prodcons.{
  Shared, nbuff, Producer, at_empty, at_mutex, putting, unlocking, posting, ending, leaving,
  finished, produce, Consumer, at_stored, to_lock, getting, to_unlock, to_post, to_leave, ended,
  consume,
}
use com_tutor.Prodcons.Invariant.{
  Producers, Consumers, holds_empty, locks, owes_stored, is_over, owes_empty, cons_locks,
  holds_stored, cons_is_over, Holds, Moves, ConsMoves,
}

-- A step that moves threads and the semaphores only.
Holds-semaphores :
    (nitems : ℕ) (s : Shared) (p : Producers) (c : Consumers)
    → Holds nitems s p c
    → (m e t : ℕ) (p' : Producers) (c' : Consumers)
    → m + p'.locking + c'.locking ≡ s.mutex + p.locking + c.locking
    → e + p'.holding + c'.owing ≡ s.nempty + p.holding + c.owing
    → t + p'.owing + c'.holding + p.over ≡ s.nstored + p.owing + c.holding + p'.over
    → (0 < p'.over → s.nput ≡ nitems)
    → (0 < c'.over → s.nget ≡ nitems)
    → Holds nitems (record s { mutex = m; nempty = e; nstored = t }) p' c'
Holds-semaphores nitems s p c h m e t p' c' x y z u v = record {
  one_lock = x ∙ h.one_lock;
  slots = omega (arith, y, h.slots);
  items = omega (arith, z, h.items);
  put = h.put;
  got = h.got;
  all_put = u;
  all_got = v;
  puts = h.puts;
  gets = h.gets;
  stored = h.stored;
  right = h.right;
}

-- What a step of a producer at `x` may leave.
abbrev pub Kept :
    (nitems : ℕ) (p : Producers) (c : Consumers) (x : Producer)
    → Option (Producer × Shared)
    → Type 0
Kept nitems p c x none = Unit
Kept nitems p c x (some (y, s')) = (p' : Producers) → Moves p x y p' → Holds nitems s' p' c

-- An item is put into a slot that holds none.
Holds-put :
    (nitems : ℕ) (s : Shared) (p : Producers) (c : Consumers)
    → Holds nitems s p c
    → leb nitems s.nput ≡ false
    → 0 < p.holding
    → (p' : Producers) → Moves p putting unlocking p'
    → Holds nitems
        (record s {
          buff = update s.buff (s.nput % nbuff) s.nputval;
          nput = s.nput + 1;
          nputval = s.nputval + 1;
        })
        p'
        c
Holds-put nitems s p c h more hold p' m =
    let less : s.nput < nitems = ground (arith, more) in
    record {
      one_lock = omega (arith, h.one_lock, m.locking);
      slots = omega (arith, h.slots, m.holding);
      items = omega (arith, h.items, m.owing, m.over);
      put = omega (arith, less);
      got = omega (arith, h.got);
      all_put = λ o. absurd (omega (arith, h.all_put (omega (arith, o, m.over)), less));
      all_got = h.all_got;
      puts = ap (λ n. n + 1) h.puts;
      gets = h.gets;
      stored = λ i ge lt. elim (Bool-cases (s.nput == i)) [
        | inl same ↦
            let e = ==→eq s.nput i same in
            ap (λ k. update s.buff (s.nput % nbuff) s.nputval (k % nbuff)) (sym e)
            ∙ update_at s.buff (s.nput % nbuff) s.nputval
            ∙ h.puts
            ∙ e
        | inr other ↦
            let lower : i < s.nput = ground (arith, other, lt) in
            update_off s.buff (s.nput % nbuff) s.nputval (i % nbuff)
              (λ q. omega (arith, q, lower, ge, h.slots, hold))
            ∙ h.stored i ge lower
      ];
      right = h.right;
    }

pub produce-Kept :
    (nitems : ℕ) (s : Shared) (p : Producers) (c : Consumers) (x : Producer)
    → holds_empty x ≤ p.holding
    → locks x ≤ p.locking
    → owes_stored x ≤ p.owing
    → is_over x ≤ p.over
    → Holds nitems s p c
    → Kept nitems p c x (produce nitems s x)
unfolding produce
produce-Kept nitems s p c at_empty a b e f h = elim (Bool-cases (s.nempty == 0)) [
  | inl stuck ↦ rw stuck tt
  | inr free ↦ rw free (λ p' m.
      Holds-semaphores nitems s p c h s.mutex (s.nempty - 1) s.nstored p' c
        (omega (arith, m.locking)) (ground (arith, m.holding, free))
        (omega (arith, m.owing, m.over)) (λ o. h.all_put (omega (arith, o, m.over))) h.all_got)
]
produce-Kept nitems s p c at_mutex a b e f h = elim (Bool-cases (s.mutex == 0)) [
  | inl stuck ↦ rw stuck tt
  | inr free ↦ rw free (λ p' m.
      Holds-semaphores nitems s p c h (s.mutex - 1) s.nempty s.nstored p' c
        (ground (arith, m.locking, free)) (omega (arith, m.holding))
        (omega (arith, m.owing, m.over)) (λ o. h.all_put (omega (arith, o, m.over))) h.all_got)
]
produce-Kept nitems s p c putting a b e f h = elim (Bool-cases (leb nitems s.nput)) [
  | inl all ↦ rw all (λ p' m.
      Holds-semaphores nitems s p c h s.mutex s.nempty (s.nstored + 1) p' c
        (omega (arith, m.locking)) (omega (arith, m.holding)) (omega (arith, m.owing, m.over))
        (λ o. ground (arith, all, h.put)) h.all_got)
  | inr more ↦ rw more (Holds-put nitems s p c h more a)
]
produce-Kept nitems s p c unlocking a b e f h = λ p' m.
    Holds-semaphores nitems s p c h (s.mutex + 1) s.nempty s.nstored p' c (omega (arith, m.locking))
      (omega (arith, m.holding)) (omega (arith, m.owing, m.over))
      (λ o. h.all_put (omega (arith, o, m.over))) h.all_got
produce-Kept nitems s p c posting a b e f h = λ p' m.
    Holds-semaphores nitems s p c h s.mutex s.nempty (s.nstored + 1) p' c (omega (arith, m.locking))
      (omega (arith, m.holding)) (omega (arith, m.owing, m.over))
      (λ o. h.all_put (omega (arith, o, m.over))) h.all_got
produce-Kept nitems s p c ending a b e f h = λ p' m.
    Holds-semaphores nitems s p c h s.mutex (s.nempty + 1) s.nstored p' c (omega (arith, m.locking))
      (omega (arith, m.holding)) (omega (arith, m.owing, m.over))
      (λ o. h.all_put (omega (arith, o, m.over))) h.all_got
produce-Kept nitems s p c leaving a b e f h = λ p' m.
    Holds-semaphores nitems s p c h (s.mutex + 1) s.nempty s.nstored p' c (omega (arith, m.locking))
      (omega (arith, m.holding)) (omega (arith, m.owing, m.over))
      (λ o. h.all_put (omega (arith, o, m.over))) h.all_got
produce-Kept nitems s p c finished a b e f h = tt

-- The same for a consumer.
abbrev pub ConsKept :
    (nitems : ℕ) (p : Producers) (c : Consumers) (x : Consumer)
    → Option (Consumer × Shared)
    → Type 0
ConsKept nitems p c x none = Unit
ConsKept nitems p c x (some (y, s')) = (c' : Consumers) → ConsMoves c x y c' → Holds nitems s' p c'

-- The item that is got is there: it is stored, or all items are put.
Holds-got :
    (nitems : ℕ) (s : Shared) (p : Producers) (c : Consumers)
    → Holds nitems s p c
    → leb nitems s.nget ≡ false
    → 0 < c.holding
    → (c' : Consumers) → ConsMoves c getting to_unlock c'
    → Holds nitems
        (record s {
          errors = if s.buff (s.nget % nbuff) == s.ngetval then s.errors else s.errors + 1;
          nget = s.nget + 1;
          ngetval = s.ngetval + 1;
        })
        p
        c'
Holds-got nitems s p c h more hold c' m =
    let less : s.nget < nitems = ground (arith, more) in
    let there : s.nget < s.nput = ground (arith, h.items, h.all_put, less, hold) in
    let same : (s.buff (s.nget % nbuff) == s.ngetval) ≡ true =
      eq→== (s.buff (s.nget % nbuff)) s.ngetval
        (h.stored s.nget (omega arith) there ∙ sym h.gets) in
    record {
      one_lock = omega (arith, h.one_lock, m.locking);
      slots = omega (arith, h.slots, m.owing);
      items = omega (arith, h.items, m.holding, m.over);
      put = h.put;
      got = omega (arith, there);
      all_put = h.all_put;
      all_got = λ o. absurd (omega (arith, h.all_got (omega (arith, o, m.over)), less));
      puts = h.puts;
      gets = ap (λ n. n + 1) h.gets;
      stored = λ i ge lt. h.stored i (omega (arith, ge)) lt;
      right = rw same h.right;
    }

pub consume-Kept :
    (nitems : ℕ) (s : Shared) (p : Producers) (c : Consumers) (x : Consumer)
    → owes_empty x ≤ c.owing
    → cons_locks x ≤ c.locking
    → holds_stored x ≤ c.holding
    → cons_is_over x ≤ c.over
    → Holds nitems s p c
    → ConsKept nitems p c x (consume nitems s x)
unfolding consume
consume-Kept nitems s p c at_stored a b e f h = elim (Bool-cases (s.nstored == 0)) [
  | inl stuck ↦ rw stuck tt
  | inr free ↦ rw free (λ c' m.
      Holds-semaphores nitems s p c h s.mutex s.nempty (s.nstored - 1) p c'
        (omega (arith, m.locking)) (omega (arith, m.owing)) (ground (arith, m.holding, free))
        h.all_put (λ o. h.all_got (omega (arith, o, m.over))))
]
consume-Kept nitems s p c to_lock a b e f h = elim (Bool-cases (s.mutex == 0)) [
  | inl stuck ↦ rw stuck tt
  | inr free ↦ rw free (λ c' m.
      Holds-semaphores nitems s p c h (s.mutex - 1) s.nempty s.nstored p c'
        (ground (arith, m.locking, free)) (omega (arith, m.owing)) (omega (arith, m.holding))
        h.all_put (λ o. h.all_got (omega (arith, o, m.over))))
]
consume-Kept nitems s p c getting a b e f h = elim (Bool-cases (leb nitems s.nget)) [
  | inl all ↦ rw all (λ c' m.
      Holds-semaphores nitems s p c h s.mutex s.nempty (s.nstored + 1) p c'
        (omega (arith, m.locking)) (omega (arith, m.owing)) (omega (arith, m.holding)) h.all_put
        (λ o. ground (arith, all, h.got, h.put)))
  | inr more ↦ rw more (Holds-got nitems s p c h more e)
]
consume-Kept nitems s p c to_unlock a b e f h = λ c' m.
    Holds-semaphores nitems s p c h (s.mutex + 1) s.nempty s.nstored p c' (omega (arith, m.locking))
      (omega (arith, m.owing)) (omega (arith, m.holding)) h.all_put
      (λ o. h.all_got (omega (arith, o, m.over)))
consume-Kept nitems s p c to_post a b e f h = λ c' m.
    Holds-semaphores nitems s p c h s.mutex (s.nempty + 1) s.nstored p c' (omega (arith, m.locking))
      (omega (arith, m.owing)) (omega (arith, m.holding)) h.all_put
      (λ o. h.all_got (omega (arith, o, m.over)))
consume-Kept nitems s p c to_leave a b e f h = λ c' m.
    Holds-semaphores nitems s p c h (s.mutex + 1) s.nempty s.nstored p c' (omega (arith, m.locking))
      (omega (arith, m.owing)) (omega (arith, m.holding)) h.all_put
      (λ o. h.all_got (omega (arith, o, m.over)))
consume-Kept nitems s p c ended a b e f h = tt
