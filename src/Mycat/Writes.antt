-- ===== src/Mycat/Writes.antt =====
-- The steps of the writer, and what every reachable state of mycat2 holds.
use mathlib.Core.List.{append_assoc}
use com_tutor.Base.{
  ℕ, zero, suc, ◌+◌, ◌-◌, ◌%◌, ◌<◌, ◌≡◌, refl, inl, inr, sym, ◌∙◌, ap, subst, Option, none, some,
  List, [], ◌∷◌, ◌++◌, ◌==◌, Bool-cases, update, arith,
}
use com_tutor.Mycat.{
  Shared, nbuff, next, Reader, reading, ending, produce, Writer, at_stored, to_lock, inside,
  writing, to_post, ended, written, consume,
}
use com_tutor.Mycat.Threads.{World, produces, reads, consumes, start, Reach, begins, later}
use com_tutor.Mycat.Invariant.{segment, segment-step, next_lem, is_over, Holds}
use com_tutor.Mycat.Steps.{Holds-semaphores, Kept, produce-Kept, reads-Holds, ends-Holds}

-- The buffers hold the file, from some number on.
abbrev pub IsCat : (file : List ℕ) → World → Type 0
IsCat file w = (a : ℕ) × (r : ℕ) × Holds file a r w

abbrev ConsKept : (file : List ℕ) (w : World) → Option (Writer × ℕ × Shared) → Type 0
ConsKept file w none = Unit
ConsKept file w (some (c', i', s')) =
    IsCat file (record w { shared = s'; writer = c'; get_at = i' })

-- The bytes of the first filled buffer are written.
writes-Holds :
    (file : List ℕ) (a r : ℕ) (w : World) (b : ℕ) (bs : List ℕ)
    → w.writer ≡ writing
    → w.shared.buff w.get_at ≡ b ∷ bs
    → Holds file a (suc r) w
    → Holds file (a + 1) r (record w {
      shared = record w.shared { output = w.shared.output ++ (b ∷ bs) };
      writer = to_post;
      get_at = next w.get_at;
    })
writes-Holds file a r w b bs e here h = record {
  one_lock = ground (arith, h.one_lock, e);
  slots = ground (arith, h.slots, e);
  items = ground (arith, h.items, e);
  puts = h.puts ∙ ap (λ n. n % nbuff) (omega arith);
  gets = ap next h.gets ∙ next_lem a;
  content =
      append_assoc w.shared.output (b ∷ bs) (segment w.shared.buff (a + 1) r ++ w.input)
      ∙ ap (λ u. w.shared.output ++ u)
          (sym (append_assoc (b ∷ bs) (segment w.shared.buff (a + 1) r) w.input)
            ∙ ap (λ u. u ++ segment w.shared.buff (a + 1) r ++ w.input)
                (sym here ∙ ap w.shared.buff h.gets)
            ∙ ap (λ u. u ++ w.input) (sym (segment-step w.shared.buff a r)))
      ∙ h.content;
  full = λ j ge lt. h.full j (omega (arith, ge)) (omega (arith, lt));
  last = λ o.
      let (none_left, q) = h.last o in
      (none_left, ap (λ n. w.shared.buff (n % nbuff)) (omega arith) ∙ q);
  all = λ o. ground (arith, o);
}

-- A writer before its Write with no filled buffer is at the end.
none_filled :
    (file : List ℕ) (a : ℕ) (w : World)
    → w.writer ≡ writing
    → Holds file a 0 w
    → (w.shared.buff w.get_at ≡ []) × (is_over w.reader ≡ 1)
none_filled file a w e h =
    let over : 0 < is_over w.reader = ground (arith, h.items, e) in
    (
      ap w.shared.buff (h.gets ∙ ap (λ n. n % nbuff) (omega arith)) ∙ (h.last over).1,
      at_most_one w.reader over,
    )
  where
    at_most_one : (p : Reader) → 0 < is_over p → is_over p ≡ 1
    at_most_one p h = ground (arith, h)

ends-writing :
    (file : List ℕ) (a : ℕ) (w : World)
    → w.writer ≡ writing
    → Holds file a 0 w
    → Holds file a 0 (record w { writer = ended })
ends-writing file a w e h = record {
  one_lock = ground (arith, h.one_lock, e);
  slots = ground (arith, h.slots, e);
  items = ground (arith, h.items, e);
  puts = h.puts;
  gets = h.gets;
  content = h.content;
  full = h.full;
  last = h.last;
  all = λ o. (refl, (none_filled file a w e h).1);
}

writing-Kept :
    (file : List ℕ) (a r : ℕ) (w : World)
    → w.writer ≡ writing
    → Holds file a r w
    → (l : List ℕ) → w.shared.buff w.get_at ≡ l
    → ConsKept file w (some (written l w.shared w.get_at))
writing-Kept file a zero w e h [] q = (a, 0, ends-writing file a w e h)
writing-Kept file a zero w e h (b ∷ bs) q =
    absurd (ground (arith, sym q ∙ (none_filled file a w e h).0))
writing-Kept file a (suc r) w e h [] q =
    absurd (h.full a (omega arith) (omega arith) (ap w.shared.buff (sym h.gets) ∙ q))
writing-Kept file a (suc r) w e h (b ∷ bs) q = (a + 1, r, writes-Holds file a r w b bs e q h)

consume-Kept :
    (file : List ℕ) (a r : ℕ) (w : World) (c : Writer)
    → w.writer ≡ c
    → Holds file a r w
    → ConsKept file w (consume w.shared w.get_at c)
unfolding consume
consume-Kept file a r w at_stored e h = elim (Bool-cases (w.shared.nstored == 0)) [
  | inl stuck ↦ rw stuck tt
  | inr free ↦ rw free (
    a,
    r,
    Holds-semaphores file a r w h w.shared.mutex w.shared.nempty (w.shared.nstored - 1) w.reader
        to_lock (ground (arith, e)) (ground (arith, e)) (ground (arith, e, free)) refl
        (λ o. ground (arith, o)),
  )
]
consume-Kept file a r w to_lock e h = elim (Bool-cases (w.shared.mutex == 0)) [
  | inl stuck ↦ rw stuck tt
  | inr free ↦ rw free (
    a,
    r,
    Holds-semaphores file a r w h (w.shared.mutex - 1) w.shared.nempty w.shared.nstored w.reader
        inside (ground (arith, e, free)) (ground (arith, e)) (ground (arith, e)) refl
        (λ o. ground (arith, o)),
  )
]
consume-Kept file a r w inside e h = (
  a,
  r,
  Holds-semaphores file a r w h (w.shared.mutex + 1) w.shared.nempty w.shared.nstored w.reader
      writing (ground (arith, e)) (ground (arith, e)) (ground (arith, e)) refl
      (λ o. ground (arith, o)),
)
consume-Kept file a r w writing e h = writing-Kept file a r w e h (w.shared.buff w.get_at) refl
consume-Kept file a r w to_post e h = (
  a,
  r,
  Holds-semaphores file a r w h w.shared.mutex (w.shared.nempty + 1) w.shared.nstored w.reader
      at_stored (ground (arith, e)) (ground (arith, e)) (ground (arith, e)) refl
      (λ o. ground (arith, o)),
)
consume-Kept file a r w ended e h = tt

start-IsCat : (file : List ℕ) → IsCat file (start file)
unfolding segment
start-IsCat file = (
  0,
  0,
  record {
    one_lock = refl;
    slots = refl;
    items = refl;
    puts = omega arith;
    gets = omega arith;
    content = refl;
    full = λ j ge lt. absurd (omega (arith, lt));
    last = λ o. absurd (omega (arith, o));
    all = λ o. ground (arith, o);
  },
)

abbrev ReadKept :
    (file : List ℕ) (a r : ℕ) (w : World) (rest : List ℕ) → Option (Reader × ℕ × Shared) → Type 0
ReadKept file a r w rest none = ⊥
ReadKept file a r w rest (some (p', i', s')) =
    Holds file a r (record w { shared = s'; reader = p'; put_at = i'; input = rest })

read-IsCat :
    (file : List ℕ) (w : World) (chunk rest : List ℕ) (p' : Reader) (i' : ℕ) (s' : Shared)
    → w.reader ≡ reading
    → w.input ≡ chunk ++ rest
    → (chunk ≡ [] → rest ≡ [])
    → produce chunk w.shared w.put_at reading ≡ some (p', i', s')
    → IsCat file w
    → IsCat file (record w { shared = s'; reader = p'; put_at = i'; input = rest })
unfolding produce
read-IsCat file w [] rest p' i' s' e more last q (a, r, h) = (
  a,
  r,
  subst (ReadKept file a r w rest) q (
      subst
        (λ l. Holds file a r (record w {
          shared = record w.shared { buff = update w.shared.buff w.put_at [] };
          reader = ending;
          input = l;
        }))
        (sym (last refl)) (ends-Holds file a r w e (more ∙ last refl) h)),
)
read-IsCat file w (b ∷ bs) rest p' i' s' e more last q (a, r, h) =
    (a, suc r, subst (ReadKept file a (suc r) w rest) q (reads-Holds file a r w b bs rest e more h))

pub Reach-IsCat : (file : List ℕ) (w : World) → Reach file w → IsCat file w
Reach-IsCat file _ begins = start-IsCat file
Reach-IsCat file _ (later {w = w} go (produces p' i' s' ne q)) =
    let (a, r, h) = Reach-IsCat file w go in
    (a, r, subst (Kept file a r w) q (produce-Kept file a r w w.reader refl ne h))
Reach-IsCat file _ (later {w = w} go (reads chunk rest p' i' s' e more short last q)) =
    read-IsCat file w chunk rest p' i' s' e more last q (Reach-IsCat file w go)
Reach-IsCat file _ (later {w = w} go (consumes c' i' s' q)) =
    let (a, r, h) = Reach-IsCat file w go in
    subst (ConsKept file w) q (consume-Kept file a r w w.writer refl h)
