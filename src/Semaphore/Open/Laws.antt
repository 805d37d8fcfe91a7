-- ===== src/Semaphore/Open/Laws.antt =====
-- How mysem_open ends, and what it leaves behind.
use com_tutor.Base.{
  ℕ, ◌+◌, ◌≤◌, ◌≡◌, ◌≢◌, refl, sym, ◌∙◌, ap, Bool, true, false, Option, none, some, List, [], ◌∷◌,
  ◌++◌, arith, length, All,
}
use com_tutor.Base.Errno.{Errno, eexist}
use com_tutor.SharedFile.{ready, again, wait_ready, max_tries, SawReady, wait_ready-SawReady}
use com_tutor.Semaphore.{Sem, sem_magic}
use com_tutor.Semaphore.Open.{
  Answers, Opened, created, attached, open_failed, unanswered, Pass, finished, retry, overwritten,
  initialise, create, attach, pass, passes, mysem_open,
}

-- A pass that finds the file, maps it, and sees it vanish before its creator has finished.
pub record IsLost (a : Answers) : Type 0 where
  pub there : a.excl_open ≡ some eexist
  pub opened : a.plain_open ≡ none
  pub mapped : a.attach_mmap ≡ none
  pub vanished : wait_ready max_tries true a.stats 0 ≡ again

pass-IsLost :
    (value limit : ℕ) (held : Bool) (leaked : ℕ) (a : Answers)
    → IsLost a
    → pass true false value limit held leaked a ≡ retry true (overwritten held leaked)
unfolding pass attach
pass-IsLost value limit held leaked a h = rw (h.there, h.opened, h.mapped, h.vanished) refl

-- A pass that finds the file, and finds it ready.
pub record IsReady (a : Answers) : Type 0 where
  pub there : a.excl_open ≡ some eexist
  pub opened : a.plain_open ≡ none
  pub mapped : a.attach_mmap ≡ none
  pub fine : wait_ready max_tries true a.stats 0 ≡ ready

pass-IsReady :
    (value limit : ℕ) (held : Bool) (leaked : ℕ) (a : Answers)
    → IsReady a
    → pass true false value limit held leaked a
      ≡ finished (attached (record a.shared { magic = sem_magic }) (overwritten held leaked))
unfolding pass attach
pass-IsReady value limit held leaked a h = rw (h.there, h.opened, h.mapped, h.fine) refl

module _ (creat excl : Bool) (value limit : ℕ) (held : Bool) (leaked : ℕ) (a : Answers) where
  passes_end :
      (as' : List Answers) (o : Opened)
      → pass creat excl value limit held leaked a ≡ finished o
      → passes creat excl value limit held leaked (a ∷ as') ≡ o
  unfolding passes
  passes_end as' o e = rw (passes, e) refl

  passes_retry :
      (as' : List Answers) (b : Bool) (k : ℕ)
      → pass creat excl value limit held leaked a ≡ retry b k
      → passes creat excl value limit held leaked (a ∷ as') ≡ passes creat excl value limit b k as'
  unfolding passes
  passes_retry as' b k e = rw (passes, e) refl

passes_leak :
    (value limit leaked : ℕ) (before : List Answers) (a : Answers)
    → All IsLost before
    → IsReady a
    → passes true false value limit true leaked (before ++ (a ∷ []))
      ≡ attached (record a.shared { magic = sem_magic }) (leaked + 1 + length before)
passes_leak value limit leaked [] a h fine =
    passes_end true false value limit true leaked a [] _
      (pass-IsReady value limit true leaked a fine)
    ∙ ap (attached (record a.shared { magic = sem_magic })) (omega arith)
passes_leak value limit leaked (b ∷ bs) a h fine =
    passes_retry true false value limit true leaked b (bs ++ (a ∷ [])) _ _
      (pass-IsLost value limit true leaked b (h.0))
    ∙ passes_leak value limit (leaked + 1) bs a (h.1) fine
    ∙ ap (attached (record a.shared { magic = sem_magic })) (omega arith)

-- Every pass that maps a file which then vanishes costs a mapping: mysem_open goes back to `again`
-- and overwrites the only pointer to it. After `before`, passes of this kind, a pass that finds the
-- file ready attaches it, with as many mappings leaked.
pub open_leaks_mappings :
    (value limit : ℕ) (before : List Answers) (a : Answers)
    → All IsLost before
    → IsReady a
    → mysem_open true false value limit (before ++ (a ∷ []))
      ≡ attached (record a.shared { magic = sem_magic }) (length before)
unfolding mysem_open
open_leaks_mappings value limit [] a h fine =
    passes_end true false value limit false 0 a [] _ (pass-IsReady value limit false 0 a fine)
open_leaks_mappings value limit (b ∷ bs) a h fine =
    passes_retry true false value limit false 0 b (bs ++ (a ∷ [])) _ _
      (pass-IsLost value limit false 0 b (h.0))
    ∙ passes_leak value limit 0 bs a (h.1) fine
    ∙ ap (attached (record a.shared { magic = sem_magic })) (omega arith)

initialise-created :
    (value limit leaked : ℕ) (a : Answers) (s : Sem) (k : ℕ)
    → initialise value limit leaked a ≡ created s k
    → (s ≡ record { magic = sem_magic; count = value }) × (value ≤ limit)
unfolding initialise
initialise-created value limit leaked a s k h = ground arith

pass-created :
    (creat excl : Bool) (value limit : ℕ) (held : Bool) (leaked : ℕ) (a : Answers) (s : Sem) (k : ℕ)
    → pass creat excl value limit held leaked a ≡ finished (created s k)
    → (s ≡ record { magic = sem_magic; count = value }) × (value ≤ limit) × (a.excl_open ≡ none)
unfolding pass create attach
pass-created creat excl value limit held leaked a s k h =
    ground (arith, initialise-created value limit (overwritten held leaked) a s k)

-- Whether a pass has created the file: O_CREAT was given, and the open with O_EXCL succeeded.
abbrev pub creates : Bool → Option Errno → Bool
creates true none = true
creates _ _ = false

pass-unlinks :
    (creat excl : Bool) (value limit : ℕ) (held : Bool) (leaked : ℕ) (a : Answers) (e : Errno)
    (unlinked unmapped : Bool) (k : ℕ)
    → pass creat excl value limit held leaked a ≡ finished (open_failed e unlinked unmapped k)
    → unlinked ≡ creates creat a.excl_open
unfolding pass create attach initialise
pass-unlinks creat excl value limit held leaked a e unlinked unmapped k h = ground arith

pass-attached :
    (creat excl : Bool) (value limit : ℕ) (held : Bool) (leaked : ℕ) (a : Answers) (s : Sem) (k : ℕ)
    → pass creat excl value limit held leaked a ≡ finished (attached s k)
    → (creat ≡ true → excl ≡ false)
      × (s.count ≡ a.shared.count)
      × (wait_ready max_tries creat a.stats 0 ≡ ready)
      × (s.magic ≡ sem_magic)
unfolding pass create attach initialise
pass-attached creat excl value limit held leaked a s k h = ground arith

-- The last pass of a call, the one that ends it: some of the answers precede it.
pub record LastPass (creat excl : Bool) (value limit : ℕ) (o : Opened) (all : List Answers)
    : Type 0 where
  pub earlier : List Answers
  pub answers : Answers
  pub unused : List Answers
  pub among : all ≡ earlier ++ (answers ∷ unused)
  pub held : Bool
  pub leaked : ℕ
  pub ends : pass creat excl value limit held leaked answers ≡ finished o

module _ (creat excl : Bool) (value limit : ℕ) (o : Opened) (answered : o ≢ unanswered) where
  one_more :
      (a : Answers) (as' : List Answers)
      → LastPass creat excl value limit o as'
      → LastPass creat excl value limit o (a ∷ as')
  one_more a as' p = record {
    earlier = a ∷ p.earlier;
    answers = p.answers;
    unused = p.unused;
    among = ap (λ l. a ∷ l) p.among;
    held = p.held;
    leaked = p.leaked;
    ends = p.ends;
  }

  passes-LastPass :
      (held : Bool) (leaked : ℕ) (all : List Answers)
      → passes creat excl value limit held leaked all ≡ o
      → LastPass creat excl value limit o all
  unfolding passes
  passes-LastPass held leaked [] h = absurd (answered (sym h))
  passes-LastPass held leaked (a ∷ as') h =
      look (λ b k. passes-LastPass b k as') (pass creat excl value limit held leaked a) refl
    where
      look :
          ((b : Bool) (k : ℕ)
            → passes creat excl value limit b k as' ≡ o
            → LastPass creat excl value limit o as')
          → (p : Pass) → pass creat excl value limit held leaked a ≡ p
          → LastPass creat excl value limit o (a ∷ as')
      look rest (finished o') e = record {
        earlier = [];
        answers = a;
        unused = as';
        among = refl;
        held = held;
        leaked = leaked;
        ends = e ∙ ap finished (sym (passes_end creat excl value limit held leaked a as' o' e) ∙ h);
      }
      look rest (retry b k) e =
          one_more a as'
            (rest b k (sym (passes_retry creat excl value limit held leaked a as' b k e) ∙ h))

  open-LastPass :
      (all : List Answers)
      → mysem_open creat excl value limit all ≡ o
      → LastPass creat excl value limit o all
  unfolding mysem_open
  open-LastPass all h = passes-LastPass false 0 all h

-- If mysem_open creates the file, its count is the value, which is not above the limit of the
-- system, and its magic number is set.
pub open_creates_value :
    (creat excl : Bool) (value limit : ℕ) (answers : List Answers) {s : Sem} {k : ℕ}
    → mysem_open creat excl value limit answers ≡ created s k
    → (s ≡ record { magic = sem_magic; count = value }) × (value ≤ limit)
open_creates_value creat excl value limit answers {s} {k} h =
    let p = open-LastPass creat excl value limit (created s k) (λ e. cc) answers h in
    let r = pass-created creat excl value limit p.held p.leaked p.answers s k p.ends in (r.0, r.1)

-- If mysem_open attaches a file, then not with both O_CREAT and O_EXCL; the count is the one that was
-- there; and in the last pass stat has shown, within ten rounds, that the creator had finished.
pub attach_waits_ready :
    (creat excl : Bool) (value limit : ℕ) (answers : List Answers) {s : Sem} {k : ℕ}
    → mysem_open creat excl value limit answers ≡ attached s k
    → (creat ≡ true → excl ≡ false)
      × (s.magic ≡ sem_magic)
      × ((p : LastPass creat excl value limit (attached s k) answers) × (s.count
            ≡ p.answers.shared.count)
          × SawReady max_tries p.answers.stats 0)
attach_waits_ready creat excl value limit answers {s} {k} h =
    let p = open-LastPass creat excl value limit (attached s k) (λ e. cc) answers h in
    let r = pass-attached creat excl value limit p.held p.leaked p.answers s k p.ends in
    (r.0, r.3, (p, r.1, wait_ready-SawReady max_tries creat p.answers.stats 0 r.2))

-- A call that fails unlinks the path exactly if its last pass has created the file.
pub failed_open_unlinks :
    (creat excl : Bool) (value limit : ℕ) (answers : List Answers) {e : Errno}
    {unlinked unmapped : Bool} {k : ℕ}
    → mysem_open creat excl value limit answers ≡ open_failed e unlinked unmapped k
    → (p : LastPass creat excl value limit (open_failed e unlinked unmapped k) answers) × (unlinked
        ≡ creates creat p.answers.excl_open)
failed_open_unlinks creat excl value limit answers {e} {unlinked} {unmapped} {k} h =
    let p =
      open-LastPass creat excl value limit (open_failed e unlinked unmapped k) (λ e. cc) answers
        h in
    (p, pass-unlinks creat excl value limit p.held p.leaked p.answers e unlinked unmapped k p.ends)
