-- ===== src/StreamIo/Writing.antt =====
-- What writen makes of a descriptor that keeps the promises of write.
use mathlib.Core.List.{append_assoc, append-nil}
use com_tutor.Base.{
  ℕ, zero, suc, ◌+◌, ◌-◌, ◌<◌, ◌≡◌, ◌⊎◌, inl, inr, refl, sym, ◌∙◌, ap, subst, List, [], ◌∷◌, ◌++◌,
  length, take, drop, ◌==◌, if◌then◌else◌, arith, Bool-cases, ==→eq,
}
use com_tutor.Base.Errno.{Errno}
use com_tutor.StreamIo.{
  End, stopped, failed, looping, Reply, returned, refusal, stale, endless, Taken, took, signalled,
  denied, Writer, writen_loop, writen,
}

take-append-drop {ℓ} : {A : Type ℓ} (k : ℕ) (xs : List A) → take k xs ++ drop k xs ≡ xs
take-append-drop zero xs = refl
take-append-drop (suc k) [] = refl
take-append-drop (suc k) (x ∷ xs) = ap (λ r. x ∷ r) (take-append-drop k xs)

length-drop {ℓ} : {A : Type ℓ} (k : ℕ) (xs : List A) → length (drop k xs) ≡ length xs - k
length-drop zero xs = omega arith
length-drop (suc k) [] = omega arith
length-drop (suc k) (x ∷ xs) = length-drop k xs ∙ omega arith

-- How a loop ends with the bytes `post` left: with none left, or as write has answered them.
abbrev pub IsEnd : (d : Writer) → End → (post : List ℕ) → d.State → Type 0
IsEnd d (stopped zero) post s' = post ≡ []
IsEnd d (stopped (suc l)) post s' =
    (0 < length post) × ((s : d.State) × (d.write s post ≡ (took 0, s')))
IsEnd d (failed e) post s' = (s : d.State) × (d.write s post ≡ (denied e, s'))
IsEnd d looping post s' = ⊥

-- What a loop that was to write `bs` has done: the descriptor has taken a prefix of the bytes, and the
-- loop has ended for what it leaves.
abbrev pub HasWritten : (d : Writer) → (bs : List ℕ) → d.State → End → d.State → Type 0
HasWritten d bs s e s' =
    (pre : List ℕ) × (post : List ℕ) × (bs ≡ pre ++ post)
    × (d.sink s' ≡ d.sink s ++ pre)
    × IsEnd d e post s'

module _ (d : Writer) where
  HasWritten-more :
      (pre bs : List ℕ) (s s' : d.State) (e : End) (s'' : d.State)
      → d.sink s' ≡ d.sink s ++ pre
      → HasWritten d bs s' e s''
      → HasWritten d (pre ++ bs) s e s''
  HasWritten-more pre bs s s' e s'' first (p, post, whole, sunk, end) = (
    pre ++ p,
    post,
    ap (λ l. pre ++ l) whole ∙ sym (append_assoc pre p post),
    sunk ∙ ap (λ l. l ++ p) first ∙ append_assoc (d.sink s) pre p,
    end,
  )

  -- A loop that ends at once, with bytes left or an error.
  HasWritten-none :
      (bs : List ℕ) (s : d.State) (e : End) (s' : d.State)
      → d.sink s' ≡ d.sink s
      → IsEnd d e bs s'
      → HasWritten d bs s e s'
  HasWritten-none bs s e s' same end = ([], bs, refl, same ∙ sym (append-nil (d.sink s)), end)

  HasWritten-round :
      (k : ℕ) (bs : List ℕ) (s : d.State)
      → 0 < length bs
      → length bs + d.interrupts s < suc k
      → ((bs' : List ℕ) (s' : d.State)
          → length bs' + d.interrupts s' < k
          → let (e, s'') = writen_loop d k bs' s' in HasWritten d bs' s' e s'')
      → (answer : Taken) (s' : d.State) → d.write s bs ≡ (answer, s')
      → let (e, s'') = elim answer as (λ x. End × d.State) [
        | signalled ↦ writen_loop d k bs s'
        | denied e ↦ (failed e, s')
        | took n ↦
            let rest = writen_loop d k (drop n bs) s' in
            if n == 0 then (stopped (length bs), s') else rest
      ] in
        HasWritten d bs s e s''
  HasWritten-round k bs s some enough rest signalled s' q =
      let h = rest bs s' (omega (arith, enough, d.signalled_law s bs s' q)) in
      HasWritten-more [] bs s s' (writen_loop d k bs s').0 (writen_loop d k bs s').1
        (d.other_law s bs signalled s' q (inl refl) ∙ sym (append-nil (d.sink s))) h
  HasWritten-round k bs s some enough rest (denied e) s' q =
      HasWritten-none bs s (failed e) s' (d.other_law s bs (denied e) s' q (inr (e, refl))) (s, q)
  HasWritten-round k bs s some enough rest (took n) s' q = elim (Bool-cases (n == 0)) [
    | inl none_taken ↦
        let (fits, sunk, fewer) = d.took_law s bs n s' q in
        let nothing : n ≡ 0 = ==→eq n 0 none_taken in
        rw none_taken (
          HasWritten-none bs s (stopped (length bs)) s'
            (sunk ∙ ap (λ i. d.sink s ++ take i bs) nothing ∙ append-nil (d.sink s))
            (left bs s' some (q ∙ ap (λ i. (took i, s')) nothing)))
    | inr some_taken ↦
        let (fits, sunk, fewer) = d.took_law s bs n s' q in
        let h =
          rest (drop n bs) s' (ground (arith, length-drop n bs, fits, fewer, enough, some_taken)) in
        let (e, s'') = writen_loop d k (drop n bs) s' in
        rw some_taken (
          subst (λ l. HasWritten d l s e s'') (take-append-drop n bs)
            (HasWritten-more (take n bs) (drop n bs) s s' e s'' sunk h))
  ]
    where
      left :
          (l : List ℕ) (s' : d.State)
          → 0 < length l
          → d.write s l ≡ (took 0, s')
          → IsEnd d (stopped (length l)) l s'
      left [] s' h e = absurd (omega (arith, h))
      left (b ∷ l) s' h e = (h, (s, e))

  writen_loop-HasWritten :
      (rounds : ℕ) (bs : List ℕ) (s : d.State)
      → length bs + d.interrupts s < rounds
      → let (e, s') = writen_loop d rounds bs s in HasWritten d bs s e s'
  unfolding writen_loop
  writen_loop-HasWritten zero bs s h = absurd (omega (arith, h))
  writen_loop-HasWritten (suc k) [] s h = HasWritten-none [] s (stopped 0) s refl refl
  writen_loop-HasWritten (suc k) (b ∷ bs) s h =
      HasWritten-round k (b ∷ bs) s (omega arith) h (writen_loop-HasWritten k)
        (d.write s (b ∷ bs)).0 (d.write s (b ∷ bs)).1 refl

  -- writen, with a round for each byte and each signal, always returns: the number of the bytes, when
  -- the descriptor has taken all of them; or -1, when it has taken a prefix of them and a write of the
  -- others was answered with the error that the call gives, or took none of them.
  pub writen_returns :
      (rounds : ℕ) (bs : List ℕ) (s : d.State)
      → length bs + d.interrupts s < rounds
      → let (r, s') = writen d rounds bs s in
        ((r ≡ returned (length bs)) × (d.sink s' ≡ d.sink s ++ bs))
        ⊎ ((pre : List ℕ) × (post : List ℕ) × (bs ≡ pre ++ post)
            × (d.sink s' ≡ d.sink s ++ pre)
            × ((s'' : d.State) × (((r ≡ stale)
                    × (0 < length post)
                    × (d.write s'' post ≡ (took 0, s')))
                  ⊎ ((e : Errno) × (r ≡ refusal e) × (d.write s'' post ≡ (denied e, s'))))))
  unfolding writen
  writen_returns rounds bs s h =
      let w = writen_loop-HasWritten rounds bs s h in
      let (e, s') = writen_loop d rounds bs s in replies e s' w
    where
      replies :
          (e : End) (s' : d.State)
          → HasWritten d bs s e s'
          → let r = elim e as (λ x. Reply) [
            | stopped nleft ↦ if nleft == 0 then returned (length bs) else stale
            | failed err ↦ refusal err
            | looping ↦ endless
          ] in
            ((r ≡ returned (length bs)) × (d.sink s' ≡ d.sink s ++ bs))
            ⊎ ((pre : List ℕ) × (post : List ℕ) × (bs ≡ pre ++ post)
                × (d.sink s' ≡ d.sink s ++ pre)
                × ((s'' : d.State) × (((r ≡ stale)
                        × (0 < length post)
                        × (d.write s'' post ≡ (took 0, s')))
                      ⊎ ((e : Errno) × (r ≡ refusal e) × (d.write s'' post ≡ (denied e, s'))))))
      replies looping s' (pre, post, whole, sunk, end) = absurd end
      replies (failed err) s' (pre, post, whole, sunk, (s'', end)) =
          inr (pre, post, whole, sunk, (s'', inr (err, refl, end)))
      replies (stopped zero) s' (pre, post, whole, sunk, none) = inl (
        refl,
        sunk ∙ ap (λ l. d.sink s ++ l) (sym (whole ∙ ap (λ l. pre ++ l) none ∙ append-nil pre)),
      )
      replies (stopped (suc l)) s' (pre, post, whole, sunk, (some, (s'', end))) =
          inr (pre, post, whole, sunk, (s'', inl (ground arith, some, end)))
