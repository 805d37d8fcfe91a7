-- ===== src/StrCli/Buffers.antt =====
-- What a buffer of str_cli holds after a read into it and a write from it.
use mathlib.Core.List.{append_assoc, append-nil}
use com_tutor.Base.{
  ℕ, zero, suc, ◌+◌, ◌-◌, ◌≤◌, ◌<◌, ◌≡◌, refl, inl, inr, sym, ◌∙◌, ap, ap₂, List, [], ◌∷◌, ◌++◌,
  length, length-append, ◌==◌, Bool-cases, update, update_at, update_off, arith,
}
use com_tutor.StrCli.{maxline, Buffer, window, held, store, fill, drain}

window-append : (f : ℕ → ℕ) (o m n : ℕ) → window f o (m + n) ≡ window f o m ++ window f (o + m) n
unfolding window
window-append f o zero n = ap₂ (λ i l. window f i l) (omega arith) (omega arith)
window-append f o (suc m) n =
    ap (λ k. window f o k) {x = suc m + n} {y = suc (m + n)} (omega arith)
    ∙ ap (λ l. f o ∷ l)
        (window-append f (o + 1) m n ∙ ap (λ i. window f (o + 1) m ++ window f i n) (omega arith))

pub length-window : (f : ℕ → ℕ) (o n : ℕ) → length (window f o n) ≡ n
unfolding window
length-window f o zero = refl
length-window f o (suc n) = ap suc (length-window f (o + 1) n)

store_before : (f : ℕ → ℕ) (i : ℕ) (bs : List ℕ) (j : ℕ) → j < i → store f i bs j ≡ f j
unfolding store
store_before f i [] j h = refl
store_before f i (b ∷ bs) j h =
    store_before (update f i b) (i + 1) bs j (omega (arith, h))
    ∙ update_off f i b j (λ q. absurd (omega (arith, h, q)))

window_before :
    (f : ℕ → ℕ) (i : ℕ) (bs : List ℕ) (o n : ℕ)
    → o + n ≤ i
    → window (store f i bs) o n ≡ window f o n
unfolding window
window_before f i bs o zero h = refl
window_before f i bs o (suc n) h =
    ap₂ (λ x l. x ∷ l) (store_before f i bs o (omega (arith, h)))
      (window_before f i bs (o + 1) n (omega (arith, h)))

window-store : (f : ℕ → ℕ) (i : ℕ) (bs : List ℕ) → window (store f i bs) i (length bs) ≡ bs
unfolding window store
window-store f i [] = refl
window-store f i (b ∷ bs) =
    ap₂ (λ x l. x ∷ l) (store_before (update f i b) (i + 1) bs i (omega arith) ∙ update_at f i b)
      (window-store (update f i b) (i + 1) bs)

-- `inn` is what has been read into the buffer, `out` what has been written from it. An empty buffer
-- has its pointers at the beginning.
pub record Copies (b : Buffer) (inn out : List ℕ) : Type 0 where
  pub order : b.optr ≤ b.iptr
  pub bound : b.iptr ≤ maxline
  pub begin : b.optr ≡ b.iptr → b.iptr ≡ 0
  pub content : inn ≡ out ++ held b

pub fill-Copies :
    (b : Buffer) (inn out : List ℕ) (x : ℕ) (bs : List ℕ)
    → length (x ∷ bs) ≤ maxline - b.iptr
    → Copies b inn out
    → Copies (fill (x ∷ bs) b) (inn ++ (x ∷ bs)) out
fill-Copies b inn out x bs fits h = record {
  order = omega (arith, h.order);
  bound = omega (arith, fits, h.bound);
  begin = λ q. absurd (omega (arith, q, h.order));
  content =
      ap (λ l. l ++ (x ∷ bs)) h.content
      ∙ append_assoc out (held b) (x ∷ bs)
      ∙ ap (λ l. out ++ l) (sym longer);
}
  where
    n : ℕ
    n = length (x ∷ bs)

    f : ℕ → ℕ
    f = store b.bytes b.iptr (x ∷ bs)

    longer : window f b.optr (b.iptr + n - b.optr) ≡ held b ++ (x ∷ bs)
    longer =
        ap (λ m. window f b.optr m) (omega (arith, h.order))
        ∙ window-append f b.optr (b.iptr - b.optr) n
        ∙ ap₂ (λ u v. u ++ v)
            (window_before b.bytes b.iptr (x ∷ bs) b.optr (b.iptr - b.optr)
              (omega (arith, h.order)))
            (ap (λ i. window f i n) (omega (arith, h.order)) ∙ window-store b.bytes b.iptr (x ∷ bs))

pub drain-Copies :
    (b : Buffer) (inn out : List ℕ) (n : ℕ)
    → n ≤ b.iptr - b.optr
    → Copies b inn out
    → Copies (drain n b) inn (out ++ window b.bytes b.optr n)
unfolding window
drain-Copies b inn out n fits h = elim (Bool-cases (b.optr + n == b.iptr)) [
  | inl all ↦ rw all (record {
    order = omega arith;
    bound = omega arith;
    begin = λ q. refl;
    content =
        split
        ∙ ap (λ m. out ++ window b.bytes b.optr n ++ window b.bytes (b.optr + n) m)
            {x = b.iptr - b.optr - n} {y = 0} (ground (arith, all));
  })
  | inr some_left ↦ rw some_left (record {
    order = omega (arith, fits, h.order);
    bound = h.bound;
    begin = λ q. absurd (ground (arith, some_left, q));
    content =
        split
        ∙ ap (λ m. out ++ window b.bytes b.optr n ++ window b.bytes (b.optr + n) m)
            (omega (arith, fits, h.order));
  })
]
  where
    split :
        inn ≡ out ++ window b.bytes b.optr n ++ window b.bytes (b.optr + n) (b.iptr - b.optr - n)
    split =
        h.content
        ∙ ap (λ m. out ++ window b.bytes b.optr m) (omega (arith, fits, h.order))
        ∙ ap (λ l. out ++ l) (window-append b.bytes b.optr n (b.iptr - b.optr - n))
        ∙ sym (
            append_assoc out (window b.bytes b.optr n)
              (window b.bytes (b.optr + n) (b.iptr - b.optr - n)))

-- What has been read has all been written exactly if the buffer is empty.
pub all_written : (b : Buffer) (inn out : List ℕ) → Copies b inn out → inn ≡ out → b.optr ≡ b.iptr
all_written b inn out h q =
    let same : length inn ≡ length out + (b.iptr - b.optr) =
      ap length h.content
      ∙ length-append out (held b)
      ∙ ap (λ n. length out + n) (length-window b.bytes b.optr (b.iptr - b.optr)) in
    omega (arith, same, ap length q, h.order)

pub none_held : (b : Buffer) (inn out : List ℕ) → Copies b inn out → b.optr ≡ b.iptr → inn ≡ out
unfolding window
none_held b inn out h e =
    h.content
    ∙ ap (λ n. out ++ window b.bytes b.optr n) {x = b.iptr - b.optr} {y = 0} (omega (arith, e))
    ∙ append-nil out
