-- ===== src/Ping/Times.antt =====
-- The difference of two times in milliseconds.
use com_tutor.Base.{
  ℕ, zero, suc, ◌+◌, ◌-◌, ◌*◌, ◌/◌, ◌≤◌, ◌<◌, ◌≡◌, ◌⊎◌, inl, inr, refl, sym, ◌∙◌, ap, subst, arith,
  Bool-cases, ltb, ltb→lt,
}
use com_tutor.Base.Int.{ℤ, pos, negsuc, dec}
use com_tutor.Ping.{Timeval, minus, millis, cal_time_offset}

pub minus_ge : (a b : ℕ) → b ≤ a → minus a b ≡ pos (a - b)
minus_ge a zero h = ap pos (omega arith)
minus_ge zero (suc b) h = absurd (omega (arith, h))
minus_ge (suc a) (suc b) h = minus_ge a b (omega (arith, h)) ∙ ap pos (omega arith)

pub minus_lt : (a b : ℕ) → a < b → minus a b ≡ negsuc (b - suc a)
minus_lt a zero h = absurd (omega (arith, h))
minus_lt zero (suc b) h = ap negsuc (omega arith)
minus_lt (suc a) (suc b) h = minus_lt a b (omega (arith, h)) ∙ ap negsuc (omega arith)

-- A time in microseconds.
abbrev pub micros : Timeval → ℕ
micros t = t.tv_sec * 1000000 + t.tv_usec

abbrev pub IsTimeval : Timeval → Type 0
IsTimeval t = t.tv_usec < 1000000

order : (a b : ℕ) → (a < b) ⊎ (b ≤ a)
order a b = elim (Bool-cases (ltb a b)) [
  | inl less ↦ inl (ltb→lt a b less)
  | inr more ↦ inr (ground (arith, more))
]

dec-minus : (a b : ℕ) → dec (minus a b) ≡ minus a (suc b)
dec-minus zero zero = refl
dec-minus (suc a) zero = refl
dec-minus zero (suc b) = refl
dec-minus (suc a) (suc b) = dec-minus a b

millis-minus :
    (s s' ms : ℕ)
    → ms < 1000
    → ((s' ≤ s) × (millis (minus s s') ms ≡ pos ((s - s') * 1000 + ms)))
      ⊎ ((s < s') × (millis (minus s s') ms ≡ negsuc ((s' - s) * 1000 - suc ms)))
millis-minus s s' ms small = elim (order s s') [
  | inl less ↦ inr (
    less,
    rw (minus_lt s s' less) (
        minus_lt ms (suc (s' - suc s) * 1000) (omega (arith, less, small))
        ∙ ap negsuc (omega (arith, less))),
  )
  | inr more ↦ inl (more, rw (minus_ge s s' more) refl)
]

-- The same from the seconds after the borrow.
floor_of :
    (s s' u a b : ℕ)
    → u < 1000000
    → s * 1000000 + u + a ≡ s' * 1000000 + b
    → ((a ≤ b) × (millis (minus s s') (u / 1000) ≡ pos ((b - a) / 1000)))
      ⊎ ((b < a) × (millis (minus s s') (u / 1000) ≡ negsuc ((a - b - 1) / 1000)))
floor_of s s' u a b small e = elim (millis-minus s s' (u / 1000) (omega (arith, small))) [
  | inl (more, q) ↦ inl (omega (arith, more, e), q ∙ ap pos (omega (arith, more, e, small)))
  | inr (less, q) ↦
      inr (omega (arith, less, e, small), q ∙ ap negsuc (omega (arith, less, e, small)))
]

-- Between two well-formed times cal_time_offset gives the whole milliseconds, rounded down; also when the
-- second is before the first, when the result is negative.
pub cal_time_offset_floor :
    (a b : Timeval)
    → IsTimeval a
    → IsTimeval b
    → ((micros a ≤ micros b) × (cal_time_offset a b ≡ pos ((micros b - micros a) / 1000)))
      ⊎ ((micros b < micros a) × (cal_time_offset a b ≡ negsuc ((micros a - micros b - 1) / 1000)))
unfolding cal_time_offset
cal_time_offset_floor a b ok ok' = elim (order b.tv_usec a.tv_usec) [
  | inl less ↦
      let u = 1000000 - suc (a.tv_usec - suc b.tv_usec) in
      let e : cal_time_offset a b ≡ millis (minus b.tv_sec (suc a.tv_sec)) (u / 1000) =
        rw (cal_time_offset, minus_lt b.tv_usec a.tv_usec less)
          (ap (λ s. millis s (u / 1000)) (dec-minus b.tv_sec a.tv_sec)) in
      subst Floor (sym e) (
        floor_of b.tv_sec (suc a.tv_sec) u (micros a) (micros b) (omega arith)
          (omega (arith, less, ok)))
  | inr more ↦
      let u = b.tv_usec - a.tv_usec in
      let e : cal_time_offset a b ≡ millis (minus b.tv_sec a.tv_sec) (u / 1000) =
        rw (cal_time_offset, minus_ge b.tv_usec a.tv_usec more) refl in
      subst Floor (sym e) (
        floor_of b.tv_sec a.tv_sec u (micros a) (micros b) (omega (arith, ok'))
          (omega (arith, more)))
]
  where
    Floor : ℤ → Type 0
    Floor z =
        ((micros a ≤ micros b) × (z ≡ pos ((micros b - micros a) / 1000)))
        ⊎ ((micros b < micros a) × (z ≡ negsuc ((micros a - micros b - 1) / 1000)))
