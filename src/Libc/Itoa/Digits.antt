-- ===== src/Libc/Itoa/Digits.antt =====
-- `getdigits`: with enough fuel it counts the digits of its number.
use native.Mathlib.Nat.{
  pow-zero, pow-le-pow_right, pow-suc, div-lt_iff_lt-mul, le-div_iff_mul-le, mul-le-mul_left,
}
use flame_os.Base.{
  ℕ, zero, suc, ◌+◌, ◌-◌, ◌*◌, ◌/◌, ◌^◌, ◌≤◌, ◌<◌, ◌≡◌, refl, ap, ◌∙◌, inl, inr, ok, leb, ◌==◌,
  arith, Bool-cases,
}
use flame_os.Libc.Itoa.{digits_loop, getdigits}

-- `n` is a number of `d` digits, with no leading zero.
pub record DigitCount (n base d : ℕ) : Type 0 where
  pub bound : n < base ^ d
  pub full : 0 < n → base ^ (d - 1) ≤ n

half : (n base bound : ℕ) → 2 ≤ base → n < bound * 2 → n / base < bound
half n base bound h l = (div-lt_iff_lt-mul (omega arith)).1 (omega (arith, mul-le-mul_left bound h))

pred : (d : ℕ) → suc d - 1 ≡ d
pred d = omega arith

full :
    (n base d : ℕ)
    → 2 ≤ base
    → 0 < n
    → DigitCount (n / base) base d
    → (0 < n / base → 0 < d)
    → (n / base ≡ 0 → d ≡ 0)
    → base ^ d ≤ n
full n base zero h p count pos none = omega (arith, pow-zero base)
full n base (suc d) h p count pos none = elim (Bool-cases (n / base == 0)) [
  | inl z ↦ absurd (ground (arith, none))
  | inr more ↦
      let lower : base ^ d ≤ n / base = rw (pred d) at (count.full (ground arith)) in
      omega (
        arith,
        (le-div_iff_mul-le {k = base} {x = base ^ d} {y = n} (omega arith)).0 lower,
        pow-suc base d,
      )
]

later :
    (fuel n base c d : ℕ)
    → 2 ≤ base
    → 0 < n
    → digits_loop fuel (n / base) base (c + 1) ≡ ok (c + 1 + d)
    → digits_loop (suc fuel) n base c ≡ ok (c + suc d)
unfolding digits_loop
later fuel n base c d h p e =
    let sum : c + 1 + d ≡ c + suc d = omega arith in ground (arith, e, sum)

DigitCount-suc :
    (n base d : ℕ)
    → 2 ≤ base
    → DigitCount (n / base) base d
    → (0 < n / base → 0 < d)
    → (n / base ≡ 0 → d ≡ 0)
    → DigitCount n base (suc d)
DigitCount-suc n base d h count pos none = record {
  bound =
      let upper : n < base ^ d * base = (div-lt_iff_lt-mul (omega arith)).0 count.bound in
      omega (arith, upper, pow-suc base d);
  full = λ p. rw (pred d) (full n base d h p count pos none);
}

-- Enough fuel for `getdigits`: one round for each binary digit.
digits_loop_lem :
    (fuel n base c : ℕ)
    → 2 ≤ base
    → n < 2 ^ fuel
    → (d : ℕ) × (digits_loop fuel n base c ≡ ok (c + d))
      × DigitCount n base d
      × (0 < n → 0 < d)
      × (n ≡ 0 → d ≡ 0)
unfolding digits_loop
digits_loop_lem zero n base c h l = (
  0,
  ground arith,
  record { bound = omega (arith, pow-zero base); full = λ p. omega arith },
  λ p. omega arith,
  λ z. refl,
)
digits_loop_lem (suc fuel) n base c h l = elim (Bool-cases (n == 0)) [
  | inl none_left ↦ (
    0,
    ground arith,
    record { bound = ground (arith, pow-zero base); full = λ p. ground arith },
    λ p. ground arith,
    λ z. refl,
  )
  | inr more ↦
      let (d, e, count, pos, none) =
        digits_loop_lem fuel (n / base) base (c + 1) h
          (half n base (2 ^ fuel) h (omega (arith, pow-suc 2 fuel))) in
      (
        suc d,
        later fuel n base c d h (ground arith) e,
        DigitCount-suc n base d h count pos none,
        λ p. omega arith,
        λ z. ground arith,
      )
]

first_power : (base : ℕ) → base ^ 1 ≡ base
first_power base = pow-suc base 0 ∙ ap (λ (t : ℕ). t * base) (pow-zero base) ∙ omega arith

pub getdigits_lem :
    (fuel n base : ℕ)
    → 2 ≤ base
    → n < 2 ^ fuel
    → (d : ℕ) × (getdigits fuel n base ≡ ok d) × DigitCount n base d × (n ≡ 0 → d ≡ 1)
unfolding getdigits
getdigits_lem fuel n base h l = elim (Bool-cases (n == 0)) [
  | inl z ↦ (
    1,
    ground arith,
    record { bound = ground (arith, first_power base); full = λ p. ground arith },
    λ z. refl,
  )
  | inr more ↦
      let (d, e, count, pos, _) = digits_loop_lem fuel n base 0 h l in
      (d, rw more (e ∙ ap ok (omega arith)), count, λ z. ground arith)
]

pub few_digits :
    (n base d k : ℕ)
    → 2 ≤ base
    → DigitCount n base d
    → (n ≡ 0 → d ≡ 1)
    → 0 < k
    → n < base ^ k
    → d ≤ k
few_digits n base d k h count one pos l = elim (Bool-cases (leb d k)) [
  | inl fits ↦ ground arith
  | inr more ↦ elim (Bool-cases (n == 0)) [
    | inl z ↦ ground (arith, one)
    | inr some_digit ↦
        let up : base ^ k ≤ base ^ (d - 1) = pow-le-pow_right (omega arith) (ground arith) in
        let low : base ^ (d - 1) ≤ n = count.full (ground arith) in absurd (omega arith)
  ]
]
