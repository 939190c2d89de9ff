-- ===== src/Base/Bits/Step.antt =====
-- C's `&`, `|` and `^` at the lowest binary digit. The library gives the native operations a meaning
-- by `digits`, which counts down a fuel; all fuel from the first operand on gives one result.
use Prim.Native.Nat.{
  ℕ, zero, suc, ◌+◌, ◌*◌, ◌/◌, ◌%◌, ◌≤◌, ◌<◌, min, max, bit_and, bit_or, bit_xor, digits, bitwise,
  differ, bit_and-bitwise, bit_or-bitwise, bit_xor-bitwise,
}
use mathlib.Core.Path.{◌≡◌, refl}
use native.Mathlib.Nat.{le_refl}
use native.Mathlib.Omega.{arith}

-- `z` gives the result for a first operand of 0, and `f` the digit of two digits.
module _ (z : ℕ → ℕ) (f : ℕ → ℕ → ℕ) where
  more_fuel : (low high x y : ℕ) → x ≤ low → low ≤ high → digits z f high x y ≡ digits z f low x y
  more_fuel zero zero x y enough more = refl
  more_fuel (suc low) zero x y enough more = absurd (omega arith)
  more_fuel zero (suc high) (suc x) y enough more = absurd (omega arith)
  more_fuel zero (suc high) zero y enough more = refl
  more_fuel (suc low) (suc high) zero y enough more = refl
  more_fuel (suc low) (suc high) (suc x) y enough more =
      rw (more_fuel low high (suc x / 2) (y / 2) (omega arith) (omega arith)) refl

  lowest_digit :
      ((y : ℕ) → z y ≡ z (y / 2) * 2 + f 0 (y % 2))
      → (x y : ℕ) → bitwise z f x y ≡ bitwise z f (x / 2) (y / 2) * 2 + f (x % 2) (y % 2)
  lowest_digit at_zero zero y = at_zero y
  lowest_digit at_zero (suc x) y =
      let half : suc x / 2 ≤ x = omega arith in
      omega (arith, more_fuel (suc x / 2) x (suc x / 2) (y / 2) (le_refl (suc x / 2)) half)

pub bit_and_step : (x y : ℕ) → bit_and x y ≡ bit_and (x / 2) (y / 2) * 2 + min (x % 2) (y % 2)
bit_and_step x y = simp bit_and-bitwise (lowest_digit (λ _. 0) min (λ d. omega arith) x y)

pub bit_or_step : (x y : ℕ) → bit_or x y ≡ bit_or (x / 2) (y / 2) * 2 + max (x % 2) (y % 2)
bit_or_step x y = simp bit_or-bitwise (lowest_digit (λ d. d) max (λ d. omega arith) x y)

differ-zero : (d : ℕ) → d < 2 → differ 0 d ≡ d
differ-zero zero h = refl
differ-zero (suc zero) h = refl
differ-zero (suc (suc d)) h = absurd (omega arith)

pub bit_xor_step : (x y : ℕ) → bit_xor x y ≡ bit_xor (x / 2) (y / 2) * 2 + differ (x % 2) (y % 2)
bit_xor_step x y =
    simp bit_xor-bitwise
      (lowest_digit (λ d. d) differ (λ d. ground (arith, differ-zero (d % 2))) x y)
