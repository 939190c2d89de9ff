-- ===== src/Base/Bits.antt =====
-- The bit operations at variables: one equation for the lowest digit, the digits of each result,
-- and what a mask, a field and a single bit come to as arithmetic.
mod Step
pub mod Digit
use Step.{bit_or_step, bit_and_step}
use Prim.Native.Nat.{
  ℕ, zero, suc, ◌+◌, ◌-◌, ◌*◌, ◌/◌, ◌%◌, ◌^◌, ◌≤◌, ◌<◌, bit_and, bit_or, bit_and-bitwise,
}
use mathlib.Core.Path.{◌≡◌, refl, ap}
use native.Mathlib.Nat.{pow-suc, one-le-pow}
use native.Mathlib.Omega.{arith}

-- Induction on the number of binary digits.
by_halves :
    (P : ℕ → Type 0) → P 0 → ((a : ℕ) → P (suc a / 2) → P (suc a)) → (bound a : ℕ) → a ≤ bound → P a
by_halves P base step bound zero h = base
by_halves P base step zero (suc a) h = absurd (omega arith)
by_halves P base step (suc bound) (suc a) h =
    step a (by_halves P base step bound (suc a / 2) (omega arith))

pub bit_or-zero : (a : ℕ) → bit_or a 0 ≡ a
bit_or-zero a =
    by_halves (λ x. bit_or x 0 ≡ x) refl (λ x half. omega (arith, bit_or_step (suc x) 0, half)) a a
      (omega arith)

pub bit_and-zero : (a : ℕ) → bit_and a 0 ≡ 0
bit_and-zero a =
    by_halves (λ x. bit_and x 0 ≡ 0) refl (λ x half. omega (arith, bit_and_step (suc x) 0, half)) a
      a (omega arith)

pub times_pow-suc : (q k : ℕ) → q * 2 ^ suc k ≡ 2 * (q * 2 ^ k)
times_pow-suc q k = omega (arith, ap (λ (t : ℕ). q * t) (pow-suc 2 k))

-- `(q << k) | r` is a sum when `r` fits in `k` bits.
pub bit_or_field : (k q r : ℕ) → r < 2 ^ k → bit_or (q * 2 ^ k) r ≡ q * 2 ^ k + r
bit_or_field zero q r h = ground (arith, bit_or-zero q)
bit_or_field (suc k) q r h = ground (
  arith,
  bit_or_step (q * 2 ^ suc k) r,
  times_pow-suc q k,
  pow-suc 2 k,
  bit_or_field k q (r / 2) (omega (arith, pow-suc 2 k)),
)

-- `x & (2 ^ k - 1)` is a remainder.
pub bit_and_field : (k q r : ℕ) → r < 2 ^ k → bit_and (q * 2 ^ k + r) (2 ^ k - 1) ≡ r
bit_and_field zero q r h = ground (arith, bit_and-zero (q * 1 + r))
bit_and_field (suc k) q r h = ground (
  arith,
  bit_and_step (q * 2 ^ suc k + r) (2 ^ suc k - 1),
  times_pow-suc q k,
  pow-suc 2 k,
  one-le-pow k 2,
  bit_and_field k q (r / 2) (omega (arith, pow-suc 2 k)),
)

pub bit_and_mask : (k a : ℕ) → bit_and a (2 ^ k - 1) ≡ a % 2 ^ k
bit_and_mask k a = ground (arith, one-le-pow k 2, bit_and_field k (a / 2 ^ k) (a % 2 ^ k))

-- A mask whose low `j` bits are clear: `x & (m << j)`.
pub bit_and_high :
    (j q r m : ℕ) → r < 2 ^ j → bit_and (q * 2 ^ j + r) (m * 2 ^ j) ≡ bit_and q m * 2 ^ j
bit_and_high zero q r m h = ground arith
bit_and_high (suc j) q r m h = ground (
  arith,
  bit_and_step (q * 2 ^ suc j + r) (m * 2 ^ suc j),
  times_pow-suc q j,
  times_pow-suc m j,
  times_pow-suc (bit_and q m) j,
  pow-suc 2 j,
  bit_and_high j q (r / 2) m (omega (arith, pow-suc 2 j)),
)
