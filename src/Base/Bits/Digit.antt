-- ===== src/Base/Bits/Digit.antt =====
-- The binary digits of a number, and of the results of `&`, `|`, `^`, `~` and `1 << b`.
use Prim.Native.Nat.{
  ℕ, zero, suc, ◌-◌, ◌*◌, ◌/◌, ◌%◌, ◌^◌, ◌<◌, min, max, bit_and, bit_or, bit_xor, differ,
}
use mathlib.Core.Path.{◌≡◌, refl, ap, ◌∙◌}
use native.Mathlib.Nat.{pow-suc, one-le-pow, pow-le-pow_right}
use native.Mathlib.Omega.{arith}
use Prim.Native.Nat.{bit_and-bitwise}
use flame_os.Base.Bits.Step.{bit_or_step, bit_and_step, bit_xor_step}
use flame_os.Base.Bits.{bit_and-zero, times_pow-suc}
use flame_os.Base.Tests.{◌==◌, if◌then◌else◌}

-- Digit `i` of `a`, lowest first.
abbrev pub digit : ℕ → ℕ → ℕ
digit a zero = a % 2
digit a (suc i) = digit (a / 2) i

pub digit-lt : (a i : ℕ) → digit a i < 2
digit-lt a zero = omega arith
digit-lt a (suc i) = digit-lt (a / 2) i

digit-zero : (i : ℕ) → digit 0 i ≡ 0
digit-zero zero = refl
digit-zero (suc i) = digit-zero i

pub digit-bit_or : (a b i : ℕ) → digit (bit_or a b) i ≡ max (digit a i) (digit b i)
digit-bit_or a b zero = omega (arith, bit_or_step a b)
digit-bit_or a b (suc i) =
    let e : bit_or a b / 2 ≡ bit_or (a / 2) (b / 2) = omega (arith, bit_or_step a b) in
    rw e (digit-bit_or (a / 2) (b / 2) i)

pub digit-bit_and : (a b i : ℕ) → digit (bit_and a b) i ≡ min (digit a i) (digit b i)
digit-bit_and a b zero = omega (arith, bit_and_step a b)
digit-bit_and a b (suc i) =
    let e : bit_and a b / 2 ≡ bit_and (a / 2) (b / 2) = omega (arith, bit_and_step a b) in
    rw e (digit-bit_and (a / 2) (b / 2) i)

differ-lt : (a b : ℕ) → a < 2 → b < 2 → differ a b < 2
differ-lt zero b p q = q
differ-lt (suc zero) zero p q = omega arith
differ-lt (suc zero) (suc zero) p q = omega arith
differ-lt (suc zero) (suc (suc b)) p q = absurd (omega arith)
differ-lt (suc (suc a)) b p q = absurd (omega arith)

differ-one : (a : ℕ) → a < 2 → differ a 1 ≡ 1 - a
differ-one zero p = refl
differ-one (suc zero) p = refl
differ-one (suc (suc a)) p = absurd (omega arith)

digit-bit_xor : (a b i : ℕ) → digit (bit_xor a b) i ≡ differ (digit a i) (digit b i)
digit-bit_xor a b zero = omega (arith, bit_xor_step a b, differ-lt (a % 2) (b % 2))
digit-bit_xor a b (suc i) =
    let e : bit_xor a b / 2 ≡ bit_xor (a / 2) (b / 2) =
      omega (arith, bit_xor_step a b, differ-lt (a % 2) (b % 2)) in
    rw e (digit-bit_xor (a / 2) (b / 2) i)

-- `1 << b` has one digit.
pub digit-pow : (b i : ℕ) → digit (2 ^ b) i ≡ (if b == i then 1 else 0)
digit-pow zero zero = refl
digit-pow zero (suc i) = ground (arith, digit-zero i)
digit-pow (suc b) zero = ground (arith, pow-suc 2 b)
digit-pow (suc b) (suc i) =
    let e : 2 ^ suc b / 2 ≡ 2 ^ b = omega (arith, pow-suc 2 b) in
    rw e (ground (arith, digit-pow b i))

digit-ones : (n i : ℕ) → i < n → digit (2 ^ n - 1) i ≡ 1
digit-ones zero i h = absurd (omega arith)
digit-ones (suc n) zero h = omega (arith, pow-suc 2 n, one-le-pow n 2)
digit-ones (suc n) (suc i) h =
    let e : (2 ^ suc n - 1) / 2 ≡ 2 ^ n - 1 = omega (arith, pow-suc 2 n, one-le-pow n 2) in
    rw e (digit-ones n i (omega arith))

-- `w | (1 << b)` sets digit `b`.
pub digit-set_bit : (w b i : ℕ) → digit (bit_or w (2 ^ b)) i ≡ (if b == i then 1 else digit w i)
digit-set_bit w b i = ground (arith, digit-bit_or w (2 ^ b) i, digit-pow b i, digit-lt w i)

-- `w & ~(1 << b)` clears digit `b`, in 32 bits.
pub digit-clear_bit :
    (w b i : ℕ)
    → i < 32
    → digit (bit_and w (bit_xor (2 ^ b) 0xffff_ffff)) i ≡ (if b == i then 0 else digit w i)
digit-clear_bit w b i h = ground (
  arith,
  digit-bit_and w (bit_xor (2 ^ b) 0xffff_ffff) i,
  digit-bit_xor (2 ^ b) 0xffff_ffff i,
  digit-ones 32 i h,
  digit-pow b i,
  differ-one (digit (2 ^ b) i) (digit-lt (2 ^ b) i),
  digit-lt w i,
)

-- `w & (1 << b)` is digit `b` in its place.
pub bit_and-pow : (w b : ℕ) → bit_and w (2 ^ b) ≡ digit w b * 2 ^ b
bit_and-pow w zero = omega (arith, bit_and_step w 1, bit_and-zero (w / 2))
bit_and-pow w (suc b) = ground (
  arith,
  bit_and_step w (2 ^ suc b),
  times_pow-suc (digit (w / 2) b) b,
  pow-suc 2 b,
  bit_and-pow (w / 2) b,
)

-- Two `n`-bit numbers with the same digits are the same.
pub eq_of_digits :
    (n a b : ℕ) → a < 2 ^ n → b < 2 ^ n → ((i : ℕ) → i < n → digit a i ≡ digit b i) → a ≡ b
eq_of_digits zero a b p q h = omega arith
eq_of_digits (suc n) a b p q h = omega (
  arith,
  pow-suc 2 n,
  h 0 (omega arith),
  eq_of_digits n (a / 2) (b / 2) (omega (arith, pow-suc 2 n)) (omega (arith, pow-suc 2 n))
      (λ i l. h (suc i) (omega arith)),
)

pub bit_or-lt : (n a b : ℕ) → a < 2 ^ n → b < 2 ^ n → bit_or a b < 2 ^ n
bit_or-lt zero zero zero p q = omega arith
bit_or-lt zero zero (suc b) p q = absurd (omega arith)
bit_or-lt zero (suc a) b p q = absurd (omega arith)
bit_or-lt (suc n) a b p q = omega (
  arith,
  pow-suc 2 n,
  bit_or_step a b,
  bit_or-lt n (a / 2) (b / 2) (omega (arith, pow-suc 2 n)) (omega (arith, pow-suc 2 n)),
)

pub bit_and-lt : (n a b : ℕ) → a < 2 ^ n → bit_and a b < 2 ^ n
bit_and-lt zero zero b p = omega (arith, bit_and_step 0 b, bit_and-bitwise 0 (b / 2))
bit_and-lt zero (suc a) b p = absurd (omega arith)
bit_and-lt (suc n) a b p = omega (
  arith,
  pow-suc 2 n,
  bit_and_step a b,
  bit_and-lt n (a / 2) (b / 2) (omega (arith, pow-suc 2 n)),
)

pub pow-lt_word : (b : ℕ) → b < 32 → 2 ^ b < 2 ^ 32
pow-lt_word b h =
    omega (arith, pow-le-pow_right {n = 2} (omega arith) {i = b} {j = 31} (omega arith))

-- Clearing the bit that was just set, where it was clear before, gives the word back.
pub clear_bit-set_bit :
    (w b : ℕ)
    → w < 2 ^ 32
    → digit w b ≡ 0
    → b < 32
    → bit_and (bit_or w (2 ^ b)) (bit_xor (2 ^ b) 0xffff_ffff) ≡ w
clear_bit-set_bit w b hw hd hb =
    eq_of_digits 32 _ w (bit_and-lt 32 _ _ (bit_or-lt 32 w (2 ^ b) hw (pow-lt_word b hb))) hw
      λ i h. digit-clear_bit (bit_or w (2 ^ b)) b i h ∙ same i
  where
    same : (i : ℕ) → (if b == i then 0 else digit (bit_or w (2 ^ b)) i) ≡ digit w i
    same i = ground (arith, digit-set_bit w b i, digit_at)
      where
        digit_at : b ≡ i → digit w b ≡ digit w i
        digit_at e = ap (digit w) e
