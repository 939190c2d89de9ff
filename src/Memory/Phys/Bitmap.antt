-- ===== src/Memory/Phys/Bitmap.antt =====
-- The bitmap as the set of pages in use: page `n` is bit `n % 32` of word `n / 32`, and the pages
-- are numbered through the areas of `freemap` in order.
use native.Mathlib.Nat.{one-le-pow}
use flame_os.Base.{
  ℕ, zero, suc, ◌+◌, ◌-◌, ◌*◌, ◌/◌, ◌%◌, ◌^◌, ◌≡◌, Option, none, some, List, [], ◌∷◌, arith, ltb,
  ◌==◌, if◌then◌else◌, bit_and, bit_or, not32, ◌<<<◌,
}
use flame_os.Base.Bits.Digit.{digit, digit-set_bit, digit-clear_bit, bit_and-pow, digit-lt}
use flame_os.Memory.Phys.{FreeArea, Bitmap, write_word, page_size}

-- 1 if page `n` is in use, 0 if it is free.
abbrev pub used : Bitmap → ℕ → ℕ
used m n = digit (m (n / 32)) (n % 32)

abbrev pub mark : Bitmap → ℕ → Bitmap
mark m n = write_word m (n / 32) (bit_or (m (n / 32)) (2 ^ (n % 32)))

abbrev pub unmark : Bitmap → ℕ → Bitmap
unmark m n = write_word m (n / 32) (bit_and (m (n / 32)) (not32 (2 ^ (n % 32))))

pub used-mark : (m : Bitmap) (n i : ℕ) → used (mark m n) i ≡ (if n == i then 1 else used m i)
used-mark m n i = ground (arith, digit-set_bit (m (n / 32)) (n % 32) (i % 32))

pub used-unmark : (m : Bitmap) (n i : ℕ) → used (unmark m n) i ≡ (if n == i then 0 else used m i)
used-unmark m n i = ground (arith, digit-clear_bit (m (n / 32)) (n % 32) (i % 32) (omega arith))

-- The test of the source, `pmem_bmap[h] & 1 << bit`.
pub test_bit : (w b : ℕ) → (bit_and w (1 <<< b) == 0) ≡ (digit w b == 0)
test_bit w b = grind (arith, bit_and-pow w b, digit-lt w b, one-le-pow b 2)

abbrev pub total : List FreeArea → ℕ
total [] = 0
total (d ∷ ds) = d.blocks + total ds

-- The address of page `n`.
abbrev pub page_addr : List FreeArea → ℕ → ℕ
page_addr [] n = 0
page_addr (d ∷ ds) n =
    if ltb n d.blocks then d.addr + page_size * n else page_addr ds (n - d.blocks)

-- The first free page among `count` pages from `n` on.
abbrev pub first_free : ℕ → ℕ → Bitmap → Option ℕ
first_free zero n m = none
first_free (suc count) n m = if used m n == 0 then some n else first_free count (n + 1) m
