-- ===== src/Libc/Itoa.antt =====
-- libs/libc/stdlib/itoa.c. The output is a list of the characters of the array `out`; a write behind
-- its end, a digit that the table lacks and a division by 0 are faults.
pub mod Digits
pub mod Print
use flame_os.Base.{
  ℕ, zero, suc, ◌+◌, ◌-◌, ◌/◌, ◌%◌, List, [], ◌∷◌, Option, none, some, Run, ok, fault, out_of_fuel,
  ◌>>=◌, ltb, ◌==◌, if◌then◌else◌, length, get_elem?, set,
}

-- `while (num) { num /= base; ++counter; }`
pub digits_loop : (fuel num base counter : ℕ) → Run ℕ
digits_loop zero num base counter = if num == 0 then ok counter else out_of_fuel
digits_loop (suc fuel) num base counter =
    let rest = digits_loop fuel (num / base) base (counter + 1) in
    if num == 0 then ok counter else if base == 0 then fault else rest

unfoldable pub getdigits : (fuel num base : ℕ) → Run ℕ
unfolding digits_loop
getdigits fuel num base = if num == 0 then ok 1 else digits_loop fuel num base 0

-- '0' to '9' and 'A' to 'Z'.
abbrev pub digit : List ℕ
digit =
    48 ∷ 49 ∷ 50 ∷ 51 ∷ 52 ∷ 53 ∷ 54 ∷ 55 ∷ 56 ∷ 57 ∷ 65 ∷ 66 ∷ 67 ∷ 68 ∷ 69 ∷ 70 ∷ 71 ∷ 72 ∷ 73
    ∷ 74 ∷ 75 ∷ 76 ∷ 77 ∷ 78 ∷ 79 ∷ 80 ∷ 81 ∷ 82 ∷ 83 ∷ 84 ∷ 85 ∷ 86 ∷ 87 ∷ 88 ∷ 89 ∷ 90 ∷ []

-- `out[i] = c`
pub write : List ℕ → ℕ → ℕ → Run (List ℕ)
write out i c = if ltb i (length out) then ok (set out i c) else fault

pub write_digit : (num base i : ℕ) → List ℕ → Run (List ℕ)
unfolding write
write_digit num base i out =
    if base == 0
    then fault
    else elim (get_elem? digit (num % base)) [ none ↦ fault | some c ↦ write out i c ]

-- `while (count) { … }`
pub itoa_loop : (count num base : ℕ) → List ℕ → Run (List ℕ)
unfolding write_digit
itoa_loop zero num base out = ok out
itoa_loop (suc count) num base out =
    write_digit num base count out >>= itoa_loop count (num / base) base

-- The number of digits, and the array afterwards. The fuel is that of the loop of `getdigits`.
unfoldable pub itoa : (fuel num : ℕ) (out : List ℕ) (base : ℕ) → Run (ℕ × List ℕ)
unfolding getdigits itoa_loop write
itoa fuel num out base = do
  digits ← getdigits fuel num base
  written ← itoa_loop digits num base out
  closed ← write written digits 0
  ok (digits, closed)
