-- ===== src/Libc/Examples.antt =====
-- The theorems on libs/libc at concrete arguments.
use flame_os.Base.{
  ℕ, zero, suc, ◌+◌, ◌-◌, ◌≡◌, ◌≤◌, inl, refl, arith, List, [], ◌∷◌, ok, drop, leb, ltb, ◌&&◌,
  if◌then◌else◌, ◌==◌,
}
use flame_os.Libc.Itoa.{itoa}
use flame_os.Libc.Itoa.Digits.{DigitCount}
use flame_os.Libc.Itoa.Print.{number, numeral, itoa-numeral, itoa-debug_log}
use flame_os.Libc.Bytes.{Bytes, memcpy}
use flame_os.Libc.Bytes.Blocks.{memcpy_lem}
use flame_os.Libc.Bytes.Strings.{}

abbrev zeros : ℕ → List ℕ
zeros zero = []
zeros (suc n) = 0 ∷ zeros n

abbrev first_word : List ℕ
first_word = 65 ∷ 66 ∷ []

abbrev second_word : List ℕ
second_word = 65 ∷ 67 ∷ []

-- "AB" at address 1, and "AC" at address 5.
abbrev text : Bytes
text a =
    if a == 1 then 65 else if a == 2 then 66 else if a == 5 then 65 else if a == 6 then 67 else 0

itoa-numeral_example :
    (d : ℕ) × (itoa 64 255 (zeros 4) 16 ≡ ok (d, numeral d 255 16 (0 ∷ drop (suc d) (zeros 4))))
    × (number 16 (numeral d 255 16 (0 ∷ drop (suc d) (zeros 4))) ≡ 255)
    × DigitCount 255 16 d
    × (◌≡◌ {A = ℕ} 255 0 → d ≡ 1)
    × (d ≤ 3)
itoa-numeral_example =
    itoa-numeral 3 255 16 (zeros 4) (omega arith) (omega arith) (omega arith) (omega arith)
      (omega arith) (omega arith)

itoa-debug_log_example :
    (d : ℕ) × (out : List ℕ) × (itoa 64 18446744073709551615 (zeros 21) 10 ≡ ok (d, out))
    × (number 10 out ≡ 18446744073709551615)
    × (d ≤ 20)
itoa-debug_log_example =
    itoa-debug_log 18446744073709551615 10 (zeros 21) (omega arith) (omega arith) (omega arith) refl

memcpy_lem_example :
    ((memcpy 1 2 6 text).0 ≡ 1)
    × ((memcpy 1 2 6 text).1 4 ≡ (if leb 1 4 && ltb 4 (1 + 6) then text (2 + (4 - 1)) else text 4))
memcpy_lem_example = memcpy_lem 1 2 6 text 4 (omega arith) (omega arith) (inl (omega arith))

-- "AB" in wide characters at 0x100.
abbrev wide : Bytes
wide a = if a == 0x100 then 65 else if a == 0x102 then 66 else 0
