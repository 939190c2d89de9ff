-- ===== src/Libc/Bytes.antt =====
-- libs/libc/string, over a memory of bytes that is a function of the address. The loops to a NUL take
-- fuel, one round for each character.
pub mod Blocks
pub mod Strings
use flame_os.Base.{
  ℕ, zero, suc, ◌+◌, ◌%◌, ◌^◌, Run, ok, out_of_fuel, ℤ, pos, minus_one, ltb, Bool, ◌==◌,
  if◌then◌else◌, add64, u8,
}

abbrev pub Bytes : Type 0
Bytes = ℕ → ℕ

-- `*p = c`
abbrev pub store : Bytes → ℕ → ℕ → Bytes
store m p c a = if p == a then c else m a

unfoldable pub memset_loop : (size p c : ℕ) → Bytes → Bytes
memset_loop zero p c m = m
memset_loop (suc size) p c m = memset_loop size (add64 p 1) c (store m p c)

-- The pointer that is returned, and the memory afterwards.
unfoldable pub memset : (ptr value size : ℕ) → Bytes → ℕ × Bytes
unfolding memset_loop
memset ptr value size m = (ptr, memset_loop size ptr (u8 value) m)

unfoldable pub memcpy_loop : (size dest src : ℕ) → Bytes → Bytes
memcpy_loop zero dest src m = m
memcpy_loop (suc size) dest src m =
    memcpy_loop size (add64 dest 1) (add64 src 1) (store m dest (m src))

unfoldable pub memcpy : (dest src size : ℕ) → Bytes → ℕ × Bytes
unfolding memcpy_loop
memcpy dest src size m = (dest, memcpy_loop size dest src m)

-- The loop does not advance its pointers.
unfoldable pub memcmp : (ptr1 ptr2 len : ℕ) → Bytes → ℤ
memcmp c1 c2 zero m = pos 0
memcmp c1 c2 (suc len) m =
    let rest = memcmp c1 c2 len m in
    if m c1 == m c2 then rest else if ltb (m c2) (m c1) then pos 1 else minus_one

-- `a > b` on `char`, which is signed.
abbrev pub char_greater : ℕ → ℕ → Bool
char_greater a b = ltb (u8 (b + 128)) (u8 (a + 128))

unfoldable pub strcmp : (fuel str1 str2 : ℕ) → Bytes → Run ℤ
strcmp zero str1 str2 m = out_of_fuel
strcmp (suc fuel) str1 str2 m =
    let rest = strcmp fuel (add64 str1 1) (add64 str2 1) m in
    if m str1 == m str2
    then if m str1 == 0 then ok (pos 0) else rest
    else if char_greater (m str1) (m str2)
    then ok (pos 1)
    else ok minus_one

-- The pointer to the NUL of the copy, and the memory afterwards.
unfoldable pub strcpy : (fuel dest src : ℕ) → Bytes → Run (ℕ × Bytes)
strcpy zero dest src m = out_of_fuel
strcpy (suc fuel) dest src m =
    let rest = strcpy fuel (add64 dest 1) (add64 src 1) (store m dest (m src)) in
    if m src == 0 then ok (dest, store m dest (m src)) else rest
