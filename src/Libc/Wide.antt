-- ===== src/Libc/Wide.antt =====
-- libs/libc/stdlib/wcstombs.c. A wide character takes two bytes, of which the low one, the first, is copied.
use flame_os.Base.{
  ℕ, zero, suc, ◌+◌, ◌-◌, ◌^◌, ◌<◌, ◌≡◌, ◌≢◌, ◌⊎◌, List, [], ◌∷◌, length, ◌==◌, if◌then◌else◌,
  add64,
}
use flame_os.Libc.Bytes.{Bytes, store}
use flame_os.Libc.Bytes.Strings.{IsString}

-- The rounds with `max` characters left: what is returned, -1 as a `size_t` if they are used up, and the memory.
unfoldable pub wcstombs_loop : (max dest src count : ℕ) → Bytes → ℕ × Bytes
wcstombs_loop zero dest src count m = (2 ^ 64 - 1, m)
wcstombs_loop (suc max) dest src count m =
    let m' : Bytes = store m dest (m src) in
    let rest = wcstombs_loop max (add64 dest 1) (add64 src 2) (add64 count 1) m' in
    if m src == 0 then (count, m') else rest

unfoldable pub wcstombs : (dest src max : ℕ) → Bytes → ℕ × Bytes
unfolding wcstombs_loop
wcstombs dest src max m = wcstombs_loop max dest src 0 m

unfoldable pub wcatomba : (dest src count : ℕ) → Bytes → Bytes
wcatomba dest src zero m = m
wcatomba dest src (suc count) m = wcatomba (add64 dest 1) (add64 src 2) count (store m dest (m src))

-- The characters of a wide string at `p`, by their low bytes, up to one whose low byte is 0.
abbrev pub IsWide : Bytes → ℕ → List ℕ → Type 0
IsWide m p [] = m p ≡ 0
IsWide m p (c ∷ cs) = (m p ≡ c) × (c ≢ 0) × IsWide m (p + 2) cs

-- What a run that copies `cs` and a NUL to `dest` leaves.
pub record Copied (dest count : ℕ) (cs : List ℕ) (m : Bytes) (r : ℕ × Bytes) : Type 0 where
  pub returned : r.0 ≡ count + length cs
  pub string : IsString r.1 dest cs
  pub others : (a : ℕ) → (a < dest) ⊎ (dest + length cs < a) → r.1 a ≡ m a
