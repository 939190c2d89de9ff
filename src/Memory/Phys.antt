-- ===== src/Memory/Phys.antt =====
-- kernel/memory/memory.c, `phys_page_alloc` and `phys_page_free`: the allocator of physical pages.
-- `pmem_bmap` is a function from a word's index to the word (its bounds are a theorem, not a
-- check), `freemap` a list of its `fm_descs` entries.
pub mod Bitmap
pub mod Count
pub mod Alloc
pub mod Free
use flame_os.Base.{
  ℕ, zero, suc, ◌+◌, ◌-◌, ◌%◌, ◌^◌, Bool, true, false, not, List, [], ◌∷◌, Run, ok, fault, ◌>>=◌,
  ltb, leb, ◌==◌, if◌then◌else◌, u8, u32, add64, bit_and, bit_or, not32, ◌<<<◌,
}

abbrev pub page_size : ℕ
page_size = 4096

abbrev pub bits_per_element : ℕ
bits_per_element = 32

-- `memory_t`
pub record FreeArea : Type 0 where
  pub addr : ℕ
  pub blocks : ℕ

abbrev pub Bitmap : Type 0
Bitmap = ℕ → ℕ

abbrev pub write_word : Bitmap → ℕ → ℕ → Bitmap
write_word m h w i = if h == i then w else m i

-- `++bit; if (bit >= BITS_PER_ELEMENT) { bit = 0; ++h; }`
abbrev pub next_bit : ℕ → ℕ
next_bit bit = if leb bits_per_element (u8 (bit + 1)) then 0 else u8 (bit + 1)

abbrev pub next_word : ℕ → ℕ → ℕ
next_word h bit = if leb bits_per_element (u8 (bit + 1)) then h + 1 else h

-- How the inner loop over the pages of one area ends: by the `return`, or by its test.
pub data Scan : Type 0 where
  found : ℕ → Bitmap → Scan
  exhausted : ℕ → ℕ → Scan

-- The rounds left, the address, `h` and `bit`.
pub alloc_in_area : ℕ → ℕ → ℕ → ℕ → Bitmap → Scan
alloc_in_area zero addr h bit m = exhausted h bit
alloc_in_area (suc left) addr h bit m =
    let rest = alloc_in_area left (add64 addr page_size) (next_word h bit) (next_bit bit) m in
    if bit_and (m h) (1 <<< bit) == 0
    then found addr (write_word m h (bit_or (m h) (1 <<< bit)))
    else rest

pub alloc_from : List FreeArea → ℕ → ℕ → Bitmap → ℕ × Bitmap
unfolding alloc_in_area
alloc_from [] h bit m = (0, m)
alloc_from (d ∷ ds) h bit m = elim (alloc_in_area d.blocks d.addr h bit m) [
  | found addr m' ↦ (addr, m')
  | exhausted h' bit' ↦ alloc_from ds h' bit' m
]

-- The address of the page that is now marked as used; 0 if there is none.
unfoldable pub phys_page_alloc : List FreeArea → Bitmap → ℕ × Bitmap
unfolding alloc_from
phys_page_alloc freemap m = alloc_from freemap 0 0 m

pub free_in_area : ℕ → ℕ → ℕ → ℕ → ℕ → Bitmap → Scan
free_in_area zero ptr addr h bit m = exhausted h bit
free_in_area (suc left) ptr addr h bit m =
    let rest = free_in_area left (add64 ptr page_size) addr (next_word h bit) (next_bit bit) m in
    if ptr == addr then found addr (write_word m h (bit_and (m h) (not32 (1 <<< bit)))) else rest

-- The outer loop runs to `mm_descs`, not to `fm_descs`. A read behind the last entry is a fault.
pub free_from : ℕ → List FreeArea → ℕ → ℕ → ℕ → Bitmap → Run Bitmap
unfolding free_in_area
free_from zero ds addr h bit m = ok m
free_from (suc left) [] addr h bit m = fault
free_from (suc left) (d ∷ ds) addr h bit m = elim (free_in_area d.blocks d.addr addr h bit m) [
  | found _ m' ↦ ok m'
  | exhausted h' bit' ↦ free_from left ds addr h' bit' m
]

unfoldable pub phys_page_free : (mm_descs : ℕ) → List FreeArea → ℕ → Bitmap → Run Bitmap
unfolding free_from
phys_page_free mm_descs freemap addr m =
    if addr % page_size == 0 then free_from mm_descs freemap addr 0 0 m else ok m
