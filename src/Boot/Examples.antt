-- ===== src/Boot/Examples.antt =====
-- The theorems on the bootloader at concrete inputs.
use flame_os.Base.{
  if◌then◌else◌, ◌==◌, ℕ, zero, suc, ◌+◌, ◌*◌, ◌≡◌, refl, sym, inr, arith, List, [], ◌∷◌, length,
  u8,
}
use mathlib.Core.Path.{subst}
use mathlib.Core.Option.{some-injective}
use flame_os.Libc.Bytes
use flame_os.Boot.MemoryMap.{
  Descriptor, descriptor_size, descriptor_at, shrink_memmap, Areas, build_freemap,
}
use flame_os.Boot.MemoryMap.Shrink.{shrink_memmap-descriptor}
use flame_os.Boot.MemoryMap.Free.{firmware_map, free_areas, sum_blocks, build_freemap-areas}
use flame_os.Boot.Modes.{Mode, IsBest, bestmode, bestmode-IsBest}
use flame_os.Boot.Elf.{ProgramHeader, load_segments}
use flame_os.Boot.Elf.Size.{}
use flame_os.Boot.Elf.Load.{In, IsSegment, AllPlaced, AllApart, image, load_segments-image}
use flame_os.Memory.Phys.{}
use flame_os.Memory.Machine.{Machine}
use flame_os.Memory.Paging.{map_page}
use flame_os.Boot.Tables.{boot_map_page}
use flame_os.Boot.Tables.Same.{from_bitmap, boot_map_page-map_page}
use flame_os.Memory.Phys.{}
use flame_os.Memory.Paging.{}
use flame_os.Memory.Paging.Tree.{}
use flame_os.Memory.Paging.Ends.{}
use flame_os.Memory.Machine.{}
use flame_os.Memory.Examples.{}
use flame_os.Boot.Elf.{}

abbrev bytes : Bytes.Bytes
bytes a = u8 a

-- Three descriptors of 48 bytes.
shrink_memmap-descriptor_example :
    descriptor_at (shrink_memmap 3 48 0x1000 bytes) (0x1000 + 2 * descriptor_size)
    ≡ descriptor_at bytes (0x1000 + 2 * 48)
shrink_memmap-descriptor_example =
    shrink_memmap-descriptor 3 48 0x1000 2 bytes (omega arith) (omega arith) (omega arith)

abbrev descriptor : (type physaddr pages : ℕ) → Descriptor
descriptor type physaddr pages = record {
  type = type;
  pad = 0;
  physaddr = physaddr;
  virtaddr = 0;
  pages = pages;
  attr = 15;
}

-- At 0x1000, two free areas with a reserved one between them.
abbrev map_bytes : Bytes.Bytes
map_bytes a =
    if a == 0x1000
    then 7
    else if a == 0x100a
    then 0x10
    else if a == 0x1019
    then 1
    else if a == 0x1050
    then 7
    else if a == 0x105a
    then 0x40
    else if a == 0x1068
    then 128
    else 0

abbrev no_areas : Areas
no_areas _ = record { addr = 0; blocks = 0 }

build_freemap-areas_example :
    ((build_freemap 3 0x1000 map_bytes map_bytes no_areas).0
      ≡ length (free_areas (firmware_map map_bytes 40 3 0x1000)))
    × ((build_freemap 3 0x1000 map_bytes map_bytes no_areas).1 1
        ≡ record { addr = 0x40_0000; blocks = 128 })
    × ((build_freemap 3 0x1000 map_bytes map_bytes no_areas).2
        ≡ sum_blocks (free_areas (firmware_map map_bytes 40 3 0x1000)))
build_freemap-areas_example =
    build_freemap-areas 3 0x1000 40 3 map_bytes map_bytes no_areas 1
      (record { addr = 0x40_0000; blocks = 128 }) refl refl refl (omega arith) (omega arith) refl

abbrev mode : (w h : ℕ) → Mode
mode w h = record { w = w; h = h }

bestmode-IsBest_example :
    IsBest
      (mode 640 480 ∷ mode 1920 1080 ∷ mode 800 600 ∷ [])
      (bestmode (mode 640 480 ∷ mode 1920 1080 ∷ mode 800 600 ∷ []))
bestmode-IsBest_example = bestmode-IsBest (mode 640 480) (mode 1920 1080 ∷ mode 800 600 ∷ [])

-- A segment of code, and one with 0x800 bytes that the file does not have.
abbrev header : (p_offset p_vaddr p_filesz p_memsz : ℕ) → ProgramHeader
header p_offset p_vaddr p_filesz p_memsz = record {
  p_type = 1;
  p_flags = 7;
  p_offset = p_offset;
  p_vaddr = p_vaddr;
  p_paddr = p_vaddr;
  p_filesz = p_filesz;
  p_memsz = p_memsz;
  p_align = 0x1000;
}

abbrev code : ProgramHeader
code = header 0x1000 0x10_0000_0000 0x3000 0x3000

abbrev data_segment : ProgramHeader
data_segment = header 0x4000 0x10_0000_3000 0x800 0x1000

abbrev segments : List ProgramHeader
segments = code ∷ data_segment ∷ []

abbrev Placed : ProgramHeader → Type 0
Placed = IsSegment 0x40_0000 0x4000 0x10_0000

code-IsSegment : Placed code
code-IsSegment = record {
  above = omega arith;
  vaddr_fits = omega arith;
  room = omega arith;
  memsz_fits = omega arith;
  inside = omega arith;
  kernel_fits = omega arith;
  file_fits = omega arith;
  outside = inr (omega arith);
}

data_segment-IsSegment : Placed data_segment
data_segment-IsSegment = record {
  above = omega arith;
  vaddr_fits = omega arith;
  room = omega arith;
  memsz_fits = omega arith;
  inside = omega arith;
  kernel_fits = omega arith;
  file_fits = omega arith;
  outside = inr (omega arith);
}

code_apart : (a : ℕ) → In 0x40_0000 code a → ¬ In 0x40_0000 data_segment a
code_apart a h h' = omega arith

segments-AllPlaced : AllPlaced 0x40_0000 0x4000 0x10_0000 segments
segments-AllPlaced zero p e t = subst Placed (some-injective code p e) code-IsSegment
segments-AllPlaced (suc zero) p e t =
    subst Placed (some-injective data_segment p e) data_segment-IsSegment
segments-AllPlaced (suc (suc i)) p e t = absurd (cc)

segments-AllApart : AllApart 0x40_0000 0x4000 0x10_0000 segments
segments-AllApart zero zero p q a l e e' t t' h h' = absurd (omega arith)
segments-AllApart zero (suc zero) p q a l e e' t t' h h' =
    code_apart a (subst (λ r. In 0x40_0000 r a) (sym (some-injective code p e)) h)
      (subst (λ r. In 0x40_0000 r a) (sym (some-injective data_segment q e')) h')
segments-AllApart zero (suc (suc j)) p q a l e e' t t' h h' = absurd (cc)
segments-AllApart (suc i) zero p q a l e e' t t' h h' = absurd (omega arith)
segments-AllApart (suc zero) (suc zero) p q a l e e' t t' h h' = absurd (omega arith)
segments-AllApart (suc zero) (suc (suc j)) p q a l e e' t t' h h' = absurd (cc)
segments-AllApart (suc (suc i)) (suc j) p q a l e e' t t' h h' = absurd (cc)

load_segments-image_example :
    load_segments 0x40_0000 0x10_0000 segments bytes 0x40_3800
    ≡ image 0x40_0000 0x10_0000 data_segment bytes 0x40_3800
load_segments-image_example =
    load_segments-image 0x40_0000 0x4000 0x10_0000 segments bytes 1 data_segment 0x40_3800
      segments-AllPlaced segments-AllApart refl refl (omega arith, omega arith)

abbrev machine : Machine
machine = record {
  bmap = λ _. 0;
  freemap = record { addr = 0x10_0000; blocks = 16 } ∷ [];
  mm_descs = 1;
  pml4 = λ _. 0;
  table = λ _ _. 0;
  freespace = λ _. [];
  allocations = λ _. [];
}

boot_map_page-map_page_example :
    boot_map_page from_bitmap 17 0x20_0000 0x40_0000 machine
    ≡ map_page 17 0x20_0000 0x40_0000 machine
boot_map_page-map_page_example =
    boot_map_page-map_page 17 0x20_0000 0x40_0000 machine (omega arith) (omega arith) refl
