-- ===== src/Boot/Elf.antt =====
-- bootloader/boot.c and ELF.h: the memory that the kernel needs, and the copy of its segments.
pub mod Size
pub mod Load
use flame_os.Base.{
  ℕ, ◌-◌, ◌^◌, ◌==◌, ltb, if◌then◌else◌, List, [], ◌∷◌, Option, none, some, add64, sub64,
}
use flame_os.Libc.Bytes
use flame_os.Boot.Bytes.{copy_bytes, memzero}

-- `elf_pheader_t`
pub record ProgramHeader : Type 0 where
  pub p_type : ℕ
  pub p_flags : ℕ
  pub p_offset : ℕ
  pub p_vaddr : ℕ
  pub p_paddr : ℕ
  pub p_filesz : ℕ
  pub p_memsz : ℕ
  pub p_align : ℕ

abbrev pub pt_load : ℕ
pt_load = 1

abbrev pub elf_magic : ℕ
elf_magic = 0x464c_457f

abbrev pub kernel_vaddr : ℕ
kernel_vaddr = 0x10_0000_0000

-- The loop that finds the end of the highest segment and the start of the lowest one.
unfoldable pub measure : (kernel_mem_size lowest_vaddr : ℕ) → List ProgramHeader → ℕ × ℕ
measure size lowest [] = (size, lowest)
measure size lowest (p ∷ ps) =
    if p.p_type == pt_load
    then measure (if ltb size (add64 p.p_vaddr p.p_memsz) then add64 p.p_vaddr p.p_memsz else size)
        (if ltb p.p_vaddr lowest then p.p_vaddr else lowest) ps
    else measure size lowest ps

-- `kernel_mem_size` after the loop.
unfoldable pub kernel_mem_size : List ProgramHeader → ℕ
unfolding measure
kernel_mem_size ps = let (size, lowest) = measure 0 (2 ^ 64 - 1) ps in sub64 size lowest

-- Where a segment goes.
abbrev pub segment_place : ℕ → ProgramHeader → ℕ
segment_place kernel p = add64 kernel (sub64 p.p_vaddr kernel_vaddr)

-- One segment, from the file at `kfile` to the memory at `kernel`.
unfoldable pub load_segment : (kernel kfile : ℕ) → ProgramHeader → Bytes.Bytes → Bytes.Bytes
load_segment kernel kfile p m =
    memzero (add64 (segment_place kernel p) p.p_filesz) (sub64 p.p_memsz p.p_filesz)
      (copy_bytes (segment_place kernel p) (add64 kfile p.p_offset) p.p_filesz m)

unfoldable pub load_segments : (kernel kfile : ℕ) → List ProgramHeader → Bytes.Bytes → Bytes.Bytes
unfolding load_segment
load_segments kernel kfile [] m = m
load_segments kernel kfile (p ∷ ps) m =
    if p.p_type == pt_load
    then load_segments kernel kfile ps (load_segment kernel kfile p m)
    else load_segments kernel kfile ps m

-- Both loops, behind the test of the signature: `none` is the early return. The firmware's
-- `pagealloc` says where memory of the size is.
unfoldable pub load_kernel :
    (sig : ℕ) (pagealloc : ℕ → ℕ) (kfile : ℕ)
    → List ProgramHeader
    → Bytes.Bytes
    → Option (ℕ × ℕ × Bytes.Bytes)
unfolding kernel_mem_size load_segments
load_kernel sig pagealloc kfile ps m =
    if sig == elf_magic
    then (let size = kernel_mem_size ps in
        some (pagealloc size, size, load_segments (pagealloc size) kfile ps m))
    else none
