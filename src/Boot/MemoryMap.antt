-- ===== src/Boot/MemoryMap.antt =====
-- bootloader/boot.c: the memory map of the firmware, its descriptors moved together, and the free areas
-- for the kernel.
pub mod Shrink
pub mod Free
use flame_os.Base.{
  ℕ, zero, suc, ◌+◌, ◌*◌, ◌^◌, ◌==◌, Bool, if◌then◌else◌, List, [], ◌∷◌, add64, u64, u32,
}
use flame_os.Libc.Bytes
use flame_os.Boot.Bytes.{copy_bytes}

-- `memmap_t`
pub record Descriptor : Type 0 where
  pub type : ℕ
  pub pad : ℕ
  pub physaddr : ℕ
  pub virtaddr : ℕ
  pub pages : ℕ
  pub attr : ℕ

-- `sizeof(memmap_t)`
abbrev pub descriptor_size : ℕ
descriptor_size = 40

-- `normalmem`
abbrev pub normalmem : ℕ
normalmem = 7

-- A little-endian number of `n` bytes at an address.
abbrev pub read_bytes : Bytes.Bytes → (n a : ℕ) → ℕ
read_bytes m zero a = 0
read_bytes m (suc n) a = m a + 2 ^ 8 * read_bytes m n (a + 1)

-- The descriptor at an address, as the compiler lays the struct out.
abbrev pub descriptor_at : Bytes.Bytes → ℕ → Descriptor
descriptor_at m a = record {
  type = read_bytes m 4 a;
  pad = read_bytes m 4 (a + 4);
  physaddr = read_bytes m 8 (a + 8);
  virtaddr = read_bytes m 8 (a + 16);
  pages = read_bytes m 8 (a + 24);
  attr = read_bytes m 8 (a + 32);
}

-- `bootinfo.memmap[i]` for the first `n` indices, from address `a`.
abbrev pub descriptors : Bytes.Bytes → (n a : ℕ) → List Descriptor
descriptors m zero a = []
descriptors m (suc n) a = descriptor_at m a ∷ descriptors m n (a + descriptor_size)

-- The loop that moves `left` descriptors of `desc_size` bytes together.
unfoldable pub shrink_loop : (left desc_size addr1 addr2 : ℕ) → Bytes.Bytes → Bytes.Bytes
shrink_loop zero desc_size addr1 addr2 m = m
shrink_loop (suc left) desc_size addr1 addr2 m =
    shrink_loop left desc_size (add64 addr1 descriptor_size) (add64 addr2 desc_size)
      (copy_bytes addr1 addr2 descriptor_size m)

unfoldable pub shrink_memmap : (mm_descs mm_desc_size memmap : ℕ) → Bytes.Bytes → Bytes.Bytes
unfolding shrink_loop
shrink_memmap mm_descs mm_desc_size memmap m =
    if mm_desc_size == descriptor_size then m else shrink_loop mm_descs mm_desc_size memmap memmap m

-- `memory_t`, an entry of `bootinfo.freemap`.
pub record Area : Type 0 where
  pub addr : ℕ
  pub blocks : ℕ

abbrev pub Areas : Type 0
Areas = ℕ → Area

abbrev pub write_area : Areas → ℕ → Area → Areas
write_area freemap j a k = if j == k then a else freemap k

-- The loop that counts the areas of free memory: `bootinfo.fm_descs`.
unfoldable pub count_areas : (fm_descs : ℕ) → List Descriptor → ℕ
count_areas fm_descs [] = fm_descs
count_areas fm_descs (d ∷ ds) =
    count_areas (if d.type == normalmem then add64 fm_descs 1 else fm_descs) ds

-- The loop that fills `bootinfo.freemap`, from entry `j`.
unfoldable pub fill_freemap : (j : ℕ) → List Descriptor → Areas → Areas
fill_freemap j [] freemap = freemap
fill_freemap j (d ∷ ds) freemap =
    if d.type == normalmem
    then fill_freemap (add64 j 1) ds
        (write_area freemap j (record { addr = d.physaddr; blocks = d.pages }))
    else fill_freemap j ds freemap

-- `bootinfo.mb_pages`: the pages of the first `left` entries from entry `i`.
unfoldable pub count_pages : (left i mb_pages : ℕ) → Areas → ℕ
count_pages zero i mb_pages freemap = mb_pages
count_pages (suc left) i mb_pages freemap =
    count_pages left (i + 1) (add64 mb_pages (freemap i).blocks) freemap

-- What the kernel gets of the memory map at `memmap`: the number of entries is that of the map `before` the
-- pages for freemap are allocated, and the entries are those of the map that the firmware writes there
-- `after`. Both are read as `mm_descs` descriptors of `descriptor_size` bytes, a number from before.
unfoldable pub build_freemap :
    (mm_descs memmap : ℕ) (before after : Bytes.Bytes) → Areas → ℕ × Areas × ℕ
unfolding count_areas fill_freemap count_pages
build_freemap mm_descs memmap before after freemap =
    let fm_descs = count_areas 0 (descriptors before mm_descs memmap) in
    let freemap' = fill_freemap 0 (descriptors after mm_descs memmap) freemap in
    (fm_descs, freemap', count_pages fm_descs 0 0 freemap')
