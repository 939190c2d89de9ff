-- ===== src/Boot/MemoryMap/Free.antt =====
-- What freemap holds, against the list of the free areas.
use flame_os.Base.{
  ℕ, zero, suc, ◌+◌, ◌^◌, ◌<◌, ◌≤◌, ◌≡◌, refl, sym, ◌∙◌, inl, inr, arith, ap, Bool-cases, ◌==◌,
  if◌then◌else◌, List, [], ◌∷◌, some, length, get_elem?, add64,
}
use mathlib.Core.Path.{fun_ext}
use flame_os.Libc.Bytes
use flame_os.Boot.MemoryMap.{
  descriptor_size, descriptor_at, descriptors, Descriptor, normalmem, Area, Areas, write_area,
  count_areas, fill_freemap, count_pages, build_freemap,
}

-- The areas of free memory, in the order of the map.
abbrev pub free_areas : List Descriptor → List Area
free_areas [] = []
free_areas (d ∷ ds) =
    if d.type == normalmem
    then record { addr = d.physaddr; blocks = d.pages } ∷ free_areas ds
    else free_areas ds

abbrev pub sum_blocks : List Area → ℕ
sum_blocks [] = 0
sum_blocks (a ∷ rest) = a.blocks + sum_blocks rest

-- Entry `k` of the list, or what was there.
abbrev pub listed : List Area → (j : ℕ) → Areas → Areas
listed [] j freemap k = freemap k
listed (a ∷ rest) j freemap k = if j == k then a else listed rest (j + 1) freemap k

count_areas-length :
    (n : ℕ) (ds : List Descriptor)
    → n + length (free_areas ds) < 2 ^ 64
    → count_areas n ds ≡ n + length (free_areas ds)
unfolding count_areas
count_areas-length n [] h = omega arith
count_areas-length n (d ∷ ds) h = elim (Bool-cases (d.type == normalmem)) [
  | inr other ↦ rw other (count_areas-length n ds (rw other at h))
  | inl free ↦
      let h' : n + suc (length (free_areas ds)) < 2 ^ 64 = rw free at h in
      let e : add64 n 1 ≡ n + 1 = omega arith in
      rw (free, e) (omega (arith, count_areas-length (n + 1) ds (omega arith)))
]

listed-write :
    (rest : List Area) (q j : ℕ) (a : Area) (freemap : Areas) (k : ℕ)
    → j < q
    → listed rest q (write_area freemap j a) k ≡ (if j == k then a else listed rest q freemap k)
listed-write [] q j a freemap k h = refl
listed-write (b ∷ rest) q j a freemap k h =
    ground (arith, listed-write rest (q + 1) j a freemap k (omega arith))

-- The loop writes the areas one after another, and nothing else.
fill_freemap-listed :
    (j : ℕ) (ds : List Descriptor) (freemap : Areas) (k : ℕ)
    → j + length (free_areas ds) < 2 ^ 64
    → fill_freemap j ds freemap k ≡ listed (free_areas ds) j freemap k
unfolding fill_freemap
fill_freemap-listed j [] freemap k h = refl
fill_freemap-listed j (d ∷ ds) freemap k h = elim (Bool-cases (d.type == normalmem)) [
  | inr other ↦ rw other (fill_freemap-listed j ds freemap k (rw other at h))
  | inl free ↦
      let a : Area = record { addr = d.physaddr; blocks = d.pages } in
      let h' : j + suc (length (free_areas ds)) < 2 ^ 64 = rw free at h in
      let e : add64 j 1 ≡ j + 1 = omega arith in
      rw (free, e)
        (fill_freemap-listed (j + 1) ds (write_area freemap j a) k (omega arith)
          ∙ listed-write (free_areas ds) (j + 1) j a freemap k (omega arith))
]

listed-at :
    (rest : List Area) (j i k : ℕ) (a : Area) (freemap : Areas)
    → get_elem? rest i ≡ some a
    → k ≡ j + i
    → listed rest j freemap k ≡ a
listed-at [] j i k a freemap e ek = absurd (cc)
listed-at (b ∷ rest) j zero k a freemap e ek = ground (arith, e)
listed-at (b ∷ rest) j (suc i) k a freemap e ek =
    ground (arith, listed-at rest (j + 1) i k a freemap e)

listed-behind :
    (rest : List Area) (j k : ℕ) (freemap : Areas)
    → j + length rest ≤ k
    → listed rest j freemap k ≡ freemap k
listed-behind [] j k freemap h = refl
listed-behind (b ∷ rest) j k freemap h = ground (arith, listed-behind rest (j + 1) k freemap)

sum_from : (left i : ℕ) → Areas → ℕ
sum_from zero i freemap = 0
sum_from (suc left) i freemap = (freemap i).blocks + sum_from left (i + 1) freemap

count_pages-sum :
    (left i acc : ℕ) (freemap : Areas)
    → acc + sum_from left i freemap < 2 ^ 64
    → count_pages left i acc freemap ≡ acc + sum_from left i freemap
unfolding count_pages sum_from
count_pages-sum zero i acc freemap h = omega arith
count_pages-sum (suc left) i acc freemap h =
    let e : add64 acc (freemap i).blocks ≡ acc + (freemap i).blocks = omega arith in
    rw e
      (omega (arith, count_pages-sum left (i + 1) (acc + (freemap i).blocks) freemap (omega arith)))

sum_from-cong :
    (left i : ℕ) (f g : Areas)
    → ((k : ℕ) → i ≤ k → f k ≡ g k)
    → sum_from left i f ≡ sum_from left i g
unfolding sum_from
sum_from-cong zero i f g h = refl
sum_from-cong (suc left) i f g h = omega (
  arith,
  ap (λ a. a.blocks) (h i (omega arith)),
  sum_from-cong left (i + 1) f g (λ k l. h k (omega arith)),
)

sum_from-listed :
    (rest : List Area) (j : ℕ) (freemap : Areas)
    → sum_from (length rest) j (listed rest j freemap) ≡ sum_blocks rest
unfolding sum_from
sum_from-listed [] j freemap = refl
sum_from-listed (b ∷ rest) j freemap =
    let first : listed (b ∷ rest) j freemap j ≡ b = ground arith in
    let later =
      sum_from-cong (length rest) (j + 1) (listed (b ∷ rest) j freemap)
        (listed rest (j + 1) freemap) (λ k l. ground arith) in
    omega (arith, ap (λ a. a.blocks) first, later, sum_from-listed rest (j + 1) freemap)

-- The `n` descriptors that the firmware has written at `a`, each of `desc_size` bytes.
abbrev pub firmware_map : Bytes.Bytes → (desc_size n a : ℕ) → List Descriptor
firmware_map m desc_size zero a = []
firmware_map m desc_size (suc n) a = descriptor_at m a ∷ firmware_map m desc_size n (a + desc_size)

descriptors-firmware_map :
    (m : Bytes.Bytes) (desc_size n a : ℕ)
    → desc_size ≡ descriptor_size
    → descriptors m n a ≡ firmware_map m desc_size n a
descriptors-firmware_map m desc_size zero a e = refl
descriptors-firmware_map m desc_size (suc n) a e =
    let rest = descriptors-firmware_map m desc_size n (a + descriptor_size) e in
    ap (λ ds. descriptor_at m a ∷ ds) (rest ∙ ap (λ z. firmware_map m desc_size n (a + z)) (sym e))

-- If the firmware's descriptors are of 40 bytes, and after the allocation of freemap its map has as many of
-- them as before it and as many free areas, the kernel gets the free areas of the last map,
-- in order, with their number and the number of their pages (which are 64-bit numbers).
pub build_freemap-areas :
    (mm_descs memmap desc_size n : ℕ) (before after : Bytes.Bytes) (freemap : Areas) (i : ℕ)
    (a : Area)
    → desc_size ≡ descriptor_size
    → n ≡ mm_descs
    → length (free_areas (firmware_map before desc_size mm_descs memmap))
      ≡ length (free_areas (firmware_map after desc_size n memmap))
    → length (free_areas (firmware_map after desc_size n memmap)) < 2 ^ 64
    → sum_blocks (free_areas (firmware_map after desc_size n memmap)) < 2 ^ 64
    → get_elem? (free_areas (firmware_map after desc_size n memmap)) i ≡ some a
    → ((build_freemap mm_descs memmap before after freemap).0
        ≡ length (free_areas (firmware_map after desc_size n memmap)))
      × ((build_freemap mm_descs memmap before after freemap).1 i ≡ a)
      × ((build_freemap mm_descs memmap before after freemap).2
          ≡ sum_blocks (free_areas (firmware_map after desc_size n memmap)))
unfolding build_freemap
build_freemap-areas mm_descs memmap desc_size n before after freemap i a forty same_count same few
      small e =
    let ds = firmware_map before desc_size mm_descs memmap in
    let ds' = firmware_map after desc_size n memmap in
    let first : descriptors before mm_descs memmap ≡ ds =
      descriptors-firmware_map before desc_size mm_descs memmap forty in
    let last : descriptors after mm_descs memmap ≡ ds' =
      descriptors-firmware_map after desc_size mm_descs memmap forty
      ∙ ap (λ k. firmware_map after desc_size k memmap) (sym same_count) in
    let n : count_areas 0 ds ≡ length (free_areas ds') =
      omega (arith, count_areas-length 0 ds (omega arith), same) in
    let filled : fill_freemap 0 ds' freemap ≡ listed (free_areas ds') 0 freemap =
      fun_ext (λ k. fill_freemap-listed 0 ds' freemap k (omega arith)) in
    let total = sum_from-listed (free_areas ds') 0 freemap in
    (
      rw first n,
      rw (last, filled) (listed-at (free_areas ds') 0 i i a freemap e (omega arith)),
      rw (first, last, n, filled)
          (omega (
            arith,
            count_pages-sum (length (free_areas ds')) 0 0 (listed (free_areas ds') 0 freemap)
                (omega (arith, total)),
            total,
          )),
    )
