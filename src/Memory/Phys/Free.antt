-- ===== src/Memory/Phys/Free.antt =====
-- `phys_page_free` clears the bit of the page that it is given.
use mathlib.Core.Path.{fun_ext}
use flame_os.Base.{
  out_of_fuel, ℕ, zero, suc, ◌+◌, ◌-◌, ◌*◌, ◌/◌, ◌%◌, ◌^◌, ◌<◌, ◌≤◌, ◌≡◌, ◌≢◌, refl, ap, ◌∙◌, List,
  [], ◌∷◌, ok, fault, arith, ltb, leb, if◌then◌else◌, Bool-cases, inl, inr, length,
}
use flame_os.Base.Bits.Digit.{clear_bit-set_bit}
use flame_os.Memory.Phys.{
  Scan, FreeArea, Bitmap, found, exhausted, page_size, free_in_area, free_from, phys_page_free,
  phys_page_alloc,
}
use flame_os.Memory.Phys.Bitmap.{used, mark, unmark, total, page_addr}
use flame_os.Memory.Phys.Alloc.{Fits, next_page, phys_page_alloc-cases}

module _ (addr : ℕ) where
  free_in_area_hit :
      (left k ptr n : ℕ) (m : Bitmap)
      → k < left
      → ptr + page_size * left < 2 ^ 64
      → addr ≡ ptr + page_size * k
      → free_in_area left ptr addr (n / 32) (n % 32) m ≡ found addr (unmark m (n + k))
  unfolding free_in_area
  free_in_area_hit zero k ptr n m l h e = absurd (omega arith)
  free_in_area_hit (suc left) zero ptr n m l h e =
      let e' : n + 0 ≡ n = omega arith in rw e' (ground arith)
  free_in_area_hit (suc left) (suc k) ptr n m l h e =
      let e' : n + suc k ≡ n + 1 + k = omega arith in
      rw e' (
        ground (
          arith,
          next_page n,
          free_in_area_hit left k (ptr + page_size) (n + 1) m (omega arith) (omega arith)
              (omega arith),
        ))

  free_in_area_miss :
      (left ptr n : ℕ) (m : Bitmap)
      → ptr + page_size * left < 2 ^ 64
      → ((k : ℕ) → k < left → ptr + page_size * k ≢ addr)
      → free_in_area left ptr addr (n / 32) (n % 32) m
        ≡ exhausted ((n + left) / 32) ((n + left) % 32)
  unfolding free_in_area
  free_in_area_miss zero ptr n m h out = ap (λ (t : ℕ). exhausted (t / 32) (t % 32)) (omega arith)
  free_in_area_miss (suc left) ptr n m h out =
      let e' : n + suc left ≡ n + 1 + left = omega arith in
      rw e' (
        ground (
          arith,
          next_page n,
          out 0 (omega arith),
          free_in_area_miss left (ptr + page_size) (n + 1) m (omega arith)
              (λ k l e. out (suc k) (omega arith) (omega arith)),
        ))

-- Every area starts on a page boundary.
abbrev pub Aligned : List FreeArea → Type 0
Aligned [] = Unit {0}
Aligned (d ∷ ds) = (d.addr % page_size ≡ 0) × Aligned ds

page_addr-add :
    (a : FreeArea) (ds : List FreeArea) (j : ℕ) → page_addr (a ∷ ds) (a.blocks + j) ≡ page_addr ds j
page_addr-add a ds j = let e : a.blocks + j - a.blocks ≡ j = omega arith in ground arith

free_from_hit :
    (left : ℕ) (ds : List FreeArea) (addr k n : ℕ) (m : Bitmap)
    → length ds ≤ left
    → k < total ds
    → Fits ds
    → addr ≡ page_addr ds k
    → ((j : ℕ) → j < k → page_addr ds j ≢ addr)
    → free_from left ds addr (n / 32) (n % 32) m ≡ ok (unmark m (n + k))
unfolding free_from
free_from_hit left [] addr k n m l h f e d = absurd (omega arith)
free_from_hit zero (a ∷ ds) addr k n m l h f e d = absurd (omega arith)
free_from_hit (suc left) (a ∷ ds) addr k n m l h f e d = elim (Bool-cases (ltb k a.blocks)) [
  | inl here ↦
      rw (free_in_area_hit addr a.blocks k a.addr n m (ground arith) f.0 (ground arith), free_from)
  | inr later ↦
      let e' : n + k ≡ n + a.blocks + (k - a.blocks) = ground arith in
      rw
        (
          free_in_area_miss addr a.blocks a.addr n m f.0 (λ j l'. ground (arith, d j)),
          free_from,
          e',
        )
        (free_from_hit left ds addr (k - a.blocks) (n + a.blocks) m (omega arith) (ground arith) f.1
          (ground arith) (λ j l'. rw page_addr-add at (d (a.blocks + j) (omega arith))))
]

free_from_miss :
    (left : ℕ) (ds : List FreeArea) (addr n : ℕ) (m : Bitmap)
    → Fits ds
    → ((j : ℕ) → j < total ds → page_addr ds j ≢ addr)
    → free_from left ds addr (n / 32) (n % 32) m ≡ (if leb left (length ds) then ok m else fault)
unfolding free_from
free_from_miss zero ds addr n m f d = ground arith
free_from_miss (suc left) [] addr n m f d = ground arith
free_from_miss (suc left) (a ∷ ds) addr n m f d =
    rw (free_in_area_miss addr a.blocks a.addr n m f.0 (λ j l'. ground (arith, d j)), free_from)
      (ground (
        arith,
        free_from_miss left ds addr (n + a.blocks) m f.1
            (λ j l'. rw page_addr-add at (d (a.blocks + j) (omega arith))),
      ))

pub page_addr-Aligned : (ds : List FreeArea) (k : ℕ) → Aligned ds → page_addr ds k % page_size ≡ 0
page_addr-Aligned [] k h = refl
page_addr-Aligned (a ∷ ds) k h = ground (arith, page_addr-Aligned ds (k - a.blocks) h.1)

-- Freeing the address of page `k` of the map clears bit `k` and no other, if the map has at most
-- `mm_descs` areas, all of them whole pages that do not wrap, and no earlier page of the map has
-- that address.
pub phys_page_free-page_addr :
    (mm_descs : ℕ) (ds : List FreeArea) (k : ℕ) (m : Bitmap)
    → length ds ≤ mm_descs
    → Fits ds
    → Aligned ds
    → k < total ds
    → ((j : ℕ) → j < k → page_addr ds j ≢ page_addr ds k)
    → phys_page_free mm_descs ds (page_addr ds k) m ≡ ok (unmark m k)
unfolding phys_page_free
phys_page_free-page_addr mm ds k m l f al h d = rw (page_addr-Aligned ds k al) (
    free_from_hit mm ds (page_addr ds k) k 0 m l h f refl d
    ∙ ap (λ (t : ℕ). ok (unmark m t)) (omega arith))

-- Freeing an address that is on a page boundary but in no area of the map changes nothing only if
-- `mm_descs` is at most the number of areas; with more descriptors the loop reads behind the map.
pub phys_page_free_foreign :
    (mm_descs : ℕ) (ds : List FreeArea) (addr : ℕ) (m : Bitmap)
    → Fits ds
    → addr % page_size ≡ 0
    → ((j : ℕ) → j < total ds → page_addr ds j ≢ addr)
    → phys_page_free mm_descs ds addr m ≡ (if leb mm_descs (length ds) then ok m else fault)
unfolding phys_page_free
phys_page_free_foreign mm ds addr m f al d = rw al (free_from_miss mm ds addr 0 m f d)

-- An address that is not on a page boundary is ignored.
pub phys_page_free_unaligned :
    (mm_descs : ℕ) (ds : List FreeArea) (addr : ℕ) (m : Bitmap)
    → addr % page_size ≢ 0
    → phys_page_free mm_descs ds addr m ≡ ok m
unfolding phys_page_free
phys_page_free_unaligned mm ds addr m h = ground arith

unmark-mark : (m : Bitmap) (k : ℕ) → m (k / 32) < 2 ^ 32 → used m k ≡ 0 → unmark (mark m k) k ≡ m
unmark-mark m k small free =
    fun_ext λ i. ground (arith, clear_bit-set_bit (m (k / 32)) (k % 32) small free (omega arith))

-- No two pages of the map have one address.
abbrev pub Distinct : List FreeArea → Type 0
Distinct ds = (j k : ℕ) → j < k → k < total ds → page_addr ds j ≢ page_addr ds k

-- While some page of the map is free, freeing what `phys_page_alloc` has just returned gives back
-- the bitmap of before, if the map has at most `mm_descs` areas, all of whole pages that do not
-- wrap and do not overlap, and the bitmap's words are 32-bit numbers.
pub phys_page_free-phys_page_alloc :
    (mm_descs : ℕ) (ds : List FreeArea) (m : Bitmap) (p : ℕ)
    → length ds ≤ mm_descs
    → Fits ds
    → Aligned ds
    → Distinct ds
    → ((i : ℕ) → m i < 2 ^ 32)
    → p < total ds
    → used m p ≡ 0
    → phys_page_free mm_descs ds (phys_page_alloc ds m).0 (phys_page_alloc ds m).1 ≡ ok m
phys_page_free-phys_page_alloc mm ds m p l f al d small inside free =
    elim (phys_page_alloc-cases ds m f) [
      | inl (k, first, e) ↦ rw e (
          phys_page_free-page_addr mm ds k (mark m k) l f al first.in_map
            (λ j j<k. d j k j<k first.in_map)
          ∙ ap ok (unmark-mark m k (small (k / 32)) first.free))
      | inr (full, e) ↦ absurd (omega (arith, full p inside))
    ]

free_from-ne-out_of_fuel :
    (left : ℕ) (ds : List FreeArea) (addr h bit : ℕ) (m : Bitmap)
    → free_from left ds addr h bit m ≢ out_of_fuel
unfolding free_from
free_from-ne-out_of_fuel zero ds addr h bit m = λ e. cc e
free_from-ne-out_of_fuel (suc left) [] addr h bit m = λ e. cc e
free_from-ne-out_of_fuel (suc left) (d ∷ ds) addr h bit m =
    after (free_in_area d.blocks d.addr addr h bit m)
      (λ h' bit'. free_from-ne-out_of_fuel left ds addr h' bit' m)
  where
    after :
        (scan : Scan)
        → ((h' bit' : ℕ) → free_from left ds addr h' bit' m ≢ out_of_fuel)
        → (elim scan [ found _ m' ↦ ok m' | exhausted h' bit' ↦ free_from left ds addr h' bit' m ])
          ≢ out_of_fuel
    after (found _ m') rest = λ e. cc e
    after (exhausted h' bit') rest = rest h' bit'

pub phys_page_free-ne-out_of_fuel :
    (mm_descs : ℕ) (ds : List FreeArea) (addr : ℕ) (m : Bitmap)
    → phys_page_free mm_descs ds addr m ≢ out_of_fuel
unfolding phys_page_free
phys_page_free-ne-out_of_fuel mm ds addr m =
    ground (arith, free_from-ne-out_of_fuel mm ds addr 0 0 m)
