-- ===== src/Memory/Phys/Count.antt =====
-- How many pages of the map are free, and what `phys_page_alloc` does to that number.
use flame_os.Base.{
  ℕ, zero, suc, ◌+◌, ◌≡◌, ◌<◌, ◌≤◌, refl, arith, List, ◌==◌, if◌then◌else◌, inl, inr, ◌⊎◌,
}
use flame_os.Memory.Phys.{FreeArea, Bitmap, phys_page_alloc}
use flame_os.Memory.Phys.Bitmap.{used, mark, used-mark, total, page_addr}
use flame_os.Memory.Phys.Alloc.{Fits, phys_page_alloc-cases}
use flame_os.Memory.Phys.Free.{Distinct}

-- The free pages among the first `n`.
unfoldable pub free_below : ℕ → Bitmap → ℕ
free_below zero m = 0
free_below (suc n) m = free_below n m + (if used m n == 0 then 1 else 0)

free_below-mark_out : (n k : ℕ) (m : Bitmap) → n ≤ k → free_below n (mark m k) ≡ free_below n m
unfolding free_below
free_below-mark_out zero k m h = refl
free_below-mark_out (suc n) k m h =
    ground (arith, used-mark m k n, free_below-mark_out n k m (omega arith))

free_below-mark :
    (n k : ℕ) (m : Bitmap) → k < n → used m k ≡ 0 → suc (free_below n (mark m k)) ≡ free_below n m
unfolding free_below
free_below-mark zero k m h e = absurd (omega arith)
free_below-mark (suc n) k m h e =
    ground (arith, used-mark m k n, free_below-mark n k m, free_below-mark_out n k m)

abbrev pub free_pages : List FreeArea → Bitmap → ℕ
free_pages ds m = free_below (total ds) m

-- Every page of the map with address `a` is in use.
abbrev pub InUse : List FreeArea → Bitmap → ℕ → Type 0
InUse ds m a = (k : ℕ) → k < total ds → page_addr ds k ≡ a → used m k ≡ 1

-- What a successful allocation comes to.
pub record Allocated (ds : List FreeArea) (m : Bitmap) (page : ℕ) (m' : Bitmap) : Type 0 where
  pub index : ℕ
  pub in_map : index < total ds
  pub address : page ≡ page_addr ds index
  pub fewer : suc (free_pages ds m') ≡ free_pages ds m
  pub fresh : used m index ≡ 0
  pub taken : InUse ds m' page
  pub keeps : (a : ℕ) → InUse ds m a → InUse ds m' a

-- `phys_page_alloc` on areas that neither wrap nor overlap returns the address of a page that was
-- free, lowers the number of free pages by one, leaves that page in use and keeps every page in use;
-- or it returns 0 and changes nothing.
pub phys_page_alloc-Allocated :
    (ds : List FreeArea) (m : Bitmap)
    → Fits ds
    → Distinct ds
    → Allocated ds m (phys_page_alloc ds m).0 (phys_page_alloc ds m).1
      ⊎ (phys_page_alloc ds m ≡ (0, m))
phys_page_alloc-Allocated ds m f d = elim (phys_page_alloc-cases ds m f) [
  | inl (k, first, e) ↦ inl (
      rw e (record {
        index = k;
        in_map = first.in_map;
        address = refl;
        fewer = free_below-mark (total ds) k m first.in_map first.free;
        fresh = first.free;
        taken = λ j l same. ground (arith, used-mark m k j, d j k, d k j);
        keeps = λ a u j l same. ground (arith, u j l same, used-mark m k j);
      }))
  | inr (full, e) ↦ inr e
]
