-- ===== src/Boot/Tables/Same.antt =====
-- The bootloader's map_page against the kernel's, over the same allocator of pages.
use flame_os.Base.{
  ℕ, zero, suc, ◌%◌, ◌≡◌, refl, inl, inr, ap, ◌∙◌, Bool-cases, List, ◌==◌, if◌then◌else◌,
}
use flame_os.Memory.Phys.{FreeArea, Bitmap, page_size, phys_page_alloc}
use flame_os.Memory.Phys.Alloc.{Fits, phys_page_alloc-cases}
use flame_os.Memory.Phys.Free.{Aligned, page_addr-Aligned}
use flame_os.Memory.Machine.{Machine, Run, done, null_write, bad_read, out_of_fuel, Cmd, and_then}
use flame_os.Memory.Paging.{
  Table, root, at, entry, present, entry_addr, pml4_idx, pdpt_idx, pd_idx, ensure, map_page,
}
use flame_os.Boot.Tables.{ensure_page, boot_map_page}

-- An allocator that takes its pages as `phys_page_alloc` does, and stops at a failure.
abbrev pub from_bitmap : Cmd ℕ
from_bitmap s =
    let (page, m) = phys_page_alloc s.freemap s.bmap in
    let s' = record s { bmap = m } in if page == 0 then null_write s' else done page s'

module _ (ds : List FreeArea) (fits : Fits ds) (aligned : Aligned ds) where
  -- Two runs that are equal and keep the map of the memory.
  data Same {A : Type 0} : Run A → Run A → Type 0 where
    both : {x : A} {s : Machine} → s.freemap ≡ ds → Same (done x s) (done x s)
    at_null : {s : Machine} → Same (null_write s) (null_write s)
    at_read : {s : Machine} → Same (bad_read s) (bad_read s)
    no_fuel : Same out_of_fuel out_of_fuel

  Same-eq : {A : Type 0} {r r' : Run A} → Same r r' → r ≡ r'
  Same-eq (both h) = refl
  Same-eq at_null = refl
  Same-eq at_read = refl
  Same-eq no_fuel = refl

  Same-bind :
      {A B : Type 0} {r r' : Run A} (k k' : A → Cmd B)
      → Same r r'
      → ((x : A) (s : Machine) → s.freemap ≡ ds → Same (k x s) (k' x s))
      → Same (and_then r k) (and_then r' k')
  Same-bind k k' (both h) next = next _ _ h
  Same-bind k k' at_null next = at_null
  Same-bind k k' at_read next = at_read
  Same-bind k k' no_fuel next = no_fuel

  pub page-Aligned : (m : Bitmap) → (phys_page_alloc ds m).0 % page_size ≡ 0
  page-Aligned m = elim (phys_page_alloc-cases ds m fits) [
    | inl (k, first, e) ↦
        ap (λ (r : ℕ × Bitmap). r.0 % page_size) e ∙ page_addr-Aligned ds k aligned
    | inr (full, e) ↦ ap (λ (r : ℕ × Bitmap). r.0 % page_size) e
  ]

  ensure-Same :
      (t : Table) (i : ℕ) (f g : ℕ → ℕ → Cmd (Unit {0}))
      → ((page : ℕ) (s : Machine)
          → page % page_size ≡ 0
          → s.freemap ≡ ds
          → Same (f page page s) (g page page s))
      → (s : Machine) → s.freemap ≡ ds
      → Same (ensure_page from_bitmap t i f s) (ensure t i g s)
  unfolding ensure_page ensure
  ensure-Same t i f g same s h = elim (Bool-cases (present (entry s t i))) [
    | inl there ↦ rw there (both h)
    | inr absent ↦ rw absent (elim (Bool-cases ((phys_page_alloc s.freemap s.bmap).0 == 0)) [
      | inl null ↦ rw null at_null
      | inr page ↦
          rw page (
            same _ _ (ap (λ d. (phys_page_alloc d s.bmap).0 % page_size) h ∙ page-Aligned s.bmap) h)
    ])
  ]

  map_page-Same :
      (fuel phys virt : ℕ) (s : Machine)
      → phys % page_size ≡ 0
      → s.freemap ≡ ds
      → Same (boot_map_page from_bitmap fuel phys virt s) (map_page fuel phys virt s)
  unfolding boot_map_page map_page
  map_page-Same zero phys virt s a h = no_fuel
  map_page-Same (suc fuel) phys virt s a h = rw a (elim (Bool-cases (virt % page_size == 0)) [
    | inr odd ↦ rw odd (both h)
    | inl even ↦
        let same = λ (p : ℕ) (s' : Machine). map_page-Same fuel p p s' in
        rw even (
          Same-bind _ _
            (ensure-Same root (pml4_idx virt) (boot_map_page from_bitmap fuel) (map_page fuel) same
              s h)
            λ _ s₁ h₁.
              let pdpt = at (entry_addr (entry s₁ root (pml4_idx virt))) in
              Same-bind _ _
                (ensure-Same pdpt (pdpt_idx virt) (boot_map_page from_bitmap fuel) (map_page fuel)
                  same s₁ h₁)
                λ _ s₂ h₂.
                  let pd = at (entry_addr (entry s₂ pdpt (pdpt_idx virt))) in
                  Same-bind _ _
                    (ensure-Same pd (pd_idx virt) (boot_map_page from_bitmap fuel) (map_page fuel)
                      same s₂ h₂)
                    λ _ s₃ h₃. both h₃)
  ])

-- Over areas of whole pages that do not wrap, and with an allocator that takes its pages as
-- `phys_page_alloc` does, the bootloader's `map_page` of a physical page is the kernel's: the same
-- run, to the same state.
pub boot_map_page-map_page :
    (fuel phys virt : ℕ) (s : Machine)
    → Fits s.freemap
    → Aligned s.freemap
    → phys % page_size ≡ 0
    → boot_map_page from_bitmap fuel phys virt s ≡ map_page fuel phys virt s
boot_map_page-map_page fuel phys virt s fits aligned a =
    Same-eq s.freemap fits aligned (map_page-Same s.freemap fits aligned fuel phys virt s a refl)
