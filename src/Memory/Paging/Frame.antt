-- ===== src/Memory/Paging/Frame.antt =====
-- What `map_page` leaves alone: the translations of the other pages.
use flame_os.Base.{
  ℕ, ◌+◌, ◌*◌, ◌<◌, ◌≡◌, ◌≢◌, inl, inr, ◌%◌, ◌^◌, refl, ap, sym, ◌∙◌, true, arith, not,
  if◌then◌else◌, bit_and,
}
use native.Mathlib.Decide.{}
use flame_os.Memory.Phys.{page_size}
use flame_os.Memory.Paging.Ensure.{Mapped}
use flame_os.Memory.Phys.Count.{free_pages}
use flame_os.Memory.Machine.{Machine}
use flame_os.Memory.Paging.{
  root, at, entry, present, entry_addr, map_page, find_physaddr, pml4_idx, pdpt_idx, pd_idx, pt_idx,
}
use flame_os.Memory.Paging.Entry.{page_number, idx_lem}
use flame_os.Memory.Paging.Tree.{InMap, Ghost, IsTree, IsNew, Grows}
use flame_os.Memory.Paging.Ends.{Ends, mono}
use flame_os.Memory.Paging.Map.{map_page-Ends, child-entry}

-- The three upper tables for `v` are there; `e₃` is the entry that leads to its leaf table.
pub record HasTables (v : ℕ) (s : Machine) : Type 0 where
  pub e₁ : ℕ
  pub e₂ : ℕ
  pub e₃ : ℕ
  pub first : entry s root (pml4_idx v) ≡ e₁
  pub first_present : present e₁ ≡ true
  pub second : entry s (at (entry_addr e₁)) (pdpt_idx v) ≡ e₂
  pub second_present : present e₂ ≡ true
  pub third : entry s (at (entry_addr e₂)) (pd_idx v) ≡ e₃
  pub third_present : present e₃ ≡ true

-- The last step of the walk.
abbrev leaf_value : ℕ → ℕ → ℕ
leaf_value v e = if not (present e) then 0 else entry_addr e + bit_and v 0xfff

find_tables :
    (v : ℕ) (s : Machine) (h : HasTables v s)
    → find_physaddr v s ≡ leaf_value v (entry s (at (entry_addr h.e₃)) (pt_idx v))
unfolding find_physaddr
find_tables v s h =
    rw (h.first, h.first_present, h.second, h.second_present, h.third, h.third_present) refl

module _ {Allow : ℕ → Type 0} {g g' : Ghost} {s s' : Machine} (w : IsTree g s)
    (grow : Grows Allow g s g' s') (v : ℕ) (h : HasTables v s) where
  first : (g.level (entry_addr h.e₁) ≡ 1) × (g.prefix (entry_addr h.e₁) ≡ pml4_idx v)
  first =
      let c = child-entry g s root (pml4_idx v) h.e₁ w h.first h.first_present in
      omega (arith, c (omega (arith, idx_lem v)) tt (omega arith))

  second :
      (g.level (entry_addr h.e₂) ≡ 2)
      × (g.prefix (entry_addr h.e₂) ≡ g.prefix (entry_addr h.e₁) * 512 + pdpt_idx v)
  second =
      let c =
        child-entry g s (at (entry_addr h.e₁)) (pdpt_idx v) h.e₂ w h.second h.second_present
          (omega (arith, idx_lem v)) in
      omega (arith, first, c (λ z. omega (arith, first)) (omega (arith, first)))

  third :
      (g.level (entry_addr h.e₃) ≡ 3)
      × (g.prefix (entry_addr h.e₃) ≡ g.prefix (entry_addr h.e₂) * 512 + pd_idx v)
  third =
      let c =
        child-entry g s (at (entry_addr h.e₂)) (pd_idx v) h.e₃ w h.third h.third_present
          (omega (arith, idx_lem v)) in
      omega (arith, second, c (λ z. omega (arith, second)) (omega (arith, second)))

  leaf_number : g.prefix (entry_addr h.e₃) * 512 + pt_idx v ≡ page_number v
  leaf_number = omega (arith, first, second, third, idx_lem v)

  pub HasTables-Grows : HasTables v s'
  HasTables-Grows = record {
    e₁ = h.e₁;
    e₂ = h.e₂;
    e₃ = h.e₃;
    first =
        grow.same_entry root (pml4_idx v) (omega (arith, idx_lem v)) tt (omega arith)
          (rw h.first h.first_present)
        ∙ h.first;
    first_present = h.first_present;
    second =
        grow.same_entry (at (entry_addr h.e₁)) (pdpt_idx v) (omega (arith, idx_lem v))
          (λ z. omega (arith, first)) (omega (arith, first)) (rw h.second h.second_present)
        ∙ h.second;
    second_present = h.second_present;
    third =
        grow.same_entry (at (entry_addr h.e₂)) (pd_idx v) (omega (arith, idx_lem v))
          (λ z. omega (arith, second)) (omega (arith, second)) (rw h.third h.third_present)
        ∙ h.third;
    third_present = h.third_present;
  }

  pub find_physaddr-grows :
      ¬ Allow (page_number v)
      → ¬ IsNew g g' (page_number v)
      → find_physaddr v s' ≡ find_physaddr v s
  unfolding HasTables-Grows
  find_physaddr-grows other old =
      find_tables v s' HasTables-Grows ∙ ap (leaf_value v) same ∙ sym (find_tables v s h)
    where
      same : s'.table (entry_addr h.e₃) (pt_idx v) ≡ s.table (entry_addr h.e₃) (pt_idx v)
      same = elim (grow.same_leaf (entry_addr h.e₃) (pt_idx v) (omega (arith, idx_lem v)) third.0) [
        | inl e ↦ e
        | inr (inl allowed) ↦ absurd (other (rw leaf_number at allowed))
        | inr (inr new) ↦ absurd (old (rw leaf_number at new))
      ]

-- An address in another page than `virt`, whose three upper tables are there and whose page is none of
-- the map of physical memory, from which new tables are taken, is translated after `map_page` as
-- before; or the run ends at a write through NULL with no page free. The tables are a tree
-- before the call, and the fuel exceeds the number of free pages.
pub find_physaddr-map_page :
    (fuel phys virt v : ℕ) (g : Ghost) (s : Machine)
    → IsTree g s
    → free_pages s.freemap s.bmap < fuel
    → HasTables v s
    → page_number v ≢ page_number virt
    → ¬ InMap s.freemap (page_number v * page_size)
    → Ends (λ g' s'. find_physaddr v s' ≡ find_physaddr v s) (map_page fuel phys virt s)
find_physaddr-map_page fuel phys virt v g s w few h other outside =
    mono (map_page-Ends fuel phys virt g s w few) λ g' s' done.
      let grow = (done.0).1 in
      find_physaddr-grows w grow v h other
        λ (old, new). outside (grow.new_in_map (page_number v * page_size) old new)

-- `map_page` of a physical page below 2 ^ 52 to a virtual page, both on page boundaries, over a tree of
-- tables and with fuel above the number of free pages, ends with `virt` translated by `find_physaddr` to
-- `phys`, or at a write through NULL with no page free.
pub map_page-maps :
    (fuel phys virt : ℕ) (g : Ghost) (s : Machine)
    → IsTree g s
    → free_pages s.freemap s.bmap < fuel
    → phys % page_size ≡ 0
    → virt % page_size ≡ 0
    → phys < 2 ^ 52
    → Ends (λ g' s'. find_physaddr virt s' ≡ phys) (map_page fuel phys virt s)
map_page-maps fuel phys virt g s w few ap av low =
    mono (map_page-Ends fuel phys virt g s w few) λ g' s' done. done.1 ap av low

-- `map_page` on a tree of tables always ends, if its fuel exceeds the number of free pages. It ends
-- at a write through NULL only when no page is free. Else the tables are a tree again; what was
-- present in the three upper levels is kept, and every leaf entry but those of the page of `virt` and
-- of the pages of new tables; and there are no more free pages than before.
pub map_page-grows :
    (fuel phys virt : ℕ) (g : Ghost) (s : Machine)
    → IsTree g s
    → free_pages s.freemap s.bmap < fuel
    → Ends (Mapped virt g s) (map_page fuel phys virt s)
map_page-grows fuel phys virt g s w few =
    mono (map_page-Ends fuel phys virt g s w few) λ g' s' done. done.0
