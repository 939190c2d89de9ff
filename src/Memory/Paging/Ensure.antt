-- ===== src/Memory/Paging/Ensure.antt =====
-- One level of `map_page`: the table below an entry is there, or is allocated, cleared, linked and
-- mapped to its own address.
use flame_os.Base.{
  ℕ, suc, ◌*◌, ◌<◌, ◌%◌, ◌^◌, ◌≡◌, inl, inr, ap, true, false, arith, Bool-cases, ◌==◌,
}
use flame_os.Memory.Phys.{page_size, Bitmap}
use flame_os.Memory.Phys.Free.{page_addr-Aligned}
use flame_os.Memory.Phys.Count.{free_pages, Allocated, phys_page_alloc-Allocated}
use flame_os.Memory.Machine.{Machine, Cmd}
use flame_os.Memory.Paging.{Table, entry, present, ensure}
use flame_os.Memory.Paging.Entry.{page_number}
use flame_os.Memory.Paging.Grow.{
  with_table, linked, not_table, linked-IsTree, linked-Grows, linked-present,
}
use flame_os.Memory.Paging.Tree.{
  Ghost, level_of, IsTable, IsTree, IsNew, Grows, Grows-refl, Grows-trans, Grows-weaken,
  IsTable-Grows, level-Grows,
}
use flame_os.Memory.Paging.Ends.{Ends, returns, no_page, mono}

-- What `map_page` promises of the page `virt`.
abbrev pub Mapped : ℕ → Ghost → Machine → Ghost → Machine → Type 0
Mapped virt g s g' s' = IsTree g' s' × Grows (λ v. v ≡ page_number virt) g s g' s'

-- The entry is present afterwards, and nothing else but new tables has changed.
abbrev pub Ensured : Table → ℕ → Ghost → Machine → Ghost → Machine → Type 0
Ensured t i g s g' s' = IsTree g' s' × Grows (λ v. ⊥) g s g' s' × (present (entry s' t i) ≡ true)

module _ (map : ℕ → ℕ → Cmd (Unit {0})) (fuel : ℕ)
    (maps : (g : Ghost) (s : Machine) (p : ℕ)
      → IsTree g s
      → free_pages s.freemap s.bmap < fuel
      → Ends (Mapped p g s) (map p p s)) where
  -- After the new table is linked, it is mapped to itself.
  link-Ends :
      (g : Ghost) (s : Machine) (m : Bitmap) (t : Table) (i page : ℕ)
      → IsTree g s
      → i < 512
      → IsTable g t
      → level_of g t < 3
      → present (entry s t i) ≡ false
      → Allocated s.freemap s.bmap page m
      → free_pages s.freemap s.bmap < suc fuel
      → Ends (Ensured t i g s) (map page page (linked s m t i page))
  link-Ends g s m t i page w l is k absent got few =
      mono
        (maps g₁ s₁ page (linked-IsTree g s m t i page w is k absent got)
          (omega (arith, got.fewer)))
        λ g₂ s₂ (w₂, grow).
          let all = Grows-trans (linked-Grows g s m t i page w is k absent got _) grow in
          (w₂, Grows-weaken (λ v. ⊥) (λ v e. inr (new v e g₂ grow)) all, still g₂ s₂ grow)
    where
      g₁ : Ghost
      g₁ = with_table g t i page

      s₁ : Machine
      s₁ = linked s m t i page

      start : Grows (λ v. v ≡ page_number page) g s g₁ s₁
      start = linked-Grows g s m t i page w is k absent got _

      aligned : page % page_size ≡ 0
      aligned = rw got.address (page_addr-Aligned s.freemap got.index w.map.aligned)

      low : page < 2 ^ 48
      low = rw got.address (w.map.low got.index got.in_map)

      new :
          (v : ℕ)
          → v ≡ page_number page
          → (g₂ : Ghost) {s₂ : Machine} → Grows (λ v. v ≡ page_number page) g₁ s₁ g₂ s₂
          → IsNew g g₂ v
      new v e g₂ grow =
          let e' : v * page_size ≡ page = omega (arith, aligned, low) in
          let at_page : g₁.level page ≡ suc (level_of g t) = ground arith in
          rw e' (
            not_table g s m t i page w is k absent got,
            λ z. ground (arith, at_page, grow.same_level page (λ z'. omega arith)),
          )

      still :
          (g₂ : Ghost) (s₂ : Machine)
          → Grows (λ v. v ≡ page_number page) g₁ s₁ g₂ s₂
          → present (entry s₂ t i) ≡ true
      still g₂ s₂ grow =
          let linked_here = linked-present g s m t i page w is k absent got in
          rw
            (grow.same_entry t i l (IsTable-Grows t start is) (rw (level-Grows t start is) k)
              linked_here)
            linked_here

  nonnull :
      (g : Ghost) (s : Machine)
      → IsTree g s
      → {page : ℕ} {m : Bitmap} → Allocated s.freemap s.bmap page m
      → (page == 0) ≡ false
  nonnull g s w got = ground (arith, w.map.nonnull got.index got.in_map, got.address)

  pub ensure-Ends :
      (g : Ghost) (s : Machine) (t : Table) (i : ℕ)
      → IsTree g s
      → i < 512
      → IsTable g t
      → level_of g t < 3
      → free_pages s.freemap s.bmap < suc fuel
      → Ends (Ensured t i g s) (ensure t i map s)
  unfolding ensure
  ensure-Ends g s t i w l is k few = elim (Bool-cases (present (entry s t i))) [
    | inl there ↦ rw there (returns g (w, Grows-refl _ g s, there))
    | inr absent ↦
        rw absent (elim (phys_page_alloc-Allocated s.freemap s.bmap w.map.fits w.map.distinct) [
          | inl got ↦ rw (nonnull g s w got) (link-Ends g s _ t i _ w l is k absent got few)
          | inr failed ↦ rw failed (no_page (ap (λ r. r.0) failed))
        ])
  ]
