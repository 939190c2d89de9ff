-- ===== src/Memory/Paging/Map.antt =====
-- `map_page` over a tree of tables: it ends, keeps the tree, and maps the page that it is given.
use flame_os.Base.{
  ℕ, zero, suc, ◌+◌, ◌*◌, ◌<◌, ◌%◌, ◌^◌, ◌≡◌, ◌≢◌, inl, inr, refl, ap, ◌∙◌, true, false, arith,
  Bool-cases, ◌==◌, not, ◌||◌,
}
use flame_os.Memory.Phys.{page_size}
use flame_os.Memory.Phys.Count.{free_pages}
use flame_os.Memory.Machine.{Machine}
use flame_os.Memory.Paging.{
  Table, root, at, entry, set_entry, present, entry_addr, make_entry, map_page, find_physaddr,
  ensure, pml4_idx, pdpt_idx, pd_idx, pt_idx,
}
use flame_os.Memory.Paging.Entry.{
  page_number, idx_lem, offset_lem, entry_addr-make_entry, present-make_entry,
}
use flame_os.Memory.Paging.Grow.{entry-set_entry}
use flame_os.Memory.Paging.Leaf.{entry-write_leaf, write_leaf-IsTree, write_leaf-Grows}
use flame_os.Memory.Paging.Tree.{
  Ghost, level_of, prefix_of, IsTable, IsTree, Grows, Grows-refl, Grows-trans, Grows-weaken,
}
use flame_os.Memory.Paging.Ends.{Ends, returns, bind, mono}
use flame_os.Memory.Paging.Ensure.{Mapped, Ensured, ensure-Ends}

-- The walk through four present entries.
pub find_walk :
    (virt : ℕ) (s : Machine) (e₁ e₂ e₃ e₄ : ℕ)
    → entry s root (pml4_idx virt) ≡ e₁
    → present e₁ ≡ true
    → entry s (at (entry_addr e₁)) (pdpt_idx virt) ≡ e₂
    → present e₂ ≡ true
    → entry s (at (entry_addr e₂)) (pd_idx virt) ≡ e₃
    → present e₃ ≡ true
    → entry s (at (entry_addr e₃)) (pt_idx virt) ≡ e₄
    → present e₄ ≡ true
    → find_physaddr virt s ≡ entry_addr e₄ + virt % page_size
unfolding find_physaddr
find_walk virt s e₁ e₂ e₃ e₄ h₁ p₁ h₂ p₂ h₃ p₃ h₄ p₄ =
    rw (h₁, p₁, h₂, p₂, h₃, p₃, h₄, p₄, offset_lem virt)

-- With the three upper levels ensured, the last write ends `map_page`.
abbrev pub MapDone : ℕ → ℕ → Ghost → Machine → Ghost → Machine → Type 0
MapDone phys virt g s g' s' =
    Mapped virt g s g' s'
    × (phys % page_size ≡ 0 → virt % page_size ≡ 0 → phys < 2 ^ 52 → find_physaddr virt s' ≡ phys)

-- Where a present entry leads.
pub child-entry :
    (g : Ghost) (s : Machine) (t : Table) (i e : ℕ)
    → IsTree g s
    → entry s t i ≡ e
    → present e ≡ true
    → i < 512
    → IsTable g t
    → level_of g t < 3
    → (g.level (entry_addr e) ≡ suc (level_of g t))
      × (g.prefix (entry_addr e) ≡ prefix_of g t * 512 + i)
child-entry g s t i e w h p l is k = rw h at (w.child t i l is k (rw h p))

module _ (phys virt : ℕ) where
  weaken :
      {g g' : Ghost} {s s' : Machine}
      → Grows (λ v. ⊥) g s g' s'
      → Grows (λ v. v ≡ page_number virt) g s g' s'
  weaken grow = Grows-weaken _ (λ v e. absurd e) grow

  -- The last write: `a₁`, `a₂` and `a₃` are the tables of the walk.
  finish :
      (g : Ghost) (s : Machine) (e₁ e₂ e₃ : ℕ)
      → IsTree g s
      → entry s root (pml4_idx virt) ≡ e₁
      → present e₁ ≡ true
      → entry s (at (entry_addr e₁)) (pdpt_idx virt) ≡ e₂
      → present e₂ ≡ true
      → entry s (at (entry_addr e₂)) (pd_idx virt) ≡ e₃
      → present e₃ ≡ true
      → MapDone phys virt g s g (set_entry (at (entry_addr e₃)) (pt_idx virt) (make_entry phys) s)
  finish g s e₁ e₂ e₃ w h₁ p₁ h₂ p₂ h₃ p₃ = (
    (write_leaf-IsTree g s a i e w leaf, rw number at (write_leaf-Grows g s a i e w leaf)),
    λ ap av low. find_lem ap av low,
  )
    where
      a : ℕ
      a = entry_addr e₃

      i : ℕ
      i = pt_idx virt

      e : ℕ
      e = make_entry phys

      first : (g.level (entry_addr e₁) ≡ 1) × (g.prefix (entry_addr e₁) ≡ pml4_idx virt)
      first =
          let c = child-entry g s root (pml4_idx virt) e₁ w h₁ p₁ in
          omega (arith, c (omega (arith, idx_lem virt)) tt (omega arith))

      second :
          (g.level (entry_addr e₂) ≡ 2)
          × (g.prefix (entry_addr e₂) ≡ g.prefix (entry_addr e₁) * 512 + pdpt_idx virt)
      second =
          let t = at (entry_addr e₁) in
          let c = child-entry g s t (pdpt_idx virt) e₂ w h₂ p₂ in
          omega (
            arith,
            first,
            c (omega (arith, idx_lem virt)) (λ z. omega (arith, first)) (omega (arith, first)),
          )

      third :
          (g.level (entry_addr e₃) ≡ 3)
          × (g.prefix (entry_addr e₃) ≡ g.prefix (entry_addr e₂) * 512 + pd_idx virt)
      third =
          let t = at (entry_addr e₂) in
          let c = child-entry g s t (pd_idx virt) e₃ w h₃ p₃ in
          omega (
            arith,
            second,
            c (omega (arith, idx_lem virt)) (λ z. omega (arith, second)) (omega (arith, second)),
          )

      leaf : g.level a ≡ 3
      leaf = third.0

      number : g.prefix a * 512 + i ≡ page_number virt
      number = omega (arith, first, second, third, idx_lem virt)

      kept :
          (t : Table) (j : ℕ) → level_of g t < 3 → entry (set_entry (at a) i e s) t j ≡ entry s t j
      kept = entry-write_leaf g s a i e w leaf

      find_lem :
          phys % page_size ≡ 0
          → virt % page_size ≡ 0
          → phys < 2 ^ 52
          → find_physaddr virt (set_entry (at a) i e s) ≡ phys
      find_lem ap av low =
          find_walk virt (set_entry (at a) i e s) e₁ e₂ e₃ e
            (kept root (pml4_idx virt) (omega arith) ∙ h₁) p₁
            (kept (at (entry_addr e₁)) (pdpt_idx virt) (omega (arith, first)) ∙ h₂) p₂
            (kept (at (entry_addr e₂)) (pd_idx virt) (omega (arith, second)) ∙ h₃) p₃
            (ground (arith, entry-set_entry (at a) i e s (at a) i)) (present-make_entry phys)
          ∙ omega (arith, entry_addr-make_entry phys ap low)

  -- Down one level: where the entry `e` of `t` leads, an entry is ensured.
  module _ (fuel : ℕ)
      (maps : (g : Ghost) (s : Machine) (p : ℕ)
        → IsTree g s
        → free_pages s.freemap s.bmap < fuel
        → Ends (Mapped p g s) (map_page fuel p p s)) where
    down :
        (g : Ghost) (s : Machine) (a i n : ℕ)
        → IsTree g s
        → g.level a ≡ suc n
        → suc n < 3
        → i < 512
        → free_pages s.freemap s.bmap < suc fuel
        → Ends
            (λ g' s'.
              Ensured (at a) i g s g' s'
              × (g'.level (entry_addr (entry s' (at a) i)) ≡ suc (suc n)))
            (ensure (at a) i (map_page fuel) s)
    down g s a i n w e k l few =
        let is : g.level a ≢ 0 = λ z. omega arith in
        mono (ensure-Ends (map_page fuel) fuel maps g s (at a) i w l is (omega arith) few)
          λ g' s' (w', grow, p).
            let e' = grow.same_level a is in
            let c = child-entry g' s' (at a) i (entry s' (at a) i) w' refl p l in
            ((w', grow, p), omega (arith, c (λ z. is (omega arith)) (omega arith)))

    maps_page :
        (g : Ghost) (s : Machine)
        → IsTree g s
        → free_pages s.freemap s.bmap < suc fuel
        → (not (phys % page_size == 0) || not (virt % page_size == 0)) ≡ false
        → Ends (MapDone phys virt g s) (map_page (suc fuel) phys virt s)
    unfolding map_page
    maps_page g s w few even = rw even (
        bind _
          (ensure-Ends (map_page fuel) fuel maps g s root (pml4_idx virt) w i₁ tt (omega arith) few)
          λ _ g₁ s₁ (w₁, grow₁, p₁).
            let e₁ = entry s₁ root (pml4_idx virt) in
            let c₁ = child-entry g₁ s₁ root (pml4_idx virt) e₁ w₁ refl p₁ i₁ tt (omega arith) in
            bind _
              (down g₁ s₁ (entry_addr e₁) (pdpt_idx virt) 0 w₁ c₁.0 (omega arith) i₂
                (omega (arith, grow₁.fewer)))
              λ _ g₂ s₂ ((w₂, grow₂, p₂), c₂).
                let e₂ = entry s₂ (at (entry_addr e₁)) (pdpt_idx virt) in
                bind _
                  (down g₂ s₂ (entry_addr e₂) (pd_idx virt) 1 w₂ c₂ (omega arith) i₃
                    (omega (arith, grow₁.fewer, grow₂.fewer)))
                  λ _ g₃ s₃ ((w₃, grow₃, p₃), c₃).
                    let e₃ = entry s₃ (at (entry_addr e₂)) (pd_idx virt) in
                    let l₂ = grow₂.same_level (entry_addr e₁) (λ z. omega (arith, c₁)) in
                    let k₂ = grow₂.same_entry root (pml4_idx virt) i₁ tt (omega arith) p₁ in
                    let k₃ = grow₃.same_entry root (pml4_idx virt) i₁ tt (omega arith) (rw k₂ p₁) in
                    let m₃ =
                      grow₃.same_entry (at (entry_addr e₁)) (pdpt_idx virt) i₂
                        (λ z. omega (arith, c₁, l₂)) (omega (arith, c₁, l₂)) p₂ in
                    let ((w', grow'), found) =
                      finish g₃ s₃ e₁ e₂ e₃ w₃ (k₃ ∙ k₂) p₁ m₃ p₂ refl p₃ in
                    let before =
                      Grows-trans (Grows-trans (weaken grow₁) (weaken grow₂)) (weaken grow₃) in
                    returns g₃ ((w', Grows-trans before grow'), found))
      where
        i₁ : pml4_idx virt < 512
        i₁ = omega (arith, idx_lem virt)

        i₂ : pdpt_idx virt < 512
        i₂ = omega (arith, idx_lem virt)

        i₃ : pd_idx virt < 512
        i₃ = omega (arith, idx_lem virt)

-- What all the theorems on `map_page` rest on.
pub map_page-Ends :
    (fuel phys virt : ℕ) (g : Ghost) (s : Machine)
    → IsTree g s
    → free_pages s.freemap s.bmap < fuel
    → Ends (MapDone phys virt g s) (map_page fuel phys virt s)
unfolding map_page
map_page-Ends zero phys virt g s w few = absurd (omega arith)
map_page-Ends (suc fuel) phys virt g s w few =
    elim (Bool-cases (not (phys % page_size == 0) || not (virt % page_size == 0))) [
      | inl odd ↦ rw odd (returns g ((w, Grows-refl _ g s), λ ap av low. ground arith))
      | inr even ↦
          maps_page phys virt fuel
            (λ g' s' p w' few'. mono (map_page-Ends fuel p p g' s' w' few') λ g'' s'' h. h.0) g s w
            few even
    ]
