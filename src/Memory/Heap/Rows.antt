-- ===== src/Memory/Heap/Rows.antt =====
-- The paging code leaves `freespace` and `allocations` alone.
use flame_os.Base.{ℕ, zero, suc, List, ◌≡◌, inl, inr, Bool-cases, ◌==◌, not, ◌||◌, ◌%◌}
use flame_os.Memory.Phys.{page_size, phys_page_alloc}
use flame_os.Memory.Machine.{
  Machine, Region, Run, done, null_write, bad_read, out_of_fuel, Cmd, and_then,
}
use flame_os.Memory.Paging.{
  Table, root, at, entry_addr, pml4_idx, pdpt_idx, pd_idx, present, entry, ensure, map_page,
  find_physaddr,
}
use flame_os.Memory.Heap.{map_missing, map_block}

-- If the run returns, the rows are `f` and `a`.
pub data KeepsRows {A : Type 0} (f a : ℕ → List Region) : Run A → Type 0 where
  kept : {x : A} {s : Machine} → s.freespace ≡ f → s.allocations ≡ a → KeepsRows f a (done x s)
  at_null : {s : Machine} → KeepsRows f a (null_write s)
  at_read : {s : Machine} → KeepsRows f a (bad_read s)
  no_fuel : KeepsRows f a out_of_fuel

module _ (f a : ℕ → List Region) where
  keeps_bind :
      {A B : Type 0} {r : Run A} (k : A → Cmd B)
      → KeepsRows f a r
      → ((x : A) (s : Machine) → s.freespace ≡ f → s.allocations ≡ a → KeepsRows f a (k x s))
      → KeepsRows f a (and_then r k)
  keeps_bind k (kept h h') next = next _ _ h h'
  keeps_bind k at_null next = at_null
  keeps_bind k at_read next = at_read
  keeps_bind k no_fuel next = no_fuel

  ensure-rows :
      (t : Table) (i : ℕ) (map : ℕ → ℕ → Cmd (Unit {0}))
      → ((p : ℕ) (s : Machine) → s.freespace ≡ f → s.allocations ≡ a → KeepsRows f a (map p p s))
      → (s : Machine) → s.freespace ≡ f
      → s.allocations ≡ a
      → KeepsRows f a (ensure t i map s)
  unfolding ensure
  ensure-rows t i map maps s hf ha = elim (Bool-cases (present (entry s t i))) [
    | inl there ↦ rw there (kept hf ha)
    | inr absent ↦ rw absent (elim (Bool-cases ((phys_page_alloc s.freemap s.bmap).0 == 0)) [
      | inl null ↦ rw null at_null
      | inr page ↦ rw page (maps _ _ hf ha)
    ])
  ]

  pub map_page-rows :
      (fuel phys virt : ℕ) (s : Machine)
      → s.freespace ≡ f
      → s.allocations ≡ a
      → KeepsRows f a (map_page fuel phys virt s)
  unfolding map_page
  map_page-rows zero phys virt s hf ha = no_fuel
  map_page-rows (suc fuel) phys virt s hf ha =
      elim (Bool-cases (not (phys % page_size == 0) || not (virt % page_size == 0))) [
        | inl odd ↦ rw odd (kept hf ha)
        | inr even ↦
            let maps = λ (p : ℕ) (s' : Machine). map_page-rows fuel p p s' in
            rw even (
              keeps_bind _ (ensure-rows root (pml4_idx virt) (map_page fuel) maps s hf ha)
                λ _ s₁ h₁ h₁'.
                  let pdpt = at (entry_addr (entry s₁ root (pml4_idx virt))) in
                  keeps_bind _ (ensure-rows pdpt (pdpt_idx virt) (map_page fuel) maps s₁ h₁ h₁')
                    λ _ s₂ h₂ h₂'.
                      let pd = at (entry_addr (entry s₂ pdpt (pdpt_idx virt))) in
                      keeps_bind _ (ensure-rows pd (pd_idx virt) (map_page fuel) maps s₂ h₂ h₂')
                        λ _ s₃ h₃ h₃'. kept h₃ h₃')
      ]

  map_missing-rows :
      (fuel virt : ℕ) (s : Machine)
      → s.freespace ≡ f
      → s.allocations ≡ a
      → KeepsRows f a (map_missing fuel virt s)
  unfolding map_missing
  map_missing-rows fuel virt s hf ha = elim (Bool-cases (find_physaddr virt s == 0)) [
    | inl unmapped ↦ rw unmapped (map_page-rows fuel _ virt _ hf ha)
    | inr mapped ↦ rw mapped (kept hf ha)
  ]

  pub map_block-rows :
      (fuel left addr i : ℕ) (s : Machine)
      → s.freespace ≡ f
      → s.allocations ≡ a
      → KeepsRows f a (map_block fuel left addr i s)
  unfolding map_block
  map_block-rows fuel zero addr i s hf ha = kept hf ha
  map_block-rows fuel (suc left) addr i s hf ha =
      keeps_bind _ (map_missing-rows fuel _ s hf ha)
        λ _ s' h h'. map_block-rows fuel left addr _ s' h h'
