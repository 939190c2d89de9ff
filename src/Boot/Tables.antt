-- ===== src/Boot/Tables.antt =====
-- bootloader/boot.c, `map_page`: the page tables that the kernel starts with. They stand in the same
-- machine as the kernel's. The firmware's `pagealloc` of one page is an argument.
pub mod Same
use flame_os.Base.{ℕ, zero, suc, ◌%◌, not, ◌==◌, if◌then◌else◌}
use flame_os.Memory.Phys.{page_size}
use flame_os.Memory.Machine.{Machine, Run, done, out_of_fuel, Cmd, pure, ◌>>=◌, ◌>>◌, get}
use flame_os.Memory.Paging.{
  Table, root, at, entry, set_entry, present, entry_addr, make_entry, clear_table, pml4_idx,
  pdpt_idx, pd_idx, pt_idx,
}

module _ (pagealloc : Cmd ℕ) where
  -- `pagealloc(…, &page); memzero(page, PAGE_SIZE)`
  unfoldable pub new_page : Cmd ℕ
  new_page = do page ← pagealloc; λ s. done page (record s { table = clear_table s.table page })

  -- `if (!(t->entry[i] & FLAG_PRESENT)) { … }`. The last argument is `map_page` itself.
  unfoldable pub ensure_page : Table → ℕ → (ℕ → ℕ → Cmd (Unit {0})) → Cmd (Unit {0})
  unfolding new_page
  ensure_page t i map s =
      if present (entry s t i)
      then done tt s
      else (do page ← new_page; (λ s'. done tt (set_entry t i (make_entry page) s')); map page page)
          s

  -- `map_page` of the bootloader looks at the virtual address only.
  unfoldable pub boot_map_page : (fuel phys virt : ℕ) → Cmd (Unit {0})
  unfolding ensure_page
  boot_map_page zero phys virt = λ _. out_of_fuel
  boot_map_page (suc fuel) phys virt = if not (virt % page_size == 0) then pure tt else do
    ensure_page root (pml4_idx virt) (boot_map_page fuel)
    s₁ ← get
    let pdpt = at (entry_addr (entry s₁ root (pml4_idx virt)))
    ensure_page pdpt (pdpt_idx virt) (boot_map_page fuel)
    s₂ ← get
    let pd = at (entry_addr (entry s₂ pdpt (pdpt_idx virt)))
    ensure_page pd (pd_idx virt) (boot_map_page fuel)
    s₃ ← get
    let pt = at (entry_addr (entry s₃ pd (pd_idx virt)))
    λ s. done tt (set_entry pt (pt_idx virt) (make_entry phys) s)
