-- ===== src/Memory/Paging.antt =====
-- kernel/arch/x86_64/memory/paging.c: the four-level page tables.
pub mod Entry
pub mod Tree
pub mod Grow
pub mod Leaf
pub mod Ends
pub mod Ensure
pub mod Map
pub mod Frame
use flame_os.Base.{
  ℕ, zero, suc, ◌+◌, ◌%◌, ◌≡◌, Bool, not, ◌||◌, ◌==◌, if◌then◌else◌, bit_and, bit_or, ◌>>>◌, add64,
}
use flame_os.Memory.Phys.{page_size, write_word, phys_page_alloc}
use flame_os.Memory.Machine.{
  Machine, Run, done, null_write, out_of_fuel, Cmd, pure, ◌>>=◌, ◌>>◌, get,
}

abbrev pub flag_present : ℕ
flag_present = 1

-- FLAG_PRESENT | FLAG_RW | FLAG_US
abbrev pub flags : ℕ
flags = 7

abbrev pub addr_mask : ℕ
addr_mask = 0x000f_ffff_ffff_f000

-- A `struct table *`: the root, or a table at the address of its page.
pub data Table : Type 0 where
  root : Table
  at : ℕ → Table

abbrev pub entry : Machine → Table → ℕ → ℕ
entry s root i = s.pml4 i
entry s (at t) i = s.table t i

abbrev pub update_table : (ℕ → ℕ → ℕ) → ℕ → ℕ → ℕ → ℕ → ℕ → ℕ
update_table tables t i e a = if t == a then write_word (tables a) i e else tables a

abbrev pub set_root : Table → ℕ → ℕ → (ℕ → ℕ) → ℕ → ℕ
set_root root i e entries = write_word entries i e
set_root (at t) i e entries = entries

abbrev pub set_table : Table → ℕ → ℕ → (ℕ → ℕ → ℕ) → ℕ → ℕ → ℕ
set_table root i e tables = tables
set_table (at t) i e tables = update_table tables t i e

-- `t->entry[i] = e`
abbrev pub set_entry : Table → ℕ → ℕ → Machine → Machine
set_entry t i e s = record s { pml4 = set_root t i e s.pml4; table = set_table t i e s.table }

abbrev pub present : ℕ → Bool
present e = not (bit_and e flag_present == 0)

-- The page that an entry points to, and the entry that points to a page.
unfoldable pub entry_addr : ℕ → ℕ
entry_addr e = bit_and e addr_mask

pub make_entry : ℕ → ℕ
make_entry page = bit_or (bit_and page addr_mask) flags

abbrev pub pml4_idx : ℕ → ℕ
pml4_idx virt = bit_and (virt >>> 39) 0x1ff

abbrev pub pdpt_idx : ℕ → ℕ
pdpt_idx virt = bit_and (virt >>> 30) 0x1ff

abbrev pub pd_idx : ℕ → ℕ
pd_idx virt = bit_and (virt >>> 21) 0x1ff

abbrev pub pt_idx : ℕ → ℕ
pt_idx virt = bit_and (virt >>> 12) 0x1ff

-- `memset(page, 0, PAGE_SIZE)`
abbrev pub clear_table : (ℕ → ℕ → ℕ) → ℕ → ℕ → ℕ → ℕ
clear_table tables t a = if t == a then (λ _. 0) else tables a

-- `page = phys_page_alloc(); memset(page, 0, PAGE_SIZE)`
unfoldable pub new_table : Cmd ℕ
new_table s =
    let (page, m) = phys_page_alloc s.freemap s.bmap in
    let s' = record s { bmap = m } in
    if page == 0 then null_write s' else done page (record s' { table = clear_table s'.table page })

-- `if (!(t->entry[i] & FLAG_PRESENT)) { … }`. The last argument is `map_page` itself.
unfoldable pub ensure : Table → ℕ → (ℕ → ℕ → Cmd (Unit {0})) → Cmd (Unit {0})
unfolding new_table make_entry
ensure t i map s =
    if present (entry s t i)
    then done tt s
    else (do page ← new_table; (λ s'. done tt (set_entry t i (make_entry page) s')); map page page)
        s

-- The depth of the recursion is bounded by the fuel.
unfoldable pub map_page : (fuel : ℕ) (phys virt : ℕ) → Cmd (Unit {0})
unfolding ensure entry_addr make_entry
map_page zero phys virt = λ _. out_of_fuel
map_page (suc fuel) phys virt =
    if not (phys % page_size == 0) || not (virt % page_size == 0) then pure tt else do
      ensure root (pml4_idx virt) (map_page fuel)
      s₁ ← get
      let pdpt = at (entry_addr (entry s₁ root (pml4_idx virt)))
      ensure pdpt (pdpt_idx virt) (map_page fuel)
      s₂ ← get
      let pd = at (entry_addr (entry s₂ pdpt (pdpt_idx virt)))
      ensure pd (pd_idx virt) (map_page fuel)
      s₃ ← get
      let pt = at (entry_addr (entry s₃ pd (pd_idx virt)))
      λ s. done tt (set_entry pt (pt_idx virt) (make_entry phys) s)

unfoldable pub find_physaddr : ℕ → Machine → ℕ
unfolding entry_addr
find_physaddr virt s =
    if not (present (entry s root (pml4_idx virt)))
    then 0
    else let pdpt = at (entry_addr (entry s root (pml4_idx virt))) in
      if not (present (entry s pdpt (pdpt_idx virt)))
      then 0
      else let pd = at (entry_addr (entry s pdpt (pdpt_idx virt))) in
        if not (present (entry s pd (pd_idx virt)))
        then 0
        else let pt = at (entry_addr (entry s pd (pd_idx virt))) in
          if not (present (entry s pt (pt_idx virt)))
          then 0
          else entry_addr (entry s pt (pt_idx virt)) + bit_and virt 0xfff
