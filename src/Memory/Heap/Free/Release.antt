-- ===== src/Memory/Heap/Free/Release.antt =====
-- What `free` does to the rows: what it takes from the allocations it gives back to the free spaces,
-- address by address.
use flame_os.Base.{
  ℕ, zero, suc, ◌+◌, ◌^◌, ◌<◌, ◌≡◌, ◌≢◌, ◌⊎◌, inl, inr, refl, sym, ap, ◌∙◌, Option, none, some,
  List, [], ◌∷◌, Bool, true, false, ◌==◌, ◌&&◌, leb, ltb, if◌then◌else◌, set, get_elem?, add64,
  sub64, arith, Bool-cases, Option-cases,
}
use flame_os.Base
use flame_os.Memory.Phys.{phys_page_free}
use flame_os.Memory.Phys.Free.{phys_page_free-ne-out_of_fuel}
use flame_os.Memory.Machine.{Machine, Region, Run, done, bad_read, out_of_fuel, Cmd, pure, and_then}
use flame_os.Memory.Paging.{find_physaddr}
use flame_os.Memory.Heap.{region, find_entry, set_row}
use flame_os.Memory.Heap.Count.{
  Each, find_entry-Each, covers, count_at, Bounded, find_entry-Found, with_rows,
}
use flame_os.Memory.Heap.Free.{
  heap_of, grow_space, add_space, return_space, release, free_page, free_middle, free_block,
  free_released, free_from_heap, free, used_at_start, used_at_end,
}

-- The row `rs'` covers what `rs` covers, and the block.
abbrev pub Covered : (addr size : ℕ) → List Region → List Region → Type 0
Covered addr size rs rs' = (a : ℕ) → count_at rs' a ≡ count_at rs a + covers (region addr size) a

covers-behind :
    (addr size : ℕ) (r : Region) (a : ℕ)
    → addr + size < 2 ^ 64
    → r.addr + r.size < 2 ^ 64
    → add64 addr size ≡ r.addr
    → covers (region (sub64 r.addr size) (add64 r.size size)) a
      ≡ covers r a + covers (region addr size) a
covers-behind addr size r a b b' e = ground arith

covers-after :
    (addr size : ℕ) (r : Region) (a : ℕ)
    → addr + size < 2 ^ 64
    → r.addr + r.size < 2 ^ 64
    → addr ≡ add64 r.addr r.size
    → covers (region r.addr (add64 r.size size)) a ≡ covers r a + covers (region addr size) a
covers-after addr size r a b b' e = ground arith

some_row : (xs ys : List Region) → some xs ≡ some ys → xs ≡ ys
some_row xs ys e = cc

module _ (addr size : ℕ) (fits : addr + size < 2 ^ 64) where
  grow_space-Covered :
      (rs rs' : List Region)
      → Bounded rs
      → grow_space addr size rs ≡ some rs'
      → Covered addr size rs rs'
  unfolding grow_space
  grow_space-Covered [] rs' b e a = absurd (cc e)
  grow_space-Covered (r ∷ rs) rs' b e a = elim (Bool-cases (add64 addr size == r.addr)) [
    | inl behind ↦
        let q = some_row (region (sub64 r.addr size) (add64 r.size size) ∷ rs) rs' (ground arith) in
        rw (sym q) (omega (arith, covers-behind addr size r a fits b.0 (ground arith)))
    | inr not_behind ↦ elim (Bool-cases (addr == add64 r.addr r.size)) [
      | inl after ↦
          let q = some_row (region r.addr (add64 r.size size) ∷ rs) rs' (ground arith) in
          rw (sym q) (omega (arith, covers-after addr size r a fits b.0 (ground arith)))
      | inr apart ↦ elim (Option-cases (grow_space addr size rs)) [
        | inl nothing ↦ absurd (ground arith)
        | inr (rest, found) ↦
            let q = some_row (r ∷ rest) rs' (ground arith) in
            rw (sym q) (omega (arith, grow_space-Covered rs rest b.1 found a))
      ]
    ]
  ]

  add_space-Covered :
      (rs rs' : List Region) → add_space addr size rs ≡ some rs' → Covered addr size rs rs'
  unfolding add_space
  add_space-Covered rs rs' e a = elim (Option-cases (find_entry (λ r. r.size == 0) rs)) [
    | inl nothing ↦ absurd (ground arith)
    | inr ((i, r), found) ↦
        let f = find_entry-Found (λ r. r.size == 0) rs i r found in
        let q = some_row (set rs i (region addr size)) rs' (ground arith) in
        rw (sym q) (ground (arith, f.count (region addr size) a, f.passes))
  ]

  return_space-Covered :
      (rs rs' : List Region)
      → Bounded rs
      → return_space addr size rs ≡ some rs'
      → Covered addr size rs rs'
  unfolding return_space
  return_space-Covered rs rs' b e a = elim (Option-cases (grow_space addr size rs)) [
    | inl nothing ↦ add_space-Covered rs rs' (ground arith) a
    | inr (rows, found) ↦ grow_space-Covered rs rs' b (ground arith) a
  ]

-- The block at `addr` has moved from the allocations to the free spaces.
pub record Returned (addr size : ℕ) (free used free' used' : List Region) : Type 0 where
  pub used_count : (a : ℕ) → count_at used' a + covers (region addr size) a ≡ count_at used a
  pub free_count : Covered addr size free free'

-- No allocation starts at the address.
abbrev pub NotThere : ℕ → List Region → Type 0
NotThere addr used = Each (λ a. addr ≢ a.addr) used

-- No free space touches the block, and none is empty.
abbrev pub NoRoom : (addr size : ℕ) → List Region → Type 0
NoRoom addr size free =
    Each (λ r. (add64 addr size ≢ r.addr) × (addr ≢ add64 r.addr r.size) × (r.size ≢ 0)) free

-- `used'` is `used` without the allocation of `size` bytes at `addr`.
abbrev pub Cleared : (addr size : ℕ) → List Region → List Region → Type 0
Cleared addr size used used' =
    (i : ℕ) × (get_elem? used i ≡ some (region addr size)) × (used' ≡ set used i (region 0 0))

grow_space-none :
    (addr size : ℕ) (rs : List Region)
    → grow_space addr size rs ≡ none
    → Each (λ r. (add64 addr size ≢ r.addr) × (addr ≢ add64 r.addr r.size)) rs
unfolding grow_space
grow_space-none addr size [] e = tt
grow_space-none addr size (r ∷ rs) e = elim (Bool-cases (add64 addr size == r.addr)) [
  | inl behind ↦ absurd (ground arith)
  | inr not_behind ↦ elim (Bool-cases (addr == add64 r.addr r.size)) [
    | inl after ↦ absurd (ground arith)
    | inr apart ↦ elim (Option-cases (grow_space addr size rs)) [
      | inl nothing ↦ ((λ z. ground arith, λ z. ground arith), grow_space-none addr size rs nothing)
      | inr (rest, found) ↦ absurd (ground arith)
    ]
  ]
]

both_Each :
    (addr size : ℕ) (rs : List Region)
    → Each (λ r. (add64 addr size ≢ r.addr) × (addr ≢ add64 r.addr r.size)) rs
    → Each (λ r. r.size ≢ 0) rs
    → NoRoom addr size rs
both_Each addr size [] h h' = tt
both_Each addr size (r ∷ rs) ((a, b), h) (c, h') = ((a, b, c), both_Each addr size rs h h')

return_space-none :
    (addr size : ℕ) (rs : List Region) → return_space addr size rs ≡ none → NoRoom addr size rs
unfolding return_space add_space
return_space-none addr size rs e = elim (Option-cases (grow_space addr size rs)) [
  | inr (rows, found) ↦ absurd (ground arith)
  | inl nothing ↦ elim (Option-cases (find_entry (λ r. r.size == 0) rs)) [
    | inr (t, found) ↦ absurd (ground arith)
    | inl full ↦
        both_Each addr size rs (grow_space-none addr size rs nothing)
          (find_entry-Each (λ r. r.size == 0) (λ r. r.size ≢ 0) rs (λ r h z. ground arith) full)
  ]
]

-- The run returns, or reads behind the entries of `freemap`; if it returns, the rows are `f` and `a`.
pub data Settles (f a : ℕ → List Region) : Run (Unit {0}) → Type 0 where
  settled : {s : Machine} → s.freespace ≡ f → s.allocations ≡ a → Settles f a (done tt s)
  behind_map : {s : Machine} → Settles f a (bad_read s)

module _ (f a : ℕ → List Region) where
  Settles-then :
      {r : Run (Unit {0})} (k : Cmd (Unit {0}))
      → Settles f a r
      → ((s : Machine) → s.freespace ≡ f → s.allocations ≡ a → Settles f a (k s))
      → Settles f a (and_then r (λ _. k))
  Settles-then k (settled h h') next = next _ h h'
  Settles-then k behind_map next = behind_map

  free_page-Settles :
      (virt : ℕ) (s : Machine)
      → s.freespace ≡ f
      → s.allocations ≡ a
      → Settles f a (free_page virt s)
  unfolding free_page
  free_page-Settles virt s h h' =
      after (phys_page_free s.mm_descs s.freemap (find_physaddr virt s) s.bmap)
        (phys_page_free-ne-out_of_fuel s.mm_descs s.freemap (find_physaddr virt s) s.bmap)
    where
      after :
          (r : Base.Run (ℕ → ℕ))
          → r ≢ Base.out_of_fuel
          → Settles f a (elim r [
            | Base.ok m ↦ done tt (record s { bmap = m })
            | Base.fault ↦ bad_read s
            | Base.out_of_fuel ↦ out_of_fuel
          ])
      after (Base.ok m) n = settled h h'
      after Base.fault n = behind_map
      after Base.out_of_fuel n = absurd (n refl)

  free_middle-Settles :
      (left addr i : ℕ) (s : Machine)
      → s.freespace ≡ f
      → s.allocations ≡ a
      → Settles f a (free_middle left addr i s)
  unfolding free_middle
  free_middle-Settles zero addr i s h h' = settled h h'
  free_middle-Settles (suc left) addr i s h h' =
      Settles-then _ (free_page-Settles _ s h h')
        λ s₁ h₁ h₁'. free_middle-Settles left addr _ s₁ h₁ h₁'

  unless-Settles :
      (b : Bool) (virt : ℕ) (s : Machine)
      → s.freespace ≡ f
      → s.allocations ≡ a
      → Settles f a ((if b then pure tt else free_page virt) s)
  unless-Settles true virt s h h' = settled h h'
  unless-Settles false virt s h h' = free_page-Settles virt s h h'

  pub free_block-Settles :
      (addr size heap : ℕ) (s : Machine)
      → s.freespace ≡ f
      → s.allocations ≡ a
      → Settles f a (free_block addr size heap s)
  unfolding free_block
  free_block-Settles addr size heap s h h' =
      Settles-then _
        (Settles-then _ (unless-Settles (used_at_start addr (s.allocations heap)) addr s h h')
          λ s₁ h₁ h₁'. unless-Settles (used_at_end addr size (s.allocations heap)) _ s₁ h₁ h₁')
        λ s₂ h₂ h₂'. free_middle-Settles _ addr 1 s₂ h₂ h₂'

module _ (addr heap : ℕ) (s : Machine) where
  abbrev old_free : List Region
  old_free = s.freespace heap

  abbrev old_used : List Region
  old_used = s.allocations heap

  -- The three ways in which `release` ends.
  release-cases :
      Bounded old_used
      → Bounded old_free
      → (NotThere addr old_used × (release addr heap s ≡ (none, s)))
        ⊎ ((size : ℕ) × (used' : List Region) × Cleared addr size old_used used'
            × NoRoom addr size old_free
            × (release addr heap s
                ≡ (none, record s { allocations = set_row s.allocations heap used' })))
        ⊎ ((size : ℕ) × (free' : List Region) × (used' : List Region) × Returned addr size old_free
              old_used free' used'
            × Cleared addr size old_used used'
            × (release addr heap s ≡ (some size, with_rows heap free' used' s)))
  unfolding release
  release-cases b b' = elim (Option-cases (find_entry (λ a. addr == a.addr) old_used)) [
    | inl nothing ↦ inl (
      find_entry-Each (λ a. addr == a.addr) (λ a. addr ≢ a.addr) old_used (λ a h z. ground arith)
          nothing,
      rw (nothing, release) refl,
    )
    | inr ((i, block), found) ↦
        let f = find_entry-Found (λ a. addr == a.addr) old_used i block found in
        let same : addr ≡ block.addr = ground (arith, f.passes) in
        let used' = set old_used i (region 0 0) in
        let cleared : Cleared addr block.size old_used used' =
          (i, f.in_row ∙ ap some (ap (λ x. region x block.size) (sym same)), refl) in
        let moved : (a : ℕ)
            → count_at used' a + covers (region addr block.size) a ≡ count_at old_used a =
          λ a. ground (arith, f.count (region 0 0) a, same) in
        elim (Option-cases (return_space addr block.size old_free)) [
          | inl nowhere ↦ inr (
              inl (
                block.size,
                used',
                cleared,
                return_space-none addr block.size old_free nowhere,
                rw (found, nowhere, release) refl,
              ))
          | inr (rows, returned) ↦
              let fits : addr + block.size < 2 ^ 64 = ground (arith, f.bounded b, same) in
              let covered = return_space-Covered addr block.size fits old_free rows b' returned in
              inr (
                inr (
                  block.size,
                  rows,
                  used',
                  record { used_count = moved; free_count = covered },
                  cleared,
                  rw (found, returned, release) refl,
                ))
        ]
  ]

  -- `free` of an address in a heap, with rows that do not wrap, ends in one of three ways. No
  -- allocation starts at the address, and nothing changes. Or the entry of an allocation at the address is
  -- cleared and nothing else changes: its block touches no free space and no entry for one is empty,
  -- so that it is lost. Or the entry is cleared and its block moves, address by address, from the
  -- allocations to the free spaces: `free` returns with these rows, or reads behind the entries of
  -- `freemap`.
  pub free-cases :
      heap_of addr ≡ some heap
      → Bounded old_used
      → Bounded old_free
      → (NotThere addr old_used × (free addr s ≡ done tt s))
        ⊎ ((size : ℕ) × (used' : List Region) × Cleared addr size old_used used'
            × NoRoom addr size old_free
            × (free addr s ≡ done tt (record s { allocations = set_row s.allocations heap used' })))
        ⊎ ((size : ℕ) × (free' : List Region) × (used' : List Region) × Returned addr size old_free
              old_used free' used'
            × Cleared addr size old_used used'
            × Settles
                (set_row s.freespace heap free')
                (set_row s.allocations heap used')
                (free addr s))
  unfolding free free_from_heap free_released
  free-cases h b b' = elim (release-cases b b') [
    | inl (absent, e) ↦ inl (absent, rw (h, e) refl)
    | inr (inl (size, used', cleared, full, e)) ↦
        inr (inl (size, used', cleared, full, rw (h, e) refl))
    | inr (inr (size, free', used', moved, cleared, e)) ↦ inr (
        inr (
          size,
          free',
          used',
          moved,
          cleared,
          rw (h, e) (free_block-Settles _ _ addr size heap _ refl refl),
        ))
  ]
