-- ===== src/Boot/Elf/Size.antt =====
-- The memory that is allocated for the kernel holds every segment.
use flame_os.Base.{
  ℕ, ◌+◌, ◌-◌, ◌^◌, ◌<◌, ◌≤◌, ◌≡◌, arith, ltb, if◌then◌else◌, List, [], ◌∷◌, add64, zero, suc, some,
  get_elem?,
}
use mathlib.Core.Path.{}
use mathlib.Core.Option.{some-injective}
use flame_os.Boot.Elf.{ProgramHeader, pt_load, measure, kernel_mem_size}

-- The loop only widens the range.
measure-widens :
    (ps : List ProgramHeader) (size lowest : ℕ)
    → (size ≤ (measure size lowest ps).0) × ((measure size lowest ps).1 ≤ lowest)
unfolding measure
measure-widens [] size lowest = (omega arith, omega arith)
measure-widens (p ∷ ps) size lowest =
    let size' : ℕ =
      if ltb size (add64 p.p_vaddr p.p_memsz) then add64 p.p_vaddr p.p_memsz else size in
    let lowest' : ℕ = if ltb p.p_vaddr lowest then p.p_vaddr else lowest in
    ground (arith, measure-widens ps size lowest, measure-widens ps size' lowest')

measure-segment :
    (ps : List ProgramHeader) (size lowest i : ℕ) (p : ProgramHeader)
    → get_elem? ps i ≡ some p
    → p.p_type ≡ pt_load
    → p.p_vaddr + p.p_memsz < 2 ^ 64
    → ((measure size lowest ps).1 ≤ p.p_vaddr)
      × (p.p_vaddr + p.p_memsz ≤ (measure size lowest ps).0)
unfolding measure
measure-segment [] size lowest i p e t h = absurd (cc)
measure-segment (q ∷ ps) size lowest zero p e t h =
    let same : q ≡ p = some-injective q p e in
    let size' : ℕ =
      if ltb size (add64 q.p_vaddr q.p_memsz) then add64 q.p_vaddr q.p_memsz else size in
    let lowest' : ℕ = if ltb q.p_vaddr lowest then q.p_vaddr else lowest in
    ground (arith, measure-widens ps size' lowest')
measure-segment (q ∷ ps) size lowest (suc i) p e t h =
    let size' : ℕ =
      if ltb size (add64 q.p_vaddr q.p_memsz) then add64 q.p_vaddr q.p_memsz else size in
    let lowest' : ℕ = if ltb q.p_vaddr lowest then q.p_vaddr else lowest in
    ground
      (arith, measure-segment ps size lowest i p e t h, measure-segment ps size' lowest' i p e t h)

measure-small :
    (ps : List ProgramHeader) (size lowest : ℕ)
    → size < 2 ^ 64
    → (measure size lowest ps).0 < 2 ^ 64
unfolding measure
measure-small [] size lowest h = h
measure-small (p ∷ ps) size lowest h =
    let size' : ℕ =
      if ltb size (add64 p.p_vaddr p.p_memsz) then add64 p.p_vaddr p.p_memsz else size in
    let lowest' : ℕ = if ltb p.p_vaddr lowest then p.p_vaddr else lowest in
    ground (arith, measure-small ps size lowest h, measure-small ps size' lowest' (ground arith))

-- Each segment that is loaded and does not wrap lies in the `kernel_mem_size` bytes from the lowest
-- segment on, if the file has one: the start of the lowest segment is at most its own, and its end
-- is within the size.
pub kernel_mem_size-segment :
    (ps : List ProgramHeader) (i : ℕ) (p : ProgramHeader)
    → get_elem? ps i ≡ some p
    → p.p_type ≡ pt_load
    → p.p_vaddr + p.p_memsz < 2 ^ 64
    → ((measure 0 (2 ^ 64 - 1) ps).1 ≤ p.p_vaddr)
      × (p.p_vaddr + p.p_memsz ≤ (measure 0 (2 ^ 64 - 1) ps).1 + kernel_mem_size ps)
unfolding kernel_mem_size
kernel_mem_size-segment ps i p e t h =
    let s = measure-segment ps 0 (2 ^ 64 - 1) i p e t h in
    (s.0, omega (arith, s, measure-small ps 0 (2 ^ 64 - 1) (omega arith)))
