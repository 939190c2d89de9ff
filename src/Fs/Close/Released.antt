-- ===== src/Fs/Close/Released.antt =====
-- What fclose frees, and how it ends.
use flame_os.Base.{
  ℕ, zero, suc, ◌+◌, ◌*◌, ◌<◌, ◌≡◌, ◌≢◌, ◌⊎◌, ◌^◌, inl, inr, ◌==◌, false, Bool-cases, List, [], ◌∷◌,
  length, add64, arith, refl,
}
use flame_os.Memory.Machine.{Machine, done, Cmd, pure, ◌>>◌}
use flame_os.Memory.Heap.Free.{free}
use flame_os.Memory.Heap.Free.Gives.{Gives, gives, Gives-then, free-Gives}
use flame_os.Fs.{File}
use flame_os.Fs.Table.{file_size, max_open_files, aligncheck, aligncheck-entry}
use flame_os.Fs.Close.{free_names, closed, fclose}

-- The pointers from `p` on up to a NULL, in memory that does not wrap.
abbrev pub IsPath : (word : ℕ → ℕ) → (p : ℕ) → List ℕ → Type 0
IsPath word p [] = word p ≡ 0
IsPath word p (q ∷ qs) = (word p ≡ q) × (q ≢ 0) × (p + 8 < 2 ^ 64) × IsPath word (p + 8) qs

-- `free` of each pointer of a list, in order.
abbrev pub frees : List ℕ → Cmd (Unit {0})
frees [] = pure tt
frees (p ∷ ps) = free p >> frees ps

frees-Gives : (ps : List ℕ) (s : Machine) → Gives tt (frees ps s)
frees-Gives [] s = gives
frees-Gives (p ∷ ps) s = Gives-then _ (free-Gives p s) (frees-Gives ps)

free_names-frees :
    (word : ℕ → ℕ) (fuel p : ℕ) (qs : List ℕ)
    → p ≢ 0
    → IsPath word p qs
    → length qs < fuel
    → free_names word fuel p ≡ frees qs
unfolding free_names
free_names-frees word zero p qs nonnull is l = absurd (omega arith)
free_names-frees word (suc fuel) p [] nonnull is l =
    let there : (p == 0) ≡ false = ground arith in rw (there, is) refl
free_names-frees word (suc fuel) p (q ∷ qs) nonnull (e, n, low, is) l =
    let there : (p == 0) ≡ false = ground arith in
    let some_name : (q == 0) ≡ false = ground arith in
    let next : add64 p 8 ≡ p + 8 = omega arith in
    rw
      (
        there,
        e,
        some_name,
        next,
        free_names-frees word fuel (p + 8) qs (λ z. omega arith) is (omega arith),
      )
      refl

-- `fclose` of a pointer to a FILE whose path stands at an address that is not NULL, is ended by a NULL and does
-- not wrap, with fuel for its components, ends in one of two ways. The pointer is not the address of an
-- entry of the table, `fclose` returns 1, and nothing changes. Or it is the address of an entry, and
-- `fclose` frees the components in order and then the array of the path; it then returns 0, with this
-- entry unused and the others as before, or one of the calls of free has read behind the entries of
-- `freemap`.
pub fclose-cases :
    (fuel files fp : ℕ) (word : ℕ → ℕ) (at : ℕ → File) (names : List ℕ) (s : Machine)
    → (at fp).path ≢ 0
    → IsPath word (at fp).path names
    → length names < fuel
    → (((k : ℕ) → k < max_open_files → fp ≢ files + k * file_size)
        × (fclose fuel files fp word at s ≡ done (1, at) s))
      ⊎ ((k : ℕ) × (k < max_open_files)
          × (fp ≡ files + k * file_size)
          × (fclose fuel files fp word at s
              ≡ ((frees names >> free (at fp).path) >> pure (0, closed fp at)) s)
          × Gives (0, closed fp at) (fclose fuel files fp word at s))
unfolding fclose
fclose-cases fuel files fp word at names s nonnull is l =
    elim (Bool-cases (aligncheck files fp == 0)) [
      | inl entry ↦
          let (k, low, e) = (aligncheck-entry files fp).0 (ground arith) in
          let same = free_names-frees word fuel (at fp).path names nonnull is l in
          inr (
            k,
            low,
            e,
            rw (entry, same) refl,
            rw (entry, same)
                (Gives-then _ (Gives-then _ (frees-Gives names s) (free-Gives (at fp).path))
                  λ s'. gives),
          )
      | inr other ↦ inl (
        λ k low e. let z = (aligncheck-entry files fp).1 (k, low, e) in ground arith,
        rw other refl,
      )
    ]
