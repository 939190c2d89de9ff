-- ===== src/Boot/Elf/Load.antt =====
-- What the loading of the segments leaves in memory.
use flame_os.Base.{
  ℕ, zero, suc, ◌+◌, ◌-◌, ◌^◌, ◌<◌, ◌≤◌, ◌≡◌, ◌⊎◌, inl, inr, refl, ap, ◌∙◌, arith, Bool-cases, true,
  ◌==◌, ltb, leb, ◌&&◌, if◌then◌else◌, List, [], ◌∷◌, add64, sub64, some, get_elem?,
}
use mathlib.Core.Path.{}
use mathlib.Core.Option.{some-injective}
use flame_os.Libc.Bytes
use flame_os.Boot.Bytes.{copy_bytes, copy_bytes-at, memzero-at}
use flame_os.Boot.Elf.{
  ProgramHeader, pt_load, kernel_vaddr, segment_place, load_segment, load_segments,
}

-- The place of a segment in the memory at `kernel`, as a number that does not wrap.
abbrev pub place : ℕ → ProgramHeader → ℕ
place kernel p = kernel + (p.p_vaddr - kernel_vaddr)

-- A segment whose part in the file at `kfile` is no longer than it is in memory, with a place in the
-- `size` bytes at `kernel`, which the part in the file does not meet.
pub record IsSegment (kernel size kfile : ℕ) (p : ProgramHeader) : Type 0 where
  pub above : kernel_vaddr ≤ p.p_vaddr
  pub vaddr_fits : p.p_vaddr < 2 ^ 64
  pub room : p.p_filesz ≤ p.p_memsz
  pub memsz_fits : p.p_memsz < 2 ^ 64
  pub inside : place kernel p + p.p_memsz ≤ kernel + size
  pub kernel_fits : kernel + size < 2 ^ 64
  pub file_fits : kfile + p.p_offset + p.p_filesz < 2 ^ 64
  pub outside : (kernel + size ≤ kfile + p.p_offset) ⊎ (kfile + p.p_offset + p.p_filesz ≤ kernel)

-- The byte at `a` that the segment should have, from the memory `m` with the file.
abbrev pub image : (kernel kfile : ℕ) → ProgramHeader → Bytes.Bytes → ℕ → ℕ
image kernel kfile p m a =
    if ltb (a - place kernel p) p.p_filesz then m (kfile + p.p_offset + (a - place kernel p)) else 0

-- Address `a` is in the segment's memory.
abbrev pub In : ℕ → ProgramHeader → ℕ → Type 0
In kernel p a = (place kernel p ≤ a) × (a < place kernel p + p.p_memsz)

module _ (kernel size kfile : ℕ) (p : ProgramHeader) (m : Bytes.Bytes) (a : ℕ)
    (is : IsSegment kernel size kfile p) where
  place_fits : place kernel p + p.p_memsz < 2 ^ 64
  place_fits = omega (arith, is.inside, is.kernel_fits)

  apart_from_file :
      (place kernel p ≤ kfile + p.p_offset) ⊎ (kfile + p.p_offset + p.p_filesz ≤ place kernel p)
  apart_from_file = elim is.outside [
    | inl before ↦ inl (omega (arith, is.inside))
    | inr behind ↦ inr (omega arith)
  ]

  load_segment-at : load_segment kernel kfile p m a ≡ (
      if leb (place kernel p) a && ltb a (place kernel p + p.p_memsz)
      then image kernel kfile p m a
      else m a)
  unfolding load_segment
  load_segment-at =
      let e₁ : segment_place kernel p ≡ place kernel p =
        omega (arith, is.above, is.vaddr_fits, place_fits) in
      let e₂ : add64 kfile p.p_offset ≡ kfile + p.p_offset = omega (arith, is.file_fits) in
      let e₃ : sub64 p.p_memsz p.p_filesz ≡ p.p_memsz - p.p_filesz =
        omega (arith, is.room, is.memsz_fits) in
      let e₄ : add64 (place kernel p) p.p_filesz ≡ place kernel p + p.p_filesz =
        omega (arith, place_fits, is.room) in
      let copied =
        copy_bytes-at (place kernel p) (kfile + p.p_offset) p.p_filesz m a
          (omega (arith, place_fits, is.room)) is.file_fits apart_from_file in
      let zeroed =
        memzero-at (place kernel p + p.p_filesz) (p.p_memsz - p.p_filesz)
          (copy_bytes (place kernel p) (kfile + p.p_offset) p.p_filesz m) a
          (omega (arith, place_fits, is.room)) in
      rw (e₁, e₂, e₃, e₄) (zeroed ∙ ground (arith, copied, is.room))

  load_segment-In : In kernel p a → load_segment kernel kfile p m a ≡ image kernel kfile p m a
  load_segment-In h = load_segment-at ∙ ground arith

  load_segment-out : ¬ In kernel p a → load_segment kernel kfile p m a ≡ m a
  load_segment-out h =
      load_segment-at
      ∙ elim (Bool-cases (leb (place kernel p) a && ltb a (place kernel p + p.p_memsz))) [
        | inl inside ↦ absurd (h (ground arith))
        | inr outside ↦ rw outside refl
      ]

module _ (kernel size kfile : ℕ) where
  -- Each segment that is loaded has a place.
  abbrev pub AllPlaced : List ProgramHeader → Type 0
  AllPlaced ps =
      (i : ℕ) (p : ProgramHeader)
      → get_elem? ps i ≡ some p
      → p.p_type ≡ pt_load
      → IsSegment kernel size kfile p

  -- No two of them meet in memory.
  abbrev pub AllApart : List ProgramHeader → Type 0
  AllApart ps =
      (i j : ℕ) (p q : ProgramHeader) (a : ℕ)
      → i < j
      → get_elem? ps i ≡ some p
      → get_elem? ps j ≡ some q
      → p.p_type ≡ pt_load
      → q.p_type ≡ pt_load
      → In kernel p a
      → ¬ In kernel q a

  -- An address in none of the segments keeps its byte.
  load_segments-out :
      (ps : List ProgramHeader) (m : Bytes.Bytes) (a : ℕ)
      → AllPlaced ps
      → ((i : ℕ) (p : ProgramHeader)
          → get_elem? ps i ≡ some p
          → p.p_type ≡ pt_load
          → ¬ In kernel p a)
      → load_segments kernel kfile ps m a ≡ m a
  unfolding load_segments
  load_segments-out [] m a ok none = refl
  load_segments-out (p ∷ ps) m a ok none = elim (Bool-cases (p.p_type == pt_load)) [
    | inr other ↦ rw other (load_segments-out ps m a (λ i. ok (suc i)) (λ i. none (suc i)))
    | inl load ↦
        let t : p.p_type ≡ pt_load = ground arith in
        rw load (
          load_segments-out ps (load_segment kernel kfile p m) a (λ i. ok (suc i))
            (λ i. none (suc i))
          ∙ load_segment-out kernel size kfile p m a (ok 0 p refl t) (none 0 p refl t))
  ]

  -- The loading of `q` does not change what `p` should have.
  image-load :
      (p q : ProgramHeader) (m : Bytes.Bytes) (a : ℕ)
      → IsSegment kernel size kfile p
      → IsSegment kernel size kfile q
      → place kernel p ≤ a
      → image kernel kfile p (load_segment kernel kfile q m) a ≡ image kernel kfile p m a
  image-load p q m a is is' h = elim (Bool-cases (ltb (a - place kernel p) p.p_filesz)) [
    | inr bss ↦ rw bss refl
    | inl file ↦
        let x : ℕ = kfile + p.p_offset + (a - place kernel p) in
        let in_file : a - place kernel p < p.p_filesz = ground arith in
        rw file (load_segment-out kernel size kfile q m x is' (away in_file is.outside))
  ]
    where
      away :
          a - place kernel p < p.p_filesz
          → (kernel + size ≤ kfile + p.p_offset) ⊎ (kfile + p.p_offset + p.p_filesz ≤ kernel)
          → ¬ In kernel q (kfile + p.p_offset + (a - place kernel p))
      away l (inl before) (h₁, h₂) = omega (arith, is'.inside)
      away l (inr behind) (h₁, h₂) = omega arith

  -- After the loading of segments that have places and do not meet, each byte of a segment's memory
  -- is its byte in the file, or 0 behind the part that the file has.
  pub load_segments-image :
      (ps : List ProgramHeader) (m : Bytes.Bytes) (i : ℕ) (p : ProgramHeader) (a : ℕ)
      → AllPlaced ps
      → AllApart ps
      → get_elem? ps i ≡ some p
      → p.p_type ≡ pt_load
      → In kernel p a
      → load_segments kernel kfile ps m a ≡ image kernel kfile p m a
  unfolding load_segments
  load_segments-image [] m i p a ok apart e t h = absurd (cc)
  load_segments-image (q ∷ ps) m zero p a ok apart e t h =
      let same : q ≡ p = some-injective q p e in
      let load : (q.p_type == pt_load) ≡ true = ground (arith, ap (λ r. r.p_type) same) in
      rw load (
        load_segments-out ps (load_segment kernel kfile q m) a (λ j. ok (suc j))
          (λ j r e' t'. apart 0 (suc j) p r a (omega arith) e e' t t' h)
        ∙ ap (λ r. load_segment kernel kfile r m a) same
        ∙ load_segment-In kernel size kfile p m a (ok 0 p e t) h)
  load_segments-image (q ∷ ps) m (suc i) p a ok apart e t h =
      elim (Bool-cases (q.p_type == pt_load)) [
        | inr other ↦
            rw other (load_segments-image ps m i p a (λ j. ok (suc j)) (later apart) e t h)
        | inl load ↦
            let t' : q.p_type ≡ pt_load = ground arith in
            rw load (
              load_segments-image ps (load_segment kernel kfile q m) i p a (λ j. ok (suc j))
                (later apart) e t h
              ∙ image-load p q m a (ok (suc i) p e t) (ok 0 q refl t') h.0)
      ]
    where
      later : AllApart (q ∷ ps) → AllApart ps
      later apart' j k p' q' a' l = apart' (suc j) (suc k) p' q' a' (omega arith)
