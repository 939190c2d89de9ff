-- ===== src/Memory/Heap/Count.antt =====
-- How many entries of a row cover an address. What `reserve` takes from the free spaces it gives to
-- the allocations, address by address.
use flame_os.Base.{
  ℕ, suc, ◌+◌, ◌^◌, ◌<◌, ◌≤◌, ◌≡◌, ◌⊎◌, inl, inr, refl, Bool, true, false, ◌&&◌, ◌||◌, ltb, leb,
  ◌==◌, if◌then◌else◌, Option, none, some, List, [], ◌∷◌, set, get_elem?, arith, Bool-cases,
  Option-cases, add64, sub64,
}
use mathlib.Core.Path.{subst₂}
use flame_os.Memory.Machine.{Machine, Region}
use flame_os.Memory.Heap.{heaps, set_row, region, find_entry, reserve}

abbrev pub covers : Region → ℕ → ℕ
covers r a = if leb r.addr a && ltb a (r.addr + r.size) then 1 else 0

abbrev pub count_at : List Region → ℕ → ℕ
count_at [] a = 0
count_at (r ∷ rs) a = covers r a + count_at rs a

-- No entry of a row ends past the address space.
abbrev pub Bounded : List Region → Type 0
Bounded [] = Unit {0}
Bounded (r ∷ rs) = (r.addr + r.size < 2 ^ 64) × Bounded rs

-- Entry `i` of the row is `r`, which is the first to pass the test.
pub record Found (test : Region → Bool) (rs : List Region) (i : ℕ) (r : Region) : Type 0 where
  pub passes : test r ≡ true
  pub in_row : get_elem? rs i ≡ some r
  pub count :
      (r' : Region) (a : ℕ) → count_at (set rs i r') a + covers r a ≡ count_at rs a + covers r' a
  pub bounded : Bounded rs → r.addr + r.size < 2 ^ 64
  pub bounded_set : (r' : Region) → Bounded rs → r'.addr + r'.size < 2 ^ 64 → Bounded (set rs i r')

Found-here :
    (test : Region → Bool) (r : Region) (rs : List Region) → test r ≡ true → Found test (r ∷ rs) 0 r
Found-here test r rs h = record {
  passes = h;
  in_row = refl;
  count = λ r' a. omega arith;
  bounded = λ b. b.0;
  bounded_set = λ r' b l. (l, b.1);
}

Found-later :
    (test : Region → Bool) (r : Region) (rs : List Region) {i : ℕ} {r' : Region}
    → Found test rs i r'
    → Found test (r ∷ rs) (suc i) r'
Found-later test r rs f = record {
  passes = f.passes;
  in_row = f.in_row;
  count = λ r' a. omega (arith, f.count r' a);
  bounded = λ b. f.bounded b.1;
  bounded_set = λ r' b l. (b.0, f.bounded_set r' b.1 l);
}

-- What holds of each entry of a row.
abbrev pub Each : (Region → Type 0) → List Region → Type 0
Each P [] = Unit {0}
Each P (r ∷ rs) = P r × Each P rs

pub find_entry-Each :
    (test : Region → Bool) (P : Region → Type 0) (rs : List Region)
    → ((r : Region) → test r ≡ false → P r)
    → find_entry test rs ≡ none
    → Each P rs
unfolding find_entry
find_entry-Each test P [] holds e = tt
find_entry-Each test P (r ∷ rs) holds e = elim (Bool-cases (test r)) [
  | inl here ↦ absurd (ground arith)
  | inr later ↦ elim (Option-cases (find_entry test rs)) [
    | inl nothing ↦ (holds r later, find_entry-Each test P rs holds nothing)
    | inr (t, found) ↦ absurd (ground arith)
  ]
]

some_pair :
    (i j : ℕ) (r r' : Region)
    → ◌≡◌ {A = Option (ℕ × Region)} (some (i, r)) (some (j, r'))
    → (i ≡ j) × (r ≡ r')
some_pair i j r r' e = (cc, cc)

pub find_entry-Found :
    (test : Region → Bool) (rs : List Region) (i : ℕ) (r : Region)
    → find_entry test rs ≡ some (i, r)
    → Found test rs i r
unfolding find_entry
find_entry-Found test [] i r e = absurd (cc e)
find_entry-Found test (r' ∷ rs) i r e = elim (Bool-cases (test r')) [
  | inl here ↦
      let q = some_pair 0 i r' r (ground arith) in
      subst₂ (Found test (r' ∷ rs)) q.0 q.1 (Found-here test r' rs here)
  | inr later ↦ elim (Option-cases (find_entry test rs)) [
    | inl nothing ↦ absurd (ground arith)
    | inr (t, found) ↦
        let q = some_pair (suc t.0) i t.1 r (ground arith) in
        subst₂ (Found test (r' ∷ rs)) q.0 q.1
          (Found-later test r' rs (find_entry-Found test rs t.0 t.1 found))
  ]
]

-- Taking the first `n` bytes of a region.
covers-split :
    (r : Region) (n a : ℕ)
    → n ≤ r.size
    → r.addr + r.size < 2 ^ 64
    → covers (region (add64 r.addr n) (sub64 r.size n)) a + covers (region r.addr n) a ≡ covers r a
covers-split r n a h b = ground arith

-- `s'` is `s` but for the two rows of `heap`.
abbrev pub with_rows : ℕ → List Region → List Region → Machine → Machine
with_rows heap free used s = record s {
  freespace = set_row s.freespace heap free;
  allocations = set_row s.allocations heap used;
}

-- The block at `addr` has moved from the free spaces to the allocations.
pub record Moved (size addr : ℕ) (free used free' used' : List Region) : Type 0 where
  pub fits : addr + size < 2 ^ 64
  pub free_count : (a : ℕ) → count_at free' a + covers (region addr size) a ≡ count_at free a
  pub used_count : (a : ℕ) → count_at used' a ≡ count_at used a + covers (region addr size) a
  pub bounded : Bounded free'
  pub used_bounded : Bounded used → Bounded used'

-- No space has `size` bytes.
abbrev pub NoneFits : ℕ → List Region → Type 0
NoneFits size free = Each (λ r. r.size < size) free

-- Each entry of the table is taken.
abbrev pub Full : List Region → Type 0
Full used = Each (λ r. 0 < r.size) used

-- The block has been taken from the free spaces, and is recorded nowhere, as the table is full.
pub record Lost (size addr : ℕ) (free used free' : List Region) : Type 0 where
  pub full : Full used
  pub fits : addr + size < 2 ^ 64
  pub free_count : (a : ℕ) → count_at free' a + covers (region addr size) a ≡ count_at free a

abbrev pub big : ℕ → Region → Bool
big size r = leb size r.size

abbrev pub empty : Region → Bool
empty r = r.size == 0

module _ (size heap : ℕ) (s : Machine) where
  abbrev free : List Region
  free = s.freespace heap

  abbrev used : List Region
  used = s.allocations heap

  shrink :
      (i : ℕ) (r : Region)
      → Found (big size) free i r
      → Bounded free
      → (a : ℕ)
      → count_at (set free i (region (add64 r.addr size) (sub64 r.size size))) a
          + covers (region r.addr size) a
        ≡ count_at free a
  shrink i r f b a =
      let fits = f.bounded b in
      let split = covers-split r size a (ground (arith, f.passes)) fits in
      omega (arith, f.count (region (add64 r.addr size) (sub64 r.size size)) a, split)

  reserve-Moved :
      (i j : ℕ) (r e : Region)
      → Found (big size) free i r
      → Found empty used j e
      → Bounded free
      → Moved size r.addr free used
          (set free i (region (add64 r.addr size) (sub64 r.size size)))
          (set used j (region r.addr size))
  reserve-Moved i j r e f f' b = record {
    fits = ground (arith, f.bounded b, f.passes);
    free_count = shrink i r f b;
    used_count = λ a. ground (arith, f'.count (region r.addr size) a, f'.passes);
    bounded = f.bounded_set _ b (ground (arith, f.bounded b, f.passes));
    used_bounded = λ b'. f'.bounded_set _ b' (ground (arith, f.bounded b, f.passes));
  }

  guard : heap < heaps → 0 < size → (leb heaps heap || size == 0) ≡ false
  guard h pos = ground arith

  -- The three ways in which `reserve` ends: no space is large enough, and nothing has changed; the
  -- table of allocations is full, and the block is lost; or the block has moved to the allocations.
  pub reserve-cases :
      heap < heaps
      → 0 < size
      → Bounded free
      → (NoneFits size free × (reserve size heap s ≡ (none, s)))
        ⊎ ((addr : ℕ) × (free' : List Region) × Lost size addr free used free'
            × (reserve size heap s
                ≡ (none, record s { freespace = set_row s.freespace heap free' })))
        ⊎ ((addr : ℕ) × (free' : List Region) × (used' : List Region) × Moved size addr free used
              free' used'
            × (reserve size heap s ≡ (some addr, with_rows heap free' used' s)))
  unfolding reserve
  reserve-cases h pos b = elim (Option-cases (find_entry (big size) free)) [
    | inl nothing ↦ inl (
      find_entry-Each (big size) (λ r. r.size < size) free (λ r e. ground arith) nothing,
      rw (guard h pos, nothing) refl,
    )
    | inr ((i, r), found) ↦ elim (Option-cases (find_entry empty used)) [
      | inl full ↦
          let f = find_entry-Found (big size) free i r found in
          inr (
            inl (
              r.addr,
              set free i (region (add64 r.addr size) (sub64 r.size size)),
              record {
                full = find_entry-Each empty (λ r. 0 < r.size) used (λ r e. ground arith) full;
                fits = ground (arith, f.bounded b, f.passes);
                free_count = shrink i r f b;
              },
              rw (guard h pos, found, full) refl,
            ))
      | inr ((j, e), slot) ↦
          let f = find_entry-Found (big size) free i r found in
          inr (
            inr (
              r.addr,
              set free i (region (add64 r.addr size) (sub64 r.size size)),
              set used j (region r.addr size),
              reserve-Moved i j r e f (find_entry-Found empty used j e slot) b,
              rw (guard h pos, found, slot) refl,
            ))
    ]
  ]
