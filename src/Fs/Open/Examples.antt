-- ===== src/Fs/Open/Examples.antt =====
-- fopen of "|A/A.TXT" on the volume of Files/Examples.
use flame_os.Base.{ℕ, ◌≡◌, inl, refl, false, arith, [], ◌∷◌, some, set, ok}
use flame_os.Libc.Bytes
use flame_os.Fs.{File}
use flame_os.Fs.Files.{Arrays}
use flame_os.Fs.Fat.Lookup.Find.{AreStrings}
use flame_os.Fs.Files.Examples.{disks, text_entry, name, root-Resolves}
use flame_os.Fs.Open.{pointers, fopen}
use flame_os.Fs.Open.Path.{AreRows, AllClean}
use flame_os.Fs.Open.Size.{here, path_of, opened, CanOpen, fopen-opens}

abbrev zeros : Bytes.Bytes
zeros a = 0

abbrev arrays : Arrays
arrays = record { at = 0x3000; paths = λ p. 0x2000 ∷ []; junk = zeros; junk_entry = text_entry }

abbrev row : ℕ → ℕ
row j = 0x2000

row-AreRows : AreRows row 0x3000 1
row-AreRows = record {
  low = λ j h. omega arith;
  apart = λ j k h h' n. absurd (n (omega arith));
  away = λ j h. inl (omega arith);
}

abbrev empty : File
empty = record { path = 0; volume = 0; pointer = 0; size = 0; flags = 0; used = false }

name-AllClean : AllClean (name ∷ [])
name-AllClean = (
  (
    λ e. omega arith,
    λ e. omega arith,
    (
      λ e. omega arith,
      λ e. omega arith,
      (
        λ e. omega arith,
        λ e. omega arith,
        (λ e. omega arith, λ e. omega arith, (λ e. omega arith, λ e. omega arith, tt)),
      ),
    ),
  ),
  omega arith,
  tt,
)

name-CanOpen : CanOpen disks arrays row 0x1000 1 65 0 name [] (empty ∷ []) empty text_entry zeros
name-CanOpen = record {
  not_below = omega arith;
  not_above = omega arith;
  clean = name-AllClean;
  rows = row-AreRows;
  deep = omega arith;
  zeros = λ j x h l. refl;
  room = omega arith;
  free = here refl;
  is_fat = refl;
  sectors = refl;
  few = omega arith;
  resolves = root-Resolves;
}

fopen-opens_example :
    (m' : Bytes.Bytes) × (fopen disks arrays row 0x1000 1
        (path_of 65 (name ∷ []))
        (empty ∷ [])
        zeros
      ≡ ok (some 0, set (empty ∷ []) 0 (opened 0x1000 65 520 empty), m'))
    × AreStrings 0x3000 m' (pointers row 1 0) (name ∷ [])
fopen-opens_example =
    fopen-opens disks arrays row 0x1000 1 65 0 name [] (empty ∷ []) empty text_entry zeros
      name-CanOpen
