-- ===== src/Fs/Open.antt =====
-- kernel/fs/FS.c: fopen. A path is the list of its characters without the NUL. `row` is the addresses of the
-- arrays that malloc gives for the components, and `fpath` that of the array of their addresses, which is
-- the list `pointers`; what fopen writes behind that array is not in the model. The table is a list.
pub mod Path
pub mod Size
pub mod Contents
mod Examples
use flame_os.Base.{
  ℕ, zero, suc, ◌+◌, ◌-◌, Bool, true, false, ◌&&◌, not, List, [], ◌∷◌, Option, none, some, Run, ok,
  fault, ◌>>=◌, ◌==◌, leb, ltb, if◌then◌else◌, add64, u8, set,
}
use flame_os.Libc.Bytes
use flame_os.Libc.Bytes.{store}
use flame_os.Fs.{File}
use flame_os.Fs.Fat.Lookup.{fat_filesize}
use flame_os.Fs.Files.{FileSystem, none_fs, fat32, Partition, Disks, Arrays, disk_of, part_of}

abbrev pub slash : ℕ
slash = 47

abbrev pub name_length : ℕ
name_length = 256

unfoldable pub count_slashes : List ℕ → ℕ
count_slashes [] = 0
count_slashes (c ∷ path) = if c == slash then suc (count_slashes path) else count_slashes path

-- `volume >= 26` on a `char`, which is signed.
abbrev pub too_large : ℕ → Bool
too_large v = leb 26 v && ltb v 128

-- The three characters at the start: the volume, and what follows them.
unfoldable pub volume_of : List ℕ → Option (ℕ × List ℕ)
volume_of (bar ∷ letter ∷ c ∷ path) =
    if bar == 124
    then (if too_large (u8 (letter + 256 - 65))
        then none
        else if c == slash
        then some (u8 (letter + 256 - 65), path)
        else none)
    else none
volume_of path = none

-- `fpath` up to its NULL, from component `j` on.
unfoldable pub pointers : (row : ℕ → ℕ) (left j : ℕ) → List ℕ
pointers row zero j = []
pointers row (suc left) j = row j ∷ pointers row left (suc j)

-- The loop over the components: character `i` of component `j` comes next.
unfoldable pub write_path : (row : ℕ → ℕ) → List ℕ → (j i : ℕ) → Bytes.Bytes → Run Bytes.Bytes
write_path row [] j i m = ok m
write_path row (c ∷ path) j i m =
    let next = write_path row path (suc j) 0 (store m (add64 (row j) i) 0) in
    let more = write_path row path j (suc i) (store m (add64 (row j) i) c) in
    if ltb i name_length then (if c == slash then next else more) else fault

-- The first entry that is not used; behind the last one is a fault.
unfoldable pub free_slot : List File → Run (ℕ × File)
free_slot [] = fault
free_slot (f ∷ files) = if f.used then (free_slot files >>= λ t. ok (suc t.0, t.1)) else ok (0, f)

-- What is stored in the entry before its size is known.
abbrev pub claim : (fpath volume : ℕ) → File → File
claim fpath volume f = record f { used = true; path = fpath; pointer = 0; volume = volume }

-- The end of `fopen`: `none` is 0, and else the index of the entry.
abbrev pub sized :
    FileSystem
    → Disks
    → Arrays
    → (depth slot : ℕ) → List ℕ
    → File
    → List File
    → Bytes.Bytes
    → Run (Option ℕ × List File)
sized none_fs k a depth slot ps f files m = ok (none, set files slot f)
sized fat32 k a depth slot ps f files m = do
  size ←
      fat_filesize (k.sector (disk_of k f)) (part_of k f).fsdata (part_of k f).loc depth a.at ps
        a.junk m a.junk_entry
  ok (some slot, set files slot (record f { size = size }))

-- `volumes` is read at a signed number: a `char` from 128 on is one before the table.
unfoldable pub open_in :
    Disks
    → Arrays
    → (row : ℕ → ℕ) (fpath depth dirs volume : ℕ) → List ℕ
    → List File
    → Bytes.Bytes
    → Run (Option ℕ × List File × Bytes.Bytes)
unfolding write_path free_slot fat_filesize pointers
open_in k a row fpath depth dirs volume path files m = do
  m' ← write_path row path 0 0 m
  u ← free_slot files
  let f = claim fpath volume u.1
  let entry = sized (part_of k f).fs k a depth u.0 (pointers row dirs 0) f files m'
  t ← if ltb volume 128 then entry else fault
  ok (t.0, t.1, m')

unfoldable pub fopen :
    Disks
    → Arrays
    → (row : ℕ → ℕ) (fpath depth : ℕ) → (path : List ℕ) → List File
    → Bytes.Bytes
    → Run (Option ℕ × List File × Bytes.Bytes)
unfolding count_slashes volume_of open_in
fopen k a row fpath depth path files m =
    let dirs = count_slashes path in
    let opened : Run (Option ℕ × List File × Bytes.Bytes) = elim (volume_of path) [
      | none ↦ ok (none, files, m)
      | some (volume, rest) ↦ open_in k a row fpath depth dirs volume rest files m
    ] in
    if dirs == 0 then ok (none, files, m) else opened
