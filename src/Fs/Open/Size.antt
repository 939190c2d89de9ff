-- ===== src/Fs/Open/Size.antt =====
-- fopen of a path on a FAT32 volume.
use flame_os.Base.{
  ℕ, zero, suc, ◌+◌, ◌-◌, ◌%◌, ◌^◌, ◌<◌, ◌≤◌, ◌≡◌, inl, inr, refl, sym, ap, ◌∙◌, arith, true, false,
  List, [], ◌∷◌, ◌++◌, length, set, some, ◌==◌, ltb, ok,
}
use mathlib.Core.Option.{}
use flame_os.Libc.Bytes
use flame_os.Libc.Bytes.{store}
use flame_os.Fs.{File}
use flame_os.Fs.Fat.{sector_size}
use flame_os.Fs.Fat.Lookup.{FatEntry, filename_length, fat_filesize}
use flame_os.Fs.Fat.Lookup.Names.{}
use flame_os.Fs.Fat.Lookup.Find.{AreStrings, Resolves, find_fat_entry-Resolves}
use flame_os.Fs.Files.{fat32, Disks, Arrays, disk_of, part_of}
use flame_os.Fs.Open.{
  slash, name_length, count_slashes, volume_of, pointers, free_slot, claim, open_in, fopen,
  too_large,
}
use flame_os.Fs.Open.Path.{
  IsClean, AllClean, join, put, put-IsString, put-outside, AreRows, laid, ended, laid-outside,
  write_path-laid, Beside,
}

module _ (row : ℕ → ℕ) (at n : ℕ) (rows : AreRows row at n) where
  own : (j x : ℕ) → j < n → x < name_length → Beside row at n rows (suc j) (row j + x)
  own j x hj l k h hk = elim (rows.apart j k hj hk (λ e. omega arith)) [
    | inl before ↦ inl (omega arith)
    | inr behind ↦ inr (omega arith)
  ]

  -- Over arrays of zeros, each component is a string.
  laid-AreStrings :
      (ws : List (List ℕ)) (j : ℕ) (m : Bytes.Bytes)
      → j + length ws ≤ n
      → AllClean ws
      → ((k x : ℕ) → j ≤ k → k < n → x < name_length → m (row k + x) ≡ 0)
      → AreStrings at (laid row at n rows j ws m) (pointers row (length ws) j) ws
  unfolding pointers
  laid-AreStrings [] j m hj clean zeros = tt
  laid-AreStrings (w ∷ []) j m hj (clean, l, _) zeros = (
    omega (arith, rows.low j (omega arith)),
    elim (rows.away j (omega arith)) [ inl h ↦ inl (omega arith) | inr h ↦ inr (omega arith) ],
    put-IsString (row j) w m (put (row j) w m) clean (omega (arith, rows.low j (omega arith)))
        (λ a lo hi. refl)
        (put-outside (row j) w m (row j + length w) (inr (omega arith))
          ∙ zeros j (length w) (omega arith) (omega arith) l),
    tt,
  )
  laid-AreStrings (w ∷ w' ∷ ws) j m hj (clean, l, rest) zeros =
      let m₁ : Bytes.Bytes = ended row at n rows j w m in
      let kept = λ (x : ℕ) (h : x < name_length).
        laid-outside row at n rows (w' ∷ ws) (suc j) m₁ (row j + x) (omega arith) rest
          (own j x (omega arith) h) in
      (
        omega (arith, rows.low j (omega arith)),
        elim (rows.away j (omega arith)) [ inl h ↦ inl (omega arith) | inr h ↦ inr (omega arith) ],
        put-IsString (row j) w m (laid row at n rows (suc j) (w' ∷ ws) m₁) clean
            (omega (arith, rows.low j (omega arith)))
            (λ a lo hi.
              let e : row j + (a - row j) ≡ a = omega arith in
              let k = kept (a - row j) (omega arith) in (rw e at k) ∙ ground arith)
            (kept (length w) l ∙ ground arith),
        laid-AreStrings (w' ∷ ws) (suc j) m₁ (omega arith) rest later,
      )
    where
      later :
          (k x : ℕ)
          → suc j ≤ k
          → k < n
          → x < name_length
          → ended row at n rows j w m (row k + x) ≡ 0
      later k x h hk hx = elim (rows.apart j k (omega arith) hk (λ e. omega arith)) [
        | inl before ↦ ground (
          arith,
          put-outside (row j) w m (row k + x) (inr (omega arith)),
          zeros k x (omega arith) hk hx,
        )
        | inr behind ↦ ground (
          arith,
          put-outside (row j) w m (row k + x) (inl (omega arith)),
          zeros k x (omega arith) hk hx,
        )
      ]

count-word : (w rest : List ℕ) → IsClean w → count_slashes (w ++ rest) ≡ count_slashes rest
unfolding count_slashes
count-word [] rest clean = refl
count-word (c ∷ w) rest (_, n, clean) =
    let plain : (c == slash) ≡ false = ground arith in rw plain (count-word w rest clean)

append_nil : (w : List ℕ) → w ++ [] ≡ w
append_nil [] = refl
append_nil (c ∷ w) = ap (λ t. c ∷ t) (append_nil w)

count-join :
    (w : List ℕ) (ws : List (List ℕ))
    → AllClean (w ∷ ws)
    → count_slashes (join (w ∷ ws)) ≡ length ws
unfolding count_slashes
count-join w [] (clean, _, _) = ap count_slashes (sym (append_nil w)) ∙ count-word w [] clean
count-join w (w' ∷ ws) (clean, _, rest) =
    count-word w (slash ∷ join (w' ∷ ws)) clean ∙ ap suc (count-join w' ws rest)

-- Entry `n` of the table is the first one that is not used.
pub data FirstFree : List File → ℕ → File → Type 0 where
  here : {f : File} {files : List File} → f.used ≡ false → FirstFree (f ∷ files) 0 f
  later :
      {f g : File} {files : List File} {n : ℕ}
      → g.used ≡ true
      → FirstFree files n f
      → FirstFree (g ∷ files) (suc n) f

free_slot-FirstFree :
    {files : List File} {n : ℕ} {f : File} → FirstFree files n f → free_slot files ≡ ok (n, f)
unfolding free_slot
free_slot-FirstFree (here e) = rw e refl
free_slot-FirstFree (later e r) = rw (e, free_slot-FirstFree r) refl

pub length-pointers : (row : ℕ → ℕ) (left j : ℕ) → length (pointers row left j) ≡ left
unfolding pointers
length-pointers row zero j = refl
length-pointers row (suc left) j = ap suc (length-pointers row left (suc j))

-- The path of a file on the volume of a letter.
abbrev pub path_of : (letter : ℕ) → List (List ℕ) → List ℕ
path_of letter ws = 124 ∷ letter ∷ slash ∷ join ws

volume_of-path_of :
    (letter : ℕ) (ws : List (List ℕ))
    → 65 ≤ letter
    → letter ≤ 90
    → volume_of (path_of letter ws) ≡ some (letter - 65, join ws)
unfolding volume_of
volume_of-path_of letter ws lo hi =
    let v : (letter + 256 - 65) % 2 ^ 8 ≡ letter - 65 = omega arith in
    let fine : too_large (letter - 65) ≡ false = ground arith in rw (v, fine) refl

count-path_of :
    (letter : ℕ) (w : List ℕ) (ws : List (List ℕ))
    → 65 ≤ letter
    → AllClean (w ∷ ws)
    → count_slashes (path_of letter (w ∷ ws)) ≡ suc (length ws)
unfolding count_slashes
count-path_of letter w ws lo clean =
    let plain : (letter == slash) ≡ false = ground arith in
    rw plain (ap suc (count-join w ws clean))

-- What `fopen` has stored in the entry when it returns.
abbrev pub opened : (fpath letter size : ℕ) → File → File
opened fpath letter size f = record (claim fpath (letter - 65) f) { size = size }

-- The path of components `w` and `ws` on the volume of `letter` leads to the entry `e` of a file, `f` is the
-- first free entry of the table, at `n`, and there are arrays of zeros and fuel for the components.
pub record CanOpen (k : Disks) (a : Arrays) (row : ℕ → ℕ) (fpath depth letter n : ℕ) (w : List ℕ)
    (ws : List (List ℕ)) (files : List File) (f : File) (e : FatEntry) (m : Bytes.Bytes)
    : Type 0 where
  pub not_below : 65 ≤ letter
  pub not_above : letter ≤ 90
  pub clean : AllClean (w ∷ ws)
  pub rows : AreRows row a.at (suc (length ws))
  pub deep : suc (length ws) ≤ depth
  pub zeros : (j x : ℕ) → j < suc (length ws) → x < name_length → m (row j + x) ≡ 0
  pub room : a.at + filename_length < 2 ^ 64
  pub free : FirstFree files n f
  pub is_fat : (part_of k (opened fpath letter e.size f)).fs ≡ fat32
  pub sectors : (part_of k (opened fpath letter e.size f)).fsdata.bytes_per_sector ≡ sector_size
  pub few : (part_of k (opened fpath letter e.size f)).fsdata.sectors_per_cluster < 2 ^ 8
  pub resolves :
      Resolves
        (k.sector (disk_of k (opened fpath letter e.size f)))
        (part_of k (opened fpath letter e.size f)).fsdata
        (part_of k (opened fpath letter e.size f)).loc
        (part_of k (opened fpath letter e.size f)).fsdata.root_cluster
        (w ∷ ws)
        e

-- `fopen` of a path of short names on a volume of FAT32, with sectors of 512 bytes and clusters of less
-- than 256 sectors, returns the first free entry of the table, at position 0 and with the size from the
-- directory. Each component must have room for a NUL, and be the name that the driver makes of a short
-- entry: the name up to a space, a dot, and all three characters of the extension, spaces included, so
-- that also a directory has a dot. The first entry with this name must be in the cluster where the
-- driver first looks for the directory, with no entry of a long name and no NUL in its name or in one
-- before it. The volume is A to Z. The arrays that malloc gives hold zeros and neither wrap nor meet,
-- and the fuel is for the components. The other entries stay, and the components are strings in the
-- arrays.
pub fopen-opens :
    (k : Disks) (a : Arrays) (row : ℕ → ℕ) (fpath depth letter n : ℕ) (w : List ℕ)
    (ws : List (List ℕ)) (files : List File) (f : File) (e : FatEntry) (m : Bytes.Bytes)
    → CanOpen k a row fpath depth letter n w ws files f e m
    → (m' : Bytes.Bytes) × (fopen k a row fpath depth (path_of letter (w ∷ ws)) files m
        ≡ ok (some n, set files n (opened fpath letter e.size f), m'))
      × AreStrings a.at m' (pointers row (suc (length ws)) 0) (w ∷ ws)
unfolding fopen open_in fat_filesize
fopen-opens k a row fpath depth letter n w ws files f e m c =
    let dirs = suc (length ws) in
    let g : File = claim fpath (letter - 65) f in
    let p = part_of k g in
    let m' : Bytes.Bytes = laid row a.at dirs c.rows 0 (w ∷ ws) m in
    let strings =
      laid-AreStrings row a.at dirs c.rows (w ∷ ws) 0 m (omega arith) c.clean
        (λ j x _. c.zeros j x) in
    let found =
      find_fat_entry-Resolves (k.sector (disk_of k g)) p.fsdata p.loc c.sectors c.few a.at m' c.room
        depth (pointers row dirs 0) (w ∷ ws) a.junk e a.junk_entry
        (rw (length-pointers row dirs 0) c.deep) strings c.resolves in
    let some_dirs : (dirs == 0) ≡ false = ground arith in
    let valid : ltb (letter - 65) 128 ≡ true = let h = c.not_above in ground arith in
    (
      m',
      rw
          (
            volume_of-path_of letter (w ∷ ws) c.not_below c.not_above,
            count-path_of letter w ws c.not_below c.clean,
            some_dirs,
            write_path-laid row a.at dirs c.rows (w ∷ ws) 0 m (omega arith) c.clean,
            free_slot-FirstFree c.free,
            c.is_fat,
            found,
            valid,
          )
          refl,
      strings,
    )
