-- ===== src/Fs/Files/Examples.antt =====
-- A volume with the file A.TXT of 520 bytes, in clusters 3 and 4; cluster 2 is the root directory.
use flame_os.Base.{
  ℕ, zero, suc, ◌+◌, ◌-◌, ◌*◌, ◌%◌, ◌<◌, ◌≤◌, ◌≡◌, ◌≢◌, ◌⊎◌, inl, ◌==◌, refl, true, arith, List, [],
  ◌∷◌, ok, u8, if◌then◌else◌,
}
use flame_os.Libc.Bytes
use flame_os.Disk.Init.{}
use flame_os.Fs.{File}
use flame_os.Fs.Fat.{FsInfo, entry, feps, in_chain}
use flame_os.Fs.Fat.Clusters.{IsFile, fat_sector, cluster_byte}
use flame_os.Fs.Fat.Lookup.{FatEntry, cluster_of, lfn, find_fat_entry}
use flame_os.Fs.Fat.Lookup.Names.{short_name, NoNul}
use flame_os.Fs.Fat.Lookup.Find.{IsFirst, AreStrings, Resolves, file, find_fat_entry-Resolves}
use flame_os.Fs.Files.{fat32, Disks, Arrays, fread}
use flame_os.Fs.Files.Read.{IsOpen, file_byte, fread-file}

abbrev pub info : FsInfo
info = record {
  sector_count = 0x10000;
  bytes_per_sector = 512;
  sectors_per_cluster = 1;
  sectors_per_fat = 10;
  fat_count = 2;
  root_entries = 0;
  root_sectors = 0;
  root_cluster = 2;
  root_clusters = 1;
  fat = 32;
  data_start = 50;
}

abbrev at_index : List ℕ → ℕ → ℕ
at_index [] k = 0
at_index (x ∷ xs) zero = x
at_index (x ∷ xs) (suc k) = at_index xs k

-- "A       TXT", the attribute, and behind it cluster 3 and the size.
abbrev root : List ℕ
root =
    65 ∷ 32 ∷ 32 ∷ 32 ∷ 32 ∷ 32 ∷ 32 ∷ 32 ∷ 84 ∷ 88 ∷ 84 ∷ 0x20 ∷ 0 ∷ 0 ∷ 0 ∷ 0 ∷ 0 ∷ 0 ∷ 0 ∷ 0 ∷ 0
    ∷ 0 ∷ 0 ∷ 0 ∷ 0 ∷ 0 ∷ 3 ∷ 0 ∷ 8 ∷ 2 ∷ []

abbrev pub sectors : ℕ → Bytes.Bytes
sectors lba k =
    if lba == 32
    then if k == 12 then 4 else 0
    else if lba == 52
    then at_index root k
    else u8 (lba + k)

abbrev pub disks : Disks
disks = record {
  volumes = λ v. record { disk = 0; partition = 0 };
  parts = λ d p. record { loc = 0; fs = fat32; fsdata = info };
  sector = λ d. sectors;
}

-- "A.TXT" at 0x2000.
abbrev memory : Bytes.Bytes
memory a =
    if a == 0x2000
    then 65
    else if a == 0x2001
    then 46
    else if a == 0x2002
    then 84
    else if a == 0x2003
    then 88
    else if a == 0x2004
    then 84
    else 0

abbrev pub text_entry : FatEntry
text_entry = record { attr = 0x20; cluster_high = 0; cluster_low = 3; size = 520 }

abbrev arrays : Arrays
arrays = record { at = 0x3000; paths = λ p. 0x2000 ∷ []; junk = λ a. 0; junk_entry = text_entry }

abbrev pub name : List ℕ
name = 65 ∷ 46 ∷ 84 ∷ 88 ∷ 84 ∷ []

abbrev directory_byte : Bytes.Bytes
directory_byte = cluster_byte sectors info 0 2

root-IsFirst : IsFirst directory_byte 0 name
root-IsFirst = record {
  short = plain;
  no_nul = clean;
  others = λ k l. absurd (omega arith);
  named = refl;
}
  where
    plain : (k : ℕ) → k ≤ 0 → directory_byte (32 * k + 11) ≢ lfn
    plain zero l e = omega arith
    plain (suc k) l e = absurd (omega arith)

    clean : (k : ℕ) → k ≤ 0 → NoNul (short_name (32 * k) directory_byte)
    clean zero l = (
      λ e. omega arith,
      (λ e. omega arith, (λ e. omega arith, (λ e. omega arith, (λ e. omega arith, tt)))),
    )
    clean (suc k) l = absurd (omega arith)

pub root-Resolves : Resolves sectors info 0 2 (name ∷ []) text_entry
root-Resolves = file 0 (omega arith) root-IsFirst refl refl

memory-AreStrings : AreStrings 0x3000 memory (0x2000 ∷ []) (name ∷ [])
memory-AreStrings = (
  omega arith,
  inl (omega arith),
  (
    refl,
    λ e. omega arith,
    (
      refl,
      λ e. omega arith,
      (refl, λ e. omega arith, (refl, λ e. omega arith, (refl, λ e. omega arith, refl))),
    ),
  ),
  tt,
)

abbrev pub chain : ℕ → ℕ
chain k = 3 + k

pub text-IsFile : IsFile sectors info 0 chain 2
text-IsFile = record {
  sectors = refl;
  some_sectors = omega arith;
  few_sectors = omega arith;
  together = λ k l. omega arith;
  linked = link;
  goes_on = more;
}
  where
    link :
        (k : ℕ)
        → suc k < 2
        → entry (fat_sector sectors info 0 (chain 0)) (chain k % feps) ≡ chain (suc k)
    link zero l = refl
    link (suc k) l = absurd (omega arith)

    more : (k : ℕ) → k < 2 → in_chain (chain k) ≡ true
    more zero l = refl
    more (suc zero) l = refl
    more (suc (suc k)) l = absurd (omega arith)

find_fat_entry-Resolves_example :
    find_fat_entry sectors info 0 1 0x3000 (0x2000 ∷ []) memory memory text_entry
    ≡ ok (0, text_entry)
find_fat_entry-Resolves_example =
    find_fat_entry-Resolves sectors info 0 refl (omega arith) 0x3000 memory (omega arith) 1
      (0x2000 ∷ []) (name ∷ []) memory text_entry text_entry (omega arith) memory-AreStrings
      root-Resolves

-- At byte 500 of the file.
abbrev opened : File
opened = record { path = 0x1000; volume = 0; pointer = 500; size = 520; flags = 0; used = true }

opened-IsOpen : IsOpen disks arrays memory opened (name ∷ []) text_entry chain 2
unfolding cluster_of
opened-IsOpen = record {
  is_fat = refl;
  volume_low = omega arith;
  room = omega arith;
  strings = memory-AreStrings;
  resolves = root-Resolves;
  starts = refl;
  clusters = text-IsFile;
}

fread-file_example :
    (m' : Bytes.Bytes) × (fread disks arrays 1 2 0x5000 20 opened memory ≡ ok (20, m'))
    × ((c j : ℕ)
        → j < 512
        → 500 ≤ c * 512 + j
        → c * 512 + j < 500 + 20
        → m' (0x5000 + (c * 512 + j - 500)) ≡ file_byte disks opened (chain c) j)
    × ((x : ℕ) → (x < 0x5000) ⊎ (0x5000 + 20 ≤ x) → m' x ≡ memory x)
fread-file_example =
    fread-file disks arrays memory opened (name ∷ []) text_entry chain 2 512 1 2 0x5000 20
      opened-IsOpen refl (omega arith) (omega arith) (omega arith) (omega arith) (omega arith)
      (omega arith) (omega arith) (omega arith)
