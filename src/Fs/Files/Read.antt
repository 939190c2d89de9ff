-- ===== src/Fs/Files/Read.antt =====
-- fread of a file by its path.
use flame_os.Base.{
  ℕ, ◌+◌, ◌-◌, ◌*◌, ◌^◌, ◌<◌, ◌≤◌, ◌≡◌, ◌⊎◌, refl, arith, false, true, ok, ◌==◌, ltb, List, length,
  sub64,
}
use flame_os.Libc.Bytes
use flame_os.Fs.{File}
use flame_os.Fs.Fat.{sector_size}
use flame_os.Fs.Fat.Clusters.{IsFile, cluster_byte}
use flame_os.Fs.Fat.Read.{fat_read-file}
use flame_os.Fs.Fat.Lookup.{FatEntry, cluster_of, filename_length}
use flame_os.Fs.Fat.Lookup.Find.{AreStrings, Resolves, find_fat_entry-Resolves}
use flame_os.Fs.Files.{fat32, Disks, Arrays, disk_of, part_of, fat_read_path, fread}

-- The file of `fp` on a FAT32 volume: its path, of components `ws`, leads to the entry `e`, and its
-- clusters are `chain`, of which there are `n`.
pub record IsOpen (k : Disks) (a : Arrays) (m : Bytes.Bytes) (fp : File) (ws : List (List ℕ))
    (e : FatEntry) (chain : ℕ → ℕ) (n : ℕ) : Type 0 where
  pub is_fat : (part_of k fp).fs ≡ fat32
  pub volume_low : fp.volume < 128
  pub room : a.at + filename_length < 2 ^ 64
  pub strings : AreStrings a.at m (a.paths fp.path) ws
  pub resolves :
      Resolves
        (k.sector (disk_of k fp))
        (part_of k fp).fsdata
        (part_of k fp).loc
        (part_of k fp).fsdata.root_cluster
        ws
        e
  pub starts : chain 0 ≡ cluster_of e
  pub clusters : IsFile (k.sector (disk_of k fp)) (part_of k fp).fsdata (part_of k fp).loc chain n

-- Byte `j` of cluster `c` of the file's volume.
abbrev pub file_byte : Disks → File → (c j : ℕ) → ℕ
file_byte k fp c j =
    cluster_byte (k.sector (disk_of k fp)) (part_of k fp).fsdata (part_of k fp).loc c j

-- `fread` of at least one byte inside a file on a FAT32 volume that `IsOpen` describes, whose clusters
-- have room for its size and are at most 2 ^ 32, to memory that does not wrap, with fuel for the
-- components of the path and for the clusters, returns the number of bytes. The memory at `ptr` then
-- holds the bytes of the file from its position on, where the driver looks for its clusters, and nothing
-- else has changed.
pub fread-file :
    (k : Disks) (a : Arrays) (m : Bytes.Bytes) (fp : File) (ws : List (List ℕ)) (e : FatEntry)
    (chain : ℕ → ℕ) (n size depth rounds ptr bytes : ℕ)
    → IsOpen k a m fp ws e chain n
    → sector_size * (part_of k fp).fsdata.sectors_per_cluster ≡ size
    → length (a.paths fp.path) ≤ depth
    → n ≤ rounds
    → n ≤ 2 ^ 32
    → 0 < bytes
    → fp.pointer + bytes ≤ fp.size
    → fp.size < 2 ^ 64
    → fp.size ≤ n * size
    → ptr + bytes < 2 ^ 64
    → (m' : Bytes.Bytes) × (fread k a depth rounds ptr bytes fp m ≡ ok (bytes, m'))
      × ((c j : ℕ)
          → j < size
          → fp.pointer ≤ c * size + j
          → c * size + j < fp.pointer + bytes
          → m' (ptr + (c * size + j - fp.pointer)) ≡ file_byte k fp (chain c) j)
      × ((x : ℕ) → (x < ptr) ⊎ (ptr + bytes ≤ x) → m' x ≡ m x)
unfolding fread fat_read_path
fread-file k a m fp ws e chain n size depth rounds ptr bytes is is_size deep enough few some inside
      low fits wrap =
    let sector = k.sector (disk_of k fp) in
    let p = part_of k fp in
    let found =
      find_fat_entry-Resolves sector p.fsdata p.loc is.clusters.sectors is.clusters.few_sectors a.at
        m is.room depth (a.paths fp.path) ws a.junk e a.junk_entry deep is.strings is.resolves in
    let (m', r, new, old) =
      fat_read-file sector p.fsdata p.loc chain n is.clusters size is_size rounds fp.pointer ptr
        bytes a.junk m enough few some (omega arith) wrap in
    let not_none : (bytes == 0) ≡ false = ground arith in
    let left : sub64 fp.size fp.pointer ≡ fp.size - fp.pointer = omega arith in
    let signed : ltb fp.volume 128 ≡ true = let low' = is.volume_low in ground arith in
    let not_past : ltb (fp.size - fp.pointer) bytes ≡ false = ground arith in
    (m', rw (not_none, left, not_past, is.is_fat, signed, found, ← is.starts, r) refl, new, old)
