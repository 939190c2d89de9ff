-- ===== src/Fs/Files.antt =====
-- kernel/fs/FS.c and FAT.c: fread, and fat_read of a file by its path. `paths` is the pointers that stand at an
-- address up to the NULL; the other parameters are those of Fs/Fat/Lookup.
pub mod Read
pub mod Examples
use flame_os.Base.{ℕ, ◌+◌, ◌-◌, Run, ok, fault, ◌>>=◌, ◌==◌, ltb, if◌then◌else◌, List, sub64}
use flame_os.Libc.Bytes
use flame_os.Fs.{File}
use flame_os.Fs.Fat.{FsInfo, fat_read}
use flame_os.Fs.Fat.Lookup.{FatEntry, cluster_of, find_fat_entry, fat_filesize}
use flame_os.Disk.Init.{Volume}

-- `FS`
pub data FileSystem : Type 0 where
  none_fs fat32 : FileSystem

-- `partinfo`
pub record Partition : Type 0 where
  pub loc : ℕ
  pub fs : FileSystem
  pub fsdata : FsInfo

-- `volumes`, `disktable`, and the sectors of each disk.
pub record Disks : Type 0 where
  pub volumes : ℕ → Volume
  pub parts : (disk partition : ℕ) → Partition
  pub sector : (disk lba : ℕ) → Bytes.Bytes

-- What a call finds in memory: where the array for names is, the pointers of the paths, and what
-- arrays and buffers hold at first.
pub record Arrays : Type 0 where
  pub at : ℕ
  pub paths : ℕ → List ℕ
  pub junk : Bytes.Bytes
  pub junk_entry : FatEntry

abbrev pub disk_of : Disks → File → ℕ
disk_of k fp = (k.volumes fp.volume).disk

abbrev pub part_of : Disks → File → Partition
part_of k fp = k.parts (k.volumes fp.volume).disk (k.volumes fp.volume).partition

-- `fat_read`: what it leaves in memory, of which the value that it returns is `bytes`. It does not look at
-- the result of `find_fat_entry`, which reads the volume as a signed `char`: from 128 on it is before the
-- table of volumes.
unfoldable pub fat_read_path :
    Disks → Arrays → (depth rounds ptr bytes : ℕ) → File → Bytes.Bytes → Run Bytes.Bytes
unfolding find_fat_entry fat_read
fat_read_path k a depth rounds ptr bytes fp m =
    let p = part_of k fp in
    let sector = k.sector (disk_of k fp) in
    let read : Run Bytes.Bytes =
      find_fat_entry sector p.fsdata p.loc depth a.at (a.paths fp.path) a.junk m a.junk_entry
      >>= λ t.
          fat_read sector p.fsdata rounds p.loc fp.pointer ptr bytes (cluster_of t.1) a.junk m in
    if ltb fp.volume 128 then read else fault

abbrev pub fread_from :
    FileSystem
    → Disks
    → Arrays
    → (depth rounds ptr bytes : ℕ) → File
    → Bytes.Bytes
    → Run (ℕ × Bytes.Bytes)
fread_from none_fs k a depth rounds ptr bytes fp m = ok (0, m)
fread_from fat32 k a depth rounds ptr bytes fp m = do
  m' ← fat_read_path k a depth rounds ptr bytes fp m
  ok (bytes, m')

-- `fread`: what it returns, and the memory afterwards. `fp` stays as it is.
unfoldable pub fread :
    Disks → Arrays → (depth rounds ptr bytes : ℕ) → File → Bytes.Bytes → Run (ℕ × Bytes.Bytes)
fread k a depth rounds ptr bytes fp m =
    let read = fread_from (part_of k fp).fs k a depth rounds ptr bytes fp m in
    if bytes == 0
    then ok (0, m)
    else if ltb (sub64 fp.size fp.pointer) bytes
    then ok (0, m)
    else read
