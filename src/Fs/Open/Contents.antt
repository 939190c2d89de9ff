-- ===== src/Fs/Open/Contents.antt =====
-- A file that is opened by its path and read: fopen, and then fread.
use flame_os.Base.{ℕ, ◌*◌, ◌^◌, ◌≤◌, ◌≡◌}
use flame_os.Libc.Bytes
use flame_os.Fs.{File}
use flame_os.Fs.Fat.{sector_size}
use flame_os.Fs.Fat.Clusters.{IsFile}
use flame_os.Fs.Fat.Lookup.{FatEntry, cluster_of}
use flame_os.Fs.Fat.Lookup.Find.{}
use flame_os.Fs.Files.{Disks, disk_of, part_of}

-- The clusters of the file of entry `e` are `chain`, of which there are `count`, each of `size` bytes.
pub record HasClusters (k : Disks) (g : File) (e : FatEntry) (chain : ℕ → ℕ) (count size : ℕ)
    : Type 0 where
  pub starts : chain 0 ≡ cluster_of e
  pub clusters : IsFile (k.sector (disk_of k g)) (part_of k g).fsdata (part_of k g).loc chain count
  pub is_size : sector_size * (part_of k g).fsdata.sectors_per_cluster ≡ size
  pub few : count ≤ 2 ^ 32
  pub fits : e.size ≤ count * size
