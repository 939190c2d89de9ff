-- ===== src/Fs/Fat/Examples.antt =====
-- A volume with a file of two clusters, 2 and 3.
use flame_os.Base.{
  ℕ, zero, suc, ◌+◌, ◌-◌, ◌*◌, ◌%◌, ◌<◌, ◌≤◌, ◌≡◌, ◌⊎◌, ◌==◌, refl, true, arith, ok, u8,
  if◌then◌else◌,
}
use flame_os.Libc.Bytes
use flame_os.Fs.Fat.{FsInfo, BootRecord, fs_info_of, entry, feps, in_chain, fat_read}
use flame_os.Fs.Fat.Clusters.{IsFile, fat_sector, cluster_byte}
use flame_os.Fs.Fat.Read.{fat_read-file}
use flame_os.Fs.Fat.Layout.{cluster_start, fat_setup-clusters}

abbrev record_of : (sectors_per_cluster : ℕ) → BootRecord
record_of n = record {
  bytes_per_sector = 512;
  sectors_per_cluster = n;
  reserved_sectors = 32;
  fat_count = 2;
  root_entries = 0;
  sector_count_small = 0;
  sector_count_large = 0x10000;
  sectors_per_fat = 10;
  root_cluster = 2;
}

fat_setup-clusters_example :
    (fs_info_of (record_of 8)).data_start + 5 * (fs_info_of (record_of 8)).sectors_per_cluster
    ≡ cluster_start (record_of 8) 5 + 2 * (8 - 1)
fat_setup-clusters_example =
    fat_setup-clusters (record_of 8) 5 refl (omega arith) (omega arith) (omega arith) (omega arith)
      (omega arith) (omega arith)

abbrev info : FsInfo
info = record {
  sector_count = 0x10000;
  bytes_per_sector = 512;
  sectors_per_cluster = 1;
  sectors_per_fat = 10;
  fat_count = 2;
  root_entries = 0;
  root_sectors = 0;
  root_cluster = 2;
  root_clusters = 1;
  fat = 32;
  data_start = 50;
}

-- Sector 32 has the entry 3 for cluster 2.
abbrev sectors : ℕ → Bytes.Bytes
sectors lba k = if lba == 32 then (if k == 8 then 3 else 0) else u8 (lba + k)

abbrev chain : ℕ → ℕ
chain k = 2 + k

file : IsFile sectors info 0 chain 2
file = record {
  sectors = refl;
  some_sectors = omega arith;
  few_sectors = omega arith;
  together = λ k l. omega arith;
  linked = link;
  goes_on = more;
}
  where
    link :
        (k : ℕ)
        → suc k < 2
        → entry (fat_sector sectors info 0 (chain 0)) (chain k % feps) ≡ chain (suc k)
    link zero l = refl
    link (suc k) l = absurd (omega arith)

    more : (k : ℕ) → k < 2 → in_chain (chain k) ≡ true
    more zero l = refl
    more (suc zero) l = refl
    more (suc (suc k)) l = absurd (omega arith)

abbrev junk : Bytes.Bytes
junk a = 0

-- From byte 500 on, 20 bytes.
fat_read-file_example :
    (m' : Bytes.Bytes) × (fat_read sectors info 2 0 500 0x1000 20 (chain 0) junk junk ≡ ok m')
    × ((k j : ℕ)
        → j < 512
        → 500 ≤ k * 512 + j
        → k * 512 + j < 500 + 20
        → m' (0x1000 + (k * 512 + j - 500)) ≡ cluster_byte sectors info 0 (chain k) j)
    × ((a : ℕ) → (a < 0x1000) ⊎ (0x1000 + 20 ≤ a) → m' a ≡ junk a)
fat_read-file_example =
    fat_read-file sectors info 0 chain 2 file 512 refl 2 500 0x1000 20 junk junk (omega arith)
      (omega arith) (omega arith) (omega arith) (omega arith)
