-- ===== src/Fs/Fat/Layout.antt =====
-- Where fat_setup puts the clusters of a volume.
use flame_os.Base.{ℕ, ◌+◌, ◌-◌, ◌*◌, ◌/◌, ◌%◌, ◌^◌, ◌<◌, ◌≤◌, ◌≡◌, true, arith, ltb}
use flame_os.Fs.Fat.{BootRecord, fs_info_of, sector_size}

-- The first sector of a cluster, from the start of the volume, as the FAT format has it: the clusters follow the
-- reserved sectors and the FATs, and their numbers start at 2.
abbrev pub cluster_start : BootRecord → ℕ → ℕ
cluster_start r c =
    r.reserved_sectors + r.fat_count * r.sectors_per_fat + (c - 2) * r.sectors_per_cluster

data_start_lem :
    (r : BootRecord)
    → r.bytes_per_sector ≡ sector_size
    → r.reserved_sectors < 2 ^ 16
    → 2 ≤ r.reserved_sectors
    → r.sectors_per_fat < 2 ^ 23
    → r.reserved_sectors + r.fat_count * r.sectors_per_fat < 2 ^ 32
    → (fs_info_of r).data_start ≡ r.reserved_sectors + r.fat_count * r.sectors_per_fat - 2
unfolding fs_info_of
data_start_lem r e hr hr' hs h =
    let small : (r.reserved_sectors * sector_size) % 2 ^ 32 ≡ r.reserved_sectors * sector_size =
      omega arith in
    let test : ltb (r.reserved_sectors * sector_size) (2 ^ 31) ≡ true = ground arith in
    let fat : r.reserved_sectors * sector_size / sector_size ≡ r.reserved_sectors = omega arith in
    let one : (r.sectors_per_fat * sector_size) % 2 ^ 32 / sector_size ≡ r.sectors_per_fat =
      omega arith in
    rw (e, small, test, fat, one) (omega arith)

-- On a volume with sectors of 512 bytes, at least 2 and less than 2 ^ 16 reserved sectors, FATs
-- of less than 2 ^ 23 sectors that end below sector 2 ^ 32, and clusters of at least one sector,
-- the driver looks for each cluster from number 2 on `2 * (sectors_per_cluster - 1)` sectors
-- behind its place: at the right place only if a cluster is one sector.
pub fat_setup-clusters :
    (r : BootRecord) (c : ℕ)
    → r.bytes_per_sector ≡ sector_size
    → r.reserved_sectors < 2 ^ 16
    → 2 ≤ r.reserved_sectors
    → r.sectors_per_fat < 2 ^ 23
    → r.reserved_sectors + r.fat_count * r.sectors_per_fat < 2 ^ 32
    → 0 < r.sectors_per_cluster
    → 2 ≤ c
    → (fs_info_of r).data_start + c * (fs_info_of r).sectors_per_cluster
      ≡ cluster_start r c + 2 * (r.sectors_per_cluster - 1)
unfolding fs_info_of
fat_setup-clusters r c e hr hr' hs h some hc =
    let s = r.sectors_per_cluster in
    let split : c - 2 + 2 ≡ c = omega arith in
    let product : (c - 2 + 2) * s ≡ (c - 2) * s + 2 * s = grind arith in
    let product' : c * s ≡ (c - 2) * s + 2 * s = rw split at product in
    omega (arith, data_start_lem r e hr hr' hs h)
