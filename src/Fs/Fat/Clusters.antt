-- ===== src/Fs/Fat/Clusters.antt =====
-- A file as its clusters, and the entries of the FAT in a buffer.
use native.Mathlib.Nat.{}
use native.Mathlib.Decide.{}
use flame_os.Base.{
  ℕ, suc, ◌+◌, ◌*◌, ◌/◌, ◌%◌, ◌^◌, ◌<◌, ◌≡◌, arith, true, add64, u32, ltb, if◌then◌else◌,
}
use flame_os.Libc.Bytes
use flame_os.Fs.Fat.{FsInfo, feps, sector_size, entry, in_chain}
use flame_os.Fs.Fat.Paste.{}

-- The sector of the FAT with the entry of `c`, and byte `r` of cluster `c`, where the driver looks for them.
abbrev pub fat_sector : (sector : ℕ → Bytes.Bytes) → FsInfo → (part c : ℕ) → Bytes.Bytes
fat_sector sector i part c = sector (add64 (add64 part i.fat) (c / feps))

abbrev pub cluster_byte : (sector : ℕ → Bytes.Bytes) → FsInfo → (part c r : ℕ) → ℕ
cluster_byte sector i part c r =
    sector
      (add64 (add64 (add64 part i.data_start) (u32 (c * i.sectors_per_cluster))) (r / sector_size))
      (r % sector_size)

-- A file of `n` clusters, the entries of all of them in one sector of the FAT, on a volume with
-- sectors of 512 bytes.
pub record IsFile (sector : ℕ → Bytes.Bytes) (i : FsInfo) (part : ℕ) (chain : ℕ → ℕ) (n : ℕ)
    : Type 0 where
  pub sectors : i.bytes_per_sector ≡ sector_size
  pub some_sectors : 0 < i.sectors_per_cluster
  pub few_sectors : i.sectors_per_cluster < 2 ^ 8
  pub together : (k : ℕ) → k < n → chain k / feps ≡ chain 0 / feps
  pub linked :
      (k : ℕ)
      → suc k < n
      → entry (fat_sector sector i part (chain 0)) (chain k % feps) ≡ chain (suc k)
  pub goes_on : (k : ℕ) → k < n → in_chain (chain k) ≡ true

-- What a read of one sector leaves in a buffer.
abbrev pub loaded : (sector : ℕ → Bytes.Bytes) (lba : ℕ) (buf : Bytes.Bytes) → Bytes.Bytes
loaded sector lba buf k =
    if ltb k (sector_size * 1)
    then sector (add64 lba (k / sector_size)) (k % sector_size)
    else buf k

loaded-byte :
    (sector : ℕ → Bytes.Bytes) (lba : ℕ) (buf : Bytes.Bytes) (k : ℕ)
    → lba < 2 ^ 64
    → k < sector_size
    → loaded sector lba buf k ≡ sector lba k
loaded-byte sector lba buf k h l =
    let e : add64 lba (k / sector_size) ≡ lba = omega arith in
    let e' : k % sector_size ≡ k = omega arith in rw (e, e') (ground arith)

pub loaded-entry :
    (sector : ℕ → Bytes.Bytes) (lba : ℕ) (buf : Bytes.Bytes) (c : ℕ)
    → lba < 2 ^ 64
    → entry (loaded sector lba buf) (c % feps) ≡ entry (sector lba) (c % feps)
loaded-entry sector lba buf c h =
    let at = λ (k : ℕ) (l : k < sector_size). loaded-byte sector lba buf k h l in
    omega (
      arith,
      at (4 * (c % feps)) (omega arith),
      at (4 * (c % feps) + 1) (omega arith),
      at (4 * (c % feps) + 2) (omega arith),
      at (4 * (c % feps) + 2 + 1) (omega arith),
    )
