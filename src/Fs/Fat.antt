-- ===== src/Fs/Fat.antt =====
-- kernel/fs/FAT.c and FAT.h: fat_setup, and fat_read from the first cluster of a file on. The disk is the
-- bytes of its sectors: what readsectorpio leaves in a buffer. A buffer is its bytes, by their
-- distance from its start, and `junk` is what malloc or the stack had there. Reading more than a buffer has
-- room for is a fault.
pub mod Paste
pub mod Layout
mod Examples
pub mod Clusters
pub mod Lookup
pub mod Read
use flame_os.Base.{
  ℕ, zero, suc, ◌+◌, ◌-◌, ◌*◌, ◌/◌, ◌%◌, ◌^◌, Bool, true, false, Run, ok, fault, out_of_fuel, ◌>>=◌,
  ◌==◌, leb, ltb, ◌&&◌, if◌then◌else◌, bit_and, add64, u16, u32, u64,
}
use flame_os.Libc.Bytes

-- `FEPS`
abbrev pub feps : ℕ
feps = 128

abbrev pub sector_size : ℕ
sector_size = 512

abbrev pub word16 : Bytes.Bytes → ℕ → ℕ
word16 b k = b k + 2 ^ 8 * b (k + 1)

abbrev pub word32 : Bytes.Bytes → ℕ → ℕ
word32 b k = word16 b k + 2 ^ 16 * word16 b (k + 2)

-- The fields of `bootrecord` that `fat_setup` reads.
pub record BootRecord : Type 0 where
  pub bytes_per_sector : ℕ
  pub sectors_per_cluster : ℕ
  pub reserved_sectors : ℕ
  pub fat_count : ℕ
  pub root_entries : ℕ
  pub sector_count_small : ℕ
  pub sector_count_large : ℕ
  pub sectors_per_fat : ℕ
  pub root_cluster : ℕ

-- The packed structure's fields, at their places in the sector.
unfoldable pub bootrecord : Bytes.Bytes → BootRecord
bootrecord b = record {
  bytes_per_sector = word16 b 11;
  sectors_per_cluster = b 13;
  reserved_sectors = word16 b 14;
  fat_count = b 16;
  root_entries = word16 b 17;
  sector_count_small = word16 b 19;
  sector_count_large = word32 b 32;
  sectors_per_fat = word32 b 36;
  root_cluster = word32 b 44;
}

-- `fat_fs_info`
pub record FsInfo : Type 0 where
  pub sector_count : ℕ
  pub bytes_per_sector : ℕ
  pub sectors_per_cluster : ℕ
  pub sectors_per_fat : ℕ
  pub fat_count : ℕ
  pub root_entries : ℕ
  pub root_sectors : ℕ
  pub root_cluster : ℕ
  pub root_clusters : ℕ
  pub fat : ℕ
  pub data_start : ℕ

-- `x / SECTOR_SIZE` on a 32-bit `int`, which rounds to 0.
abbrev pub div_sector : ℕ → ℕ
div_sector x = if ltb x (2 ^ 31) then x / sector_size else u32 (2 ^ 32 - (2 ^ 32 - x) / sector_size)

-- The fields before the clusters of the root directory are counted.
unfoldable pub fs_info_of : BootRecord → FsInfo
fs_info_of r =
    let fat = div_sector (u32 (r.reserved_sectors * r.bytes_per_sector)) in
    record {
      sector_count =
          if r.sector_count_small == 0 then r.sector_count_large else r.sector_count_small;
      bytes_per_sector = r.bytes_per_sector;
      sectors_per_cluster = r.sectors_per_cluster;
      sectors_per_fat = r.sectors_per_fat;
      fat_count = r.fat_count;
      root_entries = r.root_entries;
      root_sectors = u16 ((r.root_entries * 32 + (r.bytes_per_sector - 1)) / r.bytes_per_sector);
      root_cluster = r.root_cluster;
      root_clusters = 1;
      fat = fat;
      data_start = u32 (
          fat
          + u32 (r.fat_count * (u32 (r.sectors_per_fat * r.bytes_per_sector) / sector_size))
          + 2 ^ 32
          - 2);
    }

-- `FAT_buffer[i]` for an `i` in the buffer.
abbrev pub entry : Bytes.Bytes → ℕ → ℕ
entry buf i = word32 buf (4 * i)

-- `(c & 0x0FFFFFFF) < 0x0FFFFFF0`
abbrev pub in_chain : ℕ → Bool
in_chain c = ltb (bit_and c 0x0fff_ffff) 0x0fff_fff0

-- `bytes_per_cluster` of `fat_read`.
unfoldable pub bytes_per_cluster : FsInfo → ℕ
bytes_per_cluster i = u32 (i.bytes_per_sector * i.sectors_per_cluster)

module _ (sector : ℕ → Bytes.Bytes) where
  -- `readsectorpio` into a buffer of `room` bytes.
  unfoldable pub read_into : (room lba count : ℕ) → Bytes.Bytes → Run Bytes.Bytes
  read_into room lba count buf =
      if leb (sector_size * count) room
      then ok (λ k.
        if ltb k (sector_size * count)
        then sector (add64 lba (k / sector_size)) (k % sector_size)
        else buf k)
      else fault

  -- The loop of `fat_setup`; `start` is `info->loc + fs_info.fat`. It counts in a `u16`.
  unfoldable pub count_root : (fuel start current count : ℕ) → Bytes.Bytes → Run ℕ
  unfolding read_into
  count_root zero start current count buf = out_of_fuel
  count_root (suc fuel) start current count buf =
      let load =
        if current / feps == entry buf current / feps
        then ok buf
        else read_into sector_size (add64 start (current / feps)) 1 buf in
      let round = load >>= λ b.
      let again = count_root fuel start (entry b (current % feps)) (u16 (count + 1)) b in
      if in_chain (entry b (current % feps)) then again else ok count in
      if ltb current feps then round else fault

  unfoldable pub fat_setup : (fuel loc : ℕ) (junk : Bytes.Bytes) → Run FsInfo
  unfolding bootrecord fs_info_of count_root read_into
  fat_setup fuel loc junk = do
    bpb ← read_into sector_size loc 1 junk
    i ← if (bootrecord bpb).bytes_per_sector == 0 then fault else ok (fs_info_of (bootrecord bpb))
    buf ← read_into sector_size (add64 (add64 loc i.fat) (i.root_cluster / feps)) 1 junk
    n ← count_root fuel (add64 loc i.fat) i.root_cluster 1 buf
    ok (record i { root_clusters = n })

  -- Loads the sector of the FAT that the next cluster's entry is in, if that is another one.
  unfoldable pub load_next : FsInfo → (part active : ℕ) → Bytes.Bytes → Run Bytes.Bytes
  unfolding read_into
  load_next i part active fat =
      let next = entry fat (active % feps) in
      if active / feps == next / feps
      then ok fat
      else read_into sector_size (add64 (add64 part i.fat) (next / feps)) i.sectors_per_cluster fat

  unfoldable pub advance : FsInfo → (part active : ℕ) → Bytes.Bytes → Run (ℕ × Bytes.Bytes)
  unfolding load_next
  advance i part active fat = do
    fat' ← load_next i part active fat
    ok (entry fat' (active % feps), fat')

  unfoldable pub skip_clusters :
      FsInfo → (skipped part active : ℕ) → Bytes.Bytes → Run (ℕ × Bytes.Bytes)
  unfolding advance
  skip_clusters i zero part active fat = ok (active, fat)
  skip_clusters i (suc n) part active fat = do
    t ← advance i part active fat
    skip_clusters i n part t.0 t.1

  unfoldable pub read_cluster : FsInfo → (part active : ℕ) → Bytes.Bytes → Run Bytes.Bytes
  unfolding read_into bytes_per_cluster
  read_cluster i part active buf =
      read_into (bytes_per_cluster i)
        (add64 (add64 part i.data_start) (u32 (active * i.sectors_per_cluster)))
        (u16 (i.bytes_per_sector / sector_size * i.sectors_per_cluster)) buf

  -- `memcpy` of `n` bytes from place `from` of a buffer to `ptr`; the buffer and the target are apart.
  abbrev pub paste : (ptr n from : ℕ) → Bytes.Bytes → Bytes.Bytes → Bytes.Bytes
  paste ptr n from buf m a = if leb ptr a && ltb a (ptr + n) then buf (from + (a - ptr)) else m a

  -- The loop over whole clusters at the end of `fat_read`.
  unfoldable pub read_clusters :
      FsInfo → (fuel part ptr bytes active : ℕ) (fat buf m : Bytes.Bytes) → Run Bytes.Bytes
  unfolding read_cluster load_next bytes_per_cluster
  read_clusters i zero part ptr bytes active fat buf m = out_of_fuel
  read_clusters i (suc fuel) part ptr bytes active fat buf m = do
    buf' ← read_cluster i part active buf
    let bpc = bytes_per_cluster i
    let next = entry fat (active % feps)
    let active' = if active / feps == next / feps then next else active
    let more = load_next i part active fat >>= λ fat'.
        let again =
          read_clusters i fuel part (add64 ptr bpc) (bytes - bpc) active' fat' buf'
            (paste ptr bpc 0 buf' m) in
        if in_chain active' then again else ok (paste ptr bpc 0 buf' m)
    if ltb bpc bytes then more else ok (paste ptr bytes 0 buf' m)

  -- The part of the first cluster, where the position is inside one; `within` is its place there.
  unfoldable pub read_partial :
      FsInfo → (fuel part within ptr bytes active : ℕ) (fat buf m : Bytes.Bytes) → Run Bytes.Bytes
  unfolding read_cluster advance read_clusters bytes_per_cluster
  read_partial i fuel part within ptr bytes active fat buf m = do
    buf' ← read_cluster i part active buf
    let rest = bytes_per_cluster i - within
    let more = advance i part active fat >>= λ t.
        read_clusters i fuel part (add64 ptr rest) (bytes - rest) t.0 t.1 buf'
          (paste ptr rest within buf' m)
    if ltb rest bytes then more else ok (paste ptr bytes within buf' m)

  -- `fat_read` of an entry whose first cluster is `active`, from `pointer` of the file on. What it
  -- leaves in memory; it returns `bytes`.
  unfoldable pub fat_read :
      FsInfo → (fuel part pointer ptr bytes active : ℕ) (junk m : Bytes.Bytes) → Run Bytes.Bytes
  unfolding read_into bytes_per_cluster
  fat_read i fuel part pointer ptr bytes active junk m =
      let bpc = bytes_per_cluster i in
      let run = (do
        fat ← read_into sector_size (add64 (add64 part i.fat) (active / feps)) 1 junk
        t ← skip_clusters i (u32 (pointer / bpc)) part active fat
        let within = pointer % bpc
        let whole = read_clusters i fuel part ptr bytes t.0 t.1 junk m
        let inside = read_partial i fuel part within ptr bytes t.0 t.1 junk m
        if within == 0 then whole else inside) in
      if bpc == 0 then fault else run
