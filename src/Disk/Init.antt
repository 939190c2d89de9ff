-- ===== src/Disk/Init.antt =====
-- kernel/disk/PIO.c, init_disk, for one disk: its size by IDENTIFY, the partitions of its first sector,
-- and which of them hold FAT32. `fat_setup`, which init_disk calls for those, is in Fs/Fat. The table of
-- disks is memory from malloc, so that what `blocks` holds before is an argument. `buffer` is the address of
-- the array of that name.
use flame_os.Base.{
  ℕ, zero, suc, ◌+◌, ◌-◌, ◌*◌, ◌^◌, ◌<◌, ◌≤◌, ◌≡◌, Bool, ◌||◌, Option, none, some, List, [], ◌∷◌,
  Run, ok, ◌>>=◌, arith, add64, bit_or, ltb, ◌==◌, if◌then◌else◌, ◌<<<◌, u64,
}
use flame_os.Cpu.Io.{Device, WordPorts, outb, inw}
use flame_os.Libc.Bytes
use flame_os.Disk.Pio.{
  port_of, select, dat, dhr, sec, lba_lo, lba_mid, lba_hi, cmd, bsy, identify, poll, readsectorpio,
}

-- `partinfo` without the two fields that `fat_setup` fills.
pub record PartInfo : Type 0 where
  pub loc : ℕ
  pub size : ℕ

-- `volume_t`
pub record Volume : Type 0 where
  pub disk : ℕ
  pub partition : ℕ

-- Four bytes as an `int`, which a `u64` then takes with its sign.
unfoldable pub int_at : Bytes.Bytes → ℕ → ℕ
int_at m a =
    let v = m a + 2 ^ 8 * m (add64 a 1) + 2 ^ 16 * m (add64 a 2) + 2 ^ 24 * m (add64 a 3) in
    if ltb v (2 ^ 31) then v else v + 2 ^ 64 - 2 ^ 32

-- The loop over the entries from `i` on, at `j` of the buffer: the partitions, and the volumes that
-- they add.
unfoldable pub read_parts : (left i j buffer disk : ℕ) → Bytes.Bytes → List PartInfo × List Volume
unfolding int_at
read_parts zero i j buffer disk m = ([], [])
read_parts (suc left) i j buffer disk m =
    let part : PartInfo = record {
      loc = int_at m (add64 buffer (j + 8));
      size = int_at m (add64 buffer (j + 0xc));
    } in
    let (parts, volumes) = read_parts left (i + 1) (j + 16) buffer disk m in
    (
      part ∷ parts,
      if part.size == 0 then volumes else record { disk = disk; partition = i } ∷ volumes,
    )

-- `diskdata`
pub record DiskData : Type 0 where
  pub blocks : ℕ
  pub parts : List PartInfo

module _ {S : Type 0} (w : WordPorts S) where
  unfoldable pub skip_words : (left port : ℕ) → S → S
  skip_words zero port s = s
  skip_words (suc left) port s = skip_words left port (inw w (port + dat) s).1

  -- `blocks |= (u64) inw(port + DAT) << i`
  unfoldable pub read_blocks : (left i port blocks : ℕ) → S → ℕ × S
  read_blocks zero i port blocks s = (blocks, s)
  read_blocks (suc left) i port blocks s =
      let (v, s') = inw w (port + dat) s in
      read_blocks left (i + 16) port (bit_or blocks (u64 (v <<< i))) s'

module _ {S : Type 0} (d : Device S) (w : WordPorts S) where
  unfoldable pub identify_disk : (fuel disk blocks : ℕ) → S → Run (ℕ × S)
  unfolding poll skip_words read_blocks
  identify_disk fuel disk blocks s = do
    let port = port_of disk
    s₀ ← poll d fuel port bsy s
    let s₁ = outb d (port + dhr) (select 0xa0 0xb0 disk) s₀
    let s₂ = outb d (port + sec) 0 s₁
    let s₃ = outb d (port + lba_lo) 0 s₂
    let s₄ = outb d (port + lba_mid) 0 s₃
    let s₅ = outb d (port + lba_hi) 0 s₄
    let s₆ = outb d (port + cmd) identify s₅
    let (n, s₇) = read_blocks w 4 0 port blocks (skip_words w 100 port s₆)
    ok (n, skip_words w 152 port s₇)

  -- Which partitions hold FAT32.
  unfoldable pub detect :
      (fuel buffer disk : ℕ) → List PartInfo → S → Bytes.Bytes → Run (List Bool × (S × Bytes.Bytes))
  unfolding readsectorpio
  detect fuel buffer disk [] s m = ok ([], (s, m))
  detect fuel buffer disk (p ∷ parts) s m = do
    r ← readsectorpio d w fuel p.loc 1 buffer disk s m
    let b = r.1 (add64 buffer 0x42)
    t ← detect fuel buffer disk parts r.0 r.1
    ok ((b == 0x28 || b == 0x29) ∷ t.0, t.1)

  -- What follows for a disk of some blocks.
  unfoldable pub read_mbr :
      (fuel buffer disk blocks : ℕ)
      → S
      → Bytes.Bytes
      → Run (Option (DiskData × List Volume × List Bool) × (S × Bytes.Bytes))
  unfolding readsectorpio read_parts detect
  read_mbr fuel buffer disk blocks s m = do
    r ← readsectorpio d w fuel 0 1 buffer disk s m
    let p = read_parts 4 0 0x1be buffer disk r.1
    u ← detect fuel buffer disk p.0 r.0 r.1
    ok (some (record { blocks = blocks; parts = p.0 }, p.1, u.0), u.1)

  -- The round of the loop for `disk`; `none` is its `continue`.
  unfoldable pub init_one :
      (fuel buffer disk blocks : ℕ)
      → S
      → Bytes.Bytes
      → Run (Option (DiskData × List Volume × List Bool) × (S × Bytes.Bytes))
  unfolding identify_disk read_mbr
  init_one fuel buffer disk blocks s m = do
    t ← identify_disk fuel disk blocks s
    let found = read_mbr fuel buffer disk t.0 t.1 m
    if t.0 == 0 then ok (none, (t.1, m)) else found

-- A partition that starts, or has a size, below 2 ^ 31 is read as such.
pub int_at-low :
    (m : Bytes.Bytes) (a v : ℕ)
    → m a + 2 ^ 8 * m (add64 a 1) + 2 ^ 16 * m (add64 a 2) + 2 ^ 24 * m (add64 a 3) ≡ v
    → v < 2 ^ 31
    → int_at m a ≡ v
unfolding int_at
int_at-low m a v e l = rw e (ground arith)

-- From 2 ^ 31 on it is read as a number above 2 ^ 63.
pub int_at-high :
    (m : Bytes.Bytes) (a v : ℕ)
    → m a + 2 ^ 8 * m (add64 a 1) + 2 ^ 16 * m (add64 a 2) + 2 ^ 24 * m (add64 a 3) ≡ v
    → 2 ^ 31 ≤ v
    → v < 2 ^ 32
    → 2 ^ 63 ≤ int_at m a
unfolding int_at
int_at-high m a v e h l = rw e (ground arith)
