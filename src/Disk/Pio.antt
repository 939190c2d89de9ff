-- ===== src/Disk/Pio.antt =====
-- kernel/disk/PIO.c: reading and writing sectors over the ports of a disk. The disk is a parameter. The
-- buffer is bytes of memory. A `poll` loop takes fuel.
pub mod Address
pub mod Serves
pub mod Read
pub mod Write
use flame_os.Base.{
  ℕ, zero, suc, ◌+◌, ◌*◌, ◌/◌, ◌%◌, ◌^◌, Bool, Run, ok, out_of_fuel, ◌>>=◌, ◌==◌, leb,
  if◌then◌else◌, bit_and, add64, u8, ◌>>>◌,
}
use flame_os.Cpu.Io.{Device, WordPorts, inb, outb, inw}
use flame_os.Libc.Bytes
use flame_os.Libc.Bytes.{store}

abbrev pub primary : ℕ
primary = 0x1f0

abbrev pub second : ℕ
second = 0x170

-- The registers of a disk, by their distance from its first port. `cmd` and `sts` are one port.
abbrev pub dat : ℕ
dat = 0

abbrev pub sec : ℕ
sec = 2

abbrev pub lba_lo : ℕ
lba_lo = 3

abbrev pub lba_mid : ℕ
lba_mid = 4

abbrev pub lba_hi : ℕ
lba_hi = 5

abbrev pub dhr : ℕ
dhr = 6

abbrev pub sts : ℕ
sts = 7

abbrev pub cmd : ℕ
cmd = 7

abbrev pub drq : ℕ
drq = 0x08

abbrev pub bsy : ℕ
bsy = 0x80

abbrev pub read_command : ℕ
read_command = 0x24

abbrev pub write_command : ℕ
write_command = 0x34

abbrev pub identify : ℕ
identify = 0xec

-- The first port of a disk, and what selects it: `first` for the first disk of a channel.
abbrev pub port_of : ℕ → ℕ
port_of disk = if leb 2 disk then second else primary

abbrev pub select : (first other disk : ℕ) → ℕ
select first other disk = if disk % 2 == 0 then first else other

-- `*buf = v` and `*buf` for a `u16 *`.
abbrev pub store16 : Bytes.Bytes → (p v : ℕ) → Bytes.Bytes
store16 m p v = store (store m p (v % 2 ^ 8)) (add64 p 1) (v / 2 ^ 8 % 2 ^ 8)

abbrev pub load16 : Bytes.Bytes → ℕ → ℕ
load16 m p = m p + 2 ^ 8 * m (add64 p 1)

module _ {S : Type 0} (d : Device S) where
  -- `poll(status)`: until the bits are clear.
  unfoldable pub poll : (fuel port status : ℕ) → S → Run S
  poll zero port status s = out_of_fuel
  poll (suc fuel) port status s =
      let (v, s') = inb d (port + sts) s in
      let again = poll fuel port status s' in if bit_and v status == 0 then ok s' else again

  -- `antipoll(status)`: until one of the bits is set.
  unfoldable pub antipoll : (fuel port status : ℕ) → S → Run S
  antipoll zero port status s = out_of_fuel
  antipoll (suc fuel) port status s =
      let (v, s') = inb d (port + sts) s in
      let again = antipoll fuel port status s' in if bit_and v status == 0 then again else ok s'

  unfoldable pub delay_loop : (left : ℕ) → S → S
  delay_loop zero s = s
  delay_loop (suc left) s = delay_loop left (inb d (primary + sts) s).1

  unfoldable pub smalldelay : S → S
  unfolding delay_loop
  smalldelay s = delay_loop 15 s

  -- The writes that name the disk, the count and the first sector.
  unfoldable pub send_address : (port outcmd lba count : ℕ) → S → S
  send_address port outcmd lba count s =
      let s₁ = outb d (port + dhr) outcmd s in
      let s₂ = outb d (port + sec) (u8 (count >>> 8)) s₁ in
      let s₃ = outb d (port + lba_lo) (u8 (lba >>> 24)) s₂ in
      let s₄ = outb d (port + lba_mid) (u8 (lba >>> 32)) s₃ in
      let s₅ = outb d (port + lba_hi) (u8 (lba >>> 40)) s₄ in
      let s₆ = outb d (port + sec) (u8 count) s₅ in
      let s₇ = outb d (port + lba_lo) (u8 lba) s₆ in
      let s₈ = outb d (port + lba_mid) (u8 (lba >>> 8)) s₇ in
      outb d (port + lba_hi) (u8 (lba >>> 16)) s₈

  unfoldable pub start_transfer : (port outcmd lba count command : ℕ) → S → S
  unfolding send_address
  start_transfer port outcmd lba count command s =
      outb d (port + cmd) command (send_address port outcmd lba count s)

  -- What comes before each sector.
  unfoldable pub await_sector : (fuel port : ℕ) → S → Run S
  unfolding smalldelay poll antipoll
  await_sector fuel port s = do s₁ ← poll fuel port bsy (smalldelay s); antipoll fuel port drq s₁

  -- The inner loop of `writesectorpio`: a port of 8 bits gets each word.
  unfoldable pub write_words : (left port buf : ℕ) → Bytes.Bytes → S → S
  write_words zero port buf m s = s
  write_words (suc left) port buf m s =
      write_words left port (add64 buf 2) m (outb d (port + dat) (u8 (load16 m buf)) s)

  unfoldable pub write_sectors : (left fuel port buf : ℕ) → Bytes.Bytes → S → Run S
  unfolding write_words await_sector
  write_sectors zero fuel port buf m s = ok s
  write_sectors (suc left) fuel port buf m s = do
    s₁ ← await_sector fuel port s
    write_sectors left fuel port (add64 buf 512) m (write_words 256 port buf m s₁)

  unfoldable pub writesectorpio : (fuel lba count buffer disk : ℕ) → Bytes.Bytes → S → Run S
  unfolding poll start_transfer write_sectors
  writesectorpio fuel lba count buffer disk m s = do
    s₁ ← poll fuel (port_of disk) bsy s
    write_sectors count fuel (port_of disk) buffer m
        (start_transfer (port_of disk) (select 0x40 0x50 disk) lba count write_command s₁)

module _ {S : Type 0} (w : WordPorts S) where
  -- The inner loop of `readsectorpio`: the words of a sector.
  unfoldable pub read_words : (left port buf : ℕ) → S → Bytes.Bytes → S × Bytes.Bytes
  read_words zero port buf s m = (s, m)
  read_words (suc left) port buf s m =
      let (v, s') = inw w (port + dat) s in read_words left port (add64 buf 2) s' (store16 m buf v)

module _ {S : Type 0} (d : Device S) (w : WordPorts S) where
  unfoldable pub read_sectors : (left fuel port buf : ℕ) → S → Bytes.Bytes → Run (S × Bytes.Bytes)
  read_sectors zero fuel port buf s m = ok (s, m)
  read_sectors (suc left) fuel port buf s m = do
    s₁ ← await_sector d fuel port s
    let (s₂, m') = read_words w 256 port buf s₁ m
    read_sectors left fuel port (add64 buf 512) s₂ m'

  unfoldable pub readsectorpio :
      (fuel lba count buffer disk : ℕ) → S → Bytes.Bytes → Run (S × Bytes.Bytes)
  unfolding poll start_transfer read_sectors
  readsectorpio fuel lba count buffer disk s m = do
    s₁ ← poll d fuel (port_of disk) bsy s
    read_sectors count fuel (port_of disk) buffer
        (start_transfer d (port_of disk) (select 0x40 0x50 disk) lba count read_command s₁) m
