-- ===== src/Disk/Pio/Address.antt =====
-- Which sectors the ten writes of a transfer ask for.
use mathlib.Core.Path.{ap₂}
use flame_os.Base.{
  ap, Bool, true, Bool-cases, inl, inr, ◌&&◌, leb, ◌==◌, if◌then◌else◌, List, [], ◌∷◌, ℕ, ◌+◌, ◌*◌,
  ◌%◌, ◌^◌, ◌≡◌, ◌≢◌, ◌≤◌, refl, ◌∙◌, arith, u8, ◌>>>◌,
}
use flame_os.Cpu.Io.{Device}
use flame_os.Disk.Pio.{send_address, start_transfer, dhr, sec, lba_lo, lba_mid, lba_hi, cmd}

-- The registers from `sec` to `lba_hi` of a disk with 48-bit addresses keep two values: a write puts the
-- new one in front of the one that was written before it. The writes of a transfer's other two
-- registers leave them alone; `after` relates what they hold before and after the command.
pub record HasTaskFile {S : Type 0} (d : Device S) (port : ℕ) (now old : S → ℕ → ℕ) : Type 0 where
  pub written : (r v : ℕ) (s : S) → sec ≤ r → r ≤ lba_hi → now (d.write (port + r) v s) r ≡ v
  pub pushed : (r v : ℕ) (s : S) → sec ≤ r → r ≤ lba_hi → old (d.write (port + r) v s) r ≡ now s r
  pub other_now :
      (r q v : ℕ) (s : S) → sec ≤ r → r ≤ cmd → r ≢ q → now (d.write (port + r) v s) q ≡ now s q
  pub other_old :
      (r q v : ℕ) (s : S) → sec ≤ r → r ≤ cmd → r ≢ q → old (d.write (port + r) v s) q ≡ old s q

-- Writes as a list of registers and values.
abbrev Writes : Type 0
Writes = List (ℕ × ℕ)

abbrev all : Writes → Bool
all [] = true
all ((r, v) ∷ ws) = leb sec r && leb r cmd && all ws

-- The two values of register `q` after the writes.
abbrev track : Writes → (q now old : ℕ) → ℕ × ℕ
track [] q x y = (x, y)
track ((r, v) ∷ ws) q x y = track ws q (if r == q then v else x) (if r == q then x else y)

module _ {S : Type 0} (d : Device S) (port : ℕ) where
  send_all : Writes → S → S
  send_all [] s = s
  send_all ((r, v) ∷ ws) s = send_all ws (d.write (port + r) v s)

module _ {S : Type 0} (d : Device S) (port : ℕ) (now old : S → ℕ → ℕ)
    (law : HasTaskFile d port now old) where
  write-now :
      (r q v : ℕ) (s : S)
      → (leb sec r && leb r cmd) ≡ true
      → (leb sec q && leb q lba_hi) ≡ true
      → now (d.write (port + r) v s) q ≡ (if r == q then v else now s q)
  write-now r q v s h h' = elim (Bool-cases (r == q)) [
    | inr other ↦ rw other (law.other_now r q v s (ground arith) (ground arith) (λ e. ground arith))
    | inl same ↦
        let e : r ≡ q = ground arith in
        rw (same, ← e) (law.written r v s (ground arith) (ground arith))
  ]

  write-old :
      (r q v : ℕ) (s : S)
      → (leb sec r && leb r cmd) ≡ true
      → (leb sec q && leb q lba_hi) ≡ true
      → old (d.write (port + r) v s) q ≡ (if r == q then now s q else old s q)
  write-old r q v s h h' = elim (Bool-cases (r == q)) [
    | inr other ↦ rw other (law.other_old r q v s (ground arith) (ground arith) (λ e. ground arith))
    | inl same ↦
        let e : r ≡ q = ground arith in
        rw (same, ← e) (law.pushed r v s (ground arith) (ground arith))
  ]

  send_all-track :
      (ws : Writes) (q : ℕ) (s : S)
      → all ws ≡ true
      → (leb sec q && leb q lba_hi) ≡ true
      → ((now (send_all d port ws s) q, old (send_all d port ws s) q))
        ≡ track ws q (now s q) (old s q)
  unfolding send_all
  send_all-track [] q s h h' = refl
  send_all-track ((r, v) ∷ ws) q s h h' =
      send_all-track ws q (d.write (port + r) v s) (ground arith) h'
      ∙ ap₂ (λ x y. track ws q x y) (write-now r q v s (ground arith) h')
          (write-old r q v s (ground arith) h')

module _ {S : Type 0} (d : Device S) (port : ℕ) (now old : S → ℕ → ℕ) where
  -- The first sector and the number of sectors that the registers hold, as the ATA standard reads
  -- them.
  abbrev pub first_sector : S → ℕ
  first_sector s =
      now s lba_lo
      + 2 ^ 8 * now s lba_mid
      + 2 ^ 16 * now s lba_hi
      + 2 ^ 24 * old s lba_lo
      + 2 ^ 32 * old s lba_mid
      + 2 ^ 40 * old s lba_hi

  abbrev pub sector_count : S → ℕ
  sector_count s = now s sec + 2 ^ 8 * old s sec

  module _ (law : HasTaskFile d port now old) where
    -- The writes that start a transfer leave the 48 low bits of the sector's number and the 16 bits
    -- of the count in the registers of the disk.
    pub start_transfer-address :
        (outcmd lba count command : ℕ) (s : S)
        → (first_sector (start_transfer d port outcmd lba count command s) ≡ lba % 2 ^ 48)
          × (sector_count (start_transfer d port outcmd lba count command s) ≡ count % 2 ^ 16)
    unfolding start_transfer send_address send_all
    start_transfer-address outcmd lba count command s =
        let ws : Writes =
          (dhr, outcmd)
          ∷ (sec, u8 (count >>> 8))
          ∷ (lba_lo, u8 (lba >>> 24))
          ∷ (lba_mid, u8 (lba >>> 32))
          ∷ (lba_hi, u8 (lba >>> 40))
          ∷ (sec, u8 count)
          ∷ (lba_lo, u8 lba)
          ∷ (lba_mid, u8 (lba >>> 8))
          ∷ (lba_hi, u8 (lba >>> 16))
          ∷ (cmd, command)
          ∷ [] in
        let at = λ (q : ℕ) (h : (leb sec q && leb q lba_hi) ≡ true).
          send_all-track d port now old law ws q s refl h in
        let n =
          λ (q : ℕ) (h : (leb sec q && leb q lba_hi) ≡ true). ap (λ (t : ℕ × ℕ). t.0) (at q h) in
        let o =
          λ (q : ℕ) (h : (leb sec q && leb q lba_hi) ≡ true). ap (λ (t : ℕ × ℕ). t.1) (at q h) in
        (
          omega (arith, n 3 refl, n 4 refl, n 5 refl, o 3 refl, o 4 refl, o 5 refl),
          omega (arith, n 2 refl, o 2 refl),
        )
