-- ===== src/Cpu/Pic.antt =====
-- kernel/arch/x86_64/cpu/ints/PIC.c, over a device with the ports of the two interrupt controllers.
pub mod Masks
use flame_os.Base.{ℕ, ◌+◌, ◌-◌, Bool, ltb, if◌then◌else◌, bit_and, bit_or, not32, u8, ◌<<<◌}
use flame_os.Cpu.Io.{Device, inb, outb, iowait}

abbrev pub pic1_cmd : ℕ
pic1_cmd = 0x20

abbrev pub pic1_dat : ℕ
pic1_dat = 0x21

abbrev pub pic2_cmd : ℕ
pic2_cmd = 0xa0

abbrev pub pic2_dat : ℕ
pic2_dat = 0xa1

abbrev pub eoi : ℕ
eoi = 0x20

module _ {S : Type 0} (d : Device S) where
  unfoldable pub piceoi : Bool → S → S
  piceoi isslave s = outb d pic1_cmd eoi (if isslave then outb d pic2_cmd eoi s else s)

  -- `outb(port, value); iowait();`
  abbrev pub send : (port value : ℕ) → S → S
  send port value s = iowait d (outb d port value s)

  unfoldable pub remappic : (master slave : ℕ) → S → S
  remappic master slave s =
      let (mm, s₁) = inb d pic1_dat s in
      let (sm, s₂) = inb d pic2_dat s₁ in
      let s₃ = send pic2_cmd 0x11 (send pic1_cmd 0x11 s₂) in
      let s₄ = send pic2_dat slave (send pic1_dat master s₃) in
      let s₅ = send pic2_dat 2 (send pic1_dat 4 s₄) in
      let s₆ = send pic2_dat 1 (send pic1_dat 1 s₅) in outb d pic2_dat sm (outb d pic1_dat mm s₆)

  unfoldable pub maskirq : ℕ → S → S
  maskirq irq s =
      if ltb irq 8
      then (let (mask, s') = inb d pic1_dat s in outb d pic1_dat (u8 (bit_or mask (1 <<< irq))) s')
      else (let (mask, s') = inb d pic2_dat s in
          outb d pic2_dat (u8 (bit_or mask (1 <<< (irq - 8)))) s')

  unfoldable pub unmaskirq : ℕ → S → S
  unmaskirq irq s =
      if ltb irq 8
      then (let (mask, s') = inb d pic1_dat s in
          outb d pic1_dat (u8 (bit_and mask (not32 (1 <<< irq)))) s')
      else (let (mask, s') = inb d pic2_dat s in
          outb d pic2_dat (u8 (bit_and mask (not32 (1 <<< (irq - 8))))) s')
