-- ===== src/Cpu/Idt.antt =====
-- kernel/arch/x86_64/cpu/ints/IDT.c: the interrupt descriptor table. The addresses of the handlers,
-- which the linker chooses, are a parameter; so is the device behind `remappic`. A write behind the
-- table is a fault.
pub mod Gates
use flame_os.Base.{
  ℕ, zero, suc, ◌+◌, ◌-◌, ◌*◌, Run, ok, fault, ◌>>=◌, ltb, ◌==◌, if◌then◌else◌, bit_and, ◌>>>◌,
}
use flame_os.Cpu.Io.{Device}
use flame_os.Cpu.Pic.{remappic}

abbrev pub ints : ℕ
ints = 0x30

-- `idt_entry`
pub record IdtEntry : Type 0 where
  pub offset1 : ℕ
  pub selector : ℕ
  pub ist : ℕ
  pub type : ℕ
  pub offset2 : ℕ
  pub offset3 : ℕ
  pub resv : ℕ

abbrev pub Table : Type 0
Table = ℕ → IdtEntry

pub data Handler : Type 0 where
  general_fault non_maskable_interrupt div_0_fault debug_fault breakpoint_fault overflow_fault :
      Handler
  bound_fault inv_opcode_fault no_device_fault double_fault inv_tss_fault no_segment_fault : Handler
  stack_fault gp_fault page_fault nop_master nop_slave : Handler

-- The entry that `addirq` writes.
abbrev pub gate : (off type : ℕ) → IdtEntry
gate off t = record {
  offset1 = bit_and off 0xffff;
  offset2 = bit_and (off >>> 16) 0xffff;
  offset3 = bit_and (off >>> 32) 0xffff_ffff;
  ist = 0;
  selector = 8;
  type = t;
  resv = 0;
}

abbrev pub set_gate : Table → ℕ → IdtEntry → Table
set_gate idt entry e i = if entry == i then e else idt i

unfoldable pub addirq : (entry offset type : ℕ) → Table → Run Table
addirq entry offset type idt =
    if ltb entry ints then ok (set_gate idt entry (gate offset type)) else fault

-- `for (i = first; …; ++i) addirq(i, offset, type)`, with the rounds that are left.
pub fill : (left i offset type : ℕ) → Table → Run Table
unfolding addirq
fill zero i offset type idt = ok idt
fill (suc left) i offset type idt = addirq i offset type idt >>= fill left (i + 1) offset type

-- `idt_ptr`
pub record IdtPtr : Type 0 where
  pub size : ℕ
  pub offset : ℕ

module _ (address : Handler → ℕ) where
  pub fill_idt : Table → Run Table
  unfolding fill addirq
  fill_idt idt =
      fill 0x20 0 (address general_fault) 0x8f idt
      >>= fill 8 0x20 (address nop_master) 0x8e
      >>= fill 8 0x28 (address nop_slave) 0x8e
      >>= addirq 0x0 (address div_0_fault) 0x8f
      >>= addirq 0x1 (address debug_fault) 0x8f
      >>= addirq 0x2 (address non_maskable_interrupt) 0x8f
      >>= addirq 0x3 (address breakpoint_fault) 0x8f
      >>= addirq 0x4 (address overflow_fault) 0x8f
      >>= addirq 0x5 (address bound_fault) 0x8f
      >>= addirq 0x6 (address inv_opcode_fault) 0x8f
      >>= addirq 0x7 (address no_device_fault) 0x8f
      >>= addirq 0x8 (address double_fault) 0x8f
      >>= addirq 0xa (address inv_tss_fault) 0x8f
      >>= addirq 0xb (address no_segment_fault) 0x8f
      >>= addirq 0xc (address stack_fault) 0x8f
      >>= addirq 0xd (address gp_fault) 0x8f
      >>= addirq 0xe (address page_fault) 0x8f

  -- `init_idt` up to the two instructions at its end: the table, what `lidt` loads (16 bytes for an
  -- entry), and the state of the device. The table is at address `base`.
  unfoldable pub init_idt :
      {S : Type 0} → Device S → (base : ℕ) → Table → S → Run (Table × IdtPtr × S)
  unfolding fill_idt
  init_idt d base idt s = do
    idt' ← fill_idt idt
    ok (idt', record { size = ints * 16 - 1; offset = base }, remappic d 0x20 0x28 s)
