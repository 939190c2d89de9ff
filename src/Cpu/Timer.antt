-- ===== src/Cpu/Timer.antt =====
-- kernel/arch/x86_64/cpu/ints/timer/PIT.c: init_timer.
use flame_os.Base.{ℕ, ◌/◌, Run, ok, ◌>>=◌, bit_and, u8, ◌>>>◌}
use flame_os.Cpu.Io.{Device, outb}
use flame_os.Cpu.Pic.{unmaskirq}
use flame_os.Cpu.Idt.{Table, addirq}

abbrev pub hz : ℕ
hz = 1000

-- `pitirq` is the address of the handler.
unfoldable pub init_timer : {S : Type 0} → Device S → (pitirq : ℕ) → Table → S → Run (Table × S)
unfolding addirq unmaskirq
init_timer d pitirq idt s = do
  let div = 1193180 / hz
  let s₁ = outb d 0x43 0x36 s
  let s₂ = outb d 0x40 (bit_and div 0xff) s₁
  let s₃ = outb d 0x40 (u8 (div >>> 8)) s₂
  idt' ← addirq 0x20 pitirq 0x8e idt
  ok (idt', unmaskirq d 0 s₃)
