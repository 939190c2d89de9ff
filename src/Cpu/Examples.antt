-- ===== src/Cpu/Examples.antt =====
-- The theorems on the processor's tables and controllers at concrete arguments.
use flame_os.Base.{
  bit_and, u8, List, [], ◌∷◌, ℕ, zero, suc, ◌/◌, ◌≡◌, ◌⊎◌, refl, arith, ok, true, ◌==◌,
  if◌then◌else◌,
}
use flame_os.Cpu.Io.{Device}
use flame_os.Cpu.Pic.{remappic}
use flame_os.Cpu.Pic.Masks.{HasMasks, masked}
use flame_os.Cpu.Idt.{Handler, page_fault, Table, gate, init_idt}
use flame_os.Cpu.Idt.Gates.{entry_offset, handler_of, gate_type, init_idt-gates}
use flame_os.Cpu.Gdt.{Gdt, GdtEntry, gdtadd}
use flame_os.Cpu.Gdt.Segments.{entry_base, entry_limit, gdtadd-segment}
use flame_os.Cpu.Start.{TimerApart, init_interrupts, init_interrupts-timer}
use flame_os.Cpu.Faults.{Handled, handle, handle-Handled}

-- A controller of the kind 8259A: its mask register, and how many words of an initialisation it waits
-- for. A command with bit 4 starts one and clears the mask.
pub record Controller : Type 0 where
  pub mask : ℕ
  pub waits : ℕ

abbrev commanded : ℕ → Controller → Controller
commanded v c = if bit_and v 0x10 == 0 then c else record { mask = 0; waits = 3 }

abbrev after_word : ℕ → Controller → ℕ → Controller
after_word v c zero = record c { mask = u8 v }
after_word v c (suc n) = record c { waits = n }

abbrev written : ℕ → Controller → Controller
written v c = after_word v c c.waits

abbrev pair : Device (Controller × Controller)
pair = record {
  read = λ port s.
      if port == 0x21 then (s.0.mask, s) else if port == 0xa1 then (s.1.mask, s) else (0, s);
  write = λ port v s.
      if port == 0x20
      then (commanded v s.0, s.1)
      else if port == 0x21
      then (written v s.0, s.1)
      else if port == 0xa0
      then (s.0, commanded v s.1)
      else if port == 0xa1
      then (s.0, written v s.1)
      else s;
}

abbrev Ready : Controller × Controller → Type 0
Ready s = (s.0.waits ≡ 0) × (s.1.waits ≡ 0)

abbrev first_mask : Controller × Controller → ℕ
first_mask s = s.0.mask

abbrev second_mask : Controller × Controller → ℕ
second_mask s = s.1.mask

pair-HasMasks : HasMasks pair Ready first_mask second_mask
pair-HasMasks = record {
  read1 = λ s r. refl;
  read2 = λ s r. refl;
  read1_ready = λ s r. r;
  read2_ready = λ s r. r;
  read1_keeps = λ s r. refl;
  read2_keeps = λ s r. refl;
  write1 = λ v s r. rw r.0 refl;
  write2 = λ v s r. rw r.1 refl;
  write1_ready = λ v s r. (rw r.0 refl, r.1);
  write2_ready = λ v s r. (r.0, rw r.1 refl);
  write1_keeps = λ v s r. refl;
  write2_keeps = λ v s r. refl;
  initialised = λ master slave s. (refl, refl);
}

abbrev open_masks : Controller × Controller
open_masks = (record { mask = 0xb8; waits = 0 }, record { mask = 0x8e; waits = 0 })

abbrev address : Handler → ℕ
address _ = 0x10_0000_2000

abbrev no_gates : Table
no_gates _ = gate 0 0

init_idt-gates_example :
    (idt : Table) × (init_idt address pair 0x10_0000_0000 no_gates open_masks
      ≡ ok
          (idt, record { size = 767; offset = 0x10_0000_0000 }, remappic pair 0x20 0x28 open_masks))
    × (entry_offset (idt 14) ≡ address (handler_of 14))
    × ((idt 14).type ≡ gate_type 14)
    × ((idt 14).selector ≡ 8)
init_idt-gates_example =
    init_idt-gates address pair 0x10_0000_0000 no_gates open_masks 14 (λ h. omega arith)
      (omega arith)

abbrev no_entry : GdtEntry
no_entry = record { limit = 0; base1 = 0; base2 = 0; access = 0; flags = 0; base3 = 0 }

abbrev no_segments : Gdt
no_segments = record { entries = λ _. no_entry; count = 1 }

gdtadd-segment_example :
    (g : Gdt) × (gdtadd 0 0xffff_ffff 0x9a true no_segments ≡ ok g)
    × (g.count ≡ suc 1)
    × (entry_base (g.entries 1) ≡ 0)
    × (entry_limit (g.entries 1) ≡ 0xffff_ffff / 4096)
    × ((g.entries 1).access ≡ 0x9a)
    × ((g.entries 1).flags / 16 ≡ (if true then 0xa else 0xc))
    × ((zero ≡ no_segments.count) ⊎ (g.entries zero ≡ no_entry))
gdtadd-segment_example =
    gdtadd-segment 0 0xffff_ffff 0x9a true no_segments zero (omega arith) (omega arith)
      (omega arith)

pair-TimerApart : TimerApart pair Ready first_mask second_mask
pair-TimerApart = record {
  command_ready = λ v s r. r;
  command1 = λ v s r. refl;
  command2 = λ v s r. refl;
  channel_ready = λ v s r. r;
  channel1 = λ v s r. refl;
  channel2 = λ v s r. refl;
}

-- The vector of the timer, and the request of the keyboard.
init_interrupts-timer_example :
    (idt' : Table) × (s' : Controller × Controller) × (init_interrupts address pair 0x5000 0x6000
        no_gates open_masks
      ≡ ok (idt', record { size = 767; offset = 0x5000 }, s'))
    × (entry_offset (idt' 0x20) ≡ (if 0x20 == 0x20 then 0x6000 else address (handler_of 0x20)))
    × ((idt' 0x20).type ≡ gate_type 0x20)
    × (masked first_mask second_mask s' 1
        ≡ (if 1 == 0 then 0 else masked first_mask second_mask open_masks 1))
init_interrupts-timer_example =
    init_interrupts-timer address pair Ready first_mask second_mask pair-HasMasks pair-TimerApart
      0x5000 0x6000 no_gates open_masks 0x20 1 (λ h. omega arith) (omega arith) (refl, refl)
      (omega arith) (omega arith)

abbrev buffer : ℕ → List ℕ
buffer zero = []
buffer (suc n) = 7 ∷ buffer n

handle-Handled_example :
    Handled pair 0xe
      (buffer 21)
      open_masks
      page_fault
      (handle pair page_fault 0xe (buffer 21) open_masks)
handle-Handled_example =
    handle-Handled pair 0xe (buffer 21) open_masks (omega arith) refl page_fault
