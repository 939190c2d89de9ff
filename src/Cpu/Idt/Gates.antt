-- ===== src/Cpu/Idt/Gates.antt =====
-- Which handler each interrupt vector reaches.
use flame_os.Base.{
  ℕ, zero, suc, ◌+◌, ◌*◌, ◌/◌, true, ◌^◌, ◌≤◌, ◌<◌, ◌≡◌, refl, ap, ◌∙◌, arith, ok, ◌>>=◌, ltb, leb,
  ◌&&◌, ◌==◌, if◌then◌else◌,
}
use flame_os.Base.Bits.{bit_and_mask}
use flame_os.Cpu.Io.{Device}
use flame_os.Cpu.Pic.{remappic}
use flame_os.Cpu.Idt.{
  ints, IdtEntry, Table, Handler, general_fault, non_maskable_interrupt, div_0_fault, debug_fault,
  breakpoint_fault, overflow_fault, bound_fault, inv_opcode_fault, no_device_fault, double_fault,
  inv_tss_fault, no_segment_fault, stack_fault, gp_fault, page_fault, nop_master, nop_slave, gate,
  set_gate, addirq, fill, fill_idt, init_idt,
}

-- The offset that the processor reads from an entry.
abbrev pub entry_offset : IdtEntry → ℕ
entry_offset e = e.offset1 + 2 ^ 16 * e.offset2 + 2 ^ 32 * e.offset3

pub entry_offset-gate : (off type : ℕ) → off < 2 ^ 64 → entry_offset (gate off type) ≡ off
entry_offset-gate off type h =
    omega
      (arith, bit_and_mask 16 off, bit_and_mask 16 (off / 2 ^ 16), bit_and_mask 32 (off / 2 ^ 32))

abbrev filled : (left i offset type : ℕ) → Table → Table
filled zero i offset type idt = idt
filled (suc left) i offset type idt =
    filled left (i + 1) offset type (set_gate idt i (gate offset type))

filled_lem :
    (left i offset type : ℕ) (idt : Table) (j : ℕ)
    → filled left i offset type idt j
      ≡ (if leb i j && ltb j (i + left) then gate offset type else idt j)
filled_lem zero i offset type idt j = ground arith
filled_lem (suc left) i offset type idt j =
    ground (arith, filled_lem left (i + 1) offset type (set_gate idt i (gate offset type)) j)

fill_lem :
    (left i offset type : ℕ) (idt : Table)
    → i + left ≤ ints
    → fill left i offset type idt ≡ ok (filled left i offset type idt)
unfolding fill addirq
fill_lem zero i offset type idt h = refl
fill_lem (suc left) i offset type idt h =
    let small : ltb i ints ≡ true = ground arith in
    rw small (fill_lem left (i + 1) offset type (set_gate idt i (gate offset type)) (omega arith))

-- The handler of a vector, as the manuals of the processor and of the interrupt controller give it.
-- The processor's exceptions have a handler each, and 9 and the reserved ones the general one.
abbrev pub handler_of : ℕ → Handler
handler_of i =
    if i == 0
    then div_0_fault
    else if i == 1
    then debug_fault
    else if i == 2
    then non_maskable_interrupt
    else if i == 3
    then breakpoint_fault
    else if i == 4
    then overflow_fault
    else if i == 5
    then bound_fault
    else if i == 6
    then inv_opcode_fault
    else if i == 7
    then no_device_fault
    else if i == 8
    then double_fault
    else if i == 10
    then inv_tss_fault
    else if i == 11
    then no_segment_fault
    else if i == 12
    then stack_fault
    else if i == 13
    then gp_fault
    else if i == 14
    then page_fault
    else if ltb i 0x20
    then general_fault
    else if ltb i 0x28
    then nop_master
    else nop_slave

-- Exceptions are trap gates, and the requests of devices interrupt gates.
abbrev pub gate_type : ℕ → ℕ
gate_type i = if ltb i 0x20 then 0x8f else 0x8e

-- The writes of `init_idt` in their order, the last one first, at vector `i`.
module _ {E : Type 0} (f : Handler → ℕ → E) (i : ℕ) where
  loops_lem :
      (old : E)
      → i < ints
      → (if leb 0x28 i && ltb i (0x28 + 8)
          then f nop_slave 0x8e
          else if leb 0x20 i && ltb i (0x20 + 8)
          then f nop_master 0x8e
          else if leb 0 i && ltb i (0 + 0x20)
          then f general_fault 0x8f
          else old)
        ≡ f
            (if ltb i 0x20 then general_fault else if ltb i 0x28 then nop_master else nop_slave)
            (gate_type i)
  loops_lem old h = ground arith

  order_lem :
      (if 14 == i
        then f page_fault 0x8f
        else if 13 == i
        then f gp_fault 0x8f
        else if 12 == i
        then f stack_fault 0x8f
        else if 11 == i
        then f no_segment_fault 0x8f
        else if 10 == i
        then f inv_tss_fault 0x8f
        else if 8 == i
        then f double_fault 0x8f
        else if 7 == i
        then f no_device_fault 0x8f
        else if 6 == i
        then f inv_opcode_fault 0x8f
        else if 5 == i
        then f bound_fault 0x8f
        else if 4 == i
        then f overflow_fault 0x8f
        else if 3 == i
        then f breakpoint_fault 0x8f
        else if 2 == i
        then f non_maskable_interrupt 0x8f
        else if 1 == i
        then f debug_fault 0x8f
        else if 0 == i
        then f div_0_fault 0x8f
        else f
            (if ltb i 0x20 then general_fault else if ltb i 0x28 then nop_master else nop_slave)
            (gate_type i))
      ≡ f (handler_of i) (gate_type i)
  order_lem = ground arith

module _ (address : Handler → ℕ) where
  first_loops : Table → Table
  first_loops idt =
      filled 8 0x28 (address nop_slave) 0x8e
        (filled 8 0x20 (address nop_master) 0x8e (filled 0x20 0 (address general_fault) 0x8f idt))

  last_gates : Table → Table
  last_gates idt =
      set_gate
        (set_gate
          (set_gate
            (set_gate
              (set_gate
                (set_gate
                  (set_gate
                    (set_gate
                      (set_gate
                        (set_gate
                          (set_gate
                            (set_gate
                              (set_gate (set_gate (idt) 0 (gate (address div_0_fault) 0x8f)) 1
                                (gate (address debug_fault) 0x8f))
                              2 (gate (address non_maskable_interrupt) 0x8f))
                            3 (gate (address breakpoint_fault) 0x8f))
                          4 (gate (address overflow_fault) 0x8f))
                        5 (gate (address bound_fault) 0x8f))
                      6 (gate (address inv_opcode_fault) 0x8f))
                    7 (gate (address no_device_fault) 0x8f))
                  8 (gate (address double_fault) 0x8f))
                10 (gate (address inv_tss_fault) 0x8f))
              11 (gate (address no_segment_fault) 0x8f))
            12 (gate (address stack_fault) 0x8f))
          13 (gate (address gp_fault) 0x8f))
        14 (gate (address page_fault) 0x8f)

  fill_idt_lem : (idt : Table) → fill_idt address idt ≡ ok (last_gates (first_loops idt))
  unfolding fill_idt addirq fill last_gates first_loops
  fill_idt_lem idt = refl

  first_loops_lem :
      (idt : Table) (i : ℕ)
      → i < ints
      → first_loops idt i
        ≡ gate
            (address
              (if ltb i 0x20 then general_fault else if ltb i 0x28 then nop_master else nop_slave))
            (gate_type i)
  unfolding first_loops
  first_loops_lem idt i h =
      filled_lem 8 0x28 (address nop_slave) 0x8e
        (filled 8 0x20 (address nop_master) 0x8e (filled 0x20 0 (address general_fault) 0x8f idt)) i
      ∙ rw
          (
            filled_lem 8 0x20 (address nop_master) 0x8e
                (filled 0x20 0 (address general_fault) 0x8f idt) i,
            filled_lem 0x20 0 (address general_fault) 0x8f idt i,
          )
          (loops_lem (λ h t. gate (address h) t) i (idt i) h)

  gates_lem :
      (idt : Table) (i : ℕ)
      → i < ints
      → last_gates (first_loops idt) i ≡ gate (address (handler_of i)) (gate_type i)
  unfolding last_gates
  gates_lem idt i h = rw (first_loops_lem idt i h) (order_lem (λ h t. gate (address h) t) i)

  -- `init_idt` never writes behind the table. Afterwards each of the 48 vectors has its gate type and
  -- the code segment 8, and leads to the handler of its exception or request, if the handlers have
  -- addresses below 2 ^ 64; `lidt` gets the table's address and last byte, and the controllers are
  -- remapped to the vectors from 0x20 and 0x28.
  pub init_idt-gates :
      {S : Type 0} (d : Device S) (base : ℕ) (idt : Table) (s : S) (i : ℕ)
      → ((h : Handler) → address h < 2 ^ 64)
      → i < ints
      → (idt' : Table) × (init_idt address d base idt s
          ≡ ok (idt', record { size = 767; offset = base }, remappic d 0x20 0x28 s))
        × (entry_offset (idt' i) ≡ address (handler_of i))
        × ((idt' i).type ≡ gate_type i)
        × ((idt' i).selector ≡ 8)
  unfolding init_idt
  init_idt-gates d base idt s i low h = (
    last_gates (first_loops idt),
    ap (λ r. r >>= λ idt'. ok (idt', record { size = 767; offset = base }, remappic d 0x20 0x28 s))
        (fill_idt_lem idt),
    rw (gates_lem idt i h)
        (entry_offset-gate (address (handler_of i)) (gate_type i) (low (handler_of i))),
    rw (gates_lem idt i h) refl,
    rw (gates_lem idt i h) refl,
  )
