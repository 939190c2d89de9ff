-- ===== src/Cpu/Start.antt =====
-- kernel/arch/x86_64/init.c: the interrupts are set up by init_idt and then init_timer.
use flame_os.Base.{
  ℕ, ◌^◌, ◌<◌, ◌≡◌, refl, ◌∙◌, arith, Bool-cases, inl, inr, Run, ok, ◌>>=◌, true, false, ◌==◌,
  if◌then◌else◌,
}
use flame_os.Cpu.Io.{Device}
use flame_os.Cpu.Pic.{remappic, unmaskirq}
use flame_os.Cpu.Pic.Masks.{HasMasks, masked, unmaskirq-masked, remappic-ready, remappic-masked}
use flame_os.Cpu.Idt.{ints, Table, Handler, IdtPtr, init_idt, addirq, set_gate, gate}
use flame_os.Cpu.Idt.Gates.{entry_offset, handler_of, gate_type, init_idt-gates, entry_offset-gate}
use flame_os.Cpu.Timer.{init_timer}

-- `pitirq` is the address of the timer's handler.
unfoldable pub init_interrupts :
    {S : Type 0}
    → (address : Handler → ℕ) → Device S
    → (base pitirq : ℕ) → Table
    → S
    → Run (Table × IdtPtr × S)
unfolding init_timer
init_interrupts address d base pitirq idt s = do
  t ← init_idt address d base idt s
  u ← init_timer d pitirq t.0 t.2
  ok (u.0, t.1, u.1)

-- The ports of the timer do not reach the controllers.
pub record TimerApart {S : Type 0} (d : Device S) (ready : S → Type 0) (mask1 mask2 : S → ℕ)
    : Type 0 where
  pub command_ready : (v : ℕ) (s : S) → ready s → ready (d.write 0x43 v s)
  pub command1 : (v : ℕ) (s : S) → ready s → mask1 (d.write 0x43 v s) ≡ mask1 s
  pub command2 : (v : ℕ) (s : S) → ready s → mask2 (d.write 0x43 v s) ≡ mask2 s
  pub channel_ready : (v : ℕ) (s : S) → ready s → ready (d.write 0x40 v s)
  pub channel1 : (v : ℕ) (s : S) → ready s → mask1 (d.write 0x40 v s) ≡ mask1 s
  pub channel2 : (v : ℕ) (s : S) → ready s → mask2 (d.write 0x40 v s) ≡ mask2 s

module _ {S : Type 0} (address : Handler → ℕ) (d : Device S) (ready : S → Type 0)
    (mask1 mask2 : S → ℕ) (law : HasMasks d ready mask1 mask2)
    (apart : TimerApart d ready mask1 mask2) where
  -- On a device with two controllers of the kind 8259A, which are ready and which the ports of the timer do
  -- not reach, `init_idt` and then `init_timer` leave the vector of the timer leading to its handler and
  -- each of the other 47 to that of its exception or request, each with its gate type, if the
  -- handlers have addresses below 2 ^ 64. Of the 16 requests the timer's is then unmasked, and each of
  -- the others is masked or not as it was before the controllers were initialised anew.
  pub init_interrupts-timer :
      (base pitirq : ℕ) (idt : Table) (s : S) (i irq : ℕ)
      → ((h : Handler) → address h < 2 ^ 64)
      → pitirq < 2 ^ 64
      → ready s
      → i < ints
      → irq < 16
      → (idt' : Table) × (s' : S) × (init_interrupts address d base pitirq idt s
          ≡ ok (idt', record { size = 767; offset = base }, s'))
        × (entry_offset (idt' i) ≡ (if i == 0x20 then pitirq else address (handler_of i)))
        × ((idt' i).type ≡ gate_type i)
        × (masked mask1 mask2 s' irq ≡ (if irq == 0 then 0 else masked mask1 mask2 s irq))
  unfolding init_interrupts init_timer addirq
  init_interrupts-timer base pitirq idt s i irq low low' r h h' =
      let (idt₁, e, offset, type, _) = init_idt-gates address d base idt s i low h in
      let t₀ : S = remappic d 0x20 0x28 s in
      let t₁ : S = d.write 0x43 0x36 t₀ in
      let t₂ : S = d.write 0x40 169 t₁ in
      let t₃ : S = d.write 0x40 4 t₂ in
      let r₀ = remappic-ready d ready mask1 mask2 law 0x20 0x28 s in
      let r₁ = apart.command_ready 0x36 t₀ r₀ in
      let r₂ = apart.channel_ready 169 t₁ r₁ in
      let first : mask1 t₃ ≡ mask1 t₀ =
        apart.channel1 4 t₂ r₂ ∙ apart.channel1 169 t₁ r₁ ∙ apart.command1 0x36 t₀ r₀ in
      let second : mask2 t₃ ≡ mask2 t₀ =
        apart.channel2 4 t₂ r₂ ∙ apart.channel2 169 t₁ r₁ ∙ apart.command2 0x36 t₀ r₀ in
      let kept : masked mask1 mask2 t₃ irq ≡ masked mask1 mask2 s irq =
        rw (first, second) (remappic-masked d ready mask1 mask2 law 0x20 0x28 irq s r h') in
      (
        set_gate idt₁ 0x20 (gate pitirq 0x8e),
        unmaskirq d 0 t₃,
        rw e refl,
        elim (Bool-cases (0x20 == i)) [
          | inl timer ↦
              let same : (i == 0x20) ≡ true = ground arith in
              rw (timer, same) (entry_offset-gate pitirq 0x8e low')
          | inr other ↦
              let differs : (i == 0x20) ≡ false = ground arith in rw (other, differs) offset
        ],
        elim (Bool-cases (0x20 == i)) [
          | inl timer ↦ let same : i ≡ 0x20 = ground arith in rw (timer, same) refl
          | inr other ↦ rw other type
        ],
        unmaskirq-masked d ready mask1 mask2 law 0 irq t₃ (apart.channel_ready 4 t₂ r₂)
              (omega arith) h'
            ∙ elim (Bool-cases (0 == irq)) [
              | inl zeroth ↦ let same : (irq == 0) ≡ true = ground arith in rw (zeroth, same) refl
              | inr other ↦
                  let differs : (irq == 0) ≡ false = ground arith in rw (other, differs) kept
            ],
      )
