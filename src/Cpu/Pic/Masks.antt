-- ===== src/Cpu/Pic/Masks.antt =====
-- What maskirq and unmaskirq do to the mask registers of the interrupt controllers.
use flame_os.Base.{
  ℕ, zero, suc, ◌-◌, ◌^◌, ◌<◌, ◌≡◌, ◌∙◌, ap, arith, Bool-cases, inl, inr, ltb, ◌==◌, if◌then◌else◌,
  bit_and, bit_or, not32, u8, ◌<<<◌,
}
use flame_os.Base.Bits.Digit.{digit, digit-set_bit, digit-clear_bit}
use flame_os.Cpu.Io.{Device}
use flame_os.Cpu.Pic.{pic1_cmd, pic2_cmd, pic1_dat, pic2_dat, send, remappic, maskirq, unmaskirq}

-- What `remappic` sends to initialise the controllers: the four words for each of them.
abbrev pub initialise : {S : Type 0} → Device S → (master slave : ℕ) → S → S
initialise d master slave s =
    let s₁ = send d pic2_cmd 0x11 (send d pic1_cmd 0x11 s) in
    let s₂ = send d pic2_dat slave (send d pic1_dat master s₁) in
    let s₃ = send d pic2_dat 2 (send d pic1_dat 4 s₂) in send d pic2_dat 1 (send d pic1_dat 1 s₃)

-- A device with two controllers of the kind 8259A. While both are `ready`, that is, wait for no more words of an
-- initialisation, a data port reads and writes the controller's mask register, of 8 bits, and leaves the
-- other one alone. The four words of an initialisation make them ready, from any state.
pub record HasMasks {S : Type 0} (d : Device S) (ready : S → Type 0) (mask1 mask2 : S → ℕ)
    : Type 0 where
  pub read1 : (s : S) → ready s → (d.read pic1_dat s).0 ≡ mask1 s
  pub read2 : (s : S) → ready s → (d.read pic2_dat s).0 ≡ mask2 s
  pub read1_ready : (s : S) → ready s → ready (d.read pic1_dat s).1
  pub read2_ready : (s : S) → ready s → ready (d.read pic2_dat s).1
  pub read1_keeps : (s : S) → ready s → mask2 (d.read pic1_dat s).1 ≡ mask2 s
  pub read2_keeps : (s : S) → ready s → mask1 (d.read pic2_dat s).1 ≡ mask1 s
  pub write1 : (v : ℕ) (s : S) → ready s → mask1 (d.write pic1_dat v s) ≡ u8 v
  pub write2 : (v : ℕ) (s : S) → ready s → mask2 (d.write pic2_dat v s) ≡ u8 v
  pub write1_ready : (v : ℕ) (s : S) → ready s → ready (d.write pic1_dat v s)
  pub write2_ready : (v : ℕ) (s : S) → ready s → ready (d.write pic2_dat v s)
  pub write1_keeps : (v : ℕ) (s : S) → ready s → mask2 (d.write pic1_dat v s) ≡ mask2 s
  pub write2_keeps : (v : ℕ) (s : S) → ready s → mask1 (d.write pic2_dat v s) ≡ mask1 s
  pub initialised : (master slave : ℕ) (s : S) → ready (initialise d master slave s)

digit-u8 : (a i : ℕ) → i < 8 → digit (u8 a) i ≡ digit a i
digit-u8 a zero h = omega arith
digit-u8 a (suc zero) h = omega arith
digit-u8 a (suc (suc zero)) h = omega arith
digit-u8 a (suc (suc (suc zero))) h = omega arith
digit-u8 a (suc (suc (suc (suc zero)))) h = omega arith
digit-u8 a (suc (suc (suc (suc (suc zero))))) h = omega arith
digit-u8 a (suc (suc (suc (suc (suc (suc zero)))))) h = omega arith
digit-u8 a (suc (suc (suc (suc (suc (suc (suc zero))))))) h = omega arith
digit-u8 a (suc (suc (suc (suc (suc (suc (suc (suc i)))))))) h = absurd (omega arith)

byte_twice : (a : ℕ) → u8 (u8 a) ≡ u8 a
byte_twice a = omega arith

set_mask :
    (m b i : ℕ) → i < 8 → digit (u8 (bit_or m (1 <<< b))) i ≡ (if b == i then 1 else digit m i)
set_mask m b i h =
    let one : 1 <<< b ≡ 2 ^ b = omega arith in
    digit-u8 (bit_or m (1 <<< b)) i h ∙ rw one (digit-set_bit m b i)

clear_mask :
    (m b i : ℕ)
    → i < 8
    → digit (u8 (bit_and m (not32 (1 <<< b)))) i ≡ (if b == i then 0 else digit m i)
clear_mask m b i h =
    let one : 1 <<< b ≡ 2 ^ b = omega arith in
    digit-u8 (bit_and m (not32 (1 <<< b))) i h ∙ rw one (digit-clear_bit m b i (omega arith))

-- 1 if request `i` is masked.
abbrev pub masked : {S : Type 0} → (mask1 mask2 : S → ℕ) → S → ℕ → ℕ
masked mask1 mask2 s i = if ltb i 8 then digit (mask1 s) i else digit (mask2 s) (i - 8)

module _ {S : Type 0} (d : Device S) (ready : S → Type 0) (mask1 mask2 : S → ℕ)
    (law : HasMasks d ready mask1 mask2) where
  -- On controllers that are ready, `maskirq` of one of the 16 requests masks it and changes no other.
  pub maskirq-masked :
      (irq i : ℕ) (s : S)
      → ready s
      → irq < 16
      → i < 16
      → masked mask1 mask2 (maskirq d irq s) i ≡ (if irq == i then 1 else masked mask1 mask2 s i)
  unfolding maskirq
  maskirq-masked irq i s r h h' = elim (Bool-cases (ltb irq 8)) [
    | inl low ↦
        let r' = law.read1_ready s r in
        rw
          (
            low,
            law.read1 s r,
            law.write1 _ _ r',
            law.write1_keeps _ _ r',
            law.read1_keeps s r,
            byte_twice,
          )
          (ground (arith, set_mask (mask1 s) irq i))
    | inr high ↦
        let r' = law.read2_ready s r in
        rw
          (
            high,
            law.read2 s r,
            law.write2 _ _ r',
            law.write2_keeps _ _ r',
            law.read2_keeps s r,
            byte_twice,
          )
          (ground (arith, set_mask (mask2 s) (irq - 8) (i - 8)))
  ]

  -- On controllers that are ready, `unmaskirq` of one of the 16 requests unmasks it and changes no
  -- other.
  pub unmaskirq-masked :
      (irq i : ℕ) (s : S)
      → ready s
      → irq < 16
      → i < 16
      → masked mask1 mask2 (unmaskirq d irq s) i ≡ (if irq == i then 0 else masked mask1 mask2 s i)
  unfolding unmaskirq
  unmaskirq-masked irq i s r h h' = elim (Bool-cases (ltb irq 8)) [
    | inl low ↦
        let r' = law.read1_ready s r in
        rw
          (
            low,
            law.read1 s r,
            law.write1 _ _ r',
            law.write1_keeps _ _ r',
            law.read1_keeps s r,
            byte_twice,
          )
          (ground (arith, clear_mask (mask1 s) irq i))
    | inr high ↦
        let r' = law.read2_ready s r in
        rw
          (
            high,
            law.read2 s r,
            law.write2 _ _ r',
            law.write2_keeps _ _ r',
            law.read2_keeps s r,
            byte_twice,
          )
          (ground (arith, clear_mask (mask2 s) (irq - 8) (i - 8)))
  ]

  -- `remappic` initialises the controllers and puts the masks back that it has read.
  pub remappic-ready : (master slave : ℕ) (s : S) → ready (remappic d master slave s)
  unfolding remappic
  remappic-ready master slave s =
      law.write2_ready _ _ (law.write1_ready _ _ (law.initialised master slave _))

  -- From controllers that are ready, `remappic` keeps the masks.
  pub remappic-masked :
      (master slave i : ℕ) (s : S)
      → ready s
      → i < 16
      → masked mask1 mask2 (remappic d master slave s) i ≡ masked mask1 mask2 s i
  unfolding remappic
  remappic-masked master slave i s r h =
      let r₁ = law.read1_ready s r in
      let s₁ : S = (d.read pic1_dat s).1 in
      let s₂ : S = initialise d master slave (d.read pic2_dat s₁).1 in
      let r₂ = law.initialised master slave (d.read pic2_dat s₁).1 in
      let m₁ = (d.read pic1_dat s).0 in
      let r₃ = law.write1_ready m₁ s₂ r₂ in
      let e₁ : mask1 (remappic d master slave s) ≡ u8 (mask1 s) =
        law.write2_keeps _ _ r₃ ∙ law.write1 m₁ s₂ r₂ ∙ ap u8 (law.read1 s r) in
      let e₂ : mask2 (remappic d master slave s) ≡ u8 (mask2 s) =
        law.write2 _ _ r₃ ∙ ap u8 (law.read2 s₁ r₁ ∙ law.read1_keeps s r) in
      ground (arith, e₁, e₂, digit-u8 (mask1 s) i, digit-u8 (mask2 s) (i - 8))
