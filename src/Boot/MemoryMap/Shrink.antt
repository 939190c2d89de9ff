-- ===== src/Boot/MemoryMap/Shrink.antt =====
-- Moving the descriptors together keeps each of them.
use flame_os.Base.{
  ℕ, zero, suc, ◌+◌, ◌*◌, ◌^◌, ◌<◌, ◌≤◌, ◌≡◌, refl, inl, inr, arith, ap, ◌∙◌, Bool-cases, ◌==◌,
  add64, if◌then◌else◌, ltb, leb, ◌&&◌, ◌-◌,
}
use flame_os.Libc.Bytes
use flame_os.Boot.Bytes.{copy_bytes, copy_bytes-at}
use flame_os.Boot.MemoryMap.{descriptor_size, read_bytes, descriptor_at, shrink_loop, shrink_memmap}

module _ (d : ℕ) (wide : descriptor_size ≤ d) where
  -- One round.
  shrink_loop-step :
      (n a₁ a₂ : ℕ) (m : Bytes.Bytes)
      → a₁ ≤ a₂
      → a₂ + suc n * d < 2 ^ 64
      → shrink_loop (suc n) d a₁ a₂ m
        ≡ shrink_loop n d (a₁ + descriptor_size) (a₂ + d) (copy_bytes a₁ a₂ descriptor_size m)
  unfolding shrink_loop
  shrink_loop-step n a₁ a₂ m le fits =
      let e : add64 a₁ descriptor_size ≡ a₁ + descriptor_size = omega arith in
      let e' : add64 a₂ d ≡ a₂ + d = omega arith in rw (e, e') refl

  copied :
      (n a₁ a₂ x : ℕ) (m : Bytes.Bytes)
      → a₁ ≤ a₂
      → a₂ + suc n * d < 2 ^ 64
      → copy_bytes a₁ a₂ descriptor_size m x
        ≡ (if leb a₁ x && ltb x (a₁ + descriptor_size) then m (a₂ + (x - a₁)) else m x)
  copied n a₁ a₂ x m le fits =
      copy_bytes-at a₁ a₂ descriptor_size m x (omega arith) (omega arith) (inl le)

  -- Bytes in front of the map stay.
  shrink_loop-before :
      (n a₁ a₂ x : ℕ) (m : Bytes.Bytes)
      → a₁ ≤ a₂
      → a₂ + n * d < 2 ^ 64
      → x < a₁
      → shrink_loop n d a₁ a₂ m x ≡ m x
  unfolding shrink_loop
  shrink_loop-before zero a₁ a₂ x m le fits lt = refl
  shrink_loop-before (suc n) a₁ a₂ x m le fits lt =
      ap (λ (f : Bytes.Bytes). f x) (shrink_loop-step n a₁ a₂ m le fits)
      ∙ shrink_loop-before n (a₁ + descriptor_size) (a₂ + d) x (copy_bytes a₁ a₂ descriptor_size m)
          (omega arith) (omega arith) (omega arith)
      ∙ copied n a₁ a₂ x m le fits
      ∙ ground arith

  -- Byte `k` of descriptor `i`: `x` is its place afterwards, and `y` its place before.
  shrink_loop-byte :
      (n i k a₁ a₂ x y : ℕ) (m : Bytes.Bytes)
      → a₁ ≤ a₂
      → a₂ + n * d < 2 ^ 64
      → i < n
      → k < descriptor_size
      → x ≡ a₁ + i * descriptor_size + k
      → y ≡ a₂ + i * d + k
      → shrink_loop n d a₁ a₂ m x ≡ m y
  shrink_loop-byte zero i k a₁ a₂ x y m le fits li lk ex ey = absurd (omega arith)
  shrink_loop-byte (suc n) zero k a₁ a₂ x y m le fits li lk ex ey =
      let same : a₂ + (x - a₁) ≡ y = omega arith in
      ap (λ (f : Bytes.Bytes). f x) (shrink_loop-step n a₁ a₂ m le fits)
      ∙ shrink_loop-before n (a₁ + descriptor_size) (a₂ + d) x (copy_bytes a₁ a₂ descriptor_size m)
          (omega arith) (omega arith) (omega arith)
      ∙ copied n a₁ a₂ x m le fits
      ∙ ground (arith, same)
  shrink_loop-byte (suc n) (suc i) k a₁ a₂ x y m le fits li lk ex ey =
      ap (λ (f : Bytes.Bytes). f x) (shrink_loop-step n a₁ a₂ m le fits)
      ∙ shrink_loop-byte n i k (a₁ + descriptor_size) (a₂ + d) x y
          (copy_bytes a₁ a₂ descriptor_size m) (omega arith) (omega arith) (omega arith) lk
          (omega arith) (omega arith)
      ∙ copied n a₁ a₂ y m le fits
      ∙ ground arith

-- Two memories that agree on a stretch of bytes.
abbrev Agree : (n : ℕ) → Bytes.Bytes → ℕ → Bytes.Bytes → ℕ → Type 0
Agree n m a m' a' = (k : ℕ) → k < n → m (a + k) ≡ m' (a' + k)

read_bytes-Agree :
    (n a a' : ℕ) (m m' : Bytes.Bytes) → Agree n m a m' a' → read_bytes m n a ≡ read_bytes m' n a'
read_bytes-Agree zero a a' m m' h = refl
read_bytes-Agree (suc n) a a' m m' h =
    let first : m a ≡ m' a' = ap m (omega arith) ∙ h 0 (omega arith) ∙ ap m' (omega arith) in
    let rest =
      read_bytes-Agree n (a + 1) (a' + 1) m m'
        λ k l. ap m (omega arith) ∙ h (suc k) (omega arith) ∙ ap m' (omega arith) in
    omega (arith, first, rest)

module _ (a a' : ℕ) (m m' : Bytes.Bytes) (h : Agree descriptor_size m a m' a') where
  field-Agree :
      (n o : ℕ) → o + n ≤ descriptor_size → read_bytes m n (a + o) ≡ read_bytes m' n (a' + o)
  field-Agree n o l =
      read_bytes-Agree n (a + o) (a' + o) m m'
        λ k lk. ap m (omega arith) ∙ h (o + k) (omega arith) ∙ ap m' (omega arith)

  descriptor_at-Agree : descriptor_at m a ≡ descriptor_at m' a'
  descriptor_at-Agree = λ i. record {
    type = read_bytes-Agree 4 a a' m m' (λ k l. h k (omega arith)) i;
    pad = field-Agree 4 4 (omega arith) i;
    physaddr = field-Agree 8 8 (omega arith) i;
    virtaddr = field-Agree 8 16 (omega arith) i;
    pages = field-Agree 8 24 (omega arith) i;
    attr = field-Agree 8 32 (omega arith) i;
  }

-- The loop that moves the descriptors together keeps each of them: the 40-byte descriptor `i` of the
-- map is afterwards the one that the firmware wrote at `i` times its own descriptor size, if that
-- is at least 40 and the map does not wrap.
pub shrink_memmap-descriptor :
    (n d base i : ℕ) (m : Bytes.Bytes)
    → descriptor_size ≤ d
    → base + n * d < 2 ^ 64
    → i < n
    → descriptor_at (shrink_memmap n d base m) (base + i * descriptor_size)
      ≡ descriptor_at m (base + i * d)
unfolding shrink_memmap
shrink_memmap-descriptor n d base i m wide fits li = elim (Bool-cases (d == descriptor_size)) [
  | inl same ↦ let e : d ≡ descriptor_size = ground arith in rw (same, e) refl
  | inr other ↦ rw other (
      descriptor_at-Agree (base + i * descriptor_size) (base + i * d) (shrink_loop n d base base m)
        m
        (λ k lk.
          shrink_loop-byte d wide n i k base base (base + i * descriptor_size + k)
            (base + i * d + k) m (omega arith) fits li lk refl refl))
]
