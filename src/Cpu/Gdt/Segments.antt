-- ===== src/Cpu/Gdt/Segments.antt =====
-- What the processor reads from an entry that `gdtadd` has written.
use flame_os.Base.{
  ℕ, suc, ◌+◌, ◌*◌, ◌/◌, ◌%◌, ◌^◌, ◌<◌, ◌≡◌, ◌⊎◌, inl, inr, Bool-cases, refl, arith, Bool, true,
  false, ok, ltb, ◌==◌, if◌then◌else◌, u8, bit_and, bit_or,
}
use flame_os.Base.Bits.{bit_and_mask, bit_or_field}
use flame_os.Cpu.Gdt.{gdt_entries, GdtEntry, Gdt, segment, gdtadd}

-- The fields as the processor joins them: the base, the limit in pages, and the two flags of a segment
-- (4 KiB units with 64-bit code, or with 32-bit code).
abbrev pub entry_base : GdtEntry → ℕ
entry_base e = e.base1 + 2 ^ 16 * e.base2 + 2 ^ 24 * e.base3

abbrev pub entry_limit : GdtEntry → ℕ
entry_limit e = e.limit + 2 ^ 16 * (e.flags % 16)

flags_lem :
    (longcode : Bool) (n : ℕ)
    → bit_or (if longcode then 0xa0 else 0xc0) (bit_and n 0x0f)
      ≡ (if longcode then 0xa0 else 0xc0) + n % 16
flags_lem true n = rw (bit_and_mask 4 n) (bit_or_field 4 10 (n % 16) (omega arith))
flags_lem false n = rw (bit_and_mask 4 n) (bit_or_field 4 12 (n % 16) (omega arith))

segment_lem :
    (base size access : ℕ) (longcode : Bool)
    → base < 2 ^ 32
    → size < 2 ^ 32
    → (entry_base (segment base size access longcode) ≡ base)
      × (entry_limit (segment base size access longcode) ≡ size / 4096)
      × ((segment base size access longcode).flags / 16 ≡ (if longcode then 0xa else 0xc))
segment_lem base size access longcode b s = (
  omega
      (arith, bit_and_mask 16 base, bit_and_mask 8 (base / 2 ^ 16), bit_and_mask 8 (base / 2 ^ 24)),
  ground (arith, bit_and_mask 16 (size / 2 ^ 12), flags_lem longcode (size / 2 ^ 12 / 2 ^ 16)),
  ground (arith, flags_lem longcode (size / 2 ^ 12 / 2 ^ 16)),
)

abbrev written : (base size access : ℕ) (longcode : Bool) → Gdt → Gdt
written base size access longcode g = record {
  entries = λ i. if g.count == i then segment base size access longcode else g.entries i;
  count = u8 (g.count + 1);
}

elsewhere :
    (base size access : ℕ) (longcode : Bool) (g : Gdt) (i : ℕ)
    → (i ≡ g.count) ⊎ ((written base size access longcode g).entries i ≡ g.entries i)
elsewhere base size access longcode g i = elim (Bool-cases (g.count == i)) [
  | inl here ↦ inl (ground arith)
  | inr other ↦ inr (rw other refl)
]

-- `gdtadd` with room in the table writes the next entry and no other, and counts it. The processor
-- reads from it the base, the size in pages of 4 KiB, the access byte, and the flags of its kind, if
-- the base and the size are 32-bit numbers.
pub gdtadd-segment :
    (base size access : ℕ) (longcode : Bool) (g : Gdt) (i : ℕ)
    → base < 2 ^ 32
    → size < 2 ^ 32
    → g.count < gdt_entries
    → (g' : Gdt) × (gdtadd base size access longcode g ≡ ok g')
      × (g'.count ≡ suc g.count)
      × (entry_base (g'.entries g.count) ≡ base)
      × (entry_limit (g'.entries g.count) ≡ size / 4096)
      × ((g'.entries g.count).access ≡ access)
      × ((g'.entries g.count).flags / 16 ≡ (if longcode then 0xa else 0xc))
      × ((i ≡ g.count) ⊎ (g'.entries i ≡ g.entries i))
unfolding gdtadd
gdtadd-segment base size access longcode g i b s room =
    let room_left : ltb g.count gdt_entries ≡ true = ground arith in
    let here : (g.count == g.count) ≡ true = ground arith in
    let parts = segment_lem base size access longcode b s in
    (
      written base size access longcode g,
      rw room_left refl,
      omega arith,
      rw here parts.0,
      rw here parts.1,
      rw here refl,
      rw here parts.2,
      elsewhere base size access longcode g i,
    )
