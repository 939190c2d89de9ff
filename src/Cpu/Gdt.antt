-- ===== src/Cpu/Gdt.antt =====
-- kernel/arch/x86_64/cpu/GDT/GDT.c: the global descriptor table. A write behind the table is a fault.
pub mod Segments
use flame_os.Base.{
  ℕ, ◌+◌, ◌-◌, ◌*◌, Bool, true, false, Run, ok, fault, ◌>>=◌, ltb, ◌==◌, if◌then◌else◌, u8, u16,
  bit_and, bit_or, ◌>>>◌,
}

-- ENTRIES
abbrev pub gdt_entries : ℕ
gdt_entries = 8

-- `gdt_entry`
pub record GdtEntry : Type 0 where
  pub limit : ℕ
  pub base1 : ℕ
  pub base2 : ℕ
  pub access : ℕ
  pub flags : ℕ
  pub base3 : ℕ

-- The table `GDT` and the counter `GDT_entry`.
pub record Gdt : Type 0 where
  pub entries : ℕ → GdtEntry
  pub count : ℕ

-- The entry that `gdtadd` writes.
abbrev pub segment : (base size access : ℕ) (longcode : Bool) → GdtEntry
segment base size acc longcode =
    let size' = size >>> 12 in
    record {
      base1 = bit_and base 0xffff;
      base2 = bit_and (base >>> 16) 0xff;
      base3 = bit_and (base >>> 24) 0xff;
      limit = bit_and size' 0xffff;
      flags = bit_or (if longcode then 0xa0 else 0xc0) (bit_and (size' >>> 16) 0x0f);
      access = acc;
    }

unfoldable pub gdtadd : (base size access : ℕ) (longcode : Bool) → Gdt → Run Gdt
gdtadd base size access longcode g =
    if ltb g.count gdt_entries
    then ok (record {
      entries = λ i. if g.count == i then segment base size access longcode else g.entries i;
      count = u8 (g.count + 1);
    })
    else fault

-- `init_gdt` up to the instructions at its end: the table, and the size that `lgdt` loads (8 bytes for
-- an entry).
unfoldable pub init_gdt : Gdt → Run (Gdt × ℕ)
unfolding gdtadd
init_gdt g =
    gdtadd 0 0 0 false g
    >>= gdtadd 0 0xffff_ffff 0x9a true
    >>= gdtadd 0 0xffff_ffff 0x92 false
    >>= gdtadd 0 0 0 false
    >>= gdtadd 0 0xffff_ffff 0xf2 false
    >>= gdtadd 0 0xffff_ffff 0xfa true
    >>= λ g'. ok (g', gdt_entries * 8 - 1)
