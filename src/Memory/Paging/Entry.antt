-- ===== src/Memory/Paging/Entry.antt =====
-- Page table entries and indices as arithmetic.
use flame_os.Base.{
  ℕ, ◌+◌, ◌-◌, ◌*◌, ◌/◌, ◌%◌, ◌^◌, ◌<◌, ◌≡◌, true, false, arith, bit_and, bit_or, ap, ◌∙◌, sym,
}
use flame_os.Base.Bits.{bit_and_mask, bit_and_high, bit_or_field}
use flame_os.Memory.Phys.{page_size}
use flame_os.Memory.Paging.{
  addr_mask, flags, present, entry_addr, make_entry, pml4_idx, pdpt_idx, pd_idx, pt_idx,
}

masked : (a : ℕ) → bit_and a addr_mask ≡ a / 2 ^ 12 % 2 ^ 40 * 2 ^ 12
masked a =
    let e : a ≡ a / 2 ^ 12 * 2 ^ 12 + a % 2 ^ 12 = omega arith in
    ap (λ (t : ℕ). bit_and t addr_mask) e
    ∙ bit_and_high 12 (a / 2 ^ 12) (a % 2 ^ 12) (2 ^ 40 - 1) (omega arith)
    ∙ ap (λ (t : ℕ). t * 2 ^ 12) (bit_and_mask 40 (a / 2 ^ 12))

bit_or_field_at : (a : ℕ) → a % 2 ^ 12 ≡ 0 → bit_or a flags ≡ a + 7
bit_or_field_at a h =
    let e : a ≡ a / 2 ^ 12 * 2 ^ 12 = omega arith in
    ap (λ (t : ℕ). bit_or t flags) e
    ∙ bit_or_field 12 (a / 2 ^ 12) 7 (omega arith)
    ∙ ap (λ (t : ℕ). t + 7) (sym e)

-- The entry of a page below 2 ^ 52, and back.
pub make_entry_lem : (page : ℕ) → page % page_size ≡ 0 → page < 2 ^ 52 → make_entry page ≡ page + 7
unfolding make_entry
make_entry_lem page h l =
    omega
      (arith, masked page, bit_or_field_at (bit_and page addr_mask) (omega (arith, masked page)))

pub entry_addr-make_entry :
    (page : ℕ) → page % page_size ≡ 0 → page < 2 ^ 52 → entry_addr (make_entry page) ≡ page
unfolding entry_addr
entry_addr-make_entry page h l = omega (arith, make_entry_lem page h l, masked (make_entry page))

pub present-make_entry : (page : ℕ) → present (make_entry page) ≡ true
unfolding make_entry
present-make_entry page = ground (
  arith,
  bit_or_field_at (bit_and page addr_mask) (omega (arith, masked page)),
  bit_and_mask 1 (bit_and page addr_mask + 7),
  masked page,
)

pub present-zero : present 0 ≡ false
present-zero = ground arith

-- The four indices of an address are the base-512 digits of its page's number.
abbrev pub page_number : ℕ → ℕ
page_number virt = virt / 2 ^ 12 % 2 ^ 36

pub idx_lem :
    (v : ℕ)
    → (pml4_idx v ≡ page_number v / 2 ^ 27)
      × (pdpt_idx v ≡ page_number v / 2 ^ 18 % 512)
      × (pd_idx v ≡ page_number v / 2 ^ 9 % 512)
      × (pt_idx v ≡ page_number v % 512)
idx_lem v = omega (
  arith,
  bit_and_mask 9 (v / 2 ^ 39),
  bit_and_mask 9 (v / 2 ^ 30),
  bit_and_mask 9 (v / 2 ^ 21),
  bit_and_mask 9 (v / 2 ^ 12),
)

pub offset_lem : (v : ℕ) → bit_and v 0xfff ≡ v % page_size
offset_lem v = bit_and_mask 12 v

pub entry_addr-Aligned : (e : ℕ) → entry_addr e % page_size ≡ 0
unfolding entry_addr
entry_addr-Aligned e = omega (arith, masked e)
