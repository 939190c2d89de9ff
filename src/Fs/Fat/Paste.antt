-- ===== src/Fs/Fat/Paste.antt =====
-- Parts of a file that fat_read copies one behind the other.
use flame_os.Base.{
  ℕ, zero, suc, ◌+◌, ◌-◌, ◌*◌, ◌≤◌, ◌<◌, ◌≡◌, ◌⊎◌, inl, inr, ◌∙◌, ap, arith, leb, ltb, ◌&&◌,
  if◌then◌else◌, row_below,
}
use native.Mathlib.Decide.{dec_lt}
use flame_os.Libc.Bytes

-- `bytes` bytes of a file at `ptr`, from place `from` of its cluster `k` on, in clusters of `size`
-- bytes. `content c r` is byte `r` of cluster `c`.
pub record Pasted (content : ℕ → ℕ → ℕ) (size k from ptr bytes : ℕ) (m m' : Bytes.Bytes)
    : Type 0 where
  pub new :
      (j r : ℕ)
      → r < size
      → from ≤ j * size + r
      → j * size + r < from + bytes
      → m' (ptr + (j * size + r - from)) ≡ content (k + j) r
  pub old : (a : ℕ) → (a < ptr) ⊎ (ptr + bytes ≤ a) → m' a ≡ m a

abbrev pub pasted : (ptr n from : ℕ) → Bytes.Bytes → Bytes.Bytes → Bytes.Bytes
pasted ptr n from buf m a = if leb ptr a && ltb a (ptr + n) then buf (from + (a - ptr)) else m a

pasted-in :
    (ptr n from x : ℕ) (buf m : Bytes.Bytes)
    → x < n
    → pasted ptr n from buf m (ptr + x) ≡ buf (from + x)
pasted-in ptr n from x buf m h =
    let e : from + (ptr + x - ptr) ≡ from + x = omega arith in rw e (ground arith)

pub Pasted-last :
    (content : ℕ → ℕ → ℕ) (size k from ptr bytes : ℕ) (buf m : Bytes.Bytes)
    → ((r : ℕ) → r < size → buf r ≡ content k r)
    → from + bytes ≤ size
    → Pasted content size k from ptr bytes m (pasted ptr bytes from buf m)
Pasted-last content size k from ptr bytes buf m holds fits = record {
  new = λ j r hr lo hi. elim (dec_lt 0 j) [
    | yes pos ↦ let l = row_below size 0 j pos in absurd (omega arith)
    | no zero_j ↦
        let z : j ≡ 0 = omega arith in
        let z' : k + j ≡ k = omega arith in
        let none : 0 * size + r ≡ r = grind arith in
        let e : from + (r - from) ≡ r = omega (arith, rw (z, none) at lo) in
        rw (z', z, none)
          (pasted-in ptr bytes from (r - from) buf m
              (omega (arith, rw (z, none) at lo, rw (z, none) at hi))
            ∙ ap buf e
            ∙ holds r hr)
  ];
  old = λ a h. elim h [ inl l ↦ ground arith | inr l ↦ ground arith ];
}

pub Pasted-more :
    (content : ℕ → ℕ → ℕ) (size k from rest ptr bytes : ℕ) (buf m m' : Bytes.Bytes)
    → ((r : ℕ) → r < size → buf r ≡ content k r)
    → from + rest ≡ size
    → rest < bytes
    → Pasted content size (suc k) 0 (ptr + rest) (bytes - rest) (pasted ptr rest from buf m) m'
    → Pasted content size k from ptr bytes m m'
Pasted-more content size k from rest ptr bytes buf m m' holds inside more next = record {
  new = λ j r hr lo hi. first_or_later j r hr lo hi;
  old = λ a h. elim h [
    | inl l ↦ next.old a (inl (omega arith)) ∙ ground arith
    | inr l ↦ next.old a (inr (omega arith)) ∙ ground arith
  ];
}
  where
    first_or_later :
        (j r : ℕ)
        → r < size
        → from ≤ j * size + r
        → j * size + r < from + bytes
        → m' (ptr + (j * size + r - from)) ≡ content (k + j) r
    first_or_later zero r hr lo hi =
        let none : 0 * size + r ≡ r = grind arith in
        let z : k + 0 ≡ k = omega arith in
        let e : from + (r - from) ≡ r = omega (arith, rw none at lo) in
        rw (none, z)
          (next.old (ptr + (r - from)) (inl (omega (arith, rw none at lo)))
            ∙ pasted-in ptr rest from (r - from) buf m (omega (arith, rw none at lo))
            ∙ ap buf e
            ∙ holds r hr)
    first_or_later (suc j) r hr lo hi =
        let e : suc j * size ≡ j * size + size = grind arith in
        let place : ptr + (suc j * size + r - from) ≡ ptr + rest + (j * size + r - 0) =
          omega arith in
        let idx : k + suc j ≡ suc k + j = omega arith in
        rw (place, idx) (next.new j r hr (omega arith) (omega arith))
