-- ===== src/Memory/Phys/Alloc.antt =====
-- `phys_page_alloc` takes the first free page.
use mathlib.Core.Path.{ap₂}
use flame_os.Base.{
  ℕ, zero, suc, ◌+◌, ◌-◌, ◌*◌, ◌/◌, ◌%◌, ◌^◌, ◌<◌, ◌≤◌, ◌≡◌, refl, ap, ◌∙◌, Option, none, some,
  List, [], ◌∷◌, arith, ◌==◌, bit_or, ◌<<<◌, add64, Bool-cases, Option-cases, inl, inr, ◌⊎◌,
}
use flame_os.Base.Bits.Digit.{digit-lt}
use flame_os.Memory.Phys.{
  FreeArea, Bitmap, Scan, found, exhausted, write_word, page_size, next_bit, next_word,
  alloc_in_area, alloc_from, phys_page_alloc,
}
use flame_os.Memory.Phys.Bitmap.{used, mark, test_bit, total, page_addr, first_free}

-- No address of an area wraps.
abbrev pub Fits : List FreeArea → Type 0
Fits [] = Unit {0}
Fits (d ∷ ds) = (d.addr + page_size * d.blocks < 2 ^ 64) × Fits ds

-- `(h, bit)` is the place of page `n`.
pub next_page :
    (n : ℕ) → (next_word (n / 32) (n % 32) ≡ (n + 1) / 32) × (next_bit (n % 32) ≡ (n + 1) % 32)
next_page n = ground arith

abbrev in_area : ℕ → ℕ → ℕ → Bitmap → Option ℕ → Scan
in_area addr n left m none = exhausted ((n + left) / 32) ((n + left) % 32)
in_area addr n left m (some k) = found (addr + page_size * (k - n)) (mark m k)

first_free-le : (left n : ℕ) (m : Bitmap) (k : ℕ) → first_free left n m ≡ some k → n ≤ k
first_free-le zero n m k e = absurd (cc e)
first_free-le (suc left) n m k e = ground (arith, first_free-le left (n + 1) m k)

in_area-shift :
    (addr n left : ℕ) (m : Bitmap) (o : Option ℕ)
    → ((k : ℕ) → o ≡ some k → n + 1 ≤ k)
    → in_area (addr + page_size) (n + 1) left m o ≡ in_area addr n (suc left) m o
in_area-shift addr n left m none h = ap (λ (t : ℕ). exhausted (t / 32) (t % 32)) (omega arith)
in_area-shift addr n left m (some k) h =
    ap (λ (t : ℕ). found t (mark m k)) (omega (arith, h k refl))

taken :
    (addr n : ℕ) (m : Bitmap)
    → found addr (write_word m (n / 32) (bit_or (m (n / 32)) (1 <<< (n % 32))))
      ≡ found (addr + page_size * (n - n)) (mark m n)
taken addr n m =
    ap₂ (λ (a b : ℕ). found a (write_word m (n / 32) (bit_or (m (n / 32)) b))) (omega arith)
      (omega arith)

alloc_in_area_lem :
    (left addr n : ℕ) (m : Bitmap)
    → addr + page_size * left < 2 ^ 64
    → alloc_in_area left addr (n / 32) (n % 32) m ≡ in_area addr n left m (first_free left n m)
unfolding alloc_in_area
alloc_in_area_lem zero addr n m h = ap (λ (t : ℕ). exhausted (t / 32) (t % 32)) (omega arith)
alloc_in_area_lem (suc left) addr n m h = elim (Bool-cases (used m n == 0)) [
  | inl free ↦ rw (test_bit (m (n / 32)) (n % 32), free) (taken addr n m)
  | inr busy ↦
      rw (test_bit (m (n / 32)) (n % 32), busy, (next_page n).0, (next_page n).1, step)
        (alloc_in_area_lem left (addr + page_size) (n + 1) m (omega arith)
          ∙ in_area-shift addr n left m (first_free left (n + 1) m) (first_free-le left (n + 1) m))
]
  where
    step : add64 addr page_size ≡ addr + page_size
    step = omega arith

first_free-lt : (left n : ℕ) (m : Bitmap) (k : ℕ) → first_free left n m ≡ some k → k < n + left
first_free-lt zero n m k e = absurd (cc e)
first_free-lt (suc left) n m k e = ground (arith, first_free-lt left (n + 1) m k)

abbrev or_first : Option ℕ → Option ℕ → Option ℕ
or_first (some k) o = some k
or_first none o = o

first_free-add :
    (a b n : ℕ) (m : Bitmap)
    → first_free (a + b) n m ≡ or_first (first_free a n m) (first_free b (n + a) m)
first_free-add zero b n m =
    let e : 0 + b ≡ b = omega arith in let e' : n + 0 ≡ n = omega arith in rw (e, e')
first_free-add (suc a) b n m =
    let e : suc a + b ≡ suc (a + b) = omega arith in
    let e' : n + suc a ≡ n + 1 + a = omega arith in
    rw (e, e') (ground (arith, first_free-add a b (n + 1) m))

-- What the allocator returns when it looks from page `n` on.
abbrev pub outcome : List FreeArea → ℕ → Bitmap → Option ℕ → ℕ × Bitmap
outcome ds n m none = (0, m)
outcome ds n m (some k) = (page_addr ds (k - n), mark m k)

outcome-cons :
    (d : FreeArea) (ds : List FreeArea) (n : ℕ) (m : Bitmap) (o : Option ℕ)
    → ((k : ℕ) → o ≡ some k → n + d.blocks ≤ k)
    → outcome ds (n + d.blocks) m o ≡ outcome (d ∷ ds) n m o
outcome-cons d ds n m none h = refl
outcome-cons d ds n m (some k) h =
    let below : n + d.blocks ≤ k = h k refl in
    let e : k - (n + d.blocks) ≡ k - n - d.blocks = omega arith in ground arith

alloc_from-cons :
    (d : FreeArea) (ds : List FreeArea) (n : ℕ) (m : Bitmap) (o o' : Option ℕ)
    → ((k : ℕ) → o ≡ some k → (n ≤ k) × (k < n + d.blocks))
    → ((k : ℕ) → o' ≡ some k → n + d.blocks ≤ k)
    → alloc_from ds ((n + d.blocks) / 32) ((n + d.blocks) % 32) m ≡ outcome ds (n + d.blocks) m o'
    → (elim (in_area d.addr n d.blocks m o) [
      | found addr m' ↦ (addr, m')
      | exhausted h' bit' ↦ alloc_from ds h' bit' m
    ])
      ≡ outcome (d ∷ ds) n m (or_first o o')
alloc_from-cons d ds n m none o' h h' ih = ih ∙ outcome-cons d ds n m o' h'
alloc_from-cons d ds n m (some k) o' h h' ih = ground (arith, h k refl)

alloc_from_lem :
    (ds : List FreeArea) (n : ℕ) (m : Bitmap)
    → Fits ds
    → alloc_from ds (n / 32) (n % 32) m ≡ outcome ds n m (first_free (total ds) n m)
unfolding alloc_from
alloc_from_lem [] n m h = refl
alloc_from_lem (d ∷ ds) n m h =
    rw
      (
        alloc_in_area_lem d.blocks d.addr n m h.0,
        alloc_from,
        first_free-add d.blocks (total ds) n m,
      )
      (alloc_from-cons d ds n m (first_free d.blocks n m) (first_free (total ds) (n + d.blocks) m)
        (λ k e. (first_free-le d.blocks n m k e, first_free-lt d.blocks n m k e))
        (first_free-le (total ds) (n + d.blocks) m) (alloc_from_lem ds (n + d.blocks) m h.1))

-- `phys_page_alloc` finds the first free page of the map, marks it as used and returns its
-- address; when no page is free it returns 0 and changes nothing.
pub phys_page_alloc_lem :
    (ds : List FreeArea) (m : Bitmap)
    → Fits ds
    → phys_page_alloc ds m ≡ outcome ds 0 m (first_free (total ds) 0 m)
unfolding phys_page_alloc
phys_page_alloc_lem ds m h = alloc_from_lem ds 0 m h

-- Page `k` is the first free page of the map.
pub record IsFirstFree (ds : List FreeArea) (m : Bitmap) (k : ℕ) : Type 0 where
  pub in_map : k < total ds
  pub free : used m k ≡ 0
  pub least : (j : ℕ) → j < k → used m j ≡ 1

first_free-least :
    (left n : ℕ) (m : Bitmap) (k : ℕ)
    → first_free left n m ≡ some k
    → (used m k ≡ 0) × ((j : ℕ) → n ≤ j → j < k → used m j ≡ 1)
first_free-least zero n m k e = absurd (cc e)
first_free-least (suc left) n m k e = elim (Bool-cases (used m n == 0)) [
  | inl free ↦ (ground arith, λ j h l. ground arith)
  | inr busy ↦
      let e' : first_free left (n + 1) m ≡ some k = ground arith in
      let rest = first_free-least left (n + 1) m k e' in
      (rest.0, λ j h l. ground (arith, rest.1 j, digit-lt (m (n / 32)) (n % 32)))
]

first_free-none :
    (left n : ℕ) (m : Bitmap)
    → first_free left n m ≡ none
    → (j : ℕ) → n ≤ j
    → j < n + left
    → used m j ≡ 1
first_free-none zero n m e j h l = absurd (omega arith)
first_free-none (suc left) n m e j h l = ground (
  arith,
  λ (e' : first_free left (n + 1) m ≡ none) (h' : n + 1 ≤ j).
      first_free-none left (n + 1) m e' j h' (omega arith),
  digit-lt (m (n / 32)) (n % 32),
)

outcome_from_zero :
    (ds : List FreeArea) (m : Bitmap) (k : ℕ) → outcome ds 0 m (some k) ≡ (page_addr ds k, mark m k)
outcome_from_zero ds m k = ap (λ (t : ℕ). (page_addr ds t, mark m k)) (omega arith)

-- `phys_page_alloc` either marks the first free page as used and returns its address, or finds
-- every page in use, returns 0 and changes nothing.
pub phys_page_alloc-cases :
    (ds : List FreeArea) (m : Bitmap)
    → Fits ds
    → ((k : ℕ) × IsFirstFree ds m k × (phys_page_alloc ds m ≡ (page_addr ds k, mark m k)))
      ⊎ (((j : ℕ) → j < total ds → used m j ≡ 1) × (phys_page_alloc ds m ≡ (0, m)))
phys_page_alloc-cases ds m h = elim (Option-cases (first_free (total ds) 0 m)) [
  | inl e ↦ inr (
    λ j l. first_free-none (total ds) 0 m e j (omega arith) (omega arith),
    rw (phys_page_alloc_lem ds m h, e),
  )
  | inr (k, e) ↦ inl (
    k,
    record {
      in_map = omega (arith, first_free-lt (total ds) 0 m k e);
      free = (first_free-least (total ds) 0 m k e).0;
      least = λ j l. (first_free-least (total ds) 0 m k e).1 j (omega arith) l;
    },
    phys_page_alloc_lem ds m h ∙ ap (outcome ds 0 m) e ∙ outcome_from_zero ds m k,
  )
]
