-- ===== src/Memory/Setup/Ranges.antt =====
-- What mapping a range of pages does, and what it leaves alone.
use flame_os.Base.{
  ℕ, zero, suc, ◌+◌, ◌*◌, ◌%◌, ◌^◌, ◌<◌, ◌≤◌, ◌≡◌, ◌≢◌, ◌⊎◌, inl, inr, refl, sym, ◌∙◌, Bool, true,
  false, Bool-cases, ltb, arith, add64,
}
use mathlib.Core.Path.{subst}
use native.Mathlib.Decide.{ℕ_discrete}
use flame_os.Memory.Phys.{page_size}
use flame_os.Memory.Phys.Bitmap.{}
use flame_os.Memory.Phys.Count.{free_pages}
use flame_os.Memory.Machine.{Machine, done, and_then}
use flame_os.Memory.Paging.{
  root, at, entry, present, entry_addr, map_page, find_physaddr, pml4_idx, pdpt_idx, pd_idx,
}
use flame_os.Memory.Paging.Entry.{page_number}
use flame_os.Memory.Paging.Tree.{Ghost, IsTree, InMap}
use flame_os.Memory.Paging.Ends.{Ends, returns, bind, mono}
use flame_os.Memory.Paging.Map.{MapDone, map_page-Ends}
use flame_os.Memory.Paging.Frame.{HasTables, find_physaddr-grows}
use flame_os.Memory.Setup.{map_while}

-- A translation that is found has its three tables.
find-HasTables : (v : ℕ) (s : Machine) → find_physaddr v s ≢ 0 → HasTables v s
unfolding find_physaddr
find-HasTables v s found =
    let e₁ : ℕ = entry s root (pml4_idx v) in
    let e₂ : ℕ = entry s (at (entry_addr e₁)) (pdpt_idx v) in
    let e₃ : ℕ = entry s (at (entry_addr e₂)) (pd_idx v) in
    elim (Bool-cases (present e₁)) [
      | inr no₁ ↦ absurd (found (rw no₁))
      | inl yes₁ ↦ elim (Bool-cases (present e₂)) [
        | inr no₂ ↦ absurd (found (rw (yes₁, no₂)))
        | inl yes₂ ↦ elim (Bool-cases (present e₃)) [
          | inr no₃ ↦ absurd (found (rw (yes₁, yes₂, no₃)))
          | inl yes₃ ↦ record {
            e₁ = e₁;
            e₂ = e₂;
            e₃ = e₃;
            first = refl;
            first_present = yes₁;
            second = refl;
            second_present = yes₂;
            third = refl;
            third_present = yes₃;
          }
        ]
      ]
    ]

-- The test of a loop passes exactly `n` times.
abbrev pub Passes : (ℕ → ℕ → Bool) → ℕ → ℕ → ℕ → Type 0
Passes test zero addr1 addr2 = test addr1 addr2 ≡ false
Passes test (suc n) addr1 addr2 =
    (test addr1 addr2 ≡ true) × Passes test n (addr1 + page_size) (addr2 + page_size)

pub Passes-first :
    (n addr1 addr2 limit : ℕ)
    → limit ≤ addr1 + n * page_size
    → addr1 + n * page_size < limit + page_size
    → Passes (λ a b. ltb a limit) n addr1 addr2
Passes-first zero addr1 addr2 limit h l = ground arith
Passes-first (suc n) addr1 addr2 limit h l = (
  ground arith,
  Passes-first n (addr1 + page_size) (addr2 + page_size) limit (omega arith) (omega arith),
)

pub Passes-second :
    (n addr1 addr2 limit : ℕ)
    → limit ≤ addr2 + n * page_size
    → addr2 + n * page_size < limit + page_size
    → Passes (λ a b. ltb b limit) n addr1 addr2
Passes-second zero addr1 addr2 limit h l = ground arith
Passes-second (suc n) addr1 addr2 limit h l = (
  ground arith,
  Passes-second n (addr1 + page_size) (addr2 + page_size) limit (omega arith) (omega arith),
)

next : (a n : ℕ) → a + suc n * page_size < 2 ^ 64 → add64 a page_size ≡ a + page_size
next a n h = omega arith

-- One round of the loop.
pub map_while-step :
    (test : ℕ → ℕ → Bool) (rounds fuel a b n : ℕ) (s : Machine)
    → test a b ≡ true
    → a + suc n * page_size < 2 ^ 64
    → b + suc n * page_size < 2 ^ 64
    → map_while test (suc rounds) fuel a b s
      ≡ and_then
          (map_page fuel a b s)
          (λ _. map_while test rounds fuel (a + page_size) (b + page_size))
unfolding map_while
map_while-step test rounds fuel a b n s t h h' = rw (t, next a n h, next b n h') refl

pub map_while-end :
    (test : ℕ → ℕ → Bool) (rounds fuel a b : ℕ) (s : Machine)
    → test a b ≡ false
    → map_while test (suc rounds) fuel a b s ≡ done tt s
unfolding map_while
map_while-end test rounds fuel a b s t = rw t refl

module _ (fuel bound : ℕ) where
  -- A tree whose tables, and all pages that may become one, lie below `bound`.
  pub record Ready (g : Ghost) (s : Machine) : Type 0 where
    pub tree : IsTree g s
    pub few : free_pages s.freemap s.bmap < fuel
    pub tables : (a : ℕ) → g.level a ≢ 0 → a < bound
    pub pages : (a : ℕ) → InMap s.freemap a → a < bound

  pub map_page-Ready :
      (phys virt : ℕ) (g : Ghost) (s : Machine)
      → Ready g s
      → Ends (λ g' s'. Ready g' s' × MapDone phys virt g s g' s') (map_page fuel phys virt s)
  map_page-Ready phys virt g s r = mono (map_page-Ends fuel phys virt g s r.tree r.few) λ g' s' d.
      let grow = (d.0).1 in
      (
        record {
          tree = (d.0).0;
          few = omega (arith, grow.fewer, r.few);
          tables = λ a n. elim (ℕ_discrete (g.level a) 0) [
            | no old ↦ r.tables a old
            | yes new ↦ r.pages a (grow.new_in_map a new n)
          ];
          pages = λ a m. r.pages a (subst (λ ds. InMap ds a) grow.same_map m);
        },
        d,
      )

  -- A translation that another call of `map_page` keeps.
  pub record Fact (v p : ℕ) (s : Machine) : Type 0 where
    pub found : find_physaddr v s ≡ p
    pub nonzero : p ≢ 0
    pub above : bound ≤ page_number v * page_size

  pub map_page-Fact :
      (phys virt v p : ℕ) (g : Ghost) (s : Machine)
      → Ready g s
      → Fact v p s
      → page_number v ≢ page_number virt
      → Ends (λ g' s'. Ready g' s' × Fact v p s') (map_page fuel phys virt s)
  map_page-Fact phys virt v p g s r f other =
      let tables : HasTables v s = find-HasTables v s (λ z. f.nonzero (sym f.found ∙ z)) in
      mono (map_page-Ready phys virt g s r) λ g' s' (r', d).
        let kept =
          find_physaddr-grows r.tree (d.0).1 v tables other
            (λ new. omega (arith, f.above, r'.tables (page_number v * page_size) new.1)) in
        (r', record { found = kept ∙ f.found; nonzero = f.nonzero; above = f.above })

  module _ (test : ℕ → ℕ → Bool) where
    pub map_while-Ready :
        (n rounds a b : ℕ) (g : Ghost) (s : Machine)
        → Passes test n a b
        → n < rounds
        → a + n * page_size < 2 ^ 64
        → b + n * page_size ≤ 2 ^ 48
        → Ready g s
        → Ends Ready (map_while test rounds fuel a b s)
    map_while-Ready n zero a b g s t l h h' r = absurd (omega arith)
    map_while-Ready zero (suc rounds) a b g s t l h h' r =
        rw (map_while-end test rounds fuel a b s t) (returns g r)
    map_while-Ready (suc n) (suc rounds) a b g s t l h h' r =
        rw (map_while-step test rounds fuel a b n s t.0 h (omega arith)) (
          bind _ (map_page-Ready a b g s r) λ _ g' s' (r', d).
            map_while-Ready n rounds (a + page_size) (b + page_size) g' s' t.1 (omega arith)
              (omega arith) (omega arith) r')

    -- A page outside the range keeps its translation.
    pub map_while-Fact :
        (n rounds a b v p : ℕ) (g : Ghost) (s : Machine)
        → Passes test n a b
        → n < rounds
        → a + n * page_size < 2 ^ 64
        → b + n * page_size ≤ 2 ^ 48
        → b % page_size ≡ 0
        → (page_number v * page_size < b) ⊎ (b + n * page_size ≤ page_number v * page_size)
        → Ready g s
        → Fact v p s
        → Ends (λ g' s'. Ready g' s' × Fact v p s') (map_while test rounds fuel a b s)
    map_while-Fact n zero a b v p g s t l h h' even out r f = absurd (omega arith)
    map_while-Fact zero (suc rounds) a b v p g s t l h h' even out r f =
        rw (map_while-end test rounds fuel a b s t) (returns g (r, f))
    map_while-Fact (suc n) (suc rounds) a b v p g s t l h h' even out r f =
        rw (map_while-step test rounds fuel a b n s t.0 h (omega arith)) (
          bind _ (map_page-Fact a b v p g s r f (λ e. omega arith)) λ _ g' s' (r', f').
            map_while-Fact n rounds (a + page_size) (b + page_size) v p g' s' t.1 (omega arith)
              (omega arith) (omega arith) (omega arith) (omega arith) r' f')

    -- Each page of the range is translated.
    pub map_while-maps :
        (n rounds a b j v p : ℕ) (g : Ghost) (s : Machine)
        → Passes test n a b
        → n < rounds
        → a + n * page_size ≤ 2 ^ 52
        → b + n * page_size ≤ 2 ^ 48
        → a % page_size ≡ 0
        → b % page_size ≡ 0
        → a ≢ 0
        → bound ≤ b
        → j < n
        → v ≡ b + j * page_size
        → p ≡ a + j * page_size
        → Ready g s
        → Ends (λ g' s'. Ready g' s' × Fact v p s') (map_while test rounds fuel a b s)
    map_while-maps n zero a b j v p g s t l h h' ea eb nz above jn ev ep r = absurd (omega arith)
    map_while-maps zero (suc rounds) a b j v p g s t l h h' ea eb nz above jn ev ep r =
        absurd (omega arith)
    map_while-maps (suc n) (suc rounds) a b zero v p g s t l h h' ea eb nz above jn ev ep r =
        let here : v ≡ b = omega arith in
        let there : p ≡ a = omega arith in
        rw (map_while-step test rounds fuel a b n s t.0 (omega arith) (omega arith), here, there)
          (bind _ (map_page-Ready a b g s r) λ _ g' s' (r', d).
            map_while-Fact n rounds (a + page_size) (b + page_size) b a g' s' t.1 (omega arith)
              (omega arith) (omega arith) (omega arith) (inl (omega arith)) r'
              (record { found = d.1 ea eb (omega arith); nonzero = nz; above = omega arith }))
    map_while-maps (suc n) (suc rounds) a b (suc j) v p g s t l h h' ea eb nz above jn ev ep r =
        rw (map_while-step test rounds fuel a b n s t.0 (omega arith) (omega arith)) (
          bind _ (map_page-Ready a b g s r) λ _ g' s' (r', d).
            map_while-maps n rounds (a + page_size) (b + page_size) j v p g' s' t.1 (omega arith)
              (omega arith) (omega arith) (omega arith) (omega arith) (λ z. nz (omega arith))
              (omega arith) (omega arith) (omega arith) (omega arith) r')
