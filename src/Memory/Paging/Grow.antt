-- ===== src/Memory/Paging/Grow.antt =====
-- One new table, linked into the tree.
use flame_os.Base.{
  ℕ, suc, ◌+◌, ◌*◌, ◌<◌, ◌≡◌, ◌≢◌, ◌⊎◌, inl, inr, refl, ap, sym, Bool, ◌&&◌, ◌∙◌, true, false,
  arith, Bool-cases, ==_iff, ◌^◌, ◌%◌, ◌==◌, if◌then◌else◌,
}
use mathlib.Core.Path.{subst, ap₂}
use native.Mathlib.Decide.{ℕ_discrete}
use flame_os.Memory.Phys.{Bitmap, page_size}
use flame_os.Memory.Phys.Free.{page_addr-Aligned}
use flame_os.Memory.Phys.Count.{InUse, Allocated}
use flame_os.Memory.Machine.{Machine}
use flame_os.Memory.Paging.{
  Table, root, at, entry, set_entry, present, entry_addr, make_entry, clear_table,
}
use flame_os.Memory.Paging.Entry.{entry_addr-make_entry, present-make_entry, present-zero}
use flame_os.Memory.Paging.Tree.{Ghost, level_of, prefix_of, IsTable, IsTree, Grows}

-- `page` becomes a table, one level below `t`.
abbrev pub with_table : Ghost → Table → ℕ → ℕ → Ghost
with_table g t i page = record {
  level = λ a. if page == a then suc (level_of g t) else g.level a;
  prefix = λ a. if page == a then prefix_of g t * 512 + i else g.prefix a;
}

abbrev pub cleared : Machine → Bitmap → ℕ → Machine
cleared s m page = record s { bmap = m; table = clear_table s.table page }

abbrev pub linked : Machine → Bitmap → Table → ℕ → ℕ → Machine
linked s m t i page = set_entry t i (make_entry page) (cleared s m page)

pub and_left : (a b : Bool) → (a && b) ≡ true → a ≡ true
and_left a b h = ground arith

pub and_right : (a b : Bool) → (a && b) ≡ true → b ≡ true
and_right a b h = ground arith

abbrev pub same_table : Table → Table → Bool
same_table root root = true
same_table root (at a) = false
same_table (at t) root = false
same_table (at t) (at a) = t == a

pub same_table-eq : (t t' : Table) → same_table t t' ≡ true → t ≡ t'
same_table-eq root root e = refl
same_table-eq root (at a) e = cc
same_table-eq (at t) root e = cc
same_table-eq (at t) (at a) e = ap at (ground arith)

pub same_table_refl : (t : Table) → same_table t t ≡ true
same_table_refl root = refl
same_table_refl (at a) = ground arith

pub entry-set_entry :
    (t : Table) (i e : ℕ) (s : Machine) (t' : Table) (j : ℕ)
    → entry (set_entry t i e s) t' j ≡ (if same_table t t' && (i == j) then e else entry s t' j)
entry-set_entry root i e s root j = ground arith
entry-set_entry root i e s (at a) j = refl
entry-set_entry (at t) i e s root j = refl
entry-set_entry (at t) i e s (at a) j = ground arith

entry-cleared :
    (s : Machine) (m : Bitmap) (page : ℕ) (t : Table) (j : ℕ)
    → entry (cleared s m page) t j ≡ (if same_table (at page) t then 0 else entry s t j)
entry-cleared s m page root j = refl
entry-cleared s m page (at a) j = ground arith

module _ (g : Ghost) (s : Machine) (m : Bitmap) (t : Table) (i page : ℕ) (w : IsTree g s)
    (here : IsTable g t) (high : level_of g t < 3) (absent : present (entry s t i) ≡ false)
    (got : Allocated s.freemap s.bmap page m) where
  -- A page that was free is no table.
  pub not_table : g.level page ≡ 0
  not_table = elim (ℕ_discrete (g.level page) 0) [
    | yes e ↦ e
    | no n ↦
        absurd (omega (arith, w.in_use page n got.index got.in_map (sym got.address), got.fresh))
  ]

  page_lem : (page % page_size ≡ 0) × (page < 2 ^ 52)
  page_lem = rw got.address (
    page_addr-Aligned s.freemap got.index w.map.aligned,
    omega (arith, w.map.low got.index got.in_map),
  )

  back : entry_addr (make_entry page) ≡ page
  back = entry_addr-make_entry page page_lem.0 page_lem.1

  level-at : (a : ℕ) → g.level a ≢ 0 → (page == a) ≡ false
  level-at a n = ground (arith, not_table)

  abbrev g' : Ghost
  g' = with_table g t i page

  abbrev s' : Machine
  s' = linked s m t i page

  -- An entry of the new tree that points on is the new link, or was there before.
  entry-linked :
      (t' : Table) (j : ℕ)
      → present (entry s' t' j) ≡ true
      → ((t ≡ t') × (i ≡ j) × (entry s' t' j ≡ make_entry page))
        ⊎ ((same_table (at page) t' ≡ false) × (entry s' t' j ≡ entry s t' j))
  entry-linked t' j p =
      let e₁ = entry-set_entry t i (make_entry page) (cleared s m page) t' j in
      let e₂ = entry-cleared s m page t' j in
      elim (Bool-cases (same_table t t' && (i == j))) [
        | inl new ↦ inl (
          same_table-eq t t' (and_left (same_table t t') (i == j) new),
          ground (arith, and_right (same_table t t') (i == j) new),
          ground arith,
        )
        | inr old ↦ elim (Bool-cases (same_table (at page) t')) [
          | inl cleared_page ↦
              let zero_entry : entry s' t' j ≡ 0 = ground arith in
              absurd (cc (sym p ∙ ap present zero_entry ∙ present-zero))
          | inr other ↦ inr (other, ground arith)
        ]
      ]

  not_page : (t' : Table) → IsTable g t' → same_table (at page) t' ≡ false
  not_page root is = refl
  not_page (at a) is = level-at a is

  same_level : (t' : Table) → same_table (at page) t' ≡ false → level_of g' t' ≡ level_of g t'
  same_level root e = refl
  same_level (at a) e = rw e

  same_prefix : (t' : Table) → same_table (at page) t' ≡ false → prefix_of g' t' ≡ prefix_of g t'
  same_prefix root e = refl
  same_prefix (at a) e = rw e

  old_table : (t' : Table) → same_table (at page) t' ≡ false → IsTable g' t' → IsTable g t'
  old_table root e is = tt
  old_table (at a) e is = λ z. is (rw (e, z))

  linked-child :
      (t' : Table) (j : ℕ)
      → j < 512
      → IsTable g' t'
      → level_of g' t' < 3
      → present (entry s' t' j) ≡ true
      → (g'.level (entry_addr (entry s' t' j)) ≡ suc (level_of g' t'))
        × (g'.prefix (entry_addr (entry s' t' j)) ≡ prefix_of g' t' * 512 + j)
  linked-child t' j l is k p = elim (entry-linked t' j p) [
    | inl (e, e', e'') ↦
        let q : entry_addr (entry s' t' j) ≡ page = ap entry_addr e'' ∙ back in
        let apart = not_page t here in
        rw q (
          ground (arith, same_level t apart, ap (level_of g') e),
          ground (arith, same_prefix t apart, ap (prefix_of g') e),
        )
    | inr (other, e) ↦
        let old =
          w.child t' j l (old_table t' other is) (rw (same_level t' other) at k) (rw e at p) in
        rw (e, same_level t' other, same_prefix t' other)
          (
            ground (arith, old.0, level-at (entry_addr (entry s t' j))),
            ground (arith, old.0, old.1, level-at (entry_addr (entry s t' j))),
          )
  ]

  pub linked-IsTree : IsTree g' s'
  linked-IsTree = record {
    map = w.map;
    child = linked-child;
    in_use = λ a n. elim (Bool-cases (page == a)) [
      | inl e ↦ let e' : page ≡ a = ground arith in subst (InUse s.freemap m) e' got.taken
      | inr e ↦ got.keeps a (w.in_use a (λ z. n (rw (e, z))))
    ];
  }

  not_leaf : (a : ℕ) → g.level a ≡ 3 → same_table t (at a) ≡ false
  not_leaf a e = elim (Bool-cases (same_table t (at a))) [
    | inr e' ↦ e'
    | inl e' ↦ absurd (omega (arith, ap (level_of g) (same_table-eq t (at a) e')))
  ]

  unchanged :
      (t' : Table) (j : ℕ) → present (entry s t' j) ≡ true → (same_table t t' && (i == j)) ≡ false
  unchanged t' j p = elim (Bool-cases (same_table t t' && (i == j))) [
    | inr e ↦ e
    | inl e ↦
        let e₁ : t ≡ t' = same_table-eq t t' (and_left (same_table t t') (i == j) e) in
        let e₂ : i ≡ j = (==_iff i j).0 (and_right (same_table t t') (i == j) e) in
        absurd (cc (sym p ∙ ap₂ (λ a b. present (entry s a b)) (sym e₁) (sym e₂) ∙ absent))
  ]

  pub linked-Grows : (Allow : ℕ → Type 0) → Grows Allow g s g' s'
  linked-Grows Allow = record {
    same_map = refl;
    fewer = omega (arith, got.fewer);
    same_level = λ a n. ground (arith, level-at a n);
    same_prefix = λ a n. ground (arith, level-at a n);
    same_entry = λ t' j l is k p. ground (
      arith,
      entry-set_entry t i (make_entry page) (cleared s m page) t' j,
      entry-cleared s m page t' j,
      not_page t' is,
      unchanged t' j p,
    );
    same_leaf = λ a j l e. inl (
        ground (
          arith,
          entry-set_entry t i (make_entry page) (cleared s m page) (at a) j,
          entry-cleared s m page (at a) j,
          level-at a (λ z. omega arith),
          not_leaf a e,
        ));
    new_in_map = λ a z n. elim (Bool-cases (page == a)) [
      | inl e ↦ (got.index, got.in_map, ground (arith, got.address))
      | inr e ↦ absurd (n (ground (arith, z)))
    ];
  }

  pub linked-present : present (entry s' t i) ≡ true
  linked-present =
      let e₁ = entry-set_entry t i (make_entry page) (cleared s m page) t i in
      let e₂ : entry s' t i ≡ make_entry page = ground (arith, e₁, same_table_refl t) in
      rw e₂ (present-make_entry page)
