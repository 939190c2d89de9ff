-- ===== src/Memory/Paging/Tree.antt =====
-- When the tables form a tree: each table has one place, and no other entry points to it.
use flame_os.Base.{
  ℕ, suc, ◌+◌, ◌*◌, ◌<◌, ◌≤◌, ◌≡◌, ◌≢◌, ◌⊎◌, inl, inr, refl, ◌∙◌, true, arith, ◌^◌, List,
}
use mathlib.Core.Path.{subst}
use native.Mathlib.Decide.{ℕ_discrete}
use flame_os.Memory.Phys.{FreeArea, page_size}
use flame_os.Memory.Phys.Bitmap.{total, page_addr}
use flame_os.Memory.Phys.Alloc.{Fits}
use flame_os.Memory.Phys.Free.{Distinct, Aligned}
use flame_os.Memory.Phys.Count.{free_pages, InUse}
use flame_os.Memory.Machine.{Machine}
use flame_os.Memory.Paging.{Table, root, at, entry, present, entry_addr}

-- What is known of each page: its level in the tree (0 if it is no table, 1 below the root), and
-- the digits in base 512 that lead to it.
pub record Ghost : Type 0 where
  pub level : ℕ → ℕ
  pub prefix : ℕ → ℕ

abbrev pub level_of : Ghost → Table → ℕ
level_of g root = 0
level_of g (at t) = g.level t

abbrev pub prefix_of : Ghost → Table → ℕ
prefix_of g root = 0
prefix_of g (at t) = g.prefix t

abbrev pub IsTable : Ghost → Table → Type 0
IsTable g root = Unit {0}
IsTable g (at t) = g.level t ≢ 0

-- The physical memory map: whole pages below 2 ^ 48 that do not overlap, and not the page at 0,
-- whose address is also what `phys_page_alloc` returns when it fails.
pub record IsMap (ds : List FreeArea) : Type 0 where
  pub fits : Fits ds
  pub aligned : Aligned ds
  pub distinct : Distinct ds
  pub low : (k : ℕ) → k < total ds → page_addr ds k < 2 ^ 48
  pub nonnull : (k : ℕ) → k < total ds → page_addr ds k ≢ 0

pub record IsTree (g : Ghost) (s : Machine) : Type 0 where
  pub map : IsMap s.freemap
  pub child :
      (t : Table) (i : ℕ)
      → i < 512
      → IsTable g t
      → level_of g t < 3
      → present (entry s t i) ≡ true
      → (g.level (entry_addr (entry s t i)) ≡ suc (level_of g t))
        × (g.prefix (entry_addr (entry s t i)) ≡ prefix_of g t * 512 + i)
  pub in_use : (a : ℕ) → g.level a ≢ 0 → InUse s.freemap s.bmap a

-- The page with number `v` is a table of `g'` and none of `g`.
abbrev pub IsNew : Ghost → Ghost → ℕ → Type 0
IsNew g g' v = (g.level (v * page_size) ≡ 0) × (g'.level (v * page_size) ≢ 0)

-- The address of a page of the map.
abbrev pub InMap : List FreeArea → ℕ → Type 0
InMap ds a = (k : ℕ) × (k < total ds) × (page_addr ds k ≡ a)

-- From `(g, s)` to `(g', s')` the tree may grow; what is there stays, but for the translations of
-- the pages that `Allow` names and of new tables.
pub record Grows (Allow : ℕ → Type 0) (g : Ghost) (s : Machine) (g' : Ghost) (s' : Machine)
    : Type 0 where
  pub same_map : s'.freemap ≡ s.freemap
  pub fewer : free_pages s'.freemap s'.bmap ≤ free_pages s.freemap s.bmap
  pub same_level : (a : ℕ) → g.level a ≢ 0 → g'.level a ≡ g.level a
  pub same_prefix : (a : ℕ) → g.level a ≢ 0 → g'.prefix a ≡ g.prefix a
  pub same_entry :
      (t : Table) (i : ℕ)
      → i < 512
      → IsTable g t
      → level_of g t < 3
      → present (entry s t i) ≡ true
      → entry s' t i ≡ entry s t i
  pub same_leaf :
      (t i : ℕ)
      → i < 512
      → g.level t ≡ 3
      → (s'.table t i ≡ s.table t i)
        ⊎ (Allow (g.prefix t * 512 + i) ⊎ IsNew g g' (g.prefix t * 512 + i))
  pub new_in_map : (a : ℕ) → g.level a ≡ 0 → g'.level a ≢ 0 → InMap s.freemap a

pub Grows-refl : (Allow : ℕ → Type 0) (g : Ghost) (s : Machine) → Grows Allow g s g s
Grows-refl Allow g s = record {
  same_map = refl;
  fewer = omega arith;
  same_level = λ a h. refl;
  same_prefix = λ a h. refl;
  same_entry = λ t i l h k p. refl;
  same_leaf = λ t i l h. inl refl;
  new_in_map = λ a e n. absurd (n e);
}

module _ {Allow : ℕ → Type 0} {g g' : Ghost} {s s' : Machine} where
  pub IsTable-Grows : (t : Table) → Grows Allow g s g' s' → IsTable g t → IsTable g' t
  IsTable-Grows root w h = tt
  IsTable-Grows (at t) w h = λ e. h (omega (arith, w.same_level t h))

  pub level-Grows : (t : Table) → Grows Allow g s g' s' → IsTable g t → level_of g' t ≡ level_of g t
  level-Grows root w h = refl
  level-Grows (at t) w h = w.same_level t h

  pub prefix-Grows :
      (t : Table) → Grows Allow g s g' s' → IsTable g t → prefix_of g' t ≡ prefix_of g t
  prefix-Grows root w h = refl
  prefix-Grows (at t) w h = w.same_prefix t h

  pub Grows-weaken :
      (Allow' : ℕ → Type 0)
      → ((v : ℕ) → Allow v → Allow' v ⊎ IsNew g g' v)
      → Grows Allow g s g' s'
      → Grows Allow' g s g' s'
  Grows-weaken Allow' weaker w = record {
    same_map = w.same_map;
    fewer = w.fewer;
    same_level = w.same_level;
    same_prefix = w.same_prefix;
    same_entry = w.same_entry;
    same_leaf = λ t i l h. elim (w.same_leaf t i l h) [
      | inl same ↦ inl same
      | inr (inl allowed) ↦ inr (weaker _ allowed)
      | inr (inr fresh) ↦ inr (inr fresh)
    ];
    new_in_map = w.new_in_map;
  }

-- One leaf entry over two steps: `x` is its first value, and `v` its page.
leaf_trans :
    (Allow : ℕ → Type 0) (g g' g'' : Ghost) {x x' x'' : ℕ} (v : ℕ)
    → ((a : ℕ) → g.level a ≢ 0 → g'.level a ≡ g.level a)
    → ((a : ℕ) → g'.level a ≢ 0 → g''.level a ≡ g'.level a)
    → (x' ≡ x) ⊎ (Allow v ⊎ IsNew g g' v)
    → (x'' ≡ x') ⊎ (Allow v ⊎ IsNew g' g'' v)
    → (x'' ≡ x) ⊎ (Allow v ⊎ IsNew g g'' v)
leaf_trans Allow g g' g'' v w w' (inl e) (inl e') = inl (e' ∙ e)
leaf_trans Allow g g' g'' v w w' (inr (inl a)) r = inr (inl a)
leaf_trans Allow g g' g'' v w w' (inr (inr (old, new))) r =
    inr (inr (old, λ e. new (omega (arith, w' (v * page_size) new))))
leaf_trans Allow g g' g'' v w w' (inl e) (inr (inl a)) = inr (inl a)
leaf_trans Allow g g' g'' v w w' (inl e) (inr (inr (old, new))) =
    elim (ℕ_discrete (g.level (v * page_size)) 0) [
      | yes free ↦ inr (inr (free, new))
      | no taken ↦ absurd (taken (omega (arith, w (v * page_size) taken)))
    ]

pub Grows-trans :
    {Allow : ℕ → Type 0} {g g' g'' : Ghost} {s s' s'' : Machine}
    → Grows Allow g s g' s'
    → Grows Allow g' s' g'' s''
    → Grows Allow g s g'' s''
Grows-trans {Allow} {g} {g'} {g''} {s} {s'} {s''} w w' = record {
  same_map = w'.same_map ∙ w.same_map;
  fewer = omega (arith, w.fewer, w'.fewer);
  same_level = λ a h. w'.same_level a (IsTable-Grows (at a) w h) ∙ w.same_level a h;
  same_prefix = λ a h. w'.same_prefix a (IsTable-Grows (at a) w h) ∙ w.same_prefix a h;
  same_entry = λ t i l h k p.
      let e = w.same_entry t i l h k p in
      w'.same_entry t i l (IsTable-Grows t w h) (rw (level-Grows t w h) k) (rw e p) ∙ e;
  same_leaf = λ t i l h.
      let is : g.level t ≢ 0 = λ e. omega arith in
      let w'' = w'.same_leaf t i l (w.same_level t is ∙ h) in
      leaf_trans Allow g g' g'' (g.prefix t * 512 + i) w.same_level w'.same_level
        (w.same_leaf t i l h) (rw (w.same_prefix t is) at w'');
  new_in_map = λ a e n. elim (ℕ_discrete (g'.level a) 0) [
    | no first ↦ w.new_in_map a e first
    | yes later ↦ subst (λ ds. InMap ds a) w.same_map (w'.new_in_map a later n)
  ];
}
