-- ===== src/Memory/Paging/Leaf.antt =====
-- A write to a leaf of the tree changes the translation of one page.
use flame_os.Base.{
  ℕ, ◌+◌, ◌*◌, ◌<◌, ◌≡◌, inl, inr, refl, ap, ◌&&◌, true, false, arith, Bool-cases, ==_iff, ◌==◌,
}
use flame_os.Memory.Machine.{Machine}
use flame_os.Memory.Paging.{Table, at, entry, set_entry}
use flame_os.Memory.Paging.Grow.{same_table, same_table-eq, entry-set_entry, and_left, and_right}
use flame_os.Memory.Paging.Tree.{Ghost, level_of, IsTree, Grows}

module _ (g : Ghost) (s : Machine) (a i e : ℕ) (w : IsTree g s) (leaf : g.level a ≡ 3) where
  abbrev s' : Machine
  s' = set_entry (at a) i e s

  not_same : (t : Table) → level_of g t < 3 → same_table (at a) t ≡ false
  not_same t k = elim (Bool-cases (same_table (at a) t)) [
    | inr e' ↦ e'
    | inl e' ↦ absurd (omega (arith, ap (level_of g) (same_table-eq (at a) t e')))
  ]

  pub entry-write_leaf : (t : Table) (j : ℕ) → level_of g t < 3 → entry s' t j ≡ entry s t j
  entry-write_leaf t j k = ground (arith, entry-set_entry (at a) i e s t j, not_same t k)

  pub write_leaf-IsTree : IsTree g s'
  write_leaf-IsTree = record {
    map = w.map;
    child = λ t j l is k p.
        let same = entry-write_leaf t j k in rw same (w.child t j l is k (rw same at p));
    in_use = w.in_use;
  }

  pub write_leaf-Grows : Grows (λ v. v ≡ g.prefix a * 512 + i) g s g s'
  write_leaf-Grows = record {
    same_map = refl;
    fewer = omega arith;
    same_level = λ t n. refl;
    same_prefix = λ t n. refl;
    same_entry = λ t j l is k p. entry-write_leaf t j k;
    same_leaf = λ t j l k. elim (Bool-cases ((a == t) && (i == j))) [
      | inl e' ↦ inr (inl (same_place t j e'))
      | inr e' ↦ inl (ground (arith, entry-set_entry (at a) i e s (at t) j))
    ];
    new_in_map = λ t z n. absurd (n z);
  }
    where
      same_place :
          (t j : ℕ) → ((a == t) && (i == j)) ≡ true → g.prefix t * 512 + j ≡ g.prefix a * 512 + i
      same_place t j e' =
          let e₁ : a ≡ t = (==_iff a t).0 (and_left (a == t) (i == j) e') in
          let e₂ : i ≡ j = (==_iff i j).0 (and_right (a == t) (i == j) e') in
          omega (arith, ap g.prefix e₁)
