-- ===== src/Memory/Heap/Refresh.antt =====
-- kernel/memory/memory.c, `refresh_freespace`.
pub mod Merge
use flame_os.Base.{
  ℕ, zero, suc, ◌+◌, ◌==◌, if◌then◌else◌, none, some, List, length, get_elem?, set, add64,
}
use flame_os.Memory.Machine.{Machine, Region}
use flame_os.Memory.Heap.{region, set_row}

-- `freespace[i][j].size += n`
abbrev pub grow : ℕ → ℕ → List Region → List Region
grow j n rows = elim (get_elem? rows j) [
  | none ↦ rows
  | some r ↦ set rows j (region r.addr (add64 r.size n))
]

-- One round of the inner loop, at entry `k`: an entry that starts at `end` is added to entry `j` and
-- cleared.
unfoldable pub merge_entry : (k j end : ℕ) → List Region → List Region
merge_entry k j end rows = elim (get_elem? rows k) [
  | none ↦ rows
  | some r ↦ if r.addr == end then set (grow j r.size rows) k (region 0 0) else rows
]

-- The inner loop, with the rounds that are left. `end` is computed before it, once.
unfoldable pub merge_loop : (left k j end : ℕ) → List Region → List Region
unfolding merge_entry
merge_loop zero k j end rows = rows
merge_loop (suc left) k j end rows = merge_loop left (k + 1) j end (merge_entry k j end rows)

unfoldable pub refresh_round : ℕ → List Region → List Region
unfolding merge_loop
refresh_round j rows = elim (get_elem? rows j) [
  | none ↦ rows
  | some r ↦ merge_loop (length rows) 0 j (add64 r.addr r.size) rows
]

unfoldable pub refresh_loop : (left j : ℕ) → List Region → List Region
unfolding refresh_round
refresh_loop zero j rows = rows
refresh_loop (suc left) j rows = refresh_loop left (j + 1) (refresh_round j rows)

unfoldable pub refresh_row : List Region → List Region
unfolding refresh_loop
refresh_row rows = refresh_loop (length rows) 0 rows

unfoldable pub refresh_freespace : Machine → Machine
unfolding refresh_row
refresh_freespace s = record s {
  freespace =
      set_row (set_row s.freespace 0 (refresh_row (s.freespace 0))) 1 (refresh_row (s.freespace 1));
}
