-- ===== src/Memory/Machine.antt =====
-- The state that kernel/memory/memory.c and kernel/arch/x86_64/memory/paging.c share, and commands
-- over it. Page tables are read and written at their physical addresses, as the source does: it
-- maps each table's page to itself.
use flame_os.Base.{ℕ, List}
use flame_os.Memory.Phys.{FreeArea, Bitmap}

-- `mem_t`
pub record Region : Type 0 where
  pub addr : ℕ
  pub size : ℕ

-- `pmem_bmap`, `freemap` with `fm_descs` entries, `mm_descs`, `pml4`, the other tables by the
-- address of their page, and the rows of `freespace` and `allocations`, one for each heap.
pub record Machine : Type 0 where
  pub bmap : Bitmap
  pub freemap : List FreeArea
  pub mm_descs : ℕ
  pub pml4 : ℕ → ℕ
  pub table : ℕ → ℕ → ℕ
  pub freespace : ℕ → List Region
  pub allocations : ℕ → List Region

-- How a command ends. `null_write` is a write through the NULL that `phys_page_alloc` returned,
-- and `bad_read` a read behind the entries of `freemap`, each with the state at that point.
pub data Run (A : Type 0) : Type 0 where
  done : A → Machine → Run A
  null_write : Machine → Run A
  bad_read : Machine → Run A
  out_of_fuel : Run A

abbrev pub Cmd : Type 0 → Type 0
Cmd A = Machine → Run A

abbrev pub pure : {A : Type 0} → A → Cmd A
pure = done

module _ {A B : Type 0} where
  abbrev pub and_then : Run A → (A → Cmd B) → Run B
  and_then (done a s) k = k a s
  and_then (null_write s) k = null_write s
  and_then (bad_read s) k = bad_read s
  and_then out_of_fuel k = out_of_fuel

  infixl 5 ◌>>=◌ ◌>>◌
  abbrev pub ◌>>=◌ : Cmd A → (A → Cmd B) → Cmd B
  m >>= k = λ s. and_then (m s) k

  abbrev pub ◌>>◌ : Cmd A → Cmd B → Cmd B
  m >> n = m >>= λ _. n

abbrev pub get : Cmd Machine
get s = done s s
