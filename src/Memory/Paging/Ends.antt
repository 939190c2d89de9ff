-- ===== src/Memory/Paging/Ends.antt =====
-- Total correctness of a run of the paging code: it ends with a postcondition, or at a write through
-- the NULL that `phys_page_alloc` returned when no page was free. It never runs out of fuel.
use flame_os.Base.{◌≡◌}
use flame_os.Memory.Phys.{phys_page_alloc}
use flame_os.Memory.Machine.{Machine, Run, done, null_write, Cmd, and_then}
use flame_os.Memory.Paging.Tree.{Ghost}

abbrev pub Exhausted : Machine → Type 0
Exhausted s = (phys_page_alloc s.freemap s.bmap).0 ≡ 0

-- The postcondition speaks of the value that is returned, and of what is then known of the tables.
pub data Returns {A : Type 0} (Q : A → Ghost → Machine → Type 0) : Run A → Type 0 where
  returns : {a : A} {s : Machine} (g : Ghost) → Q a g s → Returns Q (done a s)
  no_page : {s : Machine} → Exhausted s → Returns Q (null_write s)

abbrev pub Ends : {A : Type 0} → (Ghost → Machine → Type 0) → Run A → Type 0
Ends {A} Q = Returns {A = A} (λ _. Q)

module _ {A : Type 0} {Q : A → Ghost → Machine → Type 0} where
  pub bind_value :
      {B : Type 0} {R : B → Ghost → Machine → Type 0} {r : Run A} (k : A → Cmd B)
      → Returns Q r
      → ((a : A) (g : Ghost) (s : Machine) → Q a g s → Returns R (k a s))
      → Returns R (and_then r k)
  bind_value k (returns g q) next = next _ g _ q
  bind_value k (no_page e) next = no_page e

  pub mono_value :
      {R : A → Ghost → Machine → Type 0} {r : Run A}
      → Returns Q r
      → ((a : A) (g : Ghost) (s : Machine) → Q a g s → R a g s)
      → Returns R r
  mono_value (returns g q) weaken = returns g (weaken _ g _ q)
  mono_value (no_page e) weaken = no_page e

module _ {A : Type 0} {Q : Ghost → Machine → Type 0} where
  pub bind :
      {B : Type 0} {R : Ghost → Machine → Type 0} {r : Run A} (k : A → Cmd B)
      → Ends Q r
      → ((a : A) (g : Ghost) (s : Machine) → Q g s → Ends R (k a s))
      → Ends R (and_then r k)
  bind k e next = bind_value k e next

  pub mono :
      {R : Ghost → Machine → Type 0} {r : Run A}
      → Ends Q r
      → ((g : Ghost) (s : Machine) → Q g s → R g s)
      → Ends R r
  mono e weaken = mono_value e λ a. weaken
