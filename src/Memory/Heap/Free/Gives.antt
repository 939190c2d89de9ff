-- ===== src/Memory/Heap/Free/Gives.antt =====
-- free of any address ends.
use flame_os.Base.{ℕ, refl, List, Option, none, some}
use flame_os.Memory.Machine.{Machine, Region, Run, done, bad_read, Cmd, and_then}
use flame_os.Memory.Heap.Free.{free, free_from_heap, free_released, release, heap_of}
use flame_os.Memory.Heap.Free.Release.{Settles, settled, behind_map, free_block-Settles}

-- A run that returns the value `x`, or reads behind the entries of `freemap`.
pub data Gives {A : Type 0} (x : A) : Run A → Type 0 where
  gives : {s : Machine} → Gives x (done x s)
  reads_behind : {s : Machine} → Gives x (bad_read s)

pub Gives-then :
    {A B : Type 0} {x : A} {y : B} {r : Run A} (k : A → Cmd B)
    → Gives x r
    → ((s : Machine) → Gives y (k x s))
    → Gives y (and_then r k)
Gives-then k gives next = next _
Gives-then k reads_behind next = reads_behind

Settles-Gives : {f a : ℕ → List Region} {r : Run (Unit {0})} → Settles f a r → Gives tt r
Settles-Gives (settled h h') = gives
Settles-Gives behind_map = reads_behind

free_released-Gives :
    (addr heap : ℕ) (r : Option ℕ × Machine) → Gives tt (free_released addr heap r)
unfolding free_released
free_released-Gives addr heap (none, s) = gives
free_released-Gives addr heap (some size, s) =
    Settles-Gives (free_block-Settles s.freespace s.allocations addr size heap s refl refl)

free_from_heap-Gives :
    (addr : ℕ) (heap : Option ℕ) (s : Machine) → Gives tt (free_from_heap addr heap s)
unfolding free_from_heap
free_from_heap-Gives addr none s = gives
free_from_heap-Gives addr (some heap) s = free_released-Gives addr heap (release addr heap s)

pub free-Gives : (addr : ℕ) (s : Machine) → Gives tt (free addr s)
unfolding free
free-Gives addr s = free_from_heap-Gives addr (heap_of addr) s
