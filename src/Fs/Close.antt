-- ===== src/Fs/Close.antt =====
-- kernel/fs/FS.c: fclose. As in Fs/Table, `files` is the address of the table, and `at` what stands at an address;
-- `word` is the 64-bit word at an address, which the calls of free leave alone. The blocks go back to the
-- heaps of the machine. The loop takes fuel; a read through NULL ends a run as a `bad_read`.
pub mod Released
mod Examples
use flame_os.Base.{ℕ, zero, suc, ◌==◌, false, if◌then◌else◌, add64}
use flame_os.Memory.Machine.{Machine, Run, done, bad_read, out_of_fuel, Cmd, pure, ◌>>=◌, ◌>>◌}
use flame_os.Memory.Heap.Free.{free}
use flame_os.Fs.{File}
use flame_os.Fs.Table.{aligncheck}

-- `while (*ptr != NULL) free(*ptr++);`
unfoldable pub free_names : (word : ℕ → ℕ) → (fuel ptr : ℕ) → Cmd (Unit {0})
free_names word zero ptr = λ s. out_of_fuel
free_names word (suc fuel) ptr =
    let rest = free_names word fuel (add64 ptr 8) in
    if ptr == 0 then bad_read else if word ptr == 0 then pure tt else (free (word ptr) >> rest)

abbrev pub closed : (fp : ℕ) → (ℕ → File) → ℕ → File
closed fp at a = if a == fp then record (at a) { used = false } else at a

-- What `fclose` returns, and what then stands at an address.
unfoldable pub fclose : (fuel files fp : ℕ) → (word : ℕ → ℕ) → (ℕ → File) → Cmd (ℕ × (ℕ → File))
unfolding free_names aligncheck
fclose fuel files fp word at =
    if aligncheck files fp == 0
    then (free_names word fuel (at fp).path >> free (at fp).path) >> pure (0, closed fp at)
    else pure (1, at)
