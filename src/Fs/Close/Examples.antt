-- ===== src/Fs/Close/Examples.antt =====
-- fclose of the second entry of a table at 0x1000.
use flame_os.Base.{ℕ, ◌+◌, ◌*◌, ◌<◌, ◌≡◌, ◌≢◌, ◌⊎◌, true, [], ◌∷◌, ◌==◌, if◌then◌else◌, refl, arith}
use flame_os.Memory.Machine.{done, pure, ◌>>◌}
use flame_os.Memory.Heap.Free.{free}
use flame_os.Memory.Examples.{machine}
use flame_os.Memory.Heap.Free.Gives.{Gives}
use flame_os.Fs.{File}
use flame_os.Fs.Table.{file_size, max_open_files}
use flame_os.Fs.Close.{closed, fclose}
use flame_os.Fs.Close.Released.{frees, fclose-cases}

-- The path of one component.
abbrev word : ℕ → ℕ
word a = if a == 0x18_0000_0000 then 0x18_0000_0100 else 0

abbrev table : ℕ → File
table a = record {
  path = 0x18_0000_0000;
  volume = 0;
  pointer = 5;
  size = 520;
  flags = 0;
  used = true;
}

fclose-cases_example :
    (((k : ℕ) → k < max_open_files → 0x1028 ≢ 0x1000 + k * file_size)
      × (fclose 2 0x1000 0x1028 word table (machine 0) ≡ done (1, table) (machine 0)))
    ⊎ ((k : ℕ) × (k < max_open_files)
        × (0x1028 ≡ 0x1000 + k * file_size)
        × (fclose 2 0x1000 0x1028 word table (machine 0)
            ≡ ((frees (0x18_0000_0100 ∷ []) >> free 0x18_0000_0000)
                  >> pure (0, closed 0x1028 table))
                (machine 0))
        × Gives (0, closed 0x1028 table) (fclose 2 0x1000 0x1028 word table (machine 0)))
fclose-cases_example =
    fclose-cases 2 0x1000 0x1028 word table (0x18_0000_0100 ∷ []) (machine 0) (λ e. omega arith)
      (refl, (λ e. omega arith), omega arith, refl) (omega arith)
