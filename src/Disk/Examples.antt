-- ===== src/Disk/Examples.antt =====
-- A disk on the first channel that always answers at once, and what the driver reads from it.
use flame_os.Base.{ℕ, ◌+◌, ◌*◌, ◌^◌, ◌%◌, ◌-◌, ◌≡◌, refl, arith, ok, ◌==◌, if◌then◌else◌, u16}
use flame_os.Cpu.Io.{Device, WordPorts}
use flame_os.Libc.Bytes
use flame_os.Disk.Pio.{drq, readsectorpio, writesectorpio}
use flame_os.Disk.Pio.Address.{HasTaskFile}
use flame_os.Disk.Pio.Serves.{Serves, loaded}
use flame_os.Disk.Pio.Read.{readsectorpio-loads}
use flame_os.Disk.Pio.Write.{writesectorpio-low}

record Drive : Type 0 where
  now : ℕ → ℕ
  old : ℕ → ℕ
  first : ℕ
  given : ℕ
  left : ℕ

-- The command register takes a command; every other register shifts.
abbrev accept : ℕ → ℕ → Drive → Drive
accept port v s = record {
  now = λ k. if port == 0x1f7 then s.now k else (if 0x1f0 + k == port then v else s.now k);
  old = λ k. if port == 0x1f7 then s.old k else (if 0x1f0 + k == port then s.now k else s.old k);
  first =
      if port == 0x1f7
      then s.now 3
        + 2 ^ 8 * s.now 4
        + 2 ^ 16 * s.now 5
        + 2 ^ 24 * s.old 3
        + 2 ^ 32 * s.old 4
        + 2 ^ 40 * s.old 5
      else s.first;
  given = if port == 0x1f7 then 0 else s.given;
  left = if port == 0x1f7 then 256 * (s.now 2 + 2 ^ 8 * s.old 2) else s.left;
}

abbrev drive : Device Drive
drive = record { read = λ port s. (drq, s); write = accept }

abbrev content : ℕ → ℕ → ℕ
content first k = u16 (first + k)

abbrev words : WordPorts Drive
words = record {
  read = λ port s. (content s.first s.given, record s { given = s.given + 1; left = s.left - 1 });
  write = λ port v s. s;
}

drive-HasTaskFile : HasTaskFile drive 0x1f0 (λ s. s.now) (λ s. s.old)
drive-HasTaskFile = record {
  written = λ r v s l h. ground arith;
  pushed = λ r v s l h. ground arith;
  other_now = λ r q v s l h n. ground arith;
  other_old = λ r q v s l h n. ground arith;
}

drive-Serves :
    Serves drive words 0x1f0 0
      (λ s. s.now)
      (λ s. s.old)
      (λ s. 0)
      (λ s. s.first)
      (λ s. s.given)
      (λ s. s.left)
      content
drive-Serves = record {
  registers = drive-HasTaskFile;
  not_busy = λ s h. refl;
  has_data = λ s h l e. omega arith;
  status_wait = λ s. omega arith;
  status_first = λ s. refl;
  status_given = λ s. refl;
  status_left = λ s. refl;
  delay_wait = λ s. omega arith;
  delay_first = λ s. refl;
  delay_given = λ s. refl;
  delay_left = λ s. refl;
  word = λ s l. refl;
  word_wait = λ s. omega arith;
  word_first = λ s. refl;
  word_given = λ s l. omega arith;
  word_left = λ s. refl;
  command_wait = λ s. omega arith;
  command_first = λ s. refl;
  command_given = λ s. refl;
  command_left = λ s. refl;
}

abbrev idle : Drive
idle = record { now = λ k. 0; old = λ k. 0; first = 0; given = 0; left = 0 }

abbrev zeros : Bytes.Bytes
zeros a = 0

-- One sector, number 63, to address 4096.
readsectorpio-loads_example :
    (s' : Drive) × (m' : Bytes.Bytes) × (readsectorpio drive words 1 63 1 4096 0 idle zeros
      ≡ ok (s', m'))
    × ((a : ℕ) → m' a ≡ loaded (content 63) (256 * 1) 4096 zeros a)
readsectorpio-loads_example =
    readsectorpio-loads drive-Serves 1 63 1 4096 0 idle zeros refl (omega arith) (omega arith)
      (omega arith) (omega arith) (omega arith)

-- A buffer with bytes in the odd places only.
abbrev high : Bytes.Bytes
high a = 7 * (a % 2)

writesectorpio-low_example :
    writesectorpio drive 1 63 1 4096 0 zeros idle ≡ writesectorpio drive 1 63 1 4096 0 high idle
writesectorpio-low_example =
    writesectorpio-low drive zeros high 1 63 1 4096 0 idle (omega arith) (λ k l. omega arith)
