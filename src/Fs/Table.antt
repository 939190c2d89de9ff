-- ===== src/Fs/Table.antt =====
-- kernel/fs/FS.c: the pointers to open files. `files` is the address of the table, and `at` what
-- stands at an address. A `FILE` takes 40 bytes.
use flame_os.Base.{
  ℕ, ◌+◌, ◌-◌, ◌*◌, ◌/◌, ◌%◌, ◌<◌, ◌≤◌, ◌≡◌, ◌↔◌, ◌||◌, ◌==◌, ltb, leb, if◌then◌else◌, arith,
}
use flame_os.Fs.{File, move}

abbrev pub max_open_files : ℕ
max_open_files = 0x100

abbrev pub file_size : ℕ
file_size = 40

unfoldable pub aligncheck : (files fp : ℕ) → ℕ
aligncheck files fp =
    if ltb fp files || leb (files + max_open_files * file_size) fp
    then 1
    else if fp % file_size == files % file_size
    then 0
    else 2

-- What `rewind` leaves at an address.
unfoldable pub rewind : (files fp : ℕ) → (ℕ → File) → ℕ → File
unfolding aligncheck
rewind files fp at a =
    if aligncheck files fp == 0 then (if a == fp then move 0 (at a) else at a) else at a

unfoldable pub fsize : (files fp : ℕ) → (ℕ → File) → ℕ
unfolding aligncheck
fsize files fp at = if aligncheck files fp == 0 then (at fp).size else 0

-- `aligncheck` accepts the addresses of the entries of the table, and no others.
pub aligncheck-entry :
    (files fp : ℕ)
    → (aligncheck files fp ≡ 0) ↔ ((k : ℕ) × (k < max_open_files) × (fp ≡ files + k * file_size))
unfolding aligncheck
aligncheck-entry files fp = (to, from)
  where
    to : aligncheck files fp ≡ 0 → (k : ℕ) × (k < max_open_files) × (fp ≡ files + k * file_size)
    to e =
        let low : files ≤ fp = ground arith in
        let high : fp < files + max_open_files * file_size = ground arith in
        let same : fp % file_size ≡ files % file_size = ground arith in
        ((fp - files) / file_size, omega arith, omega arith)

    from : (k : ℕ) × (k < max_open_files) × (fp ≡ files + k * file_size) → aligncheck files fp ≡ 0
    from (k, l, e) =
        let same : fp % file_size ≡ files % file_size = omega arith in
        let low : files ≤ fp = omega arith in
        let high : fp < files + max_open_files * file_size = omega arith in ground arith
