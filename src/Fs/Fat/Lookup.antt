-- ===== src/Fs/Fat/Lookup.antt =====
-- kernel/fs/FAT.c: find_fat_entry and fat_filesize, over the bytes of the sectors. The path of a file is
-- the pointers to its components, without the NULL at the end; the strings are in a memory of bytes `m`. The
-- array `filename` is at the address `at`, its 256 characters are `name`; a write outside of it is a fault.
pub mod Names
pub mod Find
use flame_os.Base.{
  ℕ, zero, suc, ◌+◌, ◌-◌, ◌*◌, ◌/◌, ◌%◌, ◌^◌, Bool, true, false, ◌&&◌, List, [], ◌∷◌, Option, none,
  some, Run, ok, fault, out_of_fuel, ◌>>=◌, ◌==◌, leb, ltb, if◌then◌else◌, bit_and, add64, u8, u32,
  ℤ, pos, negsuc,
}
use flame_os.Libc.Bytes
use flame_os.Libc.Bytes.{store, strcmp}
use flame_os.Fs.Fat.{
  FsInfo, feps, sector_size, word16, word32, entry, in_chain, bytes_per_cluster, read_into,
}

-- The fields of `FAT_entry` that the code reads.
pub record FatEntry : Type 0 where
  pub attr : ℕ
  pub cluster_high : ℕ
  pub cluster_low : ℕ
  pub size : ℕ

-- Entry `k` of a buffer: the packed structure's fields, at their places.
abbrev pub fat_entry : Bytes.Bytes → ℕ → FatEntry
fat_entry b k = record {
  attr = b (32 * k + 11);
  cluster_high = word16 b (32 * k + 20);
  cluster_low = word16 b (32 * k + 26);
  size = word32 b (32 * k + 28);
}

-- `current->cluster_high << 16 | current->cluster_low`
unfoldable pub cluster_of : FatEntry → ℕ
cluster_of e = 2 ^ 16 * e.cluster_high + e.cluster_low

abbrev pub lfn : ℕ
lfn = 0x0f

abbrev pub filename_length : ℕ
filename_length = 256

-- `wcatomba` of `n` wide characters at `off` of the buffer, and `memcpy` of them to `base` of the name.
unfoldable pub put_wide : (n off base : ℕ) → (buf name : Bytes.Bytes) → Bytes.Bytes
put_wide zero off base buf name = name
put_wide (suc n) off base buf name =
    put_wide n (off + 2) (base + 1) buf (store name base (u8 (word16 buf off)))

-- The 13 characters of entry `k` with a part of a long name.
unfoldable pub put_lfn : (k : ℕ) → (buf name : Bytes.Bytes) → Run Bytes.Bytes
unfolding put_wide
put_lfn k buf name =
    let order = bit_and (buf (32 * k)) 0x1f in
    let base = (order - 1) * 13 in
    if order == 0
    then fault
    else if ltb filename_length (base + 13)
    then fault
    else ok (
        put_wide 2 (32 * k + 28) (base + 11) buf
          (put_wide 6 (32 * k + 14) (base + 5) buf (put_wide 5 (32 * k + 1) base buf name)))

-- The loop over the name of a short entry that starts at `off`: the index at its end, and the array.
unfoldable pub short_loop : (left j off : ℕ) → (buf name : Bytes.Bytes) → ℕ × Bytes.Bytes
short_loop zero j off buf name = (j, store name j (buf (off + j)))
short_loop (suc left) j off buf name =
    let rest = short_loop left (suc j) off buf (store name j (buf (off + j))) in
    if buf (off + j) == 32 then (j, store name j (buf (off + j))) else rest

unfoldable pub put_short : (off : ℕ) → (buf name : Bytes.Bytes) → Bytes.Bytes
unfolding short_loop
put_short off buf name =
    let (j, f) = short_loop 8 0 off buf name in
    let f₁ = store (store f j 46) (j + 1) (buf (off + 8)) in
    let f₂ = store (store f₁ (j + 2) (buf (off + 9))) (j + 3) (buf (off + 10)) in store f₂ (j + 4) 0

-- The memory with the array `filename` in it.
abbrev pub joined : (at : ℕ) → (name m : Bytes.Bytes) → Bytes.Bytes
joined at name m a = if leb at a && ltb a (at + filename_length) then name (a - at) else m a

abbrev pub is_zero : ℤ → Bool
is_zero (pos n) = n == 0
is_zero (negsuc n) = false

-- `!strcmp(filename, target)`; `none` is NULL.
unfoldable pub matches : (at : ℕ) → Option ℕ → (name m : Bytes.Bytes) → Run Bool
matches at none name m = fault
matches at (some p) name m = strcmp filename_length at p (joined at name m) >>= λ r. ok (is_zero r)

-- How the loop over the entries of a cluster ends: at an entry with the name, behind the last entry
-- inside a long name, or behind the last entry; with the array and `len`.
pub data Scan : Type 0 where
  found : ℕ → Bytes.Bytes → ℕ → Scan
  crossed exhausted : Bytes.Bytes → ℕ → Scan

-- The name is complete: after a long one it gets its NUL.
unfoldable pub finish_name :
    (in_lfn : Bool) (k len : ℕ) → (buf name : Bytes.Bytes) → Run Bytes.Bytes
unfolding put_short
finish_name true k len buf name = if ltb len filename_length then ok (store name len 0) else fault
finish_name false k len buf name = ok (put_short (32 * k) buf name)

-- `left` entries from entry `k` on; `in_lfn` inside the inner loop.
unfoldable pub scan :
    (left k at : ℕ) → Option ℕ → (in_lfn : Bool) (len : ℕ) → (buf m name : Bytes.Bytes) → Run Scan
unfolding put_lfn finish_name matches
scan zero k at target in_lfn len buf m name =
    ok (if in_lfn then crossed name len else exhausted name len)
scan (suc left) k at target in_lfn len buf m name =
    let long = put_lfn k buf name >>= scan left (suc k) at target true (len + 13) buf m in
    let short = finish_name in_lfn k len buf name >>= λ name'.
    let rest = scan left (suc k) at target false (if in_lfn then 0 else len) buf m name' in
    matches at target name' m >>= λ same.
    if same then ok (found k name' (if in_lfn then 0 else len)) else rest in
    if (fat_entry buf k).attr == lfn then long else short

abbrev pub head : List ℕ → Option ℕ
head [] = none
head (p ∷ path) = some p

abbrev pub tail : List ℕ → List ℕ
tail [] = []
tail (p ∷ path) = path

module _ (sector : ℕ → Bytes.Bytes) (i : FsInfo) (part : ℕ) where
  -- The sector of the FAT with the next cluster's entry, and the entry of this cluster's place in it.
  unfoldable pub next_cluster : (active : ℕ) → Bytes.Bytes → Run (ℕ × Bytes.Bytes)
  unfolding read_into
  next_cluster active fat = do
    fat' ←
        read_into sector sector_size (add64 (add64 part i.fat) (entry fat (active % feps) / feps))
          i.sectors_per_cluster fat
    ok (entry fat' (active % feps), fat')

  unfoldable pub read_directory : (active : ℕ) → Bytes.Bytes → Run Bytes.Bytes
  unfolding read_into bytes_per_cluster
  read_directory active buf =
      read_into sector (bytes_per_cluster i)
        (add64 (add64 part i.data_start) (u32 (active * i.sectors_per_cluster)))
        i.sectors_per_cluster buf

  -- From `inloop` on, or with `reload` false from `inloop2` on. The result is what the function returns
  -- and `*entry`, of which `found_entry` is the value so far.
  unfoldable pub find_loop :
      (fuel at : ℕ)
      → (path : List ℕ) → (reload : Bool) (active len : ℕ) → (fat buf m name : Bytes.Bytes)
      → FatEntry
      → Run (ℕ × FatEntry)
  find_loop zero at path reload active len fat buf m name found_entry = out_of_fuel
  find_loop (suc fuel) at path reload active len fat buf m name found_entry = do
    buf' ← if reload then read_directory active buf else ok buf
    end ← scan (bytes_per_cluster i / 32) 0 at (head path) false len buf' m name
    elim end [
      | found k name' len' ↦
          let e : FatEntry = fat_entry buf' k in
          let deeper = find_loop fuel at (tail path) true (cluster_of e) len' fat buf' m name' e in
          if bit_and e.attr 0x10 == 0 then ok (0, e) else deeper
      | crossed name' len' ↦ do
        t ← next_cluster active fat
        find_loop fuel at path false t.0 len' t.1 buf' m name' found_entry
      | exhausted name' len' ↦ do
        t ← next_cluster active fat
        let again = find_loop fuel at path true t.0 len' t.1 buf' m name' found_entry
        if in_chain t.0 then again else ok (2, found_entry)
    ]

  -- `junk` is what the arrays and the buffers hold at first, and `junk_entry` what `*entry` holds.
  unfoldable pub find_fat_entry :
      (fuel at : ℕ) → (path : List ℕ) → (junk m : Bytes.Bytes) → FatEntry → Run (ℕ × FatEntry)
  unfolding read_into
  find_fat_entry fuel at path junk m junk_entry = do
    fat ← read_into sector sector_size (add64 (add64 part i.fat) (i.root_cluster / feps)) 1 junk
    find_loop fuel at path true i.root_cluster 0 fat junk m junk junk_entry

  unfoldable pub fat_filesize :
      (fuel at : ℕ) → (path : List ℕ) → (junk m : Bytes.Bytes) → FatEntry → Run ℕ
  unfolding find_fat_entry
  fat_filesize fuel at path junk m junk_entry = do
    t ← find_fat_entry fuel at path junk m junk_entry
    ok t.1.size
