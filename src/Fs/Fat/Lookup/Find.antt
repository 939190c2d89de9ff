-- ===== src/Fs/Fat/Lookup/Find.antt =====
-- find_fat_entry of a path whose components stand among the short entries at the start of the first
-- clusters of the directories.
use flame_os.Base.{
  ℕ, zero, suc, ◌+◌, ◌*◌, ◌/◌, ◌%◌, ◌^◌, ◌<◌, ◌≤◌, ◌≡◌, ◌≢◌, refl, sym, ◌∙◌, arith, true, false,
  List, [], ◌∷◌, length, some, Run, ok, ◌==◌, leb, ltb, if◌then◌else◌, bit_and, add64, u32,
}
use mathlib.Core.Path.{}
use native.Mathlib.Decide.{ℕ_discrete}
use flame_os.Libc.Bytes
use flame_os.Libc.Bytes.Strings.{IsString}
use flame_os.Fs.Fat.{FsInfo, sector_size, bytes_per_cluster, read_into}
use flame_os.Fs.Fat.Clusters.{cluster_byte}
use flame_os.Fs.Fat.Lookup.{
  FatEntry, fat_entry, cluster_of, lfn, filename_length, Scan, found, scan, finish_name,
  read_directory, find_loop, find_fat_entry,
}
use flame_os.Fs.Fat.Lookup.Names.{
  base_name, short_name, NoNul, put_short-Named, IsApart, matches-same, matches-other,
}

base_name-cong :
    (left off : ℕ) (b b' : Bytes.Bytes)
    → ((r : ℕ) → off ≤ r → r < off + left → b r ≡ b' r)
    → base_name left off b ≡ base_name left off b'
base_name-cong zero off b b' same = refl
base_name-cong (suc left) off b b' same =
    let rest = base_name-cong left (suc off) b b' (λ r lo hi. same r (omega arith) (omega arith)) in
    rw (same off (omega arith) (omega arith), rest) refl

short_name-cong :
    (off : ℕ) (b b' : Bytes.Bytes)
    → ((r : ℕ) → off ≤ r → r < off + 32 → b r ≡ b' r)
    → short_name off b ≡ short_name off b'
short_name-cong off b b' same =
    rw
      (
        base_name-cong 8 off b b' (λ r lo hi. same r lo (omega arith)),
        same (off + 8) (omega arith) (omega arith),
        same (off + 9) (omega arith) (omega arith),
        same (off + 10) (omega arith) (omega arith),
      )
      refl

fat_entry-cong :
    (k : ℕ) (b b' : Bytes.Bytes)
    → ((r : ℕ) → 32 * k ≤ r → r < 32 * k + 32 → b r ≡ b' r)
    → fat_entry b k ≡ fat_entry b' k
fat_entry-cong k b b' same =
    rw
      (
        same (32 * k + 11) (omega arith) (omega arith),
        same (32 * k + 20) (omega arith) (omega arith),
        same (32 * k + 20 + 1) (omega arith) (omega arith),
        same (32 * k + 26) (omega arith) (omega arith),
        same (32 * k + 26 + 1) (omega arith) (omega arith),
        same (32 * k + 28) (omega arith) (omega arith),
        same (32 * k + 28 + 1) (omega arith) (omega arith),
        same (32 * k + 28 + 2) (omega arith) (omega arith),
        same (32 * k + 28 + 2 + 1) (omega arith) (omega arith),
      )
      refl

-- Entry `t` is the first one with the name `w` in the bytes of a directory; up to it there are only
-- short entries.
pub record IsFirst (dir : Bytes.Bytes) (t : ℕ) (w : List ℕ) : Type 0 where
  pub short : (k : ℕ) → k ≤ t → dir (32 * k + 11) ≢ lfn
  pub no_nul : (k : ℕ) → k ≤ t → NoNul (short_name (32 * k) dir)
  pub others : (k : ℕ) → k < t → short_name (32 * k) dir ≢ w
  pub named : short_name (32 * t) dir ≡ w

IsFirst-cong :
    (dir dir' : Bytes.Bytes) (t : ℕ) (w : List ℕ)
    → ((r : ℕ) → r < 32 * t + 32 → dir r ≡ dir' r)
    → IsFirst dir t w
    → IsFirst dir' t w
IsFirst-cong dir dir' t w same is =
    let name =
      λ (k : ℕ) (l : k ≤ t). short_name-cong (32 * k) dir dir' (λ r lo hi. same r (omega arith)) in
    record {
      short = λ k l e. is.short k l (same (32 * k + 11) (omega arith) ∙ e);
      no_nul = λ k l. let n = is.no_nul k l in rw (name k l) at n;
      others = λ k l e. is.others k l (name k (omega arith) ∙ e);
      named = sym (name t (omega arith)) ∙ is.named;
    }

-- The loop over the entries stops at such an entry.
data Finds (t : ℕ) : Run Scan → Type 0 where
  finds : {name : Bytes.Bytes} {len : ℕ} → Finds t (ok (found t name len))

module _ (at p : ℕ) (m : Bytes.Bytes) (w : List ℕ) (room : at + filename_length < 2 ^ 64)
    (low : p + length w < 2 ^ 64) (apart : IsApart at p w) (is_w : IsString m p w) where
  scan-Finds :
      (left k t len : ℕ) (buf name : Bytes.Bytes)
      → k ≤ t
      → t < k + left
      → IsFirst buf t w
      → Finds t (scan left k at (some p) false len buf m name)
  unfolding scan finish_name
  scan-Finds zero k t len buf name lo hi is = absurd (omega arith)
  scan-Finds (suc left) k t len buf name lo hi is =
      let plain : (buf (32 * k + 11) == lfn) ≡ false = ground (arith, is.short k lo) in
      let named = put_short-Named (32 * k) buf name in
      elim (ℕ_discrete k t) [
        | yes here ↦
            let e : short_name (32 * k) buf ≡ w = rw here is.named in
            rw (plain, matches-same at p m w room low apart is_w _ _ named (is.no_nul k lo) e)
              (rw here finds)
        | no other ↦
            rw
              (
                plain,
                matches-other at p m w room low apart is_w _ _ named (is.no_nul k lo)
                    (is.others k (omega arith)),
              )
              (scan-Finds left (suc k) t len buf _ (omega arith) (omega arith) is)
      ]

-- The components of a path in the memory, apart from the array for names.
abbrev pub AreStrings : (at : ℕ) → Bytes.Bytes → List ℕ → List (List ℕ) → Type 0
AreStrings at m [] [] = Unit {0}
AreStrings at m [] (w ∷ ws) = ⊥
AreStrings at m (p ∷ ps) [] = Unit {0}
AreStrings at m (p ∷ ps) (w ∷ ws) =
    (p + length w < 2 ^ 64) × IsApart at p w × IsString m p w × AreStrings at m ps ws

module _ (sector : ℕ → Bytes.Bytes) (i : FsInfo) (part : ℕ) where
  -- From the directory that starts in cluster `c`, the components lead to the file with the entry `e`:
  -- each one is first in its directory's first cluster, and all but the last one are directories.
  pub data Resolves : ℕ → List (List ℕ) → FatEntry → Type 0 where
    file :
        {c : ℕ} {w : List ℕ} {e : FatEntry} (t : ℕ)
        → 32 * t + 32 ≤ sector_size * i.sectors_per_cluster
        → IsFirst (cluster_byte sector i part c) t w
        → e ≡ fat_entry (cluster_byte sector i part c) t
        → bit_and e.attr 0x10 ≡ 0
        → Resolves c (w ∷ []) e
    directory :
        {c : ℕ} {w : List ℕ} {ws : List (List ℕ)} {d e : FatEntry} (t : ℕ)
        → 32 * t + 32 ≤ sector_size * i.sectors_per_cluster
        → IsFirst (cluster_byte sector i part c) t w
        → d ≡ fat_entry (cluster_byte sector i part c) t
        → bit_and d.attr 0x10 ≢ 0
        → Resolves (cluster_of d) ws e
        → Resolves c (w ∷ ws) e

  module _ (sectors : i.bytes_per_sector ≡ sector_size) (few : i.sectors_per_cluster < 2 ^ 8)
      (at : ℕ) (m : Bytes.Bytes) (room : at + filename_length < 2 ^ 64) where
    record Reads (c : ℕ) (r : Run Bytes.Bytes) : Type 0 where
      buf : Bytes.Bytes
      returns : r ≡ ok buf
      same :
          (a : ℕ) → a < sector_size * i.sectors_per_cluster → buf a ≡ cluster_byte sector i part c a

    size_lem : bytes_per_cluster i ≡ sector_size * i.sectors_per_cluster
    unfolding bytes_per_cluster
    size_lem = rw sectors (omega (arith, few))

    read_directory-Reads :
        (c : ℕ) (buf : Bytes.Bytes) → Reads c (read_directory sector i part c buf)
    unfolding read_directory read_into
    read_directory-Reads c buf =
        let size : ℕ = sector_size * i.sectors_per_cluster in
        let fits : leb size size ≡ true = ground arith in
        record {
          buf = λ a.
              if ltb a size
              then sector
                  (add64 (add64 (add64 part i.data_start) (u32 (c * i.sectors_per_cluster)))
                    (a / sector_size))
                  (a % sector_size)
              else buf a;
          returns = rw (size_lem, fits) refl;
          same = λ a l. ground arith;
        }

    -- What a round finds, in the buffer of the directory.
    record Round (c p t : ℕ) (e : FatEntry) (buf₀ name₀ : Bytes.Bytes) (len₀ : ℕ) : Type 0 where
      reads : Reads c (read_directory sector i part c buf₀)
      name : Bytes.Bytes
      len : ℕ
      scanned :
          scan (bytes_per_cluster i / 32) 0 at (some p) false len₀ reads.buf m name₀
          ≡ ok (found t name len)
      is_entry : fat_entry reads.buf t ≡ e

    inverse :
        {t : ℕ} {r : Run Scan}
        → Finds t r
        → (name : Bytes.Bytes) × (len : ℕ) × (r ≡ ok (found t name len))
    inverse (finds {name} {len}) = (name, len, refl)

    round :
        (c p t : ℕ) (w : List ℕ) (e : FatEntry) (buf₀ name₀ : Bytes.Bytes) (len₀ : ℕ)
        → 32 * t + 32 ≤ sector_size * i.sectors_per_cluster
        → IsFirst (cluster_byte sector i part c) t w
        → e ≡ fat_entry (cluster_byte sector i part c) t
        → p + length w < 2 ^ 64
        → IsApart at p w
        → IsString m p w
        → Round c p t e buf₀ name₀ len₀
    round c p t w e buf₀ name₀ len₀ fits is ee low apart is_w =
        let r = read_directory-Reads c buf₀ in
        let same = λ (a : ℕ) (l : a < 32 * t + 32). r.same a (omega arith) in
        let is' = IsFirst-cong _ r.buf t w (λ a l. sym (same a l)) is in
        let (name, len, s) = inverse (
          scan-Finds at p m w room low apart is_w (bytes_per_cluster i / 32) 0 t len₀ r.buf name₀
            (omega arith) (omega (arith, size_lem)) is') in
        record {
          reads = r;
          name = name;
          len = len;
          scanned = s;
          is_entry = fat_entry-cong t r.buf _ (λ a lo hi. same a (omega arith)) ∙ sym ee;
        }

    find_loop-Resolves :
        (fuel c len : ℕ) (ps : List ℕ) (ws : List (List ℕ)) (fat buf name : Bytes.Bytes)
        (e junk : FatEntry)
        → length ps ≤ fuel
        → AreStrings at m ps ws
        → Resolves c ws e
        → find_loop sector i part fuel at ps true c len fat buf m name junk ≡ ok (0, e)
    unfolding find_loop
    find_loop-Resolves fuel c len [] ws fat buf name e junk enough strings (file t _ _ _ _) =
        absurd strings
    find_loop-Resolves fuel c len [] ws fat buf name e junk enough strings (directory t _ _ _ _ _) =
        absurd strings
    find_loop-Resolves zero c len (p ∷ ps) ws fat buf name e junk enough strings r =
        absurd (omega arith)
    find_loop-Resolves (suc fuel) c len (p ∷ ps) ws fat buf name e junk enough strings
          (file {w = w} t fits is ee is_file) =
        let r = round c p t w e buf name len fits is ee strings.0 strings.1 strings.2 in
        let plain : (bit_and e.attr 0x10 == 0) ≡ true = rw is_file refl in
        rw (r.reads.returns, r.scanned, r.is_entry, plain) refl
    find_loop-Resolves (suc fuel) c len (p ∷ ps) ws fat buf name e junk enough strings
          (directory {w = w} {ws = ws'} {d = d} t fits is ee is_dir next) =
        let r = round c p t w d buf name len fits is ee strings.0 strings.1 strings.2 in
        let deep : (bit_and d.attr 0x10 == 0) ≡ false = ground arith in
        rw (r.reads.returns, r.scanned, r.is_entry, deep)
          (find_loop-Resolves fuel (cluster_of d) r.len ps ws' fat r.reads.buf r.name e d
            (omega arith) strings.3 next)

    -- `find_fat_entry` returns 0 with the entry of the file that a path of short names leads to, on a
    -- volume with sectors of 512 bytes and clusters of less than 256 sectors. Each component, a string
    -- apart from the array for names, must be the name that the driver makes of a short entry: the name
    -- up to a space, a dot, and all three characters of the extension, spaces included, so that also a
    -- directory has a dot. The first entry with this name must be in the cluster where the driver first
    -- looks for the directory, with no entry of a long name and no NUL in its name or in one before it.
    -- All entries but the last are of directories, the last one is not. Fuel for the components is
    -- enough.
    pub find_fat_entry-Resolves :
        (fuel : ℕ) (ps : List ℕ) (ws : List (List ℕ)) (junk : Bytes.Bytes) (e junk_entry : FatEntry)
        → length ps ≤ fuel
        → AreStrings at m ps ws
        → Resolves i.root_cluster ws e
        → find_fat_entry sector i part fuel at ps junk m junk_entry ≡ ok (0, e)
    unfolding find_fat_entry read_into
    find_fat_entry-Resolves fuel ps ws junk e junk_entry enough strings r =
        find_loop-Resolves fuel i.root_cluster 0 ps ws _ junk junk e junk_entry enough strings r
