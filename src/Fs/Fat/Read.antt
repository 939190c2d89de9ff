-- ===== src/Fs/Fat/Read.antt =====
-- fat_read of a file whose clusters have their FAT entries in one sector.
use native.Mathlib.Nat.{mod-lt, mod-add-div'}
use native.Mathlib.Decide.{dec_lt}
use flame_os.Base.{
  ℕ, zero, suc, ◌+◌, ◌-◌, ◌*◌, ◌/◌, ◌%◌, ◌^◌, ◌≤◌, ◌<◌, ◌≡◌, ◌⊎◌, inl, inr, refl, sym, ◌∙◌, ap,
  arith, Bool-cases, true, false, Run, ok, add64, u32, leb, ltb, ◌==◌, ◌&&◌, if◌then◌else◌,
  row_below, row_before,
}
use flame_os.Libc.Bytes
use flame_os.Fs.Fat.{
  FsInfo, feps, sector_size, entry, bytes_per_cluster, read_into, load_next, advance, skip_clusters,
  read_cluster, read_clusters, read_partial, fat_read,
}
use flame_os.Fs.Fat.Paste.{Pasted, Pasted-last, Pasted-more}
use flame_os.Fs.Fat.Clusters.{IsFile, cluster_byte, loaded-entry}

module _ (sector : ℕ → Bytes.Bytes) (i : FsInfo) (part : ℕ) (chain : ℕ → ℕ) (n : ℕ)
    (file : IsFile sector i part chain n) (size : ℕ)
    (is_size : sector_size * i.sectors_per_cluster ≡ size) where
  abbrev content : ℕ → ℕ → ℕ
  content k r = cluster_byte sector i part (chain k) r

  -- The buffer has the entries of the file.
  abbrev HoldsFat : Bytes.Bytes → Type 0
  HoldsFat fat = (k : ℕ) → suc k < n → entry fat (chain k % feps) ≡ chain (suc k)

  size_lem : bytes_per_cluster i ≡ size
  unfolding bytes_per_cluster
  size_lem = rw file.sectors (omega (arith, file.few_sectors, is_size))

  load_next-ok :
      (k : ℕ) (fat : Bytes.Bytes)
      → suc k < n
      → HoldsFat fat
      → (load_next sector i part (chain k) fat ≡ ok fat)
        × ((chain k / feps == entry fat (chain k % feps) / feps) ≡ true)
  unfolding load_next
  load_next-ok k fat l holds =
      let t : (chain k / feps == entry fat (chain k % feps) / feps) ≡ true =
        rw (holds k l, file.together k (omega arith), file.together (suc k) l) (ground arith) in
      (rw t refl, t)

  skip_clusters-ok :
      (q k : ℕ) (fat : Bytes.Bytes)
      → k + q < n
      → HoldsFat fat
      → skip_clusters sector i q part (chain k) fat ≡ ok (chain (k + q), fat)
  unfolding skip_clusters advance
  skip_clusters-ok zero k fat l holds = ap (λ x. ok (chain x, fat)) (omega arith)
  skip_clusters-ok (suc q) k fat l holds =
      rw
        (
          (load_next-ok k fat (omega arith) holds).0,
          holds k (omega arith),
          skip_clusters-ok q (suc k) fat (omega arith) holds,
        )
        (ap (λ x. ok (chain x, fat)) (omega arith))

  -- A cluster in the buffer.
  record Holds (k : ℕ) (r : Run Bytes.Bytes) : Type 0 where
    buf : Bytes.Bytes
    returns : r ≡ ok buf
    bytes : (j : ℕ) → j < size → buf j ≡ content k j

  read_cluster-Holds :
      (k : ℕ) (buf : Bytes.Bytes) → Holds k (read_cluster sector i part (chain k) buf)
  unfolding read_cluster read_into
  read_cluster-Holds k buf =
      let count : (i.bytes_per_sector / sector_size * i.sectors_per_cluster) % 2 ^ 16
          ≡ i.sectors_per_cluster =
        rw file.sectors (omega (arith, file.few_sectors)) in
      let room : leb size size ≡ true = ground arith in
      record {
        buf = λ a.
            if ltb a size
            then sector
                (add64 (add64 (add64 part i.data_start) (u32 (chain k * i.sectors_per_cluster)))
                  (a / sector_size))
                (a % sector_size)
            else buf a;
        returns = rw (count, size_lem, is_size, room) refl;
        bytes = λ j l. ground arith;
      }

  data Pastes (k from ptr bytes : ℕ) (m : Bytes.Bytes) : Run Bytes.Bytes → Type 0 where
    pastes :
        {m' : Bytes.Bytes}
        → Pasted content size k from ptr bytes m m'
        → Pastes k from ptr bytes m (ok m')

  read_clusters-Pastes :
      (fuel k ptr bytes : ℕ) (fat buf m : Bytes.Bytes)
      → n ≤ k + fuel
      → 0 < bytes
      → k * size + bytes ≤ n * size
      → ptr + bytes < 2 ^ 64
      → HoldsFat fat
      → Pastes k 0 ptr bytes m (read_clusters sector i fuel part ptr bytes (chain k) fat buf m)
  unfolding read_clusters
  read_clusters-Pastes zero k ptr bytes fat buf m enough pos h wrap holds =
      let l = row_before size k n bytes pos h in absurd (omega arith)
  read_clusters-Pastes (suc fuel) k ptr bytes fat buf m enough pos h wrap holds =
      let c = read_cluster-Holds k buf in
      rw (c.returns, size_lem)
        (elim (Bool-cases (ltb size bytes)) [
          | inr last ↦
              rw last
                (pastes (Pasted-last content size k 0 ptr bytes c.buf m c.bytes (ground arith)))
          | inl more ↦
              let gt : size < bytes = ground arith in
              let e : suc k * size ≡ k * size + size = grind arith in
              let l : suc k < n =
                row_before size (suc k) n (bytes - size) (omega arith) (omega arith) in
              let next = load_next-ok k fat l holds in
              let step : add64 ptr size ≡ ptr + size = omega arith in
              rw (more, next.0, next.1, holds k l, file.goes_on (suc k) l, step)
                (more_Pastes k ptr bytes c.buf m c.bytes gt (
                  read_clusters-Pastes fuel (suc k) (ptr + size) (bytes - size) fat c.buf _
                    (omega arith) (omega arith) (omega arith) (omega arith) holds))
        ])
    where
      more_Pastes :
          (k ptr bytes : ℕ) (buf m : Bytes.Bytes) {r : Run Bytes.Bytes}
          → ((j : ℕ) → j < size → buf j ≡ content k j)
          → size < bytes
          → Pastes
              (suc k)
              0
              (ptr + size)
              (bytes - size)
              (λ a. if leb ptr a && ltb a (ptr + size) then buf (0 + (a - ptr)) else m a)
              r
          → Pastes k 0 ptr bytes m r
      more_Pastes k ptr bytes buf m b l (pastes p) =
          pastes (Pasted-more content size k 0 size ptr bytes buf m _ b (omega arith) l p)

  read_partial-Pastes :
      (fuel k from ptr bytes : ℕ) (fat buf m : Bytes.Bytes)
      → n ≤ k + fuel
      → 0 < bytes
      → from < size
      → k * size + (from + bytes) ≤ n * size
      → ptr + bytes < 2 ^ 64
      → HoldsFat fat
      → Pastes k from ptr bytes m
          (read_partial sector i fuel part from ptr bytes (chain k) fat buf m)
  unfolding read_partial advance
  read_partial-Pastes fuel k from ptr bytes fat buf m enough pos inside h wrap holds =
      let c = read_cluster-Holds k buf in
      rw (c.returns, size_lem)
        (elim (Bool-cases (ltb (size - from) bytes)) [
          | inr last ↦
              rw last
                (pastes (Pasted-last content size k from ptr bytes c.buf m c.bytes (ground arith)))
          | inl more ↦
              let e : suc k * size ≡ k * size + size = grind arith in
              let l : suc k < n =
                row_before size (suc k) n (from + bytes - size) (ground arith) (ground arith) in
              let step : add64 ptr (size - from) ≡ ptr + (size - from) = ground arith in
              rw (more, (load_next-ok k fat l holds).0, holds k l, step)
                (after_partial k from ptr bytes c.buf m c.bytes (omega arith) (ground arith) (
                  read_clusters-Pastes fuel (suc k) (ptr + (size - from)) (bytes - (size - from))
                    fat c.buf _ (omega arith) (ground arith) (ground arith) (ground arith) holds))
        ])
    where
      after_partial :
          (k from ptr bytes : ℕ) (buf m : Bytes.Bytes) {r : Run Bytes.Bytes}
          → ((j : ℕ) → j < size → buf j ≡ content k j)
          → from < size
          → size - from < bytes
          → Pastes
              (suc k)
              0
              (ptr + (size - from))
              (bytes - (size - from))
              (λ a.
                if leb ptr a && ltb a (ptr + (size - from)) then buf (from + (a - ptr)) else m a)
              r
          → Pastes k from ptr bytes m r
      after_partial k from ptr bytes buf m b inside l (pastes p) =
          pastes
            (Pasted-more content size k from (size - from) ptr bytes buf m _ b (omega arith) l p)

  -- Reading from `pointer` of the file, by the file's own clusters.
  returned :
      (pointer ptr bytes : ℕ) (m : Bytes.Bytes) {r : Run Bytes.Bytes}
      → 0 < size
      → Pastes (pointer / size) (pointer % size) ptr bytes m r
      → (m' : Bytes.Bytes) × (r ≡ ok m')
        × ((k j : ℕ)
            → j < size
            → pointer ≤ k * size + j
            → k * size + j < pointer + bytes
            → m' (ptr + (k * size + j - pointer)) ≡ cluster_byte sector i part (chain k) j)
        × ((a : ℕ) → (a < ptr) ⊎ (ptr + bytes ≤ a) → m' a ≡ m a)
  returned pointer ptr bytes m pos (pastes {m'} p) = (m', refl, at, p.old)
    where
      at :
          (k j : ℕ)
          → j < size
          → pointer ≤ k * size + j
          → k * size + j < pointer + bytes
          → m' (ptr + (k * size + j - pointer)) ≡ cluster_byte sector i part (chain k) j
      at k j l lo hi =
          let q = pointer / size in
          let from = pointer % size in
          let split : from + q * size ≡ pointer = mod-add-div' pointer size in
          let past : q < suc k = elim (dec_lt q (suc k)) [
            | yes y ↦ y
            | no no_past ↦ let below = row_below size k q (omega arith) in absurd (omega arith)
          ] in
          let d : q + (k - q) ≡ k = omega arith in
          let product : (q + (k - q)) * size ≡ q * size + (k - q) * size = grind arith in
          let product' : k * size ≡ q * size + (k - q) * size = rw d at product in
          let place : (k - q) * size + j - from ≡ k * size + j - pointer = omega arith in
          ap (λ x. m' (ptr + x)) (sym place)
          ∙ p.new (k - q) j l (omega arith) (omega arith)
          ∙ ap (λ x. cluster_byte sector i part (chain x) j) d

  read_whole-Pastes :
      (fuel k from ptr bytes : ℕ) (fat junk m : Bytes.Bytes)
      → n ≤ k + fuel
      → 0 < bytes
      → from < size
      → k * size + (from + bytes) ≤ n * size
      → ptr + bytes < 2 ^ 64
      → HoldsFat fat
      → Pastes k from ptr bytes m (
          if from == 0
          then read_clusters sector i fuel part ptr bytes (chain k) fat junk m
          else read_partial sector i fuel part from ptr bytes (chain k) fat junk m)
  read_whole-Pastes fuel k from ptr bytes fat junk m enough pos inside h wrap holds =
      elim (Bool-cases (from == 0)) [
        | inl start ↦
            let z : from ≡ 0 = ground arith in
            rw z
              (read_clusters-Pastes fuel k ptr bytes fat junk m enough pos (omega arith) wrap holds)
        | inr mid ↦
            rw mid
              (read_partial-Pastes fuel k from ptr bytes fat junk m enough pos inside h wrap holds)
      ]

  -- `fat_read` of at least one byte inside a file of at most 2 ^ 32 clusters whose FAT entries
  -- are in one sector of the FAT, on a volume with sectors of 512 bytes, to memory that does
  -- not wrap and with fuel for the clusters of the file, returns. The memory at `ptr` then
  -- holds the bytes of the file from its position on, where the driver looks for its clusters,
  -- and nothing else has changed.
  pub fat_read-file :
      (fuel pointer ptr bytes : ℕ) (junk m : Bytes.Bytes)
      → n ≤ fuel
      → n ≤ 2 ^ 32
      → 0 < bytes
      → pointer + bytes ≤ n * size
      → ptr + bytes < 2 ^ 64
      → (m' : Bytes.Bytes) × (fat_read sector i fuel part pointer ptr bytes (chain 0) junk m
          ≡ ok m')
        × ((k j : ℕ)
            → j < size
            → pointer ≤ k * size + j
            → k * size + j < pointer + bytes
            → m' (ptr + (k * size + j - pointer)) ≡ cluster_byte sector i part (chain k) j)
        × ((a : ℕ) → (a < ptr) ⊎ (ptr + bytes ≤ a) → m' a ≡ m a)
  unfolding fat_read read_into
  fat_read-file fuel pointer ptr bytes junk m enough few pos h wrap =
      let some : 0 < size = omega (arith, file.some_sectors, is_size) in
      let split : pointer % size + pointer / size * size ≡ pointer = mod-add-div' pointer size in
      let within : pointer % size < size = mod-lt pointer some in
      let l : pointer / size < n =
        row_before size (pointer / size) n (pointer % size + bytes) (omega arith) (omega arith) in
      let q : (pointer / size) % 2 ^ 32 ≡ pointer / size = omega arith in
      let zero_plus : 0 + pointer / size ≡ pointer / size = omega arith in
      let nonzero : (size == 0) ≡ false = ground arith in
      rw (size_lem, nonzero, q)
        (returned pointer ptr bytes m some (
          rw
            (
              skip_clusters-ok (pointer / size) 0 _ (omega arith)
                  (λ k s. loaded-entry sector _ junk (chain k) (omega arith) ∙ file.linked k s),
              zero_plus,
            )
            (read_whole-Pastes fuel (pointer / size) (pointer % size) ptr bytes _ junk m
              (omega arith) pos within (omega arith) wrap
              (λ k s. loaded-entry sector _ junk (chain k) (omega arith) ∙ file.linked k s))))
