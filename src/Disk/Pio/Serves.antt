-- ===== src/Disk/Pio/Serves.antt =====
-- A disk that serves sectors, and memory with the words that it gave.
use flame_os.Base.{
  ℕ, suc, ◌+◌, ◌-◌, ◌*◌, ◌/◌, ◌%◌, ◌^◌, ◌<◌, ◌≤◌, ◌≡◌, ◌≢◌, ◌∙◌, arith, add64, ◌==◌, bit_and,
  if◌then◌else◌, leb, ltb, ◌&&◌,
}
use native.Mathlib.Decide.{dec_le, ℕ_discrete}
use mathlib.Core.Path.{ap₂, fun_ext}
use flame_os.Cpu.Io.{Device, WordPorts}
use flame_os.Libc.Bytes
use flame_os.Disk.Pio.{primary, dat, sts, cmd, bsy, drq, read_command, store16}
use flame_os.Disk.Pio.Address.{HasTaskFile, first_sector, sector_count}

-- A disk at the ports from `port` on. `wait` bounds how often its status is still read as busy or without
-- data; after a read command it gives the words of the sectors that its registers name, `content
-- first k` being word `k` from sector `first` on. `given` counts them.
pub record Serves {S : Type 0} (d : Device S) (w : WordPorts S) (port bound : ℕ)
    (now old : S → ℕ → ℕ) (wait first given left : S → ℕ) (content : ℕ → ℕ → ℕ) : Type 0 where
  pub registers : HasTaskFile d port now old
  pub not_busy : (s : S) → wait s ≡ 0 → bit_and (d.read (port + sts) s).0 bsy ≡ 0
  pub has_data : (s : S) → wait s ≡ 0 → 0 < left s → bit_and (d.read (port + sts) s).0 drq ≢ 0
  pub status_wait : (s : S) → wait (d.read (port + sts) s).1 ≤ wait s - 1
  pub status_first : (s : S) → first (d.read (port + sts) s).1 ≡ first s
  pub status_given : (s : S) → given (d.read (port + sts) s).1 ≡ given s
  pub status_left : (s : S) → left (d.read (port + sts) s).1 ≡ left s
  pub delay_wait : (s : S) → wait (d.read (primary + sts) s).1 ≤ wait s
  pub delay_first : (s : S) → first (d.read (primary + sts) s).1 ≡ first s
  pub delay_given : (s : S) → given (d.read (primary + sts) s).1 ≡ given s
  pub delay_left : (s : S) → left (d.read (primary + sts) s).1 ≡ left s
  pub word : (s : S) → 0 < left s → (w.read (port + dat) s).0 ≡ content (first s) (given s)
  pub word_wait : (s : S) → wait (w.read (port + dat) s).1 ≤ bound
  pub word_first : (s : S) → first (w.read (port + dat) s).1 ≡ first s
  pub word_given : (s : S) → 0 < left s → given (w.read (port + dat) s).1 ≡ suc (given s)
  pub word_left : (s : S) → left (w.read (port + dat) s).1 ≡ left s - 1
  pub command_wait : (s : S) → wait (d.write (port + cmd) read_command s) ≤ bound
  pub command_first :
      (s : S) → first (d.write (port + cmd) read_command s) ≡ first_sector d port now old s
  pub command_given : (s : S) → given (d.write (port + cmd) read_command s) ≡ 0
  pub command_left :
      (s : S) → left (d.write (port + cmd) read_command s) ≡ 256 * sector_count d port now old s

-- Byte `i` of a word.
abbrev byte_of : (v i : ℕ) → ℕ
byte_of v i = if i == 0 then v % 2 ^ 8 else v / 2 ^ 8 % 2 ^ 8

-- The memory `m` with `n` words at `buf`.
abbrev pub loaded : (word : ℕ → ℕ) (n buf : ℕ) → Bytes.Bytes → ℕ → ℕ
loaded word n buf m a =
    if leb buf a && ltb a (buf + 2 * n) then byte_of (word ((a - buf) / 2)) ((a - buf) % 2) else m a

loaded-append :
    (word : ℕ → ℕ) (p q buf : ℕ) (m : Bytes.Bytes) (a : ℕ)
    → loaded (λ k. word (p + k)) q (buf + 2 * p) (λ x. loaded word p buf m x) a
      ≡ loaded word (p + q) buf m a
loaded-append word p q buf m a = elim (dec_le (buf + 2 * p) a) [
  | yes above ↦
      let half : p + (a - (buf + 2 * p)) / 2 ≡ (a - buf) / 2 = omega arith in
      let odd : (a - (buf + 2 * p)) % 2 ≡ (a - buf) % 2 = omega arith in
      rw (half, odd) (ground arith)
  | no below ↦ ground arith
]

pub store16-loaded :
    (word : ℕ → ℕ) (v buf : ℕ) (m : Bytes.Bytes) (a : ℕ)
    → v ≡ word 0
    → buf + 2 < 2 ^ 64
    → store16 m buf v a ≡ loaded word 1 buf m a
store16-loaded word v buf m a e h =
    let next : add64 buf 1 ≡ buf + 1 = omega arith in
    rw (next, e)
      (elim (ℕ_discrete a buf) [
        | yes here ↦
            let half : (a - buf) / 2 ≡ 0 = omega arith in
            let odd : (a - buf) % 2 ≡ 0 = omega arith in rw (half, odd) (ground arith)
        | no other ↦ elim (ℕ_discrete a (buf + 1)) [
          | yes there ↦
              let half : (a - buf) / 2 ≡ 0 = omega arith in
              let odd : (a - buf) % 2 ≡ 1 = omega arith in rw (half, odd) (ground arith)
          | no other' ↦ ground arith
        ]
      ])

-- More words behind those that are there.
pub loaded-more :
    (word word' : ℕ → ℕ) (p q buf : ℕ) (m m' : Bytes.Bytes) (a : ℕ)
    → ((k : ℕ) → word' k ≡ word (p + k))
    → ((x : ℕ) → m' x ≡ loaded word p buf m x)
    → loaded word' q (buf + 2 * p) m' a ≡ loaded word (p + q) buf m a
loaded-more word word' p q buf m m' a same start =
    ap₂ (λ (f : ℕ → ℕ) (b : Bytes.Bytes). loaded f q (buf + 2 * p) b a) (fun_ext same)
      (fun_ext start)
    ∙ loaded-append word p q buf m a
