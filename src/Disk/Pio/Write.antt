-- ===== src/Disk/Pio/Write.antt =====
-- What writesectorpio sends: the low byte of each word.
use flame_os.Base.{
  ℕ, zero, suc, ◌+◌, ◌*◌, ◌^◌, ◌<◌, ◌≡◌, refl, ◌∙◌, ap, arith, Run, ◌>>=◌, add64, u8,
}
use mathlib.Core.Path.{fun_ext}
use flame_os.Cpu.Io.{Device}
use flame_os.Libc.Bytes
use flame_os.Disk.Pio.{
  port_of, bsy, load16, poll, await_sector, write_words, write_sectors, writesectorpio,
}

-- The memories agree on the low bytes of `n` words from `p` on.
abbrev pub SameLow : (n p : ℕ) → Bytes.Bytes → Bytes.Bytes → Type 0
SameLow n p m m' = (k : ℕ) → k < n → m (p + 2 * k) ≡ m' (p + 2 * k)

low_byte : (p : ℕ) (m m' : Bytes.Bytes) → m p ≡ m' p → u8 (load16 m p) ≡ u8 (load16 m' p)
low_byte p m m' h = omega arith

module _ {S : Type 0} (d : Device S) (m m' : Bytes.Bytes) where
  write_words-low :
      (n port p : ℕ) (s : S)
      → p + 2 * n < 2 ^ 64
      → SameLow n p m m'
      → write_words d n port p m s ≡ write_words d n port p m' s
  unfolding write_words
  write_words-low zero port p s h same = refl
  write_words-low (suc n) port p s h same =
      let here : m p ≡ m' p = ap m (omega arith) ∙ same 0 (omega arith) ∙ ap m' (omega arith) in
      let e : add64 p 2 ≡ p + 2 = omega arith in
      rw (e, low_byte p m m' here)
        (write_words-low n port (p + 2) _ (omega arith)
          (λ k l. ap m (omega arith) ∙ same (suc k) (omega arith) ∙ ap m' (omega arith)))

  bind_cong :
      {A B : Type 0} (r : Run A) (k k' : A → Run B)
      → ((a : A) → k a ≡ k' a)
      → (r >>= k) ≡ (r >>= k')
  bind_cong r k k' h = ap (λ f. r >>= f) (fun_ext h)

  write_sectors-low :
      (n fuel port p : ℕ) (s : S)
      → p + 512 * n < 2 ^ 64
      → SameLow (256 * n) p m m'
      → write_sectors d n fuel port p m s ≡ write_sectors d n fuel port p m' s
  unfolding write_sectors
  write_sectors-low zero fuel port p s h same = refl
  write_sectors-low (suc n) fuel port p s h same =
      let e : add64 p 512 ≡ p + 512 = omega arith in
      rw e (
        bind_cong (await_sector d fuel port s) _ _ λ s₁.
          ap (write_sectors d n fuel port (p + 512) m)
            (write_words-low 256 port p s₁ (omega arith) (λ k l. same k (omega arith)))
          ∙ write_sectors-low n fuel port (p + 512) _ (omega arith)
              (λ k l. ap m (omega arith) ∙ same (256 + k) (omega arith) ∙ ap m' (omega arith)))

  -- `writesectorpio` of two buffers that do not wrap and agree on the low bytes of their words
  -- is one and the same run, on every device: the other bytes never reach the disk.
  pub writesectorpio-low :
      (fuel lba count buffer disk : ℕ) (s : S)
      → buffer + 512 * count < 2 ^ 64
      → SameLow (256 * count) buffer m m'
      → writesectorpio d fuel lba count buffer disk m s
        ≡ writesectorpio d fuel lba count buffer disk m' s
  unfolding writesectorpio
  writesectorpio-low fuel lba count buffer disk s h same =
      bind_cong (poll d fuel (port_of disk) bsy s) _ _
        λ s₁. write_sectors-low count fuel (port_of disk) buffer _ h same
