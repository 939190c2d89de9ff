-- ===== src/Disk/Pio/Read.antt =====
-- What readsectorpio reads from a disk that serves sectors.
use flame_os.Base.{
  ℕ, zero, suc, ◌+◌, ◌*◌, ◌^◌, ◌<◌, ◌≤◌, ◌≡◌, ◌≢◌, refl, ◌∙◌, ap, arith, Bool-cases, inl, inr, Run,
  ok, ◌>>=◌, add64, ◌==◌, bit_and, false,
}
use native.Mathlib.Decide.{}
use mathlib.Core.Path.{fun_ext}
use flame_os.Cpu.Io.{Device, WordPorts}
use flame_os.Libc.Bytes
use flame_os.Disk.Pio.{
  primary, port_of, select, dat, sts, cmd, bsy, drq, read_command, store16, poll, antipoll,
  delay_loop, smalldelay, await_sector, read_words, read_sectors, send_address, start_transfer,
  readsectorpio,
}
use flame_os.Disk.Pio.Address.{start_transfer-address}
use flame_os.Disk.Pio.Serves.{Serves, loaded, store16-loaded, loaded-more}

-- The state of a transfer: the sector it began with, and the words that are given and left.
module _ {S : Type 0} {d : Device S} {w : WordPorts S} {port bound : ℕ} {now old : S → ℕ → ℕ}
    {wait first given left : S → ℕ} {content : ℕ → ℕ → ℕ}
    (law : Serves d w port bound now old wait first given left content) where
  record At (f g l : ℕ) (s : S) : Type 0 where
    soon : wait s ≤ bound
    from : first s ≡ f
    gave : given s ≡ g
    rest : left s ≡ l

  -- A run that ends in such a state.
  data Reaches (P : S → Type 0) : Run S → Type 0 where
    reaches : {s : S} → P s → Reaches P (ok s)

  At-status : {f g l : ℕ} (s : S) → At f g l s → At f g l (d.read (port + sts) s).1
  At-status s h = record {
    soon = omega (arith, law.status_wait s, h.soon);
    from = law.status_first s ∙ h.from;
    gave = law.status_given s ∙ h.gave;
    rest = law.status_left s ∙ h.rest;
  }

  At-delay : {f g l : ℕ} (n : ℕ) (s : S) → At f g l s → At f g l (delay_loop d n s)
  unfolding delay_loop
  At-delay zero s h = h
  At-delay (suc n) s h = At-delay n (d.read (primary + sts) s).1 (record {
    soon = omega (arith, law.delay_wait s, h.soon);
    from = law.delay_first s ∙ h.from;
    gave = law.delay_given s ∙ h.gave;
    rest = law.delay_left s ∙ h.rest;
  })

  still : (s : S) → (bit_and (d.read (port + sts) s).0 bsy == 0) ≡ false → wait s ≢ 0
  still s busy z = ground (arith, law.not_busy s z)

  poll-At :
      (fuel f g l : ℕ) (s : S)
      → wait s < fuel
      → At f g l s
      → Reaches (At f g l) (poll d fuel port bsy s)
  unfolding poll
  poll-At zero f g l s lt h = absurd (omega arith)
  poll-At (suc fuel) f g l s lt h = elim (Bool-cases (bit_and (d.read (port + sts) s).0 bsy == 0)) [
    | inl free ↦ rw free (reaches (At-status s h))
    | inr busy ↦ rw busy (
        poll-At fuel f g l (d.read (port + sts) s).1
          (omega (arith, law.status_wait s, still s busy)) (At-status s h))
  ]

  antipoll-At :
      (fuel f g l : ℕ) (s : S)
      → wait s < fuel
      → 0 < l
      → At f g l s
      → Reaches (At f g l) (antipoll d fuel port drq s)
  unfolding antipoll
  antipoll-At zero f g l s lt pos h = absurd (omega arith)
  antipoll-At (suc fuel) f g l s lt pos h =
      elim (Bool-cases (bit_and (d.read (port + sts) s).0 drq == 0)) [
        | inr ready ↦ rw ready (reaches (At-status s h))
        | inl not_yet ↦
            let later : wait s ≢ 0 = λ z. law.has_data s z (omega (arith, h.rest)) (ground arith) in
            rw not_yet (
              antipoll-At fuel f g l (d.read (port + sts) s).1 (omega (arith, law.status_wait s))
                pos (At-status s h))
      ]

  await_sector-At :
      (fuel f g l : ℕ) (s : S)
      → bound < fuel
      → 0 < l
      → At f g l s
      → Reaches (At f g l) (await_sector d fuel port s)
  unfolding await_sector smalldelay
  await_sector-At fuel f g l s lt pos h =
      let h' = At-delay 15 s h in
      then_antipoll (poll-At fuel f g l (delay_loop d 15 s) (omega (arith, h'.soon)) h')
    where
      then_antipoll :
          {r : Run S} → Reaches (At f g l) r → Reaches (At f g l) (r >>= antipoll d fuel port drq)
      then_antipoll (reaches h₁) = antipoll-At fuel f g l _ (omega (arith, h₁.soon)) pos h₁

  -- The words of a sector, and the memory with them.
  record ReadsTo (f g l n buf : ℕ) (m : Bytes.Bytes) (r : S × Bytes.Bytes) : Type 0 where
    state : At f (g + n) l r.0
    memory : (a : ℕ) → r.1 a ≡ loaded (λ k. content f (g + k)) n buf m a

  read_words-At :
      (n f g l buf : ℕ) (s : S) (m : Bytes.Bytes)
      → buf + 2 * n < 2 ^ 64
      → At f g (n + l) s
      → ReadsTo f g l n buf m (read_words w n port buf s m)
  unfolding read_words
  read_words-At zero f g l buf s m h at = record {
    state = record {
      soon = at.soon;
      from = at.from;
      gave = omega (arith, at.gave);
      rest = omega (arith, at.rest);
    };
    memory = λ a. ground arith;
  }
  read_words-At (suc n) f g l buf s m h at =
      let pos : 0 < left s = omega (arith, at.rest) in
      let v : ℕ = (w.read (port + dat) s).0 in
      let s' : S = (w.read (port + dat) s).1 in
      let e : v ≡ content f (g + 0) =
        law.word s pos
        ∙ ap (λ x. content x (given s)) at.from
        ∙ ap (content f) (omega (arith, at.gave)) in
      let next : add64 buf 2 ≡ buf + 2 = omega arith in
      let r = read_words-At n f (g + 1) l (buf + 2) s' (store16 m buf v) (omega arith) (record {
        soon = law.word_wait s;
        from = law.word_first s ∙ at.from;
        gave = omega (arith, law.word_given s pos, at.gave);
        rest = omega (arith, law.word_left s, at.rest);
      }) in
      rw next (record {
        state = record {
          soon = r.state.soon;
          from = r.state.from;
          gave = omega (arith, r.state.gave);
          rest = r.state.rest;
        };
        memory = λ a.
            r.memory a
            ∙ loaded-more (λ k. content f (g + k)) (λ k. content f (g + 1 + k)) 1 n buf m
                (store16 m buf v) a (λ k. ap (content f) (omega arith))
                (λ x. store16-loaded (λ k. content f (g + k)) v buf m x e (omega arith))
            ∙ ap (λ t. loaded (λ k. content f (g + k)) t buf m a) (omega arith);
      })

  -- A run that returns such a state and memory.
  data Loads (f g l n buf : ℕ) (m : Bytes.Bytes) : Run (S × Bytes.Bytes) → Type 0 where
    loads : {r : S × Bytes.Bytes} → ReadsTo f g l n buf m r → Loads f g l n buf m (ok r)

  ReadsTo-append :
      (f g l n buf : ℕ) (m m₁ : Bytes.Bytes) (r : S × Bytes.Bytes)
      → ((x : ℕ) → m₁ x ≡ loaded (λ k. content f (g + k)) 256 buf m x)
      → ReadsTo f (g + 256) l (256 * n) (buf + 512) m₁ r
      → ReadsTo f g l (256 * suc n) buf m r
  ReadsTo-append f g l n buf m m₁ r start t = record {
    state = record {
      soon = t.state.soon;
      from = t.state.from;
      gave = omega (arith, t.state.gave);
      rest = t.state.rest;
    };
    memory = λ a.
        t.memory a
        ∙ loaded-more (λ k. content f (g + k)) (λ k. content f (g + 256 + k)) 256 (256 * n) buf m m₁
            a (λ k. ap (content f) (omega arith)) start
        ∙ ap (λ t'. loaded (λ k. content f (g + k)) t' buf m a) (omega arith);
  }

  Loads-append :
      (f g l n buf : ℕ) (m m₁ : Bytes.Bytes) {r : Run (S × Bytes.Bytes)}
      → ((x : ℕ) → m₁ x ≡ loaded (λ k. content f (g + k)) 256 buf m x)
      → Loads f (g + 256) l (256 * n) (buf + 512) m₁ r
      → Loads f g l (256 * suc n) buf m r
  Loads-append f g l n buf m m₁ start (loads t) = loads (ReadsTo-append f g l n buf m m₁ _ start t)

  At-total : {f g l l' : ℕ} (s : S) → l ≡ l' → At f g l s → At f g l' s
  At-total s e at = record { soon = at.soon; from = at.from; gave = at.gave; rest = at.rest ∙ e }

  Loads-bind :
      {f g l f' g' l' n buf : ℕ} {m : Bytes.Bytes} {r : Run S} (k : S → Run (S × Bytes.Bytes))
      → Reaches (At f g l) r
      → ((s : S) → At f g l s → Loads f' g' l' n buf m (k s))
      → Loads f' g' l' n buf m (r >>= k)
  Loads-bind k (reaches at) next = next _ at

  read_sectors-At :
      (n fuel f g l buf : ℕ) (s : S) (m : Bytes.Bytes)
      → bound < fuel
      → buf + 512 * n < 2 ^ 64
      → At f g (256 * n + l) s
      → Loads f g l (256 * n) buf m (read_sectors d w n fuel port buf s m)
  unfolding read_sectors
  read_sectors-At zero fuel f g l buf s m lt h at = loads (record {
    state = record {
      soon = at.soon;
      from = at.from;
      gave = omega (arith, at.gave);
      rest = omega (arith, at.rest);
    };
    memory = λ a. ground arith;
  })
  read_sectors-At (suc n) fuel f g l buf s m lt h at =
      let next : add64 buf 512 ≡ buf + 512 = omega arith in
      rw next (
        Loads-bind _ (await_sector-At fuel f g (256 * suc n + l) s lt (omega arith) at) λ s₁ at₁.
          let words =
            read_words-At 256 f g (256 * n + l) buf s₁ m (omega arith)
              (At-total s₁ (omega arith) at₁) in
          Loads-append f g l n buf m _ words.memory
            (read_sectors-At n fuel f (g + 256) l (buf + 512) _ _ lt (omega arith) words.state))

  -- The read command leaves the registers alone.
  start_transfer-At :
      (outcmd lba count : ℕ) (s : S)
      → lba < 2 ^ 48
      → count < 2 ^ 16
      → At lba 0 (256 * count + 0) (start_transfer d port outcmd lba count read_command s)
  unfolding start_transfer
  start_transfer-At outcmd lba count s hl hc =
      let s₉ : S = send_address d port outcmd lba count s in
      let keep = λ (q : ℕ) (n : cmd ≢ q).
        law.registers.other_now cmd q read_command s₉ (omega arith) (omega arith) n in
      let keep' = λ (q : ℕ) (n : cmd ≢ q).
        law.registers.other_old cmd q read_command s₉ (omega arith) (omega arith) n in
      let sent =
        start_transfer-address d port now old law.registers outcmd lba count read_command s in
      record {
        soon = law.command_wait s₉;
        from =
            law.command_first s₉
            ∙ omega (
              arith,
              sent.0,
              keep 3 (λ e. omega arith),
              keep 4 (λ e. omega arith),
              keep 5 (λ e. omega arith),
              keep' 3 (λ e. omega arith),
              keep' 4 (λ e. omega arith),
              keep' 5 (λ e. omega arith),
            );
        gave = law.command_given s₉;
        rest =
            law.command_left s₉
            ∙ omega (arith, sent.1, keep 2 (λ e. omega arith), keep' 2 (λ e. omega arith));
      }

  from_zero : (f k : ℕ) → content f (0 + k) ≡ content f k
  from_zero f k = ap (content f) (omega arith)

  returned :
      (f l n buf : ℕ) (m : Bytes.Bytes) {r : Run (S × Bytes.Bytes)}
      → Loads f 0 l n buf m r
      → (s' : S) × (m' : Bytes.Bytes) × (r ≡ ok (s', m'))
        × ((a : ℕ) → m' a ≡ loaded (content f) n buf m a)
  returned f l n buf m (loads {r} t) = (
    r.0,
    r.1,
    refl,
    λ a. t.memory a ∙ ap (λ (g : ℕ → ℕ). loaded g n buf m a) (fun_ext (from_zero f)),
  )

  -- From a disk that serves sectors and is ready in time, `readsectorpio` with enough fuel, of
  -- a sector below 2 ^ 48 and a count below 2 ^ 16 into a buffer that does not wrap, returns.
  -- The buffer then holds the words of the sectors from `lba` on, low byte first, and no other
  -- byte has changed.
  pub readsectorpio-loads :
      (fuel lba count buffer disk : ℕ) (s : S) (m : Bytes.Bytes)
      → port ≡ port_of disk
      → bound < fuel
      → wait s ≤ bound
      → lba < 2 ^ 48
      → count < 2 ^ 16
      → buffer + 512 * count < 2 ^ 64
      → (s' : S) × (m' : Bytes.Bytes) × (readsectorpio d w fuel lba count buffer disk s m
          ≡ ok (s', m'))
        × ((a : ℕ) → m' a ≡ loaded (content lba) (256 * count) buffer m a)
  unfolding readsectorpio
  readsectorpio-loads fuel lba count buffer disk s m ep lt lw hl hc h =
      let start : At (first s) (given s) (left s) s = record {
        soon = lw;
        from = refl;
        gave = refl;
        rest = refl;
      } in
      rw (← ep) (
        returned lba 0 (256 * count) buffer m (
          Loads-bind _ (poll-At fuel (first s) (given s) (left s) s (omega arith) start) λ s₁ at₁.
            read_sectors-At count fuel lba 0 0 buffer _ m lt h
              (start_transfer-At (select 0x40 0x50 disk) lba count s₁ hl hc)))
