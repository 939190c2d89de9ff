-- ===== src/Fs/Open/Path.antt =====
-- The components that fopen writes to its arrays.
use flame_os.Base.{
  ℕ, suc, ◌+◌, ◌^◌, ◌<◌, ◌≤◌, ◌≡◌, ◌≢◌, ◌⊎◌, inl, inr, refl, ap, ◌∙◌, arith, true, false, List, [],
  ◌∷◌, ◌++◌, length, ◌==◌, ltb, add64, ok,
}
use flame_os.Libc.Bytes
use flame_os.Libc.Bytes.{store}
use flame_os.Libc.Bytes.Strings.{IsString}
use flame_os.Fs.Fat.Lookup.{filename_length}
use flame_os.Fs.Fat.Lookup.Names.{}
use flame_os.Fs.Fat.Lookup.Find.{}
use flame_os.Fs.Open.{slash, name_length, write_path}

-- The characters of a component.
abbrev pub IsClean : List ℕ → Type 0
IsClean [] = Unit {0}
IsClean (c ∷ cs) = (c ≢ 0) × (c ≢ slash) × IsClean cs

-- Components with room for their NUL.
abbrev pub AllClean : List (List ℕ) → Type 0
AllClean [] = Unit {0}
AllClean (w ∷ ws) = IsClean w × (length w < name_length) × AllClean ws

-- The components with slashes between them.
abbrev pub join : List (List ℕ) → List ℕ
join [] = []
join (w ∷ []) = w
join (w ∷ w' ∷ ws) = w ++ slash ∷ join (w' ∷ ws)

-- Characters at `p`.
abbrev pub put : (p : ℕ) → List ℕ → Bytes.Bytes → Bytes.Bytes
put p [] m = m
put p (c ∷ cs) m = put (p + 1) cs (store m p c)

pub put-outside :
    (p : ℕ) (cs : List ℕ) (m : Bytes.Bytes) (a : ℕ)
    → (a < p) ⊎ (p + length cs ≤ a)
    → put p cs m a ≡ m a
put-outside p [] m a h = refl
put-outside p (c ∷ cs) m a (inl l) =
    put-outside (p + 1) cs (store m p c) a (inl (omega arith)) ∙ ground arith
put-outside p (c ∷ cs) m a (inr l) =
    put-outside (p + 1) cs (store m p c) a (inr (omega arith)) ∙ ground arith

pub put-IsString :
    (p : ℕ) (cs : List ℕ) (m m' : Bytes.Bytes)
    → IsClean cs
    → p + length cs < 2 ^ 64
    → ((a : ℕ) → p ≤ a → a < p + length cs → m' a ≡ put p cs m a)
    → m' (p + length cs) ≡ 0
    → IsString m' p cs
put-IsString p [] m m' clean low same z = ap m' (omega arith) ∙ z
put-IsString p (c ∷ cs) m m' (n, _, clean) low same z =
    let e : m' p ≡ c =
      same p (omega arith) (omega arith)
      ∙ put-outside (p + 1) cs (store m p c) p (inl (omega arith))
      ∙ ground arith in
    let next : add64 p 1 ≡ p + 1 = omega arith in
    rw next (
      e,
      n,
      put-IsString (p + 1) cs (store m p c) m' clean (omega arith)
          (λ a lo hi. same a (omega arith) (omega arith)) (ap m' (omega arith) ∙ z),
    )

-- The `n` arrays for the components do not wrap, do not meet each other, and are apart from the array at `at`.
pub record AreRows (row : ℕ → ℕ) (at n : ℕ) : Type 0 where
  pub low : (j : ℕ) → j < n → row j + name_length < 2 ^ 64
  pub apart :
      (j k : ℕ)
      → j < n
      → k < n
      → j ≢ k
      → (row j + name_length ≤ row k) ⊎ (row k + name_length ≤ row j)
  pub away : (j : ℕ) → j < n → (row j + name_length ≤ at) ⊎ (at + filename_length ≤ row j)

module _ (row : ℕ → ℕ) (at n : ℕ) (rows : AreRows row at n) where
  abbrev pub ended : (j : ℕ) → List ℕ → Bytes.Bytes → Bytes.Bytes
  ended j w m = store (put (row j) w m) (row j + length w) 0

  -- The memory with the components from `j` on; the last one gets no NUL.
  abbrev pub laid : (j : ℕ) → List (List ℕ) → Bytes.Bytes → Bytes.Bytes
  laid j [] m = m
  laid j (w ∷ []) m = put (row j) w m
  laid j (w ∷ w' ∷ ws) m = laid (suc j) (w' ∷ ws) (ended j w m)

  write_word :
      (w rest : List ℕ) (j i : ℕ) (m : Bytes.Bytes)
      → j < n
      → IsClean w
      → i + length w < name_length
      → write_path row (w ++ rest) j i m
        ≡ write_path row rest j (i + length w) (put (row j + i) w m)
  unfolding write_path
  write_word [] rest j i m hj clean l = ap (λ x. write_path row rest j x m) (omega arith)
  write_word (c ∷ w) rest j i m hj (_, ne, clean) l =
      let fits : ltb i name_length ≡ true = ground arith in
      let plain : (c == slash) ≡ false = ground arith in
      let place : add64 (row j) i ≡ row j + i = omega (arith, rows.low j hj) in
      let next : row j + i + 1 ≡ row j + suc i = omega arith in
      let end : i + suc (length w) ≡ suc i + length w = omega arith in
      rw (fits, plain, place, next, end)
        (write_word w rest j (suc i) (store m (row j + i) c) hj clean (omega arith))

  append_nil : (w : List ℕ) → w ≡ w ++ []
  append_nil [] = refl
  append_nil (c ∷ w) = ap (λ t. c ∷ t) (append_nil w)

  pub write_path-laid :
      (ws : List (List ℕ)) (j : ℕ) (m : Bytes.Bytes)
      → j + length ws ≤ n
      → AllClean ws
      → write_path row (join ws) j 0 m ≡ ok (laid j ws m)
  unfolding write_path
  write_path-laid [] j m hj clean = refl
  write_path-laid (w ∷ []) j m hj (clean, l, _) =
      let start : row j + 0 ≡ row j = omega arith in
      ap (λ t. write_path row t j 0 m) (append_nil w)
      ∙ rw (write_word w [] j 0 m (omega arith) clean (omega arith), start) refl
  write_path-laid (w ∷ w' ∷ ws) j m hj (clean, l, rest) =
      let start : row j + 0 ≡ row j = omega arith in
      let fits : ltb (0 + length w) name_length ≡ true = ground arith in
      let place : add64 (row j) (0 + length w) ≡ row j + length w =
        omega (arith, rows.low j (omega arith)) in
      rw
        (
          write_word w (slash ∷ join (w' ∷ ws)) j 0 m (omega arith) clean (omega arith),
          fits,
          place,
          start,
        )
        (write_path-laid (w' ∷ ws) (suc j) (ended j w m) (omega arith) rest)

  -- An address in no array from `j` on.
  abbrev pub Beside : (j a : ℕ) → Type 0
  Beside j a = (k : ℕ) → j ≤ k → k < n → (a < row k) ⊎ (row k + name_length ≤ a)

  pub laid-outside :
      (ws : List (List ℕ)) (j : ℕ) (m : Bytes.Bytes) (a : ℕ)
      → j + length ws ≤ n
      → AllClean ws
      → Beside j a
      → laid j ws m a ≡ m a
  laid-outside [] j m a hj clean b = refl
  laid-outside (w ∷ []) j m a hj (_, l, _) b =
      put-outside (row j) w m a
        (elim (b j (omega arith) (omega arith)) [ inl h ↦ inl h | inr h ↦ inr (omega arith) ])
  laid-outside (w ∷ w' ∷ ws) j m a hj (_, l, rest) b =
      laid-outside (w' ∷ ws) (suc j) (ended j w m) a (omega arith) rest
        (λ k h hk. b k (omega arith) hk)
      ∙ elim (b j (omega arith) (omega arith)) [
        | inl h ↦ ground (arith, put-outside (row j) w m a (inl h))
        | inr h ↦ ground (arith, put-outside (row j) w m a (inr (omega arith)))
      ]
