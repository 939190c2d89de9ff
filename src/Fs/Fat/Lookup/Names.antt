-- ===== src/Fs/Fat/Lookup/Names.antt =====
-- The names of short entries, as lists, and the array that the code builds for them.
use flame_os.Base.{
  ℕ, zero, suc, ◌+◌, ◌-◌, ◌^◌, ◌<◌, ◌≤◌, ◌≡◌, ◌≢◌, ◌⊎◌, inl, inr, refl, ap, ◌∙◌, arith, Bool-cases,
  true, false, some, ok, pos, minus_one, List, [], ◌∷◌, ◌++◌, length, ◌==◌, leb, ltb, ◌&&◌,
  if◌then◌else◌, add64,
}
use native.Mathlib.Decide.{}
use flame_os.Libc.Bytes
use flame_os.Libc.Bytes.{store}
use flame_os.Libc.Bytes.{strcmp}
use flame_os.Libc.Bytes.Strings.{IsString, strcmp-IsString}
use flame_os.Fs.Fat.Lookup.{short_loop, put_short, joined, filename_length, matches}

-- The characters from `off` up to the first space, at most `left`.
abbrev pub base_name : (left off : ℕ) → Bytes.Bytes → List ℕ
base_name zero off b = []
base_name (suc left) off b = if b off == 32 then [] else b off ∷ base_name left (suc off) b

-- The name of the short entry at `off`: base, a dot, and always three characters of extension.
abbrev pub short_name : (off : ℕ) → Bytes.Bytes → List ℕ
short_name off b = base_name 8 off b ++ 46 ∷ b (off + 8) ∷ b (off + 9) ∷ b (off + 10) ∷ []

-- The characters of a list in an array, from `j` on.
abbrev pub Spells : Bytes.Bytes → ℕ → List ℕ → Type 0
Spells f j [] = Unit {0}
Spells f j (c ∷ cs) = (f j ≡ c) × Spells f (suc j) cs

Spells-cong :
    (cs : List ℕ) (f g : Bytes.Bytes) (j : ℕ)
    → ((x : ℕ) → j ≤ x → x < j + length cs → g x ≡ f x)
    → Spells f j cs
    → Spells g j cs
Spells-cong [] f g j same h = tt
Spells-cong (c ∷ cs) f g j same (e, h) = (
  same j (omega arith) (omega arith) ∙ e,
  Spells-cong cs f g (suc j) (λ x lo hi. same x (omega arith) (omega arith)) h,
)

Spells-append :
    (cs ds : List ℕ) (f : Bytes.Bytes) (j : ℕ)
    → Spells f j cs
    → Spells f (j + length cs) ds
    → Spells f j (cs ++ ds)
Spells-append [] ds f j h h' = let e : j + 0 ≡ j = omega arith in rw e at h'
Spells-append (c ∷ cs) ds f j (e, h) h' =
    let e' : j + suc (length cs) ≡ suc j + length cs = omega arith in
    (e, Spells-append cs ds f (suc j) h (rw e' at h'))

length-base_name : (left off : ℕ) (b : Bytes.Bytes) → length (base_name left off b) ≤ left
length-base_name zero off b = omega arith
length-base_name (suc left) off b = ground (arith, length-base_name left (suc off) b)

-- What the loop leaves: the index at the end of the base, the base, and what was in front of it.
record ShortLoop (cs : List ℕ) (j : ℕ) (name : Bytes.Bytes) (r : ℕ × Bytes.Bytes) : Type 0 where
  at_end : r.0 ≡ j + length cs
  spelled : Spells r.1 j cs
  before : (x : ℕ) → x < j → r.1 x ≡ name x

short_loop-ShortLoop :
    (left j off o : ℕ) (b name : Bytes.Bytes)
    → o + j ≡ off
    → ShortLoop (base_name left off b) j name (short_loop left j o b name)
unfolding short_loop
short_loop-ShortLoop zero j off o b name e = record {
  at_end = omega arith;
  spelled = tt;
  before = λ x l. ground arith;
}
short_loop-ShortLoop (suc left) j off o b name e = elim (Bool-cases (b off == 32)) [
  | inl space ↦
      rw (e, space) (record { at_end = omega arith; spelled = tt; before = λ x l. ground arith })
  | inr more ↦
      let s =
        short_loop-ShortLoop left (suc j) (suc off) o b (store name j (b off)) (omega arith) in
      rw (e, more)
        (record {
          at_end = omega (arith, s.at_end);
          spelled = (s.before j (omega arith) ∙ ground arith, s.spelled);
          before = λ x l. s.before x (omega arith) ∙ ground arith;
        })
]

-- The array with a name at its start and a NUL behind it.
pub record Named (name : Bytes.Bytes) (cs : List ℕ) : Type 0 where
  pub spelled : Spells name 0 cs
  pub ended : name (length cs) ≡ 0
  pub short : length cs < 13

length-snoc : (cs : List ℕ) (a b c d : ℕ) → length (cs ++ a ∷ b ∷ c ∷ d ∷ []) ≡ length cs + 4
length-snoc [] a b c d = refl
length-snoc (x ∷ cs) a b c d = omega (arith, length-snoc cs a b c d)

pub put_short-Named :
    (off : ℕ) (b name : Bytes.Bytes) → Named (put_short off b name) (short_name off b)
unfolding put_short
put_short-Named off b name =
    let s = short_loop-ShortLoop 8 0 off off b name (omega arith) in
    let n : ℕ = length (base_name 8 off b) in
    let le = length-base_name 8 off b in
    let e : (short_loop 8 0 off b name).0 ≡ n = omega (arith, s.at_end) in
    let long = length-snoc (base_name 8 off b) 46 (b (off + 8)) (b (off + 9)) (b (off + 10)) in
    rw e (record {
      spelled =
          Spells-append (base_name 8 off b) _ _ 0
            (Spells-cong (base_name 8 off b) (short_loop 8 0 off b name).1 _ 0
              (λ x lo hi. ground arith) s.spelled)
            (ground arith, (ground arith, (ground arith, (ground arith, tt))));
      ended = rw long (ground arith);
      short = omega (arith, long);
    })

abbrev pub NoNul : List ℕ → Type 0
NoNul [] = Unit {0}
NoNul (c ∷ cs) = (c ≢ 0) × NoNul cs

IsString-joined :
    (at j : ℕ) (name m : Bytes.Bytes) (cs : List ℕ)
    → at + filename_length < 2 ^ 64
    → j + length cs < filename_length
    → NoNul cs
    → Spells name j cs
    → name (j + length cs) ≡ 0
    → IsString (joined at name m) (at + j) cs
IsString-joined at j name m [] h l n s z =
    let e : at + j - at ≡ j + 0 = omega arith in
    let inside : leb at (at + j) && ltb (at + j) (at + filename_length) ≡ true = ground arith in
    rw (inside, e) z
IsString-joined at j name m (c ∷ cs) h l (c_pos, n) (e, s) z =
    let here : at + j - at ≡ j = omega arith in
    let inside : leb at (at + j) && ltb (at + j) (at + filename_length) ≡ true = ground arith in
    let next : add64 (at + j) 1 ≡ at + suc j = omega arith in
    let end : j + suc (length cs) ≡ suc j + length cs = omega arith in
    rw (inside, here, next)
      (e, c_pos, IsString-joined at (suc j) name m cs h (omega arith) n s (rw end at z))

-- A string that the array does not meet.
abbrev pub IsApart : (at p : ℕ) → List ℕ → Type 0
IsApart at p w = (p + length w < at) ⊎ (at + filename_length ≤ p)

IsString-apart :
    (at p : ℕ) (name m : Bytes.Bytes) (w : List ℕ)
    → p + length w < 2 ^ 64
    → IsApart at p w
    → IsString m p w
    → IsString (joined at name m) p w
IsString-apart at p name m [] h a s =
    let outside : leb at p && ltb p (at + filename_length) ≡ false = elim a [
      | inl l ↦ ground arith
      | inr l ↦ ground arith
    ] in
    rw outside s
IsString-apart at p name m (c ∷ w) h a (e, n, s) =
    let outside : leb at p && ltb p (at + filename_length) ≡ false = elim a [
      | inl l ↦ ground arith
      | inr l ↦ ground arith
    ] in
    let next : add64 p 1 ≡ p + 1 = omega arith in
    let a' : IsApart at (p + 1) w = elim a [
      | inl l ↦ inl (omega arith)
      | inr l ↦ inr (omega arith)
    ] in
    rw (outside, next) (e, n, IsString-apart at (p + 1) name m w (omega arith) a' (rw next at s))

-- The test of a name against a component of the path, which is the string `w` at `p`.
module _ (at p : ℕ) (m : Bytes.Bytes) (w : List ℕ) (room : at + filename_length < 2 ^ 64)
    (low : p + length w < 2 ^ 64) (apart : IsApart at p w) (is_w : IsString m p w) where
  compared :
      (name : Bytes.Bytes) (cs : List ℕ)
      → Named name cs
      → NoNul cs
      → ((strcmp filename_length at p (joined at name m) ≡ ok (pos 0)) × (cs ≡ w))
        ⊎ (((strcmp filename_length at p (joined at name m) ≡ ok (pos 1))
              ⊎ (strcmp filename_length at p (joined at name m) ≡ ok minus_one))
            × (cs ≢ w))
  compared name cs is no_nul =
      let start : at + 0 ≡ at = omega arith in
      strcmp-IsString filename_length at p (joined at name m) cs w
        (rw start at (
          IsString-joined at 0 name m cs room (omega (arith, is.short)) no_nul is.spelled
            (ap name (omega arith) ∙ is.ended)))
        (IsString-apart at p name m w low apart is_w) (omega (arith, is.short))

  pub matches-same :
      (name : Bytes.Bytes) (cs : List ℕ)
      → Named name cs
      → NoNul cs
      → cs ≡ w
      → matches at (some p) name m ≡ ok true
  unfolding matches
  matches-same name cs is no_nul e = elim (compared name cs is no_nul) [
    | inl (r, _) ↦ rw r refl
    | inr (_, ne) ↦ absurd (ne e)
  ]

  pub matches-other :
      (name : Bytes.Bytes) (cs : List ℕ)
      → Named name cs
      → NoNul cs
      → cs ≢ w
      → matches at (some p) name m ≡ ok false
  unfolding matches
  matches-other name cs is no_nul ne = elim (compared name cs is no_nul) [
    | inl (_, e) ↦ absurd (ne e)
    | inr (inl r, _) ↦ rw r refl
    | inr (inr r, _) ↦ rw r refl
  ]
