-- ===== src/Libc/Bytes/Strings.antt =====
-- What strcmp does, on strings as lists of their characters.
use flame_os.Base.{
  ℕ, zero, suc, ◌<◌, ◌≡◌, ◌≢◌, ◌⊎◌, inl, inr, refl, ◌∙◌, Bool-cases, true, false, arith, List, [],
  ◌∷◌, length, ok, pos, minus_one, ◌==◌, add64,
}
use mathlib.Core.Path.{ap₂}
use flame_os.Libc.Bytes.{Bytes, strcmp, char_greater}

-- The string at `p`: its characters, then a NUL.
abbrev pub IsString : Bytes → ℕ → List ℕ → Type 0
IsString m p [] = m p ≡ 0
IsString m p (c ∷ cs) = (m p ≡ c) × (c ≢ 0) × IsString m (add64 p 1) cs

==_false : (a b : ℕ) → a ≢ b → (a == b) ≡ false
==_false a b h = ground arith

==_true : (a b : ℕ) → a ≡ b → (a == b) ≡ true
==_true a b h = ground arith

cons_ne : (x y : ℕ) (xs ys : List ℕ) → x ≢ y → (x ∷ xs) ≢ (y ∷ ys)
cons_ne x y xs ys h e = h (cc e)

differ :
    (fuel p q : ℕ) (m : Bytes)
    → m p ≢ m q
    → (strcmp (suc fuel) p q m ≡ ok (pos 1)) ⊎ (strcmp (suc fuel) p q m ≡ ok minus_one)
unfolding strcmp
differ fuel p q m h = elim (Bool-cases (char_greater (m p) (m q))) [
  | inl greater ↦ inl (rw (==_false (m p) (m q) h, greater) refl)
  | inr less ↦ inr (rw (==_false (m p) (m q) h, less) refl)
]

end_lem : (fuel p q : ℕ) (m : Bytes) → m p ≡ m q → m p ≡ 0 → strcmp (suc fuel) p q m ≡ ok (pos 0)
unfolding strcmp
end_lem fuel p q m same h = rw (==_true (m p) (m q) same, ==_true (m p) 0 h) refl

step_lem :
    (fuel p q : ℕ) (m : Bytes)
    → m p ≡ m q
    → m p ≢ 0
    → strcmp (suc fuel) p q m ≡ strcmp fuel (add64 p 1) (add64 q 1) m
unfolding strcmp
step_lem fuel p q m same h = rw (==_true (m p) (m q) same, ==_false (m p) 0 h) refl

-- `strcmp` of two strings, with fuel above the length of the first, returns 0 if they are equal, and
-- else 1 or -1.
pub strcmp-IsString :
    (fuel p q : ℕ) (m : Bytes) (xs ys : List ℕ)
    → IsString m p xs
    → IsString m q ys
    → length xs < fuel
    → ((strcmp fuel p q m ≡ ok (pos 0)) × (xs ≡ ys))
      ⊎ (((strcmp fuel p q m ≡ ok (pos 1)) ⊎ (strcmp fuel p q m ≡ ok minus_one)) × (xs ≢ ys))
strcmp-IsString zero p q m xs ys h h' l = absurd (omega arith)
strcmp-IsString (suc fuel) p q m [] [] h h' l = inl (end_lem fuel p q m (omega arith) h, refl)
strcmp-IsString (suc fuel) p q m [] (y ∷ ys) h h' l =
    inr (differ fuel p q m (λ e. h'.1 (omega arith)), λ e. cc e)
strcmp-IsString (suc fuel) p q m (x ∷ xs) [] h h' l =
    inr (differ fuel p q m (λ e. h.1 (omega arith)), λ e. cc e)
strcmp-IsString (suc fuel) p q m (x ∷ xs) (y ∷ ys) (hx, nx, h) (hy, ny, h') l =
    elim (Bool-cases (x == y)) [
      | inr other ↦
          let ne : x ≢ y = λ e. ground arith in
          inr (differ fuel p q m (λ e. ne (omega arith)), cons_ne x y xs ys ne)
      | inl same ↦
          let e : x ≡ y = ground arith in
          let step : strcmp (suc fuel) p q m ≡ strcmp fuel (add64 p 1) (add64 q 1) m =
            step_lem fuel p q m (omega arith) (λ z. nx (omega arith)) in
          elim (strcmp-IsString fuel (add64 p 1) (add64 q 1) m xs ys h h' (omega arith)) [
            | inl (r, same_rest) ↦ inl (step ∙ r, ap₂ (λ a b. a ∷ b) e same_rest)
            | inr (inl r, rest) ↦ inr (inl (step ∙ r), λ z. rest (cc z))
            | inr (inr r, rest) ↦ inr (inr (step ∙ r), λ z. rest (cc z))
          ]
    ]
