-- ===== src/Log/Safe.antt =====
-- `debug_log` stays inside its buffer.
use flame_os.Base.{
  ℕ, suc, ◌^◌, ◌<◌, ◌≤◌, ◌≡◌, ◌≢◌, refl, arith, false, List, [], ◌∷◌, ◌++◌, Run, ok, ◌==◌, length,
  drop,
}
use native.Mathlib.Nat.{pow-le-pow_left}
use flame_os.Libc.Itoa.{itoa}
use flame_os.Libc.Itoa.Print.{numeral, itoa-numeral, length-numeral, length-drop}
use flame_os.Log.{
  Arg, number, text, logchar, logs, log_number, log_char, log_text, conversion, debug_log,
}

-- The arguments that a format asks for.
pub data Wants : List ℕ → List Arg → Type 0 where
  end : Wants [] []
  plain :
      {c : ℕ} {format : List ℕ} {args : List Arg}
      → c ≢ 37
      → Wants format args
      → Wants (c ∷ format) args
  pointer :
      {n : ℕ} {format : List ℕ} {args : List Arg}
      → n < 2 ^ 64
      → Wants format args
      → Wants (37 ∷ 112 ∷ format) (number n ∷ args)
  decimal :
      {n : ℕ} {format : List ℕ} {args : List Arg}
      → n < 2 ^ 64
      → Wants format args
      → Wants (37 ∷ 100 ∷ format) (number n ∷ args)
  hexadecimal :
      {n : ℕ} {format : List ℕ} {args : List Arg}
      → n < 2 ^ 64
      → Wants format args
      → Wants (37 ∷ 88 ∷ format) (number n ∷ args)
  character :
      {n : ℕ} {format : List ℕ} {args : List Arg}
      → Wants format args
      → Wants (37 ∷ 99 ∷ format) (number n ∷ args)
  string :
      {s : List ℕ} {format : List ℕ} {args : List Arg}
      → Wants format args
      → Wants (37 ∷ 115 ∷ format) (text s ∷ args)

abbrev Writes : Run (List ℕ) → Type 0
Writes r = (out : List ℕ) × (r ≡ ok out)

pub itoa_21 :
    (n base : ℕ) (str : List ℕ)
    → 10 ≤ base
    → base ≤ 36
    → n < 2 ^ 64
    → length str ≡ 21
    → (d : ℕ) × (str' : List ℕ) × (itoa 64 n str base ≡ ok (d, str')) × (length str' ≡ 21)
itoa_21 n base str h k l long =
    let few : n < base ^ 20 = omega (arith, pow-le-pow_left h 20) in
    let (d, e, _, _, _, le) =
      itoa-numeral 20 n base str (omega arith) k l (omega arith) few (omega arith) in
    let rest = 0 ∷ drop (suc d) str in
    (
      d,
      numeral d n base rest,
      e,
      omega (arith, length-numeral d n base rest, length-drop (suc d) str (omega arith)),
    )

number-Writes :
    (base n : ℕ) (before str : List ℕ) (args : List Arg) (rest : List Arg → List ℕ → Run (List ℕ))
    → 10 ≤ base
    → base ≤ 36
    → n < 2 ^ 64
    → length str ≡ 21
    → ((str' : List ℕ) → length str' ≡ 21 → Writes (rest args str'))
    → Writes (log_number base before (number n ∷ args) str rest)
unfolding log_number
number-Writes base n before str args rest h k l long next =
    let (d, str', e, long') = itoa_21 n base str h k l long in
    let (out, e') = next str' long' in (before ++ logs str' ++ out, rw (e, e') refl)

-- `debug_log` with its buffer of 21 characters, for a format without `%%` and the arguments that the
-- format asks for, each number below 2 ^ 64, returns: it neither writes behind the buffer nor reads an
-- argument that is not there.
pub debug_log-Wants :
    (format : List ℕ) (args : List Arg) (str : List ℕ)
    → Wants format args
    → length str ≡ 21
    → (out : List ℕ) × (debug_log format args str ≡ ok out)
unfolding debug_log conversion log_char log_text
debug_log-Wants format args str end long = ([], refl)
debug_log-Wants (c ∷ []) args str (plain h w) long = (logchar c, ground arith)
debug_log-Wants (c ∷ c' ∷ format) args str (plain h w) long =
    let (out, e) = debug_log-Wants (c' ∷ format) args str w long in
    let ordinary : (c == 37) ≡ false = ground arith in (logchar c ++ out, rw (ordinary, e) refl)
debug_log-Wants format args str (pointer {n = n} {format = f} {args = given} l w) long =
    number-Writes 16 n (48 ∷ 120 ∷ []) str given (debug_log f) (omega arith) (omega arith) l long
      λ str' long'. debug_log-Wants f given str' w long'
debug_log-Wants format args str (decimal {n = n} {format = f} {args = given} l w) long =
    number-Writes 10 n [] str given (debug_log f) (omega arith) (omega arith) l long
      λ str' long'. debug_log-Wants f given str' w long'
debug_log-Wants format args str (hexadecimal {n = n} {format = f} {args = given} l w) long =
    number-Writes 16 n [] str given (debug_log f) (omega arith) (omega arith) l long
      λ str' long'. debug_log-Wants f given str' w long'
debug_log-Wants format args str (character {n = n} {format = f} {args = given} w) long =
    let (out, e) = debug_log-Wants f given str w long in (logchar n ++ out, rw e refl)
debug_log-Wants format args str (string {s = s} {format = f} {args = given} w) long =
    let (out, e) = debug_log-Wants f given str w long in (logs s ++ out, rw e refl)
