-- ===== src/Libc/Itoa/Print.antt =====
-- What `itoa` prints is a numeral of its number.
use native.Mathlib.Nat.{pow-zero, pow-le-pow_left, pow-suc, div-lt_iff_lt-mul, mod-lt, div-add-mod'}
use flame_os.Base.{
  ℕ, zero, suc, ◌+◌, ◌-◌, ◌*◌, ◌/◌, ◌%◌, ◌^◌, ◌≤◌, ◌<◌, ◌≡◌, ◌≢◌, refl, ap, ◌∙◌, List, [], ◌∷◌,
  some, Bool, true, false, ok, ltb, ◌==◌, ◌&&◌, if◌then◌else◌, length, get_elem?, set, drop, arith,
  length-set,
}
use flame_os.Libc.Itoa.{digit, write, write_digit, itoa_loop, itoa}
use flame_os.Libc.Itoa.Digits.{DigitCount, getdigits_lem, few_digits}

-- The value of a digit's character.
abbrev value : ℕ → ℕ
value c = if ltb c 58 then c - 48 else c - 55

-- The number that a string stands for, up to its NUL, read after the number `n`.
abbrev number_from : (base n : ℕ) → List ℕ → ℕ
number_from base n [] = n
number_from base n (c ∷ cs) = if c == 0 then n else number_from base (n * base + value c) cs

abbrev pub number : ℕ → List ℕ → ℕ
number base cs = number_from base 0 cs

abbrev char : ℕ → ℕ
char d = if ltb d 10 then 48 + d else 55 + d

matches : List ℕ → ℕ → Bool
matches [] i = true
matches (c ∷ cs) i = (c == char i) && matches cs (i + 1)

get_elem?-matches :
    (cs : List ℕ) (i d : ℕ)
    → matches cs i ≡ true
    → d < length cs
    → get_elem? cs d ≡ some (char (i + d))
unfolding matches
get_elem?-matches [] i d m l = absurd (omega arith)
get_elem?-matches (c ∷ cs) i zero m l = let e : i + 0 ≡ i = omega arith in rw e (ground arith)
get_elem?-matches (c ∷ cs) i (suc d) m l =
    let e : i + suc d ≡ i + 1 + d = omega arith in
    rw e (get_elem?-matches cs (i + 1) d (ground arith) (omega arith))

digit_lem : (d : ℕ) → d < 36 → get_elem? digit d ≡ some (char d)
unfolding matches
digit_lem d h = get_elem?-matches digit 0 d refl h ∙ ap (λ (t : ℕ). some (char t)) (omega arith)

-- The digits of `n`, `count` of them, before `rest`.
pub numeral : (count n base : ℕ) → List ℕ → List ℕ
numeral zero n base rest = rest
numeral (suc count) n base rest = numeral count (n / base) base (char (n % base) ∷ rest)

value-char : (d : ℕ) → d < 36 → (value (char d) ≡ d) × (char d ≢ 0)
value-char d h = (ground arith, λ z. ground arith)

==_false : (a b : ℕ) → a ≢ b → (a == b) ≡ false
==_false a b h = ground arith

last_digit :
    (n base : ℕ) (rest : List ℕ)
    → 2 ≤ base
    → base ≤ 36
    → number_from base (n / base) (char (n % base) ∷ rest) ≡ number_from base n rest
last_digit n base rest h k =
    let small : n % base < base = mod-lt n (omega arith) in
    let (v, nonzero) = value-char (n % base) (omega arith) in
    let sum : n / base * base + value (char (n % base)) ≡ n =
      omega (arith, div-add-mod' n base, v) in
    rw ((==_false (char (n % base)) 0 nonzero), sum) refl

number-numeral :
    (count n base : ℕ) (rest : List ℕ)
    → 2 ≤ base
    → base ≤ 36
    → n < base ^ count
    → number base (numeral count n base rest) ≡ number_from base n rest
unfolding numeral
number-numeral zero n base rest h k l =
    ap (λ (t : ℕ). number_from base t rest) (omega (arith, pow-zero base))
number-numeral (suc count) n base rest h k l =
    number-numeral count (n / base) base (char (n % base) ∷ rest) h k (
      let upper : n < base ^ count * base = omega (arith, pow-suc base count) in
      (div-lt_iff_lt-mul (omega arith)).1 upper)
    ∙ last_digit n base rest h k

drop-set : (out : List ℕ) (i c : ℕ) → i < length out → drop i (set out i c) ≡ c ∷ drop (suc i) out
drop-set [] i c h = absurd (omega arith)
drop-set (x ∷ xs) zero c h = refl
drop-set (x ∷ xs) (suc i) c h = drop-set xs i c (omega arith)

inside : (i : ℕ) (out : List ℕ) → i < length out → ltb i (length out) ≡ true
inside i out h = ground arith

itoa_loop_lem :
    (count n base : ℕ) (out : List ℕ)
    → 2 ≤ base
    → base ≤ 36
    → count ≤ length out
    → itoa_loop count n base out ≡ ok (numeral count n base (drop count out))
unfolding itoa_loop write_digit write numeral
itoa_loop_lem zero n base out h k l = refl
itoa_loop_lem (suc count) n base out h k l =
    let small : n % base < base = mod-lt n (omega arith) in
    rw
      (
        ==_false base 0 (λ z. omega arith),
        digit_lem (n % base) (omega arith),
        inside count out l,
        ← drop-set out count (char (n % base)) l,
      )
      (itoa_loop_lem count (n / base) base (set out count (char (n % base))) h k
        (omega (arith, length-set out count (char (n % base)))))

set-numeral :
    (count i v n base : ℕ) (rest : List ℕ)
    → set (numeral count n base rest) (count + i) v ≡ numeral count n base (set rest i v)
unfolding numeral
set-numeral zero i v n base rest = ap (λ (t : ℕ). set rest t v) (omega arith)
set-numeral (suc count) i v n base rest =
    let e : suc count + i ≡ count + suc i = omega arith in
    rw e (set-numeral count (suc i) v (n / base) base (char (n % base) ∷ rest))

pub length-numeral :
    (count n base : ℕ) (rest : List ℕ) → length (numeral count n base rest) ≡ count + length rest
unfolding numeral
length-numeral zero n base rest = omega arith
length-numeral (suc count) n base rest =
    omega (arith, length-numeral count (n / base) base (char (n % base) ∷ rest))

set_front : (d v : ℕ) (out : List ℕ) → d < length out → set (drop d out) 0 v ≡ v ∷ drop (suc d) out
set_front d v [] h = absurd (omega arith)
set_front zero v (x ∷ xs) h = refl
set_front (suc d) v (x ∷ xs) h = set_front d v xs (omega arith)

pub length-drop : (d : ℕ) (out : List ℕ) → d ≤ length out → d + length (drop d out) ≡ length out
length-drop zero out h = omega arith
length-drop (suc d) [] h = absurd (omega arith)
length-drop (suc d) (x ∷ xs) h = omega (arith, length-drop d xs (omega arith))

-- The last write of `itoa`.
close_lem :
    (d n base : ℕ) (out : List ℕ)
    → d < length out
    → write (numeral d n base (drop d out)) d 0 ≡ ok (numeral d n base (0 ∷ drop (suc d) out))
unfolding write
close_lem d n base out h =
    let long : d < length (numeral d n base (drop d out)) =
      omega (arith, length-numeral d n base (drop d out), length-drop d out (omega arith)) in
    let e : set (numeral d n base (drop d out)) d 0
        ≡ set (numeral d n base (drop d out)) (d + 0) 0 =
      ap (λ (t : ℕ). set (numeral d n base (drop d out)) t 0) (omega arith) in
    rw
      (
        inside d (numeral d n base (drop d out)) long,
        e,
        set-numeral d 0 0 n base (drop d out),
        set_front d 0 out h,
      )
      refl

-- `itoa` in a base from 2 to 36 prints a number below 2 ^ 64 that has at most `k` digits into an array
-- of more than `k` characters, `k` above 0, with 64 rounds for the loop of `getdigits`. It returns the
-- number of digits, which is 1 for the number 0 and has no leading zero for another one; the array then
-- starts with digits whose value is the number, then a NUL, and keeps its other characters.
pub itoa-numeral :
    (k n base : ℕ) (out : List ℕ)
    → 2 ≤ base
    → base ≤ 36
    → n < 2 ^ 64
    → 0 < k
    → n < base ^ k
    → k < length out
    → (d : ℕ) × (itoa 64 n out base ≡ ok (d, numeral d n base (0 ∷ drop (suc d) out)))
      × (number base (numeral d n base (0 ∷ drop (suc d) out)) ≡ n)
      × DigitCount n base d
      × (n ≡ 0 → d ≡ 1)
      × (d ≤ k)
unfolding itoa
itoa-numeral k n base out h k' l pos few long =
    let (d, e, count, one) = getdigits_lem 64 n base h l in
    let le = few_digits n base d k h count one pos few in
    (
      d,
      rw (e, itoa_loop_lem d n base out h k' (omega arith), close_lem d n base out (omega arith))
          refl,
      number-numeral d n base (0 ∷ drop (suc d) out) h k' count.bound,
      count,
      one,
      le,
    )

-- The buffer of 21 characters that `debug_log` gives to `itoa` is large enough for each number below
-- 2 ^ 64 in each base from 10 to 36.
pub itoa-debug_log :
    (n base : ℕ) (out : List ℕ)
    → 10 ≤ base
    → base ≤ 36
    → n < 2 ^ 64
    → length out ≡ 21
    → (d : ℕ) × (out' : List ℕ) × (itoa 64 n out base ≡ ok (d, out'))
      × (number base out' ≡ n)
      × (d ≤ 20)
itoa-debug_log n base out h k l long =
    let few : n < base ^ 20 = omega (arith, pow-le-pow_left h 20) in
    let (d, e, v, _, _, le) =
      itoa-numeral 20 n base out (omega arith) k l (omega arith) few (omega arith) in
    (d, _, e, v, le)
