-- ===== src/Boot/Modes.antt =====
-- bootloader/boot.c: the graphics mode that is chosen. The list of the modes is what the firmware's
-- `querymode` gives for each number below `maxmode`.
use flame_os.Base.{
  ℕ, zero, suc, ◌+◌, ◌≤◌, ◌<◌, ◌≡◌, ◌⊎◌, inl, inr, refl, ap, sym, ◌∙◌, Bool-cases, true, false,
  some, ltb, if◌then◌else◌, List, [], ◌∷◌, length, get_elem?, u32, arith,
}
use mathlib.Core.Option.{some-injective}
use native.Mathlib.Decide.{ℕ_discrete}

ltb→lt : (a b : ℕ) → ltb a b ≡ true → a < b
ltb→lt a b h = ground arith

not_ltb→le : (a b : ℕ) → ltb a b ≡ false → b ≤ a
not_ltb→le a b h = ground arith

-- The size of a mode in `gopmodeinfo`.
pub record Mode : Type 0 where
  pub w : ℕ
  pub h : ℕ

-- `res = tmp->w + tmp->h`, a sum of two 32-bit numbers.
abbrev pub resolution : Mode → ℕ
resolution m = u32 (m.w + m.h)

-- The loop from mode `i` on.
unfoldable pub best_from : (i bestres bestmode : ℕ) → List Mode → ℕ
best_from i bestres bestmode [] = bestmode
best_from i bestres bestmode (m ∷ modes) =
    best_from (i + 1) (if ltb bestres (resolution m) then resolution m else bestres)
      (if ltb bestres (resolution m) then i else bestmode) modes

-- The argument of `setmode`.
unfoldable pub bestmode : List Mode → ℕ
unfolding best_from
bestmode modes = best_from 0 0 0 modes

-- The first mode of the greatest resolution: mode `best` of the list is `mode`, no mode has more,
-- and those in front have less.
pub record IsBest (modes : List Mode) (best : ℕ) : Type 0 where
  pub mode : Mode
  pub is_mode : get_elem? modes best ≡ some mode
  pub most : (k : ℕ) (m : Mode) → get_elem? modes k ≡ some m → resolution m ≤ resolution mode
  pub first :
      (k : ℕ) (m : Mode) → k < best → get_elem? modes k ≡ some m → resolution m < resolution mode

get-lt : (modes : List Mode) (i : ℕ) (m : Mode) → get_elem? modes i ≡ some m → i < length modes
get-lt [] i m e = absurd (cc)
get-lt (x ∷ xs) zero m e = omega arith
get-lt (x ∷ xs) (suc i) m e = omega (arith, get-lt xs i m e)

module _ (all : List Mode) where
  -- What is known before the round for mode `i`, when `res` is the best resolution in front of it.
  record Seen (i res best : ℕ) : Type 0 where
    most : (k : ℕ) (m : Mode) → k < i → get_elem? all k ≡ some m → resolution m ≤ res
    held : (res ≡ 0) ⊎ ((m : Mode) × (get_elem? all best ≡ some m) × (resolution m ≡ res))
    empty : res ≡ 0 → best ≡ 0
    first : (k : ℕ) (m : Mode) → k < best → get_elem? all k ≡ some m → resolution m < res
    below : best ≤ i

  -- The modes from mode `i` on are `rest`.
  abbrev Tail : ℕ → List Mode → Type 0
  Tail i rest = (k : ℕ) → get_elem? all (i + k) ≡ get_elem? rest k

  at_or_before :
      (i res : ℕ) (m : Mode)
      → get_elem? all i ≡ some m
      → resolution m ≤ res
      → ((k : ℕ) (m' : Mode) → k < i → get_elem? all k ≡ some m' → resolution m' ≤ res)
      → (k : ℕ) (m' : Mode) → k < i + 1
      → get_elem? all k ≡ some m'
      → resolution m' ≤ res
  at_or_before i res m at_i le before k m' l e = elim (ℕ_discrete k i) [
    | no other ↦ before k m' (omega arith) e
    | yes same ↦
        let q : m ≡ m' = some-injective m m' (sym at_i ∙ ap (get_elem? all) (sym same) ∙ e) in
        omega (arith, ap resolution q)
  ]

  Seen-step :
      (i res best : ℕ) (m : Mode)
      → get_elem? all i ≡ some m
      → Seen i res best
      → Seen
          (i + 1)
          (if ltb res (resolution m) then resolution m else res)
          (if ltb res (resolution m) then i else best)
  Seen-step i res best m at_i seen = elim (Bool-cases (ltb res (resolution m))) [
    | inl more ↦
        let up : res < resolution m = ltb→lt res (resolution m) more in
        rw more (record {
          most =
              at_or_before i (resolution m) m at_i (omega arith)
                (λ k m' l e. omega (arith, seen.most k m' l e));
          held = inr (m, at_i, refl);
          empty = λ z. absurd (omega arith);
          first = λ k m' l e. omega (arith, seen.most k m' l e);
          below = omega arith;
        })
    | inr less ↦
        let down : resolution m ≤ res = not_ltb→le res (resolution m) less in
        rw less (record {
          most = at_or_before i res m at_i down seen.most;
          held = seen.held;
          empty = seen.empty;
          first = seen.first;
          below = omega (arith, seen.below);
        })
  ]

  Seen-loop :
      (rest : List Mode) (i res best : ℕ)
      → Tail i rest
      → Seen i res best
      → (j : ℕ) × (r : ℕ) × (j ≡ i + length rest) × Seen j r (best_from i res best rest)
  unfolding best_from
  Seen-loop [] i res best tail seen = (i, res, omega arith, seen)
  Seen-loop (m ∷ rest) i res best tail seen =
      let at_i : get_elem? all i ≡ some m = ap (get_elem? all) (omega arith) ∙ tail 0 in
      let r =
        Seen-loop rest (i + 1) _ _ (λ k. ap (get_elem? all) (omega arith) ∙ tail (suc k))
          (Seen-step i res best m at_i seen) in
      (r.0, r.1, omega (arith, r.2), r.3)

Seen-IsBest :
    (m : Mode) (modes : List Mode) (j r best : ℕ)
    → j ≡ length (m ∷ modes)
    → Seen (m ∷ modes) j r best
    → IsBest (m ∷ modes) best
Seen-IsBest m modes j r best end seen = elim seen.held [
  | inr (mode, held, same) ↦ record {
    mode = mode;
    is_mode = held;
    most = λ k m' e. omega (arith, same, all k m' e);
    first = λ k m' l e. omega (arith, same, seen.first k m' l e);
  }
  | inl nothing ↦
      let at_0 : best ≡ 0 = seen.empty nothing in
      record {
        mode = m;
        is_mode = ap (get_elem? (m ∷ modes)) at_0;
        most = λ k m' e. omega (arith, nothing, all k m' e);
        first = λ k m' l e. absurd (omega arith);
      }
]
  where
    all : (k : ℕ) (m' : Mode) → get_elem? (m ∷ modes) k ≡ some m' → resolution m' ≤ r
    all k m' e = seen.most k m' (omega (arith, end, get-lt (m ∷ modes) k m' e)) e

-- Of one mode or more, the bootloader sets the first one with the greatest resolution, which is the
-- sum of width and height in 32 bits.
pub bestmode-IsBest : (m : Mode) (modes : List Mode) → IsBest (m ∷ modes) (bestmode (m ∷ modes))
unfolding bestmode
bestmode-IsBest m modes =
    let start : Seen (m ∷ modes) 0 0 0 = record {
      most = λ k m' l e. absurd (omega arith);
      held = inl refl;
      empty = λ z. refl;
      first = λ k m' l e. absurd (omega arith);
      below = omega arith;
    } in
    let run =
      Seen-loop (m ∷ modes) (m ∷ modes) 0 0 0 (λ k. ap (get_elem? (m ∷ modes)) (omega arith))
        start in
    Seen-IsBest m modes run.0 run.1 _ (omega (arith, run.2)) run.3
