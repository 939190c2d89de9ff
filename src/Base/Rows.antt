-- ===== src/Base/Rows.antt =====
-- Products as the starts of rows of equal length.
use Prim.Native.Nat.{ℕ, zero, suc, ◌+◌, ◌*◌, ◌≤◌, ◌<◌}
use mathlib.Core.Path.{◌≡◌}
use native.Mathlib.Omega.{arith}
use native.Mathlib.Decide.{dec_lt, ℕ_discrete}

pub row_below : (line a b : ℕ) → a < b → a * line + line ≤ b * line
row_below line a zero l = absurd (omega arith)
row_below line zero (suc b) l = grind arith
row_below line (suc a) (suc b) l =
    let ih = row_below line a b (omega arith) in
    let e : suc a * line ≡ a * line + line = grind arith in
    let e' : suc b * line ≡ b * line + line = grind arith in omega arith

-- What starts before the end of row `b` is in a row up to it.
pub row_before : (line a b x : ℕ) → 0 < x → a * line + x ≤ b * line → a < b
row_before line a b x pos h = elim (dec_lt a b) [
  | yes l ↦ l
  | no n ↦ elim (ℕ_discrete a b) [
    | yes e ↦ absurd (omega (arith, rw e at h))
    | no ne ↦ let l = row_below line b a (omega arith) in absurd (omega arith)
  ]
]
