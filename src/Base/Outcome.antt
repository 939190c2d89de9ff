-- ===== src/Base/Outcome.antt =====
-- What a run of C code comes to. `fault` is undefined behaviour that the model notices (an index
-- out of an array, a division by 0, a write through NULL); `out_of_fuel` is a loop or a recursion
-- that was given too few rounds.

pub data Run {ℓ} (A : Type ℓ) : Type ℓ where
  ok : A → Run A
  fault : Run A
  out_of_fuel : Run A

infixl 5 ◌>>=◌ ◌>>◌
abbrev pub ◌>>=◌ {ℓ κ} : {A : Type ℓ} {B : Type κ} → Run A → (A → Run B) → Run B
ok a >>= k = k a
fault >>= k = fault
out_of_fuel >>= k = out_of_fuel

abbrev pub ◌>>◌ {ℓ κ} : {A : Type ℓ} {B : Type κ} → Run A → Run B → Run B
m >> n = m >>= λ _. n
