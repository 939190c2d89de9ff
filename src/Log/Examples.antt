-- ===== src/Log/Examples.antt =====
-- `debug_log` at concrete formats.
use flame_os.Base.{ℕ, zero, suc, ◌≡◌, refl, arith, List, [], ◌∷◌, ok}
use flame_os.Log.{Arg, number, debug_log}
use flame_os.Log.Safe.{Wants, end, plain, hexadecimal, debug_log-Wants}

abbrev buffer : ℕ → List ℕ
buffer zero = []
buffer (suc n) = 0 ∷ buffer n

-- "A%X"
abbrev format : List ℕ
format = 65 ∷ 37 ∷ 88 ∷ []

abbrev given : List Arg
given = number 0xff ∷ []

format-Wants : Wants format given
format-Wants = plain (λ e. ground arith) (hexadecimal (omega arith) end)

debug_log-Wants_example : (out : List ℕ) × (debug_log format given (buffer 21) ≡ ok out)
debug_log-Wants_example = debug_log-Wants format given (buffer 21) format-Wants refl
