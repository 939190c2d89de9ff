-- ===== src/Log.antt =====
-- kernel/arch/x86_64/syscall/debug_log.c: formatted output to the serial port COM1. A run gives the bytes
-- that are written to the port; a string is the list of its characters without the NUL. An argument
-- that is missing or of another type is a fault.
pub mod Safe
pub mod Error
mod Examples
use flame_os.Base.{
  ℕ, ◌+◌, Bool, List, [], ◌∷◌, ◌++◌, Run, ok, fault, ◌>>=◌, ◌==◌, ◌||◌, if◌then◌else◌, u8,
}
use flame_os.Libc.Itoa.{itoa}

pub data Arg : Type 0 where
  number : ℕ → Arg
  text : List ℕ → Arg

-- `logchar`: a line feed is followed by a carriage return.
abbrev pub logchar : ℕ → List ℕ
logchar c = if u8 c == 10 then u8 c ∷ 13 ∷ [] else u8 c ∷ []

-- `logs` of an array: up to its NUL.
unfoldable pub logs : List ℕ → List ℕ
logs [] = []
logs (c ∷ cs) = if c == 0 then [] else logchar c ++ logs cs

-- What `log_number` and `log_text` write, before what the rest writes; the rest gets the arguments
-- that are left and the buffer `str`.
unfoldable pub log_number :
    (base : ℕ) (before : List ℕ)
    → List Arg
    → List ℕ
    → (List Arg → List ℕ → Run (List ℕ))
    → Run (List ℕ)
unfolding logs
log_number base before [] str rest = fault
log_number base before (text s ∷ args) str rest = fault
log_number base before (number n ∷ args) str rest = do
  (_, str') ← itoa 64 n str base
  out ← rest args str'
  ok (before ++ logs str' ++ out)

unfoldable pub log_char : List Arg → List ℕ → (List Arg → List ℕ → Run (List ℕ)) → Run (List ℕ)
log_char [] str rest = fault
log_char (text s ∷ args) str rest = fault
log_char (number c ∷ args) str rest = do out ← rest args str; ok (logchar c ++ out)

unfoldable pub log_text : List Arg → List ℕ → (List Arg → List ℕ → Run (List ℕ)) → Run (List ℕ)
unfolding logs
log_text [] str rest = fault
log_text (number n ∷ args) str rest = fault
log_text (text s ∷ args) str rest = do out ← rest args str; ok (logs s ++ out)

abbrev pub prepend : List ℕ → Run (List ℕ) → Run (List ℕ)
prepend before r = r >>= λ out. ok (before ++ out)

-- `%` and the character behind it. `after` is what follows both; after `%%` and after an unknown
-- character the loop goes on at the second one, `behind`.
unfoldable pub conversion :
    (c : ℕ) (args : List Arg) (str : List ℕ) (after behind : List Arg → List ℕ → Run (List ℕ))
    → Run (List ℕ)
unfolding log_number log_char log_text
conversion c args str after behind =
    if c == 112
    then log_number 16 (48 ∷ 120 ∷ []) args str after
    else if c == 99
    then log_char args str after
    else if c == 100
    then log_number 10 [] args str after
    else if c == 88
    then log_number 16 [] args str after
    else if c == 115
    then log_text args str after
    else if c == 37
    then prepend (37 ∷ []) (behind args str)
    else behind args str

unfoldable pub debug_log : (format : List ℕ) (args : List Arg) (str : List ℕ) → Run (List ℕ)
unfolding conversion
debug_log [] args str = ok []
debug_log (f ∷ []) args str = if f == 37 then ok [] else ok (logchar f)
debug_log (f ∷ c ∷ format) args str =
    if f == 37
    then conversion c args str (debug_log format) (debug_log (c ∷ format))
    else prepend (logchar f) (debug_log (c ∷ format) args str)
