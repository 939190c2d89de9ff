-- ===== src/Log/Error.antt =====
-- kernel/arch/x86_64/syscall/debug_log.c: error, the output of the fault handlers, and memdump.
use flame_os.Base.{
  ℕ, zero, suc, List, [], ◌∷◌, Run, ok, ◌>>=◌, ◌==◌, ltb, if◌then◌else◌, u8, add64, codes,
}
use flame_os.Libc.Bytes
use flame_os.Log.{Arg, number, logchar, logs, log_number, log_text, prepend, debug_log}

-- As in debug_log, without the conversion of a character.
unfoldable pub error_conversion :
    (c : ℕ) (args : List Arg) (str : List ℕ) (after behind : List Arg → List ℕ → Run (List ℕ))
    → Run (List ℕ)
unfolding log_number log_text
error_conversion c args str after behind =
    if c == 112
    then log_number 16 (48 ∷ 120 ∷ []) args str after
    else if c == 100
    then log_number 10 [] args str after
    else if c == 88
    then log_number 16 [] args str after
    else if c == 115
    then log_text args str after
    else if c == 37
    then prepend (37 ∷ []) (behind args str)
    else behind args str

-- A line feed is written as it is.
unfoldable pub error : (format : List ℕ) (args : List Arg) (str : List ℕ) → Run (List ℕ)
unfolding error_conversion
error [] args str = ok []
error (f ∷ []) args str = if f == 37 then ok [] else ok (u8 f ∷ [])
error (f ∷ c ∷ format) args str =
    if f == 37
    then error_conversion c args str (error format) (error (c ∷ format))
    else prepend (u8 f ∷ []) (error (c ∷ format) args str)

-- A byte in two digits and a space. `str` is what the buffer of debug_log holds at first.
unfoldable pub dump_byte : (c : ℕ) (str : List ℕ) → Run (List ℕ)
unfolding debug_log
dump_byte c str =
    prepend (if ltb c 0x10 then logchar 48 else []) (debug_log (codes "%X ") (number c ∷ []) str)

-- The loops of `memdump`, with `count` bytes left and `x` of the row written.
unfoldable pub dump_from : (count x c : ℕ) (m : Bytes.Bytes) (str : List ℕ) → Run (List ℕ)
unfolding dump_byte logs
dump_from zero x c m str = ok (if x == 8 then logs (10 ∷ 13 ∷ []) else [])
dump_from (suc count) x c m str = prepend (if x == 8 then logs (10 ∷ 13 ∷ []) else []) do
  byte ← dump_byte (m c) str
  prepend byte (dump_from count (if x == 8 then 1 else suc x) (add64 c 1) m str)

unfoldable pub memdump : (ptr count : ℕ) (m : Bytes.Bytes) (str : List ℕ) → Run (List ℕ)
unfolding dump_from
memdump ptr count m str = dump_from count 0 ptr m str
