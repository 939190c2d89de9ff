-- ===== src/Cpu/Faults.antt =====
-- kernel/arch/x86_64/cpu/ints/IDT.c: the bodies of the handlers. A fault handler prints and then halts for
-- ever; the others end the interrupt.
use flame_os.Base.{
  ℕ, ◌^◌, ◌<◌, ◌≡◌, ap, ◌∙◌, refl, Bool, arith, true, false, List, [], ◌∷◌, ◌++◌, Run, ok, fault,
  ◌>>=◌, codes, length,
}
use mathlib.Core.List.{append-nil}
use flame_os.Libc.Itoa.{itoa}
use flame_os.Log.{number, logs}
use flame_os.Log.Error.{error}
use flame_os.Log.Safe.{itoa_21}
use flame_os.Cpu.Io.{Device}
use flame_os.Cpu.Pic.{piceoi}
use flame_os.Cpu.Idt.{
  Handler, general_fault, non_maskable_interrupt, div_0_fault, debug_fault, breakpoint_fault,
  overflow_fault, bound_fault, inv_opcode_fault, no_device_fault, double_fault, inv_tss_fault,
  no_segment_fault, stack_fault, gp_fault, page_fault, nop_master, nop_slave,
}

-- What a handler does: it halts after its output, or returns.
pub data Outcome (S : Type 0) : Type 0 where
  halts : List ℕ → Outcome S
  returns : S → Outcome S

abbrev pub print : {S : Type 0} → Run (List ℕ) → Run (Outcome S)
print r = r >>= λ out. ok (halts out)

-- `code` is the error code that the processor pushes for some of the faults, and `str` what the
-- buffer of `error` holds at first.
unfoldable pub handle :
    {S : Type 0} → Device S → Handler → (code : ℕ) (str : List ℕ) → S → Run (Outcome S)
unfolding error piceoi
handle d general_fault code str s = print (error (codes "General fault RIP :[") [] str)
handle d non_maskable_interrupt code str s =
    print (error (codes "Non-maskable interrupt :|") [] str)
handle d div_0_fault code str s = print (error (codes "#DE Divide by 0 error :[") [] str)
handle d debug_fault code str s = print (error (codes "#DB Debug fault :[") [] str)
handle d breakpoint_fault code str s = print (error (codes "#BP Breakpoint fault :[") [] str)
handle d overflow_fault code str s = print (error (codes "#OF Overflow fault :[") [] str)
handle d bound_fault code str s = print (error (codes "#BR Bound range exceeded :[") [] str)
handle d inv_opcode_fault code str s = print (error (codes "#UD Invalid opcode :[") [] str)
handle d no_device_fault code str s = print (error (codes "#NM Device not found :[") [] str)
handle d double_fault code str s = print (error (codes "#DF Double fault :[") [] str)
handle d inv_tss_fault code str s =
    print (error (codes "#TS Invalid TSS :[ CODE: %X") (number code ∷ []) str)
handle d no_segment_fault code str s =
    print (error (codes "#NP Segment not present :[ CODE: %X") (number code ∷ []) str)
handle d stack_fault code str s = print (error (codes "#SS Stack segment fault :[ CODE: %X") [] str)
handle d gp_fault code str s =
    print (error (codes "#GP General protection fault :[ CODE: %X") (number code ∷ []) str)
handle d page_fault code str s =
    print (error (codes "#PF Page fault :[ CODE: %X") (number code ∷ []) str)
handle d nop_master code str s = ok (returns (piceoi d false s))
handle d nop_slave code str s = ok (returns (piceoi d true s))

-- The error code as `itoa` writes it in base 16.
abbrev pub HexOf : (code : ℕ) (str digits : List ℕ) → Type 0
HexOf code str digits =
    (d : ℕ) × (str' : List ℕ) × (itoa 64 code str 16 ≡ ok (d, str')) × (logs str' ≡ digits)

-- The text of a fault, up to its code.
abbrev pub message : Handler → List ℕ
message general_fault = codes "General fault RIP :["
message non_maskable_interrupt = codes "Non-maskable interrupt :|"
message div_0_fault = codes "#DE Divide by 0 error :["
message debug_fault = codes "#DB Debug fault :["
message breakpoint_fault = codes "#BP Breakpoint fault :["
message overflow_fault = codes "#OF Overflow fault :["
message bound_fault = codes "#BR Bound range exceeded :["
message inv_opcode_fault = codes "#UD Invalid opcode :["
message no_device_fault = codes "#NM Device not found :["
message double_fault = codes "#DF Double fault :["
message inv_tss_fault = codes "#TS Invalid TSS :[ CODE: "
message no_segment_fault = codes "#NP Segment not present :[ CODE: "
message stack_fault = codes "#SS Stack segment fault :[ CODE: "
message gp_fault = codes "#GP General protection fault :[ CODE: "
message page_fault = codes "#PF Page fault :[ CODE: "
message nop_master = []
message nop_slave = []

-- How a handler ends: after its text, after its text and the code, at an argument that it does not pass, or
-- with the end of the interrupt, of the second controller too if it is `true`.
pub data Ending : Type 0 where
  prints prints_code misses_code : Ending
  ends : Bool → Ending

abbrev pub ending_of : Handler → Ending
ending_of inv_tss_fault = prints_code
ending_of no_segment_fault = prints_code
ending_of gp_fault = prints_code
ending_of page_fault = prints_code
ending_of stack_fault = misses_code
ending_of nop_master = ends false
ending_of nop_slave = ends true
ending_of h = prints

module _ {S : Type 0} (d : Device S) (code : ℕ) (str : List ℕ) (s : S) where
  abbrev pub EndsAs : Ending → Handler → Run (Outcome S) → Type 0
  EndsAs prints h r = r ≡ ok (halts (message h))
  EndsAs prints_code h r =
      (digits : List ℕ) × HexOf code str digits × (r ≡ ok (halts (message h ++ digits)))
  EndsAs misses_code h r = r ≡ fault
  EndsAs (ends slave) h r = r ≡ ok (returns (piceoi d slave s))

  abbrev pub Handled : Handler → Run (Outcome S) → Type 0
  Handled h r = EndsAs (ending_of h) h r

module _ {S : Type 0} (d : Device S) (code : ℕ) (str : List ℕ) (s : S) (small : code < 2 ^ 64)
    (long : length str ≡ 21) where
  coded_lem :
      (h : Handler) (r : Run (Outcome S))
      → ((n : ℕ) (str' : List ℕ)
          → itoa 64 code str 16 ≡ ok (n, str')
          → r ≡ ok (halts (message h ++ (logs str' ++ []))))
      → EndsAs d code str s prints_code h r
  coded_lem h r run =
      let (n, str', e, _) = itoa_21 code 16 str (omega arith) (omega arith) small long in
      (
        logs str',
        (n, str', e, refl),
        run n str' e ∙ ap (λ t. ok (halts (message h ++ t))) (append-nil (logs str')),
      )

  -- With an error code below 2 ^ 64 and a buffer of 21 characters, each handler ends as its row of
  -- `ending_of` says: a fault handler prints the text of its fault in `message`, the four of
  -- `prints_code` the code in base 16 behind it, and halts; `stack_fault` reads an argument that it
  -- does not pass; `nop_master` and `nop_slave` end the interrupt at their controllers and return.
  pub handle-Handled : (h : Handler) → Handled d code str s h (handle d h code str s)
  unfolding handle
  handle-Handled general_fault = refl
  handle-Handled non_maskable_interrupt = refl
  handle-Handled div_0_fault = refl
  handle-Handled debug_fault = refl
  handle-Handled breakpoint_fault = refl
  handle-Handled overflow_fault = refl
  handle-Handled bound_fault = refl
  handle-Handled inv_opcode_fault = refl
  handle-Handled no_device_fault = refl
  handle-Handled double_fault = refl
  handle-Handled inv_tss_fault = coded_lem inv_tss_fault _ (λ n str' e. rw e refl)
  handle-Handled no_segment_fault = coded_lem no_segment_fault _ (λ n str' e. rw e refl)
  handle-Handled stack_fault = refl
  handle-Handled gp_fault = coded_lem gp_fault _ (λ n str' e. rw e refl)
  handle-Handled page_fault = coded_lem page_fault _ (λ n str' e. rw e refl)
  handle-Handled nop_master = refl
  handle-Handled nop_slave = refl
