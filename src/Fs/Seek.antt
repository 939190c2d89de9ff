-- ===== src/Fs/Seek.antt =====
-- What fseek does to the position.
use flame_os.Base.{ℕ, ◌^◌, ◌<◌, ◌≢◌, Bool-cases, inl, inr, arith, pos, leb, ltb, add64, sub64}
use flame_os.Fs.{Position, seek_set, seek_cur, seek_end, File, negative, fseek}

-- `fseek` with any offset of 64 bits, in a file whose position is inside it and whose size is below
-- 2 ^ 64, leaves the position inside the file, on every branch.
pub fseek-pointer :
    (fp : File) (offset : ℕ) (position : Position)
    → offset < 2 ^ 64
    → fp.size < 2 ^ 64
    → fp.pointer < fp.size
    → (fseek fp offset position).1.pointer < (fseek fp offset position).1.size
unfolding fseek
fseek-pointer fp offset seek_set l s h = elim (Bool-cases (leb fp.size offset)) [
  | inl out ↦ rw out h
  | inr inside ↦ elim (Bool-cases (negative offset)) [
    | inl below ↦ rw (inside, below) h
    | inr ok_offset ↦ rw (inside, ok_offset) (ground arith)
  ]
]
fseek-pointer fp offset seek_cur l s h = elim (Bool-cases (leb fp.size (add64 offset fp.pointer))) [
  | inl out ↦ rw out h
  | inr inside ↦ rw inside (ground arith)
]
fseek-pointer fp offset seek_end l s h = elim (Bool-cases (negative offset)) [
  | inr above ↦ rw above h
  | inl below ↦ elim (Bool-cases (ltb fp.size (sub64 0 offset))) [
    | inl out ↦ rw (below, out) h
    | inr inside ↦ rw (below, inside) (ground arith)
  ]
]

-- `fseek` from the end of a file never reports success, whatever the offset, and also where it moves
-- the position.
pub fseek-seek_end : (fp : File) (offset : ℕ) → (fseek fp offset seek_end).0 ≢ pos 0
unfolding fseek
fseek-seek_end fp offset e = elim (Bool-cases (negative offset)) [
  | inr above ↦ absurd (cc (rw above at e))
  | inl below ↦ elim (Bool-cases (ltb fp.size (sub64 0 offset))) [
    | inl out ↦ absurd (cc (rw (below, out) at e))
    | inr inside ↦ absurd (cc (rw (below, inside) at e))
  ]
]
