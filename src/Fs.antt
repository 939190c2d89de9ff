-- ===== src/Fs.antt =====
-- kernel/fs/FS.c and libs/include/stdio.h: the position in an open file. An offset, a `long long`, is its
-- 64-bit pattern: the source compares it as an unsigned number where the other side is one.
pub mod Seek
pub mod Table
pub mod Files
pub mod Open
pub mod Close
pub mod Fat
mod Examples
use flame_os.Base.{
  ℕ, ◌-◌, ◌^◌, Bool, ℤ, pos, negsuc, minus_one, leb, ltb, if◌then◌else◌, add64, sub64,
}

-- `fpos_t`
pub data Position : Type 0 where
  seek_set seek_cur seek_end : Position

-- `FILE`, with `path` as an address.
pub record File : Type 0 where
  pub path : ℕ
  pub volume : ℕ
  pub pointer : ℕ
  pub size : ℕ
  pub flags : ℕ
  pub used : Bool

abbrev pub minus_two : ℤ
minus_two = negsuc 1

-- `offset < 0`
abbrev pub negative : ℕ → Bool
negative offset = leb (2 ^ 63) offset

abbrev pub move : ℕ → File → File
move p fp = record fp { pointer = p }

unfoldable pub fseek : File → ℕ → Position → ℤ × File
fseek fp offset seek_set =
    if leb fp.size offset
    then (minus_two, fp)
    else if negative offset
    then (minus_two, fp)
    else (pos 0, move offset fp)
fseek fp offset seek_cur =
    if leb fp.size (add64 offset fp.pointer)
    then (minus_two, fp)
    else (pos 0, move (add64 fp.pointer offset) fp)
fseek fp offset seek_end =
    if negative offset
    then if ltb fp.size (sub64 0 offset)
      then (minus_two, fp)
      else (minus_one, move (add64 fp.size offset) fp)
    else (minus_two, fp)
