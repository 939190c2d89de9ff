-- ===== src/Libc/Bytes/Blocks.antt =====
-- What memset, memcpy and memcmp do.
use flame_os.Base.{
  ℕ, zero, suc, ◌+◌, ◌-◌, ◌^◌, ◌≤◌, ◌<◌, ◌≡◌, ◌⊎◌, inl, inr, refl, arith, pos, minus_one, ltb, leb,
  ◌&&◌, if◌then◌else◌, u8, add64,
}
use flame_os.Libc.Bytes.{Bytes, store, memset_loop, memset, memcpy_loop, memcpy, memcmp}

memset_loop_lem :
    (size p c : ℕ) (m : Bytes) (a : ℕ)
    → p + size < 2 ^ 64
    → memset_loop size p c m a ≡ (if leb p a && ltb a (p + size) then c else m a)
unfolding memset_loop
memset_loop_lem zero p c m a h = ground arith
memset_loop_lem (suc size) p c m a h =
    let next : add64 p 1 ≡ p + 1 = omega arith in
    rw next (ground (arith, memset_loop_lem size (p + 1) c (store m p c) a (omega arith)))

-- `memset` of an area that does not wrap returns its pointer; each byte of the area is then the low
-- byte of the value, and each other byte is as before.
pub memset_lem :
    (ptr value size : ℕ) (m : Bytes) (a : ℕ)
    → ptr + size < 2 ^ 64
    → ((memset ptr value size m).0 ≡ ptr)
      × ((memset ptr value size m).1 a
          ≡ (if leb ptr a && ltb a (ptr + size) then u8 value else m a))
unfolding memset
memset_lem ptr value size m a h = (refl, memset_loop_lem size ptr (u8 value) m a h)

memcpy_loop_lem :
    (size dest src : ℕ) (m : Bytes) (a : ℕ)
    → dest + size < 2 ^ 64
    → src + size < 2 ^ 64
    → (dest ≤ src) ⊎ (src + size ≤ dest)
    → memcpy_loop size dest src m a
      ≡ (if leb dest a && ltb a (dest + size) then m (src + (a - dest)) else m a)
unfolding memcpy_loop
memcpy_loop_lem zero dest src m a h h' apart = ground arith
memcpy_loop_lem (suc size) dest src m a h h' apart =
    let next : add64 dest 1 ≡ dest + 1 = omega arith in
    let next' : add64 src 1 ≡ src + 1 = omega arith in
    let rest =
      memcpy_loop_lem size (dest + 1) (src + 1) (store m dest (m src)) a (omega arith) (omega arith)
        (later apart) in
    rw (next, next') (ground (arith, rest))
  where
    later :
        (dest ≤ src) ⊎ (src + suc size ≤ dest) → (dest + 1 ≤ src + 1) ⊎ (src + 1 + size ≤ dest + 1)
    later (inl before) = inl (omega arith)
    later (inr after) = inr (omega arith)

-- `memcpy` between areas that do not wrap, where the destination does not start inside the source
-- area behind its first byte, returns the destination; it then holds the bytes that the source had,
-- and each other byte is as before.
pub memcpy_lem :
    (dest src size : ℕ) (m : Bytes) (a : ℕ)
    → dest + size < 2 ^ 64
    → src + size < 2 ^ 64
    → (dest ≤ src) ⊎ (src + size ≤ dest)
    → ((memcpy dest src size m).0 ≡ dest)
      × ((memcpy dest src size m).1 a
          ≡ (if leb dest a && ltb a (dest + size) then m (src + (a - dest)) else m a))
unfolding memcpy
memcpy_lem dest src size m a h h' apart = (refl, memcpy_loop_lem size dest src m a h h' apart)

-- `memcmp` of two areas that are not empty compares their first bytes and no others.
pub memcmp-first :
    (ptr1 ptr2 len : ℕ) (m : Bytes)
    → memcmp ptr1 ptr2 (suc len) m ≡ (
        if ltb (m ptr2) (m ptr1) then pos 1 else if ltb (m ptr1) (m ptr2) then minus_one else pos 0)
unfolding memcmp
memcmp-first ptr1 ptr2 zero m = ground arith
memcmp-first ptr1 ptr2 (suc len) m = ground (arith, memcmp-first ptr1 ptr2 len m)
