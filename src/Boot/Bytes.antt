-- ===== src/Boot/Bytes.antt =====
-- bootloader/boot.h: the bootloader's own memcpy and memzero.
use flame_os.Base.{
  ℕ, zero, suc, ◌+◌, ◌-◌, ◌^◌, ◌≤◌, ◌<◌, ◌≡◌, refl, ◌⊎◌, leb, ltb, ◌&&◌, if◌then◌else◌, add64,
}
use flame_os.Libc.Bytes.{memcpy, memset, memcpy_loop, memset_loop}
use flame_os.Libc.Bytes
use flame_os.Libc.Bytes.{store}
use flame_os.Libc.Bytes.Blocks.{memcpy_lem, memset_lem}

-- `memcpy(dest, src, len)` of boot.h, which returns nothing.
unfoldable pub copy_bytes : (dest src len : ℕ) → Bytes.Bytes → Bytes.Bytes
copy_bytes dest src zero m = m
copy_bytes dest src (suc len) m = copy_bytes (add64 dest 1) (add64 src 1) len (store m dest (m src))

-- `memzero(mem, len)`
unfoldable pub memzero : (mem len : ℕ) → Bytes.Bytes → Bytes.Bytes
memzero p zero m = m
memzero p (suc len) m = memzero (add64 p 1) len (store m p 0)

copy-loop :
    (dest src len : ℕ) (m : Bytes.Bytes) → copy_bytes dest src len m ≡ memcpy_loop len dest src m
unfolding copy_bytes memcpy_loop
copy-loop dest src zero m = refl
copy-loop dest src (suc len) m = copy-loop (add64 dest 1) (add64 src 1) len (store m dest (m src))

zero-loop : (p len : ℕ) (m : Bytes.Bytes) → memzero p len m ≡ memset_loop len p 0 m
unfolding memzero memset_loop
zero-loop p zero m = refl
zero-loop p (suc len) m = zero-loop (add64 p 1) len (store m p 0)

-- The bootloader's copy is that of the C library.
pub copy_bytes-memcpy :
    (dest src len : ℕ) (m : Bytes.Bytes) → copy_bytes dest src len m ≡ (memcpy dest src len m).1
unfolding memcpy
copy_bytes-memcpy dest src len m = copy-loop dest src len m

pub memzero-memset : (p len : ℕ) (m : Bytes.Bytes) → memzero p len m ≡ (memset p 0 len m).1
unfolding memset
memzero-memset p len m = zero-loop p len m

pub copy_bytes-at :
    (dest src len : ℕ) (m : Bytes.Bytes) (a : ℕ)
    → dest + len < 2 ^ 64
    → src + len < 2 ^ 64
    → (dest ≤ src) ⊎ (src + len ≤ dest)
    → copy_bytes dest src len m a
      ≡ (if leb dest a && ltb a (dest + len) then m (src + (a - dest)) else m a)
copy_bytes-at dest src len m a h h' apart =
    rw (copy_bytes-memcpy dest src len m) (memcpy_lem dest src len m a h h' apart).1

pub memzero-at :
    (p len : ℕ) (m : Bytes.Bytes) (a : ℕ)
    → p + len < 2 ^ 64
    → memzero p len m a ≡ (if leb p a && ltb a (p + len) then 0 else m a)
memzero-at p len m a h = rw (memzero-memset p len m) (memset_lem p 0 len m a h).1
