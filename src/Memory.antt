-- ===== src/Memory.antt =====
-- string.c over a flat memory of bytes: an address is a 32-bit number, `mem a` the byte there.
-- A loop `while(n-- > 0)` is recursion on `n`. Pointers wrap at 2^32.
pub mod Move
pub mod Fill
pub mod Strings
mod Examples
use Prim.Native.Nat.{bit_or}
use operating_system.Common.{
  ℕ, zero, suc, ◌+◌, ◌-◌, ◌*◌, ◌/◌, ◌%◌, ◌^◌, ◌&&◌, ltb, ◌==◌, if◌then◌else◌, Option, none, some,
}
use operating_system.Common.Int.{ℤ, pos, sub_ℕ}

abbrev pub Memory : Type 0
Memory = ℕ → ℕ

abbrev pub ptr_add : ℕ → ℕ → ℕ
ptr_add p k = (p + k) % 2 ^ 32

abbrev pub ptr_pred : ℕ → ℕ
ptr_pred p = (p + (2 ^ 32 - 1)) % 2 ^ 32

-- `*a = v` for a char
unfoldable pub write : Memory → ℕ → ℕ → Memory
write m a v x = if x == a then v else m x

-- `stosb` of x86.h
pub stosb : ℕ → ℕ → ℕ → Memory → Memory
stosb d c zero m = m
stosb d c (suc n) m = stosb (ptr_add d 1) c n (write m d (c % 256))

-- a 32-bit store, lowest byte first
unfoldable pub store32 : Memory → ℕ → ℕ → Memory
store32 m a w =
    write
      (write (write (write m a (w % 256)) (ptr_add a 1) (w / 2 ^ 8 % 256)) (ptr_add a 2)
        (w / 2 ^ 16 % 256))
      (ptr_add a 3) (w / 2 ^ 24 % 256)

-- `stosl` of x86.h
pub stosl : ℕ → ℕ → ℕ → Memory → Memory
stosl d w zero m = m
stosl d w (suc n) m = stosl (ptr_add d 4) w n (store32 m d w)

-- `(c<<24)|(c<<16)|(c<<8)|c`
abbrev pub spread : ℕ → ℕ
spread c = bit_or (bit_or (bit_or (c * 2 ^ 24) (c * 2 ^ 16)) (c * 2 ^ 8)) c

pub memset : ℕ → ℕ → ℕ → Memory → Memory
memset d c n m =
    if (d % 4 == 0) && (n % 4 == 0) then stosl d (spread (c % 256)) (n / 4) m else stosb d c n m

-- the bytes are unsigned, so their difference is an integer
pub memcmp : ℕ → ℕ → ℕ → Memory → ℤ
memcmp p q zero m = pos 0
memcmp p q (suc n) m =
    if m p == m q then memcmp (ptr_add p 1) (ptr_add q 1) n m else sub_ℕ (m p) (m q)

pub copy_down : ℕ → ℕ → ℕ → Memory → Memory
copy_down d s zero m = m
copy_down d s (suc n) m =
    copy_down (ptr_pred d) (ptr_pred s) n (write m (ptr_pred d) (m (ptr_pred s)))

pub copy_up : ℕ → ℕ → ℕ → Memory → Memory
copy_up d s zero m = m
copy_up d s (suc n) m = copy_up (ptr_add d 1) (ptr_add s 1) n (write m d (m s))

pub memmove : ℕ → ℕ → ℕ → Memory → Memory
memmove d s n m =
    if ltb s d && ltb d (ptr_add s n)
    then copy_down (ptr_add d n) (ptr_add s n) n m
    else copy_up d s n m

pub strncmp : ℕ → ℕ → ℕ → Memory → ℤ
strncmp p q zero m = pos 0
strncmp p q (suc n) m =
    if ltb 0 (m p) && (m p == m q)
    then strncmp (ptr_add p 1) (ptr_add q 1) n m
    else sub_ℕ (m p) (m q)

-- `while(n-- > 0) *s++ = 0;`
pub pad : ℕ → ℕ → Memory → Memory
pad s zero m = m
pad s (suc n) m = pad (ptr_add s 1) n (write m s 0)

-- The first loop copies up to and with the NUL, the second pads the room that is left.
pub strncpy : ℕ → ℕ → ℕ → Memory → Memory
strncpy s t zero m = m
strncpy s t (suc n) m =
    if m t == 0
    then pad (ptr_add s 1) n (write m s 0)
    else strncpy (ptr_add s 1) (ptr_add t 1) n (write m s (m t))

pub safe_copy : ℕ → ℕ → ℕ → Memory → Memory
safe_copy s t zero m = write m s 0
safe_copy s t (suc n) m =
    if m t == 0
    then write (write m s 0) (ptr_add s 1) 0
    else safe_copy (ptr_add s 1) (ptr_add t 1) n (write m s (m t))

-- A size that is not positive leaves the memory alone.
pub safestrcpy : ℕ → ℕ → ℕ → Memory → Memory
unfolding safe_copy
safestrcpy s t zero m = m
safestrcpy s t (suc n) m = safe_copy s t n m

-- The loop has no bound of its own: `none` means that the fuel ran out before a NUL.
pub strlen_from : ℕ → ℕ → ℕ → Memory → Option ℕ
strlen_from zero s n m = none
strlen_from (suc f) s n m =
    let rest = strlen_from f s (n + 1) m in if m (ptr_add s n) == 0 then some n else rest

pub strlen : ℕ → ℕ → Memory → Option ℕ
unfolding strlen_from
strlen fuel s m = strlen_from fuel s 0 m

-- a 32-bit load
abbrev pub load32 : Memory → ℕ → ℕ
load32 m a = m a + m (ptr_add a 1) * 2 ^ 8 + m (ptr_add a 2) * 2 ^ 16 + m (ptr_add a 3) * 2 ^ 24
