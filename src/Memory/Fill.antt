-- ===== src/Memory/Fill.antt =====
-- memset of string.c, and 32-bit stores.
use operating_system.Common.{
  ℕ, zero, suc, ◌+◌, ◌*◌, ◌/◌, ◌%◌, ◌^◌, ◌<◌, ◌≤◌, ◌≡◌, ◌⊎◌, refl, arith, ◌&&◌, ltb, leb, ◌==◌,
  if◌then◌else◌, fun_ext, passes, passes-at, ==_iff, true, Bool,
}
use operating_system.Memory.{Memory, ptr_add, write, store32, load32, stosb, stosl, spread, memset}

-- the memory in which the `n` bytes from `d` on are `c`
unfoldable pub filled : ℕ → ℕ → ℕ → Memory → Memory
filled d c n m a = if leb d a && ltb a (d + n) then c else m a

abbrev spreads : ℕ → Bool
spreads c = spread c == c * 0x0101_0101

spread_table : passes spreads 0 255 ≡ true
unfolding passes
spread_table = refl

spread_lem : (c : ℕ) → c < 256 → spread c ≡ c * 0x0101_0101
spread_lem c h =
    (==_iff (spread c) (c * 0x0101_0101)).0
      (passes-at spreads 0 255 c spread_table (omega arith) (omega arith))

stosb_lem :
    (d c n : ℕ) (m : Memory) (a : ℕ) → d + n < 2 ^ 32 → stosb d c n m a ≡ filled d (c % 256) n m a
unfolding stosb filled write
stosb_lem d c zero m a hd = ground arith
stosb_lem d c (suc n) m a hd =
    let d' : ptr_add d 1 ≡ d + 1 = omega arith in
    rw (d', stosb_lem (d + 1) c n (write m d (c % 256)) a (omega arith)) (ground arith)

-- the four bytes that `store32` writes of a spread byte
store32-spread :
    (m : Memory) (d c : ℕ)
    → d + 4 < 2 ^ 32
    → c < 256
    → (a : ℕ) → store32 m d (spread c) a ≡ filled d c 4 m a
unfolding store32 write filled
store32-spread m d c hd hc a = rw (spread_lem c hc) (ground arith)

stosl_lem :
    (d c n : ℕ) (m : Memory) (a : ℕ)
    → d + 4 * n < 2 ^ 32
    → c < 256
    → stosl d (spread c) n m a ≡ filled d c (4 * n) m a
unfolding stosl
stosl_lem d c zero m a hd hc = unfold filled in ground arith
stosl_lem d c (suc n) m a hd hc =
    let d' : ptr_add d 4 ≡ d + 4 = omega arith in
    rw (d', stosl_lem (d + 4) c n (store32 m d (spread c)) a (omega arith) hc)
      (unfold filled in ground (arith, store32-spread m d c (omega arith) hc a))

-- Whichever of the two instructions runs, memset fills exactly its range, with the low byte of `c`.
pub memset_lem : (d c n : ℕ) (m : Memory) → d + n < 2 ^ 32 → memset d c n m ≡ filled d (c % 256) n m
unfolding memset filled
memset_lem d c n m hd =
    fun_ext λ a. ground (arith, stosl_lem d (c % 256) (n / 4) m a, stosb_lem d c n m a)

-- A 32-bit load gives back what was stored last at its address.
pub load32-store32 :
    (m : Memory) (a w : ℕ) → a + 4 < 2 ^ 32 → w < 2 ^ 32 → load32 (store32 m a w) a ≡ w
unfolding store32 write
load32-store32 m a w ha hw = ground arith

-- and leaves a word that does not overlap alone
pub load32-store32_ne :
    (m : Memory) (a b w : ℕ)
    → a + 4 < 2 ^ 32
    → b + 4 < 2 ^ 32
    → (a + 4 ≤ b) ⊎ (b + 4 ≤ a)
    → load32 (store32 m a w) b ≡ load32 m b
unfolding store32 write
load32-store32_ne m a b w ha hb apart = ground arith

pub load32-filled_ne :
    (m : Memory) (d c n b : ℕ)
    → b + 4 < 2 ^ 32
    → (d + n ≤ b) ⊎ (b + 4 ≤ d)
    → load32 (filled d c n m) b ≡ load32 m b
unfolding filled
load32-filled_ne m d c n b hb apart = ground arith
