-- ===== src/Memory/Move.antt =====
-- memmove of string.c copies the old bytes of the source, also where the two ranges overlap.
use operating_system.Common.{
  ℕ, zero, suc, ◌+◌, ◌-◌, ◌^◌, ◌<◌, ◌≤◌, ◌≡◌, ◌⊎◌, arith, ◌&&◌, ltb, leb, if◌then◌else◌, fun_ext,
}
use operating_system.Memory.{Memory, ptr_add, ptr_pred, write, copy_down, copy_up, memmove}

-- the memory in which the `n` bytes from `d` on are those that `m` has from `s` on
unfoldable pub moved : ℕ → ℕ → ℕ → Memory → Memory
moved d s n m a = if leb d a && ltb a (d + n) then m (s + (a - d)) else m a

copy_up_lem :
    (d s n : ℕ) (m : Memory) (a : ℕ)
    → d + n < 2 ^ 32
    → s + n < 2 ^ 32
    → (d ≤ s) ⊎ (s + n ≤ d)
    → copy_up d s n m a ≡ moved d s n m a
unfolding copy_up moved write
copy_up_lem d s zero m a hd hs apart = ground arith
copy_up_lem d s (suc n) m a hd hs apart =
    let d' : ptr_add d 1 ≡ d + 1 = omega arith in
    let s' : ptr_add s 1 ≡ s + 1 = omega arith in
    rw
      (
        d',
        s',
        copy_up_lem (d + 1) (s + 1) n (write m d (m s)) a (omega arith) (omega arith) (omega arith),
      )
      (ground arith)

copy_down_lem :
    (d s n : ℕ) (m : Memory) (a : ℕ)
    → d + n < 2 ^ 32
    → s + n < 2 ^ 32
    → s < d
    → copy_down (d + n) (s + n) n m a ≡ moved d s n m a
unfolding copy_down moved write
copy_down_lem d s zero m a hd hs lt = ground arith
copy_down_lem d s (suc n) m a hd hs lt =
    let d' : ptr_pred (d + suc n) ≡ d + n = omega arith in
    let s' : ptr_pred (s + suc n) ≡ s + n = omega arith in
    rw (d', s', copy_down_lem d s n (write m (d + n) (m (s + n))) a (omega arith) (omega arith) lt)
      (ground arith)

pub memmove_lem :
    (d s n : ℕ) (m : Memory) → d + n < 2 ^ 32 → s + n < 2 ^ 32 → memmove d s n m ≡ moved d s n m
unfolding memmove
memmove_lem d s n m hd hs = fun_ext λ a.
    let d' : ptr_add d n ≡ d + n = omega arith in
    let s' : ptr_add s n ≡ s + n = omega arith in
    rw (d', s') (ground (arith, copy_up_lem d s n m a, copy_down_lem d s n m a))
