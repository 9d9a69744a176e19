-- ===== src/Syscall/Bounds.antt =====
-- What the kernel accepts from a process lies in its memory.
use operating_system.Common.{
  ℕ, zero, suc, ◌+◌, ◌-◌, ◌%◌, ◌^◌, ◌≤◌, ◌<◌, ◌≡◌, ◌≢◌, subst, arith, ◌||◌, false, ltb, leb, ◌==◌,
  Option, none, some, Bool-cases, inl, inr, granted, some-injective,
}
use operating_system.Syscall.{is_negative, scan, fetchstr, argint, check_ptr, argptr}

-- A scan that ends has come to the first NUL.
scan-some :
    (mem : ℕ → ℕ) (sz n s k r : ℕ)
    → scan mem sz n s k ≡ some r
    → (d : ℕ) × (r ≡ k + d) × (d < n) × (mem (s + d) ≡ 0) × ((j : ℕ) → j < d → mem (s + j) ≢ 0)
unfolding scan
scan-some mem sz zero s k r e = cc
scan-some mem sz (suc n) s k r e = elim (Bool-cases (mem s == 0)) [
  | inl here ↦
      let found : some k ≡ some r = rw (here, scan) at e in
      let kr : k ≡ r = some-injective found in
      let start : s + 0 ≡ s = omega arith in
      (0, omega arith, omega arith, rw start (ground arith), λ j lt. absurd (omega arith))
  | inr next ↦
      let more : scan mem sz n (s + 1) (k + 1) ≡ some r = rw (next, scan) at e in
      let (d, rd, lt, nul, before) = scan-some mem sz n (s + 1) (k + 1) r more in
      (
        suc d,
        omega arith,
        omega arith,
        at (s + 1 + d) (s + suc d) (omega arith) nul,
        λ j below. earlier d next before j below,
      )
]
  where
    at : (a b : ℕ) → a ≡ b → mem a ≡ 0 → mem b ≡ 0
    at a b e h = subst (λ x. mem x ≡ 0) e h

    earlier :
        (d : ℕ)
        → (mem s == 0) ≡ false
        → ((j : ℕ) → j < d → mem (s + 1 + j) ≢ 0)
        → (j : ℕ) → j < suc d
        → mem (s + j) ≢ 0
    earlier d next before zero below nul = let z = at (s + 0) s (omega arith) nul in ground arith
    earlier d next before (suc j) below nul =
        before j (omega arith) (at (s + suc j) (s + 1 + j) (omega arith) nul)

module _ (mem : ℕ → ℕ) (sz : ℕ) (small : sz ≤ 2 ^ 31) where
  -- For a process below KERNBASE, a pointer that argptr accepts for `size` bytes has all of them in
  -- the memory of the process, although the sum that it compares may wrap around.
  pub argptr_bounds :
      (esp n size p : ℕ) → size < 2 ^ 32 → argptr mem sz esp n size ≡ some p → p + size ≤ sz
  unfolding argptr
  argptr_bounds esp n size p word_size h = checked (argint mem sz esp n) h
    where
      checked : (o : Option ℕ) → check_ptr mem sz size o ≡ some p → p + size ≤ sz
      checked none e = cc
      checked (some i) e =
          let (g, e1) =
            granted (is_negative size || (leb sz i || ltb sz ((i + size) % 2 ^ 32))) (some i) e in
          let same : i ≡ p = some-injective e1 in
          let lt : i < sz = ground arith in
          let positive : size < 2 ^ 31 = ground arith in
          let fits : (i + size) % 2 ^ 32 ≤ sz = ground arith in omega arith

module _ (mem : ℕ → ℕ) (sz : ℕ) where
  -- A string that fetchstr accepts has its first NUL at the length that is given, within the
  -- memory of the process.
  pub fetchstr_bounds :
      (addr k : ℕ)
      → fetchstr mem sz addr ≡ some k
      → (addr + k < sz) × (mem (addr + k) ≡ 0) × ((j : ℕ) → j < k → mem (addr + j) ≢ 0)
  unfolding fetchstr
  fetchstr_bounds addr k h =
      let (g, e) = granted (leb sz addr) (scan mem sz (sz - addr) addr 0) h in
      let (d, kd, lt, nul, before) = scan-some mem sz (sz - addr) addr 0 k e in
      let same : d ≡ k = omega arith in
      (ground arith, subst (λ x. mem (addr + x) ≡ 0) same nul, λ j below. before j (omega arith))
