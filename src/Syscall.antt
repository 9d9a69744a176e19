-- ===== src/Syscall.antt =====
-- The argument checks of syscall.c. User memory is read through `mem`, the byte at each address;
-- `sz` is the size of the process, and an address or an argument is a 32-bit word.
pub mod Bounds
mod Examples
use operating_system.Common.{
  ℕ, zero, suc, ◌+◌, ◌-◌, ◌*◌, ◌%◌, ◌^◌, ◌||◌, Bool, true, false, ltb, leb, ◌==◌, if◌then◌else◌,
  Option, none, some,
}

abbrev pub word : (ℕ → ℕ) → ℕ → ℕ
word mem a =
    mem a
    + mem ((a + 1) % 2 ^ 32) * 2 ^ 8
    + mem ((a + 2) % 2 ^ 32) * 2 ^ 16
    + mem ((a + 3) % 2 ^ 32) * 2 ^ 24

-- `size < 0` for an `int` as its word
abbrev pub is_negative : ℕ → Bool
is_negative w = leb (2 ^ 31) w

module _ (mem : ℕ → ℕ) (sz : ℕ) where
  -- Gives the word, or none for -1.
  pub fetchint : ℕ → Option ℕ
  fetchint addr = if leb sz addr || ltb sz ((addr + 4) % 2 ^ 32) then none else some (word mem addr)

  -- `for(s = *pp; s < ep; s++)`, over the `n` addresses from `s` to `ep`; `k` is `s - *pp`
  pub scan : (n s k : ℕ) → Option ℕ
  scan zero s k = none
  scan (suc n) s k = elim (mem s == 0) [ true ↦ some k | false ↦ scan n (s + 1) (k + 1) ]

  -- Gives the length of the string at `addr`, or none for -1.
  pub fetchstr : ℕ → Option ℕ
  fetchstr addr = if leb sz addr then none else scan (sz - addr) addr 0

  pub argint : (esp n : ℕ) → Option ℕ
  argint esp n = fetchint ((esp + 4 + 4 * n) % 2 ^ 32)

  -- Gives the pointer, or none for -1.
  abbrev pub check_ptr : ℕ → Option ℕ → Option ℕ
  check_ptr size none = none
  check_ptr size (some i) =
      if is_negative size || (leb sz i || ltb sz ((i + size) % 2 ^ 32)) then none else some i

  pub argptr : (esp n size : ℕ) → Option ℕ
  argptr esp n size = check_ptr size (argint esp n)

  -- Gives the length of the string.
  pub argstr : (esp n : ℕ) → Option ℕ
  argstr esp n = elim (argint esp n) [ none ↦ none | some addr ↦ fetchstr addr ]
