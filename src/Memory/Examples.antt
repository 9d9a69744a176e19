-- ===== src/Memory/Examples.antt =====
-- The functions of string.c at concrete memories.
use operating_system.Common.{ℕ, ◌+◌, ◌%◌, ◌<◌, ◌≡◌, ◌≢◌, refl, arith, ◌||◌, ◌==◌, if◌then◌else◌}
use operating_system.Memory.{Memory, memmove, copy_down, write}
use operating_system.Memory.Move.{moved, memmove_lem}

-- byte `a` is `a % 256`, but 0 at 20 and at 40
abbrev ramp : Memory
ramp a = if a == 20 || a == 40 then 0 else a % 256

-- two overlapping ranges, 3 bytes apart
memmove_example : memmove 103 100 8 ramp ≡ moved 103 100 8 ramp
memmove_example = memmove_lem 103 100 8 ramp (omega arith) (omega arith)

memmove_run : memmove 103 100 8 ramp 110 ≡ 107
unfolding memmove copy_down write
memmove_run = refl

ramp_before : (j : ℕ) → j < 3 → ramp (17 + j) ≢ 0
ramp_before j h = ground arith
