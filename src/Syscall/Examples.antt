-- ===== src/Syscall/Examples.antt =====
-- A process of 64 bytes, whose stack at 32 has the argument 16 behind a return address.
use operating_system.Common.{ℕ, ◌+◌, ◌≤◌, ◌<◌, ◌≡◌, ◌≢◌, refl, arith, ◌==◌, if◌then◌else◌}
use operating_system.Syscall.{fetchint, scan, fetchstr, argint, argptr}
use operating_system.Syscall.Bounds.{argptr_bounds, fetchstr_bounds}

-- zeroes but for the argument and the string "ab" at 16
abbrev bytes : ℕ → ℕ
bytes a = if a == 36 then 16 else if a == 16 then 97 else if a == 17 then 98 else 0

argptr_bounds_example : 16 + 48 ≤ 64
unfolding argptr argint fetchint
argptr_bounds_example = argptr_bounds bytes 64 (omega arith) 32 0 48 16 (omega arith) refl

fetchstr_bounds_example :
    (16 + 2 < 64) × (bytes (16 + 2) ≡ 0) × ((j : ℕ) → j < 2 → bytes (16 + j) ≢ 0)
unfolding fetchstr scan
fetchstr_bounds_example = fetchstr_bounds bytes 64 16 2 refl
