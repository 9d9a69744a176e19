-- ===== src/Log/Examples.antt =====
-- A log in blocks 2 to 32, and a transaction of two blocks.
use operating_system.Common.{
  ℕ, ◌≡◌, ◌⊎◌, refl, arith, false, ◌==◌, if◌then◌else◌, [], ◌∷◌, Option, none, some,
}
use operating_system.Common.Int.{pos}
use operating_system.Log.{
  Block, Store, Log, content, header, read_words, write_words, is_logged, commit, recover_from_log,
}
use operating_system.Log.Loops.{in_area, Logged}
use operating_system.Log.Phases.{IsReady, IsDone, commit-IsDone}
use operating_system.Log.Crash.{reboot, recovered, commit_crash}
use operating_system.Log.Again.{recovered_again}

abbrev empty_log : Log
empty_log = record { start = 2; size = 31; outstanding = pos 0; committing = false; blocks = [] }

abbrev blank_disk : Store
blank_disk = record { disk = λ b w. 0; dirty = λ b. none; power = 4 }

abbrev two_logged : Log
two_logged = record empty_log { blocks = 50 ∷ 60 ∷ [] }

abbrev modified : ℕ → Option Block
modified b = if b == 50 then some (λ w. 5) else if b == 60 then some (λ w. 6) else none

abbrev two_dirty : Store
two_dirty = record blank_disk { dirty = modified }

two_dirty-IsReady : (p : ℕ) → IsReady two_logged (record two_dirty { power = p })
unfolding is_logged
two_dirty-IsReady p = record {
  outside = λ b h. ground arith;
  listed = λ b h. ground arith;
  cleared = refl;
}

commit_crash_example :
    ((b : ℕ)
      → in_area 2 2 b ≡ false
      → recovered two_logged 2 (commit two_logged two_dirty).1 b ≡ two_dirty.disk b)
    ⊎ ((b : ℕ)
        → in_area 2 2 b ≡ false
        → recovered two_logged 2 (commit two_logged two_dirty).1 b ≡ content two_dirty b)
commit_crash_example = commit_crash two_logged two_dirty (two_dirty-IsReady 4) 2 (omega arith)

commit-IsDone_example :
    IsDone two_logged
      (record two_dirty { power = 9 })
      (commit two_logged (record two_dirty { power = 9 }))
commit-IsDone_example =
    commit-IsDone two_logged (record two_dirty { power = 9 }) (two_dirty-IsReady 9) (omega arith)

abbrev committed : Store
committed = record blank_disk {
  disk = λ b.
      if b == 2
      then header (50 ∷ 60 ∷ []) (λ w. 0)
      else if b == 3
      then (λ w. 5)
      else if b == 4
      then (λ w. 6)
      else λ w. 0;
}

recovered_again_example :
    recovered two_logged 5 (recover_from_log two_logged (reboot 1 committed)).1 60
    ≡ recovered two_logged 5 committed 60
unfolding is_logged header read_words write_words Logged
recovered_again_example =
    recovered_again two_logged committed (50 ∷ 60 ∷ []) (λ b. if b == 50 then (λ w. 5) else λ w. 6)
      refl (λ b h. ground arith) (refl, (refl, tt)) 1 5 (omega arith) 60 refl

abbrev one_written : Log
one_written = record empty_log { outstanding = pos 1; blocks = 50 ∷ [] }
