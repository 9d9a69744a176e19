-- ===== src/Spinlock/Examples.antt =====
-- A CPU with its interrupts on, and a lock that it wins.
use operating_system.Common.{◌≡◌, refl, arith, true, false, [], ◌∷◌, none, ok}
use operating_system.Spinlock.{Cpu, pushcli, popcli, holding, acquire_enter, acquire_swap}
use operating_system.Spinlock.Nesting.{IsNested, Matched, run, run-IsNested}
use operating_system.Spinlock.Exclusion.{
  Machine, outside, waiting, won, at, Reach, free, later, enters, wins, IsExclusive,
  Reach-IsExclusive,
}

abbrev idle : Cpu
idle = record { ncli = 0; intena = false; interruptible = true }

idle-IsNested : IsNested true idle
idle-IsNested = record {
  at_bottom = λ h. refl;
  off = λ h. absurd (omega arith);
  kept = λ h. absurd (omega arith);
}

run-IsNested_example :
    (c' : Cpu) × (run (true ∷ true ∷ false ∷ false ∷ []) idle ≡ ok c')
    × (c'.ncli ≡ 0)
    × IsNested true c'
unfolding Matched
run-IsNested_example =
    run-IsNested true (true ∷ true ∷ false ∷ false ∷ []) idle 0 idle-IsNested
      (1, refl, (0, refl, refl))

abbrev entered : Cpu
entered = record { ncli = 1; intena = true; interruptible = false }

abbrev contended : Machine
contended = record {
  lock = record { locked = true; cpu = none };
  cpus = at (λ c. idle) 0 entered;
  places = at (at (λ c. outside) 0 waiting) 0 won;
}

contended_reached : Reach contended
unfolding acquire_enter holding pushcli popcli acquire_swap
contended_reached = later (later (free (λ c. idle)) (enters 0 entered refl refl)) (wins 0 refl refl)

Reach-IsExclusive_example : IsExclusive contended
Reach-IsExclusive_example = Reach-IsExclusive contended_reached
