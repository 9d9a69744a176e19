-- ===== src/Spinlock.antt =====
-- spinlock.c: locks that a CPU spins on with its interrupts off, and the nesting of pushcli.
pub mod Nesting
pub mod Exclusion
mod Examples
use operating_system.Common.{
  ℕ, zero, suc, ◌+◌, ◌&&◌, not, Bool, true, false, ◌==◌, if◌then◌else◌, Option, none, some, Result,
  ok, panic, ◌>>=◌,
}

-- of `struct cpu`, with the interrupt flag of its eflags
pub record Cpu : Type 0 where
  pub ncli : ℕ
  pub intena : Bool
  pub interruptible : Bool

-- `cpu` is the CPU that holds the lock, or none for a null pointer.
pub record SpinLock : Type 0 where
  pub locked : Bool
  pub cpu : Option ℕ

pub pushcli : Cpu → Cpu
pushcli c = record {
  ncli = c.ncli + 1;
  intena = if c.ncli == 0 then c.interruptible else c.intena;
  interruptible = false;
}

-- `--ncli`, below 0 from 0, and what follows
abbrev pub pop_at : ℕ → Cpu → Result Cpu
pop_at zero c = panic "popcli"
pop_at (suc n) c =
    ok (record c { ncli = n; interruptible = if n == 0 && c.intena then true else c.interruptible })

pub popcli : Cpu → Result Cpu
popcli c = if c.interruptible then panic "popcli - interruptible" else pop_at c.ncli c

abbrev pub is_cpu : Option ℕ → ℕ → Bool
is_cpu none me = false
is_cpu (some c) me = c == me

pub holding : ℕ → SpinLock → Cpu → Result (Bool × Cpu)
holding me lk c = popcli (pushcli c) >>= λ c'. ok (lk.locked && is_cpu lk.cpu me, c')

-- `acquire` up to its loop
pub acquire_enter : ℕ → SpinLock → Cpu → Result Cpu
acquire_enter me lk c = holding me lk (pushcli c) >>= λ r. if r.0 then panic "acquire" else ok r.1

-- one `xchg` of the loop: whether the lock was locked, and the lock
pub acquire_swap : SpinLock → Bool × SpinLock
acquire_swap lk = (lk.locked, record lk { locked = true })

-- `lk->cpu = mycpu()`
pub acquire_own : ℕ → SpinLock → SpinLock
acquire_own me lk = record lk { cpu = some me }

-- `release` up to `lk->cpu = 0`
pub release_check : ℕ → SpinLock → Cpu → Result (SpinLock × Cpu)
release_check me lk c =
    holding me lk c >>= λ r. if not r.0 then panic "release" else ok (record lk { cpu = none }, r.1)

-- the store that releases the lock, and `popcli`
pub release_unlock : SpinLock → Cpu → Result (SpinLock × Cpu)
release_unlock lk c = popcli c >>= λ c'. ok (record lk { locked = false }, c')
