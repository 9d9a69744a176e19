-- ===== src/Proc/Reach.antt =====
-- Every state that the running system reaches has a sound process family.
use operating_system.Common.{ℕ, ◌≡◌, sym, subst, some, ok}
use operating_system.Common.Int.{ℤ}
use operating_system.Proc.{Chan, at, Table, wakeup1, kill, yield, sleep, resume, schedule}
use operating_system.Proc.Family.{IsFamily, wakeup1-IsFamily}
use operating_system.Proc.Steps.{
  Runs, schedule-IsFamily, kill-IsFamily, yield-IsFamily, sleep-IsFamily, resume-IsFamily,
}
use operating_system.Proc.Calls.{Services, System, WaitEnd, fork, exit, wait, userinit}
use operating_system.Proc.Calls.Kept.{Holds, fork-Holds, exit-Holds, wait-Holds}
use operating_system.Proc.Calls.Start.{IsEmpty, userinit-Holds}

module _ {W : Type 0} (sv : Services W) where
  -- One critical section: of the scheduler, of an interrupt, or of a process that has a CPU. The
  -- rest of the kernel changes the world as it likes, and sleeps on addresses that are no slots.
  pub data Step (s s' : System W) : Type 0 where
    scheduled :
        (n i j : ℕ) (t : Table)
        → schedule n i s.table ≡ some (j, t)
        → s' ≡ record s { table = t }
        → Step s s'
    yielded : (cur : ℕ) → Runs s.table cur → s' ≡ record s { table = yield cur s.table } → Step s s'
    slept :
        (cur a : ℕ)
        → Runs s.table cur
        → s' ≡ record s { table = sleep (at a) cur s.table }
        → Step s s'
    resumed :
        (cur : ℕ) → Runs s.table cur → s' ≡ record s { table = resume cur s.table } → Step s s'
    woke : (c : Chan) → s' ≡ record s { table = wakeup1 c s.table } → Step s s'
    was_killed : (pid : ℕ) → s' ≡ record s { table = (kill pid s.table).1 } → Step s s'
    forked : (cur : ℕ) (r : ℤ) → Runs s.table cur → fork sv cur s ≡ ok (r, s') → Step s s'
    exited : (cur : ℕ) → Runs s.table cur → exit sv cur s ≡ ok s' → Step s s'
    waited : (cur : ℕ) (r : WaitEnd) → Runs s.table cur → wait sv cur s ≡ ok (r, s') → Step s s'
    other : (w : W) → s' ≡ record s { world = w } → Step s s'

  pub data Reach : System W → Type 0 where
    booted : (s s' : System W) → IsEmpty s.table → userinit sv s ≡ ok s' → Reach s'
    later : {s s' : System W} → Reach s → Step s s' → Reach s'

  by : {s s' : System W} → s' ≡ s → Holds sv s → Holds sv s'
  by e f = subst (Holds sv) (sym e) f

  pub Step-Holds : {s s' : System W} → Step s s' → Holds sv s → Holds sv s'
  Step-Holds (scheduled n i j t run e) f = by e (schedule-IsFamily n i j f run)
  Step-Holds (yielded cur run e) f = by e (yield-IsFamily cur f run)
  Step-Holds (slept cur a run e) f = by e (sleep-IsFamily a cur f run)
  Step-Holds (resumed cur run e) f = by e (resume-IsFamily cur f)
  Step-Holds (woke c e) f = by e (wakeup1-IsFamily c f)
  Step-Holds (was_killed pid e) f = by e (kill-IsFamily pid f)
  Step-Holds {s} {s'} (forked cur r run e) f = fork-Holds sv s s' cur r f run e
  Step-Holds {s} {s'} (exited cur run e) f = exit-Holds sv s s' cur f run e
  Step-Holds {s} {s'} (waited cur r run e) f = wait-Holds sv s s' cur r f run e
  Step-Holds (other w e) f = by e f

  -- In every state that the kernel reaches from its boot, init lives, the parent of every process
  -- in use is a process in use that has not exited, and the parent of a zombie is not asleep in
  -- wait: no exit goes unnoticed.
  pub Reach-IsFamily : {s : System W} → Reach s → IsFamily s.initproc s.table
  Reach-IsFamily (booted s s' empty e) = userinit-Holds sv s s' empty e
  Reach-IsFamily (later r st) = Step-Holds st (Reach-IsFamily r)
