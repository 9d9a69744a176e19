-- ===== src/Proc.antt =====
-- proc.c: the process table. A slot is its index in `ptable.proc`. A stretch of code under
-- `ptable.lock` is one step; a call that sleeps ends its stretch, and is entered again at its loop.
-- What the code asks of the memory, file and log layers are the `Services` of a world `W`.
pub mod Table
pub mod Calls
pub mod Family
pub mod Slot
pub mod Steps
pub mod Reach
use operating_system.Common.{
  ℕ, zero, suc, ◌+◌, ◌&&◌, ◌||◌, not, Bool, true, false, ltb, ◌==◌, if◌then◌else◌, List, [], ◌∷◌,
  Option, none, some, Result, ok, panic, ◌>>=◌,
}
use operating_system.Common.Int.{ℤ, pos, negsuc}

abbrev pub nproc : ℕ
nproc = 64

pub data ProcState : Type 0 where
  unused embryo sleeping runnable running zombie : ProcState

-- What a process may sleep on: the address of a slot of the table, or any other address.
pub data Chan : Type 0 where
  at_proc : ℕ → Chan
  at : ℕ → Chan

-- where `swtch` will continue: at `forkret`, or where the process gave up the CPU
pub data Context : Type 0 where
  forkret saved : Context

pub record Trapframe : Type 0 where
  pub eax : ℕ
  pub others : ℕ → ℕ

pub record Proc : Type 0 where
  pub sz : ℕ
  pub pgdir : ℕ
  pub kstack : ℕ
  pub state : ProcState
  pub pid : ℕ
  pub parent : Option ℕ
  pub tf : Trapframe
  pub context : Context
  pub chan : Option Chan
  pub killed : Bool
  pub ofile : List (Option ℕ)
  pub cwd : Option ℕ
  pub name : List ℕ

abbrev pub Table : Type 0
Table = ℕ → Proc

abbrev pub put : Table → ℕ → Proc → Table
put t i p j = if j == i then p else t j

abbrev pub is_unused : ProcState → Bool
is_unused unused = true
is_unused _ = false

abbrev pub is_zombie : ProcState → Bool
is_zombie zombie = true
is_zombie _ = false

abbrev pub is_sleeping : ProcState → Bool
is_sleeping sleeping = true
is_sleeping _ = false

abbrev pub is_runnable : ProcState → Bool
is_runnable runnable = true
is_runnable _ = false

abbrev pub is_running : ProcState → Bool
is_running running = true
is_running _ = false

abbrev pub same_chan : Chan → Chan → Bool
same_chan (at_proc a) (at_proc b) = a == b
same_chan (at a) (at b) = a == b
same_chan _ _ = false

-- `p->chan == chan`
abbrev pub waits_on : Option Chan → Chan → Bool
waits_on none c = false
waits_on (some d) c = same_chan d c

-- `p->parent == q`
abbrev pub is_child : Option ℕ → ℕ → Bool
is_child none q = false
is_child (some r) q = r == q

-- The first slot from `i` on, of the next `n`, that passes the test.
pub find_slot : (Proc → Bool) → Table → (n i : ℕ) → Option ℕ
find_slot test t zero i = none
find_slot test t (suc n) i = elim (test (t i)) [
  | true ↦ some i
  | false ↦ find_slot test t n (i + 1)
]

abbrev pub woken : Chan → Proc → Proc
woken c p = if is_sleeping p.state && waits_on p.chan c then record p { state = runnable } else p

pub wake_loop : Chan → (n i : ℕ) → Table → Table
wake_loop c zero i t = t
wake_loop c (suc n) i t = wake_loop c n (i + 1) (put t i (woken c (t i)))

pub wakeup1 : Chan → Table → Table
wakeup1 c t = wake_loop c nproc 0 t

-- what `kill` does to the process that it finds
abbrev pub hit : Proc → Proc
hit p = record p { killed = true; state = if is_sleeping p.state then runnable else p.state }

abbrev pub kill_at : Table → Option ℕ → ℤ × Table
kill_at t none = (negsuc 0, t)
kill_at t (some i) = (pos 0, put t i (hit (t i)))

-- Gives 0 and the table with the process killed, or -1.
pub kill : ℕ → Table → ℤ × Table
kill pid t = kill_at t (find_slot (λ p. p.pid == pid) t nproc 0)

-- `yield` up to its switch to the scheduler
pub yield : ℕ → Table → Table
yield cur t = put t cur (record (t cur) { state = runnable })

-- `sleep` up to its switch to the scheduler
pub sleep : Chan → ℕ → Table → Table
sleep c cur t = put t cur (record (t cur) { chan = some c; state = sleeping })

-- `sleep` behind its switch: `p->chan = 0`
pub resume : ℕ → Table → Table
resume cur t = put t cur (record (t cur) { chan = none })

-- `sched` goes on to the scheduler only from a state that the caller has changed.
pub sched : (holding : Bool) (ncli : ℕ) (interruptible : Bool) → Proc → Result (Unit {0})
sched holding ncli interruptible p =
    if not holding
    then panic "sched ptable.lock"
    else if not (ncli == 1)
    then panic "sched locks"
    else if is_running p.state
    then panic "sched running"
    else if interruptible
    then panic "sched interruptible"
    else ok tt

abbrev pub run_at : Table → Option ℕ → Option (ℕ × Table)
run_at t none = none
run_at t (some j) = some (j, put t j (record (t j) { state = running }))

-- One choice of the scheduler: the first runnable slot from `i` on runs.
pub schedule : (n i : ℕ) → Table → Option (ℕ × Table)
schedule n i t = run_at t (find_slot (λ p. is_runnable p.state) t n i)

-- one round of the loop below
pub adopt : (cur init i : ℕ) → Table → Table
adopt cur init i t =
    if is_child (t i).parent cur
    then (if is_zombie (t i).state
        then wakeup1 (at_proc init) (put t i (record (t i) { parent = some init }))
        else put t i (record (t i) { parent = some init }))
    else t

-- The loop of `exit` that hands the children of `cur` to init.
pub reparent : (cur init : ℕ) → (n i : ℕ) → Table → Table
reparent cur init zero i t = t
reparent cur init (suc n) i t = reparent cur init n (i + 1) (adopt cur init i t)

-- `wakeup1(curproc->parent)`: no process sleeps on the null address.
pub wake_parent : Option ℕ → Table → Table
wake_parent none t = t
wake_parent (some q) t = wakeup1 (at_proc q) t

abbrev pub become_zombie : ℕ → Table → Table
become_zombie cur t = put t cur (record (t cur) { state = zombie })

-- `exit` from where it takes `ptable.lock` to its switch to the scheduler.
pub exit_locked : (cur init : ℕ) → Table → Table
exit_locked cur init t =
    become_zombie cur (reparent cur init nproc 0 (wake_parent (t cur).parent t))
