-- ===== src/Proc/Steps.antt =====
-- The steps of a running system keep the family.
use operating_system.Common.{
  ℕ, ◌<◌, ◌≡◌, refl, arith, sym, subst, ap, ◌∙◌, ◌&&◌, true, false, ◌==◌, Option, none, some,
}
use operating_system.Proc.{
  nproc, ProcState, sleeping, runnable, running, at_proc, at, Proc, Table, put, is_unused,
  is_zombie, is_sleeping, is_runnable, waits_on, find_slot, kill, kill_at, run_at, hit, yield,
  sleep, resume, schedule,
}
use operating_system.Proc.Table.{waits, find_slot-some}
use operating_system.Proc.Family.{IsFamily}
use operating_system.Proc.Slot.{OnlySlot, move-IsFamily}

-- the process in a slot of the table has a CPU
abbrev pub Runs : Table → ℕ → Type 0
Runs t cur = (cur < nproc) × ((t cur).state ≡ running)

pub put-OnlySlot : (t : Table) (k : ℕ) (p : Proc) → OnlySlot k t (put t k p)
put-OnlySlot t k p j ne = ground arith

pub put_self : (t : Table) (k : ℕ) (p : Proc) → put t k p k ≡ p
put_self t k p = ground arith

-- A process that runs, and goes on in another state with the same parent.
module _ {init : ℕ} {t : Table} (k : ℕ) (f : IsFamily init t) (p : Proc) where
  pub stir-IsFamily :
      is_unused p.state ≡ is_unused (t k).state
      → is_zombie p.state ≡ is_zombie (t k).state
      → p.parent ≡ (t k).parent
      → (is_sleeping p.state && waits_on p.chan (at_proc k)) ≡ false
      → IsFamily init (put t k p)
  stir-IsFamily u z e w =
      move-IsFamily k f (put-OnlySlot t k p) (ap (λ x. is_unused x.state) (put_self t k p) ∙ u)
        (ap (λ x. is_zombie x.state) (put_self t k p) ∙ z) (ap (λ x. x.parent) (put_self t k p) ∙ e)
        (λ asleep. absurd (awake asleep))
    where
      awake : waits (put t k p) k ≡ true → ⊥
      awake h = ground arith

runnable_used :
    (s : ProcState) → is_runnable s ≡ true → (is_unused s ≡ false) × (is_zombie s ≡ false)
runnable_used s e = ground arith

run_at-IsFamily :
    {init : ℕ} {t t' : Table} (o : Option ℕ) (j : ℕ)
    → IsFamily init t
    → ((i : ℕ) → o ≡ some i → is_runnable (t i).state ≡ true)
    → run_at t o ≡ some (j, t')
    → IsFamily init t'
run_at-IsFamily none j f ready e = cc
run_at-IsFamily {init} {t} (some i) j f ready e =
    let (u, z) = runnable_used (t i).state (ready i refl) in
    subst (λ x. IsFamily init x) (cc)
      (stir-IsFamily i f (record (t i) { state = running }) (sym u) (sym z) refl refl)

pub schedule-IsFamily :
    {init : ℕ} {t t' : Table} (n i j : ℕ)
    → IsFamily init t
    → schedule n i t ≡ some (j, t')
    → IsFamily init t'
unfolding schedule
schedule-IsFamily {t = t} n i j f e =
    run_at-IsFamily (find_slot (λ p. is_runnable p.state) t n i) j f
      (λ k found. (find_slot-some (λ p. is_runnable p.state) t n i k found).2) e

kill_at-IsFamily :
    {init : ℕ} {t : Table} (o : Option ℕ) → IsFamily init t → IsFamily init (kill_at t o).1
kill_at-IsFamily none f = f
kill_at-IsFamily {t = t} (some i) f =
    stir-IsFamily i f (hit (t i)) (ground arith) (ground arith) refl (ground arith)

pub kill-IsFamily :
    {init : ℕ} {t : Table} (pid : ℕ) → IsFamily init t → IsFamily init (kill pid t).1
unfolding kill
kill-IsFamily {t = t} pid f = kill_at-IsFamily (find_slot (λ p. p.pid == pid) t nproc 0) f

pub yield-IsFamily :
    {init : ℕ} {t : Table} (cur : ℕ) → IsFamily init t → Runs t cur → IsFamily init (yield cur t)
unfolding yield
yield-IsFamily {t = t} cur f r =
    stir-IsFamily cur f (record (t cur) { state = runnable }) (ground arith) (ground arith) refl
      refl

pub sleep-IsFamily :
    {init : ℕ} {t : Table} (a cur : ℕ)
    → IsFamily init t
    → Runs t cur
    → IsFamily init (sleep (at a) cur t)
unfolding sleep
sleep-IsFamily {t = t} a cur f r =
    stir-IsFamily cur f (record (t cur) { chan = some (at a); state = sleeping }) (ground arith)
      (ground arith) refl refl

pub resume-IsFamily :
    {init : ℕ} {t : Table} (cur : ℕ) → IsFamily init t → IsFamily init (resume cur t)
unfolding resume
resume-IsFamily {t = t} cur f =
    stir-IsFamily cur f (record (t cur) { chan = none }) refl refl refl (ground arith)
