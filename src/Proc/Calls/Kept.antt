-- ===== src/Proc/Calls/Kept.antt =====
-- fork, exit and wait keep the family.
use operating_system.Common.{
  ℕ, zero, suc, ◌+◌, ◌<◌, ◌≡◌, refl, arith, sym, subst, ◌∙◌, ◌&&◌, Bool, true, false, ◌==◌, Option,
  none, some, inl, inr, Bool-cases, Result, ok, bind-ok,
}
use operating_system.Common.Int.{ℤ}
use operating_system.Proc.{
  nproc, unused, at_proc, Proc, Table, put, is_unused, is_zombie, is_child, find_slot, sleep,
}
use operating_system.Proc.Table.{find_slot-some, find_slot-none}
use operating_system.Proc.Family.{IsFamily, exit_locked-IsFamily}
use operating_system.Proc.Slot.{
  OnlySlot, Childless-unused, Childless-zombie, move-IsFamily, birth-IsFamily, clear-IsFamily,
}
use operating_system.Proc.Steps.{Runs, stir-IsFamily, put-OnlySlot}
use operating_system.Proc.Calls.{
  Services, System, allocproc, alloc_at, alloc_stack, taken, with_stack, fork, fork_from,
  fork_copied, fork_filled, fork_failed, child_of, exit, wait, wait_for, wait_more, WaitEnd, reaped,
  reap, dup_files, close_files, drop_cwd,
}

module _ {W : Type 0} (sv : Services W) where
  abbrev pub Holds : System W → Type 0
  Holds s = IsFamily s.initproc s.table

  pub ok_state :
      {A : Type 0} {r r' : A} {s s' : System W}
      → ◌≡◌ {A = Result (A × System W)} (ok (r, s)) (ok (r', s'))
      → s ≡ s'
  ok_state e = cc

  -- What allocproc gives: no slot, or one that was free and is now the caller's.
  pub data Alloc (s : System W) : Option ℕ × System W → Type 0 where
    full : Alloc s (none, s)
    no_stack :
        (i : ℕ) (s' : System W)
        → i < nproc
        → is_unused (s.table i).state ≡ true
        → OnlySlot i s.table s'.table
        → is_unused (s'.table i).state ≡ true
        → s'.initproc ≡ s.initproc
        → Alloc s (none, s')
    fresh :
        (i stack : ℕ) (s' : System W)
        → i < nproc
        → is_unused (s.table i).state ≡ true
        → OnlySlot i s.table s'.table
        → s'.initproc ≡ s.initproc
        → s'.table i ≡ with_stack stack (taken s.nextpid (s.table i))
        → Alloc s (some i, s')

  alloc_stack-Alloc :
      (s : System W) (i : ℕ) (kw : ℕ × W)
      → i < nproc
      → is_unused (s.table i).state ≡ true
      → Alloc s (
          alloc_stack sv i
            (record s {
              table = put s.table i (taken s.nextpid (s.table i));
              nextpid = s.nextpid + 1;
            })
            kw)
  alloc_stack-Alloc s i (zero, w) lt free =
      no_stack i _ lt free (λ j ne. ground arith) (ground arith) refl
  alloc_stack-Alloc s i (suc page, w) lt free =
      fresh i (suc page) _ lt free (λ j ne. ground arith) refl (ground arith)

  alloc_at-Alloc :
      (s : System W) (o : Option ℕ)
      → ((i : ℕ) → o ≡ some i → (i < nproc) × (is_unused (s.table i).state ≡ true))
      → Alloc s (alloc_at sv s o)
  alloc_at-Alloc s none ok_i = full
  alloc_at-Alloc s (some i) ok_i =
      alloc_stack-Alloc s i (sv.kalloc s.world) (ok_i i refl).0 (ok_i i refl).1

  pub allocproc-Alloc : (s : System W) → Alloc s (allocproc sv s)
  unfolding allocproc
  allocproc-Alloc s = alloc_at-Alloc s (find_slot (λ p. is_unused p.state) s.table nproc 0) scan
    where
      scan :
          (i : ℕ)
          → find_slot (λ p. is_unused p.state) s.table nproc 0 ≡ some i
          → (i < nproc) × (is_unused (s.table i).state ≡ true)
      scan i e =
          let (lo, hi, free, _) = find_slot-some (λ p. is_unused p.state) s.table nproc 0 i e in
          (omega arith, free)

  -- a slot that was free and is free again
  idle-IsFamily :
      {init : ℕ} {t t' : Table} (k : ℕ)
      → IsFamily init t
      → is_unused (t k).state ≡ true
      → OnlySlot k t t'
      → is_unused (t' k).state ≡ true
      → IsFamily init t'
  idle-IsFamily {init} {t} {t'} k f free only empty =
      clear-IsFamily k f only used_ne (Childless-unused k f free) empty (ground arith)
    where
      used_ne : init ≡ k → ⊥
      used_ne e = let h = subst (λ x. is_unused (t x).state ≡ false) e f.init_used in ground arith

  put-over : (k : ℕ) (t t1 : Table) (p : Proc) → OnlySlot k t t1 → OnlySlot k t (put t1 k p)
  put-over k t t1 p only j ne = put-OnlySlot t1 k p j ne ∙ only j ne

  module _ (s : System W) (cur np : ℕ) (s1 s' : System W) (r : ℤ) (f : Holds s)
      (run : Runs s.table cur) (free : is_unused (s.table np).state ≡ true)
      (only : OnlySlot np s.table s1.table) (same : s1.initproc ≡ s.initproc) where
    fork_failed-Holds :
        (w0 : W) → fork_failed sv np (record s1 { world = w0 }) ≡ ok (r, s') → Holds s'
    fork_failed-Holds w0 e =
        let (w, _, e') = bind-ok (sv.kfree (s1.table np).kstack w0) _ e in
        subst Holds (ok_state e') (
          subst
            (λ i.
              IsFamily i (put s1.table np (record (s1.table np) { kstack = 0; state = unused })))
            (sym same)
            (idle-IsFamily np f free (put-over np s.table s1.table _ only) (ground arith)))

    fork_filled-Holds :
        (pgdir : ℕ) (w0 : W) → fork_filled sv cur np s1 pgdir w0 ≡ ok (r, s') → Holds s'
    fork_filled-Holds pgdir w0 e =
        let (files, _, e') =
          bind-ok (dup_files sv (s1.table cur).ofile (s1.table np).ofile w0) _ e in
        subst Holds (ok_state e') (
          subst
            (λ i.
              IsFamily i
                (put s1.table np (child_of cur (s1.table cur) (s1.table np) pgdir files.0)))
            (sym same)
            (birth-IsFamily np f (put-over np s.table s1.table _ only) cur free (ground arith)
              (ground arith) run.0 (ground (arith, run.1)) (ground (arith, run.1))))

    fork_copied-Holds : (x : ℕ × W) → fork_copied sv cur np s1 x ≡ ok (r, s') → Holds s'
    fork_copied-Holds (zero, w) e = fork_failed-Holds w e
    fork_copied-Holds (suc pgdir, w) e = fork_filled-Holds (suc pgdir) w e

  fork_from-Holds :
      {s : System W} {x : Option ℕ × System W} (cur : ℕ) (s' : System W) (r : ℤ)
      → Alloc s x
      → Holds s
      → Runs s.table cur
      → fork_from sv cur x ≡ ok (r, s')
      → Holds s'
  fork_from-Holds cur s' r full f run e = subst Holds (ok_state e) f
  fork_from-Holds cur s' r (no_stack i s1 lt free only empty same) f run e =
      subst Holds (ok_state e)
        (subst (λ x. IsFamily x s1.table) (sym same) (idle-IsFamily i f free only empty))
  fork_from-Holds {s} cur s' r (fresh np stack s1 lt free only same slot) f run e =
      let (x, _, e1) = bind-ok (sv.copyuvm (s1.table cur).pgdir (s1.table cur).sz s1.world) _ e in
      fork_copied-Holds s cur np s1 s' r f run free only same x e1

  -- fork keeps the family, whether it succeeds or fails.
  pub fork-Holds :
      (s s' : System W) (cur : ℕ) (r : ℤ)
      → Holds s
      → Runs s.table cur
      → fork sv cur s ≡ ok (r, s')
      → Holds s'
  unfolding fork
  fork-Holds s s' cur r f run e = fork_from-Holds cur s' r (allocproc-Alloc s) f run e

  pub exit_state : {s s' : System W} → ok s ≡ ok s' → s ≡ s'
  exit_state e = cc

  -- exit keeps the family, and it is not init that exits.
  pub exit-Holds :
      (s s' : System W) (cur : ℕ) → Holds s → Runs s.table cur → exit sv cur s ≡ ok s' → Holds s'
  unfolding exit
  exit-Holds s s' cur f run e = elim (Bool-cases (cur == s.initproc)) [
    | inl first ↦ let e1 = rw first at e in cc
    | inr other ↦
        let e1 = rw other at e in
        let (files, _, e2) = bind-ok (close_files sv (s.table cur).ofile s.world) _ e1 in
        let (w, _, e3) = bind-ok (drop_cwd sv (s.table cur).cwd files.1) _ e2 in
        let closed : Proc = record (s.table cur) { ofile = files.0; cwd = none } in
        subst Holds (exit_state e3) (
          exit_locked-IsFamily cur
            (stir-IsFamily cur f closed refl refl refl (ground (arith, run.1))) run.0 (ground arith)
            (ground (arith, run.1)))
  ]

  module _ (s s' : System W) (cur : ℕ) (r : WaitEnd) (f : Holds s) where
    reap-Holds : (i : ℕ) → is_zombie (s.table i).state ≡ true → reap sv i s ≡ ok (r, s') → Holds s'
    reap-Holds i dead e =
        let (w, _, e1) = bind-ok (sv.kfree (s.table i).kstack s.world) _ e in
        let (w', _, e2) = bind-ok (sv.freevm (s.table i).pgdir w) _ e1 in
        subst Holds (ok_state e2) (
          clear-IsFamily i f (put-OnlySlot s.table i (reaped (s.table i))) init_ne
            (Childless-zombie i f dead) (ground arith) (ground arith))
      where
        init_ne : s.initproc ≡ i → ⊥
        init_ne e =
            let h = subst (λ x. is_zombie (s.table x).state ≡ false) e f.init_live in ground arith

    sleep_in_wait :
        ((i : ℕ)
          → i < nproc
          → is_zombie (s.table i).state ≡ true
          → (s.table i).parent ≡ some cur
          → ⊥)
        → Runs s.table cur
        → IsFamily s.initproc (sleep (at_proc cur) cur s.table)
    unfolding sleep
    sleep_in_wait no_dead run =
        move-IsFamily cur f (put-OnlySlot s.table cur _) (ground (arith, run.1))
          (ground (arith, run.1)) (ground arith) (λ _. no_dead)

    wait_more-Holds :
        (o : Option ℕ)
        → Runs s.table cur
        → ((i : ℕ)
            → i < nproc
            → is_zombie (s.table i).state ≡ true
            → (s.table i).parent ≡ some cur
            → ⊥)
        → wait_more sv cur o s ≡ ok (r, s')
        → Holds s'
    wait_more-Holds none run no_dead e = subst Holds (ok_state e) f
    wait_more-Holds (some i) run no_dead e = elim (Bool-cases (s.table cur).killed) [
      | inl hit ↦ let e1 = rw hit at e in subst Holds (ok_state e1) f
      | inr not_hit ↦
          let e1 = rw not_hit at e in subst Holds (ok_state e1) (sleep_in_wait no_dead run)
    ]

  abbrev dead_child : ℕ → Proc → Bool
  dead_child cur p = is_child p.parent cur && is_zombie p.state

  wait_for-Holds :
      (s s' : System W) (cur : ℕ) (r : WaitEnd) (o : Option ℕ)
      → Holds s
      → Runs s.table cur
      → find_slot (dead_child cur) s.table nproc 0 ≡ o
      → wait_for sv cur o s ≡ ok (r, s')
      → Holds s'
  wait_for-Holds s s' cur r (some i) f run scan e =
      reap-Holds s s' cur r f i
        (ground (arith, (find_slot-some (dead_child cur) s.table nproc 0 i scan).2)) e
  wait_for-Holds s s' cur r none f run scan e =
      wait_more-Holds s s' cur r f (find_slot (λ p. is_child p.parent cur) s.table nproc 0) run
        (λ i lt dead p.
          no_dead i dead p
            (find_slot-none (dead_child cur) s.table nproc 0 i scan (omega arith) (omega arith)))
        e
    where
      no_dead :
          (i : ℕ)
          → is_zombie (s.table i).state ≡ true
          → (s.table i).parent ≡ some cur
          → dead_child cur (s.table i) ≡ false
          → ⊥
      no_dead i dead p e = ground arith

  -- wait keeps the family: it goes to sleep only if none of its children is a zombie.
  pub wait-Holds :
      (s s' : System W) (cur : ℕ) (r : WaitEnd)
      → Holds s
      → Runs s.table cur
      → wait sv cur s ≡ ok (r, s')
      → Holds s'
  unfolding wait
  wait-Holds s s' cur r f run e =
      wait_for-Holds s s' cur r (find_slot (dead_child cur) s.table nproc 0) f run refl e
