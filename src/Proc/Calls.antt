-- ===== src/Proc/Calls.antt =====
-- fork, exit and wait of proc.c, with what they ask of the other layers.
pub mod Kept
pub mod Start
pub mod Results
mod Examples
use operating_system.Common.{
  ℕ, zero, suc, ◌+◌, ◌&&◌, ◌||◌, not, Bool, true, false, ◌==◌, if◌then◌else◌, List, [], ◌∷◌, Option,
  none, some, Result, ok, panic, ◌>>=◌,
}
use operating_system.Common.Int.{ℤ, pos, negsuc}
use operating_system.Proc.{
  nproc, ProcState, unused, embryo, runnable, zombie, is_unused, is_zombie, is_child, Chan, at_proc,
  forkret, Trapframe, Proc, Table, put, find_slot, exit_locked, sleep,
}

-- "initcode"
abbrev pub initcode_name : List ℕ
initcode_name = 105 ∷ 110 ∷ 105 ∷ 116 ∷ 99 ∷ 111 ∷ 100 ∷ 101 ∷ []

-- The calls of kalloc.c, vm.c, file.c, fs.c and log.c: each changes the world, and may panic.
-- A page or page directory of 0 stands for failure. `release_cwd` is begin_op, iput, end_op.
pub record Services (W : Type 0) : Type 0 where
  pub kalloc : W → ℕ × W
  pub kfree : ℕ → W → Result W
  pub copyuvm : (pgdir sz : ℕ) → W → Result (ℕ × W)
  pub freevm : ℕ → W → Result W
  pub filedup : ℕ → W → Result W
  pub fileclose : ℕ → W → Result W
  pub idup : ℕ → W → W
  pub release_cwd : ℕ → W → Result W
  pub setupkvm : W → ℕ × W
  pub inituvm : ℕ → W → Result W
  pub root_dir : W → Result (ℕ × W)

pub record System (W : Type 0) : Type 0 where
  pub table : Table
  pub nextpid : ℕ
  pub initproc : ℕ
  pub world : W

-- the slot `i` as `allocproc` takes it, and as it is with its kernel stack
abbrev pub taken : ℕ → Proc → Proc
taken pid p = record p { state = embryo; pid = pid }

abbrev pub with_stack : ℕ → Proc → Proc
with_stack stack p = record p { kstack = stack; context = forkret }

-- the child, as `fork` fills it in
abbrev pub child_of : (cur : ℕ) (parent child : Proc) (pgdir : ℕ) (files : List (Option ℕ)) → Proc
child_of cur parent child pgdir files = record child {
  pgdir = pgdir;
  sz = parent.sz;
  parent = some cur;
  tf = record parent.tf { eax = 0 };
  ofile = files;
  cwd = parent.cwd;
  name = parent.name;
  state = runnable;
}

-- the slot that `wait` frees
abbrev pub reaped : Proc → Proc
reaped p = record p {
  kstack = 0;
  pid = 0;
  parent = none;
  name = elim p.name [ [] ↦ [] | c ∷ cs ↦ 0 ∷ cs ];
  killed = false;
  state = unused;
}

pub data WaitEnd : Type 0 where
  found : (pid : ℕ) → WaitEnd
  failed : WaitEnd
  asleep : WaitEnd

module _ {W : Type 0} (sv : Services W) where
  open sv use {
    kalloc, kfree, copyuvm, freevm, filedup, fileclose, idup, release_cwd, setupkvm, inituvm,
    root_dir,
  }

  abbrev pub alloc_stack : ℕ → System W → ℕ × W → Option ℕ × System W
  alloc_stack i s (zero, w) = (
    none,
    record s {
      table = put s.table i (record (s.table i) { kstack = 0; state = unused });
      world = w;
    },
  )
  alloc_stack i s (suc page, w) =
      (some i, record s { table = put s.table i (with_stack (suc page) (s.table i)); world = w })

  abbrev pub alloc_at : System W → Option ℕ → Option ℕ × System W
  alloc_at s none = (none, s)
  alloc_at s (some i) =
      alloc_stack i
        (record s { table = put s.table i (taken s.nextpid (s.table i)); nextpid = s.nextpid + 1 })
        (kalloc s.world)

  pub allocproc : System W → Option ℕ × System W
  allocproc s = alloc_at s (find_slot (λ p. is_unused p.state) s.table nproc 0)

  -- `np->ofile[i] = filedup(curproc->ofile[i])` where the parent has a file
  pub dup_files : List (Option ℕ) → List (Option ℕ) → W → Result (List (Option ℕ) × W)
  dup_files (some f ∷ fs) (g ∷ gs) w =
      filedup f w >>= λ w'. dup_files fs gs w' >>= λ r. ok (some f ∷ r.0, r.1)
  dup_files (none ∷ fs) (g ∷ gs) w = dup_files fs gs w >>= λ r. ok (g ∷ r.0, r.1)
  dup_files _ gs w = ok (gs, w)

  abbrev pub idup_cwd : Option ℕ → W → W
  idup_cwd none w = w
  idup_cwd (some ip) w = idup ip w

  abbrev pub fork_failed : ℕ → System W → Result (ℤ × System W)
  fork_failed np s = kfree (s.table np).kstack s.world >>= λ w. ok (
    negsuc 0,
    record s {
      table = put s.table np (record (s.table np) { kstack = 0; state = unused });
      world = w;
    },
  )

  -- the part of `fork` behind `copyuvm`
  abbrev pub fork_filled : (cur np : ℕ) → System W → ℕ → W → Result (ℤ × System W)
  fork_filled cur np s pgdir w = dup_files (s.table cur).ofile (s.table np).ofile w >>= λ r. ok (
    pos (s.table np).pid,
    record s {
      table = put s.table np (child_of cur (s.table cur) (s.table np) pgdir r.0);
      world = idup_cwd (s.table cur).cwd r.1;
    },
  )

  abbrev pub fork_copied : (cur np : ℕ) → System W → ℕ × W → Result (ℤ × System W)
  fork_copied cur np s (zero, w) = fork_failed np (record s { world = w })
  fork_copied cur np s (suc pgdir, w) = fork_filled cur np s (suc pgdir) w

  abbrev pub fork_from : (cur : ℕ) → Option ℕ × System W → Result (ℤ × System W)
  fork_from cur (none, s) = ok (negsuc 0, s)
  fork_from cur (some np, s) =
      copyuvm (s.table cur).pgdir (s.table cur).sz s.world >>= fork_copied cur np s

  pub fork : ℕ → System W → Result (ℤ × System W)
  fork cur s = fork_from cur (allocproc s)

  pub close_files : List (Option ℕ) → W → Result (List (Option ℕ) × W)
  close_files [] w = ok ([], w)
  close_files (none ∷ fs) w = close_files fs w >>= λ r. ok (none ∷ r.0, r.1)
  close_files (some f ∷ fs) w =
      fileclose f w >>= λ w'. close_files fs w' >>= λ r. ok (none ∷ r.0, r.1)

  abbrev pub drop_cwd : Option ℕ → W → Result W
  drop_cwd none w = ok w
  drop_cwd (some ip) w = release_cwd ip w

  -- `exit` up to its switch to the scheduler, from which it does not come back.
  pub exit : ℕ → System W → Result (System W)
  exit cur s =
      if cur == s.initproc
      then panic "init exiting"
      else (close_files (s.table cur).ofile s.world >>= λ r. drop_cwd (s.table cur).cwd r.1 >>= λ w.
          ok (record s {
            table =
                exit_locked cur s.initproc
                  (put s.table cur (record (s.table cur) { ofile = r.0; cwd = none }));
            world = w;
          }))

  abbrev pub reap : ℕ → System W → Result (WaitEnd × System W)
  reap i s = kfree (s.table i).kstack s.world >>= λ w. freevm (s.table i).pgdir w >>= λ w'.
      ok
        (found (s.table i).pid, record s { table = put s.table i (reaped (s.table i)); world = w' })

  -- what `wait` does when it has found no zombie; the second argument says if there is a child
  abbrev pub wait_more : ℕ → Option ℕ → System W → Result (WaitEnd × System W)
  wait_more cur none s = ok (failed, s)
  wait_more cur (some _) s =
      if (s.table cur).killed
      then ok (failed, s)
      else ok (asleep, record s { table = sleep (at_proc cur) cur s.table })

  abbrev pub wait_for : ℕ → Option ℕ → System W → Result (WaitEnd × System W)
  wait_for cur (some i) s = reap i s
  wait_for cur none s = wait_more cur (find_slot (λ p. is_child p.parent cur) s.table nproc 0) s

  -- One round of the loop of `wait`: it reaps a child, fails, or goes to sleep on its own address.
  pub wait : ℕ → System W → Result (WaitEnd × System W)
  wait cur s =
      wait_for cur (find_slot (λ p. is_child p.parent cur && is_zombie p.state) s.table nproc 0) s

  -- the first process, as `userinit` fills it in
  abbrev pub first_of : (pgdir cwd : ℕ) → Proc → Proc
  first_of pgdir cwd p = record p {
    pgdir = pgdir;
    sz = 4096;
    cwd = some cwd;
    name = initcode_name;
    state = runnable;
  }

  abbrev pub init_mapped : ℕ → System W → ℕ × W → Result (System W)
  init_mapped p s (zero, w) = panic "userinit: out of memory?"
  init_mapped p s (suc pgdir, w) = inituvm (suc pgdir) w >>= λ w'. root_dir w' >>= λ r.
      ok (record s { table = put s.table p (first_of (suc pgdir) r.0 (s.table p)); world = r.1 })

  -- The result of allocproc is used unchecked: a null pointer is a fault.
  abbrev pub init_from : Option ℕ × System W → Result (System W)
  init_from (none, s) = panic "null pointer"
  init_from (some p, s) = init_mapped p (record s { initproc = p }) (setupkvm s.world)

  pub userinit : System W → Result (System W)
  userinit s = init_from (allocproc s)
