-- ===== src/Proc/Calls/Examples.antt =====
-- A small system: it boots, init runs and forks.
use operating_system.Common.{
  ℕ, suc, ◌+◌, ◌≡◌, refl, arith, true, false, [], ◌∷◌, Option, none, some, Result, ok, panic,
}
use operating_system.Common.Int.{ℤ, pos}
use operating_system.Proc.{unused, sleeping, at, forkret, Proc, Table, find_slot, kill, schedule}
use operating_system.Proc.Family.{IsFamily}
use operating_system.Proc.Reach.{Reach, booted, later, scheduled, forked, Reach-IsFamily}
use operating_system.Proc.Calls.{Services, System, allocproc, fork, userinit, dup_files}
use operating_system.Proc.Calls.Start.{IsEmpty}
use operating_system.Proc.Calls.Results.{born_killed}

-- a world that counts the pages it has given
abbrev counting : Services ℕ
counting = record {
  kalloc = λ w. (suc w, suc w);
  kfree = λ p w. ok w;
  copyuvm = λ d n w. ok (suc w, suc w);
  freevm = λ d w. ok w;
  filedup = λ f w. ok w;
  fileclose = λ f w. ok w;
  idup = λ f w. w;
  release_cwd = λ f w. ok w;
  setupkvm = λ w. (suc w, suc w);
  inituvm = λ d w. ok w;
  root_dir = λ w. ok (1, w);
}

abbrev blank : Proc
blank = record {
  sz = 0;
  pgdir = 0;
  kstack = 0;
  state = unused;
  pid = 0;
  parent = none;
  tf = record { eax = 0; others = λ a. 0 };
  context = forkret;
  chan = none;
  killed = false;
  ofile = none ∷ none ∷ [];
  cwd = none;
  name = 0 ∷ [];
}

abbrev image : System ℕ
image = record { table = λ j. blank; nextpid = 1; initproc = 0; world = 0 }

abbrev state_of : Result (System ℕ) → System ℕ
state_of (ok s) = s
state_of (panic e) = image

abbrev after : Result (ℤ × System ℕ) → System ℕ
after (ok (r, s)) = s
after (panic e) = image

abbrev table_of : Option (ℕ × Table) → Table
table_of (some (j, t)) = t
table_of none = image.table

abbrev boot_state : System ℕ
boot_state = state_of (userinit counting image)

abbrev init_runs : System ℕ
init_runs = record boot_state { table = table_of (schedule 64 0 boot_state.table) }

abbrev has_child : System ℕ
has_child = after (fork counting 0 init_runs)

image-IsEmpty : IsEmpty image.table
image-IsEmpty = record { free = λ j. refl; no_parent = λ j. refl }

reached : Reach counting has_child
unfolding userinit allocproc find_slot schedule fork dup_files
reached =
    later
      (later (booted image boot_state image-IsEmpty refl)
        (scheduled 64 0 0 init_runs.table refl refl))
      (forked 0 (pos 2) (omega arith, refl) refl)

child_pid : (has_child.table 1).pid ≡ 2
unfolding userinit allocproc find_slot schedule fork dup_files
child_pid = refl

Reach-IsFamily_example : IsFamily has_child.initproc has_child.table
Reach-IsFamily_example = Reach-IsFamily counting reached

abbrev sleepers : Table
sleepers j = record blank { state = sleeping; pid = j + 1; chan = some (at 100) }

abbrev after_kill : System ℕ
after_kill = record image { table = (kill 0 image.table).1 }

alloc_after_kill : allocproc counting after_kill ≡ (some 0, (allocproc counting after_kill).1)
unfolding allocproc find_slot kill
alloc_after_kill = refl

born_killed_example :
    ((kill 0 image.table).0 ≡ pos 0) × (((allocproc counting after_kill).1.table 0).killed ≡ true)
born_killed_example =
    born_killed counting image (allocproc counting after_kill).1 0 (λ j lt. refl) alloc_after_kill
