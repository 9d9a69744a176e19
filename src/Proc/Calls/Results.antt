-- ===== src/Proc/Calls/Results.antt =====
-- What wait and kill return, and what a kill of no process does.
use operating_system.Common.{
  ℕ, zero, suc, ◌+◌, ◌≤◌, ◌<◌, ◌≡◌, ◌≢◌, ◌⊎◌, refl, arith, sym, subst, ap, ◌∙◌, ◌==◌, ltb, true,
  false, Option, none, some, inl, inr, Bool-cases, Result, ok,
}
use operating_system.Common.Int.{pos, negsuc}
use operating_system.Proc.{
  nproc, at_proc, Proc, Table, put, is_unused, is_zombie, find_slot, kill, kill_at, hit, sleep,
}
use operating_system.Proc.Table.{find_slot-some, find_slot-none}
use operating_system.Proc.Calls.{
  Services, System, allocproc, alloc_at, alloc_stack, WaitEnd, found, failed, asleep, reaped, taken,
  with_stack,
}

-- a zombie child of `cur` in slot `i`
abbrev pub DeadChild : ℕ → Table → ℕ → Type 0
DeadChild cur t i = (i < nproc) × (is_zombie (t i).state ≡ true) × ((t i).parent ≡ some cur)

-- the ways in which a round of wait ends
pub data WaitSpec {W : Type 0} (cur : ℕ) (s : System W) : WaitEnd × System W → Type 0 where
  reaps :
      (i : ℕ) (w : W)
      → DeadChild cur s.table i
      → WaitSpec cur s (
        found (s.table i).pid,
        record s { table = put s.table i (reaped (s.table i)); world = w },
      )
  fails :
      ((i : ℕ) → DeadChild cur s.table i → ⊥)
      → (((i : ℕ) → i < nproc → (s.table i).parent ≢ some cur) ⊎ ((s.table cur).killed ≡ true))
      → WaitSpec cur s (failed, s)
  sleeps :
      (i : ℕ)
      → i < nproc
      → (s.table i).parent ≡ some cur
      → ((j : ℕ) → DeadChild cur s.table j → ⊥)
      → (s.table cur).killed ≡ false
      → WaitSpec cur s (asleep, record s { table = sleep (at_proc cur) cur s.table })

-- kill hits the first slot with the pid, if there is one, and no other.
kill_lem :
    (pid : ℕ) (t : Table)
    → ((i : ℕ) × (i < nproc)
        × ((t i).pid ≡ pid)
        × ((j : ℕ) → j < i → (t j).pid ≢ pid)
        × (kill pid t ≡ (pos 0, put t i (hit (t i)))))
      ⊎ (((i : ℕ) → i < nproc → (t i).pid ≢ pid) × (kill pid t ≡ (negsuc 0, t)))
unfolding kill
kill_lem pid t = go (find_slot (λ p. p.pid == pid) t nproc 0) refl
  where
    go :
        (o : Option ℕ)
        → find_slot (λ p. p.pid == pid) t nproc 0 ≡ o
        → ((i : ℕ) × (i < nproc)
            × ((t i).pid ≡ pid)
            × ((j : ℕ) → j < i → (t j).pid ≢ pid)
            × (kill_at t o ≡ (pos 0, put t i (hit (t i)))))
          ⊎ (((i : ℕ) → i < nproc → (t i).pid ≢ pid) × (kill_at t o ≡ (negsuc 0, t)))
    go none e = inr (
      (λ i lt same.
          ground
            (arith, find_slot-none (λ p. p.pid == pid) t nproc 0 i e (omega arith) (omega arith))),
      refl,
    )
    go (some i) e =
        let (lo, hi, here, first) = find_slot-some (λ p. p.pid == pid) t nproc 0 i e in
        inl (
          i,
          omega arith,
          ground arith,
          (λ j lt same. ground (arith, first j (omega arith) lt)),
          refl,
        )

-- The services that wait calls do not panic.
pub record CanFree {W : Type 0} (sv : Services W) : Type 0 where
  pub kfrees : (page : ℕ) (w : W) → (w' : W) × (sv.kfree page w ≡ ok w')
  pub freevms : (pgdir : ℕ) (w : W) → (w' : W) × (sv.freevm pgdir w ≡ ok w')

module _ {W : Type 0} (sv : Services W) where
  abbrev Ends : ℕ → System W → Result (WaitEnd × System W) → Type 0
  Ends cur s r = (x : WaitEnd × System W) × (r ≡ ok x) × WaitSpec cur s x

  alloc_stack_slot :
      (k i : ℕ) (s s' : System W) (x : ℕ × W)
      → alloc_stack sv k s x ≡ (some i, s')
      → (k ≡ i) × ((s'.table i).killed ≡ (s.table i).killed)
  alloc_stack_slot k i s s' (zero, w) e = cc
  alloc_stack_slot k i s s' (suc page, w) e =
      let ki : k ≡ i = cc in
      let state : record s { table = put s.table k (with_stack (suc page) (s.table k)); world = w }
          ≡ s' =
        cc in
      (ki, ap (λ (x : System W). (x.table i).killed) (sym state) ∙ ground arith)

  alloc_at_slot :
      (o : Option ℕ) (i : ℕ) (s s' : System W)
      → alloc_at sv s o ≡ (some i, s')
      → (o ≡ some i) × ((s'.table i).killed ≡ (s.table i).killed)
  alloc_at_slot none i s s' e = cc
  alloc_at_slot (some k) i s s' e =
      let (ki, same) =
        alloc_stack_slot k i
          (record s {
            table = put s.table k (taken s.nextpid (s.table k));
            nextpid = s.nextpid + 1;
          })
          s' (sv.kalloc s.world) e in
      (ap some ki, same ∙ ground arith)

  -- A kill of pid 0, where 0 is the pid of the free slots, succeeds if there is one, and the next
  -- process that is allocated is killed before it has run.
  pub born_killed :
      (s s' : System W) (i : ℕ)
      → ((j : ℕ) → j < nproc → ((s.table j).pid == 0) ≡ is_unused (s.table j).state)
      → allocproc sv (record s { table = (kill 0 s.table).1 }) ≡ (some i, s')
      → ((kill 0 s.table).0 ≡ pos 0) × ((s'.table i).killed ≡ true)
  unfolding allocproc
  born_killed s s' i free e = elim (kill_lem 0 s.table) [
    | inl (k, lt, zero_pid, first, result) ↦
        let slots : (j : ℕ) → t' j ≡ put s.table k (hit (s.table k)) j =
          λ j. ap (λ x. x.1 j) result in
        let ik : i ≡ k = same_slot k lt zero_pid first slots in
        (
          ap (λ x. x.0) result,
          slot.1
              ∙ ap (λ (p : Proc). p.killed) (slots i)
              ∙ subst (λ x. (put s.table k (hit (s.table k)) x).killed ≡ true) (sym ik)
                  (ground arith),
        )
    | inr (no_zero, result) ↦
        let same : t' i ≡ s.table i = ap (λ x. x.1 i) result in
        absurd (
          no_zero i in_table (
            zero_of_unused i in_table
              (ap (λ (p : Proc). is_unused p.state) (sym same) ∙ scanned.2)))
  ]
    where
      t' : Table
      t' = (kill 0 s.table).1

      slot :
          (find_slot (λ p. is_unused p.state) t' nproc 0 ≡ some i)
          × ((s'.table i).killed ≡ (t' i).killed)
      slot =
          alloc_at_slot (find_slot (λ p. is_unused p.state) t' nproc 0) i (record s { table = t' })
            s' e

      scanned :
          (0 ≤ i)
          × (i < 0 + nproc)
          × (is_unused (t' i).state ≡ true)
          × ((j : ℕ) → 0 ≤ j → j < i → is_unused (t' j).state ≡ false)
      scanned = find_slot-some (λ p. is_unused p.state) t' nproc 0 i slot.0

      in_table : i < nproc
      in_table = let lt = scanned.1 in omega arith

      zero_of_unused :
          (j : ℕ) → j < nproc → is_unused (s.table j).state ≡ true → (s.table j).pid ≡ 0
      zero_of_unused j lt u = ground (arith, free j lt)

      still_unused :
          (k : ℕ)
          → is_unused (s.table k).state ≡ true
          → is_unused (put s.table k (hit (s.table k)) k).state ≡ false
          → ⊥
      still_unused k u v = ground arith

      same_slot :
          (k : ℕ)
          → k < nproc
          → (s.table k).pid ≡ 0
          → ((j : ℕ) → j < k → (s.table j).pid ≢ 0)
          → ((j : ℕ) → t' j ≡ put s.table k (hit (s.table k)) j)
          → i ≡ k
      same_slot k lt zero_pid first slots = elim (Bool-cases (ltb i k)) [
        | inl below ↦
            let lower : i < k = ground arith in
            let here : is_unused (put s.table k (hit (s.table k)) i).state ≡ true =
              ap (λ (p : Proc). is_unused p.state) (sym (slots i)) ∙ scanned.2 in
            absurd (first i lower (zero_of_unused i in_table (ground arith)))
        | inr not_below ↦ elim (Bool-cases (ltb k i)) [
          | inl above ↦
              let there : is_unused (put s.table k (hit (s.table k)) k).state ≡ false =
                ap (λ (p : Proc). is_unused p.state) (sym (slots k))
                ∙ scanned.3 k (omega arith) (ground arith) in
              absurd (still_unused k (ground (arith, free k lt)) there)
          | inr not_above ↦ ground arith
        ]
      ]
