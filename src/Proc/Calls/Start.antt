-- ===== src/Proc/Calls/Start.antt =====
-- userinit makes the first process of an empty table.
use operating_system.Common.{
  ℕ, zero, suc, ◌<◌, ◌≡◌, arith, sym, subst, ap, ◌∙◌, ◌==◌, true, false, Option, none, some, inl,
  inr, Bool-cases, ok, bind-ok,
}
use operating_system.Proc.{nproc, Proc, Table, is_unused, is_zombie}
use operating_system.Proc.Family.{IsFamily}
use operating_system.Proc.Slot.{OnlySlot}
use operating_system.Proc.Steps.{put-OnlySlot}
use operating_system.Proc.Calls.{Services, System, first_of, init_mapped, init_from, userinit}
use operating_system.Proc.Calls.Kept.{
  Holds, Alloc, full, no_stack, fresh, allocproc-Alloc, exit_state,
}

-- the table as the kernel image holds it: zeros
pub record IsEmpty (t : Table) : Type 0 where
  pub free : (j : ℕ) → is_unused (t j).state ≡ true
  pub no_parent : (j : ℕ) → (t j).parent ≡ none

first-IsFamily :
    {t t' : Table} (p : ℕ)
    → IsEmpty t
    → p < nproc
    → OnlySlot p t t'
    → is_unused (t' p).state ≡ false
    → is_zombie (t' p).state ≡ false
    → (t' p).parent ≡ none
    → IsFamily p t'
first-IsFamily {t} {t'} p empty lt only u z orphan = record {
  init_lt = lt;
  init_used = u;
  init_live = z;
  init_orphan = orphan;
  not_self = λ i q h v e. absurd (no_parents i q e);
  parent_lt = λ i q h v e. absurd (no_parents i q e);
  parent_used = λ i q h v e. absurd (no_parents i q e);
  parent_live = λ i q h v e. absurd (no_parents i q e);
  noticed = λ i q h v e. absurd (no_parents i q e);
}
  where
    no_parents : (i q : ℕ) → (t' i).parent ≡ some q → ⊥
    no_parents i q e = elim (Bool-cases (i == p)) [
      | inl same ↦
          let ip : i ≡ p = ground arith in
          let e' = sym orphan ∙ subst (λ x. (t' x).parent ≡ some q) ip e in cc
      | inr other ↦
          let e' = sym (ap (λ x. x.parent) (only i (ground arith)) ∙ empty.no_parent i) ∙ e in cc
    ]

module _ {W : Type 0} (sv : Services W) where
  init_mapped-Holds :
      {t : Table} (p : ℕ) (s s' : System W) (x : ℕ × W)
      → IsEmpty t
      → p < nproc
      → OnlySlot p t s.table
      → (s.table p).parent ≡ none
      → init_mapped sv p (record s { initproc = p }) x ≡ ok s'
      → Holds sv s'
  init_mapped-Holds p s s' (zero, w) empty lt only orphan e = cc
  init_mapped-Holds p s s' (suc pgdir, w) empty lt only orphan e =
      let (w', _, e1) = bind-ok (sv.inituvm (suc pgdir) w) _ e in
      let (root, _, e2) = bind-ok (sv.root_dir w') _ e1 in
      subst (Holds sv) (exit_state sv e2) (
        first-IsFamily p empty lt
          (λ j ne.
            put-OnlySlot s.table p (first_of sv (suc pgdir) root.0 (s.table p)) j ne ∙ only j ne)
          (ground arith) (ground arith) (ground (arith, orphan)))

  init_from-Holds :
      {s : System W} {x : Option ℕ × System W} (s' : System W)
      → Alloc sv s x
      → IsEmpty s.table
      → init_from sv x ≡ ok s'
      → Holds sv s'
  init_from-Holds s' full empty e = cc
  init_from-Holds s' (no_stack i s1 lt free only gone same) empty e = cc
  init_from-Holds {s} s' (fresh p stack s1 lt free only same slot) empty e =
      init_mapped-Holds p s1 s' (sv.setupkvm s1.world) empty lt only
        (ap (λ (x : Proc). x.parent) slot ∙ empty.no_parent p) e

  -- From an empty table, a userinit that succeeds leaves init as the one process.
  pub userinit-Holds : (s s' : System W) → IsEmpty s.table → userinit sv s ≡ ok s' → Holds sv s'
  unfolding userinit
  userinit-Holds s s' empty e = init_from-Holds s' (allocproc-Alloc sv s) empty e
