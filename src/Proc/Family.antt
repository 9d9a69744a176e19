-- ===== src/Proc/Family.antt =====
-- Parents and children: no process is left with a dead parent, and no exit is missed by `wait`.
use operating_system.Common.{
  ℕ, ◌+◌, ◌<◌, ◌≡◌, ◌≢◌, ◌⊎◌, refl, arith, sym, ap, subst, ◌∙◌, ◌&&◌, ◌||◌, true, false, ltb, leb,
  ◌==◌, if◌then◌else◌, Option, none, some, inl, inr, Bool-cases,
}
use operating_system.Proc.{
  nproc, Chan, at_proc, Table, is_unused, is_zombie, is_child, wakeup1, reparent, wake_parent,
  become_zombie, exit_locked,
}
use operating_system.Proc.Table.{
  Calm, Calm-refl, Calm-trans, waits, waits-Calm, wakeup1-Calm, parent-wakeup1, wakeup1-waits,
  reparent-Calm, parent-reparent, reparent_wakes,
}

-- Init lives; the parent of a process in use is a process in use that has not exited; and the
-- parent of a zombie does not sleep in `wait`.
pub record IsFamily (init : ℕ) (t : Table) : Type 0 where
  pub init_lt : init < nproc
  pub init_used : is_unused (t init).state ≡ false
  pub init_live : is_zombie (t init).state ≡ false
  pub init_orphan : (t init).parent ≡ none
  pub not_self :
      (i q : ℕ) → i < nproc → is_unused (t i).state ≡ false → (t i).parent ≡ some q → q ≢ i
  pub parent_lt :
      (i q : ℕ) → i < nproc → is_unused (t i).state ≡ false → (t i).parent ≡ some q → q < nproc
  pub parent_used :
      (i q : ℕ)
      → i < nproc
      → is_unused (t i).state ≡ false
      → (t i).parent ≡ some q
      → is_unused (t q).state ≡ false
  pub parent_live :
      (i q : ℕ)
      → i < nproc
      → is_unused (t i).state ≡ false
      → (t i).parent ≡ some q
      → is_zombie (t q).state ≡ false
  pub noticed :
      (i q : ℕ)
      → i < nproc
      → is_zombie (t i).state ≡ true
      → (t i).parent ≡ some q
      → waits t q ≡ false

-- a step that only lets processes stop sleeping
pub Calm-IsFamily :
    {init : ℕ} {t t' : Table}
    → IsFamily init t
    → ((j : ℕ) → Calm (t j) (t' j))
    → ((j : ℕ) → (t' j).parent ≡ (t j).parent)
    → IsFamily init t'
Calm-IsFamily {init} {t} {t'} f calm same = record {
  init_lt = f.init_lt;
  init_used = (calm init).unused ∙ f.init_used;
  init_live = (calm init).zombie ∙ f.init_live;
  init_orphan = same init ∙ f.init_orphan;
  not_self = λ i q h u e. f.not_self i q h (sym (calm i).unused ∙ u) (sym (same i) ∙ e);
  parent_lt = λ i q h u e. f.parent_lt i q h (sym (calm i).unused ∙ u) (sym (same i) ∙ e);
  parent_used = λ i q h u e.
      (calm q).unused ∙ f.parent_used i q h (sym (calm i).unused ∙ u) (sym (same i) ∙ e);
  parent_live = λ i q h u e.
      (calm q).zombie ∙ f.parent_live i q h (sym (calm i).unused ∙ u) (sym (same i) ∙ e);
  noticed = λ i q h z e.
      waits-Calm t t' q (calm q) (f.noticed i q h (sym (calm i).zombie ∙ z) (sym (same i) ∙ e));
}

pub wakeup1-IsFamily :
    {init : ℕ} {t : Table} (c : Chan) → IsFamily init t → IsFamily init (wakeup1 c t)
wakeup1-IsFamily {t = t} c f = Calm-IsFamily f (wakeup1-Calm c t) (parent-wakeup1 c t)

wake_parent-Calm : (p : Option ℕ) (t : Table) (j : ℕ) → Calm (t j) (wake_parent p t j)
unfolding wake_parent
wake_parent-Calm none t j = Calm-refl (t j)
wake_parent-Calm (some q) t j = wakeup1-Calm (at_proc q) t j

parent-wake_parent : (p : Option ℕ) (t : Table) (j : ℕ) → (wake_parent p t j).parent ≡ (t j).parent
unfolding wake_parent
parent-wake_parent none t j = refl
parent-wake_parent (some q) t j = parent-wakeup1 (at_proc q) t j

some_of_child : (p : Option ℕ) (q : ℕ) → is_child p q ≡ true → p ≡ some q
some_of_child none q e = cc
some_of_child (some r) q e = ground arith

no_child_of_none : (p : Option ℕ) (q : ℕ) → p ≡ none → is_child p q ≡ true → ⊥
no_child_of_none none q n e = cc
no_child_of_none (some r) q n e = cc

-- The last step of exit, from a table `r` in which the children of `cur` have gone to init.
module _ {init cur : ℕ} {t : Table} (r : Table) (f : IsFamily init t) (lt : cur < nproc)
    (ne : cur ≢ init) (used : is_unused (t cur).state ≡ false) (calm : (j : ℕ) → Calm (t j) (r j))
    (parents : (j : ℕ)
      → (r j).parent
        ≡ (if ltb j nproc && is_child (t j).parent cur then some init else (t j).parent))
    (init_awake : (j : ℕ)
      → j < nproc
      → is_zombie (t j).state ≡ true
      → is_child (t j).parent cur ≡ true
      → waits r init ≡ false)
    (parent_awake : (q : ℕ) → (t cur).parent ≡ some q → waits r q ≡ false) where
  used_after : (j : ℕ) → is_unused (become_zombie cur r j).state ≡ is_unused (t j).state
  used_after j = ground (arith, (calm j).unused)

  dead_after :
      (j : ℕ) → is_zombie (become_zombie cur r j).state ≡ ((j == cur) || is_zombie (t j).state)
  dead_after j = ground (arith, (calm j).zombie)

  parent_after :
      (j q : ℕ)
      → j < nproc
      → (become_zombie cur r j).parent ≡ some q
      → ((is_child (t j).parent cur ≡ true) × (q ≡ init))
        ⊎ ((is_child (t j).parent cur ≡ false) × ((t j).parent ≡ some q))
  parent_after j q h e = ground (arith, parents j)

  waits_after : (q : ℕ) → waits r q ≡ false → waits (become_zombie cur r) q ≡ false
  waits_after q h = ground arith

  child_ne : (j q : ℕ) → is_child (t j).parent cur ≡ false → (t j).parent ≡ some q → q ≢ cur
  child_ne j q other e = ground arith

  noticed_after :
      (i q : ℕ)
      → i < nproc
      → is_zombie (become_zombie cur r i).state ≡ true
      → (become_zombie cur r i).parent ≡ some q
      → waits (become_zombie cur r) q ≡ false
  noticed_after i q h z e = elim (parent_after i q h e) [
    | inl (child, qi) ↦
        let other : i ≢ cur =
          λ ic. f.not_self i cur h (rw ic used) (some_of_child (t i).parent cur child) (sym ic) in
        rw qi (waits_after init (init_awake i h (ground (arith, dead_after i)) child))
    | inr (stays, p) ↦ elim (Bool-cases (i == cur)) [
      | inl self ↦ let ic : i ≡ cur = ground arith in waits_after q (parent_awake q (rw (← ic) p))
      | inr other ↦
          waits_after q
            (waits-Calm t r q (calm q) (f.noticed i q h (ground (arith, dead_after i)) p))
    ]
  ]

  become_zombie-IsFamily : IsFamily init (become_zombie cur r)
  become_zombie-IsFamily = record {
    init_lt = f.init_lt;
    init_used = used_after init ∙ f.init_used;
    init_live = ground (arith, dead_after init, f.init_live);
    init_orphan = ground (arith, parents init, f.init_orphan);
    not_self = λ i q h u e. elim (parent_after i q h e) [
      | inl (child, qi) ↦ λ eq.
          no_child_of_none (t init).parent cur f.init_orphan
            (subst (λ x. is_child (t x).parent cur ≡ true) (sym eq ∙ qi) child)
      | inr (stays, p) ↦ f.not_self i q h (sym (used_after i) ∙ u) p
    ];
    parent_lt = λ i q h u e. elim (parent_after i q h e) [
      | inl (child, qi) ↦ rw qi f.init_lt
      | inr (stays, p) ↦ f.parent_lt i q h (sym (used_after i) ∙ u) p
    ];
    parent_used = λ i q h u e. elim (parent_after i q h e) [
      | inl (child, qi) ↦ rw qi (used_after init ∙ f.init_used)
      | inr (stays, p) ↦ used_after q ∙ f.parent_used i q h (sym (used_after i) ∙ u) p
    ];
    parent_live = λ i q h u e. elim (parent_after i q h e) [
      | inl (child, qi) ↦ rw qi (ground (arith, dead_after init, f.init_live))
      | inr (stays, p) ↦ ground (
        arith,
        dead_after q,
        child_ne i q stays p,
        f.parent_live i q h (sym (used_after i) ∙ u) p,
      )
    ];
    noticed = noticed_after;
  }

exit_locked_step :
    (cur init : ℕ) (t : Table)
    → exit_locked cur init t
      ≡ become_zombie cur (reparent cur init nproc 0 (wake_parent (t cur).parent t))
unfolding exit_locked
exit_locked_step cur init t = refl

wake_parent-waits :
    (p : Option ℕ) (t : Table) (q : ℕ) → q < nproc → p ≡ some q → waits (wake_parent p t) q ≡ false
unfolding wake_parent
wake_parent-waits none t q h e = cc
wake_parent-waits (some r) t q h e =
    let qr : q ≡ r = cc in
    subst (λ x. waits (wakeup1 (at_proc x) t) q ≡ false) qr (wakeup1-waits q t h)

-- exit keeps the family: the children go to init before their parent is a zombie, and who has to
-- wait for them is awake.
pub exit_locked-IsFamily :
    {init : ℕ} {t : Table} (cur : ℕ)
    → IsFamily init t
    → cur < nproc
    → cur ≢ init
    → is_unused (t cur).state ≡ false
    → IsFamily init (exit_locked cur init t)
exit_locked-IsFamily {init} {t} cur f lt ne used = rw (exit_locked_step cur init t) (
    become_zombie-IsFamily (reparent cur init nproc 0 w) f lt ne used
      (λ j. Calm-trans (calm1 j) (reparent-Calm cur init nproc 0 w j)) (λ j. parents j)
      (λ j h z c.
        reparent_wakes cur init nproc 0 w j f.init_lt (omega arith) (omega arith)
          ((calm1 j).zombie ∙ z)
          (ap (λ p. is_child p cur) (parent-wake_parent (t cur).parent t j) ∙ c))
      (λ q e.
        waits-Calm w (reparent cur init nproc 0 w) q (reparent-Calm cur init nproc 0 w q)
          (wake_parent-waits (t cur).parent t q (f.parent_lt cur q lt used e) e)))
  where
    w : Table
    w = wake_parent (t cur).parent t

    calm1 : (j : ℕ) → Calm (t j) (w j)
    calm1 j = wake_parent-Calm (t cur).parent t j

    parents :
        (j : ℕ)
        → (reparent cur init nproc 0 w j).parent
          ≡ (if ltb j nproc && is_child (t j).parent cur then some init else (t j).parent)
    parents j =
        parent-reparent cur init nproc 0 w j
        ∙ ap (λ p. if leb 0 j && ltb j (0 + nproc) && is_child p cur then some init else p)
            (parent-wake_parent (t cur).parent t j)
        ∙ ground arith
