-- ===== src/Proc/Slot.antt =====
-- Steps that change one slot of the process table, and the family that they keep.
use operating_system.Common.{
  ℕ, ◌<◌, ◌≡◌, ◌≢◌, ◌⊎◌, arith, sym, subst, ap, ◌∙◌, ◌&&◌, true, false, ◌==◌, some, inl, inr,
  Bool-cases,
}
use operating_system.Proc.{
  nproc, ProcState, at_proc, Proc, Table, is_unused, is_zombie, is_sleeping, waits_on,
}
use operating_system.Proc.Table.{waits}
use operating_system.Proc.Family.{IsFamily}

-- `t'` is `t` outside of slot `k`
abbrev pub OnlySlot : ℕ → Table → Table → Type 0
OnlySlot k t t' = (j : ℕ) → j ≢ k → t' j ≡ t j

-- no process in use has `k` for its parent
abbrev pub Childless : ℕ → Table → Type 0
Childless k t = (i : ℕ) → i < nproc → is_unused (t i).state ≡ false → (t i).parent ≡ some k → ⊥

pub Childless-unused :
    {init : ℕ} {t : Table} (k : ℕ) → IsFamily init t → is_unused (t k).state ≡ true → Childless k t
Childless-unused k f e i h u p = ground (arith, f.parent_used i k h u p)

pub Childless-zombie :
    {init : ℕ} {t : Table} (k : ℕ) → IsFamily init t → is_zombie (t k).state ≡ true → Childless k t
Childless-zombie k f e i h u p = ground (arith, f.parent_live i k h u p)

used_of_zombie : (s : ProcState) → is_zombie s ≡ true → is_unused s ≡ false
used_of_zombie s e = ground arith

slot_cases : (j k : ℕ) → (j ≡ k) ⊎ (j ≢ k)
slot_cases j k = elim (Bool-cases (j == k)) [
  | inl same ↦ inl (ground arith)
  | inr other ↦ inr (ground arith)
]

-- what a process in use needs of its parent `q`
record HasParent (k : ℕ) (t : Table) (i q : ℕ) : Type 0 where
  lt : q < nproc
  other : q ≢ k
  apart : q ≢ i
  used : is_unused (t q).state ≡ false
  live : is_zombie (t q).state ≡ false

module _ {init : ℕ} {t t' : Table} (k : ℕ) (f : IsFamily init t) (only : OnlySlot k t t') where
  kept : {A : Type 0} (g : Proc → A) (j : ℕ) → j ≢ k → g (t' j) ≡ g (t j)
  kept g j ne = ap g (only j ne)

  waits-kept : (q : ℕ) → q ≢ k → waits t' q ≡ waits t q
  waits-kept q ne = kept (λ p. is_sleeping p.state && waits_on p.chan (at_proc q)) q ne

  everywhere : {A : Type 0} (g : Proc → A) → g (t' k) ≡ g (t k) → (j : ℕ) → g (t' j) ≡ g (t j)
  everywhere g e j = elim (slot_cases j k) [
    | inl jk ↦ subst (λ x. g (t' x) ≡ g (t x)) (sym jk) e
    | inr ne ↦ kept g j ne
  ]

  -- The process in slot `k` goes to another state of its life.
  pub move-IsFamily :
      is_unused (t' k).state ≡ is_unused (t k).state
      → is_zombie (t' k).state ≡ is_zombie (t k).state
      → (t' k).parent ≡ (t k).parent
      → (waits t' k ≡ true
          → (i : ℕ) → i < nproc
          → is_zombie (t i).state ≡ true
          → (t i).parent ≡ some k
          → ⊥)
      → IsFamily init t'
  move-IsFamily u z p w = record {
    init_lt = f.init_lt;
    init_used = eu init ∙ f.init_used;
    init_live = ez init ∙ f.init_live;
    init_orphan = ep init ∙ f.init_orphan;
    not_self = λ i q h v e. f.not_self i q h (sym (eu i) ∙ v) (sym (ep i) ∙ e);
    parent_lt = λ i q h v e. f.parent_lt i q h (sym (eu i) ∙ v) (sym (ep i) ∙ e);
    parent_used = λ i q h v e. eu q ∙ f.parent_used i q h (sym (eu i) ∙ v) (sym (ep i) ∙ e);
    parent_live = λ i q h v e. ez q ∙ f.parent_live i q h (sym (eu i) ∙ v) (sym (ep i) ∙ e);
    noticed = λ i q h v e. seen i q h (sym (ez i) ∙ v) (sym (ep i) ∙ e);
  }
    where
      eu : (j : ℕ) → is_unused (t' j).state ≡ is_unused (t j).state
      eu = everywhere (λ x. is_unused x.state) u

      ez : (j : ℕ) → is_zombie (t' j).state ≡ is_zombie (t j).state
      ez = everywhere (λ x. is_zombie x.state) z

      ep : (j : ℕ) → (t' j).parent ≡ (t j).parent
      ep = everywhere (λ x. x.parent) p

      seen :
          (i q : ℕ)
          → i < nproc
          → is_zombie (t i).state ≡ true
          → (t i).parent ≡ some q
          → waits t' q ≡ false
      seen i q h v e = elim (slot_cases q k) [
        | inl qk ↦ elim (Bool-cases (waits t' k)) [
          | inl asleep ↦ absurd (w asleep i h v (subst (λ x. (t i).parent ≡ some x) qk e))
          | inr awake ↦ subst (λ x. waits t' x ≡ false) (sym qk) awake
        ]
        | inr ne ↦ waits-kept q ne ∙ f.noticed i q h v e
      ]

  rebuild :
      init ≢ k
      → ((i q : ℕ)
          → i < nproc
          → is_unused (t' i).state ≡ false
          → (t' i).parent ≡ some q
          → HasParent k t i q)
      → is_zombie (t' k).state ≡ false
      → IsFamily init t'
  rebuild ne has z = record {
    init_lt = f.init_lt;
    init_used = kept (λ x. is_unused x.state) init ne ∙ f.init_used;
    init_live = kept (λ x. is_zombie x.state) init ne ∙ f.init_live;
    init_orphan = kept (λ x. x.parent) init ne ∙ f.init_orphan;
    not_self = λ i q h v e. (has i q h v e).apart;
    parent_lt = λ i q h v e. (has i q h v e).lt;
    parent_used =
        λ i q h v e. let p = has i q h v e in kept (λ x. is_unused x.state) q p.other ∙ p.used;
    parent_live =
        λ i q h v e. let p = has i q h v e in kept (λ x. is_zombie x.state) q p.other ∙ p.live;
    noticed = λ i q h v e. elim (slot_cases i k) [
      | inl ik ↦ absurd (alive (subst (λ x. is_zombie (t' x).state ≡ true) ik v))
      | inr other ↦
          let p = has i q h (used_of_zombie (t' i).state v) e in
          waits-kept q p.other
          ∙ f.noticed i q h (sym (kept (λ x. is_zombie x.state) i other) ∙ v)
              (sym (kept (λ x. x.parent) i other) ∙ e)
    ];
  }
    where
      alive : is_zombie (t' k).state ≡ true → ⊥
      alive e = ground arith

  old_parent :
      Childless k t
      → (i q : ℕ) → i ≢ k
      → i < nproc
      → is_unused (t' i).state ≡ false
      → (t' i).parent ≡ some q
      → HasParent k t i q
  old_parent alone i q ne h v e =
      let v' = sym (kept (λ x. is_unused x.state) i ne) ∙ v in
      let e' = sym (kept (λ x. x.parent) i ne) ∙ e in
      record {
        lt = f.parent_lt i q h v' e';
        other = λ qk. alone i h v' (subst (λ x. (t i).parent ≡ some x) qk e');
        apart = f.not_self i q h v' e';
        used = f.parent_used i q h v' e';
        live = f.parent_live i q h v' e';
      }

  -- A new process whose parent is `q` comes into the free slot `k`.
  pub birth-IsFamily :
      (q : ℕ)
      → is_unused (t k).state ≡ true
      → is_zombie (t' k).state ≡ false
      → (t' k).parent ≡ some q
      → q < nproc
      → is_unused (t q).state ≡ false
      → is_zombie (t q).state ≡ false
      → IsFamily init t'
  birth-IsFamily q free z p lt u l =
      rebuild (apart init f.init_used)
        (λ i r h v e. elim (slot_cases i k) [
          | inl ik ↦
              let rq : q ≡ r = new_parent i r ik e in
              subst (λ x. HasParent k t i x) rq
                (record {
                  lt = lt;
                  other = apart q u;
                  apart = λ qi. apart q u (qi ∙ ik);
                  used = u;
                  live = l;
                })
          | inr ne ↦ old_parent (Childless-unused k f free) i r ne h v e
        ])
        z
    where
      apart : (j : ℕ) → is_unused (t j).state ≡ false → j ≢ k
      apart j used jk = let e = subst (λ x. is_unused (t x).state ≡ false) jk used in ground arith

      new_parent : (i r : ℕ) → i ≡ k → (t' i).parent ≡ some r → q ≡ r
      new_parent i r ik e = let e' = sym p ∙ subst (λ x. (t' x).parent ≡ some r) ik e in cc

  -- Slot `k`, which is nobody's parent, becomes or stays free.
  pub clear-IsFamily :
      init ≢ k
      → Childless k t
      → is_unused (t' k).state ≡ true
      → is_zombie (t' k).state ≡ false
      → IsFamily init t'
  clear-IsFamily ne alone u z =
      rebuild ne
        (λ i r h v e. elim (slot_cases i k) [
          | inl ik ↦ absurd (not_used (subst (λ x. is_unused (t' x).state ≡ false) ik v))
          | inr other ↦ old_parent alone i r other h v e
        ])
        z
    where
      not_used : is_unused (t' k).state ≡ false → ⊥
      not_used e = ground arith
