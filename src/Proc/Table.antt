-- ===== src/Proc/Table.antt =====
-- The loops over the process table, slot by slot.
use operating_system.Common.{
  ℕ, zero, suc, ◌+◌, ◌≤◌, ◌<◌, ◌≡◌, refl, arith, ◌∙◌, ◌&&◌, Bool, true, false, ltb, leb, ◌==◌,
  if◌then◌else◌, none, some, inl, inr, Bool-cases,
}
use operating_system.Proc.{
  nproc, runnable, Chan, at_proc, Proc, Table, put, is_unused, is_zombie, is_sleeping, waits_on,
  is_child, find_slot, woken, wake_loop, wakeup1, adopt, reparent,
}

-- A scan finds the first slot that passes, if there is one.
pub find_slot-some :
    (test : Proc → Bool) (t : Table) (n i j : ℕ)
    → find_slot test t n i ≡ some j
    → (i ≤ j) × (j < i + n) × (test (t j) ≡ true) × ((k : ℕ) → i ≤ k → k < j → test (t k) ≡ false)
unfolding find_slot
find_slot-some test t zero i j e = cc
find_slot-some test t (suc n) i j e = elim (Bool-cases (test (t i))) [
  | inl here ↦
      let e' : some i ≡ some j = rw (here, find_slot) at e in
      let ij : i ≡ j = cc in
      (omega arith, omega arith, rw (← ij) here, λ k lo hi. absurd (omega arith))
  | inr next ↦
      let e' : find_slot test t n (i + 1) ≡ some j = rw (next, find_slot) at e in
      let (lo, hi, ok_j, first) = find_slot-some test t n (i + 1) j e' in
      (
        omega arith,
        omega arith,
        ok_j,
        λ k from to. elim (Bool-cases (k == i)) [
          | inl same ↦ let ki : k ≡ i = ground arith in rw ki next
          | inr later ↦ first k (ground arith) to
        ],
      )
]

pub find_slot-none :
    (test : Proc → Bool) (t : Table) (n i k : ℕ)
    → find_slot test t n i ≡ none
    → i ≤ k
    → k < i + n
    → test (t k) ≡ false
unfolding find_slot
find_slot-none test t zero i k e lo hi = absurd (omega arith)
find_slot-none test t (suc n) i k e lo hi = elim (Bool-cases (test (t i))) [
  | inl here ↦ let e' : some i ≡ none = rw (here, find_slot) at e in cc
  | inr next ↦
      let e' : find_slot test t n (i + 1) ≡ none = rw (next, find_slot) at e in
      elim (Bool-cases (k == i)) [
        | inl same ↦ let ki : k ≡ i = ground arith in rw ki next
        | inr later ↦ find_slot-none test t n (i + 1) k e' (ground arith) (omega arith)
      ]
]

wake_loop_lem :
    (c : Chan) (n i : ℕ) (t : Table) (j : ℕ)
    → wake_loop c n i t j ≡ (if leb i j && ltb j (i + n) then woken c (t j) else t j)
unfolding wake_loop
wake_loop_lem c zero i t j = ground arith
wake_loop_lem c (suc n) i t j =
    rw (wake_loop_lem c n (i + 1) (put t i (woken c (t i))) j) (ground arith)

-- wakeup1 wakes exactly the processes of the table that sleep on its channel.
wakeup1_lem :
    (c : Chan) (t : Table) (j : ℕ)
    → wakeup1 c t j ≡ (
        if ltb j nproc && is_sleeping (t j).state && waits_on (t j).chan c
        then record (t j) { state = runnable }
        else t j)
unfolding wakeup1
wakeup1_lem c t j = rw (wake_loop_lem c nproc 0 t j) (ground arith)

-- what a wakeup leaves of a slot: all but that it may have stopped sleeping
pub record Calm (p p' : Proc) : Type 0 where
  pub pid : p'.pid ≡ p.pid
  pub chan : p'.chan ≡ p.chan
  pub unused : is_unused p'.state ≡ is_unused p.state
  pub zombie : is_zombie p'.state ≡ is_zombie p.state
  pub asleep : is_sleeping p'.state ≡ true → is_sleeping p.state ≡ true

-- whether slot `q` sleeps on its own address, as `wait` does
abbrev pub waits : Table → ℕ → Bool
waits t q = is_sleeping (t q).state && waits_on (t q).chan (at_proc q)

pub wakeup1-Calm : (c : Chan) (t : Table) (j : ℕ) → Calm (t j) (wakeup1 c t j)
wakeup1-Calm c t j = rw (wakeup1_lem c t j) (ground arith)

pub parent-wakeup1 : (c : Chan) (t : Table) (j : ℕ) → (wakeup1 c t j).parent ≡ (t j).parent
parent-wakeup1 c t j = rw (wakeup1_lem c t j) (ground arith)

-- A process that waits for a child does not sleep on once its own address is woken.
pub wakeup1-waits : (q : ℕ) (t : Table) → q < nproc → waits (wakeup1 (at_proc q) t) q ≡ false
wakeup1-waits q t h = rw (wakeup1_lem (at_proc q) t q) (ground arith)

pub Calm-refl : (p : Proc) → Calm p p
Calm-refl p = record { pid = refl; chan = refl; unused = refl; zombie = refl; asleep = λ h. h }

pub Calm-trans : {p q r : Proc} → Calm p q → Calm q r → Calm p r
Calm-trans a b = record {
  pid = b.pid ∙ a.pid;
  chan = b.chan ∙ a.chan;
  unused = b.unused ∙ a.unused;
  zombie = b.zombie ∙ a.zombie;
  asleep = λ h. a.asleep (b.asleep h);
}

pub waits-Calm : (t t' : Table) (q : ℕ) → Calm (t q) (t' q) → waits t q ≡ false → waits t' q ≡ false
waits-Calm t t' q c h = ground (arith, c.asleep)

module _ (cur init : ℕ) where
  abbrev handed : ℕ → Table → Table
  handed i t = put t i (record (t i) { parent = some init })

  handed-Calm : (i : ℕ) (t : Table) (j : ℕ) → Calm (t j) (handed i t j)
  handed-Calm i t j = elim (Bool-cases (j == i)) [
    | inl same ↦
        let ji : j ≡ i = ground arith in
        rw (same, ji)
          (record { pid = refl; chan = refl; unused = refl; zombie = refl; asleep = λ h. h })
    | inr other ↦ rw other (Calm-refl (t j))
  ]

  adopt-Calm : (i : ℕ) (t : Table) (j : ℕ) → Calm (t j) (adopt cur init i t j)
  unfolding adopt
  adopt-Calm i t j = elim (Bool-cases (is_child (t i).parent cur)) [
    | inl child ↦ elim (Bool-cases (is_zombie (t i).state)) [
      | inl dead ↦
          rw (child, dead)
            (Calm-trans (handed-Calm i t j) (wakeup1-Calm (at_proc init) (handed i t) j))
      | inr live ↦ rw (child, live) (handed-Calm i t j)
    ]
    | inr no_child ↦ rw no_child (Calm-refl (t j))
  ]

  parent-adopt :
      (i : ℕ) (t : Table) (j : ℕ)
      → (adopt cur init i t j).parent
        ≡ (if (j == i) && is_child (t i).parent cur then some init else (t j).parent)
  unfolding adopt
  parent-adopt i t j = elim (Bool-cases (is_child (t i).parent cur)) [
    | inl child ↦ elim (Bool-cases (is_zombie (t i).state)) [
      | inl dead ↦ rw (child, dead, parent-wakeup1) (ground arith)
      | inr live ↦ rw (child, live) (ground arith)
    ]
    | inr no_child ↦ rw no_child (ground arith)
  ]

  adopt_wakes :
      (i : ℕ) (t : Table)
      → init < nproc
      → is_zombie (t i).state ≡ true
      → is_child (t i).parent cur ≡ true
      → waits (adopt cur init i t) init ≡ false
  unfolding adopt
  adopt_wakes i t h z c =
      rw (c, z) (wakeup1-waits init (put t i (record (t i) { parent = some init })) h)

  pub reparent-Calm : (n i : ℕ) (t : Table) (j : ℕ) → Calm (t j) (reparent cur init n i t j)
  unfolding reparent
  reparent-Calm zero i t j = Calm-refl (t j)
  reparent-Calm (suc n) i t j =
      Calm-trans (adopt-Calm i t j) (reparent-Calm n (i + 1) (adopt cur init i t) j)

  -- The children of `cur` become those of init, and no other slot changes its parent.
  pub parent-reparent :
      (n i : ℕ) (t : Table) (j : ℕ)
      → (reparent cur init n i t j).parent ≡ (
          if leb i j && ltb j (i + n) && is_child (t j).parent cur then some init else (t j).parent)
  unfolding reparent
  parent-reparent zero i t j = ground arith
  parent-reparent (suc n) i t j =
      rw (parent-reparent n (i + 1) (adopt cur init i t) j, parent-adopt i t j) (ground arith)

  -- If init got a zombie, it does not sleep on.
  pub reparent_wakes :
      (n i : ℕ) (t : Table) (j : ℕ)
      → init < nproc
      → i ≤ j
      → j < i + n
      → is_zombie (t j).state ≡ true
      → is_child (t j).parent cur ≡ true
      → waits (reparent cur init n i t) init ≡ false
  unfolding reparent
  reparent_wakes zero i t j h lo hi z c = absurd (omega arith)
  reparent_wakes (suc n) i t j h lo hi z c = elim (Bool-cases (i == j)) [
    | inl here ↦
        let ij : i ≡ j = ground arith in
        waits-Calm (adopt cur init i t) (reparent cur init n (i + 1) (adopt cur init i t)) init
          (reparent-Calm n (i + 1) (adopt cur init i t) init)
          (adopt_wakes i t h (rw ij z) (rw ij c))
    | inr later ↦
        reparent_wakes n (i + 1) (adopt cur init i t) j h (ground arith) (omega arith)
          ((adopt-Calm i t j).zombie ∙ z) (rw parent-adopt (ground arith))
  ]
