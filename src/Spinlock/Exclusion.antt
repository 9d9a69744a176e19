-- ===== src/Spinlock/Exclusion.antt =====
-- CPUs that acquire and release one lock, step by step.
use operating_system.Common.{
  ℕ, ◌≡◌, ◌⊎◌, refl, sym, subst, ap, ◌∙◌, arith, not, Bool, true, false, ◌==◌, if◌then◌else◌, none,
  ok, panic, Bool-cases, inl, inr, bind-ok, passed, ok-injective,
}
use operating_system.Spinlock.{
  Cpu, SpinLock, is_cpu, holding, acquire_enter, acquire_swap, acquire_own, release_check,
  release_unlock,
}

-- where a CPU is with respect to the lock
pub data Place : Type 0 where
  outside waiting won inside leaving : Place

abbrev pub is_critical : Place → Bool
is_critical won = true
is_critical inside = true
is_critical leaving = true
is_critical _ = false

pub record Machine : Type 0 where
  pub lock : SpinLock
  pub cpus : ℕ → Cpu
  pub places : ℕ → Place

abbrev pub at : {A : Type 0} → (ℕ → A) → ℕ → A → ℕ → A
at f c x d = if d == c then x else f d

-- One step of CPU `me`, or any change of the interrupt state of the CPUs by other code.
pub data Step (m : Machine) : Machine → Type 0 where
  enters :
      (me : ℕ) (c : Cpu)
      → m.places me ≡ outside
      → acquire_enter me m.lock (m.cpus me) ≡ ok c
      → Step m (record m { cpus = at m.cpus me c; places = at m.places me waiting })
  spins :
      (me : ℕ)
      → m.places me ≡ waiting
      → (acquire_swap m.lock).0 ≡ true
      → Step m (record m { lock = (acquire_swap m.lock).1 })
  wins :
      (me : ℕ)
      → m.places me ≡ waiting
      → (acquire_swap m.lock).0 ≡ false
      → Step m (record m { lock = (acquire_swap m.lock).1; places = at m.places me won })
  owns :
      (me : ℕ)
      → m.places me ≡ won
      → Step m (record m { lock = acquire_own me m.lock; places = at m.places me inside })
  leaves :
      (me : ℕ) (l : SpinLock) (c : Cpu)
      → m.places me ≡ inside
      → release_check me m.lock (m.cpus me) ≡ ok (l, c)
      → Step m (record { lock = l; cpus = at m.cpus me c; places = at m.places me leaving })
  unlocks :
      (me : ℕ) (l : SpinLock) (c : Cpu)
      → m.places me ≡ leaving
      → release_unlock m.lock (m.cpus me) ≡ ok (l, c)
      → Step m (record { lock = l; cpus = at m.cpus me c; places = at m.places me outside })
  interrupts : (cpus : ℕ → Cpu) → Step m (record m { cpus = cpus })

pub record IsExclusive (m : Machine) : Type 0 where
  pub one : (c d : ℕ) → is_critical (m.places c) ≡ true → is_critical (m.places d) ≡ true → c ≡ d
  pub taken : (c : ℕ) → is_critical (m.places c) ≡ true → m.lock.locked ≡ true
  pub owner : (c : ℕ) → m.places c ≡ inside → is_cpu m.lock.cpu c ≡ true

pub data Reach : Machine → Type 0 where
  free :
      (cpus : ℕ → Cpu)
      → Reach (record {
        lock = record { locked = false; cpu = none };
        cpus = cpus;
        places = λ c. outside;
      })
  later : {m m' : Machine} → Reach m → Step m m' → Reach m'

-- the place of a CPU behind a step of CPU `me`
moved :
    (m : Machine) (me : ℕ) (x : Place) (a : ℕ)
    → ((a ≡ me) × (at m.places me x a ≡ x))
      ⊎ (((a == me) ≡ false) × (at m.places me x a ≡ m.places a))
moved m me x a = elim (Bool-cases (a == me)) [
  | inl same ↦ inl (ground arith, rw same refl)
  | inr other ↦ inr (other, rw other refl)
]

-- With `me` in its critical part, no other CPU is in its own.
alone :
    {m : Machine} (i : IsExclusive m) (me a : ℕ)
    → is_critical (m.places me) ≡ true
    → (a == me) ≡ false
    → is_critical (m.places a) ≡ true
    → ⊥
alone i me a h ne g = let e = i.one a me g h in ground arith

enters-IsExclusive :
    (m : Machine) (me : ℕ) (cpus : ℕ → Cpu)
    → IsExclusive m
    → IsExclusive (record m { cpus = cpus; places = at m.places me waiting })
enters-IsExclusive m me cpus i = record {
  one = λ a b ha hb. i.one a b (old a ha) (old b hb);
  taken = λ a h. i.taken a (old a h);
  owner = λ a h. i.owner a (was a h);
}
  where
    old : (a : ℕ) → is_critical (at m.places me waiting a) ≡ true → is_critical (m.places a) ≡ true
    old a h = elim (moved m me waiting a) [
      | inl (_, e) ↦ absurd (let g : is_critical waiting ≡ true = ap is_critical (sym e) ∙ h in cc)
      | inr (_, e) ↦ ap is_critical (sym e) ∙ h
    ]

    was : (a : ℕ) → at m.places me waiting a ≡ inside → m.places a ≡ inside
    was a h = elim (moved m me waiting a) [
      | inl (_, e) ↦ absurd (let g : waiting ≡ inside = sym e ∙ h in cc)
      | inr (_, e) ↦ sym e ∙ h
    ]

wins-IsExclusive :
    (m : Machine) (me : ℕ)
    → IsExclusive m
    → m.lock.locked ≡ false
    → IsExclusive (record m { lock = record m.lock { locked = true }; places = at m.places me won })
wins-IsExclusive m me i free_lock = record {
  one = λ a b ha hb. only a ha ∙ sym (only b hb);
  taken = λ a h. refl;
  owner = λ a h. i.owner a (was a h);
}
  where
    only : (a : ℕ) → is_critical (at m.places me won a) ≡ true → a ≡ me
    only a h = elim (moved m me won a) [
      | inl (same, _) ↦ same
      | inr (_, e) ↦ absurd (let g = i.taken a (ap is_critical (sym e) ∙ h) in cc)
    ]

    was : (a : ℕ) → at m.places me won a ≡ inside → m.places a ≡ inside
    was a h = elim (moved m me won a) [
      | inl (_, e) ↦ absurd (let g : won ≡ inside = sym e ∙ h in cc)
      | inr (_, e) ↦ sym e ∙ h
    ]

-- a step from one place in the critical part to another
within-IsExclusive :
    (m : Machine) (me : ℕ) (x : Place) (lock : SpinLock) (cpus : ℕ → Cpu)
    → IsExclusive m
    → is_critical (m.places me) ≡ true
    → lock.locked ≡ m.lock.locked
    → (x ≡ inside → is_cpu lock.cpu me ≡ true)
    → IsExclusive (record { lock = lock; cpus = cpus; places = at m.places me x })
within-IsExclusive m me x lock cpus i critical same mine = record {
  one = λ a b ha hb. i.one a b (old a ha) (old b hb);
  taken = λ a h. same ∙ i.taken a (old a h);
  owner = λ a h. elim (moved m me x a) [
    | inl (e, g) ↦ subst (λ y. is_cpu lock.cpu y ≡ true) (sym e) (mine (sym g ∙ h))
    | inr (ne, g) ↦ absurd (alone i me a critical ne (ap is_critical (sym g ∙ h)))
  ];
}
  where
    old : (a : ℕ) → is_critical (at m.places me x a) ≡ true → is_critical (m.places a) ≡ true
    old a h = elim (moved m me x a) [
      | inl (e, _) ↦ subst (λ y. is_critical (m.places y) ≡ true) (sym e) critical
      | inr (_, e) ↦ ap is_critical (sym e) ∙ h
    ]

unlocks-IsExclusive :
    (m : Machine) (me : ℕ) (lock : SpinLock) (cpus : ℕ → Cpu)
    → IsExclusive m
    → is_critical (m.places me) ≡ true
    → IsExclusive (record { lock = lock; cpus = cpus; places = at m.places me outside })
unlocks-IsExclusive m me lock cpus i critical = record {
  one = λ a b ha hb. absurd (nobody a ha);
  taken = λ a h. absurd (nobody a h);
  owner = λ a h. absurd (nobody a (ap is_critical h));
}
  where
    nobody : (a : ℕ) → is_critical (at m.places me outside a) ≡ true → ⊥
    nobody a h = elim (moved m me outside a) [
      | inl (_, e) ↦ let g : is_critical outside ≡ true = ap is_critical (sym e) ∙ h in cc
      | inr (ne, e) ↦ alone i me a critical ne (ap is_critical (sym e) ∙ h)
    ]

release_check_lock :
    (me : ℕ) (k l : SpinLock) (c c' : Cpu)
    → release_check me k c ≡ ok (l, c')
    → l ≡ record k { cpu = none }
unfolding release_check
release_check_lock me k l c c' e =
    let (r, _, e1) =
      bind-ok (holding me k c)
        (λ r. if not r.0 then panic "release" else ok (record k { cpu = none }, r.1)) e in
    let (_, e2) = passed (not r.0) "release" (ok (record k { cpu = none }, r.1)) e1 in
    ap (λ (x : SpinLock × Cpu). x.0) (sym (ok-injective e2))

pub Step-IsExclusive : {m m' : Machine} → Step m m' → IsExclusive m → IsExclusive m'
unfolding acquire_swap acquire_own
Step-IsExclusive {m} (enters me c p e) i = enters-IsExclusive m me (at m.cpus me c) i
Step-IsExclusive {m} (spins me p e) i = record { one = i.one; taken = λ a h. refl; owner = i.owner }
Step-IsExclusive {m} (wins me p e) i = wins-IsExclusive m me i e
Step-IsExclusive {m} (owns me p) i =
    within-IsExclusive m me inside (acquire_own me m.lock) m.cpus i (ap is_critical p) refl
      (λ h. ground arith)
Step-IsExclusive {m} (leaves me l c p e) i =
    within-IsExclusive m me leaving l (at m.cpus me c) i (ap is_critical p)
      (ap (λ (k : SpinLock). k.locked) (release_check_lock me m.lock l (m.cpus me) c e)) (λ h. cc)
Step-IsExclusive {m} (unlocks me l c p e) i =
    unlocks-IsExclusive m me l (at m.cpus me c) i (ap is_critical p)
Step-IsExclusive {m} (interrupts cpus) i = record { one = i.one; taken = i.taken; owner = i.owner }

-- In every state that CPUs reach from a free lock, at most one is between its winning xchg and its
-- releasing store, the lock is locked while one is, and names the CPU that is inside.
pub Reach-IsExclusive : {m : Machine} → Reach m → IsExclusive m
Reach-IsExclusive (free cpus) = record { one = λ c d h g. cc; taken = λ c h. cc; owner = λ c h. cc }
Reach-IsExclusive (later r s) = Step-IsExclusive s (Reach-IsExclusive r)
