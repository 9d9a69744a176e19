-- ===== src/Spinlock/Nesting.antt =====
-- Matched calls of pushcli and popcli.
use operating_system.Common.{
  ℕ, suc, ◌+◌, ◌<◌, ◌≡◌, refl, sym, subst, arith, ◌&&◌, Bool, true, false, ◌==◌, if◌then◌else◌,
  List, [], ◌∷◌, Result, ok, ◌>>=◌, Bool-cases, inl, inr,
}
use operating_system.Spinlock.{Cpu, pushcli, popcli}

-- Interrupts are off within the nesting, and `b` says if they are on outside of it.
pub record IsNested (b : Bool) (c : Cpu) : Type 0 where
  pub at_bottom : c.ncli ≡ 0 → c.interruptible ≡ b
  pub off : 0 < c.ncli → c.interruptible ≡ false
  pub kept : 0 < c.ncli → c.intena ≡ b

pushcli-IsNested : {b : Bool} {c : Cpu} → IsNested b c → IsNested b (pushcli c)
unfolding pushcli
pushcli-IsNested {b} {c} i = record {
  at_bottom = λ h. absurd (omega arith);
  off = λ h. refl;
  kept = λ h. elim (Bool-cases (c.ncli == 0)) [
    | inl z ↦ rw z (i.at_bottom (ground arith))
    | inr nz ↦ rw nz (i.kept (ground arith))
  ];
}

popcli-IsNested :
    {b : Bool} {c : Cpu} (n : ℕ)
    → IsNested b c
    → c.ncli ≡ suc n
    → (c' : Cpu) × (popcli c ≡ ok c') × (c'.ncli ≡ n) × IsNested b c'
unfolding popcli
popcli-IsNested {b} {c} n i e =
    let quiet : c.interruptible ≡ false = i.off (omega arith) in
    let saved : c.intena ≡ b = i.kept (omega arith) in
    (
      record c { ncli = n; interruptible = if n == 0 && c.intena then true else c.interruptible },
      rw (quiet, e) refl,
      refl,
      record {
        at_bottom = λ z.
            let zero_left : (n == 0) ≡ true = ground arith in rw (zero_left, saved, quiet) (back b);
        off = λ p. let more : (n == 0) ≡ false = ground arith in rw (more, quiet) refl;
        kept = λ p. saved;
      },
    )
  where
    back : (x : Bool) → (if x then true else false) ≡ x
    back true = refl
    back false = refl

-- A sequence of pushcli (true) and popcli (false) from depth `k` to depth `m`, never below 0.
unfoldable pub Matched : ℕ → List Bool → ℕ → Type 0
Matched k [] m = k ≡ m
Matched k (true ∷ ops) m = Matched (k + 1) ops m
Matched k (false ∷ ops) m = (j : ℕ) × (k ≡ suc j) × Matched j ops m

pub run : List Bool → Cpu → Result Cpu
run [] c = ok c
run (true ∷ ops) c = run ops (pushcli c)
run (false ∷ ops) c = popcli c >>= run ops

-- From a CPU in a nesting, over any sequence of pushcli and popcli with no more pops than the depth
-- allows at any point, popcli does not panic, the depth is the count of the open calls, interrupts
-- are off while it is above 0, and at 0 they are as they were outside of the nesting.
pub run-IsNested :
    (b : Bool) (ops : List Bool) (c : Cpu) (m : ℕ)
    → IsNested b c
    → Matched c.ncli ops m
    → (c' : Cpu) × (run ops c ≡ ok c') × (c'.ncli ≡ m) × IsNested b c'
unfolding run Matched pushcli
run-IsNested b [] c m i h = (c, refl, h, i)
run-IsNested b (true ∷ ops) c m i h = run-IsNested b ops (pushcli c) m (pushcli-IsNested i) h
run-IsNested b (false ∷ ops) c m i (j, e, h) =
    let (c1, e1, n1, i1) = popcli-IsNested j i e in
    let (c2, e2, n2, i2) = run-IsNested b ops c1 m i1 (subst (λ k. Matched k ops m) (sym n1) h) in
    (c2, rw e1 e2, n2, i2)
