-- ===== src/File/Refs.antt =====
-- The reference counts of open files.
use operating_system.Common.{
  ℕ, zero, suc, ◌+◌, ◌-◌, ◌<◌, ◌≡◌, ◌≢◌, inl, inr, refl, subst, ◌∙◌, arith, Bool, true, false, ltb,
  ◌==◌, List, [], ◌∷◌, Option, none, some, Result, ok, panic, ◌>>=◌, Bool-cases,
}
use operating_system.File.{
  nfile, fd_none, File, Files, store, find_file, alloc_at, filealloc, filedup, Services, State,
  close_last, fileclose,
}

-- the ways in which filealloc ends
pub data AllocSpec (t : Files) : Option ℕ × Files → Type 0 where
  takes :
      (f : ℕ)
      → f < nfile
      → (t f).ref ≡ 0
      → ((j : ℕ) → j < f → (t j).ref ≢ 0)
      → AllocSpec t (some f, store t f (record (t f) { ref = 1 }))
  full : ((j : ℕ) → j < nfile → (t j).ref ≢ 0) → AllocSpec t (none, t)

find_file-AllocSpec :
    (t : Files) (n i : ℕ)
    → i + n ≡ nfile
    → ((j : ℕ) → j < i → (t j).ref ≢ 0)
    → AllocSpec t (alloc_at t (find_file t n i))
unfolding find_file
find_file-AllocSpec t zero i e used = full (λ j lt. used j (omega arith))
find_file-AllocSpec t (suc n) i e used = elim (Bool-cases ((t i).ref == 0)) [
  | inl free ↦ rw (free, alloc_at) (takes i (omega arith) (ground arith) used)
  | inr busy ↦
      rw (busy, find_file)
        (find_file-AllocSpec t n (i + 1) (omega arith)
          (λ j lt. still j lt (λ h. used j h) (ground arith)))
]
  where
    still : (j : ℕ) → j < i + 1 → (j < i → (t j).ref ≢ 0) → (t i).ref ≢ 0 → (t j).ref ≢ 0
    still j lt old here = elim (Bool-cases (ltb j i)) [
      | inl below ↦ old (ground arith)
      | inr not ↦ let e : i ≡ j = ground arith in subst (λ x. (t x).ref ≢ 0) e here
    ]

-- filealloc takes the first entry without references, for one reference, or fails if there is none.
filealloc-AllocSpec : (t : Files) → AllocSpec t (filealloc t)
unfolding filealloc
filealloc-AllocSpec t = find_file-AllocSpec t nfile 0 refl (λ j lt. absurd (omega arith))

-- An order of dup (true) and close (false) on one entry that holds `k` references: they are all on
-- a file in use, and after the last of them none is left.
unfoldable pub Balanced : ℕ → List Bool → Type 0
Balanced k [] = k ≡ 0
Balanced k (true ∷ ops) = (0 < k) × Balanced (k + 1) ops
Balanced k (false ∷ ops) = (0 < k) × Balanced (k - 1) ops

bind_self : {A : Type 0} (m : Result A) → (m >>= λ a. ok a) ≡ m
bind_self (ok a) = refl
bind_self (panic message) = refl

module _ {W : Type 0} {Stat : Type 0} (sv : Services W Stat) where
  pub run : (f : ℕ) → List Bool → State W → Result (State W)
  run f [] s = ok s
  run f (true ∷ ops) s = filedup f s.files >>= λ t. run f ops (record s { files = t })
  run f (false ∷ ops) s = fileclose sv f s >>= run f ops

  Closes : (f : ℕ) → List Bool → File → State W → Type 0
  Closes f ops x s =
      (t : Files) × ((t f).ref ≡ 0)
      × ((t f).type ≡ fd_none)
      × (run f ops s ≡ (
          close_last sv x.type (record x { ref = 0 }) s.world >>= λ w.
          ok (record { files = t; world = w })))

  fileclose_last :
      (f : ℕ) (x : File) (s : State W)
      → s.files f ≡ x
      → x.ref ≡ 1
      → fileclose sv f s ≡ (
          close_last sv x.type (record x { ref = 0 }) s.world >>= λ w.
          ok (record { files = store s.files f (record x { ref = 0; type = fd_none }); world = w }))
  unfolding fileclose
  fileclose_last f x s e one =
      let held : ltb (s.files f).ref 1 ≡ false = ground arith in
      let last : ltb 0 ((s.files f).ref - 1) ≡ false = ground arith in rw (held, last, e) refl

  last_close :
      (f : ℕ) (ops : List Bool) (x : File) (s : State W)
      → s.files f ≡ x
      → x.ref ≡ 1
      → Balanced 0 ops
      → Closes f (false ∷ ops) x s
  unfolding Closes run Balanced fileclose
  last_close f [] x s e one b = (
    store s.files f (record x { ref = 0; type = fd_none }),
    ground arith,
    ground arith,
    bind_self (fileclose sv f s) ∙ fileclose_last f x s e one,
  )
  last_close f (true ∷ ops) x s e one (lt, b) = absurd (omega arith)
  last_close f (false ∷ ops) x s e one (lt, b) = absurd (omega arith)

  run-Closes :
      (f : ℕ) (ops : List Bool) (x : File) (s : State W)
      → s.files f ≡ x
      → 0 < x.ref
      → Balanced x.ref ops
      → Closes f ops x s
  unfolding Closes run Balanced fileclose filedup
  run-Closes f [] x s e used b = absurd (omega arith)
  run-Closes f (true ∷ ops) x s e used (lt, b) =
      let x' : File = record x { ref = x.ref + 1 } in
      let again : ltb (s.files f).ref 1 ≡ false = ground arith in
      let here : store s.files f (record (s.files f) { ref = (s.files f).ref + 1 }) f ≡ x' =
        rw e (ground arith) in
      let (t, r, ty, h) =
        run-Closes f ops x'
          (record s { files = store s.files f (record (s.files f) { ref = (s.files f).ref + 1 }) })
          here (omega arith) b in
      (t, r, ty, rw again h)
  run-Closes f (false ∷ ops) x s e used (lt, b) = elim (Bool-cases (ltb 0 (x.ref - 1))) [
    | inl more ↦
        let x' : File = record x { ref = x.ref - 1 } in
        let again : ltb (s.files f).ref 1 ≡ false = ground arith in
        let more' : ltb 0 ((s.files f).ref - 1) ≡ true = rw e more in
        let here : store s.files f (record (s.files f) { ref = (s.files f).ref - 1 }) f ≡ x' =
          rw e (ground arith) in
        let (t, r, ty, h) =
          run-Closes f ops x'
            (record s {
              files = store s.files f (record (s.files f) { ref = (s.files f).ref - 1 });
            })
            here (ground arith) b in
        (t, r, ty, rw (again, more') h)
    | inr last ↦
        let one : x.ref ≡ 1 = ground arith in
        last_close f ops x s e one (subst (λ k. Balanced (k - 1) ops) one b)
  ]

  -- A balanced sequence of dups and closes of a file in use does not panic of itself, closes what
  -- lies under the file once, at its end, with the fields that the file had at first, and leaves
  -- a free entry.
  pub run_closes :
      (f : ℕ) (ops : List Bool) (s : State W)
      → 0 < (s.files f).ref
      → Balanced (s.files f).ref ops
      → (t : Files) × ((t f).ref ≡ 0)
        × ((t f).type ≡ fd_none)
        × (run f ops s ≡ (
            close_last sv (s.files f).type (record (s.files f) { ref = 0 }) s.world >>= λ w.
            ok (record { files = t; world = w })))
  unfolding Closes
  run_closes f ops s used b = run-Closes f ops (s.files f) s refl used b
