-- ===== src/Log/Again.antt =====
-- A recovery that is itself stopped, and started again.
use operating_system.Common.{
  ℕ, ◌+◌, ◌≤◌, ◌<◌, ◌≡◌, inl, inr, refl, sym, ap, ◌∙◌, arith, ◌&&◌, true, false, ltb, leb,
  if◌then◌else◌, List, [], length, Bool-cases,
}
use operating_system.Log.{
  Block, Store, Log, content, install_loop, install_trans, read_words, is_logged, read_head,
  write_head, recover_from_log,
}
use operating_system.Log.Loops.{
  in_area, Logged, Logged-ext, Installed, install_loop-Installed, header_zero,
}
use operating_system.Log.Phases.{IsOutside}
use operating_system.Log.Crash.{reboot, recovered, recovered_clear, recovered_redo}

module _ (l : Log) (s : Store) (bs : List ℕ) (v : ℕ → Block)
    (h : read_words (s.disk l.start) (s.disk l.start 0) 1 ≡ bs) (out : IsOutside l.start bs)
    (slots : Logged s.disk (l.start + 1) bs v) where
  c : ℕ → Store
  c p = (recover_from_log l (reboot p s)).1

  t : ℕ → Store
  t p = install_loop (l.start + 1) bs (reboot p s)

  i : (p : ℕ) → Installed bs v (reboot p s) (t p)
  unfolding t
  i p =
      install_loop-Installed (l.start + 1) bs (reboot p s) v (λ b g. narrow b (out b g))
        (λ b g. refl) slots
    where
      narrow :
          (b : ℕ)
          → in_area l.start (length bs) b ≡ false
          → (leb (l.start + 1) b && ltb b (l.start + 1 + length bs)) ≡ false
      narrow b o = ground arith

  unlogged : (b : ℕ) → in_area l.start (length bs) b ≡ true → is_logged b bs ≡ false
  unlogged b o = elim (Bool-cases (is_logged b bs)) [
    | inl logged ↦ let n = out b logged in cc
    | inr not ↦ not
  ]

  stopped : (p : ℕ) → p ≤ length bs → (b : ℕ) → (c p).disk b ≡ (t p).disk b
  unfolding c t recover_from_log read_head write_head install_trans
  stopped p few b = rw h (let q = (i p).power in ground arith)

  cleared : (p : ℕ) → length bs < p → (c p).disk l.start 0 ≡ 0
  unfolding c t recover_from_log read_head write_head install_trans
  cleared p many =
      rw h (let q = (i p).power in let z = header_zero [] (content (t p) l.start) in ground arith)

  agree :
      {d d' : Block} (b : ℕ)
      → (is_logged b bs ≡ false → d ≡ d')
      → (if is_logged b bs then v b else d) ≡ (if is_logged b bs then v b else d')
  agree b e = elim (Bool-cases (is_logged b bs)) [
    | inl logged ↦ rw logged refl
    | inr not ↦ rw not (e not)
  ]

  -- Where the log on the disk holds a transaction, a recovery that stops at any point and is
  -- started again leaves what a recovery that does not stop leaves.
  pub recovered_again :
      (p q : ℕ)
      → length bs ≤ q
      → (b : ℕ) → in_area l.start (length bs) b ≡ false
      → recovered l q (recover_from_log l (reboot p s)).1 b ≡ recovered l q s b
  unfolding c
  recovered_again p q enough b o = elim (Bool-cases (leb p (length bs))) [
    | inl few ↦
        let same : (x : ℕ) → is_logged x bs ≡ false → (c p).disk x ≡ s.disk x =
          λ x u. stopped p (ground arith) x ∙ (i p).other x u in
        recovered_redo l q (c p) bs v
          (ap (λ (x : Block). read_words x (x 0) 1) (same l.start (unlogged l.start (ground arith)))
            ∙ h)
          out
          (Logged-ext s.disk (c p).disk (l.start + 1) bs v
            (λ x lo hi. same x (unlogged x (ground arith))) slots)
          enough b (ground arith)
        ∙ (agree b (same b) ∙ sym (recovered_redo l q s bs v h out slots enough b (ground arith)))
    | inr many ↦
        recovered_clear l q (c p) (cleared p (ground arith)) b (ground arith)
        ∙ (recovered_redo l p s bs v h out slots (ground arith) b (ground arith)
            ∙ sym (recovered_redo l q s bs v h out slots enough b (ground arith)))
  ]
