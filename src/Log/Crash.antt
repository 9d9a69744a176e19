-- ===== src/Log/Crash.antt =====
-- Recovery after the machine stops at any point of a commit, or of a recovery.
use operating_system.Common.{
  ℕ, ◌+◌, ◌≤◌, ◌≡◌, ◌⊎◌, inl, inr, refl, sym, ap, ◌∙◌, arith, ◌&&◌, false, ltb, leb, ◌==◌,
  if◌then◌else◌, List, none, length, Bool-cases,
}
use operating_system.Log.{
  Block, Store, Log, held, content, install_loop, install_trans, read_words, is_logged, read_head,
  write_head, recover_from_log, commit,
}
use operating_system.Log.Loops.{in_area, Logged, Installed, install_loop-Installed}
use operating_system.Log.Phases.{
  IsOutside, IsReady, Stopped, before, between, behind, not_start, commit-Stopped,
}

-- the machine after it starts again: nothing is cached
abbrev pub reboot : (power : ℕ) → Store → Store
reboot p s = record { disk = s.disk; dirty = λ b. none; power = p }

-- the disk after a recovery
abbrev pub recovered : Log → ℕ → Store → ℕ → Block
recovered l p s = (recover_from_log l (reboot p s)).1.disk

module _ (l : Log) (p : ℕ) (s : Store) where
  -- With no transaction in the log, recovery changes nothing but the header.
  pub recovered_clear :
      s.disk l.start 0 ≡ 0 → (b : ℕ) → (b == l.start) ≡ false → recovered l p s b ≡ s.disk b
  unfolding recover_from_log read_head write_head install_trans install_loop read_words
  recovered_clear h b ne = rw (h, ne) refl

  -- With a transaction in the log, recovery puts its blocks in their places.
  pub recovered_redo :
      (bs : List ℕ) (v : ℕ → Block)
      → read_words (s.disk l.start) (s.disk l.start 0) 1 ≡ bs
      → IsOutside l.start bs
      → Logged s.disk (l.start + 1) bs v
      → length bs ≤ p
      → (b : ℕ) → (b == l.start) ≡ false
      → recovered l p s b ≡ (if is_logged b bs then v b else s.disk b)
  unfolding recover_from_log read_head write_head install_trans
  recovered_redo bs v h out slots enough b ne =
      rw (h, ne)
        (elim (Bool-cases (is_logged b bs)) [
          | inl logged ↦ rw logged (i.whole enough b logged)
          | inr not ↦ rw not (i.other b not)
        ])
    where
      i : Installed bs v (reboot p s) (install_loop (l.start + 1) bs (reboot p s))
      i =
          install_loop-Installed (l.start + 1) bs (reboot p s) v (λ c g. narrow c (out c g))
            (λ c g. refl) slots
        where
          narrow :
              (c : ℕ)
              → in_area l.start (length bs) c ≡ false
              → (leb (l.start + 1) c && ltb c (l.start + 1 + length bs)) ≡ false
          narrow c o = ground arith

module _ (l : Log) (s : Store) (r : IsReady l s) where
  AllOrNothing : ℕ → Store → Type 0
  AllOrNothing p c =
      ((b : ℕ) → in_area l.start (length l.blocks) b ≡ false → recovered l p c b ≡ s.disk b)
      ⊎ ((b : ℕ) → in_area l.start (length l.blocks) b ≡ false → recovered l p c b ≡ content s b)

  recovered-Stopped : (p : ℕ) (c : Store) → length l.blocks ≤ p → Stopped l s c → AllOrNothing p c
  unfolding AllOrNothing
  recovered-Stopped p c enough (before h same) =
      inl (λ b o. recovered_clear l p c h b (not_start l s r b o) ∙ same b o)
  recovered-Stopped p c enough (behind h same) =
      inr (λ b o. recovered_clear l p c h b (not_start l s r b o) ∙ same b o)
  recovered-Stopped p c enough (between h slots same) = inr (λ b o.
      recovered_redo l p c l.blocks (content s) h r.outside slots enough b (not_start l s r b o)
      ∙ new b o)
    where
      new :
          (b : ℕ)
          → in_area l.start (length l.blocks) b ≡ false
          → (if is_logged b l.blocks then content s b else c.disk b) ≡ content s b
      new b o = elim (Bool-cases (is_logged b l.blocks)) [
        | inl logged ↦ rw logged refl
        | inr not ↦ rw not (same b o not ∙ ap (λ x. held x (s.disk b)) (sym (r.listed b not)))
      ]

  -- For a transaction whose blocks lie outside of an empty log: if the machine stops anywhere in a
  -- commit and recovers, then either no block outside of the log has changed, or each has what the
  -- cache held of it when the commit began.
  pub commit_crash :
      (p : ℕ)
      → length l.blocks ≤ p
      → ((b : ℕ)
          → in_area l.start (length l.blocks) b ≡ false
          → recovered l p (commit l s).1 b ≡ s.disk b)
        ⊎ ((b : ℕ)
            → in_area l.start (length l.blocks) b ≡ false
            → recovered l p (commit l s).1 b ≡ content s b)
  unfolding AllOrNothing
  commit_crash p enough = recovered-Stopped p (commit l s).1 enough (commit-Stopped l s r)
