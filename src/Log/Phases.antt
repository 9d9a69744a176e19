-- ===== src/Log/Phases.antt =====
-- A commit of log.c, phase by phase.
use operating_system.Common.{
  ℕ, ◌+◌, ◌-◌, ◌≤◌, ◌<◌, ◌≡◌, ◌⊎◌, inl, inr, refl, sym, ap, ◌∙◌, arith, ◌&&◌, true, false, ltb, leb,
  ◌==◌, List, [], ◌∷◌, none, length, Bool-cases,
}
use operating_system.Log.{
  Block, Store, Log, held, content, install_trans, write_log, read_words, header, is_logged,
  write_head, commit,
}
use operating_system.Log.Loops.{
  in_area, Logged, Logged-ext, Frame, write_loop-Frame, write_loop-Logged, Installed,
  install_loop-Installed, install_loop_stopped, write_loop_clean, read_words-header, header_zero,
}

-- the blocks of the list lie outside of the log
abbrev pub IsOutside : ℕ → List ℕ → Type 0
IsOutside start bs = (b : ℕ) → is_logged b bs ≡ true → in_area start (length bs) b ≡ false

-- A transaction that can be committed: its blocks lie outside of the log, what is modified is in
-- it, and the log on the disk is empty.
pub record IsReady (l : Log) (s : Store) : Type 0 where
  pub outside : IsOutside l.start l.blocks
  pub listed : (b : ℕ) → is_logged b l.blocks ≡ false → s.dirty b ≡ none
  pub cleared : s.disk l.start 0 ≡ 0

-- The disk at the end of a commit, wherever the power went off.
pub data Stopped (l : Log) (s c : Store) : Type 0 where
  before :
      c.disk l.start 0 ≡ 0
      → ((b : ℕ) → in_area l.start (length l.blocks) b ≡ false → c.disk b ≡ s.disk b)
      → Stopped l s c
  between :
      read_words (c.disk l.start) (c.disk l.start 0) 1 ≡ l.blocks
      → Logged c.disk (l.start + 1) l.blocks (content s)
      → ((b : ℕ)
          → in_area l.start (length l.blocks) b ≡ false
          → is_logged b l.blocks ≡ false
          → c.disk b ≡ s.disk b)
      → Stopped l s c
  behind :
      c.disk l.start 0 ≡ 0
      → ((b : ℕ) → in_area l.start (length l.blocks) b ≡ false → c.disk b ≡ content s b)
      → Stopped l s c

-- What a commit that is not stopped leaves.
pub record IsDone (l : Log) (s : Store) (x : Log × Store) : Type 0 where
  pub blocks : x.0.blocks ≡ []
  pub clean : (b : ℕ) → x.1.dirty b ≡ none
  pub cleared : x.1.disk l.start 0 ≡ 0
  pub installed : (b : ℕ) → in_area l.start (length l.blocks) b ≡ false → x.1.disk b ≡ content s b

no_elements : {A : Type 0} (xs : List A) → length xs ≡ 0 → xs ≡ []
no_elements [] h = refl
no_elements (x ∷ xs) h = absurd (omega arith)

module _ (l : Log) (s : Store) (r : IsReady l s) where
  abbrev n : ℕ
  n = length l.blocks

  s1 : Store
  s1 = write_log l s

  s2 : Store
  s2 = write_head l s1

  s3 : Store
  s3 = install_trans l s2

  s4 : Store
  s4 = write_head (record l { blocks = [] }) s3

  -- the blocks that no write to the log meets
  apart :
      (b : ℕ)
      → (in_area l.start n b ≡ false) ⊎ (b ≡ l.start)
      → (leb (l.start + 1) b && ltb b (l.start + 1 + n)) ≡ false
  apart b (inl o) = ground arith
  apart b (inr e) = ground arith

  f1 : Frame (l.start + 1) n s s1
  unfolding s1 write_log
  f1 = write_loop-Frame (l.start + 1) l.blocks s

  head_off : (m : Log) (t : Store) (b : ℕ) → t.power ≡ 0 → (write_head m t).disk b ≡ t.disk b
  unfolding write_head
  head_off m t b off = ground arith

  head_ne :
      (m : Log) (t : Store) (b : ℕ) → (b == m.start) ≡ false → (write_head m t).disk b ≡ t.disk b
  unfolding write_head
  head_ne m t b ne = ground arith

  head_at :
      (m : Log) (t : Store)
      → 0 < t.power
      → (h : Block) × ((write_head m t).disk m.start ≡ header m.blocks h)
  unfolding write_head
  head_at m t on = (content t m.start, ground arith)

  power-head : (m : Log) (t : Store) → (write_head m t).power ≡ t.power - 1
  unfolding write_head
  power-head m t = refl

  pub not_start : (b : ℕ) → in_area l.start n b ≡ false → (b == l.start) ≡ false
  not_start b o = ground arith

  start_unlogged : is_logged l.start l.blocks ≡ false
  start_unlogged = elim (Bool-cases (is_logged l.start l.blocks)) [
    | inl logged ↦ let o = r.outside l.start logged in absurd (ground arith)
    | inr not ↦ not
  ]

  -- the first write of the header was lost, or is the last that was done
  write_head-Stopped : s.power ≤ n → Stopped l s s4
  unfolding s2 s3 s4 install_trans
  write_head-Stopped few =
      before (ap (λ (h : Block). h 0) (same l.start (inr refl)) ∙ r.cleared) (λ b o. same b (inl o))
    where
      off1 : s1.power ≡ 0
      off1 = let p = f1.power in omega arith

      off2 : s2.power ≡ 0
      off2 = let p : s2.power ≡ s1.power - 1 = power-head l s1 in omega (arith, off1)

      off3 : s3.power ≡ 0
      off3 = (install_loop_stopped (l.start + 1) l.blocks s2 off2).1

      same : (b : ℕ) → (in_area l.start n b ≡ false) ⊎ (b ≡ l.start) → s4.disk b ≡ s.disk b
      same b o =
          head_off (record l { blocks = [] }) s3 b off3
          ∙ ((install_loop_stopped (l.start + 1) l.blocks s2 off2).0 b
              ∙ (head_off l s1 b off1 ∙ f1.disk b (apart b o)))

  slots1 : n < s.power → Logged s1.disk (l.start + 1) l.blocks (content s)
  unfolding s1 write_log
  slots1 many =
      write_loop-Logged (l.start + 1) l.blocks s (content s) (λ b g. apart b (inl (r.outside b g)))
        (λ b g. refl) (omega arith)

  slots2 : n < s.power → Logged s2.disk (l.start + 1) l.blocks (content s)
  unfolding s2
  slots2 many =
      Logged-ext s1.disk s2.disk (l.start + 1) l.blocks (content s)
        (λ b lo hi. head_ne l s1 b (ground arith)) (slots1 many)

  clean2 : (b : ℕ) → in_area l.start n b ≡ true → s2.dirty b ≡ none
  unfolding s1 s2 write_head write_log
  clean2 b inside =
      let unlisted : is_logged b l.blocks ≡ false = elim (Bool-cases (is_logged b l.blocks)) [
        | inl logged ↦ let o = r.outside b logged in absurd (ground arith)
        | inr not ↦ not
      ] in
      let c = write_loop_clean (l.start + 1) l.blocks s b (r.listed b unlisted) in ground arith

  clean1 : (b : ℕ) → is_logged b l.blocks ≡ false → s1.dirty b ≡ none
  unfolding s1 write_log
  clean1 b not = write_loop_clean (l.start + 1) l.blocks s b (r.listed b not)

  idle : l.blocks ≡ [] → IsDone l s (l, s)
  unfolding is_logged
  idle none_left = record {
    blocks = none_left;
    clean = clean;
    cleared = r.cleared;
    installed = λ b o. ap (λ x. held x (s.disk b)) (sym (clean b));
  }
    where
      clean : (b : ℕ) → s.dirty b ≡ none
      clean b = r.listed b (ap (is_logged b) none_left)

  i3 : n < s.power → Installed l.blocks (content s) s2 s3
  unfolding s2 s3 install_trans
  i3 many =
      install_loop-Installed (l.start + 1) l.blocks s2 (content s)
        (λ b g. apart b (inl (r.outside b g))) (λ b g. clean2 b (ground arith)) (slots2 many)

  head2 : n < s.power → (h : Block) × (s2.disk l.start ≡ header l.blocks h)
  unfolding s2
  head2 many = head_at l s1 (let p = f1.power in omega arith)

  cleared4 : 0 < s3.power → s4.disk l.start 0 ≡ 0
  unfolding s4
  cleared4 on =
      let (h, e) = head_at (record l { blocks = [] }) s3 on in
      ap (λ (x : Block). x 0) e ∙ header_zero [] h

  unlogged2 : (b : ℕ) → in_area l.start (length l.blocks) b ≡ false → s2.disk b ≡ s.disk b
  unfolding s2
  unlogged2 b o = head_ne l s1 b (not_start b o) ∙ f1.disk b (apart b (inl o))

  placed :
      n < s.power
      → 0 < s3.power
      → (b : ℕ) → in_area l.start (length l.blocks) b ≡ false
      → s3.disk b ≡ content s b
  placed many on b o = elim (Bool-cases (is_logged b l.blocks)) [
    | inl logged ↦ (i3 many).whole (let p = (i3 many).power in omega arith) b logged
    | inr not ↦
        (i3 many).other b not ∙ (unlogged2 b o ∙ ap (λ x. held x (s.disk b)) (sym (r.listed b not)))
  ]

  install_trans-Stopped : n < s.power → Stopped l s s4
  unfolding s2 s4 write_head
  install_trans-Stopped many = elim (Bool-cases (ltb 0 s3.power)) [
    | inl on ↦ behind (cleared4 (ground arith)) (λ b o.
        head_ne (record l { blocks = [] }) s3 b (not_start b o) ∙ placed many (ground arith) b o)
    | inr off ↦
        between
          (ap (λ (h : Block). read_words h (h 0) 1) (head4 (ground arith))
            ∙ read_words-header l.blocks (head2 many).0)
          (Logged-ext s2.disk s4.disk (l.start + 1) l.blocks (content s)
            (λ b lo hi. kept4 (ground arith) b ∙ i.other b (slot_unlogged b lo hi)) (slots2 many))
          (λ b o u. kept4 (ground arith) b ∙ (i.other b u ∙ unlogged2 b o))
  ]
    where
      i : Installed l.blocks (content s) s2 s3
      i = i3 many

      kept4 : s3.power ≡ 0 → (b : ℕ) → s4.disk b ≡ s3.disk b
      kept4 off b = head_off (record l { blocks = [] }) s3 b off

      head4 : s3.power ≡ 0 → s4.disk l.start ≡ header l.blocks (head2 many).0
      head4 off = kept4 off l.start ∙ (i.other l.start start_unlogged ∙ (head2 many).1)

      slot_unlogged :
          (b : ℕ)
          → l.start + 1 ≤ b
          → b < l.start + 1 + length l.blocks
          → is_logged b l.blocks ≡ false
      slot_unlogged b lo hi = elim (Bool-cases (is_logged b l.blocks)) [
        | inl logged ↦ let o = r.outside b logged in absurd (ground arith)
        | inr not ↦ not
      ]

  pub commit-Stopped : Stopped l s (commit l s).1
  unfolding commit s1 s2 s3 s4
  commit-Stopped = elim (Bool-cases (ltb 0 (length l.blocks))) [
    | inl some_blocks ↦ elim (Bool-cases (ltb n s.power)) [
      | inl many ↦ rw some_blocks (install_trans-Stopped (ground arith))
      | inr few ↦ rw some_blocks (write_head-Stopped (ground arith))
    ]
    | inr no_blocks ↦ rw no_blocks (before r.cleared (λ b o. refl))
  ]

  clean4 : n < s.power → (b : ℕ) → s4.dirty b ≡ none
  unfolding s2 s4 write_head
  clean4 many b = elim (Bool-cases (is_logged b l.blocks)) [
    | inl logged ↦ let c = (i3 many).clean b logged in ground arith
    | inr not ↦ let c = (i3 many).dirty_other b not in let c1 = clean1 b not in ground arith
  ]

  -- For a transaction whose blocks lie outside of an empty log: a commit that the power lasts for puts what the cache held of each block on the disk, and
  -- leaves an empty log, on the disk and in memory, and nothing modified in the cache.
  pub commit-IsDone : length l.blocks + length l.blocks + 1 < s.power → IsDone l s (commit l s)
  unfolding commit s1 s2 s3 s4
  commit-IsDone enough = elim (Bool-cases (ltb 0 (length l.blocks))) [
    | inl some_blocks ↦ rw some_blocks (record {
      blocks = refl;
      clean = clean4 (omega arith);
      cleared = cleared4 power3;
      installed = λ b o.
          head_ne (record l { blocks = [] }) s3 b (not_start b o) ∙ placed (omega arith) power3 b o;
    })
    | inr no_blocks ↦ rw no_blocks (idle (no_elements l.blocks (ground arith)))
  ]
    where
      power3 : 0 < s3.power
      power3 =
          let p : s3.power ≡ s2.power - length l.blocks = (i3 (omega arith)).power in
          let q : s2.power ≡ s1.power - 1 = power-head l s1 in
          let o : s1.power ≡ s.power - length l.blocks = f1.power in omega arith
