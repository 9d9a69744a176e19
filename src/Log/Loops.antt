-- ===== src/Log/Loops.antt =====
-- The loops of log.c on the disk, whenever the machine stops.
use operating_system.Common.{
  ℕ, suc, ◌+◌, ◌-◌, ◌≤◌, ◌<◌, ◌≡◌, ◌⊎◌, inl, inr, refl, ap, ◌∙◌, arith, ◌&&◌, ◌||◌, Bool, true,
  false, ltb, leb, ◌==◌, if◌then◌else◌, List, [], ◌∷◌, none, length, Bool-cases,
}
use operating_system.Log.{
  Block, Store, held, content, bwrite, install_loop, write_loop, read_words, write_words, header,
  is_logged,
}

-- The area of the log: its header in block `start` and `n` slots behind it.
abbrev pub in_area : (start n b : ℕ) → Bool
in_area start n b = leb start b && leb b (start + n)

-- The blocks of the list have the data of `v`, and the slots from `a` on hold it.
unfoldable pub Logged : (ℕ → Block) → (a : ℕ) → List ℕ → (ℕ → Block) → Type 0
Logged d a [] v = Unit
Logged d a (b ∷ bs) v = (d a ≡ v b) × Logged d (a + 1) bs v

-- what a run of writes leaves outside of the blocks from `a` to `a + n`
pub record Frame (a n : ℕ) (s s' : Store) : Type 0 where
  pub disk : (b : ℕ) → (leb a b && ltb b (a + n)) ≡ false → s'.disk b ≡ s.disk b
  pub dirty : (b : ℕ) → (leb a b && ltb b (a + n)) ≡ false → s'.dirty b ≡ s.dirty b
  pub power : s'.power ≡ s.power - n

pub write_loop-Frame : (a : ℕ) (bs : List ℕ) (s : Store) → Frame a (length bs) s (write_loop a bs s)
unfolding write_loop
write_loop-Frame a [] s = record { disk = λ b h. refl; dirty = λ b h. refl; power = omega arith }
write_loop-Frame a (c ∷ bs) s =
    let f = write_loop-Frame (a + 1) bs (bwrite a (content s c) s) in
    record {
      disk = λ b h. f.disk b (ground arith) ∙ ground arith;
      dirty = λ b h. f.dirty b (ground arith) ∙ ground arith;
      power = let p = f.power in omega arith;
    }

pub Logged-ext :
    (d d' : ℕ → Block) (a : ℕ) (bs : List ℕ) (v : ℕ → Block)
    → ((b : ℕ) → a ≤ b → b < a + length bs → d' b ≡ d b)
    → Logged d a bs v
    → Logged d' a bs v
unfolding Logged
Logged-ext d d' a [] v same h = tt
Logged-ext d d' a (b ∷ bs) v same (h, hs) = (
  same a (omega arith) (omega arith) ∙ h,
  Logged-ext d d' (a + 1) bs v (λ c lo hi. same c (omega arith) (omega arith)) hs,
)

-- A write log that the power lasts for holds what the cache held.
pub write_loop-Logged :
    (a : ℕ) (bs : List ℕ) (s : Store) (v : ℕ → Block)
    → ((b : ℕ) → is_logged b bs ≡ true → (leb a b && ltb b (a + length bs)) ≡ false)
    → ((b : ℕ) → is_logged b bs ≡ true → content s b ≡ v b)
    → length bs ≤ s.power
    → Logged (write_loop a bs s).disk a bs v
unfolding Logged write_loop is_logged
write_loop-Logged a [] s v out same enough = tt
write_loop-Logged a (c ∷ bs) s v out same enough =
    let s1 : Store = bwrite a (content s c) s in
    let f = write_loop-Frame (a + 1) bs s1 in
    (
      f.disk a (ground arith) ∙ (written (omega arith) ∙ same c (ground arith)),
      write_loop-Logged (a + 1) bs s1 v (λ b h. outside b h (out b (later b h)))
          (λ b h. kept b (out b (later b h)) ∙ same b (later b h)) (omega arith),
    )
  where
    written : 0 < s.power → (bwrite a (content s c) s).disk a ≡ content s c
    written p = ground arith

    later : (b : ℕ) → is_logged b bs ≡ true → (c == b || is_logged b bs) ≡ true
    later b h = ground arith

    outside :
        (b : ℕ)
        → is_logged b bs ≡ true
        → (leb a b && ltb b (a + suc (length bs))) ≡ false
        → (leb (a + 1) b && ltb b (a + 1 + length bs)) ≡ false
    outside b h o = ground arith

    kept :
        (b : ℕ)
        → (leb a b && ltb b (a + suc (length bs))) ≡ false
        → content (bwrite a (content s c) s) b ≡ content s b
    kept b o = ground arith

-- what an installation from the log leaves
pub record Installed (bs : List ℕ) (v : ℕ → Block) (s s' : Store) : Type 0 where
  pub other : (b : ℕ) → is_logged b bs ≡ false → s'.disk b ≡ s.disk b
  pub dirty_other : (b : ℕ) → is_logged b bs ≡ false → s'.dirty b ≡ s.dirty b
  pub clean : (b : ℕ) → is_logged b bs ≡ true → s'.dirty b ≡ none
  pub partial : (b : ℕ) → (s'.disk b ≡ s.disk b) ⊎ (s'.disk b ≡ v b)
  pub whole : length bs ≤ s.power → (b : ℕ) → is_logged b bs ≡ true → s'.disk b ≡ v b
  pub power : s'.power ≡ s.power - length bs

-- One more block before the others.
Installed-cons :
    (c : ℕ) (bs : List ℕ) (d : Block) (v : ℕ → Block) (s s' : Store)
    → d ≡ v c
    → Installed bs v (bwrite c d s) s'
    → Installed (c ∷ bs) v s s'
unfolding is_logged
Installed-cons c bs d v s s' data_is i = record {
  other = λ b g. i.other b (ground arith) ∙ ground arith;
  dirty_other = λ b g. i.dirty_other b (ground arith) ∙ ground arith;
  clean = λ b g. elim (Bool-cases (is_logged b bs)) [
    | inl more ↦ i.clean b more
    | inr last ↦ i.dirty_other b last ∙ ground arith
  ];
  partial = λ b. elim (i.partial b) [
    | inl same ↦ elim (Bool-cases (b == c && ltb 0 s.power)) [
      | inl here ↦ inr (same ∙ now b here)
      | inr there ↦ inl (same ∙ rw there refl)
    ]
    | inr new ↦ inr new
  ];
  whole = λ p b g. elim (Bool-cases (is_logged b bs)) [
    | inl more ↦ i.whole (omega arith) b more
    | inr last ↦ i.other b last ∙ now b (ground arith)
  ];
  power = let p = i.power in omega arith;
}
  where
    now : (b : ℕ) → (b == c && ltb 0 s.power) ≡ true → (bwrite c d s).disk b ≡ v b
    now b g = let e : c ≡ b = ground arith in rw g (data_is ∙ ap v e)

-- An installation copies some of the blocks, and all if the power lasts.
pub install_loop-Installed :
    (a : ℕ) (bs : List ℕ) (s : Store) (v : ℕ → Block)
    → ((b : ℕ) → is_logged b bs ≡ true → (leb a b && ltb b (a + length bs)) ≡ false)
    → ((b : ℕ) → (leb a b && ltb b (a + length bs)) ≡ true → s.dirty b ≡ none)
    → Logged s.disk a bs v
    → Installed bs v s (install_loop a bs s)
unfolding Logged install_loop is_logged
install_loop-Installed a [] s v out slots h = record {
  other = λ b h. refl;
  dirty_other = λ b h. refl;
  clean = λ b h. cc;
  partial = λ b. inl refl;
  whole = λ p b h. cc;
  power = omega arith;
}
install_loop-Installed a (c ∷ bs) s v out slots (h, hs) =
    Installed-cons c bs (content s a) v s (install_loop (a + 1) bs s1)
      (ap (λ o. held o (s.disk a)) (slots a (ground arith)) ∙ h)
      (install_loop-Installed (a + 1) bs s1 v (λ b g. narrow b (out b (ground arith)))
        (λ b g. cleaned b (slots b (ground arith)))
        (Logged-ext s.disk s1.disk (a + 1) bs v (λ b lo hi. apart b lo hi (out c (ground arith)))
          hs))
  where
    s1 : Store
    s1 = bwrite c (content s a) s

    narrow :
        (b : ℕ)
        → (leb a b && ltb b (a + suc (length bs))) ≡ false
        → (leb (a + 1) b && ltb b (a + 1 + length bs)) ≡ false
    narrow b o = ground arith

    cleaned : (b : ℕ) → s.dirty b ≡ none → s1.dirty b ≡ none
    cleaned b e = ground arith

    apart :
        (b : ℕ)
        → a + 1 ≤ b
        → b < a + 1 + length bs
        → (leb a c && ltb c (a + suc (length bs))) ≡ false
        → s1.disk b ≡ s.disk b
    apart b lo hi o = ground arith

-- Without power nothing changes.
pub install_loop_stopped :
    (a : ℕ) (bs : List ℕ) (s : Store)
    → s.power ≡ 0
    → ((b : ℕ) → (install_loop a bs s).disk b ≡ s.disk b) × ((install_loop a bs s).power ≡ 0)
unfolding install_loop
install_loop_stopped a [] s off = (λ b. refl, off)
install_loop_stopped a (c ∷ bs) s off =
    let (same, still) = install_loop_stopped (a + 1) bs (bwrite c (content s a) s) (omega arith) in
    (λ b. same b ∙ ground arith, still)

write_words_below : (bs : List ℕ) (i : ℕ) (h : Block) (x : ℕ) → x < i → write_words bs i h x ≡ h x
unfolding write_words
write_words_below [] i h x lt = refl
write_words_below (b ∷ bs) i h x lt = write_words_below bs (i + 1) _ x (omega arith) ∙ ground arith

read_words-write_words :
    (bs : List ℕ) (i : ℕ) (h : Block) → read_words (write_words bs i h) (length bs) i ≡ bs
unfolding write_words read_words
read_words-write_words [] i h = refl
read_words-write_words (b ∷ bs) i h =
    let h' : Block = λ x. if x == i then b else h x in
    rw (write_words_below bs (i + 1) h' i (omega arith), read_words-write_words bs (i + 1) h')
      (ground arith)

pub header_zero : (bs : List ℕ) (h : Block) → header bs h 0 ≡ length bs
unfolding header write_words
header_zero bs h = write_words_below bs 1 _ 0 (omega arith) ∙ ground arith

read_words-header-length : (bs : List ℕ) (h : Block) → read_words (header bs h) (length bs) 1 ≡ bs
unfolding header write_words
read_words-header-length bs h = read_words-write_words bs 1 _

-- The header that is written is the header that is read.
pub read_words-header : (bs : List ℕ) (h : Block) → read_words (header bs h) (header bs h 0) 1 ≡ bs
read_words-header bs h = rw (header_zero bs h) (read_words-header-length bs h)

-- A write of the log leaves no more modified blocks in the cache.
pub write_loop_clean :
    (a : ℕ) (bs : List ℕ) (s : Store) (b : ℕ)
    → s.dirty b ≡ none
    → (write_loop a bs s).dirty b ≡ none
unfolding write_loop
write_loop_clean a [] s b h = h
write_loop_clean a (c ∷ bs) s b h =
    write_loop_clean (a + 1) bs (bwrite a (content s c) s) b (ground arith)
