-- ===== src/Fs/Inode/Slots.antt =====
-- The blocks of a file as slots: 0 to 11 direct, 12 the indirect block, 13 to 140 its entries.
use operating_system.Common.{
  ℕ, ◌*◌, ◌^◌, ◌-◌, ◌<◌, ◌≡◌, ◌≢◌, ◌⊎◌, inl, inr, refl, sym, ap, ◌∙◌, arith, false, ltb, ◌==◌,
  if◌then◌else◌, Bool-cases,
}
use operating_system.Memory.{load32}
use operating_system.Fs.{Fs, bblock}
use operating_system.Fs.Bitmap.{used, IsBitmap}
use operating_system.Fs.Inode.{Inode, iblock}

abbrev pub nslots : ℕ
nslots = 141

abbrev pub entry : ℕ → Fs → ℕ → ℕ
entry b fs i = if b == 0 then 0 else load32 (fs.blocks b) (4 * i)

-- the block number in a slot, 0 for none
unfoldable pub slot : Inode → Fs → ℕ → ℕ
slot ip fs k = if ltb k 13 then ip.addrs k else entry (ip.addrs 12) fs (k - 13)

pub slot-twelve : (ip : Inode) (fs : Fs) → slot ip fs 12 ≡ ip.addrs 12
unfolding slot
slot-twelve ip fs = refl

-- The slots name blocks of the device that are in use, none of the bitmap, not the one that the
-- inode itself is in, and all different.
pub record IsFile (ip : Inode) (fs : Fs) : Type 0 where
  pub bitmap : IsBitmap fs
  pub small : fs.sb.size < 2 ^ 32
  pub in_range : (k : ℕ) → k < nslots → slot ip fs k ≢ 0 → slot ip fs k < fs.sb.size
  pub in_use : (k : ℕ) → k < nslots → slot ip fs k ≢ 0 → used fs (slot ip fs k) ≢ 0
  pub not_map :
      (k e : ℕ) → k < nslots → slot ip fs k ≢ 0 → e < fs.sb.size → bblock e fs.sb ≢ slot ip fs k
  pub meta_range : iblock ip fs < fs.sb.size
  pub meta_used : used fs (iblock ip fs) ≢ 0
  pub meta_nonzero : iblock ip fs ≢ 0
  pub meta_map : (e : ℕ) → e < fs.sb.size → bblock e fs.sb ≢ iblock ip fs
  pub meta_slot : (k : ℕ) → k < nslots → slot ip fs k ≢ iblock ip fs
  pub distinct :
      (j k : ℕ) → j < nslots → k < nslots → slot ip fs j ≢ 0 → slot ip fs j ≡ slot ip fs k → j ≡ k

-- Slot `k`, which was empty, was given the free block `a`.
pub record Grows (ip : Inode) (fs : Fs) (k a : ℕ) (ip' : Inode) (fs' : Fs) : Type 0 where
  pub range : a < fs.sb.size
  pub nonzero : a ≢ 0
  pub was_free : used fs a ≡ 0
  pub same_sb : fs'.sb ≡ fs.sb
  pub fields : ip' ≡ record ip { addrs = ip'.addrs }
  pub valid : IsBitmap fs'
  pub marks : (c : ℕ) → c < fs.sb.size → used fs' c ≡ (if c == a then 1 else used fs c)
  pub slots : (j : ℕ) → j < nslots → slot ip' fs' j ≡ (if j == k then a else slot ip fs j)
  pub others :
      (c : ℕ)
      → c ≢ a
      → ((e : ℕ) → e < fs.sb.size → bblock e fs.sb ≢ c)
      → c ≢ ip.addrs 12
      → fs'.blocks c ≡ fs.blocks c
  pub zeroed : (x : ℕ) → fs'.blocks a x ≡ 0

module _ {ip : Inode} {fs : Fs} (f : IsFile ip fs) {k a : ℕ} {ip' : Inode} {fs' : Fs}
    (empty : slot ip fs k ≡ 0) (g : Grows ip fs k a ip' fs') where
  -- a block that was in use is not the new one
  old-ne : (c : ℕ) → used fs c ≢ 0 → c ≢ a
  old-ne c h e = h (ap (used fs) e ∙ g.was_free)

  slot-cases :
      (j : ℕ)
      → j < nslots
      → ((j ≡ k) × (slot ip' fs' j ≡ a)) ⊎ (((j == k) ≡ false) × (slot ip' fs' j ≡ slot ip fs j))
  slot-cases j h = elim (Bool-cases (j == k)) [
    | inl same ↦ inl (ground arith, g.slots j h ∙ rw same refl)
    | inr other ↦ inr (other, g.slots j h ∙ rw other refl)
  ]

  size_same : fs'.sb.size ≡ fs.sb.size
  size_same = ap (λ x. x.size) g.same_sb

  used-new : used fs' a ≢ 0
  used-new z = let one : used fs' a ≡ 1 = g.marks a g.range ∙ ground arith in omega arith

  used-kept : (c : ℕ) → c < fs.sb.size → used fs c ≢ 0 → used fs' c ≢ 0
  used-kept c hc h z = elim (Bool-cases (c == a)) [
    | inl same ↦ let one : used fs' c ≡ 1 = g.marks c hc ∙ rw same refl in omega arith
    | inr other ↦ h (sym (g.marks c hc ∙ rw other refl) ∙ z)
  ]

  new-ne-map : (e : ℕ) → e < fs.sb.size → bblock e fs.sb ≢ a
  new-ne-map e he h = f.bitmap.own e he (ap (used fs) h ∙ g.was_free)

  distinct-new : (j : ℕ) → j < nslots → slot ip fs j ≢ 0 → slot ip fs j ≢ a
  distinct-new j h nz = old-ne (slot ip fs j) (f.in_use j h nz)

  ranges : (j : ℕ) → j < nslots → slot ip' fs' j ≢ 0 → slot ip' fs' j < fs'.sb.size
  ranges j h nz = elim (slot-cases j h) [
    | inl (_, e) ↦ let r = g.range in let z = size_same in omega (arith, e, z, r)
    | inr (_, e) ↦
        let r = f.in_range j h (λ z. nz (e ∙ z)) in let z = size_same in omega (arith, e, z, r)
  ]

  uses : (j : ℕ) → j < nslots → slot ip' fs' j ≢ 0 → used fs' (slot ip' fs' j) ≢ 0
  uses j h nz z = elim (slot-cases j h) [
    | inl (_, e) ↦ used-new (sym (ap (used fs') e) ∙ z)
    | inr (_, e) ↦
        let old = λ (y : slot ip fs j ≡ 0). nz (e ∙ y) in
        used-kept (slot ip fs j) (f.in_range j h old) (f.in_use j h old) (sym (ap (used fs') e) ∙ z)
  ]

  maps :
      (j e : ℕ)
      → j < nslots
      → slot ip' fs' j ≢ 0
      → e < fs'.sb.size
      → bblock e fs'.sb ≢ slot ip' fs' j
  maps j e h nz he =
      let he' : e < fs.sb.size = let z = size_same in omega arith in
      let same : bblock e fs'.sb ≡ bblock e fs.sb = ap (bblock e) g.same_sb in
      λ q. elim (slot-cases j h) [
        | inl (_, s) ↦ new-ne-map e he' (sym same ∙ (q ∙ s))
        | inr (_, s) ↦ f.not_map j e h (λ y. nz (s ∙ y)) he' (sym same ∙ (q ∙ s))
      ]

  distincts :
      (i j : ℕ)
      → i < nslots
      → j < nslots
      → slot ip' fs' i ≢ 0
      → slot ip' fs' i ≡ slot ip' fs' j
      → i ≡ j
  distincts i j hi hj nz e = elim (slot-cases i hi) [
    | inl (ik, ei) ↦ elim (slot-cases j hj) [
      | inl (jk, _) ↦ ik ∙ sym jk
      | inr (_, ej) ↦
          let old : slot ip fs j ≡ a = sym ej ∙ (sym e ∙ ei) in
          absurd (distinct-new j hj (λ z. g.nonzero (sym old ∙ z)) old)
    ]
    | inr (_, ei) ↦
        let nz_i : slot ip fs i ≢ 0 = λ z. nz (ei ∙ z) in
        elim (slot-cases j hj) [
          | inl (_, ej) ↦ absurd (distinct-new i hi nz_i (sym ei ∙ (e ∙ ej)))
          | inr (_, ej) ↦ f.distinct i j hi hj nz_i (sym ei ∙ (e ∙ ej))
        ]
  ]

  meta_same : iblock ip' fs' ≡ iblock ip fs
  meta_same = let i : ip'.inum ≡ ip.inum = ap (λ x. x.inum) g.fields in rw (i, g.same_sb) refl

  meta_slots : (j : ℕ) → j < nslots → slot ip' fs' j ≢ iblock ip' fs'
  meta_slots j h q = elim (slot-cases j h) [
    | inl (_, e) ↦ f.meta_used (ap (used fs) (sym (sym e ∙ (q ∙ meta_same))) ∙ g.was_free)
    | inr (_, e) ↦ f.meta_slot j h (sym e ∙ (q ∙ meta_same))
  ]

  pub Grows-IsFile : IsFile ip' fs'
  Grows-IsFile = record {
    bitmap = g.valid;
    small = let z = size_same in let w = f.small in omega arith;
    in_range = ranges;
    in_use = uses;
    not_map = maps;
    distinct = distincts;
    meta_range =
        let z = size_same in let w = meta_same in let r = f.meta_range in omega (arith, z, w, r);
    meta_used =
        λ z. used-kept (iblock ip fs) f.meta_range f.meta_used (sym (ap (used fs') meta_same) ∙ z);
    meta_nonzero = λ z. f.meta_nonzero (sym meta_same ∙ z);
    meta_map = λ e he q.
        f.meta_map e (let z = size_same in omega (arith, z, he))
          (sym (ap (bblock e) g.same_sb) ∙ (q ∙ meta_same));
    meta_slot = meta_slots;
  }
