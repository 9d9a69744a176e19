-- ===== src/Fs/Inode/Grow.antt =====
-- Blocks that balloc takes for the slots of a file, and changes of blocks that leave slots alone.
use operating_system.Common.{
  ℕ, ◌+◌, ◌*◌, ◌%◌, ◌^◌, ◌-◌, ◌<◌, ◌≡◌, ◌≢◌, inl, inr, refl, sym, ap, subst, ◌∙◌, arith, true,
  false, ltb, ◌==◌, if◌then◌else◌, Bool-cases,
}
use operating_system.Memory.{load32, store32, ptr_add}
use operating_system.Memory.Fill.{load32-store32, load32-store32_ne}
use operating_system.Fs.{bpb, Block, Fs, bblock, log_write, bit}
use operating_system.Fs.Bitmap.{used, IsBitmap, Takes}
use operating_system.Fs.Inode.{Inode, set_addr}
use operating_system.Fs.Inode.Slots.{nslots, entry, slot, IsFile, Grows}

load32-zero : (d : Block) (i : ℕ) → ((x : ℕ) → d x ≡ 0) → load32 d i ≡ 0
load32-zero d i z = rw (z i, z (ptr_add i 1), z (ptr_add i 2), z (ptr_add i 3)) refl

-- A block that is not part of the bitmap may change.
module _ (fs : Fs) (b : ℕ) (d : Block) (apart : (e : ℕ) → e < fs.sb.size → bblock e fs.sb ≢ b) where
  map_same :
      (e : ℕ)
      → e < fs.sb.size
      → (log_write b d fs).blocks (bblock e fs.sb) ≡ fs.blocks (bblock e fs.sb)
  map_same e he =
      let n = apart e he in let t : (bblock e fs.sb == b) ≡ false = ground arith in rw t refl

  pub log_write-used : (e : ℕ) → e < fs.sb.size → used (log_write b d fs) e ≡ used fs e
  log_write-used e he = ap (λ (k : Block). bit k (e % bpb)) (map_same e he)

  pub log_write-IsBitmap : IsBitmap fs → IsBitmap (log_write b d fs)
  log_write-IsBitmap v = record {
    bytes = λ e x he hx. subst (λ (k : Block). k x < 256) (sym (map_same e he)) (v.bytes e x he hx);
    inside = v.inside;
    own = λ e he z. v.own e he (sym (log_write-used (bblock e fs.sb) (v.inside e he)) ∙ z);
    nonempty = v.nonempty;
    boot = λ z. v.boot (sym (log_write-used 0 v.nonempty) ∙ z);
  }

-- The slots depend on no block but the indirect one.
pub slot_other :
    (ip : Inode) (fs : Fs) (b : ℕ) (d : Block)
    → (ip.addrs 12 ≢ 0 → ip.addrs 12 ≢ b)
    → (j : ℕ) → slot ip (log_write b d fs) j ≡ slot ip fs j
unfolding slot
slot_other ip fs b d ne j = elim (Bool-cases (ip.addrs 12 == 0)) [
  | inl none_yet ↦ rw none_yet refl
  | inr there ↦
      let n = ne (λ z. ground arith) in
      let t : (ip.addrs 12 == b) ≡ false = ground arith in rw (there, t) refl
]

-- What balloc takes for an inode leaves its indirect block alone.
indirect_kept :
    {ip : Inode} {fs : Fs} {a : ℕ} {fs' : Fs}
    → IsFile ip fs
    → Takes fs a fs'
    → ip.addrs 12 ≢ 0
    → fs'.blocks (ip.addrs 12) ≡ fs.blocks (ip.addrs 12)
unfolding slot
indirect_kept {ip} {fs} f t nz =
    t.others (ip.addrs 12) (λ e. f.in_use 12 (omega arith) nz (ap (used fs) e ∙ t.was_free))
      (λ e he. f.not_map 12 e (omega arith) nz he)

a_small : {ip : Inode} {fs : Fs} {a : ℕ} {fs' : Fs} → IsFile ip fs → Takes fs a fs' → a < 2 ^ 32
a_small f t = let s = f.small in let h = t.inside in omega (arith, s, h)

module _ {ip : Inode} {fs : Fs} (k a : ℕ) (fs' : Fs) (f : IsFile ip fs) (h : k < 13)
    (empty : slot ip fs k ≡ 0) (t : Takes fs a fs') where
  addr_nonzero : a ≢ 0
  addr_nonzero z = f.bitmap.boot (sym (ap (used fs) z) ∙ t.was_free)

  entry_kept : (i : ℕ) → entry (if 12 == k then a else ip.addrs 12) fs' i ≡ entry (ip.addrs 12) fs i
  unfolding slot
  entry_kept i = elim (Bool-cases (12 == k)) [
    | inl same ↦
        let was : ip.addrs 12 ≡ 0 =
          let e : k ≡ 12 = ground arith in subst (λ x. slot ip fs x ≡ 0) e empty in
        let nz : (a == 0) ≡ false = let n = addr_nonzero in ground arith in
        rw (same, was, nz) (load32-zero (fs'.blocks a) (4 * i) t.zeroed)
    | inr other ↦ elim (Bool-cases (ip.addrs 12 == 0)) [
      | inl none_yet ↦ rw (other, none_yet) refl
      | inr there ↦
          let nz : ip.addrs 12 ≢ 0 = λ z. ground arith in
          rw (other, there) (ap (λ (d : Block). load32 d (4 * i)) (indirect_kept f t nz))
    ]
  ]

  addr_slots :
      (j : ℕ) → j < nslots → slot (set_addr k a ip) fs' j ≡ (if j == k then a else slot ip fs j)
  unfolding slot
  addr_slots j hj = elim (Bool-cases (ltb j 13)) [
    | inl direct ↦ rw direct refl
    | inr indirect ↦
        let ne : (j == k) ≡ false = ground arith in rw (indirect, ne) (entry_kept (j - 13))
  ]

  -- A block that balloc takes for an address of the inode fills that slot.
  pub addr-Grows : Grows ip fs k a (set_addr k a ip) fs'
  addr-Grows = record {
    range = t.inside;
    nonzero = addr_nonzero;
    was_free = t.was_free;
    same_sb = t.same_sb;
    fields = refl;
    valid = t.valid;
    marks = t.marks;
    slots = addr_slots;
    others = λ c ne meta ne2. t.others c ne meta;
    zeroed = t.zeroed;
  }

module _ {ip : Inode} {fs : Fs} (i a : ℕ) (fs' : Fs) (f : IsFile ip fs) (h : i < 128)
    (nz : ip.addrs 12 ≢ 0) (empty : slot ip fs (i + 13) ≡ 0) (t : Takes fs a fs') where
  abbrev new : Block
  new = store32 (fs'.blocks (ip.addrs 12)) (4 * i) a

  size' : fs'.sb.size ≡ fs.sb.size
  size' = ap (λ x. x.size) t.same_sb

  abbrev pub stored : Fs
  stored = log_write (ip.addrs 12) (store32 (fs'.blocks (ip.addrs 12)) (4 * i) a) fs'

  fresh_nonzero : a ≢ 0
  fresh_nonzero z = f.bitmap.boot (sym (ap (used fs) z) ∙ t.was_free)

  stored_other : (c : ℕ) → c ≢ ip.addrs 12 → stored.blocks c ≡ fs'.blocks c
  stored_other c ne = let n : (c == ip.addrs 12) ≡ false = ground arith in rw n refl

  apart : (e : ℕ) → e < fs'.sb.size → bblock e fs'.sb ≢ ip.addrs 12
  unfolding slot
  apart e he =
      let z : fs'.sb.size ≡ fs.sb.size = ap (λ x. x.size) t.same_sb in
      let s : bblock e fs'.sb ≡ bblock e fs.sb = ap (bblock e) t.same_sb in
      λ q. f.not_map 12 e (omega arith) nz (omega arith) (sym s ∙ q)

  self : (ip.addrs 12 == ip.addrs 12) ≡ true
  self = ground arith

  zero_test : (ip.addrs 12 == 0) ≡ false
  zero_test = ground arith

  entry-stored :
      (j : ℕ)
      → j < 128
      → entry (ip.addrs 12) stored j ≡ (if j == i then a else entry (ip.addrs 12) fs j)
  entry-stored j hj = elim (Bool-cases (j == i)) [
    | inl same ↦
        let e : j ≡ i = ground arith in
        rw (zero_test, self, same, e)
          (load32-store32 (fs'.blocks (ip.addrs 12)) (4 * i) a (omega arith) (a_small f t))
    | inr other ↦
        rw (zero_test, self, other)
          (load32-store32_ne (fs'.blocks (ip.addrs 12)) (4 * i) (4 * j) a (omega arith)
              (omega arith) (ground arith)
            ∙ ap (λ (d : Block). load32 d (4 * j)) (indirect_kept f t nz))
  ]

  entry_slots : (j : ℕ) → j < nslots → slot ip stored j ≡ (if j == i + 13 then a else slot ip fs j)
  unfolding slot
  entry_slots j hj = elim (Bool-cases (ltb j 13)) [
    | inl direct ↦ let ne : (j == i + 13) ≡ false = ground arith in rw (direct, ne) refl
    | inr indirect ↦
        let same : (j - 13 == i) ≡ (j == i + 13) = ground arith in
        rw indirect (entry-stored (j - 13) (ground arith) ∙ rw same refl)
  ]

  -- A block that balloc takes for an entry of the indirect block fills that slot.
  pub entry-Grows : Grows ip fs (i + 13) a ip stored
  unfolding slot
  entry-Grows = record {
    range = t.inside;
    nonzero = fresh_nonzero;
    was_free = t.was_free;
    same_sb = t.same_sb;
    fields = refl;
    valid = log_write-IsBitmap fs' (ip.addrs 12) new apart t.valid;
    marks = λ c hc.
        log_write-used fs' (ip.addrs 12) new apart c (let z = size' in omega (arith, z, hc))
        ∙ t.marks c hc;
    slots = entry_slots;
    others = λ c ne meta ne2. stored_other c ne2 ∙ t.others c ne meta;
    zeroed = λ x.
        ap (λ (d : Block). d x)
          (stored_other a (λ e. f.in_use 12 (omega arith) nz (ap (used fs) (sym e) ∙ t.was_free)))
        ∙ t.zeroed x;
  }
