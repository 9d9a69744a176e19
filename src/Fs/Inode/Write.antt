-- ===== src/Fs/Inode/Write.antt =====
-- writei of fs.c, with the write of the inode's own block.
use operating_system.Common.{
  ℕ, ◌+◌, ◌/◌, ◌%◌, ◌^◌, ◌-◌, ◌≤◌, ◌<◌, ◌≡◌, ◌≢◌, ◌⊎◌, inl, inr, refl, sym, ap, subst, ◌∙◌, arith,
  ◌&&◌, ◌||◌, true, false, ltb, leb, ◌==◌, if◌then◌else◌, Bool-cases, Result, ok, panic, ◌>>=◌,
}
use operating_system.Common.Int.{ℤ, pos, negsuc}
use operating_system.Fs.{Block, Fs, log_write}
use operating_system.Fs.Bitmap.{used}
use operating_system.Fs.Inode.{
  Inode, Devsw, iblock, put_dinode, dinode_at, iupdate, write_loop, grow, writei,
}
use operating_system.Fs.Inode.Slots.{slot, slot-twelve, IsFile}
use operating_system.Fs.Inode.Grow.{log_write-IsBitmap, log_write-used, slot_other}
use operating_system.Fs.Inode.Map.{data_slot, nbytes, view}
use operating_system.Fs.Inode.Content.{Written, WriteSpec, wrote, no_block, write_loop-WriteSpec}

-- The inode's own block is neither content nor bitmap.
module _ {ip : Inode} {fs : Fs} (f : IsFile ip fs) (d : Block) where
  abbrev updated : Fs
  updated = log_write (iblock ip fs) d fs

  slots_kept : (j : ℕ) → slot ip updated j ≡ slot ip fs j
  slots_kept j =
      slot_other ip fs (iblock ip fs) d
        (λ nz q. f.meta_slot 12 (omega arith) (slot-twelve ip fs ∙ q)) j

  used_kept : (e : ℕ) → e < fs.sb.size → used updated e ≡ used fs e
  used_kept = log_write-used fs (iblock ip fs) d f.meta_map

  updated-IsFile : IsFile ip updated
  updated-IsFile = record {
    bitmap = log_write-IsBitmap fs (iblock ip fs) d f.meta_map f.bitmap;
    small = f.small;
    in_range = λ j hj n. rw (slots_kept j) (f.in_range j hj (λ z. n (slots_kept j ∙ z)));
    in_use = λ j hj n z.
        let old : slot ip fs j ≢ 0 = λ y. n (slots_kept j ∙ y) in
        f.in_use j hj old (
          sym (used_kept (slot ip fs j) (f.in_range j hj old))
          ∙ (sym (ap (used updated) (slots_kept j)) ∙ z));
    not_map = λ j e hj n he. rw (slots_kept j) (f.not_map j e hj (λ z. n (slots_kept j ∙ z)) he);
    meta_range = f.meta_range;
    meta_used = λ z. f.meta_used (sym (used_kept (iblock ip fs) f.meta_range) ∙ z);
    meta_map = f.meta_map;
    meta_nonzero = f.meta_nonzero;
    meta_slot = λ j hj. rw (slots_kept j) (f.meta_slot j hj);
    distinct = λ i j hi hj n e.
        f.distinct i j hi hj (λ z. n (slots_kept i ∙ z)) (sym (slots_kept i) ∙ (e ∙ slots_kept j));
  }

  updated-view : (x : ℕ) → x < nbytes → view ip updated x ≡ view ip fs x
  unfolding view
  updated-view x hx =
      let k = data_slot (x / 512) in
      let ne = f.meta_slot k (ground arith) in
      let t : (slot ip fs (data_slot (x / 512)) == iblock ip fs) ≡ false = ground arith in
      rw (slots_kept (data_slot (x / 512)), t) refl

-- The size is not where the content is.
resized-IsFile : {ip : Inode} {fs : Fs} (s : ℕ) → IsFile ip fs → IsFile (record ip { size = s }) fs
unfolding slot
resized-IsFile s f = record {
  bitmap = f.bitmap;
  small = f.small;
  in_range = f.in_range;
  in_use = f.in_use;
  not_map = f.not_map;
  meta_range = f.meta_range;
  meta_used = f.meta_used;
  meta_map = f.meta_map;
  meta_nonzero = f.meta_nonzero;
  meta_slot = f.meta_slot;
  distinct = f.distinct;
}

resized-view : (ip : Inode) (fs : Fs) (s x : ℕ) → view (record ip { size = s }) fs x ≡ view ip fs x
unfolding view slot
resized-view ip fs s x = refl

resized-slot : (ip : Inode) (fs : Fs) (s j : ℕ) → slot (record ip { size = s }) fs j ≡ slot ip fs j
unfolding slot
resized-slot ip fs s j = refl

-- what a successful writei has done
pub record Wrote (ip : Inode) (fs : Fs) (src : ℕ → ℕ) (off n : ℕ) (ip' : Inode) (fs' : Fs)
    : Type 0 where
  pub file : IsFile ip' fs'
  pub same_type : ip'.type ≡ ip.type
  pub size : ip'.size ≡ (if ltb ip.size (off + n) then off + n else ip.size)
  pub content :
      (x : ℕ)
      → x < nbytes
      → view ip' fs' x ≡ (if leb off x && ltb x (off + n) then src (x - off) else view ip fs x)
  pub mapped : (x : ℕ) → off ≤ x → x < off + n → slot ip' fs' (data_slot (x / 512)) ≢ 0

-- the ways in which writei ends on a file
pub data WriteiSpec (ip : Inode) (fs : Fs) (src : ℕ → ℕ) (off n : ℕ)
    : Result (ℤ × Inode × Fs) → Type 0 where
  refused :
      (ip.size < off) ⊎ (nbytes < off + n) → WriteiSpec ip fs src off n (ok (negsuc 0, ip, fs))
  done :
      off ≤ ip.size
      → off + n ≤ nbytes
      → (ip' : Inode) (fs' : Fs) → Wrote ip fs src off n ip' fs'
      → WriteiSpec ip fs src off n (ok (pos n, ip', fs'))
  no_room :
      (x : ℕ)
      → off ≤ x
      → x < off + n
      → slot ip fs (data_slot (x / 512)) ≡ 0
      → WriteiSpec ip fs src off n (panic "balloc: out of blocks")

grow-Wrote :
    {ip : Inode} {fs : Fs} {src : ℕ → ℕ} {off n : ℕ} {ip' : Inode} {fs' : Fs}
    → off ≤ ip.size
    → off + n ≤ nbytes
    → Written ip fs src 0 n off ip' fs'
    → WriteiSpec ip fs src off n (ok (grow n (off + n, ip', fs')))
unfolding iupdate
grow-Wrote {ip} {fs} {src} {off} {n} {ip'} {fs'} lo hi w =
    let size' : ip'.size ≡ ip.size = ap (λ x. x.size) w.fields in
    let from_start : (x : ℕ)
        → x < nbytes
        → view ip' fs' x ≡ (if leb off x && ltb x (off + n) then src (x - off) else view ip fs x) =
      λ x h.
        w.content x h
        ∙ ap (λ i. if leb off x && ltb x (off + n) then src i else view ip fs x) (omega arith) in
    let type' : ip'.type ≡ ip.type = ap (λ x. x.type) w.fields in
    elim (Bool-cases (ltb 0 n && ltb ip'.size (off + n))) [
      | inl grows ↦
          let bigger : IsFile (record ip' { size = off + n }) fs' =
            resized-IsFile (off + n) w.file in
          let d =
            put_dinode (record ip' { size = off + n }) (dinode_at ip'.inum)
              (fs'.blocks (iblock ip' fs')) in
          let test : ltb ip.size (off + n) ≡ true = ground arith in
          rw grows (
            done lo hi (record ip' { size = off + n }) (updated bigger d)
              (record {
                file = updated-IsFile bigger d;
                same_type = type';
                size = rw test refl;
                content = λ x h.
                    updated-view bigger d x h ∙ (resized-view ip' fs' (off + n) x ∙ from_start x h);
                mapped = λ x a b z. w.mapped x a b (
                    sym (
                      slots_kept bigger d (data_slot (x / 512))
                      ∙ resized-slot ip' fs' (off + n) (data_slot (x / 512)))
                    ∙ z);
              }))
      | inr stays ↦
          let test : ltb ip.size (off + n) ≡ false = ground arith in
          rw stays (
            done lo hi ip' fs' (record {
              file = w.file;
              same_type = type';
              size = rw test size';
              content = from_start;
              mapped = w.mapped;
            }))
    ]

grow-WriteiSpec :
    {ip : Inode} {fs : Fs} {src : ℕ → ℕ} {off n : ℕ} (r : Result (ℕ × Inode × Fs))
    → off ≤ ip.size
    → off + n ≤ nbytes
    → WriteSpec ip fs src 0 n off r
    → WriteiSpec ip fs src off n (r >>= λ r. ok (grow n r))
grow-WriteiSpec (ok r) lo hi (wrote ip' fs' w) = grow-Wrote lo hi w
grow-WriteiSpec (panic s) lo hi (no_block x a b e) = no_room x a b e

pub writei-WriteiSpec :
    (devsw : Devsw) (ip : Inode) (src : ℕ → ℕ) (off n : ℕ) (fs : Fs)
    → IsFile ip fs
    → ip.type ≢ 3
    → off < 2 ^ 32
    → n < 2 ^ 32
    → WriteiSpec ip fs src off n (writei devsw ip src off n fs)
unfolding writei
writei-WriteiSpec devsw ip src off n fs f nodev ho hn =
    let t : (ip.type == 3) ≡ false = ground arith in
    elim (Bool-cases (ltb ip.size off || ltb ((off + n) % 2 ^ 32) off)) [
      | inl bad ↦
          rw (writei, t, bad)
            (refused (elim (Bool-cases (ltb ip.size off)) [
              | inl past ↦ inl (ground arith)
              | inr inside ↦ inr (ground arith)
            ]))
      | inr fine ↦ elim (Bool-cases (ltb 71680 ((off + n) % 2 ^ 32))) [
        | inl long ↦ rw (writei, t, fine, long) (refused (inr (ground arith)))
        | inr fits ↦
            rw (writei, t, fine, fits)
              (grow-WriteiSpec (write_loop n n 0 off src ip fs) (ground arith) (ground arith) (
                let all : n - 0 ≡ n = omega arith in
                subst (λ k. WriteSpec ip fs src 0 k off (write_loop n n 0 off src ip fs)) all
                  (write_loop-WriteSpec n n 0 off src ip fs f (omega arith) (omega arith)
                    (ground arith))))
      ]
    ]
