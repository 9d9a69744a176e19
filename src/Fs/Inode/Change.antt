-- ===== src/Fs/Inode/Change.antt =====
-- A block of a file of fs.c with new bytes.
use operating_system.Common.{
  ℕ, ◌/◌, ◌%◌, ◌<◌, ◌≡◌, ◌≢◌, inl, inr, refl, sym, ap, ◌∙◌, arith, true, false, ◌==◌, if◌then◌else◌,
  Bool-cases,
}
use operating_system.Fs.{Block, Fs, bblock, log_write}
use operating_system.Fs.Bitmap.{used}
use operating_system.Fs.Inode.{Inode, iblock}
use operating_system.Fs.Inode.Slots.{nslots, slot, slot-twelve, IsFile}
use operating_system.Fs.Inode.Grow.{log_write-IsBitmap, log_write-used, slot_other}
use operating_system.Fs.Inode.Map.{data_slot, nbytes, view}

-- `m` bytes of a block of the file changed.
module _ {ip : Inode} {fs : Fs} (f : IsFile ip fs) (bn a : ℕ) (h : bn < 140)
    (here : slot ip fs (data_slot bn) ≡ a) (nz : a ≢ 0) (d : Block) where
  abbrev changed : Fs
  changed = log_write a d fs

  new_apart : iblock ip fs ≢ a
  new_apart q = f.meta_slot (data_slot bn) (ground arith) (here ∙ sym q)

  pub here_nz : slot ip fs (data_slot bn) ≢ 0
  here_nz z = nz (sym here ∙ z)

  apart : (e : ℕ) → e < fs.sb.size → bblock e fs.sb ≢ a
  apart e he q = f.not_map (data_slot bn) e (ground arith) here_nz he (q ∙ sym here)

  not_indirect : ip.addrs 12 ≢ 0 → ip.addrs 12 ≢ a
  not_indirect n z =
      let e : data_slot bn ≡ 12 =
        f.distinct (data_slot bn) 12 (ground arith) (omega arith) here_nz
          (here ∙ (sym z ∙ sym (slot-twelve ip fs))) in
      ground arith

  pub slots_same : (j : ℕ) → slot ip changed j ≡ slot ip fs j
  slots_same j = slot_other ip fs a d not_indirect j

  pub changed-IsFile : IsFile ip changed
  changed-IsFile = record {
    bitmap = log_write-IsBitmap fs a d apart f.bitmap;
    small = f.small;
    in_range = λ j hj n. rw (slots_same j) (f.in_range j hj (λ z. n (slots_same j ∙ z)));
    in_use = λ j hj n. λ z.
        let old : slot ip fs j ≢ 0 = λ y. n (slots_same j ∙ y) in
        f.in_use j hj old (
          sym (log_write-used fs a d apart (slot ip fs j) (f.in_range j hj old))
          ∙ (sym (ap (used changed) (slots_same j)) ∙ z));
    not_map = λ j e hj n he. rw (slots_same j) (f.not_map j e hj (λ z. n (slots_same j ∙ z)) he);
    meta_range = f.meta_range;
    meta_used =
        λ z. f.meta_used (sym (log_write-used fs a d apart (iblock ip fs) f.meta_range) ∙ z);
    meta_map = f.meta_map;
    meta_nonzero = f.meta_nonzero;
    meta_slot = λ j hj. rw (slots_same j) (f.meta_slot j hj);
    distinct = λ i j hi hj n e.
        f.distinct i j hi hj (λ z. n (slots_same i ∙ z)) (sym (slots_same i) ∙ (e ∙ slots_same j));
  }

  pub view-changed :
      (x : ℕ)
      → x < nbytes
      → view ip changed x ≡ (if x / 512 == bn then d (x % 512) else view ip fs x)
  unfolding view
  view-changed x hx =
      let place : data_slot (x / 512) < nslots = ground arith in
      elim (Bool-cases (x / 512 == bn)) [
        | inl same ↦
            let e : x / 512 ≡ bn = ground arith in
            let now : slot ip changed (data_slot (x / 512)) ≡ a =
              slots_same (data_slot (x / 512)) ∙ (ap (λ i. slot ip fs (data_slot i)) e ∙ here) in
            let t : (a == 0) ≡ false = ground arith in
            let self : (a == a) ≡ true = ground arith in rw (now, same, t, self) refl
        | inr other ↦
            let now = slots_same (data_slot (x / 512)) in
            elim (Bool-cases (slot ip fs (data_slot (x / 512)) == 0)) [
              | inl none_yet ↦ rw (now, other, none_yet) refl
              | inr old ↦
                  let ne : slot ip fs (data_slot (x / 512)) ≢ a = λ q.
                    let e =
                      f.distinct (data_slot (x / 512)) (data_slot bn) place (ground arith)
                        (λ z. ground arith) (q ∙ sym here) in
                    ground arith in
                  let t : (slot ip fs (data_slot (x / 512)) == a) ≡ false = ground arith in
                  rw (now, other, old, t) refl
            ]
      ]
