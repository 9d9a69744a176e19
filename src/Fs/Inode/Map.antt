-- ===== src/Fs/Inode/Map.antt =====
-- bmap of fs.c: it gives the block of a file a slot, and leaves what the file contains alone.
use operating_system.Common.{
  ℕ, ◌+◌, ◌/◌, ◌%◌, ◌-◌, ◌<◌, ◌≡◌, ◌≢◌, inl, inr, refl, sym, ap, subst, ◌∙◌, arith, true, false,
  ltb, ◌==◌, if◌then◌else◌, Bool-cases, Result, ok, panic, ◌>>=◌,
}
use operating_system.Fs.{Block, Fs}
use operating_system.Fs.Bitmap.{used}
use operating_system.Fs.Inode.{Inode, ensure_addr, ensure_entry, bmap}
use operating_system.Fs.Inode.Slots.{nslots, slot, slot-twelve, IsFile, Grows, Grows-IsFile}
use operating_system.Fs.Inode.Ensure.{
  Ensures, there, grown, all_used, ensure_addr-Ensures, ensure_entry-Ensures,
}

-- the slot of block `bn` of the content
abbrev pub data_slot : ℕ → ℕ
data_slot bn = if ltb bn 12 then bn else bn + 1

abbrev pub nbytes : ℕ
nbytes = 71680

abbrev pub byte_in : ℕ → Fs → ℕ → ℕ
byte_in b fs i = if b == 0 then 0 else fs.blocks b i

-- byte `x` of the content, 0 in a block that the file has not
unfoldable pub view : Inode → Fs → ℕ → ℕ
view ip fs x = byte_in (slot ip fs (data_slot (x / 512))) fs (x % 512)

-- Slot `k` is block `a`; the content and the slots in use are what they were.
pub record Maps (ip : Inode) (fs : Fs) (k a : ℕ) (ip' : Inode) (fs' : Fs) : Type 0 where
  pub file : IsFile ip' fs'
  pub here : slot ip' fs' k ≡ a
  pub nonzero : a ≢ 0
  pub same_sb : fs'.sb ≡ fs.sb
  pub fields : ip' ≡ record ip { addrs = ip'.addrs }
  pub content : (x : ℕ) → x < nbytes → view ip' fs' x ≡ view ip fs x
  pub kept : (j : ℕ) → j < nslots → slot ip fs j ≢ 0 → slot ip' fs' j ≡ slot ip fs j

-- no two blocks are free
pub Full : Fs → Type 0
Full fs = (b c : ℕ) → b < fs.sb.size → c < fs.sb.size → used fs b ≡ 0 → used fs c ≡ 0 → b ≡ c

-- the ways in which bmap ends on a block number in range
pub data BmapSpec (ip : Inode) (fs : Fs) (k : ℕ) : Result (ℕ × Inode × Fs) → Type 0 where
  maps :
      (a : ℕ) (ip' : Inode) (fs' : Fs)
      → Maps ip fs k a ip' fs'
      → BmapSpec ip fs k (ok (a, ip', fs'))
  no_room : slot ip fs k ≡ 0 → Full fs → BmapSpec ip fs k (panic "balloc: out of blocks")

module _ {ip : Inode} {fs : Fs} {k a : ℕ} {ip' : Inode} {fs' : Fs} (f : IsFile ip fs)
    (hk : k < nslots) (empty : slot ip fs k ≡ 0) (g : Grows ip fs k a ip' fs') where
  -- where the content of an old block is after slot `k` grew
  byte_kept :
      (j i : ℕ) → j < nslots → j ≢ 12 → byte_in (slot ip' fs' j) fs' i ≡ byte_in (slot ip fs j) fs i
  byte_kept j i hj ne = elim (Bool-cases (j == k)) [
    | inl same ↦
        let e : j ≡ k = ground arith in
        let now : slot ip' fs' j ≡ a = g.slots j hj ∙ rw same refl in
        let was : slot ip fs j ≡ 0 = ap (slot ip fs) e ∙ empty in
        let nz : (a == 0) ≡ false = let n = g.nonzero in ground arith in
        rw (now, was, nz) (g.zeroed i)
    | inr other ↦
        let now : slot ip' fs' j ≡ slot ip fs j = g.slots j hj ∙ rw other refl in
        elim (Bool-cases (slot ip fs j == 0)) [
          | inl none_yet ↦ rw (now, none_yet) refl
          | inr old ↦
              let nz : slot ip fs j ≢ 0 = λ z. ground arith in
              rw (now, old)
                (ap (λ (d : Block). d i)
                  (g.others (slot ip fs j) (λ e. f.in_use j hj nz (ap (used fs) e ∙ g.was_free))
                    (λ e he. f.not_map j e hj nz he)
                    (λ e. ne (f.distinct j 12 hj (omega arith) nz (e ∙ sym (slot-twelve ip fs))))))
        ]
  ]

  Grows-Maps : Maps ip fs k a ip' fs'
  unfolding view
  Grows-Maps = record {
    file = Grows-IsFile f empty g;
    here = g.slots k hk ∙ ground arith;
    nonzero = g.nonzero;
    same_sb = g.same_sb;
    fields = g.fields;
    content = λ x h. byte_kept (data_slot (x / 512)) (x % 512) (ground arith) (ground arith);
    kept = λ j hj nz. g.slots j hj ∙ ground (arith, empty, nz);
  }

here-Maps :
    {ip : Inode} {fs : Fs} (k : ℕ)
    → IsFile ip fs
    → slot ip fs k ≢ 0
    → Maps ip fs k (slot ip fs k) ip fs
here-Maps k f nz = record {
  file = f;
  here = refl;
  nonzero = nz;
  same_sb = refl;
  fields = refl;
  content = λ x h. refl;
  kept = λ j hj old. refl;
}

-- After the indirect block is there, its entry is.
Maps-trans :
    {ip : Inode} {fs : Fs} {k a : ℕ} {ip' : Inode} {fs' : Fs} {l b : ℕ} {ip'' : Inode} {fs'' : Fs}
    → Maps ip fs k a ip' fs'
    → Maps ip' fs' l b ip'' fs''
    → Maps ip fs l b ip'' fs''
Maps-trans {ip'' = ip''} p q = record {
  file = q.file;
  here = q.here;
  nonzero = q.nonzero;
  same_sb = q.same_sb ∙ p.same_sb;
  fields = q.fields ∙ ap (λ (y : Inode). record y { addrs = ip''.addrs }) p.fields;
  content = λ x h. q.content x h ∙ p.content x h;
  kept = λ j hj nz. q.kept j hj (λ z. nz (sym (p.kept j hj nz) ∙ z)) ∙ p.kept j hj nz;
}

all-Full : (fs : Fs) → ((b : ℕ) → b < fs.sb.size → used fs b ≢ 0) → Full fs
unfolding Full
all-Full fs all = λ b c hb hc ub uc. absurd (all b hb ub)

Ensures-BmapSpec :
    {ip : Inode} {fs : Fs} {k : ℕ} (r : Result (ℕ × Inode × Fs))
    → IsFile ip fs
    → k < nslots
    → Ensures ip fs k r
    → BmapSpec ip fs k r
Ensures-BmapSpec {ip} {fs} {k} (ok r) f h (there nz) = maps (slot ip fs k) ip fs (here-Maps k f nz)
Ensures-BmapSpec {ip} {fs} {k} (ok r) f h (grown empty a ip' fs' g) =
    maps a ip' fs' (Grows-Maps f h empty g)
Ensures-BmapSpec {ip} {fs} {k} (panic s) f h (all_used empty all) = no_room empty (all-Full _ all)

-- Once the indirect block is there, what bmap gives for its entry.
after-BmapSpec :
    {ip : Inode} {fs : Fs} {l a : ℕ} {ip' : Inode} {fs' : Fs} (r : Result (ℕ × Inode × Fs))
    → l < nslots
    → Maps ip fs 12 a ip' fs'
    → (((b : ℕ) → b < fs'.sb.size → used fs' b ≢ 0) → Full fs)
    → Ensures ip' fs' l r
    → BmapSpec ip fs l r
after-BmapSpec (ok r) h m one (there nz) = maps _ _ _ (Maps-trans m (here-Maps _ m.file nz))
after-BmapSpec (ok r) h m one (grown empty b ip'' fs'' g) =
    maps b ip'' fs'' (Maps-trans m (Grows-Maps m.file h empty g))
after-BmapSpec {ip} {fs} {l} (panic s) h m one (all_used empty all) =
    no_room
      (elim (Bool-cases (slot ip fs l == 0)) [
        | inl was ↦ ground arith
        | inr old ↦ let k = m.kept l h (λ z. ground arith) in sym k ∙ empty
      ])
      (one all)

entry-at :
    (ip : Inode) (fs : Fs) (i b : ℕ)
    → IsFile ip fs
    → i < 128
    → b ≡ slot ip fs 12
    → b ≢ 0
    → Ensures ip fs (i + 13) (ensure_entry b i ip fs)
entry-at ip fs i b f h e nz =
    let e' : b ≡ ip.addrs 12 = e ∙ slot-twelve ip fs in
    subst (λ c. Ensures ip fs (i + 13) (ensure_entry c i ip fs)) (sym e')
      (ensure_entry-Ensures ip fs i f h (λ z. nz (e' ∙ z)))

-- With the one free block taken, two free blocks before were that one.
Grows-Full :
    {ip : Inode} {fs : Fs} {k a : ℕ} {ip' : Inode} {fs' : Fs}
    → Grows ip fs k a ip' fs'
    → ((b : ℕ) → b < fs'.sb.size → used fs' b ≢ 0)
    → Full fs
unfolding Full
Grows-Full {ip} {fs} {k} {a} {ip'} {fs'} g all b c hb hc ub uc = is_a b hb ub ∙ sym (is_a c hc uc)
  where
    size' : fs'.sb.size ≡ fs.sb.size
    size' = ap (λ x. x.size) g.same_sb

    is_a : (d : ℕ) → d < fs.sb.size → used fs d ≡ 0 → d ≡ a
    is_a d hd u = elim (Bool-cases (d == a)) [
      | inl same ↦ ground arith
      | inr other ↦
          absurd (all d (let z = size' in omega (arith, z, hd)) (g.marks d hd ∙ (rw other u)))
    ]

slot-indirect : (ip : Inode) (fs : Fs) (i : ℕ) → slot ip fs 12 ≡ 0 → slot ip fs (i + 13) ≡ 0
unfolding slot
slot-indirect ip fs i z = let far : ltb (i + 13) 13 ≡ false = ground arith in rw (far, z) refl

indirect-BmapSpec :
    {ip : Inode} {fs : Fs} (i : ℕ) (r : Result (ℕ × Inode × Fs))
    → IsFile ip fs
    → i < 128
    → Ensures ip fs 12 r
    → BmapSpec ip fs (i + 13) (r >>= λ r. ensure_entry r.0 i r.1 r.2)
indirect-BmapSpec {ip} {fs} i (ok r) f h (there nz) =
    Ensures-BmapSpec (ensure_entry (slot ip fs 12) i ip fs) f (omega arith)
      (entry-at ip fs i (slot ip fs 12) f h refl nz)
indirect-BmapSpec {ip} {fs} i (ok r) f h (grown empty a ip' fs' g) =
    let m = Grows-Maps f (omega arith) empty g in
    after-BmapSpec (ensure_entry a i ip' fs') (omega arith) m (Grows-Full g)
      (entry-at ip' fs' i a m.file h (sym m.here) m.nonzero)
indirect-BmapSpec {ip} {fs} i (panic s) f h (all_used empty all) =
    no_room (slot-indirect ip fs i empty) (all-Full _ all)

pub bmap-BmapSpec :
    (ip : Inode) (fs : Fs) (bn : ℕ)
    → IsFile ip fs
    → bn < 140
    → BmapSpec ip fs (data_slot bn) (bmap ip bn fs)
unfolding bmap
bmap-BmapSpec ip fs bn f h = elim (Bool-cases (ltb bn 12)) [
  | inl direct ↦
      rw (bmap, direct)
        (Ensures-BmapSpec (ensure_addr bn ip fs) f (ground arith)
          (ensure_addr-Ensures ip fs bn f (ground arith)))
  | inr indirect ↦
      let room : ltb (bn - 12) 128 ≡ true = ground arith in
      let place : bn - 12 + 13 ≡ bn + 1 = ground arith in
      rw (bmap, indirect, room)
        (subst
          (λ k. BmapSpec ip fs k (ensure_addr 12 ip fs >>= λ r. ensure_entry r.0 (bn - 12) r.1 r.2))
          place
          (indirect-BmapSpec (bn - 12) (ensure_addr 12 ip fs) f (ground arith)
            (ensure_addr-Ensures ip fs 12 f (omega arith))))
]
