-- ===== src/Fs/Inode/Dinode.antt =====
-- The dinodes of a block in fs.c: iupdate, and what ilock reads.
use operating_system.Common.{
  ℕ, ◌+◌, ◌*◌, ◌^◌, ◌≤◌, ◌<◌, ◌≡◌, ◌≢◌, ◌⊎◌, inl, inr, refl, sym, ap, subst, ◌∙◌, arith, true,
  false, ltb, ◌==◌, if◌then◌else◌, Bool-cases, Result, ok, panic,
}
use operating_system.Memory.{write, store32, load32}
use operating_system.Memory.Fill.{load32-store32}
use operating_system.Fs.{Block, Fs}
use operating_system.Fs.Inode.{
  Inode, store16, load16, iblock, put_dinode, dinode_at, iupdate, get_dinode, ilock,
}
use operating_system.Fs.Inode.Words.{
  store32-out, get_dinode-same, load16-same, load32-same, load16-store16, load16-store16_ne,
  load16-store32_ne, store_addrs-out, load32-store_addrs,
}

-- the fields of an inode in the width that they have on the disk
pub record IsInode (ip : Inode) : Type 0 where
  pub type : ip.type < 2 ^ 16
  pub major : ip.major < 2 ^ 16
  pub minor : ip.minor < 2 ^ 16
  pub nlink : ip.nlink < 2 ^ 16
  pub size : ip.size < 2 ^ 32
  pub addrs : (k : ℕ) → k < 13 → ip.addrs k < 2 ^ 32

-- all that the disk keeps of an inode
pub record Same (ip jp : Inode) : Type 0 where
  pub type : jp.type ≡ ip.type
  pub major : jp.major ≡ ip.major
  pub minor : jp.minor ≡ ip.minor
  pub nlink : jp.nlink ≡ ip.nlink
  pub size : jp.size ≡ ip.size
  pub addrs : (k : ℕ) → k < 13 → jp.addrs k ≡ ip.addrs k

module _ (ip : Inode) (o : ℕ) (d : Block) (room : o + 64 ≤ 512) where
  abbrev shorts : Block
  shorts =
      store16 (store16 (store16 (store16 d o ip.type) (o + 2) ip.major) (o + 4) ip.minor) (o + 6)
        ip.nlink

  abbrev head : Block
  head = store32 shorts (o + 8) ip.size

  -- where the fields before the addresses are
  low : (x : ℕ) → x < o + 12 → put_dinode ip o d x ≡ head x
  unfolding put_dinode
  low x h = store_addrs-out 13 ip.addrs o head x (omega arith) (inl h)

  put_dinode-out : (x : ℕ) → (x < o) ⊎ (o + 64 ≤ x) → put_dinode ip o d x ≡ d x
  unfolding put_dinode write
  put_dinode-out x h =
      store_addrs-out 13 ip.addrs o head x (omega arith) (omega arith)
      ∙ (store32-out _ (o + 8) ip.size x (omega arith) (omega arith) ∙ ground arith)

  load16-low : (a : ℕ) → a + 2 ≤ o + 8 → load16 (put_dinode ip o d) a ≡ load16 shorts a
  load16-low a h =
      load16-same (put_dinode ip o d) head a (omega arith) (λ x lo hi. low x (omega arith))
      ∙ load16-store32_ne shorts (o + 8) a ip.size (omega arith) (omega arith) h

  load32-low : load32 (put_dinode ip o d) (o + 8) ≡ load32 head (o + 8)
  load32-low =
      load32-same (put_dinode ip o d) head (o + 8) (omega arith) (λ x lo hi. low x (omega arith))

  address : IsInode ip → (k : ℕ) → k < 13 → load32 (put_dinode ip o d) (o + 12 + 4 * k) ≡ ip.addrs k
  unfolding put_dinode
  address w k h = load32-store_addrs 13 ip.addrs o head k (omega arith) (λ i hi. w.addrs i hi) h

  load16-next :
      (c : Block) (a b w : ℕ) → a ≤ 512 → b + 2 ≤ a → load16 (store16 c a w) b ≡ load16 c b
  load16-next c a b w ha h = load16-store16_ne c a b w (omega arith) (omega arith) (inr h)

  get-put : IsInode ip → (jp : Inode) → Same ip (get_dinode o (put_dinode ip o d) jp)
  unfolding get_dinode
  get-put w jp = record {
    type =
        load16-low o (omega arith)
        ∙ (load16-next _ (o + 6) o ip.nlink (omega arith) (omega arith)
            ∙ (load16-next _ (o + 4) o ip.minor (omega arith) (omega arith)
                ∙ (load16-next _ (o + 2) o ip.major (omega arith) (omega arith)
                    ∙ load16-store16 d o ip.type (omega arith) w.type)));
    major =
        load16-low (o + 2) (omega arith)
        ∙ (load16-next _ (o + 6) (o + 2) ip.nlink (omega arith) (omega arith)
            ∙ (load16-next _ (o + 4) (o + 2) ip.minor (omega arith) (omega arith)
                ∙ load16-store16 _ (o + 2) ip.major (omega arith) w.major));
    minor =
        load16-low (o + 4) (omega arith)
        ∙ (load16-next _ (o + 6) (o + 4) ip.nlink (omega arith) (omega arith)
            ∙ load16-store16 _ (o + 4) ip.minor (omega arith) w.minor);
    nlink =
        load16-low (o + 6) (omega arith) ∙ load16-store16 _ (o + 6) ip.nlink (omega arith) w.nlink;
    size = load32-low ∙ load32-store32 shorts (o + 8) ip.size (omega arith) w.size;
    addrs = λ k h. let t : ltb k 13 ≡ true = ground arith in rw t (address w k h);
  }

  get_other :
      (o' : ℕ) (jp : Inode)
      → (o' + 64 ≤ o) ⊎ (o + 64 ≤ o')
      → o' + 64 ≤ 512
      → get_dinode o' (put_dinode ip o d) jp ≡ get_dinode o' d jp
  get_other o' jp apart room' =
      get_dinode-same (put_dinode ip o d) d o' jp room' (λ x lo hi. put_dinode-out x (omega arith))

other-inode :
    (ip jp : Inode) (fs : Fs)
    → jp.inum ≢ ip.inum
    → get_dinode (dinode_at jp.inum) ((iupdate ip fs).blocks (iblock jp (iupdate ip fs))) jp
      ≡ get_dinode (dinode_at jp.inum) (fs.blocks (iblock jp fs)) jp
unfolding iupdate
other-inode ip jp fs ne = elim (Bool-cases (iblock jp fs == iblock ip fs)) [
  | inl same ↦
      let e : iblock jp fs ≡ iblock ip fs = ground arith in
      rw (same, e)
        (get_other ip (dinode_at ip.inum) (fs.blocks (iblock ip fs)) (omega arith)
          (dinode_at jp.inum) jp (omega arith) (omega arith))
  | inr other ↦ rw other refl
]

-- the type that iupdate writes
pub iupdate-type :
    (ip : Inode) (fs : Fs)
    → IsInode ip
    → load16 ((iupdate ip fs).blocks (iblock ip fs)) (dinode_at ip.inum) ≡ ip.type
unfolding iupdate get_dinode
iupdate-type ip fs w =
    let self : (iblock ip fs == iblock ip fs) ≡ true = ground arith in
    let s = get-put ip (dinode_at ip.inum) (fs.blocks (iblock ip fs)) (omega arith) w ip in
    rw self (s.type)

same-inode :
    (ip jp : Inode) (fs : Fs)
    → jp.inum ≡ ip.inum
    → get_dinode (dinode_at jp.inum) ((iupdate ip fs).blocks (iblock jp (iupdate ip fs))) jp
      ≡ get_dinode
          (dinode_at ip.inum)
          (put_dinode ip (dinode_at ip.inum) (fs.blocks (iblock ip fs)))
          jp
unfolding iupdate
same-inode ip jp fs e =
    let place : dinode_at jp.inum ≡ dinode_at ip.inum = ap dinode_at e in
    let t : (iblock jp fs == iblock ip fs) ≡ true = ground arith in rw (t, place) refl

-- ilock of an inode that it has to read
ilock-read :
    (jp g : Inode) (fs : Fs)
    → jp.valid ≡ false
    → 1 ≤ jp.ref
    → get_dinode (dinode_at jp.inum) (fs.blocks (iblock jp fs)) jp ≡ g
    → ilock jp fs ≡ (if g.type == 0 then panic "ilock: no type" else ok g)
unfolding ilock
ilock-read jp g fs inv held e =
    let h : ltb jp.ref 1 ≡ false = ground arith in
    ap
      (λ y.
        if ltb jp.ref 1
        then panic "ilock"
        else if jp.valid
        then ok jp
        else if y.type == 0
        then panic "ilock: no type"
        else ok y)
      e
    ∙ (ap
          (λ b.
            if b
            then panic "ilock"
            else if jp.valid
            then ok jp
            else if g.type == 0
            then panic "ilock: no type"
            else ok g)
          h
        ∙ ap (λ b. if b then ok jp else if g.type == 0 then panic "ilock: no type" else ok g) inv)

-- what ilock finds on the disk after iupdate wrote `ip`
pub data LockSpec (ip jp : Inode) (fs : Fs) : Result Inode → Type 0 where
  found :
      jp.inum ≡ ip.inum
      → (jp' : Inode) → Same ip jp'
      → jp'.valid ≡ true
      → LockSpec ip jp fs (ok jp')
  untouched : jp.inum ≢ ip.inum → LockSpec ip jp fs (ilock jp fs)

-- After iupdate of an inode whose fields fit and which has a type, ilock of a referenced entry that
-- was not read yet finds those fields if it has the same number, and for any other number it ends
-- as it would have before.
pub ilock-iupdate :
    (ip jp : Inode) (fs : Fs)
    → IsInode ip
    → ip.type ≢ 0
    → jp.valid ≡ false
    → 1 ≤ jp.ref
    → LockSpec ip jp fs (ilock jp (iupdate ip fs))
ilock-iupdate ip jp fs w nz inv held = elim (Bool-cases (jp.inum == ip.inum)) [
  | inl same ↦
      let e : jp.inum ≡ ip.inum = ground arith in
      let g =
        get_dinode (dinode_at ip.inum)
          (put_dinode ip (dinode_at ip.inum) (fs.blocks (iblock ip fs))) jp in
      let here : Same ip g =
        get-put ip (dinode_at ip.inum) (fs.blocks (iblock ip fs)) (omega arith) w jp in
      let ty = here.type in
      let typed : (g.type == 0) ≡ false = ground (arith, ty) in
      subst (λ r. LockSpec ip jp fs r)
        (sym (ilock-read jp g (iupdate ip fs) inv held (same-inode ip jp fs e) ∙ rw typed refl))
        (found e g here (unfold get_dinode in refl))
  | inr other ↦
      let ne : jp.inum ≢ ip.inum = λ q. ground arith in
      let g = get_dinode (dinode_at jp.inum) (fs.blocks (iblock jp fs)) jp in
      subst (λ r. LockSpec ip jp fs r)
        (ilock-read jp g fs inv held refl
          ∙ sym (ilock-read jp g (iupdate ip fs) inv held (other-inode ip jp fs ne)))
        (untouched ne)
]
