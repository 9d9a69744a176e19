-- ===== src/Fs/Inode/Truncate.antt =====
-- itrunc of fs.c: it gives back every block of a file, and no other.
use operating_system.Common.{
  ℕ, zero, suc, ◌+◌, ◌*◌, ◌-◌, ◌≤◌, ◌<◌, ◌≡◌, ◌≢◌, inl, inr, refl, sym, ap, subst, ◌∙◌, arith, true,
  false, ltb, ◌==◌, if◌then◌else◌, Bool-cases, ok,
}
use operating_system.Memory.{load32}
use operating_system.Fs.{Block, Fs, bblock, bfree}
use operating_system.Fs.Bitmap.{used, IsBitmap}
use operating_system.Fs.Free.{bfree-Gives}
use operating_system.Fs.Inode.{Inode, set_addr, trunc_direct, trunc_entries, trunc_indirect}
use operating_system.Fs.Inode.Slots.{nslots, slot, slot-twelve, IsFile}

-- the order in which the slots are emptied: the indirect block comes last
abbrev pub turn : ℕ → ℕ
turn i = if ltb i 12 then i else if ltb i 140 then i + 1 else 12

fresh_turn : (i m : ℕ) → i < m → m < 141 → turn i ≢ turn m
fresh_turn i m h k e = ground arith

-- The first `m` slots were given back.
pub record Cuts (ip : Inode) (fs : Fs) (m : ℕ) (fs' : Fs) : Type 0 where
  pub same_sb : fs'.sb ≡ fs.sb
  pub valid : IsBitmap fs'
  pub freed : (i : ℕ) → i < m → slot ip fs (turn i) ≢ 0 → used fs' (slot ip fs (turn i)) ≡ 0
  pub kept :
      (c : ℕ)
      → c < fs.sb.size
      → ((i : ℕ) → i < m → slot ip fs (turn i) ≢ c)
      → used fs' c ≡ used fs c
  pub others :
      (c : ℕ) → ((e : ℕ) → e < fs.sb.size → bblock e fs.sb ≢ c) → fs'.blocks c ≡ fs.blocks c

module _ {ip : Inode} {fs : Fs} (f : IsFile ip fs) where
  pub none-Cuts : Cuts ip fs 0 fs
  none-Cuts = record {
    same_sb = refl;
    valid = f.bitmap;
    freed = λ i h. absurd (omega arith);
    kept = λ c h no. refl;
    others = λ c h. refl;
  }

  -- an empty slot
  skip-Cuts :
      (m : ℕ) (fs' : Fs) → slot ip fs (turn m) ≡ 0 → Cuts ip fs m fs' → Cuts ip fs (suc m) fs'
  skip-Cuts m fs' z c = record {
    same_sb = c.same_sb;
    valid = c.valid;
    freed = λ i h nz. elim (Bool-cases (i == m)) [
      | inl last ↦ let e : i ≡ m = ground arith in absurd (nz (ap (λ k. slot ip fs (turn k)) e ∙ z))
      | inr before ↦ c.freed i (ground arith) nz
    ];
    kept = λ b h no. c.kept b h (λ i hi. no i (omega arith));
    others = c.others;
  }

  -- a slot with a block
  cut-Cuts :
      (m : ℕ) (fs' : Fs)
      → m < nslots
      → slot ip fs (turn m) ≢ 0
      → Cuts ip fs m fs'
      → (fs'' : Fs) × (bfree (slot ip fs (turn m)) fs' ≡ ok fs'') × Cuts ip fs (suc m) fs''
  cut-Cuts m fs' h nz c =
      let b = slot ip fs (turn m) in
      let k : turn m < nslots = ground arith in
      let size' : fs'.sb.size ≡ fs.sb.size = ap (λ x. x.size) c.same_sb in
      let fresh : (i : ℕ) → i < m → slot ip fs (turn i) ≢ b = λ i hi e.
        fresh_turn i m hi h
          (f.distinct (turn i) (turn m) (ground arith) k (λ z. nz (sym e ∙ z)) e) in
      let mine : used fs' b ≢ 0 =
        λ z. f.in_use (turn m) k nz (sym (c.kept b (f.in_range (turn m) k nz) fresh) ∙ z) in
      let in_old : b < fs'.sb.size = let r = f.in_range (turn m) k nz in omega (arith, r, size') in
      let (fs'', e, g) =
        bfree-Gives b fs' c.valid in_old nz
          (λ e he q.
            f.not_map (turn m) e k nz (omega (arith, he, size'))
              (sym (ap (bblock e) c.same_sb) ∙ q))
          mine in
      (
        fs'',
        e,
        record {
          same_sb = g.same_sb ∙ c.same_sb;
          valid = g.valid;
          freed = λ i hi n. elim (Bool-cases (i == m)) [
            | inl last ↦
                let e : i ≡ m = ground arith in
                subst (λ j. used fs'' (slot ip fs (turn j)) ≡ 0) (sym e)
                  (g.marks b in_old ∙ ground arith)
            | inr before ↦
                let old = c.freed i (ground arith) n in
                g.marks (slot ip fs (turn i))
                  (let r = f.in_range (turn i) (ground arith) n in omega (arith, r, size'))
                ∙ ground (arith, old)
          ];
          kept = λ d hd no.
              let ne = no m (omega arith) in
              let t : (d == b) ≡ false = ground arith in
              g.marks d (omega (arith, hd, size'))
              ∙ (rw t (c.kept d hd (λ i hi. no i (omega arith))));
          others = λ d hd.
              g.others d
                (λ e he q. hd e (omega (arith, he, size')) (sym (ap (bblock e) c.same_sb) ∙ q))
              ∙ c.others d hd;
        },
      )

-- the inode with its first `i` addresses cleared
abbrev pub cut : ℕ → Inode → Inode
cut i ip = record ip { addrs = λ j. if ltb j i then 0 else ip.addrs j }

cut-next : (ip : Inode) (i : ℕ) → set_addr i 0 (cut i ip) ≡ cut (i + 1) ip
cut-next ip i = λ t. record ip { addrs = λ j. same j t }
  where
    same :
        (j : ℕ)
        → (if j == i then 0 else if ltb j i then 0 else ip.addrs j)
          ≡ (if ltb j (i + 1) then 0 else ip.addrs j)
    same j = ground arith

cut-skip : (ip : Inode) (i : ℕ) → ip.addrs i ≡ 0 → cut i ip ≡ cut (i + 1) ip
cut-skip ip i z = λ t. record ip { addrs = λ j. same j t }
  where
    same : (j : ℕ) → (if ltb j i then 0 else ip.addrs j) ≡ (if ltb j (i + 1) then 0 else ip.addrs j)
    same j = elim (Bool-cases (j == i)) [
      | inl here ↦ let e : j ≡ i = ground arith in rw e (ground (arith, z))
      | inr there ↦ ground arith
    ]

slot-direct : (ip : Inode) (fs : Fs) (i : ℕ) → i < 12 → slot ip fs (turn i) ≡ ip.addrs i
unfolding slot
slot-direct ip fs i h =
    let a : ltb i 12 ≡ true = ground arith in
    let b : ltb i 13 ≡ true = ground arith in rw (a, b) refl

pub trunc_direct-Cuts :
    {ip : Inode} {fs : Fs} (n i : ℕ) (fs' : Fs)
    → IsFile ip fs
    → i + n ≡ 12
    → Cuts ip fs i fs'
    → (fs'' : Fs) × (trunc_direct n i (cut i ip) fs' ≡ ok (cut 12 ip, fs'')) × Cuts ip fs 12 fs''
unfolding trunc_direct
trunc_direct-Cuts {ip} {fs} zero i fs' f e c =
    let all : i ≡ 12 = omega arith in (fs', rw all refl, subst (λ k. Cuts ip fs k fs') all c)
trunc_direct-Cuts {ip} {fs} (suc n) i fs' f e c =
    let here : slot ip fs (turn i) ≡ ip.addrs i = slot-direct ip fs i (omega arith) in
    let same : (if ltb i i then 0 else ip.addrs i) ≡ ip.addrs i = ground arith in
    let next : suc i ≡ i + 1 = omega arith in
    elim (Bool-cases (ip.addrs i == 0)) [
      | inl none_here ↦
          let z : ip.addrs i ≡ 0 = ground arith in
          let (fs'', q, c') =
            trunc_direct-Cuts n (i + 1) fs' f (omega arith)
              (subst (λ k. Cuts ip fs k fs') next (skip-Cuts f i fs' (here ∙ z) c)) in
          (
            fs'',
            rw (trunc_direct, same, none_here)
                (ap (λ y. trunc_direct n (i + 1) y fs') (cut-skip ip i z) ∙ q),
            c',
          )
      | inr some_here ↦
          let nz : slot ip fs (turn i) ≢ 0 = λ z. let y = sym here ∙ z in ground arith in
          let (fs1, b, c1) = cut-Cuts f i fs' (omega arith) nz c in
          let b' : bfree (ip.addrs i) fs' ≡ ok fs1 = ap (λ k. bfree k fs') (sym here) ∙ b in
          let (fs'', q, c') =
            trunc_direct-Cuts n (i + 1) fs1 f (omega arith)
              (subst (λ k. Cuts ip fs k fs1) next c1) in
          (
            fs'',
            rw (trunc_direct, same, some_here, same, b')
                (ap (λ y. trunc_direct n (i + 1) y fs1) (cut-next ip i) ∙ q),
            c',
          )
    ]

slot-entry :
    (ip : Inode) (fs : Fs) (j : ℕ)
    → j < 128
    → ip.addrs 12 ≢ 0
    → slot ip fs (turn (12 + j)) ≡ load32 (fs.blocks (ip.addrs 12)) (4 * j)
unfolding slot
slot-entry ip fs j h nz =
    let a : ltb (12 + j) 12 ≡ false = ground arith in
    let b : ltb (12 + j) 140 ≡ true = ground arith in
    let c : ltb (12 + j + 1) 13 ≡ false = ground arith in
    let e : 12 + j + 1 - 13 ≡ j = omega arith in
    let t : (ip.addrs 12 == 0) ≡ false = ground arith in rw (a, b, c, e, t) refl

slot-none : (ip : Inode) (fs : Fs) (i : ℕ) → 12 ≤ i → ip.addrs 12 ≡ 0 → slot ip fs (turn i) ≡ 0
unfolding slot
slot-none ip fs i h z =
    let a : ltb i 12 ≡ false = ground arith in
    elim (Bool-cases (ltb i 140)) [
      | inl entry ↦ let c : ltb (i + 1) 13 ≡ false = ground arith in rw (a, entry, c, z) refl
      | inr last ↦ rw (a, last) z
    ]

trunc_entries-Cuts :
    {ip : Inode} {fs : Fs} (n j : ℕ) (fs' : Fs)
    → IsFile ip fs
    → ip.addrs 12 ≢ 0
    → j + n ≡ 128
    → Cuts ip fs (12 + j) fs'
    → (fs'' : Fs) × (trunc_entries n j (ip.addrs 12) fs' ≡ ok fs'') × Cuts ip fs 140 fs''
unfolding trunc_entries
trunc_entries-Cuts {ip} {fs} zero j fs' f nz e c =
    let all : 12 + j ≡ 140 = omega arith in (fs', refl, subst (λ k. Cuts ip fs k fs') all c)
trunc_entries-Cuts {ip} {fs} (suc n) j fs' f nz e c =
    let kept : fs'.blocks (ip.addrs 12) ≡ fs.blocks (ip.addrs 12) =
      c.others (ip.addrs 12) (λ b hb q.
        f.not_map 12 b (omega arith) (λ z. nz (sym (slot-twelve ip fs) ∙ z)) hb
          (q ∙ sym (slot-twelve ip fs))) in
    let here : slot ip fs (turn (12 + j)) ≡ load32 (fs'.blocks (ip.addrs 12)) (4 * j) =
      slot-entry ip fs j (omega arith) nz ∙ ap (λ (d : Block). load32 d (4 * j)) (sym kept) in
    let next : suc (12 + j) ≡ 12 + (j + 1) = omega arith in
    elim (Bool-cases (load32 (fs'.blocks (ip.addrs 12)) (4 * j) == 0)) [
      | inl none_here ↦
          let z : load32 (fs'.blocks (ip.addrs 12)) (4 * j) ≡ 0 = ground arith in
          let (fs'', q, c') =
            trunc_entries-Cuts n (j + 1) fs' f nz (omega arith)
              (subst (λ k. Cuts ip fs k fs') next (skip-Cuts f (12 + j) fs' (here ∙ z) c)) in
          (fs'', rw (trunc_entries, none_here) q, c')
      | inr some_here ↦
          let n0 : slot ip fs (turn (12 + j)) ≢ 0 = λ z. let y = sym here ∙ z in ground arith in
          let (fs1, b, c1) = cut-Cuts f (12 + j) fs' (omega arith) n0 c in
          let b' : bfree (load32 (fs'.blocks (ip.addrs 12)) (4 * j)) fs' ≡ ok fs1 =
            ap (λ k. bfree k fs') (sym here) ∙ b in
          let (fs'', q, c') =
            trunc_entries-Cuts n (j + 1) fs1 f nz (omega arith)
              (subst (λ k. Cuts ip fs k fs1) next c1) in
          (fs'', rw (trunc_entries, some_here, b') q, c')
    ]

-- without an indirect block the slots after the direct ones are empty
empty-Cuts :
    {ip : Inode} {fs : Fs} (n i : ℕ) (fs' : Fs)
    → IsFile ip fs
    → ip.addrs 12 ≡ 0
    → 12 ≤ i
    → i + n ≡ 141
    → Cuts ip fs i fs'
    → Cuts ip fs 141 fs'
empty-Cuts {ip} {fs} zero i fs' f z lo e c = subst (λ k. Cuts ip fs k fs') (omega arith) c
empty-Cuts {ip} {fs} (suc n) i fs' f z lo e c =
    empty-Cuts n (suc i) fs' f z (omega arith) (omega arith)
      (skip-Cuts f i fs' (slot-none ip fs i lo z) c)

pub trunc_indirect-Cuts :
    {ip : Inode} {fs : Fs} (fs' : Fs)
    → IsFile ip fs
    → Cuts ip fs 12 fs'
    → (fs'' : Fs) × (trunc_indirect (cut 12 ip) fs' ≡ ok (cut 13 ip, fs'')) × Cuts ip fs 141 fs''
unfolding trunc_indirect
trunc_indirect-Cuts {ip} {fs} fs' f c = elim (Bool-cases (ip.addrs 12 == 0)) [
  | inl none_here ↦
      let z : ip.addrs 12 ≡ 0 = ground arith in
      (
        fs',
        rw (trunc_indirect, none_here) (ap (λ y. ok (y, fs')) (cut-skip ip 12 z)),
        empty-Cuts 129 12 fs' f z (omega arith) refl c,
      )
  | inr some_here ↦
      let nz : ip.addrs 12 ≢ 0 = λ z. ground arith in
      let (fs1, q, c1) = trunc_entries-Cuts 128 0 fs' f nz refl c in
      let here = slot-twelve ip fs in
      let (fs2, b, c2) = cut-Cuts f 140 fs1 (omega arith) (λ z. nz (sym here ∙ z)) c1 in
      let b' : bfree (ip.addrs 12) fs1 ≡ ok fs2 = ap (λ k. bfree k fs1) (sym here) ∙ b in
      (fs2, rw (trunc_indirect, some_here, q, b') (ap (λ y. ok (y, fs2)) (cut-next ip 12)), c2)
]
