-- ===== src/Fs/Inode/Content.antt =====
-- The loop of writei of fs.c on the bytes of a file.
use operating_system.Common.{
  ℕ, zero, suc, ◌+◌, ◌/◌, ◌%◌, ◌-◌, ◌≤◌, ◌<◌, ◌≡◌, ◌≢◌, inl, inr, refl, sym, ap, subst, ◌∙◌, arith,
  ◌&&◌, true, false, ltb, leb, ◌==◌, if◌then◌else◌, Bool-cases, Result, ok, panic, ◌>>=◌,
}
use operating_system.Fs.{Block, Fs, log_write}
use operating_system.Fs.Inode.{Inode, bmap, chunk, copy_in, write_loop}
use operating_system.Fs.Inode.Slots.{nslots, slot, IsFile}
use operating_system.Fs.Inode.Map.{
  data_slot, nbytes, view, Maps, BmapSpec, maps, no_room, bmap-BmapSpec,
}
use operating_system.Fs.Inode.Change.{here_nz, slots_same, changed-IsFile, view-changed}

-- What writei does to `n` bytes of the file from `off` on, with `src` from `tot` on.
pub record Written (ip : Inode) (fs : Fs) (src : ℕ → ℕ) (tot n off : ℕ) (ip' : Inode) (fs' : Fs)
    : Type 0 where
  pub file : IsFile ip' fs'
  pub same_sb : fs'.sb ≡ fs.sb
  pub fields : ip' ≡ record ip { addrs = ip'.addrs }
  pub content :
      (x : ℕ)
      → x < nbytes
      → view ip' fs' x
        ≡ (if leb off x && ltb x (off + n) then src (tot + (x - off)) else view ip fs x)
  pub kept : (j : ℕ) → j < nslots → slot ip fs j ≢ 0 → slot ip' fs' j ≡ slot ip fs j
  pub mapped : (x : ℕ) → off ≤ x → x < off + n → slot ip' fs' (data_slot (x / 512)) ≢ 0

pub data WriteSpec (ip : Inode) (fs : Fs) (src : ℕ → ℕ) (tot n off : ℕ)
    : Result (ℕ × Inode × Fs) → Type 0 where
  wrote :
      (ip' : Inode) (fs' : Fs)
      → Written ip fs src tot n off ip' fs'
      → WriteSpec ip fs src tot n off (ok (off + n, ip', fs'))
  no_block :
      (x : ℕ)
      → off ≤ x
      → x < off + n
      → slot ip fs (data_slot (x / 512)) ≡ 0
      → WriteSpec ip fs src tot n off (panic "balloc: out of blocks")

pub view-here :
    (ip : Inode) (fs : Fs) (x a : ℕ)
    → slot ip fs (data_slot (x / 512)) ≡ a
    → a ≢ 0
    → view ip fs x ≡ fs.blocks a (x % 512)
unfolding view
view-here ip fs x a e nz = let t : (a == 0) ≡ false = ground arith in rw (e, t) refl

-- a chunk inside a block, as a change of the block and as one of the file
copy_in-view :
    (d : Block) (src : ℕ → ℕ) (tot m off x old : ℕ)
    → m ≤ 512 - off % 512
    → (x / 512 ≡ off / 512 → old ≡ d (x % 512))
    → (if x / 512 == off / 512 then copy_in d (off % 512) src tot m (x % 512) else old)
      ≡ (if leb off x && ltb x (off + m) then src (tot + (x - off)) else old)
copy_in-view d src tot m off x old hm same = elim (Bool-cases (x / 512 == off / 512)) [
  | inl here ↦
      let e : x / 512 ≡ off / 512 = ground arith in
      let lo : ltb (x % 512) (off % 512) ≡ ltb x off = ground arith in
      let hi : ltb (x % 512) (off % 512 + m) ≡ ltb x (off + m) = ground arith in
      elim (Bool-cases (ltb x off)) [
        | inl before ↦
            let b : leb off x ≡ false = ground arith in rw (here, lo, before, b) (sym (same e))
        | inr from ↦
            let b : leb off x ≡ true = ground arith in
            let at : x % 512 - off % 512 ≡ x - off = ground arith in
            rw (here, lo, from, b, hi, at, same e) refl
      ]
  | inr away ↦
      let outside : (leb off x && ltb x (off + m)) ≡ false = ground arith in rw (away, outside) refl
]

-- one round
round-Written :
    {ip : Inode} {fs : Fs} (src : ℕ → ℕ) (tot m off a : ℕ) {ip' : Inode} {fs' : Fs}
    → Maps ip fs (data_slot (off / 512)) a ip' fs'
    → m ≤ 512 - off % 512
    → off + m ≤ nbytes
    → 0 < m
    → Written ip fs src tot m off ip'
        (log_write a (copy_in (fs'.blocks a) (off % 512) src tot m) fs')
round-Written {ip} {fs} src tot m off a {ip'} {fs'} p hm room pos_m = record {
  file =
      changed-IsFile p.file (off / 512) a (omega arith) p.here p.nonzero
        (copy_in (fs'.blocks a) (off % 512) src tot m);
  same_sb = p.same_sb;
  fields = p.fields;
  content = λ x h.
      view-changed p.file (off / 512) a (omega arith) p.here p.nonzero
        (copy_in (fs'.blocks a) (off % 512) src tot m) x h
      ∙ (rw (p.content x h) (
          copy_in-view (fs'.blocks a) src tot m off x (view ip fs x) hm (λ e.
            sym (p.content x h)
            ∙ view-here ip' fs' x a (ap (λ i. slot ip' fs' (data_slot i)) e ∙ p.here) p.nonzero)));
  kept = λ j hj nz.
      slots_same p.file (off / 512) a (omega arith) p.here p.nonzero
        (copy_in (fs'.blocks a) (off % 512) src tot m) j
      ∙ p.kept j hj nz;
  mapped = λ x lo hi.
      let same : x / 512 ≡ off / 512 = omega arith in
      let new = copy_in (fs'.blocks a) (off % 512) src tot m in
      rw same (λ z. here_nz p.file (off / 512) a (omega arith) p.here p.nonzero new (
        sym (
          slots_same p.file (off / 512) a (omega arith) p.here p.nonzero new
            (data_slot (off / 512)))
        ∙ z));
}

-- a round, and the rest of the loop
then-Written :
    {ip : Inode} {fs : Fs} {src : ℕ → ℕ} {tot m n off : ℕ} {ip1 : Inode} {fs1 : Fs} {ip2 : Inode}
    {fs2 : Fs}
    → off + m ≤ nbytes
    → Written ip fs src tot m off ip1 fs1
    → Written ip1 fs1 src (tot + m) n (off + m) ip2 fs2
    → Written ip fs src tot (m + n) off ip2 fs2
then-Written {ip} {fs} {src} {tot} {m} {n} {off} {ip1} {fs1} {ip2} {fs2} room p q = record {
  file = q.file;
  same_sb = q.same_sb ∙ p.same_sb;
  fields = q.fields ∙ ap (λ (y : Inode). record y { addrs = ip2.addrs }) p.fields;
  content = λ x h. q.content x h ∙ (rw (p.content x h) (ranges x));
  kept = λ j hj nz. q.kept j hj (λ z. nz (sym (p.kept j hj nz) ∙ z)) ∙ p.kept j hj nz;
  mapped = λ x lo hi. elim (Bool-cases (ltb x (off + m))) [
    | inl low ↦
        let m' = p.mapped x lo (ground arith) in
        λ z. m' (sym (q.kept (data_slot (x / 512)) (ground arith) m') ∙ z)
    | inr high ↦ q.mapped x (ground arith) (omega arith)
  ];
}
  where
    ranges :
        (x : ℕ)
        → (if leb (off + m) x && ltb x (off + m + n)
            then src (tot + m + (x - (off + m)))
            else if leb off x && ltb x (off + m)
            then src (tot + (x - off))
            else view ip fs x)
          ≡ (if leb off x && ltb x (off + (m + n)) then src (tot + (x - off)) else view ip fs x)
    ranges x = elim (Bool-cases (ltb x (off + m))) [
      | inl low ↦
          let n1 : leb (off + m) x ≡ false = ground arith in
          let n2 : ltb x (off + (m + n)) ≡ true = ground arith in rw (n1, low, n2) refl
      | inr high ↦
          let y1 : leb (off + m) x ≡ true = ground arith in
          let y2 : leb off x ≡ true = ground arith in
          let assoc : off + m + n ≡ off + (m + n) = omega arith in
          let at : tot + m + (x - (off + m)) ≡ tot + (x - off) = ground arith in
          rw (y1, y2, high, assoc, at) refl
    ]

nothing-WriteSpec :
    {ip : Inode} {fs : Fs} (src : ℕ → ℕ) (tot n off : ℕ)
    → IsFile ip fs
    → n ≡ 0
    → WriteSpec ip fs src tot n off (ok (off, ip, fs))
nothing-WriteSpec {ip} {fs} src tot n off f z =
    let e : off + n ≡ off = omega arith in
    subst (λ k. WriteSpec ip fs src tot n off (ok (k, ip, fs))) e
      (wrote ip fs (record {
        file = f;
        same_sb = refl;
        fields = refl;
        content = λ x h.
            let outside : (leb off x && ltb x (off + n)) ≡ false = ground arith in rw outside refl;
        kept = λ j hj nz. refl;
        mapped = λ x lo hi. absurd (omega arith);
      }))

rest-WriteSpec :
    {ip : Inode} {fs : Fs} {src : ℕ → ℕ} {tot m n k off : ℕ} {ip' : Inode} {fs' : Fs}
    (r : Result (ℕ × Inode × Fs))
    → k ≡ m + n
    → off + k ≤ nbytes
    → Written ip fs src tot m off ip' fs'
    → WriteSpec ip' fs' src (tot + m) n (off + m) r
    → WriteSpec ip fs src tot k off r
rest-WriteSpec {ip} {fs} {src} {tot} {m} {n} {k} {off} (ok r) e fits p (wrote ip'' fs'' q) =
    let at : off + k ≡ off + m + n = omega arith in
    subst (λ i. WriteSpec ip fs src tot k off (ok (i, ip'', fs''))) at
      (wrote ip'' fs'' (rw e (then-Written (omega arith) p q)))
rest-WriteSpec {ip} {fs} {k = k} {off = off} (panic s) e fits p (no_block x lo hi empty) =
    no_block x (omega arith) (omega arith)
      (elim (Bool-cases (slot ip fs (data_slot (x / 512)) == 0)) [
        | inl was ↦ ground arith
        | inr old ↦ sym (p.kept (data_slot (x / 512)) (ground arith) (λ z. ground arith)) ∙ empty
      ])

round-WriteSpec :
    {ip : Inode} {fs : Fs} (src : ℕ → ℕ) (tot m n k off : ℕ) (r : Result (ℕ × Inode × Fs))
    (go : Inode → Fs → Result (ℕ × Inode × Fs))
    → k ≡ m + n
    → m ≤ 512 - off % 512
    → off + k ≤ nbytes
    → 0 < m
    → BmapSpec ip fs (data_slot (off / 512)) r
    → ((ip' : Inode) (fs' : Fs)
        → IsFile ip' fs'
        → WriteSpec ip' fs' src (tot + m) n (off + m) (go ip' fs'))
    → WriteSpec ip fs src tot k off
        (r >>= λ r. go r.1 (log_write r.0 (copy_in (r.2.blocks r.0) (off % 512) src tot m) r.2))
round-WriteSpec src tot m n k off (ok r) go e hm room pos_m (maps a ip' fs' p) later =
    let w = round-Written src tot m off a p hm (omega arith) pos_m in
    let fs'' = log_write a (copy_in (fs'.blocks a) (off % 512) src tot m) fs' in
    rest-WriteSpec (go ip' fs'') e room w (later ip' fs'' w.file)
round-WriteSpec src tot m n k off (panic s) go e hm room pos_m (no_room empty f) later =
    no_block off (omega arith) (omega arith) empty

pub write_loop-WriteSpec :
    (fuel n tot off : ℕ) (src : ℕ → ℕ) (ip : Inode) (fs : Fs)
    → IsFile ip fs
    → n - tot ≤ fuel
    → tot ≤ n
    → off + (n - tot) ≤ nbytes
    → WriteSpec ip fs src tot (n - tot) off (write_loop fuel n tot off src ip fs)
unfolding write_loop
write_loop-WriteSpec zero n tot off src ip fs f enough le room =
    nothing-WriteSpec src tot (n - tot) off f (omega arith)
write_loop-WriteSpec (suc fuel) n tot off src ip fs f enough le room =
    elim (Bool-cases (ltb tot n)) [
      | inl more ↦
          let m = chunk n tot off in
          let hm : m ≤ 512 - off % 512 = ground arith in
          let hn : m ≤ n - tot = ground arith in
          let pos_m : 0 < m = ground arith in
          rw (write_loop, more)
            (round-WriteSpec src tot m (n - (tot + m)) (n - tot) off (bmap ip (off / 512) fs)
              (λ ip' fs'. write_loop fuel n (tot + m) (off + m) src ip' fs') (omega arith) hm room
              pos_m (bmap-BmapSpec ip fs (off / 512) f (ground arith))
              (λ ip' fs' g.
                write_loop-WriteSpec fuel n (tot + m) (off + m) src ip' fs' g (omega arith)
                  (omega arith) (omega arith)))
      | inr done ↦ rw (write_loop, done) (nothing-WriteSpec src tot (n - tot) off f (ground arith))
    ]
