-- ===== src/Fs/Inode/Read.antt =====
-- readi of fs.c: it gives the content.
use operating_system.Common.{
  ℕ, zero, suc, ◌+◌, ◌/◌, ◌%◌, ◌^◌, ◌-◌, ◌≤◌, ◌<◌, ◌≡◌, ◌≢◌, ◌⊎◌, inl, inr, refl, sym, ap, subst,
  ◌∙◌, arith, ◌&&◌, ◌||◌, true, false, ltb, leb, ◌==◌, if◌then◌else◌, Bool-cases, Result, ok, panic,
  ◌>>=◌,
}
use operating_system.Common.Int.{ℤ, pos, negsuc}
use operating_system.Fs.{Fs}
use operating_system.Fs.Inode.{Inode, Devsw, bmap, chunk, copy_out, read_loop, readi}
use operating_system.Fs.Inode.Slots.{nslots, slot, IsFile}
use operating_system.Fs.Inode.Map.{
  data_slot, nbytes, view, Maps, BmapSpec, maps, no_room, bmap-BmapSpec,
}
use operating_system.Fs.Inode.Content.{view-here}

-- `n` bytes of the content from `off` on are now at `dst + tot`; the content is what it was.
pub record Has (ip : Inode) (fs : Fs) (dst : ℕ → ℕ) (tot n off : ℕ) (ip' : Inode) (fs' : Fs)
    (dst' : ℕ → ℕ) : Type 0 where
  pub file : IsFile ip' fs'
  pub fields : ip' ≡ record ip { addrs = ip'.addrs }
  pub content : (x : ℕ) → x < nbytes → view ip' fs' x ≡ view ip fs x
  pub kept : (j : ℕ) → j < nslots → slot ip fs j ≢ 0 → slot ip' fs' j ≡ slot ip fs j
  pub bytes :
      (i : ℕ)
      → dst' i ≡ (if leb tot i && ltb i (tot + n) then view ip fs (off + (i - tot)) else dst i)

pub data ReadSpec (ip : Inode) (fs : Fs) (dst : ℕ → ℕ) (tot n off : ℕ)
    : Result (Inode × Fs × (ℕ → ℕ)) → Type 0 where
  has :
      (ip' : Inode) (fs' : Fs) (dst' : ℕ → ℕ)
      → Has ip fs dst tot n off ip' fs' dst'
      → ReadSpec ip fs dst tot n off (ok (ip', fs', dst'))
  no_block :
      (x : ℕ)
      → off ≤ x
      → x < off + n
      → slot ip fs (data_slot (x / 512)) ≡ 0
      → ReadSpec ip fs dst tot n off (panic "balloc: out of blocks")

nothing-ReadSpec :
    {ip : Inode} {fs : Fs} (dst : ℕ → ℕ) (tot n off : ℕ)
    → IsFile ip fs
    → n ≡ 0
    → ReadSpec ip fs dst tot n off (ok (ip, fs, dst))
nothing-ReadSpec {ip} {fs} dst tot n off f z = has ip fs dst (record {
  file = f;
  fields = refl;
  content = λ x h. refl;
  kept = λ j hj nz. refl;
  bytes = λ i. let t : (leb tot i && ltb i (tot + n)) ≡ false = ground arith in rw t refl;
})

-- one round
round-Has :
    {ip : Inode} {fs : Fs} (dst : ℕ → ℕ) (tot m off a : ℕ) {ip' : Inode} {fs' : Fs}
    → Maps ip fs (data_slot (off / 512)) a ip' fs'
    → m ≤ 512 - off % 512
    → off + m ≤ nbytes
    → Has ip fs dst tot m off ip' fs' (copy_out dst tot (fs'.blocks a) (off % 512) m)
round-Has {ip} {fs} dst tot m off a {ip'} {fs'} p hm room = record {
  file = p.file;
  fields = p.fields;
  content = p.content;
  kept = p.kept;
  bytes = λ i. elim (Bool-cases (ltb i tot)) [
    | inl before ↦ let t : leb tot i ≡ false = ground arith in rw (before, t) refl
    | inr from ↦
        let t : leb tot i ≡ true = ground arith in
        elim (Bool-cases (ltb i (tot + m))) [
          | inl inside ↦
              let x = off + (i - tot) in
              let place : (off + (i - tot)) / 512 ≡ off / 512 = ground arith in
              let at : (off + (i - tot)) % 512 ≡ off % 512 + (i - tot) = ground arith in
              let v =
                view-here ip' fs' x a (ap (λ k. slot ip' fs' (data_slot k)) place ∙ p.here)
                  p.nonzero in
              let v' = sym (p.content x (ground arith)) ∙ (v ∙ ap (fs'.blocks a) at) in
              rw (from, t, inside) (sym v')
          | inr after ↦ rw (from, t, after) refl
        ]
  ];
}

then-Has :
    {ip : Inode} {fs : Fs} {dst : ℕ → ℕ} {tot m n off : ℕ} {ip1 : Inode} {fs1 : Fs} {dst1 : ℕ → ℕ}
    {ip2 : Inode} {fs2 : Fs} {dst2 : ℕ → ℕ}
    → off + (m + n) ≤ nbytes
    → Has ip fs dst tot m off ip1 fs1 dst1
    → Has ip1 fs1 dst1 (tot + m) n (off + m) ip2 fs2 dst2
    → Has ip fs dst tot (m + n) off ip2 fs2 dst2
then-Has {ip} {fs} {dst} {tot} {m} {n} {off} {ip1} {fs1} {dst1} {ip2} {fs2} {dst2} room p q =
    record {
      file = q.file;
      fields = q.fields ∙ ap (λ (y : Inode). record y { addrs = ip2.addrs }) p.fields;
      content = λ x h. q.content x h ∙ p.content x h;
      kept = λ j hj nz. q.kept j hj (λ z. nz (sym (p.kept j hj nz) ∙ z)) ∙ p.kept j hj nz;
      bytes = λ i. q.bytes i ∙ elim (Bool-cases (leb (tot + m) i && ltb i (tot + m + n))) [
        | inl late ↦
            let lo : leb tot i ≡ true = ground arith in
            let hi : ltb i (tot + (m + n)) ≡ true = ground arith in
            let at : off + m + (i - (tot + m)) ≡ off + (i - tot) = ground arith in
            rw (late, lo, hi, at) (p.content (off + (i - tot)) (ground arith))
        | inr early ↦
            let same : (leb tot i && ltb i (tot + (m + n))) ≡ (leb tot i && ltb i (tot + m)) =
              ground arith in
            rw (early, same) (p.bytes i)
      ];
    }

round-ReadSpec :
    {ip : Inode} {fs : Fs} (dst : ℕ → ℕ) (tot m n k off : ℕ) (r : Result (ℕ × Inode × Fs))
    (go : Inode → Fs → (ℕ → ℕ) → Result (Inode × Fs × (ℕ → ℕ)))
    → k ≡ m + n
    → m ≤ 512 - off % 512
    → off + k ≤ nbytes
    → 0 < m
    → BmapSpec ip fs (data_slot (off / 512)) r
    → ((ip' : Inode) (fs' : Fs) (dst' : ℕ → ℕ)
        → IsFile ip' fs'
        → ReadSpec ip' fs' dst' (tot + m) n (off + m) (go ip' fs' dst'))
    → ReadSpec ip fs dst tot k off
        (r >>= λ r. go r.1 r.2 (copy_out dst tot (r.2.blocks r.0) (off % 512) m))
round-ReadSpec {ip} {fs} dst tot m n k off (ok r) go e hm room pos_m (maps a ip' fs' p) later =
    let dst' = copy_out dst tot (fs'.blocks a) (off % 512) m in
    rest (go ip' fs' dst') (round-Has dst tot m off a p hm (omega arith))
      (later ip' fs' dst' p.file)
  where
    rest :
        {ip1 : Inode} {fs1 : Fs} {dst1 : ℕ → ℕ} (r : Result (Inode × Fs × (ℕ → ℕ)))
        → Has ip fs dst tot m off ip1 fs1 dst1
        → ReadSpec ip1 fs1 dst1 (tot + m) n (off + m) r
        → ReadSpec ip fs dst tot k off r
    rest (ok r) h (has ip2 fs2 dst2 g) = has ip2 fs2 dst2 (rw e (then-Has (omega arith) h g))
    rest (panic s) h (no_block x lo hi empty) =
        no_block x (omega arith) (omega arith)
          (elim (Bool-cases (slot ip fs (data_slot (x / 512)) == 0)) [
            | inl was ↦ ground arith
            | inr old ↦
                sym (h.kept (data_slot (x / 512)) (ground arith) (λ z. ground arith)) ∙ empty
          ])
round-ReadSpec dst tot m n k off (panic s) go e hm room pos_m (no_room empty f) later =
    no_block off (omega arith) (omega arith) empty

read_loop-ReadSpec :
    (fuel n tot off : ℕ) (ip : Inode) (fs : Fs) (dst : ℕ → ℕ)
    → IsFile ip fs
    → n - tot ≤ fuel
    → tot ≤ n
    → off + (n - tot) ≤ nbytes
    → ReadSpec ip fs dst tot (n - tot) off (read_loop fuel n tot off ip fs dst)
unfolding read_loop
read_loop-ReadSpec zero n tot off ip fs dst f enough le room =
    nothing-ReadSpec dst tot (n - tot) off f (omega arith)
read_loop-ReadSpec (suc fuel) n tot off ip fs dst f enough le room = elim (Bool-cases (ltb tot n)) [
  | inl more ↦
      let m = chunk n tot off in
      let hm : m ≤ 512 - off % 512 = ground arith in
      let hn : m ≤ n - tot = ground arith in
      let pos_m : 0 < m = ground arith in
      rw (read_loop, more)
        (round-ReadSpec dst tot m (n - (tot + m)) (n - tot) off (bmap ip (off / 512) fs)
          (λ ip' fs' dst'. read_loop fuel n (tot + m) (off + m) ip' fs' dst') (omega arith) hm room
          pos_m (bmap-BmapSpec ip fs (off / 512) f (ground arith))
          (λ ip' fs' dst' g.
            read_loop-ReadSpec fuel n (tot + m) (off + m) ip' fs' dst' g (omega arith) (omega arith)
              (omega arith)))
  | inr over ↦ rw (read_loop, over) (nothing-ReadSpec dst tot (n - tot) off f (ground arith))
]

-- the ways in which readi ends on a file
pub data ReadiSpec (ip : Inode) (fs : Fs) (dst : ℕ → ℕ) (off n : ℕ)
    : Result (ℤ × Inode × Fs × (ℕ → ℕ)) → Type 0 where
  denied :
      (ip.size < off) ⊎ (2 ^ 32 ≤ off + n) → ReadiSpec ip fs dst off n (ok (negsuc 0, ip, fs, dst))
  gave :
      off ≤ ip.size
      → (m : ℕ) → m ≡ (if ltb ip.size (off + n) then ip.size - off else n)
      → (ip' : Inode) (fs' : Fs) (dst' : ℕ → ℕ) → Has ip fs dst 0 m off ip' fs' dst'
      → ReadiSpec ip fs dst off n (ok (pos m, ip', fs', dst'))
  lacks :
      (x : ℕ)
      → off ≤ x
      → x < off + n
      → x < ip.size
      → slot ip fs (data_slot (x / 512)) ≡ 0
      → ReadiSpec ip fs dst off n (panic "balloc: out of blocks")

bind-ReadiSpec :
    {ip : Inode} {fs : Fs} {dst : ℕ → ℕ} {off n : ℕ} (m : ℕ) (r : Result (Inode × Fs × (ℕ → ℕ)))
    → off ≤ ip.size
    → m ≡ (if ltb ip.size (off + n) then ip.size - off else n)
    → ReadSpec ip fs dst 0 m off r
    → ReadiSpec ip fs dst off n (r >>= λ r. ok (pos m, r.0, r.1, r.2))
bind-ReadiSpec m (ok r) lo e (has ip' fs' dst' h) = gave lo m e ip' fs' dst' h
bind-ReadiSpec m (panic s) lo e (no_block x a b empty) =
    lacks x a (ground arith) (ground arith) empty

-- On a file that is no device and within 140 blocks, readi ends in one of three ways: it refuses an
-- offset behind the end, or a sum that wraps; it gives the content from the offset on, up to n
-- bytes or to the end of the file, with the content unchanged and no other byte written; or it
-- panics for a byte of the file for which there is no block.
pub readi-ReadiSpec :
    (devsw : Devsw) (ip : Inode) (dst : ℕ → ℕ) (off n : ℕ) (fs : Fs)
    → IsFile ip fs
    → ip.type ≢ 3
    → ip.size ≤ nbytes
    → off < 2 ^ 32
    → n < 2 ^ 32
    → ReadiSpec ip fs dst off n (readi devsw ip dst off n fs)
unfolding readi
readi-ReadiSpec devsw ip dst off n fs f nodev small ho hn =
    let t : (ip.type == 3) ≡ false = ground arith in
    elim (Bool-cases (ltb ip.size off || ltb ((off + n) % 2 ^ 32) off)) [
      | inl bad ↦
          rw (readi, t, bad)
            (denied (elim (Bool-cases (ltb ip.size off)) [
              | inl past ↦ inl (ground arith)
              | inr inside ↦ inr (ground arith)
            ]))
      | inr fine ↦
          let m = if ltb ip.size ((off + n) % 2 ^ 32) then ip.size - off else n in
          let e : m ≡ (if ltb ip.size (off + n) then ip.size - off else n) = ground arith in
          let all : m - 0 ≡ m = omega arith in
          rw (readi, t, fine)
            (bind-ReadiSpec m (read_loop m m 0 off ip fs dst) (ground arith) e (
              subst (λ k. ReadSpec ip fs dst 0 k off (read_loop m m 0 off ip fs dst)) all
                (read_loop-ReadSpec m m 0 off ip fs dst f (omega arith) (omega arith)
                  (ground arith))))
    ]
