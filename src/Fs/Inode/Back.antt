-- ===== src/Fs/Inode/Back.antt =====
-- writei and then readi of fs.c at the same offset.
use operating_system.Common.{
  ℕ, ◌+◌, ◌-◌, ◌^◌, ◌≤◌, ◌<◌, ◌≡◌, ◌≢◌, refl, sym, subst, ◌∙◌, arith, ◌&&◌, true, ltb, leb, Result,
  ok, panic,
}
use operating_system.Common.Int.{ℤ, pos}
use operating_system.Fs.{Fs}
use operating_system.Fs.Inode.{Inode, Devsw, readi, writei}
use operating_system.Fs.Inode.Slots.{IsFile}
use operating_system.Fs.Inode.Map.{nbytes}
use operating_system.Fs.Inode.Read.{ReadiSpec, denied, gave, lacks, readi-ReadiSpec}
use operating_system.Fs.Inode.Write.{Wrote, WriteiSpec, refused, done, no_room, writei-WriteiSpec}

-- the bytes of `src` are back
pub data ReadBack (src : ℕ → ℕ) (n : ℕ) : Result (ℤ × Inode × Fs × (ℕ → ℕ)) → Type 0 where
  back :
      (ip : Inode) (fs : Fs) (dst : ℕ → ℕ)
      → ((i : ℕ) → i < n → dst i ≡ src i)
      → ReadBack src n (ok (pos n, ip, fs, dst))

after-ReadBack :
    {ip : Inode} {fs : Fs} {src : ℕ → ℕ} {off n : ℕ} {ip' : Inode} {fs' : Fs} {dst : ℕ → ℕ}
    (r : Result (ℤ × Inode × Fs × (ℕ → ℕ)))
    → off + n ≤ nbytes
    → Wrote ip fs src off n ip' fs'
    → ReadiSpec ip' fs' dst off n r
    → ReadBack src n r
after-ReadBack {ip} {fs} {src} {off} {n} {ip'} {fs'} (ok r) room w (denied why) =
    let s = w.size in absurd (ground (arith, s, why))
after-ReadBack {ip} {fs} {src} {off} {n} {ip'} {fs'} (ok r) room w (gave lo m e ip'' fs'' dst'' h) =
    let all : m ≡ n = let s = w.size in ground (arith, e, s) in
    subst (λ k. ReadBack src n (ok (pos k, ip'', fs'', dst''))) (sym all)
      (back ip'' fs'' dst'' (λ i hi.
        let inside : (leb 0 i && ltb i (0 + m)) ≡ true = ground arith in
        let x = off + (i - 0) in
        let written : (leb off (off + (i - 0)) && ltb (off + (i - 0)) (off + n)) ≡ true =
          ground arith in
        let at : off + (i - 0) - off ≡ i = omega arith in
        h.bytes i ∙ rw inside (w.content (off + (i - 0)) (omega arith) ∙ rw (written, at) refl)))
after-ReadBack (panic s) room w (lacks x lo hi inside empty) = absurd (w.mapped x lo hi empty)

from-ReadBack :
    (devsw : Devsw) {ip : Inode} {fs : Fs} {src : ℕ → ℕ} (dst : ℕ → ℕ) {off n : ℕ}
    (r : Result (ℤ × Inode × Fs)) (ip' : Inode) (fs' : Fs)
    → ip.type ≢ 3
    → ip.size ≤ nbytes
    → off < 2 ^ 32
    → n < 2 ^ 32
    → r ≡ ok (pos n, ip', fs')
    → WriteiSpec ip fs src off n r
    → ReadBack src n (readi devsw ip' dst off n fs')
from-ReadBack devsw dst (ok r) ip' fs' nodev small ho hn e (refused why) = cc
from-ReadBack devsw {ip} {fs} {src} dst {off} {n} (ok r) ip' fs' nodev small ho hn e
      (done lo hi ip1 fs1 w) =
    let w' : Wrote ip fs src off n ip' fs' =
      subst (λ y. Wrote ip fs src off n ip' y) (cc)
        (subst (λ y. Wrote ip fs src off n y fs1) (cc) w) in
    let s = w'.size in
    after-ReadBack (readi devsw ip' dst off n fs') hi w' (
      readi-ReadiSpec devsw ip' dst off n fs' w'.file (λ z. nodev (sym w'.same_type ∙ z))
        (ground (arith, s)) ho hn)
from-ReadBack devsw dst (panic s) ip' fs' nodev small ho hn e (no_room x a b z) = cc

-- After a writei that gives n, on a file that is no device and within 140 blocks, readi of n bytes
-- at the same offset succeeds and gives the bytes that were written.
pub readi-writei :
    (devsw : Devsw) (ip : Inode) (src dst : ℕ → ℕ) (off n : ℕ) (fs : Fs) (ip' : Inode) (fs' : Fs)
    → IsFile ip fs
    → ip.type ≢ 3
    → ip.size ≤ nbytes
    → off < 2 ^ 32
    → n < 2 ^ 32
    → writei devsw ip src off n fs ≡ ok (pos n, ip', fs')
    → ReadBack src n (readi devsw ip' dst off n fs')
readi-writei devsw ip src dst off n fs ip' fs' f nodev small ho hn e =
    from-ReadBack devsw dst (writei devsw ip src off n fs) ip' fs' nodev small ho hn e
      (writei-WriteiSpec devsw ip src off n fs f nodev ho hn)
