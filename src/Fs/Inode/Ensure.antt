-- ===== src/Fs/Inode/Ensure.antt =====
-- The two tests of bmap of fs.c that fill an empty slot.
use operating_system.Common.{
  ℕ, ◌+◌, ◌*◌, ◌-◌, ◌<◌, ◌≡◌, ◌≢◌, inl, inr, refl, sym, subst, ◌∙◌, arith, true, false, ltb, ◌==◌,
  Bool-cases, Result, ok, panic, ◌>>=◌,
}
use operating_system.Memory.{load32, store32}
use operating_system.Fs.{Fs, log_write, balloc}
use operating_system.Fs.Bitmap.{used, BallocSpec, takes, full, balloc-BallocSpec}
use operating_system.Fs.Inode.{Inode, set_addr, ensure_addr, ensure_entry}
use operating_system.Fs.Inode.Slots.{slot, IsFile, Grows}
use operating_system.Fs.Inode.Grow.{addr-Grows, entry-Grows}

pub data Ensures (ip : Inode) (fs : Fs) (k : ℕ) : Result (ℕ × Inode × Fs) → Type 0 where
  there : slot ip fs k ≢ 0 → Ensures ip fs k (ok (slot ip fs k, ip, fs))
  grown :
      slot ip fs k ≡ 0
      → (a : ℕ) (ip' : Inode) (fs' : Fs) → Grows ip fs k a ip' fs'
      → Ensures ip fs k (ok (a, ip', fs'))
  all_used :
      slot ip fs k ≡ 0
      → ((b : ℕ) → b < fs.sb.size → used fs b ≢ 0)
      → Ensures ip fs k (panic "balloc: out of blocks")

addr-bind :
    (ip : Inode) (fs : Fs) (k : ℕ) (r : Result (ℕ × Fs))
    → IsFile ip fs
    → k < 13
    → slot ip fs k ≡ 0
    → BallocSpec fs r
    → Ensures ip fs k (r >>= λ r. ok (r.0, set_addr k r.0 ip, r.1))
addr-bind ip fs k (ok r) f h empty (takes a fs' t) =
    grown empty a (set_addr k a ip) fs' (addr-Grows k a fs' f h empty t)
addr-bind ip fs k (panic s) f h empty (full all) = all_used empty all

pub ensure_addr-Ensures :
    (ip : Inode) (fs : Fs) (k : ℕ) → IsFile ip fs → k < 13 → Ensures ip fs k (ensure_addr k ip fs)
unfolding ensure_addr slot
ensure_addr-Ensures ip fs k f h =
    let direct : ltb k 13 ≡ true = ground arith in
    elim (Bool-cases (ip.addrs k == 0)) [
      | inl none_yet ↦
          rw (ensure_addr, none_yet)
            (addr-bind ip fs k (balloc fs) f h (rw direct (ground arith))
              (balloc-BallocSpec fs f.bitmap))
      | inr old ↦
          let same : slot ip fs k ≡ ip.addrs k = rw direct refl in
          rw (ensure_addr, old)
            (subst (λ a. Ensures ip fs k (ok (a, ip, fs))) same
              (there (λ z. let no : ip.addrs k ≡ 0 = sym same ∙ z in ground arith)))
    ]

entry-bind :
    (ip : Inode) (fs : Fs) (i : ℕ) (r : Result (ℕ × Fs))
    → IsFile ip fs
    → i < 128
    → ip.addrs 12 ≢ 0
    → slot ip fs (i + 13) ≡ 0
    → BallocSpec fs r
    → Ensures ip fs (i + 13) (
        r >>= λ r.
        ok (r.0, ip, log_write (ip.addrs 12) (store32 (r.1.blocks (ip.addrs 12)) (4 * i) r.0) r.1))
entry-bind ip fs i (ok r) f h nz empty (takes a fs' t) =
    grown empty a ip (log_write (ip.addrs 12) (store32 (fs'.blocks (ip.addrs 12)) (4 * i) a) fs')
      (entry-Grows i a fs' f h nz empty t)
entry-bind ip fs i (panic s) f h nz empty (full all) = all_used empty all

pub ensure_entry-Ensures :
    (ip : Inode) (fs : Fs) (i : ℕ)
    → IsFile ip fs
    → i < 128
    → ip.addrs 12 ≢ 0
    → Ensures ip fs (i + 13) (ensure_entry (ip.addrs 12) i ip fs)
unfolding ensure_entry slot
ensure_entry-Ensures ip fs i f h nz =
    let indirect : ltb (i + 13) 13 ≡ false = ground arith in
    let place : i + 13 - 13 ≡ i = omega arith in
    let test : (ip.addrs 12 == 0) ≡ false = ground arith in
    let same : slot ip fs (i + 13) ≡ load32 (fs.blocks (ip.addrs 12)) (4 * i) =
      rw (indirect, place, test) refl in
    elim (Bool-cases (load32 (fs.blocks (ip.addrs 12)) (4 * i) == 0)) [
      | inl none_yet ↦
          rw (ensure_entry, none_yet)
            (entry-bind ip fs i (balloc fs) f h nz (same ∙ ground arith)
              (balloc-BallocSpec fs f.bitmap))
      | inr old ↦
          rw (ensure_entry, old)
            (subst (λ a. Ensures ip fs (i + 13) (ok (a, ip, fs))) same
              (there (λ z. let no = sym same ∙ z in ground arith)))
    ]
