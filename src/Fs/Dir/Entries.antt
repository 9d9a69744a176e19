-- ===== src/Fs/Dir/Entries.antt =====
-- The entries of a directory of fs.c, and what keeps them.
use operating_system.Common.{
  ℕ, ◌+◌, ◌-◌, ◌≤◌, ◌<◌, ◌≡◌, ◌≢◌, refl, sym, ap, ◌∙◌, arith, ◌&&◌, not, Bool, true, false, ltb,
  ◌==◌,
}
use operating_system.Memory.{ptr_add}
use operating_system.Memory.Strings.{strncmp-same}
use operating_system.Fs.{Fs}
use operating_system.Fs.Inode.{Inode, load16}
use operating_system.Fs.Inode.Slots.{slot, nslots, IsFile}
use operating_system.Fs.Inode.Map.{nbytes, view}
use operating_system.Fs.Dir.{beside, is_nat, namecmp}

-- the bytes of the entry at `off`
abbrev pub entry_at : Inode → Fs → ℕ → ℕ → ℕ
entry_at ip fs off i = view ip fs (off + i)

-- An entry in use has the name.
abbrev pub hits : (name de : ℕ → ℕ) → Bool
hits name de = not (load16 de 0 == 0) && is_nat 0 (namecmp name de)

namecmp-same : (name d e : ℕ → ℕ) → ((i : ℕ) → i < 16 → d i ≡ e i) → namecmp name d ≡ namecmp name e
namecmp-same name d e same =
    strncmp-same 0 4098 14 (beside name d) (beside name e) (omega arith) (omega arith)
      (λ a lo hi. let t : ltb a 4096 ≡ true = ground arith in rw t refl)
      (λ a lo hi. let t : ltb a 4096 ≡ false = ground arith in rw t (same (a - 4096) (omega arith)))

pub load16-first : (d e : ℕ → ℕ) → ((i : ℕ) → i < 16 → d i ≡ e i) → load16 d 0 ≡ load16 e 0
load16-first d e same = rw (same 0 (omega arith), same (ptr_add 0 1) (omega arith)) refl

pub hits-same : (name d e : ℕ → ℕ) → ((i : ℕ) → i < 16 → d i ≡ e i) → hits name d ≡ hits name e
hits-same name d e same = rw (load16-first d e same, namecmp-same name d e same) refl

-- The directory reads as before.
pub record Kept (ip : Inode) (fs : Fs) (ip' : Inode) (fs' : Fs) : Type 0 where
  pub file : IsFile ip' fs'
  pub fields : ip' ≡ record ip { addrs = ip'.addrs }
  pub content : (x : ℕ) → x < nbytes → view ip' fs' x ≡ view ip fs x
  pub slots : (j : ℕ) → j < nslots → slot ip fs j ≢ 0 → slot ip' fs' j ≡ slot ip fs j

pub refl-Kept : (ip : Inode) (fs : Fs) → IsFile ip fs → Kept ip fs ip fs
refl-Kept ip fs f = record {
  file = f;
  fields = refl;
  content = λ x h. refl;
  slots = λ j hj nz. refl;
}

pub trans-Kept :
    {ip : Inode} {fs : Fs} {ip1 : Inode} {fs1 : Fs} {ip2 : Inode} {fs2 : Fs}
    → Kept ip fs ip1 fs1
    → Kept ip1 fs1 ip2 fs2
    → Kept ip fs ip2 fs2
trans-Kept {ip2 = ip2} p q = record {
  file = q.file;
  fields = q.fields ∙ ap (λ (y : Inode). record y { addrs = ip2.addrs }) p.fields;
  content = λ x h. q.content x h ∙ p.content x h;
  slots = λ j hj nz. q.slots j hj (λ z. nz (sym (p.slots j hj nz) ∙ z)) ∙ p.slots j hj nz;
}

-- an entry of a directory that reads as before
module _ (name : ℕ → ℕ) {ip : Inode} {fs : Fs} {ip' : Inode} {fs' : Fs}
    (k : Kept ip fs ip' fs') where
  pub entry-kept : (j i : ℕ) → j + 16 ≤ nbytes → i < 16 → entry_at ip' fs' j i ≡ entry_at ip fs j i
  entry-kept j i hj hi = k.content (j + i) (omega arith)

  pub hits-kept :
      (j : ℕ) → j + 16 ≤ nbytes → hits name (entry_at ip' fs' j) ≡ hits name (entry_at ip fs j)
  hits-kept j hj =
      hits-same name (entry_at ip' fs' j) (entry_at ip fs j) (λ i hi. entry-kept j i hj hi)

  pub same_size : ip'.size ≡ ip.size
  same_size = ap (λ y. y.size) k.fields

  pub same_dev : ip'.dev ≡ ip.dev
  same_dev = ap (λ y. y.dev) k.fields
