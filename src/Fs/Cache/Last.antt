-- ===== src/Fs/Cache/Last.antt =====
-- iput of fs.c: the last reference to an inode without links frees it.
use operating_system.Common.{ℕ, ◌-◌, ◌<◌, ◌≡◌, ◌≢◌, Bool, true, false, ◌==◌, ◌&&◌, Result, ok}
use operating_system.Fs.{Fs}
use operating_system.Fs.Bitmap.{used}
use operating_system.Fs.Inode.{Inode, iblock, load16, dinode_at}
use operating_system.Fs.Inode.Slots.{nslots, slot}
use operating_system.Fs.Inode.Emptied.{Emptied}
use operating_system.Fs.Cache.{Cache}
use operating_system.Fs.Cache.Unique.{IsUnique}

-- the inode without links, with its last reference
abbrev pub dying : Inode → Bool
dying ip = ip.valid && (ip.nlink == 0 && ip.ref == 1)

-- Entry `i` lost a reference, the others are as before.
pub record Drops (t : Cache) (i : ℕ) (t' : Cache) : Type 0 where
  pub one_less : (t' i).ref ≡ (t i).ref - 1
  pub rest : (j : ℕ) → j ≢ i → t' j ≡ t j
  pub unique : IsUnique t'

-- what a freed inode leaves on the disk
pub record Frees (ip : Inode) (fs fs' : Fs) : Type 0 where
  pub no_type : load16 (fs'.blocks (iblock ip fs)) (dinode_at ip.inum) ≡ 0
  pub freed : (k : ℕ) → k < nslots → slot ip fs k ≢ 0 → used fs' (slot ip fs k) ≡ 0
  pub kept :
      (c : ℕ) → c < fs.sb.size → ((k : ℕ) → k < nslots → slot ip fs k ≢ c) → used fs' c ≡ used fs c

-- the ways in which iput ends
pub data IputSpec (i : ℕ) (t : Cache) (fs : Fs) : Result (Cache × Fs) → Type 0 where
  last :
      dying (t i) ≡ true
      → (t' : Cache) (fs' : Fs) → Drops t i t'
      → (t' i).valid ≡ false
      → Frees (t i) fs fs'
      → IputSpec i t fs (ok (t', fs'))
  other : dying (t i) ≡ false → (t' : Cache) → Drops t i t' → IputSpec i t fs (ok (t', fs))
