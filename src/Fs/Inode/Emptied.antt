-- ===== src/Fs/Inode/Emptied.antt =====
-- A file after itrunc of fs.c.
use operating_system.Common.{ℕ, ◌<◌, ◌≡◌, ◌≢◌}
use operating_system.Fs.{Fs, bblock, log_write}
use operating_system.Fs.Bitmap.{used}
use operating_system.Fs.Inode.{Inode, iblock, put_dinode, dinode_at}
use operating_system.Fs.Inode.Slots.{nslots, slot, IsFile}
use operating_system.Fs.Inode.Truncate.{Cuts, cut}

-- No slot is left, the blocks of the file are free, and no other block is touched but the bitmap
-- and the block of the inode.
pub record Emptied (ip : Inode) (fs : Fs) (ip' : Inode) (fs' : Fs) : Type 0 where
  pub file : IsFile ip' fs'
  pub same_sb : fs'.sb ≡ fs.sb
  pub size : ip'.size ≡ 0
  pub fields : ip' ≡ record ip { addrs = ip'.addrs; size = 0 }
  pub addrs : (k : ℕ) → k < 13 → ip'.addrs k ≡ 0
  pub empty : (k : ℕ) → k < nslots → slot ip' fs' k ≡ 0
  pub freed : (k : ℕ) → k < nslots → slot ip fs k ≢ 0 → used fs' (slot ip fs k) ≡ 0
  pub kept :
      (c : ℕ) → c < fs.sb.size → ((k : ℕ) → k < nslots → slot ip fs k ≢ c) → used fs' c ≡ used fs c
  pub others :
      (c : ℕ)
      → c ≢ iblock ip fs
      → ((e : ℕ) → e < fs.sb.size → bblock e fs.sb ≢ c)
      → fs'.blocks c ≡ fs.blocks c

module _ {ip : Inode} {fs : Fs} (f : IsFile ip fs) {fs1 : Fs} (c : Cuts ip fs 141 fs1) where
  abbrev emptied : Inode
  emptied = record (cut 13 ip) { size = 0 }

  abbrev fs2 : Fs
  fs2 =
      log_write (iblock emptied fs1)
        (put_dinode emptied (dinode_at ip.inum) (fs1.blocks (iblock emptied fs1))) fs1
