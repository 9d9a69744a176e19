-- ===== src/Fs/Cache/Made.antt =====
-- ialloc of fs.c: the first dinode without a type.
use operating_system.Common.{ℕ, ◌≤◌, ◌<◌, ◌≡◌, ◌≢◌, Result, ok, panic}
use operating_system.Fs.{Fs}
use operating_system.Fs.Inode.{load16, dinode_at}
use operating_system.Fs.Cache.{Cache, inode_block}
use operating_system.Fs.Cache.Unique.{IgetSpec}

-- the type of a dinode on the disk, 0 for a free one
abbrev pub type_of : Fs → ℕ → ℕ
type_of fs inum = load16 (fs.blocks (inode_block inum fs)) (dinode_at inum)

-- The dinode `inum` got the type, and no other changed.
pub record Made (fs : Fs) (inum type : ℕ) (fs' : Fs) : Type 0 where
  pub was_free : type_of fs inum ≡ 0
  pub first : (j : ℕ) → 1 ≤ j → j < inum → type_of fs j ≢ 0
  pub in_range : inum < fs.sb.ninodes
  pub typed : type_of fs' inum ≡ type
  pub others : (j : ℕ) → j ≢ inum → type_of fs' j ≡ type_of fs j

pub data IallocSpec (dev type : ℕ) (t : Cache) (fs : Fs) : Result (ℕ × Cache × Fs) → Type 0 where
  made :
      (inum : ℕ) (fs' : Fs)
      → Made fs inum type fs'
      → (i : ℕ) (t' : Cache) → IgetSpec dev inum t (ok (i, t'))
      → IallocSpec dev type t fs (ok (i, t', fs'))
  no_entry_left :
      ((k : ℕ) → k < 50 → (t k).ref ≢ 0) → IallocSpec dev type t fs (panic "iget: no inodes")
  no_dinode :
      ((j : ℕ) → 1 ≤ j → j < fs.sb.ninodes → type_of fs j ≢ 0)
      → IallocSpec dev type t fs (panic "ialloc: no inodes")
