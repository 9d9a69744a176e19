-- ===== src/Fs/Dir/Lookup.antt =====
-- dirlookup of fs.c on the content of a directory.
use operating_system.Common.{
  ℕ, ◌/◌, ◌%◌, ◌≤◌, ◌<◌, ◌≡◌, ◌≢◌, true, false, none, some, Result, ok, panic,
}
use operating_system.Fs.{Fs}
use operating_system.Fs.Inode.{Inode, load16}
use operating_system.Fs.Inode.Slots.{slot}
use operating_system.Fs.Inode.Map.{data_slot}
use operating_system.Fs.Cache.{Cache}
use operating_system.Fs.Cache.Unique.{IgetSpec}
use operating_system.Fs.Dir.{Looked}
use operating_system.Fs.Dir.Entries.{entry_at, hits, Kept}

-- the ways in which dirlookup ends on a directory
pub data LookSpec (name : ℕ → ℕ) (from : ℕ) (ip : Inode) (fs : Fs) (t : Cache)
    : Result Looked → Type 0 where
  found :
      (off : ℕ)
      → from ≤ off
      → off < ip.size
      → off % 16 ≡ 0
      → hits name (entry_at ip fs off) ≡ true
      → ((j : ℕ) → from ≤ j → j < off → j % 16 ≡ 0 → hits name (entry_at ip fs j) ≡ false)
      → (ip' : Inode) (fs' : Fs) → Kept ip fs ip' fs'
      → (i : ℕ) (t' : Cache) → IgetSpec ip.dev (load16 (entry_at ip fs off) 0) t (ok (i, t'))
      → LookSpec name from ip fs t (ok (some (off, i), ip', fs', t'))
  nowhere :
      ((j : ℕ) → from ≤ j → j < ip.size → j % 16 ≡ 0 → hits name (entry_at ip fs j) ≡ false)
      → (ip' : Inode) (fs' : Fs) → Kept ip fs ip' fs'
      → LookSpec name from ip fs t (ok (none, ip', fs', t))
  no_inode :
      ((k : ℕ) → k < 50 → (t k).ref ≢ 0) → LookSpec name from ip fs t (panic "iget: no inodes")
  no_block :
      (x : ℕ)
      → x < ip.size
      → slot ip fs (data_slot (x / 512)) ≡ 0
      → LookSpec name from ip fs t (panic "balloc: out of blocks")
