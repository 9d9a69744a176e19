-- ===== src/Fs/Cache.antt =====
-- The inode cache of fs.c: the references to in-memory inodes. A critical section of icache.lock is
-- one step; a pointer to an inode is its index in `icache.inode`.
pub mod Unique
pub mod Made
pub mod Last
use operating_system.Common.{
  ℕ, zero, suc, ◌+◌, ◌-◌, ◌/◌, ◌%◌, ◌*◌, ◌≤◌, ◌&&◌, Bool, true, false, ltb, leb, ◌==◌,
  if◌then◌else◌, Option, none, some, Result, ok, panic, ◌>>=◌,
}
use operating_system.Fs.{Block, Fs, ipb, log_write}
use operating_system.Fs.Inode.{Inode, load16, store16, dinode_at, iupdate, itrunc}

abbrev pub ninode : ℕ
ninode = 50

abbrev pub Cache : Type 0
Cache = ℕ → Inode

abbrev pub set_inode : ℕ → Inode → Cache → Cache
set_inode i ip t j = if j == i then ip else t j

-- what the scan of iget finds: the inode, or the first entry without references
pub data Scan : Type 0 where
  found_at : ℕ → Scan
  found_none : Option ℕ → Scan

abbrev pub remember : Option ℕ → (i ref : ℕ) → Option ℕ
remember none i ref = if ref == 0 then some i else none
remember (some j) i ref = some j

abbrev pub matches : Inode → (dev inum : ℕ) → Bool
matches ip dev inum = ltb 0 ip.ref && (ip.dev == dev && ip.inum == inum)

pub find_inode : (n i dev inum : ℕ) → Cache → Option ℕ → Scan
find_inode zero i dev inum t empty = found_none empty
find_inode (suc n) i dev inum t empty = elim (matches (t i) dev inum) [
  | true ↦ found_at i
  | false ↦ find_inode n (i + 1) dev inum t (remember empty i (t i).ref)
]

abbrev pub add_ref : ℕ → Cache → Cache
add_ref i t = set_inode i (record (t i) { ref = (t i).ref + 1 }) t

abbrev pub recycle : (dev inum i : ℕ) → Cache → Cache
recycle dev inum i t =
    set_inode i (record (t i) { dev = dev; inum = inum; ref = 1; valid = false }) t

abbrev pub take_inode : (dev inum : ℕ) → Cache → Scan → Result (ℕ × Cache)
take_inode dev inum t (found_at i) = ok (i, add_ref i t)
take_inode dev inum t (found_none none) = panic "iget: no inodes"
take_inode dev inum t (found_none (some i)) = ok (i, recycle dev inum i t)

pub iget : (dev inum : ℕ) → Cache → Result (ℕ × Cache)
iget dev inum t = take_inode dev inum t (find_inode ninode 0 dev inum t none)

pub idup : ℕ → Cache → Cache
idup i t = add_ref i t

-- `ip->ref--` of an inode that is referenced
abbrev pub drop_ref : ℕ → Cache → Cache
drop_ref i t = set_inode i (record (t i) { ref = (t i).ref - 1 }) t

-- `iput`, with the sleep lock of the inode: its last reference, without links, frees it.
pub iput : ℕ → Cache → Fs → Result (Cache × Fs)
iput i t fs =
    if (t i).valid && ((t i).nlink == 0 && (t i).ref == 1)
    then (itrunc (t i) fs >>= λ r.
        let ip = record (r.0) { type = 0 } in
        ok (drop_ref i (set_inode i (record ip { valid = false }) t), iupdate ip r.1))
    else ok (drop_ref i t, fs)

-- `memset(dip, 0, sizeof(*dip)); dip->type = type;`
abbrev pub blank : (type o : ℕ) → Block → Block
blank type o d = store16 (λ x. if leb o x && ltb x (o + 64) then 0 else d x) o type

abbrev pub inode_block : ℕ → Fs → ℕ
inode_block inum fs = inum / ipb + fs.sb.inodestart

-- the loop of `ialloc` over `n` inode numbers from `inum` on
pub ialloc_from : (n inum dev type : ℕ) → Cache → Fs → Result (ℕ × Cache × Fs)
ialloc_from zero inum dev type t fs = panic "ialloc: no inodes"
ialloc_from (suc n) inum dev type t fs =
    elim (load16 (fs.blocks (inode_block inum fs)) (dinode_at inum) == 0) [
      | true ↦ iget dev inum t >>= λ r. ok (
        r.0,
        r.1,
        log_write (inode_block inum fs)
            (blank type (dinode_at inum) (fs.blocks (inode_block inum fs))) fs,
      )
      | false ↦ ialloc_from n (inum + 1) dev type t fs
    ]

pub ialloc : (dev type : ℕ) → Cache → Fs → Result (ℕ × Cache × Fs)
ialloc dev type t fs = ialloc_from (fs.sb.ninodes - 1) 1 dev type t fs
