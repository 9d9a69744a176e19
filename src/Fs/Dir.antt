-- ===== src/Fs/Dir.antt =====
-- Directories of fs.c: files of entries of 16 bytes, a number and a name.
pub mod Entries
pub mod Lookup
use operating_system.Common.{
  ℕ, zero, suc, ◌+◌, ◌-◌, ◌/◌, ◌&&◌, not, Bool, true, false, ltb, ◌==◌, if◌then◌else◌, Option, none,
  some, Result, ok, panic, ◌>>=◌,
}
use operating_system.Common.Int.{ℤ, pos, negsuc}
use operating_system.Memory.{Memory, strncmp}
use operating_system.Fs.{Block, Fs}
use operating_system.Fs.Inode.{Inode, Devsw, load16, readi}
use operating_system.Fs.Cache.{Cache, iget}

abbrev pub dirsiz : ℕ
dirsiz = 14

-- `sizeof(de)`
abbrev pub dirent_size : ℕ
dirent_size = 16

-- two objects in one memory: a string at address 0, and an entry at 4096 with its name at 4098
abbrev pub beside : (ℕ → ℕ) → (ℕ → ℕ) → Memory
beside name de a = if ltb a 4096 then name a else de (a - 4096)

abbrev pub is_nat : ℕ → ℤ → Bool
is_nat n (pos m) = m == n
is_nat n (negsuc m) = false

-- `namecmp(name, de.name)`
abbrev pub namecmp : (ℕ → ℕ) → (ℕ → ℕ) → ℤ
namecmp name de = strncmp 0 4098 dirsiz (beside name de)

-- what dirlookup gives: `*poff` and the inode, and the states that its calls change
abbrev pub Looked : Type 0
Looked = Option (ℕ × ℕ) × Inode × Fs × Cache

abbrev pub enter_dir : (off inum : ℕ) → Inode → Fs → Cache → Result Looked
enter_dir off inum ip fs t = iget ip.dev inum t >>= λ q. ok (some (off, q.0), ip, fs, q.1)

-- an entry after it was read; `later` goes on with the next
abbrev pub look_at :
    (name : ℕ → ℕ) (off : ℕ)
    → Cache
    → ((ℕ → ℕ) → Inode → Fs → Result Looked)
    → ℤ × Inode × Fs × (ℕ → ℕ)
    → Result Looked
look_at name off t later (got, ip, fs, de) =
    if not (is_nat dirent_size got)
    then panic "dirlookup read"
    else if load16 de 0 == 0
    then later de ip fs
    else if is_nat 0 (namecmp name de)
    then enter_dir off (load16 de 0) ip fs t
    else later de ip fs

-- The loop of `dirlookup`, with fuel. `de` are the bytes of the entry that it reads into.
pub look_from : (fuel off : ℕ) → Devsw → (name de : ℕ → ℕ) → Inode → Fs → Cache → Result Looked
look_from zero off devsw name de ip fs t = panic "out of fuel"
look_from (suc fuel) off devsw name de ip fs t = elim (ltb off ip.size) [
  | true ↦
      readi devsw ip de off dirent_size fs
      >>= look_at name off t
          (λ de' ip' fs'. look_from fuel (off + dirent_size) devsw name de' ip' fs' t)
  | false ↦ ok (none, ip, fs, t)
]

pub dirlookup : Devsw → Inode → (name de : ℕ → ℕ) → Fs → Cache → Result Looked
dirlookup devsw ip name de fs t =
    if not (ip.type == 1)
    then panic "dirlookup not DIR"
    else look_from (ip.size / dirent_size + 1) 0 devsw name de ip fs t
