-- ===== src/Fs/Inode.antt =====
-- Inode content in fs.c: bmap, and the loops of readi and writei on files that are no devices.
pub mod Back
pub mod Change
pub mod Content
pub mod Dinode
pub mod Emptied
pub mod Ensure
pub mod Grow
pub mod Map
pub mod Read
pub mod Words
pub mod Write
pub mod Slots
pub mod Truncate
use operating_system.Common.{
  ℕ, zero, suc, ◌+◌, ◌*◌, ◌/◌, ◌%◌, ◌^◌, ◌-◌, ◌&&◌, ◌||◌, Bool, true, false, min, ltb, ◌==◌,
  if◌then◌else◌, Option, none, some, Result, ok, panic, ◌>>=◌,
}
use operating_system.Common.Int.{ℤ, pos, negsuc}
use operating_system.Memory.{load32, store32, write, ptr_add}
use operating_system.Fs.{bsize, ipb, Block, Fs, log_write, balloc, bfree}

abbrev pub ndirect : ℕ
ndirect = 12

abbrev pub nindirect : ℕ
nindirect = 128

abbrev pub maxfile : ℕ
maxfile = 140

-- the in-memory copy of an inode; `addrs` has NDIRECT block numbers and that of the indirect block
pub record Inode : Type 0 where
  pub dev : ℕ
  pub inum : ℕ
  pub ref : ℕ
  pub valid : Bool
  pub type : ℕ
  pub major : ℕ
  pub minor : ℕ
  pub nlink : ℕ
  pub size : ℕ
  pub addrs : ℕ → ℕ

abbrev pub store16 : Block → ℕ → ℕ → Block
store16 d a w = write (write d a (w % 256)) (ptr_add a 1) (w / 2 ^ 8 % 256)

abbrev pub load16 : Block → ℕ → ℕ
load16 d a = d a + d (ptr_add a 1) * 2 ^ 8

abbrev pub iblock : Inode → Fs → ℕ
iblock ip fs = ip.inum / ipb + fs.sb.inodestart

-- `memmove(dip->addrs, ip->addrs, …)` of the last `n` of the 13 words
pub store_addrs : (n : ℕ) → (ℕ → ℕ) → (o : ℕ) → Block → Block
store_addrs zero addrs o d = d
store_addrs (suc n) addrs o d = store32 (store_addrs n addrs o d) (o + 12 + 4 * n) (addrs n)

-- the inode as a `struct dinode` at offset `o`
pub put_dinode : Inode → (o : ℕ) → Block → Block
put_dinode ip o d = store_addrs 13 ip.addrs o (
    store32
      (store16 (store16 (store16 (store16 d o ip.type) (o + 2) ip.major) (o + 4) ip.minor) (o + 6)
        ip.nlink)
      (o + 8) ip.size)

abbrev pub dinode_at : ℕ → ℕ
dinode_at inum = inum % ipb * 64

unfoldable pub iupdate : Inode → Fs → Fs
iupdate ip fs =
    log_write (iblock ip fs) (put_dinode ip (dinode_at ip.inum) (fs.blocks (iblock ip fs))) fs

-- what ilock reads from the block of an inode that is not valid
pub get_dinode : (o : ℕ) → Block → Inode → Inode
get_dinode o d ip = record ip {
  type = load16 d o;
  major = load16 d (o + 2);
  minor = load16 d (o + 4);
  nlink = load16 d (o + 6);
  size = load32 d (o + 8);
  addrs = λ i. if ltb i 13 then load32 d (o + 12 + 4 * i) else ip.addrs i;
  valid = true;
}

-- `ilock` after it has the sleep lock
pub ilock : Inode → Fs → Result Inode
ilock ip fs =
    if ltb ip.ref 1
    then panic "ilock"
    else if ip.valid
    then ok ip
    else (let ip' = get_dinode (dinode_at ip.inum) (fs.blocks (iblock ip fs)) ip in
        if ip'.type == 0 then panic "ilock: no type" else ok ip')

abbrev pub set_addr : ℕ → ℕ → Inode → Inode
set_addr i a ip = record ip { addrs = λ j. if j == i then a else ip.addrs j }

-- `if((addr = ip->addrs[i]) == 0) ip->addrs[i] = addr = balloc(ip->dev)`
unfoldable pub ensure_addr : ℕ → Inode → Fs → Result (ℕ × Inode × Fs)
ensure_addr i ip fs = elim (ip.addrs i == 0) [
  | true ↦ balloc fs >>= λ r. ok (r.0, set_addr i r.0 ip, r.1)
  | false ↦ ok (ip.addrs i, ip, fs)
]

-- the same for entry `i` of the indirect block `b`
pub ensure_entry : (b i : ℕ) → Inode → Fs → Result (ℕ × Inode × Fs)
ensure_entry b i ip fs = elim (load32 (fs.blocks b) (4 * i) == 0) [
  | true ↦ balloc fs >>= λ r. ok (r.0, ip, log_write b (store32 (r.1.blocks b) (4 * i) r.0) r.1)
  | false ↦ ok (load32 (fs.blocks b) (4 * i), ip, fs)
]

unfoldable pub bmap : Inode → ℕ → Fs → Result (ℕ × Inode × Fs)
bmap ip bn fs =
    if ltb bn ndirect
    then ensure_addr bn ip fs
    else if ltb (bn - ndirect) nindirect
    then (ensure_addr ndirect ip fs >>= λ r. ensure_entry r.0 (bn - ndirect) r.1 r.2)
    else panic "bmap: out of range"

-- the loop of `itrunc` over `n` direct blocks from `i` on
pub trunc_direct : (n i : ℕ) → Inode → Fs → Result (Inode × Fs)
trunc_direct zero i ip fs = ok (ip, fs)
trunc_direct (suc n) i ip fs = elim (ip.addrs i == 0) [
  | true ↦ trunc_direct n (i + 1) ip fs
  | false ↦ bfree (ip.addrs i) fs >>= λ fs'. trunc_direct n (i + 1) (set_addr i 0 ip) fs'
]

-- and that over `n` entries of the indirect block `b` from `j` on
pub trunc_entries : (n j b : ℕ) → Fs → Result Fs
trunc_entries zero j b fs = ok fs
trunc_entries (suc n) j b fs = elim (load32 (fs.blocks b) (4 * j) == 0) [
  | true ↦ trunc_entries n (j + 1) b fs
  | false ↦ bfree (load32 (fs.blocks b) (4 * j)) fs >>= λ fs'. trunc_entries n (j + 1) b fs'
]

pub trunc_indirect : Inode → Fs → Result (Inode × Fs)
trunc_indirect ip fs = elim (ip.addrs ndirect == 0) [
  | true ↦ ok (ip, fs)
  | false ↦ do
    fs1 ← trunc_entries nindirect 0 (ip.addrs ndirect) fs
    fs2 ← bfree (ip.addrs ndirect) fs1
    ok (set_addr ndirect 0 ip, fs2)
]

pub itrunc : Inode → Fs → Result (Inode × Fs)
itrunc ip fs = do
  r1 ← trunc_direct ndirect 0 ip fs
  r2 ← trunc_indirect (r1.0) (r1.1)
  ok (record (r2.0) { size = 0 }, iupdate (record (r2.0) { size = 0 }) (r2.1))

-- `min(n - tot, BSIZE - off%BSIZE)`
abbrev pub chunk : (n tot off : ℕ) → ℕ
chunk n tot off = min (n - tot) (bsize - off % bsize)

-- `memmove` of `m` bytes to `dst + tot`, from offset `o` of a block
abbrev pub copy_out : (dst : ℕ → ℕ) (tot : ℕ) → Block → (o m : ℕ) → ℕ → ℕ
copy_out dst tot d o m i =
    if ltb i tot then dst i else if ltb i (tot + m) then d (o + (i - tot)) else dst i

abbrev pub copy_in : Block → (o : ℕ) (src : ℕ → ℕ) (tot m : ℕ) → Block
copy_in d o src tot m x =
    if ltb x o then d x else if ltb x (o + m) then src (tot + (x - o)) else d x

-- The loop of `readi`, with fuel; `dst` are the bytes from the address `dst` of the caller on.
pub read_loop : (fuel : ℕ) (n tot off : ℕ) → Inode → Fs → (ℕ → ℕ) → Result (Inode × Fs × (ℕ → ℕ))
read_loop zero n tot off ip fs dst = ok (ip, fs, dst)
read_loop (suc fuel) n tot off ip fs dst = elim (ltb tot n) [
  | true ↦ bmap ip (off / bsize) fs >>= λ r.
      read_loop fuel n (tot + chunk n tot off) (off + chunk n tot off) r.1 r.2
        (copy_out dst tot (r.2.blocks r.0) (off % bsize) (chunk n tot off))
  | false ↦ ok (ip, fs, dst)
]

-- `devsw[major].read` and `.write` are functions that drivers put in a table of 10 entries. `short`
-- is 16 bits, so a negative major number is no entry either.
abbrev pub Devsw : Type 0
Devsw = ℕ → Option (Inode → (ℕ → ℕ) → (n : ℕ) → ℤ × (ℕ → ℕ))

abbrev pub device : ℕ → Devsw → Option (Inode → (ℕ → ℕ) → ℕ → ℤ × (ℕ → ℕ))
device major devsw = if ltb major 10 then devsw major else none

-- The bytes at `dst` are what a device changes.
abbrev pub readi_dev :
    Option (Inode → (ℕ → ℕ) → ℕ → ℤ × (ℕ → ℕ)) → Inode → (ℕ → ℕ) → ℕ → Fs → ℤ × Inode × Fs × (ℕ → ℕ)
readi_dev none ip dst n fs = (negsuc 0, ip, fs, dst)
readi_dev (some f) ip dst n fs = ((f ip dst n).0, ip, fs, (f ip dst n).1)

-- `readi`: what it returns, the inode and the blocks (bmap may allocate), and `dst`.
pub readi : Devsw → Inode → (dst : ℕ → ℕ) (off n : ℕ) → Fs → Result (ℤ × Inode × Fs × (ℕ → ℕ))
readi devsw ip dst off n fs =
    if ip.type == 3
    then ok (readi_dev (device ip.major devsw) ip dst n fs)
    else if ltb ip.size off || ltb ((off + n) % 2 ^ 32) off
    then ok (negsuc 0, ip, fs, dst)
    else (let m = if ltb ip.size ((off + n) % 2 ^ 32) then ip.size - off else n in
        read_loop m m 0 off ip fs dst >>= λ r. ok (pos m, r.0, r.1, r.2))

-- The loop of `writei`: the offset that it ends at, the inode and the blocks.
unfoldable pub write_loop :
    (fuel : ℕ) (n tot off : ℕ) → (ℕ → ℕ) → Inode → Fs → Result (ℕ × Inode × Fs)
write_loop zero n tot off src ip fs = ok (off, ip, fs)
write_loop (suc fuel) n tot off src ip fs = elim (ltb tot n) [
  | true ↦ bmap ip (off / bsize) fs >>= λ r.
      write_loop fuel n (tot + chunk n tot off) (off + chunk n tot off) src r.1
        (log_write r.0 (copy_in (r.2.blocks r.0) (off % bsize) src tot (chunk n tot off)) r.2)
  | false ↦ ok (off, ip, fs)
]

-- `if(n > 0 && off > ip->size)`
abbrev pub grow : (n : ℕ) → ℕ × Inode × Fs → ℤ × Inode × Fs
grow n (off, ip, fs) =
    if ltb 0 n && ltb ip.size off
    then (pos n, record ip { size = off }, iupdate (record ip { size = off }) fs)
    else (pos n, ip, fs)

abbrev pub writei_dev :
    Option (Inode → (ℕ → ℕ) → ℕ → ℤ × (ℕ → ℕ)) → Inode → (ℕ → ℕ) → ℕ → Fs → ℤ × Inode × Fs
writei_dev none ip src n fs = (negsuc 0, ip, fs)
writei_dev (some f) ip src n fs = ((f ip src n).0, ip, fs)

unfoldable pub writei : Devsw → Inode → (src : ℕ → ℕ) (off n : ℕ) → Fs → Result (ℤ × Inode × Fs)
writei devsw ip src off n fs =
    if ip.type == 3
    then ok (writei_dev (device ip.major devsw) ip src n fs)
    else if ltb ip.size off || ltb ((off + n) % 2 ^ 32) off
    then ok (negsuc 0, ip, fs)
    else if ltb (maxfile * bsize) ((off + n) % 2 ^ 32)
    then ok (negsuc 0, ip, fs)
    else (write_loop n n 0 off src ip fs >>= λ r. ok (grow n r))
