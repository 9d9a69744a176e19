-- ===== src/Fs.antt =====
-- fs.c: the free bitmap, and in the modules below inodes, their cache, directories and the swap
-- area. `blocks b` are the bytes that bread gives for block `b` of the device that the superblock
-- describes, and log_write changes.
pub mod Bits
mod Examples
pub mod Bitmap
pub mod Cache
pub mod Dir
pub mod Free
pub mod Swap
pub mod Inode
use operating_system.Common.{
  ℕ, zero, suc, ◌+◌, ◌*◌, ◌/◌, ◌%◌, ◌^◌, ◌-◌, ◌&&◌, Bool, true, false, ltb, ◌==◌, if◌then◌else◌,
  Option, none, some, Result, ok, panic, ◌>>=◌,
}

abbrev pub bsize : ℕ
bsize = 512

-- bitmap bits in a block
abbrev pub bpb : ℕ
bpb = 4096

abbrev pub ipb : ℕ
ipb = 8

-- the bytes of a block
abbrev pub Block : Type 0
Block = ℕ → ℕ

pub record Superblock : Type 0 where
  pub size : ℕ
  pub nblocks : ℕ
  pub ninodes : ℕ
  pub nlog : ℕ
  pub logstart : ℕ
  pub inodestart : ℕ
  pub bmapstart : ℕ

pub record Fs : Type 0 where
  pub sb : Superblock
  pub blocks : ℕ → Block

-- the block of the bitmap with the bit of block `b`
abbrev pub bblock : ℕ → Superblock → ℕ
bblock b sb = b / bpb + sb.bmapstart

-- the data of a buffer after it was changed, for all who read the block from now on
abbrev pub log_write : ℕ → Block → Fs → Fs
log_write b d fs = record fs { blocks = λ x. if x == b then d else fs.blocks x }

pub bzero : ℕ → Fs → Fs
bzero b fs = log_write b (λ i. 0) fs

-- `data[bi/8] & (1 << (bi % 8))`, as 0 or 1
unfoldable pub bit : Block → ℕ → ℕ
bit d bi = d (bi / 8) / 2 ^ (bi % 8) % 2

-- `data[bi/8] |= m` and `&= ~m`, on a bit that is clear and on one that is set
pub set_bit : ℕ → Block → Block
set_bit bi d x = if x == bi / 8 then d x + 2 ^ (bi % 8) else d x

pub clear_bit : ℕ → Block → Block
clear_bit bi d x = if x == bi / 8 then d x - 2 ^ (bi % 8) else d x

-- The first clear bit of the next `n`, from `bi` on, that stands for a block below `size`.
pub find_bit : (n : ℕ) → Block → (size b bi : ℕ) → Option ℕ
find_bit zero d size b bi = none
find_bit (suc n) d size b bi = elim (ltb (b + bi) size) [
  | true ↦ elim (bit d bi == 0) [ true ↦ some bi | false ↦ find_bit n d size b (bi + 1) ]
  | false ↦ none
]

-- A free bit was found: mark it, and zero its block.
abbrev pub take_bit : Fs → (b bi : ℕ) → Result (ℕ × Fs)
take_bit fs b bi = ok (
  b + bi,
  bzero (b + bi) (log_write (bblock b fs.sb) (set_bit bi (fs.blocks (bblock b fs.sb))) fs),
)

abbrev pub take_or_go : Fs → (b : ℕ) → Option ℕ → Result (ℕ × Fs) → Result (ℕ × Fs)
take_or_go fs b (some bi) later = take_bit fs b bi
take_or_go fs b none later = later

-- The loop of `balloc` over the blocks of the bitmap, with fuel.
pub balloc_loop : ℕ → (b : ℕ) → Fs → Result (ℕ × Fs)
balloc_loop zero b fs = panic "out of fuel"
balloc_loop (suc fuel) b fs = elim (ltb b fs.sb.size) [
  | true ↦
      take_or_go fs b (find_bit bpb (fs.blocks (bblock b fs.sb)) fs.sb.size b 0)
        (balloc_loop fuel (b + bpb) fs)
  | false ↦ panic "balloc: out of blocks"
]

-- A round for each block of the bitmap, and the last test.
pub balloc : Fs → Result (ℕ × Fs)
balloc fs = balloc_loop (fs.sb.size / bpb + 2) 0 fs

-- `readsb` reads the superblock that `sb` has already.
unfoldable pub bfree : ℕ → Fs → Result Fs
bfree b fs =
    let d = fs.blocks (bblock b fs.sb) in
    if bit d (b % bpb) == 0
    then panic "freeing free block"
    else ok (log_write (bblock b fs.sb) (clear_bit (b % bpb) d) fs)
