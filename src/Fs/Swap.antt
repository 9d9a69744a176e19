-- ===== src/Fs/Swap.antt =====
-- The swap area of fs.c: pages of 8 blocks on device 0, behind block 500. `disk b` are the bytes that
-- bread gives for a block, with the test that idestart of ide.c makes before it transfers one.
pub mod Pages
use operating_system.Common.{
  ℕ, zero, suc, ◌+◌, ◌*◌, ◌-◌, ◌&&◌, Bool, true, false, ltb, leb, ◌==◌, if◌then◌else◌, Result, ok,
  panic, ◌>>=◌,
}
use operating_system.Fs.{bsize, Block}

abbrev pub swap_base : ℕ
swap_base = 500

abbrev pub swap_max : ℕ
swap_max = 99_500

abbrev pub fs_size : ℕ
fs_size = 1000

abbrev pub Disk : Type 0
Disk = ℕ → Block

-- `if(b->blockno >= FSSIZE) panic("incorrect blockno")`
abbrev pub transfer {ℓ} : {A : Type ℓ} → (b : ℕ) → A → Result A
transfer b x = if leb fs_size b then panic "incorrect blockno" else ok x

-- `memmove(ptr + i * BSIZE, bp->data, BSIZE)`
abbrev pub page_in : (i : ℕ) → Block → (ℕ → ℕ) → ℕ → ℕ
page_in i d ptr y =
    if leb (i * bsize) y && ltb y (i * bsize + bsize) then d (y - i * bsize) else ptr y

-- `memmove(bp->data, ptr + i * BSIZE, BSIZE)` and bwrite
abbrev pub page_out : (b i : ℕ) → (ℕ → ℕ) → Disk → Disk
page_out b i ptr disk c x = if c == b && ltb x bsize then ptr (i * bsize + x) else disk c x

-- The loop of `swapread` over `n` blocks from the `i`th on.
pub read_blocks : (n i blkno : ℕ) → Disk → (ℕ → ℕ) → Result (ℕ → ℕ)
read_blocks zero i blkno disk ptr = ok ptr
read_blocks (suc n) i blkno disk ptr =
    transfer (blkno + swap_base + i) (disk (blkno + swap_base + i)) >>= λ d.
    read_blocks n (i + 1) blkno disk (page_in i d ptr)

pub write_blocks : (n i blkno : ℕ) → (ℕ → ℕ) → Disk → Result Disk
write_blocks zero i blkno ptr disk = ok disk
write_blocks (suc n) i blkno ptr disk = transfer (blkno + swap_base + i) disk >>= λ d.
    write_blocks n (i + 1) blkno ptr (page_out (blkno + swap_base + i) i ptr d)

-- A negative `blkno` is a number from 2^31 on.
pub swapread : (blkno : ℕ) → Disk → (ptr : ℕ → ℕ) → Result (ℕ → ℕ)
swapread blkno disk ptr =
    if leb swap_max blkno
    then panic "swapread: blkno exceed range"
    else read_blocks 8 0 blkno disk ptr

pub swapwrite : (blkno : ℕ) → (ptr : ℕ → ℕ) → Disk → Result Disk
swapwrite blkno ptr disk =
    if leb swap_max blkno
    then panic "swapread: blkno exceed range"
    else write_blocks 8 0 blkno ptr disk
