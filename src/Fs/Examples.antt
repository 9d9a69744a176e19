-- ===== src/Fs/Examples.antt =====
-- The file system on a small device.
pub mod Device
use operating_system.Common.{
  ℕ, ◌+◌, ◌<◌, ◌≡◌, ◌≢◌, refl, sym, subst, ◌∙◌, arith, true, false, ltb, ◌==◌, if◌then◌else◌, none,
  ok,
}
use operating_system.Common.Int.{pos}
use operating_system.Fs.{
  Block, Superblock, Fs, bblock, log_write, bzero, bit, set_bit, find_bit, balloc_loop, balloc,
}
use operating_system.Fs.Inode.Emptied.{Emptied}
use operating_system.Fs.Bitmap.{used, IsBitmap}
use operating_system.Fs.Inode.{
  Inode, Devsw, set_addr, ensure_addr, bmap, copy_in, iupdate, ilock, write_loop, writei, readi,
}
use operating_system.Fs.Inode.Slots.{slot, IsFile}
use operating_system.Fs.Inode.Read.{ReadiSpec, readi-ReadiSpec}
use operating_system.Fs.Inode.Back.{ReadBack, readi-writei}
use operating_system.Fs.Inode.Dinode.{LockSpec, ilock-iupdate}
use operating_system.Fs.Cache.{Cache}
use operating_system.Fs.Swap.{swapwrite}
use operating_system.Fs.Swap.Pages.{SwapSpec, swapwrite-SwapSpec}
use operating_system.Fs.Examples.Device.{
  device, map_block, disk, disk-IsBitmap, no_devices, empty_file, empty_file-IsFile, full_file,
}

abbrev letters : ℕ → ℕ
letters i = 97 + i

readi_example : ReadiSpec empty_file disk letters 0 5 (readi no_devices empty_file letters 0 5 disk)
readi_example =
    readi-ReadiSpec no_devices empty_file letters 0 5 disk empty_file-IsFile
      (λ z. absurd (omega arith)) (omega arith) (omega arith) (omega arith)

-- block 60 is the first free one
abbrev taken : Fs
taken = bzero 60 (log_write 58 (set_bit 60 map_block) disk)

abbrev grown_file : Inode
grown_file = record (set_addr 0 60 empty_file) { size = 5 }

abbrev written : Fs
written = iupdate grown_file (log_write 60 (copy_in (taken.blocks 60) 0 letters 0 5) taken)

writes : writei no_devices empty_file letters 0 5 disk ≡ ok (pos 5, grown_file, written)
unfolding writei write_loop bmap ensure_addr balloc balloc_loop find_bit bit iupdate
writes = refl

readi-writei_example : ReadBack letters 5 (readi no_devices grown_file (λ i. 0) 0 5 written)
readi-writei_example =
    readi-writei no_devices empty_file letters (λ i. 0) 0 5 disk grown_file written
      empty_file-IsFile (λ z. absurd (omega arith)) (omega arith) (omega arith) (omega arith) writes

abbrev neighbour : Inode
neighbour = record grown_file { inum = 4; valid = false }

ilock-iupdate_example :
    LockSpec grown_file neighbour written (ilock neighbour (iupdate grown_file written))
ilock-iupdate_example =
    ilock-iupdate grown_file neighbour written
      (record {
        type = omega arith;
        major = omega arith;
        minor = omega arith;
        nlink = omega arith;
        size = omega arith;
        addrs = λ k h. ground arith;
      })
      (λ z. absurd (omega arith)) refl (omega arith)

-- two entries in use
abbrev cache : Cache
cache i = record full_file { inum = 3 + i; ref = if ltb i 2 then 1 else 0 }

swapwrite_example : SwapSpec 492 letters (λ b i. 0) (swapwrite 492 letters (λ b i. 0))
swapwrite_example = swapwrite-SwapSpec 492 letters (λ b i. 0)

abbrev name_a : ℕ → ℕ
name_a i = if i == 0 then 97 else 0
