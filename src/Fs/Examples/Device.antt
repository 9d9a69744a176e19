-- ===== src/Fs/Examples/Device.antt =====
-- A device of 100 blocks whose bitmap is block 58, with the blocks below 60 in use.
use operating_system.Common.{
  ℕ, ◌<◌, ◌≡◌, ◌≢◌, sym, subst, ◌∙◌, arith, true, ltb, ◌==◌, if◌then◌else◌, none,
}
use operating_system.Fs.{Block, Superblock, Fs, bblock, bit}
use operating_system.Fs.Bitmap.{used, IsBitmap}
use operating_system.Fs.Inode.{Inode, Devsw, set_addr}
use operating_system.Fs.Inode.Slots.{slot, IsFile}

abbrev pub device : Superblock
device = record {
  size = 100;
  nblocks = 41;
  ninodes = 200;
  nlog = 30;
  logstart = 2;
  inodestart = 32;
  bmapstart = 58;
}

abbrev pub map_block : Block
map_block i = if ltb i 7 then 255 else if i == 7 then 15 else 0

-- an entry "a" for inode 7
abbrev dir_block : Block
dir_block i = if i == 0 then 7 else if i == 2 then 97 else 0

abbrev pub disk : Fs
disk = record {
  sb = device;
  blocks = λ b. if b == 58 then map_block else if b == 59 then dir_block else λ i. 0;
}

one_map : (b : ℕ) → b < 100 → bblock b device ≡ 58
one_map b h = omega arith

map_used : used disk 58 ≢ 0
unfolding bit
map_used = λ z. absurd (omega arith)

pub disk-IsBitmap : IsBitmap disk
unfolding bit
disk-IsBitmap = record {
  bytes = λ b x hb hx. let e = one_map b hb in rw e (ground arith);
  inside = λ b hb. omega arith;
  own = λ b hb z. let e = one_map b hb in map_used (subst (λ k. used disk k ≡ 0) e z);
  nonempty = omega arith;
  boot = λ z. absurd (omega arith);
}

abbrev pub no_devices : Devsw
no_devices = λ i. none

abbrev pub empty_file : Inode
empty_file = record {
  dev = 1;
  inum = 3;
  ref = 1;
  valid = true;
  type = 2;
  major = 0;
  minor = 0;
  nlink = 1;
  size = 0;
  addrs = λ i. 0;
}

no_slots : (k : ℕ) → slot empty_file disk k ≡ 0
unfolding slot
no_slots k = ground arith

pub empty_file-IsFile : IsFile empty_file disk
unfolding bit
empty_file-IsFile = record {
  bitmap = disk-IsBitmap;
  small = omega arith;
  in_range = λ k h nz. absurd (nz (no_slots k));
  in_use = λ k h nz. absurd (nz (no_slots k));
  not_map = λ k e h nz he. absurd (nz (no_slots k));
  meta_range = omega arith;
  meta_used = λ z. absurd (omega arith);
  meta_nonzero = λ z. absurd (omega arith);
  meta_map = λ e he q. absurd (omega arith);
  meta_slot = λ k h q. let z = no_slots k in absurd (omega arith);
  distinct = λ j k hj hk nz e. absurd (nz (no_slots j));
}

-- a file with the one block 59, which no directory has
abbrev pub full_file : Inode
full_file = record (set_addr 0 59 empty_file) { nlink = 0 }

one_slot : (k : ℕ) → slot full_file disk k ≡ (if k == 0 then 59 else 0)
unfolding slot
one_slot k = ground arith

only_slot : (k : ℕ) → slot full_file disk k ≢ 0 → (k ≡ 0) × (slot full_file disk k ≡ 59)
only_slot k nz = let e = one_slot k in (ground arith, ground arith)

pub full_file-IsFile : IsFile full_file disk
unfolding bit
full_file-IsFile = record {
  bitmap = disk-IsBitmap;
  small = omega arith;
  in_range = λ k h nz. let (_, e) = only_slot k nz in omega arith;
  in_use = λ k h nz. let (_, e) = only_slot k nz in rw e (λ z. absurd (omega arith));
  not_map = λ k e h nz he q. let (_, e') = only_slot k nz in absurd (omega arith);
  meta_range = omega arith;
  meta_used = λ z. absurd (omega arith);
  meta_nonzero = λ z. absurd (omega arith);
  meta_map = λ e he q. absurd (omega arith);
  meta_slot = λ k h q. let e = one_slot k in ground arith;
  distinct = λ j k hj hk nz e.
      let (a, _) = only_slot j nz in let (b, _) = only_slot k (λ z. nz (e ∙ z)) in a ∙ sym b;
}

-- the directory with that entry
abbrev pub directory : Inode
directory = record full_file { type = 1; size = 16 }

pub directory-IsFile : IsFile directory disk
unfolding slot
directory-IsFile = record {
  bitmap = full_file-IsFile.bitmap;
  small = full_file-IsFile.small;
  in_range = full_file-IsFile.in_range;
  in_use = full_file-IsFile.in_use;
  not_map = full_file-IsFile.not_map;
  meta_range = full_file-IsFile.meta_range;
  meta_used = full_file-IsFile.meta_used;
  meta_map = full_file-IsFile.meta_map;
  meta_nonzero = full_file-IsFile.meta_nonzero;
  meta_slot = full_file-IsFile.meta_slot;
  distinct = full_file-IsFile.distinct;
}
