-- ===== src/File.antt =====
-- file.c: the table of open files. A file is its index in `ftable.file`. What lies under a file,
-- the pipes, the inodes and the log, is the `Services` of a world `W`.
pub mod Refs
pub mod Write
mod Examples
use operating_system.Common.{
  ℕ, zero, suc, ◌+◌, ◌-◌, ◌*◌, ◌/◌, ◌%◌, ◌^◌, ◌&&◌, not, min, Bool, true, false, ltb, ◌==◌,
  if◌then◌else◌, Option, none, some, Result, ok, panic, ◌>>=◌,
}
use operating_system.Common.Int.{ℤ, pos, negsuc}

abbrev pub nfile : ℕ
nfile = 100

abbrev pub maxopblocks : ℕ
maxopblocks = 10

pub data FileType : Type 0 where
  fd_none fd_pipe fd_inode : FileType

pub record File : Type 0 where
  pub type : FileType
  pub ref : ℕ
  pub readable : Bool
  pub writable : Bool
  pub pipe : ℕ
  pub ip : ℕ
  pub off : ℕ

abbrev pub Files : Type 0
Files = ℕ → File

abbrev pub store : Files → ℕ → File → Files
store t f x j = if j == f then x else t j

-- The calls of pipe.c, log.c and fs.c: each changes the world, and may panic. Those that read and
-- write get the address of the user's buffer. `Stat` is what `stati` fills in.
pub record Services (W : Type 0) (Stat : Type 0) : Type 0 where
  pub pipeclose : ℕ → (writable : Bool) → W → Result W
  pub piperead : ℕ → (addr n : ℕ) → W → Result (ℤ × W)
  pub pipewrite : ℕ → (addr n : ℕ) → W → Result (ℤ × W)
  pub begin_op : W → Result W
  pub end_op : W → Result W
  pub iput : ℕ → W → Result W
  pub ilock : ℕ → W → Result W
  pub iunlock : ℕ → W → Result W
  pub stati : ℕ → W → Stat
  pub readi : ℕ → (addr off n : ℕ) → W → Result (ℤ × W)
  pub writei : ℕ → (addr off n : ℕ) → W → Result (ℤ × W)

pub record State (W : Type 0) : Type 0 where
  pub files : Files
  pub world : W

pub find_file : Files → (n i : ℕ) → Option ℕ
find_file t zero i = none
find_file t (suc n) i = elim ((t i).ref == 0) [ true ↦ some i | false ↦ find_file t n (i + 1) ]

abbrev pub alloc_at : Files → Option ℕ → Option ℕ × Files
alloc_at t none = (none, t)
alloc_at t (some f) = (some f, store t f (record (t f) { ref = 1 }))

pub filealloc : Files → Option ℕ × Files
filealloc t = alloc_at t (find_file t nfile 0)

pub filedup : ℕ → Files → Result Files
filedup f t =
    if ltb (t f).ref 1
    then panic "filedup"
    else ok (store t f (record (t f) { ref = (t f).ref + 1 }))

-- `if(r > 0) f->off += r`, on an `uint`
abbrev pub advance : ℤ → File → File
advance (pos r) x = if ltb 0 r then record x { off = (x.off + r) % 2 ^ 32 } else x
advance (negsuc r) x = x

-- the most bytes that one transaction writes
abbrev pub max_write : ℕ
max_write = (maxopblocks - 1 - 1 - 2) / 2 * 512

module _ {W : Type 0} {Stat : Type 0} (sv : Services W Stat) where
  open sv use {
    pipeclose, piperead, pipewrite, begin_op, end_op, iput, ilock, iunlock, stati, readi, writei,
  }

  -- what `fileclose` does with the copy of a file that nothing refers to any more
  abbrev pub close_last : FileType → File → W → Result W
  close_last fd_pipe x w = pipeclose x.pipe x.writable w
  close_last fd_inode x w = begin_op w >>= λ w1. iput x.ip w1 >>= λ w2. end_op w2
  close_last fd_none x w = ok w

  pub fileclose : ℕ → State W → Result (State W)
  fileclose f s =
      if ltb (s.files f).ref 1
      then panic "fileclose"
      else if ltb 0 ((s.files f).ref - 1)
      then ok
          (record s { files = store s.files f (record (s.files f) { ref = (s.files f).ref - 1 }) })
      else (close_last (s.files f).type (record (s.files f) { ref = 0 }) s.world >>= λ w.
          ok (record {
            files = store s.files f (record (s.files f) { ref = 0; type = fd_none });
            world = w;
          }))

  abbrev pub stat_of : FileType → File → W → Result (Option Stat × W)
  stat_of fd_inode x w =
      ilock x.ip w >>= λ w1. iunlock x.ip w1 >>= λ w2. ok (some (stati x.ip w1), w2)
  stat_of _ x w = ok (none, w)

  -- Gives what `stat` is filled with, or none for -1.
  pub filestat : ℕ → State W → Result (Option Stat × State W)
  filestat f s =
      stat_of (s.files f).type (s.files f) s.world >>= λ r. ok (r.0, record s { world = r.1 })

  abbrev pub read_from : FileType → (f addr n : ℕ) → State W → Result (ℤ × State W)
  read_from fd_pipe f addr n s =
      piperead (s.files f).pipe addr n s.world >>= λ r. ok (r.0, record s { world = r.1 })
  read_from fd_inode f addr n s = ilock (s.files f).ip s.world >>= λ w1.
      readi (s.files f).ip addr (s.files f).off n w1 >>= λ r. iunlock (s.files f).ip r.1 >>= λ w2.
      ok (r.0, record { files = store s.files f (advance r.0 (s.files f)); world = w2 })
  read_from fd_none f addr n s = panic "fileread"

  pub fileread : (f addr n : ℕ) → State W → Result (ℤ × State W)
  fileread f addr n s =
      if not (s.files f).readable then ok (negsuc 0, s) else read_from (s.files f).type f addr n s

  -- one transaction of `filewrite`
  pub write_chunk : (f addr n : ℕ) → State W → Result (ℤ × State W)
  write_chunk f addr n s = begin_op s.world >>= λ w1. ilock (s.files f).ip w1 >>= λ w2.
      writei (s.files f).ip addr (s.files f).off n w2 >>= λ r. iunlock (s.files f).ip r.1 >>= λ w3.
      end_op w3 >>= λ w4.
      ok (r.0, record { files = store s.files f (advance r.0 (s.files f)); world = w4 })

  -- `return i == n ? n : -1`
  abbrev pub written : (n i : ℕ) → State W → Result (ℤ × State W)
  written n i s = ok ((if i == n then pos n else negsuc 0), s)

  -- what the loop of `filewrite` does behind a transaction for `n1` bytes
  abbrev pub after_chunk :
      (n i n1 : ℕ) → (ℕ → State W → Result (ℤ × State W)) → ℤ × State W → Result (ℤ × State W)
  after_chunk n i n1 loop (negsuc r, s) = written n i s
  after_chunk n i n1 loop (pos r, s) = elim (r == n1) [
    | true ↦ loop (i + r) s
    | false ↦ panic "short filewrite"
  ]

  -- The loop of `filewrite`; each round that goes on writes a byte, so that `n` rounds are enough.
  pub write_from : (fuel f addr n i : ℕ) → State W → Result (ℤ × State W)
  write_from zero f addr n i s = written n i s
  write_from (suc fuel) f addr n i s = elim (ltb i n) [
    | true ↦
        write_chunk f (addr + i) (min (n - i) max_write) s
        >>= after_chunk n i (min (n - i) max_write) (write_from fuel f addr n)
    | false ↦ written n i s
  ]

  abbrev pub write_to : FileType → (f addr n : ℕ) → State W → Result (ℤ × State W)
  write_to fd_pipe f addr n s =
      pipewrite (s.files f).pipe addr n s.world >>= λ r. ok (r.0, record s { world = r.1 })
  write_to fd_inode f addr n s = write_from n f addr n 0 s
  write_to fd_none f addr n s = panic "filewrite"

  pub filewrite : (f addr n : ℕ) → State W → Result (ℤ × State W)
  filewrite f addr n s =
      if not (s.files f).writable then ok (negsuc 0, s) else write_to (s.files f).type f addr n s
