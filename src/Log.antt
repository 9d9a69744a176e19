-- ===== src/Log.antt =====
-- log.c: transactions of disk blocks. The buffer cache is what its clients see of it: a block that
-- was modified and not yet written is kept in memory, and any other is as on the disk.
pub mod Crash
pub mod Loops
pub mod Phases
pub mod Steps
pub mod Space
pub mod Again
mod Examples
use operating_system.Common.{
  ℕ, zero, suc, ◌+◌, ◌-◌, ◌*◌, ◌&&◌, ◌||◌, not, Bool, true, false, ltb, leb, ◌==◌, if◌then◌else◌,
  List, [], ◌∷◌, ◌++◌, Option, none, some, length, Result, ok, panic, ◌>>=◌,
}
use operating_system.Common.Int.{ℤ, pos, negsuc}

-- a block of the disk as its 128 words
abbrev pub Block : Type 0
Block = ℕ → ℕ

-- `power` is the count of disk writes that are done before the machine stops.
pub record Store : Type 0 where
  pub disk : ℕ → Block
  pub dirty : ℕ → Option Block
  pub power : ℕ

-- what a buffer of the block holds once it is read
abbrev pub held : Option Block → Block → Block
held none d = d
held (some e) d = e

abbrev pub content : Store → ℕ → Block
content s b = held (s.dirty b) (s.disk b)

-- `bwrite` of the buffer of block `b` with the data `d`
abbrev pub bwrite : ℕ → Block → Store → Store
bwrite b d s = record {
  disk = λ x. if x == b && ltb 0 s.power then d else s.disk x;
  dirty = λ x. if x == b then none else s.dirty x;
  power = s.power - 1;
}

-- a modified buffer that stays in the cache
abbrev pub pin : ℕ → Block → Store → Store
pin b d s = record s { dirty = λ x. if x == b then some d else s.dirty x }

abbrev pub logsize : ℕ
logsize = 30

abbrev pub maxopblocks : ℕ
maxopblocks = 10

-- `lh.block` is kept up to `lh.n`, which is the length of `blocks`.
pub record Log : Type 0 where
  pub start : ℕ
  pub size : ℕ
  pub outstanding : ℤ
  pub committing : Bool
  pub blocks : List ℕ

-- Copies each block from the log, from its slot `from` on, to its place.
pub install_loop : (from : ℕ) → List ℕ → Store → Store
install_loop from [] s = s
install_loop from (b ∷ bs) s = install_loop (from + 1) bs (bwrite b (content s from) s)

pub install_trans : Log → Store → Store
install_trans l s = install_loop (l.start + 1) l.blocks s

pub read_words : Block → (n i : ℕ) → List ℕ
read_words h zero i = []
read_words h (suc n) i = h i ∷ read_words h n (i + 1)

pub read_head : Log → Store → Log
read_head l s = record l { blocks = read_words (content s l.start) (content s l.start 0) 1 }

pub write_words : List ℕ → (i : ℕ) → Block → Block
write_words [] i h = h
write_words (b ∷ bs) i h = write_words bs (i + 1) (λ x. if x == i then b else h x)

-- the header block as `write_head` fills it in, over what it held
pub header : List ℕ → Block → Block
header bs h = write_words (length bs ∷ bs) 0 h

pub write_head : Log → Store → Store
write_head l s = bwrite l.start (header l.blocks (content s l.start)) s

pub recover_from_log : Log → Store → Log × Store
recover_from_log l s =
    let read = read_head l s in
    let cleared = record read { blocks = [] } in
    (cleared, write_head cleared (install_trans read s))

-- Copies each block from the cache to the log, from its slot `to` on.
pub write_loop : (to : ℕ) → List ℕ → Store → Store
write_loop to [] s = s
write_loop to (b ∷ bs) s = write_loop (to + 1) bs (bwrite to (content s b) s)

pub write_log : Log → Store → Store
write_log l s = write_loop (l.start + 1) l.blocks s

pub commit : Log → Store → Log × Store
commit l s =
    if ltb 0 (length l.blocks)
    then (let cleared = record l { blocks = [] } in
        (cleared, write_head cleared (install_trans l (write_head l (write_log l s)))))
    else (l, s)

abbrev pub one_more : ℤ → ℤ
one_more (pos n) = pos (suc n)
one_more (negsuc zero) = pos 0
one_more (negsuc (suc n)) = negsuc n

abbrev pub one_less : ℤ → ℤ
one_less (pos zero) = negsuc 0
one_less (pos (suc n)) = pos n
one_less (negsuc n) = negsuc (suc n)

-- `n + (outstanding + 1) * MAXOPBLOCKS > LOGSIZE`
abbrev pub short_of_space : ℕ → ℤ → Bool
short_of_space n (pos o) = ltb logsize (n + (o + 1) * maxopblocks)
short_of_space n (negsuc o) = ltb (logsize + o * maxopblocks) n

-- One round of the loop of `begin_op`: none if it sleeps.
pub begin_op : Log → Option Log
begin_op l =
    if l.committing
    then none
    else if short_of_space (length l.blocks) l.outstanding
    then none
    else some (record l { outstanding = one_more l.outstanding })

abbrev pub is_zero : ℤ → Bool
is_zero (pos zero) = true
is_zero _ = false

-- The first critical section of `end_op`, with `do_commit`.
pub end_op_start : Log → Result (Bool × Log)
end_op_start l =
    let less = record l { outstanding = one_less l.outstanding } in
    if l.committing
    then panic "log.committing"
    else if is_zero less.outstanding
    then ok (true, record less { committing = true })
    else ok (false, less)

-- what `end_op` does outside of the lock, and its second critical section
abbrev pub end_op_commit : Store → Bool × Log → Log × Store
end_op_commit s (true, l) = let (l', s') = commit l s in (record l' { committing = false }, s')
end_op_commit s (false, l) = (l, s)

pub end_op : Log → Store → Result (Log × Store)
end_op l s = end_op_start l >>= λ r. ok (end_op_commit s r)

abbrev pub below_one : ℤ → Bool
below_one (pos zero) = true
below_one (pos (suc n)) = false
below_one (negsuc n) = true

pub is_logged : ℕ → List ℕ → Bool
is_logged b [] = false
is_logged b (c ∷ cs) = c == b || is_logged b cs

abbrev pub absorb : ℕ → List ℕ → List ℕ
absorb b bs = if is_logged b bs then bs else bs ++ b ∷ []

-- `log_write` of the buffer of block `b` with the data `d`
pub log_write : ℕ → Block → Log → Store → Result (Log × Store)
log_write b d l s =
    if leb logsize (length l.blocks) || leb (l.size - 1) (length l.blocks)
    then panic "too big a transaction"
    else if below_one l.outstanding
    then panic "log_write outside of trans"
    else ok (record l { blocks = absorb b l.blocks }, pin b d s)
