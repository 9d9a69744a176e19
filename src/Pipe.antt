-- ===== src/Pipe.antt =====
-- pipe.c: the ring of bytes between a reader and a writer. A call runs under `p->lock` until it
-- returns or sleeps; a sleeping call is entered again, with what it has left, at its `while` test.
-- `killed` is the flag of the calling process when the test is made.
pub mod Ring
pub mod Stream
pub mod Ends
mod Examples
use operating_system.Common.{
  ℕ, zero, suc, ◌+◌, ◌%◌, ◌^◌, ◌&&◌, ◌||◌, not, Bool, true, false, ◌==◌, if◌then◌else◌, List, [],
  ◌∷◌, get_or, set, length,
}
use operating_system.Common.Int.{ℤ, pos, negsuc}

abbrev pub pipe_size : ℕ
pipe_size = 512

abbrev pub u32 : ℕ → ℕ
u32 n = n % 2 ^ 32

-- `struct pipe`, without its lock; the two counters are of type uint.
pub record Pipe : Type 0 where
  pub buf : List ℕ
  pub nread : ℕ
  pub nwrite : ℕ
  pub readopen : Bool
  pub writeopen : Bool

-- where a process sleeps on a pipe: `&p->nread`, `&p->nwrite`
pub data Chan : Type 0 where
  at_nread at_nwrite : Chan

-- How a stretch of a call ends. `wakes` are its wakeup calls, in order.
pub data Ending : Type 0 where
  returned : ℤ → Ending
  sleeping : Chan → Ending

pub record WriteRun : Type 0 where
  pub pipe : Pipe
  pub ending : Ending
  pub rest : List ℕ
  pub wakes : List Chan

pub record ReadRun : Type 0 where
  pub pipe : Pipe
  pub ending : Ending
  pub got : List ℕ
  pub wakes : List Chan

abbrev pub full : Pipe → Bool
full p = p.nwrite == u32 (p.nread + pipe_size)

abbrev pub empty : Pipe → Bool
empty p = p.nread == p.nwrite

-- `p->data[p->nwrite++ % PIPESIZE] = c`
abbrev pub put : Pipe → ℕ → Pipe
put p c = record p { buf = set p.buf (p.nwrite % pipe_size) c; nwrite = u32 (p.nwrite + 1) }

-- `n` is the argument, the list is `addr[i..n)`.
pub pipewrite : (killed : Bool) (n : ℕ) → List ℕ → Pipe → WriteRun
pipewrite killed n [] p = record {
  pipe = p;
  ending = returned (pos n);
  rest = [];
  wakes = at_nread ∷ [];
}
pipewrite killed n (c ∷ cs) p = elim (full p) [
  | true ↦
      if not p.readopen || killed
      then record { pipe = p; ending = returned (negsuc 0); rest = c ∷ cs; wakes = [] }
      else record { pipe = p; ending = sleeping at_nwrite; rest = c ∷ cs; wakes = at_nread ∷ [] }
  | false ↦ pipewrite killed n cs (put p c)
]

-- `wakeup(&p->nwrite); ... return i;`
abbrev finish : List ℕ × Pipe → ReadRun
finish (cs, p) = record {
  pipe = p;
  ending = returned (pos (length cs));
  got = cs;
  wakes = at_nwrite ∷ [];
}

-- `for(i = 0; i < n; i++)`: the bytes read, and the pipe behind them
pub read_loop : ℕ → Pipe → List ℕ × Pipe
read_loop zero p = ([], p)
read_loop (suc n) p = elim (empty p) [
  | true ↦ ([], p)
  | false ↦
      let (cs, p') = read_loop n (record p { nread = u32 (p.nread + 1) }) in
      (get_or p.buf (p.nread % pipe_size) 0 ∷ cs, p')
]

pub piperead : (killed : Bool) (n : ℕ) → Pipe → ReadRun
unfolding read_loop
piperead killed n p =
    if empty p && p.writeopen
    then (if killed
        then record { pipe = p; ending = returned (negsuc 0); got = []; wakes = [] }
        else record { pipe = p; ending = sleeping at_nread; got = []; wakes = [] })
    else finish (read_loop n p)

-- The page of the pipe is freed by the second close: the flag says so.
pub record CloseRun : Type 0 where
  pub pipe : Pipe
  pub freed : Bool
  pub wakes : List Chan

pub pipeclose : (writable : Bool) → Pipe → CloseRun
pipeclose writable p =
    let p' = if writable then record p { writeopen = false } else record p { readopen = false } in
    record {
      pipe = p';
      freed = not p'.readopen && not p'.writeopen;
      wakes = (if writable then at_nread else at_nwrite) ∷ [];
    }

-- the fields that `pipealloc` sets; the page's bytes are what kalloc left there
pub pipe_new : List ℕ → Pipe
pipe_new junk = record { buf = junk; nread = 0; nwrite = 0; readopen = true; writeopen = true }
