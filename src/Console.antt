-- ===== src/Console.antt =====
-- console.c: the line that is edited, the reader, the screen, and the printing of numbers.
pub mod Held
pub mod Keys
pub mod Lines
pub mod Print
pub mod Screen
mod Examples
use operating_system.Common.{
  ℕ, zero, suc, ◌+◌, ◌*◌, ◌/◌, ◌%◌, ◌^◌, ◌-◌, ◌&&◌, ◌||◌, not, Bool, true, false, ltb, leb, ◌==◌,
  if◌then◌else◌, List, [], ◌∷◌, ◌++◌, Result, ok, panic, ◌>>=◌,
}
use operating_system.Common.Int.{ℤ, pos, negsuc}

abbrev pub input_buf : ℕ
input_buf = 128

-- what consputc is given to erase a character
abbrev pub backspace : ℕ
backspace = 256

-- `input`; the three indices are of type uint, and the bytes between them lie in a ring.
pub record Input : Type 0 where
  pub buf : ℕ → ℕ
  pub r : ℕ
  pub w : ℕ
  pub e : ℕ

-- The state under `cons.lock`: `screen` has what consputc was given, the newest first, `woken` says
-- that readers were woken, and `dump` that procdump is to run.
pub record Console : Type 0 where
  pub input : Input
  pub screen : List ℕ
  pub woken : Bool
  pub dump : Bool

abbrev pub shown : ℕ → Console → Console
shown c k = record k { screen = c ∷ k.screen }

-- `input.e-1` on uint
abbrev pub before : ℕ → ℕ
before e = (e + (2 ^ 32 - 1)) % 2 ^ 32

-- `input.e--; consputc(BACKSPACE);`
abbrev pub erase : Console → Console
erase k = record k {
  input = record (k.input) { e = before k.input.e };
  screen = backspace ∷ k.screen;
}

-- the loop of Control-U, with fuel
pub kill_line : ℕ → Console → Console
kill_line zero k = k
kill_line (suc fuel) k =
    elim (k.input.e == k.input.w || k.input.buf (before k.input.e % input_buf) == 10) [
      | true ↦ k
      | false ↦ kill_line fuel (erase k)
    ]

-- `c = (c == '\r') ? '\n' : c`
abbrev pub newline : ℕ → ℕ
newline c = if c == 13 then 10 else c

-- `input.buf[input.e++ % INPUT_BUF] = c`
abbrev pub append : ℕ → Input → Input
append c i = record i {
  buf = λ x. if x == i.e % input_buf then c % 256 else i.buf x;
  e = (i.e + 1) % 2 ^ 32;
}

-- The line is complete: Return, Control-D, or a full buffer.
abbrev pub complete : ℕ → Input → Bool
complete c i = c == 10 || c == 4 || i.e == (i.r + input_buf) % 2 ^ 32

abbrev pub enter : ℕ → Console → Console
enter c k =
    let i = append c k.input in
    if complete c i
    then record { input = record i { w = i.e }; screen = c ∷ k.screen; woken = true; dump = k.dump }
    else record k { input = i; screen = c ∷ k.screen }

-- The switch of `consoleintr` on one character.
pub key : ℕ → Console → Console
unfolding kill_line
key c k =
    if c == 16
    then record k { dump = true }
    else if c == 21
    then kill_line input_buf k
    else if c == 8 || c == 127
    then (if k.input.e == k.input.w then k else erase k)
    else if not (c == 0) && ltb ((k.input.e + 2 ^ 32 - k.input.r) % 2 ^ 32) input_buf
    then enter (newline c) k
    else k

-- `consoleintr`, on the characters that getc gives before it gives a negative one. Its caller's
-- procdump stands for itself: `dump` says that it runs.
pub consoleintr : List ℕ → Console → Console
unfolding key
consoleintr [] k = k
consoleintr (c ∷ cs) k = consoleintr cs (key c k)

-- how a stretch of `consoleread` ends; a sleeping call has `left` bytes to go
pub data Ending : Type 0 where
  returned : ℤ → Ending
  sleeping : (left : ℕ) → Ending

pub record ReadRun : Type 0 where
  pub input : Input
  pub got : List ℕ
  pub ending : Ending

abbrev pub got_byte : ℕ → ReadRun → ReadRun
got_byte c run = record run { got = c ∷ run.got }

-- `input.r++`
abbrev pub pass : Input → Input
pass i = record i { r = (i.r + 1) % 2 ^ 32 }

-- The loop of `consoleread` with `n` bytes to go of `target`, between its calls on the inode's lock.
unfoldable pub consoleread : (killed : Bool) (target n : ℕ) → Input → ReadRun
consoleread killed target zero i = record { input = i; got = []; ending = returned (pos target) }
consoleread killed target (suc n) i = elim (i.r == i.w) [
  | true ↦ record {
    input = i;
    got = [];
    ending = if killed then returned (negsuc 0) else sleeping (suc n);
  }
  | false ↦
      let c = i.buf (i.r % input_buf) in
      elim (c == 4) [
        | true ↦ record {
          input = if ltb (suc n) target then i else pass i;
          got = [];
          ending = returned (pos (target - suc n));
        }
        | false ↦ elim (c == 10) [
          | true ↦ record { input = pass i; got = c ∷ []; ending = returned (pos (target - n)) }
          | false ↦ got_byte c (consoleread killed target n (pass i))
        ]
      ]
]

-- `consolewrite` between its two calls on the inode's lock
pub consolewrite : List ℕ → Console → Console
consolewrite [] k = k
consolewrite (c ∷ cs) k = consolewrite cs (shown (c % 256) k)

-- the cursor and the words of the CGA memory, 80 to a row
pub record Cga : Type 0 where
  pub pos : ℕ
  pub crt : ℕ → ℕ

-- where the character goes and the cursor stands behind it; the colour is 7, in the high byte
pub placed : ℕ → Cga → Cga
placed c g =
    if c == 10
    then record g { pos = g.pos + (80 - g.pos % 80) }
    else if c == backspace
    then record g { pos = g.pos - 1 }
    else record { pos = g.pos + 1; crt = λ x. if x == g.pos then c % 256 + 0x700 else g.crt x }

-- `memmove` of 23 rows up by one, and `memset` of the rest of the 24
abbrev pub scroll : Cga → Cga
scroll g = record {
  pos = g.pos - 80;
  crt = λ x.
      if leb (g.pos - 80) x && ltb x (24 * 80)
      then 0
      else if ltb x (23 * 80)
      then g.crt (x + 80)
      else g.crt x;
}

abbrev pub cursor : Cga → Cga
cursor g = record g { crt = λ x. if x == g.pos then 0x720 else g.crt x }

pub cgaputc : ℕ → Cga → Result Cga
unfolding placed
cgaputc c g =
    let h = placed c g in
    if ltb (25 * 80) h.pos
    then panic "pos under/overflow"
    else ok (cursor (if leb 24 (h.pos / 80) then scroll h else h))

-- `digits[d]`
abbrev pub digit : ℕ → ℕ
digit d = if ltb d 10 then d + 48 else d + 87

-- The `do` loop of `printint`. `buf` is newest first, the order in which it is printed.
pub push_digits : (fuel base x : ℕ) → List ℕ → List ℕ
push_digits zero base x buf = buf
push_digits (suc fuel) base x buf = elim (x / base == 0) [
  | true ↦ digit (x % base) ∷ buf
  | false ↦ push_digits fuel base (x / base) (digit (x % base) ∷ buf)
]

-- What `printint` prints of the 32-bit number `xx`, with a round for each of at most `xx` digits.
unfoldable pub printint : (xx base : ℕ) (sign : Bool) → List ℕ
unfolding push_digits
printint xx base sign =
    if sign && leb (2 ^ 31) xx
    then 45 ∷ push_digits (2 ^ 32 - xx + 1) base ((2 ^ 32 - xx) % 2 ^ 32) []
    else push_digits (xx + 1) base xx []
