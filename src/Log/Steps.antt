-- ===== src/Log/Steps.antt =====
-- The steps of the system calls on the log, and the space that they reserve.
use operating_system.Common.{
  ℕ, suc, ◌+◌, ◌*◌, ◌≤◌, ◌<◌, ◌≡◌, arith, Bool, true, false, List, [], ◌∷◌, ◌++◌, none, some,
  length, ok,
}
use operating_system.Common.Int.{pos}
use operating_system.Log.{
  Block, Store, Log, is_logged, begin_op, end_op_start, end_op_commit, log_write, logsize,
  maxopblocks,
}
use operating_system.Log.Loops.{in_area}

abbrev pub sum : List ℕ → ℕ
sum [] = 0
sum (x ∷ xs) = x + sum xs

pub sum-append : (xs ys : List ℕ) → sum (xs ++ ys) ≡ sum xs + sum ys
sum-append [] ys = omega arith
sum-append (x ∷ xs) ys = omega (arith, sum-append xs ys)

-- no system call may write more than MAXOPBLOCKS blocks
unfoldable pub Each : List ℕ → Type 0
Each [] = Unit
Each (x ∷ xs) = (x ≤ maxopblocks) × Each xs

pub sum-Each : (xs : List ℕ) → Each xs → sum xs ≤ length xs * maxopblocks
unfolding Each
sum-Each [] e = omega arith
sum-Each (x ∷ xs) (h, e) = let i = sum-Each xs e in omega arith

pub Each-change :
    (xs ys : List ℕ) (k : ℕ)
    → Each (xs ++ k ∷ ys)
    → Each (xs ++ ys) × ((j : ℕ) → j ≤ k → Each (xs ++ j ∷ ys))
unfolding Each
Each-change [] ys k (h, e) = (e, λ j le. (omega arith, e))
Each-change (x ∷ xs) ys k (h, e) =
    let (rest, smaller) = Each-change xs ys k e in ((h, rest), λ j le. (h, smaller j le))

-- A step of the system calls. `left` has for each that is between begin_op and end_op the count of
-- blocks that it may still write. Each starts with MAXOPBLOCKS, and writes no block of the log.
pub data Step (l : Log) (s : Store) : List ℕ → Log → Store → List ℕ → Type 0 where
  begins :
      (left : List ℕ) (l' : Log) → begin_op l ≡ some l' → Step l s left l' s (maxopblocks ∷ left)
  writes :
      (xs ys : List ℕ) (k b : ℕ) (d : Block) (l' : Log) (s' : Store)
      → in_area l.start logsize b ≡ false
      → log_write b d l s ≡ ok (l', s')
      → Step l s (xs ++ suc k ∷ ys) l' s' (xs ++ k ∷ ys)
  ends :
      (xs ys : List ℕ) (k : ℕ) (c : Bool) (l' : Log)
      → end_op_start l ≡ ok (c, l')
      → Step l s (xs ++ k ∷ ys) l' s (xs ++ ys)
  commits :
      (x : Log × Store)
      → l.committing ≡ true
      → length l.blocks + length l.blocks + 1 < s.power
      → end_op_commit s (true, l) ≡ x
      → Step l s [] x.0 x.1 []
  charged : (left : List ℕ) (p : ℕ) → Step l s left l (record s { power = p }) left

pub record Invariant (l : Log) (s : Store) (left : List ℕ) : Type 0 where
  pub count : l.outstanding ≡ pos (length left)
  pub each : Each left
  pub space : length l.blocks + sum left ≤ logsize
  pub idle : l.committing ≡ true → left ≡ []
  pub outside : (b : ℕ) → is_logged b l.blocks ≡ true → in_area l.start logsize b ≡ false
  pub listed : (b : ℕ) → is_logged b l.blocks ≡ false → s.dirty b ≡ none
  pub cleared : s.disk l.start 0 ≡ 0
