-- ===== src/File/Write.antt =====
-- filewrite: many transactions do the work of one write.
use operating_system.Common.{
  ℕ, ◌+◌, ◌-◌, ◌^◌, ◌≤◌, ◌<◌, ◌≡◌, ◌&&◌, false, ltb, leb, ◌==◌, if◌then◌else◌, ok,
}
use operating_system.Common.Int.{pos}
use operating_system.File.{File, Services, State}

module _ {W : Type 0} {Stat : Type 0} (sv : Services W Stat) where
  -- What filewrite relies on of fs.c and log.c, where no call panics: the bytes of a file change
  -- only in writei, which writes what it is asked to if it starts within the file and ends below
  -- the size limit.
  pub record Laws (limit : ℕ) (mem : ℕ → ℕ) (content : W → ℕ → ℕ → ℕ) (size : W → ℕ → ℕ)
      : Type 0 where
    pub limit_lt : limit < 2 ^ 32
    pub begins :
        (w : W) → (w' : W) × (sv.begin_op w ≡ ok w') × (content w' ≡ content w) × (size w' ≡ size w)
    pub ends :
        (w : W) → (w' : W) × (sv.end_op w ≡ ok w') × (content w' ≡ content w) × (size w' ≡ size w)
    pub locks :
        (j : ℕ) (w : W)
        → (w' : W) × (sv.ilock j w ≡ ok w') × (content w' ≡ content w) × (size w' ≡ size w)
    pub unlocks :
        (j : ℕ) (w : W)
        → (w' : W) × (sv.iunlock j w ≡ ok w') × (content w' ≡ content w) × (size w' ≡ size w)
    pub writes :
        (j a off n : ℕ) (w : W)
        → off ≤ size w j
        → off + n ≤ limit
        → (w' : W) × (sv.writei j a off n w ≡ ok (pos n, w'))
          × ((k x : ℕ)
              → content w' k x ≡ (
                  if k == j && (leb off x && ltb x (off + n))
                  then mem (a + (x - off))
                  else content w k x))
          × (off + n ≤ size w' j)

  module _ {limit : ℕ} {mem : ℕ → ℕ} {content : W → ℕ → ℕ → ℕ} {size : W → ℕ → ℕ}
      (laws : Laws limit mem content size) where
    -- `n` bytes from `addr` were written to file `f` at its offset, which has moved behind them.
    pub record Wrote (f addr n : ℕ) (s s' : State W) : Type 0 where
      pub off : (s'.files f).off ≡ (s.files f).off + n
      pub ip : (s'.files f).ip ≡ (s.files f).ip
      pub others : (j : ℕ) → (j == f) ≡ false → s'.files j ≡ s.files j
      pub inside : (s'.files f).off ≤ size s'.world (s.files f).ip
      pub bytes :
          (k x : ℕ)
          → content s'.world k x ≡ (
              if k == (s.files f).ip && (leb (s.files f).off x && ltb x ((s.files f).off + n))
              then mem (addr + (x - (s.files f).off))
              else content s.world k x)
