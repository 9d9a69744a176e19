-- ===== src/File/Examples.antt =====
-- A table with one open file, over files that are functions from offsets to bytes.
use operating_system.Common.{
  ℕ, ◌+◌, ◌-◌, ◌≡◌, refl, arith, ◌&&◌, true, false, ltb, leb, ◌==◌, if◌then◌else◌, [], ◌∷◌, ok,
  ◌>>=◌,
}
use operating_system.Common.Int.{pos}
use operating_system.File.{fd_inode, fd_none, Files, Services, State, close_last}
use operating_system.File.Refs.{Balanced, run, run_closes}

record Inodes : Type 0 where
  bytes : ℕ → ℕ → ℕ
  sizes : ℕ → ℕ

-- the byte at an address of the user is the address
abbrev write_at : (j a off n : ℕ) → Inodes → Inodes
write_at j a off n w = record {
  bytes = λ k x. if k == j && (leb off x && ltb x (off + n)) then a + (x - off) else w.bytes k x;
  sizes = λ k. if k == j && ltb (w.sizes k) (off + n) then off + n else w.sizes k;
}

abbrev plain : Services Inodes (Unit {0})
plain = record {
  pipeclose = λ p b w. ok w;
  piperead = λ p a n w. ok (pos 0, w);
  pipewrite = λ p a n w. ok (pos 0, w);
  begin_op = λ w. ok w;
  end_op = λ w. ok w;
  iput = λ j w. ok w;
  ilock = λ j w. ok w;
  iunlock = λ j w. ok w;
  stati = λ j w. tt;
  readi = λ j a off n w. ok (pos 0, w);
  writei = λ j a off n w. ok (pos n, write_at j a off n w);
}

abbrev one_open : State Inodes
one_open = record {
  files = λ f. record {
    type = if f == 0 then fd_inode else fd_none;
    ref = if f == 0 then 1 else 0;
    readable = true;
    writable = true;
    pipe = 0;
    ip = 7;
    off = 10;
  };
  world = record { bytes = λ j x. 0; sizes = λ j. 20 };
}

run_closes_example :
    (t : Files) × ((t 0).ref ≡ 0)
    × ((t 0).type ≡ fd_none)
    × (run plain 0 (true ∷ false ∷ false ∷ []) one_open ≡ (
        close_last plain fd_inode (record (one_open.files 0) { ref = 0 }) one_open.world >>= λ w.
        ok (record { files = t; world = w })))
unfolding Balanced
run_closes_example =
    run_closes plain 0 (true ∷ false ∷ false ∷ []) one_open (omega arith)
      (omega arith, (omega arith, (omega arith, refl)))
