-- ===== src/Fs/Free.antt =====
-- bfree of fs.c against the set of blocks in use.
use operating_system.Common.{
  ℕ, ◌/◌, ◌%◌, ◌<◌, ◌≡◌, ◌≢◌, inl, inr, refl, sym, ap, subst, ◌∙◌, arith, false, ◌==◌,
  if◌then◌else◌, Bool-cases, Result, ok, panic,
}
use operating_system.Fs.{bpb, Block, Fs, bblock, log_write, bit, clear_bit, bfree}
use operating_system.Fs.Bits.{bit-clear_bit, clear_bit-lt}
use operating_system.Fs.Bitmap.{used, IsBitmap}

-- Block `b` was given back.
pub record Gives (fs : Fs) (b : ℕ) (fs' : Fs) : Type 0 where
  pub same_sb : fs'.sb ≡ fs.sb
  pub marks : (c : ℕ) → c < fs.sb.size → used fs' c ≡ (if c == b then 0 else used fs c)
  pub others :
      (c : ℕ) → ((e : ℕ) → e < fs.sb.size → bblock e fs.sb ≢ c) → fs'.blocks c ≡ fs.blocks c
  pub valid : IsBitmap fs'

module _ (fs : Fs) (v : IsBitmap fs) (b : ℕ) (lt : b < fs.sb.size) (nz : b ≢ 0)
    (meta : (e : ℕ) → e < fs.sb.size → bblock e fs.sb ≢ b) (marked : used fs b ≢ 0) where
  d : Block
  d = fs.blocks (bblock b fs.sb)

  freed : Fs
  freed = log_write (bblock b fs.sb) (clear_bit (b % bpb) d) fs

  map_after :
      (e : ℕ)
      → freed.blocks (bblock e fs.sb) ≡ (
          if bblock e fs.sb == bblock b fs.sb
          then clear_bit (b % bpb) d
          else fs.blocks (bblock e fs.sb))
  unfolding freed
  map_after e = refl

  byte : d (b % bpb / 8) < 256
  unfolding d
  byte = v.bytes b (b % bpb / 8) lt (omega arith)

  marks_of : (c : ℕ) → c < fs.sb.size → used freed c ≡ (if c == b then 0 else used fs c)
  unfolding d freed
  marks_of c hc = elim (Bool-cases (bblock c fs.sb == bblock b fs.sb)) [
    | inl same ↦
        let h : bblock c fs.sb ≡ bblock b fs.sb = ground arith in
        let after : freed.blocks (bblock c fs.sb) ≡ clear_bit (b % bpb) d =
          map_after c ∙ rw same refl in
        let place : (b % bpb == c % bpb) ≡ (c == b) = ground arith in
        ap (λ x. bit x (c % bpb)) after
        ∙ (bit-clear_bit d (b % bpb) (c % bpb) byte marked ∙ rw (place, h) refl)
    | inr other ↦
        let after : freed.blocks (bblock c fs.sb) ≡ fs.blocks (bblock c fs.sb) =
          map_after c ∙ rw other refl in
        let ne : (c == b) ≡ false = ground arith in rw ne (ap (λ x. bit x (c % bpb)) after)
  ]

  bytes_after : (e x : ℕ) → e < fs.sb.size → x < 512 → freed.blocks (bblock e fs.sb) x < 256
  unfolding d
  bytes_after e x he hx = elim (Bool-cases (bblock e fs.sb == bblock b fs.sb)) [
    | inl same ↦
        let after : freed.blocks (bblock e fs.sb) ≡ clear_bit (b % bpb) d =
          map_after e ∙ rw same refl in
        subst (λ (k : Block). k x < 256) (sym after)
          (clear_bit-lt d (b % bpb) x (v.bytes b x lt hx))
    | inr other ↦
        let after : freed.blocks (bblock e fs.sb) ≡ fs.blocks (bblock e fs.sb) =
          map_after e ∙ rw other refl in
        subst (λ (k : Block). k x < 256) (sym after) (v.bytes e x he hx)
  ]

  still : (c : ℕ) → c < fs.sb.size → c ≢ b → used fs c ≢ 0 → used freed c ≢ 0
  still c hc ne h z =
      let m = marks_of c hc in
      let t : (c == b) ≡ false = ground arith in h (sym (m ∙ rw t refl) ∙ z)

  freed-Gives : Gives fs b freed
  unfolding freed
  freed-Gives = record {
    same_sb = refl;
    marks = marks_of;
    others = λ c ne.
        let n = ne b lt in let t : (c == bblock b fs.sb) ≡ false = ground arith in rw t refl;
    valid = record {
      bytes = λ e x he hx. bytes_after e x he hx;
      inside = v.inside;
      own = λ e he. still (bblock e fs.sb) (v.inside e he) (meta e he) (v.own e he);
      nonempty = v.nonempty;
      boot = still 0 v.nonempty (λ z. nz (sym z)) v.boot;
    };
  }

-- the ways in which bfree ends
pub data BfreeSpec (fs : Fs) (b : ℕ) : Result Fs → Type 0 where
  gives : used fs b ≢ 0 → (fs' : Fs) → Gives fs b fs' → BfreeSpec fs b (ok fs')
  was_free : used fs b ≡ 0 → BfreeSpec fs b (panic "freeing free block")

-- bfree of a block that is in the device, not the first and not of the bitmap: it clears the mark
-- of a block in use and no other, or panics if the block is free.
bfree-BfreeSpec :
    (b : ℕ) (fs : Fs)
    → IsBitmap fs
    → b < fs.sb.size
    → b ≢ 0
    → ((e : ℕ) → e < fs.sb.size → bblock e fs.sb ≢ b)
    → BfreeSpec fs b (bfree b fs)
unfolding bfree freed d
bfree-BfreeSpec b fs v lt nz meta = elim (Bool-cases (used fs b == 0)) [
  | inl clear ↦ rw (bfree, clear) (was_free (ground arith))
  | inr marked ↦
      let m : used fs b ≢ 0 = λ z. ground arith in
      rw (bfree, marked) (gives m (freed fs v b lt nz meta m) (freed-Gives fs v b lt nz meta m))
]

-- of a block in use
pub bfree-Gives :
    (b : ℕ) (fs : Fs)
    → IsBitmap fs
    → b < fs.sb.size
    → b ≢ 0
    → ((e : ℕ) → e < fs.sb.size → bblock e fs.sb ≢ b)
    → used fs b ≢ 0
    → (fs' : Fs) × (bfree b fs ≡ ok fs') × Gives fs b fs'
bfree-Gives b fs v lt nz meta m = from (bfree b fs) (bfree-BfreeSpec b fs v lt nz meta)
  where
    from : (r : Result Fs) → BfreeSpec fs b r → (fs' : Fs) × (r ≡ ok fs') × Gives fs b fs'
    from (ok fs') (gives n fs1 g) = (fs1, refl, g)
    from (panic s) (was_free z) = absurd (m z)
