-- ===== src/Fs/Bitmap.antt =====
-- balloc and bfree against the set of blocks in use.
use operating_system.Common.{
  ℕ, zero, suc, ◌+◌, ◌*◌, ◌/◌, ◌%◌, ◌≤◌, ◌<◌, ◌≡◌, ◌≢◌, inl, inr, refl, sym, ap, subst, ◌∙◌, arith,
  false, ltb, ◌==◌, if◌then◌else◌, Option, none, some, Bool-cases, Result, ok, panic,
}
use operating_system.Fs.{
  bpb, Block, Fs, bblock, log_write, bzero, bit, set_bit, find_bit, take_or_go, balloc_loop, balloc,
}
use operating_system.Fs.Bits.{bit-set_bit, set_bit-lt}

-- whether the bitmap says that block `b` is in use, as 0 or 1
abbrev pub used : Fs → ℕ → ℕ
used fs b = bit (fs.blocks (bblock b fs.sb)) (b % bpb)

-- The bitmap is made of bytes, and lies in blocks of the device that are in use, as is the boot block.
pub record IsBitmap (fs : Fs) : Type 0 where
  pub bytes : (b x : ℕ) → b < fs.sb.size → x < 512 → fs.blocks (bblock b fs.sb) x < 256
  pub inside : (b : ℕ) → b < fs.sb.size → bblock b fs.sb < fs.sb.size
  pub own : (b : ℕ) → b < fs.sb.size → used fs (bblock b fs.sb) ≢ 0
  pub nonempty : 0 < fs.sb.size
  pub boot : used fs 0 ≢ 0

-- A free block `b` was taken.
pub record Takes (fs : Fs) (b : ℕ) (fs' : Fs) : Type 0 where
  pub inside : b < fs.sb.size
  pub was_free : used fs b ≡ 0
  pub same_sb : fs'.sb ≡ fs.sb
  pub marks : (c : ℕ) → c < fs.sb.size → used fs' c ≡ (if c == b then 1 else used fs c)
  pub zeroed : (x : ℕ) → fs'.blocks b x ≡ 0
  pub others :
      (c : ℕ) → c ≢ b → ((e : ℕ) → e < fs.sb.size → bblock e fs.sb ≢ c) → fs'.blocks c ≡ fs.blocks c
  pub valid : IsBitmap fs'

-- the ways in which balloc ends
pub data BallocSpec (fs : Fs) : Result (ℕ × Fs) → Type 0 where
  takes : (b : ℕ) (fs' : Fs) → Takes fs b fs' → BallocSpec fs (ok (b, fs'))
  full : ((b : ℕ) → b < fs.sb.size → used fs b ≢ 0) → BallocSpec fs (panic "balloc: out of blocks")

find_bit-some :
    (n : ℕ) (d : Block) (size b bi j : ℕ)
    → find_bit n d size b bi ≡ some j
    → (bi ≤ j) × (j < bi + n) × (b + j < size) × (bit d j ≡ 0)
unfolding find_bit
find_bit-some zero d size b bi j e = cc
find_bit-some (suc n) d size b bi j e = elim (Bool-cases (ltb (b + bi) size)) [
  | inl below ↦ elim (Bool-cases (bit d bi == 0)) [
    | inl clear ↦
        let e' : some bi ≡ some j = rw (find_bit, below, clear) at e in
        let same : bi ≡ j = cc in
        (omega arith, omega arith, ground arith, rw (← same) (ground arith))
    | inr marked ↦
        let e' : find_bit n d size b (bi + 1) ≡ some j = rw (find_bit, below, marked) at e in
        let (lo, hi, lt, z) = find_bit-some n d size b (bi + 1) j e' in
        (omega arith, omega arith, lt, z)
  ]
  | inr above ↦ let e' : none ≡ some j = rw (find_bit, above) at e in cc
]

find_bit-none :
    (n : ℕ) (d : Block) (size b bi j : ℕ)
    → find_bit n d size b bi ≡ none
    → bi ≤ j
    → j < bi + n
    → b + j < size
    → bit d j ≢ 0
unfolding find_bit
find_bit-none zero d size b bi j e lo hi lt = absurd (omega arith)
find_bit-none (suc n) d size b bi j e lo hi lt = elim (Bool-cases (ltb (b + bi) size)) [
  | inl below ↦ elim (Bool-cases (bit d bi == 0)) [
    | inl clear ↦ let e' : some bi ≡ none = rw (find_bit, below, clear) at e in cc
    | inr marked ↦
        let e' : find_bit n d size b (bi + 1) ≡ none = rw (find_bit, below, marked) at e in
        elim (Bool-cases (j == bi)) [
          | inl here ↦ let same : bi ≡ j = ground arith in rw (← same) (λ z. ground arith)
          | inr later ↦ find_bit-none n d size b (bi + 1) j e' (ground arith) (omega arith) lt
        ]
  ]
  | inr above ↦ absurd (ground arith)
]

module _ (fs : Fs) (v : IsBitmap fs) (b bi : ℕ) (start : b % bpb ≡ 0) (lt : bi < bpb)
    (below : b + bi < fs.sb.size) (clear : bit (fs.blocks (bblock b fs.sb)) bi ≡ 0) where
  d : Block
  d = fs.blocks (bblock b fs.sb)

  taken : Fs
  taken = bzero (b + bi) (log_write (bblock b fs.sb) (set_bit bi d) fs)

  free_before : used fs (b + bi) ≡ 0
  free_before =
      let same : bblock (b + bi) fs.sb ≡ bblock b fs.sb = omega arith in
      let place : (b + bi) % bpb ≡ bi = omega arith in rw (same, place) clear

  byte : d (bi / 8) < 256
  unfolding d
  byte = v.bytes b (bi / 8) (omega arith) (omega arith)

  apart : (e : ℕ) → e < fs.sb.size → (bblock e fs.sb == b + bi) ≡ false
  apart e he = elim (Bool-cases (bblock e fs.sb == b + bi)) [
    | inl same ↦
        let h : bblock e fs.sb ≡ b + bi = ground arith in
        absurd (v.own e he (ap (used fs) h ∙ free_before))
    | inr other ↦ other
  ]

  -- the blocks of the bitmap afterwards
  map_after :
      (e : ℕ)
      → e < fs.sb.size
      → taken.blocks (bblock e fs.sb)
        ≡ (if bblock e fs.sb == bblock b fs.sb then set_bit bi d else fs.blocks (bblock e fs.sb))
  unfolding taken bzero
  map_after e he = rw (apart e he) refl

  marks_of : (c : ℕ) → c < fs.sb.size → used taken c ≡ (if c == b + bi then 1 else used fs c)
  unfolding d taken bzero
  marks_of c hc = elim (Bool-cases (bblock c fs.sb == bblock b fs.sb)) [
    | inl same ↦
        let h : bblock c fs.sb ≡ bblock b fs.sb = ground arith in
        let after : taken.blocks (bblock c fs.sb) ≡ set_bit bi d = map_after c hc ∙ rw same refl in
        let place : (bi == c % bpb) ≡ (c == b + bi) = ground arith in
        ap (λ x. bit x (c % bpb)) after
        ∙ (bit-set_bit d bi (c % bpb) byte clear ∙ rw (place, h) refl)
    | inr other ↦
        let after : taken.blocks (bblock c fs.sb) ≡ fs.blocks (bblock c fs.sb) =
          map_after c hc ∙ rw other refl in
        let ne : (c == b + bi) ≡ false = ground arith in rw ne (ap (λ x. bit x (c % bpb)) after)
  ]

  still : (c : ℕ) → c < fs.sb.size → used fs c ≢ 0 → used taken c ≢ 0
  still c hc h z =
      let m = marks_of c hc in
      elim (Bool-cases (c == b + bi)) [
        | inl same ↦ let one : used taken c ≡ 1 = m ∙ rw same refl in absurd (omega arith)
        | inr other ↦ h (sym (m ∙ rw other refl) ∙ z)
      ]

  bytes_after : (e x : ℕ) → e < fs.sb.size → x < 512 → taken.blocks (bblock e fs.sb) x < 256
  unfolding d
  bytes_after e x he hx = elim (Bool-cases (bblock e fs.sb == bblock b fs.sb)) [
    | inl same ↦
        let h : bblock e fs.sb ≡ bblock b fs.sb = ground arith in
        let after : taken.blocks (bblock e fs.sb) ≡ set_bit bi d = map_after e he ∙ rw same refl in
        subst (λ (k : Block). k x < 256) (sym after)
          (set_bit-lt d bi x byte (v.bytes b x (omega arith) hx) clear)
    | inr other ↦
        let after : taken.blocks (bblock e fs.sb) ≡ fs.blocks (bblock e fs.sb) =
          map_after e he ∙ rw other refl in
        subst (λ (k : Block). k x < 256) (sym after) (v.bytes e x he hx)
  ]

  others_same :
      (c : ℕ)
      → c ≢ b + bi
      → ((e : ℕ) → e < fs.sb.size → bblock e fs.sb ≢ c)
      → taken.blocks c ≡ fs.blocks c
  unfolding taken bzero
  others_same c ne meta =
      let n1 : (c == b + bi) ≡ false = ground arith in
      let m : bblock b fs.sb ≢ c = meta b (omega arith) in
      let n2 : (c == bblock b fs.sb) ≡ false = ground arith in rw (n1, n2) refl

  taken-Takes : Takes fs (b + bi) taken
  unfolding taken bzero
  taken-Takes = record {
    inside = below;
    was_free = free_before;
    same_sb = refl;
    marks = marks_of;
    zeroed = λ x. ground arith;
    others = others_same;
    valid = record {
      bytes = λ e x he hx. bytes_after e x he hx;
      inside = v.inside;
      own = λ e he. still (bblock e fs.sb) (v.inside e he) (v.own e he);
      nonempty = v.nonempty;
      boot = still 0 (omega arith) v.boot;
    };
  }

-- A round takes a block if its part of the bitmap has a free one, and else leaves it to the rest.
round-BallocSpec :
    (fs : Fs) (b : ℕ) (o : Option ℕ) (rest : Result (ℕ × Fs))
    → IsBitmap fs
    → b % bpb ≡ 0
    → find_bit bpb (fs.blocks (bblock b fs.sb)) fs.sb.size b 0 ≡ o
    → ((c : ℕ) → c < b → c < fs.sb.size → used fs c ≢ 0)
    → (((c : ℕ) → c < b + bpb → c < fs.sb.size → used fs c ≢ 0) → BallocSpec fs rest)
    → BallocSpec fs (take_or_go fs b o rest)
unfolding taken d
round-BallocSpec fs b (some bi) rest v start e before later =
    let (_, lt, below, clear) =
      find_bit-some bpb (fs.blocks (bblock b fs.sb)) fs.sb.size b 0 bi e in
    takes (b + bi) (taken fs v b bi start lt below clear)
      (taken-Takes fs v b bi start lt below clear)
round-BallocSpec fs b none rest v start e before later = later λ c hi lt.
    elim (Bool-cases (ltb c b)) [
      | inl old ↦ before c (ground arith) lt
      | inr new ↦
          let same : bblock c fs.sb ≡ bblock b fs.sb = ground arith in
          let at : b + c % bpb ≡ c = ground arith in
          rw same (
            find_bit-none bpb (fs.blocks (bblock b fs.sb)) fs.sb.size b 0 (c % bpb) e (omega arith)
              (omega arith) (omega arith))
    ]

balloc_loop-BallocSpec :
    (fuel b : ℕ) (fs : Fs)
    → IsBitmap fs
    → b % bpb ≡ 0
    → b < fs.sb.size + bpb
    → fs.sb.size + bpb ≤ b + fuel * bpb
    → ((c : ℕ) → c < b → c < fs.sb.size → used fs c ≢ 0)
    → BallocSpec fs (balloc_loop fuel b fs)
unfolding balloc_loop
balloc_loop-BallocSpec zero b fs v start near enough before = absurd (omega arith)
balloc_loop-BallocSpec (suc fuel) b fs v start near enough before =
    elim (Bool-cases (ltb b fs.sb.size)) [
      | inl more ↦
          rw (balloc_loop, more)
            (round-BallocSpec fs b (find_bit bpb (fs.blocks (bblock b fs.sb)) fs.sb.size b 0)
              (balloc_loop fuel (b + bpb) fs) v start refl before
              (λ all.
                balloc_loop-BallocSpec fuel (b + bpb) fs v (omega arith) (ground arith)
                  (omega arith) all))
      | inr done ↦ rw (balloc_loop, done) (full (λ c lt. before c (ground arith) lt))
    ]

-- On a valid bitmap balloc ends: it takes a free block of the device, marks it, zeroes it, changes
-- no other mark and no other block but those of the bitmap, and leaves the bitmap valid; or, if
-- every block is in use, it panics.
pub balloc-BallocSpec : (fs : Fs) → IsBitmap fs → BallocSpec fs (balloc fs)
unfolding balloc
balloc-BallocSpec fs v =
    balloc_loop-BallocSpec (fs.sb.size / bpb + 2) 0 fs v (omega arith) (omega arith) (omega arith)
      (λ c lo lt. absurd (omega arith))
