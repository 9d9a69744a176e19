-- ===== src/Fs/Swap/Pages.antt =====
-- swapwrite and swapread of fs.c on the same page.
use operating_system.Common.{
  ℕ, zero, suc, ◌+◌, ◌*◌, ◌/◌, ◌%◌, ◌-◌, ◌≤◌, ◌<◌, ◌≡◌, ◌⊎◌, inl, inr, refl, sym, ap, subst, ◌∙◌,
  arith, ◌&&◌, true, false, ltb, leb, ◌==◌, if◌then◌else◌, Bool-cases, Result, ok, panic,
}
use operating_system.Fs.Swap.{
  Disk, page_in, page_out, read_blocks, write_blocks, swapread, swapwrite,
}

one_block :
    (n i blkno : ℕ) (ptr : ℕ → ℕ) (disk : Disk) (c x : ℕ)
    → (if leb (blkno + 500 + (i + 1)) c && (ltb c (blkno + 500 + (i + 1) + n) && ltb x 512)
        then ptr ((c - (blkno + 500)) * 512 + x)
        else page_out (blkno + 500 + i) i ptr disk c x)
      ≡ (if leb (blkno + 500 + i) c && (ltb c (blkno + 500 + i + suc n) && ltb x 512)
          then ptr ((c - (blkno + 500)) * 512 + x)
          else disk c x)
one_block n i blkno ptr disk c x = elim (Bool-cases (c == blkno + 500 + i)) [
  | inl here ↦
      let a : leb (blkno + 500 + (i + 1)) c ≡ false = ground arith in
      let b : leb (blkno + 500 + i) c ≡ true = ground arith in
      let d : ltb c (blkno + 500 + i + suc n) ≡ true = ground arith in
      let at : c - (blkno + 500) ≡ i = ground arith in rw (a, b, d, here, at) refl
  | inr there ↦
      let a : leb (blkno + 500 + (i + 1)) c ≡ leb (blkno + 500 + i) c = ground arith in
      let d : blkno + 500 + (i + 1) + n ≡ blkno + 500 + i + suc n = omega arith in
      rw (a, d, there) refl
]

-- After the loop of swapwrite the blocks from the `i`th on have the bytes of the page.
write_blocks_lem :
    (n i blkno : ℕ) (ptr : ℕ → ℕ) (disk : Disk)
    → blkno + 500 + i + n ≤ 1000
    → (d : Disk) × (write_blocks n i blkno ptr disk ≡ ok d)
      × ((c x : ℕ)
          → d c x ≡ (
              if leb (blkno + 500 + i) c && (ltb c (blkno + 500 + i + n) && ltb x 512)
              then ptr ((c - (blkno + 500)) * 512 + x)
              else disk c x))
unfolding write_blocks
write_blocks_lem zero i blkno ptr disk fits = (disk, refl, λ c x. ground arith)
write_blocks_lem (suc n) i blkno ptr disk fits =
    let (d, e, all) =
      write_blocks_lem n (i + 1) blkno ptr (page_out (blkno + 500 + i) i ptr disk) (omega arith) in
    let t : leb 1000 (blkno + 500 + i) ≡ false = ground arith in
    (d, rw (t, write_blocks) e, λ c x. all c x ∙ one_block n i blkno ptr disk c x)

-- The loop of swapread fills the page from its `i`th part on.
read_blocks_lem :
    (n i blkno : ℕ) (disk : Disk) (ptr : ℕ → ℕ)
    → blkno + 500 + i + n ≤ 1000
    → (p : ℕ → ℕ) × (read_blocks n i blkno disk ptr ≡ ok p)
      × ((j x : ℕ) → i ≤ j → j < i + n → x < 512 → p (j * 512 + x) ≡ disk (blkno + 500 + j) x)
      × ((y : ℕ) → y < i * 512 → p y ≡ ptr y)
unfolding read_blocks
read_blocks_lem zero i blkno disk ptr fits =
    (ptr, refl, (λ j x lo hi h. absurd (omega arith)), λ y h. refl)
read_blocks_lem (suc n) i blkno disk ptr fits =
    let b = blkno + 500 + i in
    let (p, e, all, low) =
      read_blocks_lem n (i + 1) blkno disk (page_in i (disk (blkno + 500 + i)) ptr) (omega arith) in
    let t : leb 1000 (blkno + 500 + i) ≡ false = ground arith in
    (
      p,
      rw (t, read_blocks) e,
      (λ j x lo hi h. elim (Bool-cases (j == i)) [
        | inl here ↦
            let q : j ≡ i = ground arith in
            let inside : (leb (i * 512) (i * 512 + x) && ltb (i * 512 + x) (i * 512 + 512)) ≡ true =
              ground arith in
            let at : i * 512 + x - i * 512 ≡ x = omega arith in
            rw q (low (i * 512 + x) (omega arith) ∙ rw (inside, at) refl)
        | inr later ↦ all j x (ground arith) (omega arith) h
      ]),
      λ y h.
          let t' : (leb (i * 512) y && ltb y (i * 512 + 512)) ≡ false = ground arith in
          low y (omega arith) ∙ rw t' refl,
    )

too_far :
    (n i blkno : ℕ) (ptr : ℕ → ℕ) (disk : Disk)
    → 1000 < blkno + 500 + i + suc n
    → write_blocks (suc n) i blkno ptr disk ≡ panic "incorrect blockno"
unfolding write_blocks
too_far zero i blkno ptr disk far =
    let stop : leb 1000 (blkno + 500 + i) ≡ true = ground arith in rw (stop, write_blocks) refl
too_far (suc n) i blkno ptr disk far = elim (Bool-cases (leb 1000 (blkno + 500 + i))) [
  | inl stop ↦ rw (stop, write_blocks) refl
  | inr go ↦
      rw (go, write_blocks)
        (too_far n (i + 1) blkno ptr (page_out (blkno + 500 + i) i ptr disk) (omega arith))
]

-- what swapwrite and then swapread of the same page do
pub data SwapSpec (blkno : ℕ) (ptr : ℕ → ℕ) (disk : Disk) : Result Disk → Type 0 where
  stored :
      blkno ≤ 492
      → (d : Disk) → ((c : ℕ) → (c < blkno + 500) ⊎ (blkno + 508 ≤ c) → (x : ℕ) → d c x ≡ disk c x)
      → ((old : ℕ → ℕ)
          → (p : ℕ → ℕ) × (swapread blkno d old ≡ ok p) × ((y : ℕ) → y < 4096 → p y ≡ ptr y))
      → SwapSpec blkno ptr disk (ok d)
  off_disk : 492 < blkno → blkno < 99_500 → SwapSpec blkno ptr disk (panic "incorrect blockno")
  refused : 99_500 ≤ blkno → SwapSpec blkno ptr disk (panic "swapread: blkno exceed range")

-- swapwrite ends in one of three ways: up to 492 it stores the page, so that swapread at the same
-- number gives its 4096 bytes back, and changes no other block; from 493 to 99499 it panics in the
-- disk driver; and from 99500 on it refuses the number.
pub swapwrite-SwapSpec :
    (blkno : ℕ) (ptr : ℕ → ℕ) (disk : Disk) → SwapSpec blkno ptr disk (swapwrite blkno ptr disk)
unfolding swapwrite swapread
swapwrite-SwapSpec blkno ptr disk = elim (Bool-cases (leb 99_500 blkno)) [
  | inl high ↦ rw (high, swapwrite) (refused (ground arith))
  | inr fine ↦ elim (Bool-cases (leb blkno 492)) [
    | inl low ↦
        let (d, e, all) = write_blocks_lem 8 0 blkno ptr disk (ground arith) in
        rw (fine, swapwrite, e)
          (stored (ground arith) d
            (λ c out x.
              let t : (leb (blkno + 500 + 0) c && (ltb c (blkno + 500 + 0 + 8) && ltb x 512))
                  ≡ false =
                ground arith in
              all c x ∙ rw t refl)
            (λ old.
              let (p, e', part, rest) = read_blocks_lem 8 0 blkno d old (ground arith) in
              (
                p,
                rw (fine, swapread) e',
                λ y hy.
                    let place : y / 512 * 512 + y % 512 ≡ y = omega arith in
                    let inside : (leb (blkno + 500 + 0) (blkno + 500 + y / 512)
                          && (ltb (blkno + 500 + y / 512) (blkno + 500 + 0 + 8)
                              && ltb (y % 512) 512))
                        ≡ true =
                      ground arith in
                    let at : (blkno + 500 + y / 512 - (blkno + 500)) * 512 + y % 512 ≡ y =
                      omega arith in
                    ap p (sym place)
                    ∙ (part (y / 512) (y % 512) (omega arith) (omega arith) (omega arith)
                        ∙ (all (blkno + 500 + y / 512) (y % 512) ∙ rw (inside, at) refl)),
              )))
    | inr far ↦
        rw (fine, swapwrite)
          (subst (λ r. SwapSpec blkno ptr disk r) (sym (too_far 7 0 blkno ptr disk (ground arith)))
            (off_disk (ground arith) (ground arith)))
  ]
]
