-- ===== src/Fs/Bits.antt =====
-- Single bits of a byte.
use operating_system.Common.{
  ℕ, ◌+◌, ◌/◌, ◌%◌, ◌^◌, ◌-◌, ◌<◌, ◌≡◌, ◌≢◌, refl, arith, ◌&&◌, ◌||◌, not, Bool, true, false, ltb,
  ◌==◌, if◌then◌else◌, passes, passes-at, Bool-cases, inl, inr,
}
use operating_system.Fs.{Block, bit, set_bit, clear_bit}

-- a test of all bytes and pairs of bit numbers
abbrev for_bits : (ℕ → ℕ → ℕ → Bool) → ℕ → Bool
for_bits test v = passes (λ i. passes (λ j. test v i j) 0 7) 0 7

for_bits-at :
    (test : ℕ → ℕ → ℕ → Bool) (v i j : ℕ)
    → passes (for_bits test) 0 255 ≡ true
    → v < 256
    → i < 8
    → j < 8
    → test v i j ≡ true
for_bits-at test v i j all hv hi hj =
    passes-at (λ j. test v i j) 0 7 j
      (passes-at (λ i. passes (λ j. test v i j) 0 7) 0 7 i
        (passes-at (for_bits test) 0 255 v all (omega arith) (omega arith)) (omega arith)
        (omega arith))
      (omega arith) (omega arith)

abbrev digit : ℕ → ℕ → ℕ
digit v i = v / 2 ^ i % 2

abbrev sets : ℕ → ℕ → ℕ → Bool
sets v i j =
    not (digit v i == 0)
    || (digit (v + 2 ^ i) j == (if i == j then 1 else digit v j) && ltb (v + 2 ^ i) 256)

abbrev clears : ℕ → ℕ → ℕ → Bool
clears v i j =
    digit v i == 0
    || (digit (v - 2 ^ i) j == (if i == j then 0 else digit v j) && ltb (v - 2 ^ i) 256)

sets_table : passes (for_bits sets) 0 255 ≡ true
unfolding passes
sets_table = refl

clears_table : passes (for_bits clears) 0 255 ≡ true
unfolding passes
clears_table = refl

split_test : (a b c : ℕ) → (a == b && ltb c 256) ≡ true → (a ≡ b) × (c < 256)
split_test a b c h = ground arith

ne_test : (a : ℕ) → a ≢ 0 → (a == 0) ≡ false
ne_test a h = ground arith

set_digit :
    (v i j : ℕ)
    → v < 256
    → i < 8
    → j < 8
    → digit v i ≡ 0
    → (digit (v + 2 ^ i) j ≡ (if i == j then 1 else digit v j)) × (v + 2 ^ i < 256)
set_digit v i j hv hi hj clear =
    let t : sets v i j ≡ true = for_bits-at sets v i j sets_table hv hi hj in
    let z : (digit v i == 0) ≡ true = rw clear refl in
    let u : (digit (v + 2 ^ i) j == (if i == j then 1 else digit v j) && ltb (v + 2 ^ i) 256)
        ≡ true =
      rw z at t in
    split_test (digit (v + 2 ^ i) j) (if i == j then 1 else digit v j) (v + 2 ^ i) u

clear_digit :
    (v i j : ℕ)
    → v < 256
    → i < 8
    → j < 8
    → digit v i ≢ 0
    → (digit (v - 2 ^ i) j ≡ (if i == j then 0 else digit v j)) × (v - 2 ^ i < 256)
clear_digit v i j hv hi hj isset =
    let t : clears v i j ≡ true = for_bits-at clears v i j clears_table hv hi hj in
    let z : (digit v i == 0) ≡ false = ne_test (digit v i) isset in
    let u : (digit (v - 2 ^ i) j == (if i == j then 0 else digit v j) && ltb (v - 2 ^ i) 256)
        ≡ true =
      rw z at t in
    split_test (digit (v - 2 ^ i) j) (if i == j then 0 else digit v j) (v - 2 ^ i) u

-- bit numbers that are the same byte and the same place in it
same_bit : (i j : ℕ) → j / 8 ≡ i / 8 → (i % 8 == j % 8) ≡ (i == j)
same_bit i j e = ground arith

pub bit-set_bit :
    (d : Block) (i j : ℕ)
    → d (i / 8) < 256
    → bit d i ≡ 0
    → bit (set_bit i d) j ≡ (if i == j then 1 else bit d j)
unfolding bit set_bit
bit-set_bit d i j byte clear = elim (Bool-cases (j / 8 == i / 8)) [
  | inl same ↦
      let e : j / 8 ≡ i / 8 = ground arith in
      rw (same, e)
        (rw (same_bit i j e) at
          (set_digit (d (i / 8)) (i % 8) (j % 8) byte (omega arith) (omega arith) clear).0)
  | inr other ↦ let ne : (i == j) ≡ false = ground arith in rw (other, ne) refl
]

pub bit-clear_bit :
    (d : Block) (i j : ℕ)
    → d (i / 8) < 256
    → bit d i ≢ 0
    → bit (clear_bit i d) j ≡ (if i == j then 0 else bit d j)
unfolding bit clear_bit
bit-clear_bit d i j byte isset = elim (Bool-cases (j / 8 == i / 8)) [
  | inl same ↦
      let e : j / 8 ≡ i / 8 = ground arith in
      rw (same, e)
        (rw (same_bit i j e) at
          (clear_digit (d (i / 8)) (i % 8) (j % 8) byte (omega arith) (omega arith) isset).0)
  | inr other ↦ let ne : (i == j) ≡ false = ground arith in rw (other, ne) refl
]

pub set_bit-lt :
    (d : Block) (i x : ℕ) → d (i / 8) < 256 → d x < 256 → bit d i ≡ 0 → set_bit i d x < 256
unfolding bit set_bit
set_bit-lt d i x byte hx clear = elim (Bool-cases (x == i / 8)) [
  | inl same ↦
      let e : x ≡ i / 8 = ground arith in
      rw (same, e) (set_digit (d (i / 8)) (i % 8) (i % 8) byte (omega arith) (omega arith) clear).1
  | inr other ↦ rw other hx
]

pub clear_bit-lt : (d : Block) (i x : ℕ) → d x < 256 → clear_bit i d x < 256
unfolding clear_bit
clear_bit-lt d i x hx = elim (Bool-cases (x == i / 8)) [
  | inl same ↦ rw same (omega arith)
  | inr other ↦ rw other hx
]
