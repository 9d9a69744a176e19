-- ===== src/Console/Print.antt =====
-- printint of console.c, with a reader of numbers.
use operating_system.Common.{
  ℕ, zero, suc, ◌+◌, ◌*◌, ◌/◌, ◌%◌, ◌^◌, ◌-◌, ◌<◌, ◌≡◌, inl, inr, refl, ap, ◌∙◌, arith, Bool, false,
  ltb, leb, ◌==◌, ◌&&◌, if◌then◌else◌, Bool-cases, List, [], ◌∷◌,
}
use operating_system.Common.Int.{ℤ, pos, negsuc}
use operating_system.Console.{digit, push_digits, printint}

-- the value of a digit
abbrev pub undigit : ℕ → ℕ
undigit c = if ltb c 58 then c - 48 else c - 87

-- a number in base `base`, behind one with the value `acc`
pub read_number : (base acc : ℕ) → List ℕ → ℕ
read_number base acc [] = acc
read_number base acc (c ∷ cs) = read_number base (acc * base + undigit c) cs

pub data IsBase : ℕ → Type 0 where
  ten : IsBase 10
  sixteen : IsBase 16

undigit-digit : (d : ℕ) → d < 16 → undigit (digit d) ≡ d
undigit-digit d h = ground arith

push_digits-read :
    (fuel base x : ℕ) (buf : List ℕ)
    → IsBase base
    → x < fuel
    → read_number base 0 (push_digits fuel base x buf) ≡ read_number base x buf
unfolding push_digits read_number
push_digits-read zero base x buf b h = absurd (omega arith)
push_digits-read (suc fuel) _ x buf ten h = elim (Bool-cases (x / 10 == 0)) [
  | inl last ↦
      let v : 0 * 10 + undigit (digit (x % 10)) ≡ x = ground arith in
      rw (push_digits, last) (ap (λ a. read_number 10 a buf) v)
  | inr more ↦
      let v : x / 10 * 10 + undigit (digit (x % 10)) ≡ x = ground arith in
      rw (push_digits, more)
        (push_digits-read fuel 10 (x / 10) (digit (x % 10) ∷ buf) ten (ground arith)
          ∙ ap (λ a. read_number 10 a buf) v)
]
push_digits-read (suc fuel) _ x buf sixteen h = elim (Bool-cases (x / 16 == 0)) [
  | inl last ↦
      let v : 0 * 16 + undigit (digit (x % 16)) ≡ x = ground arith in
      rw (push_digits, last) (ap (λ a. read_number 16 a buf) v)
  | inr more ↦
      let v : x / 16 * 16 + undigit (digit (x % 16)) ≡ x = ground arith in
      rw (push_digits, more)
        (push_digits-read fuel 16 (x / 16) (digit (x % 16) ∷ buf) sixteen (ground arith)
          ∙ ap (λ a. read_number 16 a buf) v)
]

abbrev pub minus : ℕ → ℤ
minus zero = pos 0
minus (suc n) = negsuc n

-- a number with its sign
abbrev pub read_int : (base : ℕ) → List ℕ → ℤ
read_int base [] = pos 0
read_int base (c ∷ cs) =
    if c == 45 then minus (read_number base 0 cs) else pos (read_number base 0 (c ∷ cs))

-- No digit is a sign.
push_digits-unsigned :
    (fuel base x : ℕ) (buf : List ℕ)
    → IsBase base
    → x < fuel
    → read_int base (push_digits fuel base x buf)
      ≡ pos (read_number base 0 (push_digits fuel base x buf))
unfolding push_digits
push_digits-unsigned zero base x buf b h = absurd (omega arith)
push_digits-unsigned (suc fuel) _ x buf ten h = elim (Bool-cases (x / 10 == 0)) [
  | inl last ↦
      let t : (digit (x % 10) == 45) ≡ false = ground arith in rw (push_digits, last, t) refl
  | inr more ↦
      rw (push_digits, more)
        (push_digits-unsigned fuel 10 (x / 10) (digit (x % 10) ∷ buf) ten (ground arith))
]
push_digits-unsigned (suc fuel) _ x buf sixteen h = elim (Bool-cases (x / 16 == 0)) [
  | inl last ↦
      let t : (digit (x % 16) == 45) ≡ false = ground arith in rw (push_digits, last, t) refl
  | inr more ↦
      rw (push_digits, more)
        (push_digits-unsigned fuel 16 (x / 16) (digit (x % 16) ∷ buf) sixteen (ground arith))
]

-- the 32-bit number `xx`, as `int` or as `uint`
abbrev pub value : (xx : ℕ) (sign : Bool) → ℤ
value xx sign = if sign && leb (2 ^ 31) xx then minus (2 ^ 32 - xx) else pos xx

-- What printint prints of a 32-bit number, in base 10 or 16, signed or not, reads as that number.
pub read_int-printint :
    (xx base : ℕ) (sign : Bool)
    → IsBase base
    → xx < 2 ^ 32
    → read_int base (printint xx base sign) ≡ value xx sign
unfolding printint read_number
read_int-printint xx base sign b h = elim (Bool-cases (sign && leb (2 ^ 31) xx)) [
  | inl negative ↦
      let m : (2 ^ 32 - xx) % 2 ^ 32 ≡ 2 ^ 32 - xx = ground arith in
      rw (printint, negative, m)
        (ap minus (push_digits-read (2 ^ 32 - xx + 1) base (2 ^ 32 - xx) [] b (omega arith)))
  | inr plain ↦
      rw (printint, plain)
        (push_digits-unsigned (xx + 1) base xx [] b (omega arith)
          ∙ ap pos (push_digits-read (xx + 1) base xx [] b (omega arith)))
]
