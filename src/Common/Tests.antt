-- ===== src/Common/Tests.antt =====
-- Boolean tests on the native numbers, the conditional, and checks over a small range.
use Prim.Native.Nat.{ℕ, zero, suc, ◌+◌, ◌≤◌, ◌<◌, compare, Ordering}
use mathlib.Core.Path.{◌≡◌, refl}
use mathlib.Core.Logic.{◌↔◌, ◌⊎◌, inl, inr}
use mathlib.Core.Bool.{Bool, true, false, ◌&&◌}
use native.Mathlib.Omega.{arith}

abbrev pub ltb : ℕ → ℕ → Bool
ltb a b = elim (compare a b) [ Ordering.lt ↦ true | _ ↦ false ]

abbrev pub leb : ℕ → ℕ → Bool
leb a b = elim (compare a b) [ Ordering.gt ↦ false | _ ↦ true ]

infix 50 ◌==◌
abbrev pub ◌==◌ : ℕ → ℕ → Bool
a == b = elim (compare a b) [ Ordering.eq ↦ true | _ ↦ false ]

infix 1 if◌then◌else◌
abbrev pub if◌then◌else◌ {ℓ} : {A : Type ℓ} → Bool → A → A → A
if true then x else y = x
if false then x else y = y

pub ltb→lt : (a b : ℕ) → ltb a b ≡ true → a < b
ltb→lt a b h = ground arith

pub ==_iff : (a b : ℕ) → ((a == b) ≡ true) ↔ (a ≡ b)
==_iff a b = ground arith

-- To split on a computed test and keep the equation.
pub Bool-cases : (b : Bool) → (b ≡ true) ⊎ (b ≡ false)
Bool-cases true = inl refl
Bool-cases false = inr refl

-- whether `test` passes at `lo` and the `count` numbers behind it
unfoldable pub passes : (test : ℕ → Bool) → (lo count : ℕ) → Bool
passes test lo zero = test lo
passes test lo (suc count) = passes test (lo + 1) count && test lo

pub passes-at :
    (test : ℕ → Bool) (lo count k : ℕ)
    → passes test lo count ≡ true
    → lo ≤ k
    → k ≤ lo + count
    → test k ≡ true
unfolding passes
passes-at test lo zero k all ge le = let at : k ≡ lo = omega arith in rw at all
passes-at test lo (suc count) k all ge le = elim (Bool-cases (k == lo)) [
  | inl first ↦ let at : k ≡ lo = ground arith in rw at (ground arith)
  | inr later ↦ passes-at test (lo + 1) count k (ground arith) (ground arith) (omega arith)
]
