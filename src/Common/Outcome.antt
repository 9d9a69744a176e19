-- ===== src/Common/Outcome.antt =====
-- What a kernel routine gives: a value, or the message of the `panic` that stops the machine.
use Prim.Native.String.{String}
use operating_system.Common.Tests.{if◌then◌else◌}
use mathlib.Core.Bool.{Bool, true, false}
use mathlib.Core.Option.{Option, none, some}
use mathlib.Core.Path.{◌≡◌, refl}

pub data Result {ℓ} (A : Type ℓ) : Type ℓ where
  ok : A → Result A
  panic : String → Result A

infixl 5 ◌>>=◌
abbrev pub ◌>>=◌ {ℓ κ} : {A : Type ℓ} {B : Type κ} → Result A → (A → Result B) → Result B
ok a >>= f = f a
panic e >>= f = panic e

-- A chain that succeeds has a first step that does.
pub bind-ok {ℓ κ} :
    {A : Type ℓ} {B : Type κ} (m : Result A) (next : A → Result B) {b : B}
    → (m >>= next) ≡ ok b
    → (a : A) × (m ≡ ok a) × (next a ≡ ok b)
bind-ok (ok a) next e = (a, refl, e)
bind-ok (panic message) next e = cc

-- A guard that panics has not held if the routine succeeds.
pub passed {ℓ} :
    {A : Type ℓ} (c : Bool) (message : String) (r : Result A) {a : A}
    → (if c then panic message else r) ≡ ok a
    → (c ≡ false) × (r ≡ ok a)
passed true message r e = cc
passed false message r e = (refl, e)

-- The same of a guard that refuses.
pub granted {ℓ} :
    {A : Type ℓ} (c : Bool) (r : Option A) {a : A}
    → (if c then none else r) ≡ some a
    → (c ≡ false) × (r ≡ some a)
granted true r e = cc
granted false r e = (refl, e)

pub ok-injective {ℓ} : {A : Type ℓ} {a b : A} → ok a ≡ ok b → a ≡ b
ok-injective e = cc

pub some-injective {ℓ} : {A : Type ℓ} {a b : A} → some a ≡ some b → a ≡ b
some-injective e = cc
