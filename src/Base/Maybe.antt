-- ===== src/Base/Maybe.antt =====
-- Code that returns `Option`: a `do` block is a chain of the `?` operator.
use mathlib.Core.Path.{◌≡◌, refl}
use mathlib.Core.Logic.{◌⊎◌, inl, inr}
use mathlib.Core.Bool.{Bool, true, false}
use mathlib.Core.Option.{Option, none, some}
use rustfirmware.Base.Tests.{if◌then◌else◌}

infixl 5 ◌>>=◌
abbrev pub ◌>>=◌ {ℓ κ} : {A : Type ℓ} {B : Type κ} → Option A → (A → Option B) → Option B
some a >>= next = next a
none >>= next = none

-- `or_else`: the second one where the first one gives nothing.
abbrev pub or_else {ℓ} : {A : Type ℓ} → Option A → Option A → Option A
or_else (some a) other = some a
or_else none other = other

-- What a chain that gives a value went through.
pub step_value {ℓ κ} :
    {A : Type ℓ} {B : Type κ} {b : B} (first : Option A) (next : A → Option B)
    → (first >>= next) ≡ some b
    → (a : A) × (next a ≡ some b) × (first ≡ some a)
step_value none next h = cc
step_value (some a) next h = (a, h, refl)

-- A guard that a value got past.
pub guard_passed {ℓ} :
    {B : Type ℓ} {b : B} (stop : Bool) (rest : Option B)
    → (if stop then none else rest) ≡ some b
    → (stop ≡ false) × (rest ≡ some b)
guard_passed true rest h = cc
guard_passed false rest h = (refl, h)

-- The value of the first, or of the second where the first has none.
pub or_else-cases {ℓ} :
    {A : Type ℓ} {a : A} (first second : Option A)
    → or_else first second ≡ some a
    → (first ≡ some a) ⊎ ((first ≡ none) × (second ≡ some a))
or_else-cases none second h = inr (refl, h)
or_else-cases (some x) second h = inl h

pub some_inj : {A : Type 0} {a b : A} → some a ≡ some b → a ≡ b
some_inj h = cc

pub none_some : {A B : Type 0} {a : A} → none ≡ some a → B
none_some h = cc
