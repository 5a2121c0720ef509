-- ===== src/Base/Numerals.antt =====
-- Numerals in a base up to sixteen, read from the left, and lists read backwards.
use Prim.Native.Nat.{ℕ, zero, suc, ◌+◌, ◌-◌, ◌*◌, ◌≤◌, ◌<◌}
use mathlib.Core.Path.{◌≡◌, refl, ap}
use mathlib.Core.Logic.{◌≢◌, ◌⊎◌, inl, inr}
use mathlib.Core.List.{List, [], ◌∷◌, ◌++◌}
use mathlib.Core.Option.{some}
use native.Mathlib.Omega.{arith}
use native.Mathlib.Decide.{dec_lt}
use rustfirmware.Base.Tests.{leb, if◌then◌else◌}
use rustfirmware.Base.Lists.{length, get_elem?, set, take, drop, length-append, get_elem?-append}

-- The value of an ASCII digit.
abbrev pub digit_value : ℕ → ℕ
digit_value code = if leb code 0x39 then code - 0x30 else code - 0x57

-- The number that begins with `high` and goes on with the digits.
abbrev pub numeral : ℕ → ℕ → List ℕ → ℕ
numeral base high [] = high
numeral base high (code ∷ codes) = numeral base (high * base + digit_value code) codes

-- Digits of the base: from `0` to `9`, and from `a` on.
abbrev pub IsDigit : ℕ → ℕ → Type 0
IsDigit base code =
    ((0x30 ≤ code) × (code ≤ 0x39) × (code - 0x30 < base)) ⊎ ((0x61 ≤ code) × (code - 0x57 < base))

abbrev pub AllDigits : ℕ → List ℕ → Type 0
AllDigits base [] = Unit {0}
AllDigits base (code ∷ codes) = IsDigit base code × AllDigits base codes

-- The first digit is there and is not zero.
abbrev pub Leads : List ℕ → Type 0
Leads [] = ⊥
Leads (code ∷ codes) = code ≢ 0x30

-- The digits of a number, without leading zeros but for zero itself.
pub record IsNumeral (base value : ℕ) (codes : List ℕ) : Type 0 where
  pub digits : AllDigits base codes
  pub canonical : Leads codes ⊎ (codes ≡ 0x30 ∷ [])
  pub reads : numeral base 0 codes ≡ value

-- Zero is the only number whose numeral begins with a zero.
pub positive-Leads :
    {base value : ℕ} (codes : List ℕ) → IsNumeral base value codes → 0 < value → Leads codes
positive-Leads {base} {value} codes n h = elim n.canonical [
  | inl leads ↦ leads
  | inr only ↦ absurd (omega (arith, rw only at n.reads))
]

pub written_out : {codes : List ℕ} → (0 < 0) ⊎ Leads codes → Leads codes ⊎ (codes ≡ 0x30 ∷ [])
written_out (inl h) = absurd (omega arith)
written_out (inr h) = inl h

module _ {A : Type 0} where
  abbrev pub reversed : List A → List A
  reversed [] = []
  reversed (x ∷ xs) = reversed xs ++ x ∷ []

  pub reversed-append : (xs : List A) (x : A) → reversed (xs ++ x ∷ []) ≡ x ∷ reversed xs
  reversed-append [] x = refl
  reversed-append (y ∷ xs) x = ap (λ (r : List A). r ++ y ∷ []) (reversed-append xs x)

  pub length-reversed : (xs : List A) → length (reversed xs) ≡ length xs
  length-reversed [] = refl
  length-reversed (x ∷ xs) = omega (arith, length-append (reversed xs) (x ∷ []), length-reversed xs)

  pub get_elem?-reversed :
      (xs : List A) (j : ℕ)
      → j < length xs
      → get_elem? (reversed xs) j ≡ get_elem? xs (length xs - 1 - j)
  get_elem?-reversed [] j h = absurd (omega arith)
  get_elem?-reversed (x ∷ xs) j h = elim (dec_lt j (length xs)) [
    | yes inside ↦
        let before : length (x ∷ xs) - 1 - j ≡ suc (length xs - 1 - j) = omega arith in
        rw before (
          ground (
            arith,
            length-reversed xs,
            get_elem?-append (reversed xs) (x ∷ []) j,
            get_elem?-reversed xs j inside,
          ))
    | no past ↦
        let last : j ≡ length xs = omega arith in
        let start : length (x ∷ xs) - 1 - j ≡ 0 = omega arith in
        let first : j - length (reversed xs) ≡ 0 = omega (arith, length-reversed xs) in
        rw start
          (ground (arith, length-reversed xs, first, get_elem?-append (reversed xs) (x ∷ []) j))
  ]

  pub drop-set :
      (xs : List A) (i : ℕ) (v : A) → i < length xs → drop i (set xs i v) ≡ v ∷ drop (suc i) xs
  drop-set [] i v h = absurd (omega arith)
  drop-set (x ∷ xs) zero v h = refl
  drop-set (x ∷ xs) (suc i) v h = drop-set xs i v (omega arith)

  pub take-set :
      (xs : List A) (i : ℕ) (v : A)
      → i < length xs
      → take (suc i) (set xs i v) ≡ take i xs ++ v ∷ []
  take-set [] i v h = absurd (omega arith)
  take-set (x ∷ xs) zero v h = refl
  take-set (x ∷ xs) (suc i) v h = ap (◌∷◌ x) (take-set xs i v (omega arith))

  pub take-all : (n : ℕ) (xs : List A) → length xs ≤ n → take n xs ≡ xs
  take-all zero [] h = refl
  take-all zero (x ∷ xs) h = absurd (omega arith)
  take-all (suc n) [] h = refl
  take-all (suc n) (x ∷ xs) h = ap (◌∷◌ x) (take-all n xs (omega arith))

  pub take-get_elem? :
      (xs : List A) (i : ℕ) (v : A)
      → get_elem? xs i ≡ some v
      → take (suc i) xs ≡ take i xs ++ v ∷ []
  take-get_elem? [] i v h = cc
  take-get_elem? (x ∷ xs) zero v h = cc
  take-get_elem? (x ∷ xs) (suc i) v h = ap (◌∷◌ x) (take-get_elem? xs i v h)
