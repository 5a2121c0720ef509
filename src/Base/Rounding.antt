-- ===== src/Base/Rounding.antt =====
-- Rounding down and up to a multiple of a number.
use Prim.Native.Nat.{ℕ, suc, ◌+◌, ◌-◌, ◌*◌, ◌/◌, ◌%◌, ◌≤◌, ◌<◌}
use mathlib.Core.Path.{◌≡◌, ap, ◌∙◌}
use native.Mathlib.Omega.{arith}
use native.Mathlib.Nat.{
  mul_assoc, div-add-mod', mod-lt, mul-mod_left, mul-le-mul_right, le-div_iff_mul-le,
  div-lt_iff_lt-mul,
}

module _ (p : ℕ) (positive : 0 < p) where
  pub rounded-mod : (x : ℕ) → x / p * p % p ≡ 0
  rounded-mod x = mul-mod_left (x / p) p

  pub round_down-le : (x : ℕ) → x / p * p ≤ x
  round_down-le x = omega (arith, div-add-mod' x p)

  pub le-round_up : (x : ℕ) → x ≤ (x + (p - 1)) / p * p
  le-round_up x = omega (arith, div-add-mod' (x + (p - 1)) p, mod-lt (x + (p - 1)) positive)

  -- A multiple is its quotient times the number.
  exact : (t : ℕ) → t % p ≡ 0 → t ≡ t / p * p
  exact t h = omega (arith, div-add-mod' t p)

  -- Rounded down is the last multiple, rounded up the first one.
  pub le-round_down : (t x : ℕ) → t % p ≡ 0 → t ≤ x → t ≤ x / p * p
  le-round_down t x h below =
      let fits : t / p ≤ x / p = (le-div_iff_mul-le positive).1 (omega (arith, exact t h)) in
      omega (arith, exact t h, mul-le-mul_right p fits)

  pub round_up-le : (t x : ℕ) → t % p ≡ 0 → x ≤ t → (x + (p - 1)) / p * p ≤ t
  round_up-le t x h above =
      let more : suc (t / p) * p ≡ t / p * p + p = omega arith in
      let fits : (x + (p - 1)) / p < suc (t / p) =
        (div-lt_iff_lt-mul positive).1 (omega (arith, exact t h, more)) in
      omega (arith, exact t h, mul-le-mul_right {m = (x + (p - 1)) / p} {n = t / p} p (omega arith))

-- A multiple of a multiple.
pub multiple-mod : (p q x : ℕ) → x % (q * p) ≡ 0 → x % p ≡ 0
multiple-mod p q x h =
    let parts : x ≡ x / (q * p) * q * p =
      omega (arith, div-add-mod' x (q * p), mul_assoc (x / (q * p)) q p) in
    ap (λ (t : ℕ). t % p) parts ∙ mul-mod_left (x / (q * p) * q) p
