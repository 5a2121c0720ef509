-- ===== src/Base/Bits.antt =====
-- Masks as arithmetic: `a & (2^k - 1)` and `a & !(2^k - 1)` at every width. The native operation
-- goes through the binary digits with a count of digits to go; so do the lemmas.
use Prim.Native.Nat.{
  ℕ, zero, suc, ◌+◌, ◌-◌, ◌*◌, ◌/◌, ◌%◌, ◌^◌, ◌≤◌, ◌<◌, min, max, bit_and, bit_or, digits,
  bit_and-bitwise, bit_or-bitwise,
}
use mathlib.Core.Path.{◌≡◌, refl, sym, ap, ◌∙◌}
use native.Mathlib.Omega.{arith}
use native.Mathlib.Nat.{
  pow-suc, pow-zero, one-le-pow, mod-eq_of_lt, div-div-eq-div-mul, div-add-mod, div-lt_iff_lt-mul,
}

-- The common digits of `a` and `mask`, with `n` of them to go.
abbrev masked : ℕ → ℕ → ℕ → ℕ
masked n a mask = digits (λ _. zero) min n a mask

no_mask : (n a : ℕ) → masked n a 0 ≡ 0
no_mask zero a = refl
no_mask (suc n) zero = refl
no_mask (suc n) (suc a) = omega (arith, no_mask n (suc a / 2))

pub some_power : (k : ℕ) → 0 < 2 ^ k
some_power k = one-le-pow k 2 (omega arith)

-- A quotient by one more digit, and its product with the power.
shorter : (k a : ℕ) → a / 2 ^ suc k ≡ a / 2 / 2 ^ k
shorter k a =
    let swap : 2 ^ suc k ≡ 2 * 2 ^ k = omega (arith, pow-suc 2 k) in
    rw swap (sym (div-div-eq-div-mul a 2 (2 ^ k)))

doubled : (k q : ℕ) → 2 ^ suc k * q ≡ 2 * (2 ^ k * q)
doubled k q = omega (arith, ap (λ (t : ℕ). t * q) (pow-suc 2 k))

remainder_step : (k a : ℕ) → a % 2 ^ suc k ≡ a / 2 % 2 ^ k * 2 + a % 2
remainder_step k a = omega (
  arith,
  div-add-mod a (2 ^ suc k),
  div-add-mod (a / 2) (2 ^ k),
  ap (λ (q : ℕ). 2 ^ suc k * q) (shorter k a),
  doubled k (a / 2 / 2 ^ k),
)

-- `2^k - 1` keeps the low digits.
keeps_low : (n k a : ℕ) → a ≤ n → masked n a (2 ^ k - 1) ≡ a % 2 ^ k
keeps_low zero k zero h = sym (mod-eq_of_lt (some_power k))
keeps_low zero k (suc a) h = absurd (omega arith)
keeps_low (suc n) k zero h = sym (mod-eq_of_lt (some_power k))
keeps_low (suc n) zero (suc a) h = no_mask (suc n) (suc a) ∙ omega arith
keeps_low (suc n) (suc k) (suc a) h =
    let half : (2 ^ suc k - 1) / 2 ≡ 2 ^ k - 1 = omega (arith, pow-suc 2 k, some_power k) in
    let odd : (2 ^ suc k - 1) % 2 ≡ 1 = omega (arith, pow-suc 2 k, some_power k) in
    rw (half, odd)
      (omega (arith, keeps_low n k (suc a / 2) (omega arith), remainder_step k (suc a)))

pub bit_and_low : (k a : ℕ) → bit_and a (2 ^ k - 1) ≡ a % 2 ^ k
bit_and_low k a = bit_and-bitwise a (2 ^ k - 1) ∙ keeps_low a k a (omega arith)

-- `(2^m - 1) * 2^k` keeps the digits above the low ones.
keeps_high :
    (n k m a : ℕ)
    → a ≤ n
    → a / 2 ^ k < 2 ^ m
    → masked n a ((2 ^ m - 1) * 2 ^ k) ≡ 2 ^ k * (a / 2 ^ k)
keeps_high n zero m a h fits =
    let ones : (2 ^ m - 1) * 2 ^ 0 ≡ 2 ^ m - 1 = omega arith in
    let same : a % 2 ^ m ≡ a = mod-eq_of_lt (omega arith) in
    rw ones (keeps_low n m a h ∙ omega arith)
keeps_high zero (suc k) m zero h fits =
    omega (arith, doubled k (0 / 2 ^ suc k), shorter k 0, div-add-mod 0 (2 ^ suc k))
keeps_high zero (suc k) m (suc a) h fits = absurd (omega arith)
keeps_high (suc n) (suc k) m zero h fits = omega (arith, div-add-mod 0 (2 ^ suc k))
keeps_high (suc n) (suc k) m (suc a) h fits =
    let mask = (2 ^ m - 1) * 2 ^ suc k in
    let twice : mask ≡ 2 * ((2 ^ m - 1) * 2 ^ k) =
      omega (arith, ap (λ (t : ℕ). (2 ^ m - 1) * t) (pow-suc 2 k)) in
    let half : mask / 2 ≡ (2 ^ m - 1) * 2 ^ k = omega arith in
    let even : mask % 2 ≡ 0 = omega arith in
    let rest = keeps_high n k m (suc a / 2) (omega arith) (rw (← shorter k (suc a)) fits) in
    rw (half, even)
      (omega (
        arith,
        rest,
        ap (λ (q : ℕ). 2 ^ suc k * q) (shorter k (suc a)),
        doubled k (suc a / 2 / 2 ^ k),
      ))

-- The exponents of a product of powers add up.
pub powers : (k m : ℕ) → 2 ^ (k + m) ≡ 2 ^ m * 2 ^ k
powers zero m = let same : 0 + m ≡ m = omega arith in rw (same, pow-zero) (omega arith)
powers (suc k) m =
    let more : suc k + m ≡ suc (k + m) = omega arith in
    rw more (omega (arith, pow-suc 2 (k + m), powers k m, ap (λ (t : ℕ). 2 ^ m * t) (pow-suc 2 k)))

one_less : (x y : ℕ) → 0 < x → 0 < y → x * y - 1 - (y - 1) ≡ (x - 1) * y
one_less zero y h k = absurd (omega arith)
one_less (suc x) y h k =
    let less : suc x - 1 ≡ x = omega arith in
    let more : suc x * y ≡ x * y + y = omega arith in rw (less, more) (omega arith)

-- `a & !(2^k - 1)` clears the low `k` bits of an `n + k`-bit number.
pub bit_and_high :
    (k n a : ℕ) → a < 2 ^ (k + n) → bit_and a (2 ^ (k + n) - 1 - (2 ^ k - 1)) ≡ a / 2 ^ k * 2 ^ k
bit_and_high k n a h =
    let fits : a / 2 ^ k < 2 ^ n =
      (div-lt_iff_lt-mul (some_power k)).1 (omega (arith, powers k n)) in
    let mask : 2 ^ (k + n) - 1 - (2 ^ k - 1) ≡ (2 ^ n - 1) * 2 ^ k =
      rw (powers k n) (one_less (2 ^ n) (2 ^ k) (some_power n) (some_power k)) in
    rw mask (
      bit_and-bitwise a ((2 ^ n - 1) * 2 ^ k) ∙ keeps_high a k n a (omega arith) fits ∙ omega arith)

-- The digits of `a` with those of `b`, with `n` of the first to go.
abbrev joined : ℕ → ℕ → ℕ → ℕ
joined n a b = digits (λ b. b) max n a b

joined_zero : (n a : ℕ) → a ≤ n → joined n a 0 ≡ a
joined_zero zero zero h = refl
joined_zero zero (suc a) h = absurd (omega arith)
joined_zero (suc n) zero h = refl
joined_zero (suc n) (suc a) h = omega (arith, joined_zero n (suc a / 2) (omega arith))

joined_above : (n k a b : ℕ) → a ≤ n → a % 2 ^ k ≡ 0 → b < 2 ^ k → joined n a b ≡ a + b
joined_above zero k zero b h m small = omega arith
joined_above zero k (suc a) b h m small = absurd (omega arith)
joined_above (suc n) k zero b h m small = omega arith
joined_above (suc n) zero (suc a) b h m small =
    let none : b ≡ 0 = omega (arith, pow-zero 2) in
    rw none (joined_zero (suc n) (suc a) h ∙ omega arith)
joined_above (suc n) (suc k) (suc a) b h m small =
    let parts = remainder_step k (suc a) in
    let rest =
      joined_above n k (suc a / 2) (b / 2) (omega arith) (omega (arith, parts))
        (omega (arith, pow-suc 2 k)) in
    let even : suc a % 2 ≡ 0 = omega (arith, parts) in rw even (omega (arith, rest, even))

-- `a | b` of numbers that share no digit, the second one below a power that divides the first.
pub bit_or_low : (k a b : ℕ) → a % 2 ^ k ≡ 0 → b < 2 ^ k → bit_or a b ≡ a + b
bit_or_low k a b h small = bit_or-bitwise a b ∙ joined_above a k a b (omega arith) h small
