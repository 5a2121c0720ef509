-- ===== src/Print/Numbers/Decimal.antt =====
-- src/print.rs: what `print_decimal_u64` prints.
use Prim.Native.Nat.{ℕ, zero, suc, ◌+◌, ◌*◌, ◌/◌, ◌%◌, ◌^◌, ◌≤◌, ◌<◌}
use native.Mathlib.Nat.{pow-suc, pow-zero}
use rustfirmware.Base.{
  ◌≡◌, ◌⊎◌, inl, inr, refl, ap, ◌∙◌, List, ◌∷◌, length, set, drop, length-set, length-drop,
  replicate, ok, lt→ltb, suc-ne_zero, arith,
}
use rustfirmware.Base.Numerals.{
  digit_value, numeral, AllDigits, Leads, IsNumeral, written_out, drop-set,
}
use rustfirmware.Base.Text.{codes}
use native.Mathlib.Decide.{dec_lt}
use rustfirmware.Base.Word.{wrapping_sub}
use rustfirmware.Print.Numbers.{decimal_loop, print_decimal_u64}

-- A buffer of 20 bytes whose end holds digits, of which the first one is not zero or has
-- something before it.
record Digits (value index : ℕ) (buffer : List ℕ) : Type 0 where
  size : length buffer ≡ 20
  inside : index ≤ 20
  digits : AllDigits 10 (drop index buffer)
  leads : (0 < value) ⊎ Leads (drop index buffer)

next_digit :
    (value : ℕ) (codes : List ℕ)
    → numeral 10 (value / 10) ((0x30 + value % 10) ∷ codes) ≡ numeral 10 value codes
next_digit value codes =
    let e : value / 10 * 10 + digit_value (0x30 + value % 10) ≡ value = ground arith in
    ap (λ (high : ℕ). numeral 10 high codes) e

-- One more digit is written in front.
Digits-write :
    (value index : ℕ) (buffer : List ℕ)
    → Digits value (suc index) buffer
    → 0 < value
    → let written = set buffer index (0x30 + value % 10) in
      Digits (value / 10) index written
      × (numeral 10 (value / 10) (drop index written) ≡ numeral 10 value (drop (suc index) buffer))
Digits-write value index buffer d positive =
    let digit : ℕ = 0x30 + value % 10 in
    let written = drop-set buffer index digit (omega (arith, d.size, d.inside)) in
    (
      record {
        size = length-set buffer index digit ∙ d.size;
        inside = omega (arith, d.inside);
        digits = rw written (inl (omega arith, omega arith, omega arith), d.digits);
        leads = elim (dec_lt value 10) [
          | yes below ↦ inr (rw written λ (e : digit ≡ 0x30). omega (arith, e))
          | no above ↦ inl (omega arith)
        ];
      },
      rw written (next_digit value (drop (suc index) buffer)),
    )

-- Each round moves the lowest digit of the value to the front of the text.
decimal_loop-numeral :
    (k fuel value index : ℕ) (buffer : List ℕ)
    → Digits value index buffer
    → value < 10 ^ k
    → k ≤ index
    → k < fuel
    → (index' : ℕ) × (buffer' : List ℕ) × (decimal_loop fuel value index buffer
        ≡ ok (index', buffer'))
      × Digits 0 index' buffer'
      × (numeral 10 0 (drop index' buffer') ≡ numeral 10 value (drop index buffer))
unfolding decimal_loop
decimal_loop-numeral k zero value index buffer d small room enough = absurd (omega arith)
decimal_loop-numeral k (suc fuel) zero index buffer d small room enough =
    (index, buffer, refl, d, refl)
decimal_loop-numeral zero (suc fuel) (suc value) index buffer d small room enough =
    absurd (omega (arith, pow-zero 10))
decimal_loop-numeral (suc k) (suc fuel) (suc value) zero buffer d small room enough =
    absurd (omega arith)
decimal_loop-numeral (suc k) (suc fuel) (suc value) (suc index) buffer d small room enough =
    let (e, same) = Digits-write (suc value) index buffer d (omega arith) in
    let written = set buffer index (0x30 + suc value % 10) in
    let (index', buffer', runs, end, reads) =
      decimal_loop-numeral k fuel (suc value / 10) index written e (omega (arith, pow-suc 10 k))
        (omega arith) (omega arith) in
    let below : wrapping_sub (suc index) 1 ≡ index = omega (arith, d.inside) in
    (
      index',
      buffer',
      rw (suc-ne_zero value, below, lt→ltb index (length buffer) (omega (arith, d.size, d.inside)))
          runs,
      end,
      reads ∙ same,
    )

-- A 64-bit value is printed as its decimal numeral, which fits the buffer of 20 bytes.
pub print_decimal_u64-IsNumeral :
    (value : ℕ)
    → value < 2 ^ 64
    → (text : List ℕ) × (print_decimal_u64 value ≡ ok text)
      × IsNumeral 10 value text
      × (length text ≤ 20)
unfolding print_decimal_u64
print_decimal_u64-IsNumeral zero h = (
  codes "0",
  refl,
  record {
    digits = (inl (omega arith, omega arith, omega arith), tt);
    canonical = inr refl;
    reads = refl;
  },
  omega arith,
)
print_decimal_u64-IsNumeral (suc value) h =
    let start : Digits (suc value) 20 (replicate 20 0) = record {
      size = refl;
      inside = omega arith;
      digits = tt;
      leads = inl (omega arith);
    } in
    let (index, buffer, runs, end, reads) =
      decimal_loop-numeral 20 21 (suc value) 20 (replicate 20 0) start (omega arith) (omega arith)
        (omega arith) in
    (
      drop index buffer,
      rw runs (ground (arith, end.size, end.inside)),
      record { digits = end.digits; canonical = written_out end.leads; reads = reads },
      omega (arith, length-drop index buffer, end.size),
    )
