-- ===== src/Print/Numbers/Hex.antt =====
-- src/print.rs: what `print_hex_u64` prints.
use Prim.Native.Nat.{ℕ, zero, suc, ◌+◌, ◌-◌, ◌*◌, ◌/◌, ◌%◌, ◌^◌, ◌≤◌, ◌<◌, bit_and, max}
use native.Mathlib.Nat.{pow-suc, pow-zero}
use native.Mathlib.Decide.{dec_lt}
use rustfirmware.Base.{
  ◌≡◌, ◌⊎◌, inl, inr, refl, sym, ap, subst, ◌∙◌, Bool, true, false, List, [], ◌∷◌, ◌++◌, some,
  length, get_elem?, set, take, length-set, length-append, length-replicate, append-nil,
  append_assoc, get_elem?-some, get_elem?-take, length-take, replicate, ltb, if◌then◌else◌, ok,
  lt→ltb, suc-ne_zero, arith,
}
use rustfirmware.Base.Bits.{bit_and_low}
use rustfirmware.Base.Numerals.{
  digit_value, numeral, IsDigit, AllDigits, Leads, IsNumeral, written_out, take-all, take-get_elem?,
  reversed, reversed-append, length-reversed, get_elem?-reversed, take-set,
}
use rustfirmware.Base.Text.{codes}
use rustfirmware.Print.Numbers.{hex_digits, hex_loop, hex_value_digits, copy_digits, print_hex_u64}

-- The codes are those of the hexadecimal digits from `start` on.
abbrev Table : ℕ → List ℕ → Type 0
Table start [] = Unit {0}
Table start (code ∷ codes) = IsDigit 16 code × (digit_value code ≡ start) × Table (start + 1) codes

Table-entry :
    (codes : List ℕ) (start i : ℕ)
    → Table start codes
    → i < length codes
    → (code : ℕ) × (get_elem? codes i ≡ some code)
      × IsDigit 16 code
      × (digit_value code ≡ start + i)
Table-entry [] start i t h = absurd (omega arith)
Table-entry (code ∷ codes) start zero (d, v, t) h = (code, refl, d, omega (arith, v))
Table-entry (code ∷ codes) start (suc i) (d, v, t) h =
    let (c, found, digit, reads) = Table-entry codes (start + 1) i t (omega arith) in
    (c, found, digit, omega (arith, reads))

hex_digits-Table : Table 0 hex_digits
hex_digits-Table = omega arith

-- `HEX_DIGITS[(current & 0xf) as usize]`.
low-IsDigit :
    (value : ℕ)
    → (code : ℕ) × (get_elem? hex_digits (bit_and value 0xf) ≡ some code)
      × IsDigit 16 code
      × (digit_value code ≡ value % 16)
low-IsDigit value =
    let (code, found, digit, reads) =
      Table-entry hex_digits 0 (value % 16) hex_digits-Table (omega arith) in
    (code, ap (get_elem? hex_digits) (bit_and_low 4 value) ∙ found, digit, omega (arith, reads))

-- A buffer of 16 bytes that starts with digits, the lowest one first. The last one is not zero or
-- has something after it.
record Digits (value count : ℕ) (buffer : List ℕ) : Type 0 where
  size : length buffer ≡ 16
  inside : count ≤ 16
  digits : AllDigits 16 (reversed (take count buffer))
  leads : (0 < value) ⊎ Leads (reversed (take count buffer))

next_digit :
    (value code : ℕ) (codes : List ℕ)
    → digit_value code ≡ value % 16
    → numeral 16 (value / 16) (code ∷ codes) ≡ numeral 16 value codes
next_digit value code codes h =
    let e : value / 16 * 16 + digit_value code ≡ value = omega (arith, h) in
    ap (λ (high : ℕ). numeral 16 high codes) e

Digits-write :
    (value count code : ℕ) (buffer : List ℕ)
    → Digits value count buffer
    → 0 < value
    → count < 16
    → IsDigit 16 code
    → digit_value code ≡ value % 16
    → let written = set buffer count code in
      Digits (value / 16) (suc count) written
      × (numeral 16 (value / 16) (reversed (take (suc count) written))
          ≡ numeral 16 value (reversed (take count buffer)))
Digits-write value count code buffer d positive room digit reads =
    let written : reversed (take (suc count) (set buffer count code))
        ≡ code ∷ reversed (take count buffer) =
      ap reversed (take-set buffer count code (omega (arith, d.size)))
      ∙ reversed-append (take count buffer) code in
    (
      record {
        size = length-set buffer count code ∙ d.size;
        inside = omega arith;
        digits = rw written (digit, d.digits);
        leads = elim (dec_lt value 16) [
          | yes below ↦ inr (rw written λ (e : code ≡ 0x30). ground (arith, e, reads))
          | no above ↦ inl (omega arith)
        ];
      },
      rw written (next_digit value code (reversed (take count buffer)) reads),
    )

hex_loop-numeral :
    (k fuel value count : ℕ) (buffer : List ℕ)
    → Digits value count buffer
    → value < 16 ^ k
    → count + k ≤ 16
    → k < fuel
    → (count' : ℕ) × (buffer' : List ℕ) × (hex_loop fuel value count buffer ≡ ok (count', buffer'))
      × Digits 0 count' buffer'
      × (count ≤ count')
      × (numeral 16 0 (reversed (take count' buffer'))
          ≡ numeral 16 value (reversed (take count buffer)))
unfolding hex_loop
hex_loop-numeral k zero value count buffer d small room enough = absurd (omega arith)
hex_loop-numeral k (suc fuel) zero count buffer d small room enough =
    (count, buffer, refl, d, omega arith, refl)
hex_loop-numeral zero (suc fuel) (suc value) count buffer d small room enough =
    absurd (omega (arith, pow-zero 16))
hex_loop-numeral (suc k) (suc fuel) (suc value) count buffer d small room enough =
    let (code, found, digit, reads) = low-IsDigit (suc value) in
    let written = set buffer count code in
    let (e, same) =
      Digits-write (suc value) count code buffer d (omega arith) (omega arith) digit reads in
    let (count', buffer', runs, end, more, reads') =
      hex_loop-numeral k fuel (suc value / 16) (suc count) written e (omega (arith, pow-suc 16 k))
        (omega arith) (omega arith) in
    let next : count + 1 ≡ suc count = omega arith in
    (
      count',
      buffer',
      rw (suc-ne_zero value, found, lt→ltb count (length buffer) (omega (arith, d.size)), next)
          runs,
      end,
      omega arith,
      reads' ∙ same,
    )

-- What any value's digits are: from one to 16 of them, the lowest one first.
hex_value_digits-IsNumeral :
    (value : ℕ)
    → value < 2 ^ 64
    → (count : ℕ) × (buffer : List ℕ) × (hex_value_digits value ≡ ok (count, buffer))
      × (length buffer ≡ 16)
      × (count ≤ 16)
      × IsNumeral 16 value (reversed (take count buffer))
unfolding hex_value_digits
hex_value_digits-IsNumeral zero h = (
  1,
  set (replicate 16 0) 0 0x30,
  refl,
  refl,
  omega arith,
  record {
    digits = (inl (omega arith, omega arith, omega arith), tt);
    canonical = inr refl;
    reads = refl;
  },
)
hex_value_digits-IsNumeral (suc value) h =
    let start : Digits (suc value) 0 (replicate 16 0) = record {
      size = refl;
      inside = omega arith;
      digits = tt;
      leads = inl (omega arith);
    } in
    let (count, buffer, runs, end, more, reads) =
      hex_loop-numeral 16 17 (suc value) 0 (replicate 16 0) start (omega arith) (omega arith)
        (omega arith) in
    (
      count,
      buffer,
      rw (suc-ne_zero value) runs,
      end.size,
      end.inside,
      record { digits = end.digits; canonical = written_out end.leads; reads = reads },
    )

-- The second loop reads the digits from the last one on.
copy_digits_lem :
    (n index count : ℕ) (digits buffer : List ℕ)
    → index + n ≡ count
    → count ≤ 16
    → length digits ≡ 16
    → length buffer ≡ 16
    → take index buffer ≡ take index (reversed (take count digits))
    → (copied : List ℕ) × (copy_digits n index count digits buffer ≡ ok copied)
      × (length copied ≡ 16)
      × (take count copied ≡ reversed (take count digits))
unfolding copy_digits
copy_digits_lem zero index count digits buffer whole inside full room same =
    let at_end : index ≡ count = omega arith in
    let R = reversed (take count digits) in
    (
      buffer,
      refl,
      room,
      subst (λ (i : ℕ). take i buffer ≡ take i R) at_end same
          ∙ take-all count R
              (omega (arith, length-reversed (take count digits), length-take count digits)),
    )
copy_digits_lem (suc n) index count digits buffer whole inside full room same =
    let R = reversed (take count digits) in
    let sizes = length-take count digits in
    let from : ℕ = count - 1 - index in
    let (digit, found) = get_elem?-some digits from (omega arith) in
    let start : length (take count digits) - 1 - index ≡ from = omega (arith, sizes) in
    let there : get_elem? R index ≡ some digit =
      get_elem?-reversed (take count digits) index (omega (arith, sizes))
      ∙ rw start (get_elem?-take count digits from (omega arith) ∙ found) in
    let written = set buffer index digit in
    let copied : take (suc index) written ≡ take (suc index) R =
      take-set buffer index digit (omega arith)
      ∙ rw same (sym (take-get_elem? R index digit there)) in
    let next : index + 1 ≡ suc index = omega arith in
    rw (found, lt→ltb index (length buffer) (omega arith), next)
      (copy_digits_lem n (suc index) count digits written (omega arith) inside full
        (length-set buffer index digit ∙ room) copied)

-- The padding, before the prefix where it is spaces and behind it where it is zeros.
abbrev pub padded : List ℕ → Bool → Bool → ℕ → List ℕ
padded text false false padding = replicate padding 0x20 ++ text
padded text true false padding = replicate padding 0x20 ++ 0x30 ∷ 0x78 ∷ text
padded text false true padding = replicate padding 0x30 ++ text
padded text true true padding = 0x30 ∷ 0x78 ∷ replicate padding 0x30 ++ text

order :
    (text : List ℕ) (alternate zero_pad : Bool) (padding : ℕ)
    → (if zero_pad then [] else replicate padding 0x20)
        ++ (if alternate then codes "0x" else [])
        ++ (if zero_pad then replicate padding 0x30 else [])
        ++ text
      ≡ padded text alternate zero_pad padding
order text false false padding = simp append-nil
order text true false padding =
    simp (append-nil, append_assoc (replicate padding 0x20) (codes "0x") text)
order text false true padding = refl
order text true true padding = refl

length-padded :
    (text : List ℕ) (alternate zero_pad : Bool) (padding : ℕ)
    → length (padded text alternate zero_pad padding)
      ≡ padding + ((if alternate then 2 else 0) + length text)
length-padded text false false n =
    omega (arith, length-append (replicate n 0x20) text, length-replicate {A = ℕ} n 0x20)
length-padded text true false n =
    omega (
      arith,
      length-append (replicate n 0x20) (0x30 ∷ 0x78 ∷ text),
      length-replicate {A = ℕ} n 0x20,
    )
length-padded text false true n =
    omega (arith, length-append (replicate n 0x30) text, length-replicate {A = ℕ} n 0x30)
length-padded text true true n =
    omega (arith, length-append (replicate n 0x30) text, length-replicate {A = ℕ} n 0x30)

-- A 64-bit value is printed as its hexadecimal numeral of at most 16 digits, behind the prefix and
-- with as much padding as the width asks for: the output is as long as the width, or as long as
-- the prefix and the digits where these are longer.
pub print_hex_u64-padded :
    (value : ℕ) (alternate : Bool) (width : ℕ) (zero_pad : Bool)
    → value < 2 ^ 64
    → (text : List ℕ) × (padding : ℕ) × (print_hex_u64 value alternate width zero_pad
        ≡ ok (padded text alternate zero_pad padding))
      × IsNumeral 16 value text
      × (length text ≤ 16)
      × (length (padded text alternate zero_pad padding)
          ≡ max width ((if alternate then 2 else 0) + length text))
unfolding print_hex_u64
print_hex_u64-padded value alternate width zero_pad h =
    let (count, buffer, runs, full, inside, digits) = hex_value_digits-IsNumeral value h in
    let text = reversed (take count buffer) in
    let size : length text ≡ count =
      omega (arith, length-reversed (take count buffer), length-take count buffer) in
    let (copied, copies, room, same) =
      copy_digits_lem count 0 count buffer (replicate 16 0) (omega arith) inside full refl refl in
    let fits : ltb (length copied) count ≡ false = ground arith in
    let padding : ℕ = width - ((if alternate then 2 else 0) + count) in
    (
      text,
      padding,
      rw (runs, copies, fits, same) (ap ok (order text alternate zero_pad padding)),
      digits,
      omega arith,
      length-padded text alternate zero_pad padding ∙ omega arith,
    )
