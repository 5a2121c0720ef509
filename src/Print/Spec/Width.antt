-- ===== src/Print/Spec/Width.antt =====
-- src/print.rs: a format specifier is read as it is written, and every argument can be printed.
use rustfirmware.Base.{
  ℕ, zero, suc, ◌+◌, ◌-◌, ◌*◌, ◌^◌, ◌≤◌, ◌<◌, ◌≡◌, inl, inr, refl, Bool, true, false, List, [], ◌∷◌,
  ◌++◌, Option, none, some, ◌==◌, if◌then◌else◌, ok, arith, suc-ne_zero, ap, ◌∙◌,
}
use rustfirmware.Base.Numerals.{digit_value, numeral, AllDigits, Leads, positive-Leads}
use rustfirmware.Print.Argument.{Output, FormatArgument, str, bool, usize, u64, u32, InRange}
use rustfirmware.Print.Numbers.{print_decimal_u64, print_hex_u64}
use rustfirmware.Print.Numbers.Decimal.{print_decimal_u64-IsNumeral}
use rustfirmware.Print.Numbers.Hex.{print_hex_u64-padded, padded}
use rustfirmware.Base.Text.{codes}
use rustfirmware.Base.Word.{saturating_add, saturating_mul}
use rustfirmware.Print.Spec.{
  ParsedFormatSpec, display, lower_hex, has_flag, parse_width, parse_hex_spec, parse_format_spec,
  print_display, print_hex, print_specified, print_argument, format_error, is_ascii_digit,
}

-- A format specifier for hexadecimal output.
abbrev pub spec_text : Bool → Bool → List ℕ → List ℕ
spec_text alternate zero_pad width =
    b':' ∷ (if alternate then b'#' ∷ [] else [])
    ++ ((if zero_pad then b'0' ∷ [] else []) ++ (width ++ b'x' ∷ []))

-- A width of zero is left out.
abbrev pub width_text : ℕ → Output
width_text width = if width == 0 then ok [] else print_decimal_u64 width

numeral-grows : (high : ℕ) (digits : List ℕ) → high ≤ numeral 10 high digits
numeral-grows high [] = omega arith
numeral-grows high (code ∷ digits) =
    omega (arith, numeral-grows (high * 10 + digit_value code) digits)

-- Digits that stay below the limit are read as their numeral.
parse_width-numeral :
    (digits : List ℕ) (width : ℕ)
    → AllDigits 10 digits
    → numeral 10 width digits < 2 ^ 64
    → parse_width (digits ++ b'x' ∷ []) width ≡ (b'x' ∷ [], numeral 10 width digits)
unfolding parse_width
parse_width-numeral [] width d h = refl
parse_width-numeral (code ∷ digits) width (inr d, ds) h = absurd (omega arith)
parse_width-numeral (code ∷ digits) width (inl d, ds) h =
    let grows = numeral-grows (width * 10 + digit_value code) digits in
    let value : digit_value code ≡ code - 0x30 = ground arith in
    let next : saturating_add (saturating_mul width 10) (code - b'0')
        ≡ width * 10 + digit_value code =
      ground (arith, value, grows) in
    let digit : is_ascii_digit code ≡ true = ground arith in
    rw (digit, next) (parse_width-numeral digits (width * 10 + digit_value code) ds h)

-- The flags stop at the width, which begins with neither of them.
parse_flags :
    (alternate zero_pad : Bool) (bytes : List ℕ) (width : ℕ)
    → has_flag b'#' bytes ≡ false
    → has_flag b'0' bytes ≡ false
    → parse_width bytes 0 ≡ (b'x' ∷ [], width)
    → parse_hex_spec
        ((if alternate then b'#' ∷ [] else []) ++ ((if zero_pad then b'0' ∷ [] else []) ++ bytes))
      ≡ some
          (record { kind = lower_hex; alternate = alternate; width = width; zero_pad = zero_pad })
unfolding parse_hex_spec
parse_flags true true bytes width h z e = rw e refl
parse_flags true false bytes width h z e = rw (z, e) refl
parse_flags false true bytes width h z e = rw e refl
parse_flags false false bytes width h z e = rw (h, z, e) refl

no_flag :
    (digits : List ℕ)
    → AllDigits 10 digits
    → Leads digits
    → (has_flag b'#' (digits ++ b'x' ∷ []) ≡ false) × (has_flag b'0' (digits ++ b'x' ∷ []) ≡ false)
no_flag [] d h = absurd h
no_flag (code ∷ digits) (inr d, ds) h = absurd (omega arith)
no_flag (code ∷ digits) (inl d, ds) h = (ground arith, ground (arith, h))

-- A specifier for hexadecimal output that is written with the printer's own decimal numeral of a
-- 64-bit width is read back as it was meant.
pub parse_format_spec-spec_text :
    (alternate zero_pad : Bool) (width : ℕ)
    → width < 2 ^ 64
    → (digits : List ℕ) × (width_text width ≡ ok digits)
      × (parse_format_spec (spec_text alternate zero_pad digits)
          ≡ some (record {
            kind = lower_hex;
            alternate = alternate;
            width = width;
            zero_pad = zero_pad;
          }))
unfolding parse_format_spec
parse_format_spec-spec_text alternate zero_pad zero h = (
  [],
  refl,
  parse_flags alternate zero_pad (b'x' ∷ []) 0 refl refl (parse_width-numeral [] 0 tt h),
)
parse_format_spec-spec_text alternate zero_pad (suc width) h =
    let (digits, prints, n, _) = print_decimal_u64-IsNumeral (suc width) h in
    let (hash, zeros) = no_flag digits n.digits (positive-Leads digits n (omega arith)) in
    (
      digits,
      rw (suc-ne_zero width) prints,
      parse_flags alternate zero_pad (digits ++ b'x' ∷ []) (suc width) hash zeros (
          parse_width-numeral digits 0 n.digits (rw n.reads h)
          ∙ ap (λ (w : ℕ). (b'x' ∷ [], w)) n.reads),
    )

print_display-total :
    (argument : FormatArgument)
    → InRange argument
    → (out : List ℕ) × (print_display argument ≡ ok out)
unfolding print_display
print_display-total (str text) h = (text, refl)
print_display-total (bool true) h = (codes "true", refl)
print_display-total (bool false) h = (codes "false", refl)
print_display-total (usize value) h =
    let (text, prints, _, _) = print_decimal_u64-IsNumeral value h in (text, prints)
print_display-total (u64 value) h =
    let (text, prints, _, _) = print_decimal_u64-IsNumeral value h in (text, prints)
print_display-total (u32 value) h =
    let (text, prints, _, _) = print_decimal_u64-IsNumeral value (omega arith) in (text, prints)

hex_total :
    (value : ℕ) (s : ParsedFormatSpec)
    → value < 2 ^ 64
    → (out : List ℕ) × (print_hex_u64 value s.alternate s.width s.zero_pad ≡ ok out)
hex_total value s h =
    let (text, padding, prints, _, _, _) =
      print_hex_u64-padded value s.alternate s.width s.zero_pad h in
    (padded text s.alternate s.zero_pad padding, prints)

print_hex-total :
    (argument : FormatArgument) (s : ParsedFormatSpec)
    → InRange argument
    → (out : List ℕ) × (print_hex argument s ≡ ok out)
unfolding print_hex
print_hex-total (str text) s h = (format_error, refl)
print_hex-total (bool value) s h = (format_error, refl)
print_hex-total (usize value) s h = hex_total value s h
print_hex-total (u64 value) s h = hex_total value s h
print_hex-total (u32 value) s h = hex_total value s (omega arith)

print_specified-total :
    (argument : FormatArgument) (o : Option ParsedFormatSpec)
    → InRange argument
    → (out : List ℕ) × (print_specified argument o ≡ ok out)
print_specified-total argument none h = (format_error, refl)
print_specified-total argument (some s) h =
    elim s.kind
      as (λ k.
        (out : List ℕ) × ◌≡◌ {A = Output}
          (elim k [ display ↦ print_display argument | lower_hex ↦ print_hex argument s ])
          (ok out)) [
            | display ↦ print_display-total argument h
            | lower_hex ↦ print_hex-total argument s h
          ]

-- Every argument within its type's range is printed, whatever the specifier is.
pub print_argument-total :
    (argument : FormatArgument) (spec : List ℕ)
    → InRange argument
    → (out : List ℕ) × (print_argument argument spec ≡ ok out)
unfolding print_argument
print_argument-total argument spec h = print_specified-total argument (parse_format_spec spec) h
