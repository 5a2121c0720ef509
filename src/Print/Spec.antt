-- ===== src/Print/Spec.antt =====
-- src/print.rs: the text between braces, and printing one argument as it asks for.
pub mod Width
use rustfirmware.Base.{
  ℕ, ◌+◌, ◌-◌, ◌*◌, Bool, true, false, ◌&&◌, List, [], ◌∷◌, Option, none, some, drop, leb, ltb,
  ◌==◌, ◌!=◌, if◌then◌else◌, Outcome, ok,
}
use rustfirmware.Base.Text.{codes}
use rustfirmware.Base.Word.{saturating_add, saturating_mul}
use rustfirmware.Print.Argument.{Output, FormatArgument, str, bool, usize, u64, u32}
use rustfirmware.Print.Numbers.{print_decimal_u64, print_hex_u64}

pub data FormatKind : Type 0 where
  display lower_hex : FormatKind

pub record ParsedFormatSpec : Type 0 where
  pub kind : FormatKind
  pub alternate : Bool
  pub width : ℕ
  pub zero_pad : Bool

abbrev pub is_ascii_digit : ℕ → Bool
is_ascii_digit byte = leb b'0' byte && leb byte b'9'

-- `!bytes.is_empty() && bytes[0] == flag`, and what is left of the bytes.
abbrev pub has_flag : ℕ → List ℕ → Bool
has_flag flag [] = false
has_flag flag (byte ∷ bytes) = byte == flag

abbrev pub after_flag : ℕ → List ℕ → List ℕ
after_flag flag bytes = if has_flag flag bytes then drop 1 bytes else bytes

-- The loop over the digits of the width: the bytes that are left, and the width.
unfoldable pub parse_width : List ℕ → ℕ → List ℕ × ℕ
parse_width [] width = ([], width)
parse_width (byte ∷ bytes) width =
    let rest = parse_width bytes (saturating_add (saturating_mul width 10) (byte - b'0')) in
    if is_ascii_digit byte then rest else (byte ∷ bytes, width)

-- `bytes == b"x"`.
abbrev pub is_x : List ℕ → Bool
is_x [] = false
is_x (byte ∷ []) = byte == b'x'
is_x (byte ∷ next ∷ bytes) = false

unfoldable pub parse_hex_spec : List ℕ → Option ParsedFormatSpec
parse_hex_spec remainder =
    let flagged = after_flag b'#' remainder in
    let (bytes, width) = parse_width (after_flag b'0' flagged) 0 in
    if is_x bytes
    then some (record {
      kind = lower_hex;
      alternate = has_flag b'#' remainder;
      width = width;
      zero_pad = has_flag b'0' flagged;
    })
    else none

-- The first character is a colon exactly if the first byte is one.
unfoldable pub parse_format_spec : List ℕ → Option ParsedFormatSpec
parse_format_spec [] =
    some (record { kind = display; alternate = false; width = 0; zero_pad = false })
parse_format_spec (char ∷ remainder) = if char != b':' then none else parse_hex_spec remainder

abbrev pub format_error : List ℕ
format_error = codes "<format-error>"

unfoldable pub print_display : FormatArgument → Output
print_display (str value) = ok value
print_display (bool value) = if value then ok (codes "true") else ok (codes "false")
print_display (usize value) = print_decimal_u64 value
print_display (u64 value) = print_decimal_u64 value
print_display (u32 value) = print_decimal_u64 value

-- The value that `print_hex` takes of an argument.
abbrev pub hex_value : FormatArgument → Option ℕ
hex_value (usize value) = some value
hex_value (u64 value) = some value
hex_value (u32 value) = some value
hex_value (str value) = none
hex_value (bool value) = none

unfoldable pub print_hex : FormatArgument → ParsedFormatSpec → Output
print_hex argument specification = elim (hex_value argument) [
  | none ↦ ok format_error
  | some value ↦
      print_hex_u64 value specification.alternate specification.width specification.zero_pad
]

abbrev pub print_specified : FormatArgument → Option ParsedFormatSpec → Output
print_specified argument none = ok format_error
print_specified argument (some specification) = elim specification.kind [
  | display ↦ print_display argument
  | lower_hex ↦ print_hex argument specification
]

unfoldable pub print_argument : FormatArgument → List ℕ → Output
print_argument argument spec = print_specified argument (parse_format_spec spec)
