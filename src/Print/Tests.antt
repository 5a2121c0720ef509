-- ===== src/Print/Tests.antt =====
-- src/print.rs: runs of the printer.
use rustfirmware.Base.{
  ℕ, ◌+◌, ◌≤◌, max, some, length, ◌≡◌, refl, true, false, List, [], ◌∷◌, ◌++◌, ok, arith,
}
use rustfirmware.Base.Text.{codes}
use rustfirmware.Base.Numerals.{IsNumeral}
use rustfirmware.Print.Argument.{FormatArgument, bool, u32, str_value, u8_value, into_argument}
use rustfirmware.Print.Numbers.{
  decimal_loop, print_decimal_u64, hex_loop, hex_value_digits, copy_digits, print_hex_u64,
}
use rustfirmware.Print.Numbers.Decimal.{print_decimal_u64-IsNumeral}
use rustfirmware.Print.Numbers.Hex.{padded, print_hex_u64-padded}
use rustfirmware.Print.Spec.{
  lower_hex, parse_width, parse_hex_spec, parse_format_spec, print_display, print_hex,
  print_argument,
}
use rustfirmware.Print.Spec.Width.{spec_text, width_text, parse_format_spec-spec_text}
use rustfirmware.Print.Engine.{
  ◌>>◌, missing_arg, flush_literal, closing_brace_from, find_closing_brace, print_found,
  placeholder, opening_brace, closing_brace, print_byte, print_loop, print, println, println_macro,
}
use rustfirmware.Print.Engine.Pieces.{
  Piece, plain, open_brace, hole, Ending, complete, stray, format_text, render, AllPieces, IsEnding,
}
use rustfirmware.Print.Engine.Pieces.Rendered.{print-render}
use rustfirmware.Print.Engine.Pieces.Meaning.{print-Meaning, print-missing}

decimal_of_largest : print_decimal_u64 18446744073709551615 ≡ ok (codes "18446744073709551615")
unfolding print_decimal_u64 decimal_loop
decimal_of_largest = refl

hex_of_4096 : print_hex_u64 4096 true 10 true ≡ ok (codes "0x00001000")
unfolding print_hex_u64 hex_loop hex_value_digits copy_digits
hex_of_4096 = refl

whole_line :
    println_macro
      (codes "{{{:#x}}} {:04x}|{:3x}|{}")
      (u8_value 255 ∷ u8_value 10 ∷ u8_value 10 ∷ str_value (codes "ok") ∷ [])
    ≡ ok (codes "{0xff} 000a|  a|ok" ++ 0x0a ∷ [])
unfolding println_macro println print print_loop print_byte opening_brace closing_brace
    flush_literal placeholder find_closing_brace closing_brace_from print_found print_argument
    parse_format_spec parse_hex_spec parse_width print_hex into_argument print_hex_u64 copy_digits
    hex_loop hex_value_digits print_display
whole_line = refl

lost_text : print (codes "{{ab}c") [] ≡ ok (codes "{<format-error>")
unfolding print print_loop print_byte opening_brace flush_literal closing_brace
lost_text = refl

print_decimal_u64-IsNumeral_example :
    (text : List ℕ) × (print_decimal_u64 1203 ≡ ok text)
    × IsNumeral 10 1203 text
    × (length text ≤ 20)
print_decimal_u64-IsNumeral_example = print_decimal_u64-IsNumeral 1203 (omega arith)

print_hex_u64-padded_example :
    (text : List ℕ) × (padding : ℕ) × (print_hex_u64 255 true 8 false
      ≡ ok (padded text true false padding))
    × IsNumeral 16 255 text
    × (length text ≤ 16)
    × (length (padded text true false padding) ≡ max 8 (2 + length text))
print_hex_u64-padded_example = print_hex_u64-padded 255 true 8 false (omega arith)

parse_format_spec-spec_text_example :
    (digits : List ℕ) × (width_text 18 ≡ ok digits)
    × (parse_format_spec (spec_text true true digits)
        ≡ some (record { kind = lower_hex; alternate = true; width = 18; zero_pad = true }))
parse_format_spec-spec_text_example = parse_format_spec-spec_text true true 18 (omega arith)

abbrev two_arguments : List FormatArgument
two_arguments = u32 7 ∷ bool true ∷ []

abbrev some_pieces : List Piece
some_pieces = plain b'a' ∷ open_brace ∷ hole [] ∷ []

print-render_example :
    print (format_text some_pieces (stray [])) two_arguments
    ≡ render [] some_pieces (stray []) two_arguments
print-render_example =
    print-render some_pieces (stray []) two_arguments
      ((omega arith, omega arith), (tt, ((tt, tt), tt))) tt

print-Meaning_example :
    (pieces : List Piece) × (ending : Ending) × AllPieces pieces
    × IsEnding ending
    × (format_text pieces ending ≡ codes "a{}b{:x}c{")
    × (out : List ℕ) × (print (codes "a{}b{:x}c{") two_arguments ≡ ok out)
    × (render [] pieces ending two_arguments ≡ ok out)
print-Meaning_example = print-Meaning (codes "a{}b{:x}c{") two_arguments (omega arith, (tt, tt))

print-missing_example :
    print (format_text (some_pieces ++ hole [] ∷ plain b'c' ∷ []) complete) (u32 7 ∷ [])
    ≡ (print (format_text some_pieces complete) (u32 7 ∷ []) >> ok missing_arg)
print-missing_example =
    print-missing some_pieces (plain b'c' ∷ []) complete [] (u32 7 ∷ [])
      ((omega arith, omega arith), (tt, ((tt, tt), ((tt, tt), ((omega arith, omega arith), tt)))))
      tt refl
