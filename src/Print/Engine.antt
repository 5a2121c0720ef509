-- ===== src/Print/Engine.antt =====
-- src/print.rs: the loop over the format string.
pub mod Total
pub mod Pieces
use rustfirmware.Base.{
  ℕ, zero, suc, ◌+◌, ◌-◌, Bool, true, false, ◌||◌, List, [], ◌∷◌, ◌++◌, map, Option, none, some,
  length, take, drop, get_elem?, leb, ltb, ◌==◌, if◌then◌else◌, Outcome, ok, panic, out_of_fuel,
  ◌>>=◌,
}
use rustfirmware.Base.Text.{codes}
use rustfirmware.Print.Argument.{Output, FormatArgument, IntoFormatArgument, into_argument}
use rustfirmware.Print.Spec.{print_argument, format_error}

abbrev pub missing_arg : List ℕ
missing_arg = codes "<missing-arg>"

-- What is printed first and what is printed then.
infixl 5 ◌>>◌
abbrev pub ◌>>◌ : Output → Output → Output
first >> then_ = do out ← first; more ← then_; ok (out ++ more)

-- `&format[start..end]`. Both ends stand next to an ASCII byte, so they are character boundaries.
abbrev pub slice : List ℕ → ℕ → ℕ → Output
slice bytes start end =
    if ltb end start || ltb (length bytes) end
    then panic
    else ok (take (end - start) (drop start bytes))

unfoldable pub flush_literal : List ℕ → ℕ → ℕ → Output
flush_literal bytes start end = if leb end start then ok [] else slice bytes start end

-- The loop of `find_closing_brace`: the bytes from `index` on.
unfoldable pub closing_brace_from : List ℕ → ℕ → Option ℕ
closing_brace_from [] index = none
closing_brace_from (byte ∷ bytes) index =
    let rest = closing_brace_from bytes (index + 1) in if byte == b'}' then some index else rest

unfoldable pub find_closing_brace : List ℕ → ℕ → Option ℕ
find_closing_brace bytes start = closing_brace_from (drop start bytes) start

-- `index < bytes.len() && bytes[index] == byte`.
abbrev pub is_byte : ℕ → Option ℕ → Bool
is_byte byte none = false
is_byte byte (some found) = found == byte

-- The loop from `literal_start`, `index` and `argument_index` on.
abbrev pub Loop : Type 0
Loop = ℕ → ℕ → ℕ → Output

-- The placeholder that ends at `spec_end`, with the argument for it if there is one.
unfoldable pub print_found : Loop → ℕ → ℕ → List ℕ → Option FormatArgument → Output
print_found next spec_end argument_index spec none = ok missing_arg
print_found next spec_end argument_index spec (some argument) =
    print_argument argument spec >> next (spec_end + 1) (spec_end + 1) (argument_index + 1)

module _ (bytes : List ℕ) (arguments : List FormatArgument) where
  unfoldable pub placeholder : Loop → ℕ → ℕ → Option ℕ → Output
  placeholder next index argument_index none = ok format_error
  placeholder next index argument_index (some spec_end) =
      slice bytes (index + 1) spec_end >>= λ spec.
      print_found next spec_end argument_index spec (get_elem? arguments argument_index)

  unfoldable pub opening_brace : Loop → ℕ → ℕ → ℕ → Output
  opening_brace next literal_start index argument_index =
      flush_literal bytes literal_start index
      >> (if is_byte b'{' (get_elem? bytes (index + 1))
          then ok (codes "{") >> next (index + 2) (index + 2) argument_index
          else placeholder next index argument_index (find_closing_brace bytes (index + 1)))

  unfoldable pub closing_brace : Loop → ℕ → ℕ → ℕ → Output
  closing_brace next literal_start index argument_index =
      if is_byte b'}' (get_elem? bytes (index + 1))
      then flush_literal bytes literal_start index
        >> (ok (codes "}") >> next (index + 2) (index + 2) argument_index)
      else ok format_error

  -- One round of the loop, or its end, by the byte at `index`.
  unfoldable pub print_byte : Loop → ℕ → ℕ → ℕ → Option ℕ → Output
  print_byte next literal_start index argument_index none =
      flush_literal bytes literal_start (length bytes)
  print_byte next literal_start index argument_index (some byte) =
      if byte == b'{'
      then opening_brace next literal_start index argument_index
      else if byte == b'}'
      then closing_brace next literal_start index argument_index
      else next literal_start (index + 1) argument_index

  unfoldable pub print_loop : ℕ → ℕ → ℕ → ℕ → Output
  print_loop zero literal_start index argument_index = out_of_fuel
  print_loop (suc fuel) literal_start index argument_index =
      print_byte (print_loop fuel) literal_start index argument_index (get_elem? bytes index)

-- Each round moves the index on, so a round for each byte and one for the end are enough.
unfoldable pub print : List ℕ → List FormatArgument → Output
print format arguments = print_loop format arguments (length format + 1) 0 0 0

unfoldable pub println : List ℕ → List FormatArgument → Output
println format arguments = print format arguments >> ok (0x0a ∷ [])

-- The macros `print!` and `println!`.
unfoldable pub print_macro : List ℕ → List IntoFormatArgument → Output
print_macro format values = print format (map into_argument values)

unfoldable pub println_macro : List ℕ → List IntoFormatArgument → Output
println_macro format values = println format (map into_argument values)
