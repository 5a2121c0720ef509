-- ===== src/Print/Numbers.antt =====
-- src/print.rs: the integer conversions, with their buffers on the stack.
pub mod Decimal
pub mod Hex
use Prim.Native.Nat.{bit_and}
use rustfirmware.Base.{
  ℕ, zero, suc, ◌+◌, ◌-◌, ◌*◌, ◌/◌, ◌%◌, Bool, true, false, not, List, [], ◌∷◌, ◌++◌, length, take,
  drop, replicate, ◌==◌, ltb, if◌then◌else◌, Outcome, ok, panic, out_of_fuel, ◌>>=◌, read, write,
}
use rustfirmware.Base.Text.{codes}
use rustfirmware.Base.Word.{wrapping_sub, saturating_sub}
use rustfirmware.Print.Argument.{Output}

-- The loop of `print_decimal_u64`: `index -= 1` wraps at zero, and the write then panics.
unfoldable pub decimal_loop : ℕ → ℕ → ℕ → List ℕ → Outcome ⊥ (ℕ × List ℕ)
decimal_loop zero value index buffer = out_of_fuel
decimal_loop (suc fuel) value index buffer =
    let rest : Outcome ⊥ (ℕ × List ℕ) =
      write buffer (wrapping_sub index 1) (0x30 + value % 10) >>= λ written.
      decimal_loop fuel (value / 10) (wrapping_sub index 1) written in
    if value == 0 then ok (index, buffer) else rest

-- `&buffer[index..]`.
abbrev pub slice_from : List ℕ → ℕ → Output
slice_from buffer index = if ltb (length buffer) index then panic else ok (drop index buffer)

-- `&buffer[..count]`.
abbrev pub slice_to : List ℕ → ℕ → Output
slice_to buffer count = if ltb (length buffer) count then panic else ok (take count buffer)

-- 20 bytes of buffer; a round more than that is fuel for the last test of the loop.
unfoldable pub print_decimal_u64 : ℕ → Output
print_decimal_u64 value =
    if value == 0
    then ok (codes "0")
    else do (index, buffer) ← decimal_loop 21 value 20 (replicate 20 0); slice_from buffer index

abbrev pub hex_digits : List ℕ
hex_digits = codes "0123456789abcdef"

-- The loop that takes the digits off, the lowest first.
unfoldable pub hex_loop : ℕ → ℕ → ℕ → List ℕ → Outcome ⊥ (ℕ × List ℕ)
hex_loop zero current digit_count digits = out_of_fuel
hex_loop (suc fuel) current digit_count digits =
    let rest : Outcome ⊥ (ℕ × List ℕ) = (do
      digit ← read hex_digits (bit_and current 0xf)
      written ← write digits digit_count digit
      hex_loop fuel (current / 16) (digit_count + 1) written) in
    if current == 0 then ok (digit_count, digits) else rest

-- The digits of any value: zero has one.
unfoldable pub hex_value_digits : ℕ → Outcome ⊥ (ℕ × List ℕ)
hex_value_digits value =
    if value == 0
    then (do written ← write (replicate 16 0) 0 0x30; ok (1, written))
    else hex_loop 17 value 0 (replicate 16 0)

-- The loop that turns the digits round, with `n` rounds left.
unfoldable pub copy_digits : ℕ → ℕ → ℕ → List ℕ → List ℕ → Output
copy_digits zero index digit_count digits buffer = ok buffer
copy_digits (suc n) index digit_count digits buffer = do
  digit ← read digits (digit_count - 1 - index)
  written ← write buffer index digit
  copy_digits n (index + 1) digit_count digits written

unfoldable pub print_hex_u64 : ℕ → Bool → ℕ → Bool → Output
print_hex_u64 value alternate width zero_pad = do
  (digit_count, digits) ← hex_value_digits value
  let prefix_len = if alternate then 2 else 0
  let total_len = prefix_len + digit_count
  let padding = saturating_sub width total_len
  buffer ← copy_digits digit_count 0 digit_count digits (replicate 16 0)
  text ← slice_to buffer digit_count
  ok (
      (if zero_pad then [] else replicate padding 0x20)
      ++ (if alternate then codes "0x" else [])
      ++ (if zero_pad then replicate padding 0x30 else [])
      ++ text)
