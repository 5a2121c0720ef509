-- ===== src/Dtb/Bytes.antt =====
-- src/dtb_read.rs: reading slices of bytes. A search that the code ends with `None` ends with `absent`
-- here where it has a loop in it.
use Prim.Native.Nat.{bit_and, bit_or}
use rustfirmware.Base.{
  ℕ, zero, suc, ◌+◌, ◌-◌, ◌*◌, ◌%◌, ◌^◌, Bool, false, ◌&&◌, ◌||◌, List, [], ◌∷◌, Option, none, some,
  length, take, drop, ltb, leb, ◌==◌, if◌then◌else◌, Outcome, ok, err, panic, out_of_fuel,
}
use rustfirmware.Base.Bytes.{from_be_bytes}
use rustfirmware.Base.Maybe.{◌>>=◌}
use rustfirmware.Base.Word.{u64_mod, not_u64}

pub data Absent : Type 0 where
  absent : Absent

-- A search that gives a value or `None`, and code that returns in any case.
abbrev pub Search : Type 0 → Type 0
Search A = Outcome Absent A

abbrev pub Run : Type 0 → Type 0
Run A = Outcome ⊥ A

-- `if let Some(value) = search`.
abbrev pub attempt : {A : Type 0} → Search A → Run (Option A)
attempt (ok a) = ok (some a)
attempt (err e) = ok none
attempt panic = panic
attempt out_of_fuel = out_of_fuel

-- `a + b` in a release build.
abbrev pub wrapping_add : ℕ → ℕ → ℕ
wrapping_add a b = (a + b) % u64_mod

-- `bytes.get(start..end)` and `bytes.get(start..)`.
unfoldable pub get_range : List ℕ → ℕ → ℕ → Option (List ℕ)
get_range bytes start end =
    if ltb end start || ltb (length bytes) end
    then none
    else some (take (end - start) (drop start bytes))

unfoldable pub get_from : List ℕ → ℕ → Option (List ℕ)
get_from bytes start = if ltb (length bytes) start then none else some (drop start bytes)

-- `bytes.iter().position(|byte| *byte == 0)`.
unfoldable pub position_nul : List ℕ → Option ℕ
position_nul [] = none
position_nul (byte ∷ bytes) =
    let rest = position_nul bytes in
    if byte == 0 then some 0 else (rest >>= λ index. some (suc index))

-- `str::from_utf8`: the bytes that a sequence still takes, with the range of the next one.
pub record Utf8State : Type 0 where
  pub remaining : ℕ
  pub lower : ℕ
  pub upper : ℕ

abbrev pub utf8_tail : ℕ → Utf8State
utf8_tail remaining = record { remaining = remaining; lower = 0x80; upper = 0xbf }

abbrev pub within : ℕ → ℕ → ℕ → Bool
within lower upper byte = leb lower byte && leb byte upper

-- The first byte of a sequence tells its length and the range of the second byte.
unfoldable pub utf8_first : ℕ → Option Utf8State
utf8_first byte =
    if leb byte 0x7f
    then some (utf8_tail 0)
    else if within 0xc2 0xdf byte
    then some (utf8_tail 1)
    else if byte == 0xe0
    then some (record { remaining = 2; lower = 0xa0; upper = 0xbf })
    else if byte == 0xed
    then some (record { remaining = 2; lower = 0x80; upper = 0x9f })
    else if within 0xe1 0xef byte
    then some (utf8_tail 2)
    else if byte == 0xf0
    then some (record { remaining = 3; lower = 0x90; upper = 0xbf })
    else if within 0xf1 0xf3 byte
    then some (utf8_tail 3)
    else if byte == 0xf4
    then some (record { remaining = 3; lower = 0x80; upper = 0x8f })
    else none

unfoldable pub utf8_next : Utf8State → ℕ → Option Utf8State
unfolding utf8_first
utf8_next state byte =
    if state.remaining == 0
    then utf8_first byte
    else if within state.lower state.upper byte
    then some (utf8_tail (state.remaining - 1))
    else none

unfoldable pub utf8_from : Utf8State → List ℕ → Bool
unfolding utf8_next
utf8_from state [] = state.remaining == 0
utf8_from state (byte ∷ bytes) = elim (utf8_next state byte) [
  | none ↦ false
  | some next ↦ utf8_from next bytes
]

unfoldable pub from_utf8 : List ℕ → Option (List ℕ)
from_utf8 bytes = if utf8_from (utf8_tail 0) bytes then some bytes else none

unfoldable pub align4 : ℕ → ℕ
align4 value = bit_and (wrapping_add value 3) (not_u64 3)

unfoldable pub read_be_u32_from_slice : List ℕ → ℕ → Option ℕ
read_be_u32_from_slice bytes offset = do
  word ← get_range bytes offset (wrapping_add offset 4)
  some (from_be_bytes word)

unfoldable pub read_be_u64_from_slice : List ℕ → ℕ → Option ℕ
read_be_u64_from_slice bytes offset = do
  word ← get_range bytes offset (wrapping_add offset 8)
  some (from_be_bytes word)

-- `option.unwrap_or(default)`.
abbrev pub unwrap_or : Option ℕ → ℕ → ℕ
unwrap_or none default = default
unwrap_or (some value) default = value

-- The loop of `read_cells` with `n` cells to go.
unfoldable pub read_cells_from : ℕ → ℕ → ℕ → List ℕ → ℕ
read_cells_from zero index value bytes = value
read_cells_from (suc n) index value bytes =
    let cell = unwrap_or (read_be_u32_from_slice bytes (index * 4 % u64_mod)) 0 in
    read_cells_from n (index + 1) (bit_or (value * 2 ^ 32 % u64_mod) cell) bytes

unfoldable pub read_cells : List ℕ → ℕ → ℕ
read_cells bytes cells = read_cells_from cells 0 0 bytes
