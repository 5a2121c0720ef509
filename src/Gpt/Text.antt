-- ===== src/Gpt/Text.antt =====
-- src/gpt.rs: the printable label, type and GUID of an entry, as lists of ASCII codes.
use Prim.Native.Nat.{bit_and}
use rustfirmware.Base.{
  ℕ, ◌+◌, ◌/◌, ◌≤◌, ◌<◌, ◌||◌, List, [], ◌∷◌, arith, length, Bool-cases, inl, inr, leb, ltb, ◌==◌,
  if◌then◌else◌,
}
use rustfirmware.Base.Bytes.{bytes_eq}
use rustfirmware.Gpt.Entry.{GptPartitionEntry, gpt_type_guid_linux_filesystem, gpt_type_guid_esp}

-- The loop of `label` with `out` bytes written to the buffer of 72.
unfoldable pub label_from : ℕ → List ℕ → List ℕ
label_from out [] = []
label_from out (code_unit ∷ code_units) =
    let rest = label_from (out + 1) code_units in
    if code_unit == 0 || out == 72
    then []
    else (if leb code_unit 0x7f then code_unit else 0x3f) ∷ rest

-- An empty label is a dash.
abbrev pub or_dash : List ℕ → List ℕ
or_dash [] = 0x2d ∷ []
or_dash (byte ∷ bytes) = byte ∷ bytes

unfoldable pub label : GptPartitionEntry → List ℕ
unfolding label_from
label entry = or_dash (label_from 0 entry.partition_name)

-- `HEX[digit]`.
unfoldable pub hex_digit : ℕ → ℕ
hex_digit digit = if ltb digit 10 then 0x30 + digit else 0x57 + digit

-- The loop of `guid`.
unfoldable pub format_bytes : List ℕ → List ℕ
unfolding hex_digit
format_bytes [] = []
format_bytes (byte ∷ bytes) =
    let rest = format_bytes bytes in
    if byte == 0xff then 0x2d ∷ rest else hex_digit (byte / 16) ∷ hex_digit (bit_and byte 15) ∷ rest

-- The array `bytes` of `guid`: the GUID's bytes in the order in which they are printed, with 0xff for
-- each dash. `partition_type_guid` has 16 bytes.
unfoldable pub printed_order : List ℕ → List ℕ
printed_order (a ∷ b ∷ c ∷ d ∷ e ∷ f ∷ g ∷ h ∷ i ∷ j ∷ rest) =
    d ∷ c ∷ b ∷ a ∷ 0xff ∷ f ∷ e ∷ 0xff ∷ h ∷ g ∷ 0xff ∷ i ∷ j ∷ 0xff ∷ rest
printed_order other = []

unfoldable pub guid : GptPartitionEntry → List ℕ
unfolding format_bytes printed_order
guid entry = format_bytes (printed_order entry.partition_type_guid)

-- "Linux filesystem" and "ESP".
abbrev pub linux_filesystem : List ℕ
linux_filesystem =
    0x4c ∷ 0x69 ∷ 0x6e ∷ 0x75 ∷ 0x78 ∷ 0x20 ∷ 0x66 ∷ 0x69 ∷ 0x6c ∷ 0x65 ∷ 0x73 ∷ 0x79 ∷ 0x73 ∷ 0x74
    ∷ 0x65 ∷ 0x6d ∷ []

abbrev pub esp : List ℕ
esp = 0x45 ∷ 0x53 ∷ 0x50 ∷ []

unfoldable pub partition_type : GptPartitionEntry → List ℕ
unfolding guid bytes_eq
partition_type entry =
    if bytes_eq entry.partition_type_guid gpt_type_guid_linux_filesystem
    then linux_filesystem
    else if bytes_eq entry.partition_type_guid gpt_type_guid_esp
    then esp
    else guid entry

-- The codes of a text that are printable as ASCII.
abbrev pub AllAscii : List ℕ → Type 0
AllAscii [] = Unit {0}
AllAscii (byte ∷ bytes) = (0 < byte) × (byte ≤ 0x7f) × AllAscii bytes

label_from-AllAscii :
    (out : ℕ) (code_units : List ℕ)
    → out ≤ 72
    → AllAscii (label_from out code_units) × (out + length (label_from out code_units) ≤ 72)
unfolding label_from
label_from-AllAscii out [] h = (tt, omega arith)
label_from-AllAscii out (code_unit ∷ code_units) h =
    elim (Bool-cases (code_unit == 0 || out == 72)) [
      | inl stop ↦ rw stop (tt, omega arith)
      | inr more ↦
          let (ascii, size) = label_from-AllAscii (out + 1) code_units (ground arith) in
          rw more ((ground arith, ground arith, ascii), omega (arith, size))
    ]

-- A label is not empty, fits the buffer of 72 bytes and consists of ASCII codes other than zero.
pub label-AllAscii :
    (entry : GptPartitionEntry)
    → AllAscii (label entry) × (0 < length (label entry)) × (length (label entry) ≤ 72)
unfolding label
label-AllAscii entry =
    dash (label_from 0 entry.partition_name)
      (label_from-AllAscii 0 entry.partition_name (omega arith))
  where
    dash :
        (bytes : List ℕ)
        → AllAscii bytes × (0 + length bytes ≤ 72)
        → AllAscii (or_dash bytes) × (0 < length (or_dash bytes)) × (length (or_dash bytes) ≤ 72)
    dash [] h = ((omega arith, omega arith, tt), omega arith, omega arith)
    dash (byte ∷ bytes) h = (h.0, omega arith, omega (arith, h.1))
