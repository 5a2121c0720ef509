-- ===== src/Dtb/Total/Reads.antt =====
-- src/dtb_read.rs: where the reads of a blob end.
use rustfirmware.Base.{
  ℕ, ◌+◌, ◌-◌, ◌*◌, ◌/◌, ◌^◌, ◌≤◌, ◌<◌, ◌≡◌, inl, inr, false, ◌||◌, List, [], ◌∷◌, some, length,
  take, drop, length-drop, length-take, ltb, ◌==◌, ◌!=◌, err, arith, Bool-cases,
}
use rustfirmware.Base.Bits.{bit_and_high}
use rustfirmware.Base.Bytes.{
  from_be_bytes, AllBytes, AllBytes-drop, AllBytes-take, from_be_bytes-take_four,
}
use rustfirmware.Base.Maybe.{step_value, guard_passed, some_inj}
use rustfirmware.Base.Word.{checked_add}
use rustfirmware.Dtb.Bytes.{
  absent, wrapping_add, get_range, get_from, position_nul, from_utf8, align4,
  read_be_u32_from_slice,
}
use rustfirmware.Dtb.Blob.{Fdt}
use rustfirmware.Dtb.Structure.{
  fdt_begin_node, read_token, c_string, read_c_string, after_begin_node, after_property,
}
use rustfirmware.Dtb.Total.{Finds, gives, misses, Finds-then, Finds-option, Finds-if}

-- A slice has fewer than 2^63 bytes.
abbrev pub IsSlice : List ℕ → Type 0
IsSlice bytes = length bytes < 2 ^ 63

pub align4_lem : (value : ℕ) → value + 3 < 2 ^ 64 → align4 value ≡ (value + 3) / 4 * 4
unfolding align4
align4_lem value h =
    let same : wrapping_add value 3 ≡ value + 3 = omega arith in
    rw same (bit_and_high 2 62 (value + 3) h)

pub get_range-within :
    (bytes : List ℕ) (start end : ℕ) (out : List ℕ)
    → get_range bytes start end ≡ some out
    → (start ≤ end) × (end ≤ length bytes)
unfolding get_range
get_range-within bytes start end out h = ground (arith, h)

-- What the reader hands on: a slice of bytes.
abbrev pub IsValue : List ℕ → Type 0
IsValue value = IsSlice value × AllBytes value

pub get_range-IsValue :
    (bytes : List ℕ) (start end : ℕ) (out : List ℕ)
    → IsSlice bytes
    → AllBytes bytes
    → get_range bytes start end ≡ some out
    → IsValue out
unfolding get_range
get_range-IsValue bytes start end out small all h =
    let (_, e) = guard_passed (ltb end start || ltb (length bytes) end) _ h in
    rw (← some_inj e) (
      omega (arith, length-take (end - start) (drop start bytes), length-drop start bytes),
      AllBytes-take (end - start) (drop start bytes) (AllBytes-drop start bytes all),
    )

pub get_from-within :
    (bytes : List ℕ) (start : ℕ) (out : List ℕ)
    → get_from bytes start ≡ some out
    → (start ≤ length bytes) × (length out ≡ length bytes - start)
unfolding get_from
get_from-within bytes start out h = ground (arith, h, length-drop start bytes)

pub position_nul-within :
    (bytes : List ℕ) (index : ℕ) → position_nul bytes ≡ some index → index < length bytes
unfolding position_nul
position_nul-within [] index h = cc
position_nul-within (byte ∷ bytes) index h = elim (Bool-cases (byte == 0)) [
  | inl here ↦ let e : ◌≡◌ {A = ℕ} 0 index = some_inj (rw here at h) in omega (arith, e)
  | inr later ↦
      let (i, e, found) = step_value (position_nul bytes) _ (rw later at h) in
      omega (arith, position_nul-within bytes i found, some_inj e)
]

pub read_be_u32-within :
    (bytes : List ℕ) (offset value : ℕ)
    → IsSlice bytes
    → read_be_u32_from_slice bytes offset ≡ some value
    → offset + 4 ≤ length bytes
unfolding read_be_u32_from_slice
read_be_u32-within bytes offset value small h =
    let (word, _, found) = step_value (get_range bytes offset (wrapping_add offset 4)) _ h in
    let (above, below) = get_range-within bytes offset (wrapping_add offset 4) word found in
    omega arith

pub read_be_u32-bound :
    (bytes : List ℕ) (offset value : ℕ)
    → IsSlice bytes
    → AllBytes bytes
    → read_be_u32_from_slice bytes offset ≡ some value
    → value < 2 ^ 32
unfolding read_be_u32_from_slice get_range
read_be_u32-bound bytes offset value small all h =
    let inside = read_be_u32-within bytes offset value small h in
    let end : wrapping_add offset 4 ≡ offset + 4 = omega arith in
    let four : offset + 4 - offset ≡ 4 = omega arith in
    let tests : ltb (offset + 4) offset || ltb (length bytes) (offset + 4) ≡ false = ground arith in
    let e : from_be_bytes (take 4 (drop offset bytes)) ≡ value =
      some_inj (rw (end, tests, four) at h) in
    rw (← e) (from_be_bytes-take_four (drop offset bytes) (AllBytes-drop offset bytes all))

module _ (fdt : Fdt) (small : IsSlice fdt.structure) where
  pub read_token-within :
      (offset token : ℕ) → read_token fdt offset ≡ some token → offset + 4 ≤ length fdt.structure
  unfolding read_token
  read_token-within offset token h = read_be_u32-within fdt.structure offset token small h

  pub c_string-Finds : (rest : List ℕ) → Finds (λ r. r.1 < length rest) (c_string rest)
  c_string-Finds rest = Finds-option (position_nul rest) _ λ end found.
      Finds-option (from_utf8 (take end rest)) _
        λ name valid. gives (position_nul-within rest end found)

  pub read_c_string-Finds :
      (offset : ℕ)
      → Finds
          (λ r. (offset < r.1) × (r.1 ≤ length fdt.structure))
          (read_c_string fdt.structure offset)
  unfolding read_c_string
  read_c_string-Finds offset = Finds-option (get_from fdt.structure offset) _ λ rest from.
      let (start, size) = get_from-within fdt.structure offset rest from in
      Finds-then _ (c_string-Finds rest) λ r end. gives (omega arith, omega arith)

  -- A node's first token and its name take at least five bytes.
  pub after_begin_node-Finds :
      (offset : ℕ)
      → Finds
          (λ after. (offset + 4 ≤ after) × (after ≤ length fdt.structure + 3))
          (after_begin_node fdt offset)
  unfolding after_begin_node
  after_begin_node-Finds offset = Finds-option (read_token fdt offset) _ λ token here.
      Finds-if (token != fdt_begin_node) (err absent) _ misses (
        Finds-option (checked_add offset 4) _ λ name_offset sum.
          Finds-then _ (read_c_string-Finds name_offset) λ r ends.
            let (above, below) = ends in
            let aligned = align4_lem r.1 (omega arith) in
            let start : name_offset ≡ offset + 4 = ground (arith, sum) in
            gives (omega (arith, aligned, start), omega (arith, aligned)))

  pub after_property-Finds :
      (offset : ℕ)
      → offset + 4 ≤ length fdt.structure
      → Finds
          (λ after. (offset + 4 ≤ after) × (after ≤ length fdt.structure + 3))
          (after_property fdt offset)
  unfolding after_property
  after_property-Finds offset inside =
      Finds-option (read_token fdt (wrapping_add offset 4)) _ λ length_ here.
        Finds-option (checked_add offset 12) _ λ value_offset first.
          Finds-option (checked_add value_offset length_) _ λ value_end second.
            Finds-option (get_range fdt.structure value_offset value_end) _ λ value range.
              let (above, below) =
                get_range-within fdt.structure value_offset value_end value range in
              let aligned = align4_lem value_end (omega arith) in
              let start : value_offset ≡ offset + 12 = ground (arith, first) in
              gives (omega (arith, aligned, start), omega (arith, aligned))
