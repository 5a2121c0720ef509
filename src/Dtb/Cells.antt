-- ===== src/Dtb/Cells.antt =====
-- src/dtb_read.rs: what `read_cells` reads.
use Prim.Native.Nat.{bit_or}
use rustfirmware.Base.{
  ℕ, zero, suc, ◌+◌, ◌-◌, ◌*◌, ◌%◌, ◌^◌, ◌≤◌, ◌<◌, ◌≡◌, refl, sym, ap, ◌∙◌, false, ◌||◌, List, [],
  ◌∷◌, ◌++◌, some, length, take, drop, length-drop, ltb, arith,
}
use rustfirmware.Base.Bits.{bit_or_low}
use rustfirmware.Base.Bytes.{
  be_from, from_be_bytes, AllBytes, AllBytes-drop, from_be_bytes-take_four,
}
use rustfirmware.Dtb.Bytes.{
  wrapping_add, get_range, read_be_u32_from_slice, read_cells_from, read_cells,
}
use rustfirmware.Dtb.Total.Reads.{IsSlice}

be_from-append :
    (high : ℕ) (xs ys : List ℕ) → be_from high (xs ++ ys) ≡ be_from (be_from high xs) ys
be_from-append high [] ys = refl
be_from-append high (x ∷ xs) ys = be_from-append (high * 256 + x) xs ys

take-more : (n m : ℕ) (xs : List ℕ) → take (n + m) xs ≡ take n xs ++ take m (drop n xs)
take-more zero m xs = let e : 0 + m ≡ m = omega arith in rw e refl
take-more (suc n) zero [] = let e : suc n + 0 ≡ suc n = omega arith in rw e refl
take-more (suc n) (suc m) [] = let e : suc n + suc m ≡ suc (n + suc m) = omega arith in rw e refl
take-more (suc n) m (x ∷ xs) =
    let e : suc n + m ≡ suc (n + m) = omega arith in rw e (ap (◌∷◌ x) (take-more n m xs))

-- Four more bytes.
be_from-four :
    (high : ℕ) (bytes : List ℕ)
    → 4 ≤ length bytes
    → be_from high (take 4 bytes) ≡ high * 4294967296 + from_be_bytes (take 4 bytes)
be_from-four high [] h = absurd (omega arith)
be_from-four high (a ∷ []) h = absurd (omega arith)
be_from-four high (a ∷ b ∷ []) h = absurd (omega arith)
be_from-four high (a ∷ b ∷ c ∷ []) h = absurd (omega arith)
be_from-four high (a ∷ b ∷ c ∷ d ∷ bytes) h = omega arith

pub read_be_u32-at :
    (bytes : List ℕ) (offset : ℕ)
    → IsSlice bytes
    → offset + 4 ≤ length bytes
    → read_be_u32_from_slice bytes offset ≡ some (from_be_bytes (take 4 (drop offset bytes)))
unfolding read_be_u32_from_slice get_range
read_be_u32-at bytes offset small inside =
    let end : wrapping_add offset 4 ≡ offset + 4 = omega arith in
    let four : offset + 4 - offset ≡ 4 = omega arith in
    let tests : ltb (offset + 4) offset || ltb (length bytes) (offset + 4) ≡ false = ground arith in
    rw (end, tests, four) refl

-- The number that the first `cells` cells make, without the digits above 64 bits.
abbrev pub cells_value : List ℕ → ℕ → ℕ
cells_value bytes cells = from_be_bytes (take (4 * cells) bytes) % 2 ^ 64

shifted :
    (high cell : ℕ)
    → cell < 2 ^ 32
    → bit_or (high % 2 ^ 64 * 2 ^ 32 % 2 ^ 64) cell ≡ (high * 4294967296 + cell) % 2 ^ 64
shifted high cell h =
    bit_or_low 32 (high % 2 ^ 64 * 2 ^ 32 % 2 ^ 64) cell (omega arith) h ∙ omega arith

read_cells_from_lem :
    (n index : ℕ) (bytes : List ℕ)
    → IsSlice bytes
    → AllBytes bytes
    → 4 * (index + n) ≤ length bytes
    → read_cells_from n index (cells_value bytes index) bytes ≡ cells_value bytes (index + n)
unfolding read_cells_from
read_cells_from_lem zero index bytes small all inside =
    let e : index + 0 ≡ index = omega arith in rw e refl
read_cells_from_lem (suc n) index bytes small all inside =
    let at : index * 4 % 2 ^ 64 ≡ 4 * index = omega arith in
    let word = take 4 (drop (4 * index) bytes) in
    let more : 4 * (index + 1) ≡ 4 * index + 4 = omega arith in
    let next : bit_or (cells_value bytes index * 2 ^ 32 % 2 ^ 64) (from_be_bytes word)
        ≡ cells_value bytes (index + 1) =
      shifted (from_be_bytes (take (4 * index) bytes)) (from_be_bytes word)
        (from_be_bytes-take_four (drop (4 * index) bytes) (AllBytes-drop (4 * index) bytes all))
      ∙ rw (more, take-more (4 * index) 4 bytes, be_from-append 0 (take (4 * index) bytes) word)
          (ap (λ (t : ℕ). t % 2 ^ 64)
            (sym (
              be_from-four (from_be_bytes (take (4 * index) bytes)) (drop (4 * index) bytes)
                (omega (arith, length-drop (4 * index) bytes))))) in
    let sum : index + suc n ≡ index + 1 + n = omega arith in
    rw (at, read_be_u32-at bytes (4 * index) small (omega arith), next, sum)
      (read_cells_from_lem n (index + 1) bytes small all (omega arith))

-- read_cells reads the big-endian number that the bytes of the cells make, modulo 2^64.
pub read_cells-cells_value :
    (bytes : List ℕ) (cells : ℕ)
    → IsSlice bytes
    → AllBytes bytes
    → 4 * cells ≤ length bytes
    → read_cells bytes cells ≡ cells_value bytes cells
unfolding read_cells
read_cells-cells_value bytes cells small all inside =
    let e : 0 + cells ≡ cells = omega arith in
    read_cells_from_lem cells 0 bytes small all (omega arith) ∙ ap (cells_value bytes) e
