-- ===== src/Gpt/Crc.antt =====
-- src/gpt.rs: the CRC32 of a byte slice.
use Prim.Native.Nat.{bit_and, bit_xor}
use rustfirmware.Base.{
  ℕ, zero, suc, ◌-◌, ◌/◌, ◌^◌, ◌≡◌, refl, List, [], ◌∷◌, ◌++◌, ◌!=◌, if◌then◌else◌,
}

-- One round of the inner loop.
unfoldable pub crc32_bit : ℕ → ℕ
crc32_bit crc = if bit_and crc 1 != 0 then bit_xor (crc / 2) 0xedb8_8320 else crc / 2

unfoldable pub crc32_bits : ℕ → ℕ → ℕ
unfolding crc32_bit
crc32_bits zero crc = crc
crc32_bits (suc n) crc = crc32_bits n (crc32_bit crc)

unfoldable pub crc32_update : ℕ → List ℕ → ℕ
unfolding crc32_bits
crc32_update crc [] = crc
crc32_update crc (byte ∷ bytes) = crc32_update (crc32_bits 8 (bit_xor crc byte)) bytes

-- `!crc` on 32 bits.
unfoldable pub crc32_finalize : ℕ → ℕ
crc32_finalize crc = 2 ^ 32 - 1 - crc

unfoldable pub crc32 : List ℕ → ℕ
unfolding crc32_update crc32_finalize
crc32 bytes = crc32_finalize (crc32_update 0xffff_ffff bytes)

-- A checksum can be updated in parts.
pub crc32_update-append :
    (crc : ℕ) (xs ys : List ℕ) → crc32_update crc (xs ++ ys) ≡ crc32_update (crc32_update crc xs) ys
unfolding crc32_update
crc32_update-append crc [] ys = refl
crc32_update-append crc (byte ∷ xs) ys = crc32_update-append (crc32_bits 8 (bit_xor crc byte)) xs ys
