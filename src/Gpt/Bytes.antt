-- ===== src/Gpt/Bytes.antt =====
-- src/gpt.rs: little-endian fields of a byte slice.
use rustfirmware.Base.{
  ℕ, ◌+◌, ◌*◌, List, [], ◌∷◌, Option, none, some, length, take, drop, leb, if◌then◌else◌,
}
use rustfirmware.Base.Maybe.{◌>>=◌}

-- `bytes.get(offset..offset + count)`.
unfoldable pub get : List ℕ → ℕ → ℕ → Option (List ℕ)
get bytes offset count =
    if leb (offset + count) (length bytes) then some (take count (drop offset bytes)) else none

-- `u32::from_le_bytes` and `u64::from_le_bytes`: the first byte is the lowest.
unfoldable pub from_le_bytes : List ℕ → ℕ
from_le_bytes [] = 0
from_le_bytes (byte ∷ bytes) = byte + 256 * from_le_bytes bytes

unfoldable pub read_u32 : List ℕ → ℕ → Option ℕ
unfolding get from_le_bytes
read_u32 bytes offset = do data_bytes ← get bytes offset 4; some (from_le_bytes data_bytes)

unfoldable pub read_u64 : List ℕ → ℕ → Option ℕ
unfolding get from_le_bytes
read_u64 bytes offset = do data_bytes ← get bytes offset 8; some (from_le_bytes data_bytes)

unfoldable pub copy_16 : List ℕ → ℕ → Option (List ℕ)
unfolding get
copy_16 bytes offset = do data_bytes ← get bytes offset 16; some data_bytes
