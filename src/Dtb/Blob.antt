-- ===== src/Dtb/Blob.antt =====
-- src/dtb_read.rs: the checks of the header and the sections of a blob.
pub mod Opens
use Prim.Native.Nat.{bit_and}
use rustfirmware.Base.{
  ℕ, zero, suc, ◌+◌, ◌-◌, ◌*◌, Bool, ◌||◌, List, [], ◌∷◌, Option, none, some, length, take, drop,
  ltb, leb, ◌==◌, ◌!=◌, if◌then◌else◌, Outcome, ok, err, panic, ok_or, ◌>>=◌,
}
use rustfirmware.Base.Bytes.{from_be_bytes}
use rustfirmware.Base.Word.{checked_add}

pub data FdtError : Type 0 where
  null_pointer misaligned_pointer bad_magic truncated unsupported_version invalid_header : FdtError

abbrev pub fdt_header_size : ℕ
fdt_header_size = 4 * 10

abbrev pub fdt_magic : ℕ
fdt_magic = 0xd00dfeed

pub record Fdt : Type 0 where
  pub base : ℕ
  pub total_size : ℕ
  pub reserve_map : List ℕ
  pub structure : List ℕ
  pub strings : List ℕ

-- The memory behind the pointer: the byte at each offset from it. `n` bytes of it.
abbrev pub memory_bytes : (ℕ → ℕ) → ℕ → ℕ → List ℕ
memory_bytes memory offset zero = []
memory_bytes memory offset (suc n) = memory offset ∷ memory_bytes memory (suc offset) n

unfoldable pub read_be_u32 : (ℕ → ℕ) → ℕ → Option ℕ
read_be_u32 memory offset = some (from_be_bytes (memory_bytes memory offset 4))

unfoldable pub validate_dtb_pointer : ℕ → Outcome FdtError (Unit {0})
validate_dtb_pointer ptr_raw =
    if ptr_raw == 0
    then err null_pointer
    else if bit_and ptr_raw 7 != 0
    then err misaligned_pointer
    else ok tt

-- `&blob[start..end]`.
unfoldable pub section : List ℕ → ℕ → ℕ → Outcome FdtError (List ℕ)
section blob start end =
    if ltb end start || ltb (length blob) end
    then panic
    else ok (take (end - start) (drop start blob))

-- The fields of the header that the reader uses, and their checks.
unfoldable pub from_header : ℕ → (ℕ → ℕ) → ℕ → ℕ → ℕ → ℕ → ℕ → ℕ → ℕ → Outcome FdtError Fdt
from_header ptr_raw memory total_size off_dt_struct off_dt_strings off_mem_rsvmap version
      size_dt_strings size_dt_struct =
    if ltb version 17
    then err unsupported_version
    else if ltb total_size fdt_header_size
    then err invalid_header
    else do
      struct_end ← ok_or (checked_add off_dt_struct size_dt_struct) invalid_header
      strings_end ← ok_or (checked_add off_dt_strings size_dt_strings) invalid_header
      if ltb total_size off_mem_rsvmap
          then err truncated
          else if ltb off_dt_struct fdt_header_size
              || ltb total_size struct_end
              || ltb off_dt_strings fdt_header_size
              || ltb total_size strings_end
          then err invalid_header
          else (do
            let blob = memory_bytes memory 0 total_size
            reserve_map ← section blob off_mem_rsvmap (length blob)
            structure ← section blob off_dt_struct struct_end
            strings ← section blob off_dt_strings strings_end
            ok (record {
              base = ptr_raw;
              total_size = total_size;
              reserve_map = reserve_map;
              structure = structure;
              strings = strings;
            }))

unfoldable pub from_ptr : ℕ → (ℕ → ℕ) → Outcome FdtError Fdt
from_ptr ptr_raw memory = do
  _ ← validate_dtb_pointer ptr_raw
  magic ← ok_or (read_be_u32 memory 0) truncated
  if magic != fdt_magic then err bad_magic else (do
    total_size ← ok_or (read_be_u32 memory 4) truncated
    off_dt_struct ← ok_or (read_be_u32 memory 8) truncated
    off_dt_strings ← ok_or (read_be_u32 memory 12) truncated
    off_mem_rsvmap ← ok_or (read_be_u32 memory 16) truncated
    version ← ok_or (read_be_u32 memory 20) truncated
    size_dt_strings ← ok_or (read_be_u32 memory 32) truncated
    size_dt_struct ← ok_or (read_be_u32 memory 36) truncated
    from_header ptr_raw memory total_size off_dt_struct off_dt_strings off_mem_rsvmap version
        size_dt_strings size_dt_struct)
