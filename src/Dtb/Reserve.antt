-- ===== src/Dtb/Reserve.antt =====
-- src/dtb_read.rs: the entries of the reserve map.
use rustfirmware.Base.{ℕ, ◌&&◌, Option, none, some, ◌==◌, if◌then◌else◌}
use rustfirmware.Base.Maybe.{◌>>=◌}
use rustfirmware.Base.Word.{checked_mul}
use rustfirmware.Dtb.Bytes.{wrapping_add, read_be_u64_from_slice}
use rustfirmware.Dtb.Blob.{Fdt}

pub record FdtReserveEntry : Type 0 where
  pub address : ℕ
  pub size : ℕ

unfoldable pub reserve_entry : Fdt → ℕ → Option FdtReserveEntry
reserve_entry fdt index = do
  offset ← checked_mul index 16
  address ← read_be_u64_from_slice fdt.reserve_map offset
  size ← read_be_u64_from_slice fdt.reserve_map (wrapping_add offset 8)
  if address == 0 && size == 0 then none else some (record { address = address; size = size })
