-- ===== src/Dtb/Header.antt =====
-- src/dtb_read.rs: the header as it lies in memory, with its fields in big-endian form.
use rustfirmware.Base.{ℕ, ◌+◌, ◌*◌, ◌/◌, ◌%◌, ◌^◌, ◌<◌, ◌≡◌, arith}

pub record FdtHeader : Type 0 where
  pub magic_field : ℕ
  pub totalsize : ℕ
  pub off_dt_struct_field : ℕ
  pub off_dt_strings_field : ℕ
  pub off_mem_rsvmap_field : ℕ
  pub version_field : ℕ
  pub last_comp_version_field : ℕ
  pub boot_cpuid_phys_field : ℕ
  pub size_dt_strings_field : ℕ
  pub size_dt_struct_field : ℕ

-- `u32::from_be` and `to_be` on a little-endian machine.
unfoldable pub from_be : ℕ → ℕ
from_be value =
    value % 256 * 16777216
    + value / 256 % 256 * 65536
    + value / 65536 % 256 * 256
    + value / 16777216 % 256

unfoldable pub magic : FdtHeader → ℕ
magic header = from_be header.magic_field

unfoldable pub total_size : FdtHeader → ℕ
total_size header = from_be header.totalsize

unfoldable pub off_dt_struct : FdtHeader → ℕ
off_dt_struct header = from_be header.off_dt_struct_field

unfoldable pub off_dt_strings : FdtHeader → ℕ
off_dt_strings header = from_be header.off_dt_strings_field

unfoldable pub off_mem_rsvmap : FdtHeader → ℕ
off_mem_rsvmap header = from_be header.off_mem_rsvmap_field

unfoldable pub version : FdtHeader → ℕ
version header = from_be header.version_field

unfoldable pub last_comp_version : FdtHeader → ℕ
last_comp_version header = from_be header.last_comp_version_field

unfoldable pub boot_cpuid_phys : FdtHeader → ℕ
boot_cpuid_phys header = from_be header.boot_cpuid_phys_field

unfoldable pub size_dt_strings : FdtHeader → ℕ
size_dt_strings header = from_be header.size_dt_strings_field

unfoldable pub size_dt_struct : FdtHeader → ℕ
size_dt_struct header = from_be header.size_dt_struct_field

unfoldable pub set_total_size : FdtHeader → ℕ → FdtHeader
set_total_size header value = record header { totalsize = from_be value }

unfoldable pub set_off_dt_strings : FdtHeader → ℕ → FdtHeader
set_off_dt_strings header value = record header { off_dt_strings_field = from_be value }

unfoldable pub set_size_dt_struct : FdtHeader → ℕ → FdtHeader
set_size_dt_struct header value = record header { size_dt_struct_field = from_be value }

unfoldable pub set_size_dt_strings : FdtHeader → ℕ → FdtHeader
set_size_dt_strings header value = record header { size_dt_strings_field = from_be value }

from_be-from_be : (value : ℕ) → value < 2 ^ 32 → from_be (from_be value) ≡ value
unfolding from_be
from_be-from_be value h = omega arith

-- The fields that the editor of device trees writes are read back as they were stored.
total_size-set_total_size :
    (header : FdtHeader) (value : ℕ)
    → value < 2 ^ 32
    → (total_size (set_total_size header value) ≡ value)
      × (off_dt_strings (set_off_dt_strings header value) ≡ value)
      × (size_dt_struct (set_size_dt_struct header value) ≡ value)
      × (size_dt_strings (set_size_dt_strings header value) ≡ value)
unfolding total_size off_dt_strings size_dt_struct size_dt_strings set_total_size set_off_dt_strings
    set_size_dt_struct set_size_dt_strings
total_size-set_total_size header value h = (
  from_be-from_be value h,
  from_be-from_be value h,
  from_be-from_be value h,
  from_be-from_be value h,
)
