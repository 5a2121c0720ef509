-- ===== src/Memory/Types.antt =====
-- src/memory.rs and src/dtb_memory.rs: the EFI types, the descriptors and the errors.
-- `UINT32`, `UINT64`, `UINTN` and the address types are native numbers.
use rustfirmware.Base.{ℕ, ◌^◌, Bool, ◌==◌, List}

-- EFI_PAGE_SHIFT, EFI_PAGE_SIZE and EFI_MEMORY_DESCRIPTOR_VERSION.
abbrev pub efi_page_shift : ℕ
efi_page_shift = 12

abbrev pub efi_page_size : ℕ
efi_page_size = 2 ^ efi_page_shift

abbrev pub efi_memory_descriptor_version : ℕ
efi_memory_descriptor_version = 1

pub data EfiMemoryType : Type 0 where
  efi_reserved_memory_type efi_loader_code efi_loader_data : EfiMemoryType
  efi_boot_services_code efi_boot_services_data : EfiMemoryType
  efi_runtime_services_code efi_runtime_services_data : EfiMemoryType
  efi_conventional_memory efi_unusable_memory : EfiMemoryType
  efi_acpi_reclaim_memory efi_acpi_memory_nvs : EfiMemoryType
  efi_memory_mapped_io efi_memory_mapped_io_port_space : EfiMemoryType
  efi_pal_code efi_persistent_memory efi_unaccepted_memory_type : EfiMemoryType
  efi_max_memory_type : EfiMemoryType

-- The cast `as UINT32`: the discriminants that the enum declares.
abbrev pub as_uint32 : EfiMemoryType → ℕ
as_uint32 efi_reserved_memory_type = 0
as_uint32 efi_loader_code = 1
as_uint32 efi_loader_data = 2
as_uint32 efi_boot_services_code = 3
as_uint32 efi_boot_services_data = 4
as_uint32 efi_runtime_services_code = 5
as_uint32 efi_runtime_services_data = 6
as_uint32 efi_conventional_memory = 7
as_uint32 efi_unusable_memory = 8
as_uint32 efi_acpi_reclaim_memory = 9
as_uint32 efi_acpi_memory_nvs = 10
as_uint32 efi_memory_mapped_io = 11
as_uint32 efi_memory_mapped_io_port_space = 12
as_uint32 efi_pal_code = 13
as_uint32 efi_persistent_memory = 14
as_uint32 efi_unaccepted_memory_type = 15
as_uint32 efi_max_memory_type = 16

-- The derived `==` of the two enums compares discriminants.
abbrev pub memory_type_eq : EfiMemoryType → EfiMemoryType → Bool
memory_type_eq a b = as_uint32 a == as_uint32 b

pub data EfiAllocateType : Type 0 where
  allocate_any_pages allocate_max_address allocate_address max_allocate_type : EfiAllocateType

pub data AllocationDirection : Type 0 where
  low high : AllocationDirection

pub record EfiMemoryDescriptor : Type 0 where
  pub type : ℕ
  pub physical_start : ℕ
  pub virtual_start : ℕ
  pub number_of_pages : ℕ
  pub attribute : ℕ

pub data MemoryError : Type 0 where
  invalid_parameter buffer_too_small out_of_resources not_found address_overflow : MemoryError

-- The slice `descriptors` with its fixed length, and how many of its entries are valid.
pub record PageAllocator : Type 0 where
  pub descriptors : List EfiMemoryDescriptor
  pub descriptor_count : ℕ

abbrev pub empty_memory_descriptor : EfiMemoryDescriptor
empty_memory_descriptor = record {
  type = 0;
  physical_start = 0;
  virtual_start = 0;
  number_of_pages = 0;
  attribute = 0;
}

-- src/dtb_memory.rs.
pub record MemoryRegion : Type 0 where
  pub base : ℕ
  pub size : ℕ

pub data ReservedMemoryType : Type 0 where
  reserved boot_services_data : ReservedMemoryType

unfoldable pub reserved_memory_type_to_efi : ReservedMemoryType → EfiMemoryType
reserved_memory_type_to_efi reserved = efi_reserved_memory_type
reserved_memory_type_to_efi boot_services_data = efi_boot_services_data
