-- ===== src/Memory/Build.antt =====
-- src/memory.rs: building the map from lists of regions. The addresses that the linker script
-- defines are the fields of a parameter.
pub mod Maps
pub mod Ram
pub mod Firmware
pub mod Seeded
use rustfirmware.Base.{ℕ, Bool, List, [], ◌∷◌, Option, ok, err, panic, out_of_fuel}
use rustfirmware.Base.Word.{wrapping_sub}
use rustfirmware.Memory.Types.{
  EfiMemoryType, efi_conventional_memory, efi_reserved_memory_type, efi_boot_services_code,
  efi_boot_services_data, as_uint32, EfiMemoryDescriptor, MemoryRegion, PageAllocator,
}
use rustfirmware.Memory.Arith.{Result, bytes_to_pages, align_region_to_pages, linker_region}
use rustfirmware.Memory.Monad.{Method, ◌>>=◌, ◌>>◌, lift, pure}
use rustfirmware.Memory.Buffer.{insert_sorted, coalesce}
use rustfirmware.Memory.Alloc.{on_range, carve_range, add_reserved_region_with_type}

-- `firmware_code_start()` and the seven functions after it.
pub record LinkerLayout : Type 0 where
  pub firmware_code_start : ℕ
  pub firmware_code_end : ℕ
  pub firmware_data_start : ℕ
  pub firmware_data_end : ℕ
  pub firmware_heap_start : ℕ
  pub firmware_heap_end : ℕ
  pub firmware_stack_bottom : ℕ
  pub firmware_stack_top : ℕ

-- The descriptor of a page range of RAM.
abbrev pub ram : ℕ → ℕ → EfiMemoryDescriptor
ram start end = record {
  type = as_uint32 efi_conventional_memory;
  physical_start = start;
  virtual_start = 0;
  number_of_pages = bytes_to_pages (wrapping_sub end start);
  attribute = 0;
}

unfoldable pub add_memory_region : MemoryRegion → Method (Unit {0})
unfolding insert_sorted
add_memory_region region = do
  range ← lift (align_region_to_pages region Bool.false)
  on_range range λ start end. insert_sorted (ram start end)

unfoldable pub add_reserved_region : MemoryRegion → Method (Unit {0})
unfolding add_reserved_region_with_type
add_reserved_region region = add_reserved_region_with_type region efi_reserved_memory_type

unfoldable pub add_firmware_region : Option (ℕ × ℕ) → EfiMemoryType → Method (Unit {0})
unfolding carve_range
add_firmware_region region memory_type =
    on_range region λ start end. carve_range start end memory_type

-- `for region in regions { method(region)?; }`.
unfoldable pub for_each : (MemoryRegion → Method (Unit {0})) → List MemoryRegion → Method (Unit {0})
for_each method [] = pure tt
for_each method (region ∷ regions) = method region >> for_each method regions

-- The four linker ranges, in the order in which they are carved.
unfoldable pub add_firmware_regions : LinkerLayout → Method (Unit {0})
unfolding add_firmware_region
add_firmware_regions layout = do
  code ← lift (linker_region layout.firmware_code_start layout.firmware_code_end)
  add_firmware_region code efi_boot_services_code
  statics ← lift (linker_region layout.firmware_data_start layout.firmware_data_end)
  add_firmware_region statics efi_boot_services_data
  heap ← lift (linker_region layout.firmware_heap_start layout.firmware_heap_end)
  add_firmware_region heap efi_boot_services_data
  stack ← lift (linker_region layout.firmware_stack_bottom layout.firmware_stack_top)
  add_firmware_region stack efi_boot_services_data

-- The body of `from_regions` after the empty allocator is made.
unfoldable pub seed_regions :
    LinkerLayout → List MemoryRegion → List MemoryRegion → Method (Unit {0})
unfolding for_each add_memory_region add_reserved_region add_firmware_regions
seed_regions layout memory_regions reserved_regions = do
  for_each add_memory_region memory_regions
  coalesce
  for_each add_reserved_region reserved_regions
  add_firmware_regions layout
  coalesce

-- `Ok(allocator)`, or the error of the method that failed.
abbrev pub finish : Result (Unit {0}) × PageAllocator → Result PageAllocator
finish (ok _, a) = ok a
finish (err e, a) = err e
finish (panic, a) = panic
finish (out_of_fuel, a) = out_of_fuel

unfoldable pub from_regions :
    LinkerLayout
    → List MemoryRegion
    → List MemoryRegion
    → List EfiMemoryDescriptor
    → Result PageAllocator
unfolding seed_regions
from_regions layout memory_regions reserved_regions descriptors = finish (
    seed_regions layout memory_regions reserved_regions
      (record { descriptors = descriptors; descriptor_count = 0 }))
