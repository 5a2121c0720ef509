-- ===== src/Dtb/Allocator.antt =====
-- src/memory.rs and src/dtb_memory.rs: building the page allocator from a device tree. What the scratch
-- slices hold afterwards is not returned.
pub mod Static
pub mod Builds
pub mod Tests
use rustfirmware.Base.{
  ℕ, Bool, true, false, List, Option, none, some, length, take, ltb, if◌then◌else◌, Outcome, ok,
  err, panic, out_of_fuel,
}
use rustfirmware.Memory.Types.{
  efi_acpi_reclaim_memory, EfiMemoryDescriptor, MemoryRegion, ReservedMemoryType,
  reserved_memory_type_to_efi, PageAllocator,
}
use rustfirmware.Memory.Arith.{Result}
use rustfirmware.Memory.Monad.{Method, ◌>>=◌, ◌>>◌, lift, pure}
use rustfirmware.Memory.Buffer.{coalesce}
use rustfirmware.Memory.Alloc.{add_reserved_region_with_type, reserve_region_with_type}
use rustfirmware.Memory.Build.{
  LinkerLayout, add_memory_region, add_reserved_region, for_each, add_firmware_regions, finish,
}
use rustfirmware.Dtb.Bytes.{Run}
use rustfirmware.Dtb.Blob.{FdtError, Fdt, from_ptr}
use rustfirmware.Dtb.Regions.{
  Filled, memory_regions, reserve_map_regions, for_each_static_reserved_memory_region,
  reserved_regions,
}

-- A run has no errors of its own.
abbrev pub no_error : {A : Type 0} → Run A → Result A
no_error (ok a) = ok a
no_error (err e) = absurd e
no_error panic = panic
no_error out_of_fuel = out_of_fuel

-- `&regions[..count]`.
abbrev pub first_regions : Filled → Result (List MemoryRegion)
first_regions (count, regions) =
    if ltb (length regions) count then panic else ok (take count regions)

-- The size is a 64-bit number.
abbrev pub blob_region : Fdt → MemoryRegion
blob_region fdt = record { base = fdt.base; size = fdt.total_size }

unfoldable pub reserve_original_fdt : Fdt → Method (Unit {0})
reserve_original_fdt fdt = reserve_region_with_type (blob_region fdt) efi_acpi_reclaim_memory

-- What the callback captures: `reserved_memory_result` and the allocator. It goes on unless the method
-- failed.
abbrev pub keep_result :
    Result (Unit {0})
    → Result (Unit {0}) × PageAllocator
    → Run (Bool × (Result (Unit {0}) × PageAllocator))
keep_result result (ok _, a) = ok (true, (result, a))
keep_result result (err e, a) = ok (false, (err e, a))
keep_result result (panic, a) = panic
keep_result result (out_of_fuel, a) = out_of_fuel

unfoldable pub add_static_region :
    MemoryRegion
    → ReservedMemoryType
    → Result (Unit {0}) × PageAllocator
    → Run (Bool × (Result (Unit {0}) × PageAllocator))
add_static_region region memory_type (result, a) =
    keep_result result
      (add_reserved_region_with_type region (reserved_memory_type_to_efi memory_type) a)

-- `reserved_memory_result?`.
abbrev pub after_static :
    PageAllocator → Run (Result (Unit {0}) × PageAllocator) → Result (Unit {0}) × PageAllocator
after_static a (ok r) = r
after_static a (err e) = absurd e
after_static a panic = (panic, a)
after_static a out_of_fuel = (out_of_fuel, a)

unfoldable pub add_static_regions : Fdt → Method (Unit {0})
add_static_regions fdt a =
    after_static a (for_each_static_reserved_memory_region fdt add_static_region (ok tt, a))

-- The part of `from_fdt` after the regions of RAM are in the map.
unfoldable pub reserve_regions : LinkerLayout → Fdt → Filled → Method (Unit {0})
unfolding reserve_original_fdt add_static_regions for_each add_reserved_region add_firmware_regions
reserve_regions layout fdt reserved = do
  reserve_original_fdt fdt
  regions ← lift (first_regions reserved)
  for_each add_reserved_region regions
  add_static_regions fdt
  _ ← lift (no_error (reserved_regions fdt reserved.1))
  add_firmware_regions layout
  coalesce

unfoldable pub seed_from_fdt :
    LinkerLayout → Fdt → List MemoryRegion → List MemoryRegion → Method (Unit {0})
unfolding reserve_regions for_each add_memory_region
seed_from_fdt layout fdt memory_output reserved_output = do
  memory ← lift (no_error (memory_regions fdt memory_output))
  reserved ← lift (no_error (reserve_map_regions fdt reserved_output))
  regions ← lift (first_regions memory)
  for_each add_memory_region regions
  coalesce
  reserve_regions layout fdt reserved

unfoldable pub from_fdt :
    LinkerLayout
    → Fdt
    → List MemoryRegion
    → List MemoryRegion
    → List EfiMemoryDescriptor
    → Result PageAllocator
unfolding seed_from_fdt
from_fdt layout fdt memory_output reserved_output descriptors = finish (
    seed_from_fdt layout fdt memory_output reserved_output
      (record { descriptors = descriptors; descriptor_count = 0 }))

-- `.ok()`, twice.
abbrev pub allocator_ok : Result PageAllocator → Run (Option PageAllocator)
allocator_ok (ok a) = ok (some a)
allocator_ok (err e) = ok none
allocator_ok panic = panic
allocator_ok out_of_fuel = out_of_fuel

abbrev pub with_fdt :
    (Fdt → Result PageAllocator) → Outcome FdtError Fdt → Run (Option PageAllocator)
with_fdt build (ok fdt) = allocator_ok (build fdt)
with_fdt build (err e) = ok none
with_fdt build panic = panic
with_fdt build out_of_fuel = out_of_fuel

-- The pointer, and the memory behind it.
unfoldable pub page_allocator_from_live_fdt :
    LinkerLayout
    → ℕ
    → (ℕ → ℕ)
    → List MemoryRegion
    → List MemoryRegion
    → List EfiMemoryDescriptor
    → Run (Option PageAllocator)
unfolding from_fdt
page_allocator_from_live_fdt layout device_tree_ptr memory memory_output reserved_output
      descriptors =
    with_fdt (λ fdt. from_fdt layout fdt memory_output reserved_output descriptors)
      (from_ptr device_tree_ptr memory)

abbrev pub count_ok : Result PageAllocator → Result ℕ
count_ok (ok a) = ok a.descriptor_count
count_ok (err e) = err e
count_ok panic = panic
count_ok out_of_fuel = out_of_fuel

unfoldable pub memory_map_from_fdt :
    LinkerLayout → Fdt → List MemoryRegion → List MemoryRegion → List EfiMemoryDescriptor → Result ℕ
unfolding from_fdt
memory_map_from_fdt layout fdt memory_output reserved_output descriptors =
    count_ok (from_fdt layout fdt memory_output reserved_output descriptors)
