-- ===== src/Memory/Tests.antt =====
-- Runs of the allocator of src/memory.rs on small maps, and the theorems at them.
pub mod Regions
pub mod Sizes
use rustfirmware.Base.{
  ◌&&◌, true, false, ltb, leb, inl, inr, ◌^◌, ℕ, ◌+◌, ◌*◌, ◌%◌, ◌≤◌, ◌<◌, ◌≡◌, refl, ◌⊎◌, List, [],
  ◌∷◌, ok, arith, replicate, shift_right, shift_left, write_all,
}
use rustfirmware.Base.Word.{u64_mod}
use rustfirmware.Memory.Types.{
  low, high, invalid_parameter, out_of_resources, EfiMemoryDescriptor, MemoryRegion, PageAllocator,
  empty_memory_descriptor, allocate_any_pages, allocate_max_address, efi_conventional_memory,
  efi_loader_data, efi_runtime_services_data,
}
use rustfirmware.Memory.Arith.{
  pages_for_size, align_up, align_region_to_pages, Result, pages_to_u64, pages_to_bytes, align_down,
  is_page_aligned, descriptor_end, checked_end, bytes_to_pages, descriptors_are_compatible,
}
use rustfirmware.Memory.Find.{
  find_aligned_allocation, active, find_descriptor_covering, find_allocation_max_address,
  find_allocation_any_pages,
}
use rustfirmware.Memory.Find.Highest.{
  Highest, Searched, find_allocation_max_address-Highest, find_allocation_any_pages-Searched,
}
use rustfirmware.Memory.Alloc.{
  is_conventional, is_conventional_or_reserved, carve_range, reserve_region_with_type,
  allocate_aligned_pages, allocate_pages_for_size, allocate_aligned_pages_for_size, replace_range,
  allocate_pages, free_pages, allocate_exact_range, free_exact_range,
}
use rustfirmware.Memory.Buffer.{insert_sorted, coalesce, replace_descriptor, merged}
use rustfirmware.Memory.Map.{covers, IsRange, type_at}
use rustfirmware.Memory.Exact.{IsValid, Ends}
use rustfirmware.Memory.Exact.Coalesced.{Coalesced, coalesce-Coalesced}
use rustfirmware.Memory.Exact.Calls.{
  IsFreeable, IsConventional, allocate_exact_range-Ends, free_exact_range-Ends,
}
use rustfirmware.Memory.Services.{Allocates, allocate_pages-Allocates, free_pages-Ends}
use rustfirmware.Memory.Services.Laws.{Restores, free_pages-allocate_pages, allocate_pages-disjoint}
use rustfirmware.Memory.Services.Progress.{allocate_pages-succeeds}
use rustfirmware.Memory.Services.Aligned.{allocate_aligned_pages-Allocates}
use rustfirmware.Memory.Services.Sizes.{
  pages_of, Sized, pages_for_size-Sized, allocate_pages_for_size-Allocates,
  allocate_aligned_pages_for_size-Allocates,
}
use rustfirmware.Memory.Build.Firmware.{IsLinked}
use rustfirmware.Memory.Build.Ram.{IsDisjoint}
use rustfirmware.Memory.Build.Seeded.{Builds, from_regions-Builds}
use rustfirmware.Memory.Insert.Ram.{AddsRam, add_memory_region-AddsRam, insert_sorted-AddsRam}
use rustfirmware.Memory.Regions.{takes, PagesOf, align_region_to_pages-PagesOf}
use rustfirmware.Memory.Carve.Calls.{
  Claims, EndsHigh, carve_range-Claims, reserve_region_with_type-Claims,
}
use rustfirmware.Memory.Find.Best.{All}
use rustfirmware.Memory.Find.Offers.{RoundsUp}
use rustfirmware.Memory.Build.{add_memory_region, LinkerLayout, from_regions}

abbrev pub entry : ℕ → ℕ → ℕ → EfiMemoryDescriptor
entry type start pages = record {
  type = type;
  physical_start = start;
  virtual_start = 0;
  number_of_pages = pages;
  attribute = 0;
}

-- Firmware, RAM and a loaded image, with room for two more descriptors.
abbrev pub small : PageAllocator
small = record {
  descriptors =
      entry 4 0x1000 2
      ∷ entry 7 0x3000 8
      ∷ entry 2 0xb000 1
      ∷ empty_memory_descriptor
      ∷ empty_memory_descriptor
      ∷ [];
  descriptor_count = 3;
}

abbrev allocated_once : PageAllocator
allocated_once = record {
  descriptors =
      entry 4 0x1000 2
      ∷ entry 7 0x3000 6
      ∷ entry 2 0x9000 3
      ∷ entry 2 0xb000 1
      ∷ empty_memory_descriptor
      ∷ [];
  descriptor_count = 3;
}

-- A descriptor's three facts by computation.
pub entry-IsRange :
    (type start pages : ℕ)
    → start % 4096 ≡ 0
    → 0 < pages
    → start + pages * 4096 < u64_mod
    → IsRange (entry type start pages)
entry-IsRange type start pages aligned nonempty bounded = record {
  aligned = aligned;
  nonempty = nonempty;
  bounded = bounded;
}

pub small-IsValid : IsValid small
small-IsValid = record {
  fits = omega arith;
  map = (
    omega arith,
    entry-IsRange 4 0x1000 2 refl (omega arith) (omega arith),
    (
      omega arith,
      entry-IsRange 7 0x3000 8 refl (omega arith) (omega arith),
      (omega arith, entry-IsRange 2 0xb000 1 refl (omega arith) (omega arith), tt),
    ),
  );
}

allocated_once_runs :
    allocate_pages allocate_any_pages efi_loader_data 2 0 small ≡ (ok 0x9000, allocated_once)
unfolding allocate_pages pages_to_u64 pages_to_bytes align_down find_allocation_any_pages
    descriptor_end checked_end find_descriptor_covering replace_range replace_descriptor
    bytes_to_pages shift_right shift_left write_all coalesce descriptors_are_compatible merged
allocated_once_runs = refl

-- The map after a second allocation, below an address.
abbrev allocated_twice : PageAllocator
allocated_twice = record {
  descriptors =
      entry 4 0x1000 2
      ∷ entry 7 0x3000 4
      ∷ entry 6 0x7000 1
      ∷ entry 7 0x8000 1
      ∷ entry 2 0x9000 3
      ∷ [];
  descriptor_count = 5;
}

allocated_twice_runs :
    allocate_pages allocate_max_address efi_runtime_services_data 1 0x7fff allocated_once
    ≡ (ok 0x7000, allocated_twice)
unfolding allocate_pages pages_to_u64 pages_to_bytes align_down find_allocation_max_address
    descriptor_end checked_end find_descriptor_covering replace_range replace_descriptor
    bytes_to_pages shift_right shift_left write_all coalesce descriptors_are_compatible merged
allocated_twice_runs = refl

-- The first allocation given back.
abbrev freed : PageAllocator
freed = record {
  descriptors =
      entry 4 0x1000 2
      ∷ entry 7 0x3000 8
      ∷ entry 2 0xb000 1
      ∷ entry 2 0xb000 1
      ∷ empty_memory_descriptor
      ∷ [];
  descriptor_count = 3;
}

freed_runs : free_pages 0x9000 2 allocated_once ≡ (ok tt, freed)
unfolding free_pages pages_to_u64 is_page_aligned descriptor_end checked_end
    find_descriptor_covering replace_range replace_descriptor bytes_to_pages shift_right shift_left
    write_all coalesce descriptors_are_compatible merged
freed_runs = refl

allocate_pages-Allocates_example :
    Allocates 4096 small 1 efi_runtime_services_data
      (allocate_pages allocate_max_address efi_runtime_services_data 1 0x7fff small)
allocate_pages-Allocates_example =
    allocate_pages-Allocates allocate_max_address efi_runtime_services_data 1 0x7fff small
      (omega arith) small-IsValid

free_pages-Ends_example :
    Ends small 0x1000 1 efi_conventional_memory IsFreeable invalid_parameter
      (free_pages 0x1000 1 small)
free_pages-Ends_example = free_pages-Ends 0x1000 1 small small-IsValid

free_pages-allocate_pages_example :
    Restores small allocated_once (free_pages 0x9000 2 allocated_once)
free_pages-allocate_pages_example =
    free_pages-allocate_pages allocate_any_pages efi_loader_data 2 0 0x9000 small allocated_once
      (omega arith) small-IsValid (omega arith, omega arith) allocated_once_runs

allocate_pages-disjoint_example : (0x9000 + 2 * 4096 ≤ 0x7000) ⊎ (0x7000 + 1 * 4096 ≤ 0x9000)
allocate_pages-disjoint_example =
    allocate_pages-disjoint allocate_any_pages allocate_max_address efi_loader_data
      efi_runtime_services_data 2 1 0 0x7fff 0x9000 0x7000 small allocated_once allocated_twice
      (omega arith) (omega arith) (omega arith) small-IsValid allocated_once_runs
      allocated_twice_runs

-- Two neighbours that `coalesce` merges.
abbrev split : PageAllocator
split = record {
  descriptors = entry 7 0x3000 6 ∷ entry 7 0x9000 2 ∷ entry 2 0xb000 1 ∷ [];
  descriptor_count = 3;
}

split-IsValid : IsValid split
split-IsValid = record {
  fits = omega arith;
  map = (
    omega arith,
    entry-IsRange 7 0x3000 6 refl (omega arith) (omega arith),
    (
      omega arith,
      entry-IsRange 7 0x9000 2 refl (omega arith) (omega arith),
      (omega arith, entry-IsRange 2 0xb000 1 refl (omega arith) (omega arith), tt),
    ),
  );
}

coalesce-Coalesced_example : (b : PageAllocator) × (coalesce split ≡ (ok tt, b)) × Coalesced split b
coalesce-Coalesced_example = coalesce-Coalesced split split-IsValid

find_allocation_max_address-Highest_example :
    Highest 8192 0x8000 (active small) (find_allocation_max_address 8192 0x7fff small)
find_allocation_max_address-Highest_example =
    find_allocation_max_address-Highest 8192 0x7fff small (omega arith) (omega arith)
      small-IsValid.map

find_allocation_any_pages-Searched_example :
    Searched 2 (Highest (2 * 4096) u64_mod (active small)) (find_allocation_any_pages 2 small)
find_allocation_any_pages-Searched_example =
    find_allocation_any_pages-Searched 2 small small-IsValid.map

allocate_exact_range-Ends_example :
    Ends small 0x4000 2 efi_loader_data IsConventional out_of_resources
      (allocate_exact_range 0x4000 2 efi_loader_data small)
allocate_exact_range-Ends_example =
    allocate_exact_range-Ends small small-IsValid 0x4000 2 refl (omega arith) efi_loader_data

free_exact_range-Ends_example :
    Ends small 0xb000 1 efi_conventional_memory IsFreeable invalid_parameter
      (free_exact_range 0xb000 1 small)
free_exact_range-Ends_example =
    free_exact_range-Ends small small-IsValid 0xb000 1 refl (omega arith)

allocate_pages-succeeds_example :
    (start : ℕ) × (b : PageAllocator) × (0x5000 ≤ start)
    × (allocate_pages allocate_any_pages efi_loader_data 3 0 small ≡ (ok start, b))
allocate_pages-succeeds_example =
    allocate_pages-succeeds efi_loader_data 3 0 0x5000 small (omega arith) (omega arith) refl
      small-IsValid (omega arith) refl (inr (inl (refl, omega arith, omega arith, omega arith)))
