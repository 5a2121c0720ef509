-- ===== src/Memory/Alloc.antt =====
-- src/memory.rs: the methods that change the type of page ranges, and the EFI page services.
use rustfirmware.Base.{
  ℕ, zero, suc, ◌+◌, Bool, not, ◌||◌, List, [], ◌∷◌, ◌++◌, none, some, Option, ok, err, out_of_fuel,
  length, ltb, leb, ◌==◌, if◌then◌else◌, read, min, max,
}
use rustfirmware.Base.Word.{wrapping_sub}
use rustfirmware.Memory.Types.{
  EfiMemoryType, efi_conventional_memory, efi_reserved_memory_type, efi_max_memory_type, as_uint32,
  memory_type_eq, EfiAllocateType, allocate_any_pages, allocate_max_address, allocate_address,
  max_allocate_type, AllocationDirection, EfiMemoryDescriptor, MemoryRegion, invalid_parameter,
  out_of_resources, PageAllocator,
}
use rustfirmware.Memory.Arith.{
  Result, pages_to_u64, pages_to_bytes, pages_for_size, bytes_to_pages, is_page_aligned,
  checked_end, descriptor_end, align_region_to_pages,
}
use rustfirmware.Memory.Monad.{Method, ◌>>=◌, ◌>>◌, lift, pure, self}
use rustfirmware.Memory.Buffer.{replace_descriptor, coalesce}
use rustfirmware.Memory.Find.{
  find_allocation_any_pages, find_allocation_max_address, find_aligned_allocation,
  find_descriptor_covering,
}

-- A part of the array `parts`, which an empty range does not take.
unfoldable pub part : EfiMemoryDescriptor → ℕ → ℕ → ℕ → List EfiMemoryDescriptor
part descriptor start virtual pages =
    if pages == 0
    then []
    else record descriptor {
      physical_start = start;
      virtual_start = virtual;
      number_of_pages = pages;
    }
      ∷ []

unfoldable pub replace_range : ℕ → ℕ → ℕ → EfiMemoryType → Method ℕ
unfolding part
replace_range index memory pages memory_type = do
  a ← self
  descriptor ← lift (read a.descriptors index)
  descriptor_end ← lift (descriptor_end descriptor)
  range_end ← lift (checked_end memory pages)
  if ltb memory descriptor.physical_start || ltb descriptor_end range_end
      then lift (err invalid_parameter)
      else let prefix_pages = bytes_to_pages (wrapping_sub memory descriptor.physical_start) in
        let suffix_pages = bytes_to_pages (wrapping_sub descriptor_end range_end) in
        let prefix =
          part descriptor descriptor.physical_start descriptor.virtual_start prefix_pages in
        let suffix = part descriptor range_end 0 suffix_pages in
        let middle : EfiMemoryDescriptor = record {
          type = as_uint32 memory_type;
          physical_start = memory;
          virtual_start = 0;
          number_of_pages = pages;
          attribute = descriptor.attribute;
        } in
        do
          replace_descriptor index (prefix ++ middle ∷ suffix)
          pure (if prefix_pages == 0 then index + 1 else index + 2)

-- The loop that `carve_range` and `carve_range_for_reserved_region` share; they differ in the
-- types that they carve.
unfoldable pub carve_loop : (ℕ → Bool) → ℕ → ℕ → ℕ → EfiMemoryType → ℕ → Method (Unit {0})
unfolding replace_range
carve_loop carvable zero start end memory_type index = lift out_of_fuel
carve_loop carvable (suc fuel) start end memory_type index = do
  a ← self
  let skip = carve_loop carvable fuel start end memory_type (index + 1)
  if ltb index a.descriptor_count
      then (do
        descriptor ← lift (read a.descriptors index)
        descriptor_end ← lift (descriptor_end descriptor)
        if leb descriptor_end start
            then skip
            else if leb end descriptor.physical_start
            then pure tt
            else if not (carvable descriptor.type)
            then skip
            else let overlap_start = max descriptor.physical_start start in
              let overlap_end = min descriptor_end end in
              let overlap_pages = bytes_to_pages (wrapping_sub overlap_end overlap_start) in
              do
                next ← replace_range index overlap_start overlap_pages memory_type
                carve_loop carvable fuel start end memory_type next)
      else pure tt

abbrev pub is_conventional : ℕ → Bool
is_conventional type = type == as_uint32 efi_conventional_memory

abbrev pub is_conventional_or_reserved : ℕ → Bool
is_conventional_or_reserved type =
    type == as_uint32 efi_conventional_memory || type == as_uint32 efi_reserved_memory_type

-- Each round advances `index`, which stays below the length of the buffer.
unfoldable pub carve_range : ℕ → ℕ → EfiMemoryType → Method (Unit {0})
carve_range start end memory_type = do
  a ← self
  carve_loop is_conventional (suc (length a.descriptors)) start end memory_type 0

unfoldable pub carve_range_for_reserved_region : ℕ → ℕ → EfiMemoryType → Method (Unit {0})
carve_range_for_reserved_region start end memory_type = do
  a ← self
  carve_loop is_conventional_or_reserved (suc (length a.descriptors)) start end memory_type 0

unfoldable pub allocate_exact_range : ℕ → ℕ → EfiMemoryType → Method (Unit {0})
allocate_exact_range memory pages memory_type = do
  range_end ← lift (checked_end memory pages)
  a ← self
  index ← lift (find_descriptor_covering memory range_end a)
  descriptor ← lift (read a.descriptors index)
  if not (is_conventional descriptor.type)
      then lift (err out_of_resources)
      else do next ← replace_range index memory pages memory_type; coalesce

unfoldable pub free_exact_range : ℕ → ℕ → Method (Unit {0})
free_exact_range memory pages = do
  range_end ← lift (checked_end memory pages)
  a ← self
  index ← lift (find_descriptor_covering memory range_end a)
  descriptor ← lift (read a.descriptors index)
  if is_conventional_or_reserved descriptor.type
      then lift (err invalid_parameter)
      else do next ← replace_range index memory pages efi_conventional_memory; coalesce

-- `match Type`: where the pages are to start.
unfoldable pub allocation_start : EfiAllocateType → ℕ → ℕ → ℕ → PageAllocator → Result ℕ
allocation_start allocate_any_pages page_count byte_count memory a =
    find_allocation_any_pages page_count a
allocation_start allocate_max_address page_count byte_count memory a =
    find_allocation_max_address byte_count memory a
allocation_start allocate_address page_count byte_count memory a =
    if not (is_page_aligned memory) then err invalid_parameter else ok memory
allocation_start max_allocate_type page_count byte_count memory a = err invalid_parameter

abbrev pub is_max_allocate_type : EfiAllocateType → Bool
is_max_allocate_type max_allocate_type = Bool.true
is_max_allocate_type _ = Bool.false

-- `AllocatePages`. The result is what is written to `*Memory`; on an error that stays as it was.
unfoldable pub allocate_pages : EfiAllocateType → EfiMemoryType → ℕ → ℕ → Method ℕ
unfolding allocation_start allocate_exact_range
allocate_pages type memory_type pages memory =
    if pages == 0 || memory_type_eq memory_type efi_max_memory_type || is_max_allocate_type type
    then lift (err invalid_parameter)
    else do
      page_count ← lift (pages_to_u64 pages)
      byte_count ← lift (pages_to_bytes pages)
      a ← self
      start ← lift (allocation_start type page_count byte_count memory a)
      allocate_exact_range start page_count memory_type
      pure start

unfoldable pub allocate_pages_for_size : EfiMemoryType → ℕ → Method ℕ
allocate_pages_for_size memory_type size_bytes =
    if memory_type_eq memory_type efi_max_memory_type then lift (err invalid_parameter) else do
      page_count ← lift (pages_for_size size_bytes)
      allocate_pages allocate_any_pages memory_type page_count 0

unfoldable pub allocate_aligned_pages : EfiMemoryType → ℕ → ℕ → AllocationDirection → Method ℕ
unfolding allocate_exact_range
allocate_aligned_pages memory_type pages alignment direction =
    if pages == 0
      || memory_type_eq memory_type efi_max_memory_type
      || alignment == 0
      || not (is_page_aligned alignment)
    then lift (err invalid_parameter)
    else do
      page_count ← lift (pages_to_u64 pages)
      a ← self
      start ← lift (find_aligned_allocation page_count alignment direction a)
      allocate_exact_range start page_count memory_type
      pure start

unfoldable pub allocate_aligned_pages_for_size :
    EfiMemoryType → ℕ → ℕ → AllocationDirection → Method ℕ
allocate_aligned_pages_for_size memory_type size_bytes alignment direction =
    if memory_type_eq memory_type efi_max_memory_type then lift (err invalid_parameter) else do
      page_count ← lift (pages_for_size size_bytes)
      allocate_aligned_pages memory_type page_count alignment direction

-- `FreePages`.
unfoldable pub free_pages : ℕ → ℕ → Method (Unit {0})
unfolding free_exact_range
free_pages memory pages =
    if pages == 0 || not (is_page_aligned memory)
    then lift (err invalid_parameter)
    else do page_count ← lift (pages_to_u64 pages); free_exact_range memory page_count

-- The tail of `add_reserved_region_with_type` and of `add_firmware_region`, where a range is left.
abbrev pub on_range : Option (ℕ × ℕ) → (ℕ → ℕ → Method (Unit {0})) → Method (Unit {0})
on_range none carve = pure tt
on_range (some (start, end)) carve = carve start end

unfoldable pub add_reserved_region_with_type : MemoryRegion → EfiMemoryType → Method (Unit {0})
unfolding carve_range_for_reserved_region
add_reserved_region_with_type region memory_type = do
  range ← lift (align_region_to_pages region Bool.true)
  on_range range λ start end. carve_range_for_reserved_region start end memory_type

unfoldable pub reserve_region_with_type : MemoryRegion → EfiMemoryType → Method (Unit {0})
unfolding add_reserved_region_with_type
reserve_region_with_type region memory_type = do
  add_reserved_region_with_type region memory_type
  coalesce
