-- ===== src/Memory/Find.antt =====
-- src/memory.rs: the searches over the active descriptors. None of them changes the allocator.
use rustfirmware.Base.{
  ℕ, ◌+◌, ◌&&◌, ◌||◌, List, [], ◌∷◌, Option, none, some, ok, err, ◌>>=◌, ok_or, ltb, leb, ◌!=◌,
  if◌then◌else◌, take, min, max,
}
pub mod Best
pub mod Offers
pub mod Highest
pub mod Aligned
use rustfirmware.Base.Word.{checked_add, checked_sub, saturating_add, wrapping_sub}
use rustfirmware.Memory.Types.{
  efi_page_size, EfiMemoryDescriptor, efi_conventional_memory, as_uint32, AllocationDirection,
  PageAllocator, out_of_resources, not_found,
}
use rustfirmware.Memory.Types
use rustfirmware.Memory.Arith.{Result, pages_to_bytes, align_down, align_up, descriptor_end}

-- `descriptors()`. The count never exceeds the length of the buffer.
abbrev pub active : PageAllocator → List EfiMemoryDescriptor
active a = take a.descriptor_count a.descriptors

-- `for descriptor in self.descriptors()` with the variable `candidate`; the error of a step leaves
-- the loop.
unfoldable pub each_candidate :
    (Option ℕ → EfiMemoryDescriptor → Result (Option ℕ))
    → Option ℕ
    → List EfiMemoryDescriptor
    → Result (Option ℕ)
each_candidate body candidate [] = ok candidate
each_candidate body candidate (d ∷ ds) = do
  candidate' ← body candidate d
  each_candidate body candidate' ds

-- `candidate.map_or(start, |current| max(current, start))`.
abbrev pub highest : Option ℕ → ℕ → ℕ
highest none start = start
highest (some current) start = max current start

abbrev pub lowest : Option ℕ → ℕ → ℕ
lowest none start = start
lowest (some current) start = min current start

unfoldable pub consider_any_pages : ℕ → Option ℕ → EfiMemoryDescriptor → Result (Option ℕ)
consider_any_pages byte_count candidate d =
    if d.type != as_uint32 efi_conventional_memory then ok candidate else do
      end ← descriptor_end d
      if ltb end (saturating_add d.physical_start byte_count)
          then ok candidate
          else let start = align_down (wrapping_sub end byte_count) efi_page_size in
            if ltb start d.physical_start then ok candidate else ok (some (highest candidate start))

unfoldable pub find_allocation_any_pages : ℕ → PageAllocator → Result ℕ
unfolding each_candidate consider_any_pages
find_allocation_any_pages pages a = do
  byte_count ← pages_to_bytes pages
  candidate ← each_candidate (consider_any_pages byte_count) none (active a)
  ok_or candidate out_of_resources

unfoldable pub consider_max_address : ℕ → ℕ → Option ℕ → EfiMemoryDescriptor → Result (Option ℕ)
consider_max_address byte_count memory candidate d =
    if d.type != as_uint32 efi_conventional_memory then ok candidate else do
      end ← descriptor_end d
      let upper_bound = min end (saturating_add memory 1)
      if ltb upper_bound (saturating_add d.physical_start byte_count)
          then ok candidate
          else let start = align_down (wrapping_sub upper_bound byte_count) efi_page_size in
            if ltb start d.physical_start then ok candidate else ok (some (highest candidate start))

-- The parameter `Pages` of the source holds a number of bytes.
unfoldable pub find_allocation_max_address : ℕ → ℕ → PageAllocator → Result ℕ
unfolding each_candidate consider_max_address
find_allocation_max_address byte_count memory a = do
  candidate ← each_candidate (consider_max_address byte_count memory) none (active a)
  ok_or candidate out_of_resources

-- `match direction` for the start inside one descriptor, and for the better of two candidates.
abbrev pub aligned_start : AllocationDirection → ℕ → ℕ → ℕ → Result ℕ
aligned_start Types.low start latest_start alignment = align_up start alignment
aligned_start Types.high start latest_start alignment = ok (align_down latest_start alignment)

abbrev pub better : AllocationDirection → Option ℕ → ℕ → ℕ
better Types.low = lowest
better Types.high = highest

-- Where `start + byte_count` does not overflow and fits, it becomes a candidate.
unfoldable pub admit_aligned :
    AllocationDirection → ℕ → ℕ → Option ℕ → EfiMemoryDescriptor → ℕ → Option ℕ
admit_aligned direction byte_count descriptor_end candidate d start =
    elim (checked_add start byte_count) [
      | none ↦ candidate
      | some end ↦
          if ltb start d.physical_start || ltb descriptor_end end
          then candidate
          else some (better direction candidate start)
    ]

unfoldable pub consider_aligned :
    ℕ → ℕ → AllocationDirection → Option ℕ → EfiMemoryDescriptor → Result (Option ℕ)
unfolding admit_aligned
consider_aligned byte_count alignment direction candidate d =
    if d.type != as_uint32 efi_conventional_memory then ok candidate else do
      end ← descriptor_end d
      elim (checked_sub end byte_count) [
        | none ↦ ok candidate
        | some latest_start ↦ if ltb latest_start d.physical_start then ok candidate else do
          start ← aligned_start direction d.physical_start latest_start alignment
          ok (admit_aligned direction byte_count end candidate d start)
      ]

unfoldable pub find_aligned_allocation : ℕ → ℕ → AllocationDirection → PageAllocator → Result ℕ
unfolding each_candidate consider_aligned
find_aligned_allocation pages alignment direction a = do
  byte_count ← pages_to_bytes pages
  candidate ← each_candidate (consider_aligned byte_count alignment direction) none (active a)
  ok_or candidate out_of_resources

-- The loop of `find_descriptor_covering`, at index `index`.
unfoldable pub covering_from : ℕ → ℕ → ℕ → List EfiMemoryDescriptor → Result ℕ
covering_from index start end [] = err not_found
covering_from index start end (d ∷ ds) = do
  descriptor_end ← descriptor_end d
  let rest = covering_from (index + 1) start end ds
  if leb d.physical_start start && leb end descriptor_end then ok index else rest

unfoldable pub find_descriptor_covering : ℕ → ℕ → PageAllocator → Result ℕ
unfolding covering_from
find_descriptor_covering start end a = covering_from 0 start end (active a)
