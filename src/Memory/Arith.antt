-- ===== src/Memory/Arith.antt =====
-- src/memory.rs: page arithmetic on 64-bit words. `usize` is `u64` on the target, so that the
-- conversions between them keep every value and never fail.
use Prim.Native.Nat.{bit_and}
use rustfirmware.Base.{
  ℕ, ◌-◌, ◌/◌, Bool, true, false, ◌||◌, Option, none, some, Outcome, ok, ◌>>=◌, ok_or, leb, ◌==◌,
  ◌!=◌, if◌then◌else◌, max,
}
use rustfirmware.Base.Word.{checked_add, checked_mul, wrapping_sub, not_u64}
use rustfirmware.Memory.Types.{
  efi_page_size, EfiMemoryDescriptor, MemoryError, address_overflow, MemoryRegion,
}

abbrev pub Result : Type 0 → Type 0
Result A = Outcome MemoryError A

unfoldable pub pages_to_u64 : ℕ → Result ℕ
pages_to_u64 pages = ok pages

unfoldable pub pages_to_bytes : ℕ → Result ℕ
unfolding pages_to_u64
pages_to_bytes pages = do
  count ← pages_to_u64 pages
  ok_or (checked_mul count efi_page_size) address_overflow

unfoldable pub bytes_to_pages : ℕ → ℕ
bytes_to_pages bytes = bytes / efi_page_size

unfoldable pub is_page_aligned : ℕ → Bool
is_page_aligned address = bit_and address (efi_page_size - 1) == 0

unfoldable pub align_down : ℕ → ℕ → ℕ
align_down value alignment = bit_and value (not_u64 (wrapping_sub alignment 1))

unfoldable pub align_up : ℕ → ℕ → Result ℕ
align_up value alignment =
    let mask = wrapping_sub alignment 1 in
    do
      aligned ← ok_or (checked_add value mask) address_overflow
      ok (bit_and aligned (not_u64 mask))

unfoldable pub pages_for_size : ℕ → Result ℕ
unfolding pages_to_u64 bytes_to_pages align_up
pages_for_size size_bytes = do
  size ← pages_to_u64 size_bytes
  rounded ← align_up (max size 1) efi_page_size
  ok (bytes_to_pages rounded)

unfoldable pub checked_end : ℕ → ℕ → Result ℕ
checked_end start pages = do
  bytes ← ok_or (checked_mul pages efi_page_size) address_overflow
  ok_or (checked_add start bytes) address_overflow

unfoldable pub descriptor_end : EfiMemoryDescriptor → Result ℕ
unfolding checked_end
descriptor_end d = checked_end d.physical_start d.number_of_pages

-- The match on the left descriptor's end.
unfoldable pub reaches : Result ℕ → ℕ → Bool
reaches (ok left_end) right_start = leb right_start left_end
reaches _ right_start = false

unfoldable pub descriptors_are_compatible : EfiMemoryDescriptor → EfiMemoryDescriptor → Bool
unfolding reaches descriptor_end
descriptors_are_compatible left right =
    if left.type != right.type
      || left.attribute != right.attribute
      || left.virtual_start != right.virtual_start
    then false
    else reaches (descriptor_end left) right.physical_start

-- The page range of a region: whole pages inside it, or all pages that it touches.
unfoldable pub align_region_to_pages : MemoryRegion → Bool → Result (Option (ℕ × ℕ))
unfolding align_up align_down
align_region_to_pages region reserve_partial_pages = do
  end ← ok_or (checked_add region.base region.size) address_overflow
  start ←
      if reserve_partial_pages
      then ok (align_down region.base efi_page_size)
      else align_up region.base efi_page_size
  end' ←
      if reserve_partial_pages
      then align_up end efi_page_size
      else ok (align_down end efi_page_size)
  if leb end' start then ok none else ok (some (start, end'))

unfoldable pub linker_region : ℕ → ℕ → Result (Option (ℕ × ℕ))
unfolding align_region_to_pages
linker_region start end =
    if leb end start
    then ok none
    else align_region_to_pages (record { base = start; size = wrapping_sub end start }) true
