-- ===== src/Memory/Tests/Sizes.antt =====
-- Aligned allocations and allocations by size on a small map.
use rustfirmware.Base.{◌^◌, ◌+◌, ◌*◌, ◌≡◌, refl, ok, arith}
use rustfirmware.Memory.Types.{low, high, efi_loader_data}
use rustfirmware.Memory.Arith.{pages_for_size, align_up, pages_to_u64, bytes_to_pages}
use rustfirmware.Memory.Find.{find_aligned_allocation, active}
use rustfirmware.Memory.Alloc.{
  allocate_aligned_pages, allocate_pages_for_size, allocate_aligned_pages_for_size,
}
use rustfirmware.Memory.Services.{Allocates}
use rustfirmware.Memory.Services.Aligned.{allocate_aligned_pages-Allocates}
use rustfirmware.Memory.Services.Sizes.{
  pages_of, Sized, pages_for_size-Sized, allocate_pages_for_size-Allocates,
  allocate_aligned_pages_for_size-Allocates,
}
use rustfirmware.Memory.Find.Aligned.{BestAligned, find_aligned_allocation-Searched}
use rustfirmware.Memory.Find.Highest.{Searched}
use rustfirmware.Memory.Find.Best.{All}
use rustfirmware.Memory.Find.Offers.{RoundsUp}
use rustfirmware.Memory.Tests.{small, small-IsValid}

small-RoundsUp : All (RoundsUp (12 + 1)) (active small)
small-RoundsUp = (omega arith, (omega arith, (omega arith, tt)))

allocate_aligned_pages-Allocates_example :
    Allocates
      (2 ^ (12 + 1))
      small
      2
      efi_loader_data
      (allocate_aligned_pages efi_loader_data 2 (2 ^ (12 + 1)) low small)
allocate_aligned_pages-Allocates_example =
    allocate_aligned_pages-Allocates 1 51 low efi_loader_data 2 small refl small-IsValid
      small-RoundsUp

find_aligned_allocation-Searched_example :
    Searched 2
      (BestAligned (12 + 1) (2 * 4096) high (active small))
      (find_aligned_allocation 2 (2 ^ (12 + 1)) high small)
find_aligned_allocation-Searched_example =
    find_aligned_allocation-Searched (12 + 1) 51 high 2 small refl small-IsValid.map small-RoundsUp

allocate_pages_for_size-Allocates_example :
    Allocates 4096 small
      (pages_of 5000)
      efi_loader_data
      (allocate_pages_for_size efi_loader_data 5000 small)
allocate_pages_for_size-Allocates_example =
    allocate_pages_for_size-Allocates efi_loader_data 5000 small small-IsValid

allocate_aligned_pages_for_size-Allocates_example :
    Allocates
      (2 ^ (12 + 1))
      small
      (pages_of 5000)
      efi_loader_data
      (allocate_aligned_pages_for_size efi_loader_data 5000 (2 ^ (12 + 1)) high small)
allocate_aligned_pages_for_size-Allocates_example =
    allocate_aligned_pages_for_size-Allocates 1 51 high efi_loader_data 5000 small refl
      small-IsValid small-RoundsUp

two_pages : pages_for_size 5000 ≡ ok 2
unfolding pages_for_size pages_to_u64 bytes_to_pages align_up
two_pages = refl

pages_for_size-Sized_example : Sized 5000 (pages_for_size 5000)
pages_for_size-Sized_example = pages_for_size-Sized 5000
