-- ===== src/Memory/Services/Aligned.antt =====
-- `allocate_aligned_pages` for an alignment that is a power of two, of at least a page.
use rustfirmware.Base.{
  ℕ, ◌+◌, ◌*◌, ◌^◌, ◌<◌, ◌≤◌, ◌≡◌, false, not, ◌||◌, err, arith, ◌==◌, ltb, inl, inr, Bool-cases,
}
use native.Mathlib.Decide.{dec_lt}
use rustfirmware.Base.Word.{u64_mod}
use rustfirmware.Base.Bits.{powers}
use rustfirmware.Base.Rounding.{multiple-mod}
use rustfirmware.Memory.Types.{
  EfiMemoryType, efi_max_memory_type, memory_type_eq, AllocationDirection, PageAllocator,
  address_overflow,
}
use rustfirmware.Memory.Arith.{Result, is_page_aligned, pages_to_u64}
use rustfirmware.Memory.Monad.{bind_outcome, pure}
use rustfirmware.Memory.Find.{active, find_aligned_allocation}
use rustfirmware.Memory.Find.Best.{All}
use rustfirmware.Memory.Find.Offers.{RoundsUp}
use rustfirmware.Memory.Find.Aligned.{
  BestAligned, found, none_fits, find_aligned_allocation-BestAligned,
}
use rustfirmware.Memory.Alloc.{allocate_exact_range, allocate_aligned_pages}
use rustfirmware.Memory.Map.{pages_to_bytes_lem}
use rustfirmware.Memory.Exact.{IsValid}
use rustfirmware.Memory.Services.{Allocates, denied, allocate_from}

aligned_then :
    (k : ℕ) (direction : AllocationDirection) (type : EfiMemoryType) (pages byte_count : ℕ)
    (a : PageAllocator) {r : Result ℕ}
    → IsValid a
    → 0 < pages
    → BestAligned (12 + k) byte_count direction (active a) r
    → Allocates (2 ^ (12 + k)) a pages type (
        bind_outcome
          (r, a)
          λ start. λ b. bind_outcome (allocate_exact_range start pages type b) (λ _. pure start))
aligned_then k direction type pages byte_count a valid nonempty (found start aligned _ _) =
    allocate_from a valid pages nonempty type (2 ^ (12 + k)) start aligned
      (multiple-mod 4096 (2 ^ k) start (rw (powers 12 k) at aligned))
aligned_then k direction type pages byte_count a valid nonempty (none_fits _) = denied

too_many :
    (alignment : ℕ) (direction : AllocationDirection) (pages : ℕ) (a : PageAllocator)
    → u64_mod ≤ pages * 4096
    → find_aligned_allocation pages alignment direction a ≡ err address_overflow
unfolding find_aligned_allocation
too_many alignment direction pages a over =
    let wraps : ltb (pages * 4096) u64_mod ≡ false = ground arith in
    rw (pages_to_bytes_lem pages, wraps)

-- On a valid map, where rounding up the start of no descriptor leaves the address space,
-- `allocate_aligned_pages` with a power of two of at least a page returns an address with that
-- alignment and has given the type to free pages there, or returns an error and changes nothing.
pub allocate_aligned_pages-Allocates :
    (k n : ℕ) (direction : AllocationDirection) (type : EfiMemoryType) (pages : ℕ)
    (a : PageAllocator)
    → 12 + k + n ≡ 64
    → IsValid a
    → All (RoundsUp (12 + k)) (active a)
    → Allocates
        (2 ^ (12 + k))
        a
        pages
        type
        (allocate_aligned_pages type pages (2 ^ (12 + k)) direction a)
unfolding allocate_aligned_pages pages_to_u64
allocate_aligned_pages-Allocates k n direction type pages a width valid rounds =
    elim (Bool-cases (
      pages == 0
      || memory_type_eq type efi_max_memory_type
      || 2 ^ (12 + k) == 0
      || not (is_page_aligned (2 ^ (12 + k))))) [
        | inl bad ↦ rw bad denied
        | inr good ↦ elim (dec_lt (pages * 4096) u64_mod) [
          | yes bound ↦ rw good (
              aligned_then k direction type pages (pages * 4096) a valid (ground arith) (
                find_aligned_allocation-BestAligned (12 + k) n direction pages a width bound
                  valid.map rounds))
          | no over ↦ rw (good, too_many (2 ^ (12 + k)) direction pages a (omega arith)) denied
        ]
      ]
