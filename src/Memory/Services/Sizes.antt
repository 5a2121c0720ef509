-- ===== src/Memory/Services/Sizes.antt =====
-- The services that take a size in bytes.
use rustfirmware.Base.{
  ℕ, ◌+◌, ◌*◌, ◌/◌, ◌^◌, ◌≤◌, ◌<◌, ◌≡◌, true, false, ap, ok, err, arith, ltb, inl, inr, Bool-cases,
  if◌then◌else◌, max,
}
use rustfirmware.Base.Word.{u64_mod}
use rustfirmware.Memory.Types.{
  EfiMemoryType, efi_max_memory_type, memory_type_eq, allocate_any_pages, AllocationDirection,
  PageAllocator, address_overflow,
}
use native.Mathlib.Decide.{dec_lt}
use rustfirmware.Memory.Arith.{Result, pages_to_u64, bytes_to_pages, pages_for_size}
use rustfirmware.Memory.Find.{active}
use rustfirmware.Memory.Find.Best.{All}
use rustfirmware.Memory.Find.Offers.{RoundsUp}
use rustfirmware.Memory.Alloc.{allocate_pages_for_size, allocate_aligned_pages_for_size}
use rustfirmware.Memory.Map.{align_up_page}
use rustfirmware.Memory.Exact.{IsValid}
use rustfirmware.Memory.Services.{Allocates, denied, allocate_pages-Allocates}
use rustfirmware.Memory.Services.Aligned.{allocate_aligned_pages-Allocates}

-- The pages that a size takes, at least one.
abbrev pub pages_of : ℕ → ℕ
pages_of size = (max size 1 + 4095) / 4096

pages_for_size-eq :
    (size : ℕ)
    → pages_for_size size
      ≡ (if ltb (max size 1 + 4095) u64_mod then ok (pages_of size) else err address_overflow)
unfolding pages_for_size pages_to_u64 bytes_to_pages
pages_for_size-eq size =
    rw (align_up_page (max size 1)) (elim (Bool-cases (ltb (max size 1 + 4095) u64_mod)) [
      | inl fits ↦ rw fits (ap ok (omega arith))
      | inr over ↦ rw over
    ])

-- At least one page, and the least number of pages that holds the size; or the size rounded up leaves
-- 64 bits.
pub data Sized (size : ℕ) : Result ℕ → Type 0 where
  sized :
      {pages : ℕ}
      → size + 4095 < u64_mod
      → 0 < pages
      → size ≤ pages * 4096
      → ((fewer : ℕ) → 0 < fewer → size ≤ fewer * 4096 → pages ≤ fewer)
      → Sized size (ok pages)
  too_large : u64_mod ≤ size + 4095 → Sized size (err address_overflow)

-- For every size `pages_for_size` returns the least number of pages that holds it, and at least one;
-- but where the size and 4095 bytes more leave 64 bits, it reports an overflow of addresses.
pub pages_for_size-Sized : (size : ℕ) → Sized size (pages_for_size size)
pages_for_size-Sized size = elim (dec_lt (size + 4095) u64_mod) [
  | yes small ↦
      let fits : ltb (max size 1 + 4095) u64_mod ≡ true = ground arith in
      rw (pages_for_size-eq size, fits)
        (sized small (omega arith) (omega arith) (λ fewer some_page holds. omega arith))
  | no large ↦
      let over : ltb (max size 1 + 4095) u64_mod ≡ false = ground arith in
      rw (pages_for_size-eq size, over) (too_large (omega arith))
]

-- On a valid map `allocate_pages_for_size` gives the type to enough free pages for the size, and
-- returns their address, or returns an error and changes nothing.
pub allocate_pages_for_size-Allocates :
    (type : EfiMemoryType) (size : ℕ) (a : PageAllocator)
    → IsValid a
    → Allocates 4096 a (pages_of size) type (allocate_pages_for_size type size a)
unfolding allocate_pages_for_size
allocate_pages_for_size-Allocates type size a valid =
    elim (Bool-cases (memory_type_eq type efi_max_memory_type)) [
      | inl bad ↦ rw bad denied
      | inr good ↦ elim (Bool-cases (ltb (max size 1 + 4095) u64_mod)) [
        | inl fits ↦
            rw (good, pages_for_size-eq size, fits)
              (allocate_pages-Allocates allocate_any_pages type (pages_of size) 0 a (omega arith)
                valid)
        | inr over ↦ rw (good, pages_for_size-eq size, over) denied
      ]
    ]

-- On a valid map, where rounding up the start of no descriptor leaves the address space,
-- `allocate_aligned_pages_for_size` with a power of two of at least a page gives the type to enough
-- free pages for the size at an address with that alignment, or returns an error and changes nothing.
pub allocate_aligned_pages_for_size-Allocates :
    (k n : ℕ) (direction : AllocationDirection) (type : EfiMemoryType) (size : ℕ)
    (a : PageAllocator)
    → 12 + k + n ≡ 64
    → IsValid a
    → All (RoundsUp (12 + k)) (active a)
    → Allocates
        (2 ^ (12 + k))
        a
        (pages_of size)
        type
        (allocate_aligned_pages_for_size type size (2 ^ (12 + k)) direction a)
unfolding allocate_aligned_pages_for_size
allocate_aligned_pages_for_size-Allocates k n direction type size a width valid rounds =
    elim (Bool-cases (memory_type_eq type efi_max_memory_type)) [
      | inl bad ↦ rw bad denied
      | inr good ↦ elim (Bool-cases (ltb (max size 1 + 4095) u64_mod)) [
        | inl fits ↦
            rw (good, pages_for_size-eq size, fits)
              (allocate_aligned_pages-Allocates k n direction type (pages_of size) a width valid
                rounds)
        | inr over ↦ rw (good, pages_for_size-eq size, over) denied
      ]
    ]
