-- ===== src/Memory/Services.antt =====
-- The public page services of src/memory.rs on a valid map: `AllocatePages`, `FreePages` and the
-- functions over them.
pub mod Laws
pub mod Aligned
pub mod Sizes
pub mod Progress
use rustfirmware.Base.{
  ◌≢◌, ℕ, ◌+◌, ◌*◌, ◌%◌, ◌≤◌, ◌<◌, ◌≡◌, refl, ap, ◌∙◌, subst, Bool, true, false, not, ◌||◌, List,
  Option, none, some, ok, err, arith, ◌==◌, ltb, leb, if◌then◌else◌, ◌⊎◌, inl, inr, Bool-cases,
  lt→ltb, max,
}
use native.Mathlib.Decide.{dec_lt}
use rustfirmware.Base.Word.{u64_mod}
use rustfirmware.Memory.Types.{
  EfiMemoryType, efi_max_memory_type, efi_conventional_memory, memory_type_eq, EfiAllocateType,
  allocate_any_pages, allocate_max_address, allocate_address, max_allocate_type, MemoryError,
  PageAllocator, invalid_parameter, out_of_resources,
}
use rustfirmware.Memory.Arith.{
  Result, is_page_aligned, pages_to_u64, pages_to_bytes, pages_for_size,
}
use rustfirmware.Memory.Monad.{Method, bind_outcome, pure, lift}
use rustfirmware.Memory.Find.{active}
use rustfirmware.Memory.Find.Highest.{
  Highest, found, none_fits, find_allocation_any_pages-Highest, find_allocation_max_address-Highest,
}
use rustfirmware.Memory.Alloc.{
  allocation_start, allocate_exact_range, is_max_allocate_type, allocate_pages,
  allocate_pages_for_size, free_pages,
}
use rustfirmware.Memory.Map.{is_page_aligned-eq, pages_to_bytes_lem}
use rustfirmware.Memory.Exact.{malformed, IsValid, Ends, done, refused, Retyped}
use rustfirmware.Memory.Exact.Calls.{
  IsConventional, IsFreeable, allocate_exact_range-Ends, free_exact_range-Ends,
}

-- A call returns the aligned address of a range that it gave the type, all of which was conventional
-- memory, or an error after it changed nothing; it neither panics nor runs on.
pub data Allocates (alignment : ℕ) (a : PageAllocator) (pages : ℕ) (type : EfiMemoryType)
    : Result ℕ × PageAllocator → Type 0 where
  allocated :
      {b : PageAllocator} (start : ℕ)
      → start % alignment ≡ 0
      → 0 < pages
      → Retyped a b start pages type 7
      → Allocates alignment a pages type (ok start, b)
  denied : {e : MemoryError} → Allocates alignment a pages type (err e, a)

module _ (a : PageAllocator) (valid : IsValid a) (pages : ℕ) (nonempty : 0 < pages)
    (type : EfiMemoryType) where
  exact_then :
      (alignment start : ℕ) {r : Result (Unit {0}) × PageAllocator}
      → start % alignment ≡ 0
      → Ends a start pages type IsConventional out_of_resources r
      → Allocates alignment a pages type (bind_outcome r (λ _. pure start))
  exact_then alignment start aligned (done {b} old was t) =
      allocated start aligned nonempty (subst (Retyped a b start pages type) was t)
  exact_then alignment start aligned (refused _) = denied

  pub allocate_from :
      (alignment start : ℕ)
      → start % alignment ≡ 0
      → start % 4096 ≡ 0
      → Allocates alignment a pages type
          (bind_outcome (allocate_exact_range start pages type a) (λ _. pure start))
  allocate_from alignment start aligned page =
      exact_then alignment start aligned
        (allocate_exact_range-Ends a valid start pages page nonempty type)

  search_then :
      {byte_count limit : ℕ} {r : Result ℕ}
      → Highest byte_count limit (active a) r
      → Allocates 4096 a pages type (
          bind_outcome
            (r, a)
            λ start. λ b. bind_outcome (allocate_exact_range start pages type b) (λ _. pure start))
  search_then (found start aligned _ _) = allocate_from 4096 start aligned aligned
  search_then (none_fits _) = denied

  policy_then :
      (policy : EfiAllocateType) (memory : ℕ)
      → memory < u64_mod
      → pages * 4096 < u64_mod
      → Allocates 4096 a pages type (
          bind_outcome
            (allocation_start policy pages (pages * 4096) memory a, a)
            λ start. λ b. bind_outcome (allocate_exact_range start pages type b) (λ _. pure start))
  unfolding allocation_start
  policy_then allocate_any_pages memory limit bound =
      search_then (find_allocation_any_pages-Highest pages a bound valid.map)
  policy_then allocate_max_address memory limit bound =
      search_then
        (find_allocation_max_address-Highest (pages * 4096) memory a bound limit valid.map)
  policy_then allocate_address memory limit bound = elim (Bool-cases (is_page_aligned memory)) [
    | inl e ↦ rw e (
        allocate_from 4096 memory (ground (arith, is_page_aligned-eq memory))
          (ground (arith, is_page_aligned-eq memory)))
    | inr e ↦ rw e denied
  ]
  policy_then max_allocate_type memory limit bound = denied

-- `AllocatePages` under each policy and for any arguments: it allocates free pages, or returns an
-- error and leaves the map as it was.
pub allocate_pages-Allocates :
    (policy : EfiAllocateType) (type : EfiMemoryType) (pages memory : ℕ) (a : PageAllocator)
    → memory < u64_mod
    → IsValid a
    → Allocates 4096 a pages type (allocate_pages policy type pages memory a)
unfolding allocate_pages pages_to_u64
allocate_pages-Allocates policy type pages memory a limit valid =
    elim (Bool-cases
      (pages == 0 || memory_type_eq type efi_max_memory_type || is_max_allocate_type policy)) [
        | inl bad ↦ rw bad denied
        | inr good ↦ elim (dec_lt (pages * 4096) u64_mod) [
          | yes bound ↦
              rw (good, pages_to_bytes_lem pages, lt→ltb _ _ bound)
                (policy_then a valid pages (ground arith) type policy memory limit bound)
          | no over ↦
              let wraps : ltb (pages * 4096) u64_mod ≡ false = ground arith in
              rw (good, pages_to_bytes_lem pages, wraps) denied
        ]
      ]

malformed_lem :
    (memory pages : ℕ)
    → (pages == 0 || not (is_page_aligned memory)) ≡ true
    → (pages ≡ 0) ⊎ (memory % 4096 ≢ 0)
malformed_lem memory pages bad = elim (Bool-cases (pages == 0)) [
  | inl empty ↦ inl (ground arith)
  | inr some_pages ↦ inr (ground (arith, is_page_aligned-eq memory))
]

-- `FreePages` for any arguments: it turns a range of one freeable type into conventional memory, or
-- returns an error and leaves the map as it was.
pub free_pages-Ends :
    (memory pages : ℕ) (a : PageAllocator)
    → IsValid a
    → Ends a memory pages efi_conventional_memory IsFreeable invalid_parameter
        (free_pages memory pages a)
unfolding free_pages pages_to_u64
free_pages-Ends memory pages a valid =
    elim (Bool-cases (pages == 0 || not (is_page_aligned memory))) [
      | inl bad ↦ rw bad (refused (malformed (malformed_lem memory pages bad)))
      | inr good ↦ rw good (
          free_exact_range-Ends a valid memory pages (ground (arith, is_page_aligned-eq memory))
            (ground arith))
    ]

-- The two results, read back from the outcome of a call.
pub allocated_inv :
    {alignment : ℕ} {a : PageAllocator} {pages : ℕ} {type : EfiMemoryType}
    {r : Result ℕ × PageAllocator}
    → Allocates alignment a pages type r
    → (start : ℕ) (b : PageAllocator) → r ≡ (ok start, b)
    → (start % alignment ≡ 0) × (0 < pages) × Retyped a b start pages type 7
allocated_inv {alignment} {a} {pages} {type} (allocated {b = c} s aligned nonempty t) start b e =
    let same_start : s ≡ start = cc in
    let same_state : c ≡ b = cc in
    (
      rw (← same_start) aligned,
      nonempty,
      subst (λ (q : PageAllocator). Retyped a q start pages type 7) same_state
          (subst (λ (n : ℕ). Retyped a c n pages type 7) same_start t),
    )
allocated_inv denied start b e = cc
