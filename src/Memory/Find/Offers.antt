-- ===== src/Memory/Find/Offers.antt =====
-- What each search offers for one descriptor, and that the searches keep the best offer.
use rustfirmware.Base.{
  ℕ, ◌+◌, ◌-◌, ◌*◌, ◌/◌, ◌%◌, ◌^◌, ◌≤◌, ◌<◌, ◌≡◌, ◌&&◌, Option, none, some, ok, arith, leb, lt→ltb,
  ◌==◌, if◌then◌else◌, min,
}
use rustfirmware.Base.Word.{u64_mod, saturating_add}
use rustfirmware.Memory.Types.{
  EfiMemoryDescriptor, AllocationDirection, efi_page_size, PageAllocator, out_of_resources,
  address_overflow,
}
use rustfirmware.Memory.Types
use rustfirmware.Memory.Arith.{align_up}
use rustfirmware.Memory.Map.{
  end_of, IsRange, descriptor_end_lem, align_down_page, align_down-eq, align_up-eq,
}
use rustfirmware.Memory.Find.{
  consider_any_pages, consider_max_address, consider_aligned, admit_aligned,
}
use rustfirmware.Memory.Find.Best.{pick}

-- The top of a descriptor of conventional memory that is large enough.
abbrev pub any_offer : ℕ → EfiMemoryDescriptor → Option ℕ
any_offer byte_count d =
    if d.type == 7 && leb (d.physical_start + byte_count) (end_of d)
    then some (end_of d - byte_count)
    else none

-- The same below `memory`, rounded down to a page.
abbrev pub max_offer : ℕ → ℕ → EfiMemoryDescriptor → Option ℕ
max_offer byte_count memory d =
    let upper = min (end_of d) (memory + 1) in
    if d.type == 7 && leb (d.physical_start + byte_count) upper
    then some ((upper - byte_count) / 4096 * 4096)
    else none

pub consider_any_pages-offer :
    (byte_count : ℕ)
    → byte_count % 4096 ≡ 0
    → byte_count < u64_mod
    → (c : Option ℕ) (d : EfiMemoryDescriptor) → IsRange d
    → Unit {0}
    → consider_any_pages byte_count c d ≡ ok (pick Types.high c (any_offer byte_count d))
unfolding consider_any_pages
consider_any_pages-offer byte_count page bound c d r _ =
    rw (descriptor_end_lem d r, consider_any_pages)
      (ground (
        arith,
        r.aligned,
        r.bounded,
        align_down_page ((end_of d + u64_mod - byte_count) % u64_mod),
      ))

pub consider_max_address-offer :
    (byte_count memory : ℕ)
    → byte_count < u64_mod
    → memory < u64_mod
    → (c : Option ℕ) (d : EfiMemoryDescriptor) → IsRange d
    → Unit {0}
    → consider_max_address byte_count memory c d
      ≡ ok (pick Types.high c (max_offer byte_count memory d))
unfolding consider_max_address
consider_max_address-offer byte_count memory bound limit c d r _ =
    let upper = min (end_of d) (memory + 1) in
    let same : min (end_of d) (saturating_add memory 1) ≡ upper =
      ground (arith, r.bounded, r.aligned) in
    rw (descriptor_end_lem d r, same, consider_max_address)
      (ground
        (arith, r.aligned, r.bounded, align_down_page ((upper + u64_mod - byte_count) % u64_mod)))

-- The first or last aligned address of a descriptor, where the pages fit behind it.
abbrev pub aligned_at : ℕ → ℕ → AllocationDirection → EfiMemoryDescriptor → ℕ
aligned_at k byte_count Types.low d = (d.physical_start + (2 ^ k - 1)) / 2 ^ k * 2 ^ k
aligned_at k byte_count Types.high d = (end_of d - byte_count) / 2 ^ k * 2 ^ k

abbrev pub aligned_offer : ℕ → ℕ → AllocationDirection → EfiMemoryDescriptor → Option ℕ
aligned_offer k byte_count direction d =
    let start = aligned_at k byte_count direction d in
    if d.type == 7
      && leb (d.physical_start + byte_count) (end_of d)
      && leb d.physical_start start
      && leb (start + byte_count) (end_of d)
    then some start
    else none

-- Rounding the start of a descriptor up does not leave the address space.
abbrev pub RoundsUp : ℕ → EfiMemoryDescriptor → Type 0
RoundsUp k d = d.physical_start + (2 ^ k - 1) < u64_mod

module _ (k n : ℕ) (width : k + n ≡ 64) (byte_count : ℕ) (bound : byte_count < u64_mod) where
  admit_aligned-offer :
      (direction : AllocationDirection) (c : Option ℕ) (d : EfiMemoryDescriptor)
      → IsRange d
      → d.type ≡ 7
      → d.physical_start + byte_count ≤ end_of d
      → admit_aligned direction byte_count (end_of d) c d (aligned_at k byte_count direction d)
        ≡ pick direction c (aligned_offer k byte_count direction d)
  unfolding admit_aligned
  admit_aligned-offer direction c d r t h = ground (arith, r.bounded)

  pub consider_aligned-offer :
      (direction : AllocationDirection) (c : Option ℕ) (d : EfiMemoryDescriptor)
      → IsRange d
      → RoundsUp k d
      → consider_aligned byte_count (2 ^ k) direction c d
        ≡ ok (pick direction c (aligned_offer k byte_count direction d))
  unfolding consider_aligned
  consider_aligned-offer Types.low c d r q =
      let up : align_up d.physical_start (2 ^ k) ≡ ok (aligned_at k byte_count Types.low d) =
        rw (align_up-eq k n width d.physical_start, lt→ltb _ _ q) in
      rw (descriptor_end_lem d r, consider_aligned)
        (ground (arith, r.bounded, up, admit_aligned-offer Types.low c d r))
  consider_aligned-offer Types.high c d r q =
      rw (descriptor_end_lem d r, consider_aligned)
        (ground (
          arith,
          r.bounded,
          align_down-eq k n width (end_of d - byte_count),
          admit_aligned-offer Types.high c d r,
        ))
