-- ===== src/Memory/Build/Seeded.antt =====
-- `from_regions`: the map that it builds, address by address.
use rustfirmware.Base.{ℕ, ◌≡◌, refl, true, List, [], ◌∷◌, Option, none, ok, err, arith, length}
use rustfirmware.Memory.Types.{
  EfiMemoryDescriptor, efi_reserved_memory_type, MemoryRegion, MemoryError, PageAllocator,
}
use rustfirmware.Memory.Arith.{Result}
use rustfirmware.Memory.Find.{active}
use rustfirmware.Memory.Alloc.{is_conventional_or_reserved}
use rustfirmware.Memory.Build.{
  LinkerLayout, add_reserved_region, for_each, seed_regions, finish, from_regions,
}
use rustfirmware.Memory.Map.{type_at}
use rustfirmware.Memory.Exact.{IsValid}
use rustfirmware.Memory.Regions.{takes}
use rustfirmware.Memory.Carve.Calls.{claimed, add_reserved_region_with_type-Claims}
use rustfirmware.Memory.Build.Maps.{Maps, mapped, failed, Maps-then, Claims-Maps, coalesce-Maps}
use rustfirmware.Memory.Build.Ram.{with_ram, IsDisjoint, NoneMapped, add_memory_regions-Maps}
use rustfirmware.Memory.Build.Firmware.{IsLinked, with_firmware, firmware-Maps}

abbrev pub with_reserved : List MemoryRegion → ℕ → Option ℕ → Option ℕ
with_reserved [] x o = o
with_reserved (region ∷ regions) x o =
    with_reserved regions x
      (claimed is_conventional_or_reserved (takes true region x) efi_reserved_memory_type o)

pub add_reserved_regions-Maps :
    (regions : List MemoryRegion) (a : PageAllocator)
    → IsValid a
    → Maps (with_reserved regions) a (for_each add_reserved_region regions a)
unfolding for_each add_reserved_region
add_reserved_regions-Maps [] a valid = mapped valid refl (λ x. refl)
add_reserved_regions-Maps (region ∷ regions) a valid =
    Maps-then
      (λ x o. claimed is_conventional_or_reserved (takes true region x) efi_reserved_memory_type o)
      (with_reserved regions) a (for_each add_reserved_region regions)
      (Claims-Maps (add_reserved_region_with_type-Claims region efi_reserved_memory_type a valid))
      (λ b valid' types. add_reserved_regions-Maps regions b valid')

-- The type of each address in the map that `from_regions` is to build.
abbrev pub seeded : LinkerLayout → List MemoryRegion → List MemoryRegion → ℕ → Option ℕ
seeded layout memory_regions reserved_regions x =
    with_firmware layout x (with_reserved reserved_regions x (with_ram memory_regions x none))

-- A valid map with these types in the same buffer, or an error.
pub data Builds (layout : LinkerLayout) (memory_regions reserved_regions : List MemoryRegion)
    (descriptors : List EfiMemoryDescriptor) : Result PageAllocator → Type 0 where
  built :
      {a : PageAllocator}
      → IsValid a
      → length a.descriptors ≡ length descriptors
      → ((x : ℕ) → type_at (active a) x ≡ seeded layout memory_regions reserved_regions x)
      → Builds layout memory_regions reserved_regions descriptors (ok a)
  rejected : {e : MemoryError} → Builds layout memory_regions reserved_regions descriptors (err e)

pub none_mapped :
    (descriptors : List EfiMemoryDescriptor) (regions : List MemoryRegion)
    → NoneMapped (record { descriptors = descriptors; descriptor_count = 0 }) regions
none_mapped descriptors [] = tt
none_mapped descriptors (region ∷ regions) = (λ x t. refl, none_mapped descriptors regions)

seed_regions-Maps :
    (layout : LinkerLayout) (memory_regions reserved_regions : List MemoryRegion)
    (a : PageAllocator)
    → IsLinked layout
    → IsValid a
    → IsDisjoint memory_regions
    → NoneMapped a memory_regions
    → Maps
        (λ x o.
          with_firmware layout x (with_reserved reserved_regions x (with_ram memory_regions x o)))
        a
        (seed_regions layout memory_regions reserved_regions a)
unfolding seed_regions
seed_regions-Maps layout memory_regions reserved_regions a linked valid apart free =
    Maps-then (with_ram memory_regions)
      (λ x o. with_firmware layout x (with_reserved reserved_regions x o)) a _
      (add_memory_regions-Maps memory_regions a valid apart free)
      λ b valid_b _.
        Maps-then (λ x o. o) (λ x o. with_firmware layout x (with_reserved reserved_regions x o)) b
          _ (coalesce-Maps b valid_b)
          λ c valid_c _.
            Maps-then (with_reserved reserved_regions) (with_firmware layout) c _
              (add_reserved_regions-Maps reserved_regions c valid_c)
              λ d valid_d _.
                Maps-then (with_firmware layout) (λ x o. o) d _
                  (firmware-Maps layout d linked valid_d) λ f valid_f _. coalesce-Maps f valid_f

finish-Builds :
    (layout : LinkerLayout) (memory_regions reserved_regions : List MemoryRegion)
    (descriptors : List EfiMemoryDescriptor) {r : Result (Unit {0}) × PageAllocator}
    → Maps
        (λ x o.
          with_firmware layout x (with_reserved reserved_regions x (with_ram memory_regions x o)))
        (record { descriptors = descriptors; descriptor_count = 0 })
        r
    → Builds layout memory_regions reserved_regions descriptors (finish r)
finish-Builds layout memory_regions reserved_regions descriptors (mapped valid capacity types) =
    built valid capacity types
finish-Builds layout memory_regions reserved_regions descriptors failed = rejected

-- For regions of RAM that have no whole page in common, `from_regions` builds a valid map: the whole
-- pages of RAM, of which the pages that a reserved region touches are reserved, and of the rest those
-- that the firmware's code and data touch are for the boot services; or it returns an error.
pub from_regions-Builds :
    (layout : LinkerLayout) (memory_regions reserved_regions : List MemoryRegion)
    (descriptors : List EfiMemoryDescriptor)
    → IsLinked layout
    → IsDisjoint memory_regions
    → Builds layout memory_regions reserved_regions descriptors
        (from_regions layout memory_regions reserved_regions descriptors)
unfolding from_regions
from_regions-Builds layout memory_regions reserved_regions descriptors linked apart =
    finish-Builds layout memory_regions reserved_regions descriptors (
      seed_regions-Maps layout memory_regions reserved_regions
        (record { descriptors = descriptors; descriptor_count = 0 }) linked
        (record { fits = omega arith; map = tt }) apart (none_mapped descriptors memory_regions))
