-- ===== src/Memory/Tests/Regions.antt =====
-- Building and carving small maps, and the theorems at them.
use rustfirmware.Base.{◌&&◌, true, false, ltb, leb, ◌+◌, ◌≤◌, refl, List, [], ◌∷◌, arith, replicate}
use rustfirmware.Base.Word.{u64_mod}
use rustfirmware.Memory.Types.{
  MemoryRegion, PageAllocator, empty_memory_descriptor, efi_loader_data,
}
use rustfirmware.Memory.Arith.{align_region_to_pages, Result}
use rustfirmware.Memory.Alloc.{
  is_conventional, is_conventional_or_reserved, carve_range, reserve_region_with_type,
}
use rustfirmware.Memory.Buffer.{insert_sorted}
use rustfirmware.Memory.Map.{covers}
use rustfirmware.Memory.Build.Firmware.{IsLinked}
use rustfirmware.Memory.Build.Ram.{IsDisjoint}
use rustfirmware.Memory.Build.Seeded.{Builds, from_regions-Builds}
use rustfirmware.Memory.Insert.Ram.{AddsRam, add_memory_region-AddsRam, insert_sorted-AddsRam}
use rustfirmware.Memory.Regions.{takes, PagesOf, align_region_to_pages-PagesOf}
use rustfirmware.Memory.Carve.Calls.{
  Claims, EndsHigh, carve_range-Claims, reserve_region_with_type-Claims,
}
use rustfirmware.Memory.Build.{add_memory_region, LinkerLayout, from_regions}
use rustfirmware.Memory.Tests.{entry, entry-IsRange, small, small-IsValid}

abbrev layout : LinkerLayout
layout = record {
  firmware_code_start = 0x8020_0000;
  firmware_code_end = 0x8020_3000;
  firmware_data_start = 0x8020_3000;
  firmware_data_end = 0x8020_4800;
  firmware_heap_start = 0x8020_5000;
  firmware_heap_end = 0x8020_6000;
  firmware_stack_bottom = 0x8020_6000;
  firmware_stack_top = 0x8020_8000;
}

abbrev board : List MemoryRegion
board = record { base = 0x8000_0000; size = 0x1000_0000 } ∷ []

abbrev monitor : List MemoryRegion
monitor = record { base = 0x8000_0000; size = 0x8_0800 } ∷ []

map_of : Result PageAllocator
unfolding from_regions
map_of = from_regions layout board monitor (replicate 8 empty_memory_descriptor)

layout-IsLinked : IsLinked layout
layout-IsLinked = record {
  code = omega arith;
  statics = omega arith;
  heap = omega arith;
  stack = omega arith;
}

abbrev two_banks : List MemoryRegion
two_banks =
    record { base = 0x8000_0000; size = 0x1000_0000 }
    ∷ record { base = 0xa000_0800; size = 0x4000 }
    ∷ []

two_banks-IsDisjoint : IsDisjoint two_banks
two_banks-IsDisjoint = ((λ x t. ground (arith, t), tt), (tt, tt))

from_regions-Builds_example :
    Builds layout two_banks monitor
      (replicate 8 empty_memory_descriptor)
      (from_regions layout two_banks monitor (replicate 8 empty_memory_descriptor))
from_regions-Builds_example =
    from_regions-Builds layout two_banks monitor (replicate 8 empty_memory_descriptor)
      layout-IsLinked two_banks-IsDisjoint

abbrev image : MemoryRegion
image = record { base = 0x4800; size = 0x1000 }

reserve_region_with_type-Claims_example :
    Claims is_conventional_or_reserved efi_loader_data
      (takes true image)
      (EndsHigh image)
      small
      (reserve_region_with_type image efi_loader_data small)
reserve_region_with_type-Claims_example =
    reserve_region_with_type-Claims image efi_loader_data small small-IsValid

carve_range-Claims_example :
    Claims is_conventional efi_loader_data
      (λ x. leb 0x4000 x && ltb x 0x6000)
      ⊥
      small
      (carve_range 0x4000 0x6000 efi_loader_data small)
carve_range-Claims_example =
    carve_range-Claims 0x4000 0x6000 efi_loader_data small small-IsValid (omega arith) refl refl

align_region_to_pages-PagesOf_example : PagesOf false image (align_region_to_pages image false)
align_region_to_pages-PagesOf_example = align_region_to_pages-PagesOf false image

abbrev bank : MemoryRegion
bank = record { base = 0xd000; size = 0x3000 }

add_memory_region-AddsRam_example :
    AddsRam
      (takes false bank)
      (u64_mod ≤ bank.base + bank.size + 4095)
      small
      (add_memory_region bank small)
add_memory_region-AddsRam_example =
    add_memory_region-AddsRam bank small small-IsValid (λ x t. ground (arith, t))

insert_sorted-AddsRam_example :
    AddsRam (covers (entry 7 0xd000 1)) ⊥ small (insert_sorted (entry 7 0xd000 1) small)
insert_sorted-AddsRam_example =
    insert_sorted-AddsRam ⊥ (entry 7 0xd000 1) small small-IsValid
      (entry-IsRange 7 0xd000 1 refl (omega arith) (omega arith)) refl (λ x t. ground (arith, t))
