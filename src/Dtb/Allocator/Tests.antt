-- ===== src/Dtb/Allocator/Tests.antt =====
-- src/memory.rs: `from_fdt` on a small device tree with the firmware in its RAM.
use rustfirmware.Base.{◌≡◌, refl, ◌∙◌, List, [], ◌∷◌, ok, replicate, arith}
use rustfirmware.Memory.Types.{EfiMemoryDescriptor, empty_memory_descriptor}
use rustfirmware.Memory.Build.{LinkerLayout}
use rustfirmware.Memory.Build.Firmware.{IsLinked}
use rustfirmware.Dtb.Regions.{Filled, memory_regions, reserve_map_regions}
use rustfirmware.Dtb.Regions.Memory.{memory_regions-tree_regions}
use rustfirmware.Dtb.Tests.{
  root_items, small_fdt, no_regions, structure-IsValue, root-IsName, root-IsTree, regions_found,
}
use rustfirmware.Dtb.Allocator.{from_fdt}
use rustfirmware.Dtb.Allocator.Builds.{Builds, written, listed, from_fdt-Builds}
use rustfirmware.Memory.Build.Ram.{IsDisjoint}
use rustfirmware.Dtb.Regions.Static.{static_regions}

-- The firmware's code lies in the first page of RAM, and its data in the second one.
abbrev layout : LinkerLayout
layout = record {
  firmware_code_start = 0x80000000;
  firmware_code_end = 0x80000800;
  firmware_data_start = 0x80001000;
  firmware_data_end = 0x80001100;
  firmware_heap_start = 0x80001100;
  firmware_heap_end = 0x80001200;
  firmware_stack_bottom = 0x80001200;
  firmware_stack_top = 0x80001300;
}

layout-IsLinked : IsLinked layout
layout-IsLinked = record {
  code = omega arith;
  statics = omega arith;
  heap = omega arith;
  stack = omega arith;
}

abbrev buffer : List EfiMemoryDescriptor
buffer = replicate 8 empty_memory_descriptor

abbrev ram : Filled
ram = (1, record { base = 0x80000000; size = 0x2000 } ∷ record { base = 0; size = 0 } ∷ [])

ram_found : memory_regions small_fdt no_regions ≡ ok ram
ram_found =
    memory_regions-tree_regions small_fdt no_regions [] [] root_items structure-IsValue refl
      root-IsName root-IsTree
    ∙ rw regions_found refl

ram-IsDisjoint : IsDisjoint (written (memory_regions small_fdt no_regions))
ram-IsDisjoint = rw ram_found (tt, tt)

from_fdt-Builds_example :
    Builds layout small_fdt
      (written (memory_regions small_fdt no_regions))
      (written (reserve_map_regions small_fdt no_regions))
      (listed (static_regions small_fdt))
      buffer
      (from_fdt layout small_fdt no_regions no_regions buffer)
from_fdt-Builds_example =
    from_fdt-Builds layout small_fdt no_regions no_regions buffer layout-IsLinked structure-IsValue
      ram-IsDisjoint
