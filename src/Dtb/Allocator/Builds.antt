-- ===== src/Dtb/Allocator/Builds.antt =====
-- src/memory.rs: the map that `from_fdt` builds from a device tree.
use rustfirmware.Base.{
  ℕ, ◌≡◌, refl, subst, true, false, List, [], Option, none, ok, err, length, take, ltb, arith,
}
use rustfirmware.Memory.Types.{
  efi_acpi_reclaim_memory, EfiMemoryDescriptor, MemoryRegion, MemoryError, PageAllocator,
}
use rustfirmware.Memory.Arith.{Result}
use rustfirmware.Memory.Monad.{Method, bind_outcome}
use rustfirmware.Memory.Alloc.{is_conventional_or_reserved}
use rustfirmware.Memory.Find.{active}
use rustfirmware.Memory.Build.{LinkerLayout, finish}
use rustfirmware.Memory.Map.{type_at}
use rustfirmware.Memory.Exact.{IsValid}
use rustfirmware.Memory.Regions.{takes}
use rustfirmware.Memory.Carve.Calls.{claimed, reserve_region_with_type-Claims}
use rustfirmware.Memory.Build.Maps.{Maps, mapped, failed, Maps-then, Claims-Maps, coalesce-Maps}
use rustfirmware.Memory.Build.Ram.{with_ram, IsDisjoint, add_memory_regions-Maps}
use rustfirmware.Memory.Build.Firmware.{IsLinked, with_firmware, firmware-Maps}
use rustfirmware.Memory.Build.Seeded.{with_reserved, add_reserved_regions-Maps, none_mapped}
use rustfirmware.Dtb.Bytes.{Run}
use rustfirmware.Dtb.Blob.{Fdt}
use rustfirmware.Dtb.Total.{Returns, returns}
use rustfirmware.Dtb.Total.Reads.{IsValue}
use rustfirmware.Dtb.Regions.{Filled, memory_regions, reserve_map_regions}
use rustfirmware.Dtb.Regions.Ends.{
  Fits, memory_regions-Fits, reserve_map_regions-Fits, reserved_regions-Fits,
}
use rustfirmware.Dtb.Regions.Static.{Static, static_regions}
use rustfirmware.Dtb.Allocator.{
  no_error, first_regions, blob_region, reserve_original_fdt, reserve_regions, seed_from_fdt,
  from_fdt,
}
use rustfirmware.Dtb.Allocator.Static.{with_static, add_static_regions-Maps, static_regions-Returns}

-- What was written to an output, and the static regions, of runs that return.
abbrev pub written : Run Filled → List MemoryRegion
written (ok (count, regions)) = take count regions
written r = []

abbrev pub listed : Run (List Static) → List Static
listed (ok found) = found
listed r = []

-- The type of each address: the whole pages of RAM, from which are taken the pages of the blob, of the
-- reserve map and of the static regions, in this order, and then those of the firmware.
abbrev pub with_blob : Fdt → ℕ → Option ℕ → Option ℕ
with_blob fdt x =
    claimed is_conventional_or_reserved (takes true (blob_region fdt) x) efi_acpi_reclaim_memory

abbrev pub with_tree :
    LinkerLayout → Fdt → List MemoryRegion → List Static → ℕ → Option ℕ → Option ℕ
with_tree layout fdt reserved found x o =
    with_firmware layout x (with_static found x (with_reserved reserved x (with_blob fdt x o)))

blob-Maps :
    (fdt : Fdt) (a : PageAllocator)
    → IsValid a
    → Maps (with_blob fdt) a (reserve_original_fdt fdt a)
unfolding reserve_original_fdt
blob-Maps fdt a valid =
    Claims-Maps (reserve_region_with_type-Claims (blob_region fdt) efi_acpi_reclaim_memory a valid)

-- The slice of what was written to an output.
first_lem :
    (capacity : ℕ) (filled : Filled)
    → Fits capacity filled
    → first_regions filled ≡ ok (take filled.0 filled.1)
first_lem capacity (count, regions) (inside, size) =
    let test : ltb (length regions) count ≡ false = ground arith in rw test refl

ignored-Maps :
    (change : ℕ → Option ℕ → Option ℕ) (a : PageAllocator) (next : Method (Unit {0}))
    {P : Filled → Type 0} {r : Run Filled}
    → Returns P r
    → Maps change a (next a)
    → Maps change a (bind_outcome (no_error r, a) (λ _. next))
ignored-Maps change a next (returns h) k = k

module _ (layout : LinkerLayout) (linked : IsLinked layout) (fdt : Fdt)
    (value : IsValue fdt.structure) (found : List Static)
    (run : static_regions fdt ≡ ok found) where
  reserve_regions-Maps :
      (capacity : ℕ) (reserved : Filled) (a : PageAllocator)
      → Fits capacity reserved
      → IsValid a
      → Maps
          (with_tree layout fdt (take reserved.0 reserved.1) found)
          a
          (reserve_regions layout fdt reserved a)
  unfolding reserve_regions
  reserve_regions-Maps capacity (count, regions) a fits valid =
      let (small, bytes) = value in
      rw (first_lem capacity (count, regions) fits) (
        Maps-then (with_blob fdt)
          (λ x o.
            with_firmware layout x (with_static found x (with_reserved (take count regions) x o)))
          a _ (blob-Maps fdt a valid)
          λ b valid_b _.
            Maps-then (with_reserved (take count regions))
              (λ x o. with_firmware layout x (with_static found x o)) b _
              (add_reserved_regions-Maps (take count regions) b valid_b)
              λ c valid_c _.
                Maps-then (with_static found) (with_firmware layout) c _
                  (add_static_regions-Maps fdt found c run valid_c)
                  λ d valid_d _.
                    ignored-Maps (with_firmware layout) d _
                      (reserved_regions-Fits fdt small bytes regions)
                      (Maps-then (with_firmware layout) (λ x o. o) d _
                        (firmware-Maps layout d linked valid_d)
                        λ f valid_f _. coalesce-Maps f valid_f))

-- A valid map with these types in the same buffer, or an error.
pub data Builds (layout : LinkerLayout) (fdt : Fdt) (ram reserved : List MemoryRegion)
    (found : List Static) (descriptors : List EfiMemoryDescriptor)
    : Result PageAllocator → Type 0 where
  built :
      {a : PageAllocator}
      → IsValid a
      → length a.descriptors ≡ length descriptors
      → ((x : ℕ)
          → type_at (active a) x ≡ with_tree layout fdt reserved found x (with_ram ram x none))
      → Builds layout fdt ram reserved found descriptors (ok a)
  rejected : {e : MemoryError} → Builds layout fdt ram reserved found descriptors (err e)

finish-Builds :
    (layout : LinkerLayout) (fdt : Fdt) (ram reserved : List MemoryRegion) (found : List Static)
    (descriptors : List EfiMemoryDescriptor) {r : Result (Unit {0}) × PageAllocator}
    → Maps
        (λ x o. with_tree layout fdt reserved found x (with_ram ram x o))
        (record { descriptors = descriptors; descriptor_count = 0 })
        r
    → Builds layout fdt ram reserved found descriptors (finish r)
finish-Builds layout fdt ram reserved found descriptors (mapped valid capacity types) =
    built valid capacity types
finish-Builds layout fdt ram reserved found descriptors failed = rejected

returned : {A : Type 0} {P : A → Type 0} {r : Run A} → Returns P r → (a : A) × (r ≡ ok a) × P a
returned (returns {a = a} h) = (a, refl, h)

runs-Builds :
    (layout : LinkerLayout) (fdt : Fdt) (memory_output reserved_output : List MemoryRegion)
    (descriptors : List EfiMemoryDescriptor) (memory reserved : Filled) (found : List Static)
    → IsLinked layout
    → IsValue fdt.structure
    → (memory_regions fdt memory_output ≡ ok memory) × Fits (length memory_output) memory
    → (reserve_map_regions fdt reserved_output ≡ ok reserved)
      × Fits (length reserved_output) reserved
    → static_regions fdt ≡ ok found
    → IsDisjoint (take memory.0 memory.1)
    → Builds layout fdt
        (take memory.0 memory.1)
        (take reserved.0 reserved.1)
        found
        descriptors
        (from_fdt layout fdt memory_output reserved_output descriptors)
unfolding from_fdt seed_from_fdt
runs-Builds layout fdt memory_output reserved_output descriptors memory reserved found linked value
      (memory_run, fits) (reserved_run, fits') run apart =
    let ram = take memory.0 memory.1 in
    let taken = take reserved.0 reserved.1 in
    let empty : PageAllocator = record { descriptors = descriptors; descriptor_count = 0 } in
    rw (memory_run, reserved_run, first_lem (length memory_output) memory fits)
      (finish-Builds layout fdt ram taken found descriptors (
        Maps-then (with_ram ram) (with_tree layout fdt taken found) empty _
          (add_memory_regions-Maps ram empty (record { fits = omega arith; map = tt }) apart
            (none_mapped descriptors ram))
          λ b valid_b _.
            Maps-then (λ x o. o) (with_tree layout fdt taken found) b _ (coalesce-Maps b valid_b)
              λ c valid_c _.
                reserve_regions-Maps layout linked fdt value found run (length reserved_output)
                  reserved c fits' valid_c))

-- For regions of RAM, as memory_regions writes them, that have no whole page in common, and for
-- linker addresses of 64 bits, from_fdt ends without a panic, whatever the bytes of the blob are.
-- It returns an error, or a valid map in the same buffer with these types: the whole pages of RAM
-- are conventional; then the blob, each region that reserve_map_regions writes, and each static
-- region in the order of for_each_static_reserved_memory_region give their type to the pages that
-- they touch and that are conventional or reserved by then; and the firmware's code, data, heap and
-- stack give theirs to the pages that are conventional still.
pub from_fdt-Builds :
    (layout : LinkerLayout) (fdt : Fdt) (memory_output reserved_output : List MemoryRegion)
    (descriptors : List EfiMemoryDescriptor)
    → IsLinked layout
    → IsValue fdt.structure
    → IsDisjoint (written (memory_regions fdt memory_output))
    → Builds layout fdt
        (written (memory_regions fdt memory_output))
        (written (reserve_map_regions fdt reserved_output))
        (listed (static_regions fdt))
        descriptors
        (from_fdt layout fdt memory_output reserved_output descriptors)
from_fdt-Builds layout fdt memory_output reserved_output descriptors linked (small, bytes) apart =
    let (memory, memory_run, fits) = returned (memory_regions-Fits fdt small bytes memory_output) in
    let (reserved, reserved_run, fits') =
      returned (reserve_map_regions-Fits fdt small bytes reserved_output) in
    let (found, run, _) = returned (static_regions-Returns fdt small bytes) in
    rw (memory_run, reserved_run, run)
      (runs-Builds layout fdt memory_output reserved_output descriptors memory reserved found linked
        (small, bytes) (memory_run, fits) (reserved_run, fits') run
        (subst (λ (r : Run Filled). IsDisjoint (written r)) memory_run apart))
