-- ===== src/Dtb/Allocator/Static.antt =====
-- src/dtb_memory.rs: the static regions under `/reserved-memory` as `from_fdt` reserves them.
use rustfirmware.Base.{
  ℕ, ◌≡◌, refl, Bool, true, false, List, [], ◌∷◌, Option, none, some, ok, ◌>>=◌,
}
use rustfirmware.Base.Bytes.{AllBytes}
use rustfirmware.Base.Text.{codes}
use rustfirmware.Memory.Types.{
  EfiMemoryType, MemoryRegion, ReservedMemoryType, reserved_memory_type_to_efi, PageAllocator,
}
use rustfirmware.Memory.Arith.{Result}
use rustfirmware.Memory.Alloc.{is_conventional_or_reserved}
use rustfirmware.Memory.Exact.{IsValid}
use rustfirmware.Memory.Regions.{takes}
use rustfirmware.Memory.Carve.Calls.{
  claimed, Claims, claimed_all, cut_short, ends_high, add_reserved_region_with_type-Claims,
}
use rustfirmware.Memory.Build.Maps.{Maps, mapped, failed, Maps-then}
use rustfirmware.Dtb.Follows.{Callback, collect, continue, visit_items}
use rustfirmware.Dtb.Regions.Static.{Static, curried, static_regions, static-visits}
use rustfirmware.Dtb.Bytes.{Run}
use rustfirmware.Dtb.Blob.{Fdt}
use rustfirmware.Dtb.Structure.{FdtNode}
use rustfirmware.Dtb.Total.{Returns, returns, Returns-then, Holds, Returns-attempt}
use rustfirmware.Dtb.Total.Reads.{IsSlice, IsValue}
use rustfirmware.Dtb.Total.Walks.{for_each_child-Returns}
use rustfirmware.Dtb.Regions.{
  after_region, visit_static, reserved_type, visit_reserved, static_regions_of, static_regions_from,
  for_each_static_reserved_memory_region, address_cells_name, size_cells_name, reserved_memory_path,
}
use rustfirmware.Dtb.Regions.Decode.{visit_all, regions_of, visit_decoded_regions-visit_all}
use rustfirmware.Dtb.Regions.Ends.{
  get_reg, cells_or-Returns, root_node-Returns, find_node-Finds, reserved_cells-Returns,
}
use rustfirmware.Dtb.Allocator.{keep_result, add_static_region, after_static, add_static_regions}

module _ {S : Type 0} (Q : S → Type 0) where
  after_region-Returns :
      (next : S → Run (Bool × S)) (r : Bool × S)
      → ((s : S) → Q s → Returns (λ r. Q r.1) (next s))
      → Q r.1
      → Returns (λ r. Q r.1) (after_region (λ _. next) 0 r)
  after_region-Returns next (true, s) more q = more s q
  after_region-Returns next (false, s) more q = returns q

  -- A callback that keeps a property keeps it over a list.
  visit_all-Returns :
      (visit : MemoryRegion → S → Run (Bool × S)) (regions : List MemoryRegion) (state : S)
      → ((region : MemoryRegion) (s : S) → Q s → Returns (λ r. Q r.1) (visit region s))
      → Q state
      → Returns (λ r. Q r.1) (visit_all visit regions state)
  visit_all-Returns visit [] state keeps q = returns q
  visit_all-Returns visit (region ∷ regions) state keeps q =
      Returns-then _ (keeps region state q) λ r k.
        after_region-Returns (visit_all visit regions) r
          (λ s. visit_all-Returns visit regions s keeps) k

  module _ (fdt : Fdt) (small : IsSlice fdt.structure) (bytes : AllBytes fdt.structure)
      (visit : MemoryRegion → ReservedMemoryType → S → Run (Bool × S))
      (keeps : (region : MemoryRegion) (type : ReservedMemoryType) (s : S)
        → Q s
        → Returns (λ r. Q r.1) (visit region type s)) where
    visit_static-Returns :
        (address_cells size_cells : ℕ) (node : FdtNode) (state : S) (o : Option (List ℕ))
        → Holds IsValue o
        → Q state
        → Returns (λ r. Q r.1) (visit_static fdt visit address_cells size_cells node state o)
    visit_static-Returns address_cells size_cells node state none value q = returns q
    visit_static-Returns address_cells size_cells node state (some reg) (short, all) q =
        Returns-then _ (get_reg fdt small bytes node (codes "no-map")) λ no_map _.
          rw
            (visit_decoded_regions-visit_all
              (λ region. visit region (reserved_type fdt visit no_map)) reg address_cells size_cells
              short all state)
            (visit_all-Returns _ (regions_of reg address_cells size_cells) state
              (λ region. keeps region (reserved_type fdt visit no_map)) q)

    visit_reserved-Returns :
        (address_cells size_cells : ℕ) (node : FdtNode) (state : S)
        → Q state
        → Returns (λ r. Q r.1) (visit_reserved fdt visit address_cells size_cells node state)
    unfolding visit_reserved
    visit_reserved-Returns address_cells size_cells node state q =
        Returns-then _ (get_reg fdt small bytes node (codes "reg"))
          λ reg value. visit_static-Returns address_cells size_cells node state reg value q

    static_regions_of-Returns :
        (a s : ℕ) (state : S) (o : Option FdtNode)
        → Q state
        → Returns Q (static_regions_of fdt visit a s state o)
    static_regions_of-Returns a s state none q = returns q
    static_regions_of-Returns a s state (some node) q =
        Returns-then _ (reserved_cells-Returns fdt small bytes node a s) λ c _.
          for_each_child-Returns fdt small Q (visit_reserved fdt visit c.0 c.1)
            (visit_reserved-Returns c.0 c.1) node state q

    static_regions_from-Returns :
        (state : S) (o : Option FdtNode)
        → Q state
        → Returns Q (static_regions_from fdt visit state o)
    static_regions_from-Returns state none q = returns q
    static_regions_from-Returns state (some root) q =
        Returns-then _ (cells_or-Returns fdt small bytes root address_cells_name 2) λ a _.
          Returns-then _ (cells_or-Returns fdt small bytes root size_cells_name 1) λ s _.
            Returns-then _ (Returns-attempt (find_node-Finds fdt small bytes reserved_memory_path))
              λ node _. static_regions_of-Returns a s state node q

    -- The walk over the static regions ends, and keeps what the callback keeps.
    pub static-Returns :
        (state : S) → Q state → Returns Q (for_each_static_reserved_memory_region fdt visit state)
    unfolding for_each_static_reserved_memory_region
    static-Returns state q =
        Returns-then _ (root_node-Returns fdt small bytes)
          λ root _. static_regions_from-Returns state root q

-- What the static regions make of the type of an address, one region after another.
abbrev pub with_static : List Static → ℕ → Option ℕ → Option ℕ
with_static [] x o = o
with_static ((region, type) ∷ found) x o =
    with_static found x (
      claimed is_conventional_or_reserved (takes true region x) (reserved_memory_type_to_efi type)
        o)

abbrev add_static : Callback Static (Result (Unit {0}) × PageAllocator)
add_static (region, type) = add_static_region region type

abbrev add_all : List Static → PageAllocator → PageAllocator → Result (Unit {0}) × PageAllocator
add_all found first a = after_static first (visit_items add_static found (ok tt) (ok tt, a))

static_then :
    (found : List Static) (type : EfiMemoryType) (inside : ℕ → Bool) (first a : PageAllocator)
    {IsHigh : Type 0} {r : Result (Unit {0}) × PageAllocator}
    → ((b : PageAllocator) → IsValid b → Maps (with_static found) b (add_all found first b))
    → Claims is_conventional_or_reserved type inside IsHigh a r
    → Maps
        (λ x o. with_static found x (claimed is_conventional_or_reserved (inside x) type o))
        a
        (after_static first
          (keep_result (ok tt) r >>= continue (visit_items add_static found (ok tt))))
static_then found type inside first a rest (claimed_all valid capacity types) =
    Maps-then (λ x o. claimed is_conventional_or_reserved (inside x) type o) (with_static found) a
      (add_all found first) (mapped valid capacity types) (λ b valid_b _. rest b valid_b)
static_then found type inside first a rest (cut_short valid capacity) = failed
static_then found type inside first a rest (ends_high high) = failed

add_all-Maps :
    (found : List Static) (first a : PageAllocator)
    → IsValid a
    → Maps (with_static found) a (add_all found first a)
unfolding add_static_region
add_all-Maps [] first a valid = mapped valid refl (λ x. refl)
add_all-Maps ((region, type) ∷ found) first a valid =
    static_then found (reserved_memory_type_to_efi type) (takes true region) first a
      (add_all-Maps found first)
      (add_reserved_region_with_type-Claims region (reserved_memory_type_to_efi type) a valid)

-- Reserving the static regions, one after another, or an error.
pub add_static_regions-Maps :
    (fdt : Fdt) (found : List Static) (a : PageAllocator)
    → static_regions fdt ≡ ok found
    → IsValid a
    → Maps (with_static found) a (add_static_regions fdt a)
unfolding add_static_regions
add_static_regions-Maps fdt found a run valid =
    rw (static-visits fdt found run (Result (Unit {0}) × PageAllocator) add_static (ok tt, a))
      (add_all-Maps found a a valid)

-- The list of the static regions is found, whatever the blob is.
pub static_regions-Returns :
    (fdt : Fdt)
    → IsSlice fdt.structure
    → AllBytes fdt.structure
    → Returns (λ found. Unit {0}) (static_regions fdt)
static_regions-Returns fdt small bytes =
    static-Returns (λ found. Unit {0}) fdt small bytes (curried collect)
      (λ region type found _. returns tt) [] tt
