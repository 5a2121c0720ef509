-- ===== src/Dtb/Regions/Static.antt =====
-- src/dtb_memory.rs: the regions that `for_each_static_reserved_memory_region` calls its callback with,
-- whatever the blob is.
use rustfirmware.Base.{
  ℕ, zero, suc, ◌+◌, ◌*◌, ◌≡◌, refl, Bool, true, false, List, [], Option, none, some, length, ltb,
  ◌==◌, ok, out_of_fuel, ◌>>=◌,
}
use rustfirmware.Base.Text.{codes}
use rustfirmware.Memory.Types.{MemoryRegion, ReservedMemoryType, reserved, boot_services_data}
use rustfirmware.Dtb.Bytes.{Run, attempt, read_cells}
use rustfirmware.Dtb.Blob.{Fdt}
use rustfirmware.Dtb.Structure.{FdtNode, root_node, for_each_child}
use rustfirmware.Dtb.Query.{find_node, get_property}
use rustfirmware.Dtb.Follows.{
  Callback, continue_test, bind_ext, visit_items, Follows, follows, Tests, tests, Follows-bind,
  Tests-bind, Tests-if, Tests-call, Tests-same, Follows-nested, collect, collect-visits,
}
use rustfirmware.Dtb.Regions.{
  slice, after_region, regions_loop, visit_decoded_regions, visit_reg, visit_static, reserved_type,
  visit_reserved, reserved_cells, cells_or, static_regions_of, static_regions_from,
  for_each_static_reserved_memory_region, address_cells_name, size_cells_name, reserved_memory_path,
}
use rustfirmware.Dtb.Follows.Nodes.{for_each_child-Follows}

-- A region with its classification.
abbrev pub Static : Type 0
Static = MemoryRegion × ReservedMemoryType

abbrev pub curried :
    {S : Type 0} → Callback Static S → MemoryRegion → ReservedMemoryType → S → Run (Bool × S)
curried visit region type = visit (region, type)

to_the_end : Tests {X = Static} (λ S visit state. ok (true, state))
to_the_end = tests [] (ok tt) (λ S visit state. refl)

module _ (type : ReservedMemoryType) (reg : List ℕ) (address_cells size_cells : ℕ) where
  after_continue :
      {S : Type 0} (next : ℕ → S → Run (Bool × S)) (index : ℕ) (r : Bool × S)
      → after_region next index r ≡ continue_test (next index) r
  after_continue next index (true, s) = refl
  after_continue next index (false, s) = refl

  region_visited :
      (index : ℕ) (region : MemoryRegion)
      (loop : (S : Type 0) → Callback Static S → ℕ → S → Run (Bool × S))
      → Tests (λ S visit state. loop S visit index state)
      → Tests (λ S visit state. visit (region, type) state >>= after_region (loop S visit) index)
  region_visited index region loop rest =
      Tests-same _
        (λ S visit state. visit (region, type) state >>= continue_test (loop S visit index))
        (λ S visit state.
          bind_ext (visit (region, type) state) _ _ (after_continue (loop S visit) index))
        (Tests-call (region, type) (λ S visit state. loop S visit index state) rest)

  regions_loop-Tests :
      (fuel stride index : ℕ)
      → Tests (λ S visit state.
        regions_loop
          (λ region. curried visit region type)
          fuel
          reg
          address_cells
          size_cells
          stride
          index
          state)
  unfolding regions_loop
  regions_loop-Tests zero stride index = tests [] out_of_fuel (λ S visit state. refl)
  regions_loop-Tests (suc fuel) stride index =
      Tests-if (ltb (length reg) (index + stride)) _ _ to_the_end (
        Tests-bind (slice reg index (index + address_cells * 4)) _ λ address.
          Tests-bind (slice reg (index + address_cells * 4) (index + stride)) _ λ extent.
            region_visited (index + stride)
              (record {
                base = read_cells address address_cells;
                size = read_cells extent size_cells;
              })
              (λ S visit.
                regions_loop (λ region. curried visit region type) fuel reg address_cells size_cells
                  stride)
              (regions_loop-Tests fuel stride (index + stride)))

  visit_decoded_regions-Tests : Tests (λ S visit state.
      visit_decoded_regions
        (λ region. curried visit region type)
        reg
        address_cells
        size_cells
        state)
  unfolding visit_decoded_regions
  visit_decoded_regions-Tests =
      Tests-if ((address_cells + size_cells) * 4 == 0) _ _ to_the_end
        (regions_loop-Tests (length reg + 1) ((address_cells + size_cells) * 4) 0)

module _ (fdt : Fdt) where
  visit_reg-Tests :
      (address_cells size_cells : ℕ) (reg : List ℕ) (no_map : Option (List ℕ))
      → Tests (λ S visit state.
        visit_reg fdt
          (curried visit)
          address_cells
          size_cells
          (reserved_type fdt (curried visit) no_map)
          reg
          state)
  visit_reg-Tests address_cells size_cells reg none =
      visit_decoded_regions-Tests boot_services_data reg address_cells size_cells
  visit_reg-Tests address_cells size_cells reg (some value) =
      visit_decoded_regions-Tests reserved reg address_cells size_cells

  visit_static-Tests :
      (address_cells size_cells : ℕ) (node : FdtNode) (o : Option (List ℕ))
      → Tests
          (λ S visit state. visit_static fdt (curried visit) address_cells size_cells node state o)
  visit_static-Tests address_cells size_cells node none = to_the_end
  visit_static-Tests address_cells size_cells node (some reg) =
      Tests-bind (attempt (get_property fdt node (codes "no-map"))) _
        (visit_reg-Tests address_cells size_cells reg)

  visit_reserved-Tests :
      (address_cells size_cells : ℕ) (node : FdtNode)
      → Tests
          (λ S visit state. visit_reserved fdt (curried visit) address_cells size_cells node state)
  unfolding visit_reserved
  visit_reserved-Tests address_cells size_cells node =
      Tests-bind (attempt (get_property fdt node (codes "reg"))) _
        (visit_static-Tests address_cells size_cells node)

  none_static : Follows {X = Static} (λ S visit state. ok state)
  none_static = follows [] (ok tt) (λ S visit state. refl)

  static_regions_of-Follows :
      (a s : ℕ) (o : Option FdtNode)
      → Follows (λ S visit state. static_regions_of fdt (curried visit) a s state o)
  static_regions_of-Follows a s none = none_static
  static_regions_of-Follows a s (some node) = Follows-bind (reserved_cells fdt node a s) _ λ c.
      Follows-nested (λ S visit state. for_each_child fdt visit node state)
        (λ child S visit state. visit_reserved fdt (curried visit) c.0 c.1 child state)
        (for_each_child-Follows fdt node) (visit_reserved-Tests c.0 c.1)

  static_regions_from-Follows :
      (o : Option FdtNode)
      → Follows (λ S visit state. static_regions_from fdt (curried visit) state o)
  static_regions_from-Follows none = none_static
  static_regions_from-Follows (some root) =
      Follows-bind (cells_or fdt root address_cells_name 2) _ λ a.
        Follows-bind (cells_or fdt root size_cells_name 1) _ λ s.
          Follows-bind (attempt (find_node fdt reserved_memory_path)) _
            (static_regions_of-Follows a s)

  static-Follows :
      Follows (λ S visit state. for_each_static_reserved_memory_region fdt (curried visit) state)
  unfolding for_each_static_reserved_memory_region
  static-Follows = Follows-bind (attempt (root_node fdt)) _ static_regions_from-Follows

-- The static regions in the order in which they are visited.
abbrev pub static_regions : Fdt → Run (List Static)
static_regions fdt = for_each_static_reserved_memory_region fdt (curried collect) []

-- Any callback is called with the static regions in turn, until it returns false.
pub static-visits :
    (fdt : Fdt) (found : List Static)
    → static_regions fdt ≡ ok found
    → (S : Type 0) (visit : Callback Static S) (state : S)
    → for_each_static_reserved_memory_region fdt (curried visit) state
      ≡ visit_items visit found (ok tt) state
static-visits fdt found =
    collect-visits
      (λ S visit state. for_each_static_reserved_memory_region fdt (curried visit) state) found
      (static-Follows fdt)
