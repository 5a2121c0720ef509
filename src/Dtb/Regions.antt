-- ===== src/Dtb/Regions.antt =====
-- src/dtb_memory.rs: the regions of RAM and the reserved regions that a device tree names.
pub mod Decode
pub mod Ends
pub mod Filled
pub mod Memory
pub mod Static
use rustfirmware.Base.{
  ℕ, zero, suc, ◌+◌, ◌-◌, ◌*◌, ◌%◌, Bool, true, false, not, ◌&&◌, ◌||◌, List, [], ◌∷◌, ◌++◌, Option,
  none, some, length, take, drop, ltb, leb, ◌==◌, if◌then◌else◌, Outcome, ok, err, panic,
  out_of_fuel, ◌>>=◌, write,
}
use rustfirmware.Base.Bytes.{bytes_eq}
use rustfirmware.Base.Text.{codes}
use rustfirmware.Base.Word.{u64_mod}
use rustfirmware.Memory.Types.{MemoryRegion, ReservedMemoryType, reserved, boot_services_data}
use rustfirmware.Dtb.Bytes.{Search, Run, attempt, wrapping_add, unwrap_or, read_cells}
use rustfirmware.Dtb.Blob.{Fdt}
use rustfirmware.Dtb.Structure.{FdtNode, root_node, for_each_child}
use rustfirmware.Dtb.Query.{find_node, get_property, get_property_u32, get_property_string}
use rustfirmware.Dtb.Reserve.{FdtReserveEntry, reserve_entry}

-- `&reg[start..end]`.
unfoldable pub slice : List ℕ → ℕ → ℕ → Run (List ℕ)
slice reg start end =
    if ltb end start || ltb (length reg) end
    then panic
    else ok (take (end - start) (drop start reg))

-- The callback returns whether to go on.
abbrev pub after_region : {S : Type 0} → (ℕ → S → Run (Bool × S)) → ℕ → Bool × S → Run (Bool × S)
after_region next index (false, state) = ok (false, state)
after_region next index (true, state) = next index state

module _ {S : Type 0} (visit : MemoryRegion → S → Run (Bool × S)) where
  -- The loop of `visit_decoded_regions`, from `index` on.
  unfoldable pub regions_loop : ℕ → List ℕ → ℕ → ℕ → ℕ → ℕ → S → Run (Bool × S)
  regions_loop zero reg address_cells size_cells stride index state = out_of_fuel
  regions_loop (suc fuel) reg address_cells size_cells stride index state =
      let rest : Run (Bool × S) = (do
        address ← slice reg index (index + address_cells * 4)
        extent ← slice reg (index + address_cells * 4) (index + stride)
        visited ←
            visit
              (record {
                base = read_cells address address_cells;
                size = read_cells extent size_cells;
              })
              state
        after_region (regions_loop fuel reg address_cells size_cells stride) (index + stride)
            visited) in
      if ltb (length reg) (index + stride) then ok (true, state) else rest

  -- The cells are 32-bit numbers, so that the stride does not leave 64 bits.
  unfoldable pub visit_decoded_regions : List ℕ → ℕ → ℕ → S → Run (Bool × S)
  visit_decoded_regions reg address_cells size_cells state =
      let stride = (address_cells + size_cells) * 4 in
      if stride == 0
      then ok (true, state)
      else regions_loop (length reg + 1) reg address_cells size_cells stride 0 state

-- The count of regions written, and the slice that they are written to.
abbrev pub Filled : Type 0
Filled = ℕ × List MemoryRegion

abbrev pub store_region : MemoryRegion → Filled → Run (Bool × Filled)
store_region region (count, output) =
    if count == length output
    then ok (false, (count, output))
    else (do written ← write output count region; ok (true, (count + 1, written)))

unfoldable pub decode_regions : List ℕ → ℕ → ℕ → List MemoryRegion → Run Filled
decode_regions reg address_cells size_cells output = do
  (_, filled) ← visit_decoded_regions store_region reg address_cells size_cells (0, output)
  ok filled

-- `count += fill(&mut output[count..])`.
abbrev pub fill_rest : (List MemoryRegion → Run Filled) → Filled → Run Filled
fill_rest fill (count, output) =
    if ltb (length output) count
    then panic
    else (do (more, rest) ← fill (drop count output); ok (count + more, take count output ++ rest))

-- `fdt.get_property_u32(node, name).unwrap_or(default)`.
abbrev pub cells_or : Fdt → FdtNode → List ℕ → ℕ → Run ℕ
cells_or fdt node name default = do
  value ← attempt (get_property_u32 fdt node name)
  ok (unwrap_or value default)

abbrev pub address_cells_name : List ℕ
address_cells_name = codes "#address-cells"

abbrev pub size_cells_name : List ℕ
size_cells_name = codes "#size-cells"

unfoldable pub starts_with : List ℕ → List ℕ → Bool
starts_with [] text = true
starts_with (x ∷ prefix_) [] = false
starts_with (x ∷ prefix_) (y ∷ text) = x == y && starts_with prefix_ text

unfoldable pub is_memory_name : List ℕ → Bool
is_memory_name name = bytes_eq name (codes "memory") || starts_with (codes "memory@") name

-- `device_type` is missing, or is `memory`.
abbrev pub is_memory_type : Option (List ℕ) → Bool
is_memory_type none = true
is_memory_type (some device_type) = bytes_eq device_type (codes "memory")

-- The regions of a `reg` property, if it is there.
abbrev pub decode_reg : ℕ → ℕ → Option (List ℕ) → Filled → Run (Bool × Filled)
decode_reg address_cells size_cells none filled = ok (true, filled)
decode_reg address_cells size_cells (some reg) filled = do
  more ← fill_rest (decode_regions reg address_cells size_cells) filled
  ok (true, more)

unfoldable pub visit_memory : Fdt → ℕ → ℕ → FdtNode → Filled → Run (Bool × Filled)
visit_memory fdt address_cells size_cells node (count, output) =
    if count == length output
    then ok (false, (count, output))
    else if not (is_memory_name node.name)
    then ok (true, (count, output))
    else (do
      device_type ← attempt (get_property_string fdt node (codes "device_type"))
      if not (is_memory_type device_type) then ok (true, (count, output)) else (do
        reg ← attempt (get_property fdt node (codes "reg"))
        decode_reg address_cells size_cells reg (count, output)))

abbrev pub memory_regions_of : Fdt → List MemoryRegion → Option FdtNode → Run Filled
memory_regions_of fdt output none = ok (0, output)
memory_regions_of fdt output (some root) = do
  address_cells ← cells_or fdt root address_cells_name 2
  size_cells ← cells_or fdt root size_cells_name 1
  for_each_child fdt (visit_memory fdt address_cells size_cells) root (0, output)

unfoldable pub memory_regions : Fdt → List MemoryRegion → Run Filled
memory_regions fdt output = do root ← attempt (root_node fdt); memory_regions_of fdt output root

-- One round of the loop over the reserve map, and the rest of it.
abbrev pub store_entry : (Filled → Run Filled) → Filled → Option FdtReserveEntry → Run Filled
store_entry next (count, output) none = ok (count, output)
store_entry next (count, output) (some entry) =
    if count == length output then ok (count, output) else (do
      written ← write output count (record { base = entry.address; size = entry.size })
      next (count + 1, written))

unfoldable pub reserve_map_loop : ℕ → Fdt → Filled → Run Filled
reserve_map_loop zero fdt filled = out_of_fuel
reserve_map_loop (suc fuel) fdt (count, output) =
    store_entry (reserve_map_loop fuel fdt) (count, output) (reserve_entry fdt count)

-- Each round fills a place of the output, so a round for each and one more are enough.
unfoldable pub reserve_map_regions : Fdt → List MemoryRegion → Run Filled
reserve_map_regions fdt output = reserve_map_loop (length output + 1) fdt (0, output)

-- The number of cells under `/reserved-memory`, with the root's as default.
abbrev pub reserved_cells : Fdt → FdtNode → ℕ → ℕ → Run (ℕ × ℕ)
reserved_cells fdt node root_address_cells root_size_cells = do
  address_cells ← cells_or fdt node address_cells_name root_address_cells
  size_cells ← cells_or fdt node size_cells_name root_size_cells
  ok (address_cells, size_cells)

abbrev pub reserved_memory_path : List ℕ
reserved_memory_path = codes "/reserved-memory"

module _ {S : Type 0} (fdt : Fdt)
    (visit : MemoryRegion → ReservedMemoryType → S → Run (Bool × S)) where
  abbrev pub visit_reg : ℕ → ℕ → ReservedMemoryType → List ℕ → S → Run (Bool × S)
  visit_reg address_cells size_cells memory_type reg state =
      visit_decoded_regions (λ region. visit region memory_type) reg address_cells size_cells state

  abbrev pub reserved_type : Option (List ℕ) → ReservedMemoryType
  reserved_type none = boot_services_data
  reserved_type (some value) = reserved

  abbrev pub visit_static : ℕ → ℕ → FdtNode → S → Option (List ℕ) → Run (Bool × S)
  visit_static address_cells size_cells node state none = ok (true, state)
  visit_static address_cells size_cells node state (some reg) = do
    no_map ← attempt (get_property fdt node (codes "no-map"))
    visit_reg address_cells size_cells (reserved_type no_map) reg state

  unfoldable pub visit_reserved : ℕ → ℕ → FdtNode → S → Run (Bool × S)
  visit_reserved address_cells size_cells node state = do
    reg ← attempt (get_property fdt node (codes "reg"))
    visit_static address_cells size_cells node state reg

  abbrev pub static_regions_of : ℕ → ℕ → S → Option FdtNode → Run S
  static_regions_of root_address_cells root_size_cells state none = ok state
  static_regions_of root_address_cells root_size_cells state (some node) = do
    (address_cells, size_cells) ← reserved_cells fdt node root_address_cells root_size_cells
    for_each_child fdt (visit_reserved address_cells size_cells) node state

  abbrev pub static_regions_from : S → Option FdtNode → Run S
  static_regions_from state none = ok state
  static_regions_from state (some root) = do
    root_address_cells ← cells_or fdt root address_cells_name 2
    root_size_cells ← cells_or fdt root size_cells_name 1
    node ← attempt (find_node fdt reserved_memory_path)
    static_regions_of root_address_cells root_size_cells state node

  unfoldable pub for_each_static_reserved_memory_region : S → Run S
  for_each_static_reserved_memory_region state = do
    root ← attempt (root_node fdt)
    static_regions_from state root

unfoldable pub visit_reserved_reg : Fdt → ℕ → ℕ → FdtNode → Filled → Run (Bool × Filled)
visit_reserved_reg fdt address_cells size_cells node (count, output) =
    if count == length output then ok (false, (count, output)) else (do
      reg ← attempt (get_property fdt node (codes "reg"))
      decode_reg address_cells size_cells reg (count, output))

abbrev pub reserved_memory_regions_of :
    Fdt → ℕ → ℕ → List MemoryRegion → Option FdtNode → Run Filled
reserved_memory_regions_of fdt root_address_cells root_size_cells output none = ok (0, output)
reserved_memory_regions_of fdt root_address_cells root_size_cells output (some node) = do
  (address_cells, size_cells) ← reserved_cells fdt node root_address_cells root_size_cells
  for_each_child fdt (visit_reserved_reg fdt address_cells size_cells) node (0, output)

unfoldable pub reserved_memory_regions : Fdt → ℕ → ℕ → List MemoryRegion → Run Filled
reserved_memory_regions fdt root_address_cells root_size_cells output = do
  node ← attempt (find_node fdt reserved_memory_path)
  reserved_memory_regions_of fdt root_address_cells root_size_cells output node

abbrev pub reserved_regions_from : Fdt → List MemoryRegion → Option FdtNode → Run Filled
reserved_regions_from fdt output none = ok (0, output)
reserved_regions_from fdt output (some root) = do
  root_address_cells ← cells_or fdt root address_cells_name 2
  root_size_cells ← cells_or fdt root size_cells_name 1
  (count, written) ← reserve_map_regions fdt output
  if ltb count (length written)
      then fill_rest (reserved_memory_regions fdt root_address_cells root_size_cells)
          (count, written)
      else ok (count, written)

unfoldable pub reserved_regions : Fdt → List MemoryRegion → Run Filled
reserved_regions fdt output = do
  root ← attempt (root_node fdt)
  reserved_regions_from fdt output root
