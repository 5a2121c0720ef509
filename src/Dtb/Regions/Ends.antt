-- ===== src/Dtb/Regions/Ends.antt =====
-- src/dtb_memory.rs: collecting regions ends, whatever the blob is, and stays in the output.
use rustfirmware.Base.{
  ℕ, zero, suc, ◌+◌, ◌≤◌, ◌<◌, ◌≡◌, refl, ◌∙◌, false, not, List, [], ◌∷◌, Option, none, some,
  length, take, drop, set, length-drop, length-take, length-append, length-set, ltb, ◌==◌, ok,
  arith, lt→ltb, Bool-cases, inl, inr,
}
use rustfirmware.Base.Bytes.{bytes_eq, AllBytes}
use rustfirmware.Base.Text.{codes}
use rustfirmware.Memory.Types.{MemoryRegion}
use rustfirmware.Dtb.Bytes.{Search, Run, attempt, read_be_u32_from_slice}
use rustfirmware.Dtb.Blob.{Fdt}
use rustfirmware.Dtb.Structure.{FdtNode, root_node}
use rustfirmware.Dtb.Query.{
  found, match_child, find_child, split_slash, is_empty, find_components, find_node, get_property,
  get_property_u32, get_property_string,
}
use rustfirmware.Dtb.Reserve.{FdtReserveEntry, reserve_entry}
use rustfirmware.Dtb.Total.{
  Finds, gives, misses, Returns, returns, Finds-then, Finds-or, Finds-if, Returns-then, Returns-if,
  Holds, Returns-attempt,
}
use rustfirmware.Dtb.Total.Reads.{IsSlice, IsValue, c_string-Finds}
use rustfirmware.Dtb.Total.Walks.{node_at_offset-Finds, for_each_child-Returns, get_property-Finds}
use rustfirmware.Dtb.Regions.{
  Filled, decode_regions, fill_rest, cells_or, is_memory_name, is_memory_type, decode_reg,
  visit_memory, memory_regions_of, memory_regions, store_entry, reserve_map_loop,
  reserve_map_regions, reserved_cells, reserved_memory_path, address_cells_name, size_cells_name,
  visit_reserved_reg, reserved_memory_regions_of, reserved_memory_regions, reserved_regions_from,
  reserved_regions,
}
use rustfirmware.Dtb.Regions.Decode.{regions_of, stored, decode_regions-stored}

-- So many regions were written to an output of the given length.
abbrev pub Fits : ℕ → Filled → Type 0
Fits capacity (count, output) = (count ≤ length output) × (length output ≡ capacity)

length-stored : (regions rest : List MemoryRegion) → length (stored regions rest) ≡ length rest
length-stored regions rest = omega (
  arith,
  length-append (take (length rest) regions) (drop (length regions) rest),
  length-take (length rest) regions,
  length-drop (length regions) rest,
)

decode_regions-Fits :
    (reg : List ℕ) (address_cells size_cells : ℕ) (output : List MemoryRegion)
    → IsValue reg
    → Returns (Fits (length output)) (decode_regions reg address_cells size_cells output)
decode_regions-Fits reg address_cells size_cells output (small, all) =
    rw (decode_regions-stored reg address_cells size_cells output small all) (
      returns (
        omega (arith, length-stored (regions_of reg address_cells size_cells) output),
        length-stored (regions_of reg address_cells size_cells) output,
      ))

fill_rest-Fits :
    (capacity : ℕ) (fill : List MemoryRegion → Run Filled) (filled : Filled)
    → ((output : List MemoryRegion) → Returns (Fits (length output)) (fill output))
    → Fits capacity filled
    → Returns (Fits capacity) (fill_rest fill filled)
fill_rest-Fits capacity fill (count, output) fits (inside, size) =
    let test : ltb (length output) count ≡ false = ground arith in
    rw test (
      Returns-then _ (fits (drop count output)) λ r h.
        let (more, same) = h in
        let whole = length-append (take count output) r.1 in
        returns (
          omega (arith, whole, length-take count output, length-drop count output),
          omega (arith, whole, length-take count output, length-drop count output),
        ))

module _ (fdt : Fdt) (small : IsSlice fdt.structure) (bytes : AllBytes fdt.structure) where
  decode_reg-Fits :
      (capacity address_cells size_cells : ℕ) (o : Option (List ℕ)) (filled : Filled)
      → Holds IsValue o
      → Fits capacity filled
      → Returns (λ r. Fits capacity r.1) (decode_reg address_cells size_cells o filled)
  decode_reg-Fits capacity address_cells size_cells none filled h fits = returns fits
  decode_reg-Fits capacity address_cells size_cells (some reg) filled h fits =
      Returns-then _
        (fill_rest-Fits capacity (decode_regions reg address_cells size_cells) filled
          (λ output. decode_regions-Fits reg address_cells size_cells output h) fits)
        λ r k. returns k

  pub get_reg :
      (node : FdtNode) (name : List ℕ)
      → Returns (Holds IsValue) (attempt (get_property fdt node name))
  get_reg node name = Returns-attempt (get_property-Finds fdt small bytes node name)

  pub cells_or-Returns :
      (node : FdtNode) (name : List ℕ) (default : ℕ)
      → Returns (λ c. Unit {0}) (cells_or fdt node name default)
  unfolding get_property_u32
  cells_or-Returns node name default =
      Returns-then _
        (Returns-attempt (
          Finds-then {P = IsValue} {Q = λ c. Unit {0}} _
            (get_property-Finds fdt small bytes node name)
            λ value _. Finds-or (read_be_u32_from_slice value 0) λ c _. tt))
        λ o _. returns tt

  visit_memory-Fits :
      (capacity address_cells size_cells : ℕ) (node : FdtNode) (filled : Filled)
      → Fits capacity filled
      → Returns (λ r. Fits capacity r.1) (visit_memory fdt address_cells size_cells node filled)
  unfolding visit_memory get_property_string
  visit_memory-Fits capacity address_cells size_cells node (count, output) fits =
      Returns-if (count == length output) _ _ (returns fits) (
        Returns-if (not (is_memory_name node.name)) _ _ (returns fits) (
          Returns-then _
            (Returns-attempt (
              Finds-then {P = IsValue} {Q = λ t. Unit {0}} _
                (get_property-Finds fdt small bytes node (codes "device_type"))
                λ value _. Finds-then _ (c_string-Finds fdt small value) λ r _. gives tt))
            λ device_type _. Returns-if (not (is_memory_type device_type)) _ _ (returns fits) (
              Returns-then _ (get_reg node (codes "reg")) λ reg value.
                decode_reg-Fits capacity address_cells size_cells reg (count, output) value fits)))

  memory_regions_of-Fits :
      (output : List MemoryRegion) (o : Option FdtNode)
      → Returns (Fits (length output)) (memory_regions_of fdt output o)
  memory_regions_of-Fits output none = returns (omega arith, refl)
  memory_regions_of-Fits output (some root) =
      Returns-then _ (cells_or-Returns root address_cells_name 2) λ address_cells _.
        Returns-then _ (cells_or-Returns root size_cells_name 1) λ size_cells _.
          for_each_child-Returns fdt small (Fits (length output))
            (visit_memory fdt address_cells size_cells)
            (visit_memory-Fits (length output) address_cells size_cells) root (0, output)
            (omega arith, refl)

  any_node : {P : FdtNode → Type 0} {s : Search FdtNode} → Finds P s → Finds (λ node. Unit {0}) s
  any_node (gives h) = gives tt
  any_node misses = misses

  pub root_node-Returns : Returns (Holds (λ node. Unit {0})) (attempt (root_node fdt))
  unfolding root_node
  root_node-Returns = Returns-attempt (any_node (node_at_offset-Finds fdt small 0))

  pub memory_regions-Fits :
      (output : List MemoryRegion) → Returns (Fits (length output)) (memory_regions fdt output)
  unfolding memory_regions
  memory_regions-Fits output =
      Returns-then _ root_node-Returns λ root _. memory_regions_of-Fits output root

  store_entry-Fits :
      (capacity fuel : ℕ) (filled : Filled) (o : Option FdtReserveEntry)
      → ((more : Filled)
          → Fits capacity more
          → capacity < fuel + more.0
          → Returns (Fits capacity) (reserve_map_loop fuel fdt more))
      → Fits capacity filled
      → capacity < suc fuel + filled.0
      → Returns (Fits capacity) (store_entry (reserve_map_loop fuel fdt) filled o)
  store_entry-Fits capacity fuel (count, output) none next fits enough = returns fits
  store_entry-Fits capacity fuel (count, output) (some entry) next (inside, size) enough =
      elim (Bool-cases (count == length output)) [
        | inl full ↦ rw full (returns (inside, size))
        | inr room ↦
            let region : MemoryRegion = record { base = entry.address; size = entry.size } in
            let below : count < length output = ground (arith, room, inside) in
            rw (room, lt→ltb count (length output) below)
              (next (count + 1, set output count region)
                (
                  omega (arith, length-set output count region),
                  length-set output count region ∙ size,
                )
                (omega arith))
      ]

  reserve_map_loop-Fits :
      (capacity fuel : ℕ) (filled : Filled)
      → Fits capacity filled
      → capacity < fuel + filled.0
      → Returns (Fits capacity) (reserve_map_loop fuel fdt filled)
  unfolding reserve_map_loop
  reserve_map_loop-Fits capacity zero (count, output) (inside, size) enough = absurd (omega arith)
  reserve_map_loop-Fits capacity (suc fuel) (count, output) fits enough =
      store_entry-Fits capacity fuel (count, output) (reserve_entry fdt count)
        (reserve_map_loop-Fits capacity fuel) fits enough

  found_value : {A : Type 0} (o : Option A) → Finds (λ a. Unit {0}) (found (ok o))
  found_value none = misses
  found_value (some a) = gives tt

  found-Finds :
      {A : Type 0} {r : Run (Option A)}
      → Returns (λ o. Unit {0}) r
      → Finds (λ a. Unit {0}) (found r)
  found-Finds (returns {a} h) = found_value a

  match_child-Returns :
      (name : List ℕ) (child : FdtNode) (result : Option FdtNode)
      → Unit {0}
      → Returns (λ r. Unit {0}) (match_child name child result)
  match_child-Returns name child result _ =
      Returns-if (bytes_eq child.name name) _ _ (returns tt) (returns tt)

  find_components-Finds :
      (node : FdtNode) (components : List (List ℕ))
      → Finds (λ found_node. Unit {0}) (find_components fdt node components)
  unfolding find_components find_child
  find_components-Finds node [] = gives tt
  find_components-Finds node (component ∷ components) = Finds-if (is_empty component) _ _ misses (
      Finds-then _
        (found-Finds (
          for_each_child-Returns fdt small (λ o. Unit {0}) (match_child component)
            (match_child-Returns component) node none tt))
        λ child _. find_components-Finds child components)

  pub find_node-Finds : (path : List ℕ) → Finds (λ node. Unit {0}) (find_node fdt path)
  unfolding find_node root_node
  find_node-Finds path =
      Finds-if (bytes_eq path (b'/' ∷ [])) _ _ (any_node (node_at_offset-Finds fdt small 0)) (
        Finds-if (is_empty (split_slash path).0) _ _
          (Finds-then _ (node_at_offset-Finds fdt small 0)
            λ node _. find_components-Finds node (split_slash path).1)
          misses)

  pub reserved_cells-Returns :
      (node : FdtNode) (root_address_cells root_size_cells : ℕ)
      → Returns (λ c. Unit {0}) (reserved_cells fdt node root_address_cells root_size_cells)
  reserved_cells-Returns node root_address_cells root_size_cells =
      Returns-then _ (cells_or-Returns node address_cells_name root_address_cells)
        λ address_cells _.
          Returns-then _ (cells_or-Returns node size_cells_name root_size_cells)
            λ size_cells _. returns tt

  visit_reserved_reg-Fits :
      (capacity address_cells size_cells : ℕ) (node : FdtNode) (filled : Filled)
      → Fits capacity filled
      → Returns
          (λ r. Fits capacity r.1)
          (visit_reserved_reg fdt address_cells size_cells node filled)
  unfolding visit_reserved_reg
  visit_reserved_reg-Fits capacity address_cells size_cells node (count, output) fits =
      Returns-if (count == length output) _ _ (returns fits) (
        Returns-then _ (get_reg node (codes "reg")) λ reg value.
          decode_reg-Fits capacity address_cells size_cells reg (count, output) value fits)

  reserved_memory_regions_of-Fits :
      (root_address_cells root_size_cells : ℕ) (output : List MemoryRegion) (o : Option FdtNode)
      → Returns
          (Fits (length output))
          (reserved_memory_regions_of fdt root_address_cells root_size_cells output o)
  reserved_memory_regions_of-Fits root_address_cells root_size_cells output none =
      returns (omega arith, refl)
  reserved_memory_regions_of-Fits root_address_cells root_size_cells output (some node) =
      Returns-then _ (reserved_cells-Returns node root_address_cells root_size_cells) λ c _.
        for_each_child-Returns fdt small (Fits (length output)) (visit_reserved_reg fdt c.0 c.1)
          (visit_reserved_reg-Fits (length output) c.0 c.1) node (0, output) (omega arith, refl)

  reserved_memory_regions-Fits :
      (root_address_cells root_size_cells : ℕ) (output : List MemoryRegion)
      → Returns
          (Fits (length output))
          (reserved_memory_regions fdt root_address_cells root_size_cells output)
  unfolding reserved_memory_regions
  reserved_memory_regions-Fits root_address_cells root_size_cells output =
      Returns-then _ (Returns-attempt (find_node-Finds reserved_memory_path))
        λ node _. reserved_memory_regions_of-Fits root_address_cells root_size_cells output node

  pub reserve_map_regions-Fits :
      (output : List MemoryRegion) → Returns (Fits (length output)) (reserve_map_regions fdt output)
  unfolding reserve_map_regions
  reserve_map_regions-Fits output =
      reserve_map_loop-Fits (length output) (length output + 1) (0, output) (omega arith, refl)
        (omega arith)

  reserved_regions_from-Fits :
      (output : List MemoryRegion) (o : Option FdtNode)
      → Returns (Fits (length output)) (reserved_regions_from fdt output o)
  reserved_regions_from-Fits output none = returns (omega arith, refl)
  reserved_regions_from-Fits output (some root) =
      Returns-then _ (cells_or-Returns root address_cells_name 2) λ a _.
        Returns-then _ (cells_or-Returns root size_cells_name 1) λ s _.
          Returns-then _ (reserve_map_regions-Fits output) λ r fits.
            Returns-if (ltb r.0 (length r.1)) _ _
              (fill_rest-Fits (length output) (reserved_memory_regions fdt a s) r
                (reserved_memory_regions-Fits a s) fits)
              (returns fits)

  pub reserved_regions-Fits :
      (output : List MemoryRegion) → Returns (Fits (length output)) (reserved_regions fdt output)
  unfolding reserved_regions
  reserved_regions-Fits output =
      Returns-then _ root_node-Returns λ root _. reserved_regions_from-Fits output root

-- Whatever the bytes of a blob are, memory_regions and reserved_regions end, without a panic and within
-- their fuel, with a count of regions that is at most the length of the output, which they keep.
pub regions-Fits :
    (fdt : Fdt) (output : List MemoryRegion)
    → IsValue fdt.structure
    → Returns (Fits (length output)) (memory_regions fdt output)
      × Returns (Fits (length output)) (reserved_regions fdt output)
regions-Fits fdt output (small, bytes) =
    (memory_regions-Fits fdt small bytes output, reserved_regions-Fits fdt small bytes output)
