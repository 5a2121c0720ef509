-- ===== src/Dtb/Tests.antt =====
-- src/dtb_read.rs and src/dtb_memory.rs: a small tree and its blob.
use Prim.Native.Nat.{min}
use rustfirmware.Base.{
  ℕ, zero, suc, ◌+◌, ◌<◌, ◌≡◌, refl, Bool, true, false, List, [], ◌∷◌, ◌++◌, some, length,
  replicate, ok, arith,
}
use rustfirmware.Base.Bytes.{to_be_bytes, AllBytes, bytes_eq}
use rustfirmware.Base.Text.{codes}
use rustfirmware.Memory.Types.{MemoryRegion}
use rustfirmware.Dtb.Bytes.{
  get_from, position_nul, read_be_u32_from_slice, get_range, Run, utf8_first, utf8_next, utf8_from,
  from_utf8,
}
use rustfirmware.Dtb.Blob.{Fdt, from_ptr, validate_dtb_pointer, read_be_u32, from_header, section}
use rustfirmware.Dtb.Blob.Opens.{Opens, from_ptr-Opens}
use rustfirmware.Dtb.Structure.{FdtNode, string_at, node_at_offset, for_each_child}
use rustfirmware.Dtb.Query.{get_property}
use rustfirmware.Dtb.Total.{Returns}
use rustfirmware.Dtb.Total.Reads.{IsValue}
use rustfirmware.Dtb.Tree.{
  Items, done, property, padding, child, node_start, node_text, IsName, IsTree, node_of, children,
}
use rustfirmware.Dtb.Tree.Reads.{At}
use rustfirmware.Dtb.Tree.Walks.{node_at_offset-node_of}
use rustfirmware.Dtb.Tree.Children.{visit_nodes, for_each_child-visit_nodes}
use rustfirmware.Dtb.Tree.Properties.{property_value, get_property-property_value}
use rustfirmware.Dtb.Regions.{
  is_memory_name, starts_with, address_cells_name, size_cells_name, memory_regions,
  reserved_regions,
}
use rustfirmware.Dtb.Regions.Decode.{stored}
use rustfirmware.Dtb.Regions.Ends.{Fits, regions-Fits}
use rustfirmware.Dtb.Regions.Memory.{tree_regions, cells_of, memory_regions-tree_regions}

-- The strings block, and the offsets of the names in it.
abbrev names : List ℕ
names = codes "#address-cells" ++ 0 ∷ codes "#size-cells" ++ 0 ∷ codes "reg" ++ 0 ∷ []

abbrev memory_items : Items
memory_items = property 27 (to_be_bytes 0x80000000 ++ to_be_bytes 0x2000) done

-- A root with one cell for an address and one for a size, and 8 KiB of RAM.
abbrev pub root_items : Items
root_items =
    property 0 (to_be_bytes 1)
      (property 15 (to_be_bytes 1) (padding (child (codes "memory@80000000") memory_items done)))

abbrev pub small_fdt : Fdt
small_fdt = record {
  base = 0x1000;
  total_size = 0x200;
  reserve_map = [];
  structure = node_text [] root_items;
  strings = names;
}

abbrev pub no_regions : List MemoryRegion
no_regions = replicate 2 (record { base = 0; size = 0 })

pub structure-IsValue : IsValue small_fdt.structure
structure-IsValue = omega arith

names_are_texts :
    (from_utf8 (codes "memory@80000000") ≡ some (codes "memory@80000000"))
    × (from_utf8 [] ≡ some [])
unfolding from_utf8 utf8_from utf8_next utf8_first
names_are_texts = (refl, refl)

memory-IsName : IsName (codes "memory@80000000")
memory-IsName = (omega arith, names_are_texts.0)

pub root-IsTree : IsTree root_items
root-IsTree = (
  omega arith,
  omega arith,
  (omega arith, omega arith, (memory-IsName, (omega arith, omega arith, tt), tt)),
)

pub root-IsName : IsName []
root-IsName = (tt, names_are_texts.1)

root-At : At small_fdt structure-IsValue.0 [] (node_text [] root_items ++ []) 0
root-At = record { whole = refl; here = refl; aligned = refl }

-- A blob with a header and nothing else: the sections are empty.
abbrev empty_blob : List ℕ
empty_blob =
    to_be_bytes 0xd00dfeed
    ++ (to_be_bytes 40
        ++ (to_be_bytes 40
            ++ (to_be_bytes 40
                ++ (to_be_bytes 40
                    ++ (to_be_bytes 17
                        ++ (to_be_bytes 16
                            ++ (to_be_bytes 0 ++ (to_be_bytes 0 ++ to_be_bytes 0))))))))

-- The memory in which a list of bytes lies, with zeros behind it.
abbrev memory_of : List ℕ → ℕ → ℕ
memory_of [] offset = 0
memory_of (byte ∷ bytes) zero = byte
memory_of (byte ∷ bytes) (suc offset) = memory_of bytes offset

memory_of-bytes : (bytes : List ℕ) → AllBytes bytes → (offset : ℕ) → memory_of bytes offset < 256
memory_of-bytes [] all offset = omega arith
memory_of-bytes (byte ∷ bytes) (small, all) zero = small
memory_of-bytes (byte ∷ bytes) (small, all) (suc offset) = memory_of-bytes bytes all offset

empty_blob_opens :
    from_ptr 0x1000 (memory_of empty_blob)
    ≡ ok (record { base = 0x1000; total_size = 40; reserve_map = []; structure = []; strings = [] })
unfolding from_ptr validate_dtb_pointer read_be_u32 from_header section
empty_blob_opens = refl

from_ptr-Opens_example :
    Opens 0x1000 (memory_of empty_blob) (from_ptr 0x1000 (memory_of empty_blob))
from_ptr-Opens_example =
    from_ptr-Opens 0x1000 (memory_of empty_blob) (memory_of-bytes empty_blob (omega arith))

node_at_offset-node_of_example : node_at_offset small_fdt 0 ≡ ok (node_of 0 [] root_items)
node_at_offset-node_of_example =
    node_at_offset-node_of small_fdt structure-IsValue.0 [] [] [] root_items 0 root-At root-IsName
      root-IsTree

-- A callback that counts to two.
abbrev count_two : FdtNode → ℕ → Run (Bool × ℕ)
count_two node zero = ok (true, 1)
count_two node (suc n) = ok (false, 2)

for_each_child-visit_nodes_example :
    for_each_child small_fdt count_two (node_of 0 [] root_items) 0
    ≡ visit_nodes count_two (children (0 + length (node_start [])) root_items) 0
for_each_child-visit_nodes_example =
    for_each_child-visit_nodes small_fdt structure-IsValue.0 count_two [] [] [] root_items 0 0
      root-At root-IsName root-IsTree

get_property-property_value_example :
    get_property small_fdt (node_of 0 [] root_items) size_cells_name
    ≡ property_value small_fdt size_cells_name root_items
get_property-property_value_example =
    get_property-property_value small_fdt structure-IsValue.0 size_cells_name [] [] [] root_items 0
      root-At root-IsName root-IsTree

memory_regions-tree_regions_example :
    let regions =
      tree_regions small_fdt
        (cells_of small_fdt address_cells_name 2 root_items)
        (cells_of small_fdt size_cells_name 1 root_items)
        root_items in
    memory_regions small_fdt no_regions
    ≡ ok (min (length regions) (length no_regions), stored regions no_regions)
memory_regions-tree_regions_example =
    memory_regions-tree_regions small_fdt no_regions [] [] root_items structure-IsValue refl
      root-IsName root-IsTree

regions-Fits_example :
    Returns (Fits (length no_regions)) (memory_regions small_fdt no_regions)
    × Returns (Fits (length no_regions)) (reserved_regions small_fdt no_regions)
regions-Fits_example = regions-Fits small_fdt no_regions structure-IsValue

-- The region of the tree.
pub regions_found :
    tree_regions small_fdt
      (cells_of small_fdt address_cells_name 2 root_items)
      (cells_of small_fdt size_cells_name 1 root_items)
      root_items
    ≡ record { base = 0x80000000; size = 0x2000 } ∷ []
unfolding is_memory_name bytes_eq starts_with string_at get_from position_nul from_utf8 utf8_from
    read_be_u32_from_slice get_range
regions_found = refl
