-- ===== src/Dtb/Tree.antt =====
-- src/dtb_read.rs: trees, and the structure blocks that stand for them.
pub mod Reads
pub mod Walks
pub mod Children
pub mod Properties
use rustfirmware.Base.{
  ℕ, zero, suc, ◌+◌, ◌-◌, ◌*◌, ◌/◌, ◌%◌, ◌^◌, ◌<◌, ◌≡◌, ◌≢◌, List, [], ◌∷◌, ◌++◌, some, length,
  replicate,
}
use rustfirmware.Base.Bytes.{to_be_bytes}
use rustfirmware.Dtb.Bytes.{from_utf8}
use rustfirmware.Dtb.Structure.{FdtNode}

-- What stands between the name of a node and its end: properties, each with the offset of its name in
-- the strings block and its value, padding, and nodes.
pub data Items : Type 0 where
  done : Items
  property : ℕ → List ℕ → Items → Items
  padding : Items → Items
  child : List ℕ → Items → Items → Items

-- Rounded up to words of four bytes.
abbrev pub up4 : ℕ → ℕ
up4 n = (n + 3) / 4 * 4

abbrev pub padded : List ℕ → List ℕ
padded bytes = bytes ++ replicate (up4 (length bytes) - length bytes) 0

-- The first token of a node, with its name.
abbrev pub node_start : List ℕ → List ℕ
node_start name = to_be_bytes 1 ++ padded (name ++ 0 ∷ [])

abbrev pub property_start : ℕ → List ℕ → List ℕ
property_start name_offset value =
    to_be_bytes 3 ++ (to_be_bytes (length value) ++ (to_be_bytes name_offset ++ padded value))

abbrev pub items_text : Items → List ℕ
items_text done = []
items_text (property name_offset value items) = property_start name_offset value ++ items_text items
items_text (padding items) = to_be_bytes 4 ++ items_text items
items_text (child name inner items) =
    node_start name ++ (items_text inner ++ (to_be_bytes 2 ++ items_text items))

abbrev pub node_text : List ℕ → Items → List ℕ
node_text name inner = node_start name ++ (items_text inner ++ to_be_bytes 2)

abbrev pub NoZero : List ℕ → Type 0
NoZero [] = Unit {0}
NoZero (c ∷ codes) = (c ≢ 0) × NoZero codes

abbrev pub IsName : List ℕ → Type 0
IsName name = NoZero name × (from_utf8 name ≡ some name)

-- Names are texts without zero bytes, and the numbers have 32 bits.
abbrev pub IsTree : Items → Type 0
IsTree done = Unit {0}
IsTree (property name_offset value items) =
    (name_offset < 2 ^ 32) × (length value < 2 ^ 32) × IsTree items
IsTree (padding items) = IsTree items
IsTree (child name inner items) = IsName name × IsTree inner × IsTree items

-- The tokens of the items.
abbrev pub tokens : Items → ℕ
tokens done = 0
tokens (property name_offset value items) = suc (tokens items)
tokens (padding items) = suc (tokens items)
tokens (child name inner items) = suc (tokens inner + suc (tokens items))

-- The node that begins at an offset.
abbrev pub node_of : ℕ → List ℕ → Items → FdtNode
node_of offset name inner = record {
  name = name;
  begin_offset = offset;
  end_offset = offset + length (node_start name) + length (items_text inner);
}

-- The nodes among the items, in their order.
abbrev pub children : ℕ → Items → List FdtNode
children offset done = []
children offset (property name_offset value items) =
    children (offset + length (property_start name_offset value)) items
children offset (padding items) = children (offset + 4) items
children offset (child name inner items) =
    node_of offset name inner ∷ children (offset + length (node_text name inner)) items
