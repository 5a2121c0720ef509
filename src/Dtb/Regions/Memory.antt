-- ===== src/Dtb/Regions/Memory.antt =====
-- src/dtb_memory.rs: the regions of RAM that a tree names.
use Prim.Native.Nat.{min}
use rustfirmware.Base.{
  ℕ, ◌+◌, ◌≡◌, refl, Bool, true, false, not, List, [], ◌∷◌, ◌++◌, append-nil, Option, none, some,
  length, take, drop, length-append, ◌==◌, if◌then◌else◌, ok, err, panic, out_of_fuel, ok_or, ◌>>=◌,
  arith,
}
use rustfirmware.Base.Bytes.{to_be_bytes, AllBytes}
use rustfirmware.Base.Text.{codes}
use rustfirmware.Memory.Types.{MemoryRegion}
use rustfirmware.Dtb.Bytes.{absent, Search, Run, attempt, unwrap_or, read_be_u32_from_slice}
use rustfirmware.Dtb.Blob.{Fdt}
use rustfirmware.Dtb.Structure.{root_node, c_string}
use rustfirmware.Dtb.Query.{get_property, get_property_u32, get_property_string}
use rustfirmware.Dtb.Total.{Finds, gives, misses, Finds-then, Finds-or}
use rustfirmware.Dtb.Total.Reads.{IsSlice, IsValue, c_string-Finds}
use rustfirmware.Dtb.Total.Walks.{get_property-Finds}
use rustfirmware.Dtb.Tree.{
  Items, done, property, padding, child, node_start, property_start, items_text, node_text, IsName,
  IsTree, node_of, children,
}
use rustfirmware.Dtb.Tree.Reads.{At, At-skip, length-property_start}
use rustfirmware.Dtb.Tree.Walks.{At-assoc, At-child, node_at_offset-node_of}
use rustfirmware.Dtb.Tree.Children.{
  visit_nodes, for_each_child-visit_nodes, At-node, length-node_text,
}
use rustfirmware.Dtb.Tree.Properties.{property_value, get_property-property_value}
use rustfirmware.Dtb.Regions.{
  Filled, cells_or, address_cells_name, size_cells_name, is_memory_name, is_memory_type,
  visit_memory, memory_regions,
}
use rustfirmware.Dtb.Regions.Decode.{stored}
use rustfirmware.Dtb.Regions.Filled.{
  reg_regions, filled_by, filled_by-nil, decode_reg-filled, filled_by-full, filled_by-append,
  filled_by-split,
}

-- The value that a search gives.
abbrev pub optional : {A : Type 0} → Search A → Option A
optional (ok a) = some a
optional (err e) = none
optional panic = none
optional out_of_fuel = none

abbrev pub text_of : Search (List ℕ) → Search (List ℕ)
text_of search = search >>= λ value. c_string value >>= λ r. ok r.0

abbrev pub number_of : Search (List ℕ) → Search ℕ
number_of search = search >>= λ value. ok_or (read_be_u32_from_slice value 0) absent

-- The number of cells that a node names.
abbrev pub cells_of : Fdt → List ℕ → ℕ → Items → ℕ
cells_of fdt name default inner =
    unwrap_or (optional (number_of (property_value fdt name inner))) default

module _ (fdt : Fdt) (address_cells size_cells : ℕ) where
  -- A child is a node of RAM by its name, and by its device type if it has one.
  abbrev pub node_regions : List ℕ → Items → List MemoryRegion
  node_regions name inner =
      if is_memory_name name
      then (if is_memory_type (optional (text_of (property_value fdt (codes "device_type") inner)))
          then reg_regions address_cells size_cells
              (optional (property_value fdt (codes "reg") inner))
          else [])
      else []

  -- The regions of all such children, in their order.
  abbrev pub tree_regions : Items → List MemoryRegion
  tree_regions done = []
  tree_regions (property name_offset value items) = tree_regions items
  tree_regions (padding items) = tree_regions items
  tree_regions (child name inner items) = node_regions name inner ++ tree_regions items

attempt-optional :
    {A : Type 0} {P : A → Type 0} {s : Search A} → Finds P s → attempt s ≡ ok (optional s)
attempt-optional (gives h) = refl
attempt-optional misses = refl

-- The tests of a child, of which the regions are known.
child_tests :
    (by_name by_type : Bool) (regions before rest : List MemoryRegion)
    → ◌≡◌ {A = Run (Bool × Filled)}
        (if not by_name
          then ok (true, (length before, before ++ rest))
          else (if not by_type
              then ok (true, (length before, before ++ rest))
              else ok (true, filled_by regions before rest)))
        (ok
          (true, filled_by (if by_name then (if by_type then regions else []) else []) before rest))
child_tests false by_type regions before rest = rw (filled_by-nil before rest) refl
child_tests true false regions before rest = rw (filled_by-nil before rest) refl
child_tests true true regions before rest = refl

module _ (fdt : Fdt) (small : IsSlice fdt.structure) (bytes : AllBytes fdt.structure) where
  module _ (pre name rest_ : List ℕ) (inner : Items) (offset : ℕ)
      (a : At fdt small pre (node_text name inner ++ rest_) offset) (n : IsName name)
      (t : IsTree inner) where
    value-Finds : (property_name : List ℕ) → Finds IsValue (property_value fdt property_name inner)
    value-Finds property_name =
        rw (← get_property-property_value fdt small property_name pre name rest_ inner offset a n t)
          (get_property-Finds fdt small bytes (node_of offset name inner) property_name)

    get_reg-at :
        (property_name : List ℕ)
        → attempt (get_property fdt (node_of offset name inner) property_name)
          ≡ ok (optional (property_value fdt property_name inner))
    get_reg-at property_name =
        rw (get_property-property_value fdt small property_name pre name rest_ inner offset a n t)
          (attempt-optional (value-Finds property_name))

    get_text-at :
        (property_name : List ℕ)
        → attempt (get_property_string fdt (node_of offset name inner) property_name)
          ≡ ok (optional (text_of (property_value fdt property_name inner)))
    unfolding get_property_string
    get_text-at property_name =
        rw (get_property-property_value fdt small property_name pre name rest_ inner offset a n t) (
          attempt-optional (
            Finds-then {Q = λ text. Unit {0}} _ (value-Finds property_name)
              λ value _. Finds-then _ (c_string-Finds fdt small value) λ r _. gives tt))

    pub cells_or-at :
        (property_name : List ℕ) (default : ℕ)
        → cells_or fdt (node_of offset name inner) property_name default
          ≡ ok (cells_of fdt property_name default inner)
    unfolding get_property_u32
    cells_or-at property_name default =
        rw
          (
            get_property-property_value fdt small property_name pre name rest_ inner offset a n t,
            attempt-optional (
                Finds-then {Q = λ c. Unit {0}} _ (value-Finds property_name)
                  λ value _. Finds-or (read_be_u32_from_slice value 0) λ c _. tt),
          )
          refl

    optional-IsValue :
        {s : Search (List ℕ)}
        → Finds IsValue s
        → elim (optional s) as (λ o. Type 0) [ none ↦ Unit {0} | some reg ↦ IsValue reg ]
    optional-IsValue (gives h) = h
    optional-IsValue misses = tt

    visit_memory-full :
        (address_cells size_cells : ℕ) (before : List MemoryRegion)
        → visit_memory fdt address_cells size_cells
            (node_of offset name inner)
            (length before, before ++ [])
          ≡ ok (false, (length before, before ++ []))
    unfolding visit_memory
    visit_memory-full address_cells size_cells before =
        let full : (length before == length (before ++ [])) ≡ true =
          ground (arith, length-append before []) in
        rw full refl

    visit_memory-room :
        (address_cells size_cells : ℕ) (before rest : List MemoryRegion) (old : MemoryRegion)
        → visit_memory fdt address_cells size_cells
            (node_of offset name inner)
            (length before, before ++ old ∷ rest)
          ≡ ok (
            true,
            filled_by (node_regions fdt address_cells size_cells name inner) before (old ∷ rest),
          )
    unfolding visit_memory
    visit_memory-room address_cells size_cells before rest old =
        let room : (length before == length (before ++ old ∷ rest)) ≡ false =
          ground (arith, length-append before (old ∷ rest)) in
        let device = optional (text_of (property_value fdt (codes "device_type") inner)) in
        rw
          (
            room,
            get_text-at (codes "device_type"),
            get_reg-at (codes "reg"),
            decode_reg-filled address_cells size_cells
                (optional (property_value fdt (codes "reg") inner)) before (old ∷ rest)
                (optional-IsValue (value-Finds (codes "reg"))),
          )
          (child_tests (is_memory_name name) (is_memory_type device)
            (reg_regions address_cells size_cells
              (optional (property_value fdt (codes "reg") inner)))
            before (old ∷ rest))

  -- The callback at the children of a tree stores the regions of each in turn.
  visit_nodes-filled :
      (address_cells size_cells : ℕ) (items : Items) (offset : ℕ) (pre after : List ℕ)
      (before rest : List MemoryRegion)
      → At fdt small pre (items_text items ++ after) offset
      → IsTree items
      → visit_nodes
          (visit_memory fdt address_cells size_cells)
          (children offset items)
          (length before, before ++ rest)
        ≡ ok (filled_by (tree_regions fdt address_cells size_cells items) before rest)
  visit_nodes-filled address_cells size_cells done offset pre after before rest a t =
      rw (filled_by-nil before rest) refl
  visit_nodes-filled address_cells size_cells (property name_offset value items) offset pre after
        before rest a (_, _, t) =
      let skip = property_start name_offset value in
      let b = At-assoc fdt small pre skip (items_text items) after offset a in
      visit_nodes-filled address_cells size_cells items (offset + length skip) (pre ++ skip) after
        before rest
        (At-skip fdt small pre skip (items_text items ++ after) offset (offset + length skip) b refl
          (omega (arith, a.aligned, length-property_start name_offset value)))
        t
  visit_nodes-filled address_cells size_cells (padding items) offset pre after before rest a t =
      visit_nodes-filled address_cells size_cells items (offset + 4) (pre ++ to_be_bytes 4) after
        before rest
        (At-skip fdt small pre (to_be_bytes 4) (items_text items ++ after) offset (offset + 4) a
          (omega arith) (omega (arith, a.aligned)))
        t
  visit_nodes-filled address_cells size_cells (child name inner items) offset pre after before [] a
        (n, t, u) =
      let (b, _, _, _) = At-child fdt small pre name inner (items_text items) after offset a in
      let c = At-node fdt small pre name (items_text items ++ after) inner offset b in
      rw
        (
          visit_memory-full pre name (items_text items ++ after) inner offset c n t address_cells
              size_cells before,
          filled_by-full (tree_regions fdt address_cells size_cells (child name inner items))
              before,
          append-nil before,
        )
        refl
  visit_nodes-filled address_cells size_cells (child name inner items) offset pre after before
        (old ∷ rest) a (n, t, u) =
      let (b, _, _, d) = At-child fdt small pre name inner (items_text items) after offset a in
      let c = At-node fdt small pre name (items_text items ++ after) inner offset b in
      let regions = node_regions fdt address_cells size_cells name inner in
      let before' = before ++ take (length (old ∷ rest)) regions in
      let rest' = drop (length regions) (old ∷ rest) in
      let place : offset + length (node_start name) + length (items_text inner) + 4
          ≡ offset + length (node_text name inner) =
        omega (arith, length-node_text name inner) in
      let same : filled_by regions before (old ∷ rest) ≡ (length before', before' ++ rest') =
        filled_by-split regions before (old ∷ rest) in
      rw
        (
          visit_memory-room pre name (items_text items ++ after) inner offset c n t address_cells
              size_cells before rest old,
          same,
          filled_by-append regions (tree_regions fdt address_cells size_cells items) before
              (old ∷ rest),
        )
        (visit_nodes-filled address_cells size_cells items (offset + length (node_text name inner))
          _ after before' rest' (rw place at d) u)

-- For a structure block that begins with a tree, memory_regions writes the regions of RAM that the tree
-- names to the output, in their order, and leaves the rest of it as it was; where the output is too
-- short it is filled. The root names the numbers of cells, or they are two for an address and one for
-- a size.
pub memory_regions-tree_regions :
    (fdt : Fdt) (output : List MemoryRegion) (name after : List ℕ) (inner : Items)
    → IsValue fdt.structure
    → fdt.structure ≡ node_text name inner ++ after
    → IsName name
    → IsTree inner
    → let regions =
        tree_regions fdt
          (cells_of fdt address_cells_name 2 inner)
          (cells_of fdt size_cells_name 1 inner)
          inner in
      memory_regions fdt output ≡ ok (min (length regions) (length output), stored regions output)
unfolding memory_regions root_node
memory_regions-tree_regions fdt output name after inner (small, bytes) whole n t =
    let a : At fdt small [] (node_text name inner ++ after) 0 = record {
      whole = whole;
      here = refl;
      aligned = refl;
    } in
    let (_, b, _, _) = At-child fdt small [] name inner [] after 0 a in
    let regions =
      tree_regions fdt (cells_of fdt address_cells_name 2 inner)
        (cells_of fdt size_cells_name 1 inner) inner in
    let none_before : 0 + min (length regions) (length output)
        ≡ min (length regions) (length output) =
      omega arith in
    rw
      (
        node_at_offset-node_of fdt small [] name after inner 0 a n t,
        cells_or-at fdt small bytes [] name after inner 0 a n t address_cells_name 2,
        cells_or-at fdt small bytes [] name after inner 0 a n t size_cells_name 1,
        for_each_child-visit_nodes fdt small
            (visit_memory fdt (cells_of fdt address_cells_name 2 inner)
              (cells_of fdt size_cells_name 1 inner))
            [] name after inner 0 (0, output) a n t,
        visit_nodes-filled fdt small bytes (cells_of fdt address_cells_name 2 inner)
            (cells_of fdt size_cells_name 1 inner) inner (0 + length (node_start name)) _ _ []
            output b t,
      )
      (rw none_before refl)
