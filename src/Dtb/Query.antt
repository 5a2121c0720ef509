-- ===== src/Dtb/Query.antt =====
-- src/dtb_read.rs: finding nodes by name and by path, and properties.
use rustfirmware.Base.{
  ℕ, zero, suc, ◌+◌, Bool, true, false, List, [], ◌∷◌, Option, none, some, length, leb, ◌==◌,
  if◌then◌else◌, ok, err, panic, out_of_fuel, ok_or, ◌>>=◌,
}
use rustfirmware.Base.Bytes.{bytes_eq}
use rustfirmware.Base.Word.{checked_add}
use rustfirmware.Dtb.Bytes.{
  absent, Search, Run, wrapping_add, get_range, align4, read_be_u32_from_slice,
  read_be_u64_from_slice,
}
use rustfirmware.Dtb.Blob.{Fdt}
use rustfirmware.Dtb.Structure.{
  fdt_prop, fdt_nop, FdtNode, read_token, c_string, string_at, after_begin_node, root_node,
  for_each_child,
}

-- The value of a search whose result a callback has set.
abbrev pub found : {A : Type 0} → Run (Option A) → Search A
found (ok none) = err absent
found (ok (some a)) = ok a
found (err e) = absurd e
found panic = panic
found out_of_fuel = out_of_fuel

abbrev pub match_child : List ℕ → FdtNode → Option FdtNode → Run (Bool × Option FdtNode)
match_child name child result =
    if bytes_eq child.name name then ok (false, some child) else ok (true, result)

unfoldable pub find_child : Fdt → FdtNode → List ℕ → Search FdtNode
find_child fdt parent name = found (for_each_child fdt (match_child name) parent none)

-- `path.split('/')`: the part before the first slash, and the others.
unfoldable pub split_slash : List ℕ → List ℕ × List (List ℕ)
split_slash [] = ([], [])
split_slash (char ∷ path) =
    let (first, others) = split_slash path in
    if char == b'/' then ([], first ∷ others) else (char ∷ first, others)

abbrev pub is_empty : List ℕ → Bool
is_empty [] = true
is_empty (x ∷ xs) = false

unfoldable pub find_components : Fdt → FdtNode → List (List ℕ) → Search FdtNode
find_components fdt node [] = ok node
find_components fdt node (component ∷ components) =
    if is_empty component
    then err absent
    else (do child ← find_child fdt node component; find_components fdt child components)

unfoldable pub find_node : Fdt → List ℕ → Search FdtNode
find_node fdt path =
    if bytes_eq path (b'/' ∷ [])
    then root_node fdt
    else (let (first, components) = split_slash path in
        if is_empty first
        then (do node ← root_node fdt; find_components fdt node components)
        else err absent)

-- One token of the loop of `get_property`; `next` is the rest of the loop.
unfoldable pub property_step : (ℕ → Search (List ℕ)) → Fdt → List ℕ → ℕ → ℕ → Search (List ℕ)
property_step next fdt property_name offset token =
    if token == fdt_prop
    then (do
      value_length ← ok_or (read_token fdt (wrapping_add offset 4)) absent
      name_offset ← ok_or (read_token fdt (wrapping_add offset 8)) absent
      let value_offset = wrapping_add offset 12
      value_end ← ok_or (checked_add value_offset value_length) absent
      name ← string_at fdt name_offset
      if bytes_eq name property_name
          then ok_or (get_range fdt.structure value_offset value_end) absent
          else next (align4 value_end))
    else if token == fdt_nop
    then next (wrapping_add offset 4)
    else err absent

unfoldable pub property_loop : ℕ → Fdt → List ℕ → ℕ → ℕ → Search (List ℕ)
property_loop zero fdt property_name end_offset offset = out_of_fuel
property_loop (suc fuel) fdt property_name end_offset offset =
    if leb end_offset offset then err absent else (do
      token ← ok_or (read_token fdt offset) absent
      property_step (property_loop fuel fdt property_name end_offset) fdt property_name offset
          token)

unfoldable pub get_property : Fdt → FdtNode → List ℕ → Search (List ℕ)
get_property fdt node property_name = do
  offset ← after_begin_node fdt node.begin_offset
  property_loop (length fdt.structure + 1) fdt property_name node.end_offset offset

unfoldable pub get_property_u32 : Fdt → FdtNode → List ℕ → Search ℕ
get_property_u32 fdt node property_name = do
  value ← get_property fdt node property_name
  ok_or (read_be_u32_from_slice value 0) absent

unfoldable pub get_property_u64 : Fdt → FdtNode → List ℕ → Search ℕ
get_property_u64 fdt node property_name = do
  value ← get_property fdt node property_name
  ok_or (read_be_u64_from_slice value 0) absent

unfoldable pub get_property_string : Fdt → FdtNode → List ℕ → Search (List ℕ)
get_property_string fdt node property_name = do
  property ← get_property fdt node property_name
  (text, _) ← c_string property
  ok text
